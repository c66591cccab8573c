-- ===== src/Cache/Memory/Calls.antt =====
-- About the methods of internal/cache/memory.go when one goroutine has the cache to itself.
use grpm.Base.{ℕ, ◌≡◌, refl, inl, inr, true, Option, some, [], arith, Text, if_rule, Option-cases}
use grpm.Base.Assoc.{count, lookup}
use grpm.Cache.Entry.{CacheError}
use grpm.Cache.Memory.{
  MemoryEntry, MemoryCache, Outcome, GetResult, new_memory_cache, touch, get, get_key, add_one_i64,
  make_key, put_batch, drop_if_there, delete, drop_stale, stale_keys, invalidate, clear,
  invalidate_all, release, close, package_prefix,
}
use grpm.Cache.Memory.Order.{
  IsExact, IsLru, Method, call, do_get, do_delete, do_put, do_put_batch, do_invalidate,
  do_invalidate_all, do_close,
}
use grpm.Cache.Memory.Lru.{
  EndsLru, put-EndsLru, put_all-EndsLru, drop_key-IsLru, drop_keys-IsLru, IsLru-overwrite,
}

touch-IsLru :
    (k : Text) (now : ℕ) (c : MemoryCache) (old : MemoryEntry)
    → lookup k c.entries ≡ some old
    → IsLru c
    → IsLru (touch k now c)
unfolding touch
touch-IsLru k now c old e h =
    rw (e, touch) (IsLru-overwrite k (record old { last_access = now }) c old e h)

-- The counters are no part of the invariant.
counters-IsLru :
    (c : MemoryCache) (hits misses : ℕ)
    → IsLru c
    → IsLru (record c { hits = hits; misses = misses })
counters-IsLru c hits misses h = record {
  positive = h.positive;
  small = h.small;
  exact = record { once = h.exact.once; same = h.exact.same };
  open_map = h.open_map;
}

get_key-IsLru : (k : Text) (now : ℕ) (c : MemoryCache) → IsLru c → IsLru (get_key k now c).0
unfolding get_key
get_key-IsLru k now c h =
    if_rule (λ (r : MemoryCache × GetResult). IsLru r.0) c.closed _ _ (λ _. h)
      λ _. elim (Option-cases (lookup k c.entries)) [
        | inl e ↦ rw e (counters-IsLru c c.hits (add_one_i64 c.misses) h)
        | inr (me, e) ↦ rw e (
            counters-IsLru (touch k now c) (add_one_i64 c.hits) (touch k now c).misses
              (touch-IsLru k now c me e h))
      ]

empty-IsExact : (c : MemoryCache) → c.entries ≡ [] → c.order ≡ [] → IsExact c
unfolding count
empty-IsExact c e o = record { once = λ k. rw o (omega arith); same = λ k. rw (e, o) }

drop_if_there-IsLru : (k : Text) (c : MemoryCache) → IsLru c → IsLru (drop_if_there k c)
unfolding drop_if_there
drop_if_there-IsLru k c h = elim (Option-cases (lookup k c.entries)) [
  | inl e ↦ rw (e, drop_if_there) h
  | inr (old, e) ↦ rw (e, drop_if_there) (drop_key-IsLru k c h)
]

clear-IsLru : (c : MemoryCache) → IsLru c → IsLru (clear c)
unfolding clear
clear-IsLru c h = record {
  positive = h.positive;
  small = omega arith;
  exact = empty-IsExact (clear c) refl refl;
  open_map = λ _. refl;
}

close-IsLru : (c : MemoryCache) → IsLru c → IsLru (close c)
unfolding close
close-IsLru c h =
    if_rule IsLru c.closed _ _ (λ _. h)
      λ _. record {
        positive = h.positive;
        small = omega arith;
        exact = empty-IsExact (release (record c { closed = true })) refl refl;
        open_map = λ e. cc;
      }

-- Every method called by a goroutine that has the cache to itself ends with a cache, never in an
-- endless loop or a write to the nil map. The cache that it leaves holds at most its maximum of
-- entries, and its order lists exactly the keys of its map, each once.
pub call-EndsLru : (m : Method) (now : ℕ) (c : MemoryCache) → IsLru c → EndsLru (call m now c)
unfolding call get delete put_batch invalidate invalidate_all drop_stale
call-EndsLru (do_get category name version) now c h =
    (_, refl, get_key-IsLru (make_key category name version) now c h)
call-EndsLru (do_delete category name version) now c h = (
  _,
  refl,
  if_rule (λ (r : MemoryCache × Option CacheError). IsLru r.0) c.closed _ _ (λ _. h)
      (λ _. drop_if_there-IsLru (make_key category name version) c h),
)
call-EndsLru (do_put e) now c h = put-EndsLru e now c h
call-EndsLru (do_put_batch es) now c h =
    if_rule (λ (r : Outcome × Option CacheError). EndsLru r.0) c.closed _ _ (λ _. (c, refl, h))
      (λ _. put_all-EndsLru es now c h)
call-EndsLru (do_invalidate category name mtime) now c h = (
  _,
  refl,
  if_rule (λ (r : MemoryCache × Option CacheError). IsLru r.0) c.closed _ _ (λ _. h)
      (λ _. drop_keys-IsLru (stale_keys (package_prefix category name) mtime c.entries) c h),
)
call-EndsLru do_invalidate_all now c h = (
  _,
  refl,
  if_rule (λ (r : MemoryCache × Option CacheError). IsLru r.0) c.closed _ _ (λ _. h)
      (λ _. clear-IsLru c h),
)
call-EndsLru do_close now c h = (_, refl, close-IsLru c h)

pub new-IsLru : (n : ℕ) → IsLru (new_memory_cache n)
unfolding new_memory_cache
new-IsLru n = record {
  positive = ground arith;
  small = omega arith;
  exact = empty-IsExact (new_memory_cache n) refl refl;
  open_map = λ e. refl;
}

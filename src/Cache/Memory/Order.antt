-- ===== src/Cache/Memory/Order.antt =====
-- One goroutine alone: the invariant of the order of use in internal/cache/memory.go.
use grpm.Base.{
  ℕ, ◌≤◌, ◌<◌, ◌≡◌, ap, true, false, Option, some, List, [], ◌∷◌, ◌++◌, arith, length, leb, Text,
  text_eq_iff, text_eq_refl, if◌then◌else◌,
}
use grpm.Base.Assoc.{
  count, keys, lookup, insert, remove, remove_first, length-remove, count-append,
  count-remove_first, count-remove, lookup-count, keys-insert_old,
}
use grpm.Cache.Entry.{Entry}
use grpm.Cache.Memory.{
  MemoryEntry, MemoryCache, Outcome, stored, get, put, put_batch, drop_key, drop_keys, delete,
  invalidate, invalidate_all, close, evict_while_full,
}
use grpm.Cache.Memory.Eviction.{Entries, no_keys}

pub record IsExact (c : MemoryCache) : Type 0 where
  pub once : (k : Text) → count k c.order ≤ 1
  pub same : (k : Text) → count k (keys c.entries) ≡ count k c.order

-- The public methods. `do_put_batch` stands for `PutBatch`, and with one entry for `Put`.
pub data Method : Type 0 where
  do_get do_delete : Text → Text → Text → Method
  do_put : Option Entry → Method
  do_put_batch : List (Option Entry) → Method
  do_invalidate : Text → Text → ℕ → Method
  do_invalidate_all do_close : Method

-- What a call at time `now` makes of the cache.
unfoldable pub call : Method → ℕ → MemoryCache → Outcome
call (do_get category name version) now c = stored (get category name version now c).0
call (do_delete category name version) now c = stored (delete category name version c).0
call (do_put e) now c = (put e now c).0
call (do_put_batch es) now c = (put_batch es now c).0
call (do_invalidate category name mtime) now c = stored (invalidate category name mtime c).0
call do_invalidate_all now c = stored (invalidate_all c).0
call do_close now c = stored (close c)

-- A key that is there gets a new entry and moves to the end.
pub overwrite-IsExact :
    (k : Text) (me : MemoryEntry) (c : MemoryCache) (old : MemoryEntry)
    → lookup k c.entries ≡ some old
    → IsExact c
    → IsExact
        (record c { entries = insert k me c.entries; order = remove_first k c.order ++ k ∷ [] })
unfolding count
overwrite-IsExact k me c old e h = record {
  once = λ j. ground (
    arith,
    count-append j (remove_first k c.order) (k ∷ []),
    count-remove_first k j c.order,
    h.once j,
  );
  same = λ j. rw (keys-insert_old k me c.entries e) (
      ground (
        arith,
        count-append j (remove_first k c.order) (k ∷ []),
        count-remove_first k j c.order,
        text_eq_iff k j,
        lookup-count k c.entries e,
        h.same j,
        h.same k,
      ));
}

pub drop_key-IsExact : (k : Text) (c : MemoryCache) → IsExact c → IsExact (drop_key k c)
unfolding drop_key
drop_key-IsExact k c h = record {
  once = λ j. ground (arith, count-remove_first k j c.order, h.once j);
  same = λ j.
      ground
        (arith, count-remove_first k j c.order, count-remove k j c.entries, h.once j, h.same j);
}

pub drop_keys-IsExact : (ks : List Text) (c : MemoryCache) → IsExact c → IsExact (drop_keys ks c)
unfolding drop_keys
drop_keys-IsExact [] c h = h
drop_keys-IsExact (k ∷ ks) c h = drop_keys-IsExact ks (drop_key k c) (drop_key-IsExact k c h)

-- The invariant of a cache that one goroutine uses.
pub record IsLru (c : MemoryCache) : Type 0 where
  pub positive : 1 ≤ c.max_entries
  pub small : length c.entries ≤ c.max_entries
  pub exact : IsExact c
  pub open_map : c.closed ≡ false → c.released ≡ false

-- What the eviction loop should do before a new key: at the limit, drop the least recently used
-- entry, and no other.
abbrev pub drop_oldest : List Text → MemoryCache → MemoryCache
drop_oldest [] c = c
drop_oldest (oldest ∷ order) c = record c { entries = remove oldest c.entries; order = order }

abbrev pub make_room : MemoryCache → MemoryCache
make_room c = if leb c.max_entries (length c.entries) then drop_oldest c.order c else c

abbrev room_of : MemoryCache → Option (Entries × List Text)
room_of c = some (c.entries, c.order)

pub evict_stops :
    (max_entries : ℕ) (order : List Text) (entries : Entries)
    → length entries < max_entries
    → evict_while_full max_entries order entries ≡ some (entries, order)
unfolding evict_while_full
evict_stops max_entries [] entries h = ground arith
evict_stops max_entries (k ∷ order) entries h = ground arith

pub length-drop_oldest :
    (c : MemoryCache) (order : List Text)
    → IsLru c
    → leb c.max_entries (length c.entries) ≡ true
    → c.order ≡ order
    → length (drop_oldest order c).entries < c.max_entries
unfolding count
length-drop_oldest c [] h full e =
    let none_there = no_keys c.entries (λ k. rw (h.exact.same k) (rw e (omega arith))) in
    absurd (ground (arith, none_there, h.positive))
length-drop_oldest c (oldest ∷ order) h full e = ground (
  arith,
  length-remove oldest c.entries,
  h.exact.same oldest,
  h.exact.once oldest,
  ap (count oldest) e,
  text_eq_refl oldest,
  h.small,
)

pub evict_full :
    (c : MemoryCache) (order : List Text)
    → IsLru c
    → leb c.max_entries (length c.entries) ≡ true
    → c.order ≡ order
    → evict_while_full c.max_entries c.order c.entries ≡ room_of (drop_oldest c.order c)
unfolding evict_while_full
evict_full c [] h full e = absurd (ground (arith, length-drop_oldest c [] h full e))
evict_full c (oldest ∷ order) h full e =
    rw (e, full)
      (evict_stops c.max_entries order (remove oldest c.entries)
        (length-drop_oldest c (oldest ∷ order) h full e))

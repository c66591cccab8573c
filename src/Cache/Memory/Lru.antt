-- ===== src/Cache/Memory/Lru.antt =====
-- About `Put` of internal/cache/memory.go, the order of use and the invariant.
use grpm.Base.{
  ℕ, suc, ◌≤◌, ◌≡◌, refl, ap, inl, inr, false, Option, none, some, List, [], ◌∷◌, ◌++◌, arith,
  length, leb, Text, text_eq_iff, Bool-cases, if_rule, Option-cases,
}
use grpm.Base.Assoc.{
  count, lookup, insert, remove_first, count-append, count-remove, count-insert_new, lookup-remove,
  lookup-none-count, length-insert_new, length-insert_old, length-remove,
}
use grpm.Cache.Entry.{Entry, CacheError, key}
use grpm.Cache.Memory.{
  MemoryEntry, MemoryCache, Outcome, stored, store, add_new, put, put_all, stamped, drop_key,
  drop_keys, evict_while_full,
}
use grpm.Cache.Memory.Order.{
  IsExact, IsLru, drop_oldest, make_room, evict_full, evict_stops, length-drop_oldest,
  overwrite-IsExact, drop_key-IsExact,
}

-- `c` with a new key at the end of its order.
abbrev pub with_new : Text → MemoryEntry → MemoryCache → MemoryCache
with_new k me c = record c { entries = insert k me c.entries; order = c.order ++ k ∷ [] }

evict_make_room :
    (c : MemoryCache)
    → IsLru c
    → evict_while_full c.max_entries c.order c.entries
      ≡ some ((make_room c).entries, (make_room c).order)
evict_make_room c h = elim (Bool-cases (leb c.max_entries (length c.entries))) [
  | inl full ↦ rw full (evict_full c c.order h full refl)
  | inr free ↦ rw free (evict_stops c.max_entries c.order c.entries (ground arith))
]

drop_oldest_released :
    (order : List Text) (c : MemoryCache) → (drop_oldest order c).released ≡ c.released
drop_oldest_released [] c = refl
drop_oldest_released (k ∷ order) c = refl

make_room_released : (c : MemoryCache) → (make_room c).released ≡ c.released
make_room_released c = ground (arith, drop_oldest_released c.order c)

pub store_new :
    (k : Text) (me : MemoryEntry) (c : MemoryCache)
    → IsLru c
    → c.released ≡ false
    → lookup k c.entries ≡ none
    → store k me c
      ≡ stored (record c {
        entries = insert k me (make_room c).entries;
        order = (make_room c).order ++ k ∷ [];
      })
unfolding store
store_new k me c h live e = rw (e, store) (rw (evict_make_room c h) (rw (live, add_new)))

drop_oldest-IsExact :
    (order : List Text) (c : MemoryCache)
    → c.order ≡ order
    → IsExact c
    → IsExact (drop_oldest order c)
unfolding count
drop_oldest-IsExact [] c e h = h
drop_oldest-IsExact (o ∷ order) c e h = record {
  once = λ j. ground (arith, h.once j, ap (count j) e);
  same = λ j.
      ground
        (arith, h.once j, h.same j, ap (count j) e, count-remove o j c.entries, text_eq_iff o j);
}

make_room-IsExact : (c : MemoryCache) → IsExact c → IsExact (make_room c)
make_room-IsExact c h = elim (Bool-cases (leb c.max_entries (length c.entries))) [
  | inl full ↦ rw full (drop_oldest-IsExact c.order c refl h)
  | inr free ↦ rw free h
]

lookup-drop_oldest :
    (order : List Text) (c : MemoryCache) (k : Text)
    → lookup k c.entries ≡ none
    → lookup k (drop_oldest order c).entries ≡ none
lookup-drop_oldest [] c k h = h
lookup-drop_oldest (o ∷ order) c k h = ground (arith, lookup-remove o k c.entries)

pub lookup-make_room :
    (c : MemoryCache) (k : Text) → lookup k c.entries ≡ none → lookup k (make_room c).entries ≡ none
lookup-make_room c k h = ground (arith, lookup-drop_oldest c.order c k h)

with_new-IsExact :
    (k : Text) (me : MemoryEntry) (c : MemoryCache)
    → IsExact c
    → lookup k c.entries ≡ none
    → IsExact (with_new k me c)
unfolding count
with_new-IsExact k me c h e = record {
  once = λ j. ground (
    arith,
    count-append j c.order (k ∷ []),
    h.once j,
    h.same j,
    lookup-none-count k c.entries e,
    text_eq_iff k j,
  );
  same = λ j.
      ground
        (arith, count-append j c.order (k ∷ []), h.same j, count-insert_new k j me c.entries e);
}

length-make_room : (c : MemoryCache) → IsLru c → suc (length (make_room c).entries) ≤ c.max_entries
length-make_room c h = elim (Bool-cases (leb c.max_entries (length c.entries))) [
  | inl full ↦ rw full (length-drop_oldest c c.order h full refl)
  | inr free ↦ rw free (ground arith)
]

-- One critical section of a single goroutine ends, and keeps the invariant.
abbrev pub EndsLru : Outcome → Type 0
EndsLru o = (c : MemoryCache) × (o ≡ stored c) × IsLru c

pub IsLru-overwrite :
    (k : Text) (me : MemoryEntry) (c : MemoryCache) (old : MemoryEntry)
    → lookup k c.entries ≡ some old
    → IsLru c
    → IsLru (record c { entries = insert k me c.entries; order = remove_first k c.order ++ k ∷ [] })
IsLru-overwrite k me c old e h = record {
  positive = h.positive;
  small = rw (length-insert_old k me c.entries e) h.small;
  exact = overwrite-IsExact k me c old e h.exact;
  open_map = h.open_map;
}

store-EndsLru :
    (k : Text) (me : MemoryEntry) (c : MemoryCache)
    → IsLru c
    → c.released ≡ false
    → EndsLru (store k me c)
store-EndsLru k me c h live = elim (Option-cases (lookup k c.entries)) [
  | inl e ↦ (
    record c { entries = insert k me (make_room c).entries; order = (make_room c).order ++ k ∷ [] },
    store_new k me c h live e,
    record {
      positive = h.positive;
      small = omega (
        arith,
        length-make_room c h,
        length-insert_new k me (make_room c).entries (lookup-make_room c k e),
      );
      exact =
          let x =
            with_new-IsExact k me (make_room c) (make_room-IsExact c h.exact)
              (lookup-make_room c k e) in
          record { once = x.once; same = x.same };
      open_map = h.open_map;
    },
  )
  | inr (old, e) ↦ (
    record c { entries = insert k me c.entries; order = remove_first k c.order ++ k ∷ [] },
    unfold store in rw (e, store),
    IsLru-overwrite k me c old e h,
  )
]

pub put-EndsLru : (e : Option Entry) (now : ℕ) (c : MemoryCache) → IsLru c → EndsLru (put e now c).0
unfolding put
put-EndsLru none now c h = (c, refl, h)
put-EndsLru (some e) now c h =
    if_rule (λ (r : Outcome × Option CacheError). EndsLru r.0) c.closed _ _ (λ shut. (c, refl, h))
      (λ live.
        store-EndsLru (key (stamped now e)) (record { entry = stamped now e; last_access = now }) c
          h (h.open_map live))

pub put_all-EndsLru :
    (es : List (Option Entry)) (now : ℕ) (c : MemoryCache) → IsLru c → EndsLru (put_all es now c).0
unfolding put_all
put_all-EndsLru [] now c h = (c, refl, h)
put_all-EndsLru (e ∷ es) now c h =
    let (c', ends, h') = put-EndsLru e now c h in
    rw (ends, put_all)
      (elim (Option-cases (put e now c).1) [
        | inl fine ↦ rw fine (put_all-EndsLru es now c' h')
        | inr (x, failed) ↦ rw failed (c', refl, h')
      ])

pub drop_key-IsLru : (k : Text) (c : MemoryCache) → IsLru c → IsLru (drop_key k c)
unfolding drop_key
drop_key-IsLru k c h = record {
  positive = h.positive;
  small = omega (arith, h.small, length-remove k c.entries);
  exact = drop_key-IsExact k c h.exact;
  open_map = h.open_map;
}

pub drop_keys-IsLru : (ks : List Text) (c : MemoryCache) → IsLru c → IsLru (drop_keys ks c)
unfolding drop_keys
drop_keys-IsLru [] c h = h
drop_keys-IsLru (k ∷ ks) c h = drop_keys-IsLru ks (drop_key k c) (drop_key-IsLru k c h)

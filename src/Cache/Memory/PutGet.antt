-- ===== src/Cache/Memory/PutGet.antt =====
-- About `Put` of internal/cache/memory.go, and `Get` after it.
use grpm.Base.{
  ℕ, ◌≡◌, refl, inl, inr, Bool, false, ◌&&◌, Option, none, some, List, [], ◌∷◌, ◌++◌, arith, length,
  leb, Text, text_eq, text_eq_refl, if◌then◌else◌, if_rule, Option-cases,
}
use grpm.Base.Assoc.{lookup, insert, remove_first, lookup-insert, lookup-remove}
use grpm.Cache.Entry.{Entry, CacheError, key}
use grpm.Cache.Memory.{
  MemoryEntry, MemoryCache, Outcome, stored, found, get, get_key, store, put, stamped,
}
use grpm.Cache.Memory.Order.{IsLru, drop_oldest, make_room}
use grpm.Cache.Memory.Lru.{store_new}

-- The key that `Put` evicts for a new one: at the limit, the first of the order.
abbrev is_head : Text → List Text → Bool
is_head k [] = false
is_head k (j ∷ l) = text_eq j k

abbrev pub evicts : MemoryCache → Text → Bool
evicts c k = leb c.max_entries (length c.entries) && is_head k c.order

lookup-evicted :
    (c : MemoryCache) (j : Text)
    → lookup j (make_room c).entries ≡ (if evicts c j then none else lookup j c.entries)
lookup-evicted c j =
    if_rule
      (λ (x : MemoryCache). lookup j x.entries ≡ (if evicts c j then none else lookup j c.entries))
      (leb c.max_entries (length c.entries)) _ _ (λ full. rw full (at_head c.order))
      (λ free. rw free)
  where
    at_head :
        (order : List Text)
        → lookup j (drop_oldest order c).entries
          ≡ (if is_head j order then none else lookup j c.entries)
    at_head [] = refl
    at_head (o ∷ order) = lookup-remove o j c.entries

key-stamped : (now : ℕ) (e : Entry) → key (stamped now e) ≡ key e
unfolding key stamped
key-stamped now e = if_rule (λ x. key x ≡ key e) _ _ _ (λ _. refl) (λ _. refl)

abbrev pub entry_at : ℕ → Entry → MemoryEntry
entry_at now e = record { entry = stamped now e; last_access = now }

put_open :
    (e : Entry) (now : ℕ) (c : MemoryCache)
    → c.closed ≡ false
    → put (some e) now c ≡ (store (key e) (entry_at now e) c, none)
unfolding put
put_open e now c live =
    if_rule (λ (r : Outcome × Option CacheError). r ≡ (store (key e) (entry_at now e) c, none))
      c.closed _ _ (λ shut. cc) (λ _. rw (key-stamped now e))

get_key-stored :
    (k : Text) (me : MemoryEntry) (later : ℕ) (c : MemoryCache)
    → c.closed ≡ false
    → lookup k c.entries ≡ some me
    → (get_key k later c).1 ≡ found me.entry
unfolding get_key
get_key-stored k me later c live e = ground arith

store_stores :
    (k : Text) (me : MemoryEntry) (c : MemoryCache)
    → IsLru c
    → c.closed ≡ false
    → (c' : MemoryCache) × (store k me c ≡ stored c')
      × (c'.closed ≡ false)
      × (lookup k c'.entries ≡ some me)
unfolding store
store_stores k me c h live = elim (Option-cases (lookup k c.entries)) [
  | inl e ↦ (
    _,
    store_new k me c h (h.open_map live) e,
    live,
    ground (arith, lookup-insert k k me (make_room c).entries, text_eq_refl k),
  )
  | inr (old, e) ↦ (
    record c { entries = insert k me c.entries; order = remove_first k c.order ++ k ∷ [] },
    rw (e, store),
    live,
    ground (arith, lookup-insert k k me c.entries, text_eq_refl k),
  )
]

-- On an open cache in order, `Put` succeeds, and a `Get` of the entry's category, name and version
-- that follows it returns the entry, with its time of caching set if it had none.
pub put-get :
    (e : Entry) (now later : ℕ) (c : MemoryCache)
    → IsLru c
    → c.closed ≡ false
    → (c' : MemoryCache) × (put (some e) now c ≡ (stored c', none))
      × ((get e.category e.name e.version later c').1 ≡ found (stamped now e))
unfolding get key
put-get e now later c h live =
    let (c', ends, live', there) = store_stores (key e) (entry_at now e) c h live in
    (
      c',
      rw (put_open e now c live) (rw ends),
      get_key-stored (key e) (entry_at now e) later c' live' there,
    )

-- `Put` of a new key on an open cache in order stores the entry at the end of the order and leaves
-- every other key as it was, except that a cache at its limit loses the first key of its order,
-- which is the least recently used one.
pub put-evicts :
    (e : Entry) (now : ℕ) (c : MemoryCache)
    → IsLru c
    → c.closed ≡ false
    → lookup (key e) c.entries ≡ none
    → (c' : MemoryCache) × (put (some e) now c ≡ (stored c', none))
      × ((j : Text)
          → lookup j c'.entries ≡ (
              if text_eq (key e) j
              then some (entry_at now e)
              else if evicts c j
              then none
              else lookup j c.entries))
      × (c'.order ≡ (make_room c).order ++ key e ∷ [])
put-evicts e now c h live new = (
  record c {
    entries = insert (key e) (entry_at now e) (make_room c).entries;
    order = (make_room c).order ++ key e ∷ [];
  },
  rw (put_open e now c live) (rw (store_new (key e) (entry_at now e) c h (h.open_map live) new)),
  λ j. rw (lookup-insert (key e) j (entry_at now e) (make_room c).entries, lookup-evicted c j),
  refl,
)

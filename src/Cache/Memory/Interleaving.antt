-- ===== src/Cache/Memory/Interleaving.antt =====
-- Goroutines that share a `MemoryCache`: their critical sections and atomic steps, in any order.
use grpm.Base.{
  ℕ, ◌≤◌, ◌≡◌, inl, inr, true, none, some, List, [], ◌∷◌, arith, length, Text, Bool-cases,
  Option-cases, All,
}
use grpm.Base.Assoc.{lookup, length-insert_old, length-insert_new, length-remove}
use grpm.Cache.Memory.{
  MemoryEntry, MemoryCache, Outcome, stored, endless, nil_map_panic, add_one_i64, new_memory_cache,
  touch, store, drop_key, drop_keys, drop_if_there, drop_stale, clear, release, add_new, stale_keys,
}
use grpm.Cache.Memory.Covers.{Covers-move, Covers-overwrite, Covers-add, Covers-drop, empty-Covers}
use grpm.Cache.Memory.Eviction.{Entries, Covers, IsRoom, evict_total}

-- One atomic step of one goroutine.
pub data Section : Type 0 where
  hit miss mark_closed do_release do_clear : Section
  do_touch : Text → ℕ → Section
  do_store : Text → MemoryEntry → Section
  do_drop : Text → Section
  do_drop_stale : Text → ℕ → Section

unfoldable pub perform : Section → MemoryCache → Outcome
perform hit c = stored (record c { hits = add_one_i64 c.hits })
perform miss c = stored (record c { misses = add_one_i64 c.misses })
perform mark_closed c = stored (record c { closed = true })
perform do_release c = stored (release c)
perform do_clear c = stored (clear c)
perform (do_touch k now) c = stored (touch k now c)
perform (do_store k me) c = store k me c
perform (do_drop k) c = stored (drop_if_there k c)
perform (do_drop_stale prefix mtime) c = stored (drop_stale prefix mtime c)

-- What follows a section.
abbrev pub next : Outcome → (MemoryCache → Outcome) → Outcome
next (stored c) f = f c
next endless f = endless
next nil_map_panic f = nil_map_panic

-- The sections in the order in which they happen.
unfoldable pub run : List Section → MemoryCache → Outcome
unfolding perform
run [] c = stored c
run (s ∷ ss) c = next (perform s c) (run ss)

-- `P` of a cache that is left, `E` if the loop has no end, `N` for a write to the nil map.
abbrev pub Ends : (MemoryCache → Type 0) → Type 0 → Type 0 → Outcome → Type 0
Ends P E N (stored c) = P c
Ends P E N endless = E
Ends P E N nil_map_panic = N

module _ (K : Section → Type 0) (P : MemoryCache → Type 0) (E N : Type 0) where
  Ends-next :
      (o : Outcome) (f : MemoryCache → Outcome)
      → Ends P E N o
      → ((c : MemoryCache) → P c → Ends P E N (f c))
      → Ends P E N (next o f)
  Ends-next (stored c) f h k = k c h
  Ends-next endless f h k = h
  Ends-next nil_map_panic f h k = h

  -- An invariant of the sections that satisfy `K` is one of their runs.
  pub run-Ends :
      ((s : Section) (c : MemoryCache) → K s → P c → Ends P E N (perform s c))
      → (ss : List Section) (c : MemoryCache) → All K ss
      → P c
      → Ends P E N (run ss c)
  unfolding run
  run-Ends one [] c k h = h
  run-Ends one (s ∷ ss) c k h =
      Ends-next (perform s c) (run ss) (one s c k.0 h) (λ c' h'. run-Ends one ss c' k.1 h')

-- What holds between two sections, whatever has run.
pub record IsSound (c : MemoryCache) : Type 0 where
  pub positive : 1 ≤ c.max_entries
  pub small : length c.entries ≤ c.max_entries
  pub covers : Covers c.entries c.order

-- What a section may do to a sound cache: leave a sound cache, or write to the nil map.
abbrev pub EndsSound : Outcome → Type 0
EndsSound = Ends IsSound ⊥ Unit

touch-IsSound : (k : Text) (now : ℕ) (c : MemoryCache) → IsSound c → IsSound (touch k now c)
unfolding touch
touch-IsSound k now c h = elim (Option-cases (lookup k c.entries)) [
  | inl e ↦
      rw (e, touch)
        (record {
          positive = h.positive;
          small = h.small;
          covers = Covers-move k c.order c.entries h.covers;
        })
  | inr (me, e) ↦
      rw (e, touch)
        (record {
          positive = h.positive;
          small = rw (length-insert_old k (record me { last_access = now }) c.entries e) h.small;
          covers =
              Covers-overwrite k c.order c.entries h.covers (record me { last_access = now }) me e;
        })
]

drop_key-IsSound : (k : Text) (c : MemoryCache) → IsSound c → IsSound (drop_key k c)
unfolding drop_key
drop_key-IsSound k c h = record {
  positive = h.positive;
  small = omega (arith, h.small, length-remove k c.entries);
  covers = Covers-drop k c.order c.entries h.covers;
}

drop_keys-IsSound : (ks : List Text) (c : MemoryCache) → IsSound c → IsSound (drop_keys ks c)
unfolding drop_keys
drop_keys-IsSound [] c h = h
drop_keys-IsSound (k ∷ ks) c h = drop_keys-IsSound ks (drop_key k c) (drop_key-IsSound k c h)

add_new-EndsSound :
    (k : Text) (me : MemoryEntry) (c : MemoryCache) (r : Entries × List Text)
    → 1 ≤ c.max_entries
    → lookup k c.entries ≡ none
    → IsRoom c.max_entries c.entries r
    → EndsSound (add_new k me c (some r))
unfolding add_new
add_new-EndsSound k me c r pos fresh room =
    let absent = room.absent k fresh in
    elim (Bool-cases c.released) [
      | inl gone ↦ rw (gone, add_new) tt
      | inr here ↦
          rw (here, add_new)
            (record {
              positive = pos;
              small = omega (arith, room.room, length-insert_new k me r.0 absent);
              covers = Covers-add k r.1 r.0 room.covers me absent;
            })
    ]

store-EndsSound :
    (k : Text) (me : MemoryEntry) (c : MemoryCache) → IsSound c → EndsSound (store k me c)
unfolding store
store-EndsSound k me c h = elim (Option-cases (lookup k c.entries)) [
  | inl e ↦
      let (r, ends, room) = evict_total c.max_entries c.order c.entries h.positive h.covers in
      rw (e, store) (rw ends (add_new-EndsSound k me c r h.positive e room))
  | inr (old, e) ↦
      rw (e, store)
        (record {
          positive = h.positive;
          small = rw (length-insert_old k me c.entries e) h.small;
          covers = Covers-overwrite k c.order c.entries h.covers me old e;
        })
]

drop_if_there-IsSound : (k : Text) (c : MemoryCache) → IsSound c → IsSound (drop_if_there k c)
unfolding drop_if_there
drop_if_there-IsSound k c h = elim (Option-cases (lookup k c.entries)) [
  | inl e ↦ rw (e, drop_if_there) h
  | inr (old, e) ↦ rw (e, drop_if_there) (drop_key-IsSound k c h)
]

perform-EndsSound : (s : Section) (c : MemoryCache) → IsSound c → EndsSound (perform s c)
unfolding perform release clear drop_stale
perform-EndsSound hit c h = record { positive = h.positive; small = h.small; covers = h.covers }
perform-EndsSound miss c h = record { positive = h.positive; small = h.small; covers = h.covers }
perform-EndsSound mark_closed c h = record {
  positive = h.positive;
  small = h.small;
  covers = h.covers;
}
perform-EndsSound do_release c h = record {
  positive = h.positive;
  small = omega arith;
  covers = empty-Covers;
}
perform-EndsSound do_clear c h = record {
  positive = h.positive;
  small = omega arith;
  covers = empty-Covers;
}
perform-EndsSound (do_touch k now) c h = touch-IsSound k now c h
perform-EndsSound (do_store k me) c h = store-EndsSound k me c h
perform-EndsSound (do_drop k) c h = drop_if_there-IsSound k c h
perform-EndsSound (do_drop_stale prefix mtime) c h =
    drop_keys-IsSound (stale_keys prefix mtime c.entries) c h

All-Unit : (ss : List Section) → All (λ _. Unit {0}) ss
All-Unit [] = tt
All-Unit (s ∷ ss) = (tt, All-Unit ss)

new-IsSound : (n : ℕ) → IsSound (new_memory_cache n)
unfolding new_memory_cache
new-IsSound n = record { positive = ground arith; small = omega arith; covers = empty-Covers }

-- Whatever critical sections the goroutines that share a new cache run, in whatever order, the
-- eviction loop of `Put` always ends: the outcome is a cache or a write to the nil map. A cache
-- that is reached holds at most its maximum of entries, each under one key, and lists every key in
-- its order.
pub run_new-EndsSound : (n : ℕ) (ss : List Section) → EndsSound (run ss (new_memory_cache n))
run_new-EndsSound n ss =
    run-Ends (λ _. Unit {0}) IsSound ⊥ Unit (λ s c _. perform-EndsSound s c) ss (new_memory_cache n)
      (All-Unit ss) (new-IsSound n)

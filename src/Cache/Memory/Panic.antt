-- ===== src/Cache/Memory/Panic.antt =====
-- About writes to the nil map in internal/cache/memory.go, and `Close`.
use grpm.Base.{◌≡◌, ◌≢◌, ◌≤◌, refl, inl, inr, false, List, [], ◌∷◌, arith, Text, All, Option-cases}
use grpm.Base.Assoc.{lookup}
use grpm.Cache.Memory.{
  MemoryEntry, MemoryCache, Outcome, stored, endless, nil_map_panic, touch, store, add_new,
  drop_key, drop_keys, drop_if_there, drop_stale, stale_keys, clear, release, evict_while_full,
}
use grpm.Cache.Memory.Interleaving.{
  Section, mark_closed, do_release, do_store, do_drop_stale, Ends, perform, run, run-Ends,
}

-- The section is not that of `Close`.
abbrev pub KeepsMap : Section → Type 0
KeepsMap do_release = ⊥
KeepsMap _ = Unit

abbrev StaysOpen : Outcome → Type 0
StaysOpen = Ends (λ c. c.released ≡ false) Unit ⊥

drop_keys_released : (ks : List Text) (c : MemoryCache) → (drop_keys ks c).released ≡ c.released
unfolding drop_keys
drop_keys_released [] c = refl
drop_keys_released (k ∷ ks) c = unfold drop_key in drop_keys_released ks (drop_key k c)

store-StaysOpen :
    (k : Text) (me : MemoryEntry) (c : MemoryCache) → c.released ≡ false → StaysOpen (store k me c)
unfolding store
store-StaysOpen k me c h = elim (Option-cases (lookup k c.entries)) [
  | inr (old, e) ↦ rw (e, store) h
  | inl e ↦
      rw (e, store)
        (elim (Option-cases (evict_while_full c.max_entries c.order c.entries)) [
          | inl n ↦ rw n tt
          | inr (r, n) ↦ rw n (rw (h, add_new))
        ])
]

perform-StaysOpen :
    (s : Section) (c : MemoryCache) → KeepsMap s → c.released ≡ false → StaysOpen (perform s c)
unfolding perform touch drop_if_there drop_stale clear
perform-StaysOpen do_release c k h = absurd k
perform-StaysOpen (do_store j me) c k h = store-StaysOpen j me c h
perform-StaysOpen (do_drop_stale prefix mtime) c k h =
    rw (drop_keys_released (stale_keys prefix mtime c.entries) c) h
perform-StaysOpen _ c k h = ground arith

not_panic : (o : Outcome) → StaysOpen o → o ≢ nil_map_panic
not_panic (stored c) h e = cc
not_panic endless h e = cc
not_panic nil_map_panic h e = h

-- As long as no `Close` has released the map, no order of critical sections writes to the nil map.
pub run-ne-nil_map_panic :
    (ss : List Section) (c : MemoryCache)
    → All KeepsMap ss
    → c.released ≡ false
    → run ss c ≢ nil_map_panic
run-ne-nil_map_panic ss c k h =
    not_panic (run ss c)
      (run-Ends KeepsMap (λ c. c.released ≡ false) Unit ⊥ perform-StaysOpen ss c k h)

-- But a `Put` that has passed its check of the closed flag before a `Close` runs, and takes the
-- lock after it, writes to the nil map.
pub run_close_store-panics :
    (k : Text) (me : MemoryEntry) (c : MemoryCache)
    → 1 ≤ c.max_entries
    → run (mark_closed ∷ do_release ∷ do_store k me ∷ []) c ≡ nil_map_panic
unfolding run perform release store evict_while_full add_new lookup
run_close_store-panics k me c h = ground arith

-- ===== src/Cache/Memory/Eviction.antt =====
-- About the eviction loop of `Put` of internal/cache/memory.go.
use grpm.Base.{
  ℕ, ◌≤◌, ◌<◌, ◌≡◌, refl, inl, inr, none, some, List, [], ◌∷◌, arith, length, Text, leb,
  text_eq_refl, Bool-cases,
}
use grpm.Base.Assoc.{count, keys, lookup, remove, count-remove, lookup-remove}
use grpm.Cache.Memory.{MemoryEntry, evict_while_full}

abbrev pub Entries : Type 0
Entries = List (Text × MemoryEntry)

-- Every key of the map occurs in the order, and once in the map.
pub record Covers (entries : Entries) (order : List Text) : Type 0 where
  pub unique : (k : Text) → count k (keys entries) ≤ 1
  pub covered : (k : Text) → count k (keys entries) ≤ count k order

pub no_keys : (m : Entries) → ((k : Text) → count k (keys m) ≤ 0) → length m ≡ 0
unfolding count
no_keys [] h = refl
no_keys ((k, me) ∷ m) h = absurd (ground (arith, h k, text_eq_refl k))

Covers-remove :
    (oldest : Text) (order : List Text) (entries : Entries)
    → Covers entries (oldest ∷ order)
    → Covers (remove oldest entries) order
unfolding count
Covers-remove oldest order entries h = record {
  unique = λ k. ground (arith, count-remove oldest k entries, h.unique k);
  covered = λ k. ground (arith, count-remove oldest k entries, h.covered k);
}

-- What the loop returns.
pub record IsRoom (max_entries : ℕ) (entries : Entries) (r : Entries × List Text) : Type 0 where
  pub room : length r.0 < max_entries
  pub covers : Covers r.0 r.1
  pub absent : (k : Text) → lookup k entries ≡ none → lookup k r.0 ≡ none

pub evict_total :
    (max_entries : ℕ) (order : List Text) (entries : Entries)
    → 1 ≤ max_entries
    → Covers entries order
    → (r : Entries × List Text) × (evict_while_full max_entries order entries ≡ some r)
      × IsRoom max_entries entries r
unfolding evict_while_full count
evict_total max_entries [] entries pos h =
    let empty = no_keys entries h.covered in
    (
      (entries, []),
      ground arith,
      record { room = omega (arith, empty); covers = h; absent = λ k e. e },
    )
evict_total max_entries (oldest ∷ order) entries pos h =
    elim (Bool-cases (leb max_entries (length entries))) [
      | inl full ↦
          let (r, ends, room) =
            evict_total max_entries order (remove oldest entries) pos
              (Covers-remove oldest order entries h) in
          (
            r,
            rw full ends,
            record {
              room = room.room;
              covers = room.covers;
              absent = λ k e. room.absent k (ground (arith, lookup-remove oldest k entries));
            },
          )
      | inr free ↦ (
        (entries, oldest ∷ order),
        rw free,
        record { room = ground arith; covers = h; absent = λ k e. e },
      )
    ]

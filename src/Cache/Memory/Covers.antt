-- ===== src/Cache/Memory/Covers.antt =====
-- What the writes of internal/cache/memory.go to its map and its order do to `Covers`.
use grpm.Base.{◌≡◌, none, some, List, [], ◌∷◌, ◌++◌, arith, Text, text_eq_iff}
use grpm.Base.Assoc.{
  count, lookup, insert, remove, remove_first, count-append, count-remove_first, count-remove,
  lookup-none-count, keys-insert_old, count-insert_new,
}
use grpm.Cache.Memory.{MemoryEntry}
use grpm.Cache.Memory.Eviction.{Entries, Covers}

pub empty-Covers : Covers [] []
unfolding count
empty-Covers = record { unique = λ k. omega arith; covered = λ k. omega arith }

module _ (k : Text) (order : List Text) (entries : Entries) (h : Covers entries order) where
  pub Covers-move : Covers entries (remove_first k order ++ k ∷ [])
  unfolding count
  Covers-move = record {
    unique = h.unique;
    covered = λ j. ground (
      arith,
      count-append j (remove_first k order) (k ∷ []),
      count-remove_first k j order,
      h.covered j,
    );
  }

  pub Covers-overwrite :
      (me old : MemoryEntry)
      → lookup k entries ≡ some old
      → Covers (insert k me entries) (remove_first k order ++ k ∷ [])
  Covers-overwrite me old e =
      let moved = Covers-move in
      record {
        unique = λ j. rw (keys-insert_old k me entries e) (moved.unique j);
        covered = λ j. rw (keys-insert_old k me entries e) (moved.covered j);
      }

  pub Covers-add :
      (me : MemoryEntry) → lookup k entries ≡ none → Covers (insert k me entries) (order ++ k ∷ [])
  unfolding count
  Covers-add me e = record {
    unique = λ j. ground (
      arith,
      count-insert_new k j me entries e,
      lookup-none-count k entries e,
      text_eq_iff k j,
      h.unique j,
    );
    covered = λ j.
        ground
          (arith, count-insert_new k j me entries e, count-append j order (k ∷ []), h.covered j);
  }

  pub Covers-drop : Covers (remove k entries) (remove_first k order)
  Covers-drop = record {
    unique = λ j. ground (arith, count-remove k j entries, h.unique j);
    covered =
        λ j. ground (arith, count-remove k j entries, count-remove_first k j order, h.covered j);
  }

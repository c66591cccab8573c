-- ===== src/Pkg/Package/Slots.antt =====
-- The slots of internal/pkg/package.go: parsing, printing and compatibility.
use grpm.Base.{
  ◌≡◌, refl, ◌∙◌, ap, Bool, true, false, not, [], ◌∷◌, ◌++◌, arith, all, ◌==◌, Text, codes, text_eq,
  text_eq_iff, split_on,
}
use grpm.Pkg.Package.{
  new_slot, print_slot, parse_slot, is_slot_compatible_with, Package, conflicts_with,
  is_compatible_with,
}

abbrev pub is_slashless : Text → Bool
is_slashless s = all (λ c. not (c == b'/')) s

pub split_on-slashless : (s : Text) → is_slashless s ≡ true → split_on b'/' s ≡ s ∷ []
unfolding split_on
split_on-slashless [] h = refl
split_on-slashless (c ∷ s) h = ground (arith, split_on-slashless s)

split_on-append :
    (s t : Text) → is_slashless s ≡ true → split_on b'/' (s ++ b'/' ∷ t) ≡ s ∷ split_on b'/' t
unfolding split_on
split_on-append [] t h = refl
split_on-append (c ∷ s) t h = ground (arith, split_on-append s t)

has_slash : (s t : Text) → text_eq (s ++ b'/' ∷ t) (codes "=") ≡ false
unfolding text_eq
has_slash [] t = refl
has_slash (c ∷ []) t = ground arith
has_slash (c ∷ d ∷ s) t = ground arith

with_slash :
    (slot name subslot : Text)
    → text_eq slot (codes "=") ≡ false
    → split_on b'/' slot ≡ name ∷ subslot ∷ []
    → parse_slot slot ≡ new_slot name subslot
unfolding parse_slot
with_slash slot name subslot e parts = rw (e, parts) refl

-- `ParseSlot` reads back what `String` prints for the slot that `NewSlot` makes, if neither the slot
-- nor the subslot has a slash and the slot is not `=`.
pub parse_slot-print_slot :
    (name subslot : Text)
    → is_slashless name ≡ true
    → is_slashless subslot ≡ true
    → text_eq name (codes "=") ≡ false
    → parse_slot (print_slot (new_slot name subslot)) ≡ new_slot name subslot
unfolding parse_slot print_slot new_slot
parse_slot-print_slot name [] h k e = rw (e, split_on-slashless name h) refl
parse_slot-print_slot name (c ∷ s) h k e =
    let parts =
      split_on-append name (c ∷ s) h ∙ ap (λ l. name ∷ l) (split_on-slashless (c ∷ s) k) in
    with_slash (name ++ b'/' ∷ c ∷ s) name (c ∷ s) (has_slash name (c ∷ s)) parts

-- Whether two packages can be installed side by side does not depend on which of them is asked, and
-- every package is compatible with itself.
is_compatible_with_sym :
    {Atom : Type 0} (p q : Package Atom)
    → (is_compatible_with p q ≡ is_compatible_with q p) × (is_compatible_with p p ≡ true)
unfolding is_compatible_with is_slot_compatible_with conflicts_with
is_compatible_with_sym p q = ground (
  arith,
  text_eq_iff p.name q.name,
  text_eq_iff q.name p.name,
  text_eq_iff p.name p.name,
  text_eq_iff p.slot.name q.slot.name,
  text_eq_iff q.slot.name p.slot.name,
  text_eq_iff p.slot.name p.slot.name,
  text_eq_iff p.slot.subslot q.slot.subslot,
  text_eq_iff q.slot.subslot p.slot.subslot,
  text_eq_iff p.slot.subslot p.slot.subslot,
)

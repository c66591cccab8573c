-- ===== src/Pkg/Package/Keywords.antt =====
-- Which keywords internal/pkg/package.go accepts.
use grpm.Base.{
  ◌≡◌, refl, Bool, true, false, not, ◌&&◌, ◌||◌, List, [], ◌∷◌, ◌++◌, arith, all, Text, codes,
  text_eq_iff, has_prefix,
}
use grpm.Base.Assoc.{contains, contains-append}
use grpm.Pkg.Package.{Package, accepts, some_accepted, is_keyword_accepted}

-- A keyword that is neither a testing one nor a wildcard.
abbrev pub is_stable : Text → Bool
is_stable k = not (has_prefix k (codes "~")) && not (has_prefix k (codes "*"))

-- A keyword for testing, or one that disables an architecture.
abbrev pub is_unstable : Text → Bool
is_unstable k = has_prefix k (codes "~") || has_prefix k (codes "-")

accepts-testing :
    (kw : Text) (l : List Text)
    → has_prefix kw (codes "~") ≡ true
    → all is_stable l ≡ true
    → accepts kw l ≡ false
unfolding accepts has_prefix
accepts-testing kw [] h s = refl
accepts-testing kw (ak ∷ l) h s = ground (
  arith,
  accepts-testing kw l,
  text_eq_iff kw ak,
  text_eq_iff ak (codes "*"),
  text_eq_iff ak (codes "**"),
  text_eq_iff ak (codes "~*"),
)

some_accepted-testing :
    (kws l : List Text)
    → all is_unstable kws ≡ true
    → all is_stable l ≡ true
    → some_accepted kws l ≡ false
unfolding some_accepted has_prefix
some_accepted-testing [] l h s = refl
some_accepted-testing (kw ∷ kws) l h s =
    ground (arith, some_accepted-testing kws l, accepts-testing kw l)

contains-stable : (l : List Text) → all is_stable l ≡ true → contains (codes "**") l ≡ false
unfolding contains has_prefix
contains-stable [] h = refl
contains-stable (k ∷ l) h = ground (arith, contains-stable l, text_eq_iff k (codes "**"))

-- Where ACCEPT_KEYWORDS has stable keywords only, no package is accepted whose keywords are all for
-- testing or disabled, and none that has no keywords.
pub is_keyword_accepted-stable :
    {Atom : Type 0} (p : Package Atom) (accept_keywords : List Text)
    → all is_stable accept_keywords ≡ true
    → all is_unstable p.keywords ≡ true
    → is_keyword_accepted p accept_keywords ≡ false
unfolding is_keyword_accepted
is_keyword_accepted-stable p l s h =
    ground (arith, some_accepted-testing p.keywords l h s, contains-stable l s)

accepts-append :
    (kw : Text) (l more : List Text) → accepts kw (l ++ more) ≡ (accepts kw l || accepts kw more)
unfolding accepts
accepts-append kw [] more = refl
accepts-append kw (ak ∷ l) more = ground (arith, accepts-append kw l more)

some_accepted-append :
    (kws l more : List Text)
    → some_accepted kws (l ++ more) ≡ (some_accepted kws l || some_accepted kws more)
unfolding some_accepted
some_accepted-append [] l more = refl
some_accepted-append (kw ∷ kws) l more =
    ground (arith, some_accepted-append kws l more, accepts-append kw l more)

-- A package is accepted through two lists together exactly if it is through one of them.
is_keyword_accepted-append :
    {Atom : Type 0} (p : Package Atom) (l more : List Text)
    → is_keyword_accepted p (l ++ more) ≡ (is_keyword_accepted p l || is_keyword_accepted p more)
unfolding is_keyword_accepted contains
is_keyword_accepted-append p l more =
    ground (arith, some_accepted-append p.keywords l more, contains-append (codes "**") l more)

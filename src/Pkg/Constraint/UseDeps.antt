-- ===== src/Pkg/Constraint/UseDeps.antt =====
-- The USE dependencies of internal/pkg/constraint.go, against a description of its six forms.
use grpm.Base.{
  ◌⊎◌, inl, inr, none, Option-cases, Bool-cases, sym, ap, ◌∙◌, ◌≡◌, refl, ◌↔◌, Bool, true, false,
  not, ◌&&◌, some, List, [], ◌∷◌, arith, All, Text,
}
use grpm.Base.Assoc.{lookup}
use grpm.Pkg.Use.{Flags, flag_of}
use grpm.Pkg.Constraint.{
  Constraint, flag_enabled, differ, no_flag_fails, package_satisfies_use_deps,
}

no_flag_fails_iff {κ} :
    (fails : Text → Bool) (P : Text → Type κ) (l : List Text)
    → ((f : Text) → (fails f ≡ false) ↔ P f)
    → (no_flag_fails fails l ≡ true) ↔ All P l
unfolding no_flag_fails
no_flag_fails_iff fails P [] h = (λ _. tt, λ _. refl)
no_flag_fails_iff fails P (f ∷ l) h =
    let (to, from) = no_flag_fails_iff fails P l h in
    (
      λ e. ((h f).0 (ground arith), to (ground arith)),
      λ (p, q). let a = (h f).1 p in let b = from q in ground arith,
    )

-- The provider has the flag in the state `b`: as it declares it, else as the constraint assumes it,
-- and else off.
pub data HasState (c : Constraint) (provider : Flags) (f : Text) (b : Bool) : Type 0 where
  declared : lookup f provider ≡ some b → HasState c provider f b
  assumed : lookup f provider ≡ none → lookup f c.use_default ≡ some b → HasState c provider f b
  unknown :
      lookup f provider ≡ none → lookup f c.use_default ≡ none → b ≡ false → HasState c provider f b

-- The dependent has the flag in the state `b`; one that it does not have is off.
pub data Sets (dependent : Flags) (f : Text) (b : Bool) : Type 0 where
  listed : lookup f dependent ≡ some b → Sets dependent f b
  unlisted : lookup f dependent ≡ none → b ≡ false → Sets dependent f b

Sets-flag_of : (m : Flags) (f : Text) (b : Bool) → Sets m f b → flag_of m f ≡ b
unfolding flag_of
Sets-flag_of m f b (listed e) = rw (flag_of, e) refl
Sets-flag_of m f b (unlisted e h) = rw (flag_of, e, h) refl

flag_of-Sets : (m : Flags) (f : Text) (b : Bool) → flag_of m f ≡ b → Sets m f b
unfolding flag_of
flag_of-Sets m f b h = elim (Option-cases (lookup f m)) [
  | inl e ↦ unlisted e (sym h ∙ (rw (flag_of, e) refl))
  | inr (a, e) ↦ listed (e ∙ ap some (sym (rw (flag_of, e) refl) ∙ h))
]

module _ (c : Constraint) (provider : Flags) (f : Text) (b : Bool) where
  HasState-flag_enabled : HasState c provider f b → flag_enabled c f provider ≡ b
  unfolding flag_enabled flag_of
  HasState-flag_enabled (declared e) = rw (flag_enabled, e) refl
  HasState-flag_enabled (assumed e h) = rw (flag_enabled, e, flag_of, h) refl
  HasState-flag_enabled (unknown e h k) = rw (flag_enabled, e, flag_of, h, k) refl

  flag_enabled-undeclared :
      lookup f provider ≡ none → flag_enabled c f provider ≡ flag_of c.use_default f
  unfolding flag_enabled
  flag_enabled-undeclared e = rw (flag_enabled, e) refl

  flag_enabled-HasState : flag_enabled c f provider ≡ b → HasState c provider f b
  unfolding flag_enabled
  flag_enabled-HasState h = elim (Option-cases (lookup f provider)) [
    | inr (a, e) ↦ declared (e ∙ ap some (sym (rw (flag_enabled, e) refl) ∙ h))
    | inl e ↦ by_default e (flag_of-Sets c.use_default f b (sym (flag_enabled-undeclared e) ∙ h))
  ]
    where
      by_default : lookup f provider ≡ none → Sets c.use_default f b → HasState c provider f b
      by_default e (listed h) = assumed e h
      by_default e (unlisted h k) = unknown e h k

-- What the six forms of a USE dependency ask of the provider, where the dependent's flags are given.
pub record Provides (c : Constraint) (provider dependent : Flags) : Type 0 where
  pub requires : All (λ f. HasState c provider f true) c.use_require
  pub blocks : All (λ f. HasState c provider f false) c.use_block
  pub equals : All (λ f. (b : Bool) × HasState c provider f b × Sets dependent f b) c.use_equal
  pub inverses :
      All (λ f. (b : Bool) × HasState c provider f b × Sets dependent f (not b)) c.use_equal_inverse
  pub if_set : All (λ f. Sets dependent f false ⊎ HasState c provider f true) c.use_conditional_if
  pub unless_set :
      All (λ f. Sets dependent f true ⊎ HasState c provider f false) c.use_conditional_unless

module _ (c : Constraint) (provider dependent : Flags) where
  abbrev en : Text → Bool
  en f = flag_enabled c f provider

  abbrev set : Text → Bool
  set f = flag_of dependent f

  has : (f : Text) (b : Bool) → en f ≡ b → HasState c provider f b
  has f b = flag_enabled-HasState c provider f b

  state : (f : Text) (b : Bool) → HasState c provider f b → en f ≡ b
  state f b = HasState-flag_enabled c provider f b

  required : (f : Text) → (not (en f) ≡ false) ↔ HasState c provider f true
  required f = (λ e. has f true (ground arith), λ h. ap not (state f true h))

  blocked : (f : Text) → (en f ≡ false) ↔ HasState c provider f false
  blocked f = (has f false, state f false)

  equal :
      (f : Text)
      → (differ (en f) (set f) ≡ false)
        ↔ ((b : Bool) × HasState c provider f b × Sets dependent f b)
  equal f = (
    λ e. (set f, has f (set f) (ground arith), flag_of-Sets dependent f (set f) refl),
    λ (b, h, k). let x = state f b h in let y = Sets-flag_of dependent f b k in ground arith,
  )

  inverse :
      (f : Text)
      → (not (differ (en f) (set f)) ≡ false)
        ↔ ((b : Bool) × HasState c provider f b × Sets dependent f (not b))
  inverse f = (
    λ e. (en f, has f (en f) refl, flag_of-Sets dependent f (not (en f)) (ground arith)),
    λ (b, h, k). let x = state f b h in let y = Sets-flag_of dependent f (not b) k in ground arith,
  )

  conditional_if :
      (f : Text)
      → ((set f && not (en f)) ≡ false) ↔ (Sets dependent f false ⊎ HasState c provider f true)
  conditional_if f = (
    λ e. elim (Bool-cases (en f)) [
      | inl yea ↦ inr (has f true yea)
      | inr nay ↦ inl (flag_of-Sets dependent f false (ground arith))
    ],
    λ p. elim p [
      | inl k ↦ let y = Sets-flag_of dependent f false k in ground arith
      | inr h ↦ let x = state f true h in ground arith
    ],
  )

  conditional_unless :
      (f : Text)
      → ((not (set f) && en f) ≡ false) ↔ (Sets dependent f true ⊎ HasState c provider f false)
  conditional_unless f = (
    λ e. elim (Bool-cases (en f)) [
      | inl yea ↦ inl (flag_of-Sets dependent f true (ground arith))
      | inr nay ↦ inr (has f false nay)
    ],
    λ p. elim p [
      | inl k ↦ let y = Sets-flag_of dependent f true k in ground arith
      | inr h ↦ let x = state f false h in ground arith
    ],
  )

  -- For every constraint, provider and dependent, `PackageSatisfiesUseDeps` accepts the provider
  -- exactly if each flag of the six lists meets its condition: required flags are enabled, blocked
  -- ones are not, `[flag=]` agrees with the dependent, `[!flag=]` is opposite to it, `[flag?]` is
  -- enabled where the dependent has it, and `[!flag?]` is disabled where the dependent has not. A
  -- flag that the provider does not declare has the default of the constraint, and without one it
  -- counts as disabled.
  pub package_satisfies_use_deps_lem :
      (package_satisfies_use_deps c provider (some dependent) ≡ true)
      ↔ Provides c provider dependent
  unfolding package_satisfies_use_deps
  package_satisfies_use_deps_lem =
      let r1 = no_flag_fails_iff (λ f. not (en f)) _ c.use_require required in
      let r2 = no_flag_fails_iff (λ f. en f) _ c.use_block blocked in
      let r3 = no_flag_fails_iff (λ f. differ (en f) (set f)) _ c.use_equal equal in
      let r4 = no_flag_fails_iff (λ f. not (differ (en f) (set f))) _ c.use_equal_inverse inverse in
      let r5 = no_flag_fails_iff (λ f. set f && not (en f)) _ c.use_conditional_if conditional_if in
      let r6 =
        no_flag_fails_iff (λ f. not (set f) && en f) _ c.use_conditional_unless
          conditional_unless in
      (
        λ h. record {
          requires = r1.0 (ground arith);
          blocks = r2.0 (ground arith);
          equals = r3.0 (ground arith);
          inverses = r4.0 (ground arith);
          if_set = r5.0 (ground arith);
          unless_set = r6.0 (ground arith);
        },
        λ p.
            rw
              (
                r1.1 p.requires,
                r2.1 p.blocks,
                r3.1 p.equals,
                r4.1 p.inverses,
                r5.1 p.if_set,
                r6.1 p.unless_set,
              )
              refl,
      )

-- ===== src/Daemon/Jobs/Refuses.antt =====
-- `DetectConflicts` of internal/daemon/conflict_detector.go against the active jobs.
use mathlib.Core.Path.{subst}
use grpm.Base.{
  ◌≡◌, inl, inr, refl, sym, ◌∙◌, arith, true, false, Option, none, some, List, [], ◌∷◌, Bool-cases,
  Text, text_eq, text_eq_iff,
}
use grpm.Base.Assoc.{lookup}
use grpm.Daemon.Conflicts.{
  conflict_same_package, Job, PackageService, is_active, is_same_package, extract_package_name,
  filter_active_jobs, first_conflict, check_job_conflict,
}
use grpm.Daemon.Jobs.{job_values}

pub same_sym : (p q : Text) → is_same_package p q ≡ is_same_package q p
unfolding is_same_package
same_sym p q = ground (
  arith,
  text_eq_iff (extract_package_name p) (extract_package_name q),
  text_eq_iff (extract_package_name q) (extract_package_name p),
)

option_apart {ℓ} : {A : Type ℓ} {a : A} → some a ≡ none → ⊥
option_apart e = cc

some_inj {ℓ} : {A : Type ℓ} {a b : A} → some a ≡ some b → a ≡ b
some_inj e = cc

none_then {ℓ} :
    {A : Type ℓ} (o rest : Option A)
    → elim o as (λ x. Option A) [ none ↦ rest | some a ↦ some a ] ≡ none
    → (o ≡ none) × (rest ≡ none)
none_then none rest h = (refl, h)
none_then (some a) rest h = cc

check_same_some :
    (service : PackageService) (job old : Job) (affected : List Text)
    → is_same_package job.package_name old.package_name ≡ true
    → check_job_conflict service job old affected
      ≡ some (record {
        kind = conflict_same_package;
        job1 = job;
        job2 = old;
        conflicting_pkg = job.package_name;
      })
unfolding check_job_conflict
check_same_some service job old affected q = rw (check_job_conflict, q) refl

check-same :
    (service : PackageService) (job old : Job) (affected : List Text)
    → check_job_conflict service job old affected ≡ none
    → is_same_package job.package_name old.package_name ≡ false
unfolding check_job_conflict
check-same service job old affected h =
    elim (Bool-cases (is_same_package job.package_name old.package_name)) [
      | inl q ↦ absurd (option_apart (sym (check_same_some service job old affected q) ∙ h))
      | inr q ↦ q
    ]

first_conflict-none :
    (service : PackageService) (job old : Job) (jobs : List Job) (affected : List Text)
    → first_conflict service job (old ∷ jobs) affected ≡ none
    → (check_job_conflict service job old affected ≡ none)
      × (first_conflict service job jobs affected ≡ none)
unfolding first_conflict
first_conflict-none service job old jobs affected h =
    none_then (check_job_conflict service job old affected)
      (first_conflict service job jobs affected) h

-- The detector finds a conflict with every active job of the same package.
pub first_conflict-same :
    (service : PackageService) (job old : Job) (jobs : List (Text × Job)) (k : Text)
    (affected : List Text)
    → lookup k jobs ≡ some old
    → is_active old.status ≡ true
    → first_conflict service job (filter_active_jobs (job_values jobs)) affected ≡ none
    → is_same_package job.package_name old.package_name ≡ false
unfolding filter_active_jobs lookup
first_conflict-same service job old [] k affected e a h = absurd (option_apart (sym e))
first_conflict-same service job old ((j, new) ∷ jobs) k affected e a h =
    elim (Bool-cases (is_active new.status)) [
      | inl q ↦
          let (now, later) =
            first_conflict-none service job new (filter_active_jobs (job_values jobs)) affected
              (rw (q) at h) in
          elim (Bool-cases (text_eq j k)) [
            | inl t ↦
                subst (λ o. is_same_package job.package_name o.package_name ≡ false)
                  (some_inj (rw (t) at e)) (check-same service job new affected now)
            | inr t ↦ first_conflict-same service job old jobs k affected (rw (t) at e) a later
          ]
      | inr q ↦ elim (Bool-cases (text_eq j k)) [
        | inl t ↦ absurd (ground (arith, e, t, q, a))
        | inr t ↦ first_conflict-same service job old jobs k affected (rw (t) at e) a (rw (q) at h)
      ]
    ]

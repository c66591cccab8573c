-- ===== src/Daemon/Jobs/Race.antt =====
-- Two calls of Submit of internal/daemon/job.go at once: each checks for conflicts before either
-- stores its job.
use grpm.Base.{
  ◌≡◌, inl, inr, refl, ap, ◌∙◌, arith, true, false, Option, none, some, length, ltb, Bool-cases,
  Option-cases, text_eq, text_eq_iff,
}
use grpm.Base.Assoc.{lookup, insert, lookup-insert}
use grpm.Daemon.Conflicts.{
  Job, PackageConflict, PackageService, is_active, is_same_package, get_affected_packages,
  detect_conflicts,
}
use grpm.Daemon.Jobs.{JobQueue, JobError, package_conflict, check_submit, enqueue, submit}
use grpm.Daemon.Jobs.Refuses.{first_conflict-same}
use grpm.Daemon.Jobs.Equations.{submit_refused}

enqueue-jobs : (jq : JobQueue) (job : Job) → (enqueue jq job).0.jobs ≡ insert job.id job jq.jobs
unfolding enqueue
enqueue-jobs jq job = elim (Bool-cases (ltb (length jq.queue) jq.queue_size)) [
  | inl room ↦ rw (enqueue, room) refl
  | inr full ↦ rw (enqueue, full) refl
]

enqueue-detector :
    (jq : JobQueue) (job : Job) → (enqueue jq job).0.conflict_detector ≡ jq.conflict_detector
unfolding enqueue
enqueue-detector jq job = elim (Bool-cases (ltb (length jq.queue) jq.queue_size)) [
  | inl room ↦ rw (enqueue, room) refl
  | inr full ↦ rw (enqueue, full) refl
]

submit_checked :
    (jq : JobQueue) (job : Job) → check_submit jq job ≡ none → submit jq job ≡ enqueue jq job
unfolding submit
submit_checked jq job e = rw (submit, e) refl

-- A job of the same package as an active one is refused.
submit-refuses :
    (service : PackageService) (jq : JobQueue) (old new : Job)
    → jq.conflict_detector ≡ some service
    → lookup old.id jq.jobs ≡ some old
    → is_active old.status ≡ true
    → is_same_package new.package_name old.package_name ≡ true
    → (c : PackageConflict) × (submit jq new ≡ (jq, some (package_conflict c)))
unfolding detect_conflicts
submit-refuses service jq old new d there a p = elim (Option-cases (check_submit jq new)) [
  | inr (c, e) ↦ (c, submit_refused jq new c e)
  | inl e ↦
      let apart =
        first_conflict-same service new old jq.jobs old.id (get_affected_packages service new) there
          a (rw (d) at e) in
      absurd (ground (arith, apart, p))
]

-- Two jobs for the same package, with different IDs, that are active, and for neither of which a queue
-- with a conflict detector has a conflict: where both are checked before either is stored, both are
-- stored, active as they are, whereas the second one is refused as a conflict where the first Submit
-- ends before.
pub raced_submissions :
    (service : PackageService) (jq : JobQueue) (a b : Job)
    → jq.conflict_detector ≡ some service
    → check_submit jq a ≡ none
    → check_submit jq b ≡ none
    → text_eq b.id a.id ≡ false
    → is_active a.status ≡ true
    → is_same_package b.package_name a.package_name ≡ true
    → (lookup a.id (enqueue (enqueue jq a).0 b).0.jobs ≡ some a)
      × (lookup b.id (enqueue (enqueue jq a).0 b).0.jobs ≡ some b)
      × ((c : PackageConflict) × (submit (submit jq a).0 b
            ≡ ((submit jq a).0, some (package_conflict c))))
raced_submissions service jq a b d ca cb apart active same =
    let jobs = enqueue-jobs (enqueue jq a).0 b ∙ ap (insert b.id b) (enqueue-jobs jq a) in
    let first : lookup a.id (enqueue jq a).0.jobs ≡ some a =
      ap (lookup a.id) (enqueue-jobs jq a)
      ∙ ground (arith, lookup-insert a.id a.id a jq.jobs, text_eq_iff a.id a.id) in
    (
      ap (lookup a.id) jobs
          ∙ ground (
            arith,
            apart,
            lookup-insert b.id a.id b (insert a.id a jq.jobs),
            lookup-insert a.id a.id a jq.jobs,
            text_eq_iff a.id a.id,
          ),
      ap (lookup b.id) jobs
          ∙ ground
              (arith, lookup-insert b.id b.id b (insert a.id a jq.jobs), text_eq_iff b.id b.id),
      refused (submit jq a) (submit_checked jq a ca) first,
    )
  where
    refused :
        (r : JobQueue × Option JobError)
        → r ≡ enqueue jq a
        → lookup a.id (enqueue jq a).0.jobs ≡ some a
        → (c : PackageConflict) × (submit r.0 b ≡ (r.0, some (package_conflict c)))
    refused r e first =
        submit-refuses service r.0 a b
          (ap (λ r. r.0.conflict_detector) e ∙ enqueue-detector jq a ∙ d)
          (ap (λ r. lookup a.id r.0.jobs) e ∙ first) active same

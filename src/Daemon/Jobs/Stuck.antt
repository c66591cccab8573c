-- ===== src/Daemon/Jobs/Stuck.antt =====
-- A job that internal/daemon/job.go stores and then finds no room for.
use mathlib.Core.Path.{subst}
use grpm.Base.Result.{ok}
use grpm.Base.{
  ℕ, ◌≡◌, inl, inr, refl, sym, ap, ◌∙◌, arith, true, false, Option, none, some, List, [], ◌∷◌,
  length, ltb, Bool-cases, Option-cases, Text, text_eq, text_eq_iff,
}
use grpm.Base.Assoc.{lookup, lookup-insert, contains, contains-append}
use grpm.Daemon.Conflicts.{
  pending, running, Job, PackageConflict, PackageService, is_active, is_same_package,
  get_affected_packages, detect_conflicts,
}
use grpm.Daemon.Jobs.{get_job}
use grpm.Daemon.Jobs.{
  JobQueue, queue_full, package_conflict, check_submit, submit, cancel, cancel_job, was_canceled,
  take_job, ended_job, end_job,
}
use grpm.Daemon.Jobs.Refuses.{first_conflict-same}
use grpm.Daemon.Jobs.Safe.{contains-remove_first}
use grpm.Daemon.Jobs.Runs.{Reached-Good}
use grpm.Daemon.Jobs.Equations.{
  submit_refused, submit_full, submit_room, cancel_absent, cancel_there, end_there, end_absent,
  take_absent, take_canceled, take_fresh, take_empty, List-cases,
}
use grpm.Daemon.Jobs.Steps.{Reached}

not_full : (c : PackageConflict) → some (package_conflict c) ≡ some queue_full → ⊥
not_full c e = cc

not_none : none ≡ some queue_full → ⊥
not_none e = cc

-- The states that steps lead to, none of which cancels the job `id`.
pub data Later (id : Text) (jq : JobQueue) : JobQueue → Type 0 where
  now : Later id jq jq
  by_submit :
      (s : JobQueue) (job : Job)
      → Later id jq s
      → lookup job.id s.jobs ≡ none
      → Later id jq (submit s job).0
  by_take : (s : JobQueue) → Later id jq s → Later id jq (take_job s)
  by_end :
      (s : JobQueue) (k : Text) (e : Option Text)
      → Later id jq s
      → contains k s.working ≡ true
      → Later id jq (end_job s k e)
  by_stop :
      (s : JobQueue) (k : Text)
      → Later id jq s
      → text_eq k id ≡ false
      → Later id jq (cancel_job s k).0

-- The job is stored, and neither waits in the channel nor is executed.
record IsStuck (service : PackageService) (id : Text) (job : Job) (jq : JobQueue) : Type 0 where
  detector : jq.conflict_detector ≡ some service
  there : lookup id jq.jobs ≡ some job
  unqueued : contains id jq.queue ≡ false
  idle : contains id jq.working ≡ false

module _ (service : PackageService) (id : Text) (job : Job) where
  abbrev Stuck : JobQueue → Type 0
  Stuck = IsStuck service id job

  submit-Stuck :
      (jq : JobQueue) (new : Job)
      → Stuck jq
      → lookup new.id jq.jobs ≡ none
      → Stuck (submit jq new).0
  unfolding contains
  submit-Stuck jq new h f = elim (Option-cases (check_submit jq new)) [
    | inr (c, e) ↦ subst (λ r. Stuck r.0) (sym (submit_refused jq new c e)) h
    | inl e ↦ elim (Bool-cases (ltb (length jq.queue) jq.queue_size)) [
      | inl r ↦
          subst (λ r. Stuck r.0) (sym (submit_room jq new e r))
            (record {
              detector = h.detector;
              there =
                  ground
                    (arith, h.there, f, lookup-insert new.id id new jq.jobs, text_eq_iff new.id id);
              unqueued = ground (
                arith,
                h.unqueued,
                h.there,
                f,
                contains-append id jq.queue (new.id ∷ []),
                text_eq_iff new.id id,
              );
              idle = h.idle;
            })
      | inr r ↦
          subst (λ r. Stuck r.0) (sym (submit_full jq new e r))
            (record {
              detector = h.detector;
              there =
                  ground
                    (arith, h.there, f, lookup-insert new.id id new jq.jobs, text_eq_iff new.id id);
              unqueued = h.unqueued;
              idle = h.idle;
            })
    ]
  ]

  cancel_job-Stuck :
      (jq : JobQueue) (k : Text) → Stuck jq → text_eq k id ≡ false → Stuck (cancel_job jq k).0
  cancel_job-Stuck jq k h d = elim (Option-cases (lookup k jq.jobs)) [
    | inl q ↦ subst (λ r. Stuck r.0) (sym (cancel_absent jq k q)) h
    | inr (old, q) ↦
        subst (λ r. Stuck r.0) (sym (cancel_there jq k old q))
          (record {
            detector = h.detector;
            there = ground (arith, h.there, d, lookup-insert k id (cancel old) jq.jobs);
            unqueued = h.unqueued;
            idle = h.idle;
          })
  ]

  end_job-Stuck :
      (jq : JobQueue) (k : Text) (e : Option Text)
      → Stuck jq
      → contains k jq.working ≡ true
      → Stuck (end_job jq k e)
  end_job-Stuck jq k e h w = elim (Option-cases (lookup k jq.jobs)) [
    | inl q ↦ subst Stuck (sym (end_absent jq k e q)) (record {
      detector = h.detector;
      there = h.there;
      unqueued = h.unqueued;
      idle = ground (arith, h.idle, contains-remove_first id k jq.working);
    })
    | inr (old, q) ↦ subst Stuck (sym (end_there jq k old e q)) (record {
      detector = h.detector;
      there = ground (
        arith,
        h.there,
        h.idle,
        w,
        lookup-insert k id (ended_job old e) jq.jobs,
        text_eq_iff k id,
      );
      unqueued = h.unqueued;
      idle = ground (arith, h.idle, contains-remove_first id k jq.working);
    })
  ]

  drop-Stuck :
      (jq : JobQueue) (k : Text) (rest : List Text)
      → jq.queue ≡ k ∷ rest
      → Stuck jq
      → Stuck (record jq { queue = rest })
  unfolding contains
  drop-Stuck jq k rest head h = record {
    detector = h.detector;
    there = h.there;
    unqueued = ground (arith, h.unqueued, head);
    idle = h.idle;
  }

  take_job-Stuck : (jq : JobQueue) → Stuck jq → Stuck (take_job jq)
  unfolding contains
  take_job-Stuck jq h = elim (List-cases jq.queue) [
    | inl head ↦ subst Stuck (sym (take_empty jq head)) h
    | inr (k, rest, head) ↦ elim (Option-cases (lookup k jq.jobs)) [
      | inl q ↦ subst Stuck (sym (take_absent jq k rest head q)) (drop-Stuck jq k rest head h)
      | inr (old, q) ↦ elim (Bool-cases (was_canceled old.status)) [
        | inl c ↦
            subst Stuck (sym (take_canceled jq k rest head old q c)) (drop-Stuck jq k rest head h)
        | inr c ↦ subst Stuck (sym (take_fresh jq k rest head old q c)) (record {
          detector = h.detector;
          there = ground (
            arith,
            h.there,
            h.unqueued,
            head,
            text_eq_iff k id,
            lookup-insert k id (record old { status = running }) jq.jobs,
          );
          unqueued = ground (arith, h.unqueued, head);
          idle = ground (arith, h.idle, h.unqueued, head);
        })
      ]
    ]
  ]

  Later-Stuck : (jq jq' : JobQueue) → Stuck jq → Later id jq jq' → Stuck jq'
  Later-Stuck jq _ h now = h
  Later-Stuck jq _ h (by_submit s new l f) = submit-Stuck s new (Later-Stuck jq s h l) f
  Later-Stuck jq _ h (by_take s l) = take_job-Stuck s (Later-Stuck jq s h l)
  Later-Stuck jq _ h (by_end s k e l w) = end_job-Stuck s k e (Later-Stuck jq s h l) w
  Later-Stuck jq _ h (by_stop s k l d) = cancel_job-Stuck s k (Later-Stuck jq s h l) d

  -- A job of the same package is refused.
  refuses :
      (jq : JobQueue) (new : Job)
      → Stuck jq
      → is_active job.status ≡ true
      → is_same_package new.package_name job.package_name ≡ true
      → (c : PackageConflict) × (submit jq new ≡ (jq, some (package_conflict c)))
  unfolding detect_conflicts
  refuses jq new h a p = elim (Option-cases (check_submit jq new)) [
    | inr (c, e) ↦ (c, submit_refused jq new c e)
    | inl e ↦
        let apart =
          first_conflict-same service new job jq.jobs id (get_affected_packages service new) h.there
            a (rw (h.detector) at e) in
        absurd (ground (arith, apart, p))
  ]

  found : (jq : JobQueue) → Stuck jq → get_job jq id ≡ ok job
  unfolding get_job
  found jq h = rw (get_job, h.there) refl

-- A new job that finds no room is stored.
full-Stuck :
    (max_workers queue_size : ℕ) (service : PackageService) (jq : JobQueue) (job : Job)
    → Reached max_workers queue_size service jq
    → lookup job.id jq.jobs ≡ none
    → (submit jq job).1 ≡ some queue_full
    → IsStuck service job.id job (submit jq job).0
full-Stuck max_workers queue_size service jq job r f full =
    let h = Reached-Good max_workers queue_size service jq r in
    elim (Option-cases (check_submit jq job)) [
      | inr (c, e) ↦ absurd (not_full c (ap (λ s. s.1) (sym (submit_refused jq job c e)) ∙ full))
      | inl e ↦ elim (Bool-cases (ltb (length jq.queue) jq.queue_size)) [
        | inl q ↦ absurd (not_none (ap (λ s. s.1) (sym (submit_room jq job e q)) ∙ full))
        | inr q ↦
            subst (λ s. IsStuck service job.id job s.0) (sym (submit_full jq job e q))
              (record {
                detector = h.detector;
                there =
                    ground
                      (arith, lookup-insert job.id job.id job jq.jobs, text_eq_iff job.id job.id);
                unqueued = ground (arith, h.waiting job.id, f);
                idle = ground (arith, h.busy job.id, f);
              })
      ]
    ]

-- A new job that Submit refuses because the channel is full, in a state that is reached, stays pending
-- whatever happens later, as long as nobody cancels it, and every later job for its package is refused
-- as a conflict.
pub submit-Later :
    (max_workers queue_size : ℕ) (service : PackageService) (jq later : JobQueue) (job new : Job)
    → Reached max_workers queue_size service jq
    → lookup job.id jq.jobs ≡ none
    → job.status ≡ pending
    → (submit jq job).1 ≡ some queue_full
    → Later job.id (submit jq job).0 later
    → is_same_package new.package_name job.package_name ≡ true
    → (get_job later job.id ≡ ok job)
      × ((c : PackageConflict) × (submit later new ≡ (later, some (package_conflict c))))
submit-Later max_workers queue_size service jq later job new r f w full l p =
    let stuck =
      Later-Stuck service job.id job (submit jq job).0 later
        (full-Stuck max_workers queue_size service jq job r f full) l in
    (
      found service job.id job later stuck,
      refuses service job.id job later new stuck (ground (arith, w)) p,
    )

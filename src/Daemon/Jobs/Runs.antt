-- ===== src/Daemon/Jobs/Runs.antt =====
-- The reachable states of the queue of internal/daemon/job.go.
use mathlib.Core.Path.{subst}
use grpm.Base.{
  ℕ, ◌≡◌, inl, inr, refl, sym, arith, true, false, Option, none, some, List, ◌∷◌, length, ltb,
  Bool-cases, Option-cases, Text, text_eq_iff,
}
use grpm.Base.Assoc.{
  lookup, insert, lookup-insert, contains, contains-count, count, count-remove_first,
  length-remove_first,
}
use grpm.Daemon.Conflicts.{
  pending, running, Job, PackageService, is_active, get_affected_packages, detect_conflicts,
}
use grpm.Daemon.Jobs.{
  JobQueue, new_job_queue, check_submit, submit, cancel, cancel_job, was_canceled, take_job,
  ended_job, end_job,
}
use grpm.Daemon.Jobs.Refuses.{first_conflict-same}
use grpm.Daemon.Jobs.Safe.{Inv, contains-remove_first, Inv-full, Inv-room, changed-apart}
use grpm.Daemon.Jobs.Equations.{
  submit_refused, submit_full, submit_room, cancel_absent, cancel_there, end_there, take_absent,
  take_canceled, take_fresh, take_empty, List-cases, ended_job-name, ended_job-inactive,
}
use grpm.Daemon.Jobs.Steps.{submitted, taken, ended, stopped, Reached, at_start, after}

module _ (max_workers queue_size : ℕ) (service : PackageService) where
  abbrev Good : JobQueue → Type 0
  Good = Inv max_workers queue_size service

  submit-Good :
      (jq : JobQueue) (job : Job)
      → Good jq
      → lookup job.id jq.jobs ≡ none
      → job.status ≡ pending
      → Good (submit jq job).0
  unfolding detect_conflicts
  submit-Good jq job h fresh waits = elim (Option-cases (check_submit jq job)) [
    | inr (c, e) ↦ subst (λ r. Good r.0) (sym (submit_refused jq job c e)) h
    | inl e ↦
        let new =
          λ (k : Text) (old : Job) (p : lookup k jq.jobs ≡ some old)
              (a : is_active old.status ≡ true).
            first_conflict-same service job old jq.jobs k (get_affected_packages service job) p a
              (rw (h.detector) at e) in
        elim (Bool-cases (ltb (length jq.queue) jq.queue_size)) [
          | inl r ↦
              subst (λ r. Good r.0) (sym (submit_room jq job e r))
                (Inv-room max_workers queue_size service jq h job fresh waits new r)
          | inr r ↦
              subst (λ r. Good r.0) (sym (submit_full jq job e r))
                (Inv-full max_workers queue_size service jq h job fresh waits new)
        ]
  ]

  pub cancel_job-Good : (jq : JobQueue) (id : Text) → Good jq → Good (cancel_job jq id).0
  cancel_job-Good jq id h = elim (Option-cases (lookup id jq.jobs)) [
    | inl q ↦ subst (λ r. Good r.0) (sym (cancel_absent jq id q)) h
    | inr (job, q) ↦
        subst (λ r. Good r.0) (sym (cancel_there jq id job q))
          (record {
            detector = h.detector;
            workers = h.workers;
            size = h.size;
            apart =
                changed-apart max_workers queue_size service jq h id job (cancel job) q refl
                  (λ x. cc);
            once = h.once;
            waiting = λ k m.
                ground
                  (arith, h.waiting k m, lookup-insert id k (cancel job) jq.jobs, text_eq_iff id k);
            busy = λ k m.
                ground
                  (arith, h.busy k m, lookup-insert id k (cancel job) jq.jobs, text_eq_iff id k);
            few = h.few;
            room = h.room;
          })
  ]

  pub end_job-Good :
      (jq : JobQueue) (id : Text) (e : Option Text)
      → Good jq
      → contains id jq.working ≡ true
      → Good (end_job jq id e)
  end_job-Good jq id e h w = elim (Option-cases (lookup id jq.jobs)) [
    | inl q ↦ absurd (ground (arith, h.busy id w, q))
    | inr (job, q) ↦
        let job' = ended_job job e in
        subst Good (sym (end_there jq id job e q)) (record {
          detector = h.detector;
          workers = h.workers;
          size = h.size;
          apart =
              changed-apart max_workers queue_size service jq h id job job' q (ended_job-name job e)
                (λ x. ground (arith, x, ended_job-inactive job e));
          once =
              λ k. ground (arith, h.once k, count-remove_first id k jq.working, text_eq_iff id k);
          waiting = λ k m. ground (
            arith,
            h.waiting k m,
            lookup-insert id k job' jq.jobs,
            text_eq_iff id k,
            h.once k,
            contains-count k jq.queue m,
            contains-count id jq.working w,
          );
          busy = λ k m. ground (
            arith,
            h.busy k (contains-remove_first k id jq.working m),
            q,
            lookup-insert id k job' jq.jobs,
            text_eq_iff id k,
          );
          few =
              omega
                (arith, h.few, length-remove_first id jq.working (contains-count id jq.working w));
          room = h.room;
        })
  ]

  module _ (jq : JobQueue) (h : Good jq) (id : Text) (rest : List Text)
      (head : jq.queue ≡ id ∷ rest) where
    drop-Good : Good (record jq { queue = rest })
    unfolding count contains
    drop-Good = record {
      detector = h.detector;
      workers = h.workers;
      size = h.size;
      apart = h.apart;
      once = λ k. ground (arith, h.once k, head);
      waiting = λ k m. ground (arith, h.waiting k, head, m);
      busy = h.busy;
      few = h.few;
      room = ground (arith, h.room, head);
    }

    start-Good :
        (job : Job)
        → lookup id jq.jobs ≡ some job
        → was_canceled job.status ≡ false
        → ltb (length jq.working) jq.max_workers ≡ true
        → Good (record jq {
          queue = rest;
          jobs = insert id (record job { status = running }) jq.jobs;
          working = id ∷ jq.working;
        })
    unfolding count contains
    start-Good job q c w =
        let job' : Job = record job { status = running } in
        let was_pending : is_active job.status ≡ true =
          ground (arith, h.waiting id, head, q, c, text_eq_iff id id) in
        record {
          detector = h.detector;
          workers = h.workers;
          size = h.size;
          apart =
              changed-apart max_workers queue_size service jq h id job job' q refl
                (λ x. was_pending);
          once = λ k. ground (arith, h.once k, head);
          waiting = λ k m. ground (
            arith,
            h.waiting k,
            head,
            m,
            h.once k,
            text_eq_iff id k,
            contains-count k rest,
            lookup-insert id k job' jq.jobs,
          );
          busy = λ k m.
              ground (arith, h.busy k, m, q, lookup-insert id k job' jq.jobs, text_eq_iff id k);
          few = ground (arith, h.few, w, h.workers);
          room = ground (arith, h.room, head);
        }

  pub take_job-Good :
      (jq : JobQueue) → Good jq → ltb (length jq.working) jq.max_workers ≡ true → Good (take_job jq)
  take_job-Good jq h w = elim (List-cases jq.queue) [
    | inl head ↦ subst Good (sym (take_empty jq head)) h
    | inr (id, rest, head) ↦ elim (Option-cases (lookup id jq.jobs)) [
      | inl q ↦ subst Good (sym (take_absent jq id rest head q)) (drop-Good jq h id rest head)
      | inr (job, q) ↦ elim (Bool-cases (was_canceled job.status)) [
        | inl c ↦
            subst Good (sym (take_canceled jq id rest head job q c)) (drop-Good jq h id rest head)
        | inr c ↦
            subst Good (sym (take_fresh jq id rest head job q c))
              (start-Good jq h id rest head job q c w)
      ]
    ]
  ]

  pub Inv-new_job_queue : Good (new_job_queue max_workers queue_size (some service))
  unfolding new_job_queue lookup contains count
  Inv-new_job_queue = record {
    detector = refl;
    workers = refl;
    size = refl;
    apart = λ k l a b p q d x y. cc;
    once = λ id. omega arith;
    waiting = λ id m. cc;
    busy = λ id m. cc;
    few = omega arith;
    room = omega arith;
  }

  pub Reached-Good : (jq : JobQueue) → Reached max_workers queue_size service jq → Good jq
  Reached-Good _ at_start = Inv-new_job_queue
  Reached-Good _ (after jq _ r (submitted _ job fresh waits)) =
      submit-Good jq job (Reached-Good jq r) fresh waits
  Reached-Good _ (after jq _ r (taken _ w)) = take_job-Good jq (Reached-Good jq r) w
  Reached-Good _ (after jq _ r (ended _ id e w)) = end_job-Good jq id e (Reached-Good jq r) w
  Reached-Good _ (after jq _ r (stopped _ id)) = cancel_job-Good jq id (Reached-Good jq r)

-- ===== src/Daemon/Jobs/Equations.antt =====
-- What the operations of internal/daemon/job.go compute to, branch by branch.
use grpm.Base.{
  ◌≡◌, ◌⊎◌, inl, inr, refl, arith, true, false, Option, none, some, List, [], ◌∷◌, ◌++◌, length,
  ltb, Text,
}
use grpm.Base.Assoc.{lookup, insert, remove_first}
use grpm.Daemon.Conflicts.{running, Job, PackageConflict, is_active}
use grpm.Daemon.Jobs.{
  JobQueue, queue_full, package_conflict, job_not_found, check_submit, enqueue, submit, cancel,
  cancel_job, was_canceled, take_job, ended_job, end_job,
}

module _ (jq : JobQueue) (job : Job) where
  pub submit_refused :
      (c : PackageConflict)
      → check_submit jq job ≡ some c
      → submit jq job ≡ (jq, some (package_conflict c))
  unfolding submit
  submit_refused c e = rw (submit, e) refl

  pub submit_full :
      check_submit jq job ≡ none
      → ltb (length jq.queue) jq.queue_size ≡ false
      → submit jq job ≡ (record jq { jobs = insert job.id job jq.jobs }, some queue_full)
  unfolding submit enqueue
  submit_full e r = rw (submit, e, r) refl

  pub submit_room :
      check_submit jq job ≡ none
      → ltb (length jq.queue) jq.queue_size ≡ true
      → submit jq job
        ≡ (record jq { jobs = insert job.id job jq.jobs; queue = jq.queue ++ job.id ∷ [] }, none)
  unfolding submit enqueue
  submit_room e r = rw (submit, e, r) refl

module _ (jq : JobQueue) (id : Text) where
  pub cancel_absent : lookup id jq.jobs ≡ none → cancel_job jq id ≡ (jq, some (job_not_found id))
  unfolding cancel_job
  cancel_absent e = rw (cancel_job, e) refl

  pub cancel_there :
      (job : Job)
      → lookup id jq.jobs ≡ some job
      → cancel_job jq id ≡ (record jq { jobs = insert id (cancel job) jq.jobs }, none)
  unfolding cancel_job
  cancel_there job e = rw (cancel_job, e) refl

  pub end_there :
      (job : Job) (e : Option Text)
      → lookup id jq.jobs ≡ some job
      → end_job jq id e ≡ record jq {
        jobs = insert id (ended_job job e) jq.jobs;
        working = remove_first id jq.working;
      }
  unfolding end_job
  end_there job e q = rw (end_job, q) refl

  pub end_absent :
      (e : Option Text)
      → lookup id jq.jobs ≡ none
      → end_job jq id e ≡ record jq { working = remove_first id jq.working }
  unfolding end_job
  end_absent e q = rw (end_job, q) refl

  module _ (rest : List Text) (head : jq.queue ≡ id ∷ rest) where
    pub take_absent : lookup id jq.jobs ≡ none → take_job jq ≡ record jq { queue = rest }
    unfolding take_job
    take_absent e = rw (take_job, head, e) refl

    pub take_canceled :
        (job : Job)
        → lookup id jq.jobs ≡ some job
        → was_canceled job.status ≡ true
        → take_job jq ≡ record jq { queue = rest }
    unfolding take_job
    take_canceled job e c = rw (take_job, head, e, c) refl

    pub take_fresh :
        (job : Job)
        → lookup id jq.jobs ≡ some job
        → was_canceled job.status ≡ false
        → take_job jq ≡ record jq {
          queue = rest;
          jobs = insert id (record job { status = running }) jq.jobs;
          working = id ∷ jq.working;
        }
    unfolding take_job
    take_fresh job e c = rw (take_job, head, e, c) refl

pub ended_job-name :
    (job : Job) (e : Option Text) → (ended_job job e).package_name ≡ job.package_name
unfolding ended_job
ended_job-name job none = ground arith
ended_job-name job (some m) = ground arith

pub ended_job-inactive : (job : Job) (e : Option Text) → is_active (ended_job job e).status ≡ false
unfolding ended_job
ended_job-inactive job none = ground arith
ended_job-inactive job (some m) = ground arith

pub take_empty : (jq : JobQueue) → jq.queue ≡ [] → take_job jq ≡ jq
unfolding take_job
take_empty jq e = ground (arith, e)

pub List-cases {ℓ} :
    {A : Type ℓ} (l : List A) → (l ≡ []) ⊎ ((a : A) × (rest : List A) × (l ≡ a ∷ rest))
List-cases [] = inl refl
List-cases (a ∷ rest) = inr (a, rest, refl)

-- ===== src/Daemon/Jobs/Safe.antt =====
-- What every reachable state of the queue of internal/daemon/job.go keeps.
use grpm.Base.{
  ℕ, ◌+◌, ◌≤◌, ◌≡◌, refl, arith, Bool, true, false, Option, none, some, List, [], ◌∷◌, ◌++◌, length,
  ltb, is_some, Text, text_eq, text_eq_iff, length-append,
}
use grpm.Base.Assoc.{
  lookup, insert, lookup-insert, contains, contains-append, count, count-append, remove_first,
}
use grpm.Daemon.Conflicts.{
  JobStatus, pending, running, completed, failed, canceled, Job, PackageService, is_active,
  is_same_package,
}
use grpm.Daemon.Jobs.{JobQueue}
use grpm.Daemon.Jobs.Refuses.{same_sym}

-- A job that waits in the channel, or was canceled there.
abbrev pub may_wait : JobStatus → Bool
may_wait pending = true
may_wait canceled = true
may_wait running = false
may_wait completed = false
may_wait failed = false

abbrev pub waits_as : Option Job → Bool
waits_as none = false
waits_as (some job) = may_wait job.status

pub record Inv (max_workers queue_size : ℕ) (service : PackageService) (jq : JobQueue)
    : Type 0 where
  pub detector : jq.conflict_detector ≡ some service
  pub workers : jq.max_workers ≡ max_workers
  pub size : jq.queue_size ≡ queue_size
  pub apart :
      (k l : Text) (a b : Job)
      → lookup k jq.jobs ≡ some a
      → lookup l jq.jobs ≡ some b
      → text_eq k l ≡ false
      → is_active a.status ≡ true
      → is_active b.status ≡ true
      → is_same_package a.package_name b.package_name ≡ false
  pub once : (id : Text) → count id jq.queue + count id jq.working ≤ 1
  pub waiting : (id : Text) → contains id jq.queue ≡ true → waits_as (lookup id jq.jobs) ≡ true
  pub busy : (id : Text) → contains id jq.working ≡ true → is_some (lookup id jq.jobs) ≡ true
  pub few : length jq.working ≤ max_workers
  pub room : length jq.queue ≤ queue_size

pub count-contains : (k : Text) (l : List Text) → contains k l ≡ false → count k l ≡ 0
unfolding contains count
count-contains k [] h = refl
count-contains k (j ∷ l) h = ground (arith, count-contains k l)

pub contains-remove_first :
    (k j : Text) (l : List Text) → contains k (remove_first j l) ≡ true → contains k l ≡ true
unfolding contains remove_first
contains-remove_first k j [] h = cc
contains-remove_first k j (i ∷ l) h = ground (arith, h, contains-remove_first k j l)

module _ (max_workers queue_size : ℕ) (service : PackageService) (jq : JobQueue)
    (h : Inv max_workers queue_size service jq) where
  module _ (job : Job) (fresh : lookup job.id jq.jobs ≡ none) (waits : job.status ≡ pending) where
    abbrev stored : List (Text × Job)
    stored = insert job.id job jq.jobs

    stored-apart :
        ((k : Text) (old : Job)
          → lookup k jq.jobs ≡ some old
          → is_active old.status ≡ true
          → is_same_package job.package_name old.package_name ≡ false)
        → (k l : Text) (a b : Job) → lookup k stored ≡ some a
        → lookup l stored ≡ some b
        → text_eq k l ≡ false
        → is_active a.status ≡ true
        → is_active b.status ≡ true
        → is_same_package a.package_name b.package_name ≡ false
    stored-apart new k l a b p q d x y = ground (
      arith,
      h.apart k l a b,
      new k a,
      new l b,
      same_sym a.package_name b.package_name,
      d,
      x,
      y,
      p,
      q,
      lookup-insert job.id k job jq.jobs,
      lookup-insert job.id l job jq.jobs,
      text_eq_iff job.id k,
      text_eq_iff job.id l,
      text_eq_iff k l,
    )

    fresh_queue : contains job.id jq.queue ≡ false
    fresh_queue = ground (arith, h.waiting job.id, fresh)

    fresh_working : contains job.id jq.working ≡ false
    fresh_working = ground (arith, h.busy job.id, fresh)

    module _
        (new : (k : Text) (old : Job)
          → lookup k jq.jobs ≡ some old
          → is_active old.status ≡ true
          → is_same_package job.package_name old.package_name ≡ false) where
      pub Inv-full : Inv max_workers queue_size service (record jq { jobs = stored })
      Inv-full = record {
        detector = h.detector;
        workers = h.workers;
        size = h.size;
        apart = stored-apart new;
        once = h.once;
        waiting = λ id m. ground (
          arith,
          h.waiting id m,
          waits,
          lookup-insert job.id id job jq.jobs,
          text_eq_iff job.id id,
        );
        busy = λ id m.
            ground (arith, h.busy id m, lookup-insert job.id id job jq.jobs, text_eq_iff job.id id);
        few = h.few;
        room = h.room;
      }

      pub Inv-room :
          ltb (length jq.queue) jq.queue_size ≡ true
          → Inv max_workers queue_size service
              (record jq { jobs = stored; queue = jq.queue ++ job.id ∷ [] })
      unfolding count contains
      Inv-room r = record {
        detector = h.detector;
        workers = h.workers;
        size = h.size;
        apart = stored-apart new;
        once = λ id. ground (
          arith,
          h.once id,
          count-append id jq.queue (job.id ∷ []),
          text_eq_iff job.id id,
          count-contains job.id jq.queue fresh_queue,
          count-contains job.id jq.working fresh_working,
        );
        waiting = λ id m. ground (
          arith,
          h.waiting id,
          m,
          waits,
          lookup-insert job.id id job jq.jobs,
          text_eq_iff job.id id,
          contains-append id jq.queue (job.id ∷ []),
        );
        busy = λ id m.
            ground (arith, h.busy id m, lookup-insert job.id id job jq.jobs, text_eq_iff job.id id);
        few = h.few;
        room = ground (arith, r, h.room, h.size, length-append jq.queue (job.id ∷ []));
      }

  -- A job whose package stays, and that does not become active, is changed.
  module _ (id : Text) (job job' : Job) (there : lookup id jq.jobs ≡ some job)
      (same : job'.package_name ≡ job.package_name)
      (still : is_active job'.status ≡ true → is_active job.status ≡ true) where
    pub changed-apart :
        (k l : Text) (a b : Job)
        → lookup k (insert id job' jq.jobs) ≡ some a
        → lookup l (insert id job' jq.jobs) ≡ some b
        → text_eq k l ≡ false
        → is_active a.status ≡ true
        → is_active b.status ≡ true
        → is_same_package a.package_name b.package_name ≡ false
    changed-apart k l a b p q d x y = ground (
      arith,
      h.apart k l a b,
      h.apart k l job b,
      h.apart k l a job,
      d,
      x,
      y,
      p,
      q,
      there,
      same,
      still,
      lookup-insert id k job' jq.jobs,
      lookup-insert id l job' jq.jobs,
      text_eq_iff id k,
      text_eq_iff id l,
      text_eq_iff k l,
    )

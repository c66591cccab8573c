-- ===== src/Daemon/Scheduler/Ready.antt =====
-- What internal/daemon/scheduler.go queues when a task has been built.
use grpm.Base.{
  ◌≤◌, ◌≡◌, ◌∙◌, ◌⊎◌, inl, inr, refl, true, some, List, [], ◌∷◌, arith, ltb, length, All, Text,
  text_eq, text_eq_iff, if_rule, Option-cases, Bool-cases,
}
use grpm.Base.Assoc.{count, count-append, contains, lookup}
use grpm.Daemon.Scheduler.{
  BuildTask, BuildScheduler, all_completed, are_dependencies_completed, send_ready, queue_dependent,
  queue_dependents, queue_ready_dependents, collect_completed,
}

all_completed-All :
    (done deps : List Text)
    → all_completed done deps ≡ true
    → All (λ d. contains d done ≡ true) deps
unfolding all_completed
all_completed-All done [] h = tt
all_completed-All done (d ∷ deps) h = (ground arith, all_completed-All done deps (ground arith))

-- `after` differs from `before` in the queue alone, which holds no other task than before, except tasks all of whose dependencies are completed.
pub record Queues (before after : BuildScheduler) : Type 0 where
  pub same_tasks : after.tasks ≡ before.tasks
  pub same_completed : after.completed_set ≡ before.completed_set
  pub same_capacity : after.capacity ≡ before.capacity
  pub ready :
      (k : Text)
      → 1 ≤ count k after.ready_queue
      → (1 ≤ count k before.ready_queue)
        ⊎ ((t : BuildTask) × (lookup k before.tasks ≡ some t)
            × All (λ d. contains d before.completed_set ≡ true) t.dependencies)

unchanged : (s : BuildScheduler) → Queues s s
unchanged s = record {
  same_tasks = refl;
  same_completed = refl;
  same_capacity = refl;
  ready = λ k h. inl h;
}

sent :
    (id : Text) (s : BuildScheduler) (t : BuildTask)
    → lookup id s.tasks ≡ some t
    → are_dependencies_completed t s ≡ true
    → Queues s (send_ready id s)
unfolding send_ready are_dependencies_completed count
sent id s t e done =
    if_rule (Queues s) (ltb (length s.ready_queue) s.capacity) _ _
      (λ free. record {
        same_tasks = refl;
        same_completed = refl;
        same_capacity = refl;
        ready = λ k h. elim (Bool-cases (text_eq id k)) [
          | inl same ↦ inr (
            t,
            rw (← (text_eq_iff id k).0 same) e,
            all_completed-All s.completed_set t.dependencies done,
          )
          | inr other ↦ inl (ground (arith, count-append k s.ready_queue (id ∷ []), h, other))
        ];
      })
      (λ _. unchanged s)

-- Two steps in a row, as the fields that the second one reads are those of the first state.
chained : (s s' s'' : BuildScheduler) → Queues s s' → Queues s' s'' → Queues s s''
chained s s' s'' p q = record {
  same_tasks = q.same_tasks ∙ p.same_tasks;
  same_completed = q.same_completed ∙ p.same_completed;
  same_capacity = q.same_capacity ∙ p.same_capacity;
  ready = λ k h. elim (q.ready k h) [
    | inl old ↦ p.ready k old
    | inr (t, e, done) ↦ inr (t, rw (p.same_tasks) at e, rw (p.same_completed) at done)
  ];
}

queue_dependent-Queues : (id : Text) (s : BuildScheduler) → Queues s (queue_dependent id s)
unfolding queue_dependent
queue_dependent-Queues id s = elim (Option-cases (lookup id s.tasks)) [
  | inl e ↦ rw (e, queue_dependent) (unchanged s)
  | inr (t, e) ↦
      rw (e, queue_dependent)
        (if_rule (Queues s) (are_dependencies_completed t s) _ _ (λ done. sent id s t e done)
          (λ _. unchanged s))
]

queue_dependents-Queues : (ids : List Text) (s : BuildScheduler) → Queues s (queue_dependents ids s)
unfolding queue_dependents
queue_dependents-Queues [] s = unchanged s
queue_dependents-Queues (id ∷ ids) s =
    chained s (queue_dependent id s) (queue_dependents ids (queue_dependent id s))
      (queue_dependent-Queues id s) (queue_dependents-Queues ids (queue_dependent id s))

-- When a task has been built, a task that the queue holds afterwards was in the queue before, or all
-- of its dependencies are completed, the task just built included.
pub collect_completed-ready :
    (task : BuildTask) (s : BuildScheduler) (k : Text)
    → 1 ≤ count k (collect_completed task s).ready_queue
    → (1 ≤ count k s.ready_queue)
      ⊎ ((t : BuildTask) × (lookup k s.tasks ≡ some t)
          × All (λ d. contains d (task.id ∷ s.completed_set) ≡ true) t.dependencies)
unfolding collect_completed queue_ready_dependents
collect_completed-ready task s k h =
    let s' = record s { completed_set = task.id ∷ s.completed_set } in
    let q = queue_dependents-Queues task.dependents s' in q.ready k h

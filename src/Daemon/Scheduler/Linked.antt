-- ===== src/Daemon/Scheduler/Linked.antt =====
-- About the two directions of the dependencies of internal/daemon/scheduler.go.
use grpm.Base.{
  ℕ, ◌+◌, ◌≡◌, refl, Bool, true, false, ◌&&◌, Option, none, some, List, [], ◌∷◌, ◌++◌, arith, inl,
  inr, Option-cases, if◌then◌else◌, Text, text_eq, text_eq_iff, if_rule,
}
use grpm.Base.Assoc.{count, count-append, lookup, insert, lookup-insert}
use grpm.Base.Result.{Result, ok, err}
use grpm.Daemon.Scheduler.{
  BuildTask, BuildScheduler, SchedulerError, new_build_task, new_build_scheduler, add_task, modify,
  depending_on, needed_by, add_dependency,
}

abbrev modified : (BuildTask → BuildTask) → Option BuildTask → Option BuildTask
modified f none = none
modified f (some t) = some (f t)

lookup-modify :
    (k j : Text) (f : BuildTask → BuildTask) (m : List (Text × BuildTask))
    → lookup j (modify k f m) ≡ (if text_eq k j then modified f (lookup j m) else lookup j m)
unfolding lookup modify
lookup-modify k j f [] = ground arith
lookup-modify k j f ((i, t) ∷ m) =
    ground (arith, text_eq_iff k j, text_eq_iff i k, text_eq_iff i j, lookup-modify k j f m)

abbrev pub Tasks : Type 0
Tasks = List (Text × BuildTask)

unfoldable pub dependencies_of : Text → Tasks → List Text
dependencies_of k m = elim (lookup k m) [ none ↦ [] | some t ↦ t.dependencies ]

unfoldable pub dependents_of : Text → Tasks → List Text
dependents_of k m = elim (lookup k m) [ none ↦ [] | some t ↦ t.dependents ]

-- `b` stands among the dependencies of `a` as often as `a` among the dependents of `b`.
pub record IsLinked (m : Tasks) : Type 0 where
  pub linked : (a b : Text) → count b (dependencies_of a m) ≡ count a (dependents_of b m)

-- What a new task and a new dependency do to both directions.
dependencies_of-insert :
    (k j : Text) (t : BuildTask) (m : Tasks)
    → dependencies_of j (insert k t m)
      ≡ (if text_eq k j then t.dependencies else dependencies_of j m)
unfolding dependencies_of
dependencies_of-insert k j t m = rw (dependencies_of, lookup-insert k j t m) (ground arith)

dependents_of-insert :
    (k j : Text) (t : BuildTask) (m : Tasks)
    → dependents_of j (insert k t m) ≡ (if text_eq k j then t.dependents else dependents_of j m)
unfolding dependents_of
dependents_of-insert k j t m = rw (dependents_of, lookup-insert k j t m) (ground arith)

dependencies_of-depending_on :
    (a b j : Text) (m : Tasks) {t : BuildTask}
    → lookup a m ≡ some t
    → dependencies_of j (modify a (depending_on b) m)
      ≡ (if text_eq a j then dependencies_of j m ++ b ∷ [] else dependencies_of j m)
unfolding dependencies_of
dependencies_of-depending_on a b j m e =
    rw (dependencies_of, lookup-modify a j (depending_on b) m) (ground (arith, text_eq_iff a j, e))

dependencies_of-needed_by :
    (a b j : Text) (m : Tasks) → dependencies_of j (modify b (needed_by a) m) ≡ dependencies_of j m
unfolding dependencies_of
dependencies_of-needed_by a b j m =
    rw (dependencies_of, lookup-modify b j (needed_by a) m) (ground arith)

dependents_of-needed_by :
    (a b j : Text) (m : Tasks) {t : BuildTask}
    → lookup b m ≡ some t
    → dependents_of j (modify b (needed_by a) m)
      ≡ (if text_eq b j then dependents_of j m ++ a ∷ [] else dependents_of j m)
unfolding dependents_of
dependents_of-needed_by a b j m e =
    rw (dependents_of, lookup-modify b j (needed_by a) m) (ground (arith, text_eq_iff b j, e))

dependents_of-depending_on :
    (a b j : Text) (m : Tasks) → dependents_of j (modify a (depending_on b) m) ≡ dependents_of j m
unfolding dependents_of
dependents_of-depending_on a b j m =
    rw (dependents_of, lookup-modify a j (depending_on b) m) (ground arith)

insert-IsLinked :
    (id : Text) (m : Tasks)
    → IsLinked m
    → lookup id m ≡ none
    → IsLinked (insert id (new_build_task id) m)
unfolding new_build_task count dependencies_of dependents_of
insert-IsLinked id m h new = record {
  linked = λ a b. ground (
    arith,
    dependencies_of-insert id a (new_build_task id) m,
    dependents_of-insert id b (new_build_task id) m,
    h.linked a b,
    h.linked id b,
    h.linked a id,
    text_eq_iff id a,
    text_eq_iff id b,
  );
}

lookup-modify_there :
    (k j : Text) (f : BuildTask → BuildTask) (m : Tasks) {t : BuildTask}
    → lookup j m ≡ some t
    → lookup j (modify k f m) ≡ some (if text_eq k j then f t else t)
lookup-modify_there k j f m e = rw (lookup-modify k j f m, e) (ground arith)

abbrev one_if : Bool → ℕ
one_if b = if b then 1 else 0

count-snoc_if :
    (p : Bool) (l : List Text) (k j : Text)
    → count j (if p then l ++ k ∷ [] else l) ≡ count j l + one_if (p && text_eq k j)
unfolding count
count-snoc_if true l k j = ground (arith, count-append j l (k ∷ []))
count-snoc_if false l k j = omega arith

depend-IsLinked :
    (a b : Text) (m : Tasks) {t u : BuildTask}
    → IsLinked m
    → lookup a m ≡ some t
    → lookup b m ≡ some u
    → IsLinked (modify b (needed_by a) (modify a (depending_on b) m))
depend-IsLinked a b m {t} {u} h ea eb =
    let m1 = modify a (depending_on b) m in
    let there = lookup-modify_there a b (depending_on b) m eb in
    record {
      linked = λ x y.
          rw
            (
              dependencies_of-needed_by a b x m1,
              dependencies_of-depending_on a b x m ea,
              dependents_of-needed_by a b y m1 there,
              dependents_of-depending_on a b y m,
              count-snoc_if (text_eq a x) (dependencies_of x m) b y,
              count-snoc_if (text_eq b y) (dependents_of y m) a x,
              h.linked x y,
            )
            (ground arith);
    }

-- What is done with a scheduler before it starts; an error leaves it as it was.
pub data Edit : Type 0 where
  add : Text → Edit
  depend : Text → Text → Edit

abbrev pub or_unchanged : BuildScheduler → Result SchedulerError BuildScheduler → BuildScheduler
or_unchanged s (ok s') = s'
or_unchanged s (err e) = s

unfoldable pub edit : Edit → BuildScheduler → BuildScheduler
unfolding add_task add_dependency
edit (add id) s = or_unchanged s (add_task (new_build_task id) s)
edit (depend a b) s = or_unchanged s (add_dependency a b s)

unfoldable pub edit_all : List Edit → BuildScheduler → BuildScheduler
unfolding edit
edit_all [] s = s
edit_all (e ∷ es) s = edit_all es (edit e s)

-- The two directions agree in the tasks of a scheduler.
abbrev Keeps : BuildScheduler → Type 0
Keeps s = IsLinked s.tasks

add_task-Keeps :
    (id : Text) (s : BuildScheduler)
    → Keeps s
    → Keeps (or_unchanged s (add_task (new_build_task id) s))
unfolding add_task new_build_task
add_task-Keeps id s h =
    if_rule (λ (r : Result SchedulerError BuildScheduler). Keeps (or_unchanged s r)) s.running _ _
      (λ _. h)
      (λ _. elim (Option-cases (lookup id s.tasks)) [
        | inl new ↦ rw (new, add_task) (insert-IsLinked id s.tasks h new)
        | inr (t, old) ↦ rw (old, add_task) h
      ])

add_dependency-Keeps :
    (a b : Text) (s : BuildScheduler) → Keeps s → Keeps (or_unchanged s (add_dependency a b s))
unfolding add_dependency
add_dependency-Keeps a b s h =
    if_rule (λ (r : Result SchedulerError BuildScheduler). Keeps (or_unchanged s r)) s.running _ _
      (λ _. h)
      (λ _. elim (Option-cases (lookup a s.tasks)) [
        | inl ea ↦ rw (ea, add_dependency) h
        | inr (t, ea) ↦ elim (Option-cases (lookup b s.tasks)) [
          | inl eb ↦ rw (ea, eb, add_dependency) h
          | inr (u, eb) ↦ rw (ea, eb, add_dependency) (depend-IsLinked a b s.tasks h ea eb)
        ]
      ])

edit-Keeps : (e : Edit) (s : BuildScheduler) → Keeps s → Keeps (edit e s)
unfolding edit
edit-Keeps (add id) s h = add_task-Keeps id s h
edit-Keeps (depend a b) s h = add_dependency-Keeps a b s h

edit_all-Keeps : (es : List Edit) (s : BuildScheduler) → Keeps s → Keeps (edit_all es s)
unfolding edit_all
edit_all-Keeps [] s h = h
edit_all-Keeps (e ∷ es) s h = edit_all-Keeps es (edit e s) (edit-Keeps e s h)

new-Keeps : (n : ℕ) → Keeps (new_build_scheduler n)
unfolding new_build_scheduler dependencies_of dependents_of lookup count
new-Keeps n = record { linked = λ a b. refl }

-- Whatever tasks and dependencies are added to a new scheduler, in whatever order and with whatever
-- errors, its two directions agree: a task lists another one as a dependency exactly as often as the
-- other one lists it as a dependent.
pub edit_all-IsLinked :
    (es : List Edit) (n : ℕ) → IsLinked (edit_all es (new_build_scheduler n)).tasks
edit_all-IsLinked es n = edit_all-Keeps es (new_build_scheduler n) (new-Keeps n)

-- ===== src/Daemon/Topological/Invariant.antt =====
-- What holds between two passes of the loop of `topologicalSort` of internal/daemon/scheduler.go.
use grpm.Base.{
  if_rule, text_eq_refl, ℕ, ◌+◌, ◌-◌, ◌≤◌, ◌≡◌, refl, sym, ◌∙◌, ap, true, false, some, List, [],
  ◌∷◌, ◌++◌, arith, length, ◌==◌, if◌then◌else◌, Text, text_eq, text_eq_iff, All,
}
use grpm.Base.Int.{ℤ, pos, ◌-ℤ◌, is_zero_ℤ}
use grpm.Base.Assoc.{lookup, insert, lookup-insert, count, count-append, contains}
use grpm.Daemon.Scheduler.{BuildTask}
use grpm.Daemon.Scheduler.Linked.{Tasks, dependencies_of, dependents_of, IsLinked}
use grpm.Daemon.Topological.{Degrees, degree_of, reduce}

-- How many of the dependencies are done.
unfoldable pub hits : List Text → List Text → ℕ
hits done [] = 0
hits done (d ∷ deps) = (if contains d done then 1 else 0) + hits done deps

pub hits-le : (done deps : List Text) → hits done deps ≤ length deps
unfolding hits
hits-le done [] = omega arith
hits-le done (d ∷ deps) = ground (arith, hits-le done deps)

hits-cons :
    (c : Text) (done deps : List Text)
    → contains c done ≡ false
    → hits (c ∷ done) deps ≡ hits done deps + count c deps
unfolding hits count contains
hits-cons c done [] h = omega arith
hits-cons c done (d ∷ deps) h =
    ground (arith, hits-cons c done deps, text_eq_iff c d, text_eq_iff d c)

pub hits-All :
    (done deps : List Text) → hits done deps ≡ length deps → All (λ d. contains d done ≡ true) deps
unfolding hits
hits-All done [] h = tt
hits-All done (d ∷ deps) h =
    (ground (arith, hits-le done deps), hits-All done deps (ground (arith, hits-le done deps)))

count-contains : (k : Text) (l : List Text) → count k l ≡ 0 → contains k l ≡ false
unfolding count contains
count-contains k [] h = refl
count-contains k (j ∷ l) h = ground (arith, count-contains k l)

degree_of-insert :
    (k j : Text) (d : ℤ) (m : Degrees)
    → degree_of j (insert k d m) ≡ (if text_eq k j then d else degree_of j m)
unfolding degree_of
degree_of-insert k j d m = rw (degree_of, lookup-insert k j d m) (ground arith)

zero_iff : (d : ℤ) (n : ℕ) → d ≡ pos n → is_zero_ℤ d ≡ (n == 0)
zero_iff d n e = rw e (ground arith)

one_less : (d : ℤ) (n : ℕ) → d ≡ pos (n + 1) → d -ℤ pos 1 ≡ pos n
one_less d n e = rw e (ground arith)

module _ (tasks : Tasks) where
  -- What a task still waits for, where the dependents `ids` of the last one are not yet told.
  abbrev pub need : List Text → List Text → Text → ℕ
  need done ids id =
      (length (dependencies_of id tasks) - hits done (dependencies_of id tasks)) + count id ids

  pub record Inv (done ids : List Text) (m : Degrees) (queue : List Text) : Type 0 where
    pub degrees : (id : Text) → degree_of id m ≡ pos (need done ids id)
    pub once : (id : Text) → count id done + count id queue ≤ 1
    pub free : (id : Text) → 1 ≤ count id done + count id queue → need done ids id ≡ 0

  -- One dependent is told.
  told-Inv :
      (done ids : List Text) (m : Degrees) (queue : List Text) (k : Text) (d : ℤ)
      → d ≡ pos (need done ids k)
      → Inv done (k ∷ ids) m queue
      → Inv done ids (insert k d m) (if is_zero_ℤ d then queue ++ k ∷ [] else queue)
  unfolding count
  told-Inv done ids m queue k d e h =
      let z = zero_iff d (need done ids k) e in
      record {
        degrees = λ j. ground (arith, degree_of-insert k j d m, h.degrees j, text_eq_iff k j, e);
        once = λ j.
            if_rule (λ q. count j done + count j q ≤ 1) (is_zero_ℤ d) _ _
              (λ b.
                ground (arith, count-append j queue (k ∷ []), h.once j, h.free j, text_eq_iff k j))
              (λ b. h.once j);
        free = λ j.
            if_rule (λ q. 1 ≤ count j done + count j q → need done ids j ≡ 0) (is_zero_ℤ d) _ _
              (λ b c.
                ground (arith, count-append j queue (k ∷ []), h.free j, text_eq_iff k j, z, b, c))
              (λ b c. ground (arith, h.free j, c));
      }

  pub reduce-Inv :
      (done ids : List Text) (m : Degrees) (queue : List Text)
      → Inv done ids m queue
      → Inv done [] (reduce ids m queue).0 (reduce ids m queue).1
  unfolding reduce count
  reduce-Inv done [] m queue h = h
  reduce-Inv done (k ∷ ids) m queue h =
      let e = h.degrees k in
      reduce-Inv done ids _ _ (
        told-Inv done ids m queue k (degree_of k m -ℤ pos 1)
          (one_less (degree_of k m) (need done ids k) (e ∙ ap pos (ground (arith, text_eq_refl k))))
          h)

  pub step-Inv :
      (done : List Text) (m : Degrees) (queue : List Text) (current : Text) (t : BuildTask)
      → IsLinked tasks
      → lookup current tasks ≡ some t
      → Inv done [] m (current ∷ queue)
      → Inv (current ∷ done) t.dependents m queue
  unfolding count dependents_of
  step-Inv done m queue current t l e h = record {
    degrees = λ j. h.degrees j ∙ ap pos (told j);
    once = λ j. ground (arith, h.once j);
    free = λ j c. sym (told j) ∙ h.free j (ground (arith, c));
  }
    where
      told : (j : Text) → need done [] j ≡ need (current ∷ done) t.dependents j
      told j = ground (
        arith,
        hits-cons current done (dependencies_of j tasks),
        l.linked j current,
        count-contains current done,
        h.once current,
        text_eq_refl current,
        hits-le (current ∷ done) (dependencies_of j tasks),
        e,
      )

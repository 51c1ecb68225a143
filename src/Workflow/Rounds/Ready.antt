-- ===== src/Workflow/Rounds/Ready.antt =====
-- packages/workflow-engine/src/executor.ts: a batch of the steps of `readySteps`.
use ryvan_os.Workflow.Rounds.{slices_from, slices, run_batch}
use ryvan_os.Base.{
  ℕ, suc, ◌-◌, ◌<◌, String, ◌≡◌, refl, sym, subst, Bool, true, false, Option, none, some, List, [],
  ◌∷◌, arith, ◌==◌, Distinct, All-of_members, if_both, length, drop, take, keep_if, any, all, All,
  Member-keep_if,
}
use ryvan_os.Base.Map.{Map, get}
use ryvan_os.Workflow.Types.{WorkflowRun, StepState, StepDefinition, WorkflowDefinition}
use ryvan_os.Workflow.Transitions.{is_completed, is_ready, ready_steps, is_pending, state_is}
use ryvan_os.Workflow.Transitions.Order.{is_idle, is_done}
use ryvan_os.Workflow.Environment.{Settles, ids, Env, Live}
use ryvan_os.Workflow.Rounds.Dependencies.{DoneAt}
use ryvan_os.Workflow.Rounds.Slices.{Distinct-same, concat-slices_from}
use ryvan_os.Workflow.Rounds.Batches.{run_slices-first, Startable, Goes, run_slices-Goes}

Distinct-keep_if :
    (p : StepDefinition → Bool) (xs : List StepDefinition)
    → Distinct (ids xs)
    → Distinct (ids (keep_if p xs))
Distinct-keep_if p [] d = tt
Distinct-keep_if p (x ∷ xs) d =
    if_both (λ (ys : List StepDefinition). Distinct (ids ys)) (p x)
      (fewer xs d.0, Distinct-keep_if p xs d.1) (Distinct-keep_if p xs d.1)
  where
    fewer :
        (ys : List StepDefinition)
        → any (λ y. y == x.id) (ids ys) ≡ false
        → any (λ y. y == x.id) (ids (keep_if p ys)) ≡ false
    fewer [] h = refl
    fewer (y ∷ ys) h =
        if_both (λ (zs : List StepDefinition). any (λ y. y == x.id) (ids zs) ≡ false) (p y)
          (let f = fewer ys (ground arith) in ground arith) (fewer ys (ground arith))

pending_idle : (o : Option StepState) → state_is is_pending o ≡ true → state_is is_idle o ≡ true
pending_idle none h = cc
pending_idle (some s) h = ground arith

completed_done :
    (m : Map StepState) (ds : List String)
    → all (λ d. state_is is_completed (get m d)) ds ≡ true
    → All (DoneAt m) ds
completed_done m [] h = tt
completed_done m (d ∷ ds) h = (one (get m d) (ground arith), completed_done m ds (ground arith))
  where
    one : (o : Option StepState) → state_is is_completed o ≡ true → state_is is_done o ≡ true
    one none h = cc
    one (some s) h = ground arith

module _ (definition : WorkflowDefinition) (distinct : Distinct (ids definition.steps)) where
  ready-Startable :
      (env : Env) (run : WorkflowRun)
      → Startable env definition definition.steps (ready_steps run definition) run.steps
  unfolding ready_steps
  ready-Startable env run = record {
    distinct = Distinct-keep_if (is_ready run) definition.steps distinct;
    idle = All-of_members _ (λ s i.
        let (m, r) = Member-keep_if (is_ready run) definition.steps i in
        pending_idle _ (ground arith));
    ready = All-of_members _ (λ s i t k e.
        let (m, r) = Member-keep_if (is_ready run) definition.steps i in
        let same = Distinct-same definition.steps distinct k m e in
        subst (λ (u : StepDefinition). All (DoneAt run.steps) u.depends_on) (sym same)
          (completed_done run.steps s.depends_on (ground arith)));
  }

  module _ (env : Env) (concurrency : ℕ) (live : Live) (settles : Settles env)
      (positive : 0 < concurrency) where
    -- A batch of all the ready steps keeps the dependencies of started steps met.
    pub run_batch-Goes :
        Goes env definition settles definition.steps live.run.steps
          (run_batch env definition concurrency (ready_steps live.run definition) live).0.run.steps
    unfolding run_batch
    run_batch-Goes =
        let ready = ready_steps live.run definition in
        run_slices-Goes env definition settles definition.steps (slices concurrency ready) live (
          subst (λ xs. Startable env definition definition.steps xs live.run.steps)
            (sym (concat-slices_from (length ready) concurrency ready positive (omega arith)))
            (ready-Startable env live.run))

    first_at :
        (n : ℕ) (s : StepDefinition) (ss : List StepDefinition)
        → Startable env definition definition.steps (s ∷ ss) live.run.steps
        → state_is is_pending
            (get (run_batch env definition (suc n) (s ∷ ss) live).0.run.steps s.id)
          ≡ false
    unfolding run_batch slices_from
    first_at n s ss startable =
        let rest = slices_from (length ss) (suc n) (drop n ss) in
        let whole =
          concat-slices_from (length (s ∷ ss)) (suc n) (s ∷ ss) (omega arith) (omega arith) in
        (run_slices-first env definition settles definition.steps (s ∷ take n ss) rest live (
          subst (λ xs. Startable env definition definition.steps xs live.run.steps) (sym whole)
            startable)).0

    -- The first ready step is pending no longer.
    pub run_batch-first :
        (s : StepDefinition) (ss : List StepDefinition)
        → ready_steps live.run definition ≡ s ∷ ss
        → state_is is_pending
            (get (run_batch env definition concurrency (s ∷ ss) live).0.run.steps s.id)
          ≡ false
    run_batch-first s ss e =
        let c : concurrency ≡ suc (concurrency - 1) = omega arith in
        rw c (
          first_at (concurrency - 1) s ss (
            subst (λ xs. Startable env definition definition.steps xs live.run.steps) e
              (ready-Startable env live.run)))

-- ===== src/Workflow/Driver/Progressing.antt =====
-- packages/workflow-engine/src/executor.ts, `drive`: one round of the loop that goes on.
use ryvan_os.Workflow.Driver.{is_running}
use ryvan_os.Workflow.Rounds.Batches.{Goes}
use ryvan_os.Workflow.Rounds.Settling.{settle_waiting_steps-Keeps}
use ryvan_os.Workflow.Rounds.Ready.{run_batch-first, run_batch-Goes}
use ryvan_os.Workflow.Transitions.Order.{Keeps}
use ryvan_os.Workflow.Rounds.Dependencies.{Keeps-DepsMet, DepsMet}
use ryvan_os.Base.{
  ℕ, zero, suc, ◌+◌, ◌≤◌, ◌<◌, String, ◌≡◌, refl, sym, ap, ◌∙◌, subst, inl, inr, Bool, true, false,
  Option, some, List, [], ◌∷◌, arith, Distinct, if◌then◌else◌, is_some, Option-cases, Member, here,
  there, Member-keep_if,
}
use ryvan_os.Base.Map.{Map, get}
use ryvan_os.Workflow.Types.{StepState, StepDefinition, WorkflowDefinition, Failure, WorkflowRun}
use ryvan_os.Workflow.Transitions.{is_ready, is_pending, state_is, ready_steps, fatal_failure}
use ryvan_os.Workflow.Environment.{Settles, ids, Live}
use ryvan_os.Workflow.Rounds.{run_batch, settle_waiting_steps}
use ryvan_os.Workflow.Driver.{
  ended, Progress, drive_loop, is_settling, round, is_before, Exec, Round, again, cancel_stored,
  cancel_if, after_batch, on_ready, after_settling,
}

-- The pending steps of the definition.
abbrev pub pending_in : List StepDefinition → Map StepState → ℕ
pending_in [] m = 0
pending_in (s ∷ ss) m =
    if state_is is_pending (get m s.id) then pending_in ss m + 1 else pending_in ss m

pending_in-le :
    (steps : List StepDefinition) (m n : Map StepState)
    → ((j : String) → state_is is_pending (get n j) ≡ true → state_is is_pending (get m j) ≡ true)
    → pending_in steps n ≤ pending_in steps m
pending_in-le [] m n h = omega arith
pending_in-le (s ∷ ss) m n h = ground (arith, h s.id, pending_in-le ss m n h)

pending_in-lt :
    (steps : List StepDefinition) (m n : Map StepState) {a : StepDefinition}
    → ((j : String) → state_is is_pending (get n j) ≡ true → state_is is_pending (get m j) ≡ true)
    → Member a steps
    → state_is is_pending (get m a.id) ≡ true
    → state_is is_pending (get n a.id) ≡ false
    → pending_in steps n < pending_in steps m
pending_in-lt [] m n h i p q = elim i [ ]
pending_in-lt (s ∷ ss) m n h here p q = ground (arith, pending_in-le ss m n h)
pending_in-lt (s ∷ ss) m n h (there i) p q = ground (arith, h s.id, pending_in-lt ss m n h i p q)

pub cancel_if-run : (b : Bool) (x : Exec) (now : ℕ) → (cancel_if b x now).0.live.run ≡ x.live.run
unfolding cancel_stored
cancel_if-run false x now = refl
cancel_if-run true x now = ground arith

module _ (definition : WorkflowDefinition) (concurrency : ℕ) (r : Round) where
  after_batch-again :
      (x y : Exec) (aborted signal : Bool) (live : Live) (failure : Option Failure)
      → after_batch definition concurrency r x aborted (live, failure) ≡ again y signal
      → (y.live.run ≡ live.run) × (signal ≡ false)
  unfolding after_batch
  after_batch-again x y aborted signal live failure e =
      ground (arith, cancel_if-run (is_running r.cancels) (record x { live = live }) r.env.now)

  -- The batch that a round which goes on has run.
  abbrev Ran : Exec → Exec → Type 0
  Ran x y =
      (a : StepDefinition) × (ss : List StepDefinition) × (ready_steps x.live.run definition
        ≡ a ∷ ss)
      × (y.live.run ≡ (run_batch r.env definition concurrency (a ∷ ss) x.live).0.run)

  after_settling-again :
      (x y : Exec) (aborted signal : Bool)
      → after_settling definition concurrency r x aborted ≡ again y signal
      → Ran x y
  unfolding after_settling on_ready
  after_settling-again x y aborted signal e =
      elim (Option-cases (fatal_failure x.live.run definition)) [
        | inr (f, fatal) ↦ let bad = rw (fatal, after_settling) at e in cc
        | inl fine ↦ go (ready_steps x.live.run definition) refl (rw (fine, after_settling) at e)
      ]
    where
      go :
          (ready : List StepDefinition)
          → ready_steps x.live.run definition ≡ ready
          → on_ready definition concurrency r ready x aborted ≡ again y signal
          → Ran x y
      go [] q h = ground arith
      go (a ∷ ss) q h = (a, ss, q, (after_batch-again x y aborted signal _ _ h).0)

  -- What a round hands to the settling's end.
  settled_in : Exec → Exec × Bool
  settled_in x =
      let (y, cancelled) = cancel_if (is_before r.cancels) x r.env.now in
      let settled = record y { live = settle_waiting_steps r.env definition y.live } in
      (cancel_if (is_settling r.cancels) settled r.env.now)

  round-settled :
      (x y : Exec) (aborted signal : Bool)
      → round definition concurrency r x aborted ≡ again y signal
      → Ran (settled_in x).0 y
  unfolding round settled_in
  round-settled x y aborted signal e =
      after_settling-again (settled_in x).0 y (settled_in x).1 signal (ground arith)

  settled_in-Keeps : (x : Exec) → Keeps x.live.run.steps (settled_in x).0.live.run.steps
  unfolding settled_in
  settled_in-Keeps x =
      let (y, cancelled) = cancel_if (is_before r.cancels) x r.env.now in
      let settled = record y { live = settle_waiting_steps r.env definition y.live } in
      let before = cancel_if-run (is_before r.cancels) x r.env.now in
      let after = cancel_if-run (is_settling r.cancels) settled r.env.now in
      rw (after) (
        subst (λ (w : WorkflowRun). Keeps w.steps settled.live.run.steps) before
          (settle_waiting_steps-Keeps r.env definition y.live))

  -- What a round that goes on has done.
  record Advances (x y : Exec) : Type 0 where
    fewer :
        pending_in definition.steps y.live.run.steps < pending_in definition.steps x.live.run.steps
    met : DepsMet definition.steps x.live.run.steps → DepsMet definition.steps y.live.run.steps

  ready-Member :
      (run : WorkflowRun) (a : StepDefinition) (ss : List StepDefinition)
      → ready_steps run definition ≡ a ∷ ss
      → Member a definition.steps × (state_is is_pending (get run.steps a.id) ≡ true)
  unfolding ready_steps
  ready-Member run a ss e =
      let (member, ready) =
        Member-keep_if (is_ready run) definition.steps
          (subst (λ (xs : List StepDefinition). Member a xs) (sym e) here) in
      (member, ground arith)

  module _ (distinct : Distinct (ids definition.steps)) (positive : 0 < concurrency)
      (settles : Settles r.env) where
    round-Advances :
        (x y : Exec) (aborted signal : Bool)
        → round definition concurrency r x aborted ≡ again y signal
        → Advances x y
    round-Advances x y aborted signal e =
        let z = (settled_in x).0 in
        let k = settled_in-Keeps x in
        let (a, ss, ready, ran) = round-settled x y aborted signal e in
        let (member, is_first) = ready-Member z.live.run a ss ready in
        let batch : List StepDefinition → Map StepState =
          λ xs. (run_batch r.env definition concurrency xs z.live).0.run.steps in
        let end : batch (ready_steps z.live.run definition) ≡ y.live.run.steps =
          ap batch ready ∙ sym (ap (λ (w : WorkflowRun). w.steps) ran) in
        let g =
          subst (Goes r.env definition settles definition.steps z.live.run.steps) end
            (run_batch-Goes definition distinct r.env concurrency z.live settles positive) in
        let first =
          run_batch-first definition distinct r.env concurrency z.live settles positive a ss
            ready in
        record {
          fewer =
              pending_in-lt definition.steps x.live.run.steps y.live.run.steps
                (λ j h. k.pending_before j (g.pending_before j h)) member
                (k.pending_before a.id is_first)
                (ap (λ (w : WorkflowRun). state_is is_pending (get w.steps a.id)) ran ∙ first);
          met = λ h. g.met (Keeps-DepsMet definition.steps k h);
        }

    -- In a run where every started step has its dependencies done, a round after which the loop
    -- goes on leaves it so and has started a step: fewer steps are pending than before.
    pub round_lem :
        (x y : Exec) (aborted signal : Bool)
        → round definition concurrency r x aborted ≡ again y signal
        → DepsMet definition.steps x.live.run.steps
        → DepsMet definition.steps y.live.run.steps
          × (pending_in definition.steps y.live.run.steps
              < pending_in definition.steps x.live.run.steps)
    round_lem x y aborted signal e met =
        let a = round-Advances x y aborted signal e in (a.met met, a.fewer)

-- Driving a run of distinct steps ends, whatever the environment answers and whenever it is
-- cancelled: more rounds than there are pending steps are never needed.
pub drive_loop-ends :
    (definition : WorkflowDefinition) (concurrency : ℕ) (rounds : ℕ → Round)
    → Distinct (ids definition.steps)
    → 0 < concurrency
    → ((n : ℕ) → Settles (rounds n).env)
    → (fuel n : ℕ) (x : Exec) (aborted : Bool) → pending_in definition.steps x.live.run.steps < fuel
    → is_some (drive_loop fuel definition concurrency rounds n x aborted) ≡ true
unfolding drive_loop
drive_loop-ends definition concurrency rounds d p s zero n x aborted h = ground arith
drive_loop-ends definition concurrency rounds d p s (suc fuel) n x aborted h =
    answer (round definition concurrency (rounds n) x aborted) (λ y signal e.
      let a = round-Advances definition concurrency (rounds n) d p (s n) x y aborted signal e in
      drive_loop-ends definition concurrency rounds d p s fuel (n + 1) y signal
        (let f = a.fewer in omega arith))
  where
    answer :
        (o : Progress)
        → ((y : Exec) (signal : Bool)
            → o ≡ again y signal
            → is_some (drive_loop fuel definition concurrency rounds (n + 1) y signal) ≡ true)
        → is_some (elim o [
          | ended y ↦ some y
          | again y signal ↦ drive_loop fuel definition concurrency rounds (n + 1) y signal
        ])
          ≡ true
    answer (ended y) k = refl
    answer (again y signal) k = k y signal refl

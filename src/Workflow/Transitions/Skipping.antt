-- ===== src/Workflow/Transitions/Skipping.antt =====
-- packages/workflow-engine/src/executor.ts: the steps that `skipDependents` skips.
use ryvan_os.Base.{
  ℕ, zero, suc, ◌+◌, ◌≤◌, ◌<◌, String, ◌≡◌, refl, ◌∙◌, subst, inl, inr, true, false, Option, none,
  some, List, [], ◌∷◌, ◌++◌, arith, ◌==◌, if◌then◌else◌, or_default, option_case, Bool-cases,
  Option-cases, eq_self, length, any, length-append, Member, here, there, All, All-append, All-left,
  All-right, any-append,
}
use ryvan_os.Base.Map.{Map, get, set, get-set}
use ryvan_os.Workflow.Types.{StepState, WorkflowRun, StepDefinition, WorkflowDefinition}
use ryvan_os.Workflow.Transitions.{
  skip_dependents, skip_queue, skip_pass, is_skipped, put_state, is_pending, state_is, depends,
  skip_state, skip_one,
}
use ryvan_os.Workflow.Transitions.Order.{
  set-Steady, Steady, Steady-refl, Steady-trans, Keeps-refl, set-Keeps, Keeps-trans, Keeps,
}

abbrev count_pending : Map StepState → ℕ
count_pending [] = 0
count_pending ((j, s) ∷ m) = if is_pending s.status then count_pending m + 1 else count_pending m

count_pending-set :
    (m : Map StepState) (id : String) (old new : StepState)
    → get m id ≡ some old
    → is_pending old.status ≡ true
    → is_pending new.status ≡ false
    → count_pending (set m id new) + 1 ≡ count_pending m
unfolding get set
count_pending-set [] id old new e h k = cc
count_pending-set ((j, s) ∷ m) id old new e h k = ground (arith, count_pending-set m id old new)

pub count_pending-le-length : (m : Map StepState) → count_pending m ≤ length m
count_pending-le-length [] = omega arith
count_pending-le-length ((j, s) ∷ m) = ground (arith, count_pending-le-length m)

-- What one step of a pass does to the run.
abbrev SkipOne : StepDefinition → String → WorkflowRun → Option WorkflowRun → Type 0
SkipOne step current run none =
    state_is is_pending (get run.steps step.id) ≡ true → depends step current ≡ false
SkipOne step current run (some r) =
    (depends step current ≡ true)
    × Keeps run.steps r.steps
    × (state_is is_skipped (get r.steps step.id) ≡ true)
    × (count_pending r.steps + 1 ≡ count_pending run.steps)
    × ((j : String) → (step.id == j) ≡ false → get r.steps j ≡ get run.steps j)
    × Steady run.steps r.steps

skip_state-SkipOne :
    (step : StepDefinition) (current : String) (now : ℕ) (run : WorkflowRun) (s : StepState)
    → depends step current ≡ true
    → get run.steps step.id ≡ some s
    → is_pending s.status ≡ true
    → SkipOne step current run (some (put_state run step.id (skip_state s now)))
skip_state-SkipOne step current now run s e found waits = (
  e,
  set-Keeps run.steps step.id s _ found (ground arith),
  rw (get-set run.steps step.id step.id, eq_self step.id) refl,
  count_pending-set run.steps step.id s _ found waits refl,
  λ j n. rw (get-set run.steps step.id j, n) refl,
  set-Steady run.steps step.id s _ found (ground arith),
)

skip_one-SkipOne :
    (step : StepDefinition) (current : String) (now : ℕ) (run : WorkflowRun)
    → SkipOne step current run (skip_one step current now run)
unfolding skip_one
skip_one-SkipOne step current now run = elim (Bool-cases (depends step current)) [
  | inr e ↦ rw (e, skip_one) (λ _. e)
  | inl e ↦ elim (Option-cases (get run.steps step.id)) [
    | inl gone ↦ rw (e, gone, skip_one) (λ h. cc)
    | inr (s, found) ↦ elim (Bool-cases (is_pending s.status)) [
      | inr other ↦ rw (e, found, other, skip_one) (λ h. ground arith)
      | inl waits ↦
          rw (e, found, waits, skip_one) (skip_state-SkipOne step current now run s e found waits)
    ]
  ]
]

-- What a pass for `current` over some steps does to the run.
record SkipPass (steps : List StepDefinition) (current : String) (run : WorkflowRun)
    (r : WorkflowRun × List String) : Type 0 where
  keeps : Keeps run.steps r.0.steps
  steady : Steady run.steps r.0.steps
  clear :
      (step : StepDefinition)
      → Member step steps
      → state_is is_pending (get r.0.steps step.id) ≡ true
      → depends step current ≡ false
  counted : count_pending r.0.steps + length r.1 ≡ count_pending run.steps
  are_skipped : All (λ i. state_is is_skipped (get r.0.steps i) ≡ true) r.1
  depend :
      All (λ i. (s : StepDefinition) × Member s steps × (s.id ≡ i) × (depends s current ≡ true)) r.1
  same : (j : String) → any (λ i. i == j) r.1 ≡ false → get r.0.steps j ≡ get run.steps j

All-map {ℓ κ} :
    {A : Type ℓ} {P Q : A → Type κ} (xs : List A) → ((a : A) → P a → Q a) → All P xs → All Q xs
All-map [] f h = tt
All-map (x ∷ xs) f h = (f x h.0, All-map xs f h.1)

not-pending-skipped :
    (o : Option StepState) → state_is is_skipped o ≡ true → state_is is_pending o ≡ true → ⊥
not-pending-skipped none h k = cc
not-pending-skipped (some s) h k = ground arith

module _ (step : StepDefinition) (steps : List StepDefinition) (current : String)
    (run : WorkflowRun) where
  SkipPass-unchanged :
      (r : WorkflowRun × List String)
      → SkipOne step current run none
      → SkipPass steps current run r
      → SkipPass (step ∷ steps) current run r
  SkipPass-unchanged r one p = record {
    keeps = p.keeps;
    steady = p.steady;
    clear = λ s m h. clear s m h;
    counted = p.counted;
    are_skipped = p.are_skipped;
    depend = All-map r.1 (λ i d. (d.0, there d.1, d.2, d.3)) p.depend;
    same = p.same;
  }
    where
      clear :
          (s : StepDefinition)
          → Member s (step ∷ steps)
          → state_is is_pending (get r.0.steps s.id) ≡ true
          → depends s current ≡ false
      clear s here h = one (p.keeps.pending_before s.id h)
      clear s (there m) h = p.clear s m h

  SkipPass-skipped :
      (run' : WorkflowRun) (r : WorkflowRun × List String)
      → SkipOne step current run (some run')
      → SkipPass steps current run' r
      → SkipPass (step ∷ steps) current run (r.0, step.id ∷ r.1)
  SkipPass-skipped run' r one p = record {
    keeps = Keeps-trans one.1 p.keeps;
    steady = Steady-trans one.5 p.steady;
    clear = λ s m h. clear s m h;
    counted = omega (arith, p.counted, one.3);
    are_skipped = (p.keeps.skipped_stays step.id one.2, p.are_skipped);
    depend = ((step, here, refl, one.0), All-map r.1 (λ i d. (d.0, there d.1, d.2, d.3)) p.depend);
    same = λ j n. p.same j (ground arith) ∙ one.4 j (ground arith);
  }
    where
      clear :
          (s : StepDefinition)
          → Member s (step ∷ steps)
          → state_is is_pending (get r.0.steps s.id) ≡ true
          → depends s current ≡ false
      clear s here h = absurd (not-pending-skipped _ one.2 (p.keeps.pending_before s.id h))
      clear s (there m) h = p.clear s m h

skip_pass-SkipPass :
    (steps : List StepDefinition) (current : String) (now : ℕ) (run : WorkflowRun)
    → SkipPass steps current run (skip_pass steps current now run)
unfolding skip_pass
skip_pass-SkipPass [] current now run = record {
  keeps = Keeps-refl run.steps;
  steady = Steady-refl run.steps;
  clear = λ s m. elim m [ ];
  counted = omega arith;
  are_skipped = tt;
  depend = tt;
  same = λ j n. refl;
}
skip_pass-SkipPass (step ∷ steps) current now run =
    one (skip_one step current now run) (skip_one-SkipOne step current now run)
      (skip_pass-SkipPass steps current now)
  where
    one :
        (next : Option WorkflowRun)
        → SkipOne step current run next
        → ((r : WorkflowRun) → SkipPass steps current r (skip_pass steps current now r))
        → SkipPass (step ∷ steps) current run (
          (skip_pass steps current now (or_default next run)).0,
          option_case next
              (skip_pass steps current now (or_default next run)).1
              (λ _. step.id ∷ (skip_pass steps current now (or_default next run)).1),
        )
    one none o ih = SkipPass-unchanged step steps current run _ o (ih run)
    one (some r) o ih = SkipPass-skipped step steps current run r _ o (ih r)

-- A step is downstream of `root` if it depends on it, directly or through other steps.
pub data Downstream (steps : List StepDefinition) (root : String) : String → Type 0 where
  root_itself : Downstream steps root root
  next :
      (s : StepDefinition) (d : String)
      → Member s steps
      → depends s d ≡ true
      → Downstream steps root d
      → Downstream steps root s.id

-- What the loop over a queue does to the run.
record SkipQueue (steps : List StepDefinition) (queue : List String) (run : WorkflowRun)
    (r : WorkflowRun × List String) : Type 0 where
  keeps : Keeps run.steps r.0.steps
  steady : Steady run.steps r.0.steps
  clear :
      (step : StepDefinition)
      → Member step steps
      → state_is is_pending (get r.0.steps step.id) ≡ true
      → All (λ d. depends step d ≡ false) queue × All (λ d. depends step d ≡ false) r.1
  are_skipped : All (λ i. state_is is_skipped (get r.0.steps i) ≡ true) r.1
  from_queue : (root : String) → All (Downstream steps root) queue → All (Downstream steps root) r.1
  same : (j : String) → any (λ i. i == j) r.1 ≡ false → get r.0.steps j ≡ get run.steps j

module _ (steps : List StepDefinition) (current : String) (queue : List String) (run : WorkflowRun)
    (r : WorkflowRun × List String) (q : WorkflowRun × List String) where
  Downstream-ids :
      (root : String) (ids : List String)
      → Downstream steps root current
      → All
          (λ i. (s : StepDefinition) × Member s steps × (s.id ≡ i) × (depends s current ≡ true))
          ids
      → All (Downstream steps root) ids
  Downstream-ids root [] d h = tt
  Downstream-ids root (i ∷ ids) d ((s, m, e, dep), h) =
      (subst (Downstream steps root) e (next s current m dep d), Downstream-ids root ids d h)

  SkipQueue-cons :
      SkipPass steps current run r
      → SkipQueue steps (queue ++ r.1) r.0 q
      → SkipQueue steps (current ∷ queue) run (q.0, r.1 ++ q.1)
  SkipQueue-cons p w = record {
    keeps = Keeps-trans p.keeps w.keeps;
    steady = Steady-trans p.steady w.steady;
    clear = λ s m h.
        let c = w.clear s m h in
        let D = λ (d : String). depends s d ≡ false in
        (
          (p.clear s m (w.keeps.pending_before s.id h), All-left D queue r.1 c.0),
          All-append D r.1 q.1 (All-right D queue r.1 c.0) c.1,
        );
    are_skipped =
        All-append _ r.1 q.1 (All-map r.1 (λ i. w.keeps.skipped_stays i) p.are_skipped)
          w.are_skipped;
    from_queue = λ root h.
        let found = Downstream-ids root r.1 h.0 p.depend in
        All-append (Downstream steps root) r.1 q.1 found
          (w.from_queue root (All-append (Downstream steps root) queue r.1 h.1 found));
    same = λ j n.
        let split = any-append (λ i. i == j) r.1 q.1 in
        w.same j (ground arith) ∙ p.same j (ground arith);
  }

skip_queue-SkipQueue :
    (fuel : ℕ) (steps : List StepDefinition) (queue : List String) (now : ℕ) (run : WorkflowRun)
    → length queue + count_pending run.steps < fuel
    → (r : WorkflowRun × List String) × (skip_queue fuel steps queue now run ≡ some r)
      × SkipQueue steps queue run r
unfolding skip_queue
skip_queue-SkipQueue zero steps queue now run h = elim h [ ]
skip_queue-SkipQueue (suc fuel) steps [] now run h = (
  (run, []),
  refl,
  record {
    keeps = Keeps-refl run.steps;
    steady = Steady-refl run.steps;
    clear = λ s m h. (tt, tt);
    are_skipped = tt;
    from_queue = λ root h. tt;
    same = λ j n. refl;
  },
)
skip_queue-SkipQueue (suc fuel) steps (current ∷ queue) now run h =
    let r = skip_pass steps current now run in
    let p = skip_pass-SkipPass steps current now run in
    let (q, e, w) =
      skip_queue-SkipQueue fuel steps (queue ++ r.1) now r.0
        (omega (arith, p.counted, length-append {0} queue r.1)) in
    ((q.0, r.1 ++ q.1), rw e refl, SkipQueue-cons steps current queue run r q p w)

-- What `skipDependents` promises of the run and the ids that it returns.
pub record SkipsDependents (definition : WorkflowDefinition) (root : String) (run : WorkflowRun)
    (r : WorkflowRun × List String) : Type 0 where
  pub keeps : Keeps run.steps r.0.steps
  pub steady : Steady run.steps r.0.steps
  pub none_left :
      (step : StepDefinition)
      → Member step definition.steps
      → state_is is_pending (get r.0.steps step.id) ≡ true
      → (depends step root ≡ false) × All (λ d. depends step d ≡ false) r.1
  pub are_skipped : All (λ i. state_is is_skipped (get r.0.steps i) ≡ true) r.1
  pub are_downstream : All (Downstream definition.steps root) r.1
  pub same : (j : String) → any (λ i. i == j) r.1 ≡ false → get r.0.steps j ≡ get run.steps j

-- `skipDependents` always ends; it skips only steps downstream of the given one, leaves every other
-- step's state alone, and afterwards no pending step depends on the given step or on a skipped one.
pub skip_dependents-SkipsDependents :
    (run : WorkflowRun) (definition : WorkflowDefinition) (root : String) (now : ℕ)
    → SkipsDependents definition root run (skip_dependents run definition root now)
unfolding skip_dependents
skip_dependents-SkipsDependents run definition root now =
    let (r, e, w) =
      skip_queue-SkipQueue (length run.steps + 2) definition.steps (root ∷ []) now run
        (omega (arith, count_pending-le-length run.steps)) in
    rw e (record {
      keeps = w.keeps;
      steady = w.steady;
      none_left = λ s m h. ((w.clear s m h).0.0, (w.clear s m h).1);
      are_skipped = w.are_skipped;
      are_downstream = w.from_queue root (root_itself, tt);
      same = w.same;
    })

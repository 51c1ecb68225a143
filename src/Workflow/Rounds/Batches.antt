-- ===== src/Workflow/Rounds/Batches.antt =====
-- packages/workflow-engine/src/executor.ts, `runBatch`: the steps that a batch starts.
use ryvan_os.Workflow.Rounds.{run_slices, run_slice, start_all}
use ryvan_os.Base.{
  String, ◌≡◌, ap, ◌∙◌, inl, inr, Bool, true, false, Option, List, [], ◌∷◌, ◌++◌, ◌==◌, Distinct,
  All-of_members, option_both, Bool-cases, any, All, All-member, All-left, All-right,
}
use ryvan_os.Base.Map.{Map, get}
use ryvan_os.Workflow.Types.{StepState, StepDefinition, WorkflowDefinition, Failure}
use ryvan_os.Workflow.Transitions.{is_pending, state_is}
use ryvan_os.Workflow.Transitions.Order.{is_idle, is_done}
use ryvan_os.Workflow.Environment.{Settles, ids, Env, Live}
use ryvan_os.Workflow.Rounds.Slices.{Distinct-left, Distinct-right, Distinct-across, concat}
use ryvan_os.Workflow.Rounds.Dependencies.{
  DoneAt, DepsMet, Keeps-DepsMet, IdleAt, ActiveAt, ReadyAt, not_pending_after, start_all-StartsAll,
  finish_all-Keeps,
}

module _ (env : Env) (definition : WorkflowDefinition) where
  -- Steps of one slice are idle and distinct, and the dependencies of each are done.
  pub record Startable (steps xs : List StepDefinition) (m : Map StepState) : Type 0 where
    pub distinct : Distinct (ids xs)
    pub idle : All (IdleAt m) xs
    pub ready : All (λ s. ReadyAt steps m s.id) xs

  -- What a run through slices does.
  record RunsTo (steps xs : List StepDefinition) (m n : Map StepState) : Type 0 where
    done_stays :
        (j : String) → state_is is_done (get m j) ≡ true → state_is is_done (get n j) ≡ true
    pending_before :
        (j : String) → state_is is_pending (get n j) ≡ true → state_is is_pending (get m j) ≡ true
    idle_stays :
        (j : String)
        → any (λ i. i == j) (ids xs) ≡ false
        → state_is is_idle (get m j) ≡ true
        → state_is is_idle (get n j) ≡ true
    not_pending : All (λ s. state_is is_pending (get n s.id) ≡ false) xs
    met : DepsMet steps m → DepsMet steps n

  module _ (settles : Settles env) where
    run_slice-RunsTo :
        (steps slice : List StepDefinition) (live : Live)
        → Startable steps slice live.run.steps
        → RunsTo steps slice live.run.steps (run_slice env definition slice live).0.run.steps
    unfolding run_slice
    run_slice-RunsTo steps slice live s =
        let st = start_all-StartsAll env definition steps slice live s.distinct s.idle s.ready in
        let started = start_all env definition slice live in
        let k =
          finish_all-Keeps env definition (env.order slice) started (settles.once slice s.distinct)
            (All-of_members (env.order slice) (λ x i.
              All-member (ActiveAt started.run.steps) st.active (settles.only x slice i))) in
        record {
          done_stays = λ j h. k.done_stays j (st.done_stays j h);
          pending_before = λ j h. st.pending_before j (k.pending_before j h);
          idle_stays = λ j n h. k.idle_stays j (ap (state_is is_idle) (st.others j n) ∙ h);
          not_pending = All-of_members slice (λ x i.
              not_pending_after (get started.run.steps x.id) _
                (All-member (ActiveAt started.run.steps) st.active i) (k.pending_before x.id));
          met = λ h. Keeps-DepsMet steps k (st.met h);
        }

    later_Startable :
        (steps slice rest : List StepDefinition) {m n : Map StepState}
        → RunsTo steps slice m n
        → Startable steps (slice ++ rest) m
        → Startable steps rest n
    later_Startable steps slice rest {m} {n} r s = record {
      distinct = Distinct-right slice rest s.distinct;
      idle = All-of_members rest (λ x i.
          r.idle_stays x.id (Distinct-across slice rest s.distinct i)
            (All-member (IdleAt m) (All-right (IdleAt m) slice rest s.idle) i));
      ready = All-of_members rest (λ x i t k e. done_in t.depends_on (
          All-member (λ (y : StepDefinition). ReadyAt steps m y.id)
            (All-right (λ (y : StepDefinition). ReadyAt steps m y.id) slice rest s.ready) i t k e));
    }
      where
        done_in : (ds : List String) → All (DoneAt m) ds → All (DoneAt n) ds
        done_in [] a = tt
        done_in (d ∷ ds) a = (r.done_stays d a.0, done_in ds a.1)

    now_Startable :
        (steps slice rest : List StepDefinition) {m : Map StepState}
        → Startable steps (slice ++ rest) m
        → Startable steps slice m
    now_Startable steps slice rest {m} s = record {
      distinct = Distinct-left slice rest s.distinct;
      idle = All-left (IdleAt m) slice rest s.idle;
      ready = All-left (λ (y : StepDefinition). ReadyAt steps m y.id) slice rest s.ready;
    }

    -- What slices do, whether or not they are run to the end.
    pub record Goes (steps : List StepDefinition) (m n : Map StepState) : Type 0 where
      pub pending_before :
          (j : String) → state_is is_pending (get n j) ≡ true → state_is is_pending (get m j) ≡ true
      pub met : DepsMet steps m → DepsMet steps n

    pub run_slices-Goes :
        (steps : List StepDefinition) (rest : List (List StepDefinition)) (live : Live)
        → Startable steps (concat rest) live.run.steps
        → Goes steps live.run.steps (run_slices env definition rest live).0.run.steps
    unfolding run_slices
    run_slices-Goes steps [] live s = record { pending_before = λ j h. h; met = λ h. h }
    run_slices-Goes steps (slice ∷ rest) live s =
        let r = run_slice-RunsTo steps slice live (now_Startable steps slice (concat rest) s) in
        let g =
          run_slices-Goes steps rest (run_slice env definition slice live).0
            (later_Startable steps slice (concat rest) r s) in
        option_both (λ (x : Live × Option Failure). Goes steps live.run.steps x.0.run.steps)
          (run_slice env definition slice live).1
          (record {
            pending_before = λ j h. r.pending_before j (g.pending_before j h);
            met = λ h. g.met (r.met h);
          })
          (λ f _. record { pending_before = r.pending_before; met = r.met })

    pub run_slices-first :
        (steps first : List StepDefinition) (rest : List (List StepDefinition)) (live : Live)
        → Startable steps (first ++ concat rest) live.run.steps
        → All
            (λ s.
              state_is is_pending
                (get (run_slices env definition (first ∷ rest) live).0.run.steps s.id)
              ≡ false)
            first
    unfolding run_slices
    run_slices-first steps first rest live s =
        let r = run_slice-RunsTo steps first live (now_Startable steps first (concat rest) s) in
        let g =
          run_slices-Goes steps rest (run_slice env definition first live).0
            (later_Startable steps first (concat rest) r s) in
        option_both
          (λ (x : Live × Option Failure).
            All (λ s. state_is is_pending (get x.0.run.steps s.id) ≡ false) first)
          (run_slice env definition first live).1
          (All-of_members first (λ x i.
            not_true (λ h. g.pending_before x.id h)
              (All-member
                (λ (y : StepDefinition).
                  state_is is_pending (get (run_slice env definition first live).0.run.steps y.id)
                  ≡ false)
                r.not_pending i)))
          (λ f _. r.not_pending)
      where
        not_true : {b c : Bool} → (b ≡ true → c ≡ true) → c ≡ false → b ≡ false
        not_true {b} f e = elim (Bool-cases b) [ inl t ↦ let u = f t in cc | inr n ↦ n ]

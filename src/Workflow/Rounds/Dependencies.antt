-- ===== src/Workflow/Rounds/Dependencies.antt =====
-- packages/workflow-engine/src/executor.ts: the dependencies of the steps that are started.
use ryvan_os.Workflow.Rounds.{finish_all, start_all}
use ryvan_os.Base.{
  String, ◌≡◌, refl, sym, ap, ◌∙◌, inl, inr, Bool, true, false, Option, none, some, List, [], ◌∷◌,
  arith, eq_iff, ◌==◌, Distinct, eq_sym, Bool-cases, eq_self, any, Member, All,
}
use ryvan_os.Base.Map.{Map, get, get-set}
use ryvan_os.Workflow.Types.{StepStatus, StepState, StepDefinition, WorkflowDefinition}
use ryvan_os.Workflow.Transitions.{is_pending, state_is}
use ryvan_os.Workflow.Transitions.Order.{
  is_idle, Keeps-trans, Keeps-refl, Keeps, is_started, is_done,
}
use ryvan_os.Workflow.Environment.{ids, Env, Live}
use ryvan_os.Workflow.Execution.{finish_step, start_step}
use ryvan_os.Workflow.Execution.Readiness.{finish_step-Changes, is_active}

abbrev pub DoneAt : Map StepState → String → Type 0
DoneAt m d = state_is is_done (get m d) ≡ true

-- Every step that has started has its dependencies done.
pub record DepsMet (steps : List StepDefinition) (m : Map StepState) : Type 0 where
  pub met :
      (s : StepDefinition)
      → Member s steps
      → state_is is_started (get m s.id) ≡ true
      → All (DoneAt m) s.depends_on

All-done :
    {m n : Map StepState} (ds : List String) → Keeps m n → All (DoneAt m) ds → All (DoneAt n) ds
All-done [] k h = tt
All-done (d ∷ ds) k h = (k.done_stays d h.0, All-done ds k h.1)

pub Keeps-DepsMet :
    (steps : List StepDefinition) {m n : Map StepState}
    → Keeps m n
    → DepsMet steps m
    → DepsMet steps n
Keeps-DepsMet steps k h = record {
  met = λ s i t. All-done s.depends_on k (h.met s i (k.started_before s.id t));
}

pub not_pending_after :
    (o o' : Option StepState)
    → state_is is_active o ≡ true
    → (state_is is_pending o' ≡ true → state_is is_pending o ≡ true)
    → state_is is_pending o' ≡ false
not_pending_after none o' h f = cc
not_pending_after (some s) none h f = refl
not_pending_after (some s) (some t) h f = elim (Bool-cases (is_pending t.status)) [
  | inr e ↦ e
  | inl e ↦ let p : is_pending s.status ≡ true = f e in ground arith
]

-- What starting the step `id` does.
record Starts (id : String) (m n : Map StepState) : Type 0 where
  done_stays : (j : String) → state_is is_done (get m j) ≡ true → state_is is_done (get n j) ≡ true
  pending_before :
      (j : String) → state_is is_pending (get n j) ≡ true → state_is is_pending (get m j) ≡ true
  active : state_is is_active (get n id) ≡ true
  others : (j : String) → (id == j) ≡ false → get n j ≡ get m j

-- Whatever step of the definition has this id, its dependencies are done.
abbrev pub ReadyAt : List StepDefinition → Map StepState → String → Type 0
ReadyAt steps m id =
    (s : StepDefinition) → Member s steps → (s.id == id) ≡ true → All (DoneAt m) s.depends_on

abbrev pub IdleAt : Map StepState → StepDefinition → Type 0
IdleAt m s = state_is is_idle (get m s.id) ≡ true

abbrev pub ActiveAt : Map StepState → StepDefinition → Type 0
ActiveAt m s = state_is is_active (get m s.id) ≡ true

found_in :
    (p : StepStatus → Bool) (o : Option StepState)
    → state_is p o ≡ true
    → (s : StepState) × (o ≡ some s) × (p s.status ≡ true)
found_in p none h = cc
found_in p (some s) h = (s, refl, h)

-- In a list without `id`, every step's own id differs from it.
apart :
    (id : String) (xs : List StepDefinition)
    → any (λ y. y == id) (ids xs) ≡ false
    → All (λ s. (id == s.id) ≡ false) xs
apart id [] h = tt
apart id (x ∷ xs) h = (ground (arith, eq_sym id x.id), apart id xs (ground arith))

-- A predicate of states at the steps of a list, moved along a change elsewhere.
moved :
    (p : StepStatus → Bool) (m n : Map StepState) (id : String) (xs : List StepDefinition)
    → All (λ s. (id == s.id) ≡ false) xs
    → ((j : String) → (id == j) ≡ false → state_is p (get m j) ≡ true → get n j ≡ get m j)
    → All (λ s. state_is p (get m s.id) ≡ true) xs
    → All (λ s. state_is p (get n s.id) ≡ true) xs
moved p m n id [] a o h = tt
moved p m n id (x ∷ xs) a o h =
    (ap (state_is p) (o x.id a.0 h.0) ∙ h.0, moved p m n id xs a.1 o h.1)

module _ (env : Env) (definition : WorkflowDefinition) where
  start_step-Starts :
      (step : StepDefinition) (live : Live) (old : StepState)
      → get live.run.steps step.id ≡ some old
      → is_started old.status ≡ false
      → Starts step.id live.run.steps (start_step env definition step live).run.steps
  unfolding start_step
  start_step-Starts step live old found idle =
      let m = live.run.steps in
      let new : StepState = record old { status = StepStatus.running; started_at = some env.now } in
      rw (found, start_step)
        (record {
          done_stays = λ j h. rw (get-set m step.id j new) (ground (arith, eq_iff step.id j));
          pending_before = λ j h. ground (arith, eq_iff step.id j, get-set m step.id j new);
          active = rw (get-set m step.id step.id new, eq_self step.id) refl;
          others = λ j n. rw (get-set m step.id j new, n) refl;
        })

  Starts-DepsMet :
      (steps : List StepDefinition) (id : String) {m n : Map StepState}
      → Starts id m n
      → ReadyAt steps m id
      → DepsMet steps m
      → DepsMet steps n
  Starts-DepsMet steps id {m} {n} st r h = record { met = λ s i t. deps s i t }
    where
      moves : (ds : List String) → All (DoneAt m) ds → All (DoneAt n) ds
      moves [] a = tt
      moves (d ∷ ds) a = (st.done_stays d a.0, moves ds a.1)

      deps :
          (s : StepDefinition)
          → Member s steps
          → state_is is_started (get n s.id) ≡ true
          → All (DoneAt n) s.depends_on
      deps s i t = elim (Bool-cases (id == s.id)) [
        | inl same ↦ moves s.depends_on (r s i (eq_sym s.id id ∙ same))
        | inr other ↦
            moves s.depends_on
              (h.met s i (ap (state_is is_started) (sym (st.others s.id other)) ∙ t))
      ]

  -- What starting the steps of a slice does.
  pub record StartsAll (steps slice : List StepDefinition) (m n : Map StepState) : Type 0 where
    pub done_stays :
        (j : String) → state_is is_done (get m j) ≡ true → state_is is_done (get n j) ≡ true
    pub pending_before :
        (j : String) → state_is is_pending (get n j) ≡ true → state_is is_pending (get m j) ≡ true
    pub active : All (ActiveAt n) slice
    pub others : (j : String) → any (λ i. i == j) (ids slice) ≡ false → get n j ≡ get m j
    pub met : DepsMet steps m → DepsMet steps n

  pub start_all-StartsAll :
      (steps slice : List StepDefinition) (live : Live)
      → Distinct (ids slice)
      → All (IdleAt live.run.steps) slice
      → All (λ s. ReadyAt steps live.run.steps s.id) slice
      → StartsAll steps slice live.run.steps (start_all env definition slice live).run.steps
  unfolding start_all
  start_all-StartsAll steps [] live d i r = record {
    done_stays = λ j h. h;
    pending_before = λ j h. h;
    active = tt;
    others = λ j h. refl;
    met = λ h. h;
  }
  start_all-StartsAll steps (x ∷ xs) live d i r =
      let (old, found, idle) = found_in is_idle (get live.run.steps x.id) i.0 in
      let st = start_step-Starts x live old found (ground arith) in
      let away = apart x.id xs d.0 in
      let rest =
        start_all-StartsAll steps xs (start_step env definition x live) d.1
          (moved is_idle _ _ x.id xs away (λ j n _. st.others j n) i.1) (still xs st r.1) in
      record {
        done_stays = λ j h. rest.done_stays j (st.done_stays j h);
        pending_before = λ j h. st.pending_before j (rest.pending_before j h);
        active = (ap (state_is is_active) (rest.others x.id d.0) ∙ st.active, rest.active);
        others = λ j n. rest.others j (ground arith) ∙ st.others j (ground arith);
        met = λ h. rest.met (Starts-DepsMet steps x.id st r.0 h);
      }
    where
      done_in :
          {m n : Map StepState} (ds : List String)
          → Starts x.id m n
          → All (DoneAt m) ds
          → All (DoneAt n) ds
      done_in [] st a = tt
      done_in (e ∷ ds) st a = (st.done_stays e a.0, done_in ds st a.1)

      still :
          {m n : Map StepState} (ys : List StepDefinition)
          → Starts x.id m n
          → All (λ s. ReadyAt steps m s.id) ys
          → All (λ s. ReadyAt steps n s.id) ys
      still [] st a = tt
      still (y ∷ ys) st a = ((λ s k e. done_in s.depends_on st (a.0 s k e)), still ys st a.1)

  pub finish_all-Keeps :
      (xs : List StepDefinition) (live : Live)
      → Distinct (ids xs)
      → All (ActiveAt live.run.steps) xs
      → Keeps live.run.steps (finish_all env definition xs live).0.run.steps
  unfolding finish_all
  finish_all-Keeps [] live d a = Keeps-refl live.run.steps
  finish_all-Keeps (x ∷ xs) live d a =
      let (old, found, active) = found_in is_active (get live.run.steps x.id) a.0 in
      let c = finish_step-Changes env definition x live old found active in
      let next = (finish_step env definition x live).0 in
      Keeps-trans c.keeps (
        finish_all-Keeps xs next d.1 (
          moved is_active live.run.steps next.run.steps x.id xs (apart x.id xs d.0)
            (λ j n t. c.others j n (active_started (get live.run.steps j) t)) a.1))
    where
      active_started :
          (o : Option StepState) → state_is is_active o ≡ true → state_is is_started o ≡ true
      active_started none h = cc
      active_started (some s) h = ground arith

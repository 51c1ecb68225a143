-- ===== src/Workflow/Transitions/Order.antt =====
-- How a run's steps move on: what every change but the start of a step keeps.
use ryvan_os.Base.{
  ℕ, String, ◌≡◌, refl, ap, ◌∙◌, Bool, true, false, not, ◌&&◌, ◌||◌, some, arith, eq_iff, ◌==◌,
}
use ryvan_os.Base.Map.{Map, get, set, get-set}
use ryvan_os.Workflow.Types.{
  Json, StepStatus, pending, running, waiting, completed, failed, skipped, compensated, StepState,
  WorkflowRun,
}
use ryvan_os.Workflow.Transitions.{is_pending, is_skipped, state_is, complete_step, fail_step}

abbrev pub is_started : StepStatus → Bool
is_started pending = false
is_started skipped = false
is_started running = true
is_started waiting = true
is_started completed = true
is_started failed = true
is_started compensated = true

abbrev pub is_idle : StepStatus → Bool
is_idle s = not (is_started s)

abbrev pub is_done : StepStatus → Bool
is_done completed = true
is_done compensated = true
is_done _ = false

-- Steps that are done or skipped stay so, and no step starts or becomes pending.
pub record Keeps (m n : Map StepState) : Type 0 where
  pub done_stays :
      (id : String) → state_is is_done (get m id) ≡ true → state_is is_done (get n id) ≡ true
  pub skipped_stays :
      (id : String) → state_is is_skipped (get m id) ≡ true → state_is is_skipped (get n id) ≡ true
  pub idle_stays :
      (id : String) → state_is is_idle (get m id) ≡ true → state_is is_idle (get n id) ≡ true
  pub started_before :
      (id : String) → state_is is_started (get n id) ≡ true → state_is is_started (get m id) ≡ true
  pub pending_before :
      (id : String) → state_is is_pending (get n id) ≡ true → state_is is_pending (get m id) ≡ true

pub Keeps-refl : (m : Map StepState) → Keeps m m
Keeps-refl m = record {
  done_stays = λ id h. h;
  skipped_stays = λ id h. h;
  idle_stays = λ id h. h;
  started_before = λ id h. h;
  pending_before = λ id h. h;
}

pub Keeps-trans : {m n o : Map StepState} → Keeps m n → Keeps n o → Keeps m o
Keeps-trans h k = record {
  done_stays = λ id c. k.done_stays id (h.done_stays id c);
  skipped_stays = λ id c. k.skipped_stays id (h.skipped_stays id c);
  idle_stays = λ id c. k.idle_stays id (h.idle_stays id c);
  started_before = λ id c. h.started_before id (k.started_before id c);
  pending_before = λ id c. h.pending_before id (k.pending_before id c);
}

abbrev pub may : StepStatus → StepStatus → Bool
may from to =
    (not (is_done from) || is_done to)
    && (not (is_skipped from) || is_skipped to)
    && (not (is_started to) || is_started from)
    && (not (is_pending to) || is_pending from)

pub set-Keeps :
    (m : Map StepState) (id : String) (old new : StepState)
    → get m id ≡ some old
    → may old.status new.status ≡ true
    → Keeps m (set m id new)
set-Keeps m id old new e h = record {
  done_stays = λ j c. rw (get-set m id j new) (ground (arith, eq_iff id j));
  skipped_stays = λ j c. rw (get-set m id j new) (ground (arith, eq_iff id j));
  idle_stays = λ j c. rw (get-set m id j new) (ground (arith, eq_iff id j));
  started_before = λ j c. ground (arith, eq_iff id j, get-set m id j new);
  pending_before = λ j c. ground (arith, eq_iff id j, get-set m id j new);
}

pub complete_step-Keeps :
    (run : WorkflowRun) (id : String) (state : StepState) (output : Json) (now : ℕ)
    → get run.steps id ≡ some state
    → is_started state.status ≡ true
    → Keeps run.steps (complete_step run id state output now).steps
unfolding complete_step
complete_step-Keeps run id state output now e h = set-Keeps run.steps id state _ e (ground arith)

pub fail_step-Keeps :
    (run : WorkflowRun) (id : String) (state : StepState) (error : String) (now : ℕ)
    → get run.steps id ≡ some state
    → is_started state.status ≡ true
    → is_done state.status ≡ false
    → Keeps run.steps (fail_step run id state error now).steps
unfolding fail_step
fail_step-Keeps run id state error now e h k = set-Keeps run.steps id state _ e (ground arith)

-- Steps that have started are left alone.
pub record Steady (m n : Map StepState) : Type 0 where
  pub steady : (j : String) → state_is is_started (get m j) ≡ true → get n j ≡ get m j

pub Steady-refl : (m : Map StepState) → Steady m m
Steady-refl m = record { steady = λ j h. refl }

pub Steady-trans : {m n o : Map StepState} → Steady m n → Steady n o → Steady m o
Steady-trans {m} {n} {o} h k = record {
  steady = λ j t. k.steady j (ap (state_is is_started) (h.steady j t) ∙ t) ∙ h.steady j t;
}

pub set-Steady :
    (m : Map StepState) (id : String) (old new : StepState)
    → get m id ≡ some old
    → is_started old.status ≡ false
    → Steady m (set m id new)
set-Steady m id old new e h = record {
  steady = λ j t. rw (get-set m id j new) (ground (arith, eq_iff id j));
}

-- A change of the step `id`, which leaves alone the other steps that have started.
pub record Changes (id : String) (m n : Map StepState) : Type 0 where
  pub keeps : Keeps m n
  pub others :
      (j : String) → (id == j) ≡ false → state_is is_started (get m j) ≡ true → get n j ≡ get m j

pub Changes-refl : (id : String) (m : Map StepState) → Changes id m m
Changes-refl id m = record { keeps = Keeps-refl m; others = λ j n h. refl }

pub set-Changes :
    (m : Map StepState) (id : String) (old new : StepState)
    → get m id ≡ some old
    → may old.status new.status ≡ true
    → Changes id m (set m id new)
set-Changes m id old new e h = record {
  keeps = set-Keeps m id old new e h;
  others = λ j n t. rw (get-set m id j new, n) refl;
}

pub Changes-then :
    (id : String) {m n o : Map StepState} → Changes id m n → Keeps n o → Steady n o → Changes id m o
Changes-then id c k s = record {
  keeps = Keeps-trans c.keeps k;
  others = λ j n t. s.steady j (ap (state_is is_started) (c.others j n t) ∙ t) ∙ c.others j n t;
}

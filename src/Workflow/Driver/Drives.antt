-- ===== src/Workflow/Driver/Drives.antt =====
-- packages/workflow-engine/src/executor.ts, `drive`: the rounds that follow one another.
use ryvan_os.Workflow.Transitions.{has_waiting, ready_steps, fatal_failure}
use ryvan_os.Base.Map.{get, get-set_same}
use ryvan_os.Workflow.Driver.Progressing.{cancel_if-run, round_lem, pending_in}
use ryvan_os.Workflow.Rounds.Dependencies.{DepsMet}
use ryvan_os.Workflow.Environment.{Settles, ids}
use ryvan_os.Workflow.Types.{WorkflowDefinition, WorkflowRun, RunStatus}
use ryvan_os.Workflow.Driver.{
  stored_run, before_check, while_settling, settle_waiting_steps, Env, suspend, ended, again, Exec,
  on_ready, Round, after_settling, round,
}
use ryvan_os.Workflow.Driver.Compensating.{fail_run_lem}
use ryvan_os.Workflow.Types.{Failure}
use ryvan_os.Workflow.Driver.{
  Progress, fail_run, complete_run, is_terminal, save, cancel_stored, cancelled_run,
}
use ryvan_os.Workflow.Rounds.SameRun.{settle_waiting_steps-SameRun}
use ryvan_os.Workflow.Driver.{CancelPoint}
use ryvan_os.Base.{
  ℕ, ◌+◌, ◌≤◌, ◌<◌, String, ◌≡◌, refl, sym, ap, ◌∙◌, subst, inl, inr, Bool, true, false, Option,
  some, [], arith, Distinct, or_default, if_both, Option-cases,
}

-- The states of a drive between its rounds, with the rounds made and the abort signal.
pub data Reaches (definition : WorkflowDefinition) (concurrency : ℕ) (rounds : ℕ → Round)
    (first : Exec) : ℕ → Exec → Bool → Type 0 where
  begun : Reaches definition concurrency rounds first 0 first false
  goes_on :
      {n : ℕ} {x y : Exec} {aborted signal : Bool}
      → Reaches definition concurrency rounds first n x aborted
      → round definition concurrency (rounds n) x aborted ≡ again y signal
      → Reaches definition concurrency rounds first (n + 1) y signal

-- Between any two rounds of a drive, every step that has started has all its dependencies done,
-- and at least as many steps have left the pending state as rounds were made.
pub Reaches-DepsMet :
    (definition : WorkflowDefinition) (concurrency : ℕ) (rounds : ℕ → Round) (first : Exec)
    → Distinct (ids definition.steps)
    → 0 < concurrency
    → ((n : ℕ) → Settles (rounds n).env)
    → DepsMet definition.steps first.live.run.steps
    → (n : ℕ) (x : Exec) (aborted : Bool) → Reaches definition concurrency rounds first n x aborted
    → DepsMet definition.steps x.live.run.steps
      × (pending_in definition.steps x.live.run.steps + n
          ≤ pending_in definition.steps first.live.run.steps)
Reaches-DepsMet definition concurrency rounds first d p s met n x aborted begun = (met, omega arith)
Reaches-DepsMet definition concurrency rounds first d p s met n y signal
      (goes_on {n = k} {x = x} {aborted = aborted} r e) =
    let (before, left) =
      Reaches-DepsMet definition concurrency rounds first d p s met k x aborted r in
    let (after, fewer) =
      round_lem definition concurrency (rounds k) d p (s k) x y aborted signal e before in
    (after, omega (arith, left, fewer))

-- A round that ends with a stored run of its own that is not cancelled.
pub data Overwrites (id : String) : Progress → Type 0 where
  overwrites :
      (y : Exec)
      → y.live.run.id ≡ id
      → ¬ (y.live.run.status ≡ RunStatus.cancelled)
      → get y.store y.live.run.id ≡ some y.live.run
      → Overwrites id (ended y)

module _ (definition : WorkflowDefinition) (concurrency : ℕ) (r : Round) where
  fail_run-Overwrites :
      (x : Exec) (f : Failure) → Overwrites x.live.run.id (ended (fail_run r.env x definition f))
  fail_run-Overwrites x f =
      let lem = fail_run_lem r.env x definition f in
      overwrites (fail_run r.env x definition f) lem.same_run
        (λ h. elim lem.ends [ inl e ↦ let q = e.0 in cc | inr e ↦ let q = e.0 in cc ]) lem.is_stored

  complete_run-Overwrites :
      (x : Exec) (now : ℕ)
      → is_terminal x.live.run.status ≡ false
      → Overwrites x.live.run.id (ended (complete_run x definition now))
  unfolding complete_run
  complete_run-Overwrites x now going = elim (Option-cases (fatal_failure x.live.run definition)) [
    | inl fine ↦ rw (fine, going) (overwrites _ refl (λ h. cc) (get-set_same _ _ _))
    | inr (f, fatal) ↦ rw (fatal, going) (overwrites _ refl (λ h. cc) (get-set_same _ _ _))
  ]

  after_settling-Overwrites :
      (x : Exec) (aborted : Bool)
      → ready_steps x.live.run definition ≡ []
      → is_terminal x.live.run.status ≡ false
      → Overwrites x.live.run.id (after_settling definition concurrency r x aborted)
  unfolding after_settling on_ready
  after_settling-Overwrites x aborted idle going =
      elim (Option-cases (fatal_failure x.live.run definition)) [
        | inr (f, fatal) ↦ rw fatal (fail_run-Overwrites (save x) f)
        | inl fine ↦
            rw (fine, idle)
              (if_both (Overwrites x.live.run.id) (has_waiting x.live.run)
                (overwrites (suspend x) refl (λ h. cc) (get-set_same _ _ _))
                (complete_run-Overwrites x r.env.now going))
      ]

cancel_stored_lem :
    (x : Exec) (stored : WorkflowRun) (now : ℕ)
    → get x.store x.live.run.id ≡ some stored
    → stored.id ≡ x.live.run.id
    → is_terminal stored.status ≡ false
    → ((cancel_stored x now).1 ≡ true)
      × (get (cancel_stored x now).0.store x.live.run.id ≡ some (cancelled_run stored now))
unfolding cancel_stored
cancel_stored_lem x stored now found same going =
    rw (found, going) (refl, rw same (get-set_same x.store x.live.run.id _))

abbrev pub cancelling_at : CancelPoint → Env → Round
cancelling_at point env = record { env = env; cancels = point }

-- Take a run that is stored under its id, where neither the stored run nor the run in hand has
-- ended, and where no step is ready once the waiting steps are settled. A cancellation that arrives
-- while they are settled takes effect in the store and aborts the drive, and is lost all the same:
-- whatever branch the round takes, it ends with a run that is not cancelled, stored over the
-- cancelled one. The same cancellation before the round's check of the signal is kept: the round
-- ends with the cancelled run, in hand and in the store.
pub cancel_lost :
    (definition : WorkflowDefinition) (concurrency : ℕ) (env : Env) (x : Exec)
    (stored : WorkflowRun)
    → get x.store x.live.run.id ≡ some stored
    → stored.id ≡ x.live.run.id
    → is_terminal stored.status ≡ false
    → is_terminal x.live.run.status ≡ false
    → ready_steps (settle_waiting_steps env definition x.live).run definition ≡ []
    → let settled : Exec = record x { live = settle_waiting_steps env definition x.live } in
      ((cancel_stored settled env.now).1 ≡ true)
      × (get (cancel_stored settled env.now).0.store x.live.run.id
          ≡ some (cancelled_run stored env.now))
      × Overwrites x.live.run.id
          (round definition concurrency (cancelling_at while_settling env) x false)
      × (kept : Exec) × (round definition concurrency (cancelling_at before_check env) x false
          ≡ ended kept)
      × (kept.live.run ≡ cancelled_run stored env.now)
      × (get kept.store x.live.run.id ≡ some kept.live.run)
unfolding round
cancel_lost definition concurrency env x stored found same going live_going idle =
    let settled : Exec = record x { live = settle_waiting_steps env definition x.live } in
    let (id, status) = settle_waiting_steps-SameRun env definition x.live in
    let (late, wrote) =
      cancel_stored_lem settled stored env.now (rw id found) (same ∙ sym id) going in
    let (early, cancelled) = cancel_stored_lem x stored env.now found same going in
    let z = (cancel_stored settled env.now).0 in
    let left : z.live.run ≡ settled.live.run = cancel_if-run true settled env.now in
    let y = (cancel_stored x env.now).0 in
    let unread : y.live.run ≡ x.live.run = cancel_if-run true x env.now in
    let read : (stored_run y).live.run ≡ cancelled_run stored env.now =
      ap (λ (w : WorkflowRun). or_default (get y.store w.id) w) unread
      ∙ ap (λ (o : Option WorkflowRun). or_default o x.live.run) cancelled in
    (
      late,
      subst
          (λ i. get (cancel_stored settled env.now).0.store i ≡ some (cancelled_run stored env.now))
          id wrote,
      subst
          (λ i.
            Overwrites i (round definition concurrency (cancelling_at while_settling env) x false))
          (ap (λ (w : WorkflowRun). w.id) left ∙ id)
          (after_settling-Overwrites definition concurrency (cancelling_at while_settling env) z
            (cancel_stored settled env.now).1
            (ap (λ (w : WorkflowRun). ready_steps w definition) left ∙ idle)
            (ap (λ (w : WorkflowRun). is_terminal w.status) left
              ∙ ap is_terminal status
              ∙ live_going)),
      stored_run y,
      rw early refl,
      read,
      cancelled ∙ ap some (sym read),
    )

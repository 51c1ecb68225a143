-- ===== src/Agents/Scheduler/Stopping.antt =====
-- packages/agent-runtime/src/scheduler.ts: the two loops of `stop`, and calls that are refused.
use ryvan_os.Agents.Scheduler.Polling.{poll, Call, assigns, submits, fails, polls, call}
use ryvan_os.Agents.TaskQueue.Keeping.{dequeue-IsQueue}
use ryvan_os.Agents.TaskQueue.{Task, pending_tasks, dequeue}
use ryvan_os.Agents.TaskQueue.Order.{IsQueue}
use ryvan_os.Agents.Scheduler.{
  drained, Scheduler, drain, called_off, force_stop, shut_down, assign, submit_result, fail_task,
  task_failed,
}
use ryvan_os.Agents.TaskQueue.Emptying.{dequeue-Next, dequeue_empty, pending_none}
use ryvan_os.Base.Map.{get-delete, Map, get, delete, values, keys}
use ryvan_os.Base.{
  ℕ, zero, suc, ◌+◌, ◌<◌, String, ◌≡◌, refl, sym, ap, ◌∙◌, inl, inr, false, none, List, [], ◌∷◌,
  ◌++◌, map, append-nil, append_assoc, arith, ◌==◌, if◌then◌else◌, is_some, length, any, All,
}

-- While it is stopped, no call of the scheduler changes it.
pub call_idle : (s : Scheduler) (c : Call) → s.is_running ≡ false → call s c ≡ s
unfolding call assign submit_result fail_task poll
call_idle s (assigns id agent now) h = rw h refl
call_idle s (submits id result now) h = rw h refl
call_idle s (fails id error now) h = rw h refl
call_idle s (polls now) h = rw h refl

pub record Drained (now : ℕ) (s e : Scheduler) : Type 0 where
  pub empty : e.queue.order ≡ []
  pub halted : e.is_running ≡ s.is_running
  pub same : e.running ≡ s.running
  pub completed : e.completed_count ≡ s.completed_count
  pub failed : e.failed_count ≡ s.failed_count
  pub told : e.finished ≡ s.finished ++ map (called_off now) (pending_tasks s.queue)

pub drain-Drained :
    (fuel now : ℕ) (s : Scheduler)
    → IsQueue s.queue
    → length s.queue.order < fuel
    → Drained now s (drain fuel now s)
unfolding drain
drain-Drained zero now s h lt = absurd (omega arith)
drain-Drained (suc fuel) now s h lt = elim (dequeue-Next s.queue h) [
  | inl e ↦ rw (dequeue_empty s.queue e) (record {
    empty = e;
    halted = refl;
    same = refl;
    completed = refl;
    failed = refl;
    told = rw (pending_none s.queue e) (sym (append-nil s.finished));
  })
  | inr (task, n) ↦
      let r =
        drain-Drained fuel now (drained task now (record s { queue = (dequeue s.queue).0 }))
          (dequeue-IsQueue s.queue h) (omega (arith, n.shorter, lt)) in
      rw n.handed (record {
        empty = r.empty;
        halted = r.halted;
        same = r.same;
        completed = r.completed;
        failed = r.failed;
        told =
            r.told
            ∙ append_assoc s.finished (called_off now task ∷ [])
                (map (called_off now) (pending_tasks (dequeue s.queue).0))
            ∙ ap (λ (l : List Task). s.finished ++ map (called_off now) l) (sym n.next_listed);
      })
]

-- The tasks are stored under their ids.
abbrev pub Keyed : Map Task → Type 0
Keyed = All (λ (e : String × Task). e.1.id ≡ e.0)

pub any_key : (m : Map Task) (k : String) → any (λ j. j == k) (keys m) ≡ is_some (get m k)
unfolding get
any_key [] k = refl
any_key ((j, t) ∷ m) k = ground (arith, any_key m k)

pub record Forced (now : ℕ) (m : Map Task) (s e : Scheduler) : Type 0 where
  pub same : e.queue ≡ s.queue
  pub none_left :
      (k : String)
      → get e.running k ≡ (if any (λ j. j == k) (keys m) then none else get s.running k)
  pub completed : e.completed_count ≡ s.completed_count
  pub failed : e.failed_count ≡ s.failed_count + length m
  pub told : e.finished ≡ s.finished ++ map (shut_down now) (values m)

pub force_stop-Forced :
    (m : Map Task) (now : ℕ) (s : Scheduler) → Keyed m → Forced now m s (force_stop m now s)
unfolding force_stop
force_stop-Forced [] now s k = record {
  same = refl;
  none_left = λ k. refl;
  completed = refl;
  failed = omega arith;
  told = sym (append-nil s.finished);
}
force_stop-Forced ((id, task) ∷ rest) now s k =
    let ended = shut_down now task in
    let r =
      force_stop-Forced rest now
        (record s {
          running = delete s.running ended.id;
          failed_count = s.failed_count + 1;
          events = s.events ++ task_failed ended false ∷ [];
          finished = s.finished ++ ended ∷ [];
        })
        k.1 in
    record {
      same = r.same;
      none_left = λ j. r.none_left j ∙ ground (arith, get-delete s.running task.id j, k.0);
      completed = r.completed;
      failed = r.failed ∙ omega arith;
      told = r.told ∙ append_assoc s.finished (ended ∷ []) (map (shut_down now) (values rest));
    }

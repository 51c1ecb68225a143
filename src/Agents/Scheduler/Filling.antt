-- ===== src/Agents/Scheduler/Filling.antt =====
-- packages/agent-runtime/src/scheduler.ts: `poll` leaves no free place while tasks are queued.
use ryvan_os.Agents.Scheduler.Polling.{expire, is_timed_out, timeout_error, next_task, fill, poll}
use ryvan_os.Agents.TaskQueue.{Task}
use ryvan_os.Agents.TaskQueue.Order.{IsQueue}
use ryvan_os.Agents.TaskQueue.Keeping.{dequeue-IsQueue, enqueue-IsQueue}
use ryvan_os.Agents.TaskQueue.Emptying.{dequeue-Next, dequeue_empty}
use ryvan_os.Agents.Scheduler.{Scheduler, settle_failure, retried, fail_task}
use ryvan_os.Base.Map.{Map, get}
use ryvan_os.Base.{
  ℕ, zero, suc, ◌+◌, ◌≤◌, ◌<◌, String, ◌≡◌, sym, ap, subst, ◌⊎◌, inl, inr, Bool, true, [], ◌∷◌,
  arith, ltb, if◌then◌else◌, if_both, option_both, Bool-cases, length, Outcome,
}

-- All places are taken, or no task waits.
abbrev pub Filled : Scheduler → Type 0
Filled s = (s.max_concurrency ≤ length s.running) ⊎ (s.queue.order ≡ [])

settle_failure-IsQueue :
    (s : Scheduler) (id error : String) (now : ℕ) (task : Task)
    → IsQueue s.queue
    → IsQueue (settle_failure s id error now task).queue
unfolding settle_failure
settle_failure-IsQueue s id error now task h =
    if_both (λ (t : Scheduler). IsQueue t.queue) (ltb task.attempts task.max_attempts)
      (enqueue-IsQueue s.queue (retried task error) h) h

fail_task-IsQueue :
    (s : Scheduler) (id error : String) (now : ℕ)
    → IsQueue s.queue
    → IsQueue (fail_task s id error now).0.queue
unfolding fail_task
fail_task-IsQueue s id error now h =
    if_both (λ (r : Scheduler × Outcome (Unit {0})). IsQueue r.0.queue) s.is_running
      (option_both (λ (r : Scheduler × Outcome (Unit {0})). IsQueue r.0.queue) (get s.running id) h
        (λ task e. settle_failure-IsQueue s id error now task h))
      h

expire-IsQueue :
    (m : Map Task) (now : ℕ) (s : Scheduler) → IsQueue s.queue → IsQueue (expire m now s).queue
unfolding expire
expire-IsQueue [] now s h = h
expire-IsQueue ((id, task) ∷ rest) now s h = expire-IsQueue rest now _ (
    if_both (λ (t : Scheduler). IsQueue t.queue) (is_timed_out task now)
      (fail_task-IsQueue s id (timeout_error task) now h) h)

fill-Filled :
    (fuel now : ℕ) (s : Scheduler)
    → IsQueue s.queue
    → length s.queue.order < fuel
    → Filled (fill fuel now s)
unfolding fill next_task
fill-Filled zero now s h lt = absurd (omega arith)
fill-Filled (suc fuel) now s h lt = elim (Bool-cases (ltb (length s.running) s.max_concurrency)) [
  | inr full ↦ rw full (inl (ground arith))
  | inl room ↦ elim (dequeue-Next s.queue h) [
    | inl e ↦ rw (room, dequeue_empty s.queue e) (inr e)
    | inr (task, n) ↦
        rw (room, n.handed)
          (fill-Filled fuel now _ (dequeue-IsQueue s.queue h) (omega (arith, n.shorter, lt)))
  ]
]

-- After a poll of a scheduler that runs and whose queue is in order, either as many tasks run as
-- may, or no task is queued.
pub poll_fills :
    (s : Scheduler) (now : ℕ) → IsQueue s.queue → s.is_running ≡ true → Filled (poll s now)
unfolding poll
poll_fills s now h on =
    let expired = expire s.running now s in
    let filled = fill (length expired.queue.order + 1) now expired in
    subst Filled (ap (λ (b : Bool). if b then filled else s) (sym on)) (
      fill-Filled (length expired.queue.order + 1) now expired (expire-IsQueue s.running now s h)
        (omega arith))

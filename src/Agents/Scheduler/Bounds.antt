-- ===== src/Agents/Scheduler/Bounds.antt =====
-- packages/agent-runtime/src/scheduler.ts: the bounds on running tasks and on attempts.
use ryvan_os.Agents.Scheduler.Attempts.{
  IsFresh, WithinAttempts, Within, length-set_le, length-set_present, length-delete_le,
  enqueue-IsFresh, dequeue-IsFresh, dequeued-IsFresh, cancel-IsFresh,
}
use ryvan_os.Agents.Scheduler.Polling.{
  polls, begun, fails, next_task, submits, poll, assigns, fill, expire, is_timed_out, timeout_error,
  Call, call,
}
use ryvan_os.Agents.TaskQueue.{Task, dequeue, enqueue, cancel, get_by_id, TaskResult}
use ryvan_os.Agents.Scheduler.{
  submit_result, assign, Scheduler, start, begin_stop, drain, end_stop, force_stop, shut_down,
  settle_failure, retried, fail_task,
}
use ryvan_os.Base.Map.{Map, get, All-values-set, All-values-delete, All-values-get}
use ryvan_os.Base.{
  ℕ, zero, suc, ◌+◌, String, inl, inr, some, [], ◌∷◌, arith, ltb, if_both, option_both, Bool-cases,
  Option-cases, length, Outcome,
}

-- What may happen to a scheduler: its own operations, and those on the queue that it shares.
pub data Step : Scheduler → Scheduler → Type 0 where
  starts : {s : Scheduler} → Step s (start s)
  begins_stop : {s : Scheduler} (now : ℕ) → Step s (begin_stop s now)
  ends_stop : {s : Scheduler} (now : ℕ) → Step s (end_stop s now)
  calls : {s : Scheduler} (c : Call) → Step s (call s c)
  enqueues_task :
      {s : Scheduler} (t : Task) → IsFresh t → Step s (record s { queue = enqueue s.queue t })
  cancels_task :
      {s : Scheduler} (id : String) (now : ℕ)
      → Step s (record s { queue = (cancel s.queue id now).0 })

pub data Steps : Scheduler → Scheduler → Type 0 where
  stays : {s : Scheduler} → Steps s s
  step : {s t u : Scheduler} → Step s t → Steps t u → Steps s u

drain-Within : (fuel now : ℕ) (s : Scheduler) → Within s → Within (drain fuel now s)
unfolding drain
drain-Within zero now s w = w
drain-Within (suc fuel) now s w =
    let q = dequeue-IsFresh s.queue w.queued in
    option_both Within (dequeue s.queue).1 (record { few = w.few; queued = q; running = w.running })
      (λ task e. drain-Within fuel now _ (record { few = w.few; queued = q; running = w.running }))

force_stop-Within :
    (m : Map Task) (now : ℕ) (s : Scheduler) → Within s → Within (force_stop m now s)
unfolding force_stop
force_stop-Within [] now s w = w
force_stop-Within ((id, task) ∷ rest) now s w = force_stop-Within rest now _ (record {
  few = omega (arith, length-delete_le s.running (shut_down now task).id, w.few);
  queued = w.queued;
  running = All-values-delete WithinAttempts s.running (shut_down now task).id w.running;
})

settle_failure-Within :
    (s : Scheduler) (id error : String) (now : ℕ) (task : Task)
    → Within s
    → Within (settle_failure s id error now task)
unfolding settle_failure
settle_failure-Within s id error now task w =
    elim (Bool-cases (ltb task.attempts task.max_attempts)) [
      | inl again ↦ rw again (record {
        few = omega (arith, length-delete_le s.running id, w.few);
        queued = enqueue-IsFresh s.queue (retried task error) w.queued (ground arith);
        running = All-values-delete WithinAttempts s.running id w.running;
      })
      | inr out ↦ rw out (record {
        few = omega (arith, length-delete_le s.running id, w.few);
        queued = w.queued;
        running = All-values-delete WithinAttempts s.running id w.running;
      })
    ]

fail_task-Within :
    (s : Scheduler) (id error : String) (now : ℕ) → Within s → Within (fail_task s id error now).0
unfolding fail_task
fail_task-Within s id error now w =
    if_both (λ (r : Scheduler × Outcome (Unit {0})). Within r.0) s.is_running
      (option_both (λ (r : Scheduler × Outcome (Unit {0})). Within r.0) (get s.running id) w
        (λ task e. settle_failure-Within s id error now task w))
      w

expire-Within : (m : Map Task) (now : ℕ) (s : Scheduler) → Within s → Within (expire m now s)
unfolding expire
expire-Within [] now s w = w
expire-Within ((id, task) ∷ rest) now s w =
    expire-Within rest now _
      (if_both Within (is_timed_out task now) (fail_task-Within s id (timeout_error task) now w) w)

fill-Within : (fuel now : ℕ) (s : Scheduler) → Within s → Within (fill fuel now s)
unfolding fill next_task
fill-Within zero now s w = w
fill-Within (suc fuel) now s w =
    let q = dequeue-IsFresh s.queue w.queued in
    elim (Bool-cases (ltb (length s.running) s.max_concurrency)) [
      | inr full ↦ rw full w
      | inl room ↦ rw room (
          option_both Within (dequeue s.queue).1
            (record { few = w.few; queued = q; running = w.running })
            (λ task e.
              let fresh = dequeued-IsFresh s.queue w.queued e in
              fill-Within fuel now _ (record {
                few = ground (arith, length-set_le s.running task.id (begun task now));
                queued = q;
                running =
                    All-values-set WithinAttempts s.running task.id (begun task now) w.running
                      (omega arith);
              })))
    ]

poll-Within : (s : Scheduler) (now : ℕ) → Within s → Within (poll s now)
unfolding poll
poll-Within s now w =
    if_both Within s.is_running
      (fill-Within (length (expire s.running now s).queue.order + 1) now _
        (expire-Within s.running now s w))
      w

assign-Within :
    (s : Scheduler) (id agent : String) (now : ℕ) → Within s → Within (assign s id agent now).0
unfolding assign
assign-Within s id agent now w = elim (Option-cases (get_by_id s.queue id)) [
  | inr (t, e) ↦ rw e (
      if_both (λ (r : Scheduler × Outcome (Unit {0})). Within r.0) s.is_running
        (record {
          few = w.few;
          queued =
              All-values-set IsFresh s.queue.tasks id _ w.queued
                (All-values-get IsFresh s.queue.tasks id w.queued e);
          running = w.running;
        })
        w)
  | inl unqueued ↦ rw unqueued (elim (Option-cases (get s.running id)) [
    | inl unknown ↦
        rw unknown (if_both (λ (r : Scheduler × Outcome (Unit {0})). Within r.0) s.is_running w w)
    | inr (t, e) ↦ rw e (
        if_both (λ (r : Scheduler × Outcome (Unit {0})). Within r.0) s.is_running
          (record {
            few = omega (
              arith,
              length-set_present s.running id (record t { agent_id = some agent }) t e,
              w.few,
            );
            queued = w.queued;
            running =
                All-values-set WithinAttempts s.running id _ w.running
                  (All-values-get WithinAttempts s.running id w.running e);
          })
          w)
  ])
]

submit_result-Within :
    (s : Scheduler) (id : String) (result : TaskResult) (now : ℕ)
    → Within s
    → Within (submit_result s id result now).0
unfolding submit_result
submit_result-Within s id result now w =
    if_both (λ (r : Scheduler × Outcome (Unit {0})). Within r.0) s.is_running
      (option_both (λ (r : Scheduler × Outcome (Unit {0})). Within r.0) (get s.running id) w
        (λ task e. record {
          few = omega (arith, length-delete_le s.running id, w.few);
          queued = w.queued;
          running = All-values-delete WithinAttempts s.running id w.running;
        }))
      w

call-Within : (s : Scheduler) (c : Call) → Within s → Within (call s c)
unfolding call
call-Within s (assigns id agent now) w = assign-Within s id agent now w
call-Within s (submits id result now) w = submit_result-Within s id result now w
call-Within s (fails id error now) w = fail_task-Within s id error now w
call-Within s (polls now) w = poll-Within s now w

Step-Within : {s t : Scheduler} → Step s t → Within s → Within t
unfolding begin_stop
Step-Within starts w = record { few = w.few; queued = w.queued; running = w.running }
Step-Within (begins_stop {s} now) w =
    drain-Within (length s.queue.order + 1) now _
      (record { few = w.few; queued = w.queued; running = w.running })
Step-Within (ends_stop {s} now) w = force_stop-Within s.running now s w
Step-Within (calls {s} c) w = call-Within s c w
Step-Within (enqueues_task {s} t fresh) w = record {
  few = w.few;
  queued = enqueue-IsFresh s.queue t w.queued fresh;
  running = w.running;
}
Step-Within (cancels_task {s} id now) w = record {
  few = w.few;
  queued = cancel-IsFresh s.queue id now w.queued;
  running = w.running;
}

-- Whatever is done to a scheduler that is within its bounds, it stays so, if the tasks that are
-- submitted have an attempt left: no more tasks run at once than its limit, no running task has
-- been started more often than its attempts allow, and every queued task has an attempt left.
pub Steps-Within : {s t : Scheduler} → Steps s t → Within s → Within t
Steps-Within stays w = w
Steps-Within (step one more) w = Steps-Within more (Step-Within one w)

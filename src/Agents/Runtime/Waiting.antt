-- ===== src/Agents/Runtime/Waiting.antt =====
-- packages/agent-runtime/src/runtime-service.ts and scheduler.ts: the calls that arrive while `stop`
-- waits for the running tasks.
use ryvan_os.Agents.Scheduler.Attempts.{length-set_present}
use ryvan_os.Agents.Scheduler.Stopping.{call_idle}
use ryvan_os.Agents.Scheduler.{TaskEvent}
use ryvan_os.Agents.TaskQueue.{Task, TaskQueue, TaskStatus, enqueue, cancel}
use ryvan_os.Agents.Scheduler.{shut_down}
use ryvan_os.Agents.Scheduler.Polling.{Call, call}
use ryvan_os.Agents.Scheduler.Stopping.{Keyed}
use ryvan_os.Agents.Runtime.{
  RuntimeService, Status, SubmitOptions, begin_submit, end_submit, cancel_task, cancelled_at,
}
use ryvan_os.Base.Map.{Map, get, set, values}
use ryvan_os.Base.{
  ℕ, String, ◌≡◌, refl, sym, ap, ◌∙◌, subst, inl, inr, false, some, List, [], ◌∷◌, map, arith, ◌==◌,
  Bool-cases, Option-cases, length, any, Outcome, returned, threw,
}

-- The calls that may arrive, all but a new start: those of the scheduler, and on the service a
-- submission, the planner's answer to an earlier one, and a cancellation; the queue, which the
-- service exposes, may be given a task.
pub data ServiceCall : Type 0 where
  of_scheduler : Call → ServiceCall
  submits : String → String → SubmitOptions → ℕ → ServiceCall
  planned : Task → Outcome String → ServiceCall
  cancels : String → ℕ → ServiceCall
  enqueues : Task → ServiceCall

unfoldable pub serve : RuntimeService → ServiceCall → RuntimeService
serve r (of_scheduler c) = record r { scheduler = call r.scheduler c }
serve r (submits id goal options now) = (begin_submit r id goal options now).0
serve r (planned task answer) = (end_submit r task answer).0
serve r (cancels id now) = (cancel_task r id now).0
serve r (enqueues task) = record r {
  scheduler = record r.scheduler { queue = enqueue r.scheduler.queue task };
}

unfoldable pub serve_all : List ServiceCall → RuntimeService → RuntimeService
unfolding serve
serve_all [] r = r
serve_all (c ∷ cs) r = serve_all cs (serve r c)

-- What the calls do to the queue, which is all that they can still change of it.
abbrev pub late_queue : ServiceCall → TaskQueue → TaskQueue
late_queue (of_scheduler c) q = q
late_queue (submits id goal options now) q = q
late_queue (planned task (threw e)) q = q
late_queue (planned task (returned plan)) q =
    enqueue q (record task { plan = some plan; status = TaskStatus.queued })
late_queue (cancels id now) q = (cancel q id now).0
late_queue (enqueues task) q = enqueue q task

abbrev pub late_queues : List ServiceCall → TaskQueue → TaskQueue
late_queues [] q = q
late_queues (c ∷ cs) q = late_queues cs (late_queue c q)

-- Nothing has ended, and the running tasks will end alike.
pub record Waits (later : ℕ) (r e : RuntimeService) : Type 0 where
  pub stopping : e.state ≡ Status.stopping
  pub halted : e.scheduler.is_running ≡ false
  pub completed : e.scheduler.completed_count ≡ r.scheduler.completed_count
  pub failed : e.scheduler.failed_count ≡ r.scheduler.failed_count
  pub finished : e.scheduler.finished ≡ r.scheduler.finished
  pub as_many : length e.scheduler.running ≡ length r.scheduler.running
  pub keyed : Keyed e.scheduler.running
  pub alike :
      map (shut_down later) (values e.scheduler.running)
      ≡ map (shut_down later) (values r.scheduler.running)

module _ (id : String) (now later : ℕ) (task : Task) where
  marked-alike :
      (m : Map Task)
      → get m id ≡ some task
      → map (shut_down later) (values (set m id (cancelled_at now task)))
        ≡ map (shut_down later) (values m)
  unfolding get set
  marked-alike [] h = cc
  marked-alike ((j, w) ∷ m) h = elim (Bool-cases (j == id)) [
    | inl e ↦ let same : w ≡ task = (let found = rw e at h in ground arith) in rw (e, same) refl
    | inr e ↦ rw e (ap (λ (l : List Task). shut_down later w ∷ l) (marked-alike m (rw e at h)))
  ]

  marked-Keyed :
      (m : Map Task) → get m id ≡ some task → Keyed m → Keyed (set m id (cancelled_at now task))
  unfolding get set
  marked-Keyed [] h k = cc
  marked-Keyed ((j, w) ∷ m) h k = elim (Bool-cases (j == id)) [
    | inl e ↦
        let same : w ≡ task = (let found = rw e at h in ground arith) in
        rw e (ap (λ (t : Task). t.id) (sym same) ∙ k.0, k.1)
    | inr e ↦ rw e (k.0, marked-Keyed m (rw e at h) k.1)
  ]

uncancelled :
    (q : TaskQueue) (id : String) (now : ℕ) → (cancel q id now).1 ≡ false → (cancel q id now).0 ≡ q
unfolding cancel
uncancelled q id now h = elim (Bool-cases (any (λ x. x == id) q.order)) [
  | inr out ↦ rw out refl
  | inl queued ↦ elim (Option-cases (get q.tasks id)) [
    | inl gone ↦ rw (queued, gone) refl
    | inr (t, found) ↦ let bad = rw (queued, found) at h in cc
  ]
]

refused :
    (r : RuntimeService) (id goal : String) (options : SubmitOptions) (now : ℕ)
    → r.state ≡ Status.stopping
    → (begin_submit r id goal options now).0 ≡ r
unfolding begin_submit
refused r id goal options now h = rw h refl

module _ (later : ℕ) where
  Waits-queue :
      (r : RuntimeService) (q : TaskQueue) (events : List TaskEvent)
      → Waits later r r
      → Waits later r (record r { scheduler = record r.scheduler { queue = q; events = events } })
  Waits-queue r q events w = record {
    stopping = w.stopping;
    halted = w.halted;
    completed = refl;
    failed = refl;
    finished = refl;
    as_many = refl;
    keyed = w.keyed;
    alike = refl;
  }

  cancel_task-Waits :
      (r : RuntimeService) (id : String) (now : ℕ)
      → Waits later r r
      → Waits later r (cancel_task r id now).0
        × ((cancel_task r id now).0.scheduler.queue ≡ (cancel r.scheduler.queue id now).0)
  unfolding cancel_task
  cancel_task-Waits r id now w = elim (Bool-cases (cancel r.scheduler.queue id now).1) [
    | inl queued ↦ rw queued (Waits-queue r _ _ w, refl)
    | inr not_queued ↦
        let same = uncancelled r.scheduler.queue id now not_queued in
        elim (Option-cases (get r.scheduler.running id)) [
          | inl idle ↦ rw (not_queued, idle) (w, sym same)
          | inr (task, found) ↦
              rw (not_queued, found)
                (
                  record {
                    stopping = w.stopping;
                    halted = w.halted;
                    completed = refl;
                    failed = refl;
                    finished = refl;
                    as_many =
                        length-set_present r.scheduler.running id (cancelled_at now task) task
                          found;
                    keyed = marked-Keyed id now later task r.scheduler.running found w.keyed;
                    alike = marked-alike id now later task r.scheduler.running found;
                  },
                  sym same,
                )
        ]
  ]

  serve-Waits :
      (r : RuntimeService) (c : ServiceCall)
      → Waits later r r
      → Waits later r (serve r c) × ((serve r c).scheduler.queue ≡ late_queue c r.scheduler.queue)
  unfolding serve begin_submit end_submit
  serve-Waits r (of_scheduler c) w = rw (call_idle r.scheduler c w.halted) (w, refl)
  serve-Waits r (submits id goal options now) w =
      subst (λ (e : RuntimeService). Waits later r e × (e.scheduler.queue ≡ r.scheduler.queue))
        (sym (refused r id goal options now w.stopping)) (w, refl)
  serve-Waits r (planned task (threw e)) w = (w, refl)
  serve-Waits r (planned task (returned plan)) w = (Waits-queue r _ _ w, refl)
  serve-Waits r (cancels id now) w = cancel_task-Waits r id now w
  serve-Waits r (enqueues task) w = (Waits-queue r _ _ w, refl)

  pub Waits-refl :
      (r : RuntimeService)
      → r.state ≡ Status.stopping
      → r.scheduler.is_running ≡ false
      → Keyed r.scheduler.running
      → Waits later r r
  Waits-refl r stopping halted keyed = record {
    stopping = stopping;
    halted = halted;
    completed = refl;
    failed = refl;
    finished = refl;
    as_many = refl;
    keyed = keyed;
    alike = refl;
  }

  Waits-trans : (r t e : RuntimeService) → Waits later r t → Waits later t e → Waits later r e
  Waits-trans r t e a b = record {
    stopping = b.stopping;
    halted = b.halted;
    completed = b.completed ∙ a.completed;
    failed = b.failed ∙ a.failed;
    finished = b.finished ∙ a.finished;
    as_many = b.as_many ∙ a.as_many;
    keyed = b.keyed;
    alike = b.alike ∙ a.alike;
  }

  pub serve_all-Waits :
      (cs : List ServiceCall) (r : RuntimeService)
      → Waits later r r
      → Waits later r (serve_all cs r)
        × ((serve_all cs r).scheduler.queue ≡ late_queues cs r.scheduler.queue)
  unfolding serve_all
  serve_all-Waits [] r w = (w, refl)
  serve_all-Waits (c ∷ cs) r w =
      let (one, queue) = serve-Waits r c w in
      let next = Waits-refl (serve r c) one.stopping one.halted one.keyed in
      let (rest, queues) = serve_all-Waits cs (serve r c) next in
      (
        Waits-trans r (serve r c) (serve_all cs (serve r c)) one rest,
        queues ∙ ap (late_queues cs) queue,
      )

-- ===== src/Events/Bus/Ending.antt =====
-- packages/events/src/event-bus.ts: the loop of `dispatch` ends whatever the handlers do to the bus.
use ryvan_os.Events.Bus.Dispatch.{
  live_handlers, dispatch_loop, unsubscribes, dispatch, visit, Dispatching, emit, run_chain,
  subscribes, HandlerRun, Command, run_command, run_commands, log_error,
}
use ryvan_os.Events.Bus.Delivering.{loop_visits, get_elem?-some, loop_stops}
use ryvan_os.Events.Bus.{lets_through, holds_back, fails}
use ryvan_os.Base.{
  ℕ, zero, suc, ◌+◌, ◌≤◌, ◌<◌, max, String, ◌≡◌, refl, ap, ◌∙◌, inl, inr, Bool, true, false, Option,
  some, List, [], ◌∷◌, ◌++◌, arith, eq_iff, leb, if◌then◌else◌, is_some, if_both, Bool-cases,
  Option-cases, length, length-append, Outcome, returned, threw, get_elem?, is_some-option_case,
}
use ryvan_os.Base.Map.{has, get-set, get-delete}
use ryvan_os.Events.Bus.{
  wants, Passage, RyvanEvent, RegisteredHandler, EventBus, EventFilter, handlers_of, put_handlers,
  add_handler, owner, splice_out, put_or_delete, off,
}

-- The handlers of the type are at most `m`, and can be no more.
record Bounded (type : String) (m : ℕ) (bus : EventBus) : Type 0 where
  most : bus.max_listeners ≤ m
  few : length (handlers_of bus type) ≤ m

length-splice_out-le :
    (id : String) (hs : List RegisteredHandler) → length (splice_out id hs) ≤ length hs
length-splice_out-le id [] = omega arith
length-splice_out-le id (h ∷ hs) = ground (arith, length-splice_out-le id hs)

leb-false : (a b : ℕ) → leb a b ≡ false → b < a
leb-false a b h = ground arith

module _ (type : String) (m : ℕ) where
  length-snoc : {A : Type 0} (xs : List A) (x : A) → length (xs ++ x ∷ []) ≡ length xs + 1
  length-snoc xs x = length-append xs (x ∷ []) ∙ omega arith

  put_handlers-Bounded :
      (bus : EventBus) (t : String) (hs : List RegisteredHandler)
      → Bounded type m bus
      → length hs ≤ m
      → Bounded type m (put_handlers bus t hs)
  put_handlers-Bounded bus t hs b h = record {
    most = b.most;
    few = ground (arith, get-set bus.listeners t type hs, b.few);
  }

  add_handler-Bounded :
      (bus : EventBus) (t id : String) (filter : Option EventFilter) (once : Bool)
      → Bounded type m bus
      → Bounded type m (add_handler bus t id filter once).0
  unfolding add_handler
  add_handler-Bounded bus t id filter once b =
      let known = if has bus.listeners t then bus else put_handlers bus t [] in
      let k : Bounded type m known =
        if_both (Bounded type m) (has bus.listeners t) b
          (put_handlers-Bounded bus t [] b (omega arith)) in
      let hs = handlers_of known t in
      let added : RegisteredHandler = record { id = id; filter = filter; once = once } in
      elim (Bool-cases (leb known.max_listeners (length hs))) [
        | inl full ↦ rw full k
        | inr room ↦ rw room (
            put_handlers-Bounded known t (hs ++ added ∷ []) k
              (omega (arith, length-snoc hs added, leb-false _ _ room, k.most)))
      ]

  put_or_delete-Bounded :
      (bus : EventBus) (t : String) (hs : List RegisteredHandler)
      → Bounded type m bus
      → length hs ≤ length (handlers_of bus t)
      → Bounded type m (record bus { listeners = put_or_delete bus.listeners t hs })
  put_or_delete-Bounded bus t [] b h = record {
    most = b.most;
    few = ground (arith, get-delete bus.listeners t type, b.few);
  }
  put_or_delete-Bounded bus t (x ∷ xs) b h = record {
    most = b.most;
    few = ground (arith, get-set bus.listeners t type (x ∷ xs), eq_iff t type, b.few);
  }

  off-Bounded : (bus : EventBus) (id : String) → Bounded type m bus → Bounded type m (off bus id).0
  unfolding off
  off-Bounded bus id b = elim (Option-cases (owner bus.listeners id)) [
    | inl unknown ↦ rw unknown b
    | inr (t, found) ↦ rw found (
        put_or_delete-Bounded bus t (splice_out id (handlers_of bus t)) b
          (length-splice_out-le id (handlers_of bus t)))
  ]

  run_command-Bounded :
      (bus : EventBus) (c : Command) → Bounded type m bus → Bounded type m (run_command bus c)
  unfolding run_command
  run_command-Bounded bus (subscribes t id filter once) b =
      add_handler-Bounded bus t id filter once b
  run_command-Bounded bus (unsubscribes id) b = off-Bounded bus id b

  run_commands-Bounded :
      (cs : List Command) (t : String) (bus : EventBus) (attached : Bool)
      → Bounded type m bus
      → Bounded type m (run_commands cs t bus attached).0
  unfolding run_commands
  run_commands-Bounded [] t bus attached b = b
  run_commands-Bounded (c ∷ cs) t bus attached b =
      run_commands-Bounded cs t (run_command bus c) _ (run_command-Bounded bus c b)

module _ (behave : String → RyvanEvent → HandlerRun) (event : RyvanEvent) (m : ℕ) where
  log_error-Bounded :
      (id : String) (o : Outcome (Unit {0})) (bus : EventBus)
      → Bounded event.type m bus
      → Bounded event.type m (log_error event id o bus)
  log_error-Bounded id (returned ok) bus b = b
  log_error-Bounded id (threw e) bus b =
      if_both (Bounded event.type m) bus.enable_dead_letters (record { most = b.most; few = b.few })
        b

  visit-Bounded :
      (h : RegisteredHandler) (d : Dispatching)
      → Bounded event.type m d.bus
      → Bounded event.type m (visit behave event h d).bus
  unfolding visit
  visit-Bounded h d b =
      let outcome = behave h.id event in
      if_both (λ (e : Dispatching). Bounded event.type m e.bus) (wants event h)
        (log_error-Bounded h.id outcome.ends _
          (run_commands-Bounded event.type m outcome.commands event.type d.bus d.attached b))
        b

  live_handlers-le :
      (d : Dispatching) → Bounded event.type m d.bus → length (live_handlers event.type d) ≤ m
  live_handlers-le d b =
      if_both (λ (hs : List RegisteredHandler). length hs ≤ m) d.attached b.few (omega arith)

  loop-ends :
      (fuel i : ℕ) (d : Dispatching)
      → Bounded event.type m d.bus
      → i ≤ m
      → m < i + fuel
      → is_some (dispatch_loop behave event fuel i d) ≡ true
  loop-ends zero i d b le lt = absurd (omega arith)
  loop-ends (suc fuel) i d b le lt =
      elim (Option-cases (get_elem? (live_handlers event.type d) i)) [
        | inl over ↦ ap is_some (loop_stops behave event fuel i d over)
        | inr (h, found) ↦
            let (split, less) = get_elem?-some (live_handlers event.type d) i found in
            ap is_some (loop_visits behave event fuel i d found)
            ∙ loop-ends fuel (suc i) (visit behave event h d) (visit-Bounded h d b)
                (omega (arith, live_handlers-le d b, less)) (omega arith)
      ]

module _ (behave : String → RyvanEvent → HandlerRun) (event : RyvanEvent) where
  dispatch-ends : (bus : EventBus) → is_some (dispatch behave event bus) ≡ true
  unfolding dispatch
  dispatch-ends bus =
      let m = max bus.max_listeners (length (handlers_of bus event.type)) in
      let done =
        loop-ends behave event m (m + 1) 0
          (record {
            bus = bus;
            attached = has bus.listeners event.type;
            to_remove = [];
            called = [];
          })
          (record { most = omega arith; few = omega arith }) (omega arith) (omega arith) in
      is_some-option_case _ _ done

  chain-ends :
      (ms : List (RyvanEvent → Passage)) (bus : EventBus)
      → is_some (run_chain behave event ms bus) ≡ true
  unfolding run_chain
  chain-ends [] bus = is_some-option_case _ _ (dispatch-ends bus)
  chain-ends (p ∷ ps) bus = go (p event) (run_chain behave event ps bus) (chain-ends ps bus)
    where
      go :
          (o : Passage) (rest : Option (EventBus × List String × Outcome (Unit {0})))
          → is_some rest ≡ true
          → is_some (elim o [
            | lets_through ↦ rest
            | holds_back ↦ some (bus, [], returned tt)
            | fails e ↦ some (bus, [], threw e)
          ])
            ≡ true
      go lets_through rest h = h
      go holds_back rest h = refl
      go (fails e) rest h = refl

  -- Emitting an event ends, whatever its handlers subscribe and unsubscribe while they run: the loop
  -- makes no more rounds than a type may have listeners, or has, and one more.
  pub emit-ends : (bus : EventBus) → is_some (emit behave event bus) ≡ true
  unfolding emit
  emit-ends bus = chain-ends bus.middlewares _

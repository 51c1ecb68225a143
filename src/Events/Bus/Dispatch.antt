-- ===== src/Events/Bus/Dispatch.antt =====
-- packages/events/src/event-bus.ts: `dispatch` and `emit`.
use ryvan_os.Events.Bus.{
  RyvanEvent, EventFilter, RegisteredHandler, Passage, lets_through, holds_back, fails, EventBus,
  default_history_limit, handlers_of, add_handler, off, wants,
}
use ryvan_os.Base.{
  ℕ, zero, suc, ◌+◌, max, String, Bool, ◌&&◌, Option, none, some, List, [], ◌∷◌, ◌++◌, ltb,
  if◌then◌else◌, option_case, length, drop, Outcome, returned, threw, get_elem?,
}
use ryvan_os.Base.Map.{has}

-- What a handler does to the bus before it ends; it catches the error of a failed subscription.
pub data Command : Type 0 where
  subscribes : String → String → Option EventFilter → Bool → Command
  unsubscribes : String → Command

pub record HandlerRun : Type 0 where
  pub commands : List Command
  pub ends : Outcome (Unit {0})

unfoldable pub run_command : EventBus → Command → EventBus
unfolding add_handler off
run_command bus (subscribes type id filter once) = (add_handler bus type id filter once).0
run_command bus (unsubscribes id) = (off bus id).0

-- The loop of `dispatch` runs over the array itself. Once the type's entry was deleted, that array
-- is empty and stays so: `attached` is then false.
pub record Dispatching : Type 0 where
  pub bus : EventBus
  pub attached : Bool
  pub to_remove : List String
  pub called : List String

unfoldable pub run_commands : List Command → String → EventBus → Bool → EventBus × Bool
unfolding run_command
run_commands [] type bus attached = (bus, attached)
run_commands (c ∷ cs) type bus attached =
    let bus' = run_command bus c in run_commands cs type bus' (attached && has bus'.listeners type)

abbrev pub live_handlers : String → Dispatching → List RegisteredHandler
live_handlers type d = if d.attached then handlers_of d.bus type else []

abbrev pub log_error : RyvanEvent → String → Outcome (Unit {0}) → EventBus → EventBus
log_error event id (returned ok) bus = bus
log_error event id (threw e) bus =
    if bus.enable_dead_letters
    then record bus {
      dead_letters = bus.dead_letters ++ (record { event = event; error = e; handler = id }) ∷ [];
    }
    else bus

module _ (behave : String → RyvanEvent → HandlerRun) (event : RyvanEvent) where
  -- One handler of the loop.
  unfoldable pub visit : RegisteredHandler → Dispatching → Dispatching
  unfolding run_commands
  visit h d =
      let outcome = behave h.id event in
      let (bus, attached) = run_commands outcome.commands event.type d.bus d.attached in
      if wants event h
      then record {
        bus = log_error event h.id outcome.ends bus;
        attached = attached;
        to_remove = if h.once then d.to_remove ++ h.id ∷ [] else d.to_remove;
        called = d.called ++ h.id ∷ [];
      }
      else d

  -- The loop from an index on; `none` when the fuel ran out.
  unfoldable pub dispatch_loop : ℕ → ℕ → Dispatching → Option Dispatching
  unfolding visit
  dispatch_loop zero i d = none
  dispatch_loop (suc fuel) i d = elim (get_elem? (live_handlers event.type d) i) [
    | none ↦ some d
    | some h ↦ dispatch_loop fuel (suc i) (visit h d)
  ]

  abbrev pub remove_all : List String → EventBus → EventBus
  remove_all [] bus = bus
  remove_all (id ∷ ids) bus = remove_all ids (off bus id).0

  abbrev pub enough_rounds : EventBus → ℕ
  enough_rounds bus = max bus.max_listeners (length (handlers_of bus event.type)) + 1

  -- The bus after the event, and the handlers that were called, in order.
  unfoldable pub dispatch : EventBus → Option (EventBus × List String)
  unfolding dispatch_loop
  dispatch bus =
      option_case
        (dispatch_loop (enough_rounds bus) 0 (record {
          bus = bus;
          attached = has bus.listeners event.type;
          to_remove = [];
          called = [];
        }))
        none (λ d. some (remove_all d.to_remove d.bus, d.called))

  unfoldable pub run_chain :
      List (RyvanEvent → Passage) → EventBus → Option (EventBus × List String × Outcome (Unit {0}))
  unfolding dispatch
  run_chain [] bus = option_case (dispatch bus) none (λ r. some (r.0, r.1, returned tt))
  run_chain (m ∷ ms) bus =
      let rest = run_chain ms bus in
      elim (m event) [
        | lets_through ↦ rest
        | holds_back ↦ some (bus, [], returned tt)
        | fails e ↦ some (bus, [], threw e)
      ]

  abbrev pub remember : List RyvanEvent → List RyvanEvent
  remember history =
      let all_events = history ++ event ∷ [] in
      if ltb default_history_limit (length all_events) then drop 1 all_events else all_events

  unfoldable pub emit : EventBus → Option (EventBus × List String × Outcome (Unit {0}))
  unfolding run_chain
  emit bus = run_chain bus.middlewares (record bus { history = remember bus.history })

-- ===== src/Events/Bus/Tests.antt =====
-- Buses with a few handlers, one of which may unsubscribe itself.
use ryvan_os.Events.Bus.Dispatch.{dispatch, emit, HandlerRun, unsubscribes}
use ryvan_os.Events.Bus.Changing.{unsubscribe_skips}
use ryvan_os.Events.Bus.Delivering.{dispatch-quiet}
use ryvan_os.Events.Bus.Ending.{emit-ends}
use ryvan_os.Base.{
  String, ◌≡◌, refl, true, false, none, some, [], ◌∷◌, ◌==◌, if◌then◌else◌, is_some, returned,
  threw,
}
use ryvan_os.Base.Map.{get}
use ryvan_os.Events.Bus.{RyvanEvent, RegisteredHandler, EventBus}

abbrev paid : RyvanEvent
paid = record {
  id = "evt";
  type = "paid";
  payload = "12";
  timestamp = 7;
  source = none;
  correlation_id = none;
  metadata = none;
}

abbrev handler : String → RegisteredHandler
handler id = record { id = id; filter = none; once = false }

abbrev bus : EventBus
bus = record {
  listeners = ("paid", handler "a" ∷ handler "b" ∷ handler "c" ∷ []) ∷ [];
  middlewares = [];
  history = [];
  dead_letters = [];
  max_listeners = 100;
  enable_dead_letters = true;
}

-- The handler "b" throws.
abbrev quiet : String → RyvanEvent → HandlerRun
quiet id event = record { commands = []; ends = if id == "b" then threw "down" else returned tt }

abbrev leaving : String → RyvanEvent → HandlerRun
leaving id event = record {
  commands = if id == "a" then unsubscribes "a" ∷ [] else [];
  ends = returned tt;
}

emit-ends_example : is_some (emit leaving paid bus) ≡ true
emit-ends_example = emit-ends leaving paid bus

dispatch-quiet_example :
    (after : EventBus) × (dispatch quiet paid bus ≡ some (after, "a" ∷ "b" ∷ "c" ∷ []))
unfolding get
dispatch-quiet_example = dispatch-quiet quiet paid bus (refl, (refl, (refl, tt)))

abbrev four : EventBus
four = record bus {
  listeners = ("paid", handler "a" ∷ handler "b" ∷ handler "c" ∷ handler "d" ∷ []) ∷ [];
}

abbrev second_leaves : String → RyvanEvent → HandlerRun
second_leaves id event = record {
  commands = if id == "b" then unsubscribes "b" ∷ [] else [];
  ends = returned tt;
}

unsubscribe_skips_example :
    (after : EventBus) × (dispatch second_leaves paid four ≡ some (after, "a" ∷ "b" ∷ "d" ∷ []))
unfolding get
unsubscribe_skips_example =
    unsubscribe_skips second_leaves paid four (handler "a" ∷ []) (handler "b") (handler "c")
      (handler "d" ∷ []) refl refl (refl, tt) refl refl (refl, tt) (refl, tt)

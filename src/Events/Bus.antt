-- ===== src/Events/Bus.antt =====
-- packages/events/src/event-bus.ts. What a handler subscribes and unsubscribes while it runs, and
-- how it ends, is a parameter; so is what a middleware does with an event. Payloads and metadata are
-- opaque texts.
pub mod Delivering
pub mod Passing
pub mod Changing
pub mod Ending
pub mod Tests
pub mod Dispatch
use ryvan_os.Base.{
  ℕ, String, Bool, true, false, ◌&&◌, ◌||◌, Option, none, some, List, [], ◌∷◌, ◌++◌, leb, ◌==◌,
  is_empty, quoted, if◌then◌else◌, or_default, option_case, opt_eq, length, keep_if, any, all,
  slice_last, Outcome, returned, threw, decimal,
}
use Prim.Native.String.{◌++◌ as append}
use ryvan_os.Base.Map.{Map, get, set, delete, has, keys}

pub record RyvanEvent : Type 0 where
  pub id : String
  pub type : String
  pub payload : String
  pub timestamp : ℕ
  pub source : Option String
  pub correlation_id : Option String
  pub metadata : Option (Map String)

pub record EventFilter : Type 0 where
  pub source : Option String
  pub correlation_id : Option String
  pub metadata : Option (Map String)

pub record RegisteredHandler : Type 0 where
  pub id : String
  pub filter : Option EventFilter
  pub once : Bool

pub record DeadLetterEntry : Type 0 where
  pub event : RyvanEvent
  pub error : String
  pub handler : String

-- Whether a middleware calls `next`, which it does at most once, or throws.
pub data Passage : Type 0 where
  lets_through holds_back : Passage
  fails : String → Passage

pub record EventBus : Type 0 where
  pub listeners : Map (List RegisteredHandler)
  pub middlewares : List (RyvanEvent → Passage)
  pub history : List RyvanEvent
  pub dead_letters : List DeadLetterEntry
  pub max_listeners : ℕ
  pub enable_dead_letters : Bool

abbrev pub default_history_limit : ℕ
default_history_limit = 1000

abbrev pub handlers_of : EventBus → String → List RegisteredHandler
handlers_of bus type = or_default (get bus.listeners type) []

abbrev pub put_handlers : EventBus → String → List RegisteredHandler → EventBus
put_handlers bus type hs = record bus { listeners = set bus.listeners type hs }

abbrev too_many : EventBus → String → String
too_many bus type =
    append "Max listeners ("
      (append (decimal bus.max_listeners) (append ") reached for event " (quoted type)))

-- `addHandler`, behind `on` and `once`; `id` is what `generateId` returns. When it throws, the type
-- has an entry all the same.
unfoldable pub add_handler :
    EventBus → String → String → Option EventFilter → Bool → EventBus × Outcome String
add_handler bus type id filter once =
    let known = if has bus.listeners type then bus else put_handlers bus type [] in
    let hs = handlers_of known type in
    if leb known.max_listeners (length hs) then (known, threw (too_many known type)) else (
      put_handlers known type (hs ++ (record { id = id; filter = filter; once = once }) ∷ []),
      returned id,
    )

abbrev pub is_registered : String → RegisteredHandler → Bool
is_registered id h = h.id == id

-- `handlers.splice(index, 1)` at the first handler with the id.
abbrev pub splice_out : String → List RegisteredHandler → List RegisteredHandler
splice_out id [] = []
splice_out id (h ∷ hs) = if is_registered id h then hs else h ∷ splice_out id hs

-- The first type with a handler of the id.
abbrev pub owner : Map (List RegisteredHandler) → String → Option String
owner [] id = none
owner ((type, hs) ∷ m) id = if any (is_registered id) hs then some type else owner m id

abbrev put_or_delete :
    Map (List RegisteredHandler) → String → List RegisteredHandler → Map (List RegisteredHandler)
put_or_delete m type [] = delete m type
put_or_delete m type (h ∷ hs) = set m type (h ∷ hs)

unfoldable pub off : EventBus → String → EventBus × Bool
off bus id =
    option_case (owner bus.listeners id) (bus, false)
      (λ type. (
        record bus {
          listeners = put_or_delete bus.listeners type (splice_out id (handlers_of bus type));
        },
        true,
      ))

unfoldable pub off_all : EventBus → Option String → EventBus
off_all bus none = record bus { listeners = [] }
off_all bus (some type) = record bus {
  listeners = if is_empty type then [] else delete bus.listeners type;
}

abbrev pub use_middleware : EventBus → (RyvanEvent → Passage) → EventBus
use_middleware bus middleware = record bus { middlewares = bus.middlewares ++ middleware ∷ [] }

abbrev pub listener_count : EventBus → String → ℕ
listener_count bus type = length (handlers_of bus type)

abbrev pub event_types : EventBus → List String
event_types bus = keys bus.listeners

-- `slice(-limit)`, which for a limit of 0 is everything.
unfoldable pub history_of : EventBus → Option String → ℕ → List RyvanEvent
history_of bus type limit = slice_last limit (
    option_case type bus.history
      (λ t. if is_empty t then bus.history else keep_if (λ e. e.type == t) bus.history))

abbrev pub dead_letters_of : EventBus → ℕ → List DeadLetterEntry
dead_letters_of bus limit = slice_last limit bus.dead_letters

unfoldable pub clear_bus : EventBus → EventBus
clear_bus bus = record bus { listeners = []; middlewares = []; history = []; dead_letters = [] }

-- A filter's text counts only if it is truthy.
abbrev text_matches : Option String → Option String → Bool
text_matches wanted value = option_case wanted true (λ w. is_empty w || opt_eq value (some w))

abbrev has_entry : Map String → String × String → Bool
has_entry metadata (k, v) = opt_eq (get metadata k) (some v)

abbrev metadata_matches : Option (Map String) → Option (Map String) → Bool
metadata_matches none value = true
metadata_matches (some wanted) none = false
metadata_matches (some wanted) (some value) = all (has_entry value) wanted

abbrev pub matches_filter : RyvanEvent → EventFilter → Bool
matches_filter event filter =
    text_matches filter.source event.source
    && text_matches filter.correlation_id event.correlation_id
    && metadata_matches filter.metadata event.metadata

abbrev pub wants : RyvanEvent → RegisteredHandler → Bool
wants event h = option_case h.filter true (λ f. matches_filter event f)

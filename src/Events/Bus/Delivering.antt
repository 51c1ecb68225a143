-- ===== src/Events/Bus/Delivering.antt =====
-- packages/events/src/event-bus.ts, `dispatch`: the handlers that an event reaches.
use ryvan_os.Events.Bus.Dispatch.{
  remove_all, enough_rounds, dispatch, HandlerRun, Dispatching, live_handlers, visit, dispatch_loop,
  log_error,
}
use ryvan_os.Base.{
  ℕ, zero, suc, ◌+◌, ◌≤◌, ◌<◌, String, ◌≡◌, refl, sym, ap, ◌∙◌, subst, inl, inr, Option, none, some,
  List, [], ◌∷◌, ◌++◌, map, append-nil, append_assoc, arith, if◌then◌else◌, or_default, Bool-cases,
  Option-cases, length, drop, keep_if, All, Outcome, returned, threw, get_elem?,
}
use ryvan_os.Base.Map.{has, Map, get}
use ryvan_os.Events.Bus.{handlers_of, RyvanEvent, RegisteredHandler, EventBus, wants}

module _ {ℓ} {A : Type ℓ} where
  get_elem?-none : (xs : List A) (i : ℕ) → get_elem? xs i ≡ none → drop i xs ≡ []
  get_elem?-none [] zero h = refl
  get_elem?-none [] (suc i) h = refl
  get_elem?-none (x ∷ xs) zero h = cc
  get_elem?-none (x ∷ xs) (suc i) h = get_elem?-none xs i h

  pub get_elem?-some :
      (xs : List A) (i : ℕ) {x : A}
      → get_elem? xs i ≡ some x
      → (drop i xs ≡ x ∷ drop (suc i) xs) × (i < length xs)
  get_elem?-some [] i h = cc
  get_elem?-some (y ∷ ys) zero {x} h = (ground arith, omega arith)
  get_elem?-some (y ∷ ys) (suc i) h = let (same, lt) = get_elem?-some ys i h in (same, omega arith)

-- The handlers of the list that want the event.
abbrev pub wanted_ids : RyvanEvent → List RegisteredHandler → List String
wanted_ids event hs = map (λ (h : RegisteredHandler). h.id) (keep_if (wants event) hs)

module _ (behave : String → RyvanEvent → HandlerRun) (event : RyvanEvent) where
  -- The handler does nothing to the bus.
  abbrev pub IsQuiet : RegisteredHandler → Type 0
  IsQuiet h = (behave h.id event).commands ≡ []

  pub log_error-handlers :
      (id type : String) (o : Outcome (Unit {0})) (bus : EventBus)
      → (log_error event id o bus).listeners ≡ bus.listeners
  log_error-handlers id type (returned ok) bus = refl
  log_error-handlers id type (threw e) bus = ground arith

  pub visit-quiet :
      (h : RegisteredHandler) (d : Dispatching)
      → IsQuiet h
      → (live_handlers event.type (visit behave event h d) ≡ live_handlers event.type d)
        × ((visit behave event h d).called ≡ d.called ++ (if wants event h then h.id ∷ [] else []))
  unfolding visit
  visit-quiet h d q = elim (Bool-cases (wants event h)) [
    | inr other ↦ rw (q, other) (refl, sym (append-nil d.called))
    | inl fits ↦
        rw (q, fits)
          (
            ap
                (λ (l : Map (List RegisteredHandler)).
                  if d.attached then or_default (get l event.type) [] else [])
                (log_error-handlers h.id event.type (behave h.id event).ends d.bus),
            refl,
          )
  ]

  loop_body : ℕ → ℕ → Dispatching → Option RegisteredHandler → Option Dispatching
  loop_body fuel i d none = some d
  loop_body fuel i d (some h) = dispatch_loop behave event fuel (suc i) (visit behave event h d)

  loop_unfolds :
      (fuel i : ℕ) (d : Dispatching)
      → dispatch_loop behave event (suc fuel) i d
        ≡ loop_body fuel i d (get_elem? (live_handlers event.type d) i)
  unfolding dispatch_loop loop_body
  loop_unfolds fuel i d = go (get_elem? (live_handlers event.type d) i)
    where
      go :
          (o : Option RegisteredHandler)
          → (elim o [
            | none ↦ some d
            | some h ↦ dispatch_loop behave event fuel (suc i) (visit behave event h d)
          ])
            ≡ loop_body fuel i d o
      go none = refl
      go (some h) = refl

  pub loop_stops :
      (fuel i : ℕ) (d : Dispatching)
      → get_elem? (live_handlers event.type d) i ≡ none
      → dispatch_loop behave event (suc fuel) i d ≡ some d
  unfolding loop_body
  loop_stops fuel i d h = loop_unfolds fuel i d ∙ ap (loop_body fuel i d) h

  pub loop_visits :
      (fuel i : ℕ) (d : Dispatching) {h : RegisteredHandler}
      → get_elem? (live_handlers event.type d) i ≡ some h
      → dispatch_loop behave event (suc fuel) i d
        ≡ dispatch_loop behave event fuel (suc i) (visit behave event h d)
  unfolding loop_body
  loop_visits fuel i d h = loop_unfolds fuel i d ∙ ap (loop_body fuel i d) h

  pub wanted_ids-cons :
      (h : RegisteredHandler) (hs : List RegisteredHandler) (called : List String)
      → (called ++ (if wants event h then h.id ∷ [] else [])) ++ wanted_ids event hs
        ≡ called ++ wanted_ids event (h ∷ hs)
  wanted_ids-cons h hs called = elim (Bool-cases (wants event h)) [
    | inl fits ↦ rw fits (append_assoc called (h.id ∷ []) (wanted_ids event hs))
    | inr other ↦ rw (other, append-nil called) refl
  ]

  pub loop-quiet :
      (fuel i : ℕ) (d : Dispatching) (hs : List RegisteredHandler)
      → live_handlers event.type d ≡ hs
      → All IsQuiet (drop i hs)
      → i ≤ length hs
      → length hs < i + fuel
      → (e : Dispatching) × (dispatch_loop behave event fuel i d ≡ some e)
        × (e.called ≡ d.called ++ wanted_ids event (drop i hs))
  loop-quiet zero i d hs l q le lt = absurd (omega arith)
  loop-quiet (suc fuel) i d hs l q le lt = elim (Option-cases (get_elem? hs i)) [
    | inl over ↦ (
      d,
      loop_stops fuel i d (ap (λ (x : List RegisteredHandler). get_elem? x i) l ∙ over),
      rw (get_elem?-none hs i over) (sym (append-nil d.called)),
    )
    | inr (h, found) ↦
        let (split, less) = get_elem?-some hs i found in
        let quiet : All IsQuiet (h ∷ drop (suc i) hs) = subst (All IsQuiet) split q in
        let (same, called) = visit-quiet h d quiet.0 in
        let (e, ran, all_called) =
          loop-quiet fuel (suc i) (visit behave event h d) hs (same ∙ l) quiet.1 (omega arith)
            (omega arith) in
        (
          e,
          loop_visits fuel i d (ap (λ (x : List RegisteredHandler). get_elem? x i) l ∙ found) ∙ ran,
          all_called
              ∙ ap (λ (c : List String). c ++ wanted_ids event (drop (suc i) hs)) called
              ∙ wanted_ids-cons h (drop (suc i) hs) d.called
              ∙ ap (λ (x : List RegisteredHandler). d.called ++ wanted_ids event x) (sym split),
        )
  ]

  pub live_at_start :
      (bus : EventBus)
      → (if has bus.listeners event.type then handlers_of bus event.type else [])
        ≡ handlers_of bus event.type
  live_at_start bus = elim (Option-cases (get bus.listeners event.type)) [
    | inl gone ↦ rw gone refl
    | inr (hs, found) ↦ rw found refl
  ]

  -- When no handler changes the bus while it runs, an event reaches exactly the handlers of its type
  -- whose filters it matches, in the order in which they subscribed, also past those that throw.
  pub dispatch-quiet :
      (bus : EventBus)
      → All IsQuiet (handlers_of bus event.type)
      → (after : EventBus) × (dispatch behave event bus
          ≡ some (after, wanted_ids event (handlers_of bus event.type)))
  unfolding dispatch
  dispatch-quiet bus q =
      let hs = handlers_of bus event.type in
      let first : Dispatching = record {
        bus = bus;
        attached = has bus.listeners event.type;
        to_remove = [];
        called = [];
      } in
      let (e, ran, called) =
        loop-quiet (enough_rounds behave event bus) 0 first hs (live_at_start bus) q (omega arith)
          (ground arith) in
      (remove_all behave event e.to_remove e.bus, rw (ran, called) refl)

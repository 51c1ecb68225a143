-- ===== src/Events/Bus/Passing.antt =====
-- packages/events/src/event-bus.ts, `dispatch`: the loop past handlers that leave the bus alone.
use ryvan_os.Events.Bus.Delivering.{
  get_elem?-some, loop_visits, visit-quiet, wanted_ids-cons, log_error-handlers, wanted_ids,
  IsQuiet,
}
use ryvan_os.Events.Bus.Dispatch.{HandlerRun, Dispatching, live_handlers, visit, dispatch_loop}
use ryvan_os.Events.Bus.{RyvanEvent, RegisteredHandler, wants}
use ryvan_os.Base.{
  ℕ, zero, suc, ◌+◌, ◌<◌, String, ◌≡◌, refl, sym, ap, ◌∙◌, inl, inr, some, List, [], ◌∷◌, ◌++◌,
  append-nil, arith, Bool-cases, length, drop, All, get_elem?,
}

drop_more {ℓ} :
    {A : Type ℓ} (i : ℕ) (xs : List A) {y : A} {ys : List A}
    → drop i xs ≡ y ∷ ys
    → (get_elem? xs i ≡ some y) × (drop (suc i) xs ≡ ys)
drop_more zero [] h = cc
drop_more (suc i) [] h = cc
drop_more zero (x ∷ xs) h = ground arith
drop_more (suc i) (x ∷ xs) h = drop_more i xs h

module _ (behave : String → RyvanEvent → HandlerRun) (event : RyvanEvent) where
  visit-same :
      (h : RegisteredHandler) (d : Dispatching)
      → IsQuiet behave event h
      → ((visit behave event h d).bus.listeners ≡ d.bus.listeners)
        × ((visit behave event h d).attached ≡ d.attached)
  unfolding visit
  visit-same h d q = elim (Bool-cases (wants event h)) [
    | inr other ↦ rw (q, other) (refl, refl)
    | inl fits ↦
        rw (q, fits)
          (log_error-handlers behave event h.id event.type (behave h.id event).ends d.bus, refl)
  ]

  -- The loop has gone past the handlers `qs`, and `left` rounds are left.
  pub record Past (fuel i : ℕ) (d : Dispatching) (qs : List RegisteredHandler) (rounds : ℕ)
      (e : Dispatching) (left : ℕ) : Type 0 where
    pub runs :
        dispatch_loop behave event fuel i d ≡ dispatch_loop behave event left (i + length qs) e
    pub same_listeners : e.bus.listeners ≡ d.bus.listeners
    pub same_attached : e.attached ≡ d.attached
    pub reached : e.called ≡ d.called ++ wanted_ids event qs
    pub enough : rounds < i + length qs + left

  pub loop-Past :
      (fuel i : ℕ) (d : Dispatching) (hs qs rest : List RegisteredHandler)
      → live_handlers event.type d ≡ hs
      → drop i hs ≡ qs ++ rest
      → All (IsQuiet behave event) qs
      → length hs < i + fuel
      → (e : Dispatching) × (left : ℕ) × Past fuel i d qs (length hs) e left
  loop-Past fuel i d hs [] rest l split quiet lt = (
    d,
    fuel,
    record {
      runs = ap (λ (n : ℕ). dispatch_loop behave event fuel n d) (omega arith);
      same_listeners = refl;
      same_attached = refl;
      reached = sym (append-nil d.called);
      enough = omega (arith, lt);
    },
  )
  loop-Past zero i d hs (q ∷ qs) rest l split quiet lt =
      let (found, _) = drop_more i hs split in
      let (_, less) = get_elem?-some hs i found in absurd (omega (arith, less, lt))
  loop-Past (suc fuel) i d hs (q ∷ qs) rest l split quiet lt =
      let (found, after) = drop_more i hs split in
      let (same, called) = visit-quiet behave event q d quiet.0 in
      let (listeners, attached) = visit-same q d quiet.0 in
      let (e, left, past) =
        loop-Past fuel (suc i) (visit behave event q d) hs qs rest (same ∙ l) after quiet.1
          (omega (arith, lt)) in
      (
        e,
        left,
        record {
          runs =
              loop_visits behave event fuel i d
                (ap (λ (x : List RegisteredHandler). get_elem? x i) l ∙ found)
              ∙ past.runs
              ∙ ap (λ (n : ℕ). dispatch_loop behave event left n e) (omega arith);
          same_listeners = past.same_listeners ∙ listeners;
          same_attached = past.same_attached ∙ attached;
          reached =
              past.reached
              ∙ ap (λ (c : List String). c ++ wanted_ids event qs) called
              ∙ wanted_ids-cons behave event q qs d.called;
          enough = (let e = past.enough in omega (arith, e));
        },
      )

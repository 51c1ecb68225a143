-- ===== src/Events/Bus/Changing.antt =====
-- packages/events/src/event-bus.ts, `dispatch`: handlers that change the bus while they run.
use ryvan_os.Events.Bus.Dispatch.{
  HandlerRun, unsubscribes, Dispatching, live_handlers, run_command, visit,
}
use ryvan_os.Events.Bus.Passing.{loop-Past}
use ryvan_os.Events.Bus.Delivering.{live_at_start, loop-quiet, loop_visits, wanted_ids}
use ryvan_os.Events.Bus.Dispatch.{dispatch, remove_all, dispatch_loop}
use ryvan_os.Base.{
  ℕ, zero, suc, ◌+◌, ◌<◌, max, String, ◌≡◌, refl, sym, ap, ◌∙◌, subst, inl, inr, Bool, true, false,
  ◌&&◌, some, List, [], ◌∷◌, ◌++◌, append_assoc, arith, if◌then◌else◌, or_default, Option-cases,
  eq_self, length, drop, length-append, All, get_elem?,
}
use ryvan_os.Base.Map.{get-set_same, Map, get, set, has}
use ryvan_os.Events.Bus.{
  splice_out, is_registered, put_or_delete, RyvanEvent, RegisteredHandler, EventBus, handlers_of,
  wants, owner, off,
}
use ryvan_os.Events.Bus.Delivering.{log_error-handlers, IsQuiet}

plus_one : (n : ℕ) → n + 1 ≡ suc n
plus_one n = omega arith

not_nil : (pre ys : List RegisteredHandler) (h : RegisteredHandler) → [] ≡ pre ++ h ∷ ys → ⊥
not_nil [] ys h e = cc
not_nil (g ∷ pre) ys h e = cc

some_round : (n : ℕ) → 0 < n → (m : ℕ) × (n ≡ suc m)
some_round zero lt = absurd (omega arith)
some_round (suc m) lt = (m, refl)

splice_past :
    (id : String) (pre ys : List RegisteredHandler) (h : RegisteredHandler)
    → All (λ g. is_registered id g ≡ false) pre
    → is_registered id h ≡ true
    → splice_out id (pre ++ h ∷ ys) ≡ pre ++ ys
splice_past id [] ys h a e = rw e refl
splice_past id (g ∷ pre) ys h a e =
    rw a.0 (ap (λ (l : List RegisteredHandler). g ∷ l) (splice_past id pre ys h a.1 e))

put_more :
    (m : Map (List RegisteredHandler)) (type : String) (pre ys : List RegisteredHandler)
    (k : RegisteredHandler)
    → put_or_delete m type (pre ++ k ∷ ys) ≡ set m type (pre ++ k ∷ ys)
put_more m type [] ys k = refl
put_more m type (g ∷ pre) ys k = refl

drop_past :
    (pre ys : List RegisteredHandler) (k : RegisteredHandler)
    → drop (suc (length pre)) (pre ++ k ∷ ys) ≡ ys
drop_past [] ys k = refl
drop_past (g ∷ pre) ys k = drop_past pre ys k

find_past :
    (pre ys : List RegisteredHandler) (h : RegisteredHandler)
    → get_elem? (pre ++ h ∷ ys) (length pre) ≡ some h
find_past [] ys h = refl
find_past (g ∷ pre) ys h = find_past pre ys h

module _ (behave : String → RyvanEvent → HandlerRun) (event : RyvanEvent) (bus : EventBus)
    (before : List RegisteredHandler) (h k : RegisteredHandler) (rest : List RegisteredHandler)
    (stored : handlers_of bus event.type ≡ before ++ h ∷ k ∷ rest)
    (owned : owner bus.listeners h.id ≡ some event.type)
    (distinct : All (λ g. is_registered h.id g ≡ false) before)
    (leaves : (behave h.id event).commands ≡ unsubscribes h.id ∷ []) (fits : wants event h ≡ true)
    (quiet_before : All (IsQuiet behave event) before)
    (quiet : All (IsQuiet behave event) rest) where
  abbrev first : Dispatching
  first = record { bus = bus; attached = has bus.listeners event.type; to_remove = []; called = [] }

  is_attached : has bus.listeners event.type ≡ true
  is_attached = elim (Option-cases (get bus.listeners event.type)) [
    | inl gone ↦ elim (not_nil before (k ∷ rest) h (rw gone at stored)) [ ]
    | inr (hs, found) ↦ rw found refl
  ]

  off_past :
      (d : Dispatching)
      → d.bus.listeners ≡ bus.listeners
      → (off d.bus h.id).0.listeners ≡ set bus.listeners event.type (before ++ k ∷ rest)
  unfolding off
  off_past d same =
      rw (same, owned, stored, splice_past h.id before (k ∷ rest) h distinct (eq_self h.id))
        (put_more bus.listeners event.type before rest k)

  after_leaving :
      (d : Dispatching)
      → d.bus.listeners ≡ bus.listeners
      → d.attached ≡ has bus.listeners event.type
      → (live_handlers event.type (visit behave event h d) ≡ before ++ k ∷ rest)
        × ((visit behave event h d).called ≡ d.called ++ h.id ∷ [])
  unfolding visit run_command
  after_leaving d same attached =
      let ends = (behave h.id event).ends in
      let bus1 = (off d.bus h.id).0 in
      rw (leaves, fits)
        (
          ap
                (λ (m : Map (List RegisteredHandler)).
                  if d.attached && has bus1.listeners event.type
                  then or_default (get m event.type) []
                  else [])
                (log_error-handlers behave event h.id event.type ends bus1)
              ∙ rw
                  (
                    attached,
                    is_attached,
                    off_past d same,
                    get-set_same bus.listeners event.type (before ++ k ∷ rest),
                  )
                  refl,
          refl,
        )

  live_past :
      (e : Dispatching)
      → e.bus.listeners ≡ bus.listeners
      → e.attached ≡ has bus.listeners event.type
      → live_handlers event.type e ≡ before ++ h ∷ k ∷ rest
  live_past e same attached =
      ap (λ (b : Bool). if b then or_default (get e.bus.listeners event.type) [] else []) attached
      ∙ ap
          (λ (m : Map (List RegisteredHandler)).
            if has bus.listeners event.type then or_default (get m event.type) [] else [])
          same
      ∙ live_at_start behave event bus
      ∙ stored

  -- The loop from the handler that leaves, to its end.
  loop_leaves :
      (e : Dispatching) (left : ℕ)
      → e.bus.listeners ≡ bus.listeners
      → e.attached ≡ has bus.listeners event.type
      → length (before ++ h ∷ k ∷ rest) < length before + left
      → (f : Dispatching) × (dispatch_loop behave event left (length before) e ≡ some f)
        × (f.called ≡ (e.called ++ h.id ∷ []) ++ wanted_ids event rest)
  loop_leaves e left same attached enough =
      let all_of = length-append before (h ∷ k ∷ rest) in
      let fewer = length-append before (k ∷ rest) in
      let (m, more) = some_round left (omega (arith, enough, all_of)) in
      let (live, called) = after_leaving e same attached in
      let i = length before in
      let split = drop_past before rest k in
      let (f, ran, all_called) =
        loop-quiet behave event m (suc i) (visit behave event h e) (before ++ k ∷ rest) live
          (subst (All (IsQuiet behave event)) (sym split) quiet) (omega (arith, fewer))
          (omega (arith, fewer, all_of, enough, more)) in
      (
        f,
        ap (λ (n : ℕ). dispatch_loop behave event n i e) more
            ∙ loop_visits behave event m i e (
                ap (λ (x : List RegisteredHandler). get_elem? x i) (live_past e same attached)
                ∙ find_past before (k ∷ rest) h)
            ∙ ran,
        all_called
            ∙ ap (λ (c : List String). c ++ wanted_ids event (drop (suc i) (before ++ k ∷ rest)))
                called
            ∙ ap (λ (x : List RegisteredHandler). (e.called ++ h.id ∷ []) ++ wanted_ids event x)
                split,
      )

  -- Let the handlers of the event's type be some that leave the bus alone, then one that wants the
  -- event and does one thing to the bus while it runs, which is to unsubscribe itself, then one more,
  -- and then again some that leave the bus alone. The id of the one that leaves is registered for
  -- the event's type first, and none before it has that id. Then the loop passes over the handler
  -- next to it, whatever it wants: the event reaches those of the others that want it, in order.
  pub unsubscribe_skips :
      (after : EventBus) × (dispatch behave event bus
        ≡ some (after, wanted_ids event before ++ h.id ∷ wanted_ids event rest))
  unfolding dispatch
  unsubscribe_skips =
      let rounds : ℕ = max bus.max_listeners (length (handlers_of bus event.type)) + 1 in
      let start : live_handlers event.type first ≡ before ++ h ∷ k ∷ rest =
        live_at_start behave event bus ∙ stored in
      let lengths : length (handlers_of bus event.type) ≡ length (before ++ h ∷ k ∷ rest) =
        ap length stored in
      let (e, left, past) =
        loop-Past behave event rounds 0 first (before ++ h ∷ k ∷ rest) before (h ∷ k ∷ rest) start
          refl quiet_before (ground arith) in
      let (f, ran, called) =
        loop_leaves e left past.same_listeners past.same_attached
          (let n = past.enough in omega (arith, n)) in
      let at_leaving : dispatch_loop behave event left (0 + length before) e ≡ some f =
        ap (λ (n : ℕ). dispatch_loop behave event left n e) (omega arith) ∙ ran in
      let all_rounds : dispatch_loop behave event rounds 0 first ≡ some f =
        past.runs ∙ at_leaving in
      let all_called : f.called ≡ wanted_ids event before ++ h.id ∷ wanted_ids event rest =
        called
        ∙ ap (λ (c : List String). (c ++ h.id ∷ []) ++ wanted_ids event rest) past.reached
        ∙ append_assoc (wanted_ids event before) (h.id ∷ []) (wanted_ids event rest) in
      (remove_all behave event f.to_remove f.bus, rw (all_rounds, all_called) refl)

-- ===== src/Storage/KeyValue/Expiry.antt =====
-- packages/storage/src/memory.ts: an entry past its time counts as one that was never set.
use ryvan_os.Storage.KeyValue.{
  counted, was_set, deleted, sets, increments, deletes, looked, looks_for, value_of, got, gets,
  set_value, increment, Answer, has_key, Op, get_value, answers, perform, Expiring, is_expired,
  read_entry,
}
use ryvan_os.Base.Map.{get-set, get-delete, Map, get, set, delete}
use ryvan_os.Base.{
  ℕ, ◌+◌, String, ◌≡◌, refl, sym, ap, ◌∙◌, inl, inr, true, Option, none, some, List, [], ◌∷◌, map,
  arith, eq_iff, leb, ◌==◌, is_empty, if◌then◌else◌, is_some, option_case, Bool-cases, Option-cases,
}

-- The entry that is there at a time.
abbrev pub live : Option Expiring → ℕ → Option Expiring
live entry now = option_case entry none (λ e. if is_expired e now then none else some e)

abbrev pub view : Map Expiring → ℕ → String → Option Expiring
view entries now key = live (get entries key) now

-- The stores hold the same but for what has expired.
abbrev pub Same : ℕ → Map Expiring → Map Expiring → Type 0
Same now s t = (key : String) → view s now key ≡ view t now key

live-later :
    (entry : Option Expiring) (now wait : ℕ)
    → live (live entry now) (now + wait) ≡ live entry (now + wait)
live-later none now wait = refl
live-later (some e) now wait = go e.expires_at refl
  where
    go :
        (t : Option ℕ)
        → e.expires_at ≡ t
        → live (live (some e) now) (now + wait) ≡ live (some e) (now + wait)
    go none q = rw q refl
    go (some d) q = elim (Bool-cases (leb d now)) [
      | inl over ↦ let later : leb d (now + wait) ≡ true = ground arith in rw (q, over, later) refl
      | inr going ↦ rw (q, going) refl
    ]

Same-later : (now wait : ℕ) (s t : Map Expiring) → Same now s t → Same (now + wait) s t
Same-later now wait s t h key =
    sym (live-later (get s key) now wait)
    ∙ ap (λ (e : Option Expiring). live e (now + wait)) (h key)
    ∙ live-later (get t key) now wait

read_entry-view :
    (s : Map Expiring) (key : String) (now : ℕ) → (read_entry s key now).1 ≡ view s now key
unfolding read_entry
read_entry-view s key now = elim (Option-cases (get s key)) [
  | inl missing ↦ rw missing refl
  | inr (e, found) ↦ elim (Bool-cases (is_expired e now)) [
    | inl over ↦ rw (found, over) refl
    | inr going ↦ rw (found, going) refl
  ]
]

set-view :
    (s : Map Expiring) (key j : String) (e : Expiring) (now : ℕ)
    → view (set s key e) now j ≡ (if key == j then live (some e) now else view s now j)
set-view s key j e now =
    rw (get-set s key j e)
      (elim (Bool-cases (key == j)) [ inl same ↦ rw same refl | inr other ↦ rw other refl ])

delete-view :
    (s : Map Expiring) (key j : String) (now : ℕ)
    → view (delete s key) now j ≡ (if key == j then none else view s now j)
delete-view s key j now =
    rw (get-delete s key j)
      (elim (Bool-cases (key == j)) [ inl same ↦ rw same refl | inr other ↦ rw other refl ])

read_entry-Same : (s : Map Expiring) (key : String) (now : ℕ) → Same now (read_entry s key now).0 s
unfolding read_entry
read_entry-Same s key now j = elim (Option-cases (get s key)) [
  | inl missing ↦ rw missing refl
  | inr (e, found) ↦ elim (Bool-cases (is_expired e now)) [
    | inr going ↦ rw (found, going) refl
    | inl over ↦
        rw (found, over)
          (delete-view s key j now ∙ elim (Bool-cases (key == j)) [
            | inr other ↦ rw other refl
            | inl same ↦
                let at_j : key ≡ j = ground (arith, eq_iff key j) in
                rw same (
                  sym (
                    ap (λ (x : Option Expiring). live x now) (ap (get s) (sym at_j) ∙ found)
                    ∙ rw over refl))
          ])
  ]
]

-- An answer without what a deletion tells.
abbrev pub but_deletion : Answer → Answer
but_deletion (deleted b) = deleted true
but_deletion (got v) = got v
but_deletion (was_set r) = was_set r
but_deletion (looked b) = looked b
but_deletion (counted n) = counted n

-- The two runs of an operation give the same answer, on stores that are the same again.
record Agree (now : ℕ) {A : Type 0} (x y : Map Expiring × A) : Type 0 where
  stores : Same now x.0 y.0
  answer : x.1 ≡ y.1

module _ (now : ℕ) (s t : Map Expiring) (h : Same now s t) (key : String) where
  read-Agree : Agree now (read_entry s key now) (read_entry t key now)
  read-Agree = record {
    stores = λ j. read_entry-Same s key now j ∙ h j ∙ sym (read_entry-Same t key now j);
    answer = read_entry-view s key now ∙ h key ∙ sym (read_entry-view t key now);
  }

set-Same :
    (now : ℕ) (s t : Map Expiring) (key : String) (e : Expiring)
    → Same now s t
    → Same now (set s key e) (set t key e)
set-Same now s t key e h j =
    set-view s key j e now
    ∙ ap (λ (x : Option Expiring). if key == j then live (some e) now else x) (h j)
    ∙ sym (set-view t key j e now)

delete-Same :
    (now : ℕ) (s t : Map Expiring) (key : String)
    → Same now s t
    → Same now (delete s key) (delete t key)
delete-Same now s t key h j =
    delete-view s key j now
    ∙ ap (λ (x : Option Expiring). if key == j then none else x) (h j)
    ∙ sym (delete-view t key j now)

abbrev performed : Map Expiring → Op → ℕ → Map Expiring × Answer
performed s op now = let (after, answer) = perform s op now in (after, but_deletion answer)

perform-Agree :
    (op : Op) (now : ℕ) (s t : Map Expiring)
    → Same now s t
    → Agree now (performed s op now) (performed t op now)
unfolding perform get_value has_key increment set_value
perform-Agree (gets key) now s t h =
    let r = read-Agree now s t h key in
    record { stores = r.stores; answer = ap (λ (e : Option Expiring). got (value_of e)) r.answer }
perform-Agree (looks_for key) now s t h =
    let r = read-Agree now s t h key in
    record { stores = r.stores; answer = ap (λ (e : Option Expiring). looked (is_some e)) r.answer }
perform-Agree (deletes key) now s t h = record { stores = delete-Same now s t key h; answer = refl }
perform-Agree (increments key by ttl_ms) now s t h =
    let r = read-Agree now s t h key in
    rw r.answer (record { stores = set-Same now _ _ key _ r.stores; answer = refl })
perform-Agree (sets key value options) now s t h = elim (Bool-cases (is_empty key)) [
  | inl blank ↦ rw blank (record { stores = h; answer = refl })
  | inr full ↦ elim (Bool-cases options.if_not_exists) [
    | inr any_way ↦ rw (full, any_way) (record { stores = set-Same now s t key _ h; answer = refl })
    | inl once ↦
        let r = read-Agree now s t h key in
        rw (full, once, r.answer)
          (elim (Option-cases (read_entry t key now).1) [
            | inl missing ↦
                rw missing (record { stores = set-Same now _ _ key _ r.stores; answer = refl })
            | inr (e, found) ↦ rw found (record { stores = r.stores; answer = refl })
          ])
  ]
]

-- Two stores that hold the same but for what has expired give the same answers ever after,
-- whatever is read, looked for, set, incremented and deleted, and at whatever times: except that a
-- deletion may tell them apart by whether it found something.
pub answers-Same :
    (ops : List (ℕ × Op)) (now : ℕ) (s t : Map Expiring)
    → Same now s t
    → map but_deletion (answers ops now s) ≡ map but_deletion (answers ops now t)
unfolding answers
answers-Same [] now s t h = refl
answers-Same ((wait, op) ∷ ops) now s t h =
    let r = perform-Agree op (now + wait) s t (Same-later now wait s t h) in
    ap
      (λ (a : Answer).
        a ∷ map but_deletion (answers ops (now + wait) (perform s op (now + wait)).0))
      r.answer
    ∙ ap (λ (l : List Answer). but_deletion (perform t op (now + wait)).1 ∷ l)
        (answers-Same ops (now + wait) _ _ r.stores)

-- ===== src/Policy/Approvals/Deciding.antt =====
-- packages/policy-engine/src/approvals.ts: what an approval can become.
use ryvan_os.Base.Map.{get, get-set_same}
use ryvan_os.Policy.Approvals.{
  lapse, decision_status, is_open, ApprovalRequest, Decision, Requests, decide_approval,
  expire_if_lapsed, read, decide_request,
}
use ryvan_os.Base.{
  ℕ, String, ◌≡◌, refl, inl, inr, Bool, true, false, not, ◌&&◌, Option, some, arith, ltb, is_empty,
  if◌then◌else◌, Bool-cases, Option-cases, Error, validation_error, conflict_error, Result, throws,
  returns,
}

abbrev pub has_returned {ℓ} : {A : Type ℓ} → Result A → Bool
has_returned (returns a) = true
has_returned (throws e) = false

abbrev pub decidable : ApprovalRequest → String → ℕ → Bool
decidable request by now = not (is_empty by) && is_open request.status && ltb now request.expires_at

abbrev pub decided_as : ApprovalRequest → Decision → String → Option String → ℕ → ApprovalRequest
decided_as request decision by remark now = record request {
  status = decision_status decision;
  decided_at = some now;
  decided_by = some by;
  decision_note = remark;
}

pub read_lem :
    (requests : Requests) (id : String) (now : ℕ) (request : ApprovalRequest)
    → get requests id ≡ some request
    → ((read requests id now).1 ≡ some (lapse request now))
      × (get (read requests id now).0 id ≡ some (lapse request now))
unfolding read
read_lem requests id now request e = elim (Option-cases (expire_if_lapsed request now)) [
  | inl kept ↦ rw (e, kept) (refl, e)
  | inr (late, lapsed) ↦ rw (e, lapsed) (refl, get-set_same requests id late)
]

decide_approval_lem :
    (request : ApprovalRequest) (decision : Decision) (by : String) (remark : Option String)
    (now : ℕ)
    → (b : Bool) → decidable request by now ≡ b
    → let r = decide_approval (lapse request now) decision by remark now in
      if b
      then r ≡ returns (decided_as request decision by remark now)
      else ((e : Error) × (r ≡ throws e))
unfolding decide_approval expire_if_lapsed
decide_approval_lem request decision by remark now true h =
    let named : is_empty by ≡ false = ground arith in
    let waits : is_open request.status ≡ true = ground arith in
    let early : ltb now request.expires_at ≡ true = ground arith in
    let same : lapse request now ≡ request = rw (waits, early) refl in rw (same, named, waits) refl
decide_approval_lem request decision by remark now false h = elim (Bool-cases (is_empty by)) [
  | inl nobody ↦ rw nobody (validation_error "decidedBy", refl)
  | inr somebody ↦
      let closed : is_open (lapse request now).status ≡ false = ground (arith, h, somebody) in
      rw somebody (conflict_error "ApprovalRequest", rw closed refl)
]

-- A decision on a known approval goes through exactly when it is pending, has not reached its
-- deadline and someone is named as deciding; only then is the decision stored, and otherwise the
-- approval is as it was, expired if it has lapsed.
pub decide_request_lem :
    (requests : Requests) (id : String) (decision : Decision) (by : String) (remark : Option String)
    (now : ℕ) (request : ApprovalRequest)
    → get requests id ≡ some request
    → let r = decide_request requests id decision by remark now in
      (has_returned r.1 ≡ decidable request by now)
      × (get r.0 id
          ≡ some (
              if decidable request by now
              then decided_as request decision by remark now
              else lapse request now))
unfolding decide_request
decide_request_lem requests id decision by remark now request e =
    let (found, stored) = read_lem requests id now request e in
    elim (Bool-cases (decidable request by now)) [
      | inl allowed ↦
          let made : decide_approval (lapse request now) decision by remark now
              ≡ returns (decided_as request decision by remark now) =
            decide_approval_lem request decision by remark now true allowed in
          rw (found, made, allowed) (refl, get-set_same _ _ _)
      | inr refused ↦
          let (error, made) : (e : Error) × (decide_approval (lapse request now) decision by remark
                  now
                ≡ throws e) =
            decide_approval_lem request decision by remark now false refused in
          rw (found, made, refused) (refl, stored)
    ]

-- ===== src/Policy/Approvals.antt =====
-- packages/policy-engine/src/approvals.ts: approvals that are raised, decided and expire.
pub mod Deciding
use ryvan_os.Policy.Types.{PolicySubject}
use ryvan_os.Base.Map.{get, values, set, Map, keys}
use ryvan_os.Base.{
  ℕ, ◌+◌, ◌*◌, String, Bool, true, false, not, ◌||◌, Option, none, some, List, [], ◌∷◌, ltb,
  is_empty, if◌then◌else◌, or_default, option_case, keep_if, all, validation_error, conflict_error,
  not_found_error, Result, throws, returns, ◌>>=◌, ◌>>◌, throw_if,
}

pub data ApprovalStatus : Type 0 where
  pending granted denied expired : ApprovalStatus

pub record ApprovalRequest : Type 0 where
  pub id : String
  pub action : String
  pub resource : Option String
  pub subject : PolicySubject
  pub reason : String
  pub status : ApprovalStatus
  pub requested_at : ℕ
  pub expires_at : ℕ
  pub decided_at : Option ℕ
  pub decided_by : Option String
  pub decision_note : Option String

pub record RaiseApprovalInput : Type 0 where
  pub action : String
  pub resource : Option String
  pub subject : PolicySubject
  pub reason : String
  pub ttl_ms : Option ℕ

abbrev pub default_ttl_ms : ℕ
default_ttl_ms = 24 * 60 * 60 * 1000

abbrev pub status_eq : ApprovalStatus → ApprovalStatus → Bool
status_eq ApprovalStatus.pending ApprovalStatus.pending = true
status_eq ApprovalStatus.granted ApprovalStatus.granted = true
status_eq ApprovalStatus.denied ApprovalStatus.denied = true
status_eq ApprovalStatus.expired ApprovalStatus.expired = true
status_eq _ _ = false

abbrev pub is_open : ApprovalStatus → Bool
is_open = status_eq ApprovalStatus.pending

-- `id` is what `generateId` returns.
unfoldable pub build_approval : RaiseApprovalInput → ℕ → String → ℕ → Result ApprovalRequest
build_approval input default_ttl id now =
    throw_if (is_empty input.action) (validation_error "action")
    >> throw_if (is_empty input.reason) (validation_error "reason")
    >> returns (record {
      id = id;
      action = input.action;
      resource = input.resource;
      subject = input.subject;
      reason = input.reason;
      status = ApprovalStatus.pending;
      requested_at = now;
      expires_at = now + or_default input.ttl_ms default_ttl;
      decided_at = none;
      decided_by = none;
      decision_note = none;
    })

pub data Decision : Type 0 where
  grants denies : Decision

abbrev pub decision_status : Decision → ApprovalStatus
decision_status grants = ApprovalStatus.granted
decision_status denies = ApprovalStatus.denied

unfoldable pub decide_approval :
    ApprovalRequest → Decision → String → Option String → ℕ → Result ApprovalRequest
decide_approval request decision decided_by note now =
    throw_if (is_empty decided_by) (validation_error "decidedBy")
    >> throw_if (not (is_open request.status)) (conflict_error "ApprovalRequest")
    >> returns (record request {
      status = decision_status decision;
      decided_at = some now;
      decided_by = some decided_by;
      decision_note = note;
    })

unfoldable pub expire_if_lapsed : ApprovalRequest → ℕ → Option ApprovalRequest
expire_if_lapsed request now =
    if not (is_open request.status) || ltb now request.expires_at
    then none
    else some (record request { status = ApprovalStatus.expired; decided_at = some now })

-- The requests of an `InMemoryApprovalStore`.
abbrev pub Requests : Type 0
Requests = Map ApprovalRequest

abbrev pub lapse : ApprovalRequest → ℕ → ApprovalRequest
lapse request now = or_default (expire_if_lapsed request now) request

unfoldable pub raise :
    Requests → RaiseApprovalInput → ℕ → String → ℕ → Result (Requests × ApprovalRequest)
raise requests input default_ttl id now = build_approval input default_ttl id now >>= λ request.
    returns (set requests request.id request, request)

-- `get` writes an expiry back.
unfoldable pub read : Requests → String → ℕ → Requests × Option ApprovalRequest
read requests id now =
    option_case (get requests id) (requests, none)
      (λ request.
        option_case (expire_if_lapsed request now) (requests, some request)
          (λ expired. (set requests id expired, some expired)))

abbrev pub store_decision :
    Requests → String → Result ApprovalRequest → Requests × Result ApprovalRequest
store_decision requests id (throws e) = (requests, throws e)
store_decision requests id (returns decided) = (set requests id decided, returns decided)

-- The requests as they are after the call, whether it throws or not.
unfoldable pub decide_request :
    Requests → String → Decision → String → Option String → ℕ → Requests × Result ApprovalRequest
decide_request requests id decision decided_by remark now =
    let (after, found) = read requests id now in
    option_case found (after, throws (not_found_error "ApprovalRequest" id))
      (λ request. store_decision after id (decide_approval request decision decided_by remark now))

-- The loop of `list` over the keys.
abbrev read_all : Requests → List String → ℕ → Requests × List ApprovalRequest
read_all requests [] now = (requests, [])
read_all requests (id ∷ ids) now =
    let (after, found) = read requests id now in
    let (last, rest) = read_all after ids now in
    (last, option_case found rest (λ request. request ∷ rest))

unfoldable pub list_requests :
    Requests → Option ApprovalStatus → ℕ → Requests × List ApprovalRequest
list_requests requests status now =
    let (after, all) = read_all requests (keys requests) now in
    (after, option_case status all (λ s. keep_if (λ r. status_eq s r.status) all))

abbrev pub pending_requests : Requests → ℕ → Requests × List ApprovalRequest
pending_requests requests now = list_requests requests (some ApprovalStatus.pending) now

-- The loop of `expireStale` over the values at its start.
abbrev sweep : Requests → List ApprovalRequest → ℕ → Requests × List ApprovalRequest
sweep requests [] now = (requests, [])
sweep requests (request ∷ rest) now =
    option_case (expire_if_lapsed request now) (sweep requests rest now) (λ lapsed.
      let (after, swept) = sweep (set requests lapsed.id lapsed) rest now in
      (after, lapsed ∷ swept))

unfoldable pub expire_stale : Requests → ℕ → Requests × List ApprovalRequest
expire_stale requests now = sweep requests (values requests) now

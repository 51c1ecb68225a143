-- ===== src/Audit/Store.antt =====
-- packages/audit/src/store.ts: the ledger's entries in memory, oldest first.
use ryvan_os.Common.Range.{apply_range, RangeOptions}
use ryvan_os.Audit.Types.{AuditOutcome, AuditFilter, AuditEntry}
use ryvan_os.Base.{
  String, Bool, true, false, Option, none, some, List, [], ◌∷◌, ◌++◌, is_empty, if◌then◌else◌,
  option_case, opt_eq, keep_if, last?,
}

abbrev pub outcome_eq : AuditOutcome → AuditOutcome → Bool
outcome_eq AuditOutcome.success AuditOutcome.success = true
outcome_eq AuditOutcome.failure AuditOutcome.failure = true
outcome_eq AuditOutcome.denied AuditOutcome.denied = true
outcome_eq AuditOutcome.pending AuditOutcome.pending = true
outcome_eq _ _ = false

abbrev pub store_append : List AuditEntry → AuditEntry → List AuditEntry
store_append entries entry = entries ++ entry ∷ []

abbrev pub store_last : List AuditEntry → Option AuditEntry
store_last entries = last? entries

-- `if (filter.field) results = results.filter((e) => field(e) === filter.field)`.
abbrev by_text : Option String → (AuditEntry → Option String) → List AuditEntry → List AuditEntry
by_text wanted field entries =
    option_case wanted entries
      (λ w. if is_empty w then entries else keep_if (λ e. opt_eq (field e) (some w)) entries)

abbrev by_outcome : Option AuditOutcome → List AuditEntry → List AuditEntry
by_outcome none entries = entries
by_outcome (some o) entries = keep_if (λ e. outcome_eq e.content.outcome o) entries

abbrev pub range_of : AuditFilter → RangeOptions
range_of f = record { since = f.since; until = f.until; limit = f.limit }

unfoldable pub store_query : List AuditEntry → Option AuditFilter → List AuditEntry
store_query entries none = entries
store_query entries (some f) =
    let acted = by_text f.action (λ e. some e.content.action) entries in
    let in_org = by_text f.org_id (λ e. e.content.actor.org_id) acted in
    let by_user = by_text f.user_id (λ e. e.content.actor.user_id) in_org in
    let by_agent = by_text f.agent_id (λ e. e.content.actor.agent_id) by_user in
    let correlated = by_text f.correlation_id (λ e. e.content.correlation_id) by_agent in
    apply_range (λ e. e.content.timestamp) (by_outcome f.outcome correlated) (some (range_of f))

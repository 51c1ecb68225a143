-- ===== src/Audit/Ledger.antt =====
-- packages/audit/src/ledger.ts: appending to the chain and checking it. Appends are serialised by
-- the ledger, so they are calls one after the other. The hash is a parameter.
pub mod Chain
pub mod Tampering
use ryvan_os.Audit.Store.{store_last, store_append, store_query}
use ryvan_os.Audit.Types.{
  AuditOutcome, AuditVerification, AppendAuditInput, AuditEntry, AuditActor, AuditContent,
}
use ryvan_os.Base.{
  ℕ, ◌+◌, String, Bool, not, ◌||◌, none, some, List, [], ◌∷◌, nat_eq, ◌==◌, is_empty, if◌then◌else◌,
  or_default, option_case, length, all, validation_error, Result, throws, returns,
}

abbrev system_actor : AuditActor
system_actor = record {
  user_id = none;
  agent_id = none;
  org_id = none;
  project_id = none;
  kind = some "system";
}

module _ (hash_entry : AuditContent → String) where
  -- `id` is what `generateId` returns.
  unfoldable pub next_entry : List AuditEntry → AppendAuditInput → String → ℕ → AuditEntry
  next_entry entries input id now =
      let previous = store_last entries in
      let content : AuditContent = record {
        id = id;
        sequence = option_case previous 0 (λ e. e.content.sequence) + 1;
        timestamp = now;
        actor = or_default input.actor system_actor;
        action = input.action;
        resource = input.resource;
        outcome = or_default input.outcome AuditOutcome.success;
        correlation_id = input.correlation_id;
        details = input.details;
        previous_hash = option_case previous "" (λ e. e.hash);
      } in
      record { content = content; hash = hash_entry content }

  unfoldable pub append :
      List AuditEntry → AppendAuditInput → String → ℕ → List AuditEntry × Result AuditEntry
  append entries input id now =
      let entry = next_entry entries input id now in
      if is_empty input.action
      then (entries, throws (validation_error "action"))
      else (store_append entries entry, returns entry)

  abbrev pub is_broken : String → AuditEntry → Bool
  is_broken previous e =
      not (e.content.previous_hash == previous) || not (hash_entry e.content == e.hash)

  -- The loop of `verify`.
  unfoldable pub broken_from : String → List AuditEntry → List ℕ
  broken_from previous [] = []
  broken_from previous (e ∷ es) =
      let rest = broken_from e.hash es in
      if is_broken previous e then e.content.sequence ∷ rest else rest

  unfoldable pub verify : List AuditEntry → AuditVerification
  verify entries =
      let all = store_query entries none in
      let broken = broken_from "" all in
      record { valid = nat_eq (length broken) 0; entry_count = length all; broken_at = broken }

  -- Appends one after the other: what is recorded, the id and the time.
  unfoldable pub append_all :
      List AuditEntry → List (AppendAuditInput × String × ℕ) → List AuditEntry
  append_all entries [] = entries
  append_all entries ((input, id, now) ∷ rest) = append_all (append entries input id now).0 rest

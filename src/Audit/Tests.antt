-- ===== src/Audit/Tests.antt =====
-- Ledgers of two entries, under a hash that can be computed.
use ryvan_os.Audit.Ledger.Tampering.{altered_detected}
use ryvan_os.Audit.Store.{store_query}
use ryvan_os.Audit.Ledger.{broken_from, append_all, verify}
use ryvan_os.Audit.Types.{AuditOutcome, AuditEntry, AuditContent, AppendAuditInput}
use Prim.Native.String.{◌++◌ as join}
use ryvan_os.Audit.Ledger.Chain.{append_all-IsLedger, verify_iff, Numbered, Chained, chain_end}
use ryvan_os.Base.{ℕ, String, ◌≡◌, refl, ◌↔◌, true, false, none, some, List, [], ◌∷◌}

abbrev toy_hash : AuditContent → String
toy_hash c = join c.action (join "/" c.previous_hash)

abbrev input : String → AppendAuditInput
input action = record {
  actor = none;
  action = action;
  resource = none;
  outcome = none;
  correlation_id = none;
  details = none;
}

abbrev inputs : List (AppendAuditInput × String × ℕ)
inputs = (input "login", "aud-1", 10) ∷ (input "export", "aud-2", 11) ∷ []

abbrev entry : ℕ → String → String → AuditEntry
entry n action previous =
    let content : AuditContent = record {
      id = "aud";
      sequence = n;
      timestamp = 10;
      actor = record {
        user_id = none;
        agent_id = none;
        org_id = none;
        project_id = none;
        kind = some "system";
      };
      action = action;
      resource = none;
      outcome = AuditOutcome.success;
      correlation_id = none;
      details = none;
      previous_hash = previous;
    } in
    record { content = content; hash = toy_hash content }

abbrev login : AuditEntry
login = entry 1 "login" ""

abbrev export : AuditEntry
export = entry 2 "export" "login/"

verify_iff_example :
    ((verify toy_hash (login ∷ export ∷ [])).valid ≡ true)
    ↔ Chained toy_hash "" (login ∷ export ∷ [])
verify_iff_example = verify_iff toy_hash (login ∷ export ∷ [])

append_all-IsLedger_example :
    ((verify toy_hash (append_all toy_hash [] inputs)).valid ≡ true)
    × Numbered toy_hash 0 (append_all toy_hash [] inputs)
append_all-IsLedger_example =
    append_all-IsLedger toy_hash [] inputs (record { chained = chain_end; numbered = tt })

altered_detected_example : (verify toy_hash (entry 1 "logout" "" ∷ export ∷ [])).valid ≡ false
unfolding verify store_query broken_from
altered_detected_example =
    altered_detected toy_hash [] login (entry 1 "logout" "") export [] refl (λ e. cc)

-- ===== src/Audit/Types.antt =====
-- packages/audit/src/types.ts. The details of an entry are an opaque text.
use ryvan_os.Base.{ℕ, String, Bool, Option, List}

pub data AuditOutcome : Type 0 where
  success failure denied pending : AuditOutcome

pub record AuditActor : Type 0 where
  pub user_id : Option String
  pub agent_id : Option String
  pub org_id : Option String
  pub project_id : Option String
  pub kind : Option String

-- `Omit<AuditEntry, "hash">`.
pub record AuditContent : Type 0 where
  pub id : String
  pub sequence : ℕ
  pub timestamp : ℕ
  pub actor : AuditActor
  pub action : String
  pub resource : Option String
  pub outcome : AuditOutcome
  pub correlation_id : Option String
  pub details : Option String
  pub previous_hash : String

pub record AuditEntry : Type 0 where
  pub content : AuditContent
  pub hash : String

pub record AppendAuditInput : Type 0 where
  pub actor : Option AuditActor
  pub action : String
  pub resource : Option String
  pub outcome : Option AuditOutcome
  pub correlation_id : Option String
  pub details : Option String

pub record AuditFilter : Type 0 where
  pub action : Option String
  pub org_id : Option String
  pub user_id : Option String
  pub agent_id : Option String
  pub correlation_id : Option String
  pub outcome : Option AuditOutcome
  pub since : Option ℕ
  pub until : Option ℕ
  pub limit : Option ℕ

pub record AuditVerification : Type 0 where
  pub valid : Bool
  pub entry_count : ℕ
  pub broken_at : List ℕ

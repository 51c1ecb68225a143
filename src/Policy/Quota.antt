-- ===== src/Policy/Quota.antt =====
-- packages/policy-engine/src/quota-guard.ts: usage counted against ceilings, in fixed windows. The
-- counters stand behind an interface, as in the source; limits are natural numbers and warning
-- fractions are given in hundredths.
pub mod Counters
pub mod Consuming
pub mod Counting
pub mod Tests
use ryvan_os.Base.{
  ℕ, ◌+◌, ◌-◌, ◌*◌, ◌/◌, String, Bool, not, ◌&&◌, Option, none, List, [], ◌∷◌, ltb, leb, ◌==◌,
  is_empty, is_some, or_default, option_case, keep_if, find, validation_error, Result, returns,
  ◌>>◌, throw_if, decimal, join_colons,
}
use ryvan_os.Base.Map.{Map, get, set, delete, has, values}
use ryvan_os.Policy.Budget.{BudgetScope, scope_covers}

pub data QuotaPeriod : Type 0 where
  minute hour day month : QuotaPeriod

-- `PERIOD_MS`.
abbrev pub window_ms : QuotaPeriod → ℕ
window_ms QuotaPeriod.minute = 60_000
window_ms QuotaPeriod.hour = 60 * 60_000
window_ms QuotaPeriod.day = 24 * 60 * 60_000
window_ms QuotaPeriod.month = 30 * 24 * 60 * 60_000

pub record QuotaLimit : Type 0 where
  pub id : String
  pub resource : String
  pub scope : BudgetScope
  pub period : QuotaPeriod
  pub limit : ℕ
  pub warn_at : Option ℕ

pub record QuotaStatus : Type 0 where
  pub limit_id : String
  pub resource : String
  pub period : QuotaPeriod
  pub used : ℕ
  pub limit : ℕ
  pub remaining : ℕ
  pub exceeded : Bool
  pub resets_at : ℕ

-- The port `CounterStore`: `increment key by ttl now` and `read key now`, both with the counters
-- they leave.
pub record CounterStore : Type 1 where
  pub Counters : Type 0
  pub increment : Counters → String → ℕ → ℕ → ℕ → Counters × ℕ
  pub read : Counters → String → ℕ → Counters × ℕ

abbrev pub Limits : Type 0
Limits = Map QuotaLimit

unfoldable pub set_quota : Limits → QuotaLimit → Result Limits
set_quota limits limit =
    throw_if (is_empty limit.id) (validation_error "limit.id")
    >> throw_if (is_empty limit.resource) (validation_error "limit.resource")
    >> returns (set limits limit.id limit)

unfoldable pub remove_quota : Limits → String → Limits × Bool
remove_quota limits id = (delete limits id, has limits id)

abbrev governs : String → BudgetScope → QuotaLimit → Bool
governs resource scope limit = limit.resource == resource && scope_covers limit.scope scope

unfoldable pub applicable : Limits → String → BudgetScope → List QuotaLimit
applicable limits resource scope = keep_if (governs resource scope) (values limits)

abbrev pub or_star : Option String → String
or_star part = or_default part "*"

-- `counterKey`: the window is part of the key.
unfoldable pub counter_key : QuotaLimit → BudgetScope → ℕ → String
counter_key limit caller now = join_colons (
    "quota"
    ∷ limit.id
    ∷ limit.resource
    ∷ or_star caller.org_id
    ∷ or_star caller.user_id
    ∷ or_star caller.agent_id
    ∷ decimal (now / window_ms limit.period)
    ∷ [])

abbrev pub window_end : QuotaPeriod → ℕ → ℕ
window_end period now = (now / window_ms period + 1) * window_ms period

abbrev pub to_status : QuotaLimit → ℕ → ℕ → QuotaStatus
to_status limit used now = record {
  limit_id = limit.id;
  resource = limit.resource;
  period = limit.period;
  used = used;
  limit = limit.limit;
  remaining = limit.limit - used;
  exceeded = ltb limit.limit used;
  resets_at = window_end limit.period now;
}

pub record QuotaOutcome : Type 0 where
  pub allowed : Bool
  pub statuses : List QuotaStatus
  pub exceeded : Option QuotaStatus

abbrev pub outcome_of : List QuotaStatus → QuotaOutcome
outcome_of statuses =
    let exceeded = find (λ s. s.exceeded) statuses in
    record { allowed = not (is_some exceeded); statuses = statuses; exceeded = exceeded }

module _ (c : CounterStore) where
  open c use {Counters, increment, read}

  unfoldable pub read_all :
      Counters → List QuotaLimit → BudgetScope → ℕ → Counters × List QuotaStatus
  read_all counters [] scope now = (counters, [])
  read_all counters (limit ∷ limits) scope now =
      let (counters', used) = read counters (counter_key limit scope now) now in
      let (counters'', statuses) = read_all counters' limits scope now in
      (counters'', to_status limit used now ∷ statuses)

  -- `status`.
  unfoldable pub quota_status :
      Limits → Counters → String → BudgetScope → ℕ → Counters × List QuotaStatus
  unfolding read_all applicable
  quota_status limits counters resource scope now =
      read_all counters (applicable limits resource scope) scope now

  unfoldable pub increment_all :
      Counters → List QuotaLimit → BudgetScope → ℕ → ℕ → Counters × List QuotaStatus
  increment_all counters [] scope amount now = (counters, [])
  increment_all counters (limit ∷ limits) scope amount now =
      let (counters', used) =
        increment counters (counter_key limit scope now) amount (window_ms limit.period) now in
      let (counters'', statuses) = increment_all counters' limits scope amount now in
      (counters'', to_status limit used now ∷ statuses)

  unfoldable pub consume :
      Limits → Counters → String → BudgetScope → ℕ → ℕ → Counters × QuotaOutcome
  unfolding increment_all applicable
  consume limits counters resource scope amount now =
      let (counters', statuses) =
        increment_all counters (applicable limits resource scope) scope amount now in
      (counters', outcome_of statuses)

abbrev pub default_warn_fraction : ℕ
default_warn_fraction = 80

abbrev near_limit : Limits → QuotaStatus → Bool
near_limit limits s =
    let fraction =
      or_default (option_case (get limits s.limit_id) none (λ l. l.warn_at))
        default_warn_fraction in
    not s.exceeded && ltb 0 s.limit && leb (s.limit * fraction) (s.used * 100)

unfoldable pub quota_warnings : Limits → List QuotaStatus → List QuotaStatus
quota_warnings limits statuses = keep_if (near_limit limits) statuses

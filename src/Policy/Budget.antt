-- ===== src/Policy/Budget.antt =====
-- packages/policy-engine/src/budget-guard.ts: spend ceilings over rolling windows. Amounts are whole
-- units of money, so they are finite and not negative; a warning fraction is given in hundredths.
pub mod Spending
pub mod Tests
use ryvan_os.Base.Map.{has, get, delete, set, values, Map}
use ryvan_os.Base.Int.{ℤ, sub_ℕ, int_leb}
use ryvan_os.Base.{
  ℕ, ◌+◌, ◌-◌, ◌*◌, String, Bool, true, not, ◌&&◌, ◌||◌, Option, none, some, List, [], ◌∷◌, ◌++◌,
  map, ltb, leb, nat_eq, ◌==◌, is_empty, if◌then◌else◌, or_default, option_case, opt_eq, length,
  drop, keep_if, any, validation_error, Result, throws, returns, ◌>>◌, throw_if,
}

pub data BudgetPeriod : Type 0 where
  hour day month total : BudgetPeriod

-- `PERIOD_MS`; the total period is infinite.
abbrev pub period_ms : BudgetPeriod → Option ℕ
period_ms BudgetPeriod.hour = some (60 * 60 * 1000)
period_ms BudgetPeriod.day = some (24 * 60 * 60 * 1000)
period_ms BudgetPeriod.month = some (30 * 24 * 60 * 60 * 1000)
period_ms BudgetPeriod.total = none

pub record BudgetScope : Type 0 where
  pub org_id : Option String
  pub user_id : Option String
  pub agent_id : Option String

pub record BudgetLimit : Type 0 where
  pub id : String
  pub scope : BudgetScope
  pub period : BudgetPeriod
  pub limit_usd : ℕ
  pub warn_at : Option ℕ

pub record BudgetStatus : Type 0 where
  pub limit_id : String
  pub limit_usd : ℕ
  pub spent_usd : ℕ
  pub remaining_usd : ℤ
  pub period : BudgetPeriod
  pub exceeded : Bool

pub record SpendRecord : Type 0 where
  pub scope : BudgetScope
  pub amount_usd : ℕ
  pub timestamp : ℕ
  pub reason : Option String

pub record BudgetGuard : Type 0 where
  pub limits : Map BudgetLimit
  pub records : List SpendRecord
  pub max_records : ℕ
  pub warned : List String

abbrev pub default_max_records : ℕ
default_max_records = 50000

abbrev pub default_warn_at : ℕ
default_warn_at = 80

abbrev forget : List String → String → List String
forget ids id = keep_if (λ x. not (x == id)) ids

unfoldable pub set_limit : BudgetGuard → BudgetLimit → Result BudgetGuard
set_limit guard limit =
    throw_if (is_empty limit.id) (validation_error "limit.id")
    >> returns (record guard {
      limits = set guard.limits limit.id limit;
      warned = forget guard.warned limit.id;
    })

unfoldable pub remove_limit : BudgetGuard → String → BudgetGuard × Bool
remove_limit guard id = (
  record guard { limits = delete guard.limits id; warned = forget guard.warned id },
  has guard.limits id,
)

abbrev pub latest_records : ℕ → List SpendRecord → List SpendRecord
latest_records most records =
    if ltb most (length records) then drop (length records - most) records else records

-- `record`, which ignores an amount of zero.
unfoldable pub record_spend : BudgetGuard → BudgetScope → ℕ → Option String → ℕ → BudgetGuard
record_spend guard scope amount reason now =
    let spend : SpendRecord = record {
      scope = scope;
      amount_usd = amount;
      timestamp = now;
      reason = reason;
    } in
    if nat_eq amount 0
    then guard
    else record guard { records = latest_records guard.max_records (guard.records ++ spend ∷ []) }

abbrev field_covers : Option String → Option String → Bool
field_covers limit candidate = option_case limit true (λ l. opt_eq (some l) candidate)

abbrev pub scope_covers : BudgetScope → BudgetScope → Bool
scope_covers limit candidate =
    field_covers limit.org_id candidate.org_id
    && field_covers limit.user_id candidate.user_id
    && field_covers limit.agent_id candidate.agent_id

abbrev pub since : BudgetPeriod → ℕ → ℕ
since period now = option_case (period_ms period) 0 (λ window. now - window)

abbrev pub counts : BudgetScope → BudgetPeriod → ℕ → SpendRecord → Bool
counts scope period now r = leb (since period now) r.timestamp && scope_covers scope r.scope

abbrev pub total_of : List SpendRecord → ℕ
total_of [] = 0
total_of (r ∷ rs) = r.amount_usd + total_of rs

unfoldable pub spent_usd : BudgetGuard → BudgetScope → BudgetPeriod → ℕ → ℕ
spent_usd guard scope period now = total_of (keep_if (counts scope period now) guard.records)

unfoldable pub status_for : BudgetGuard → BudgetLimit → ℕ → ℕ → BudgetStatus
status_for guard limit additional now =
    let spent = spent_usd guard limit.scope limit.period now + additional in
    record {
      limit_id = limit.id;
      limit_usd = limit.limit_usd;
      spent_usd = spent;
      remaining_usd = sub_ℕ limit.limit_usd spent;
      period = limit.period;
      exceeded = ltb limit.limit_usd spent;
    }

unfoldable pub status : BudgetGuard → String → ℕ → Result BudgetStatus
status guard id now =
    option_case (get guard.limits id) (throws (validation_error "limitId"))
      (λ limit. returns (status_for guard limit 0 now))

-- `.sort((a, b) => a.remainingUsd - b.remainingUsd)`.
abbrev pub insert_status : BudgetStatus → List BudgetStatus → List BudgetStatus
insert_status s [] = s ∷ []
insert_status s (t ∷ ts) =
    if int_leb s.remaining_usd t.remaining_usd then s ∷ t ∷ ts else t ∷ insert_status s ts

abbrev pub sort_statuses : List BudgetStatus → List BudgetStatus
sort_statuses [] = []
sort_statuses (s ∷ ss) = insert_status s (sort_statuses ss)

unfoldable pub check : BudgetGuard → BudgetScope → ℕ → ℕ → List BudgetStatus
check guard scope additional now = sort_statuses (
    map (λ limit. status_for guard limit additional now)
      (keep_if (λ limit. scope_covers limit.scope scope) (values guard.limits)))

-- The loop of `takeNewWarnings`: what is warned about from now on, and the new warnings.
abbrev warn_each :
    BudgetGuard → ℕ → List BudgetLimit → List String → List String × List BudgetStatus
warn_each guard now [] warned = (warned, [])
warn_each guard now (limit ∷ limits) warned =
    let s = status_for guard limit 0 now in
    let below =
      ltb (s.spent_usd * 100) (limit.limit_usd * or_default limit.warn_at default_warn_at) in
    let known = any (λ x. x == limit.id) warned in
    let next =
      if s.exceeded || below
      then if below then forget warned limit.id else warned
      else if known
      then warned
      else warned ++ limit.id ∷ [] in
    let (after, rest) = warn_each guard now limits next in
    (after, if s.exceeded || below || known then rest else s ∷ rest)

unfoldable pub take_new_warnings : BudgetGuard → ℕ → BudgetGuard × List BudgetStatus
take_new_warnings guard now =
    let (after, warnings) = warn_each guard now (values guard.limits) guard.warned in
    (record guard { warned = after }, warnings)

unfoldable pub reset_guard : BudgetGuard → BudgetGuard
reset_guard guard = record guard { records = []; warned = [] }

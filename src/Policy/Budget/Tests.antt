-- ===== src/Policy/Budget/Tests.antt =====
-- A guard with one budget.
use ryvan_os.Base.Map.{values}
use ryvan_os.Policy.Budget.Spending.{check_lem, Ascending}
use ryvan_os.Policy.Budget.{
  scope_covers, spent_usd, BudgetPeriod, status_for, BudgetGuard, BudgetScope, check,
}
use ryvan_os.Base.{◌+◌, ◌≡◌, refl, true, none, some, [], ◌∷◌, ltb, keep_if, any}

abbrev acme : BudgetScope
acme = record { org_id = some "acme"; user_id = none; agent_id = none }

abbrev ada : BudgetScope
ada = record { org_id = some "acme"; user_id = some "ada"; agent_id = none }

abbrev guard : BudgetGuard
guard = record {
  limits =
      (
        "acme-day",
        record {
          id = "acme-day";
          scope = acme;
          period = BudgetPeriod.day;
          limit_usd = 100;
          warn_at = none;
        },
      )
      ∷ [];
  records = [];
  max_records = 3;
  warned = [];
}

check_lem_example :
    Ascending (check guard ada 120 9)
    × (any (λ s. s.exceeded) (check guard ada 120 9)
        ≡ any
            (λ l. ltb l.limit_usd (spent_usd guard l.scope l.period 9 + 120))
            (keep_if (λ l. scope_covers l.scope ada) (values guard.limits)))
check_lem_example = check_lem guard ada 120 9

refused : any (λ s. s.exceeded) (check guard ada 120 9) ≡ true
unfolding check status_for spent_usd
refused = refl

-- ===== src/Policy/Quota/Tests.antt =====
-- Quotas of one organization over the process-local counters.
use ryvan_os.Policy.Quota.Consuming.{consume_lem}
use ryvan_os.Policy.Quota.Counting.{in_memory-Counts}
use ryvan_os.Policy.Quota.{
  to_status, QuotaPeriod, consume, applicable, QuotaLimit, counter_key, Limits,
}
use ryvan_os.Base.{
  ◌+◌, ◌≤◌, ◌≡◌, refl, ◌↔◌, true, false, none, some, List, [], ◌∷◌, map, arith, All, decimal,
}
use ryvan_os.Base.Map.{delete, set, Map, get}
use ryvan_os.Policy.Budget.{BudgetScope}
use ryvan_os.Policy.Quota.Counters.{increment_counter, read_counter, Counter, in_memory}
use ryvan_os.Policy.Quota.Counters.Refining.{tallies, looks, run, replay, run_refines, CounterCall}

abbrev acme : BudgetScope
acme = record { org_id = some "acme"; user_id = none; agent_id = none }

abbrev ada : BudgetScope
ada = record { org_id = some "acme"; user_id = some "ada"; agent_id = none }

abbrev missions : QuotaLimit
missions = record {
  id = "plan";
  resource = "missions";
  scope = acme;
  period = QuotaPeriod.minute;
  limit = 2;
  warn_at = none;
}

abbrev plan : Limits
plan = ("plan", missions) ∷ []

abbrev no_counters : Map Counter
no_counters = []

ada_key : counter_key missions ada 120_500 ≡ "quota:plan:missions:acme:ada:*:2"
unfolding counter_key decimal
ada_key = refl

consume_lem_example :
    ((consume in_memory plan no_counters "missions" ada 3 7).1.statuses
      ≡ map
          (λ l. to_status l ((in_memory.read no_counters (counter_key l ada 7) 7).1 + 3) 7)
          (applicable plan "missions" ada))
    × (((consume in_memory plan no_counters "missions" ada 3 7).1.allowed ≡ true)
        ↔ All
            (λ l. (in_memory.read no_counters (counter_key l ada 7) 7).1 + 3 ≤ l.limit)
            (applicable plan "missions" ada))
    × All
        (λ l.
          (in_memory.read
            (consume in_memory plan no_counters "missions" ada 3 7).0
            (counter_key l ada 7)
            7).1
          ≡ (in_memory.read no_counters (counter_key l ada 7) 7).1 + 3)
        (applicable plan "missions" ada)
unfolding applicable
consume_lem_example =
    consume_lem in_memory in_memory-Counts ada 3 7 plan no_counters "missions" (refl, tt)

refused : (consume in_memory plan no_counters "missions" ada 3 7).1.allowed ≡ false
unfolding consume increment_counter get counter_key decimal
refused = refl

abbrev calls : List CounterCall
calls = tallies "k" 2 10 5 ∷ looks "k" 14 ∷ looks "k" 15 ∷ tallies "k" 1 10 16 ∷ []

calls_run : run calls no_counters ≡ 2 ∷ 2 ∷ 0 ∷ 1 ∷ []
unfolding run read_counter increment_counter get set delete
calls_run = refl

run_refines_example : run calls no_counters ≡ replay calls (λ k. none)
unfolding get
run_refines_example = run_refines calls 5 no_counters (λ k. none) (omega arith) (λ k t h. refl)

-- ===== src/Policy/Budget/Spending.antt =====
-- packages/policy-engine/src/budget-guard.ts: recorded spend, and the order of reports.
use ryvan_os.Base.Map.{values}
use ryvan_os.Policy.Budget.{
  since, latest_records, counts, BudgetPeriod, scope_covers, BudgetScope, BudgetGuard,
  sort_statuses, BudgetLimit, spent_usd, total_of, status_for, insert_status, check, SpendRecord,
  BudgetStatus, record_spend,
}
use ryvan_os.Base.Int.{int_leb}
use ryvan_os.Base.{
  ℕ, ◌+◌, ◌<◌, String, ◌≡◌, refl, ap, ◌∙◌, inl, inr, Bool, true, false, ◌||◌, Option, List, [], ◌∷◌,
  ◌++◌, map, arith, ltb, leb, nat_eq, All-weaken, if◌then◌else◌, if_both, Bool-cases, length,
  keep_if, any, length-append, All,
}

total_of-append :
    (p : SpendRecord → Bool) (rs : List SpendRecord) (r : SpendRecord)
    → total_of (keep_if p (rs ++ r ∷ []))
      ≡ total_of (keep_if p rs) + (if p r then r.amount_usd else 0)
total_of-append p [] r = ground arith
total_of-append p (x ∷ rs) r = ground (arith, total_of-append p rs r)

since-le : (period : BudgetPeriod) (now : ℕ) → leb (since period now) now ≡ true
since-le BudgetPeriod.hour now = ground arith
since-le BudgetPeriod.day now = ground arith
since-le BudgetPeriod.month now = ground arith
since-le BudgetPeriod.total now = ground arith

latest_records-all :
    (most : ℕ) (rs : List SpendRecord) (r : SpendRecord)
    → length rs < most
    → latest_records most (rs ++ r ∷ []) ≡ rs ++ r ∷ []
latest_records-all most rs r h =
    let few : ltb most (length (rs ++ r ∷ [])) ≡ false =
      rw (length-append rs (r ∷ [])) (ground (arith, h)) in
    rw few refl

-- While the guard has room for another record, recording spend adds it to what every covering
-- scope has spent, in every period, and to nothing else.
pub record_spend_lem :
    (guard : BudgetGuard) (scope candidate : BudgetScope) (period : BudgetPeriod) (amount : ℕ)
    (reason : Option String) (now : ℕ)
    → length guard.records < guard.max_records
    → spent_usd (record_spend guard candidate amount reason now) scope period now
      ≡ spent_usd guard scope period now + (if scope_covers scope candidate then amount else 0)
unfolding record_spend spent_usd
record_spend_lem guard scope candidate period amount reason now room =
    elim (Bool-cases (nat_eq amount 0)) [
      | inl nothing ↦ rw nothing (ground (arith, nothing))
      | inr paid ↦
          let spend : SpendRecord = record {
            scope = candidate;
            amount_usd = amount;
            timestamp = now;
            reason = reason;
          } in
          rw (paid, latest_records-all guard.max_records guard.records spend room)
            (total_of-append (counts scope period now) guard.records spend
              ∙ rw (since-le period now) refl)
    ]

abbrev pub Ascending : List BudgetStatus → Type 0
Ascending [] = Unit
Ascending (s ∷ ss) = All (λ t. int_leb s.remaining_usd t.remaining_usd ≡ true) ss × Ascending ss

insert-All :
    (P : BudgetStatus → Type 0) (s : BudgetStatus) (ts : List BudgetStatus)
    → P s
    → All P ts
    → All P (insert_status s ts)
insert-All P s [] p h = (p, tt)
insert-All P s (t ∷ ts) p h =
    if_both (All P) (int_leb s.remaining_usd t.remaining_usd) (p, h) (h.0, insert-All P s ts p h.1)

insert-Ascending :
    (s : BudgetStatus) (ts : List BudgetStatus) → Ascending ts → Ascending (insert_status s ts)
insert-Ascending s [] d = (tt, tt)
insert-Ascending s (t ∷ ts) d = elim (Bool-cases (int_leb s.remaining_usd t.remaining_usd)) [
  | inl e ↦ rw e ((e, All-weaken ts (λ u h. ground (arith, e, h)) d.0), d)
  | inr e ↦
      let le : int_leb t.remaining_usd s.remaining_usd ≡ true = ground (arith, e) in
      rw e (
        insert-All (λ u. int_leb t.remaining_usd u.remaining_usd ≡ true) s ts le d.0,
        insert-Ascending s ts d.1,
      )
]

sort-Ascending : (ts : List BudgetStatus) → Ascending (sort_statuses ts)
sort-Ascending [] = tt
sort-Ascending (t ∷ ts) = insert-Ascending t (sort_statuses ts) (sort-Ascending ts)

sort-All :
    (P : BudgetStatus → Type 0) (ts : List BudgetStatus) → All P ts → All P (sort_statuses ts)
sort-All P [] h = tt
sort-All P (t ∷ ts) h = insert-All P t (sort_statuses ts) h.0 (sort-All P ts h.1)

map-All :
    (P : BudgetStatus → Type 0) (f : BudgetLimit → BudgetStatus) (ls : List BudgetLimit)
    → ((l : BudgetLimit) → P (f l))
    → All P (map f ls)
map-All P f [] h = tt
map-All P f (l ∷ ls) h = (h l, map-All P f ls h)

any-insert :
    (p : BudgetStatus → Bool) (s : BudgetStatus) (ts : List BudgetStatus)
    → any p (insert_status s ts) ≡ (p s || any p ts)
any-insert p s [] = refl
any-insert p s (t ∷ ts) = ground (arith, any-insert p s ts)

any-sort : (p : BudgetStatus → Bool) (ts : List BudgetStatus) → any p (sort_statuses ts) ≡ any p ts
any-sort p [] = refl
any-sort p (t ∷ ts) = any-insert p t (sort_statuses ts) ∙ ap (λ b. p t || b) (any-sort p ts)

any-map :
    (p : BudgetStatus → Bool) (f : BudgetLimit → BudgetStatus) (ls : List BudgetLimit)
    → any p (map f ls) ≡ any (λ l. p (f l)) ls
any-map p f [] = refl
any-map p f (l ∷ ls) = ap (λ b. p (f l) || b) (any-map p f ls)

-- A check reports the most constrained budget first, and reports an exceeded one exactly when some
-- limit that covers the scope is below what was spent under it together with the additional spend.
pub check_lem :
    (guard : BudgetGuard) (scope : BudgetScope) (additional now : ℕ)
    → Ascending (check guard scope additional now)
      × (any (λ s. s.exceeded) (check guard scope additional now)
          ≡ any
              (λ l. ltb l.limit_usd (spent_usd guard l.scope l.period now + additional))
              (keep_if (λ l. scope_covers l.scope scope) (values guard.limits)))
unfolding check status_for
check_lem guard scope additional now =
    let covering = keep_if (λ l. scope_covers l.scope scope) (values guard.limits) in
    let report : BudgetLimit → BudgetStatus = λ l. status_for guard l additional now in
    (
      sort-Ascending (map report covering),
      any-sort (λ s. s.exceeded) (map report covering) ∙ any-map (λ s. s.exceeded) report covering,
    )

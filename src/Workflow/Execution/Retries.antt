-- ===== src/Workflow/Execution/Retries.antt =====
-- packages/workflow-engine/src/executor.ts, `runHandlerWithRetry`: the attempts of a handler.
use ryvan_os.Workflow.Execution.{retry_loop}
use ryvan_os.Workflow.Types.{Json}
use ryvan_os.Base.{
  ℕ, zero, suc, ◌+◌, ◌≤◌, ◌<◌, ◌≡◌, refl, sym, inl, inr, Bool, true, false, arith, nat_eq,
  Bool-cases, Outcome, returned, threw,
}

module _ (call : ℕ → Outcome Json) where
  abbrev pub has_thrown : Outcome Json → Bool
  has_thrown (returned v) = false
  has_thrown (threw e) = true

  pub record Tried (first last : ℕ) (made : ℕ) (result : Outcome Json) : Type 0 where
    pub enough : first ≤ made
    pub bounded : made ≤ last
    pub earlier : (k : ℕ) → first ≤ k → k < made → has_thrown (call k) ≡ true
    pub is_last : result ≡ call made
    pub exhausted : has_thrown result ≡ true → made ≡ last

  -- From attempt `first` on, with `left` attempts more after it: every attempt before the last
  -- one made threw, the result is the last attempt's, and when that threw too all the attempts
  -- are used up.
  pub retry_loop-Tried :
      (left first : ℕ) → let r = retry_loop left first call in Tried first (first + left) r.0 r.1
  unfolding retry_loop
  retry_loop-Tried zero first = record {
    enough = omega arith;
    bounded = omega arith;
    earlier = λ k l m. ground arith;
    is_last = refl;
    exhausted = λ h. omega arith;
  }
  retry_loop-Tried (suc left) first = answer (call first) refl (retry_loop-Tried left (first + 1))
    where
      answer :
          (o : Outcome Json)
          → call first ≡ o
          → (let r = retry_loop left (first + 1) call in
              Tried (first + 1) (first + 1 + left) r.0 r.1)
          → (let r : ℕ × Outcome Json = elim o [
            | returned v ↦ (first, returned v)
            | threw e ↦ retry_loop left (first + 1) call
          ] in
              Tried first (first + suc left) r.0 r.1)
      answer (returned v) q t = record {
        enough = omega arith;
        bounded = omega arith;
        earlier = λ k l m. ground arith;
        is_last = sym q;
        exhausted = λ h. cc;
      }
      answer (threw e) q t = record {
        enough = let h = t.enough in omega arith;
        bounded = let h = t.bounded in omega arith;
        earlier = λ k l m. elim (Bool-cases (nat_eq k first)) [
          | inl same ↦ ground (arith, q)
          | inr other ↦ t.earlier k (ground arith) m
        ];
        is_last = t.is_last;
        exhausted = λ h. let k = t.exhausted h in omega arith;
      }

-- ===== src/Audit/Ledger/Tampering.antt =====
-- packages/audit/src/ledger.ts, `verify`: entries that are altered or removed.
use ryvan_os.Audit.Ledger.Chain.{chain_on, Chained-split, last_hash, verify_iff, Chained}
use ryvan_os.Audit.Ledger.{verify}
use ryvan_os.Audit.Types.{AuditEntry, AuditContent}
use ryvan_os.Base.{String, ◌≡◌, sym, ◌∙◌, ◌≢◌, inl, inr, true, false, List, ◌∷◌, ◌++◌, Bool-cases}

module _ (hash_entry : AuditContent → String) where
  not_valid :
      (es : List AuditEntry) → (Chained hash_entry "" es → ⊥) → (verify hash_entry es).valid ≡ false
  not_valid es f = elim (Bool-cases (verify hash_entry es).valid) [
    | inl t ↦ absurd (f ((verify_iff hash_entry es).0 t))
    | inr e ↦ e
  ]

  -- Replacing an entry that another follows is detected, whatever hash the replacement carries,
  -- when the replaced content hashes differently.
  pub altered_detected :
      (xs : List AuditEntry) (e altered y : AuditEntry) (ys : List AuditEntry)
      → (verify hash_entry (xs ++ e ∷ y ∷ ys)).valid ≡ true
      → hash_entry altered.content ≢ hash_entry e.content
      → (verify hash_entry (xs ++ altered ∷ y ∷ ys)).valid ≡ false
  altered_detected xs e altered y ys h differ = not_valid (xs ++ altered ∷ y ∷ ys) (λ c. differ (
      same e altered
        (Chained-split hash_entry "" xs (e ∷ y ∷ ys)
          ((verify_iff hash_entry (xs ++ e ∷ y ∷ ys)).0 h)).1
        (Chained-split hash_entry "" xs (altered ∷ y ∷ ys) c).1))
    where
      same :
          (a b : AuditEntry)
          → Chained hash_entry (last_hash hash_entry "" xs) (a ∷ y ∷ ys)
          → Chained hash_entry (last_hash hash_entry "" xs) (b ∷ y ∷ ys)
          → hash_entry b.content ≡ hash_entry a.content
      same a b (chain_on p q (chain_on r s t)) (chain_on p' q' (chain_on r' s' t')) =
          q' ∙ sym r' ∙ r ∙ sym q

  -- Removing an entry that another follows is detected, when the entry's hash is not the one it
  -- follows.
  pub removed_detected :
      (xs : List AuditEntry) (e y : AuditEntry) (ys : List AuditEntry)
      → (verify hash_entry (xs ++ e ∷ y ∷ ys)).valid ≡ true
      → e.hash ≢ e.content.previous_hash
      → (verify hash_entry (xs ++ y ∷ ys)).valid ≡ false
  removed_detected xs e y ys h differ = not_valid (xs ++ y ∷ ys) (λ c. differ (
      same
        (Chained-split hash_entry "" xs (e ∷ y ∷ ys)
          ((verify_iff hash_entry (xs ++ e ∷ y ∷ ys)).0 h)).1
        (Chained-split hash_entry "" xs (y ∷ ys) c).1))
    where
      same :
          Chained hash_entry (last_hash hash_entry "" xs) (e ∷ y ∷ ys)
          → Chained hash_entry (last_hash hash_entry "" xs) (y ∷ ys)
          → e.hash ≡ e.content.previous_hash
      same (chain_on p q (chain_on r s t)) (chain_on r' s' t') = sym r ∙ r' ∙ sym p

  -- Removing the last entries of a ledger is not detected: what is left verifies.
  pub truncated_verifies :
      (xs ys : List AuditEntry)
      → (verify hash_entry (xs ++ ys)).valid ≡ true
      → (verify hash_entry xs).valid ≡ true
  truncated_verifies xs ys h =
      (verify_iff hash_entry xs).1
        (Chained-split hash_entry "" xs ys ((verify_iff hash_entry (xs ++ ys)).0 h)).0

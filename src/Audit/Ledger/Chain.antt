-- ===== src/Audit/Ledger/Chain.antt =====
-- packages/audit/src/ledger.ts: the chain of hashes as a relation.
use ryvan_os.Audit.Store.{store_query, store_last}
use ryvan_os.Audit.Ledger.{next_entry, append, append_all, verify, broken_from}
use ryvan_os.Audit.Types.{AuditEntry, AuditContent, AppendAuditInput}
use ryvan_os.Base.{
  ℕ, ◌+◌, String, ◌≡◌, refl, ◌∙◌, ◌↔◌, true, List, [], ◌∷◌, ◌++◌, arith, eq_iff, nat_eq, is_empty,
  option_case, if_both, length, Result,
}

module _ (hash_entry : AuditContent → String) where
  -- Each entry carries its own hash and the hash of the one before.
  pub data Chained : String → List AuditEntry → Type 0 where
    chain_end : {previous : String} → Chained previous []
    chain_on :
        {previous : String} {e : AuditEntry} {es : List AuditEntry}
        → e.content.previous_hash ≡ previous
        → hash_entry e.content ≡ e.hash
        → Chained e.hash es
        → Chained previous (e ∷ es)

  -- The hash that ends a chain.
  abbrev pub last_hash : String → List AuditEntry → String
  last_hash previous [] = previous
  last_hash previous (e ∷ es) = last_hash e.hash es

  broken-Chained :
      (previous : String) (es : List AuditEntry)
      → broken_from hash_entry previous es ≡ []
      → Chained previous es
  unfolding broken_from
  broken-Chained previous [] h = chain_end
  broken-Chained previous (e ∷ es) h =
      chain_on (ground (arith, eq_iff e.content.previous_hash previous))
        (ground (arith, eq_iff (hash_entry e.content) e.hash))
        (broken-Chained e.hash es (ground arith))

  Chained-broken :
      (previous : String) (es : List AuditEntry)
      → Chained previous es
      → broken_from hash_entry previous es ≡ []
  unfolding broken_from
  Chained-broken previous [] chain_end = refl
  Chained-broken previous (e ∷ es) (chain_on p q c) = ground (
    arith,
    eq_iff e.content.previous_hash previous,
    eq_iff (hash_entry e.content) e.hash,
    Chained-broken e.hash es c,
  )

  empty_of_length : (ns : List ℕ) → nat_eq (length ns) 0 ≡ true → ns ≡ []
  empty_of_length [] h = refl
  empty_of_length (n ∷ ns) h = ground arith

  -- A ledger verifies exactly when it is a chain from the empty hash.
  pub verify_iff :
      (entries : List AuditEntry) → ((verify hash_entry entries).valid ≡ true) ↔ Chained "" entries
  unfolding verify store_query
  verify_iff entries = (
    λ h. broken-Chained "" entries (empty_of_length (broken_from hash_entry "" entries) h),
    λ c. rw (Chained-broken "" entries c) refl,
  )

  pub Chained-append :
      (previous : String) (es fs : List AuditEntry)
      → Chained previous es
      → Chained (last_hash previous es) fs
      → Chained previous (es ++ fs)
  Chained-append previous [] fs c d = d
  Chained-append previous (e ∷ es) fs (chain_on p q c) d =
      chain_on p q (Chained-append e.hash es fs c d)

  pub Chained-split :
      (previous : String) (es fs : List AuditEntry)
      → Chained previous (es ++ fs)
      → Chained previous es × Chained (last_hash previous es) fs
  Chained-split previous [] fs c = (chain_end, c)
  Chained-split previous (e ∷ es) fs (chain_on p q c) =
      let (left, right) = Chained-split e.hash es fs c in (chain_on p q left, right)

  -- Entries are numbered from `n + 1` on.
  abbrev pub Numbered : ℕ → List AuditEntry → Type 0
  Numbered n [] = Unit
  Numbered n (e ∷ es) = (e.content.sequence ≡ n + 1) × Numbered (n + 1) es

  Numbered-append :
      (n : ℕ) (es : List AuditEntry) (e : AuditEntry)
      → Numbered n es
      → e.content.sequence ≡ n + length es + 1
      → Numbered n (es ++ e ∷ [])
  Numbered-append n [] e h k = (omega (arith, k), tt)
  Numbered-append n (x ∷ es) e h k = (h.0, Numbered-append (n + 1) es e h.1 (omega (arith, k)))

  last_default {ℓ} :
      {B : Type ℓ} (e : AuditEntry) (es : List AuditEntry) (d d' : B) (f : AuditEntry → B)
      → option_case (store_last (e ∷ es)) d f ≡ option_case (store_last (e ∷ es)) d' f
  last_default e [] d d' f = refl
  last_default e (x ∷ es) d d' f = last_default x es d d' f

  last_of :
      (previous : String) (n : ℕ) (es : List AuditEntry)
      → Numbered n es
      → (option_case (store_last es) previous (λ e. e.hash) ≡ last_hash previous es)
        × (option_case (store_last es) n (λ e. e.content.sequence) ≡ n + length es)
  last_of previous n [] h = (refl, omega arith)
  last_of previous n (e ∷ []) h = (refl, omega (arith, h.0))
  last_of previous n (e ∷ f ∷ es) h =
      let (p, q) = last_of e.hash (n + 1) (f ∷ es) h.1 in
      (
        last_default f es previous e.hash (λ x. x.hash) ∙ p,
        last_default f es n (n + 1) (λ x. x.content.sequence) ∙ q ∙ omega arith,
      )

  pub record IsLedger (entries : List AuditEntry) : Type 0 where
    pub chained : Chained "" entries
    pub numbered : Numbered 0 entries

  append-IsLedger :
      (entries : List AuditEntry) (input : AppendAuditInput) (id : String) (now : ℕ)
      → IsLedger entries
      → IsLedger (append hash_entry entries input id now).0
  unfolding append next_entry
  append-IsLedger entries input id now l =
      let (hash, sequence) = last_of "" 0 entries l.numbered in
      if_both (λ (r : List AuditEntry × Result AuditEntry). IsLedger r.0) (is_empty input.action) l
        (record {
          chained = Chained-append "" entries _ l.chained (chain_on hash refl chain_end);
          numbered = Numbered-append 0 entries _ l.numbered (omega (arith, sequence));
        })

  -- From a well-formed ledger on, whatever is appended, the ledger verifies and its entries are
  -- numbered 1, 2, ... in order.
  pub append_all-IsLedger :
      (entries : List AuditEntry) (inputs : List (AppendAuditInput × String × ℕ))
      → IsLedger entries
      → ((verify hash_entry (append_all hash_entry entries inputs)).valid ≡ true)
        × Numbered 0 (append_all hash_entry entries inputs)
  unfolding append_all
  append_all-IsLedger entries [] l = ((verify_iff entries).1 l.chained, l.numbered)
  append_all-IsLedger entries ((input, id, now) ∷ rest) l =
      append_all-IsLedger (append hash_entry entries input id now).0 rest
        (append-IsLedger entries input id now l)

-- ===== src/Policy/Quota/Counters.antt =====
-- packages/policy-engine/src/quota-guard.ts: the process-local counters, which forget a counter when
-- it is read after its deadline.
pub mod Refining
use ryvan_os.Base.{ℕ, ◌+◌, String, Option, none, some, leb, if◌then◌else◌, or_default, option_case}
use ryvan_os.Base.Map.{Map, get, set, delete}
use ryvan_os.Policy.Quota.{CounterStore}

pub record Counter : Type 0 where
  pub value : ℕ
  pub expires_at : ℕ

abbrev pub live_at : ℕ → Option Counter → Option Counter
live_at now none = none
live_at now (some entry) = if leb entry.expires_at now then none else some entry

-- `read_`.
unfoldable pub read_counter : Map Counter → String → ℕ → Map Counter × Option ℕ
read_counter counters key now =
    option_case (get counters key) (counters, none)
      (λ entry.
        if leb entry.expires_at now
        then (delete counters key, none)
        else (counters, some entry.value))

-- `counters.get(key)!.expiresAt`; when the counter was read it is there.
abbrev deadline_of : Map Counter → String → ℕ → ℕ
deadline_of counters key fresh = option_case (get counters key) fresh (λ entry. entry.expires_at)

unfoldable pub increment_counter : Map Counter → String → ℕ → ℕ → ℕ → Map Counter × ℕ
unfolding read_counter
increment_counter counters key by ttl now =
    let (after, existing) = read_counter counters key now in
    let next = or_default existing 0 + by in
    (
      set after key (record {
        value = next;
        expires_at = option_case existing (now + ttl) (λ _. deadline_of after key (now + ttl));
      }),
      next,
    )

abbrev pub in_memory : CounterStore
in_memory = record {
  Counters = Map Counter;
  increment = increment_counter;
  read = λ counters key now.
      let (after, existing) = read_counter counters key now in (after, or_default existing 0);
}

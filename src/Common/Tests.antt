-- ===== src/Common/Tests.antt =====
-- The helpers of packages/common at concrete values.
use ryvan_os.Common.Glob.Laws.{matches_glob_iff, Globs}
use ryvan_os.Common.Glob.{codes, matches_glob}
use ryvan_os.Common.Range.{apply_range, RangeOptions}
use ryvan_os.Common.Backoff.{BackoffOptions}
use ryvan_os.Base.{ℕ, String, ◌≡◌, refl, ◌↔◌, true, none, some, List, [], ◌∷◌, Member}

matches_glob_iff_example :
    (matches_glob "tool:read" ("tool:*" ∷ []) ≡ true)
    ↔ ((p : String) × Member p ("tool:*" ∷ []) × Globs (codes p) (codes "tool:read"))
matches_glob_iff_example = matches_glob_iff "tool:read" ("tool:*" ∷ [])

abbrev window : ℕ → RangeOptions
window limit = record { since = some 2; until = none; limit = some limit }

abbrev stamps : List ℕ
stamps = 1 ∷ 2 ∷ 3 ∷ 4 ∷ []

last_two : apply_range (λ t. t) stamps (some (window 2)) ≡ 3 ∷ 4 ∷ []
unfolding apply_range
last_two = refl

abbrev backoff : BackoffOptions
backoff = record { base_delay = 100; backoff_multiplier = 2; max_delay = 1000 }

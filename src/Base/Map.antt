-- ===== src/Base/Map.antt =====
-- The `Map` of the source: keys in the order of their first insertion; `set` on a present key keeps
-- its place.
use Prim.Native.String.{String}
use mathlib.Core.Path.{◌≡◌, refl}
use mathlib.Core.Bool.{Bool}
use mathlib.Core.Option.{Option, none, some}
use mathlib.Core.List.{List, [], ◌∷◌, map}
use native.Mathlib.Omega.{arith}
use ryvan_os.Base.Tests.{◌==◌, eq_iff, is_some, if◌then◌else◌}
use ryvan_os.Base.Lists.{All}

abbrev pub Map {ℓ} : Type ℓ → Type ℓ
Map V = List (String × V)

module _ {ℓ} {V : Type ℓ} where
  unfoldable pub get : Map V → String → Option V
  get [] k = none
  get ((j, v) ∷ m) k = if j == k then some v else get m k

  unfoldable pub set : Map V → String → V → Map V
  set [] k v = (k, v) ∷ []
  set ((j, w) ∷ m) k v = if j == k then (j, v) ∷ m else (j, w) ∷ set m k v

  unfoldable pub delete : Map V → String → Map V
  delete [] k = []
  delete ((j, w) ∷ m) k = if j == k then delete m k else (j, w) ∷ delete m k

  abbrev pub has : Map V → String → Bool
  has m k = is_some (get m k)

  abbrev pub values : Map V → List V
  values = map (λ e. e.1)

  abbrev pub keys : Map V → List String
  keys = map (λ e. e.0)

  pub get-set :
      (m : Map V) (k j : String) (v : V) → get (set m k v) j ≡ (if k == j then some v else get m j)
  unfolding get set
  get-set [] k j v = refl
  get-set ((i, w) ∷ m) k j v = ground (arith, eq_iff k j, eq_iff i k, eq_iff i j, get-set m k j v)

  pub get-set_same : (m : Map V) (k : String) (v : V) → get (set m k v) k ≡ some v
  get-set_same m k v = ground (arith, eq_iff k k, get-set m k k v)

  pub get-delete :
      (m : Map V) (k j : String) → get (delete m k) j ≡ (if k == j then none else get m j)
  unfolding get delete
  get-delete [] k j = ground arith
  get-delete ((i, w) ∷ m) k j = ground (arith, eq_iff k j, eq_iff i k, eq_iff i j, get-delete m k j)

module _ {ℓ κ} {V : Type ℓ} (P : V → Type κ) where
  pub All-values-set :
      (m : Map V) (k : String) (v : V) → All P (values m) → P v → All P (values (set m k v))
  unfolding set
  All-values-set [] k v h p = (p, tt)
  All-values-set ((j, w) ∷ m) k v h p = ground (arith, All-values-set m k v h.1 p)

  pub All-values-delete : (m : Map V) (k : String) → All P (values m) → All P (values (delete m k))
  unfolding delete
  All-values-delete [] k h = tt
  All-values-delete ((j, w) ∷ m) k h = ground (arith, All-values-delete m k h.1)

  pub All-values-get : (m : Map V) (k : String) {v : V} → All P (values m) → get m k ≡ some v → P v
  unfolding get
  All-values-get [] k h e = cc
  All-values-get ((j, w) ∷ m) k {v} h e = ground (arith, All-values-get m k {v = v})

-- ===== src/Base/Lists.antt =====
-- Lists measured by native numbers, and the array methods of the source as Boolean searches.
use Prim.Native.String.{String}
use Prim.Native.Nat.{ℕ, zero, suc, ◌+◌, ◌-◌, ◌≤◌}
use mathlib.Core.Path.{◌≡◌, refl, ap, sym, ◌∙◌, subst}
use mathlib.Core.Bool.{Bool, true, false, ◌&&◌, ◌||◌}
use mathlib.Core.Option.{Option, none, some}
use mathlib.Core.List.{List, [], ◌∷◌, ◌++◌}
use native.Mathlib.Omega.{arith}
use ryvan_os.Base.Tests.{◌==◌, if◌then◌else◌, Bool-cases, if_both}
use mathlib.Core.Logic.{◌⊎◌, inl, inr}

module _ {ℓ} {A : Type ℓ} where
  abbrev pub length : List A → ℕ
  length [] = 0
  length (x ∷ xs) = suc (length xs)

  abbrev pub drop : ℕ → List A → List A
  drop zero xs = xs
  drop (suc n) [] = []
  drop (suc n) (x ∷ xs) = drop n xs

  abbrev pub take : ℕ → List A → List A
  take zero xs = []
  take (suc n) [] = []
  take (suc n) (x ∷ xs) = x ∷ take n xs

  abbrev pub get_elem? : List A → ℕ → Option A
  get_elem? [] i = none
  get_elem? (x ∷ xs) zero = some x
  get_elem? (x ∷ xs) (suc i) = get_elem? xs i

  -- `xs.filter(p)`, `xs.some(p)`, `xs.every(p)`, `xs.find(p)`.
  abbrev pub keep_if : (A → Bool) → List A → List A
  keep_if p [] = []
  keep_if p (x ∷ xs) = if p x then x ∷ keep_if p xs else keep_if p xs

  abbrev pub any : (A → Bool) → List A → Bool
  any p [] = false
  any p (x ∷ xs) = p x || any p xs

  abbrev pub all : (A → Bool) → List A → Bool
  all p [] = true
  all p (x ∷ xs) = p x && all p xs

  abbrev pub find : (A → Bool) → List A → Option A
  find p [] = none
  find p (x ∷ xs) = if p x then some x else find p xs

  -- `xs.slice(-n)`: the last n entries; `slice(-0)` is `slice(0)`, the whole array.
  abbrev pub slice_last : ℕ → List A → List A
  slice_last zero xs = xs
  slice_last (suc n) xs = drop (length xs - suc n) xs

  abbrev pub last? : List A → Option A
  last? [] = none
  last? (x ∷ []) = some x
  last? (x ∷ y ∷ xs) = last? (y ∷ xs)

  pub length-append : (xs ys : List A) → length (xs ++ ys) ≡ length xs + length ys
  length-append [] ys = omega arith
  length-append (x ∷ xs) ys = omega (arith, length-append xs ys)

  pub length-drop : (n : ℕ) (xs : List A) → length (drop n xs) ≡ length xs - n
  length-drop zero xs = omega arith
  length-drop (suc n) [] = omega arith
  length-drop (suc n) (x ∷ xs) = omega (arith, length-drop n xs)

  pub length-keep_if-le : (p : A → Bool) (xs : List A) → length (keep_if p xs) ≤ length xs
  length-keep_if-le p [] = omega arith
  length-keep_if-le p (x ∷ xs) = ground (arith, length-keep_if-le p xs)

-- Membership that can be matched, and a predicate at every entry.
pub data Member {ℓ} {A : Type ℓ} (a : A) : List A → Type ℓ where
  here : {xs : List A} → Member a (a ∷ xs)
  there : {x : A} {xs : List A} → Member a xs → Member a (x ∷ xs)

abbrev pub All {ℓ κ} : {A : Type ℓ} → (A → Type κ) → List A → Type κ
All P [] = Unit
All P (x ∷ xs) = P x × All P xs

module _ {ℓ κ} {A : Type ℓ} (P : A → Type κ) where
  pub All-append : (xs ys : List A) → All P xs → All P ys → All P (xs ++ ys)
  All-append [] ys hx hy = hy
  All-append (x ∷ xs) ys hx hy = (hx.0, All-append xs ys hx.1 hy)

  pub All-drop : (n : ℕ) (xs : List A) → All P xs → All P (drop n xs)
  All-drop zero xs h = h
  All-drop (suc n) [] h = tt
  All-drop (suc n) (x ∷ xs) h = All-drop n xs h.1

  pub All-keep_if : (p : A → Bool) (xs : List A) → All P xs → All P (keep_if p xs)
  All-keep_if p [] h = tt
  All-keep_if p (x ∷ xs) h = ground (arith, All-keep_if p xs h.1)

  pub All-member : {a : A} {xs : List A} → All P xs → Member a xs → P a
  All-member h here = h.0
  All-member h (there m) = All-member h.1 m

module _ {ℓ} {A : Type ℓ} where
  pub keep_if-holds : (p : A → Bool) (xs : List A) → All (λ x. p x ≡ true) (keep_if p xs)
  keep_if-holds p [] = tt
  keep_if-holds p (x ∷ xs) = ground (arith, keep_if-holds p xs)

  pub find-holds : (p : A → Bool) (xs : List A) {a : A} → find p xs ≡ some a → p a ≡ true
  find-holds p [] h = cc
  find-holds p (x ∷ xs) {a} h = ground (arith, find-holds p xs {a = a})

  pub find-eq-none : (p : A → Bool) (xs : List A) → find p xs ≡ none → All (λ x. p x ≡ false) xs
  find-eq-none p [] h = tt
  find-eq-none p (x ∷ xs) h = ground (arith, find-eq-none p xs)

  pub any-holds :
      (p : A → Bool) (xs : List A) → any p xs ≡ true → (a : A) × Member a xs × (p a ≡ true)
  any-holds p (x ∷ xs) h = elim (Bool-cases (p x)) [
    | inl e ↦ (x, here, e)
    | inr e ↦ let (a, m, t) = any-holds p xs (rw e at h) in (a, there m, t)
  ]
  any-holds p [] h = cc

  pub any-of_Member :
      (p : A → Bool) {a : A} {xs : List A} → Member a xs → p a ≡ true → any p xs ≡ true
  any-of_Member p here h = rw h
  any-of_Member p (there {x} m) h = ground (arith, any-of_Member p m h)

  pub all-holds : (p : A → Bool) (xs : List A) → all p xs ≡ true → All (λ x. p x ≡ true) xs
  all-holds p [] h = tt
  all-holds p (x ∷ xs) h = ground (arith, all-holds p xs)

  pub all-of_All : (p : A → Bool) (xs : List A) → All (λ x. p x ≡ true) xs → all p xs ≡ true
  all-of_All p [] h = refl
  all-of_All p (x ∷ xs) h = ground (arith, all-of_All p xs h.1)

  pub keep_if-keep_if :
      (p q : A → Bool) (xs : List A) → keep_if q (keep_if p xs) ≡ keep_if (λ x. p x && q x) xs
  keep_if-keep_if p q [] = refl
  keep_if-keep_if p q (x ∷ xs) = ground (arith, keep_if-keep_if p q xs)

  pub keep_if-all : (xs : List A) → keep_if (λ _. true) xs ≡ xs
  keep_if-all [] = refl
  keep_if-all (x ∷ xs) = ap (◌∷◌ x) (keep_if-all xs)

  pub take-append-drop : (n : ℕ) (xs : List A) → take n xs ++ drop n xs ≡ xs
  take-append-drop zero xs = refl
  take-append-drop (suc n) [] = refl
  take-append-drop (suc n) (x ∷ xs) = rw (take-append-drop n xs)

module _ {ℓ κ} {A : Type ℓ} (P : A → Type κ) where
  pub All-left : (xs ys : List A) → All P (xs ++ ys) → All P xs
  All-left [] ys h = tt
  All-left (x ∷ xs) ys h = (h.0, All-left xs ys h.1)

  pub All-right : (xs ys : List A) → All P (xs ++ ys) → All P ys
  All-right [] ys h = h
  All-right (x ∷ xs) ys h = All-right xs ys h.1

module _ {ℓ} {A : Type ℓ} where
  pub any-append : (p : A → Bool) (xs ys : List A) → any p (xs ++ ys) ≡ (any p xs || any p ys)
  any-append p [] ys = refl
  any-append p (x ∷ xs) ys = ground (arith, any-append p xs ys)

  pub Member-cons : {x a : A} {xs : List A} → Member a (x ∷ xs) → (a ≡ x) ⊎ Member a xs
  Member-cons here = inl refl
  Member-cons (there m) = inr m

  pub Member-keep_if :
      (p : A → Bool) (xs : List A) {a : A} → Member a (keep_if p xs) → Member a xs × (p a ≡ true)
  Member-keep_if p [] m = elim m [ ]
  Member-keep_if p (x ∷ xs) {a} m = elim (Bool-cases (p x)) [
    | inl e ↦ elim (Member-cons (rw e at m)) [
      | inl q ↦ (subst (λ b. Member b (x ∷ xs)) (sym q) here, ap p q ∙ e)
      | inr n ↦ let (n', h) = Member-keep_if p xs n in (there n', h)
    ]
    | inr e ↦ let (n, h) = Member-keep_if p xs (rw e at m) in (there n, h)
  ]

  pub keep_if-Member :
      (p : A → Bool) (xs : List A) {a : A} → Member a xs → p a ≡ true → Member a (keep_if p xs)
  keep_if-Member p [] m h = m
  keep_if-Member p (x ∷ xs) {a} m h = elim (Member-cons m) [
    | inl q ↦
        let kept : p x ≡ true = ap p (sym q) ∙ h in
        rw kept (subst (λ b. Member b (x ∷ keep_if p xs)) (sym q) here)
    | inr n ↦
        if_both (λ (ys : List A). Member a ys) (p x) (there (keep_if-Member p xs n h))
          (keep_if-Member p xs n h)
  ]

pub All-weaken {ℓ κ μ} :
    {A : Type ℓ} {P : A → Type κ} {Q : A → Type μ} (xs : List A)
    → ((a : A) → P a → Q a)
    → All P xs
    → All Q xs
All-weaken [] f h = tt
All-weaken (x ∷ xs) f h = (f x h.0, All-weaken xs f h.1)

pub All-of_members {ℓ κ} :
    {A : Type ℓ} {P : A → Type κ} (xs : List A) → ((a : A) → Member a xs → P a) → All P xs
All-of_members [] f = tt
All-of_members (x ∷ xs) f = (f x here, All-of_members xs (λ a m. f a (there m)))

-- Texts that differ from one another.
abbrev pub Distinct : List String → Type 0
Distinct [] = Unit
Distinct (x ∷ xs) = (any (λ y. y == x) xs ≡ false) × Distinct xs

-- ===== src/Base/Sorting.antt =====
-- `.sort((a, b) => key(a) - key(b))`, which is stable.
use Prim.Native.Nat.{ℕ, ◌≤◌}
use mathlib.Core.Path.{subst, sym}
use mathlib.Core.Logic.{inl, inr}
use mathlib.Core.List.{List, [], ◌∷◌}
use native.Mathlib.Omega.{arith}
use ryvan_os.Base.Tests.{leb, if◌then◌else◌, if_both, Bool-cases}
use ryvan_os.Base.Lists.{Member, here, there, All, Member-cons}

module _ {ℓ} {A : Type ℓ} (key : A → ℕ) where
  insert_by : A → List A → List A
  insert_by a [] = a ∷ []
  insert_by a (b ∷ bs) = if leb (key a) (key b) then a ∷ b ∷ bs else b ∷ insert_by a bs

  unfoldable pub sort_by : List A → List A
  unfolding insert_by
  sort_by [] = []
  sort_by (a ∷ xs) = insert_by a (sort_by xs)

  -- In ascending order of the keys.
  abbrev pub IsSorted : List A → Type 0
  IsSorted [] = Unit
  IsSorted (a ∷ xs) = All (λ b. key a ≤ key b) xs × IsSorted xs

  All-insert_by : (P : A → Type 0) (a : A) (bs : List A) → P a → All P bs → All P (insert_by a bs)
  unfolding insert_by
  All-insert_by P a [] p h = (p, tt)
  All-insert_by P a (b ∷ bs) p h =
      if_both (λ (l : List A). All P l) (leb (key a) (key b)) (p, h)
        (h.0, All-insert_by P a bs p h.1)

  above :
      (a b : A) (bs : List A)
      → key a ≤ key b
      → All (λ c. key b ≤ key c) bs
      → All (λ c. key a ≤ key c) bs
  above a b [] le h = tt
  above a b (c ∷ bs) le h = (omega arith, above a b bs le h.1)

  insert_by-IsSorted : (a : A) (bs : List A) → IsSorted bs → IsSorted (insert_by a bs)
  unfolding insert_by
  insert_by-IsSorted a [] h = (tt, tt)
  insert_by-IsSorted a (b ∷ bs) h = elim (Bool-cases (leb (key a) (key b))) [
    | inl e ↦ let le : key a ≤ key b = ground arith in rw e ((le, above a b bs le h.0), h)
    | inr e ↦
        let le : key b ≤ key a = ground arith in
        rw e (All-insert_by (λ c. key b ≤ key c) a bs le h.0, insert_by-IsSorted a bs h.1)
  ]

  pub sort_by-IsSorted : (xs : List A) → IsSorted (sort_by xs)
  unfolding sort_by
  sort_by-IsSorted [] = tt
  sort_by-IsSorted (a ∷ xs) = insert_by-IsSorted a (sort_by xs) (sort_by-IsSorted xs)

  insert_by-Member : {c : A} (a : A) (bs : List A) → Member c (a ∷ bs) → Member c (insert_by a bs)
  unfolding insert_by
  insert_by-Member a [] m = m
  insert_by-Member {c} a (b ∷ bs) m =
      if_both (λ (l : List A). Member c l) (leb (key a) (key b)) m
        (elim (Member-cons m) [
          | inl q ↦ there (insert_by-Member a bs (subst (λ x. Member x (a ∷ bs)) (sym q) here))
          | inr n ↦ elim (Member-cons n) [
            | inl q ↦ subst (λ x. Member x (b ∷ insert_by a bs)) (sym q) here
            | inr r ↦ there (insert_by-Member a bs (there r))
          ]
        ])

  Member-insert_by : {c : A} (a : A) (bs : List A) → Member c (insert_by a bs) → Member c (a ∷ bs)
  unfolding insert_by
  Member-insert_by a [] m = m
  Member-insert_by {c} a (b ∷ bs) m = elim (Bool-cases (leb (key a) (key b))) [
    | inl e ↦ rw e at m
    | inr e ↦ elim (Member-cons (rw e at m)) [
      | inl q ↦ there (subst (λ x. Member x (b ∷ bs)) (sym q) here)
      | inr n ↦ elim (Member-cons (Member-insert_by a bs n)) [
        | inl q ↦ subst (λ x. Member x (a ∷ b ∷ bs)) (sym q) here
        | inr r ↦ there (there r)
      ]
    ]
  ]

  -- The entries are those of the list.
  pub sort_by-Member : {c : A} (xs : List A) → Member c xs → Member c (sort_by xs)
  unfolding sort_by
  sort_by-Member [] m = m
  sort_by-Member {c} (a ∷ xs) m = insert_by-Member a (sort_by xs) (elim (Member-cons m) [
    | inl q ↦ subst (λ x. Member x (a ∷ sort_by xs)) (sym q) here
    | inr n ↦ there (sort_by-Member xs n)
  ])

  pub Member-sort_by : {c : A} (xs : List A) → Member c (sort_by xs) → Member c xs
  unfolding sort_by
  Member-sort_by [] m = m
  Member-sort_by {c} (a ∷ xs) m = elim (Member-cons (Member-insert_by a (sort_by xs) m)) [
    | inl q ↦ subst (λ x. Member x (a ∷ xs)) (sym q) here
    | inr n ↦ there (Member-sort_by xs n)
  ]

-- ===== src/Workflow/Rounds/Slices.antt =====
-- Lists of steps with distinct ids, and their slices.
use ryvan_os.Workflow.Rounds.{slices_from}
use ryvan_os.Base.{
  ℕ, zero, suc, ◌≤◌, ◌<◌, String, ◌≡◌, refl, ap, ◌∙◌, Bool, true, false, ◌||◌, List, [], ◌∷◌, ◌++◌,
  arith, ◌==◌, Distinct, eq_sym, length, drop, take, any, length-drop, Member, here, there,
  take-append-drop,
}
use ryvan_os.Workflow.Types.{StepDefinition}
use ryvan_os.Workflow.Environment.{ids}

pub any-ids-append :
    (p : String → Bool) (xs ys : List StepDefinition)
    → any p (ids (xs ++ ys)) ≡ (any p (ids xs) || any p (ids ys))
any-ids-append p [] ys = refl
any-ids-append p (x ∷ xs) ys = ground (arith, any-ids-append p xs ys)

pub Distinct-left : (xs ys : List StepDefinition) → Distinct (ids (xs ++ ys)) → Distinct (ids xs)
Distinct-left [] ys d = tt
Distinct-left (x ∷ xs) ys d =
    let e = any-ids-append (λ y. y == x.id) xs ys in (ground arith, Distinct-left xs ys d.1)

pub Distinct-right : (xs ys : List StepDefinition) → Distinct (ids (xs ++ ys)) → Distinct (ids ys)
Distinct-right [] ys d = d
Distinct-right (x ∷ xs) ys d = Distinct-right xs ys d.1

pub any-Member :
    (p : String → Bool) {y : StepDefinition} {ys : List StepDefinition}
    → Member y ys
    → any p (ids ys) ≡ false
    → p y.id ≡ false
any-Member p here h = ground arith
any-Member p (there m) h = any-Member p m (ground arith)

pub Distinct-across :
    (xs ys : List StepDefinition) {y : StepDefinition}
    → Distinct (ids (xs ++ ys))
    → Member y ys
    → any (λ i. i == y.id) (ids xs) ≡ false
Distinct-across [] ys d m = refl
Distinct-across (x ∷ xs) ys {y} d m =
    let e = any-ids-append (λ z. z == x.id) xs ys in
    let n = any-Member (λ z. z == x.id) m (ground arith) in
    ground (arith, eq_sym x.id y.id, Distinct-across xs ys d.1 m)

pub Distinct-same :
    (xs : List StepDefinition) {a b : StepDefinition}
    → Distinct (ids xs)
    → Member a xs
    → Member b xs
    → (a.id == b.id) ≡ true
    → a ≡ b
Distinct-same [] d m n e = elim m [ ]
Distinct-same (x ∷ xs) d here here e = refl
Distinct-same (x ∷ xs) {a} {b} d here (there m) e =
    let n = any-Member (λ z. z == a.id) m d.0 in ground (arith, eq_sym a.id b.id)
Distinct-same (x ∷ xs) {a} {b} d (there m) here e =
    let n = any-Member (λ z. z == b.id) m d.0 in ground arith
Distinct-same (x ∷ xs) d (there m) (there n) e = Distinct-same xs d.1 m n e

abbrev pub concat : List (List StepDefinition) → List StepDefinition
concat [] = []
concat (xs ∷ xss) = xs ++ concat xss

pub concat-slices_from :
    (fuel size : ℕ) (xs : List StepDefinition)
    → 0 < size
    → length xs ≤ fuel
    → concat (slices_from fuel size xs) ≡ xs
unfolding slices_from
concat-slices_from zero size [] p h = refl
concat-slices_from zero size (x ∷ xs) p h = absurd (omega arith)
concat-slices_from (suc fuel) size [] p h = refl
concat-slices_from (suc fuel) zero (x ∷ xs) p h = elim p [ ]
concat-slices_from (suc fuel) (suc n) (x ∷ xs) p h =
    ap (λ t. x ∷ (take n xs ++ t))
      (concat-slices_from fuel (suc n) (drop n xs) p (omega (arith, length-drop {0} n xs)))
    ∙ ap (◌∷◌ x) (take-append-drop n xs)

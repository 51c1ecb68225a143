-- ===== src/Identity/Rbac/Sets.antt =====
-- Lists as sets of roles, and what adding and removing a role does to them.
use ryvan_os.Base.Map.{values, get, Map}
use ryvan_os.Identity.Rbac.{
  drop_role, scopes_of, direct, contains, RbacEngine, add_all, without, add,
}
use ryvan_os.Base.{
  String, ◌≡◌, refl, inl, inr, true, not, ◌&&◌, Option, List, [], ◌∷◌, arith, eq_iff, nat_eq, ◌==◌,
  All-weaken, or_default, if_both, Bool-cases, eq_self, length, All, any-append,
}

abbrev pub Within : List String → List String → Type 0
Within roles xs = All (λ x. contains roles x ≡ true) xs

-- Every role that a user has in some scope is also a direct role of the user.
pub record ScopedDirect (engine : RbacEngine) : Type 0 where
  pub held : (user : String) → All (Within (direct engine user)) (values (scopes_of engine user))

pub contains-add :
    (xs : List String) (r x : String) → contains xs x ≡ true → contains (add xs r) x ≡ true
contains-add xs r x h = ground (arith, any-append (λ y. y == x) xs (r ∷ []))

pub contains-add_self : (xs : List String) (r : String) → contains (add xs r) r ≡ true
contains-add_self xs r = ground (arith, any-append (λ y. y == r) xs (r ∷ []), eq_self r)

pub Within-add : (roles xs : List String) (r : String) → Within roles xs → Within (add roles r) xs
Within-add roles xs r h = All-weaken xs (λ x k. contains-add roles r x k) h

pub Within-All-add :
    (roles : List String) (xss : List (List String)) (r : String)
    → All (Within roles) xss
    → All (Within (add roles r)) xss
Within-All-add roles xss r h = All-weaken xss (λ xs k. Within-add roles xs r k) h

pub add_all-Within : (roles xs : List String) → Within roles xs → add_all roles xs ≡ roles
add_all-Within roles [] h = refl
add_all-Within roles (x ∷ xs) h = rw (h.0) (add_all-Within roles xs h.1)

pub get-All :
    (P : List String → Type 0) (m : Map (List String)) (k : String)
    → P []
    → All P (values m)
    → P (or_default (get m k) [])
unfolding get
get-All P [] k p h = p
get-All P ((j, v) ∷ m) k p h =
    if_both (λ (o : Option (List String)). P (or_default o [])) (j == k) h.0 (get-All P m k p h.1)

pub contains-without :
    (xs : List String) (r x : String) → contains (without xs r) x ≡ (contains xs x && not (r == x))
contains-without [] r x = refl
contains-without (y ∷ ys) r x =
    ground (arith, contains-without ys r x, eq_iff y r, eq_iff y x, eq_iff r x)

pub Within-without :
    (roles xs : List String) (r : String)
    → Within roles xs
    → Within (without roles r) (without xs r)
Within-without roles [] r h = tt
Within-without roles (x ∷ xs) r h = elim (Bool-cases (x == r)) [
  | inl e ↦ rw e (Within-without roles xs r h.1)
  | inr e ↦ rw e (
    ground (arith, contains-without roles r x, eq_iff r x, eq_iff x r, h.0),
    Within-without roles xs r h.1,
  )
]

pub drop_role-Within :
    (roles : List String) (m : Map (List String)) (r : String)
    → All (Within roles) (values m)
    → All (Within (without roles r)) (values (drop_role m r))
drop_role-Within roles [] r h = tt
drop_role-Within roles ((k, xs) ∷ m) r h =
    if_both (λ (n : Map (List String)). All (Within (without roles r)) (values n))
      (nat_eq (length (without xs r)) 0) (drop_role-Within roles m r h.1)
      (Within-without roles xs r h.0, drop_role-Within roles m r h.1)

-- ===== src/Storage/KeyValue/Tests.antt =====
-- A store with one entry that has expired, and an empty one.
use ryvan_os.Storage.KeyValue.{
  deletes, deleted, number, Expiring, Op, gets, sets, increments, answers, got, was_set, counted,
  delete_key,
}
use ryvan_os.Storage.KeyValue.Expiry.{but_deletion, Same, answers-Same}
use ryvan_os.Base.Map.{set, delete, Map, get}
use ryvan_os.Base.{
  ℕ, ◌≡◌, refl, inl, inr, true, false, none, some, List, [], ◌∷◌, map, ◌==◌, Bool-cases, returns,
}

abbrev expired : Map Expiring
expired = ("lock", record { value = number 1; expires_at = some 5 }) ∷ []

abbrev unset : Map Expiring
unset = []

expired-Same : Same 10 expired unset
unfolding get
expired-Same key = elim (Bool-cases ("lock" == key)) [ inl q ↦ rw q refl | inr q ↦ rw q refl ]

abbrev ops : List (ℕ × Op)
ops =
    (0, gets "lock")
    ∷ (1, sets "lock" (number 2) (record { ttl_ms = some 4; if_not_exists = true }))
    ∷ (2, increments "lock" 3 none)
    ∷ (2, gets "lock")
    ∷ (0, deletes "lock")
    ∷ []

run_expired :
    answers ops 10 expired
    ≡ got none ∷ was_set (returns true) ∷ counted 5 ∷ got none ∷ deleted false ∷ []
unfolding answers get delete set
run_expired = refl

answers-Same_example :
    map but_deletion (answers ops 10 expired) ≡ map but_deletion (answers ops 10 unset)
answers-Same_example = answers-Same ops 10 expired unset expired-Same

-- Only `delete` tells the two apart.
delete_tells : (delete_key expired "lock").1 ≡ true
unfolding get
delete_tells = refl

delete_unset : (delete_key unset "lock").1 ≡ false
unfolding get
delete_unset = refl

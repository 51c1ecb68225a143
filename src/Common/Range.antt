-- ===== src/Common/Range.antt =====
-- packages/common/src/matching.ts, `applyRange`: a time window and a count cap.
use ryvan_os.Base.{
  ℕ, zero, suc, ◌-◌, ◌<◌, min, ◌≡◌, refl, sym, ◌∙◌, inl, inr, Bool, true, ◌&&◌, Option, none, some,
  List, [], ◌++◌, arith, ltb, leb, if◌then◌else◌, option_case, Bool-cases, length, take, keep_if,
  slice_last, length-drop, keep_if-keep_if, keep_if-all, take-append-drop,
}

pub record RangeOptions : Type 0 where
  pub since : Option ℕ
  pub until : Option ℕ
  pub limit : Option ℕ

module _ {ℓ} {A : Type ℓ} (timestamp_of : A → ℕ) where
  abbrev pub since_filter : Option ℕ → List A → List A
  since_filter none items = items
  since_filter (some t) items = keep_if (λ item. leb t (timestamp_of item)) items

  abbrev pub until_filter : Option ℕ → List A → List A
  until_filter none items = items
  until_filter (some t) items = keep_if (λ item. leb (timestamp_of item) t) items

  abbrev pub cap : Option ℕ → List A → List A
  cap none items = items
  cap (some limit) items = if ltb limit (length items) then slice_last limit items else items

  unfoldable pub apply_range : List A → Option RangeOptions → List A
  apply_range items none = items
  apply_range items (some o) = cap o.limit (until_filter o.until (since_filter o.since items))

  -- The window on its own, as one test.
  abbrev pub in_window : RangeOptions → A → Bool
  in_window o item =
      option_case o.since true (λ t. leb t (timestamp_of item))
      && option_case o.until true (λ t. leb (timestamp_of item) t)

  until-since :
      (since until limit : Option ℕ) (items : List A)
      → until_filter until (since_filter since items)
        ≡ keep_if (in_window (record { since = since; until = until; limit = limit })) items
  until-since none none l items = sym (keep_if-all items)
  until-since none (some t) l items = refl
  until-since (some t) none l items =
      sym (keep_if-all _) ∙ keep_if-keep_if (λ item. leb t (timestamp_of item)) (λ _. true) items
  until-since (some t) (some u) l items = keep_if-keep_if _ _ items

  cap-IsSuffix :
      (n : ℕ) (xs : List A)
      → (dropped : List A) × (dropped ++ cap (some (suc n)) xs ≡ xs)
        × (length (cap (some (suc n)) xs) ≡ min (suc n) (length xs))
  cap-IsSuffix n xs = elim (Bool-cases (ltb (suc n) (length xs))) [
    | inl long ↦ (
      take (length xs - suc n) xs,
      rw long (take-append-drop (length xs - suc n) xs),
      rw long (ground (arith, length-drop (length xs - suc n) xs)),
    )
    | inr short ↦ ([], rw short refl, rw short (ground arith))
  ]

  -- The last `limit` entries in the window, in their order: nothing outside the window stays, a
  -- positive limit holds, and what is dropped stands before what is kept.
  pub apply_range_lem :
      (items : List A) (o : RangeOptions) (limit : ℕ)
      → o.limit ≡ some limit
      → 0 < limit
      → (dropped : List A) × (dropped ++ apply_range items (some o) ≡ keep_if (in_window o) items)
        × (length (apply_range items (some o)) ≡ min limit (length (keep_if (in_window o) items)))
  unfolding apply_range
  apply_range_lem items o zero e h = elim h [ ]
  apply_range_lem items o (suc n) e h =
      rw (e, until-since o.since o.until o.limit items)
        (cap-IsSuffix n (keep_if (in_window o) items))

  -- A limit of zero caps nothing: every entry in the window is returned.
  pub apply_range_zero :
      (items : List A) (o : RangeOptions)
      → o.limit ≡ some 0
      → apply_range items (some o) ≡ keep_if (in_window o) items
  unfolding apply_range
  apply_range_zero items o e = rw (← until-since o.since o.until o.limit items) (ground arith)

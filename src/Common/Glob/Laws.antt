-- ===== src/Common/Glob/Laws.antt =====
-- packages/common/src/matching.ts: the meaning of a glob pattern as a relation.
use ryvan_os.Base.{
  ℕ, String, ◌≡◌, refl, subst, ◌≢◌, ◌↔◌, inl, inr, true, false, List, [], ◌∷◌, arith, nat_eq,
  if◌then◌else◌, Bool-cases, any, Member, here, there, All, any-holds, any-of_Member,
}
use ryvan_os.Common.Glob.{
  escape, codes, accepts, expand_stars, matches_glob, glob_to_regexp, Token, literal, any_run,
  parse, is_line_terminator,
}

-- A `*` stands for a run of characters with no line terminator, every other character for itself.
pub data Globs : List ℕ → List ℕ → Type 0 where
  done : Globs [] []
  same : {c : ℕ} {p s : List ℕ} → c ≢ b'*' → Globs p s → Globs (c ∷ p) (c ∷ s)
  star_none : {c : ℕ} {p s : List ℕ} → c ≡ b'*' → Globs p s → Globs (c ∷ p) s
  star_more :
      {c v : ℕ} {p s : List ℕ}
      → c ≡ b'*'
      → is_line_terminator v ≡ false
      → Globs (c ∷ p) s
      → Globs (c ∷ p) (v ∷ s)

abbrev tokens : List ℕ → List Token
tokens [] = []
tokens (c ∷ cs) = (if nat_eq c b'*' then any_run else literal c) ∷ tokens cs

parse-plain :
    (c : ℕ) (cs : List ℕ)
    → nat_eq c b'\\' ≡ false
    → nat_eq c b'.' ≡ false
    → parse (c ∷ cs) ≡ literal c ∷ parse cs
unfolding parse
parse-plain c [] h k = refl
parse-plain c (d ∷ cs) h k = ground arith

parse-glob_to_regexp : (p : List ℕ) → parse (glob_to_regexp p) ≡ tokens p
unfolding glob_to_regexp parse
parse-glob_to_regexp [] = refl
parse-glob_to_regexp (c ∷ cs) =
    ground (arith, parse-glob_to_regexp cs, parse-plain c (expand_stars (escape cs)))

module _ (c : ℕ) (p : List ℕ) where
  star_sound :
      c ≡ b'*'
      → ((s : List ℕ) → accepts (tokens p) s ≡ true → Globs p s)
      → (s : List ℕ) → accepts (any_run ∷ tokens p) s ≡ true
      → Globs (c ∷ p) s
  unfolding accepts
  star_sound e ih [] h = star_none e (ih [] h)
  star_sound e ih (v ∷ s) h = elim (Bool-cases (accepts (tokens p) (v ∷ s))) [
    | inl t ↦ star_none e (ih (v ∷ s) t)
    | inr f ↦ star_more e (ground arith) (star_sound e ih s (ground arith))
  ]

  literal_sound :
      c ≢ b'*'
      → ((s : List ℕ) → accepts (tokens p) s ≡ true → Globs p s)
      → (s : List ℕ) → accepts (literal c ∷ tokens p) s ≡ true
      → Globs (c ∷ p) s
  unfolding accepts
  literal_sound n ih [] h = cc
  literal_sound n ih (v ∷ s) h =
      let e : c ≡ v = ground arith in
      subst (λ w. Globs (c ∷ p) (w ∷ s)) e (same n (ih s (ground arith)))

accepts_sound : (p s : List ℕ) → accepts (tokens p) s ≡ true → Globs p s
unfolding accepts
accepts_sound [] [] h = done
accepts_sound [] (v ∷ vs) h = cc
accepts_sound (c ∷ p) s h = elim (Bool-cases (nat_eq c b'*')) [
  | inl star ↦ star_sound c p (ground arith) (accepts_sound p) s (rw star at h)
  | inr plain ↦ literal_sound c p (ground arith) (accepts_sound p) s (rw plain at h)
]

accepts-any_run :
    (ts : List Token) (s : List ℕ) → accepts ts s ≡ true → accepts (any_run ∷ ts) s ≡ true
unfolding accepts
accepts-any_run ts [] h = h
accepts-any_run ts (v ∷ s) h = ground arith

accepts_complete : {p s : List ℕ} → Globs p s → accepts (tokens p) s ≡ true
unfolding accepts
accepts_complete done = refl
accepts_complete (same {c} {p} {s} n g) = ground (arith, accepts_complete g)
accepts_complete (star_none {c} {p} {s} e g) =
    ground (arith, accepts-any_run (tokens p) s, accepts_complete g)
accepts_complete (star_more {c} {v} {p} {s} e b g) = ground (arith, accepts_complete g)

-- A value matches a list of patterns exactly if one of them globs it: the escaping is right, and
-- only `*` is special, standing for any run of characters that are no line terminators.
pub matches_glob_iff :
    (value : String) (patterns : List String)
    → (matches_glob value patterns ≡ true)
      ↔ ((p : String) × Member p patterns × Globs (codes p) (codes value))
unfolding matches_glob
matches_glob_iff value patterns = (
  λ h.
      let (p, m, t) = any-holds _ patterns h in
      (p, m, accepts_sound (codes p) (codes value) (rw (← parse-glob_to_regexp (codes p)) t)),
  λ g. any-of_Member _ g.1 (rw (parse-glob_to_regexp (codes g.0)) (accepts_complete g.2)),
)

star_only :
    (c : ℕ) (s : List ℕ) → Globs (c ∷ []) s → c ≡ b'*' → All (λ v. is_line_terminator v ≡ false) s
star_only c s (same n done) e = absurd (n e)
star_only c s (star_none _ done) e = tt
star_only c (v ∷ s) (star_more _ b g) e = (b, star_only c s g e)

any_excluded :
    (s : List ℕ) → All (λ v. is_line_terminator v ≡ false) s → any is_line_terminator s ≡ true → ⊥
any_excluded [] a h = cc
any_excluded (v ∷ s) (b, a) h = any_excluded s a (rw b at h)

-- The pattern `*` does not match a value that holds a line terminator, whatever else it holds.
pub star_misses_lines :
    (value : String)
    → any is_line_terminator (codes value) ≡ true
    → matches_glob value ("*" ∷ []) ≡ false
star_misses_lines value h = elim (Bool-cases (matches_glob value ("*" ∷ []))) [
  | inr e ↦ e
  | inl e ↦ absurd (excluded ((matches_glob_iff value ("*" ∷ [])).0 e))
]
  where
    excluded : (p : String) × Member p ("*" ∷ []) × Globs (codes p) (codes value) → ⊥
    excluded (_, here, g) = any_excluded (codes value) (star_only b'*' (codes value) g refl) h
    excluded (_, there m, g) = elim m [ ]

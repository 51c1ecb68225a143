-- ===== src/Common/Glob.antt =====
-- packages/common/src/matching.ts, lines 1 to 19: glob patterns become regular expressions. A text
-- is the list of its code points; the regular expression is kept as its source text.
pub mod Laws
use Prim.Native.Char.{code}
use ryvan_os.Base.{
  ℕ, String, Bool, true, false, ◌&&◌, ◌||◌, List, [], ◌∷◌, nat_eq, if◌then◌else◌, any,
}

-- The code points of a text. `String` has its own `[]` and `∷`.
abbrev pub codes : String → List ℕ
codes String.[] = []
codes (String.◌∷◌ c s) = code c ∷ codes s

-- `[.+?^${}()|[\]\\]`.
abbrev pub regex_specials : List ℕ
regex_specials =
    b'.' ∷ b'+' ∷ b'?' ∷ b'^' ∷ b'$' ∷ b'{' ∷ b'}' ∷ b'(' ∷ b')' ∷ b'|' ∷ b'[' ∷ b']' ∷ b'\\' ∷ []

abbrev pub is_special : ℕ → Bool
is_special c = any (nat_eq c) regex_specials

-- `pattern.replace(REGEX_SPECIALS, "\\$&")`.
pub escape : List ℕ → List ℕ
escape [] = []
escape (c ∷ cs) = if is_special c then b'\\' ∷ c ∷ escape cs else c ∷ escape cs

-- `.replace(/\*/g, ".*")`.
pub expand_stars : List ℕ → List ℕ
expand_stars [] = []
expand_stars (c ∷ cs) = if nat_eq c b'*' then b'.' ∷ b'*' ∷ expand_stars cs else c ∷ expand_stars cs

unfoldable pub glob_to_regexp : List ℕ → List ℕ
unfolding escape expand_stars
glob_to_regexp pattern = expand_stars (escape pattern)

-- The regular expressions that `glob_to_regexp` writes: literal characters and `.*`, anchored.
pub data Token : Type 0 where
  literal : ℕ → Token
  any_run : Token

-- How JavaScript reads such a source: an escape, a `.*`, or a character that stands for itself.
pub parse : List ℕ → List Token
parse [] = []
parse (c ∷ []) = literal c ∷ []
parse (c ∷ d ∷ cs) =
    let escaped = literal d ∷ parse cs in
    let wild = any_run ∷ parse cs in
    let plain = literal c ∷ parse (d ∷ cs) in
    if nat_eq c b'\\' then escaped else if nat_eq c b'.' && nat_eq d b'*' then wild else plain

-- `.` stands for no line terminator.
abbrev pub is_line_terminator : ℕ → Bool
is_line_terminator c = nat_eq c 10 || nat_eq c 13 || nat_eq c 0x2028 || nat_eq c 0x2029

-- `^…$` against the whole value.
pub accepts : List Token → List ℕ → Bool
accepts [] [] = true
accepts [] (v ∷ vs) = false
accepts (literal c ∷ ts) [] = false
accepts (literal c ∷ ts) (v ∷ vs) = elim (nat_eq c v) [ true ↦ accepts ts vs | false ↦ false ]
accepts (any_run ∷ ts) [] = accepts ts []
accepts (any_run ∷ ts) (v ∷ vs) = elim (accepts ts (v ∷ vs)) [
  | true ↦ true
  | false ↦ elim (is_line_terminator v) [ true ↦ false | false ↦ accepts (any_run ∷ ts) vs ]
]

-- `regexp.test(value)`.
unfoldable pub regexp_test : List ℕ → List ℕ → Bool
unfolding parse accepts
regexp_test source value = accepts (parse source) value

unfoldable pub matches_glob : String → List String → Bool
unfolding regexp_test glob_to_regexp
matches_glob value patterns =
    any (λ pattern. regexp_test (glob_to_regexp (codes pattern)) (codes value)) patterns

-- ===== src/Resilience/DeadLetters.antt =====
-- packages/resilience/src/dead-letters.ts: calls that are parked for later.
use ryvan_os.Base.{
  ℕ, String, Bool, true, false, not, ◌&&◌, ◌||◌, Option, some, List, ltb, ◌==◌, is_empty,
  if◌then◌else◌, is_some, option_case, length, keep_if, slice_last, sort_by,
}
use ryvan_os.Base.Map.{Map, get, set, values}

pub record DeadLetter : Type 0 where
  pub id : String
  pub key : String
  pub payload : Option String
  pub error : String
  pub attempts : ℕ
  pub correlation_id : Option String
  pub mission_id : Option String
  pub created_at : ℕ
  pub replayed_at : Option ℕ

pub record LetterFilter : Type 0 where
  pub key : Option String
  pub replayed : Option Bool
  pub limit : Option ℕ

abbrev pub Letters : Type 0
Letters = Map DeadLetter

unfoldable pub add_letter : Letters → DeadLetter → Letters
add_letter letters letter = set letters letter.id letter

abbrev same_bool : Bool → Bool → Bool
same_bool true b = b
same_bool false b = not b

abbrev pub letter_passes : LetterFilter → DeadLetter → Bool
letter_passes filter letter =
    option_case filter.key true (λ k. is_empty k || letter.key == k)
    && option_case filter.replayed true (λ r. same_bool (is_some letter.replayed_at) r)

-- `list`; a limit keeps the last letters, and a limit of 0 keeps all of them, as `slice(-0)` does.
unfoldable pub list_letters : Letters → LetterFilter → List DeadLetter
list_letters letters filter =
    let found = sort_by (λ l. l.created_at) (keep_if (letter_passes filter) (values letters)) in
    option_case filter.limit found (λ n. if ltb n (length found) then slice_last n found else found)

unfoldable pub mark_replayed : Letters → String → ℕ → Letters
mark_replayed letters id now =
    option_case (get letters id) letters
      (λ letter. set letters id (record letter { replayed_at = some now }))

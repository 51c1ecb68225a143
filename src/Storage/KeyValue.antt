-- ===== src/Storage/KeyValue.antt =====
-- packages/storage/src/memory.ts, `InMemoryKeyValueStore`. A value is a number or an opaque text, and
-- increments are not negative.
pub mod Expiry
pub mod Tests
use ryvan_os.Common.Glob.{matches_glob}
use ryvan_os.Base.Map.{Map, get, set, delete, has, keys}
use ryvan_os.Base.{
  ℕ, ◌+◌, String, Bool, true, false, ◌&&◌, ◌||◌, Option, none, some, List, [], ◌∷◌, leb, is_empty,
  if◌then◌else◌, is_some, option_case, length, validation_error, Result, throws, returns,
}

pub data Value : Type 0 where
  number : ℕ → Value
  json : String → Value

pub record Expiring : Type 0 where
  pub value : Value
  pub expires_at : Option ℕ

pub record KeyValueSetOptions : Type 0 where
  pub ttl_ms : Option ℕ
  pub if_not_exists : Bool

abbrev pub is_expired : Expiring → ℕ → Bool
is_expired entry now = option_case entry.expires_at false (λ t. leb t now)

-- An entry past its time is deleted when it is read.
unfoldable pub read_entry : Map Expiring → String → ℕ → Map Expiring × Option Expiring
read_entry entries key now =
    option_case (get entries key) (entries, none)
      (λ e. if is_expired e now then (delete entries key, none) else (entries, some e))

abbrev value_of : Option Expiring → Option Value
value_of entry = option_case entry none (λ e. some e.value)

unfoldable pub get_value : Map Expiring → String → ℕ → Map Expiring × Option Value
unfolding read_entry
get_value entries key now =
    let (after, entry) = read_entry entries key now in (after, value_of entry)

abbrev deadline : Option ℕ → Option ℕ → ℕ → Option ℕ
deadline ttl_ms otherwise now = option_case ttl_ms otherwise (λ t. some (now + t))

unfoldable pub set_value :
    Map Expiring → String → Value → KeyValueSetOptions → ℕ → Map Expiring × Result Bool
unfolding read_entry
set_value entries key value options now =
    let (seen, existing) =
      if options.if_not_exists then read_entry entries key now else (entries, none) in
    let entry : Expiring = record {
      value = value;
      expires_at = deadline options.ttl_ms none now;
    } in
    if is_empty key
    then (entries, throws (validation_error "key"))
    else option_case existing (set seen key entry, returns true) (λ e. (seen, returns false))

abbrev pub delete_key : Map Expiring → String → Map Expiring × Bool
delete_key entries key = (delete entries key, has entries key)

unfoldable pub has_key : Map Expiring → String → ℕ → Map Expiring × Bool
unfolding read_entry
has_key entries key now = let (after, entry) = read_entry entries key now in (after, is_some entry)

abbrev number_of : Value → ℕ
number_of (number n) = n
number_of (json text) = 0

unfoldable pub increment : Map Expiring → String → ℕ → Option ℕ → ℕ → Map Expiring × ℕ
unfolding read_entry
increment entries key by ttl_ms now =
    let (seen, existing) = read_entry entries key now in
    let next = option_case existing 0 (λ e. number_of e.value) + by in
    let kept = option_case existing none (λ e. e.expires_at) in
    (set seen key (record { value = number next; expires_at = deadline ttl_ms kept now }), next)

abbrev pattern_passes : Option String → String → Bool
pattern_passes pattern_text key =
    option_case pattern_text true (λ p. is_empty p || matches_glob key (p ∷ []))

-- The filter of `keys`, which reads every key.
unfoldable pub keys_among :
    List String → Option String → ℕ → Map Expiring → Map Expiring × List String
unfolding read_entry
keys_among [] pattern_text now entries = (entries, [])
keys_among (key ∷ rest) pattern_text now entries =
    let (seen, entry) = read_entry entries key now in
    let (after, found) = keys_among rest pattern_text now seen in
    (after, if is_some entry && pattern_passes pattern_text key then key ∷ found else found)

unfoldable pub keys_of : Map Expiring → Option String → ℕ → Map Expiring × List String
unfolding keys_among
keys_of entries pattern_text now = keys_among (keys entries) pattern_text now entries

abbrev delete_all : List String → Map Expiring → Map Expiring
delete_all [] entries = entries
delete_all (k ∷ ks) entries = delete_all ks (delete entries k)

unfoldable pub clear_keys : Map Expiring → Option String → ℕ → Map Expiring × ℕ
unfolding keys_of
clear_keys entries pattern_text now =
    let (seen, found) = keys_of entries pattern_text now in (delete_all found seen, length found)

pub data Op : Type 0 where
  gets : String → Op
  sets : String → Value → KeyValueSetOptions → Op
  looks_for : String → Op
  increments : String → ℕ → Option ℕ → Op
  deletes : String → Op

pub data Answer : Type 0 where
  got : Option Value → Answer
  was_set : Result Bool → Answer
  looked : Bool → Answer
  counted : ℕ → Answer
  deleted : Bool → Answer

-- What an operation answers.
unfoldable pub perform : Map Expiring → Op → ℕ → Map Expiring × Answer
unfolding get_value set_value has_key increment
perform entries (gets key) now = let (after, v) = get_value entries key now in (after, got v)
perform entries (sets key value options) now =
    let (after, r) = set_value entries key value options now in (after, was_set r)
perform entries (looks_for key) now = let (after, b) = has_key entries key now in (after, looked b)
perform entries (increments key by ttl_ms) now =
    let (after, n) = increment entries key by ttl_ms now in (after, counted n)
perform entries (deletes key) now = let (after, b) = delete_key entries key in (after, deleted b)

-- Each operation comes so long after the one before.
unfoldable pub answers : List (ℕ × Op) → ℕ → Map Expiring → List Answer
unfolding perform
answers [] now entries = []
answers ((wait, op) ∷ ops) now entries =
    let (after, answer) = perform entries op (now + wait) in answer ∷ answers ops (now + wait) after

-- ===== src/Uris.antt =====
-- The DSNP user ids, user URIs and content URIs that libs/common/src/utils/dsnp-validation.decorator.ts
-- lets pass.
pub mod Accepted
mod Tests
use Prim.Native.Char.{Char, code}
use Prim.Native.String.{slice, len}
use text.Mathlib.Text.{starts_with}
use content_publishing_servi.Common.{
  ℕ, ◌==◌, String, Option, none, some, Bool, true, false, not, ◌==ₛ◌, ◌&&◌, ◌||◌, leb,
  if◌then◌else◌, big_int, ◌>>=◌,
}

-- MAX_U64_BIGINT
abbrev pub max_u64_bigint : ℕ
max_u64_bigint = 18446744073709551615

-- BigInt(msaId) and the comparison; a SyntaxError is caught
unfoldable pub is_in_range : Option ℕ → Bool
is_in_range none = false
is_in_range (some uid) = leb uid max_u64_bigint

unfoldable pub validate_msa_id_string : String → Bool
unfolding is_in_range big_int
validate_msa_id_string msa_id =
    if starts_with msa_id "0" then false else is_in_range (big_int msa_id)

-- The check is disabled in the source.
unfoldable pub validate_content_hash : String → Bool
validate_content_hash content_hash = true

-- \d
unfoldable pub is_digit : Char → Bool
is_digit c = leb 48 (code c) && leb (code c) 57

-- A character that `.` does not match
unfoldable pub is_line_terminator : Char → Bool
is_line_terminator c = code c == 10 || code c == 13 || code c == 8232 || code c == 8233

-- A match of the tail at the place itself, and one behind the character `c`
abbrev pub at_start : {T : Type 0} → Option T → Option (String × T)
at_start none = none
at_start (some t) = some ("", t)

abbrev pub behind :
    {T : Type 0} → Char → Option (String × T) → Option (String × T) → Option (String × T)
behind c none here = here
behind c (some (protocol, t)) here = some (String.◌∷◌ c protocol, t)

-- (.*) and then a tail at the last place where the tail matches
unfoldable pub match_last : {T : Type 0} → (String → Option T) → String → Option (String × T)
unfolding is_line_terminator
match_last tail String.[] = at_start (tail String.[])
match_last tail (String.◌∷◌ c rest) =
    let later = match_last tail rest in
    behind c (if is_line_terminator c then none else later) (at_start (tail (String.◌∷◌ c rest)))

-- :// and then what matches the rest
unfoldable pub after_colon : {T : Type 0} → (String → Option T) → String → Option T
after_colon rest s = if starts_with s "://" then rest (slice s (len "://") (len s)) else none

unfoldable pub all_digits : String → Bool
unfolding is_digit
all_digits String.[] = true
all_digits (String.◌∷◌ c s) = is_digit c && all_digits s

unfoldable pub no_line_terminator : String → Bool
unfolding is_line_terminator
no_line_terminator String.[] = true
no_line_terminator (String.◌∷◌ c s) = not (is_line_terminator c) && no_line_terminator s

-- ([\d]*)$
unfoldable pub digits_to_end : String → Option String
unfolding all_digits
digits_to_end s = if all_digits s then some s else none

-- ([\d]*)\/(.*)$
unfoldable pub digits_and_hash : String → Option (String × String)
unfolding is_digit no_line_terminator
digits_and_hash String.[] = none
digits_and_hash (String.◌∷◌ c s) =
    let later = digits_and_hash s in
    if is_digit c
    then elim later [
      | none ↦ none
      | some (msa_id, content_hash) ↦ some (String.◌∷◌ c msa_id, content_hash)
    ]
    else if code c == 47 && no_line_terminator s
    then some ("", s)
    else none

-- The rest of validate once the expression has matched
unfoldable pub check_user : Option (String × String) → Bool
unfolding validate_msa_id_string
check_user none = false
check_user (some (protocol, msa_id)) =
    if protocol ==ₛ "dsnp" then validate_msa_id_string msa_id else false

unfoldable pub check_content : Option (String × (String × String)) → Bool
unfolding validate_msa_id_string validate_content_hash
check_content none = false
check_content (some (protocol, (msa_id, content_hash))) =
    if protocol ==ₛ "dsnp"
    then if validate_msa_id_string msa_id then validate_content_hash content_hash else false
    else false

-- IsDsnpUserURI of a text
unfoldable pub is_dsnp_user_uri : String → Bool
unfolding match_last after_colon digits_to_end check_user
is_dsnp_user_uri value = check_user (match_last (after_colon digits_to_end) value)

-- IsDsnpContentURI of a text
unfoldable pub is_dsnp_content_uri : String → Bool
unfolding match_last after_colon digits_and_hash check_content
is_dsnp_content_uri value = check_content (match_last (after_colon digits_and_hash) value)

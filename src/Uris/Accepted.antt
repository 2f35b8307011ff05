-- ===== src/Uris/Accepted.antt =====
-- Which user URIs the decorators of libs/common/src/utils/dsnp-validation.decorator.ts let pass.
use Prim.Native.Char.{Char}
use Prim.Native.String.{slice, len, ◌++◌}
use text.Mathlib.Text.{starts_with}
use text.Mathlib.TextEquality.{starts_with_iff}
use text.Mathlib.TextPositions.{slice-append_right, len-append}
use text.Mathlib.TextLemmas.{nil-append, cons-append, append_assoc}
use mathlib.Core.Bool.{false≢true}
use mathlib.Core.Option.{none-ne-some, some-injective}
use mathlib.Core.Path.{subst}
use content_publishing_servi.Common.{
  ℕ, ◌≤◌, String, Option, none, some, Bool, true, false, ◌==ₛ◌, if◌then◌else◌, big_int, eq_iff, ◌≡◌,
  refl, sym, ◌∙◌, ap, arith,
}
use content_publishing_servi.Uris.{
  at_start, behind, match_last, after_colon, all_digits, digits_to_end, check_user,
  is_dsnp_user_uri, validate_msa_id_string, is_in_range, max_u64_bigint, is_line_terminator,
}

module _ {T : Type 0} where
  -- The protocol and the rest, in which the tail matches
  abbrev Splits : (String → Option T) → String → String → T → Type 0
  Splits tail s p t = (r : String) × (p ++ r ≡ s) × (tail r ≡ some t)

  at_start-Splits :
      (tail : String → Option T) (s p : String) (t : T) (o : Option T)
      → tail s ≡ o
      → at_start o ≡ some (p, t)
      → Splits tail s p t
  at_start-Splits tail s p t none h e = absurd (none-ne-some _ e)
  at_start-Splits tail s p t (some u) h e =
      let same = some-injective _ _ e in
      (
        s,
        ap (λ (q : String × T). q.0 ++ s) (sym same) ∙ nil-append s,
        h ∙ ap (λ (q : String × T). some q.1) same,
      )

  behind-Splits :
      (tail : String → Option T) (c : Char) (s p : String) (t : T)
      (later here : Option (String × T))
      → ((p' : String) (t' : T) → later ≡ some (p', t') → Splits tail s p' t')
      → (here ≡ some (p, t) → Splits tail (String.◌∷◌ c s) p t)
      → behind c later here ≡ some (p, t)
      → Splits tail (String.◌∷◌ c s) p t
  behind-Splits tail c s p t none here after at e = at e
  behind-Splits tail c s p t (some (p', t')) here after at e =
      let same = some-injective _ _ e in
      let (r, joined, matches) = after p' t' refl in
      (
        r,
        ap (λ (q : String × T). q.0 ++ r) (sym same)
            ∙ cons-append c p' r
            ∙ ap (String.◌∷◌ c) joined,
        matches ∙ ap (λ (q : String × T). some q.1) same,
      )

  unless-some :
      (b : Bool) (o : Option (String × T)) (q : String × T)
      → (if b then none else o) ≡ some q
      → o ≡ some q
  unless-some true o q e = absurd (none-ne-some q e)
  unless-some false o q e = e

  match_last-Splits :
      (tail : String → Option T) (s p : String) (t : T)
      → match_last tail s ≡ some (p, t)
      → Splits tail s p t
  unfolding match_last
  match_last-Splits tail String.[] p t e = at_start-Splits tail _ p t (tail String.[]) refl e
  match_last-Splits tail (String.◌∷◌ c s) p t e =
      behind-Splits tail c s p t _ _
        (λ p' t' e'. match_last-Splits tail s p' t' (unless-some (is_line_terminator c) _ _ e'))
        (at_start-Splits tail (String.◌∷◌ c s) p t _ refl) e

if-true :
    {T : Type 0} (b : Bool) (o : Option T) (t : T)
    → (if b then o else none) ≡ some t
    → (b ≡ true) × (o ≡ some t)
if-true true o t e = (refl, e)
if-true false o t e = absurd (none-ne-some t e)

if-false : (b c : Bool) → (if b then c else false) ≡ true → (b ≡ true) × (c ≡ true)
if-false true c e = (refl, e)
if-false false c e = absurd (false≢true e)

if-not : (b c : Bool) → (if b then false else c) ≡ true → (b ≡ false) × (c ≡ true)
if-not true c e = absurd (false≢true e)
if-not false c e = (refl, e)

-- What follows :// where a rest is matched
after_colon-some :
    {T : Type 0} (rest : String → Option T) (s : String) (t : T)
    → after_colon rest s ≡ some t
    → (r : String) × ("://" ++ r ≡ s) × (rest r ≡ some t)
unfolding after_colon
after_colon-some rest s t e =
    let (starts, matches) = if-true (starts_with s "://") _ t e in
    let (r, joined) = (starts_with_iff s "://").0 starts in
    (
      r,
      joined,
      ap rest (
            sym (slice-append_right "://" r)
            ∙ ap (slice ("://" ++ r) 3) (sym (len-append "://" r))
            ∙ ap (λ q. slice q 3 (len q)) joined)
          ∙ matches,
    )

-- The user's id: a decimal number of 64 bits without a leading zero, or nothing
abbrev pub IsUserId : String → Type 0
IsUserId id =
    (uid : ℕ) × (big_int id ≡ some uid) × (uid ≤ max_u64_bigint) × (starts_with id "0" ≡ false)

validate_msa_id_string-IsUserId : (id : String) → validate_msa_id_string id ≡ true → IsUserId id
unfolding validate_msa_id_string
validate_msa_id_string-IsUserId id e =
    let (no_zero, ranged) = if-not (starts_with id "0") _ e in
    let (uid, read, fits) = in_range (big_int id) ranged in (uid, read, fits, no_zero)
  where
    in_range :
        (o : Option ℕ) → is_in_range o ≡ true → (uid : ℕ) × (o ≡ some uid) × (uid ≤ max_u64_bigint)
    in_range none h = absurd (false≢true h)
    in_range (some uid) h = (uid, refl, ground (arith, h))

check_user-some :
    (o : Option (String × String))
    → check_user o ≡ true
    → (p : String) × (id : String) × (o ≡ some (p, id))
      × (p ≡ "dsnp")
      × (validate_msa_id_string id ≡ true)
unfolding check_user
check_user-some none e = absurd (false≢true e)
check_user-some (some (p, id)) e =
    let (protocol, ok) = if-false (p ==ₛ "dsnp") _ e in
    (p, id, refl, (eq_iff p "dsnp").0 protocol, ok)

-- A user URI is accepted only if it is dsnp:// and decimal digits, and these are a number of at most
-- 64 bits without a leading zero or nothing at all, which reads as 0.
pub is_dsnp_user_uri-accepted :
    (value : String)
    → is_dsnp_user_uri value ≡ true
    → (id : String) × (value ≡ "dsnp://" ++ id) × (all_digits id ≡ true) × IsUserId id
unfolding is_dsnp_user_uri digits_to_end
is_dsnp_user_uri-accepted value e =
    let (p, id, found, protocol, valid) = check_user-some _ e in
    let (r, joined, matches) = match_last-Splits (after_colon digits_to_end) value p id found in
    let (d, rest, ended) = after_colon-some digits_to_end r id matches in
    let (digits, same) = if-true (all_digits d) (some d) id ended in
    let is_id : d ≡ id = some-injective _ _ same in
    (
      id,
      sym joined
          ∙ ap (λ q. q ++ r) protocol
          ∙ ap (λ q. "dsnp" ++ q) (sym rest ∙ ap (λ q. "://" ++ q) is_id)
          ∙ sym (append_assoc "dsnp" "://" id),
      subst (λ q. all_digits q ≡ true) is_id digits,
      validate_msa_id_string-IsUserId id valid,
    )

-- ===== src/Services/Formats.antt =====
-- Texts that are written and read back, for values made of numbers and texts: instances of the JSON
-- codecs that the model takes as parameters.
use Prim.Native.Char.{code}
use content_publishing_servi.Common.{
  ℕ, zero, suc, String, Option, none, some, ◌≡◌, refl, ap, ◌==◌, if◌then◌else◌,
}
use content_publishing_servi.Services.Codec.{Codec}

-- A value before a rest, written and taken off again.
pub record Format (A : Type 0) : Type 0 where
  pub put : A → String → String
  pub take : String → Option (A × String)
  pub take-put : (a : A) (rest : String) → take (put a rest) ≡ some (a, rest)

abbrev pub bind : {A B : Type 0} → Option A → (A → Option B) → Option B
bind none f = none
bind (some a) f = f a

unfoldable pub put_number : ℕ → String → String
put_number zero rest = String.◌∷◌ ";" rest
put_number (suc n) rest = String.◌∷◌ "I" (put_number n rest)

unfoldable pub take_number : String → Option (ℕ × String)
take_number String.[] = none
take_number (String.◌∷◌ c rest) =
    let more = bind (take_number rest) (λ r. some (suc r.0, r.1)) in
    if code c == b'I' then more else some (0, rest)

pub take_number-put_number :
    (n : ℕ) (rest : String) → take_number (put_number n rest) ≡ some (n, rest)
unfolding take_number put_number
take_number-put_number zero rest = refl
take_number-put_number (suc n) rest = rw (take_number-put_number n rest)

unfoldable pub put_text : String → String → String
put_text String.[] rest = String.◌∷◌ ";" rest
put_text (String.◌∷◌ c s) rest = String.◌∷◌ "I" (String.◌∷◌ c (put_text s rest))

unfoldable pub take_text : String → Option (String × String)
take_text String.[] = none
take_text (String.◌∷◌ c String.[]) = some ("", "")
take_text (String.◌∷◌ c (String.◌∷◌ d rest)) =
    let more = bind (take_text rest) (λ r. some (String.◌∷◌ d r.0, r.1)) in
    if code c == b'I' then more else some ("", String.◌∷◌ d rest)

pub take_text-put_text : (s rest : String) → take_text (put_text s rest) ≡ some (s, rest)
unfolding take_text put_text
take_text-put_text String.[] String.[] = refl
take_text-put_text String.[] (String.◌∷◌ c rest) = refl
take_text-put_text (String.◌∷◌ c s) rest = rw (take_text-put_text s rest)

unfoldable pub number : Format ℕ
unfolding put_number take_number
number = record { put = put_number; take = take_number; take-put = take_number-put_number }

unfoldable pub plain_text : Format String
unfolding put_text take_text
plain_text = record { put = put_text; take = take_text; take-put = take_text-put_text }

module _ {A B : Type 0} (f : Format A) (g : Format B) where
  abbrev pub put_both : A × B → String → String
  put_both (a, b) rest = f.put a (g.put b rest)

  abbrev pub take_both : String → Option ((A × B) × String)
  take_both s = bind (f.take s) (λ r. bind (g.take r.1) (λ t. some ((r.0, t.0), t.1)))

  pub take_both-put_both :
      (p : A × B) (rest : String) → take_both (put_both p rest) ≡ some (p, rest)
  take_both-put_both (a, b) rest = rw (f.take-put a (g.put b rest), g.take-put b rest)

  unfoldable pub both : Format (A × B)
  both = record { put = put_both; take = take_both; take-put = take_both-put_both }

-- A type that is a retract of one with a format.
module _ {A B : Type 0} (f : Format B) (to : A → B) (from : B → A)
    (from-to : (a : A) → from (to a) ≡ a) where
  abbrev pub take_along : String → Option (A × String)
  take_along s = bind (f.take s) (λ r. some (from r.0, r.1))

  pub take_along-put : (a : A) (rest : String) → take_along (f.put (to a) rest) ≡ some (a, rest)
  take_along-put a rest = rw (f.take-put (to a) rest) (ap (λ a. some (a, rest)) (from-to a))

  unfoldable pub along : Format A
  along = record { put = λ a rest. f.put (to a) rest; take = take_along; take-put = take_along-put }

module _ {A : Type 0} (f : Format A) where
  abbrev pub decode_all : String → Option A
  decode_all s = bind (f.take s) (λ r. some r.0)

  pub decode_all-put : (a : A) → decode_all (f.put a "") ≡ some a
  decode_all-put a = rw (f.take-put a "")

  unfoldable pub codec_of : Codec A
  codec_of = record {
    encode = λ a. f.put a "";
    decode = decode_all;
    decode-encode = decode_all-put;
  }

abbrev pub optional_to : {A : Type 0} → A → Option A → ℕ × A
optional_to d none = (0, d)
optional_to d (some a) = (1, a)

abbrev pub optional_from : {A : Type 0} → ℕ × A → Option A
optional_from (zero, a) = none
optional_from (suc n, a) = some a

pub optional_from-to : {A : Type 0} (d : A) (o : Option A) → optional_from (optional_to d o) ≡ o
optional_from-to d none = refl
optional_from-to d (some a) = refl

unfoldable pub optional : {A : Type 0} → A → Format A → Format (Option A)
unfolding along both number
optional d f = along (both number f) (optional_to d) optional_from (optional_from-to d)

-- ===== src/Config/Rules.antt =====
-- What the rules of env.config.ts for texts, numbers and the provider id let through.
use mathlib.Core.Option.{some-injective, none-ne-some}
use mathlib.Core.Bool.{false≢true}
use content_publishing_servi.Common.{
  ℕ, String, Option, none, some, Bool, true, false, not, ◌&&◌, ◌||◌, if◌then◌else◌, >>=-some, ◌≡◌,
  refl, sym, ◌∙◌, ap, ◌⊎◌, inl, inr,
}
use content_publishing_servi.Config.{
  Joi, required_text, big_int_of, is_negative, check_provider_id, provider_id_rule, min_rule,
  required_number, default_number, uri_rule,
}

module _ {A : Type 0} where
  -- A test that lets a value through
  pub if-some : (b : Bool) (x a : A) → (if b then some x else none) ≡ some a → (b ≡ true) × (x ≡ a)
  if-some true x a e = (refl, some-injective _ _ e)
  if-some false x a e = absurd (none-ne-some a e)

pub &&-true : (b c : Bool) → (b && c) ≡ true → (b ≡ true) × (c ≡ true)
&&-true true c e = (refl, e)
&&-true false c e = absurd (false≢true e)

pub not-true : (b : Bool) → not b ≡ true → b ≡ false
not-true true e = absurd (false≢true e)
not-true false e = refl

-- The branch that a test takes, where one of two tests holds
pub taken :
    (p q x y : Bool)
    → (p || q) ≡ true
    → (if p then x else y) ≡ true
    → ((p ≡ true) × (x ≡ true)) ⊎ ((q ≡ true) × (y ≡ true))
taken true q x y known e = inl (refl, e)
taken false q x y known e = inr (known, e)

check_provider_id-some :
    (value id : String) (o : Option (Bool × ℕ))
    → check_provider_id value o ≡ some id
    → (value ≡ id) × ((n : Bool × ℕ) × (o ≡ some n) × (is_negative n ≡ false))
unfolding check_provider_id
check_provider_id-some value id none e = absurd (none-ne-some id e)
check_provider_id-some value id (some n) e = unless_negative (is_negative n) refl e
  where
    unless_negative :
        (b : Bool)
        → is_negative n ≡ b
        → (if b then none else some value) ≡ some id
        → (value ≡ id) × ((m : Bool × ℕ) × (some n ≡ some m) × (is_negative m ≡ false))
    unless_negative true q e = absurd (none-ne-some id e)
    unless_negative false q e = (some-injective _ _ e, (n, refl, q))

pub provider_id_rule-some :
    (s : Option String) (id : String)
    → provider_id_rule s ≡ some id
    → (n : Bool × ℕ) × (big_int_of id ≡ some n) × (is_negative n ≡ false)
unfolding provider_id_rule
provider_id_rule-some none id e = absurd (none-ne-some id e)
provider_id_rule-some (some value) id e =
    let (same, (n, read, sign)) = check_provider_id-some value id (big_int_of value) e in
    (n, ap big_int_of (sym same) ∙ read, sign)

module _ (joi : Joi) where
  open joi use {Number, number, of_natural, at_least, at_most, is_uri, parse_limit}

  min_rule-some :
      (low : ℕ) (o : Option Number) (n : Number)
      → min_rule joi low o ≡ some n
      → at_least n low ≡ true
  unfolding min_rule
  min_rule-some low none n e = absurd (none-ne-some n e)
  min_rule-some low (some m) n e =
      let (ok, same) = if-some (at_least m low) m n e in ap (λ k. at_least k low) (sym same) ∙ ok

  pub required_number-some :
      (low : ℕ) (s : Option String) (n : Number)
      → required_number joi low s ≡ some n
      → at_least n low ≡ true
  unfolding required_number
  required_number-some low none n e = absurd (none-ne-some n e)
  required_number-some low (some s) n e = min_rule-some low (number s) n e

  pub default_number-some :
      (low value : ℕ) (s : Option String) (n : Number)
      → default_number joi low value s ≡ some n
      → ((s ≡ none) × (n ≡ of_natural value)) ⊎ (at_least n low ≡ true)
  unfolding default_number
  default_number-some low value none n e = inl (refl, sym (some-injective _ _ e))
  default_number-some low value (some s) n e = inr (min_rule-some low (number s) n e)

  pub uri_rule-some :
      (s : Option String) (uri : String) → uri_rule joi s ≡ some uri → is_uri uri ≡ true
  unfolding uri_rule
  uri_rule-some s uri e =
      let (u, _, e') = >>=-some (required_text s) _ uri e in
      let (ok, same) = if-some (is_uri u) u uri e' in ap is_uri (sym same) ∙ ok

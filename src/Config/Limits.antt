-- ===== src/Config/Limits.antt =====
-- What the rule of env.config.ts for CAPACITY_LIMIT lets through.
use mathlib.Core.Path.{subst}
use mathlib.Core.Option.{none-ne-some}
use mathlib.Core.Bool.{false≢true}
use text.Mathlib.TextEquality.{eq_iff}
use content_publishing_servi.Common.{
  String, Option, none, some, true, false, ◌&&◌, ◌||◌, ◌==ₛ◌, >>=-some, ◌≡◌, refl, ◌⊎◌, inl, inr,
}
use content_publishing_servi.Config.{
  LimitJson, Joi, required_text, is_limit_value, is_limit, check_limit, capacity_limit_rule,
}
use content_publishing_servi.Config.Rules.{if-some, &&-true, not-true, taken}

module _ (joi : Joi) where
  open joi use {Number, number, of_natural, at_least, at_most, is_uri, parse_limit}

  -- A limit that the schema accepts
  pub record IsLimit (text : String) : Type 0 where
    pub limit : LimitJson Number
    pub limit_type : String
    pub value : Number
    pub at_text : parse_limit text ≡ some limit
    pub at_type : limit.limit_type ≡ some limit_type
    pub at_value : limit.value ≡ some value
    pub at_range :
        ((limit_type ≡ "percentage") × (at_most value 100 ≡ true)) ⊎ (limit_type ≡ "amount")
    pub at_zero : at_least value 0 ≡ true
    pub alone : limit.has_others ≡ false

  limit_range :
      (t : String) (v : Number)
      → ((t ==ₛ "percentage") || (t ==ₛ "amount")) ≡ true
      → is_limit_value joi t v ≡ true
      → (((t ≡ "percentage") × (at_most v 100 ≡ true)) ⊎ (t ≡ "amount")) × (at_least v 0 ≡ true)
  unfolding is_limit_value
  limit_range t v known e = elim (taken (t ==ₛ "percentage") (t ==ₛ "amount") _ _ known e) [
    | inl (p, both) ↦
        let (low, high) = &&-true (at_least v 0) (at_most v 100) both in
        (inl ((eq_iff t "percentage").0 p, high), low)
    | inr (p, low) ↦ (inr ((eq_iff t "amount").0 p), low)
  ]

  is_limit-IsLimit :
      (text : String) (l : LimitJson Number) (t : Option String) (v : Option Number)
      → parse_limit text ≡ some l
      → l.limit_type ≡ t
      → l.value ≡ v
      → is_limit joi l t v ≡ true
      → IsLimit text
  unfolding is_limit
  is_limit-IsLimit text l none v at_text et ev e = absurd (false≢true e)
  is_limit-IsLimit text l (some t) none at_text et ev e = absurd (false≢true e)
  is_limit-IsLimit text l (some t) (some v) at_text et ev e =
      let (both, single) =
        &&-true (((t ==ₛ "percentage") || (t ==ₛ "amount")) && is_limit_value joi t v) _ e in
      let (known, ranged) = &&-true ((t ==ₛ "percentage") || (t ==ₛ "amount")) _ both in
      let (range, zero) = limit_range t v known ranged in
      record {
        limit = l;
        limit_type = t;
        value = v;
        at_text = at_text;
        at_type = et;
        at_value = ev;
        at_range = range;
        at_zero = zero;
        alone = not-true l.has_others single;
      }

  check_limit-IsLimit :
      (value text : String) (o : Option (LimitJson Number))
      → parse_limit value ≡ o
      → check_limit joi value o ≡ some text
      → IsLimit text
  unfolding check_limit
  check_limit-IsLimit value text none p e = absurd (none-ne-some text e)
  check_limit-IsLimit value text (some l) p e =
      let (ok, same) = if-some (is_limit joi l l.limit_type l.value) value text e in
      subst IsLimit same (is_limit-IsLimit value l l.limit_type l.value p refl refl ok)

  pub capacity_limit_rule-IsLimit :
      (s : Option String) (text : String) → capacity_limit_rule joi s ≡ some text → IsLimit text
  unfolding capacity_limit_rule
  capacity_limit_rule-IsLimit s text e =
      let (value, _, e') = >>=-some (required_text s) _ text e in
      check_limit-IsLimit value text (parse_limit value) refl e'

-- ===== src/Dtos/Made.antt =====
-- Chains of calls that have an answer.
use mathlib.Core.Bool.{false≢true, Bool-set}
use mathlib.Core.Logic.{∥∥₁_elim}
use mathlib.Core.List.{Perm, Permᴰ}
use content_publishing_servi.Common.{
  Option, some, List, [], ◌∷◌, Bool, true, false, ◌&&◌, ◌>>=◌, ◌≡◌, refl, ◌∙◌,
}
use content_publishing_servi.Requests.Attachments.{all, each}
use content_publishing_servi.Dtos.{every}

abbrev pub IsMade : {A : Type 0} → Option A → Type 0
IsMade {A} o = (a : A) × (o ≡ some a)

pub both : (b c : Bool) → (b && c) ≡ true → (b ≡ true) × (c ≡ true)
both true c e = (refl, e)
both false c e = absurd (false≢true e)

module _ {A B : Type 0} where
  pub >>=-IsMade :
      (o : Option A) (f : A → Option B) → IsMade o → ((a : A) → IsMade (f a)) → IsMade (o >>= f)
  >>=-IsMade o f (a, e) h = rw e (h a)

  pub all-IsMade :
      (rule : A → Bool) (f : A → Option B)
      → ((a : A) → rule a ≡ true → IsMade (f a))
      → (xs : List A) → every rule xs ≡ true
      → IsMade (all (each f xs))
  unfolding all each every
  all-IsMade rule f h [] e = ([], refl)
  all-IsMade rule f h (x ∷ xs) e =
      let (valid, rest) = both (rule x) (every rule xs) e in
      let (y, made) = h x valid in
      let (ys, more) = all-IsMade rule f h xs rest in (y ∷ ys, rw (made, more) refl)

  pub each-IsMade :
      (f : A → Option B) → ((a : A) → IsMade (f a)) → (xs : List A) → IsMade (all (each f xs))
  unfolding all each
  each-IsMade f h [] = ([], refl)
  each-IsMade f h (x ∷ xs) =
      let (y, made) = h x in let (ys, more) = each-IsMade f h xs in (y ∷ ys, rw (made, more) refl)

swap_and : (b c d : Bool) → (b && (c && d)) ≡ (c && (b && d))
swap_and true true d = refl
swap_and true false d = refl
swap_and false true d = refl
swap_and false false d = refl

module _ {A : Type 0} (rule : A → Bool) where
  every-permᴰ : {xs ys : List A} → Permᴰ xs ys → every rule xs ≡ every rule ys
  unfolding every
  every-permᴰ Permᴰ.nil = refl
  every-permᴰ (Permᴰ.cons e d) = rw (e, every-permᴰ d) refl
  every-permᴰ (Permᴰ.swap {a' = c} {b' = d} {l = xs} e f) =
      rw (e, f) (swap_and (rule d) (rule c) (every rule xs))
  every-permᴰ (Permᴰ.trans d e) = every-permᴰ d ∙ every-permᴰ e

  pub every-perm : {xs ys : List A} → Perm xs ys → every rule xs ≡ every rule ys
  every-perm p = ∥∥₁_elim p (Bool-set _ _) every-permᴰ

-- ===== src/Common/Decimal.antt =====
-- The decimal text of a number, as a template literal writes it, and that it determines the number.
use Prim.Native.Nat.{ℕ, zero, suc, ◌+◌, ◌-◌, ◌*◌, ◌/◌, ◌%◌, ◌<◌}
use Prim.Native.Char.{Char, code}
use Prim.Native.String.{String}
use mathlib.Core.Path.{◌≡◌, refl, ap, ◌∙◌, sym}
use mathlib.Core.Option.{Option, none, some}
use mathlib.Core.Bool.{Bool, true, ◌&&◌}
use mathlib.Core.List.{List, [], ◌∷◌}
use mathlib.Core.Logic.{inl, inr}
use native.Mathlib.Omega.{arith}
use content_publishing_servi.Common.Tests.{ltb, leb, Bool-cases, if◌then◌else◌}

abbrev digit_char : ℕ → Char
digit_char zero = "0"
digit_char (suc zero) = "1"
digit_char (suc (suc zero)) = "2"
digit_char (suc (suc (suc zero))) = "3"
digit_char (suc (suc (suc (suc zero)))) = "4"
digit_char (suc (suc (suc (suc (suc zero))))) = "5"
digit_char (suc (suc (suc (suc (suc (suc zero)))))) = "6"
digit_char (suc (suc (suc (suc (suc (suc (suc zero))))))) = "7"
digit_char (suc (suc (suc (suc (suc (suc (suc (suc zero)))))))) = "8"
digit_char _ = "9"

code-digit_char : (d : ℕ) → d < 10 → code (digit_char d) ≡ d + 48
code-digit_char zero h = refl
code-digit_char (suc zero) h = refl
code-digit_char (suc (suc zero)) h = refl
code-digit_char (suc (suc (suc zero))) h = refl
code-digit_char (suc (suc (suc (suc zero)))) h = refl
code-digit_char (suc (suc (suc (suc (suc zero))))) h = refl
code-digit_char (suc (suc (suc (suc (suc (suc zero)))))) h = refl
code-digit_char (suc (suc (suc (suc (suc (suc (suc zero))))))) h = refl
code-digit_char (suc (suc (suc (suc (suc (suc (suc (suc zero)))))))) h = refl
code-digit_char (suc (suc (suc (suc (suc (suc (suc (suc (suc zero))))))))) h = refl
code-digit_char (suc (suc (suc (suc (suc (suc (suc (suc (suc (suc d)))))))))) h =
    absurd (omega arith)

-- The digits, the last one first.
digits : ℕ → ℕ → List ℕ
digits zero n = []
digits (suc fuel) n =
    let rest = digits fuel (n / 10) in if ltb n 10 then n ∷ [] else (n % 10) ∷ rest

value : List ℕ → ℕ
value [] = 0
value (d ∷ ds) = value ds * 10 + d

render : List ℕ → String → String
render [] s = s
render (d ∷ ds) s = render ds (String.◌∷◌ (digit_char d) s)

-- `${n}`
unfoldable pub show : ℕ → String
unfolding digits render
show n = render (digits (suc n) n) ""

read : String → ℕ → ℕ
read String.[] n = n
read (String.◌∷◌ c s) n = read s (n * 10 + (code c - 48))

value-digits : (fuel n : ℕ) → n < fuel → value (digits fuel n) ≡ n
unfolding value digits
value-digits zero n h = elim h [ ]
value-digits (suc fuel) n h = ground (arith, value-digits fuel (n / 10))

abbrev AllDigits : List ℕ → Type 0
AllDigits [] = Unit
AllDigits (d ∷ ds) = (d < 10) × AllDigits ds

digits-AllDigits : (fuel n : ℕ) → AllDigits (digits fuel n)
unfolding digits
digits-AllDigits zero n = tt
digits-AllDigits (suc fuel) n = elim (Bool-cases (ltb n 10)) [
  | inl last ↦ rw last (ground arith, tt)
  | inr more ↦ rw more (omega arith, digits-AllDigits fuel (n / 10))
]

read-render : (ds : List ℕ) (s : String) → AllDigits ds → read (render ds s) 0 ≡ read s (value ds)
unfolding read render value
read-render [] s h = refl
read-render (d ∷ ds) s h =
    read-render ds (String.◌∷◌ (digit_char d) s) h.1
    ∙ ap (λ c. read s (value ds * 10 + (c - 48))) (code-digit_char d h.0)
    ∙ ap (λ c. read s (value ds * 10 + c)) (omega arith)

read-show : (n : ℕ) → read (show n) 0 ≡ n
unfolding show read
read-show n =
    read-render (digits (suc n) n) "" (digits-AllDigits (suc n) n)
    ∙ value-digits (suc n) n (omega arith)

pub show_injective : (m n : ℕ) → show m ≡ show n → m ≡ n
show_injective m n h = sym (read-show m) ∙ ap (λ s. read s 0) h ∙ read-show n

-- Whether a character is a decimal digit
unfoldable is_digit : Char → Bool
is_digit c = leb 48 (code c) && leb (code c) 57

unfoldable big_int_from : String → ℕ → Option ℕ
unfolding is_digit
big_int_from String.[] n = some n
big_int_from (String.◌∷◌ c s) n =
    let rest = big_int_from s (n * 10 + (code c - 48)) in if is_digit c then rest else none

-- BigInt of a text: of the forms that the language reads, those without sign, base prefix and
-- blanks; the empty text is 0n. A SyntaxError is none.
unfoldable pub big_int : String → Option ℕ
unfolding big_int_from
big_int s = big_int_from s 0

is_digit-digit_char : (d : ℕ) → d < 10 → is_digit (digit_char d) ≡ true
unfolding is_digit
is_digit-digit_char d h = rw (code-digit_char d h) (ground arith)

big_int_from-render :
    (ds : List ℕ) (s : String)
    → AllDigits ds
    → big_int_from (render ds s) 0 ≡ big_int_from s (value ds)
unfolding big_int_from render value
big_int_from-render [] s h = refl
big_int_from-render (d ∷ ds) s h =
    big_int_from-render ds (String.◌∷◌ (digit_char d) s) h.1
    ∙ rw (is_digit-digit_char d h.0, code-digit_char d h.0)
        (ap (λ c. big_int_from s (value ds * 10 + c)) (omega arith))

pub big_int-show : (n : ℕ) → big_int (show n) ≡ some n
unfolding show big_int big_int_from
big_int-show n =
    big_int_from-render (digits (suc n) n) "" (digits-AllDigits (suc n) n)
    ∙ ap some (value-digits (suc n) n (omega arith))

show_runs : show 1047 ≡ "1047"
unfolding show
show_runs = refl

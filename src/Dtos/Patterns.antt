-- ===== src/Dtos/Patterns.antt =====
-- Regular expressions as patterns, and those of libs/common/src/dtos/validation.dto.ts.
use Prim.Native.Char.{Char, code}
use content_publishing_servi.Common.{ℕ, String, Bool, true, false, ◌&&◌, ◌||◌, leb, if◌then◌else◌}

-- between a b is a character whose code is from a to b
pub data Pattern : Type 0 where
  never empty : Pattern
  between : ℕ → ℕ → Pattern
  seq alt : Pattern → Pattern → Pattern
  star : Pattern → Pattern

abbrev pub exact : ℕ → Pattern
exact c = between c c

-- p? and p+
abbrev pub optional : Pattern → Pattern
optional p = alt empty p

abbrev pub plus : Pattern → Pattern
plus p = seq p (star p)

-- Whether the empty text matches
unfoldable pub nullable : Pattern → Bool
nullable never = false
nullable empty = true
nullable (between a b) = false
nullable (seq p q) = nullable p && nullable q
nullable (alt p q) = nullable p || nullable q
nullable (star p) = true

-- A sequence and a choice without the branches that match nothing
unfoldable pub join : Pattern → Pattern → Pattern
join never q = never
join empty q = q
join (between a b) q = seq (between a b) q
join (seq p r) q = seq (seq p r) q
join (alt p r) q = seq (alt p r) q
join (star p) q = seq (star p) q

unfoldable pub either : Pattern → Pattern → Pattern
either never q = q
either empty q = alt empty q
either (between a b) q = alt (between a b) q
either (seq p r) q = alt (seq p r) q
either (alt p r) q = alt (alt p r) q
either (star p) q = alt (star p) q

-- What may follow the character c
unfoldable pub after : Char → Pattern → Pattern
unfolding nullable join either
after c never = never
after c empty = never
after c (between a b) = if leb a (code c) && leb (code c) b then empty else never
after c (seq p q) =
    let first = join (after c p) q in
    let second = after c q in if nullable p then either first second else first
after c (alt p q) = either (after c p) (after c q)
after c (star p) = join (after c p) (star p)

-- /^p$/.test
unfoldable pub matches : Pattern → String → Bool
unfolding nullable after
matches p String.[] = nullable p
matches p (String.◌∷◌ c rest) = matches (after c p) rest

-- [0-9]+ and then the letter
abbrev amount : ℕ → Pattern
amount letter = seq (plus (between 48 57)) (exact letter)

-- ([0-9]+(\.[0-9]+)?S)?
abbrev seconds : Pattern
seconds =
    optional (
      seq (plus (between 48 57))
        (seq (optional (seq (exact 46) (plus (between 48 57)))) (exact 83)))

-- (T([0-9]+H)?([0-9]+M)?(…S)?)?
abbrev times : Pattern
times = optional (seq (exact 84) (seq (optional (amount 72)) (seq (optional (amount 77)) seconds)))

-- DURATION_REGEX
abbrev pub duration_regex : Pattern
duration_regex = seq (optional (exact 45)) (
    seq (exact 80) (
      plus (
        seq (optional (amount 89))
          (seq (optional (amount 77)) (seq (optional (amount 68)) times)))))

-- DSNP_EMOJI_REGEX
abbrev pub dsnp_emoji_regex : Pattern
dsnp_emoji_regex =
    plus (alt (between 8192 11263) (alt (between 57344 65535) (between 126976 1048575)))

-- ===== src/Base/Text.antt =====
-- What the program uses of `str`: its code points, trimming, ASCII classes and number parsing.
use Prim.Native.Char.{code}
use Prim.Native.Nat.{ℕ, suc, ◌+◌, ◌-◌, ◌*◌, ◌^◌}
use Prim.Native.String.{String}
use mathlib.Core.Bool.{Bool, true, false, ◌&&◌, ◌||◌}
use mathlib.Core.Option.{Option, none, some}
use mathlib.Core.List.{List, [], ◌∷◌, reverse, map}
use wiki_next.Base.Tests.{◌==◌, leb, ltb, if◌then◌else◌, all}

-- `str::chars`.
unfoldable pub codes : String → List ℕ
codes String.[] = []
codes (String.◌∷◌ c s) = code c ∷ codes s

-- `chars().count()`.
unfoldable pub length : List ℕ → ℕ
length [] = 0
length (c ∷ s) = suc (length s)

abbrev pub in_range : ℕ → ℕ → ℕ → Bool
in_range lo hi c = leb lo c && leb c hi

-- `char::is_whitespace`: the White_Space property of Unicode.
unfoldable pub is_whitespace : ℕ → Bool
is_whitespace c =
    in_range 9 13 c
    || c == 32
    || c == 0x85
    || c == 0xa0
    || c == 0x1680
    || in_range 0x2000 0x200a c
    || c == 0x2028
    || c == 0x2029
    || c == 0x202f
    || c == 0x205f
    || c == 0x3000

unfoldable pub trim_start_matches : (ℕ → Bool) → List ℕ → List ℕ
trim_start_matches p [] = []
trim_start_matches p (c ∷ s) = let rest = trim_start_matches p s in if p c then rest else c ∷ s

-- `str::trim_matches`; `str::trim` is `trim_matches is_whitespace`.
unfoldable pub trim_matches : (ℕ → Bool) → List ℕ → List ℕ
unfolding trim_start_matches
trim_matches p s = reverse (trim_start_matches p (reverse (trim_start_matches p s)))

abbrev pub is_empty : List ℕ → Bool
is_empty [] = true
is_empty (_ ∷ _) = false

unfoldable pub is_ascii_digit : ℕ → Bool
is_ascii_digit = in_range b'0' b'9'

unfoldable pub is_ascii_alphabetic : ℕ → Bool
is_ascii_alphabetic c = in_range b'a' b'z' c || in_range b'A' b'Z' c

unfoldable pub is_ascii_alphanumeric : ℕ → Bool
unfolding is_ascii_digit is_ascii_alphabetic
is_ascii_alphanumeric c = is_ascii_alphabetic c || is_ascii_digit c

unfoldable pub to_ascii_lowercase : ℕ → ℕ
to_ascii_lowercase c = if in_range b'A' b'Z' c then c + 32 else c

-- Equality of two texts.
unfoldable pub same_codes : List ℕ → List ℕ → Bool
same_codes [] [] = true
same_codes (c ∷ s) (d ∷ t) = c == d && same_codes s t
same_codes _ _ = false

unfoldable pub eq_ignore_ascii_case : String → String → Bool
unfolding codes same_codes to_ascii_lowercase
eq_ignore_ascii_case s t =
    same_codes (map to_ascii_lowercase (codes s)) (map to_ascii_lowercase (codes t))

-- The value of decimal digits, most significant first.
unfoldable pub decimal : ℕ → List ℕ → ℕ
decimal acc [] = acc
decimal acc (c ∷ s) = decimal (10 * acc + (c - b'0')) s

abbrev pub digits_below : ℕ → List ℕ → Option ℕ
digits_below limit [] = none
digits_below limit (c ∷ s) =
    if all is_ascii_digit (c ∷ s) && ltb (decimal 0 (c ∷ s)) limit
    then some (decimal 0 (c ∷ s))
    else none

abbrev pub skip_plus : List ℕ → List ℕ
skip_plus [] = []
skip_plus (c ∷ s) = if c == b'+' then s else c ∷ s

-- `parse::<u32>` and `parse::<u64>` at a width of 32 and 64: an optional `+`, then digits whose
-- value fits.
unfoldable pub parse_unsigned : ℕ → String → Option ℕ
unfolding codes is_ascii_digit decimal
parse_unsigned width s = digits_below (2 ^ width) (skip_plus (codes s))

-- The parts between the occurrences of a separator.
unfoldable pub split : ℕ → List ℕ → List (List ℕ)
split sep [] = [] ∷ []
split sep (c ∷ s) = elim (split sep s) [
  | [] ↦ []
  | part ∷ parts ↦ if c == sep then [] ∷ part ∷ parts else (c ∷ part) ∷ parts
]

-- `str::contains`.
abbrev starts_with : List ℕ → List ℕ → Bool
starts_with [] s = true
starts_with (c ∷ p) [] = false
starts_with (c ∷ p) (d ∷ s) = c == d && starts_with p s

abbrev contains_at : List ℕ → List ℕ → Bool
contains_at p [] = starts_with p []
contains_at p (c ∷ s) = starts_with p (c ∷ s) || contains_at p s

abbrev pub contains : String → String → Bool
contains text part = contains_at (codes part) (codes text)

-- ===== src/Base/Text.antt =====
-- Classes of characters and the patterns of times. A text is a list of code points.
use Prim.Native.Nat.{ℕ, zero, suc, ◌+◌, ◌-◌, ◌/◌, ◌%◌}
use mathlib.Core.Bool.{Bool, true, false, ◌&&◌, ◌||◌}
use mathlib.Core.Option.{Option, none, some}
use mathlib.Core.List.{List, [], ◌∷◌, ◌++◌}
use alorair_home_assistant.Base.Tests.{leb, ltb, ◌==◌, if◌then◌else◌}
use alorair_home_assistant.Base.Int.{ℤ, pos, negsuc}

abbrev pub in_range : ℕ → ℕ → ℕ → Bool
in_range lo hi c = leb lo c && leb c hi

abbrev pub is_digit : ℕ → Bool
is_digit = in_range b'0' b'9'

abbrev pub is_hex : ℕ → Bool
is_hex c = is_digit c || in_range b'a' b'f' c || in_range b'A' b'F' c

abbrev pub all : (ℕ → Bool) → List ℕ → Bool
all p [] = true
all p (c ∷ cs) = p c && all p cs

-- `.upper()` on the letters of a hexadecimal text
abbrev pub upper : ℕ → ℕ
upper c = if in_range b'a' b'z' c then c - 32 else c

-- What is left of a text behind a pattern of one character each.
abbrev pub after : List (ℕ → Bool) → List ℕ → Option (List ℕ)
after [] cs = some cs
after (p ∷ ps) [] = none
after (p ∷ ps) (c ∷ cs) = if p c then after ps cs else none

abbrev pub is_char : ℕ → ℕ → Bool
is_char c d = d == c

abbrev pub two_digits : List (ℕ → Bool)
two_digits = is_digit ∷ is_digit ∷ []

abbrev pub is_separator : ℕ → Bool
is_separator c = c == b' ' || c == b'T'

-- `\d{4}-\d{2}-\d{2}[ T]\d{2}:\d{2}:\d{2}`
abbrev pub date_and_time : List (ℕ → Bool)
date_and_time =
    two_digits
    ++ (two_digits
        ++ (is_char b'-' ∷ two_digits
            ++ (is_char b'-' ∷ two_digits
                ++ (is_separator ∷ two_digits
                    ++ (is_char b':' ∷ two_digits ++ (is_char b':' ∷ two_digits))))))

-- At most `n` digits go.
abbrev pub skip_digits : ℕ → List ℕ → List ℕ
skip_digits zero cs = cs
skip_digits (suc n) [] = []
skip_digits (suc n) (c ∷ cs) = if is_digit c then skip_digits n cs else c ∷ cs

-- `(?:\.\d{1,6})?`
abbrev pub after_fraction : List ℕ → Option (List ℕ)
after_fraction [] = some []
after_fraction (c ∷ []) = if c == b'.' then none else some (c ∷ [])
after_fraction (c ∷ d ∷ cs) =
    if c == b'.' then if is_digit d then some (skip_digits 5 cs) else none else some (c ∷ d ∷ cs)

abbrev pub is_sign : ℕ → Bool
is_sign c = c == b'+' || c == b'-'

abbrev pub is_empty : Option (List ℕ) → Bool
is_empty (some []) = true
is_empty _ = false

-- `.replace("Z", "+00:00")`
abbrev pub spell_zone : List ℕ → List ℕ
spell_zone [] = []
spell_zone (c ∷ cs) =
    if c == b'Z' then b'+' ∷ b'0' ∷ b'0' ∷ b':' ∷ b'0' ∷ b'0' ∷ spell_zone cs else c ∷ spell_zone cs

-- `str(n)` of an integer, with enough rounds for its digits.
abbrev decimal_digits : ℕ → ℕ → List ℕ → List ℕ
decimal_digits zero n acc = acc
decimal_digits (suc rounds) n acc =
    let rest = decimal_digits rounds (n / 10) ((b'0' + n % 10) ∷ acc) in
    if ltb n 10 then (b'0' + n) ∷ acc else rest

unfoldable pub decimal : ℤ → List ℕ
decimal (pos n) = decimal_digits (suc n) n []
decimal (negsuc n) = b'-' ∷ decimal_digits (suc (suc n)) (suc n) []

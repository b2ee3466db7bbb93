-- ===== src/Cloud/Readings.antt =====
-- models.py, and `utc_sample` of coordinator.py: the vendor's fields. A text is a list of code points.
use alorair_home_assistant.Base.{
  bytes_eq, ℕ, ◌+◌, ◌*◌, ◌-◌, ◌/◌, ◌%◌, ◌^◌, List, [], ◌∷◌, ◌++◌, length, Bool, true, false, ◌&&◌,
  ◌||◌, Option, none, some, ltb, leb, ◌==◌, if◌then◌else◌, String, map,
}
use alorair_home_assistant.Base.Text.{
  after, after_fraction, all, date_and_time, is_char, is_digit, is_empty, is_hex, is_sign,
  spell_zone, two_digits, upper,
}
use alorair_home_assistant.Base.Int.{ℤ, pos}
use alorair_home_assistant.Api.Json.{Json, Fields, get}

abbrev pub hex_digit : ℕ → ℕ
hex_digit n = if ltb n 10 then b'0' + n else b'A' + n - 10

-- `.upper().zfill(2)` of one or two digits
abbrev pub padded : List ℕ → List ℕ
padded (c ∷ []) = b'0' ∷ upper c ∷ []
padded cs = map upper cs

abbrev pub code_text : List ℕ → Option (List ℕ)
code_text cs =
    if leb 1 (length cs) && leb (length cs) 2 && all is_hex cs then some (padded cs) else none

-- `code`
unfoldable pub code : String → Fields → Option (List ℕ)
code key fields = elim (get key fields) [
  | Json.str cs ↦ code_text cs
  | Json.int (pos n) ↦
      if leb n 255 then some (hex_digit (n / 16) ∷ hex_digit (n % 16) ∷ []) else none
  | _ ↦ none
]

abbrev pub digits : ℕ → ℕ → List ℕ
digits a b = a ∷ b ∷ []

-- `powered`
abbrev pub powered_code : Option (List ℕ) → Option Bool
powered_code none = none
powered_code (some cs) =
    if bytes_eq cs (digits b'0' b'0')
    then some false
    else if bytes_eq cs (digits b'0' b'1') || bytes_eq cs (digits b'0' b'2')
    then some true
    else none

unfoldable pub powered : Fields → Option Bool
unfolding code
powered fields = powered_code (code "powerStatus" fields)

-- `FAULT_BITS`
abbrev pub fault_bits : List (ℕ × String)
fault_bits = (0, "E1") ∷ (1, "L0") ∷ (2, "HI") ∷ (3, "E5") ∷ (4, "E4") ∷ (6, "E3") ∷ (7, "E7") ∷ []

abbrev pub labels : ℕ → List (ℕ × String) → List String
labels mask [] = []
labels mask ((bit, label) ∷ bits) =
    if mask / 2 ^ bit % 2 == 1 then label ∷ labels mask bits else labels mask bits

-- `int(value, 16)` of digits in upper case
abbrev pub hex_value : ℕ → List ℕ → ℕ
hex_value acc [] = acc
hex_value acc (c ∷ cs) = hex_value (acc * 16 + (if is_digit c then c - b'0' else c - b'A' + 10)) cs

-- `faults`
unfoldable pub faults : Fields → Option (List String)
unfolding code
faults fields = elim (code "errCode" fields) [
  | none ↦ none
  | some cs ↦ some (labels (hex_value 0 cs) fault_bits)
]

-- What the code uses of Python's floats: `float(value)`, none where it raises, the test that a
-- float is finite, its bounds, `==` with an integer, and the integer of a multiple of five.
pub record Floats : Type 1 where
  pub Float : Type 0
  pub float : Json → Option Float
  pub is_finite : Float → Bool
  pub within : ℤ → ℤ → Float → Bool
  pub equals : Float → ℕ → Bool
  pub multiple_of_5 : Float → Option ℕ

abbrev pub is_number_field : Json → Bool
is_number_field Json.null = false
is_number_field (Json.bool b) = false
is_number_field (Json.str []) = false
is_number_field _ = true

-- `(?:Z|[+-]\d{2}:\d{2})?`
abbrev pub is_zone : List ℕ → Bool
is_zone cs =
    length cs == 0
    || bytes_eq cs (b'Z' ∷ [])
    || is_empty (after (is_sign ∷ two_digits ++ (is_char b':' ∷ two_digits)) cs)

abbrev pub is_timestamp : List ℕ → Bool
is_timestamp cs = elim (after date_and_time cs) [
  | none ↦ false
  | some rest ↦ elim (after_fraction rest) [ none ↦ false | some zone ↦ is_zone zone ]
]

-- `datetime.fromisoformat` is a parameter: the instant, in milliseconds, of a text that it reads,
-- without a zone as UTC.
unfoldable pub utc_sample : (List ℕ → Option ℕ) → Fields → Option ℕ
utc_sample fromisoformat fields = elim (get "updateTimeStr" fields) [
  | Json.str cs ↦ if is_timestamp cs then fromisoformat (spell_zone cs) else none
  | _ ↦ none
]

module _ (floats : Floats) where
  -- `number`, with its bounds
  unfoldable pub number : String → ℤ → ℤ → Fields → Option floats.Float
  number key low high fields =
      if is_number_field (get key fields)
      then elim (floats.float (get key fields)) [
        | none ↦ none
        | some x ↦ if floats.is_finite x && floats.within low high x then some x else none
      ]
      else none

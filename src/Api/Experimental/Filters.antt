-- ===== src/Api/Experimental/Filters.antt =====
-- The filters of a device: `_experimental_number`, `_experimental_filters`, `_experimental_text` of a
-- filter's identity and `_experimental_filter`.
use alorair_home_assistant.Base.{
  ℕ, List, [], ◌∷◌, length, bytes_eq, Bool, true, false, not, ◌&&◌, ◌||◌, Option, none, some, leb,
  ◌==◌, if◌then◌else◌, Result, ok, err,
}
use alorair_home_assistant.Base.Int.{pos}
use alorair_home_assistant.Base.Text.{all, is_digit, is_hex, skip_digits}
use alorair_home_assistant.Api.Json.{Json, Fields, get}
use alorair_home_assistant.Api.Identity.{ApiError, identifier, is_long_number}
use alorair_home_assistant.Api.Client.{ApiClient}
use alorair_home_assistant.Api.Devices.{is_null, require, rows, then_check}

-- Python's floats and `str.casefold`: `float` is none where `float(value)` raises, `whole n` and
-- `hundredths n` are the literals `n` and `n / 100`, `round_2` is `round(x, 2)`, and `floor_half` is
-- `math.floor(x + 0.5)` of a float that is not below 0.
pub record Python : Type 1 where
  pub Float : Type 0
  pub float : Json → Option Float
  pub is_finite : Float → Bool
  pub at_most : Float → Float → Bool
  pub whole : ℕ → Float
  pub hundredths : ℕ → Float
  pub plus : Float → Float → Float
  pub minus : Float → Float → Float
  pub times : Float → Float → Float
  pub over : Float → Float → Float
  pub round_2 : Float → Float
  pub floor_half : Float → ℕ
  pub casefold : List ℕ → List ℕ

-- `(?:\.[0-9]{1,8})?`
abbrev is_fraction : List ℕ → Bool
is_fraction [] = true
is_fraction (c ∷ cs) = c == b'.' && leb 1 (length cs) && leb (length cs) 8 && all is_digit cs

-- `[0-9]{1,10}(?:\.[0-9]{1,8})?`
abbrev is_magnitude : List ℕ → Bool
is_magnitude [] = false
is_magnitude (c ∷ cs) = is_digit c && is_fraction (skip_digits 9 cs)

abbrev pub is_number_text : List ℕ → Bool
is_number_text [] = false
is_number_text (c ∷ cs) = if c == b'-' then is_magnitude cs else is_magnitude (c ∷ cs)

-- `type(value) in {int, float, str}`, and a text has the pattern
abbrev pub is_numeric : Json → Bool
is_numeric (Json.int n) = true
is_numeric (Json.float bits) = true
is_numeric (Json.str cs) = is_number_text cs
is_numeric _ = false

-- `(?:0{12})?[A-Fa-f0-9]{12}`
abbrev pub is_private : List ℕ → Bool
is_private cs = length cs == 12 && all is_hex cs || is_long_number cs

abbrev starts_with : List ℕ → List ℕ → Bool
starts_with [] cs = true
starts_with (p ∷ ps) [] = false
starts_with (p ∷ ps) (c ∷ cs) = p == c && starts_with ps cs

-- `needle in text`
abbrev pub contains : List ℕ → List ℕ → Bool
contains needle [] = starts_with needle []
contains needle (c ∷ cs) = starts_with needle (c ∷ cs) || contains needle cs

abbrev is_seen : List ℕ → List (List ℕ) → Bool
is_seen cs [] = false
is_seen cs (seen ∷ more) = bytes_eq seen cs || is_seen cs more

module _ (py : Python) where
  pub record Filter : Type 0 where
    pub filter_id : List ℕ
    pub recommended_hours : py.Float
    pub used_hours : py.Float
    pub extension_hours : py.Float
    pub remaining_hours : py.Float
    pub remaining_days : py.Float
    pub remaining_percent : py.Float
    pub extension_days : py.Float

  -- `_experimental_number`
  abbrev in_bounds : py.Float → py.Float → Option py.Float → Result ApiError py.Float
  in_bounds low high none = err (ApiError.protocol none)
  in_bounds low high (some x) =
      require (py.is_finite x && py.at_most low x && py.at_most x high) (ok x)

  unfoldable pub experimental_number : Json → py.Float → py.Float → Result ApiError py.Float
  experimental_number value low high =
      require (is_numeric value) (in_bounds low high (py.float value))

  abbrev pub below : py.Float → py.Float → Bool
  below x y = not (py.at_most y x)

  -- `max(x, 0)`
  abbrev pub or_zero : py.Float → py.Float
  or_zero x = if below x (py.whole 0) then py.whole 0 else x

  -- The counters of a filter, and what the code makes of them.
  abbrev pub filter_of : List ℕ → py.Float → py.Float → py.Float → Filter
  filter_of filter_id recommended used extension =
      let remaining = or_zero (py.minus recommended used) in
      record {
        filter_id = filter_id;
        recommended_hours = recommended;
        used_hours = used;
        extension_hours = extension;
        remaining_hours = remaining;
        remaining_days = py.round_2 (py.over remaining (py.whole 24));
        remaining_percent = py.round_2 (py.over (py.times (py.whole 100) remaining) recommended);
        extension_days =
            if below (py.whole 0) extension
            then py.round_2
                (py.over (or_zero (py.minus (py.plus recommended extension) used)) (py.whole 24))
            else py.whole 0;
      }

  abbrev limit : py.Float
  limit = py.whole 1000000000

  abbrev extension_value : Json → Json
  extension_value value = if is_null value then Json.int (pos 0) else value

  -- An entry of the list, behind the ones with these identities.
  unfoldable pub read_filter : List (List ℕ) → Json → Result ApiError Filter
  unfolding experimental_number
  read_filter seen (Json.obj item) = then_check (identifier (get "id" item)) λ filter_id.
      require (not (is_seen filter_id seen) && not (is_private filter_id)) (
        then_check (experimental_number (get "recommendUseHour" item) (py.hundredths 1) limit)
          λ recommended.
            then_check (experimental_number (get "useHour" item) (py.whole 0) limit) λ used.
              then_check
                (experimental_number (extension_value (get "extendUseHour" item)) (py.whole 0)
                  limit)
                λ extension. ok (filter_of filter_id recommended used extension))
  read_filter seen _ = err (ApiError.protocol none)

  unfoldable pub read_filters : List (List ℕ) → List Json → Result ApiError (List Filter)
  read_filters seen [] = ok []
  read_filters seen (item ∷ items) =
      then_check (read_filter seen item)
        λ f. then_check (read_filters (f.filter_id ∷ seen) items) λ fs. ok (f ∷ fs)

  -- `_experimental_filters`
  unfoldable pub experimental_filters : Fields → Result ApiError (List Filter)
  unfolding read_filters
  experimental_filters detail = elim (get "filter" detail) [
    | Json.arr items ↦ require (leb (length (rows items)) 20) (read_filters [] (rows items))
    | _ ↦ err (ApiError.protocol none)
  ]

  -- `secret and secret.casefold() in value.casefold()`
  abbrev tells : List ℕ → List ℕ → Bool
  tells value [] = false
  tells value (c ∷ cs) = contains (py.casefold (c ∷ cs)) (py.casefold value)

  abbrev tells_token : List ℕ → Option (List ℕ) → Bool
  tells_token value none = false
  tells_token value (some token) = tells value token

  -- `_experimental_text`, for a text that has its pattern and its length
  unfoldable pub check_public : ApiClient → List ℕ → Result ApiError (List ℕ)
  check_public c value =
      require
        (not (tells value c.username)
          && not (tells value c.password)
          && not (tells_token value c.token)
          && not (is_private value))
        (ok value)

  unfoldable pub check_all : ApiClient → List Filter → Result ApiError (List Filter)
  unfolding check_public
  check_all c [] = ok []
  check_all c (f ∷ fs) =
      then_check (check_public c f.filter_id)
        λ text. then_check (check_all c fs) λ more. ok (f ∷ more)

  -- `_experimental_filter_summaries`
  unfoldable pub experimental_filter_summaries : ApiClient → Fields → Result ApiError (List Filter)
  unfolding experimental_filters check_all
  experimental_filter_summaries c detail = then_check (experimental_filters detail) (check_all c)

  abbrev pick : List ℕ → List Filter → Result ApiError Filter
  pick filter_id [] = err (ApiError.protocol none)
  pick filter_id (f ∷ fs) = if bytes_eq f.filter_id filter_id then ok f else pick filter_id fs

  -- `_experimental_filter`
  unfoldable pub experimental_filter : ApiClient → Fields → List ℕ → Result ApiError Filter
  unfolding experimental_filter_summaries
  experimental_filter c detail filter_id =
      then_check (experimental_filter_summaries c detail) (pick filter_id)

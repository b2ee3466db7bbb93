-- ===== src/Base/Value.antt =====
-- A value of Python, as far as the integration looks at one: `none`, a `bool`, an `int` that is not
-- negative, a `str`, or anything else. `bool` is a type of its own here, as `type(x) is int` has it.
use Prim.Native.Nat.{ℕ}
use Prim.Native.String.{String}
use mathlib.Core.Bool.{Bool, true, false, not}
use mathlib.Core.Option.{Option, some}
use alorair_home_assistant.Base.Tests.{◌==◌, if◌then◌else◌}
use alorair_home_assistant.Base.Dict.{◌=s◌}

pub data Value : Type 0 where
  none : Value
  bool : Bool → Value
  int : ℕ → Value
  str : String → Value
  other : Value

-- `==` of Python: a `bool` equals the `int` that it stands for. An `other` value equals none here.
abbrev pub int_of : Bool → ℕ
int_of b = if b then 1 else 0

abbrev pub bool_eq : Bool → Bool → Bool
bool_eq true b = b
bool_eq false b = not b

unfoldable pub value_eq : Value → Value → Bool
value_eq none none = true
value_eq (bool a) (bool b) = bool_eq a b
value_eq (bool a) (int n) = int_of a == n
value_eq (int n) (bool a) = n == int_of a
value_eq (int m) (int n) = m == n
value_eq (str s) (str t) = s =s t
value_eq _ _ = false

-- A missing field is `None`.
abbrev pub flag_value : Option Bool → Value
flag_value Option.none = Value.none
flag_value (some b) = bool b

abbrev pub number_value : Option ℕ → Value
number_value Option.none = Value.none
number_value (some n) = int n

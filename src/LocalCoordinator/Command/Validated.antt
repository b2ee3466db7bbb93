-- ===== src/LocalCoordinator/Command/Validated.antt =====
-- What `_validate_command` tells of the key and of the wanted value.
use alorair_home_assistant.Base.{
  ℕ, ◌≡◌, ◌⊎◌, inl, inr, refl, List, [], ◌∷◌, Bool, true, false, ◌&&◌, none, some, if◌then◌else◌,
  ◌==◌, String, arith,
}
use alorair_home_assistant.Base.Dict.{◌=s◌, same_key}
use alorair_home_assistant.Base.Value.{Value, value_eq}
use alorair_home_assistant.LocalCoordinator.Command.{
  Command, is_humidity_command, is_power_command, is_unit_command, validate_command,
}

-- The command passed `_validate_command`, which gave its opcode.
abbrev pub IsValidated : Command → Type 0
IsValidated m = validate_command m.method m.args m.key m.wanted ≡ some m.opcode

-- The two values that a power command wants.
abbrev pub IsFlag : Value → Type 0
IsFlag wanted = (wanted ≡ Value.str "00") ⊎ (wanted ≡ Value.str "01")

pub value_eq-str : (v : Value) (s : String) → value_eq v (Value.str s) ≡ true → v ≡ Value.str s
unfolding value_eq
value_eq-str Value.none s h = cc
value_eq-str (Value.bool b) s h = cc
value_eq-str (Value.int n) s h = cc
value_eq-str (Value.str t) s h = rw (same_key t s h)
value_eq-str Value.other s h = cc

flag_parts :
    (named : Bool) (key text : String) (wanted : Value)
    → (named && key =s "powerStatus" && value_eq wanted (Value.str text)) ≡ true
    → (key ≡ "powerStatus") × (wanted ≡ Value.str text)
flag_parts named key text wanted h =
    let keyed : (key =s "powerStatus") ≡ true = ground arith in
    let same : value_eq wanted (Value.str text) ≡ true = ground arith in
    (same_key key "powerStatus" keyed, value_eq-str wanted text same)

is_power_command-parts :
    (method : String) (args : List Value) (key : String) (wanted : Value)
    → is_power_command method args key wanted ≡ true
    → (key ≡ "powerStatus") × IsFlag wanted
is_power_command-parts method (Value.bool true ∷ []) key wanted h =
    let (keyed, same) = flag_parts (method =s "async_set_power") key "01" wanted h in
    (keyed, inr same)
is_power_command-parts method (Value.bool false ∷ []) key wanted h =
    let (keyed, same) = flag_parts (method =s "async_set_power") key "00" wanted h in
    (keyed, inl same)
is_power_command-parts method _ key wanted h = cc

unit_key :
    (method : String) (args : List Value) (wanted : Value)
    → is_unit_command method args "powerStatus" wanted ≡ false
unit_key method (Value.str unit ∷ []) wanted = ground arith
unit_key method _ wanted = refl

humidity_key :
    (method : String) (args : List Value) (wanted : Value)
    → is_humidity_command method args "powerStatus" wanted ≡ false
humidity_key method (Value.int target ∷ []) (Value.int wanted) = ground arith
humidity_key method _ wanted = refl

verdict :
    (power unit humidity : Bool) (opcode : ℕ)
    → (if power
        then some 0x21
        else if unit
        then some 0x24
        else if humidity
        then some 0x23
        else none)
      ≡ some opcode
    → ((opcode == 0x21) ≡ true → power ≡ true) × (unit ≡ false → humidity ≡ false → power ≡ true)
verdict power unit humidity opcode h = ground arith

module _ (m : Command) (valid : IsValidated m) where
  -- A power command that passed is about the power.
  pub validated_power : (m.opcode == 0x21) ≡ true → (m.key ≡ "powerStatus") × IsFlag m.wanted
  unfolding validate_command
  validated_power opcode = is_power_command-parts m.method m.args m.key m.wanted (
      (verdict (is_power_command m.method m.args m.key m.wanted)
          (is_unit_command m.method m.args m.key m.wanted)
          (is_humidity_command m.method m.args m.key m.wanted) m.opcode valid).0
        opcode)

  -- What is wanted of the power is one of its two values.
  pub validated-IsFlag : m.key ≡ "powerStatus" → IsFlag m.wanted
  unfolding validate_command
  validated-IsFlag keyed =
      (is_power_command-parts m.method m.args m.key m.wanted (
        (verdict (is_power_command m.method m.args m.key m.wanted)
            (is_unit_command m.method m.args m.key m.wanted)
            (is_humidity_command m.method m.args m.key m.wanted) m.opcode valid).1
          (rw (keyed, unit_key m.method m.args m.wanted) refl)
          (rw (keyed, humidity_key m.method m.args m.wanted) refl))).1

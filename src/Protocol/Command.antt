-- ===== src/Protocol/Command.antt =====
-- The frames that are sent: the answer to a keepalive and the three commands.
-- A selection is a `Value` of Python; only a `bool` or an `int` passes its test.
pub mod Echo
use alorair_home_assistant.Base.{
  ℕ, List, [], ◌∷◌, Bool, true, false, ◌||◌, Option, none, some, ◌==◌, if◌then◌else◌, Result, ok,
  err,
}
use alorair_home_assistant.Base.Value.{Value}
use alorair_home_assistant.Protocol.Frame.{Frame, ProtocolError, not_boolean, bad_target, encode}

-- `Frame(mac, timestamp, function, opcode, data)`, whose reserved field is `bytes(4)`
abbrev pub frame : List ℕ → ℕ → ℕ → ℕ → List ℕ → Frame
frame mac timestamp function opcode payload = record {
  mac = mac;
  timestamp = timestamp;
  function = function;
  opcode = opcode;
  payload = payload;
  reserved = 0 ∷ 0 ∷ 0 ∷ 0 ∷ [];
}

-- `bytes([int(b)])`
abbrev pub flag_byte : Bool → List ℕ
flag_byte b = (if b then 1 else 0) ∷ []

unfoldable pub keepalive_response : List ℕ → ℕ → Result ProtocolError (List ℕ)
keepalive_response mac timestamp = encode (frame mac timestamp 0x09 0x01 (0 ∷ []))

unfoldable pub temperature_command : List ℕ → Value → ℕ → Result ProtocolError (List ℕ)
temperature_command mac (Value.bool fahrenheit) timestamp =
    encode (frame mac timestamp 0x09 0x24 (flag_byte fahrenheit))
temperature_command mac _ timestamp = err not_boolean

unfoldable pub power_command : List ℕ → Value → ℕ → Result ProtocolError (List ℕ)
power_command mac (Value.bool on) timestamp = encode (frame mac timestamp 0x09 0x21 (flag_byte on))
power_command mac _ timestamp = err not_boolean

-- `HUMIDITY_TARGETS`: 20 and 25 to 80 in steps of 5
abbrev pub humidity_targets : List ℕ
humidity_targets = 20 ∷ 25 ∷ 30 ∷ 35 ∷ 40 ∷ 45 ∷ 50 ∷ 55 ∷ 60 ∷ 65 ∷ 70 ∷ 75 ∷ 80 ∷ []

abbrev pub contains : List ℕ → ℕ → Bool
contains [] n = false
contains (x ∷ xs) n = n == x || contains xs n

unfoldable pub humidity_target : Value → Option ℕ
humidity_target (Value.int n) = if contains humidity_targets n then some n else none
humidity_target _ = none

unfoldable pub humidity_command : List ℕ → Value → ℕ → Result ProtocolError (List ℕ)
humidity_command mac target timestamp = elim (humidity_target target) [
  | none ↦ err bad_target
  | some n ↦ encode (frame mac timestamp 0x09 0x23 (n ∷ []))
]

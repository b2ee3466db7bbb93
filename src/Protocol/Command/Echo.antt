-- ===== src/Protocol/Command/Echo.antt =====
-- What the other end reads of a command.
use alorair_home_assistant.Base.{
  ℕ, ◌%◌, ◌^◌, ◌≤◌, ◌<◌, ◌≡◌, ◌↔◌, ◌⊎◌, refl, List, [], ◌∷◌, Bool, some, if◌then◌else◌, Result, ok,
  length, All, arith,
}
use alorair_home_assistant.Base.Value.{Value}
use alorair_home_assistant.Protocol.Bytes.{IsByte}
use alorair_home_assistant.Protocol.Frame.{ProtocolError, decode, encode, IsFrame}
use alorair_home_assistant.Protocol.Frame.RoundTrip.{decode-encode}
use alorair_home_assistant.Protocol.Command.{
  frame, power_command, temperature_command, humidity_command, humidity_target, keepalive_response,
}

frame-IsFrame :
    (mac : List ℕ) (timestamp opcode b : ℕ)
    → length mac ≡ 6
    → All IsByte mac
    → timestamp < 2 ^ 32
    → opcode < 256
    → b < 256
    → IsFrame (frame mac timestamp 9 opcode (b ∷ []))
frame-IsFrame mac timestamp opcode b hm bytes ht ho hb = record {
  mac_length = hm;
  reserved_length = refl;
  payload_bound = omega arith;
  timestamp_bound = ht;
  function_byte = omega arith;
  opcode_byte = ho;
  mac_bytes = bytes;
  payload_bytes = omega arith;
  reserved_bytes = omega arith;
}

-- An integer is a humidity target exactly when it is 20, or a multiple of 5 from 25 to 80; the
-- target is then that integer.
pub humidity_target_iff :
    (n t : ℕ)
    → (humidity_target (Value.int n) ≡ some t)
      ↔ ((t ≡ n) × ((n ≡ 20) ⊎ ((25 ≤ n) × (n ≤ 80) × (n % 5 ≡ 0))))
unfolding humidity_target
humidity_target_iff n t = (λ h. ground arith, λ h. ground arith)

-- A command that is built is read by the appliance as function 9 with its own opcode and the
-- selection in one byte.
abbrev pub Reads : List ℕ → ℕ → ℕ → Result ProtocolError (List ℕ) → ℕ → Type 0
Reads mac opcode b sent timestamp =
    (raw : List ℕ) × (sent ≡ ok raw)
    × (decode raw (some mac) ≡ ok (frame mac timestamp 0x09 opcode (b ∷ [])))

frame-Reads :
    (mac : List ℕ) (timestamp opcode b : ℕ)
    → length mac ≡ 6
    → All IsByte mac
    → timestamp < 2 ^ 32
    → opcode < 256
    → b < 256
    → Reads mac opcode b (encode (frame mac timestamp 9 opcode (b ∷ []))) timestamp
frame-Reads mac timestamp opcode b hm bytes ht ho hb =
    let (raw, e, _, d) =
      decode-encode (frame mac timestamp 9 opcode (b ∷ []))
        (frame-IsFrame mac timestamp opcode b hm bytes ht ho hb) in
    (raw, e, d)

target_bound : (v : Value) (n : ℕ) → humidity_target v ≡ some n → n < 256
unfolding humidity_target
target_bound (Value.int m) n h = ground arith
target_bound _ n h = cc

-- For an appliance's address and a 32-bit time, the power and display commands of a boolean are
-- read with opcodes 0x21 and 0x24 and the boolean as 1 or 0, the humidity command of an allowed
-- target with opcode 0x23 and the target as one byte, and the answer to a keepalive with opcode 1.
pub commands_read :
    (mac : List ℕ) (timestamp : ℕ) (b : Bool) (v : Value) (n : ℕ)
    → length mac ≡ 6
    → All IsByte mac
    → timestamp < 2 ^ 32
    → humidity_target v ≡ some n
    → Reads mac 0x21 (if b then 1 else 0) (power_command mac (Value.bool b) timestamp) timestamp
      × Reads mac 0x24
          (if b then 1 else 0)
          (temperature_command mac (Value.bool b) timestamp)
          timestamp
      × Reads mac 0x23 n (humidity_command mac v timestamp) timestamp
      × Reads mac 0x01 0 (keepalive_response mac timestamp) timestamp
unfolding power_command temperature_command keepalive_response humidity_command
commands_read mac timestamp b v n hm bytes ht h = (
  frame-Reads mac timestamp 0x21 _ hm bytes ht (omega arith) (small b),
  frame-Reads mac timestamp 0x24 _ hm bytes ht (omega arith) (small b),
  rw (h, humidity_command)
      (frame-Reads mac timestamp 0x23 n hm bytes ht (omega arith) (target_bound v n h)),
  frame-Reads mac timestamp 1 0 hm bytes ht (omega arith) (omega arith),
)
  where
    small : (b : Bool) → (if b then 1 else 0) < 256
    small b = ground arith

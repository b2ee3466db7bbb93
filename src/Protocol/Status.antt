-- ===== src/Protocol/Status.antt =====
-- `observed_status`: the 34 bytes of a status report.
pub mod Readings
use alorair_home_assistant.Base.{
  ℕ, ◌+◌, ◌-◌, ◌*◌, List, [], ◌∷◌, length, get_or, slice, Bool, true, false, not, ◌||◌, Option,
  none, some, ltb, leb, ◌==◌, if◌then◌else◌, Result, ok, err, raise_if, ◌>>=◌, ◌>>◌,
}
use alorair_home_assistant.Base.Int.{ℤ, pos, negsuc, sub_ℕ, pos_part, neg_part, eq_ℤ, floor_div}
use alorair_home_assistant.Base.Value.{Value}
use alorair_home_assistant.Protocol.Bytes.{from_bytes}
use alorair_home_assistant.Protocol.Frame.{Frame, ProtocolError, not_status, unknown_display}
use alorair_home_assistant.Protocol.Command.{humidity_target}

-- `int.from_bytes(b, "big", signed=True)` of one byte
abbrev pub signed : ℕ → ℤ
signed b = if ltb b 128 then pos b else sub_ℕ b 256

-- `math.floor(celsius * 9 / 5 + 32)`: for a byte the fraction of the quotient is 0 or a fifth or
-- more away from an integer, so the floating-point sum has the floor of the exact one.
abbrev pub fahrenheit_of : ℤ → ℤ
fahrenheit_of c = floor_div (sub_ℕ (pos_part c * 9 + 160) (neg_part c * 9)) 5

unfoldable pub temperature : List ℕ → ℕ → Option ℤ
temperature payload index =
    let celsius = signed (get_or payload index 0) in
    let fahrenheit = signed (get_or payload (index + 1) 0) in
    if eq_ℤ fahrenheit (fahrenheit_of celsius) then some celsius else none

unfoldable pub humidity : ℕ → Option ℕ
humidity value = if leb value 100 then some value else none

pub data Display : Type 0 where
  celsius fahrenheit : Display

-- `bool(b) if b in (0, 1) else None`
abbrev pub flag : ℕ → Option Bool
flag b = if b == 0 then some false else if b == 1 then some true else none

pub record Observed : Type 0 where
  pub temperature_display : Display
  pub power : Option Bool
  pub draining : Option Bool
  pub target_humidity : Option ℕ
  pub event_opcode : ℕ
  pub inlet_celsius : Option ℤ
  pub inlet_humidity : Option ℕ
  pub outlet_celsius : Option ℤ
  pub outlet_humidity : Option ℕ
  pub inlet_grlb : ℕ
  pub inlet_gkg : ℕ
  pub outlet_grlb : ℕ
  pub outlet_gkg : ℕ

-- The dict that `observed_status` returns.
unfoldable pub report : Frame → Observed
report frame =
    let payload = frame.payload in
    record {
      temperature_display =
          if get_or payload 32 0 == 0 then Display.celsius else Display.fahrenheit;
      power = flag (get_or payload 3 0);
      draining = flag (get_or payload 4 0);
      target_humidity = humidity_target (Value.int (get_or payload 23 0));
      event_opcode = frame.opcode;
      inlet_celsius = temperature payload 8;
      inlet_humidity = humidity (get_or payload 10 0);
      outlet_celsius = temperature payload 11;
      outlet_humidity = humidity (get_or payload 13 0);
      inlet_grlb = from_bytes (slice 14 16 payload);
      inlet_gkg = from_bytes (slice 16 18 payload);
      outlet_grlb = from_bytes (slice 18 20 payload);
      outlet_gkg = from_bytes (slice 20 22 payload);
    }

unfoldable pub observed_status : Frame → Result ProtocolError Observed
observed_status frame = do
  raise_if (not (frame.function == 0x07) || not (length frame.payload == 34)) not_status
  raise_if (ltb 1 (get_or frame.payload 32 0)) unknown_display
  ok (report frame)

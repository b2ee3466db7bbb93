-- ===== src/Protocol/Status/Readings.antt =====
-- What a status report can say.
use alorair_home_assistant.Base.{
  ℕ, ◌+◌, ◌%◌, ◌≤◌, ◌<◌, ◌≡◌, ◌⊎◌, List, get_or, take, drop, ◌∷◌, [], some, ok, arith, All,
  All-drop,
}
use alorair_home_assistant.Base.Int.{ℤ, pos, negsuc, ◌≤ℤ◌}
use alorair_home_assistant.Base.Value.{Value}
use alorair_home_assistant.Protocol.Bytes.{IsByte, from_bytes}
use alorair_home_assistant.Protocol.Frame.{Frame}
use alorair_home_assistant.Protocol.Command.{humidity_target}
use alorair_home_assistant.Protocol.Command.Echo.{humidity_target_iff}
use alorair_home_assistant.Protocol.Status.{
  Observed, observed_status, report, temperature, humidity,
}

-- The Fahrenheit byte confirms a Celsius byte only from -88 to 53 degrees.
temperature_range :
    (payload : List ℕ) (index : ℕ) (c : ℤ)
    → get_or payload index 0 < 256
    → get_or payload (index + 1) 0 < 256
    → temperature payload index ≡ some c
    → (negsuc 87 ≤ℤ c) × (c ≤ℤ pos 53)
unfolding temperature
temperature_range payload index c h k e = ground arith

-- The values of a report that a sensor may show.
pub record IsPlausible (o : Observed) : Type 0 where
  pub inlet_temperature : (c : ℤ) → o.inlet_celsius ≡ some c → (negsuc 87 ≤ℤ c) × (c ≤ℤ pos 53)
  pub outlet_temperature : (c : ℤ) → o.outlet_celsius ≡ some c → (negsuc 87 ≤ℤ c) × (c ≤ℤ pos 53)
  pub inlet_percent : (h : ℕ) → o.inlet_humidity ≡ some h → h ≤ 100
  pub outlet_percent : (h : ℕ) → o.outlet_humidity ≡ some h → h ≤ 100
  pub target : (t : ℕ) → o.target_humidity ≡ some t → (t ≡ 20) ⊎ ((25 ≤ t) × (t ≤ 80) × (t % 5 ≡ 0))
  pub grains : o.inlet_grlb < 65536
  pub outlet_grains : o.outlet_grlb < 65536
  pub grams : o.inlet_gkg < 65536
  pub outlet_grams : o.outlet_gkg < 65536

All-get_or : (xs : List ℕ) (i : ℕ) → All IsByte xs → get_or xs i 0 < 256
All-get_or [] i h = omega arith
All-get_or (x ∷ xs) ℕ.zero h = h.0
All-get_or (x ∷ xs) (ℕ.suc i) h = All-get_or xs i h.1

humidity_bound : (b h : ℕ) → humidity b ≡ some h → h ≤ 100
unfolding humidity
humidity_bound b h e = ground arith

target_bounds :
    (b t : ℕ)
    → humidity_target (Value.int b) ≡ some t
    → (t ≡ 20) ⊎ ((25 ≤ t) × (t ≤ 80) × (t % 5 ≡ 0))
target_bounds b t e = ground (arith, (humidity_target_iff b t).0 e)

two_bytes : (xs : List ℕ) → All IsByte xs → from_bytes (take 2 xs) < 65536
two_bytes [] h = omega arith
two_bytes (a ∷ []) h = omega arith
two_bytes (a ∷ b ∷ xs) h = omega arith

observed-report : (f : Frame) (o : Observed) → observed_status f ≡ ok o → o ≡ report f
unfolding observed_status
observed-report f o h = ground arith

report-IsPlausible : (f : Frame) → All IsByte f.payload → IsPlausible (report f)
unfolding report
report-IsPlausible f bytes =
    let p : List ℕ = f.payload in
    record {
      inlet_temperature =
          λ c. temperature_range p 8 c (All-get_or p 8 bytes) (All-get_or p 9 bytes);
      outlet_temperature =
          λ c. temperature_range p 11 c (All-get_or p 11 bytes) (All-get_or p 12 bytes);
      inlet_percent = humidity_bound (get_or p 10 0);
      outlet_percent = humidity_bound (get_or p 13 0);
      target = target_bounds (get_or p 23 0);
      grains = two_bytes (drop 14 p) (All-drop IsByte 14 p bytes);
      outlet_grains = two_bytes (drop 18 p) (All-drop IsByte 18 p bytes);
      grams = two_bytes (drop 16 p) (All-drop IsByte 16 p bytes);
      outlet_grams = two_bytes (drop 20 p) (All-drop IsByte 20 p bytes);
    }

-- Every value that a status report of bytes yields is plausible: temperatures that both bytes agree
-- on lie between -88 and 53 degrees, relative humidities are at most 100, the target is 20 or a
-- multiple of 5 from 25 to 80, and the specific humidities fit 16 bits.
pub observed_status-IsPlausible :
    (f : Frame) (o : Observed) → All IsByte f.payload → observed_status f ≡ ok o → IsPlausible o
observed_status-IsPlausible f o bytes h = rw (observed-report f o h) (report-IsPlausible f bytes)

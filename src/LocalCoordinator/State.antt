-- ===== src/LocalCoordinator/State.antt =====
-- The coordinator's fields and its properties. Monotonic times are milliseconds.
use alorair_home_assistant.Base.{
  ℕ, ◌+◌, ◌-◌, ◌*◌, ◌/◌, [], Bool, true, false, not, ◌&&◌, ◌||◌, Option, none, some, ltb, leb, ◌==◌,
  if◌then◌else◌, String,
}
use alorair_home_assistant.Base.Int.{ℤ, negsuc}
use alorair_home_assistant.Base.Dict.{Dict, lookup, ◌=s◌}
use alorair_home_assistant.Base.Value.{Value, value_eq}
use alorair_home_assistant.LocalClient.State.{DeviceStatus}

-- `STATUS_MAX_AGE`, `MINIMUM_OFF_SECONDS`, `PENDING_SECONDS`
abbrev pub status_max_age : ℕ
status_max_age = 35000

abbrev pub minimum_off_seconds : ℕ
minimum_off_seconds = 180

abbrev pub pending_time : ℕ
pending_time = 300000

-- `feedback.status`
pub data FeedbackStatus : Type 0 where
  awaiting_feedback not_observed delivery_uncertain rejected device_reported : FeedbackStatus

pub record LocalCommandFeedback : Type 0 where
  pub action : String
  pub status : FeedbackStatus
  pub issued_at : ℕ
  pub deadline : ℕ
  pub field : String
  pub requested : Value
  pub acknowledged : Bool
  pub reported_at : Option ℕ

pub record LocalPendingCommand : Type 0 where
  pub wanted : Value
  pub deadline : ℕ
  pub issued_monotonic : ℕ

-- `self.data`: each key that the coordinator writes, absent or `None` as `none`.
pub record Report : Type 0 where
  pub power_status : Option String
  pub drain_status : Option String
  pub temperature_unit : Option ℕ
  pub current_humidity : Option ℕ
  pub in_humidity : Option ℕ
  pub out_humidity : Option ℕ
  pub in_celsius : Option ℤ
  pub out_celsius : Option ℤ
  pub in_gkg : Option ℕ
  pub out_gkg : Option ℕ
  pub in_grlb : Option ℕ
  pub out_grlb : Option ℕ
  pub observed_at_utc : Option ℕ

-- What the coordinator reads of its client.
pub record Link : Type 0 where
  pub connected : Bool
  pub last_status : Option DeviceStatus

pub record Coordinator : Type 0 where
  pub report : Report
  pub last_update_success : Bool
  pub pending : Dict LocalPendingCommand
  pub last_command : Option LocalCommandFeedback
  pub last_auto_humidity : ℕ
  pub session_id : Option ℕ
  pub receive_sequence : ℤ
  pub received_monotonic : Option ℕ
  pub previous_on : Option Bool
  pub last_off : ℕ
  pub closing : Bool
  pub allow_local_power : Bool

abbrev pub no_report : Report
no_report = record {
  power_status = none;
  drain_status = none;
  temperature_unit = none;
  current_humidity = none;
  in_humidity = none;
  out_humidity = none;
  in_celsius = none;
  out_celsius = none;
  in_gkg = none;
  out_gkg = none;
  in_grlb = none;
  out_grlb = none;
  observed_at_utc = none;
}

-- `__init__`, at the time `now`
abbrev pub new_coordinator : Bool → ℕ → Coordinator
new_coordinator allow_local_power now = record {
  report = no_report;
  last_update_success = false;
  pending = [];
  last_command = none;
  last_auto_humidity = 50;
  session_id = none;
  receive_sequence = negsuc 0;
  received_monotonic = none;
  previous_on = none;
  last_off = now;
  closing = false;
  allow_local_power = allow_local_power;
}

abbrev pub same_session : DeviceStatus → Option ℕ → Bool
same_session d none = false
same_session d (some i) = d.session_id == i

-- `0 <= time.monotonic() - self._received_monotonic <= STATUS_MAX_AGE`
abbrev pub is_recent : Option ℕ → ℕ → Bool
is_recent none now = false
is_recent (some t) now = leb t now && leb now (t + status_max_age)

abbrev pub is_current : Option DeviceStatus → Option ℕ → Bool
is_current none i = false
is_current (some d) i = same_session d i

-- `status_stale`
unfoldable pub status_stale : Link → ℕ → Coordinator → Bool
status_stale link now c =
    c.closing
    || not link.connected
    || not (is_current link.last_status c.session_id)
    || not (is_recent c.received_monotonic now)

pub data Power : Type 0 where
  on off : Power

abbrev pub wanted_power : Value → Power
wanted_power wanted = if value_eq wanted (Value.str "00") then Power.off else Power.on

abbrev pub unexpired : ℕ → Option LocalPendingCommand → Option LocalPendingCommand
unexpired now none = none
unexpired now (some p) = if ltb now p.deadline then some p else none

-- `pending_power`
unfoldable pub pending_power : ℕ → Coordinator → Option Power
pending_power now c = elim (unexpired now (lookup "powerStatus" c.pending)) [
  | none ↦ none
  | some p ↦ some (wanted_power p.wanted)
]

abbrev pub is_pending_off : Option Power → Bool
is_pending_off none = false
is_pending_off (some Power.on) = false
is_pending_off (some Power.off) = true

-- `data.get("powerStatus") == code`
abbrev pub has_power : String → Coordinator → Bool
has_power code c = elim c.report.power_status [ none ↦ false | some s ↦ s =s code ]

-- `max(0, int(MINIMUM_OFF_SECONDS - (now - self._last_off) + 0.999))`
abbrev pub seconds_left : ℕ → ℕ → ℕ
seconds_left last_off now = (minimum_off_seconds * 1000 + 999 + last_off - now) / 1000

-- `restart_delay_remaining`, in seconds
unfoldable pub restart_delay_remaining : Link → ℕ → Coordinator → ℕ
restart_delay_remaining link now c =
    if is_pending_off (pending_power now c)
    then minimum_off_seconds
    else if has_power "01" c && not (status_stale link now c)
    then 0
    else seconds_left c.last_off now

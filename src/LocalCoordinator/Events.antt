-- ===== src/LocalCoordinator/Events.antt =====
-- Reports, disconnections and the watchdog. Each of these runs without a wait, at one time `now`.
pub mod Protection
use alorair_home_assistant.Base.{
  ℕ, ◌+◌, ◌-◌, List, [], ◌∷◌, Bool, true, false, not, ◌&&◌, ◌||◌, Option, none, some, ltb, leb,
  ◌==◌, if◌then◌else◌, String,
}
use alorair_home_assistant.Base.Int.{ℤ, pos, negsuc, ltb_ℤ}
use alorair_home_assistant.Base.Dict.{Dict, erase, ◌=s◌}
use alorair_home_assistant.Protocol.Status.{Display}
use alorair_home_assistant.LocalClient.State.{DeviceStatus, status_eq}
use alorair_home_assistant.LocalCoordinator.State.{
  Coordinator, FeedbackStatus, Link, LocalCommandFeedback, LocalPendingCommand, Report,
  status_stale,
}

abbrev pub flag_code : Option Bool → Option String
flag_code none = none
flag_code (some true) = some "01"
flag_code (some false) = some "00"

abbrev pub display_code : Display → ℕ
display_code Display.celsius = 0
display_code Display.fahrenheit = 1

unfoldable pub report_of : DeviceStatus → Report
report_of d = record {
  power_status = flag_code d.power;
  drain_status = flag_code d.draining;
  temperature_unit = some (display_code d.temperature_unit);
  current_humidity = d.target_humidity;
  in_humidity = d.inlet_humidity;
  out_humidity = d.outlet_humidity;
  in_celsius = d.inlet_celsius;
  out_celsius = d.outlet_celsius;
  in_gkg = some d.inlet_gkg;
  out_gkg = some d.outlet_gkg;
  in_grlb = some d.inlet_grlb;
  out_grlb = some d.outlet_grlb;
  observed_at_utc = some d.received_at;
}

-- `self._session_id is not None and status.session_id < self._session_id`
abbrev pub is_older_session : DeviceStatus → Option ℕ → Bool
is_older_session d none = false
is_older_session d (some i) = ltb d.session_id i

abbrev pub is_same_session : DeviceStatus → Option ℕ → Bool
is_same_session d none = false
is_same_session d (some i) = d.session_id == i

-- The tests of `_on_status` on the client.
abbrev pub is_foreign : Link → DeviceStatus → Coordinator → Bool
is_foreign link d c =
    c.closing
    || not link.connected
    || (elim link.last_status [
      | none ↦ true
      | some current ↦
          not (current.session_id == d.session_id)
          || (current.receive_sequence == d.receive_sequence
              && current.received_monotonic == d.received_monotonic
              && not (status_eq current d))
    ])
    || is_older_session d c.session_id

-- A report of another session than the last one starts anew.
abbrev pub enter_session : ℕ → DeviceStatus → Coordinator → Coordinator
enter_session now d c = if is_same_session d c.session_id then c else record c {
  session_id = some d.session_id;
  receive_sequence = negsuc 0;
  received_monotonic = none;
  previous_on = none;
  last_off = now;
}

abbrev pub is_earlier : DeviceStatus → Option ℕ → Bool
is_earlier d none = false
is_earlier d (some t) = ltb d.received_monotonic t

abbrev pub is_out_of_order : DeviceStatus → Coordinator → Bool
is_out_of_order d c =
    ltb_ℤ (pos d.receive_sequence) c.receive_sequence || is_earlier d c.received_monotonic

-- `status.power is False and self._previous_on is not False`
abbrev pub turned_off : Option Bool → Option Bool → Bool
turned_off (some false) (some false) = false
turned_off (some false) _ = true
turned_off _ _ = false

abbrev pub auto_humidity : Option ℕ → ℕ → ℕ
auto_humidity none last = last
auto_humidity (some t) last = if leb 25 t then t else last

-- The rest of `_on_status`, for a report that is in order.
unfoldable pub accept_status : Link → ℕ → DeviceStatus → Coordinator → Coordinator
unfolding report_of
accept_status link now d c =
    let c' = record c {
      last_off = if turned_off d.power c.previous_on then now else c.last_off;
      previous_on = d.power;
      receive_sequence = pos d.receive_sequence;
      received_monotonic = some d.received_monotonic;
      last_auto_humidity = auto_humidity d.target_humidity c.last_auto_humidity;
      report = report_of d;
    } in
    record c' { last_update_success = not (status_stale link now c') }

-- `_on_status`
unfoldable pub on_status : Link → ℕ → DeviceStatus → Coordinator → Coordinator
on_status link now d c =
    if is_foreign link d c
    then c
    else if is_out_of_order d (enter_session now d c)
    then enter_session now d c
    else accept_status link now d (enter_session now d c)

abbrev pub is_session : ℕ → Option ℕ → Bool
is_session i none = false
is_session i (some j) = i == j

-- `_on_disconnect`
unfoldable pub on_disconnect : ℕ → ℕ → Coordinator → Coordinator
on_disconnect i now c = if c.closing || not (is_session i c.session_id) then c else record c {
  received_monotonic = none;
  previous_on = none;
  last_off = now;
  last_update_success = false;
}

-- The pending commands that a round of the watchdog leaves, and the last command's status.
abbrev pub expire : ℕ → Dict LocalPendingCommand → Dict LocalPendingCommand
expire now [] = []
expire now ((key, p) ∷ d) = if leb p.deadline now then expire now d else (key, p) ∷ expire now d

abbrev pub expires_key : ℕ → String → Dict LocalPendingCommand → Bool
expires_key now field [] = false
expires_key now field ((key, p) ∷ d) = leb p.deadline now && field =s key || expires_key now field d

abbrev pub unobserved :
    ℕ → Dict LocalPendingCommand → Option LocalCommandFeedback → Option LocalCommandFeedback
unobserved now pending none = none
unobserved now pending (some f) = some (
    if expires_key now f.field pending
    then record f { status = FeedbackStatus.not_observed }
    else f)

-- A round of `_watchdog`
unfoldable pub watchdog_round : Link → ℕ → Coordinator → Coordinator
watchdog_round link now c = record c {
  pending = expire now c.pending;
  last_command = unobserved now c.pending c.last_command;
  last_update_success = c.last_update_success && not (status_stale link now c);
}

-- ===== src/LocalCoordinator/Command.antt =====
-- `async_command`: validation, the tests before a command is sent, and its end. Between the two the
-- client is awaited, and reports, disconnections and the watchdog change the coordinator.
pub mod Gate
pub mod Run
pub mod Validated
pub mod Stopped
pub mod Uncertain
pub mod Optimism
use alorair_home_assistant.Base.{
  ℕ, ◌+◌, ◌%◌, List, [], ◌∷◌, Bool, true, false, not, ◌&&◌, ◌||◌, Option, none, some, ltb, leb,
  ◌==◌, if◌then◌else◌, String, is_some,
}
use alorair_home_assistant.Base.Dict.{Dict, lookup, insert, erase, ◌=s◌}
use alorair_home_assistant.Base.Value.{Value, value_eq, flag_value, number_value}
use alorair_home_assistant.LocalClient.State.{DeviceStatus}
use alorair_home_assistant.LocalClient.Receive.{reported}
use alorair_home_assistant.LocalCoordinator.State.{
  Coordinator, FeedbackStatus, Link, LocalCommandFeedback, LocalPendingCommand, Report,
  status_stale, pending_time, restart_delay_remaining, has_power, unexpired,
}
use alorair_home_assistant.LocalCoordinator.Events.{on_status}

abbrev pub is_power_command : String → List Value → String → Value → Bool
is_power_command method (Value.bool on ∷ []) key wanted =
    method =s "async_set_power"
    && key =s "powerStatus"
    && value_eq wanted (Value.str (if on then "01" else "00"))
is_power_command method _ key wanted = false

abbrev pub is_unit_command : String → List Value → String → Value → Bool
is_unit_command method (Value.str unit ∷ []) key wanted =
    method =s "async_set_temperature_unit"
    && (unit =s "celsius" || unit =s "fahrenheit")
    && key =s "temperatureUnit"
    && value_eq wanted (Value.str (if unit =s "fahrenheit" then "01" else "00"))
is_unit_command method _ key wanted = false

abbrev pub is_humidity_command : String → List Value → String → Value → Bool
is_humidity_command method (Value.int target ∷ []) key (Value.int wanted) =
    method =s "async_set_humidity"
    && key =s "currentHumidity"
    && wanted == target
    && (wanted == 20 || leb 25 wanted && leb wanted 80 && wanted % 5 == 0)
is_humidity_command method _ key wanted = false

-- `_validate_command`: the opcode, or none for what is not supported.
unfoldable pub validate_command : String → List Value → String → Value → Option ℕ
validate_command method args key wanted =
    if is_power_command method args key wanted
    then some 0x21
    else if is_unit_command method args key wanted
    then some 0x24
    else if is_humidity_command method args key wanted
    then some 0x23
    else none

-- The errors of a command that is not sent, named for their messages.
pub data Refusal : Type 0 where
  unsupported unloading not_connected start_disabled stale unknown_power not_on : Refusal
  still_pending restart_protection : Refusal

-- A command is refused, needs nothing, or is sent from a new state.
pub data Decision : Type 0 where
  refuse : Refusal → Decision
  already : Decision
  send : Coordinator → Decision

pub record Command : Type 0 where
  pub method : String
  pub args : List Value
  pub key : String
  pub wanted : Value
  pub opcode : ℕ
  pub requires_on : Bool

abbrev pub is_starting : Command → Bool
is_starting m = m.opcode == 0x21 && value_eq m.wanted (Value.str "01")

abbrev pub is_stopping : Command → Bool
is_stopping m = m.opcode == 0x21 && value_eq m.wanted (Value.str "00")

abbrev pub text_value : Option String → Value
text_value none = Value.none
text_value (some s) = Value.str s

-- `{0: "00", 1: "01"}.get(actual)`
abbrev pub unit_value : Option ℕ → Value
unit_value none = Value.none
unit_value (some n) =
    if n == 0 then Value.str "00" else if n == 1 then Value.str "01" else Value.none

-- `actual` for the three keys that a validated command has.
abbrev pub actual_value : String → Report → Value
actual_value key r =
    if key =s "powerStatus"
    then text_value r.power_status
    else if key =s "temperatureUnit"
    then unit_value r.temperature_unit
    else if key =s "currentHumidity"
    then number_value r.current_humidity
    else Value.none

-- `pending and pending.deadline > now and pending.wanted == wanted`
abbrev pub is_repeated : ℕ → Value → Option LocalPendingCommand → Bool
is_repeated now wanted o = elim (unexpired now o) [
  | none ↦ false
  | some p ↦ value_eq p.wanted wanted
]

-- `method.removeprefix("async_")`, for the methods that pass the validation
abbrev pub action_name : String → String
action_name method =
    if method =s "async_set_power"
    then "set_power"
    else if method =s "async_set_temperature_unit"
    then "set_temperature_unit"
    else if method =s "async_set_humidity"
    then "set_humidity"
    else method

-- The state that a command is sent from: its pending entry and its feedback are new.
abbrev pub issue : ℕ → ℕ → Command → Coordinator → Coordinator
issue now utc m c = record c {
  pending =
      insert m.key
        (record { wanted = m.wanted; deadline = now + pending_time; issued_monotonic = now })
        c.pending;
  last_command = some (record {
    action = action_name m.method;
    status = FeedbackStatus.awaiting_feedback;
    issued_at = utc;
    deadline = now + pending_time;
    field = m.key;
    requested = m.wanted;
    acknowledged = false;
    reported_at = none;
  });
  last_off = if is_stopping m then now else c.last_off;
}

abbrev pub check : Bool → Refusal → Decision → Decision
check true r d = Decision.refuse r
check false r d = d

-- `_async_command` up to the call of the client.
unfoldable pub begin_command : Link → ℕ → ℕ → Command → Coordinator → Decision
begin_command link now utc m c =
    let stale = status_stale link now c in
    let known = has_power "00" c || has_power "01" c in
    let pending = lookup m.key c.pending in
    let done =
      value_eq (actual_value m.key c.report) m.wanted && not (is_some pending) && not stale in
    let delayed = is_starting m && ltb 0 (restart_delay_remaining link now c) in
    check c.closing Refusal.unloading (
      check (not link.connected) Refusal.not_connected (
        check (is_starting m && not c.allow_local_power) Refusal.start_disabled (
          check (not (is_stopping m) && stale) Refusal.stale (
            check (is_starting m && not known) Refusal.unknown_power (
              check ((m.requires_on || m.opcode == 0x23) && not (has_power "01" c)) Refusal.not_on (
                check (is_repeated now m.wanted pending) Refusal.still_pending (
                  if done
                  then Decision.already
                  else check delayed Refusal.restart_protection
                      (Decision.send (issue now utc m c)))))))))

-- `async_command` with its validation; the lock is held from here on.
unfoldable pub async_command :
    Link → ℕ → ℕ → String → List Value → String → Value → Bool → Coordinator → Decision
async_command link now utc method args key wanted requires_on c =
    elim (validate_command method args key wanted) [
      | none ↦ Decision.refuse Refusal.unsupported
      | some opcode ↦
          begin_command link now utc
            (record {
              method = method;
              args = args;
              key = key;
              wanted = wanted;
              opcode = opcode;
              requires_on = requires_on;
            })
            c
    ]

-- How the call of the client ended: with a status, uncertain or past its deadline, with another
-- error of the client, or with an error that nothing handles.
pub data Answer : Type 0 where
  returned : DeviceStatus → Answer
  uncertain rejected unhandled : Answer

abbrev pub note : FeedbackStatus → Coordinator → Coordinator
note status c = record c {
  last_command = elim c.last_command [ none ↦ none | some f ↦ some (record f { status = status }) ];
}

abbrev pub first_arg : List Value → Value
first_arg [] = Value.none
first_arg (v ∷ vs) = v

-- `status.event_opcode != opcode or actual != args[0] or status.received_monotonic < issued`
abbrev pub is_unexpected : Command → ℕ → DeviceStatus → Bool
is_unexpected m issued d =
    not (d.event_opcode == m.opcode)
    || not (value_eq (reported m.opcode d) (first_arg m.args))
    || ltb d.received_monotonic issued

-- The `else` branch: the command is confirmed by `d`.
abbrev pub confirm : Command → DeviceStatus → Coordinator → Coordinator
confirm m d c = record c {
  pending = erase m.key c.pending;
  last_command = elim c.last_command [
    | none ↦ none
    | some f ↦ some (record f {
      status = FeedbackStatus.device_reported;
      acknowledged = true;
      reported_at = some d.received_at;
    })
  ];
}

-- A later report of the same session that says off, after a start was confirmed.
abbrev pub is_reversed : Command → DeviceStatus → DeviceStatus → Bool
is_reversed m d latest =
    is_starting m
    && latest.session_id == d.session_id
    && leb d.receive_sequence latest.receive_sequence
    && leb d.received_monotonic latest.received_monotonic
    && (elim latest.power [ none ↦ false | some on ↦ not on ])

abbrev pub mark_off : Bool → ℕ → Coordinator → Coordinator
mark_off stopped now c = record c { last_off = if stopped then now else c.last_off }

abbrev pub review : Link → ℕ → Command → DeviceStatus → Coordinator → Coordinator
review link now m d c = elim link.last_status [
  | none ↦ c
  | some latest ↦ on_status link now latest (mark_off (is_reversed m d latest) now c)
]

-- `_async_command` from the end of the client's call.
unfoldable pub complete_command : Link → ℕ → ℕ → Command → Answer → Coordinator → Coordinator
complete_command link now issued m (Answer.returned d) c =
    if is_unexpected m issued d
    then note FeedbackStatus.delivery_uncertain c
    else review link now m d (mark_off (is_stopping m) now (confirm m d c))
complete_command link now issued m Answer.uncertain c = note FeedbackStatus.delivery_uncertain c
complete_command link now issued m Answer.rejected c =
    note FeedbackStatus.rejected (record c { pending = erase m.key c.pending })
complete_command link now issued m Answer.unhandled c = c

-- ===== src/LocalClient/Command.antt =====
-- The public commands, from their arguments to the result of the command's task.
pub mod Sound
pub mod Reach
pub mod Kept
pub mod Truth
pub mod Phase
pub mod Life
use alorair_home_assistant.Base.{
  ℕ, List, [], ◌∷◌, Bool, true, false, ◌&&◌, ◌||◌, Option, none, some, ◌==◌, if◌then◌else◌, Result,
  ok, err, ◌>>=◌,
}
use alorair_home_assistant.Base.Dict.{◌=s◌}
use alorair_home_assistant.Base.Value.{Value}
use alorair_home_assistant.Protocol.Command.{flag_byte, humidity_target}
use alorair_home_assistant.LocalClient.State.{
  Client, ClientError, DeviceStatus, Future, Pending, Session, UncertainReason, not_sent,
  invalid_value,
}
use alorair_home_assistant.LocalClient.Connection.{require_fresh_status}
use alorair_home_assistant.LocalClient.Send.{is_off}
use alorair_home_assistant.LocalClient.Receive.{uncertain_error}

-- The arguments of `_command`.
pub record Request : Type 0 where
  pub opcode : ℕ
  pub payload : List ℕ
  pub expected : Value
  pub allow_stale : Bool

-- `async_set_power`
unfoldable pub set_power : Value → Result ClientError Request
set_power (Value.bool on) = ok (record {
  opcode = 0x21;
  payload = flag_byte on;
  expected = Value.bool on;
  allow_stale = false;
})
set_power _ = err invalid_value

-- `async_set_temperature_unit`
unfoldable pub set_temperature_unit : Value → Result ClientError Request
set_temperature_unit (Value.str unit) =
    if unit =s "celsius" || unit =s "fahrenheit"
    then ok (record {
      opcode = 0x24;
      payload = flag_byte (unit =s "fahrenheit");
      expected = Value.str unit;
      allow_stale = false;
    })
    else err invalid_value
set_temperature_unit _ = err invalid_value

abbrev humidity_request : ℕ → Value → Result ClientError Request
humidity_request target (Value.bool allow_stale) = ok (record {
  opcode = 0x23;
  payload = target ∷ [];
  expected = Value.int target;
  allow_stale = allow_stale;
})
humidity_request target _ = err invalid_value

-- `async_set_humidity`
unfoldable pub set_humidity : Value → Value → Result ClientError Request
set_humidity target allow_stale = elim (humidity_target target) [
  | none ↦ err invalid_value
  | some n ↦ humidity_request n allow_stale
]

-- `allow_stale or (opcode == 0x21 and expected is False)`
abbrev pub may_be_stale : Request → Bool
may_be_stale r = r.allow_stale || r.opcode == 0x21 && is_false r.expected
  where
    is_false : Value → Bool
    is_false (Value.bool false) = true
    is_false _ = false

abbrev pub new_pending : Request → Pending
new_pending r = record {
  opcode = r.opcode;
  expected = r.expected;
  future = Future.waiting;
  queued = false;
  receive_sequence = 0;
  byte_boundary = 0;
  sent_monotonic = none;
  allow_stale = r.allow_stale;
}

-- `_command`, on the way to its task: the session that the command is for.
unfoldable pub choose_session : Request → ℕ → Client → Result ClientError Session
choose_session r now c = require_fresh_status none (may_be_stale r) now c

-- `_execute_command`, from the lock to the pending command.
unfoldable pub start_command : Request → ℕ → ℕ → Client → Result ClientError Client
start_command r i now c = require_fresh_status (some i) (may_be_stale r) now c >>= λ s.
    ok (record c { session = some (record s { pending = some (new_pending r) }) })

-- How the waits of the task ended: the future was done, a deadline or the write failed, the task
-- was cancelled, or `_send` raised an error of its own.
pub data Ending : Type 0 where
  completed timed_out cancelled : Ending
  failed : ClientError → Ending

abbrev pub undelivered : UncertainReason → Session → Pending → Result ClientError DeviceStatus
undelivered reason s p = if p.queued then err (uncertain_error reason s p) else err not_sent

-- The result of `_execute_command` for a pending command that was made.
unfoldable pub finish_command : Ending → Session → Pending → Result ClientError DeviceStatus
finish_command Ending.cancelled s p = undelivered UncertainReason.cancelled_or_closed s p
finish_command (Ending.failed e) s p = err e
finish_command _ s p = elim p.future [
  | Future.result d ↦ ok d
  | Future.failed e ↦ err e
  | _ ↦ undelivered UncertainReason.deadline_or_write_failure s p
]

-- Its `finally`: the session has no pending command.
abbrev pub cleared : Option Session → Option Session
cleared none = none
cleared (some s) = some (record s { pending = none })

abbrev pub clear_pending : Client → Client
clear_pending c = record c { session = cleared c.session }

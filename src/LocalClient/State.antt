-- ===== src/LocalClient/State.antt =====
-- The objects of the transport: configuration, status, pending command, session and client.
-- Monotonic times are milliseconds, `time.time()` is read as whole seconds.
use alorair_home_assistant.Base.{ℕ, List, Bool, true, false, ◌&&◌, ◌==◌, Option, none, some, String}
use alorair_home_assistant.Base.Int.{ℤ, eq_ℤ}
use alorair_home_assistant.Base.Value.{Value, bool_eq}
use alorair_home_assistant.Protocol.Stream.{FrameStream}
use alorair_home_assistant.Protocol.Status.{Display}

-- `COMMAND_SPACING`, in milliseconds
abbrev pub command_spacing : ℕ
command_spacing = 1100

abbrev pub callback_queue_size : ℕ
callback_queue_size = 64

pub data DisconnectReason : Type 0 where
  eof invalid_frame idle_timeout connection_error client_closed callback_error : DisconnectReason

pub data UncertainReason : Type 0 where
  disconnected deadline_or_write_failure cancelled_or_closed : UncertainReason

-- What a `CommandUncertainError` carries.
pub record Uncertain : Type 0 where
  pub reason : UncertainReason
  pub session_id : ℕ
  pub sent_monotonic : Option ℕ
  pub receive_sequence : ℕ
  pub byte_boundary : ℕ

-- The `LocalClientError`s, and the `ValueError`s of a rejected argument or frame.
pub data ClientError : Type 0 where
  not_connected stale_status not_sent invalid_value : ClientError
  uncertain : Uncertain → ClientError

pub record Config : Type 0 where
  pub allowed_client : String
  pub mac : List ℕ
  pub status_max_age : ℕ

pub record DeviceStatus : Type 0 where
  pub session_id : ℕ
  pub receive_sequence : ℕ
  pub received_at : ℕ
  pub received_monotonic : ℕ
  pub power : Option Bool
  pub temperature_unit : Display
  pub event_opcode : ℕ
  pub target_humidity : Option ℕ
  pub inlet_celsius : Option ℤ
  pub inlet_humidity : Option ℕ
  pub outlet_celsius : Option ℤ
  pub outlet_humidity : Option ℕ
  pub inlet_gkg : ℕ
  pub outlet_gkg : ℕ
  pub inlet_grlb : ℕ
  pub outlet_grlb : ℕ
  pub draining : Option Bool

-- The future of a pending command.
pub data Future : Type 0 where
  waiting cancelled : Future
  result : DeviceStatus → Future
  failed : ClientError → Future

pub record Pending : Type 0 where
  pub opcode : ℕ
  pub expected : Value
  pub future : Future
  pub queued : Bool
  pub receive_sequence : ℕ
  pub byte_boundary : ℕ
  pub sent_monotonic : Option ℕ
  pub allow_stale : Bool

-- A session with its reader's count, its writer's state and output, and the parser of its task.
pub record Session : Type 0 where
  pub session_id : ℕ
  pub total_received : ℕ
  pub writer_closing : Bool
  pub written : List (List ℕ)
  pub verified : Bool
  pub receive_sequence : ℕ
  pub received_bytes : ℕ
  pub pending : Option Pending
  pub reason : DisconnectReason
  pub parser : FrameStream

-- A queued call of `on_status` or `on_disconnect`.
pub data Callback : Type 0 where
  status : ℕ → DeviceStatus → Callback
  disconnect : ℕ → DisconnectReason → Callback

pub record Client : Type 0 where
  pub config : Config
  pub session : Option Session
  pub last_status : Option DeviceStatus
  pub session_counter : ℕ
  pub closing : Bool
  pub last_outbound_time : Option ℕ
  pub last_outbound_timestamp : Option ℕ
  pub callbacks : List Callback

abbrev option_eq : {A : Type 0} → (A → A → Bool) → Option A → Option A → Bool
option_eq eq none none = true
option_eq eq (some a) (some b) = eq a b
option_eq eq _ _ = false

abbrev display_eq : Display → Display → Bool
display_eq Display.celsius Display.celsius = true
display_eq Display.fahrenheit Display.fahrenheit = true
display_eq _ _ = false

-- `==` of two statuses, field by field.
unfoldable pub status_eq : DeviceStatus → DeviceStatus → Bool
status_eq a b =
    a.session_id == b.session_id
    && a.receive_sequence == b.receive_sequence
    && a.received_at == b.received_at
    && a.received_monotonic == b.received_monotonic
    && option_eq bool_eq a.power b.power
    && display_eq a.temperature_unit b.temperature_unit
    && a.event_opcode == b.event_opcode
    && option_eq ◌==◌ a.target_humidity b.target_humidity
    && option_eq eq_ℤ a.inlet_celsius b.inlet_celsius
    && option_eq ◌==◌ a.inlet_humidity b.inlet_humidity
    && option_eq eq_ℤ a.outlet_celsius b.outlet_celsius
    && option_eq ◌==◌ a.outlet_humidity b.outlet_humidity
    && a.inlet_gkg == b.inlet_gkg
    && a.outlet_gkg == b.outlet_gkg
    && a.inlet_grlb == b.inlet_grlb
    && a.outlet_grlb == b.outlet_grlb
    && option_eq bool_eq a.draining b.draining

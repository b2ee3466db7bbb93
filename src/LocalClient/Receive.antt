-- ===== src/LocalClient/Receive.antt =====
-- `_read_session`: a chunk from the reader, its frames, and the end of the session.
pub mod Keeps
pub mod Acknowledge
use alorair_home_assistant.Base.{
  ℕ, zero, suc, ◌+◌, ◌-◌, ◌/◌, List, [], ◌∷◌, length, Bool, true, false, not, ◌&&◌, ◌||◌, Option,
  none, some, ltb, leb, ◌==◌, if◌then◌else◌, bytes_eq, Result, ok, err, ◌>>=◌, ◌>>◌,
}
use alorair_home_assistant.Base.Value.{Value, value_eq, flag_value, number_value}
use alorair_home_assistant.Protocol.Frame.{Frame}
use alorair_home_assistant.Protocol.Stream.{FrameStream, feed, finish}
use alorair_home_assistant.Protocol.Status.{Observed, Display, observed_status}
use alorair_home_assistant.LocalClient.State.{
  Callback, Client, ClientError, DeviceStatus, DisconnectReason, Future, Pending, Session,
  Uncertain, UncertainReason,
}
use alorair_home_assistant.LocalClient.Queue.{enqueue_callback}
use alorair_home_assistant.LocalClient.Send.{send_answer}

-- The bytes that the transport delivers to the reader: `_CountingReader.feed_data`.
abbrev pub deliver : ℕ → Option Session → Option Session
deliver n none = none
deliver n (some s) = some (record s { total_received = s.total_received + n })

unfoldable pub feed_data : ℕ → Client → Client
feed_data n c = record c { session = deliver n c.session }

-- What a report says on the point that a command asked for.
abbrev pub display_value : Display → Value
display_value Display.celsius = Value.str "celsius"
display_value Display.fahrenheit = Value.str "fahrenheit"

abbrev pub reported : ℕ → DeviceStatus → Value
reported opcode d =
    if opcode == 0x21
    then flag_value d.power
    else if opcode == 0x23
    then number_value d.target_humidity
    else display_value d.temperature_unit

abbrev pub is_waiting : Future → Bool
is_waiting Future.waiting = true
is_waiting _ = false

-- The test that lets a report resolve the pending command: `offset` is where its frame began.
abbrev pub qualifies : ℕ → DeviceStatus → Session → Pending → Bool
qualifies offset d s p =
    p.queued
    && is_waiting p.future
    && d.event_opcode == p.opcode
    && ltb p.receive_sequence s.receive_sequence
    && leb p.byte_boundary offset
    && value_eq (reported p.opcode d) p.expected

unfoldable pub acknowledge : ℕ → DeviceStatus → Session → Option Pending → Option Pending
acknowledge offset d s none = none
acknowledge offset d s (some p) =
    some (if qualifies offset d s p then record p { future = Future.result d } else p)

abbrev pub device_status : ℕ → ℕ → Session → ℕ → Observed → DeviceStatus
device_status now wall s opcode o = record {
  session_id = s.session_id;
  receive_sequence = s.receive_sequence;
  received_at = wall;
  received_monotonic = now;
  power = o.power;
  temperature_unit = o.temperature_display;
  event_opcode = opcode;
  target_humidity = o.target_humidity;
  inlet_celsius = o.inlet_celsius;
  inlet_humidity = o.inlet_humidity;
  outlet_celsius = o.outlet_celsius;
  outlet_humidity = o.outlet_humidity;
  inlet_gkg = o.inlet_gkg;
  outlet_gkg = o.outlet_gkg;
  inlet_grlb = o.inlet_grlb;
  outlet_grlb = o.outlet_grlb;
  draining = o.draining;
}

-- `frame.function == 9 and frame.opcode == 1 and frame.data == b"" and frame.reserved == bytes(4)`
abbrev pub is_keepalive : Frame → Bool
is_keepalive f =
    f.function == 9
    && f.opcode == 1
    && bytes_eq f.payload []
    && bytes_eq f.reserved (0 ∷ 0 ∷ 0 ∷ 0 ∷ [])

abbrev pub is_status : Frame → Bool
is_status f = f.function == 7 && length f.payload == 34

-- What a status report does to the client, from `self._last_status = status` on.
unfoldable pub take_status : ℕ → DeviceStatus → Session → Client → Client
unfolding acknowledge enqueue_callback
take_status offset d s c = enqueue_callback (Callback.status s.session_id d) (record c {
  last_status = some d;
  session = some (record s { pending = acknowledge offset d s s.pending });
})

-- A round of the reader goes on, or ends the session for a reason, with what it did until then.
abbrev pub Reading : Type 0
Reading = Result (DisconnectReason × Client) Client

-- The answer to a keepalive, and the handlers of what it raises.
abbrev pub answered : Client → Result ClientError Client → Reading
answered c (ok d) = ok d
answered c (err ClientError.invalid_value) = err (DisconnectReason.invalid_frame, c)
answered c (err _) = err (DisconnectReason.connection_error, c)

abbrev pub answer : ℕ → ℕ → Session → Client → Reading
answer now wall s c = answered c (send_answer s.session_id 1 (0 ∷ []) now (wall / 1000) c)

-- The body of the loop over the frames of a chunk.
unfoldable pub take_frame : ℕ → ℕ → ℕ → Frame → Session → Client → Reading
take_frame now wall offset f s c =
    let seen = record s { verified = true } in
    let c' = record c { session = some seen } in
    if is_keepalive f
    then answer now wall seen c'
    else if is_status f
    then (elim (observed_status f) [
      | ok o ↦ ok (take_status offset (device_status now wall seen f.opcode o) seen c')
      | err e ↦ err (DisconnectReason.invalid_frame, c')
    ])
    else ok c'

-- The frames of a chunk in turn; the session is read again for each, as a frame may change it.
unfoldable pub take_frames : ℕ → ℕ → ℕ → List (List ℕ × Frame) → Client → Reading
take_frames now wall offset [] c = ok c
take_frames now wall offset ((raw, f) ∷ fs) c = elim c.session [
  | none ↦ err (DisconnectReason.connection_error, c)
  | some s ↦ take_frame now wall offset f s c >>= take_frames now wall (offset + length raw) fs
]

-- The session's counts once a chunk is read, and its parser once the chunk is fed.
abbrev pub count_chunk : List ℕ → Session → Session
count_chunk chunk s = record s {
  received_bytes = s.received_bytes + length chunk;
  receive_sequence = s.receive_sequence + 1;
}

abbrev pub first_frame_offset : Session → ℕ
first_frame_offset s = s.received_bytes - length s.parser.buffer

-- One round of the loop of `_read_session`, on bytes that it read.
unfoldable pub take_chunk : ℕ → ℕ → List ℕ → Session → Client → Reading
take_chunk now wall chunk s c = elim (feed s.parser chunk) [
  | err e ↦ err (DisconnectReason.invalid_frame, record c { session = some (count_chunk chunk s) })
  | ok (fs, parser) ↦
      take_frames now wall (first_frame_offset s) fs
        (record c { session = some (record (count_chunk chunk s) { parser = parser }) })
]

abbrev pub uncertain_error : UncertainReason → Session → Pending → ClientError
uncertain_error reason s p = ClientError.uncertain (record {
  reason = reason;
  session_id = s.session_id;
  sent_monotonic = p.sent_monotonic;
  receive_sequence = p.receive_sequence;
  byte_boundary = p.byte_boundary;
})

-- The pending command of a session that ended.
unfoldable pub abandon : Session → Option Pending → Option Pending
abandon s none = none
abandon s (some p) = some (
    if is_waiting p.future
    then record p {
      future = Future.failed (
          if p.queued
          then uncertain_error UncertainReason.disconnected s p
          else ClientError.not_connected);
    }
    else p)

-- The `finally` of `_read_session`: the client, and the session with its pending command, which the
-- command's task still holds.
unfoldable pub end_session : DisconnectReason → Session → Client → Session × Client
unfolding abandon enqueue_callback
end_session reason s c =
    let why = if c.closing then DisconnectReason.client_closed else reason in
    (
      record s { reason = why; writer_closing = true; pending = abandon s s.pending },
      enqueue_callback (Callback.disconnect s.session_id why)
          (record c { session = none; last_status = none }),
    )

-- The end of the bytes: a partial frame is an error, and otherwise the reason is the one noted.
unfoldable pub end_of_stream : Session → DisconnectReason
end_of_stream s = elim (finish s.parser) [
  | ok _ ↦ s.reason
  | err e ↦ DisconnectReason.invalid_frame
]

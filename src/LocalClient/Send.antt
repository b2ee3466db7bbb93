-- ===== src/LocalClient/Send.antt =====
-- `_send`: one frame, spaced from the last one, under the client's state at that time.
pub mod Spacing
pub mod Refused
use alorair_home_assistant.Base.{
  ℕ, zero, suc, ◌+◌, ◌-◌, max, List, [], ◌∷◌, ◌++◌, Bool, true, false, not, ◌&&◌, ◌||◌, Option,
  none, some, ltb, leb, ◌==◌, if◌then◌else◌, bytes_eq, Result, ok, err, raise_if, ◌>>=◌, ◌>>◌,
}
use alorair_home_assistant.Protocol.Frame.{encode}
use alorair_home_assistant.Protocol.Command.{frame}
use alorair_home_assistant.LocalClient.State.{
  Client, ClientError, not_connected, not_sent, invalid_value, Config, DeviceStatus, Pending,
  Session, command_spacing,
}
use alorair_home_assistant.LocalClient.Connection.{require_fresh_status}

-- The end of one round of the loop in `_send`: the frame is written, or the round waits.
pub data Round : Type 0 where
  wrote : Client → Round
  wait : ℕ → Round

-- `max(0.0, COMMAND_SPACING - (now - self._last_outbound_time))`
abbrev pub spacing_left : Option ℕ → ℕ → ℕ
spacing_left none now = 0
spacing_left (some last) now = command_spacing + last - now

-- `timestamp = int(time.time())`, kept above the last one
abbrev pub next_timestamp : Option ℕ → ℕ → ℕ
next_timestamp none seconds = seconds
next_timestamp (some last) seconds = max seconds (last + 1)

-- `opcode == 0x21 and data == b"\x00"`
abbrev pub is_off : ℕ → List ℕ → Bool
is_off opcode payload = opcode == 0x21 && bytes_eq payload (0 ∷ [])

abbrev pub reports_on : Option DeviceStatus → Bool
reports_on none = false
reports_on (some d) = elim d.power [ none ↦ false | some on ↦ on ]

abbrev pub encoded : Client → ℕ → List ℕ → ℕ → Result ClientError (List ℕ)
encoded c opcode payload timestamp = elim (encode (frame c.config.mac timestamp 9 opcode payload)) [
  | ok raw ↦ ok raw
  | err e ↦ err invalid_value
]

-- What `_send` notes in the pending command before it writes.
abbrev pub mark_queued : ℕ → Session → Pending → Pending
mark_queued now s p = record p {
  receive_sequence = s.receive_sequence;
  byte_boundary = s.total_received;
  sent_monotonic = some now;
  queued = true;
}

abbrev pub write_frame : ℕ → ℕ → List ℕ → Option Pending → Session → Client → Client
write_frame now timestamp raw p s c = record c {
  session = some (record s { pending = p; written = s.written ++ (raw ∷ []) });
  last_outbound_time = some now;
  last_outbound_timestamp = some timestamp;
}

-- `self._closing or self._session is not session or session.writer.is_closing()`
abbrev pub open_session : ℕ → Client → Result ClientError Session
open_session i c = elim c.session [
  | none ↦ err not_connected
  | some s ↦
      if c.closing || not (s.session_id == i) || s.writer_closing then err not_connected else ok s
]

-- A round for the answer to a keepalive, which no command waits for.
unfoldable pub send_answer : ℕ → ℕ → List ℕ → ℕ → ℕ → Client → Result ClientError Client
send_answer i opcode payload now seconds c = do
  s ← open_session i c
  let timestamp = next_timestamp c.last_outbound_timestamp seconds
  raw ← encoded c opcode payload timestamp
  ok (write_frame now timestamp raw s.pending s c)

-- The part of a round behind the spacing.
unfoldable pub write_pending :
    List ℕ → Pending → ℕ → ℕ → Session → Client → Result ClientError Client
write_pending payload p now seconds s c = do
  raise_if (p.opcode == 0x23 && not p.allow_stale && not (reports_on c.last_status)) not_sent
  let timestamp = next_timestamp c.last_outbound_timestamp seconds
  raw ← encoded c p.opcode payload timestamp
  ok (write_frame now timestamp raw (some (mark_queued now s p)) s c)

-- A round for the pending command `p` of the session.
unfoldable pub send_pending : ℕ → List ℕ → Pending → ℕ → ℕ → Client → Result ClientError Round
send_pending i payload p now seconds c = do
  s ← open_session i c
  fresh ← require_fresh_status (some i) (p.allow_stale || is_off p.opcode payload) now c
  let delay = spacing_left c.last_outbound_time now
  if ltb 0 delay
      then ok (Round.wait delay)
      else (write_pending payload p now seconds s c >>= λ c'. ok (Round.wrote c'))

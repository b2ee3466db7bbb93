-- ===== src/LocalClient/Connection.antt =====
-- Connections: `connected`, `last_status`, `_accept` and the freshness test.
use alorair_home_assistant.Base.{
  ℕ, ◌+◌, [], Bool, true, false, not, ◌&&◌, ◌||◌, Option, none, some, leb, ◌==◌, if◌then◌else◌,
  Result, ok, err, String,
}
use alorair_home_assistant.Base.Dict.{◌=s◌}
use alorair_home_assistant.LocalClient.State.{
  Client, ClientError, not_connected, stale_status, Config, DeviceStatus, DisconnectReason, Session,
}

abbrev pub usable : Session → Bool
usable s = s.verified && not s.writer_closing

-- `connected`
unfoldable pub connected : Client → Bool
connected c = not c.closing && (elim c.session [ none ↦ false | some s ↦ usable s ])

-- `last_status`
unfoldable pub visible_status : Client → Option DeviceStatus
visible_status c = if connected c then c.last_status else none

abbrev pub new_session : ℕ → Config → Session
new_session i config = record {
  session_id = i;
  total_received = 0;
  writer_closing = false;
  written = [];
  verified = false;
  receive_sequence = 0;
  received_bytes = 0;
  pending = none;
  reason = DisconnectReason.eof;
  parser = record { buffer = []; expected_mac = some config.mac };
}

-- `not peer or peer[0] != self.config.allowed_client`
abbrev pub is_stranger : Option String → Client → Bool
is_stranger none c = true
is_stranger (some host) c = not (host =s c.config.allowed_client)

abbrev pub has_session : Client → Bool
has_session c = elim c.session [ none ↦ false | some s ↦ true ]

-- `_accept`; a refused writer is closed, and the client is as it was.
unfoldable pub accept : Option String → Client → Client
accept peer c = if c.closing || is_stranger peer c || has_session c then c else record c {
  session_counter = c.session_counter + 1;
  session = some (new_session (c.session_counter + 1) c.config);
  last_status = none;
}

-- `0 <= now - status.received_monotonic <= self.config.status_max_age`, on this session's status
abbrev pub is_fresh : Option DeviceStatus → ℕ → ℕ → ℕ → Bool
is_fresh none i age now = false
is_fresh (some d) i age now =
    d.session_id == i && leb d.received_monotonic now && leb now (d.received_monotonic + age)

-- `session is not expected_session`
abbrev pub is_expected : Option ℕ → Session → Bool
is_expected none s = true
is_expected (some i) s = s.session_id == i

abbrev pub fresh_session : Option ℕ → Bool → ℕ → Client → Session → Result ClientError Session
fresh_session expected allow_stale now c s =
    if not (connected c) || not (is_expected expected s)
    then err not_connected
    else if allow_stale || is_fresh c.last_status s.session_id c.config.status_max_age now
    then ok s
    else err stale_status

-- `_require_fresh_status`
unfoldable pub require_fresh_status : Option ℕ → Bool → ℕ → Client → Result ClientError Session
require_fresh_status expected allow_stale now c = elim c.session [
  | none ↦ err not_connected
  | some s ↦ fresh_session expected allow_stale now c s
]

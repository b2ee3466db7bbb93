-- ===== src/LocalClient/Tests.antt =====
-- The theorems on the transport, on a connection that reads a keepalive and a status report and
-- sends a power-off.
use alorair_home_assistant.Base.{
  ℕ, ◌-◌, length, ◌≡◌, refl, List, [], ◌∷◌, ◌++◌, ◌⊎◌, true, false, none, some, ok,
}
use alorair_home_assistant.Base.Value.{Value, value_eq}
use alorair_home_assistant.Protocol.Frame.{Frame, decode, encode, prefix, trailer}
use alorair_home_assistant.Protocol.Stream.{cut_frames, feed}
use alorair_home_assistant.LocalClient.State.{
  Callback, Client, Config, DeviceStatus, DisconnectReason, Future, Pending, Session,
}
use alorair_home_assistant.LocalClient.Connection.{accept, connected, require_fresh_status}
use alorair_home_assistant.LocalClient.Send.{Round, send_pending, write_pending}
use alorair_home_assistant.LocalClient.Receive.{
  acknowledge, device_status, end_session, feed_data, take_chunk, take_frame, take_frames,
  take_status,
}
use alorair_home_assistant.LocalClient.Queue.{enqueue_callback}
use alorair_home_assistant.LocalClient.Receive.Acknowledge.{SessionSound, take_chunk_sound}
use alorair_home_assistant.LocalClient.Send.Spacing.{IsSent, send_pending-IsSent}
use alorair_home_assistant.Protocol.Command.{frame, humidity_target}
use alorair_home_assistant.Protocol.Status.{humidity, observed_status, report, temperature}
use alorair_home_assistant.LocalClient.Command.{
  Ending, Request, finish_command, new_pending, start_command,
}
use alorair_home_assistant.LocalClient.Command.Reach.{HeardIn, Reach, Step, new_client, writes}
use alorair_home_assistant.LocalClient.Command.Truth.{Reach-Outcome}
use alorair_home_assistant.LocalClient.Receive.Keeps.{At, frames_of}
use alorair_home_assistant.LocalClient.Command.Life.{Step-Move}
use alorair_home_assistant.LocalClient.Command.Phase.{Label, Move, phase}
use alorair_home_assistant.LocalClient.Command.Sound.{Outcome}

abbrev mac : List ℕ
mac = 1 ∷ 2 ∷ 3 ∷ 4 ∷ 5 ∷ 6 ∷ []

abbrev config : Config
config = record { allowed_client = "10.0.0.2"; mac = mac; status_max_age = 35000 }

-- A frame that only verifies the connection.
abbrev hello : Frame
hello = record {
  mac = mac;
  timestamp = 1700000000;
  function = 9;
  opcode = 2;
  payload = [];
  reserved = 0 ∷ 0 ∷ 0 ∷ 0 ∷ [];
}

abbrev raw : List ℕ
raw = prefix hello ++ trailer (prefix hello)

abbrev opened : Session
opened = record {
  session_id = 1;
  total_received = 0;
  writer_closing = false;
  written = [];
  verified = false;
  receive_sequence = 0;
  received_bytes = 0;
  pending = none;
  reason = DisconnectReason.eof;
  parser = record { buffer = []; expected_mac = some mac };
}

abbrev arrived : Session
arrived = record opened { total_received = 29 }

abbrev verified : Session
verified = record arrived { verified = true; receive_sequence = 1; received_bytes = 29 }

abbrev with_session : Session → Client
with_session s = record (new_client config) { session_counter = 1; session = some s }

accepted : accept (some "10.0.0.2") (new_client config) ≡ with_session opened
unfolding accept
accepted = refl

hello_read :
    take_chunk 1000 1700000000 raw arrived (with_session arrived) ≡ ok (with_session verified)
unfolding take_chunk take_frames take_frame feed cut_frames decode
hello_read = refl

abbrev off_request : Request
off_request = record {
  opcode = 0x21;
  payload = 0 ∷ [];
  expected = Value.bool false;
  allow_stale = false;
}

abbrev waiting : Session
waiting = record verified { pending = some (new_pending off_request) }

started : start_command off_request 1 2000 (with_session verified) ≡ ok (with_session waiting)
unfolding start_command require_fresh_status connected
started = refl

abbrev off_frame : Frame
off_frame = frame mac 1700000002 9 0x21 (0 ∷ [])

abbrev queued : Pending
queued = record (new_pending off_request) {
  receive_sequence = 1;
  byte_boundary = 29;
  sent_monotonic = some 3000;
  queued = true;
}

abbrev sending : Session
sending = record waiting {
  pending = some queued;
  written = (prefix off_frame ++ trailer (prefix off_frame)) ∷ [];
}

abbrev sent : Client
sent = record (with_session sending) {
  last_outbound_time = some 3000;
  last_outbound_timestamp = some 1700000002;
}

off_sent :
    send_pending 1 (0 ∷ []) (new_pending off_request) 3000 1700000002 (with_session waiting)
    ≡ ok (Round.wrote sent)
unfolding send_pending write_pending require_fresh_status connected encode
off_sent = refl

send_pending-IsSent_example :
    IsSent 1 (0 ∷ []) (new_pending off_request) 3000 (with_session waiting) sent
send_pending-IsSent_example =
    send_pending-IsSent 1 (0 ∷ []) (new_pending off_request) 3000 1700000002 (with_session waiting)
      sent off_sent

-- The report that the device is off, with no valid reading beside.
abbrev off_report : Frame
off_report = record {
  mac = mac;
  timestamp = 1700000003;
  function = 7;
  opcode = 0x21;
  payload =
      0 ∷ 0 ∷ 0 ∷ 0 ∷ 0 ∷ 0 ∷ 0 ∷ 0 ∷ 0 ∷ 0 ∷ 0 ∷ 0 ∷ 0 ∷ 0 ∷ 0 ∷ 0 ∷ 0 ∷ 0 ∷ 0 ∷ 0 ∷ 0 ∷ 0 ∷ 0 ∷ 0
      ∷ 0 ∷ 0 ∷ 0 ∷ 0 ∷ 0 ∷ 0 ∷ 0 ∷ 0 ∷ 0 ∷ 0 ∷ [];
  reserved = 0 ∷ 0 ∷ 0 ∷ 0 ∷ [];
}

abbrev off_raw : List ℕ
off_raw = prefix off_report ++ trailer (prefix off_report)

-- The bytes of the report have come.
abbrev awaited : Session
awaited = record sending { total_received = 92 }

abbrev told : Client
told = record sent { session = some awaited }

abbrev counted : Session
counted = record awaited { receive_sequence = 2; received_bytes = 92 }

abbrev off_status : DeviceStatus
off_status = device_status 4000 1700000003 counted 0x21 (report off_report)

abbrev confirmed : Pending
confirmed = record queued { future = Future.result off_status }

abbrev resolved : Session
resolved = record counted { pending = some confirmed }

abbrev done : Client
done = record sent {
  session = some resolved;
  last_status = some off_status;
  callbacks = Callback.status 1 off_status ∷ [];
}

report_read : take_chunk 4000 1700000003 off_raw awaited told ≡ ok done
unfolding take_chunk take_frames take_frame feed cut_frames decode observed_status take_status
    acknowledge enqueue_callback report humidity_target temperature humidity value_eq
report_read = refl

take_chunk_sound_example :
    SessionSound
      (λ at d.
        ⊥
        ⊎ At 4000 1700000003
            (awaited.received_bytes - length awaited.parser.buffer)
            (frames_of off_raw awaited)
            at
            d)
      (some resolved)
take_chunk_sound_example =
    take_chunk_sound (λ at d. ⊥) 4000 1700000003 off_raw awaited told done tt report_read

sent_steps : Reach (new_client config) sent
unfolding accept feed_data
sent_steps =
    Reach.next
      (Reach.next
        (Reach.next
          (Reach.next (Reach.next Reach.here (Step.accepted (some "10.0.0.2"))) (Step.delivered 29))
          (Step.read 1000 1700000000 raw arrived refl hello_read))
        (Step.begun off_request 1 2000 refl started))
      (Step.sent (0 ∷ []) 3000 1700000002 waiting (new_pending off_request) refl refl refl off_sent)

told_steps : Reach (new_client config) told
unfolding feed_data
told_steps = Reach.next sent_steps (Step.delivered 63)

done_steps : Reach (new_client config) done
done_steps = Reach.next told_steps (Step.read 4000 1700000003 off_raw awaited refl report_read)

Reach-Outcome_example :
    Outcome
      (HeardIn done_steps)
      (writes done_steps)
      resolved
      confirmed
      (finish_command Ending.completed resolved confirmed)
    × ((q : Pending) × ((end_session DisconnectReason.eof resolved done).0.pending ≡ some q)
        × Outcome
            (HeardIn done_steps)
            (writes done_steps)
            resolved
            confirmed
            (finish_command Ending.completed (end_session DisconnectReason.eof resolved done).0 q))
Reach-Outcome_example =
    Reach-Outcome config done resolved confirmed Ending.completed DisconnectReason.eof done_steps
      refl refl tt

Step-Move_example :
    Move
      (Label.hears 4000 1700000003
        (awaited.received_bytes - length awaited.parser.buffer)
        (frames_of off_raw awaited))
      (phase (some awaited))
      (phase (some resolved))
Step-Move_example =
    Step-Move config told_steps (Step.read 4000 1700000003 off_raw awaited refl report_read)

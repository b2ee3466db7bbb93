-- ===== src/LocalClient/Command/Reach.antt =====
-- Every state that the transport's events lead to, and what a run of them has read and written.
use alorair_home_assistant.Base.{
  ℕ, ◌-◌, length, ◌≡◌, ◌⊎◌, List, [], ◌∷◌, ◌++◌, false, Option, none, some, ok, err, String,
}
use alorair_home_assistant.LocalClient.State.{
  Callback, Client, Config, DeviceStatus, DisconnectReason, Pending, Session,
}
use alorair_home_assistant.LocalClient.Connection.{accept}
use alorair_home_assistant.LocalClient.Send.{Round, send_pending}
use alorair_home_assistant.LocalClient.Receive.{end_session, feed_data, take_chunk}
use alorair_home_assistant.LocalClient.Receive.Keeps.{At, frames_of}
use alorair_home_assistant.LocalClient.Closing.{
  begin_close, clean_up, close_writers, fail_callback, take_callback,
}
use alorair_home_assistant.LocalClient.Command.{Request, clear_pending, start_command}
use alorair_home_assistant.LocalClient.Command.Sound.{Write}

-- `LocalClient(config)`
abbrev pub new_client : Config → Client
new_client config = record {
  config = config;
  session = none;
  last_status = none;
  session_counter = 0;
  closing = false;
  last_outbound_time = none;
  last_outbound_timestamp = none;
  callbacks = List.[];
}

-- No command is pending: `_command_lock` is free.
abbrev pub IsFree : Option Session → Type 0
IsFree none = Unit
IsFree (some s) = s.pending ≡ none

-- The events of the loop that change the client, in any order that their conditions allow.
pub data Step (c : Client) : Client → Type 0 where
  delivered : (n : ℕ) → Step c (feed_data n c)
  accepted : (peer : Option String) → Step c (accept peer c)
  read :
      {c' : Client} (now wall : ℕ) (chunk : List ℕ) (s : Session)
      → c.session ≡ some s
      → take_chunk now wall chunk s c ≡ ok c'
      → Step c c'
  ended :
      (reason : DisconnectReason) (s : Session)
      → c.session ≡ some s
      → Step c (end_session reason s c).1
  begun :
      {c' : Client} (r : Request) (i now : ℕ)
      → IsFree c.session
      → start_command r i now c ≡ ok c'
      → Step c c'
  sent :
      {c' : Client} (payload : List ℕ) (now seconds : ℕ) (s : Session) (p : Pending)
      → c.session ≡ some s
      → s.pending ≡ some p
      → p.queued ≡ false
      → send_pending s.session_id payload p now seconds c ≡ ok (Round.wrote c')
      → Step c c'
  finished : Step c (clear_pending c)
  broke :
      {c' : Client} (now wall : ℕ) (chunk : List ℕ) (s s' : Session) (reason : DisconnectReason)
      → c.session ≡ some s
      → take_chunk now wall chunk s c ≡ err (reason, c')
      → c'.session ≡ some s'
      → Step c (end_session reason s' c').1
  called : Step c (take_callback c)
  raised : (callback : Callback) → Step c (fail_callback callback c)
  closing : Step c (begin_close c)
  shut : Step c (close_writers c)
  cleaned : Step c (clean_up c)

pub data Reach (c : Client) : Client → Type 0 where
  here : Reach c c
  next : {d e : Client} → Reach c d → Step d e → Reach c e

-- The reports that an event reads, with the places where their frames begin.
abbrev pub ToldBy : {c c' : Client} → Step c c' → ℕ → DeviceStatus → Type 0
ToldBy (Step.read now wall chunk s e w) offset d =
    At now wall (s.received_bytes - length s.parser.buffer) (frames_of chunk s) offset d
ToldBy _ offset d = ⊥

-- The reports that a run of events has read.
abbrev pub HeardIn : {c c' : Client} → Reach c c' → ℕ → DeviceStatus → Type 0
HeardIn here offset d = ⊥
HeardIn (next r st) offset d = HeardIn r offset d ⊎ ToldBy st offset d

-- The frames that a run has written for the command that it began last, by their places.
abbrev pub write_by : {c c' : Client} → Step c c' → List Write → List Write
write_by (Step.begun r i now free w) before = []
write_by (Step.sent payload now seconds s p e o n w) before =
    before
    ++ (record { byte_boundary = s.total_received; receive_sequence = s.receive_sequence } ∷ [])
write_by _ before = before

abbrev pub writes : {c c' : Client} → Reach c c' → List Write
writes here = []
writes (next r st) = write_by st (writes r)

-- ===== src/LocalClient/Send/Spacing.antt =====
-- What has happened when a command's frame was written.
use alorair_home_assistant.Base.{
  ℕ, ◌+◌, ◌≤◌, ◌<◌, ◌≡◌, ◌≢◌, ◌⊎◌, inl, inr, refl, List, [], ◌∷◌, ◌++◌, Bool, true, false, not,
  ◌&&◌, ◌||◌, Option, some, ltb, ◌==◌, if◌then◌else◌, Result, ok, err, raise_if, ◌>>=◌, arith,
  Result-cases,
}
use alorair_home_assistant.Protocol.Frame.{encode}
use alorair_home_assistant.Protocol.Command.{frame}
use alorair_home_assistant.LocalClient.State.{
  Client, ClientError, not_sent, Pending, Session, command_spacing,
}
use alorair_home_assistant.LocalClient.Connection.{connected, require_fresh_status, is_fresh}
use alorair_home_assistant.LocalClient.Send.{
  Round, send_pending, write_pending, spacing_left, next_timestamp, is_off, reports_on,
  open_session, encoded, write_frame, mark_queued,
}

-- The session and the frame of a round that wrote.
record Written (i : ℕ) (payload : List ℕ) (p : Pending) (now seconds : ℕ) (c c' : Client)
    : Type 0 where
  session : Session
  fresh_one : Session
  raw : List ℕ
  opened : open_session i c ≡ ok session
  fresh :
      require_fresh_status (some i) (p.allow_stale || is_off p.opcode payload) now c ≡ ok fresh_one
  spaced : spacing_left c.last_outbound_time now ≡ 0
  enabled : (p.opcode == 0x23 && not p.allow_stale && not (reports_on c.last_status)) ≡ false
  wire : encoded c p.opcode payload (next_timestamp c.last_outbound_timestamp seconds) ≡ ok raw
  left :
      c'
      ≡ write_frame now
          (next_timestamp c.last_outbound_timestamp seconds)
          raw
          (some (mark_queued now session p))
          session
          c

ltb_zero : (n : ℕ) → ltb 0 n ≡ false → n ≡ 0
ltb_zero n h = ground arith

-- A round over any results of its steps, which says what each of them was.
round_steps :
    (m n : Result ClientError Session) (early refused : Bool) (delay : ℕ)
    (w : Session → Result ClientError (List ℕ)) (k : Session → List ℕ → Client) (c' : Client)
    → (m >>= λ s. n >>= λ t.
        if early
        then ok (Round.wait delay)
        else ((raise_if refused not_sent >>= λ _. w s >>= λ raw. ok (k s raw)) >>= λ d.
            ok (Round.wrote d)))
      ≡ ok (Round.wrote c')
    → (s : Session) × (t : Session) × (raw : List ℕ) × (m ≡ ok s)
      × (n ≡ ok t)
      × (early ≡ false)
      × (refused ≡ false)
      × (w s ≡ ok raw)
      × (c' ≡ k s raw)
round_steps (err e) n early refused delay w k c' h = cc
round_steps (ok s) (err e) early refused delay w k c' h = cc
round_steps (ok s) (ok t) true refused delay w k c' h = cc
round_steps (ok s) (ok t) false true delay w k c' h = cc
round_steps (ok s) (ok t) false false delay w k c' h = elim (Result-cases (w s)) [
  | inl (raw, e) ↦ (s, t, raw, refl, refl, refl, refl, e, cc (rw e at h))
  | inr (x, e) ↦ cc (rw e at h)
]

send_pending-Written :
    (i : ℕ) (payload : List ℕ) (p : Pending) (now seconds : ℕ) (c c' : Client)
    → send_pending i payload p now seconds c ≡ ok (Round.wrote c')
    → Written i payload p now seconds c c'
unfolding send_pending write_pending
send_pending-Written i payload p now seconds c c' h =
    let timestamp = next_timestamp c.last_outbound_timestamp seconds in
    let (s, t, raw, opened, fresh, due, enabled, wire, left) =
      round_steps (open_session i c)
        (require_fresh_status (some i) (p.allow_stale || is_off p.opcode payload) now c)
        (ltb 0 (spacing_left c.last_outbound_time now))
        (p.opcode == 0x23 && not p.allow_stale && not (reports_on c.last_status))
        (spacing_left c.last_outbound_time now) (λ _. encoded c p.opcode payload timestamp)
        (λ s raw. write_frame now timestamp raw (some (mark_queued now s p)) s c) c' h in
    record {
      session = s;
      fresh_one = t;
      raw = raw;
      opened = opened;
      fresh = fresh;
      spaced = ltb_zero _ due;
      enabled = enabled;
      wire = wire;
      left = left;
    }

pub open_session-ok :
    (i : ℕ) (c : Client) (s : Session)
    → open_session i c ≡ ok s
    → (c.session ≡ some s) × (s.session_id ≡ i) × (c.closing ≡ false) × (s.writer_closing ≡ false)
open_session-ok i c s h = ground arith

fresh-ok :
    (i now : ℕ) (stale : Bool) (c : Client) (s t : Session)
    → c.session ≡ some s
    → require_fresh_status (some i) stale now c ≡ ok t
    → (connected c ≡ true)
      × ((stale ≡ true) ⊎ (is_fresh c.last_status s.session_id c.config.status_max_age now ≡ true))
unfolding require_fresh_status
fresh-ok i now stale c s t e h = ground arith

encoded-ok :
    (c : Client) (opcode timestamp : ℕ) (payload raw : List ℕ)
    → encoded c opcode payload timestamp ≡ ok raw
    → encode (frame c.config.mac timestamp 9 opcode payload) ≡ ok raw
encoded-ok c opcode timestamp payload raw h = ground arith

-- What has happened once a round wrote the frame of the pending command `p`.
pub record IsSent (i : ℕ) (payload : List ℕ) (p : Pending) (now : ℕ) (c c' : Client) : Type 0 where
  pub session : Session
  pub raw : List ℕ
  pub timestamp : ℕ
  pub current : (c.session ≡ some session) × (session.session_id ≡ i)
  pub live : connected c ≡ true
  pub timed : c'.last_outbound_time ≡ some now
  pub stamped : c'.last_outbound_timestamp ≡ some timestamp
  pub wire : encode (frame c.config.mac timestamp 9 p.opcode payload) ≡ ok raw
  pub one_frame :
      c'.session
      ≡ some (record session {
        pending = some (record p {
          receive_sequence = session.receive_sequence;
          byte_boundary = session.total_received;
          sent_monotonic = some now;
          queued = true;
        });
        written = session.written ++ (raw ∷ []);
      })
  pub later : (last : ℕ) → c.last_outbound_timestamp ≡ some last → last < timestamp
  pub spaced : (last : ℕ) → c.last_outbound_time ≡ some last → last + command_spacing ≤ now
  pub informed :
      (p.allow_stale || is_off p.opcode payload ≡ true)
      ⊎ (is_fresh c.last_status i c.config.status_max_age now ≡ true)
  pub enabled : (p.allow_stale ≡ true) ⊎ (p.opcode ≢ 0x23) ⊎ (reports_on c.last_status ≡ true)

spacing_bound :
    (o : Option ℕ) (now last : ℕ)
    → spacing_left o now ≡ 0
    → o ≡ some last
    → last + command_spacing ≤ now
spacing_bound o now last h e = ground arith

timestamp_bound :
    (o : Option ℕ) (seconds last : ℕ) → o ≡ some last → last < next_timestamp o seconds
timestamp_bound o seconds last e = ground arith

gate_open :
    (opcode : ℕ) (stale on : Bool)
    → (opcode == 0x23 && not stale && not on) ≡ false
    → (stale ≡ true) ⊎ (opcode ≢ 0x23) ⊎ (on ≡ true)
gate_open opcode stale on h = ground arith

-- A round of `_send` that writes for a command writes one frame, on the current verified session,
-- at least 1.1 seconds after the frame before it and with a later timestamp; its time and its timestamp
-- are noted for the frame after it. Unless the command is
-- power off or an explicit restoration, a fresh status of this session is at hand, and a humidity
-- command that is no restoration needs a last report of power on. The command is marked as queued
-- with the reader's count of bytes at that time.
pub send_pending-IsSent :
    (i : ℕ) (payload : List ℕ) (p : Pending) (now seconds : ℕ) (c c' : Client)
    → send_pending i payload p now seconds c ≡ ok (Round.wrote c')
    → IsSent i payload p now c c'
send_pending-IsSent i payload p now seconds c c' h =
    let w : Written i payload p now seconds c c' =
      send_pending-Written i payload p now seconds c c' h in
    let (e, same, _, _) = open_session-ok i c w.session w.opened in
    let (live, informed) =
      fresh-ok i now (p.allow_stale || is_off p.opcode payload) c w.session w.fresh_one e w.fresh in
    let timestamp = next_timestamp c.last_outbound_timestamp seconds in
    record {
      session = w.session;
      raw = w.raw;
      timestamp = timestamp;
      current = (e, same);
      live = live;
      timed = rw (w.left);
      stamped = rw (w.left);
      wire = encoded-ok c p.opcode timestamp payload w.raw w.wire;
      one_frame = rw (w.left);
      later = λ last. timestamp_bound c.last_outbound_timestamp seconds last;
      spaced = λ last. spacing_bound c.last_outbound_time now last w.spaced;
      informed = rw same at informed;
      enabled = gate_open p.opcode p.allow_stale (reports_on c.last_status) w.enabled;
    }

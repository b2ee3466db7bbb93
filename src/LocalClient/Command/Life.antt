-- ===== src/LocalClient/Command/Life.antt =====
-- Every event of the transport makes one move in the life of a command.
use alorair_home_assistant.Base.{
  ℕ, ◌-◌, length, ◌≡◌, refl, sym, ap, List, Bool, true, false, ◌||◌, Option, none, some, ok, subst,
  inl, inr, Bool-cases, String, arith,
}
use alorair_home_assistant.Protocol.Frame.{Frame}
use alorair_home_assistant.LocalClient.State.{
  Callback, Client, Config, DeviceStatus, Future, Pending, Session,
}
use alorair_home_assistant.LocalClient.Queue.{enqueue_callback}
use alorair_home_assistant.LocalClient.Connection.{accept, has_session, is_stranger}
use alorair_home_assistant.LocalClient.Send.{Round, send_pending}
use alorair_home_assistant.LocalClient.Send.Spacing.{IsSent, send_pending-IsSent}
use alorair_home_assistant.LocalClient.Receive.{deliver, end_session, feed_data, take_chunk}
use alorair_home_assistant.LocalClient.Receive.Keeps.{At, Holds, frames_of, take_chunk_keeps}
use alorair_home_assistant.LocalClient.Receive.Acknowledge.{FutureSound, SessionSound}
use alorair_home_assistant.LocalClient.Closing.{
  begin_close, clean_up, close_if, close_writer, close_writers, fail_callback, take_callback,
}
use alorair_home_assistant.LocalClient.Command.{Request, cleared, start_command}
use alorair_home_assistant.LocalClient.Command.Reach.{HeardIn, IsFree, Reach, Step, new_client}
use alorair_home_assistant.LocalClient.Command.Truth.{Reach-sound}
use alorair_home_assistant.LocalClient.Command.Kept.{ended-Holds, started-pending}
use alorair_home_assistant.LocalClient.Command.Phase.{
  Heard, Heard-Move, Heard-phase, Label, Move, Phase, keep_by, label, phase, phase_of_pending,
}

deliver-phase : (n : ℕ) (o : Option Session) → phase (deliver n o) ≡ phase o
deliver-phase n none = refl
deliver-phase n (some s) = refl

close_if-phase : (i : ℕ) (o : Option Session) → phase (close_if i o) ≡ phase o
close_if-phase i none = refl
close_if-phase i (some s) = ground arith

close_writer-phase : (o : Option Session) → phase (close_writer o) ≡ phase o
close_writer-phase none = refl
close_writer-phase (some s) = refl

cleared-phase : (o : Option Session) → phase (cleared o) ≡ Phase.idle
cleared-phase none = refl
cleared-phase (some s) = refl

fail_callback-phase :
    (callback : Callback) (c : Client) → phase (fail_callback callback c).session ≡ phase c.session
unfolding fail_callback
fail_callback-phase (Callback.disconnect i r) c = refl
fail_callback-phase (Callback.status i d) c = close_if-phase i c.session

-- The session is there after a chunk as before, and its command has heard the chunk's reports.
read-Move :
    (now wall : ℕ) (chunk : List ℕ) (s : Session) (c c' : Client)
    → take_chunk now wall chunk s c ≡ ok c'
    → Move
        (Label.hears now wall (s.received_bytes - length s.parser.buffer) (frames_of chunk s))
        (phase_of_pending s.pending)
        (phase c'.session)
read-Move now wall chunk s c c' w =
    let v : Phase = phase_of_pending s.pending in
    let base : ℕ = s.received_bytes - length s.parser.buffer in
    let fs : List (List ℕ × Frame) = frames_of chunk s in
    held_phase base fs v c'.session (
      take_chunk_keeps ⊥ (λ i x. Heard (Label.hears now wall base fs) v (phase_of_pending x))
        (At now wall base fs) (Heard-phase now wall base fs v) now wall chunk s c c' (λ at d m. m)
        Heard.same w)
  where
    held_phase :
        (base : ℕ) (fs : List (List ℕ × Frame)) (v : Phase) (o : Option Session)
        → Holds ⊥ (λ i x. Heard (Label.hears now wall base fs) v (phase_of_pending x)) o
        → Move (Label.hears now wall base fs) v (phase o)
    held_phase base fs v none h = absurd h
    held_phase base fs v (some s) h = Heard-Move now wall base fs h

vacant-phase :
    (a b : Bool) (o : Option Session)
    → (a || b || (elim o [ none ↦ false | some s ↦ true ])) ≡ false
    → phase o ≡ Phase.idle
vacant-phase a b none h = refl
vacant-phase true b (some s) h = cc
vacant-phase false true (some s) h = cc
vacant-phase false false (some s) h = cc

accept-Move :
    (peer : Option String) (c : Client)
    → Move Label.quiet (phase c.session) (phase (accept peer c).session)
unfolding accept
accept-Move peer c = elim (Bool-cases (c.closing || is_stranger peer c || has_session c)) [
  | inl refused ↦ rw refused Move.keep
  | inr taken ↦ rw taken (keep_by (vacant-phase c.closing (is_stranger peer c) c.session taken))
]

free-phase : (o : Option Session) → IsFree o → phase o ≡ Phase.idle
free-phase none h = refl
free-phase (some s) h = rw h refl

begun-Move :
    (r : Request) (i now : ℕ) (c c' : Client)
    → IsFree c.session
    → start_command r i now c ≡ ok c'
    → Move (Label.asks r.opcode r.expected) (phase c.session) (phase c'.session)
begun-Move r i now c c' free e =
    let (s, new) = started-pending r i now c c' e in
    rw (free-phase c.session free, new) (Move.ask r.opcode r.expected)

gone-Move : (v : Phase) (o : Option Session) → Holds Unit (λ i x. ⊥) o → Move Label.ends v (phase o)
gone-Move v none h = Move.release
gone-Move v (some s) h = absurd h

ended-Move :
    (v : Phase) (callback : Callback) (c : Client)
    → Move Label.ends v (
        phase (enqueue_callback callback (record c { session = none; last_status = none })).session)
ended-Move v callback c = gone-Move v _ (ended-Holds (λ i x. ⊥) callback c)

-- A command that was not queued waits.
unqueued_waiting :
    (R : ℕ → DeviceStatus → Type 0) (i : ℕ) (p : Pending) (f : Future)
    → p.queued ≡ false
    → FutureSound R i p f
    → f ≡ Future.waiting
unqueued_waiting R i p Future.waiting n h = refl
unqueued_waiting R i p Future.cancelled n h = absurd h
unqueued_waiting R i p (Future.failed e) n h = absurd h
unqueued_waiting R i p (Future.result d) n h = cc (h.3)

write-Move :
    (p : Pending) (n b : ℕ) (now : Option ℕ)
    → p.queued ≡ false
    → p.future ≡ Future.waiting
    → Move (Label.writes_at b n) (phase_of_pending (some p)) (
        phase_of_pending (
          some (record p {
            receive_sequence = n;
            byte_boundary = b;
            sent_monotonic = now;
            queued = true;
          })))
write-Move p n b now unqueued waits = rw (waits, unqueued) (Move.write p.opcode b n p.expected)

sent-Move :
    (R : ℕ → DeviceStatus → Type 0) (payload : List ℕ) (now seconds : ℕ) (s : Session) (p : Pending)
    (c c' : Client)
    → SessionSound R c.session
    → c.session ≡ some s
    → s.pending ≡ some p
    → p.queued ≡ false
    → send_pending s.session_id payload p now seconds c ≡ ok (Round.wrote c')
    → Move
        (Label.writes_at s.total_received s.receive_sequence)
        (phase c.session)
        (phase c'.session)
sent-Move R payload now seconds s p c c' h e o n w =
    let sent : IsSent s.session_id payload p now c c' =
      send_pending-IsSent s.session_id payload p now seconds c c' w in
    let k : FutureSound R s.session_id p p.future = rw (e, o) at h in
    let same : s ≡ sent.session = cc in
    rw (e, o, sent.one_frame, sym same)
      (write-Move p s.receive_sequence s.total_received (some now) n
        (unqueued_waiting R s.session_id p p.future n k))

Step-follows :
    {c c' : Client} (R : ℕ → DeviceStatus → Type 0) (st : Step c c')
    → SessionSound R c.session
    → Move (label st) (phase c.session) (phase c'.session)
unfolding feed_data end_session take_callback begin_close close_writers
Step-follows {c} R (Step.delivered n) h = keep_by (sym (deliver-phase n c.session))
Step-follows {c} R (Step.accepted peer) h = accept-Move peer c
Step-follows {c} R (Step.read now wall chunk s e w) h =
    rw (ap phase e) (read-Move now wall chunk s c _ w)
Step-follows {c} R (Step.ended reason s e) h = ended-Move (phase c.session) _ c
Step-follows {c} R (Step.begun r i now free w) h = begun-Move r i now c _ free w
Step-follows {c} R (Step.sent payload now seconds s p e o n w) h =
    sent-Move R payload now seconds s p c _ h e o n w
Step-follows {c} R Step.finished h =
    subst (λ (x : Phase). Move Label.ends (phase c.session) x) (sym (cleared-phase c.session))
      Move.release
Step-follows {c} R (Step.broke {c'} now wall chunk s s' reason e w e') h =
    ended-Move (phase c.session) _ c'
Step-follows {c} R Step.called h = Move.keep
Step-follows {c} R (Step.raised callback) h = keep_by (sym (fail_callback-phase callback c))
Step-follows {c} R Step.closing h = Move.keep
Step-follows {c} R Step.shut h = keep_by (sym (close_writer-phase c.session))
Step-follows {c} R Step.cleaned h = unfold clean_up in Move.release

-- From every state that a new client's events lead to, each further event makes the one move of its
-- kind in a command's life: beginning a command, when there is none, asks for it; a write puts the frame
-- of an asked command on the wire, at the session's counts of bytes and reads; reading a chunk leaves the
-- command as it is, or settles one on the wire by a report in one of the chunk's frames, which begins
-- at or behind that count of bytes, was read later, and says what the command wants; the end of the
-- session or of the task lets it go; and every other event leaves it as it is.
pub Step-Move :
    {c c' : Client} (config : Config)
    → Reach (new_client config) c
    → (st : Step c c') → Move (label st) (phase c.session) (phase c'.session)
Step-Move config r st = Step-follows (HeardIn r) st (Reach-sound r tt)

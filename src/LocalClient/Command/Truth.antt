-- ===== src/LocalClient/Command/Truth.antt =====
-- In every state that the events lead to, a command's result is true of the reports that were read
-- and of the frames that were written.
use alorair_home_assistant.Base.{
  ℕ, ◌≡◌, ◌⊎◌, refl, ◌∙◌, ap, List, [], ◌∷◌, ◌++◌, false, Option, none, some, ok, subst, inl, inr,
  Bool-cases, Result,
}
use alorair_home_assistant.LocalClient.State.{
  Client, ClientError, Config, DeviceStatus, DisconnectReason, Future, Pending, Session,
}
use alorair_home_assistant.LocalClient.Send.{Round, mark_queued, send_pending}
use alorair_home_assistant.LocalClient.Send.Spacing.{IsSent, send_pending-IsSent}
use alorair_home_assistant.LocalClient.Receive.{
  abandon, acknowledge, end_session, feed_data, qualifies,
}
use alorair_home_assistant.LocalClient.Receive.Acknowledge.{
  FutureSound, PendingSound, SessionSound, pending_more, take_chunk_sound,
}
use alorair_home_assistant.LocalClient.Receive.Keeps.{Holds, IsHeard, take_chunk_keeps}
use alorair_home_assistant.LocalClient.Closing.{begin_close, clean_up, close_writers, take_callback}
use alorair_home_assistant.LocalClient.Command.{Ending, finish_command}
use alorair_home_assistant.LocalClient.Command.Sound.{
  IsRaised, Outcome, Write, command-Outcome, writes_of,
}
use alorair_home_assistant.LocalClient.Command.Reach.{
  HeardIn, Reach, Step, new_client, ToldBy, write_by, writes,
}
use alorair_home_assistant.LocalClient.Command.Kept.{
  accept-Holds, cleared-Holds, close_writer-Holds, delivered-Holds, ended-Holds,
  fail_callback-Holds, started-pending,
}

-- Nothing is resolved before it is queued.
unqueued_sound :
    (R : ℕ → DeviceStatus → Type 0) (i : ℕ) (p q : Pending) (f : Future)
    → p.queued ≡ false
    → FutureSound R i p f
    → FutureSound R i q f
unqueued_sound R i p q Future.waiting n h = tt
unqueued_sound R i p q Future.cancelled n h = absurd h
unqueued_sound R i p q (Future.failed e) n h = absurd h
unqueued_sound R i p q (Future.result d) n h = cc (h.3)

sent_sound :
    (R : ℕ → DeviceStatus → Type 0) (payload : List ℕ) (now seconds : ℕ) (s : Session) (p : Pending)
    (c c' : Client)
    → c.session ≡ some s
    → s.pending ≡ some p
    → p.queued ≡ false
    → send_pending s.session_id payload p now seconds c ≡ ok (Round.wrote c')
    → SessionSound R c.session
    → SessionSound R c'.session
sent_sound R payload now seconds s p c c' e o n w h =
    let sent : IsSent s.session_id payload p now c c' =
      send_pending-IsSent s.session_id payload p now seconds c c' w in
    let k : FutureSound R s.session_id p p.future = rw (e, o) at h in
    rw (sent.one_frame) (
      unqueued_sound R sent.session.session_id p (mark_queued now sent.session p) p.future n
        (rw (sent.current.1) k))

grown :
    (R T : ℕ → DeviceStatus → Type 0) (o : Option Session)
    → SessionSound R o
    → SessionSound (λ offset d. R offset d ⊎ T offset d) o
grown R T none h = tt
grown R T (some s) h = pending_more s.session_id s.pending (λ offset d m. inl m) h

pub Step-sound :
    {c c' : Client} (R : ℕ → DeviceStatus → Type 0) (st : Step c c')
    → SessionSound R c.session
    → SessionSound (λ offset d. R offset d ⊎ ToldBy st offset d) c'.session
unfolding feed_data end_session take_callback begin_close close_writers clean_up
Step-sound {c} R (Step.delivered n) h = grown R _ _ (delivered-Holds (PendingSound R) n c.session h)
Step-sound {c} R (Step.accepted peer) h =
    grown R _ _ (accept-Holds (PendingSound R) peer c (λ i. tt) h)
Step-sound {c} R (Step.read now wall chunk s e w) h =
    take_chunk_sound R now wall chunk s c _ (rw e at h) w
Step-sound {c} R (Step.ended reason s e) h = grown R _ _ (ended-Holds (PendingSound R) _ c)
Step-sound {c} R (Step.begun r i now free w) h =
    let (s, new) = started-pending r i now c _ w in rw new tt
Step-sound {c} R (Step.sent payload now seconds s p e o n w) h =
    grown R _ _ (sent_sound R payload now seconds s p c _ e o n w h)
Step-sound {c} R Step.finished h = grown R _ _ (cleared-Holds (PendingSound R) c.session (λ i. tt))
Step-sound R (Step.broke {c'} now wall chunk s s' reason e w e') h =
    grown R _ _ (ended-Holds (PendingSound R) _ c')
Step-sound R Step.called h = grown R _ _ h
Step-sound {c} R (Step.raised callback) h =
    grown R _ _ (fail_callback-Holds (PendingSound R) callback c h)
Step-sound R Step.closing h = grown R _ _ h
Step-sound {c} R Step.shut h = grown R _ _ (close_writer-Holds (PendingSound R) c.session h)
Step-sound R Step.cleaned h = tt

pub Reach-sound :
    {c c' : Client} (r : Reach c c')
    → SessionSound (λ offset d. ⊥) c.session
    → SessionSound (HeardIn r) c'.session
Reach-sound Reach.here h = h
Reach-sound (Reach.next r st) h = Step-sound (HeardIn r) st (Reach-sound r h)

-- The frames `w` are those that the session's command says it has written.
abbrev WrittenAs : List Write → Option Pending → Type 0
WrittenAs w none = Unit
WrittenAs w (some p) = w ≡ writes_of p

abbrev SessionWritten : List Write → Option Session → Type 0
SessionWritten w = Holds Unit (λ i o. WrittenAs w o)

acknowledge-WrittenAs : (w : List Write) → IsHeard (λ offset d. Unit) (λ i o. WrittenAs w o)
unfolding acknowledge
acknowledge-WrittenAs w offset d s none m i r h = tt
acknowledge-WrittenAs w offset d s (some p) m i r h = elim (Bool-cases (qualifies offset d s p)) [
  | inl matched ↦ rw matched h
  | inr no_match ↦ rw no_match h
]

sent-WrittenAs :
    (w : List Write) (payload : List ℕ) (now seconds : ℕ) (s : Session) (p : Pending)
    (c c' : Client)
    → c.session ≡ some s
    → s.pending ≡ some p
    → p.queued ≡ false
    → send_pending s.session_id payload p now seconds c ≡ ok (Round.wrote c')
    → SessionWritten w c.session
    → SessionWritten
        (w
          ++ (record { byte_boundary = s.total_received; receive_sequence = s.receive_sequence }
              ∷ []))
        c'.session
sent-WrittenAs w payload now seconds s p c c' e o n sending h =
    let sent : IsSent s.session_id payload p now c c' =
      send_pending-IsSent s.session_id payload p now seconds c c' sending in
    let k : w ≡ writes_of p = rw (e, o) at h in
    let empty : w ≡ [] = rw n at k in
    let same : s ≡ sent.session = cc in rw (sent.one_frame, empty, same) refl

Step-WrittenAs :
    {c c' : Client} (w : List Write) (st : Step c c')
    → SessionWritten w c.session
    → SessionWritten (write_by st w) c'.session
unfolding feed_data end_session take_callback begin_close close_writers clean_up
Step-WrittenAs {c} w (Step.delivered n) h = delivered-Holds (λ i o. WrittenAs w o) n c.session h
Step-WrittenAs {c} w (Step.accepted peer) h = accept-Holds (λ i o. WrittenAs w o) peer c (λ i. tt) h
Step-WrittenAs {c} w (Step.read now wall chunk s e r) h =
    take_chunk_keeps Unit (λ i o. WrittenAs w o) (λ offset d. Unit) (acknowledge-WrittenAs w) now
      wall chunk s c _ (λ offset d m. tt) (rw e at h) r
Step-WrittenAs {c} w (Step.ended reason s e) h = ended-Holds (λ i o. WrittenAs w o) _ c
Step-WrittenAs {c} w (Step.begun r i now free b) h =
    let (s, new) = started-pending r i now c _ b in rw new refl
Step-WrittenAs {c} w (Step.sent payload now seconds s p e o n b) h =
    sent-WrittenAs w payload now seconds s p c _ e o n b h
Step-WrittenAs {c} w Step.finished h = cleared-Holds (λ i o. WrittenAs w o) c.session (λ i. tt)
Step-WrittenAs w (Step.broke {c'} now wall chunk s s' reason e b e') h =
    ended-Holds (λ i o. WrittenAs w o) _ c'
Step-WrittenAs w Step.called h = h
Step-WrittenAs {c} w (Step.raised callback) h =
    fail_callback-Holds (λ i o. WrittenAs w o) callback c h
Step-WrittenAs w Step.closing h = h
Step-WrittenAs {c} w Step.shut h = close_writer-Holds (λ i o. WrittenAs w o) c.session h
Step-WrittenAs w Step.cleaned h = tt

Reach-WrittenAs :
    {c c' : Client} (r : Reach c c')
    → SessionWritten [] c.session
    → SessionWritten (writes r) c'.session
Reach-WrittenAs Reach.here h = h
Reach-WrittenAs (Reach.next r st) h = Step-WrittenAs (writes r) st (Reach-WrittenAs r h)

abandon-some : (s : Session) (p : Pending) → (q : Pending) × (abandon s (some p) ≡ some q)
unfolding abandon
abandon-some s p = (_, refl)

-- The command's task reads of its session the number alone, which the end leaves.
finish_command-ended :
    (how : Ending) (reason : DisconnectReason) (s : Session) (c : Client) (q : Pending)
    → finish_command how s q ≡ finish_command how (end_session reason s c).0 q
unfolding finish_command end_session
finish_command-ended (Ending.failed e) reason s c q = refl
finish_command-ended Ending.cancelled reason s c q = refl
finish_command-ended Ending.completed reason s c q = refl
finish_command-ended Ending.timed_out reason s c q = refl

-- In every state that a new client's events lead to, whatever their order, and however the waits of
-- the session's command end, in that state or once the session has ended for any reason: a command that
-- returns a status returns one that confirms it, which stood in a frame that the run read, behind the
-- bytes received before its frame was written; an uncertain error is raised only when its frame was
-- written once in the run, and it names the session and the counts at that write; and every other error,
-- also one that `_send` raised, only when the run wrote no frame for it.
pub Reach-Outcome :
    (config : Config) (c : Client) (s : Session) (p : Pending) (how : Ending)
    (reason : DisconnectReason) (r : Reach (new_client config) c)
    → c.session ≡ some s
    → s.pending ≡ some p
    → IsRaised how p
    → Outcome (HeardIn r) (writes r) s p (finish_command how s p)
      × ((q : Pending) × ((end_session reason s c).0.pending ≡ some q)
          × Outcome (HeardIn r) (writes r) s p (finish_command how (end_session reason s c).0 q))
unfolding end_session
Reach-Outcome config c s p how reason r e o raised =
    let sound : SessionSound (HeardIn r) c.session = Reach-sound r tt in
    let k : PendingSound (HeardIn r) s.session_id (some p) = rw (e, o) at sound in
    let written : SessionWritten (writes r) c.session = Reach-WrittenAs r tt in
    let l : writes r ≡ writes_of p = rw (e, o) at written in
    let (live, ended) = command-Outcome (HeardIn r) (writes r) how s p raised l k in
    let (q, left) = abandon-some s p in
    (
      live,
      (
        q,
        ap (abandon s) o ∙ left,
        subst (λ (x : Result ClientError DeviceStatus). Outcome (HeardIn r) (writes r) s p x)
            (finish_command-ended how reason s c q) (ended q left),
      ),
    )

-- ===== src/LocalClient/Command/Sound.antt =====
-- What the result of a command says of the bytes that were sent.
use alorair_home_assistant.Base.{
  ℕ, ◌≡◌, refl, List, [], ◌∷◌, Bool, true, false, some, if◌then◌else◌, Result, ok, err, subst,
}
use alorair_home_assistant.LocalClient.State.{
  Client, ClientError, DeviceStatus, Future, Pending, Session, UncertainReason,
}
use alorair_home_assistant.LocalClient.Receive.{abandon, is_waiting, uncertain_error}
use alorair_home_assistant.LocalClient.Receive.Acknowledge.{FutureSound, PendingSound}
use alorair_home_assistant.LocalClient.Send.{send_pending}
use alorair_home_assistant.LocalClient.Send.Refused.{IsPlain, send_pending-IsPlain}
use alorair_home_assistant.LocalClient.Command.{Ending, finish_command}

-- The place of a command's frame in its session.
pub record Write : Type 0 where
  pub byte_boundary : ℕ
  pub receive_sequence : ℕ

abbrev pub write_of : Pending → Write
write_of p = record { byte_boundary = p.byte_boundary; receive_sequence = p.receive_sequence }

-- The frames that a command says it has written.
abbrev pub writes_of : Pending → List Write
writes_of p = if p.queued then write_of p ∷ [] else []

-- An error `e` that `_send` may have raised for a command that was not queued.
abbrev pub IsRaised : Ending → Pending → Type 0
IsRaised (Ending.failed e) p =
    (p.queued ≡ false)
    × (i : ℕ) × (payload : List ℕ) × (now : ℕ) × (seconds : ℕ) × (c : Client) × (send_pending i
          payload p now seconds c
        ≡ err e)
IsRaised _ p = Unit

-- A report that confirms the command: of the session, one of the reports `R`, in a frame behind the
-- bytes received when the command was queued, with its opcode and the value that it asked for; and
-- the one frame of the command was written.
abbrev pub Confirms :
    (ℕ → DeviceStatus → Type 0) → List Write → Session → Pending → DeviceStatus → Type 0
Confirms R w s p d = FutureSound R s.session_id p (Future.result d) × (w ≡ write_of p ∷ [])

-- An error that tells the truth on the frames `w` that were written: uncertain, with the place of the
-- one frame, or any other error, and none.
abbrev pub Truthful : List Write → Session → ClientError → Type 0
Truthful w s (ClientError.uncertain u) =
    (u.session_id ≡ s.session_id)
    × (w ≡ record { byte_boundary = u.byte_boundary; receive_sequence = u.receive_sequence } ∷ [])
Truthful w s _ = w ≡ []

abbrev pub Outcome :
    (ℕ → DeviceStatus → Type 0)
    → List Write
    → Session
    → Pending
    → Result ClientError DeviceStatus
    → Type 0
Outcome R w s p (ok d) = Confirms R w s p d
Outcome R w s p (err e) = Truthful w s e

-- The command of a session that ended while it waited.
abbrev dropped : Session → Pending → Pending
dropped s p = record p {
  future = Future.failed (
      if p.queued
      then uncertain_error UncertainReason.disconnected s p
      else ClientError.not_connected);
}

plain-Truthful :
    (w : List Write) (s : Session) (e : ClientError) → IsPlain e → w ≡ [] → Truthful w s e
plain-Truthful w s (ClientError.uncertain u) h k = absurd h
plain-Truthful w s ClientError.not_connected h k = k
plain-Truthful w s ClientError.stale_status h k = k
plain-Truthful w s ClientError.not_sent h k = k
plain-Truthful w s ClientError.invalid_value h k = k

module _ (R : ℕ → DeviceStatus → Type 0) (w : List Write) where
  undelivered-Outcome :
      (reason : UncertainReason) (s : Session) (p : Pending) (q : Bool)
      → w ≡ (if q then write_of p ∷ [] else [])
      → Outcome R w s p (if q then err (uncertain_error reason s p) else err ClientError.not_sent)
  undelivered-Outcome reason s p true h = (refl, h)
  undelivered-Outcome reason s p false h = h

  queued-writes : (p : Pending) → p.queued ≡ true → w ≡ writes_of p → w ≡ write_of p ∷ []
  queued-writes p q h = rw q at h

  failed-Outcome :
      (e : ClientError) (s : Session) (p : Pending)
      → IsRaised (Ending.failed e) p
      → w ≡ writes_of p
      → Truthful w s e
  failed-Outcome e s p (unqueued, i, payload, now, seconds, c, raised) h =
      plain-Truthful w s e (send_pending-IsPlain i payload p now seconds c e raised)
        (rw unqueued at h)

  finish-Outcome :
      (how : Ending) (s : Session) (p : Pending) (f : Future)
      → IsRaised how p
      → w ≡ writes_of p
      → FutureSound R s.session_id p f
      → Outcome R w s p (finish_command how s (record p { future = f }))
  unfolding finish_command
  finish-Outcome (Ending.failed e) s p f r k h = failed-Outcome e s p r k
  finish-Outcome Ending.cancelled s p f r k h = undelivered-Outcome _ s p p.queued k
  finish-Outcome Ending.completed s p Future.waiting r k h = undelivered-Outcome _ s p p.queued k
  finish-Outcome Ending.completed s p Future.cancelled r k h = absurd h
  finish-Outcome Ending.completed s p (Future.failed e) r k h = absurd h
  finish-Outcome Ending.completed s p (Future.result d) r k h = (h, queued-writes p (h.3) k)
  finish-Outcome Ending.timed_out s p Future.waiting r k h = undelivered-Outcome _ s p p.queued k
  finish-Outcome Ending.timed_out s p Future.cancelled r k h = absurd h
  finish-Outcome Ending.timed_out s p (Future.failed e) r k h = absurd h
  finish-Outcome Ending.timed_out s p (Future.result d) r k h = (h, queued-writes p (h.3) k)

  disconnected-Truthful :
      (s : Session) (p : Pending) (q : Bool)
      → w ≡ (if q then write_of p ∷ [] else [])
      → Truthful w s (
          if q then uncertain_error UncertainReason.disconnected s p else ClientError.not_connected)
  disconnected-Truthful s p true h = (refl, h)
  disconnected-Truthful s p false h = h

  dropped-Outcome :
      (how : Ending) (s : Session) (p : Pending)
      → IsRaised how p
      → w ≡ writes_of p
      → Outcome R w s p (finish_command how s (dropped s p))
  unfolding finish_command
  dropped-Outcome (Ending.failed e) s p r k = failed-Outcome e s p r k
  dropped-Outcome Ending.cancelled s p r k = undelivered-Outcome _ s p p.queued k
  dropped-Outcome Ending.completed s p r k = disconnected-Truthful s p p.queued k
  dropped-Outcome Ending.timed_out s p r k = disconnected-Truthful s p p.queued k

  -- However the waits of a command end, and also when its session has ended meanwhile: a status is
  -- returned only if it confirms the command, an uncertain error is raised only if its frame was
  -- written, and the other errors only if it was not.
  pub command-Outcome :
      (how : Ending) (s : Session) (p : Pending)
      → IsRaised how p
      → w ≡ writes_of p
      → PendingSound R s.session_id (some p)
      → Outcome R w s p (finish_command how s p)
        × ((q : Pending) → abandon s (some p) ≡ some q → Outcome R w s p (finish_command how s q))
  unfolding abandon
  command-Outcome how s p r k h =
      (finish-Outcome how s p p.future r k h, λ q e. abandoned p.future h q e)
    where
      abandoned :
          (f : Future)
          → FutureSound R s.session_id p f
          → (q : Pending)
          → some (if is_waiting f then dropped s p else record p { future = f }) ≡ some q
          → Outcome R w s p (finish_command how s q)
      abandoned Future.waiting h' q e =
          let same : dropped s p ≡ q = cc in
          subst (λ (x : Pending). Outcome R w s p (finish_command how s x)) same
            (dropped-Outcome how s p r k)
      abandoned (Future.result d) h' q e =
          let same : record p { future = Future.result d } ≡ q = cc in
          subst (λ (x : Pending). Outcome R w s p (finish_command how s x)) same
            (finish-Outcome how s p (Future.result d) r k h')
      abandoned Future.cancelled h' q e = absurd h'
      abandoned (Future.failed x) h' q e = absurd h'

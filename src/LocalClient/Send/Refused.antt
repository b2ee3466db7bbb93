-- ===== src/LocalClient/Send/Refused.antt =====
-- The errors that `_send` raises before it writes.
use alorair_home_assistant.Base.{
  ℕ, ◌≡◌, refl, subst, List, Bool, true, false, not, ◌&&◌, ◌||◌, Option, none, some, ltb, ◌==◌,
  if◌then◌else◌, Result, ok, err, raise_if, ◌>>=◌,
}
use alorair_home_assistant.LocalClient.State.{
  Client, ClientError, Pending, Session, not_connected, not_sent, stale_status,
}
use alorair_home_assistant.LocalClient.Connection.{
  connected, is_expected, is_fresh, require_fresh_status,
}
use alorair_home_assistant.LocalClient.Send.{
  Round, encoded, is_off, mark_queued, next_timestamp, open_session, reports_on, send_pending,
  spacing_left, write_frame, write_pending,
}
use alorair_home_assistant.Protocol.Frame.{ProtocolError, encode}
use alorair_home_assistant.Protocol.Command.{frame}

-- An error that does not speak of bytes that were sent.
abbrev pub IsPlain : ClientError → Type 0
IsPlain (ClientError.uncertain u) = ⊥
IsPlain _ = Unit

-- A result whose error, if it has one, is plain.
abbrev Plain : {A : Type 0} → Result ClientError A → Type 0
Plain (ok a) = Unit
Plain (err e) = IsPlain e

one_of_two : (a : Bool) (s : Session) → Plain (if a then err not_connected else ok s)
one_of_two true s = tt
one_of_two false s = tt

one_of_three :
    (a b : Bool) (s : Session)
    → Plain (if a then err not_connected else if b then ok s else err stale_status)
one_of_three true b s = tt
one_of_three false true s = tt
one_of_three false false s = tt

open_session-Plain :
    (i : ℕ) (c : Client) (o : Option Session) → c.session ≡ o → Plain (open_session i c)
open_session-Plain i c none h = rw h tt
open_session-Plain i c (some s) h =
    rw h (one_of_two (c.closing || not (s.session_id == i) || s.writer_closing) s)

require_fresh_status-Plain :
    (expected : Option ℕ) (stale : Bool) (now : ℕ) (c : Client) (o : Option Session)
    → c.session ≡ o
    → Plain (require_fresh_status expected stale now c)
unfolding require_fresh_status
require_fresh_status-Plain expected stale now c none h = rw h tt
require_fresh_status-Plain expected stale now c (some s) h = rw h (
    one_of_three (not (connected (record c { session = some s })) || not (is_expected expected s))
      (stale || is_fresh c.last_status s.session_id c.config.status_max_age now) s)

from_encode-Plain :
    (r : Result ProtocolError (List ℕ))
    → Plain (elim r [ ok raw ↦ ok raw | err e ↦ err ClientError.invalid_value ])
from_encode-Plain (ok raw) = tt
from_encode-Plain (err e) = tt

-- A round whose steps have plain errors has a plain error.
round-Plain :
    (m n : Result ClientError Session) (early refused : Bool) (delay : ℕ)
    (w : Result ClientError (List ℕ)) (k : Session → List ℕ → Client)
    → Plain m
    → Plain n
    → Plain w
    → Plain (
        m >>= λ s. n >>= λ t.
        if early
        then ok (Round.wait delay)
        else ((raise_if refused not_sent >>= λ _. w >>= λ raw. ok (k s raw)) >>= λ d.
            ok (Round.wrote d)))
round-Plain (err e) n early refused delay w k g h l = g
round-Plain (ok s) (err e) early refused delay w k g h l = h
round-Plain (ok s) (ok t) true refused delay w k g h l = tt
round-Plain (ok s) (ok t) false true delay w k g h l = tt
round-Plain (ok s) (ok t) false false delay (err e) k g h l = l
round-Plain (ok s) (ok t) false false delay (ok raw) k g h l = tt

pub send_pending-IsPlain :
    (i : ℕ) (payload : List ℕ) (p : Pending) (now seconds : ℕ) (c : Client) (e : ClientError)
    → send_pending i payload p now seconds c ≡ err e
    → IsPlain e
unfolding send_pending write_pending
send_pending-IsPlain i payload p now seconds c e h =
    let timestamp = next_timestamp c.last_outbound_timestamp seconds in
    subst (λ (x : Result ClientError Round). Plain x) h
      (round-Plain (open_session i c)
        (require_fresh_status (some i) (p.allow_stale || is_off p.opcode payload) now c)
        (ltb 0 (spacing_left c.last_outbound_time now))
        (p.opcode == 0x23 && not p.allow_stale && not (reports_on c.last_status))
        (spacing_left c.last_outbound_time now) (encoded c p.opcode payload timestamp)
        (λ s raw. write_frame now timestamp raw (some (mark_queued now s p)) s c)
        (open_session-Plain i c c.session refl)
        (require_fresh_status-Plain (some i) (p.allow_stale || is_off p.opcode payload) now c
          c.session refl)
        (from_encode-Plain (encode (frame c.config.mac timestamp 9 p.opcode payload))))

-- ===== src/LocalClient/Command/Kept.antt =====
-- What the events that read and write nothing leave of a statement on the session and its command.
use alorair_home_assistant.Base.{
  ℕ, ◌+◌, ◌≡◌, ◌==◌, sym, ap, ◌||◌, Option, none, some, ok, Result-cases, inl, inr, Bool-cases,
  String,
}
use alorair_home_assistant.LocalClient.State.{Callback, Client, Pending, Session}
use alorair_home_assistant.LocalClient.Connection.{
  accept, has_session, is_stranger, require_fresh_status,
}
use alorair_home_assistant.LocalClient.Queue.{enqueue_callback}
use alorair_home_assistant.LocalClient.Receive.{deliver}
use alorair_home_assistant.LocalClient.Receive.Keeps.{Holds, enqueue_keeps}
use alorair_home_assistant.LocalClient.Closing.{close_if, close_writer, fail_callback}
use alorair_home_assistant.LocalClient.Command.{
  Request, cleared, may_be_stale, new_pending, start_command,
}

pub started-pending :
    (r : Request) (i now : ℕ) (c c' : Client)
    → start_command r i now c ≡ ok c'
    → (s : Session) × (c'.session ≡ some (record s { pending = some (new_pending r) }))
unfolding start_command
started-pending r i now c c' e =
    elim (Result-cases (require_fresh_status (some i) (may_be_stale r) now c)) [
      | inr (x, bad) ↦ cc (rw bad at e)
      | inl (s, good) ↦
          let same : record c { session = some (record s { pending = some (new_pending r) }) }
              ≡ c' =
            cc (rw good at e) in
          (s, ap (λ (x : Client). x.session) (sym same))
    ]

-- What holds of every session and its command, whatever else the session says.
module _ (P : ℕ → Option Pending → Type 0) where
  pub delivered-Holds : (n : ℕ) (o : Option Session) → Holds Unit P o → Holds Unit P (deliver n o)
  delivered-Holds n none h = tt
  delivered-Holds n (some s) h = h

  pub cleared-Holds : (o : Option Session) → ((i : ℕ) → P i none) → Holds Unit P (cleared o)
  cleared-Holds none k = tt
  cleared-Holds (some s) k = k s.session_id

  pub accept-Holds :
      (peer : Option String) (c : Client)
      → ((i : ℕ) → P i none)
      → Holds Unit P c.session
      → Holds Unit P (accept peer c).session
  unfolding accept
  accept-Holds peer c k h = elim (Bool-cases (c.closing || is_stranger peer c || has_session c)) [
    | inl refused ↦ rw refused h
    | inr taken ↦ rw taken (k (c.session_counter + 1))
  ]

  close_if-Holds : (i : ℕ) (o : Option Session) → Holds Unit P o → Holds Unit P (close_if i o)
  close_if-Holds i none h = tt
  close_if-Holds i (some s) h = elim (Bool-cases (s.session_id == i)) [
    | inl same ↦ rw same h
    | inr other ↦ rw other h
  ]

  pub close_writer-Holds : (o : Option Session) → Holds Unit P o → Holds Unit P (close_writer o)
  close_writer-Holds none h = tt
  close_writer-Holds (some s) h = h

  pub fail_callback-Holds :
      (callback : Callback) (c : Client)
      → Holds Unit P c.session
      → Holds Unit P (fail_callback callback c).session
  unfolding fail_callback
  fail_callback-Holds (Callback.disconnect i r) c h = h
  fail_callback-Holds (Callback.status i d) c h = close_if-Holds i c.session h

  pub ended-Holds :
      (callback : Callback) (c : Client)
      → Holds Unit P
          (enqueue_callback callback (record c { session = none; last_status = none })).session
  ended-Holds callback c =
      enqueue_keeps Unit P callback (record c { session = none; last_status = none }) tt

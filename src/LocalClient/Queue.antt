-- ===== src/LocalClient/Queue.antt =====
-- The bounded queue of callbacks.
pub mod Bound
use alorair_home_assistant.Base.{
  ℕ, ◌-◌, List, [], ◌∷◌, ◌++◌, length, drop, Bool, true, false, Option, none, some, ltb, ◌==◌,
  if◌then◌else◌,
}
use alorair_home_assistant.LocalClient.State.{
  Callback, Client, Session, DisconnectReason, callback_queue_size,
}

abbrev pub is_disconnect : Callback → Bool
is_disconnect (Callback.status _ _) = false
is_disconnect (Callback.disconnect _ _) = true

abbrev pub disconnects : List Callback → List Callback
disconnects [] = []
disconnects (c ∷ cs) = if is_disconnect c then c ∷ disconnects cs else disconnects cs

-- `xs[-n:]` for `n` above zero
abbrev pub last_n {ℓ} : {A : Type ℓ} → ℕ → List A → List A
last_n n xs = drop (length xs - n) xs

-- `_discard_queued_statuses`, on the queue
unfoldable pub discard_queued_statuses : List Callback → List Callback
discard_queued_statuses queue = last_n (callback_queue_size - 1) (disconnects queue)

-- `writer.close()` on the current session, with the reason
abbrev pub close_session : DisconnectReason → Session → Session
close_session reason s = record s { reason = reason; writer_closing = true }

-- The branch of an overflow: a disconnection takes the place that is free now, a status closes the
-- connection that it came from.
unfoldable pub overflow : Callback → Client → Client
overflow (Callback.disconnect i r) c = record c {
  callbacks = discard_queued_statuses c.callbacks ++ (Callback.disconnect i r ∷ []);
}
overflow (Callback.status i s) c = record c {
  callbacks = discard_queued_statuses c.callbacks;
  session = elim c.session [
    | none ↦ none
    | some t ↦
        if t.session_id == i then some (close_session DisconnectReason.callback_error t) else some t
  ];
}

-- `_enqueue_callback`, where both callbacks are set
unfoldable pub enqueue_callback : Callback → Client → Client
enqueue_callback callback c =
    if ltb (length c.callbacks) callback_queue_size
    then record c { callbacks = c.callbacks ++ (callback ∷ []) }
    else overflow callback c

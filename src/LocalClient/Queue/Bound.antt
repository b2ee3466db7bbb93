-- ===== src/LocalClient/Queue/Bound.antt =====
-- The queue stays within its size, and a disconnection is never lost to an overflow.
use alorair_home_assistant.Base.{
  ℕ, ◌-◌, ◌≤◌, ◌≡◌, List, [], ◌∷◌, ◌++◌, length, true, false, some, ltb, arith, Bool-cases, inl,
  inr, ◌⊎◌, length-append, length-drop, refl, ltb-true,
}
use alorair_home_assistant.LocalClient.State.{
  Callback, Client, Session, DeviceStatus, callback_queue_size,
}
use alorair_home_assistant.LocalClient.Queue.{
  is_disconnect, disconnects, last_n, discard_queued_statuses, overflow, enqueue_callback,
}

length-last_n {ℓ} : {A : Type ℓ} (n : ℕ) (xs : List A) → length (last_n n xs) ≤ n
length-last_n n xs = omega (arith, length-drop (length xs - n) xs)

discard-le : (queue : List Callback) → length (discard_queued_statuses queue) ≤ 63
unfolding discard_queued_statuses
discard-le queue = length-last_n 63 (disconnects queue)

-- The last entry of a queue.
abbrev pub EndsIn : Callback → List Callback → Type 0
EndsIn callback queue = (front : List Callback) × (queue ≡ front ++ (callback ∷ []))

-- The session that a callback is about.
abbrev pub origin : Callback → ℕ
origin (Callback.status i _) = i
origin (Callback.disconnect i _) = i

module _ (c : Client) (full : ltb (length c.callbacks) callback_queue_size ≡ false) where
  overflow_closes :
      (i : ℕ) (d : DeviceStatus) (s : Session)
      → (overflow (Callback.status i d) c).session ≡ some s
      → s.session_id ≡ i
      → s.writer_closing ≡ true
  unfolding overflow
  overflow_closes i d s e same = ground arith

-- However full the queue is, what `_enqueue_callback` leaves fits it; a disconnection always stands
-- at its end; and a status that does not stand there has closed the session that it came from, if
-- that is the current one.
pub enqueue_callback_safe :
    (callback : Callback) (c : Client)
    → length c.callbacks ≤ callback_queue_size
    → (length (enqueue_callback callback c).callbacks ≤ callback_queue_size)
      × (is_disconnect callback ≡ true → EndsIn callback (enqueue_callback callback c).callbacks)
      × (EndsIn callback (enqueue_callback callback c).callbacks
          ⊎ ((s : Session)
              → (enqueue_callback callback c).session ≡ some s
              → s.session_id ≡ origin callback
              → s.writer_closing ≡ true))
unfolding enqueue_callback
enqueue_callback_safe callback c h =
    elim (Bool-cases (ltb (length c.callbacks) callback_queue_size)) [
      | inl room ↦ rw room (
        omega (arith, length-append c.callbacks (callback ∷ []), ltb-true _ _ room),
        λ _. (c.callbacks, refl),
        inl (c.callbacks, refl),
      )
      | inr full ↦ rw full (overflowed callback full)
    ]
  where
    overflowed :
        (callback : Callback)
        → ltb (length c.callbacks) callback_queue_size ≡ false
        → (length (overflow callback c).callbacks ≤ callback_queue_size)
          × (is_disconnect callback ≡ true → EndsIn callback (overflow callback c).callbacks)
          × (EndsIn callback (overflow callback c).callbacks
              ⊎ ((s : Session)
                  → (overflow callback c).session ≡ some s
                  → s.session_id ≡ origin callback
                  → s.writer_closing ≡ true))
    overflowed (Callback.disconnect i r) full = (
      unfold overflow in
          omega (
            arith,
            discard-le c.callbacks,
            length-append (discard_queued_statuses c.callbacks) (Callback.disconnect i r ∷ []),
          ),
      λ _. (discard_queued_statuses c.callbacks, unfold overflow in refl),
      inl (discard_queued_statuses c.callbacks, unfold overflow in refl),
    )
    overflowed (Callback.status i d) full = (
      unfold overflow in omega (arith, discard-le c.callbacks),
      λ e. cc,
      inr (λ s. overflow_closes c full i d s),
    )

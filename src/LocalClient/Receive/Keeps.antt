-- ===== src/LocalClient/Receive/Keeps.antt =====
-- What holds of the session's command, under every report that it may hear, holds after a chunk.
use alorair_home_assistant.Base.{
  ℕ, ◌+◌, ◌/◌, ◌≡◌, refl, sym, ◌∙◌, List, [], ◌∷◌, length, true, Option, none, some, ltb, ◌==◌,
  if◌then◌else◌, Result, ok, err, ◌>>=◌, arith, Bool-cases, Option-cases, Result-cases, subst, inl,
  inr,
}
use alorair_home_assistant.Protocol.Frame.{Frame}
use alorair_home_assistant.Protocol.Status.{Observed, observed_status}
use alorair_home_assistant.Protocol.Stream.{FrameStream, feed}
use alorair_home_assistant.LocalClient.State.{
  Callback, Client, ClientError, DeviceStatus, DisconnectReason, Pending, Session,
  callback_queue_size,
}
use alorair_home_assistant.LocalClient.Queue.{enqueue_callback, overflow, close_session}
use alorair_home_assistant.LocalClient.Send.{
  send_answer, open_session, encoded, write_frame, next_timestamp,
}
use alorair_home_assistant.LocalClient.Send.Spacing.{open_session-ok}
use alorair_home_assistant.LocalClient.Receive.{
  acknowledge, device_status, is_keepalive, is_status, take_status, take_frame, take_frames,
  take_chunk, answer, answered, count_chunk, first_frame_offset,
}

-- A statement on the session, by its number and its pending command, or on its absence.
abbrev pub Holds : Type 0 → (ℕ → Option Pending → Type 0) → Option Session → Type 0
Holds N P none = N
Holds N P (some s) = P s.session_id s.pending

-- The status `d` is read from one of the frames, a status frame that begins at `offset` when the first of them
-- begins at `base`.
pub data At (now wall : ℕ) : ℕ → List (List ℕ × Frame) → ℕ → DeviceStatus → Type 0 where
  first :
      {base : ℕ} {raw : List ℕ} {f : Frame} {fs : List (List ℕ × Frame)} (s : Session)
      (o : Observed)
      → f.function ≡ 7
      → observed_status f ≡ ok o
      → At now wall base ((raw, f) ∷ fs) base (device_status now wall s f.opcode o)
  rest :
      {base : ℕ} {raw : List ℕ} {f : Frame} {fs : List (List ℕ × Frame)} {offset : ℕ}
      {d : DeviceStatus}
      → At now wall (base + length raw) fs offset d
      → At now wall base ((raw, f) ∷ fs) offset d

-- The frames that a chunk completes.
abbrev pub frames_of : List ℕ → Session → List (List ℕ × Frame)
frames_of chunk s = elim (feed s.parser chunk) [ err e ↦ [] | ok (fs, parser) ↦ fs ]

frames_of-ok :
    (chunk : List ℕ) (s : Session) (fs : List (List ℕ × Frame)) (parser : FrameStream)
    → feed s.parser chunk ≡ ok (fs, parser)
    → frames_of chunk s ≡ fs
frames_of-ok chunk s fs parser e = rw (e, frames_of) refl

-- A statement that no report of the session breaks, when it is one of `R`.
abbrev pub IsHeard : (ℕ → DeviceStatus → Type 0) → (ℕ → Option Pending → Type 0) → Type 0
IsHeard R P =
    (offset : ℕ) (d : DeviceStatus) (s : Session) (p : Option Pending)
    → R offset d
    → d.session_id ≡ s.session_id
    → d.receive_sequence ≡ s.receive_sequence
    → P s.session_id p
    → P s.session_id (acknowledge offset d s p)

two_steps :
    (m : Result ClientError Session) (w : Result ClientError (List ℕ))
    (k : Session → List ℕ → Client) (c' : Client)
    → (m >>= λ s. w >>= λ raw. ok (k s raw)) ≡ ok c'
    → (s : Session) × (raw : List ℕ) × (m ≡ ok s) × (c' ≡ k s raw)
two_steps (err e) w k c' h = cc
two_steps (ok s) (err e) k c' h = cc
two_steps (ok s) (ok raw) k c' h = (s, raw, refl, cc)

take_frames_cons :
    (now wall offset : ℕ) (raw : List ℕ) (f : Frame) (fs : List (List ℕ × Frame)) (c : Client)
    (o : Option Session) (s : Session)
    → o ≡ some s
    → (elim o [
      | none ↦ err (DisconnectReason.connection_error, c)
      | some s ↦ take_frame now wall offset f s c >>= take_frames now wall (offset + length raw) fs
    ])
      ≡ (take_frame now wall offset f s c >>= take_frames now wall (offset + length raw) fs)
take_frames_cons now wall offset raw f fs c o s here = rw here

module _ (N : Type 0) (P : ℕ → Option Pending → Type 0) where
  pub enqueue_keeps :
      (callback : Callback) (c : Client)
      → Holds N P c.session
      → Holds N P (enqueue_callback callback c).session
  unfolding enqueue_callback
  enqueue_keeps callback c h = elim (Bool-cases (ltb (length c.callbacks) callback_queue_size)) [
    | inl room ↦ rw room h
    | inr full ↦ rw full (overflowed callback)
  ]
    where
      closed :
          (i : ℕ) (o : Option Session)
          → Holds N P o
          → Holds N P (elim o [
            | none ↦ none
            | some t ↦
                if t.session_id == i
                then some (close_session DisconnectReason.callback_error t)
                else some t
          ])
      closed i none k = k
      closed i (some t) k = elim (Bool-cases (t.session_id == i)) [
        | inl same ↦ rw same k
        | inr other ↦ rw other k
      ]

      overflowed : (callback : Callback) → Holds N P (overflow callback c).session
      overflowed (Callback.disconnect i r) = unfold overflow in h
      overflowed (Callback.status i d) = unfold overflow in closed i c.session h

  send_answer_keeps :
      (i opcode now seconds : ℕ) (payload : List ℕ) (c c' : Client)
      → Holds N P c.session
      → send_answer i opcode payload now seconds c ≡ ok c'
      → Holds N P c'.session
  unfolding send_answer
  send_answer_keeps i opcode now seconds payload c c' h e =
      let timestamp = next_timestamp c.last_outbound_timestamp seconds in
      let (s, raw, opened, left) =
        two_steps (open_session i c) (encoded c opcode payload timestamp)
          (λ s raw. write_frame now timestamp raw s.pending s c) c' e in
      let same : c.session ≡ some s = (open_session-ok i c s opened).0 in
      let kept : P s.session_id s.pending = rw same at h in rw left kept

  answer_keeps :
      (now wall : ℕ) (s : Session) (c c' : Client)
      → Holds N P c.session
      → answer now wall s c ≡ ok c'
      → Holds N P c'.session
  answer_keeps now wall s c c' h e =
      send_answer_keeps s.session_id 1 now (wall / 1000) (0 ∷ []) c c' h
        (only (send_answer s.session_id 1 (0 ∷ []) now (wall / 1000) c) e)
    where
      only : (r : Result ClientError Client) → answered c r ≡ ok c' → r ≡ ok c'
      only (ok d) e = cc
      only (err ClientError.invalid_value) e = cc
      only (err ClientError.not_connected) e = cc
      only (err ClientError.stale_status) e = cc
      only (err ClientError.not_sent) e = cc
      only (err (ClientError.uncertain u)) e = cc

status_function : (f : Frame) → is_status f ≡ true → f.function ≡ 7
status_function f h = ground arith

module _ (N : Type 0) (P : ℕ → Option Pending → Type 0) (R : ℕ → DeviceStatus → Type 0)
    (heard : IsHeard R P) where
  take_status_keeps :
      (now wall offset opcode : ℕ) (o : Observed) (s : Session) (c : Client)
      → R offset (device_status now wall s opcode o)
      → P s.session_id s.pending
      → Holds N P (take_status offset (device_status now wall s opcode o) s c).session
  unfolding take_status
  take_status_keeps now wall offset opcode o s c k h =
      enqueue_keeps N P (Callback.status s.session_id (device_status now wall s opcode o))
        (record c {
          last_status = some (device_status now wall s opcode o);
          session = some (record s {
            pending = acknowledge offset (device_status now wall s opcode o) s s.pending;
          });
        })
        (heard offset (device_status now wall s opcode o) s s.pending k refl refl h)

  take_frame_keeps :
      (now wall offset : ℕ) (f : Frame) (s : Session) (c c' : Client)
      → ((t : Session) (o : Observed)
          → f.function ≡ 7
          → observed_status f ≡ ok o
          → R offset (device_status now wall t f.opcode o))
      → P s.session_id s.pending
      → take_frame now wall offset f s c ≡ ok c'
      → Holds N P c'.session
  unfolding take_frame
  take_frame_keeps now wall offset f s c c' k h e =
      let seen : Session = record s { verified = true } in
      let d : Client = record c { session = some seen } in
      elim (Bool-cases (is_keepalive f)) [
        | inl ping ↦ answer_keeps N P now wall seen d c' h (rw ping at e)
        | inr other ↦ elim (Bool-cases (is_status f)) [
          | inr unknown ↦
              let same : d ≡ c' = cc (rw (other, unknown) at e) in
              subst (λ (x : Client). Holds N P x.session) same h
          | inl status ↦ elim (Result-cases (observed_status f)) [
            | inr (x, bad) ↦ cc (rw (other, status, bad) at e)
            | inl (o, good) ↦
                let same : take_status offset (device_status now wall seen f.opcode o) seen d ≡ c' =
                  cc (rw (other, status, good) at e) in
                subst (λ (x : Client). Holds N P x.session) same
                  (take_status_keeps now wall offset f.opcode o seen d
                    (k seen o (status_function f status) good) h)
          ]
        ]
      ]

  take_frames_keeps :
      (now wall offset : ℕ) (fs : List (List ℕ × Frame)) (c c' : Client)
      → ((at : ℕ) (d : DeviceStatus) → At now wall offset fs at d → R at d)
      → Holds N P c.session
      → take_frames now wall offset fs c ≡ ok c'
      → Holds N P c'.session
  unfolding take_frames
  take_frames_keeps now wall offset [] c c' within h e =
      let same : c ≡ c' = cc in subst (λ (x : Client). Holds N P x.session) same h
  take_frames_keeps now wall offset ((raw, f) ∷ fs) c c' within h e =
      elim (Option-cases c.session) [
        | inl gone ↦ cc (rw gone at e)
        | inr (s, here) ↦
            let k : P s.session_id s.pending = rw here at h in
            let step : (take_frame now wall offset f s c
                  >>= take_frames now wall (offset + length raw) fs)
                ≡ ok c' =
              sym (take_frames_cons now wall offset raw f fs c c.session s here) ∙ e in
            elim (Result-cases (take_frame now wall offset f s c)) [
              | inr (x, bad) ↦ cc (rw bad at step)
              | inl (d, good) ↦
                  take_frames_keeps now wall (offset + length raw) fs d c'
                    (λ at d m. within at d (At.rest m))
                    (take_frame_keeps now wall offset f s c d
                      (λ t o e m. within offset _ (At.first t o e m)) k good)
                    (rw good at step)
            ]
      ]

  pub take_chunk_keeps :
      (now wall : ℕ) (chunk : List ℕ) (s : Session) (c c' : Client)
      → ((at : ℕ) (d : DeviceStatus)
          → At now wall (first_frame_offset s) (frames_of chunk s) at d
          → R at d)
      → P s.session_id s.pending
      → take_chunk now wall chunk s c ≡ ok c'
      → Holds N P c'.session
  unfolding take_chunk
  take_chunk_keeps now wall chunk s c c' within h e = elim (Result-cases (feed s.parser chunk)) [
    | inr (x, bad) ↦ cc (rw (bad, take_chunk) at e)
    | inl ((fs, parser), good) ↦
        let same : frames_of chunk s ≡ fs = frames_of-ok chunk s fs parser good in
        take_frames_keeps now wall (first_frame_offset s) fs
          (record c { session = some (record (count_chunk chunk s) { parser = parser }) }) c'
          (rw same at within) h (rw (good, take_chunk) at e)
  ]

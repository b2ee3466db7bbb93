-- ===== src/LocalClient/Receive/Acknowledge.antt =====
-- A command is resolved only by a later report of its own session that says what it asked for.
use alorair_home_assistant.Base.{
  ℕ, ◌-◌, length, ◌<◌, ◌≤◌, ◌≡◌, ◌⊎◌, List, Bool, true, ◌&&◌, Option, none, some, ltb, leb, ◌==◌,
  ok, arith, Bool-cases, ==-true, ltb-true, leb-true, inl, inr,
}
use alorair_home_assistant.Base.Value.{value_eq}
use alorair_home_assistant.LocalClient.State.{Client, DeviceStatus, Future, Pending, Session}
use alorair_home_assistant.LocalClient.Receive.{
  reported, is_waiting, qualifies, acknowledge, take_chunk,
}
use alorair_home_assistant.LocalClient.Receive.Keeps.{
  At, Holds, IsHeard, frames_of, take_chunk_keeps,
}

-- The future of a live session's command: still waiting, or resolved by a status of this session, one
-- of the reports `R`, in a frame that began at or behind the end of the bytes that were received when
-- the command was queued, with its opcode and the value that it asked for.
abbrev pub FutureSound : (ℕ → DeviceStatus → Type 0) → ℕ → Pending → Future → Type 0
FutureSound R i p Future.waiting = Unit
FutureSound R i p Future.cancelled = ⊥
FutureSound R i p (Future.failed e) = ⊥
FutureSound R i p (Future.result d) =
    (offset : ℕ) × (p.byte_boundary ≤ offset)
    × (R offset d)
    × (p.queued ≡ true)
    × (d.session_id ≡ i)
    × (d.event_opcode ≡ p.opcode)
    × (p.receive_sequence < d.receive_sequence)
    × (value_eq (reported p.opcode d) p.expected ≡ true)

abbrev pub PendingSound : (ℕ → DeviceStatus → Type 0) → ℕ → Option Pending → Type 0
PendingSound R i none = Unit
PendingSound R i (some p) = FutureSound R i p p.future

abbrev pub SessionSound : (ℕ → DeviceStatus → Type 0) → Option Session → Type 0
SessionSound R = Holds Unit (PendingSound R)

six_true :
    (a b c d e f : Bool)
    → (a && b && c && d && e && f) ≡ true
    → (a ≡ true) × (c ≡ true) × (d ≡ true) × (e ≡ true) × (f ≡ true)
six_true a b c d e f h = ground arith

pub qualified :
    (offset : ℕ) (d : DeviceStatus) (s : Session) (p : Pending)
    → qualifies offset d s p ≡ true
    → (p.queued ≡ true)
      × (d.event_opcode ≡ p.opcode)
      × (p.receive_sequence < s.receive_sequence)
      × (p.byte_boundary ≤ offset)
      × (value_eq (reported p.opcode d) p.expected ≡ true)
qualified offset d s p h =
    let (q, o, l, b, v) =
      six_true p.queued (is_waiting p.future) (d.event_opcode == p.opcode)
        (ltb p.receive_sequence s.receive_sequence) (leb p.byte_boundary offset)
        (value_eq (reported p.opcode d) p.expected) h in
    (q, ==-true _ _ o, ltb-true _ _ l, leb-true _ _ b, v)

-- A future that is sound for some reports is sound for more of them.
pub sound_more :
    {R R' : ℕ → DeviceStatus → Type 0} (i : ℕ) (p : Pending) (f : Future)
    → ((offset : ℕ) (d : DeviceStatus) → R offset d → R' offset d)
    → FutureSound R i p f
    → FutureSound R' i p f
sound_more i p Future.waiting m h = tt
sound_more i p Future.cancelled m h = h
sound_more i p (Future.failed e) m h = h
sound_more i p (Future.result d) m (at, b, r, q, same, o, l, v) =
    (at, b, m at d r, q, same, o, l, v)

pub pending_more :
    {R R' : ℕ → DeviceStatus → Type 0} (i : ℕ) (o : Option Pending)
    → ((offset : ℕ) (d : DeviceStatus) → R offset d → R' offset d)
    → PendingSound R i o
    → PendingSound R' i o
pending_more i none m h = tt
pending_more i (some p) m h = sound_more i p p.future m h

module _ (R : ℕ → DeviceStatus → Type 0) where
  pub acknowledge_sound : IsHeard R (PendingSound R)
  unfolding acknowledge
  acknowledge_sound offset d s none m i r h = tt
  acknowledge_sound offset d s (some p) m i r h = elim (Bool-cases (qualifies offset d s p)) [
    | inr no_match ↦ rw no_match h
    | inl matched ↦
        let (q, o, l, b, v) = qualified offset d s p matched in
        rw matched (offset, b, m, q, i, o, omega arith, v)
  ]

module _ (R : ℕ → DeviceStatus → Type 0) where
  -- Reading a chunk keeps it so that the command of the session is resolved only by a report of the
  -- same session that is an earlier one of `R` or stands in a frame of this chunk, that began at or
  -- behind the end of the bytes that were received when the command was queued, with the command's
  -- opcode and the value that it asked for.
  pub take_chunk_sound :
      (now wall : ℕ) (chunk : List ℕ) (s : Session) (c c' : Client)
      → PendingSound R s.session_id s.pending
      → take_chunk now wall chunk s c ≡ ok c'
      → SessionSound
          (λ at d.
            R at d
            ⊎ At now wall (s.received_bytes - length s.parser.buffer) (frames_of chunk s) at d)
          c'.session
  take_chunk_sound now wall chunk s c c' h e =
      let R' : ℕ → DeviceStatus → Type 0 = λ at d.
        R at d ⊎ At now wall (s.received_bytes - length s.parser.buffer) (frames_of chunk s) at d in
      take_chunk_keeps Unit (PendingSound R') R' (acknowledge_sound R') now wall chunk s c c'
        (λ at d m. inr m)
        (pending_more {R = R} {R' = R'} s.session_id s.pending (λ at d m. inl m) h) e

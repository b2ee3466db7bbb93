-- ===== src/LocalClient/Command/Phase.antt =====
-- The life of a command as its client sees it: its phases, and the moves between them.
use alorair_home_assistant.Base.{
  ℕ, ◌-◌, length, ◌<◌, ◌≤◌, ◌≡◌, refl, sym, List, true, Option, none, some, subst, inl, inr,
  Bool-cases, if◌then◌else◌, arith,
}
use alorair_home_assistant.Base.Value.{Value, value_eq}
use alorair_home_assistant.Protocol.Frame.{Frame}
use alorair_home_assistant.LocalClient.State.{Client, DeviceStatus, Future, Pending, Session}
use alorair_home_assistant.LocalClient.Receive.{acknowledge, qualifies, reported}
use alorair_home_assistant.LocalClient.Receive.Keeps.{At, IsHeard, frames_of}
use alorair_home_assistant.LocalClient.Receive.Acknowledge.{qualified}
use alorair_home_assistant.LocalClient.Command.Reach.{Step}

-- What is left of a command when the transport's details are forgotten: its opcode and the value
-- that it wants, the counts of bytes and of reads when its frame was written, and the report that
-- settled it.
pub data Phase : Type 0 where
  idle dropped : Phase
  asked : ℕ → Value → Phase
  on_wire : ℕ → Value → ℕ → ℕ → Phase
  settled : ℕ → Value → DeviceStatus → Phase

abbrev pub phase_of : Pending → Future → Phase
phase_of p Future.waiting =
    if p.queued
    then Phase.on_wire p.opcode p.expected p.byte_boundary p.receive_sequence
    else Phase.asked p.opcode p.expected
phase_of p (Future.result d) = Phase.settled p.opcode p.expected d
phase_of p _ = Phase.dropped

abbrev pub phase_of_pending : Option Pending → Phase
phase_of_pending none = Phase.idle
phase_of_pending (some p) = phase_of p p.future

abbrev pub phase : Option Session → Phase
phase none = Phase.idle
phase (some s) = phase_of_pending s.pending

-- What an event is to a command: it begins one, writes one's frame at these counts, reads these frames,
-- ends one, or leaves it alone.
pub data Label : Type 0 where
  quiet ends : Label
  asks : ℕ → Value → Label
  writes_at : ℕ → ℕ → Label
  hears : ℕ → ℕ → ℕ → List (List ℕ × Frame) → Label

abbrev pub label : {c c' : Client} → Step c c' → Label
label (Step.read now wall chunk s e w) =
    Label.hears now wall (s.received_bytes - length s.parser.buffer) (frames_of chunk s)
label (Step.begun r i now free w) = Label.asks r.opcode r.expected
label (Step.sent payload now seconds s p e o n w) =
    Label.writes_at s.total_received s.receive_sequence
label (Step.ended reason s e) = Label.ends
label (Step.broke now wall chunk s s' reason e w e') = Label.ends
label Step.finished = Label.ends
label Step.cleaned = Label.ends
label _ = Label.quiet

-- When no command is there, one is asked for; when one is asked for, its frame is written; a report that
-- says what it wants, of a later read and in a frame behind the bytes of that time, settles it; and
-- it is let go.
pub data Move : Label → Phase → Phase → Type 0 where
  keep : {v : Phase} → Move Label.quiet v v
  ask :
      (opcode : ℕ) (wanted : Value)
      → Move (Label.asks opcode wanted) Phase.idle (Phase.asked opcode wanted)
  write :
      (opcode b n : ℕ) (wanted : Value)
      → Move (Label.writes_at b n) (Phase.asked opcode wanted) (Phase.on_wire opcode wanted b n)
  unanswered :
      {v : Phase} {now wall base : ℕ} {fs : List (List ℕ × Frame)}
      → Move (Label.hears now wall base fs) v v
  settle :
      {now wall base : ℕ} {fs : List (List ℕ × Frame)} (opcode b n offset : ℕ) (wanted : Value)
      (d : DeviceStatus)
      → At now wall base fs offset d
      → b ≤ offset
      → n < d.receive_sequence
      → d.event_opcode ≡ opcode
      → value_eq (reported opcode d) wanted ≡ true
      → Move
          (Label.hears now wall base fs)
          (Phase.on_wire opcode wanted b n)
          (Phase.settled opcode wanted d)
  release : {v : Phase} → Move Label.ends v Phase.idle

pub keep_by : {v w : Phase} → v ≡ w → Move Label.quiet v w
keep_by {v} e = subst (λ (x : Phase). Move Label.quiet v x) e Move.keep

-- What the reports of a chunk may make of a phase.
pub data Heard (l : Label) (v : Phase) : Phase → Type 0 where
  same : Heard l v v
  told :
      (opcode : ℕ) (wanted : Value) (d : DeviceStatus)
      → Move l v (Phase.settled opcode wanted d)
      → Heard l v (Phase.settled opcode wanted d)

pub Heard-Move :
    {v w : Phase} (now wall base : ℕ) (fs : List (List ℕ × Frame))
    → Heard (Label.hears now wall base fs) v w
    → Move (Label.hears now wall base fs) v w
Heard-Move now wall base fs same = Move.unanswered
Heard-Move now wall base fs (told opcode wanted d m) = m

matched :
    (offset : ℕ) (d : DeviceStatus) (s : Session) (p : Pending)
    → qualifies offset d s p ≡ true
    → p.future ≡ Future.waiting
matched offset d s p h = ground arith

Heard-on_wire :
    {l : Label} {v : Phase} (opcode b n : ℕ) (wanted : Value)
    → Heard l v (Phase.on_wire opcode wanted b n)
    → v ≡ Phase.on_wire opcode wanted b n
Heard-on_wire opcode b n wanted same = refl

pub Heard-phase :
    (now wall base : ℕ) (fs : List (List ℕ × Frame)) (v : Phase)
    → IsHeard
        (At now wall base fs)
        (λ i o. Heard (Label.hears now wall base fs) v (phase_of_pending o))
unfolding acknowledge
Heard-phase now wall base fs v offset d s none m i r h = h
Heard-phase now wall base fs v offset d s (some p) m i r h =
    elim (Bool-cases (qualifies offset d s p)) [
      | inr no_match ↦ rw no_match h
      | inl match ↦
          let l : Label = Label.hears now wall base fs in
          let (q, o, later, behind, e) = qualified offset d s p match in
          let wire : Phase = Phase.on_wire p.opcode p.expected p.byte_boundary p.receive_sequence in
          let k : Heard l v wire = rw (matched offset d s p match, q) at h in
          let move : Move l wire (Phase.settled p.opcode p.expected d) =
            Move.settle p.opcode p.byte_boundary p.receive_sequence offset p.expected d m behind
              (rw r later) o e in
          rw match (
            told p.opcode p.expected d (
              subst (λ (x : Phase). Move l x (Phase.settled p.opcode p.expected d))
                (sym (Heard-on_wire p.opcode p.byte_boundary p.receive_sequence p.expected k))
                move))
    ]

-- ===== src/LocalCoordinator/Command/Stopped.antt =====
-- After a stop was sent, whatever happens, no start is sent for three minutes.
use alorair_home_assistant.Base.{
  ℕ, ◌+◌, ◌≤◌, ◌<◌, ◌≡◌, ◌≢◌, inl, inr, refl, sym, ap, ◌∙◌, subst, [], ◌∷◌, true, false, Option,
  none, some, ◌==◌, arith, Bool-cases, Option-cases,
}
use alorair_home_assistant.Base.Dict.{
  Dict, IsAt, erase-IsAt, insert-IsAt, lookup, lookup-insert_self, ◌=s◌,
}
use alorair_home_assistant.Base.Value.{Value, value_eq}
use alorair_home_assistant.LocalClient.State.{DeviceStatus}
use alorair_home_assistant.LocalCoordinator.State.{
  Coordinator, Link, LocalPendingCommand, has_power, is_pending_off, pending_power, pending_time,
  status_stale,
}
use alorair_home_assistant.LocalCoordinator.Events.{
  accept_status, expire, on_disconnect, on_status, watchdog_round,
}
use alorair_home_assistant.LocalCoordinator.Events.Protection.{IsValid}
use alorair_home_assistant.LocalCoordinator.Command.{
  Answer, Command, Decision, actual_value, begin_command, complete_command, is_repeated,
  is_reversed, is_starting, is_stopping, confirm, is_unexpected, issue, mark_off,
}
use alorair_home_assistant.LocalCoordinator.Command.Gate.{
  IsCleared, and_false, begin_command-IsCleared, rested_start,
}
use alorair_home_assistant.LocalCoordinator.Command.Run.{Run, Run-Keeps, Step, issue-Keeps}
use alorair_home_assistant.LocalCoordinator.Command.Validated.{
  IsFlag, IsValidated, validated-IsFlag, validated_power, value_eq-str,
}

-- The commands of a run passed the validation.
abbrev pub IsValidStep :
    {t : ℕ} {c : Coordinator} {u : ℕ} {c' : Coordinator} → Step t c u c' → Type 0
IsValidStep (Step.sent u utc link m h e) = IsValidated m
IsValidStep _ = Unit

abbrev pub IsValidRun : {t : ℕ} {c : Coordinator} {u : ℕ} {c' : Coordinator} → Run t c u c' → Type 0
IsValidRun Run.start = Unit
IsValidRun (Run.next r s) = IsValidRun r × IsValidStep s

-- A pending power command wants one of the two values and lasts until `b` at least.
abbrev IsGuarding : ℕ → LocalPendingCommand → Type 0
IsGuarding b p = (b ≤ p.deadline) × IsFlag p.wanted

abbrev IsGuarded : ℕ → Dict LocalPendingCommand → Type 0
IsGuarded b = IsAt "powerStatus" (IsGuarding b)

lookup-expire :
    (now : ℕ) (d : Dict LocalPendingCommand)
    → ((p : LocalPendingCommand) → lookup "powerStatus" d ≡ some p → now < p.deadline)
    → lookup "powerStatus" (expire now d) ≡ lookup "powerStatus" d
unfolding lookup
lookup-expire now [] h = refl
lookup-expire now ((key, p) ∷ d) h = elim (Bool-cases (key =s "powerStatus")) [
  | inl same ↦ let early : now < p.deadline = h p (rw same refl) in ground arith
  | inr other ↦
      let rest : lookup "powerStatus" (expire now d) ≡ lookup "powerStatus" d =
        lookup-expire now d (λ q e. h q (rw other e)) in
      ground arith
]

pub on_status-pending :
    (link : Link) (now : ℕ) (d : DeviceStatus) (c : Coordinator)
    → (on_status link now d c).pending ≡ c.pending
unfolding on_status accept_status
on_status-pending link now d c = ground arith

pub review-pending :
    (link : Link) (now : ℕ) (m : Command) (d : DeviceStatus) (c : Coordinator)
    (o : Option DeviceStatus)
    → (elim o as (λ x. Coordinator) [
      | none ↦ c
      | some latest ↦ on_status link now latest (mark_off (is_reversed m d latest) now c)
    ]).pending
      ≡ c.pending
review-pending link now m d c none = refl
review-pending link now m d c (some latest) =
    on_status-pending link now latest (mark_off (is_reversed m d latest) now c)

complete-IsGuarded :
    (b : ℕ) (link : Link) (now issued : ℕ) (m : Command) (a : Answer) (c : Coordinator)
    → IsGuarded b c.pending
    → IsGuarded b (complete_command link now issued m a c).pending
unfolding complete_command
complete-IsGuarded b link now issued m (Answer.returned d) c g =
    elim (Bool-cases (is_unexpected m issued d)) [
      | inl odd ↦ rw odd g
      | inr good ↦
          rw
            (
              good,
              review-pending link now m d (mark_off (is_stopping m) now (confirm m d c))
                  link.last_status,
            )
            (erase-IsAt "powerStatus" (IsGuarding b) m.key c.pending g)
    ]
complete-IsGuarded b link now issued m Answer.uncertain c g = g
complete-IsGuarded b link now issued m Answer.rejected c g =
    erase-IsAt "powerStatus" (IsGuarding b) m.key c.pending g
complete-IsGuarded b link now issued m Answer.unhandled c g = g

pub on_disconnect-pending :
    (i now : ℕ) (c : Coordinator) → (on_disconnect i now c).pending ≡ c.pending
unfolding on_disconnect
on_disconnect-pending i now c = ground arith

pub Step-later : {t : ℕ} {c : Coordinator} {u : ℕ} {c' : Coordinator} → Step t c u c' → t ≤ u
Step-later (Step.reported u link d h k) = h
Step-later (Step.disconnected u i h) = h
Step-later (Step.watched u link h) = h
Step-later (Step.sent u utc link m h e) = h
Step-later (Step.answered u issued link m a h k) = h

Step-IsGuarded :
    {t : ℕ} {c : Coordinator} {u : ℕ} {c' : Coordinator} (b : ℕ) (s : Step t c u c')
    → IsValidStep s
    → u < b
    → b ≤ t + pending_time
    → IsGuarded b c.pending
    → IsGuarded b c'.pending
Step-IsGuarded {c = c} b (Step.reported u link d h k) v early late g =
    rw (on_status-pending link u d c) g
Step-IsGuarded {c = c} b (Step.disconnected u i h) v early late g =
    rw (on_disconnect-pending i u c) g
Step-IsGuarded {c = c} b (Step.watched u link h) v early late g =
    unfold watchdog_round in
    λ p e. g p (sym (lookup-expire u c.pending (λ q f. omega (arith, (g q f).0))) ∙ e)
Step-IsGuarded {c = c} b (Step.sent u utc link m h e) v early late g =
    subst (λ (x : Coordinator). IsGuarded b x.pending)
      (begin_command-IsCleared link u utc m c _ e).issued
      (insert-IsAt "powerStatus" (IsGuarding b) m.key _ c.pending
        (λ e. (omega arith, validated-IsFlag m v e)) g)
Step-IsGuarded {c = c} b (Step.answered u issued link m a h k) v early late g =
    complete-IsGuarded b link u issued m a c g

pub Run-later : {t : ℕ} {c : Coordinator} {u : ℕ} {c' : Coordinator} → Run t c u c' → t ≤ u
Run-later Run.start = omega arith
Run-later (Run.next r s) = omega (arith, Run-later r, Step-later s)

Run-IsGuarded :
    {t : ℕ} {c : Coordinator} {u : ℕ} {c' : Coordinator} (b : ℕ) (r : Run t c u c')
    → IsValidRun r
    → u < b
    → b ≤ t + pending_time
    → IsGuarded b c.pending
    → IsGuarded b c'.pending
Run-IsGuarded b Run.start v early late g = g
Run-IsGuarded b (Run.next r s) v early late g =
    Step-IsGuarded b s v.1 early (omega (arith, Run-later r))
      (Run-IsGuarded b r v.0 (omega (arith, Step-later s)) late g)

reported_on :
    (c : Coordinator)
    → has_power "01" c ≡ true
    → value_eq (actual_value "powerStatus" c.report) (Value.str "01") ≡ true
unfolding value_eq
reported_on c on = ground arith

pending_off :
    (now : ℕ) (c : Coordinator) (p : LocalPendingCommand)
    → lookup "powerStatus" c.pending ≡ some p
    → now < p.deadline
    → p.wanted ≡ Value.str "00"
    → is_pending_off (pending_power now c) ≡ true
unfolding pending_power value_eq
pending_off now c p here early off = ground arith

repeats :
    (now : ℕ) (p : LocalPendingCommand)
    → now < p.deadline
    → p.wanted ≡ Value.str "01"
    → is_repeated now (Value.str "01") (some p) ≡ true
unfolding value_eq
repeats now p early start = rw start (ground arith)

-- On a device that is reported on, no start is sent while a pending power command cannot expire.
on_needs :
    (link : Link) (now utc b : ℕ) (m : Command) (c c' : Coordinator)
    → m.key ≡ "powerStatus"
    → m.wanted ≡ Value.str "01"
    → now < b
    → IsGuarded b c.pending
    → has_power "01" c ≡ true
    → status_stale link now c ≡ false
    → is_pending_off (pending_power now c) ≡ false
    → begin_command link now utc m c ≢ Decision.send c'
on_needs link now utc b m c c' keyed wants early g on fresh quiet sent =
    let i : IsCleared link now utc m c c' = begin_command-IsCleared link now utc m c c' sent in
    elim (Option-cases (lookup "powerStatus" c.pending)) [
      | inl bare ↦ cc (rw (keyed, wants, bare, fresh, reported_on c on) at i.needed)
      | inr (p, here) ↦ elim (g p here).1 [
        | inl off ↦ cc (sym (pending_off now c p here (omega (arith, (g p here).0)) off) ∙ quiet)
        | inr start ↦ cc (
            sym (repeats now p (omega (arith, (g p here).0)) start)
            ∙ (rw (keyed, wants, here) at i.unrepeated))
      ]
    ]

-- The flag that a power command wants, from the two tests of the command.
starting-parts :
    (m : Command) → is_starting m ≡ true → ((m.opcode == 0x21) ≡ true) × (m.wanted ≡ Value.str "01")
starting-parts m h =
    let same : value_eq m.wanted (Value.str "01") ≡ true = ground arith in
    (ground arith, value_eq-str m.wanted "01" same)

stopping-parts :
    (m : Command) → is_stopping m ≡ true → ((m.opcode == 0x21) ≡ true) × (m.wanted ≡ Value.str "00")
stopping-parts m h =
    let same : value_eq m.wanted (Value.str "00") ≡ true = ground arith in
    (ground arith, value_eq-str m.wanted "00" same)

stopped-IsGuarded :
    (t utc : ℕ) (m : Command) (c : Coordinator)
    → IsValidated m
    → is_stopping m ≡ true
    → IsGuarded (t + pending_time) (issue t utc m c).pending
stopped-IsGuarded t utc m c valid stops p h =
    let (opcode, wants) = stopping-parts m stops in
    let keyed : m.key ≡ "powerStatus" = (validated_power m valid opcode).0 in
    let entry : LocalPendingCommand = record {
      wanted = m.wanted;
      deadline = t + pending_time;
      issued_monotonic = t;
    } in
    let new : entry ≡ p =
      cc (sym (lookup-insert_self "powerStatus" entry c.pending) ∙ (rw keyed at h)) in
    subst (λ (x : LocalPendingCommand). (t + pending_time ≤ x.deadline) × IsFlag x.wanted) new
      (omega arith, inl wants)

stopped_off :
    (t utc : ℕ) (m : Command) (c : Coordinator)
    → is_stopping m ≡ true
    → (issue t utc m c).last_off ≡ t
stopped_off t utc m c stops = rw stops refl

-- After a stop that passed the validation was sent, no start that passed it is sent for three
-- minutes, whatever reports, disconnections, answers, rounds of the watchdog and validated commands
-- come in between, if the coordinator's time off was in the past before the stop.
pub stop_protects :
    {t : ℕ} {c₁ : Coordinator} {u : ℕ} {c₂ : Coordinator} (link link' : Link) (v utc utc' : ℕ)
    (stop start : Command) (c c₃ : Coordinator)
    → IsValid t c
    → IsValidated stop
    → is_stopping stop ≡ true
    → begin_command link t utc stop c ≡ Decision.send c₁
    → (r : Run t c₁ u c₂) → IsValidRun r
    → u ≤ v
    → v < t + 180000
    → IsValidated start
    → is_starting start ≡ true
    → begin_command link' v utc' start c₂ ≢ Decision.send c₃
stop_protects {t} {c₁} {u} {c₂} link link' v utc utc' stop start c c₃ fine valid stops went r ran
      later early valid' starts sent =
    let issued : issue t utc stop c ≡ c₁ =
      (begin_command-IsCleared link t utc stop c c₁ went).issued in
    let off : c₁.last_off ≡ t =
      sym (ap (λ (x : Coordinator). x.last_off) issued) ∙ stopped_off t utc stop c stops in
    let (_, up) =
      Run-Keeps r
        (subst (λ (x : Coordinator). IsValid t x) issued (issue-Keeps t utc stop c fine).0) in
    let g : IsGuarded (t + pending_time) c₂.pending =
      Run-IsGuarded (t + pending_time) r ran (omega arith) (omega arith) (
        subst (λ (x : Coordinator). IsGuarded (t + pending_time) x.pending) issued
          (stopped-IsGuarded t utc stop c valid stops)) in
    let i : IsCleared link' v utc' start c₂ c₃ =
      begin_command-IsCleared link' v utc' start c₂ c₃ sent in
    let (quiet, rest) = rested_start link' v c₂ (and_false _ _ i.rested starts) in
    let (opcode, wants) = starting-parts start starts in
    elim rest [
      | inl (on, fresh) ↦
          on_needs link' v utc' (t + pending_time) start c₂ c₃
            (validated_power start valid' opcode).0 wants (omega arith) g on fresh quiet sent
      | inr long ↦ omega (arith, up, off)
    ]

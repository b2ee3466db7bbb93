-- ===== src/LocalCoordinator/Command/Uncertain.antt =====
-- A request whose delivery is uncertain, until its entry expires.
use alorair_home_assistant.Base.{
  ℕ, ◌+◌, ◌≤◌, ◌<◌, ◌≡◌, ◌≢◌, ◌⊎◌, inl, inr, sym, ◌∙◌, ap, subst, true, false, some, arith,
  Bool-cases, String,
}
use alorair_home_assistant.Base.Dict.{lookup, lookup-erase, lookup-insert, ◌=s◌}
use alorair_home_assistant.Base.Value.{value_eq}
use alorair_home_assistant.LocalCoordinator.State.{
  Coordinator, Link, LocalPendingCommand, pending_time,
}
use alorair_home_assistant.LocalCoordinator.Events.{watchdog_round}
use alorair_home_assistant.LocalCoordinator.Events.Protection.{expire_keeps}
use alorair_home_assistant.LocalCoordinator.Command.{
  Answer, Command, Decision, begin_command, complete_command, confirm, is_stopping, is_unexpected,
  issue, mark_off,
}
use alorair_home_assistant.LocalCoordinator.Command.Gate.{
  begin_command-IsCleared, issued_pending, repeated_not_sent,
}
use alorair_home_assistant.LocalCoordinator.Command.Run.{Run, Step}
use alorair_home_assistant.LocalCoordinator.Command.Stopped.{
  Step-later, on_disconnect-pending, on_status-pending, review-pending,
}

-- An answer that neither confirms the command nor says that it was not sent.
abbrev pub IsDoubtful : Command → ℕ → Answer → Type 0
IsDoubtful m issued (Answer.returned d) = is_unexpected m issued d ≡ true
IsDoubtful m issued Answer.uncertain = Unit
IsDoubtful m issued Answer.rejected = ⊥
IsDoubtful m issued Answer.unhandled = Unit

-- An event that sends no command of the key, and confirms and rejects none.
module _ (key : String) where
  abbrev pub IsAside : {t : ℕ} {c : Coordinator} {u : ℕ} {c' : Coordinator} → Step t c u c' → Type 0
  IsAside (Step.sent u utc link m h e) = (m.key =s key) ≡ false
  IsAside (Step.answered u issued link m a h k) = ((m.key =s key) ≡ false) ⊎ IsDoubtful m issued a
  IsAside _ = Unit

  abbrev pub IsAsideRun :
      {t : ℕ} {c : Coordinator} {u : ℕ} {c' : Coordinator} → Run t c u c' → Type 0
  IsAsideRun Run.start = Unit
  IsAsideRun (Run.next r s) = IsAsideRun r × IsAside s

  complete_keeps :
      (p : LocalPendingCommand) (link : Link) (now issued : ℕ) (m : Command) (a : Answer)
      (c : Coordinator)
      → ((m.key =s key) ≡ false) ⊎ IsDoubtful m issued a
      → lookup key c.pending ≡ some p
      → lookup key (complete_command link now issued m a c).pending ≡ some p
  unfolding complete_command
  complete_keeps p link now issued m (Answer.returned d) c aside h =
      elim (Bool-cases (is_unexpected m issued d)) [
        | inl odd ↦ rw odd h
        | inr good ↦ elim aside [
          | inr odd ↦ cc
          | inl other ↦
              rw
                (
                  good,
                  review-pending link now m d (mark_off (is_stopping m) now (confirm m d c))
                      link.last_status,
                  lookup-erase m.key key c.pending,
                  other,
                )
                h
        ]
      ]
  complete_keeps p link now issued m Answer.uncertain c aside h = h
  complete_keeps p link now issued m Answer.rejected c (inl other) h =
      rw (lookup-erase m.key key c.pending, other) h
  complete_keeps p link now issued m Answer.rejected c (inr never) h = absurd never
  complete_keeps p link now issued m Answer.unhandled c aside h = h

  Step_keeps :
      {t : ℕ} {c : Coordinator} {u : ℕ} {c' : Coordinator} (p : LocalPendingCommand)
      (s : Step t c u c')
      → IsAside s
      → u < p.deadline
      → lookup key c.pending ≡ some p
      → lookup key c'.pending ≡ some p
  Step_keeps {c = c} p (Step.reported u link d h k) aside early here =
      rw (on_status-pending link u d c) here
  Step_keeps {c = c} p (Step.disconnected u i h) aside early here =
      rw (on_disconnect-pending i u c) here
  Step_keeps {c = c} p (Step.watched u link h) aside early here =
      unfold watchdog_round in expire_keeps u key p c.pending here early
  Step_keeps {c = c} p (Step.sent u utc link m h e) aside early here =
      subst (λ (x : Coordinator). lookup key x.pending ≡ some p)
        (begin_command-IsCleared link u utc m c _ e).issued
        (rw (lookup-insert m.key key _ c.pending, aside) here)
  Step_keeps {c = c} p (Step.answered u issued link m a h k) aside early here =
      complete_keeps p link u issued m a c aside here

  Run_keeps :
      {t : ℕ} {c : Coordinator} {u : ℕ} {c' : Coordinator} (p : LocalPendingCommand)
      (r : Run t c u c')
      → IsAsideRun r
      → u < p.deadline
      → lookup key c.pending ≡ some p
      → lookup key c'.pending ≡ some p
  Run_keeps p Run.start aside early here = here
  Run_keeps p (Run.next r s) aside early here =
      Step_keeps p s aside.1 early (Run_keeps p r aside.0 (omega (arith, Step-later s)) here)

-- Once a request was sent, the same one is not sent again for five minutes, whatever reports,
-- disconnections, rounds of the watchdog, commands of other keys and answers to them come in between,
-- as long as no other command of its key is sent and its own answer is uncertain, unexpected or
-- not there: only a confirmation or a rejection lets it go out again.
pub uncertain_not_retried :
    {t : ℕ} {c₁ : Coordinator} {u : ℕ} {c₂ : Coordinator} (link link' : Link) (v utc utc' : ℕ)
    (m again : Command) (c c₃ : Coordinator)
    → begin_command link t utc m c ≡ Decision.send c₁
    → (r : Run t c₁ u c₂) → IsAsideRun m.key r
    → u ≤ v
    → v < t + 300000
    → again.key ≡ m.key
    → value_eq m.wanted again.wanted ≡ true
    → begin_command link' v utc' again c₂ ≢ Decision.send c₃
uncertain_not_retried {t} {c₁} {u} {c₂} link link' v utc utc' m again c c₃ went r aside later early
      keyed same =
    let issued : issue t utc m c ≡ c₁ = (begin_command-IsCleared link t utc m c c₁ went).issued in
    let entry : LocalPendingCommand = record {
      wanted = m.wanted;
      deadline = t + pending_time;
      issued_monotonic = t;
    } in
    let new : lookup m.key c₁.pending ≡ some entry =
      ap (λ (x : Coordinator). lookup m.key x.pending) (sym issued) ∙ issued_pending t utc m c in
    let here : lookup m.key c₂.pending ≡ some entry =
      Run_keeps m.key entry r aside (omega arith) new in
    repeated_not_sent link' v utc' again c₂ c₃ entry (rw keyed here) early same

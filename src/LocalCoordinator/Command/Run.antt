-- ===== src/LocalCoordinator/Command/Run.antt =====
-- Runs of the coordinator: events one after the other, with the times at which they happen.
use alorair_home_assistant.Base.{
  ℕ, ◌≤◌, ◌≡◌, inl, inr, Bool, true, false, Option, none, some, arith, Bool-cases, subst,
}
use alorair_home_assistant.LocalClient.State.{DeviceStatus}
use alorair_home_assistant.LocalCoordinator.State.{Coordinator, Link}
use alorair_home_assistant.LocalCoordinator.Events.{on_disconnect, on_status, watchdog_round}
use alorair_home_assistant.LocalCoordinator.Events.Protection.{
  IsTarget, IsValid, Keeps, on_status-Keeps, on_disconnect-Keeps, watchdog_round-Keeps,
}
use alorair_home_assistant.LocalCoordinator.Command.{
  Answer, Command, Decision, begin_command, complete_command, confirm, is_reversed, is_stopping,
  is_unexpected, issue, mark_off,
}
use alorair_home_assistant.LocalCoordinator.Command.Gate.{begin_command-IsCleared}

-- A status of the client has a target that the appliance can report.
abbrev pub HasTarget : Option DeviceStatus → Type 0
HasTarget none = Unit
HasTarget (some d) = (t : ℕ) → d.target_humidity ≡ some t → IsTarget t

pub data Step (t : ℕ) (c : Coordinator) : ℕ → Coordinator → Type 0 where
  reported :
      (u : ℕ) (link : Link) (d : DeviceStatus)
      → t ≤ u
      → HasTarget (some d)
      → Step t c u (on_status link u d c)
  disconnected : (u i : ℕ) → t ≤ u → Step t c u (on_disconnect i u c)
  watched : (u : ℕ) (link : Link) → t ≤ u → Step t c u (watchdog_round link u c)
  sent :
      {c' : Coordinator} (u utc : ℕ) (link : Link) (m : Command)
      → t ≤ u
      → begin_command link u utc m c ≡ Decision.send c'
      → Step t c u c'
  answered :
      (u issued : ℕ) (link : Link) (m : Command) (a : Answer)
      → t ≤ u
      → HasTarget link.last_status
      → Step t c u (complete_command link u issued m a c)

pub data Run (t : ℕ) (c : Coordinator) : ℕ → Coordinator → Type 0 where
  start : Run t c t c
  next : {u v : ℕ} {d e : Coordinator} → Run t c u d → Step u d v e → Run t c v e

IsValid-later : (t u : ℕ) (c : Coordinator) → t ≤ u → IsValid t c → IsValid u c
IsValid-later t u c h v = record { off_before = omega (arith, v.off_before); auto = v.auto }

mark_off-Keeps :
    (b : Bool) (now : ℕ) (c : Coordinator) → IsValid now c → Keeps now c (mark_off b now c)
mark_off-Keeps true now c v = (record { off_before = omega arith; auto = v.auto }, v.off_before)
mark_off-Keeps false now c v = (v, omega arith)

pub issue-Keeps :
    (now utc : ℕ) (m : Command) (c : Coordinator) → IsValid now c → Keeps now c (issue now utc m c)
issue-Keeps now utc m c v = elim (Bool-cases (is_stopping m)) [
  | inl stop ↦ rw stop (record { off_before = omega arith; auto = v.auto }, v.off_before)
  | inr other ↦ rw other (record { off_before = v.off_before; auto = v.auto }, omega arith)
]

Keeps-trans : (now : ℕ) (a b c : Coordinator) → Keeps now a b → Keeps now b c → Keeps now a c
Keeps-trans now a b c (_, h) (v, k) = (v, omega arith)

review-Keeps :
    (link : Link) (now : ℕ) (m : Command) (d : DeviceStatus) (c : Coordinator)
    (o : Option DeviceStatus)
    → HasTarget o
    → IsValid now c
    → Keeps now c (elim o [
      | none ↦ c
      | some latest ↦ on_status link now latest (mark_off (is_reversed m d latest) now c)
    ])
review-Keeps link now m d c none h v = (v, omega arith)
review-Keeps link now m d c (some latest) h v =
    let k : Keeps now c (mark_off (is_reversed m d latest) now c) =
      mark_off-Keeps (is_reversed m d latest) now c v in
    Keeps-trans now c _ _ k
      (on_status-Keeps link now latest (mark_off (is_reversed m d latest) now c) h k.0)

complete-Keeps :
    (link : Link) (now issued : ℕ) (m : Command) (a : Answer) (c : Coordinator)
    → HasTarget link.last_status
    → IsValid now c
    → Keeps now c (complete_command link now issued m a c)
unfolding complete_command
complete-Keeps link now issued m (Answer.returned d) c h v =
    elim (Bool-cases (is_unexpected m issued d)) [
      | inl odd ↦ rw odd (record { off_before = v.off_before; auto = v.auto }, omega arith)
      | inr good ↦
          let v₁ : IsValid now (confirm m d c) = record {
            off_before = v.off_before;
            auto = v.auto;
          } in
          let k : Keeps now (confirm m d c) (mark_off (is_stopping m) now (confirm m d c)) =
            mark_off-Keeps (is_stopping m) now (confirm m d c) v₁ in
          rw good (
            Keeps-trans now c (mark_off (is_stopping m) now (confirm m d c)) _ (k.0, k.1)
              (review-Keeps link now m d (mark_off (is_stopping m) now (confirm m d c))
                link.last_status h k.0))
    ]
complete-Keeps link now issued m Answer.uncertain c h v =
    (record { off_before = v.off_before; auto = v.auto }, omega arith)
complete-Keeps link now issued m Answer.rejected c h v =
    (record { off_before = v.off_before; auto = v.auto }, omega arith)
complete-Keeps link now issued m Answer.unhandled c h v = (v, omega arith)

Step-Keeps : {t u : ℕ} {c c' : Coordinator} → Step t c u c' → IsValid t c → Keeps u c c'
Step-Keeps {t} {c} (reported u link d h k) v =
    on_status-Keeps link u d c k (IsValid-later t u c h v)
Step-Keeps {t} {c} (disconnected u i h) v = on_disconnect-Keeps i u c (IsValid-later t u c h v)
Step-Keeps {t} {c} (watched u link h) v = watchdog_round-Keeps link u c (IsValid-later t u c h v)
Step-Keeps {t} {c} (sent u utc link m h e) v =
    subst (λ (x : Coordinator). Keeps u c x) (begin_command-IsCleared link u utc m c _ e).issued
      (issue-Keeps u utc m c (IsValid-later t u c h v))
Step-Keeps {t} {c} (answered u issued link m a h k) v =
    complete-Keeps link u issued m a c k (IsValid-later t u c h v)

-- Along every run the time off stays out of the future and never moves back, and the automatic
-- target stays a multiple of 5 from 25 to 80.
pub Run-Keeps :
    {t : ℕ} {c : Coordinator} {u : ℕ} {c' : Coordinator} → Run t c u c' → IsValid t c → Keeps u c c'
Run-Keeps start v = (v, omega arith)
Run-Keeps (next {d = d} r st) v =
    let (w, up) = Run-Keeps r v in let (w', up') = Step-Keeps st w in (w', omega (arith, up, up'))

-- ===== src/Cloud/Command/Stopped.antt =====
-- After a stop was sent no start is sent for three minutes.
use alorair_home_assistant.Base.{
  bytes_eq→eq, ℕ, ◌+◌, ◌≤◌, ◌<◌, ◌≡◌, ◌≢◌, inl, inr, sym, ap, ◌∙◌, subst, List, true, false, Option,
  some, arith, Option-cases, ==-true,
}
use alorair_home_assistant.Base.Dict.{IsAt, lookup, lookup-insert_self, same_key, ◌=s◌}
use alorair_home_assistant.LocalCoordinator.State.{pending_time}
use alorair_home_assistant.Cloud.Readings.{Floats, powered, utc_sample}
use alorair_home_assistant.Cloud.State.{
  AlorairCoordinator, PendingCommand, Wanted, is_pending_off, is_true, pending_power, same_wanted,
  started, stopped,
}
use alorair_home_assistant.Cloud.Command.{
  Command, Decision, begin_command, is_repeated, is_start, is_stop, issue, no_pending,
}
use alorair_home_assistant.Cloud.Command.Gate.{cloud_start_protected, not_repeated, sent_state}
use alorair_home_assistant.Cloud.Command.Run.{Run, Step}
use alorair_home_assistant.Cloud.Command.Resting.{IsGuarding, IsResting, Step-IsResting}

same_wanted-eq : (a b : Wanted) → same_wanted a b ≡ true → a ≡ b
same_wanted-eq (Wanted.text a) (Wanted.text b) h = rw (bytes_eq→eq a b h)
same_wanted-eq (Wanted.text a) (Wanted.humidity n) h = cc
same_wanted-eq (Wanted.humidity m) (Wanted.text b) h = cc
same_wanted-eq (Wanted.humidity m) (Wanted.humidity n) h =
    ap Wanted.humidity (omega (arith, ==-true m n h))

start-parts : (m : Command) → is_start m ≡ true → (m.key ≡ "powerStatus") × (m.wanted ≡ started)
start-parts m h =
    let keyed : (m.key =s "powerStatus") ≡ true = ground arith in
    let same : same_wanted m.wanted started ≡ true = ground arith in
    (same_key m.key "powerStatus" keyed, same_wanted-eq m.wanted started same)

stop-parts :
    (m : Command)
    → is_stop m ≡ true
    → (m.key ≡ "powerStatus") × (same_wanted m.wanted stopped ≡ true)
stop-parts m h =
    let keyed : (m.key =s "powerStatus") ≡ true = ground arith in
    (same_key m.key "powerStatus" keyed, ground arith)

module _ {floats : Floats} {fromisoformat : List ℕ → Option ℕ} where
  pub Step-later :
      {t : ℕ} {c : AlorairCoordinator} {u : ℕ} {d : AlorairCoordinator}
      → Step floats fromisoformat t c u d
      → t ≤ u
  Step-later (Step.polled u r h) = h
  Step-later (Step.sent u utc m h o e) = h
  Step-later (Step.answered u m reply h) = h
  Step-later (Step.acted u utc action h e) = h
  Step-later (Step.ended u action reply h) = h
  Step-later (Step.unloaded u h) = h

  pub Run-later :
      {t : ℕ} {c : AlorairCoordinator} {u : ℕ} {d : AlorairCoordinator}
      → Run floats fromisoformat t c u d
      → t ≤ u
  Run-later Run.start = omega arith
  Run-later (Run.next r s) = omega (arith, Run-later r, Step-later s)

  Run-IsResting :
      {t : ℕ} {c : AlorairCoordinator} {u : ℕ} {d : AlorairCoordinator}
      → Run floats fromisoformat t c u d
      → IsResting t (t + pending_time) c
      → IsResting t (t + pending_time) d
  Run-IsResting Run.start i = i
  Run-IsResting {t} (Run.next r s) i =
      Step-IsResting t (t + pending_time) s (Run-later r) (omega (arith, Run-later r))
        (Run-IsResting r i)

stop-IsResting :
    (floats : Floats) (fromisoformat : List ℕ → Option ℕ) (t utc : ℕ) (m : Command)
    (c : AlorairCoordinator)
    → is_stop m ≡ true
    → IsResting t (t + pending_time) (issue floats fromisoformat t utc m c)
unfolding issue
stop-IsResting floats fromisoformat t utc m c stops =
    let (keyed, off) = stop-parts m stops in
    let entry : PendingCommand = record {
      wanted = m.wanted;
      deadline = t + pending_time;
      issued_at = utc;
      baseline = utc_sample fromisoformat c.fields;
    } in
    record {
      off_since = rw stops (omega arith);
      guarded = λ p h.
          let new : entry ≡ p =
            cc (sym (lookup-insert_self "powerStatus" entry c.pending) ∙ (rw keyed at h)) in
          subst (λ (x : PendingCommand). IsGuarding (t + pending_time) x) new
            (omega arith, inl off);
    }

pending_stop :
    (now : ℕ) (c : AlorairCoordinator) (p : PendingCommand)
    → lookup "powerStatus" c.pending ≡ some p
    → now < p.deadline
    → same_wanted p.wanted stopped ≡ true
    → is_pending_off (pending_power now c) ≡ true
unfolding pending_power
pending_stop now c p here early off = ground arith

has_entry :
    (floats : Floats) (fromisoformat : List ℕ → Option ℕ) (now utc : ℕ) (m : Command)
    (c d : AlorairCoordinator)
    → begin_command floats fromisoformat now utc m c ≡ Decision.send d
    → is_start m ≡ true
    → is_true (powered c.fields) ≡ true
    → no_pending m c ≡ false
unfolding begin_command
has_entry floats fromisoformat now utc m c d h starts on = ground arith

-- A start is not sent to a device that is reported on while a pending power command cannot expire.
on_needs :
    (floats : Floats) (fromisoformat : List ℕ → Option ℕ) (now utc b : ℕ) (m : Command)
    (c d : AlorairCoordinator)
    → is_start m ≡ true
    → now < b
    → IsAt "powerStatus" (IsGuarding b) c.pending
    → is_true (powered c.fields) ≡ true
    → is_pending_off (pending_power now c) ≡ false
    → begin_command floats fromisoformat now utc m c ≢ Decision.send d
on_needs floats fromisoformat now utc b m c d starts early g on quiet sent =
    let (keyed, wants) = start-parts m starts in
    elim (Option-cases (lookup "powerStatus" c.pending)) [
      | inl bare ↦
          cc (rw (keyed, bare) at (has_entry floats fromisoformat now utc m c d sent starts on))
      | inr (p, here) ↦ elim (g p here).1 [
        | inl off ↦ cc (sym (pending_stop now c p here (omega (arith, (g p here).0)) off) ∙ quiet)
        | inr start ↦
            let again : is_repeated now started (some p) ≡ true = ground (arith, (g p here).0) in
            cc (
              sym again
              ∙ (rw (keyed, wants, here) at (not_repeated floats fromisoformat now utc m c d sent)))
      ]
    ]

-- After a stop was sent to a cloud device no start is sent for three minutes, whatever polls,
-- answers, experimental actions and other commands come in between, if the power commands among
-- them want one of the two codes.
pub cloud_stop_protects :
    {floats : Floats} {fromisoformat : List ℕ → Option ℕ} {t : ℕ} {c₁ : AlorairCoordinator} {u : ℕ}
    {c₂ : AlorairCoordinator} (v utc utc' : ℕ) (stop start : Command) (c c₃ : AlorairCoordinator)
    → is_stop stop ≡ true
    → begin_command floats fromisoformat t utc stop c ≡ Decision.send c₁
    → Run floats fromisoformat t c₁ u c₂
    → u ≤ v
    → v < t + 180000
    → is_start start ≡ true
    → begin_command floats fromisoformat v utc' start c₂ ≢ Decision.send c₃
cloud_stop_protects {floats} {fromisoformat} {t} {c₁} {u} {c₂} v utc utc' stop start c c₃ stops went
      r later early starts sent =
    let first : IsResting t (t + pending_time) c₁ =
      subst (λ (x : AlorairCoordinator). IsResting t (t + pending_time) x)
        (sym (sent_state floats fromisoformat t utc stop c c₁ went))
        (stop-IsResting floats fromisoformat t utc stop c stops) in
    let i : IsResting t (t + pending_time) c₂ = Run-IsResting r first in
    let (quiet, rest) = cloud_start_protected floats fromisoformat v utc' start c₂ c₃ starts sent in
    elim rest [
      | inl on ↦
          on_needs floats fromisoformat v utc' (t + pending_time) start c₂ c₃ starts (omega arith)
            i.guarded on quiet sent
      | inr long ↦ omega (arith, i.off_since)
    ]

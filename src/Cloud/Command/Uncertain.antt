-- ===== src/Cloud/Command/Uncertain.antt =====
-- A command of a cloud device that was sent, until its entry expires.
use alorair_home_assistant.Base.{
  ℕ, ◌+◌, ◌≤◌, ◌<◌, ◌≡◌, ◌≢◌, ◌⊎◌, inl, inr, refl, sym, ◌∙◌, List, [], ◌∷◌, Bool, true, false,
  Option, some, leb, String, arith, Bool-cases, Option-cases, ok, err,
}
use alorair_home_assistant.Base.Dict.{
  Dict, IsDict, erase, erase-IsDict, insert-IsDict, lookup, lookup-erase, lookup-insert,
  lookup-insert_self, ◌=s◌,
}
use alorair_home_assistant.Api.Json.{Fields}
use alorair_home_assistant.Api.Identity.{ApiError}
use alorair_home_assistant.LocalCoordinator.State.{pending_time}
use alorair_home_assistant.Cloud.Readings.{Floats, powered, utc_sample}
use alorair_home_assistant.Cloud.State.{AlorairCoordinator, PendingCommand, same_wanted}
use alorair_home_assistant.Cloud.Update.{settle, settle_all, update_data}
use alorair_home_assistant.Cloud.Update.Settled.{
  is_confirmed, observed, polled, remaining, unpolled, update_data-pending,
}
use alorair_home_assistant.Cloud.Command.{
  Command, Decision, Reply, begin_command, complete_command, fail, is_action, is_repeated, issue,
}
use alorair_home_assistant.Cloud.Command.Gate.{is_repeated-some, not_repeated, sent_state}
use alorair_home_assistant.Cloud.Command.Run.{Run, Step}
use alorair_home_assistant.Cloud.Command.Stopped.{Step-later}
use alorair_home_assistant.Cloud.Experimental.{
  ActionDecision, ActionReply, async_prepare_unload, begin_action, complete_action, is_mutation,
}
use alorair_home_assistant.Cloud.Experimental.Verdict.{change_keeps}

-- How a call ends that does not say that the command was refused: it was acknowledged, or it may have
-- reached the device.
abbrev pub is_unrefused : Reply → Bool
is_unrefused Reply.done = true
is_unrefused Reply.deadline_expired = true
is_unrefused (Reply.raised ApiError.cannot_connect) = true
is_unrefused (Reply.raised (ApiError.command outcome_unknown)) = outcome_unknown
is_unrefused (Reply.raised e) = false

complete-pending :
    (reply : Reply) (m : Command) (c : AlorairCoordinator)
    → is_unrefused reply ≡ true
    → (complete_command reply m c).pending ≡ c.pending
unfolding complete_command
complete-pending Reply.done m c h = refl
complete-pending Reply.deadline_expired m c h = elim (Bool-cases (is_action m c.last_command)) [
  | inl q ↦ rw q refl
  | inr q ↦ rw q refl
]
complete-pending (Reply.raised ApiError.cannot_connect) m c h = refl
complete-pending (Reply.raised (ApiError.command b)) m c h = rw h refl
complete-pending (Reply.raised (ApiError.authentication n)) m c h = cc
complete-pending (Reply.raised (ApiError.protocol n)) m c h = cc

-- The dict of pending commands has one entry for a key, and the one of `key` is `p`.
abbrev pub IsPending : String → PendingCommand → Dict PendingCommand → Type 0
IsPending key p d = IsDict d × (lookup key d ≡ some p)

module _ (key : String) (p : PendingCommand) where
  erase-IsPending :
      (k : String) (d : Dict PendingCommand)
      → (k =s key) ≡ false
      → IsPending key p d
      → IsPending key p (erase k d)
  erase-IsPending k d other (one, here) =
      (erase-IsDict k d one, rw (lookup-erase k key d, other) here)

  fail-IsPending :
      (e : ApiError) (m : Command) (c : AlorairCoordinator)
      → (m.key =s key) ≡ false
      → IsPending key p c.pending
      → IsPending key p (fail e m c).pending
  fail-IsPending (ApiError.authentication n) m c other h = erase-IsPending m.key c.pending other h
  fail-IsPending ApiError.cannot_connect m c other h = h
  fail-IsPending (ApiError.command true) m c other h = h
  fail-IsPending (ApiError.command false) m c other h = erase-IsPending m.key c.pending other h
  fail-IsPending (ApiError.protocol n) m c other h = erase-IsPending m.key c.pending other h

  complete-IsPending :
      (reply : Reply) (m : Command) (c : AlorairCoordinator)
      → ((m.key =s key) ≡ false) ⊎ (is_unrefused reply ≡ true)
      → IsPending key p c.pending
      → IsPending key p (complete_command reply m c).pending
  unfolding complete_command
  complete-IsPending (Reply.raised e) m c (inl other) h = fail-IsPending e m c other h
  complete-IsPending Reply.done m c (inl other) h = h
  complete-IsPending Reply.deadline_expired m c (inl other) h =
      rw (complete-pending Reply.deadline_expired m c refl) h
  complete-IsPending reply m c (inr kept) h = rw (complete-pending reply m c kept) h

  action-IsPending :
      (reply : ActionReply) (action : String) (c : AlorairCoordinator)
      → IsPending key p c.pending
      → IsPending key p (complete_action reply action c).pending
  unfolding complete_action
  action-IsPending reply action c h = elim (Bool-cases (is_mutation action)) [
    | inl writes ↦ rw (writes, (change_keeps reply action c).0) h
    | inr reads ↦ rw reads h
  ]

  begin_action-IsPending :
      (fromisoformat : List ℕ → Option ℕ) (now utc : ℕ) (action : String) (c d : AlorairCoordinator)
      → begin_action fromisoformat now utc action c ≡ ActionDecision.proceed d
      → IsPending key p c.pending
      → IsPending key p d.pending
  unfolding begin_action
  begin_action-IsPending fromisoformat now utc action c d h i =
      let e : d.pending ≡ c.pending = ground arith in rw e i

  module _ (floats : Floats) (fromisoformat : List ℕ → Option ℕ) (now : ℕ) (fields : Fields) where
    settle-IsDict :
        (k : String) (q : PendingCommand) (c : AlorairCoordinator)
        → IsDict c.pending
        → IsDict (settle floats fromisoformat now fields k q c).pending
    unfolding settle
    settle-IsDict k q c h = elim (Bool-cases (is_confirmed floats fromisoformat now fields k q)) [
      | inl good ↦ rw good (erase-IsDict k c.pending h)
      | inr bad ↦ elim (Bool-cases (leb q.deadline now)) [
        | inl late ↦ rw (bad, late) (erase-IsDict k c.pending h)
        | inr early ↦ rw (bad, early) h
      ]
    ]

    settle_all-IsDict :
        (rest : Dict PendingCommand) (c : AlorairCoordinator)
        → IsDict c.pending
        → IsDict (settle_all floats fromisoformat now fields rest c).pending
    unfolding settle_all
    settle_all-IsDict [] c h = h
    settle_all-IsDict ((k, q) ∷ rest) c h =
        settle_all-IsDict rest (settle floats fromisoformat now fields k q c)
          (settle-IsDict k q c h)

    poll-IsPending :
        (c : AlorairCoordinator)
        → now < p.deadline
        → is_confirmed floats fromisoformat now fields key p ≡ false
        → IsPending key p c.pending
        → IsPending key p (update_data floats fromisoformat now (ok fields) c).1.pending
    poll-IsPending c early unseen (one, here) = elim (Option-cases (powered fields)) [
      | inl unknown ↦ rw (unpolled floats fromisoformat now fields c unknown) (one, here)
      | inr (on, known) ↦ (
        (rw (polled floats fromisoformat now fields c on known)
            (settle_all-IsDict c.pending (observed floats fromisoformat now fields on c) one)),
        update_data-pending floats fromisoformat now fields c on key one known
            ∙ (rw here (left early unseen)),
      )
    ]
      where
        left :
            now < p.deadline
            → is_confirmed floats fromisoformat now fields key p ≡ false
            → remaining floats fromisoformat now fields key (some p) ≡ some p
        left early unseen = rw unseen (ground arith)

-- An event that sends no command of the key, says of none that it was refused, and reports no sample
-- that confirms the entry `p`.
module _ {floats : Floats} {fromisoformat : List ℕ → Option ℕ} (key : String)
    (p : PendingCommand) where
  abbrev pub IsAside :
      {t : ℕ} {c : AlorairCoordinator} {u : ℕ} {d : AlorairCoordinator}
      → Step floats fromisoformat t c u d
      → Type 0
  IsAside (Step.polled u (ok fields) h) = is_confirmed floats fromisoformat u fields key p ≡ false
  IsAside (Step.sent u utc m h o e) = (m.key =s key) ≡ false
  IsAside (Step.answered u m reply h) = ((m.key =s key) ≡ false) ⊎ (is_unrefused reply ≡ true)
  IsAside _ = Unit

  abbrev pub IsAsideRun :
      {t : ℕ} {c : AlorairCoordinator} {u : ℕ} {d : AlorairCoordinator}
      → Run floats fromisoformat t c u d
      → Type 0
  IsAsideRun Run.start = Unit
  IsAsideRun (Run.next r s) = IsAsideRun r × IsAside s

  Step-IsPending :
      {t : ℕ} {c : AlorairCoordinator} {u : ℕ} {d : AlorairCoordinator}
      (s : Step floats fromisoformat t c u d)
      → IsAside s
      → u < p.deadline
      → IsPending key p c.pending
      → IsPending key p d.pending
  Step-IsPending {c = c} (Step.polled u (err e) h) aside early i = unfold update_data in i
  Step-IsPending {c = c} (Step.polled u (ok fields) h) aside early i =
      poll-IsPending key p floats fromisoformat u fields c early aside i
  Step-IsPending {c = c} (Step.sent u utc m h o e) aside early (one, here) =
      rw (sent_state floats fromisoformat u utc m c _ e) (
        unfold issue in
        (insert-IsDict m.key _ c.pending one, rw (lookup-insert m.key key _ c.pending, aside) here))
  Step-IsPending {c = c} (Step.answered u m reply h) aside early i =
      complete-IsPending key p reply m c aside i
  Step-IsPending {c = c} (Step.acted u utc action h e) aside early i =
      begin_action-IsPending key p fromisoformat u utc action c _ e i
  Step-IsPending {c = c} (Step.ended u action reply h) aside early i =
      action-IsPending key p reply action c i
  Step-IsPending (Step.unloaded u h) aside early i = unfold async_prepare_unload in i

  Run-IsPending :
      {t : ℕ} {c : AlorairCoordinator} {u : ℕ} {d : AlorairCoordinator}
      (r : Run floats fromisoformat t c u d)
      → IsAsideRun r
      → u < p.deadline
      → IsPending key p c.pending
      → IsPending key p d.pending
  Run-IsPending Run.start aside early i = i
  Run-IsPending (Run.next r s) aside early i =
      Step-IsPending s aside.1 early (Run-IsPending r aside.0 (omega (arith, Step-later s)) i)

-- The entry of a command that was sent at `t`.
abbrev pub entry_of : (List ℕ → Option ℕ) → ℕ → ℕ → Command → AlorairCoordinator → PendingCommand
entry_of fromisoformat t utc m c = record {
  wanted = m.wanted;
  deadline = t + pending_time;
  issued_at = utc;
  baseline = utc_sample fromisoformat c.fields;
}

-- Once a command was sent, the same one is not sent again for five minutes, whatever polls,
-- experimental actions, commands of other keys and answers to them come in between, also if its own
-- call was acknowledged, could not connect, was not confirmed or met its deadline, as long as no poll
-- confirms it, its call is not refused, and no other command of its key is sent. It
-- holds from a state whose pending commands have one entry for a key.
pub cloud_uncertain_not_retried :
    {floats : Floats} {fromisoformat : List ℕ → Option ℕ} {t : ℕ} {c₁ : AlorairCoordinator} {u : ℕ}
    {c₂ : AlorairCoordinator} (v utc utc' : ℕ) (m again : Command) (c c₃ : AlorairCoordinator)
    → IsDict c.pending
    → begin_command floats fromisoformat t utc m c ≡ Decision.send c₁
    → (r : Run floats fromisoformat t c₁ u c₂)
    → IsAsideRun m.key (entry_of fromisoformat t utc m c) r
    → u ≤ v
    → v < t + 300000
    → again.key ≡ m.key
    → same_wanted m.wanted again.wanted ≡ true
    → begin_command floats fromisoformat v utc' again c₂ ≢ Decision.send c₃
cloud_uncertain_not_retried {floats} {fromisoformat} {t} {c₁} {u} {c₂} v utc utc' m again c c₃ one
      went r aside later early keyed same resent =
    let p : PendingCommand = entry_of fromisoformat t utc m c in
    let first : IsPending m.key p c₁.pending =
      rw (sent_state floats fromisoformat t utc m c c₁ went) (
        unfold issue in
        (insert-IsDict m.key p c.pending one, lookup-insert_self m.key p c.pending)) in
    let i : IsPending m.key p c₂.pending = Run-IsPending m.key p r aside (omega arith) first in
    let repeated : is_repeated v again.wanted (some p) ≡ true =
      is_repeated-some v again.wanted p early same in
    cc (
      sym repeated
      ∙ (rw (keyed, i.1) at (not_repeated floats fromisoformat v utc' again c₂ c₃ resent)))

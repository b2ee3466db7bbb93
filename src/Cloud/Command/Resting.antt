-- ===== src/Cloud/Command/Resting.antt =====
-- What every step of a run keeps after a stop: the time off, and a pending power command that cannot
-- expire.
use alorair_home_assistant.Base.{
  ℕ, ◌+◌, ◌≤◌, ◌≡◌, ◌⊎◌, inl, inr, refl, sym, subst, List, [], ◌∷◌, Bool, true, false, not, ◌&&◌,
  Option, leb, if◌then◌else◌, String, arith, Bool-cases, Option-cases, Result, ok, err,
}
use alorair_home_assistant.Base.Dict.{Dict, IsAt, erase, erase-IsAt, insert-IsAt}
use alorair_home_assistant.Api.Json.{Fields}
use alorair_home_assistant.Api.Identity.{ApiError}
use alorair_home_assistant.LocalCoordinator.State.{pending_time}
use alorair_home_assistant.Cloud.Readings.{Floats, powered, utc_sample}
use alorair_home_assistant.Cloud.State.{AlorairCoordinator, PendingCommand, is_true}
use alorair_home_assistant.Cloud.Update.{
  is_stop as is_stop_entry, is_newer, matches, settle, settle_all, update_data,
}
use alorair_home_assistant.Cloud.Command.{
  Command, Reply, complete_command, doubt, is_action, is_stop, issue, reject, fail,
}
use alorair_home_assistant.Cloud.Command.Gate.{sent_state}
use alorair_home_assistant.Cloud.Experimental.{
  ActionReply, ActionDecision, async_prepare_unload, begin_action, complete_action, complete_change,
  is_mutation,
}
use alorair_home_assistant.Cloud.Experimental.Verdict.{change_keeps}
use alorair_home_assistant.Cloud.Update.Settled.{observed, polled, unpolled}
use alorair_home_assistant.Cloud.Command.Run.{IsFlag, IsOrder, Step}

-- A pending power command wants one of the two codes and lasts until `b` at least, and the time off
-- is at `t` or later.
abbrev pub IsGuarding : ℕ → PendingCommand → Type 0
IsGuarding b p = (b ≤ p.deadline) × IsFlag p.wanted

pub record IsResting (t b : ℕ) (c : AlorairCoordinator) : Type 0 where
  pub off_since : t ≤ c.last_off
  pub guarded : IsAt "powerStatus" (IsGuarding b) c.pending

module _ (t b : ℕ) where
  erased :
      (key : String) (c d : AlorairCoordinator)
      → d.last_off ≡ c.last_off
      → (d.pending ≡ c.pending) ⊎ (d.pending ≡ erase key c.pending)
      → IsResting t b c
      → IsResting t b d
  erased key c d e (inl kept) i = record {
    off_since = rw e i.off_since;
    guarded = rw kept i.guarded;
  }
  erased key c d e (inr gone) i = record {
    off_since = rw e i.off_since;
    guarded = rw gone (erase-IsAt "powerStatus" (IsGuarding b) key c.pending i.guarded);
  }

  fail-IsResting :
      (e : ApiError) (m : Command) (c : AlorairCoordinator)
      → IsResting t b c
      → IsResting t b (fail e m c)
  fail-IsResting (ApiError.authentication n) m c i = erased m.key c (reject m c) refl (inr refl) i
  fail-IsResting ApiError.cannot_connect m c i = erased m.key c (doubt c) refl (inl refl) i
  fail-IsResting (ApiError.command true) m c i = erased m.key c (doubt c) refl (inl refl) i
  fail-IsResting (ApiError.command false) m c i = erased m.key c (reject m c) refl (inr refl) i
  fail-IsResting (ApiError.protocol n) m c i = erased m.key c (reject m c) refl (inr refl) i

  complete-IsResting :
      (reply : Reply) (m : Command) (c : AlorairCoordinator)
      → IsResting t b c
      → IsResting t b (complete_command reply m c)
  unfolding complete_command
  complete-IsResting Reply.done m c i = record { off_since = i.off_since; guarded = i.guarded }
  complete-IsResting Reply.deadline_expired m c i = elim (Bool-cases (is_action m c.last_command)) [
    | inl own ↦ rw own (erased m.key c (doubt c) refl (inl refl) i)
    | inr other ↦ rw other i
  ]
  complete-IsResting (Reply.raised e) m c i = fail-IsResting e m c i

  action-IsResting :
      (reply : ActionReply) (action : String) (c : AlorairCoordinator)
      → IsResting t b c
      → IsResting t b (complete_action reply action c)
  unfolding complete_action
  action-IsResting reply action c i = elim (Bool-cases (is_mutation action)) [
    | inl writes ↦ rw writes (
        erased action c (complete_change reply action c) (change_keeps reply action c).1
          (inl (change_keeps reply action c).0) i)
    | inr reads ↦ rw reads i
  ]

  begin_action-IsResting :
      (fromisoformat : List ℕ → Option ℕ) (now utc : ℕ) (action : String) (c d : AlorairCoordinator)
      → begin_action fromisoformat now utc action c ≡ ActionDecision.proceed d
      → IsResting t b c
      → IsResting t b d
  unfolding begin_action
  begin_action-IsResting fromisoformat now utc action c d h i =
      let e : (d.last_off ≡ c.last_off) × (d.pending ≡ c.pending) = ground arith in
      erased action c d e.0 (inl e.1) i

  module _ (floats : Floats) (fromisoformat : List ℕ → Option ℕ) (now : ℕ) (fields : Fields)
      (later : t ≤ now) where
    settle-IsResting :
        (key : String) (p : PendingCommand) (c : AlorairCoordinator)
        → IsResting t b c
        → IsResting t b (settle floats fromisoformat now fields key p c)
    unfolding settle
    settle-IsResting key p c i =
        let fewer = erase-IsAt "powerStatus" (IsGuarding b) key c.pending i.guarded in
        elim (Bool-cases (
          matches floats fromisoformat key p fields
          && is_newer (utc_sample fromisoformat fields) p)) [
            | inl good ↦ elim (Bool-cases (is_stop_entry key p)) [
              | inl stop ↦ rw (good, stop) (record { off_since = later; guarded = fewer })
              | inr other ↦ rw (good, other) (record { off_since = i.off_since; guarded = fewer })
            ]
            | inr bad ↦ elim (Bool-cases (leb p.deadline now)) [
              | inl late ↦ rw (bad, late) (record { off_since = i.off_since; guarded = fewer })
              | inr early ↦ rw (bad, early) i
            ]
          ]

    settle_all-IsResting :
        (rest : Dict PendingCommand) (c : AlorairCoordinator)
        → IsResting t b c
        → IsResting t b (settle_all floats fromisoformat now fields rest c)
    unfolding settle_all
    settle_all-IsResting [] c i = i
    settle_all-IsResting ((key, p) ∷ rest) c i =
        settle_all-IsResting rest (settle floats fromisoformat now fields key p c)
          (settle-IsResting key p c i)

    poll-IsResting :
        (c : AlorairCoordinator)
        → IsResting t b c
        → IsResting t b (update_data floats fromisoformat now (ok fields) c).1
    poll-IsResting c i = elim (Option-cases (powered fields)) [
      | inl unknown ↦
          subst (λ (x : AlorairCoordinator). IsResting t b x)
            (sym (unpolled floats fromisoformat now fields c unknown))
            (record { off_since = i.off_since; guarded = i.guarded })
      | inr (on, known) ↦
          let j : IsResting t b (observed floats fromisoformat now fields on c) = record {
            off_since = off_later (not on && is_true c.previous_on) c.last_off i.off_since;
            guarded = i.guarded;
          } in
          let k =
            settle_all-IsResting c.pending (observed floats fromisoformat now fields on c) j in
          subst (λ (x : AlorairCoordinator). IsResting t b x)
            (sym (polled floats fromisoformat now fields c on known))
            (record { off_since = k.off_since; guarded = k.guarded })
    ]
      where
        off_later : (turned : Bool) (last : ℕ) → t ≤ last → t ≤ (if turned then now else last)
        off_later turned last h = ground arith

  update_data-IsResting :
      (floats : Floats) (fromisoformat : List ℕ → Option ℕ) (now : ℕ) (r : Result ApiError Fields)
      (c : AlorairCoordinator)
      → t ≤ now
      → IsResting t b c
      → IsResting t b (update_data floats fromisoformat now r c).1
  update_data-IsResting floats fromisoformat now (err e) c later i =
      unfold update_data in record { off_since = i.off_since; guarded = i.guarded }
  update_data-IsResting floats fromisoformat now (ok fields) c later i =
      poll-IsResting floats fromisoformat now fields later c i

  issue-IsResting :
      (floats : Floats) (fromisoformat : List ℕ → Option ℕ) (now utc : ℕ) (m : Command)
      (c : AlorairCoordinator)
      → t ≤ now
      → b ≤ now + pending_time
      → IsOrder m
      → IsResting t b c
      → IsResting t b (issue floats fromisoformat now utc m c)
  unfolding issue
  issue-IsResting floats fromisoformat now utc m c later long order i = record {
    off_since = off_later (is_stop m) c.last_off i.off_since;
    guarded =
        insert-IsAt "powerStatus" (IsGuarding b) m.key _ c.pending (λ e. (long, order e)) i.guarded;
  }
    where
      off_later : (stop : Bool) (last : ℕ) → t ≤ last → t ≤ (if stop then now else last)
      off_later stop last h = ground arith

  pub Step-IsResting :
      {floats : Floats} {fromisoformat : List ℕ → Option ℕ} {r : ℕ} {c : AlorairCoordinator} {u : ℕ}
      {d : AlorairCoordinator}
      → Step floats fromisoformat r c u d
      → t ≤ r
      → b ≤ r + pending_time
      → IsResting t b c
      → IsResting t b d
  Step-IsResting {floats} {fromisoformat} {c = c} (Step.polled u x h) l k i =
      update_data-IsResting floats fromisoformat u x c (omega arith) i
  Step-IsResting {floats} {fromisoformat} {c = c} (Step.sent u utc m h order e) l k i =
      subst (λ (x : AlorairCoordinator). IsResting t b x)
        (sym (sent_state floats fromisoformat u utc m c _ e))
        (issue-IsResting floats fromisoformat u utc m c (omega arith) (omega arith) order i)
  Step-IsResting {c = c} (Step.answered u m reply h) l k i = complete-IsResting reply m c i
  Step-IsResting {fromisoformat = fromisoformat} {c = c} (Step.acted u utc action h e) l k i =
      begin_action-IsResting fromisoformat u utc action c _ e i
  Step-IsResting {c = c} (Step.ended u action reply h) l k i = action-IsResting reply action c i
  Step-IsResting {c = c} (Step.unloaded u h) l k i =
      unfold async_prepare_unload in record { off_since = i.off_since; guarded = i.guarded }

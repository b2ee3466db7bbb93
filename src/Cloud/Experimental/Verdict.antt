-- ===== src/Cloud/Experimental/Verdict.antt =====
-- What is said of an experimental action, and what it leaves alone.
use text.Mathlib.TextPositions.{eq_refl}
use alorair_home_assistant.Base.{
  ℕ, ◌≡◌, refl, sym, ap, ◌∙◌, List, Bool, true, false, not, ◌||◌, Option, none, some, if◌then◌else◌,
  String, arith,
}
use alorair_home_assistant.Api.Identity.{ApiError}
use alorair_home_assistant.Cloud.State.{AlorairCoordinator, FeedbackStatus, status_stale}
use alorair_home_assistant.Cloud.Experimental.{
  ActionDecision, ActionRefusal, ActionReply, begin_action, complete_action, complete_change,
  hold_action, is_mutation,
}

-- What the end of an action tells: the vendor's answer confirms it, an answer that refuses it
-- rejects it, and without an answer its delivery stays uncertain.
abbrev pub verdict : ActionReply → FeedbackStatus
verdict ActionReply.returned = FeedbackStatus.cloud_acknowledged
verdict ActionReply.timed_out = FeedbackStatus.delivery_uncertain
verdict ActionReply.deadline_expired = FeedbackStatus.delivery_uncertain
verdict (ActionReply.raised ApiError.cannot_connect) = FeedbackStatus.delivery_uncertain
verdict (ActionReply.raised (ApiError.command true)) = FeedbackStatus.delivery_uncertain
verdict (ActionReply.raised (ApiError.command false)) = FeedbackStatus.rejected
verdict (ActionReply.raised (ApiError.authentication n)) = FeedbackStatus.rejected
verdict (ActionReply.raised (ApiError.protocol n)) = FeedbackStatus.rejected

-- The feedback that a state shows, if it is this action's.
abbrev pub shown : AlorairCoordinator → Option (String × FeedbackStatus)
shown c = elim c.last_command [ none ↦ none | some f ↦ some (f.action, f.status) ]

change_shown :
    (reply : ActionReply) (now utc : ℕ) (action : String) (c d : AlorairCoordinator)
    → d.last_command ≡ (hold_action now utc action c).last_command
    → shown (complete_change reply action d) ≡ some (action, verdict reply)
unfolding complete_change
change_shown ActionReply.returned now utc action c d e = rw e refl
change_shown ActionReply.timed_out now utc action c d e = rw e refl
change_shown ActionReply.deadline_expired now utc action c d e = rw (e, eq_refl action) refl
change_shown (ActionReply.raised ApiError.cannot_connect) now utc action c d e = rw e refl
change_shown (ActionReply.raised (ApiError.command true)) now utc action c d e = rw e refl
change_shown (ActionReply.raised (ApiError.command false)) now utc action c d e = rw e refl
change_shown (ActionReply.raised (ApiError.authentication n)) now utc action c d e = rw e refl
change_shown (ActionReply.raised (ApiError.protocol n)) now utc action c d e = rw e refl

pub change_keeps :
    (reply : ActionReply) (action : String) (d : AlorairCoordinator)
    → ((complete_change reply action d).pending ≡ d.pending)
      × ((complete_change reply action d).last_off ≡ d.last_off)
unfolding complete_change
change_keeps ActionReply.returned action d = (refl, refl)
change_keeps ActionReply.timed_out action d = (refl, refl)
change_keeps ActionReply.deadline_expired action d = (ground arith, ground arith)
change_keeps (ActionReply.raised e) action d = (refl, refl)

-- The state that a change goes out from.
record IsHeld (fromisoformat : List ℕ → Option ℕ) (now utc : ℕ) (action : String)
    (c d : AlorairCoordinator) : Type 0 where
  pub running : c.closing ≡ false
  pub polled : c.last_update_success ≡ true
  pub fresh : status_stale fromisoformat utc c ≡ false
  pub held : hold_action now utc action c ≡ d

gate :
    (closing polled stale : Bool) (held c d : AlorairCoordinator)
    → (if closing
        then ActionDecision.refuse ActionRefusal.unloading
        else if not polled || stale
        then ActionDecision.refuse ActionRefusal.stale
        else ActionDecision.proceed held)
      ≡ ActionDecision.proceed d
    → (closing ≡ false) × (polled ≡ true) × (stale ≡ false) × (held ≡ d)
gate true polled stale held c d h = cc
gate false false stale held c d h = cc
gate false true true held c d h = cc
gate false true false held c d h = (refl, refl, refl, cc)

begin_action-IsHeld :
    (fromisoformat : List ℕ → Option ℕ) (now utc : ℕ) (action : String) (c d : AlorairCoordinator)
    → is_mutation action ≡ true
    → begin_action fromisoformat now utc action c ≡ ActionDecision.proceed d
    → IsHeld fromisoformat now utc action c d
unfolding begin_action
begin_action-IsHeld fromisoformat now utc action c d writes h =
    let (running, polled, fresh, held) =
      gate c.closing c.last_update_success (status_stale fromisoformat utc c)
        (hold_action now utc action c) c d (rw writes at h) in
    record { running = running; polled = polled; fresh = fresh; held = held }

-- An experimental change goes out only while the coordinator is not unloading, the last poll
-- succeeded and its sample is fresh; at its end, if nothing replaced its feedback, the last command
-- is shown as confirmed, rejected or uncertain by how the call ended, and the pending commands and
-- the time off are as they were.
pub experimental_verdict :
    (fromisoformat : List ℕ → Option ℕ) (now utc : ℕ) (action : String) (reply : ActionReply)
    (c d e : AlorairCoordinator)
    → is_mutation action ≡ true
    → begin_action fromisoformat now utc action c ≡ ActionDecision.proceed d
    → e.last_command ≡ d.last_command
    → (c.closing ≡ false)
      × (c.last_update_success ≡ true)
      × (status_stale fromisoformat utc c ≡ false)
      × (d.pending ≡ c.pending)
      × (d.last_off ≡ c.last_off)
      × (shown (complete_action reply action e) ≡ some (action, verdict reply))
      × ((complete_action reply action e).pending ≡ e.pending)
      × ((complete_action reply action e).last_off ≡ e.last_off)
unfolding complete_action
experimental_verdict fromisoformat now utc action reply c d e writes went same =
    let i : IsHeld fromisoformat now utc action c d =
      begin_action-IsHeld fromisoformat now utc action c d writes went in
    let (pending, off) = change_keeps reply action e in
    rw writes (
      i.running,
      i.polled,
      i.fresh,
      sym (ap (λ (x : AlorairCoordinator). x.pending) i.held),
      sym (ap (λ (x : AlorairCoordinator). x.last_off) i.held),
      change_shown reply now utc action c e
          (same ∙ sym (ap (λ (x : AlorairCoordinator). x.last_command) i.held)),
      pending,
      off,
    )

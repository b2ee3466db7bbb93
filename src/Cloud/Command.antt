-- ===== src/Cloud/Command.antt =====
-- `_async_command_with_feedback`, with the deadline of `_async_command`: the tests before a command
-- goes out, and its end. While the client is awaited, polls change the coordinator.
pub mod Gate
pub mod Run
pub mod Resting
pub mod Stopped
pub mod Uncertain
use alorair_home_assistant.Base.{
  ℕ, ◌+◌, List, [], ◌∷◌, Bool, true, false, not, ◌&&◌, ◌||◌, Option, none, some, ltb, leb, ◌==◌,
  if◌then◌else◌, String, is_some,
}
use alorair_home_assistant.Base.Dict.{Dict, erase, insert, lookup, ◌=s◌}
use alorair_home_assistant.Api.Identity.{ApiError}
use alorair_home_assistant.LocalCoordinator.State.{pending_time}
use alorair_home_assistant.Cloud.Readings.{Floats, faults, powered, utc_sample}
use alorair_home_assistant.Cloud.State.{
  AlorairCoordinator, CommandFeedback, FeedbackStatus, PendingCommand, Wanted, has_data, is_actual,
  is_true, restart_delay_remaining, same_wanted, started, status_stale, stopped,
}

-- The errors of a command that is not sent, named for their messages.
pub data Refusal : Type 0 where
  unloading unavailable restart_protection not_on unresolved_fault : Refusal

-- A command is refused, needs nothing, or is sent from a new state.
pub data Decision : Type 0 where
  refuse : Refusal → Decision
  already : Decision
  send : AlorairCoordinator → Decision

-- `action` is the method without `async_`.
pub record Command : Type 0 where
  pub action : String
  pub key : String
  pub wanted : Wanted
  pub requires_on : Bool

abbrev pub is_start : Command → Bool
is_start m = m.key =s "powerStatus" && same_wanted m.wanted started

abbrev pub is_stop : Command → Bool
is_stop m = m.key =s "powerStatus" && same_wanted m.wanted stopped

-- `pending and pending.deadline > time.monotonic() and pending.wanted == wanted`
abbrev pub is_repeated : ℕ → Wanted → Option PendingCommand → Bool
is_repeated now wanted none = false
is_repeated now wanted (some p) = ltb now p.deadline && same_wanted p.wanted wanted

abbrev pub has_no_fault : Option (List String) → Bool
has_no_fault (some []) = true
has_no_fault _ = false

abbrev pub no_pending : Command → AlorairCoordinator → Bool
no_pending m c = not (is_some (lookup m.key c.pending))

-- How the client's call ends; `deadline_expired` is the `TimeoutError`.
pub data Reply : Type 0 where
  done deadline_expired : Reply
  raised : ApiError → Reply

module _ (floats : Floats) (fromisoformat : List ℕ → Option ℕ) where
  -- The state that a command is sent from.
  unfoldable pub issue : ℕ → ℕ → Command → AlorairCoordinator → AlorairCoordinator
  issue now utc m c = record c {
    pending =
        insert m.key
          (record {
            wanted = m.wanted;
            deadline = now + pending_time;
            issued_at = utc;
            baseline = utc_sample fromisoformat c.fields;
          })
          c.pending;
    last_command = some (record {
      action = m.action;
      status = FeedbackStatus.awaiting_feedback;
      issued_at = utc;
      deadline = now + pending_time;
      field = some m.key;
      requested = some m.wanted;
      acknowledged = false;
      reported_at = none;
    });
    last_off = if is_stop m then now else c.last_off;
  }

  -- The tests of the device's state, in the order of the code.
  unfoldable pub check_device : ℕ → ℕ → Command → AlorairCoordinator → Decision
  unfolding issue
  check_device now utc m c =
      if m.requires_on && not (is_true (powered c.fields))
      then Decision.refuse Refusal.not_on
      else if not (is_stop m) && not (has_no_fault (faults c.fields))
      then Decision.refuse Refusal.unresolved_fault
      else Decision.send (issue now utc m c)

  unfoldable pub begin_command : ℕ → ℕ → Command → AlorairCoordinator → Decision
  unfolding check_device
  begin_command now utc m c =
      if c.closing
      then Decision.refuse Refusal.unloading
      else if not c.last_update_success || status_stale fromisoformat utc c
      then Decision.refuse Refusal.unavailable
      else if is_repeated now m.wanted (lookup m.key c.pending)
          || is_actual floats m.key m.wanted c.fields && no_pending m c
          || is_start m && is_true (powered c.fields) && no_pending m c
      then Decision.already
      else if is_start m && not (restart_delay_remaining now c == 0)
      then Decision.refuse Refusal.restart_protection
      else check_device now utc m c

abbrev pub with_status : FeedbackStatus → Option CommandFeedback → Option CommandFeedback
with_status s none = none
with_status s (some f) = some (record f { status = s })

abbrev pub reject : Command → AlorairCoordinator → AlorairCoordinator
reject m c = record c {
  pending = erase m.key c.pending;
  last_command = with_status FeedbackStatus.rejected c.last_command;
}

abbrev pub doubt : AlorairCoordinator → AlorairCoordinator
doubt c = record c { last_command = with_status FeedbackStatus.delivery_uncertain c.last_command }

abbrev pub acknowledge : Option CommandFeedback → Option CommandFeedback
acknowledge none = none
acknowledge (some f) = some (record f { acknowledged = true })

abbrev pub fail : ApiError → Command → AlorairCoordinator → AlorairCoordinator
fail (ApiError.authentication n) m c = reject m c
fail ApiError.cannot_connect m c = doubt c
fail (ApiError.command outcome_unknown) m c = if outcome_unknown then doubt c else reject m c
fail (ApiError.protocol n) m c = reject m c

abbrev pub is_action : Command → Option CommandFeedback → Bool
is_action m none = false
is_action m (some f) = f.action =s m.action

-- `feedback` is `self.last_command` here: commands run one at a time.
unfoldable pub complete_command : Reply → Command → AlorairCoordinator → AlorairCoordinator
complete_command Reply.done m c = record c { last_command = acknowledge c.last_command }
complete_command Reply.deadline_expired m c = if is_action m c.last_command then doubt c else c
complete_command (Reply.raised e) m c = fail e m c

-- ===== src/Cloud/Experimental.antt =====
-- The experimental actions of the cloud coordinator: `async_experimental_action`,
-- `_async_experimental_action` and `_async_experimental_transaction`, up to the call of the client
-- and from its end, and `async_prepare_unload`.
pub mod Verdict
use alorair_home_assistant.Base.{
  ℕ, ◌+◌, List, Bool, true, false, not, ◌&&◌, ◌||◌, Option, none, some, if◌then◌else◌, String,
}
use alorair_home_assistant.Base.Dict.{◌=s◌}
use alorair_home_assistant.Api.Identity.{ApiError}
use alorair_home_assistant.LocalCoordinator.State.{pending_time}
use alorair_home_assistant.Cloud.State.{
  AlorairCoordinator, CommandFeedback, FeedbackStatus, status_stale,
}
use alorair_home_assistant.Cloud.Command.{doubt, with_status}

-- `EXPERIMENTAL_MUTATION_ACTIONS`
abbrev pub is_mutation : String → Bool
is_mutation action =
    action =s "rename"
    || action =s "location"
    || action =s "extend_filter"
    || action =s "reset_filter"

pub data ActionRefusal : Type 0 where
  disabled unloading stale : ActionRefusal

pub data ActionDecision : Type 0 where
  refuse : ActionRefusal → ActionDecision
  proceed : AlorairCoordinator → ActionDecision

-- `async_experimental_action`, before its task: `enabled` is the option.
unfoldable pub admit_action : Bool → AlorairCoordinator → Option ActionRefusal
admit_action enabled c =
    if not enabled
    then some ActionRefusal.disabled
    else if c.closing
    then some ActionRefusal.unloading
    else none

-- The feedback of a change that goes out.
abbrev pub hold_action : ℕ → ℕ → String → AlorairCoordinator → AlorairCoordinator
hold_action now utc action c = record c {
  last_command = some (record {
    action = action;
    status = FeedbackStatus.awaiting_response;
    issued_at = utc;
    deadline = now + pending_time;
    field = none;
    requested = none;
    acknowledged = false;
    reported_at = none;
  });
}

-- `_async_experimental_transaction`, up to the call of the client
unfoldable pub begin_action :
    (List ℕ → Option ℕ) → ℕ → ℕ → String → AlorairCoordinator → ActionDecision
begin_action fromisoformat now utc action c =
    if c.closing
    then ActionDecision.refuse ActionRefusal.unloading
    else if is_mutation action && (not c.last_update_success || status_stale fromisoformat utc c)
    then ActionDecision.refuse ActionRefusal.stale
    else ActionDecision.proceed (if is_mutation action then hold_action now utc action c else c)

-- How the client's call ends: with a result, with an error, with a `TimeoutError` of its own, or
-- past the deadline of the transaction.
pub data ActionReply : Type 0 where
  returned timed_out deadline_expired : ActionReply
  raised : ApiError → ActionReply

-- `isinstance(err, (CannotConnect, TimeoutError)) or isinstance(err, CommandError) and err.outcome_unknown`
abbrev pub is_unknown : ApiError → Bool
is_unknown ApiError.cannot_connect = true
is_unknown (ApiError.command outcome_unknown) = outcome_unknown
is_unknown _ = false

abbrev pub confirmed : Option CommandFeedback → Option CommandFeedback
confirmed none = none
confirmed (some f) =
    some (record f { acknowledged = true; status = FeedbackStatus.cloud_acknowledged })

abbrev pub note : FeedbackStatus → AlorairCoordinator → AlorairCoordinator
note status c = record c { last_command = with_status status c.last_command }

abbrev pub is_latest : String → Option CommandFeedback → Bool
is_latest action none = false
is_latest action (some f) = f.action =s action

-- The end of a change. `feedback` is `self.last_command`, as commands run one at a time and a poll
-- replaces none.
unfoldable pub complete_change : ActionReply → String → AlorairCoordinator → AlorairCoordinator
complete_change ActionReply.returned action c = record c { last_command = confirmed c.last_command }
complete_change ActionReply.timed_out action c = note FeedbackStatus.delivery_uncertain c
complete_change ActionReply.deadline_expired action c =
    if is_latest action c.last_command then doubt c else c
complete_change (ActionReply.raised e) action c =
    note (if is_unknown e then FeedbackStatus.delivery_uncertain else FeedbackStatus.rejected) c

-- The end of any action: reading changes nothing.
unfoldable pub complete_action : ActionReply → String → AlorairCoordinator → AlorairCoordinator
unfolding complete_change
complete_action reply action c = if is_mutation action then complete_change reply action c else c

-- `async_prepare_unload`, before it waits
unfoldable pub async_prepare_unload : AlorairCoordinator → AlorairCoordinator
async_prepare_unload c = record c { closing = true }

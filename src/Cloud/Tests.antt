-- ===== src/Cloud/Tests.antt =====
-- The theorems on the coordinator of a cloud device that is reported off.
use alorair_home_assistant.Base.{
  ℕ, ◌≤◌, ◌≡◌, ◌≢◌, ◌⊎◌, refl, List, [], ◌∷◌, true, false, Option, none, some, ok, arith, inr,
}
use alorair_home_assistant.Base.Dict.{insert, lookup}
use alorair_home_assistant.Api.Json.{Fields, Json, get}
use alorair_home_assistant.Api.Identity.{ApiError}
use alorair_home_assistant.Cloud.Readings.{
  Floats, code, digits, faults, number, powered, utc_sample,
}
use alorair_home_assistant.Cloud.State.{
  AlorairCoordinator, CommandFeedback, FeedbackStatus, PendingCommand, stopped, is_actual,
  is_pending_off, is_true, new_coordinator, pending_power, restart_delay_remaining, started,
  status_stale,
}
use alorair_home_assistant.Cloud.Command.{
  Command, Decision, Reply, begin_command, check_device, complete_command, issue,
}
use alorair_home_assistant.Cloud.Update.{settle, settle_all, update_data}
use alorair_home_assistant.Cloud.Update.Settled.{
  IsCaused, remaining, update_data-IsCaused, update_data-pending,
}
use alorair_home_assistant.Cloud.Command.Run.{Run, Step}
use alorair_home_assistant.Cloud.Command.Stopped.{cloud_stop_protects}
use alorair_home_assistant.Cloud.Experimental.{
  ActionDecision, ActionReply, begin_action, complete_action, hold_action, is_mutation,
}
use alorair_home_assistant.Cloud.Experimental.Verdict.{experimental_verdict, shown}
use alorair_home_assistant.Cloud.Update.TimeOff.{update_data-last_off}
use alorair_home_assistant.Cloud.Command.Gate.{cloud_start_protected}
use alorair_home_assistant.Cloud.Command.Uncertain.{cloud_uncertain_not_retried, entry_of}
use alorair_home_assistant.Cloud.Update.Settled.{is_confirmed}

-- Whole numbers as floats.
abbrev whole : Floats
whole = record {
  Float = ℕ;
  float = λ value. none;
  is_finite = λ x. true;
  within = λ low high x. true;
  equals = λ x n. false;
  multiple_of_5 = λ x. none;
}

-- A clock that reads every text as the same time.
abbrev noon : List ℕ → Option ℕ
noon cs = some 1700000000000

-- `2023-11-14 22:13:20`
abbrev time_text : List ℕ
time_text =
    50 ∷ 48 ∷ 50 ∷ 51 ∷ 45 ∷ 49 ∷ 49 ∷ 45 ∷ 49 ∷ 52 ∷ 32 ∷ 50 ∷ 50 ∷ 58 ∷ 49 ∷ 51 ∷ 58 ∷ 50 ∷ 48
    ∷ []

abbrev off_fields : Fields
off_fields = Fields.field "powerStatus" (Json.str (digits 48 48)) (
    Fields.field "errCode" (Json.str (digits 48 48))
      (Fields.field "updateTimeStr" (Json.str time_text) Fields.end))

abbrev polled : AlorairCoordinator
polled = record (new_coordinator 0) { fields = off_fields; previous_on = some false }

abbrev start : Command
start = record { action = "set_power"; key = "powerStatus"; wanted = started; requires_on = false }

abbrev sent : AlorairCoordinator
sent = record polled {
  pending =
      (
        "powerStatus",
        record {
          wanted = started;
          deadline = 500000;
          issued_at = 1700000010000;
          baseline = some 1700000000000;
        },
      )
      ∷ [];
  last_command = some (record {
    action = "set_power";
    status = FeedbackStatus.awaiting_feedback;
    issued_at = 1700000010000;
    deadline = 500000;
    field = some "powerStatus";
    requested = some started;
    acknowledged = false;
    reported_at = none;
  });
}

start_goes : begin_command whole noon 200000 1700000010000 start polled ≡ Decision.send sent
unfolding begin_command check_device issue status_stale restart_delay_remaining pending_power
    is_actual code powered faults number utc_sample get lookup insert
start_goes = refl

cloud_start_protected_example :
    (is_pending_off (pending_power 200000 polled) ≡ false)
    × ((is_true (powered off_fields) ≡ true) ⊎ (180000 ≤ 200000))
cloud_start_protected_example =
    cloud_start_protected whole noon 200000 1700000010000 start polled sent refl start_goes

-- The call could not connect, a poll still finds the device off, and a minute later the same start is
-- asked for.
abbrev doubted : AlorairCoordinator
doubted = complete_command (Reply.raised ApiError.cannot_connect) start sent

abbrev doubtful_run :
    Run whole noon 200000 sent 230000 (update_data whole noon 230000 (ok off_fields) doubted).1
doubtful_run =
    Run.next
      (Run.next Run.start
        (Step.answered 210000 start (Reply.raised ApiError.cannot_connect) (omega arith)))
      (Step.polled 230000 (ok off_fields) (omega arith))

unconfirmed :
    is_confirmed whole noon 230000 off_fields "powerStatus"
      (entry_of noon 200000 1700000010000 start polled)
    ≡ false
unfolding powered code get utc_sample is_actual
unconfirmed = refl

cloud_uncertain_not_retried_example :
    begin_command whole noon 260000 1700000070000 start
      (update_data whole noon 230000 (ok off_fields) doubted).1
    ≢ Decision.send sent
cloud_uncertain_not_retried_example =
    cloud_uncertain_not_retried 260000 1700000010000 1700000070000 start start polled sent tt
      start_goes doubtful_run ((tt, inr refl), unconfirmed) (omega arith) (omega arith) refl refl

abbrev running : AlorairCoordinator
running = record sent { previous_on = some true }

reports_off : powered off_fields ≡ some false
unfolding powered code get
reports_off = refl

update_data-last_off_example :
    (update_data whole noon 300000 (ok off_fields) running).1.last_off ≡ 300000
update_data-last_off_example =
    update_data-last_off whole noon 300000 off_fields running refl reports_off

abbrev on_fields : Fields
on_fields = Fields.field "powerStatus" (Json.str (digits 48 49)) (
    Fields.field "errCode" (Json.str (digits 48 48))
      (Fields.field "updateTimeStr" (Json.str time_text) Fields.end))

abbrev stop : Command
stop = record { action = "set_power"; key = "powerStatus"; wanted = stopped; requires_on = false }

abbrev active : AlorairCoordinator
active = record (new_coordinator 0) { fields = on_fields; previous_on = some true }

-- The state that the stop is sent from, with what is pending then.
abbrev stop_entry : PendingCommand
stop_entry = record {
  wanted = stopped;
  deadline = 500000;
  issued_at = 1700000010000;
  baseline = some 1700000000000;
}

abbrev stopping : AlorairCoordinator
stopping = record active {
  last_off = 200000;
  pending = ("powerStatus", stop_entry) ∷ [];
  last_command = some (record {
    action = "set_power";
    status = FeedbackStatus.awaiting_feedback;
    issued_at = 1700000010000;
    deadline = 500000;
    field = some "powerStatus";
    requested = some stopped;
    acknowledged = false;
    reported_at = none;
  });
}

stop_goes : begin_command whole noon 200000 1700000010000 stop active ≡ Decision.send stopping
unfolding begin_command check_device issue status_stale restart_delay_remaining pending_power
    is_actual code powered faults number utc_sample get lookup insert
stop_goes = refl

-- The stop is rejected, and a poll says that the device is still on.
cloud_stop_protects_example :
    begin_command whole noon 260000 1700000070000 start
      (update_data whole noon 250000
        (ok on_fields)
        (complete_command (Reply.raised (ApiError.command false)) stop stopping)).1
    ≢ Decision.send stopping
cloud_stop_protects_example =
    cloud_stop_protects 260000 1700000010000 1700000070000 stop start active stopping refl stop_goes
      (Run.next
        (Run.next Run.start
          (Step.answered 240000 stop (Reply.raised (ApiError.command false)) (omega arith)))
        (Step.polled 250000 (ok on_fields) (omega arith)))
      (omega arith) (omega arith) refl

update_data-pending_example :
    lookup "powerStatus" (update_data whole noon 300000 (ok off_fields) stopping).1.pending
    ≡ remaining whole noon 300000 off_fields "powerStatus" (lookup "powerStatus" stopping.pending)
unfolding lookup
update_data-pending_example =
    update_data-pending whole noon 300000 off_fields stopping false "powerStatus"
      (unfold lookup in refl, tt) reports_off

-- A stop of half a minute before the sample, and what a poll makes of its feedback.
abbrev awaited : AlorairCoordinator
awaited = record active {
  pending =
      (
        "powerStatus",
        record stop_entry { issued_at = 1699999970000; baseline = some 1699999900000 },
      )
      ∷ [];
  last_command = some (record {
    action = "set_power";
    status = FeedbackStatus.awaiting_feedback;
    issued_at = 1699999970000;
    deadline = 500000;
    field = some "powerStatus";
    requested = some stopped;
    acknowledged = true;
    reported_at = none;
  });
}

abbrev told : CommandFeedback
told = record {
  action = "set_power";
  status = FeedbackStatus.device_reported;
  issued_at = 1699999970000;
  deadline = 500000;
  field = some "powerStatus";
  requested = some stopped;
  acknowledged = true;
  reported_at = some 1700000000000;
}

poll_tells : (update_data whole noon 300000 (ok off_fields) awaited).1.last_command ≡ some told
unfolding update_data settle_all settle is_actual powered code number utc_sample get
poll_tells = refl

update_data-IsCaused_example :
    IsCaused whole noon 300000 off_fields awaited.pending awaited.last_command told
update_data-IsCaused_example =
    update_data-IsCaused whole noon 300000 off_fields awaited told poll_tells refl

abbrev renaming : AlorairCoordinator
renaming = hold_action 200000 1700000010000 "rename" active

renames : is_mutation "rename" ≡ true
renames = refl

rename_goes :
    begin_action noon 200000 1700000010000 "rename" active ≡ ActionDecision.proceed renaming
unfolding begin_action status_stale utc_sample get
rename_goes = refl

experimental_verdict_example :
    (active.closing ≡ false)
    × (active.last_update_success ≡ true)
    × (status_stale noon 1700000010000 active ≡ false)
    × (renaming.pending ≡ active.pending)
    × (renaming.last_off ≡ active.last_off)
    × (shown (complete_action (ActionReply.raised ApiError.cannot_connect) "rename" renaming)
        ≡ some ("rename", FeedbackStatus.delivery_uncertain))
    × ((complete_action (ActionReply.raised ApiError.cannot_connect) "rename" renaming).pending
        ≡ renaming.pending)
    × ((complete_action (ActionReply.raised ApiError.cannot_connect) "rename" renaming).last_off
        ≡ renaming.last_off)
experimental_verdict_example =
    experimental_verdict noon 200000 1700000010000 "rename"
      (ActionReply.raised ApiError.cannot_connect) active renaming renaming renames rename_goes refl

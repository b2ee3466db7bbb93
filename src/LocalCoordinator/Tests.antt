-- ===== src/LocalCoordinator/Tests.antt =====
-- The theorems on the coordinator of a local device that is reported off, then on.
use alorair_home_assistant.Base.{
  ℕ, ◌<◌, ◌≡◌, ◌≢◌, refl, [], ◌∷◌, Bool, true, false, none, some, arith, String, ◌⊎◌, ◌≤◌, All, inr,
  if◌then◌else◌,
}
use alorair_home_assistant.Base.Int.{pos}
use alorair_home_assistant.Base.Dict.{IsDict, lookup, insert}
use alorair_home_assistant.Base.Value.{Value, value_eq}
use alorair_home_assistant.Protocol.Status.{Display}
use alorair_home_assistant.LocalClient.State.{DeviceStatus}
use alorair_home_assistant.LocalCoordinator.State.{
  Coordinator, FeedbackStatus, Link, LocalCommandFeedback, is_pending_off, new_coordinator,
  pending_power, restart_delay_remaining, status_stale, has_power, unexpired,
}
use alorair_home_assistant.LocalCoordinator.Events.{
  is_foreign, on_status, on_disconnect, report_of, watchdog_round,
}
use alorair_home_assistant.LocalCoordinator.Events.Protection.{
  IsValid, Keeps, has_expired, watchdog_round-pending,
}
use alorair_home_assistant.LocalCoordinator.Command.{
  Answer, Command, Decision, begin_command, complete_command, is_starting, is_stopping,
  is_unexpected, issue, validate_command,
}
use alorair_home_assistant.LocalCoordinator.Command.Validated.{IsValidated}
use alorair_home_assistant.LocalCoordinator.Command.Stopped.{stop_protects}
use alorair_home_assistant.LocalCoordinator.Command.Gate.{start_protected, stop_goes_out}
use alorair_home_assistant.LocalCoordinator.Command.Optimism.{never_optimistic}
use alorair_home_assistant.LocalCoordinator.Command.Uncertain.{uncertain_not_retried}
use alorair_home_assistant.LocalCoordinator.Command.Run.{Run, Step, Run-Keeps}

abbrev status : Bool → ℕ → DeviceStatus
status on now = record {
  session_id = 1;
  receive_sequence = 4;
  received_at = 1700000000;
  received_monotonic = now;
  power = some on;
  temperature_unit = Display.celsius;
  event_opcode = 0x21;
  target_humidity = none;
  inlet_celsius = none;
  inlet_humidity = none;
  outlet_celsius = none;
  outlet_humidity = none;
  inlet_gkg = 0;
  outlet_gkg = 0;
  inlet_grlb = 0;
  outlet_grlb = 0;
  draining = none;
}

-- Since its time off, four minutes have passed when the last report, off or on, is received.
abbrev reported : Bool → Coordinator
reported on = record (new_coordinator true 0) {
  report = report_of (status on 240000);
  last_update_success = true;
  session_id = some 1;
  receive_sequence = pos 4;
  received_monotonic = some 240000;
  previous_on = some on;
}

abbrev link : Bool → Link
link on = record { connected = true; last_status = some (status on 240000) }

abbrev power : Bool → String → Command
power on wanted = record {
  method = "async_set_power";
  args = Value.bool on ∷ [];
  key = "powerStatus";
  wanted = Value.str wanted;
  opcode = 0x21;
  requires_on = false;
}

abbrev start : Command
start = power true "01"

abbrev stop : Command
stop = power false "00"

abbrev starting : Coordinator
starting = issue 250000 1700000010 start (reported false)

start_sent :
    begin_command (link false) 250000 1700000010 start (reported false) ≡ Decision.send starting
unfolding begin_command status_stale restart_delay_remaining pending_power lookup value_eq report_of
start_sent = refl

start_protected_example :
    ((link false).connected ≡ true)
    × ((reported false).allow_local_power ≡ true)
    × (status_stale (link false) 250000 (reported false) ≡ false)
    × (is_pending_off (pending_power 250000 (reported false)) ≡ false)
    × ((180000 ≤ 250000) ⊎ (has_power "01" (reported false) ≡ true))
unfolding value_eq report_of
start_protected_example =
    start_protected (link false) 250000 1700000010 start (reported false) starting refl refl
      start_sent

reports_start : value_eq (Value.str "01") (Value.str "01") ≡ true
unfolding value_eq
reports_start = refl

stop_goes_out_example :
    (begin_command (link true) 900000 1700000700 stop (reported true) ≡ Decision.already)
    ⊎ (begin_command (link true) 900000 1700000700 stop (reported true)
        ≡ Decision.send (issue 900000 1700000700 stop (reported true)))
unfolding value_eq lookup
stop_goes_out_example =
    stop_goes_out (link true) 900000 1700000700 stop (reported true) refl refl refl refl refl refl

-- The start is uncertain, a report says on, a stop is sent, and the link is lost.
abbrev confirmed : Coordinator
confirmed =
    on_status (record { connected = true; last_status = some (status true 280000) }) 280000
      (status true 280000)
      (complete_command (link false) 270000 250000 start Answer.uncertain starting)

run :
    Run 250000
      (reported false)
      300000
      (on_disconnect 1 300000 (watchdog_round (link true) 290000 confirmed))
run =
    Run.next
      (Run.next
        (Run.next
          (Run.next
            (Run.next Run.start
              (Step.sent 250000 1700000010 (link false) start (omega arith) start_sent))
            (Step.answered 270000 250000 (link false) start Answer.uncertain (omega arith)
              (λ t e. cc)))
          (Step.reported 280000
            (record { connected = true; last_status = some (status true 280000) })
            (status true 280000) (omega arith) (λ t e. cc)))
        (Step.watched 290000 (link true) (omega arith)))
      (Step.disconnected 300000 1 (omega arith))

-- The start is uncertain, a report says that the device is on, the watchdog runs and the link is lost.
abbrev doubtful_run :
    Run 250000 starting 300000
      (on_disconnect 1 300000 (watchdog_round (link true) 290000 confirmed))
doubtful_run =
    Run.next
      (Run.next
        (Run.next
          (Run.next Run.start (
            Step.answered 270000 250000 (link false) start Answer.uncertain (omega arith)
              (λ t e. cc)))
          (Step.reported 280000
            (record { connected = true; last_status = some (status true 280000) })
            (status true 280000) (omega arith) (λ t e. cc)))
        (Step.watched 290000 (link true) (omega arith)))
      (Step.disconnected 300000 1 (omega arith))

uncertain_not_retried_example :
    begin_command
      (link false)
      400000
      1700000160
      start
      (on_disconnect 1 300000 (watchdog_round (link true) 290000 confirmed))
    ≢ Decision.send starting
uncertain_not_retried_example =
    uncertain_not_retried (link false) (link false) 400000 1700000010 1700000160 start start
      (reported false) starting start_sent doubtful_run ((((tt, inr tt), tt), tt), tt) (omega arith)
      (omega arith) refl reports_start

reported-IsValid : IsValid 250000 (reported false)
reported-IsValid = record { off_before = omega arith; auto = (omega arith, omega arith, refl) }

Run-Keeps_example :
    Keeps 300000
      (reported false)
      (on_disconnect 1 300000 (watchdog_round (link true) 290000 confirmed))
Run-Keeps_example = Run-Keeps run reported-IsValid

-- A stop is sent and its delivery is uncertain, and the device still reports on.
abbrev stopping : Coordinator
stopping = issue 250000 1700000010 stop (reported true)

stop_sent :
    begin_command (link true) 250000 1700000010 stop (reported true) ≡ Decision.send stopping
unfolding begin_command status_stale restart_delay_remaining pending_power lookup value_eq report_of
stop_sent = refl

abbrev still_on : Link
still_on = record { connected = true; last_status = some (status true 270000) }

abbrev stopped : Coordinator
stopped =
    on_status still_on 270000 (status true 270000)
      (complete_command (link true) 260000 250000 stop Answer.uncertain stopping)

abbrev stopped_run : Run 250000 stopping 270000 stopped
stopped_run =
    Run.next
      (Run.next Run.start
        (Step.answered 260000 250000 (link true) stop Answer.uncertain (omega arith) (λ t e. cc)))
      (Step.reported 270000 still_on (status true 270000) (omega arith) (λ t e. cc))

stop-IsValidated : IsValidated stop
unfolding validate_command value_eq
stop-IsValidated = refl

start-IsValidated : IsValidated start
unfolding validate_command value_eq
start-IsValidated = refl

on-IsValid : IsValid 250000 (reported true)
on-IsValid = record { off_before = omega arith; auto = (omega arith, omega arith, refl) }

start_starts : is_starting start ≡ true
unfolding value_eq
start_starts = refl

stop_stops : is_stopping stop ≡ true
unfolding value_eq
stop_stops = refl

stop_protects_example :
    begin_command still_on 280000 1700000040 start stopped ≢ Decision.send stopped
stop_protects_example =
    stop_protects (link true) still_on 280000 1700000010 1700000040 stop start (reported true)
      stopped on-IsValid stop-IsValidated stop_stops stop_sent stopped_run ((tt, tt), tt)
      (omega arith) (omega arith) start-IsValidated start_starts

-- The start is reported as done while a later report is at hand.
abbrev done : DeviceStatus
done = status true 260000

abbrev on_link : Link
on_link = record { connected = true; last_status = some (status true 280000) }

never_optimistic_example :
    (starting.report ≡ (reported false).report)
    × (starting.last_update_success ≡ true)
    × (starting.previous_on ≡ some false)
    × (starting.received_monotonic ≡ some 240000)
    × (starting.last_auto_humidity ≡ 50)
    × (((complete_command on_link 280000 250000 start (Answer.returned done) starting).report
          ≡ starting.report)
        ⊎ ((d : DeviceStatus) × (latest : DeviceStatus) × (Answer.returned done ≡ Answer.returned d)
            × (is_unexpected start 250000 d ≡ false)
            × (on_link.last_status ≡ some latest)
            × (is_foreign on_link latest starting ≡ false)
            × ((complete_command on_link 280000 250000 start (Answer.returned done) starting).report
                ≡ report_of latest)))
never_optimistic_example =
    never_optimistic (link false) on_link 250000 1700000010 280000 250000 start (reported false)
      starting starting (Answer.returned done) start_sent

abbrev feedback : LocalCommandFeedback
feedback = record {
  action = "set_power";
  status = FeedbackStatus.awaiting_feedback;
  issued_at = 1700000010;
  deadline = 550000;
  field = "powerStatus";
  requested = Value.str "01";
  acknowledged = false;
  reported_at = none;
}

starting-IsDict : IsDict starting.pending
unfolding insert lookup
starting-IsDict = (refl, tt)

last_started : starting.last_command ≡ some feedback
last_started = refl

-- All that was pending has expired.
watchdog_round-pending_example :
    All (λ e. 600000 < e.1.deadline) (watchdog_round (link false) 600000 starting).pending
    × ((key : String)
        → lookup key (watchdog_round (link false) 600000 starting).pending
          ≡ unexpired 600000 (lookup key starting.pending))
    × ((watchdog_round (link false) 600000 starting).last_command
        ≡ some (
            if has_expired 600000 (lookup "powerStatus" starting.pending)
            then record feedback { status = FeedbackStatus.not_observed }
            else feedback))
watchdog_round-pending_example =
    watchdog_round-pending (link false) 600000 starting feedback starting-IsDict last_started

-- ===== src/Cloud/Update.antt =====
-- `_async_update_data`: a poll moves the restart protection and settles the pending commands.
pub mod TimeOff
pub mod Settled
use alorair_home_assistant.Base.{
  ℕ, List, [], ◌∷◌, Bool, true, false, not, ◌&&◌, ◌||◌, Option, none, some, ltb, leb, ◌==◌,
  if◌then◌else◌, String, Result, ok, err,
}
use alorair_home_assistant.Base.Int.{pos}
use alorair_home_assistant.Base.Dict.{Dict, erase, ◌=s◌}
use alorair_home_assistant.Api.Json.{Fields}
use alorair_home_assistant.Api.Identity.{ApiError}
use alorair_home_assistant.Cloud.Readings.{Floats, number, powered, utc_sample}
use alorair_home_assistant.Cloud.State.{
  AlorairCoordinator, CommandFeedback, FeedbackStatus, PendingCommand, is_actual, is_true,
  same_wanted, started, stopped,
}

pub data UpdateError : Type 0 where
  auth_failed update_failed : UpdateError

abbrev pub is_field : String → Option String → Bool
is_field key none = false
is_field key (some field) = field =s key

-- The feedback of the command that a pending entry stands for.
abbrev pub is_feedback_of : String → PendingCommand → CommandFeedback → Bool
is_feedback_of key p f = is_field key f.field && f.issued_at == p.issued_at

abbrev pub report_at :
    String → PendingCommand → Option ℕ → Option CommandFeedback → Option CommandFeedback
report_at key p sampled none = none
report_at key p sampled (some f) =
    if is_feedback_of key p f
    then some (record f { status = FeedbackStatus.device_reported; reported_at = sampled })
    else some f

abbrev pub miss : String → PendingCommand → Option CommandFeedback → Option CommandFeedback
miss key p none = none
miss key p (some f) =
    if is_feedback_of key p f
    then some (record f { status = FeedbackStatus.not_observed })
    else some f

abbrev pub is_after : Option ℕ → ℕ → Bool
is_after none sampled = true
is_after (some baseline) sampled = ltb baseline sampled

-- `newer`
abbrev pub is_newer : Option ℕ → PendingCommand → Bool
is_newer none p = false
is_newer (some sampled) p = leb p.issued_at sampled && is_after p.baseline sampled

abbrev pub is_stop : String → PendingCommand → Bool
is_stop key p = key =s "powerStatus" && same_wanted p.wanted stopped

-- `fromisoformat` and the floats are parameters.
module _ (floats : Floats) (fromisoformat : List ℕ → Option ℕ) where
  abbrev pub matches : String → PendingCommand → Fields → Bool
  matches key p fields =
      is_actual floats key p.wanted fields
      || key =s "powerStatus" && same_wanted p.wanted started && is_true (powered fields)

  -- One turn of the loop over the pending commands.
  unfoldable pub settle :
      ℕ → Fields → String → PendingCommand → AlorairCoordinator → AlorairCoordinator
  settle now fields key p c =
      if matches key p fields && is_newer (utc_sample fromisoformat fields) p
      then record c {
        pending = erase key c.pending;
        last_command = report_at key p (utc_sample fromisoformat fields) c.last_command;
        last_off = if is_stop key p then now else c.last_off;
      }
      else if leb p.deadline now
      then record c { pending = erase key c.pending; last_command = miss key p c.last_command }
      else c

  unfoldable pub settle_all :
      ℕ → Fields → Dict PendingCommand → AlorairCoordinator → AlorairCoordinator
  settle_all now fields [] c = c
  settle_all now fields ((key, p) ∷ rest) c = settle_all now fields rest (settle now fields key p c)

  abbrev pub auto_humidity : Fields → ℕ → ℕ
  auto_humidity fields before = elim (number floats "currentHumidity" (pos 25) (pos 80) fields) [
    | none ↦ before
    | some x ↦ elim (floats.multiple_of_5 x) [ none ↦ before | some n ↦ n ]
  ]

  -- The power that a poll finds.
  abbrev pub observe_power : ℕ → Bool → AlorairCoordinator → AlorairCoordinator
  observe_power now on c = record c {
    last_off = if not on && is_true c.previous_on then now else c.last_off;
    previous_on = some on;
  }

  abbrev pub update_failure : ApiError → UpdateError
  update_failure (ApiError.authentication n) = UpdateError.auth_failed
  update_failure _ = UpdateError.update_failed

  -- `_async_update_data`, on what `async_status` gives, with what the base class does of its end:
  -- it keeps the fields and notes whether the poll succeeded.
  unfoldable pub update_data :
      ℕ
      → Result ApiError Fields
      → AlorairCoordinator
      → Result UpdateError (Unit {0}) × AlorairCoordinator
  unfolding settle_all
  update_data now (err e) c = (err (update_failure e), record c { last_update_success = false })
  update_data now (ok fields) c = elim (powered fields) [
    | none ↦ (err UpdateError.update_failed, record c { last_update_success = false })
    | some on ↦
        let observed = record (observe_power now on c) {
          last_auto_humidity = auto_humidity fields c.last_auto_humidity;
        } in
        (
          ok tt,
          record (settle_all now fields c.pending observed) {
            fields = fields;
            last_update_success = true;
          },
        )
  ]

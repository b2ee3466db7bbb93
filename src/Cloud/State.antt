-- ===== src/Cloud/State.antt =====
-- The fields of `AlorairCoordinator` and its properties. Times are milliseconds: `now` is the
-- monotonic clock, `utc` the wall clock.
use alorair_home_assistant.Base.{
  bytes_eq, ℕ, ◌+◌, List, [], Bool, true, false, not, ◌&&◌, ◌||◌, Option, none, some, ltb, leb,
  ◌==◌, if◌then◌else◌, String,
}
use alorair_home_assistant.Base.Int.{pos, negsuc}
use alorair_home_assistant.Base.Dict.{Dict, lookup, ◌=s◌}
use alorair_home_assistant.Api.Json.{Fields}
use alorair_home_assistant.LocalCoordinator.State.{minimum_off_seconds, seconds_left}
use alorair_home_assistant.Cloud.Readings.{Floats, digits, number, code, powered, utc_sample}

-- A wanted code, or a wanted humidity.
pub data Wanted : Type 0 where
  text : List ℕ → Wanted
  humidity : ℕ → Wanted

pub data FeedbackStatus : Type 0 where
  awaiting_feedback device_reported not_observed delivery_uncertain rejected : FeedbackStatus
  awaiting_response cloud_acknowledged : FeedbackStatus

pub record PendingCommand : Type 0 where
  pub wanted : Wanted
  pub deadline : ℕ
  pub issued_at : ℕ
  pub baseline : Option ℕ

pub record CommandFeedback : Type 0 where
  pub action : String
  pub status : FeedbackStatus
  pub issued_at : ℕ
  pub deadline : ℕ
  pub field : Option String
  pub requested : Option Wanted
  pub acknowledged : Bool
  pub reported_at : Option ℕ

-- `fields` is `self.data`, empty before the first poll.
pub record AlorairCoordinator : Type 0 where
  pub fields : Fields
  pub last_update_success : Bool
  pub pending : Dict PendingCommand
  pub last_off : ℕ
  pub previous_on : Option Bool
  pub last_auto_humidity : ℕ
  pub closing : Bool
  pub last_command : Option CommandFeedback

-- `__init__`, at the time `now`, where the base class has no data and counts as successful
abbrev pub new_coordinator : ℕ → AlorairCoordinator
new_coordinator now = record {
  fields = Fields.end;
  last_update_success = true;
  pending = [];
  last_off = now;
  previous_on = none;
  last_auto_humidity = 50;
  closing = false;
  last_command = none;
}

abbrev pub same_wanted : Wanted → Wanted → Bool
same_wanted (Wanted.text a) (Wanted.text b) = bytes_eq a b
same_wanted (Wanted.humidity m) (Wanted.humidity n) = m == n
same_wanted _ _ = false

abbrev pub stopped : Wanted
stopped = Wanted.text (digits b'0' b'0')

abbrev pub started : Wanted
started = Wanted.text (digits b'0' b'1')

abbrev pub has_data : Fields → Bool
has_data Fields.end = false
has_data (Fields.field k v d) = true

-- Between a minute ahead of the clock and five behind.
abbrev pub is_fresh_sample : ℕ → Option ℕ → Bool
is_fresh_sample utc none = false
is_fresh_sample utc (some sampled) = leb sampled (utc + 60000) && leb utc (sampled + 300000)

-- `status_stale`
unfoldable pub status_stale : (List ℕ → Option ℕ) → ℕ → AlorairCoordinator → Bool
status_stale fromisoformat utc c =
    not (has_data c.fields) || not (is_fresh_sample utc (utc_sample fromisoformat c.fields))

abbrev pub is_unexpired : ℕ → Option PendingCommand → Bool
is_unexpired now none = false
is_unexpired now (some p) = ltb now p.deadline

pub data Power : Type 0 where
  on off : Power

-- `pending_power`
unfoldable pub pending_power : ℕ → AlorairCoordinator → Option Power
pending_power now c = elim (lookup "powerStatus" c.pending) [
  | none ↦ none
  | some p ↦
      if ltb now p.deadline
      then some (if same_wanted p.wanted stopped then Power.off else Power.on)
      else none
]

abbrev pub is_pending_off : Option Power → Bool
is_pending_off (some Power.off) = true
is_pending_off _ = false

abbrev pub is_true : Option Bool → Bool
is_true none = false
is_true (some b) = b

-- `restart_delay_remaining`, in seconds
unfoldable pub restart_delay_remaining : ℕ → AlorairCoordinator → ℕ
unfolding pending_power
restart_delay_remaining now c =
    if is_pending_off (pending_power now c)
    then minimum_off_seconds
    else if is_true (powered c.fields)
    then 0
    else seconds_left c.last_off now

-- `actual == wanted`, where `actual` is the code or the number of a key
module _ (floats : Floats) where
  abbrev pub equals_number : Option floats.Float → Wanted → Bool
  equals_number (some x) (Wanted.humidity n) = floats.equals x n
  equals_number _ _ = false

  abbrev pub equals_code : Option (List ℕ) → Wanted → Bool
  equals_code (some cs) (Wanted.text wanted) = bytes_eq cs wanted
  equals_code _ _ = false

  unfoldable pub is_actual : String → Wanted → Fields → Bool
  is_actual key wanted fields =
      if key =s "currentHumidity"
      then equals_number (number floats key (negsuc 9999) (pos 10000) fields) wanted
      else equals_code (code key fields) wanted

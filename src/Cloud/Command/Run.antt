-- ===== src/Cloud/Command/Run.antt =====
-- Runs of the cloud coordinator: polls, commands, experimental actions and the unload.
use alorair_home_assistant.Base.{ℕ, ◌≤◌, ◌≡◌, ◌⊎◌, List, true, Option, String, Result}
use alorair_home_assistant.Api.Json.{Fields}
use alorair_home_assistant.Api.Identity.{ApiError}
use alorair_home_assistant.Cloud.Readings.{Floats}
use alorair_home_assistant.Cloud.State.{AlorairCoordinator, Wanted, same_wanted, started, stopped}
use alorair_home_assistant.Cloud.Update.{update_data}
use alorair_home_assistant.Cloud.Command.{Command, Decision, Reply, begin_command, complete_command}
use alorair_home_assistant.Cloud.Experimental.{
  ActionReply, ActionDecision, async_prepare_unload, begin_action, complete_action,
}

-- A command for the power wants one of its two codes.
abbrev pub IsFlag : Wanted → Type 0
IsFlag wanted = (same_wanted wanted stopped ≡ true) ⊎ (same_wanted wanted started ≡ true)

abbrev pub IsOrder : Command → Type 0
IsOrder m = m.key ≡ "powerStatus" → IsFlag m.wanted

module _ (floats : Floats) (fromisoformat : List ℕ → Option ℕ) where
  -- Polls, commands and experimental actions, at the times at which they happen.
  pub data Step (t : ℕ) (c : AlorairCoordinator) : ℕ → AlorairCoordinator → Type 0 where
    polled :
        (u : ℕ) (r : Result ApiError Fields)
        → t ≤ u
        → Step t c u (update_data floats fromisoformat u r c).1
    sent :
        {d : AlorairCoordinator} (u utc : ℕ) (m : Command)
        → t ≤ u
        → IsOrder m
        → begin_command floats fromisoformat u utc m c ≡ Decision.send d
        → Step t c u d
    answered :
        (u : ℕ) (m : Command) (reply : Reply) → t ≤ u → Step t c u (complete_command reply m c)
    acted :
        {d : AlorairCoordinator} (u utc : ℕ) (action : String)
        → t ≤ u
        → begin_action fromisoformat u utc action c ≡ ActionDecision.proceed d
        → Step t c u d
    ended :
        (u : ℕ) (action : String) (reply : ActionReply)
        → t ≤ u
        → Step t c u (complete_action reply action c)
    unloaded : (u : ℕ) → t ≤ u → Step t c u (async_prepare_unload c)

  pub data Run (t : ℕ) (c : AlorairCoordinator) : ℕ → AlorairCoordinator → Type 0 where
    start : Run t c t c
    next : {u v : ℕ} {d e : AlorairCoordinator} → Run t c u d → Step u d v e → Run t c v e

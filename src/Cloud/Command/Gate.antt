-- ===== src/Cloud/Command/Gate.antt =====
-- What the tests before a command, and its end, guarantee.
use alorair_home_assistant.Base.{ℕ, ◌+◌, ◌≤◌, ◌<◌, ◌≡◌, ◌⊎◌, List, true, false, Option, some, arith}
use alorair_home_assistant.Base.Dict.{lookup}
use alorair_home_assistant.Cloud.Readings.{Floats, powered}
use alorair_home_assistant.Cloud.State.{
  AlorairCoordinator, PendingCommand, Wanted, is_pending_off, is_true, pending_power,
  restart_delay_remaining, same_wanted,
}
use alorair_home_assistant.Cloud.Command.{
  Command, Decision, begin_command, check_device, is_repeated, is_start, issue,
}

no_delay :
    (now : ℕ) (c : AlorairCoordinator)
    → restart_delay_remaining now c ≡ 0
    → (is_pending_off (pending_power now c) ≡ false)
      × ((is_true (powered c.fields) ≡ true) ⊎ (c.last_off + 180000 ≤ now))
unfolding restart_delay_remaining
no_delay now c h = ground arith

pub is_repeated-some :
    (now : ℕ) (wanted : Wanted) (p : PendingCommand)
    → now < p.deadline
    → same_wanted p.wanted wanted ≡ true
    → is_repeated now wanted (some p) ≡ true
is_repeated-some now wanted p h e = ground arith

module _ (floats : Floats) (fromisoformat : List ℕ → Option ℕ) where
  -- A start command that the coordinator sends goes out only when no stop is pending and either the
  -- device is reported on or three minutes have passed since the last time it went, or was told to go,
  -- off.
  pub cloud_start_protected :
      (now utc : ℕ) (m : Command) (c sent : AlorairCoordinator)
      → is_start m ≡ true
      → begin_command floats fromisoformat now utc m c ≡ Decision.send sent
      → (is_pending_off (pending_power now c) ≡ false)
        × ((is_true (powered c.fields) ≡ true) ⊎ (c.last_off + 180000 ≤ now))
  unfolding begin_command
  cloud_start_protected now utc m c sent start h = no_delay now c (ground arith)

  pub sent_state :
      (now utc : ℕ) (m : Command) (c sent : AlorairCoordinator)
      → begin_command floats fromisoformat now utc m c ≡ Decision.send sent
      → sent ≡ issue floats fromisoformat now utc m c
  unfolding begin_command check_device
  sent_state now utc m c sent h = ground arith

  pub not_repeated :
      (now utc : ℕ) (m : Command) (c sent : AlorairCoordinator)
      → begin_command floats fromisoformat now utc m c ≡ Decision.send sent
      → is_repeated now m.wanted (lookup m.key c.pending) ≡ false
  unfolding begin_command
  not_repeated now utc m c sent h = ground arith

-- ===== src/Cloud/Update/TimeOff.antt =====
-- When a poll dates the time off.
use alorair_home_assistant.Base.{
  ℕ, ◌≡◌, refl, inl, inr, List, [], ◌∷◌, true, false, ◌&&◌, Option, some, leb, ok, Bool-cases,
  String,
}
use alorair_home_assistant.Base.Dict.{Dict}
use alorair_home_assistant.Api.Json.{Fields}
use alorair_home_assistant.Cloud.Readings.{Floats, powered, utc_sample}
use alorair_home_assistant.Cloud.State.{AlorairCoordinator, PendingCommand}
use alorair_home_assistant.Cloud.Update.{
  is_newer, is_stop, matches, settle, settle_all, update_data,
}

module _ (floats : Floats) (fromisoformat : List ℕ → Option ℕ) where
  settle-last_off :
      (now : ℕ) (fields : Fields) (key : String) (p : PendingCommand) (c : AlorairCoordinator)
      → c.last_off ≡ now
      → (settle floats fromisoformat now fields key p c).last_off ≡ now
  unfolding settle
  settle-last_off now fields key p c h =
      elim (Bool-cases (
        matches floats fromisoformat key p fields
        && is_newer (utc_sample fromisoformat fields) p)) [
          | inl seen ↦ rw seen (elim (Bool-cases (is_stop key p)) [
            | inl stop ↦ rw stop refl
            | inr other ↦ rw other h
          ])
          | inr unseen ↦ rw unseen (elim (Bool-cases (leb p.deadline now)) [
            | inl late ↦ rw late h
            | inr early ↦ rw early h
          ])
        ]

  settle_all-last_off :
      (now : ℕ) (fields : Fields) (pending : Dict PendingCommand) (c : AlorairCoordinator)
      → c.last_off ≡ now
      → (settle_all floats fromisoformat now fields pending c).last_off ≡ now
  unfolding settle_all
  settle_all-last_off now fields [] c h = h
  settle_all-last_off now fields ((key, p) ∷ rest) c h =
      settle_all-last_off now fields rest (settle floats fromisoformat now fields key p c)
        (settle-last_off now fields key p c h)

  -- A poll that finds the device off where the last one found it on dates the time off, whatever the
  -- pending commands that it settles.
  pub update_data-last_off :
      (now : ℕ) (fields : Fields) (c : AlorairCoordinator)
      → c.previous_on ≡ some true
      → powered fields ≡ some false
      → (update_data floats fromisoformat now (ok fields) c).1.last_off ≡ now
  unfolding update_data
  update_data-last_off now fields c on off =
      rw (off, on, update_data) (settle_all-last_off now fields c.pending _ refl)

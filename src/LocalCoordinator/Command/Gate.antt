-- ===== src/LocalCoordinator/Command/Gate.antt =====
-- What has been tested when a command is sent, and when it is refused.
use alorair_home_assistant.Base.{
  ℕ, ◌+◌, ◌≤◌, ◌<◌, ◌≡◌, ◌≢◌, ◌⊎◌, inl, inr, refl, sym, ◌∙◌, Bool, true, false, not, ◌&&◌, ◌||◌,
  some, ltb, ◌==◌, if◌then◌else◌, is_some, arith, not-false, ltb-false,
}
use alorair_home_assistant.Base.Dict.{lookup, lookup-insert_self}
use alorair_home_assistant.Base.Value.{Value, value_eq}
use alorair_home_assistant.LocalCoordinator.State.{
  Coordinator, Link, LocalPendingCommand, status_stale, pending_time, minimum_off_seconds,
  restart_delay_remaining, has_power, pending_power, is_pending_off, seconds_left,
}
use alorair_home_assistant.LocalCoordinator.Command.{
  Command, Decision, Refusal, actual_value, begin_command, check, is_repeated, is_starting,
  is_stopping, issue,
}

check-send :
    (b : Bool) (r : Refusal) (d : Decision) (c : Coordinator)
    → check b r d ≡ Decision.send c
    → (b ≡ false) × (d ≡ Decision.send c)
check-send true r d c h = cc
check-send false r d c h = (refl, h)

unless-send :
    (b : Bool) (d : Decision) (c : Coordinator)
    → (if b then Decision.already else d) ≡ Decision.send c
    → (b ≡ false) × (d ≡ Decision.send c)
unless-send true d c h = cc
unless-send false d c h = (refl, h)

-- All the tests of a command that was sent.
pub record IsCleared (link : Link) (now utc : ℕ) (m : Command) (c c' : Coordinator) : Type 0 where
  pub running : c.closing ≡ false
  pub linked : not link.connected ≡ false
  pub permitted : (is_starting m && not c.allow_local_power) ≡ false
  pub fresh : (not (is_stopping m) && status_stale link now c) ≡ false
  pub known : (is_starting m && not (has_power "00" c || has_power "01" c)) ≡ false
  pub powered : ((m.requires_on || m.opcode == 0x23) && not (has_power "01" c)) ≡ false
  pub unrepeated : is_repeated now m.wanted (lookup m.key c.pending) ≡ false
  pub needed :
      (value_eq (actual_value m.key c.report) m.wanted
        && not (is_some (lookup m.key c.pending))
        && not (status_stale link now c))
      ≡ false
  pub rested : (is_starting m && ltb 0 (restart_delay_remaining link now c)) ≡ false
  pub issued : issue now utc m c ≡ c'

pub begin_command-IsCleared :
    (link : Link) (now utc : ℕ) (m : Command) (c c' : Coordinator)
    → begin_command link now utc m c ≡ Decision.send c'
    → IsCleared link now utc m c c'
unfolding begin_command
begin_command-IsCleared link now utc m c c' h =
    let (e₁, h₁) = check-send _ _ _ c' h in
    let (e₂, h₂) = check-send _ _ _ c' h₁ in
    let (e₃, h₃) = check-send _ _ _ c' h₂ in
    let (e₄, h₄) = check-send _ _ _ c' h₃ in
    let (e₅, h₅) = check-send _ _ _ c' h₄ in
    let (e₆, h₆) = check-send _ _ _ c' h₅ in
    let (e₇, h₇) = check-send _ _ _ c' h₆ in
    let (e₈, h₈) = unless-send _ _ c' h₇ in
    let (e₉, h₉) = check-send _ _ _ c' h₈ in
    record {
      running = e₁;
      linked = e₂;
      permitted = e₃;
      fresh = e₄;
      known = e₅;
      powered = e₆;
      unrepeated = e₇;
      needed = e₈;
      rested = e₉;
      issued = cc h₉;
    }

seconds_left-zero :
    (last_off now : ℕ) → ltb 0 (seconds_left last_off now) ≡ false → last_off + 180000 ≤ now
seconds_left-zero last_off now h = omega (arith, ltb-false 0 (seconds_left last_off now) h)

delay_over :
    (pending_off on stale : Bool) (last_off now : ℕ)
    → ltb 0 (
        if pending_off
        then minimum_off_seconds
        else if on && not stale
        then 0
        else seconds_left last_off now)
      ≡ false
    → (pending_off ≡ false) × (((on ≡ true) × (stale ≡ false)) ⊎ (last_off + 180000 ≤ now))
delay_over true on stale last_off now h = cc
delay_over false true false last_off now h = (refl, inl (refl, refl))
delay_over false true true last_off now h = (refl, inr (seconds_left-zero last_off now h))
delay_over false false stale last_off now h = (refl, inr (seconds_left-zero last_off now h))

pub rested_start :
    (link : Link) (now : ℕ) (c : Coordinator)
    → ltb 0 (restart_delay_remaining link now c) ≡ false
    → (is_pending_off (pending_power now c) ≡ false)
      × (((has_power "01" c ≡ true) × (status_stale link now c ≡ false))
          ⊎ (c.last_off + 180000 ≤ now))
unfolding restart_delay_remaining
rested_start link now c h =
    delay_over (is_pending_off (pending_power now c)) (has_power "01" c) (status_stale link now c)
      c.last_off now h

pub and_false : (a b : Bool) → (a && b) ≡ false → a ≡ true → b ≡ false
and_false a b h k = ground arith

-- A start is sent only on a verified connection with a fresh report, if the option allows it, while
-- no power-off is pending, and once three minutes have passed since the last time off, or else
-- while the fresh report says that the power is on.
pub start_protected :
    (link : Link) (now utc : ℕ) (m : Command) (c c' : Coordinator)
    → is_starting m ≡ true
    → is_stopping m ≡ false
    → begin_command link now utc m c ≡ Decision.send c'
    → (link.connected ≡ true)
      × (c.allow_local_power ≡ true)
      × (status_stale link now c ≡ false)
      × (is_pending_off (pending_power now c) ≡ false)
      × ((c.last_off + 180000 ≤ now) ⊎ (has_power "01" c ≡ true))
start_protected link now utc m c c' starting running h =
    let g : IsCleared link now utc m c c' = begin_command-IsCleared link now utc m c c' h in
    let (quiet, rest) = rested_start link now c (and_false _ _ g.rested starting) in
    (
      not-false _ g.linked,
      not-false _ (and_false _ _ g.permitted starting),
      and_false (not (is_stopping m)) (status_stale link now c) g.fresh (rw running),
      quiet,
      (elim rest [ inl (on, _) ↦ inr on | inr long ↦ inl long ]),
    )

is_repeated-some :
    (now : ℕ) (wanted : Value) (p : LocalPendingCommand)
    → now < p.deadline
    → value_eq p.wanted wanted ≡ true
    → is_repeated now wanted (some p) ≡ true
is_repeated-some now wanted p h e = ground arith

-- While a command's entry is pending and not expired, the same request is not sent again.
pub repeated_not_sent :
    (link : Link) (now utc : ℕ) (m : Command) (c c' : Coordinator) (p : LocalPendingCommand)
    → lookup m.key c.pending ≡ some p
    → now < p.deadline
    → value_eq p.wanted m.wanted ≡ true
    → begin_command link now utc m c ≢ Decision.send c'
repeated_not_sent link now utc m c c' p e early same h =
    let g : IsCleared link now utc m c c' = begin_command-IsCleared link now utc m c c' h in
    let again : is_repeated now m.wanted (lookup m.key c.pending) ≡ true =
      rw e (is_repeated-some now m.wanted p early same) in
    cc (sym again ∙ g.unrepeated)

pub issued_pending :
    (now utc : ℕ) (m : Command) (c : Coordinator)
    → lookup m.key (issue now utc m c).pending
      ≡ some (record { wanted = m.wanted; deadline = now + pending_time; issued_monotonic = now })
issued_pending now utc m c = lookup-insert_self m.key _ c.pending

sent_or_done :
    (a b : Bool) (r : Refusal) (d : Decision)
    → b ≡ false
    → ((if a then Decision.already else check b r d) ≡ Decision.already)
      ⊎ ((if a then Decision.already else check b r d) ≡ d)
sent_or_done true b r d h = inl refl
sent_or_done false b r d h = inr (rw h)

pub stop_goes_out :
    (link : Link) (now utc : ℕ) (m : Command) (c : Coordinator)
    → c.closing ≡ false
    → link.connected ≡ true
    → is_stopping m ≡ true
    → is_starting m ≡ false
    → (m.requires_on || m.opcode == 0x23) ≡ false
    → is_repeated now m.wanted (lookup m.key c.pending) ≡ false
    → (begin_command link now utc m c ≡ Decision.already)
      ⊎ (begin_command link now utc m c ≡ Decision.send (issue now utc m c))
unfolding begin_command
stop_goes_out link now utc m c running linked stops starts plain new =
    rw (running, linked, starts, stops, plain, new)
      (sent_or_done _ false Refusal.restart_protection _ refl)

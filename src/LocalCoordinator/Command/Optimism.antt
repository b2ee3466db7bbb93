-- ===== src/LocalCoordinator/Command/Optimism.antt =====
-- A command changes no reading: the report that the entities show is one of the device.
use alorair_home_assistant.Base.{
  ℕ, ◌≡◌, ◌⊎◌, inl, inr, refl, sym, false, Option, none, some, Bool-cases,
}
use alorair_home_assistant.LocalClient.State.{DeviceStatus}
use alorair_home_assistant.LocalCoordinator.State.{Coordinator, Link}
use alorair_home_assistant.LocalCoordinator.Events.{
  accept_status, enter_session, is_foreign, is_out_of_order, is_same_session, on_status, report_of,
}
use alorair_home_assistant.LocalCoordinator.Command.{
  Answer, Command, Decision, begin_command, complete_command, confirm, is_reversed, is_stopping,
  is_unexpected, issue, mark_off,
}
use alorair_home_assistant.LocalCoordinator.Command.Gate.{begin_command-IsCleared}

-- The report is as it was, or the client's last one, which is of the current link and in order.
abbrev pub IsReported : Link → Coordinator → Coordinator → Type 0
IsReported link c c' =
    (c'.report ≡ c.report)
    ⊎ ((latest : DeviceStatus) × (link.last_status ≡ some latest)
        × (is_foreign link latest c ≡ false)
        × (c'.report ≡ report_of latest))

enter_session-report :
    (now : ℕ) (d : DeviceStatus) (c : Coordinator) → (enter_session now d c).report ≡ c.report
enter_session-report now d c = elim (Bool-cases (is_same_session d c.session_id)) [
  | inl same ↦ rw same refl
  | inr other ↦ rw other refl
]

on_status-report :
    (link : Link) (now : ℕ) (d : DeviceStatus) (c : Coordinator)
    → ((on_status link now d c).report ≡ c.report)
      ⊎ ((is_foreign link d c ≡ false) × ((on_status link now d c).report ≡ report_of d))
unfolding on_status
on_status-report link now d c = elim (Bool-cases (is_foreign link d c)) [
  | inl foreign ↦ rw foreign (inl refl)
  | inr ours ↦ elim (Bool-cases (is_out_of_order d (enter_session now d c))) [
    | inl early ↦ rw (ours, early) (inl (enter_session-report now d c))
    | inr due ↦ rw (ours, due) (inr (refl, unfold accept_status in refl))
  ]
]

review-IsReported :
    (link : Link) (now : ℕ) (m : Command) (d : DeviceStatus) (c : Coordinator)
    (o : Option DeviceStatus)
    → link.last_status ≡ o
    → IsReported link c (elim o [
      | none ↦ c
      | some latest ↦ on_status link now latest (mark_off (is_reversed m d latest) now c)
    ])
review-IsReported link now m d c none h = inl refl
review-IsReported link now m d c (some latest) h =
    elim (on_status-report link now latest (mark_off (is_reversed m d latest) now c)) [
      | inl same ↦ inl same
      | inr (ours, new) ↦ inr (latest, h, ours, new)
    ]

pub never_optimistic :
    (link link' : Link) (now utc later issued : ℕ) (m : Command) (c c' e : Coordinator) (a : Answer)
    → begin_command link now utc m c ≡ Decision.send c'
    → (c'.report ≡ c.report)
      × (c'.last_update_success ≡ c.last_update_success)
      × (c'.previous_on ≡ c.previous_on)
      × (c'.received_monotonic ≡ c.received_monotonic)
      × (c'.last_auto_humidity ≡ c.last_auto_humidity)
      × (((complete_command link' later issued m a e).report ≡ e.report)
          ⊎ ((d : DeviceStatus) × (latest : DeviceStatus) × (a ≡ Answer.returned d)
              × (is_unexpected m issued d ≡ false)
              × (link'.last_status ≡ some latest)
              × (is_foreign link' latest e ≡ false)
              × ((complete_command link' later issued m a e).report ≡ report_of latest)))
unfolding complete_command
never_optimistic link link' now utc later issued m c c' e a h =
    let i : issue now utc m c ≡ c' = (begin_command-IsCleared link now utc m c c' h).issued in
    rw (sym i) (refl, refl, refl, refl, refl, ended a)
  where
    ended :
        (a : Answer)
        → ((complete_command link' later issued m a e).report ≡ e.report)
          ⊎ ((d : DeviceStatus) × (latest : DeviceStatus) × (a ≡ Answer.returned d)
              × (is_unexpected m issued d ≡ false)
              × (link'.last_status ≡ some latest)
              × (is_foreign link' latest e ≡ false)
              × ((complete_command link' later issued m a e).report ≡ report_of latest))
    ended Answer.uncertain = inl refl
    ended Answer.rejected = inl refl
    ended Answer.unhandled = inl refl
    ended (Answer.returned d) = elim (Bool-cases (is_unexpected m issued d)) [
      | inl odd ↦ rw odd (inl refl)
      | inr good ↦
          elim (review-IsReported link' later m d (mark_off (is_stopping m) later (confirm m d e))
            link'.last_status refl) [
              | inl same ↦ inl (rw good same)
              | inr (latest, here, ours, new) ↦ inr (d, latest, refl, good, here, ours, rw good new)
            ]
    ]

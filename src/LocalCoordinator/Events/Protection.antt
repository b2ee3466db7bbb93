-- ===== src/LocalCoordinator/Events/Protection.antt =====
-- The time off and the automatic target under every report, disconnection and round.
use alorair_home_assistant.Base.{
  ℕ, ◌%◌, ◌≤◌, ◌<◌, ◌≡◌, ◌⊎◌, inl, inr, refl, [], ◌∷◌, Bool, true, false, not, ◌||◌, Option, none,
  some, if◌then◌else◌, String, arith, Bool-cases, All, leb, subst,
}
use alorair_home_assistant.Base.Dict.{Dict, IsDict, lookup, same_key, ◌=s◌}
use text.Mathlib.TextEquality.{eq_iff}
use alorair_home_assistant.LocalClient.State.{DeviceStatus}
use alorair_home_assistant.LocalCoordinator.State.{
  Coordinator, FeedbackStatus, Link, LocalCommandFeedback, LocalPendingCommand, unexpired,
}
use alorair_home_assistant.LocalCoordinator.Events.{
  accept_status, auto_humidity, enter_session, expire, expires_key, is_foreign, is_out_of_order,
  is_same_session, is_session, on_disconnect, on_status, report_of, turned_off, watchdog_round,
}

-- A target that the appliance can report, and one of automatic operation.
abbrev pub IsTarget : ℕ → Type 0
IsTarget t = (t ≡ 20) ⊎ ((25 ≤ t) × (t ≤ 80) × (t % 5 ≡ 0))

abbrev pub IsAuto : ℕ → Type 0
IsAuto t = (25 ≤ t) × (t ≤ 80) × (t % 5 ≡ 0)

-- The invariant at a time: the time off is not in the future, the automatic target is one.
pub record IsValid (now : ℕ) (c : Coordinator) : Type 0 where
  pub off_before : c.last_off ≤ now
  pub auto : IsAuto c.last_auto_humidity

-- An event at `now` keeps the invariant and moves the time off forward only.
abbrev pub Keeps : ℕ → Coordinator → Coordinator → Type 0
Keeps now c c' = IsValid now c' × (c.last_off ≤ c'.last_off)

auto_humidity-IsAuto :
    (o : Option ℕ) (last : ℕ)
    → ((t : ℕ) → o ≡ some t → IsTarget t)
    → IsAuto last
    → IsAuto (auto_humidity o last)
auto_humidity-IsAuto none last h k = k
auto_humidity-IsAuto (some t) last h k = ground (arith, h t refl)

enter_session-Keeps :
    (now : ℕ) (d : DeviceStatus) (c : Coordinator)
    → IsValid now c
    → Keeps now c (enter_session now d c)
enter_session-Keeps now d c v = elim (Bool-cases (is_same_session d c.session_id)) [
  | inl same ↦ rw same (v, omega arith)
  | inr other ↦ rw other (record { off_before = omega arith; auto = v.auto }, v.off_before)
]

later_off :
    (b : Bool) (last now : ℕ)
    → last ≤ now
    → (last ≤ (if b then now else last)) × ((if b then now else last) ≤ now)
later_off true last now h = (h, omega arith)
later_off false last now h = (omega arith, h)

accept_status-Keeps :
    (link : Link) (now : ℕ) (d : DeviceStatus) (c : Coordinator)
    → ((t : ℕ) → d.target_humidity ≡ some t → IsTarget t)
    → IsValid now c
    → Keeps now c (accept_status link now d c)
unfolding accept_status
accept_status-Keeps link now d c h v =
    let (up, bound) = later_off (turned_off d.power c.previous_on) c.last_off now v.off_before in
    (
      record {
        off_before = bound;
        auto = auto_humidity-IsAuto d.target_humidity c.last_auto_humidity h v.auto;
      },
      up,
    )

-- A report, whatever it says and in whatever order it comes, leaves the time off at or after where
-- it was and not in the future, and the automatic target a multiple of 5 from 25 to 80.
pub on_status-Keeps :
    (link : Link) (now : ℕ) (d : DeviceStatus) (c : Coordinator)
    → ((t : ℕ) → d.target_humidity ≡ some t → IsTarget t)
    → IsValid now c
    → Keeps now c (on_status link now d c)
unfolding on_status
on_status-Keeps link now d c h v =
    let c₁ : Coordinator = enter_session now d c in
    let (v₁, up₁) = enter_session-Keeps now d c v in
    let (v₂, up₂) = accept_status-Keeps link now d c₁ h v₁ in
    elim (Bool-cases (is_foreign link d c)) [
      | inl foreign ↦ rw foreign (v, omega arith)
      | inr ours ↦ elim (Bool-cases (is_out_of_order d c₁)) [
        | inl early ↦ rw (ours, early) (v₁, up₁)
        | inr due ↦ rw (ours, due) (v₂, omega (arith, up₁, up₂))
      ]
    ]

pub on_disconnect-Keeps :
    (i now : ℕ) (c : Coordinator) → IsValid now c → Keeps now c (on_disconnect i now c)
unfolding on_disconnect
on_disconnect-Keeps i now c v = elim (Bool-cases (c.closing || not (is_session i c.session_id))) [
  | inl other ↦ rw other (v, omega arith)
  | inr ours ↦ rw ours (record { off_before = omega arith; auto = v.auto }, v.off_before)
]

pub watchdog_round-Keeps :
    (link : Link) (now : ℕ) (c : Coordinator)
    → IsValid now c
    → Keeps now c (watchdog_round link now c)
unfolding watchdog_round
watchdog_round-Keeps link now c v =
    (record { off_before = v.off_before; auto = v.auto }, omega arith)

turned_off-some :
    (o last : Option Bool) → o ≡ some false → (last ≡ some false) ⊎ (turned_off o last ≡ true)
turned_off-some o last h = ground arith

accept_status_off :
    (link : Link) (now : ℕ) (d : DeviceStatus) (c : Coordinator)
    → d.power ≡ some false
    → (c.previous_on ≡ some false) ⊎ ((accept_status link now d c).last_off ≡ now)
unfolding accept_status
accept_status_off link now d c off = elim (turned_off-some d.power c.previous_on off) [
  | inl same ↦ inl same
  | inr turned ↦ inr (rw turned)
]

on_status_in_order :
    (link : Link) (now : ℕ) (d : DeviceStatus) (c : Coordinator)
    → is_foreign link d c ≡ false
    → is_out_of_order d (enter_session now d c) ≡ false
    → on_status link now d c ≡ accept_status link now d (enter_session now d c)
unfolding on_status
on_status_in_order link now d c ours due = rw (ours, due)

-- A report of the current link that is in order becomes the data of the entities, and where it says
-- off while the last one of its session did not, it dates the time off.
pub on_status_reports :
    (link : Link) (now : ℕ) (d : DeviceStatus) (c : Coordinator)
    → is_foreign link d c ≡ false
    → is_out_of_order d (enter_session now d c) ≡ false
    → ((on_status link now d c).report ≡ report_of d)
      × (d.power ≡ some false
          → ((enter_session now d c).previous_on ≡ some false)
            ⊎ ((on_status link now d c).last_off ≡ now))
on_status_reports link now d c ours due =
    rw (on_status_in_order link now d c ours due)
      (unfold accept_status in refl, accept_status_off link now d (enter_session now d c))

expire-All : (now : ℕ) (d : Dict LocalPendingCommand) → All (λ e. now < e.1.deadline) (expire now d)
expire-All now [] = tt
expire-All now ((key, p) ∷ d) = ground (arith, expire-All now d)

pub expire_keeps :
    (now : ℕ) (key : String) (p : LocalPendingCommand) (d : Dict LocalPendingCommand)
    → lookup key d ≡ some p
    → now < p.deadline
    → lookup key (expire now d) ≡ some p
unfolding lookup
expire_keeps now key p [] e h = cc
expire_keeps now key p ((k, q) ∷ d) e h = ground (arith, expire_keeps now key p d)

expire-absent :
    (now : ℕ) (key : String) (d : Dict LocalPendingCommand)
    → lookup key d ≡ none
    → lookup key (expire now d) ≡ none
unfolding lookup
expire-absent now key [] h = refl
expire-absent now key ((k, q) ∷ d) h = ground (arith, expire-absent now key d)

expire-lookup :
    (now : ℕ) (key : String) (d : Dict LocalPendingCommand)
    → IsDict d
    → lookup key (expire now d) ≡ unexpired now (lookup key d)
unfolding lookup
expire-lookup now key [] h = refl
expire-lookup now key ((k, q) ∷ d) (new, rest) = elim (Bool-cases (k =s key)) [
  | inl same ↦
      let gone : lookup key (expire now d) ≡ none =
        expire-absent now key d
          (subst (λ (x : String). lookup x d ≡ none) (same_key k key same) new) in
      ground arith
  | inr other ↦
      let same : lookup key (expire now d) ≡ unexpired now (lookup key d) =
        expire-lookup now key d rest in
      ground arith
]

-- Whether the entry of a key has expired.
abbrev pub has_expired : ℕ → Option LocalPendingCommand → Bool
has_expired now none = false
has_expired now (some p) = leb p.deadline now

expires_key-absent :
    (now : ℕ) (key : String) (d : Dict LocalPendingCommand)
    → lookup key d ≡ none
    → expires_key now key d ≡ false
unfolding lookup
expires_key-absent now key [] h = refl
expires_key-absent now key ((k, q) ∷ d) h =
    ground (arith, eq_iff k key, eq_iff key k, expires_key-absent now key d)

expires_key-lookup :
    (now : ℕ) (key : String) (d : Dict LocalPendingCommand)
    → IsDict d
    → expires_key now key d ≡ has_expired now (lookup key d)
unfolding lookup
expires_key-lookup now key [] h = refl
expires_key-lookup now key ((k, q) ∷ d) (new, rest) = elim (Bool-cases (k =s key)) [
  | inl same ↦
      let gone : expires_key now key d ≡ false =
        expires_key-absent now key d
          (subst (λ (x : String). lookup x d ≡ none) (same_key k key same) new) in
      ground (arith, eq_iff k key, eq_iff key k)
  | inr other ↦
      let same : expires_key now key d ≡ has_expired now (lookup key d) =
        expires_key-lookup now key d rest in
      ground (arith, eq_iff k key, eq_iff key k)
]

-- A round of the watchdog leaves only commands with time left, and of every key exactly the command
-- that has time left, none where it has expired; and the feedback of the last command is the one of a
-- command that was not observed if the entry of its field has expired, and as it was if not. It
-- holds where the pending commands have one entry for a key.
pub watchdog_round-pending :
    (link : Link) (now : ℕ) (c : Coordinator) (f : LocalCommandFeedback)
    → IsDict c.pending
    → c.last_command ≡ some f
    → All (λ e. now < e.1.deadline) (watchdog_round link now c).pending
      × ((key : String)
          → lookup key (watchdog_round link now c).pending ≡ unexpired now (lookup key c.pending))
      × ((watchdog_round link now c).last_command
          ≡ some (
              if has_expired now (lookup f.field c.pending)
              then record f { status = FeedbackStatus.not_observed }
              else f))
unfolding watchdog_round
watchdog_round-pending link now c f keyed last = (
  expire-All now c.pending,
  λ key. expire-lookup now key c.pending keyed,
  rw (last, expires_key-lookup now f.field c.pending keyed) refl,
)

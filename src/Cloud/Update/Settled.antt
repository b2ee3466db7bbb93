-- ===== src/Cloud/Update/Settled.antt =====
-- Which pending commands a poll settles, and when it says that the device reported one.
use mathlib.Core.List.{Memᴰ}
use text.Mathlib.TextPositions.{eq_refl}
use alorair_home_assistant.Base.{
  ℕ, ◌≡◌, ◌⊎◌, refl, sym, ap, ◌∙◌, subst, inl, inr, List, [], ◌∷◌, Bool, true, false, ◌&&◌, ◌||◌,
  Option, none, some, leb, ok, if◌then◌else◌, Bool-cases, Option-cases, String, arith,
}
use alorair_home_assistant.Base.Dict.{Dict, IsDict, lookup, lookup-erase, same_key, ◌=s◌}
use alorair_home_assistant.Api.Json.{Fields}
use alorair_home_assistant.Cloud.Readings.{Floats, powered, utc_sample}
use alorair_home_assistant.Cloud.State.{
  AlorairCoordinator, CommandFeedback, FeedbackStatus, PendingCommand,
}
use alorair_home_assistant.Cloud.Update.{
  auto_humidity, is_feedback_of, is_newer, observe_power, matches, miss, report_at, settle,
  settle_all, update_data,
}

module _ (floats : Floats) (fromisoformat : List ℕ → Option ℕ) (now : ℕ) (fields : Fields) where
  -- A sample that is newer than the command has what the command wants.
  abbrev pub is_confirmed : String → PendingCommand → Bool
  is_confirmed key p =
      matches floats fromisoformat key p fields && is_newer (utc_sample fromisoformat fields) p

  -- What a poll leaves of a pending command.
  abbrev pub remaining : String → Option PendingCommand → Option PendingCommand
  remaining key none = none
  remaining key (some p) = if is_confirmed key p || leb p.deadline now then none else some p

  abbrev settled : String → Option PendingCommand → Option PendingCommand → Option PendingCommand
  settled key none o = o
  settled key (some p) o = if is_confirmed key p || leb p.deadline now then none else o

  settle-lookup :
      (key k : String) (p : PendingCommand) (c : AlorairCoordinator)
      → lookup key (settle floats fromisoformat now fields k p c).pending
        ≡ (if k =s key then settled k (some p) (lookup key c.pending) else lookup key c.pending)
  unfolding settle
  settle-lookup key k p c = ground (arith, lookup-erase k key c.pending)

  first_lookup :
      (k : String) (p : PendingCommand) (rest : Dict PendingCommand) (c : AlorairCoordinator)
      → lookup k
          (settle_all floats fromisoformat now fields rest
            (settle floats fromisoformat now fields k p c)).pending
        ≡ settled k
            (lookup k rest)
            (lookup k (settle floats fromisoformat now fields k p c).pending)
      → lookup k rest ≡ none
      → lookup k
          (settle_all floats fromisoformat now fields rest
            (settle floats fromisoformat now fields k p c)).pending
        ≡ settled k (lookup k ((k, p) ∷ rest)) (lookup k c.pending)
  unfolding lookup
  first_lookup k p rest c e new = rw (e, new, settle-lookup k k p c, eq_refl k) refl

  settle_all-lookup :
      (key : String) (rest : Dict PendingCommand) (c : AlorairCoordinator)
      → IsDict rest
      → lookup key (settle_all floats fromisoformat now fields rest c).pending
        ≡ settled key (lookup key rest) (lookup key c.pending)
  unfolding settle_all
  settle_all-lookup key [] c h = unfold lookup in refl
  settle_all-lookup key ((k, p) ∷ rest) c (new, h) = elim (Bool-cases (k =s key)) [
    | inl same ↦
        subst
          (λ (x : String).
            lookup x
              (settle_all floats fromisoformat now fields rest
                (settle floats fromisoformat now fields k p c)).pending
            ≡ settled x (lookup x ((k, p) ∷ rest)) (lookup x c.pending))
          (same_key k key same) (first_lookup k p rest c (settle_all-lookup k rest _ h) new)
    | inr other ↦
        rw
          (
            settle_all-lookup key rest (settle floats fromisoformat now fields k p c) h,
            settle-lookup key k p c,
            other,
          )
          (unfold lookup in rw other refl)
  ]

  settled_self : (key : String) (o : Option PendingCommand) → settled key o o ≡ remaining key o
  settled_self key none = refl
  settled_self key (some p) = refl

  -- The state that a poll finds before it settles the pending commands.
  abbrev pub observed : Bool → AlorairCoordinator → AlorairCoordinator
  observed on c = record (observe_power floats fromisoformat now on c) {
    last_auto_humidity = auto_humidity floats fromisoformat fields c.last_auto_humidity;
  }

  pub polled :
      (c : AlorairCoordinator) (on : Bool)
      → powered fields ≡ some on
      → (update_data floats fromisoformat now (ok fields) c).1
        ≡ record (settle_all floats fromisoformat now fields c.pending (observed on c)) {
          fields = fields;
          last_update_success = true;
        }
  unfolding update_data
  polled c on e = rw (e, update_data) refl

  pub unpolled :
      (c : AlorairCoordinator)
      → powered fields ≡ none
      → (update_data floats fromisoformat now (ok fields) c).1
        ≡ record c { last_update_success = false }
  unfolding update_data
  unpolled c e = rw (e, update_data) refl

  -- A poll that finds the power settles exactly the pending commands that a newer sample confirms and
  -- those that have expired, and leaves every other one as it was, if no key has two entries.
  pub update_data-pending :
      (c : AlorairCoordinator) (on : Bool) (key : String)
      → IsDict c.pending
      → powered fields ≡ some on
      → lookup key (update_data floats fromisoformat now (ok fields) c).1.pending
        ≡ remaining key (lookup key c.pending)
  update_data-pending c on key d e =
      rw (polled c on e)
        (settle_all-lookup key c.pending _ d ∙ settled_self key (lookup key c.pending))

  -- Why a feedback may say that the device reported the command: the one before did, or a pending
  -- command of its field and its time is confirmed.
  abbrev pub IsCaused : Dict PendingCommand → Option CommandFeedback → CommandFeedback → Type 0
  IsCaused d before f =
      ((g : CommandFeedback) × (before ≡ some g) × (g.status ≡ FeedbackStatus.device_reported))
      ⊎ ((key : String) × (p : PendingCommand) × Memᴰ (key, p) d
          × (is_feedback_of key p f ≡ true)
          × (is_confirmed key p ≡ true))

  abbrev IsReported : Dict PendingCommand → Option CommandFeedback → Option CommandFeedback → Type 0
  IsReported d before after =
      (f : CommandFeedback)
      → after ≡ some f
      → f.status ≡ FeedbackStatus.device_reported
      → IsCaused d before f

  report_at-IsReported :
      (d : Dict PendingCommand) (before o : Option CommandFeedback) (key : String)
      (p : PendingCommand)
      → Memᴰ (key, p) d
      → is_confirmed key p ≡ true
      → IsReported d before o
      → IsReported d before (report_at key p (utc_sample fromisoformat fields) o)
  report_at-IsReported d before none key p m good h f e s = cc
  report_at-IsReported d before (some g) key p m good h f e s =
      elim (Bool-cases (is_feedback_of key p g)) [
        | inl own ↦
            let same : record g {
              status = FeedbackStatus.device_reported;
              reported_at = utc_sample fromisoformat fields;
            }
                ≡ f =
              cc (rw own at e) in
            inr (
              key,
              p,
              m,
              subst (λ (x : CommandFeedback). is_feedback_of key p x ≡ true) same own,
              good,
            )
        | inr other ↦ h f (rw other at e) s
      ]

  miss-IsReported :
      (d : Dict PendingCommand) (before o : Option CommandFeedback) (key : String)
      (p : PendingCommand)
      → IsReported d before o
      → IsReported d before (miss key p o)
  miss-IsReported d before none key p h f e s = cc
  miss-IsReported d before (some g) key p h f e s = elim (Bool-cases (is_feedback_of key p g)) [
    | inl own ↦
        let same : record g { status = FeedbackStatus.not_observed } ≡ f = cc (rw own at e) in
        cc (ap (λ (x : CommandFeedback). x.status) same ∙ s)
    | inr other ↦ h f (rw other at e) s
  ]

  settle-IsReported :
      (d : Dict PendingCommand) (before : Option CommandFeedback) (key : String)
      (p : PendingCommand) (c : AlorairCoordinator)
      → Memᴰ (key, p) d
      → IsReported d before c.last_command
      → IsReported d before (settle floats fromisoformat now fields key p c).last_command
  unfolding settle
  settle-IsReported d before key p c m h = elim (Bool-cases (is_confirmed key p)) [
    | inl good ↦ rw good (report_at-IsReported d before c.last_command key p m good h)
    | inr bad ↦ elim (Bool-cases (leb p.deadline now)) [
      | inl late ↦ rw (bad, late) (miss-IsReported d before c.last_command key p h)
      | inr early ↦ rw (bad, early) h
    ]
  ]

  settle_all-IsReported :
      (d : Dict PendingCommand) (before : Option CommandFeedback) (rest : Dict PendingCommand)
      (c : AlorairCoordinator)
      → ((e : String × PendingCommand) → Memᴰ e rest → Memᴰ e d)
      → IsReported d before c.last_command
      → IsReported d before (settle_all floats fromisoformat now fields rest c).last_command
  unfolding settle_all
  settle_all-IsReported d before [] c m h = h
  settle_all-IsReported d before ((key, p) ∷ rest) c m h =
      settle_all-IsReported d before rest (settle floats fromisoformat now fields key p c)
        (λ e i. m e (Memᴰ.tail i))
        (settle-IsReported d before key p c (m (key, p) (Memᴰ.head refl)) h)

  update_data-IsReported :
      (c : AlorairCoordinator)
      → IsReported c.pending c.last_command
          (update_data floats fromisoformat now (ok fields) c).1.last_command
  update_data-IsReported c = elim (Option-cases (powered fields)) [
    | inl unknown ↦
        subst (λ (x : AlorairCoordinator). IsReported c.pending c.last_command x.last_command)
          (sym (unpolled c unknown)) (λ f e s. inl (f, e, s))
    | inr (on, known) ↦
        subst (λ (x : AlorairCoordinator). IsReported c.pending c.last_command x.last_command)
          (sym (polled c on known))
          (settle_all-IsReported c.pending c.last_command c.pending (observed on c) (λ e m. m)
            (λ f e s. inl (f, e, s)))
  ]

  -- A poll shows the last command as reported by the device only if it was shown so before, or if
  -- a pending command of its field and its time is confirmed by a sample that was taken after the
  -- command was issued and that is newer than the last one then.
  pub update_data-IsCaused :
      (c : AlorairCoordinator) (f : CommandFeedback)
      → (update_data floats fromisoformat now (ok fields) c).1.last_command ≡ some f
      → f.status ≡ FeedbackStatus.device_reported
      → IsCaused c.pending c.last_command f
  update_data-IsCaused c f e s = update_data-IsReported c f e s

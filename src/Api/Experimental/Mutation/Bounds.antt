-- ===== src/Api/Experimental/Mutation/Bounds.antt =====
-- How many requests of a change may change anything.
use alorair_home_assistant.Base.{
  ℕ, ◌+◌, ◌≤◌, List, [], ◌∷◌, length, Bool, true, false, not, ◌&&◌, if◌then◌else◌, arith,
}
use alorair_home_assistant.Api.Json.{Fields, Json, get}
use alorair_home_assistant.Api.Identity.{ApiError, identifier, normalize_mac}
use alorair_home_assistant.Api.Request.{CloudPath, Method}
use alorair_home_assistant.Api.Client.{Action, Vendor, World, raise}
use alorair_home_assistant.Api.Client.Requests.{
  Sends, Sends-bind, Sends-catch, Sends-give, Sends-le, Sends-request, Sends-self, count,
}
use alorair_home_assistant.Api.Control.Once.{change-Costs, is_change}
use alorair_home_assistant.Api.Devices.{as_text, owned_device}
use alorair_home_assistant.Api.Devices.Bounds.{owned_device-Sends}
use alorair_home_assistant.Api.Experimental.Filters.{Filter, Python, below}
use alorair_home_assistant.Api.Experimental.Mutation.{
  Mutation, Requests, doubted, equal, experimental_change, experimental_mutation, extend_requests,
  has_life, location_requests, rename_requests, send_all, show_filter, show_label,
}
use alorair_home_assistant.Api.Experimental.Mutation.Acknowledged.{find_filter-Sends}

doubted-Sends :
    {A : Type 0} (acknowledged : Bool) (n : ℕ) (m : Action A)
    → Sends is_change n m
    → Sends is_change n (doubted acknowledged m)
doubted-Sends true n m s =
    Sends-le is_change _ (n + 0) n (omega arith) (
      Sends-catch is_change m (λ e. raise (ApiError.command true)) n 0 s
        λ e. Sends-give is_change _)
doubted-Sends false n m s = s

send_all-Sends :
    {A : Type 0} (vendor : Vendor) (acknowledged : Bool) (requests : Requests) (finish : Action A)
    → Sends is_change 0 finish
    → Sends is_change (length requests) (send_all vendor acknowledged requests finish)
unfolding send_all
send_all-Sends vendor acknowledged [] finish s = doubted-Sends acknowledged 0 finish s
send_all-Sends vendor acknowledged ((path, payload) ∷ more) finish s =
    Sends-le is_change _ (0 + (1 + length more)) (length ((path, payload) ∷ more)) (omega arith) (
      Sends-bind is_change _ _ _ _ (Sends-self is_change) λ c.
        Sends-bind is_change _ _ _ _
          (doubted-Sends acknowledged 1 _ (
            Sends-le is_change _ _ 1 (ground arith)
              (Sends-request is_change vendor Method.writing path c.token payload)))
          λ answer. send_all-Sends vendor true more finish s)

module _ (py : Python) (vendor : Vendor) where
  owned-Sends : (mac : Json) → Sends is_change 0 (owned_device vendor mac)
  owned-Sends = owned_device-Sends is_change 0 change-Costs vendor

  show_label-Sends :
      (mac : Json) (field : Fields → Json) (label : List ℕ)
      → Sends is_change 0 (show_label py vendor mac field label)
  show_label-Sends mac field label =
      Sends-bind is_change _ _ 0 0 (owned-Sends mac) λ feedback. Sends-give is_change _

  show_filter-Sends :
      (mac : Json) (filter_id : List ℕ) (test : Filter py → Bool)
      → Sends is_change 0 (show_filter py vendor mac filter_id test)
  show_filter-Sends mac filter_id test = Sends-bind is_change _ _ 0 0 (owned-Sends mac) λ feedback.
      Sends-bind is_change _ _ 0 0 (find_filter-Sends vendor py feedback filter_id)
        λ f. Sends-give is_change _

  unless-Sends :
      {A : Type 0} (stop : Bool) (n : ℕ) (m : Action A)
      → Sends is_change n m
      → Sends is_change n (if stop then raise (ApiError.command false) else m)
  unless-Sends true n m s = Sends-le is_change _ 0 n (omega arith) (Sends-give is_change _)
  unless-Sends false n m s = s

  mutation-Sends :
      (mac : Json) (change : Mutation) (detail : Fields)
      → Sends is_change 2 (experimental_mutation py vendor mac change detail)
  unfolding experimental_mutation
  mutation-Sends mac (Mutation.rename label) detail =
      send_all-Sends vendor false (rename_requests label detail) _
        (show_label-Sends mac (get "name") label)
  mutation-Sends mac (Mutation.location label) detail = Sends-le is_change _ 1 2 (omega arith) (
      send_all-Sends vendor false (location_requests label detail) _
        (show_label-Sends mac (get "location") label))
  mutation-Sends mac (Mutation.extend_filter filter_id extension) detail =
      Sends-le is_change _ (0 + 1) 2 (omega arith) (
        Sends-bind is_change _ _ 0 1 (find_filter-Sends vendor py detail filter_id) λ before.
          unless-Sends (has_life py vendor before) 1 _ (
            send_all-Sends vendor false (extend_requests filter_id extension detail) _ (
              show_filter-Sends mac filter_id
                (λ f. not (equal py vendor f.extension_hours before.extension_hours)))))
  mutation-Sends mac (Mutation.reset_filter filter_id) detail =
      Sends-le is_change _ (0 + (0 + 1)) 2 (omega arith) (
        Sends-bind is_change _ _ 0 _ (find_filter-Sends vendor py detail filter_id) λ before.
          Sends-bind is_change _ _ 0 1 (Sends-give is_change (identifier (get "id" detail)))
            λ device_id.
              send_all-Sends vendor false
                ((CloudPath.reset_filter device_id filter_id, Fields.end) ∷ []) _
                (show_filter-Sends mac filter_id (λ f.
                  below py (py.whole 0) before.used_hours
                  && equal py vendor f.used_hours (py.whole 0))))

  -- An experimental change sends at most two requests that change anything, a rename's two, whatever
  -- the vendor answers and however the exchanges end.
  pub experimental_change_bound :
      (mac : Json) (change : Mutation) (w : World)
      → count is_change (experimental_change py vendor mac change w).1.sent
        ≤ count is_change w.sent + 2
  unfolding experimental_change
  experimental_change_bound mac change =
      (Sends-bind is_change _ _ 0 2 (Sends-give is_change (as_text (normalize_mac mac))) λ target.
        Sends-bind is_change _ _ 0 2 (owned-Sends target)
          λ detail. mutation-Sends target change detail).bound

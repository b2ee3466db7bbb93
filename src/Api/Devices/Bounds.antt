-- ===== src/Api/Devices/Bounds.antt =====
-- How many requests the calls on devices send at most.
use alorair_home_assistant.Base.{
  ℕ, zero, suc, ◌+◌, ◌*◌, ◌≤◌, [], Bool, true, false, Option, none, some, leb, if◌then◌else◌, arith,
}
use alorair_home_assistant.Api.Json.{Json, Fields, get}
use alorair_home_assistant.Api.Identity.{identifier, normalize_mac}
use alorair_home_assistant.Api.Request.{CloudPath}
use alorair_home_assistant.Api.Client.{Action, Sent, Vendor, World}
use alorair_home_assistant.Api.Client.Requests.{
  Sends, Sends-bind, Sends-give, Sends-le, Sends-self, Sends-update, count,
}
use alorair_home_assistant.Api.Login.Bounds.{Costs, any, any-Costs, async_login-Sends, read-Sends}
use alorair_home_assistant.Api.Devices.{
  Directory, add_rows, as_text, check_detail, check_owner, device_detail, fetch_devices,
  fetch_pages, find, found_or_raise, hold_devices, is_known, max_pages, owned_device, page_of,
  page_query, refetch, resolve,
}

module _ (kind : Sent → Bool) (k : ℕ) (costs : Costs kind k) (vendor : Vendor) where
  Sends-if :
      {A : Type 0} (b : Bool) (m n : Action A) (i : ℕ)
      → Sends kind i m
      → Sends kind i n
      → Sends kind i (if b then m else n)
  Sends-if true m n i s t = s
  Sends-if false m n i s t = t

  pages-Sends :
      (rounds page : ℕ) (devices : Directory)
      → Sends kind (rounds * (6 * k)) (fetch_pages rounds vendor page devices)
  unfolding fetch_pages
  pages-Sends zero page devices = Sends-le kind _ 0 _ (omega arith) (Sends-give kind _)
  pages-Sends (suc rounds) page devices =
      Sends-le kind _ (6 * k + (0 + (0 + (0 + rounds * (6 * k))))) (suc rounds * (6 * k))
        (grind arith)
        (Sends-bind kind _ _ _ _
          (read-Sends kind k costs vendor CloudPath.device_list (page_query page))
          λ answer. Sends-bind kind _ _ 0 _ (Sends-give kind (page_of answer)) λ entries.
            Sends-bind kind _ _ 0 _ (Sends-self kind) λ c.
              Sends-bind kind _ _ 0 _ (Sends-give kind (add_rows c.owner_id entries.1 devices))
                λ more.
                  Sends-if (leb entries.0 page) _ _ _
                    (Sends-le kind _ 0 _ (omega arith) (Sends-give kind _))
                    (pages-Sends rounds (page + 1) more))

  refetch-Sends : Sends kind (600 * k) (refetch vendor)
  unfolding fetch_devices
  refetch-Sends = Sends-le kind _ (max_pages * (6 * k) + 0) (600 * k) (omega arith) (
      Sends-bind kind _ _ _ 0 (pages-Sends max_pages 1 [])
        λ found. Sends-update kind (hold_devices found))

  found-Sends : (o : Option Fields) → Sends kind 0 (found_or_raise o)
  found-Sends none = Sends-give kind _
  found-Sends (some d) = Sends-give kind _

  resolve-Sends : (mac : Json) → Sends kind (602 * k) (resolve vendor mac)
  unfolding resolve
  resolve-Sends mac =
      Sends-le kind _ (0 + (2 * k + (0 + (600 * k + (0 + 0))))) (602 * k) (omega arith) (
        Sends-bind kind _ _ 0 _ (Sends-give kind (normalize_mac mac)) λ target.
          Sends-bind kind _ _ (2 * k) _ (async_login-Sends kind k costs vendor) λ u.
            Sends-bind kind _ _ 0 _ (Sends-self kind) λ c.
              Sends-bind kind _ _ (600 * k) _
                (Sends-if (is_known (find target c.devices)) _ _ _
                  (Sends-le kind _ 0 _ (omega arith) (Sends-give kind _)) refetch-Sends)
                λ u.
                  Sends-bind kind _ _ 0 _ (Sends-self kind)
                    λ c'. found-Sends (find target c'.devices))

  detail-Sends : (device : Fields) → Sends kind (6 * k) (device_detail vendor device)
  unfolding device_detail
  detail-Sends device = Sends-le kind _ (0 + (6 * k + 0)) (6 * k) (omega arith) (
      Sends-bind kind _ _ 0 _ (Sends-give kind (identifier (get "id" device))) λ device_id.
        Sends-bind kind _ _ _ 0 (read-Sends kind k costs vendor _ Fields.end)
          λ answer. Sends-give kind (check_detail device_id device answer))

  pub owned_device-Sends : (mac : Json) → Sends kind (608 * k) (owned_device vendor mac)
  unfolding owned_device
  owned_device-Sends mac =
      Sends-le kind _ (0 + (602 * k + (6 * k + (0 + (0 + 0))))) (608 * k) (omega arith) (
        Sends-bind kind _ _ 0 _ (Sends-give kind (as_text (normalize_mac mac))) λ target.
          Sends-bind kind _ _ _ _ (resolve-Sends target) λ device.
            Sends-bind kind _ _ _ _ (detail-Sends device) λ detail.
              Sends-bind kind _ _ 0 _ (Sends-self kind) λ c.
                Sends-bind kind _ _ 0 _ (Sends-give kind (check_owner c.owner_id detail))
                  λ u. Sends-give kind _)

-- Finding an owned device sends at most 608 requests, whatever the vendor answers: two of a login,
-- and six at most for each of the 100 pages and for the detail.
pub owned_device_bound :
    (vendor : Vendor) (mac : Json) (w : World)
    → count any (owned_device vendor mac w).1.sent ≤ count any w.sent + 608
owned_device_bound vendor mac w = (owned_device-Sends any 1 any-Costs vendor mac).bound w

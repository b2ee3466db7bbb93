-- ===== src/Api/Devices/Ownership.antt =====
-- A device that the client goes on with is the one that was asked for, and the account's own.
use alorair_home_assistant.Base.{
  ℕ, zero, suc, ◌+◌, ◌≡◌, refl, sym, ◌∙◌, ap, subst, List, [], bytes_eq, bytes_eq→eq, Bool, true,
  false, not, Option, none, some, leb, if◌then◌else◌, Result, ok, err,
}
use alorair_home_assistant.Api.Json.{Json, Fields, get, has_key}
use alorair_home_assistant.Api.Identity.{
  ApiError, device_identity, device_mac, identifier, normalize_mac,
}
use alorair_home_assistant.Api.Identity.Canonical.{normalize_mac_idem}
use alorair_home_assistant.Api.Request.{CloudPath}
use alorair_home_assistant.Api.Client.{ApiClient, Vendor, World}
use alorair_home_assistant.Api.Client.Triple.{
  Ends, Triple, Triple-bind, Triple-give, Triple-given, Triple-return, Triple-if, Triple-self,
  Triple-update, Triple-weaken,
}
use alorair_home_assistant.Api.Login.Triples.{
  IsSteady, Keeps, Keeps-give, Keeps-if, Keeps-self, async_login-Keeps, read-Keeps,
}
use alorair_home_assistant.Api.Devices.{
  Directory, add_rows, as_text, check_detail, check_owner, device_detail, fetch_devices,
  fetch_pages, find, found_or_raise, hold_devices, is_known, is_null, is_owner, max_pages,
  owned_device, page_of, refetch, require, resolve, then_check, with_id,
}
use alorair_home_assistant.Api.Devices.Directory.{
  IsDirectory, IsIndexed, add_rows-IsDirectory, find-IsDirectory, require-eq-ok, then_check-eq-ok,
}

steady : IsSteady IsIndexed
steady = record {
  forgotten = λ c. tt;
  owner = λ uid c h. h;
  token = λ token c h. h;
  failure = λ e c h. h;
  generation = λ c h. h;
}

found-Ends :
    (R : Fields → Type 0) (o : Option Fields) (w : World)
    → IsIndexed w.client
    → ((d : Fields) → o ≡ some d → R d)
    → Ends IsIndexed (λ d c. R d × IsIndexed c) (found_or_raise o w).0 (found_or_raise o w).1.client
found-Ends R none w v h = v
found-Ends R (some d) w v h = (h d refl, v)

same_mac :
    (a b : Json) (number : List ℕ)
    → device_identity a ≡ ok number
    → device_identity b ≡ ok number
    → device_mac a ≡ device_mac b
unfolding device_mac
same_mac a b number p q = rw (p, q, device_mac) refl

checked_id :
    (device_id : List ℕ) (fields detail : Fields) (b : Bool)
    → (if b
        then then_check
            (identifier (get "id" fields))
            (λ found_id. require (bytes_eq found_id device_id) (ok fields))
        else ok fields)
      ≡ ok detail
    → fields ≡ detail
checked_id device_id fields detail true h =
    let (found_id, here, h₁) = then_check-eq-ok (identifier (get "id" fields)) _ h in
    let (equal, same) = require-eq-ok (bytes_eq found_id device_id) _ h₁ in cc
checked_id device_id fields detail false h = cc

check_detail_number :
    (device_id : List ℕ) (device : Fields) (answer : Json) (detail : Fields)
    → check_detail device_id device answer ≡ ok detail
    → device_mac (get "deviceNum" detail) ≡ device_mac (get "deviceNum" device)
unfolding check_detail
check_detail_number device_id device (Json.obj fields) detail h =
    let (found, here, h₁) = then_check-eq-ok (device_identity (get "deviceNum" fields)) _ h in
    let (number, there, h₂) = then_check-eq-ok (device_identity (get "deviceNum" device)) _ h₁ in
    let (equal, h₃) = require-eq-ok (bytes_eq found number) _ h₂ in
    let same : fields ≡ detail = checked_id device_id fields detail (has_key "id" fields) h₃ in
    let agreed : device_identity (get "deviceNum" fields) ≡ ok number =
      here ∙ ap ok (bytes_eq→eq found number equal) in
    subst (λ (d : Fields). device_mac (get "deviceNum" d) ≡ device_mac (get "deviceNum" device))
      same (same_mac (get "deviceNum" fields) (get "deviceNum" device) number agreed there)
check_detail_number device_id device Json.null detail h = cc
check_detail_number device_id device (Json.float b) detail h = cc
check_detail_number device_id device (Json.bool b) detail h = cc
check_detail_number device_id device (Json.int b) detail h = cc
check_detail_number device_id device (Json.str b) detail h = cc
check_detail_number device_id device (Json.arr b) detail h = cc

-- The device has the address that was asked for, and its user is the account that is logged in.
pub record IsOwned (mac : Json) (device : Fields) (c : ApiClient) : Type 0 where
  pub target : List ℕ
  pub asked : normalize_mac mac ≡ ok target
  pub located : device_mac (get "deviceNum" device) ≡ ok target
  pub uid : List ℕ
  pub user : identifier (get "userId" device) ≡ ok uid
  pub holder : c.owner_id ≡ some uid

is_owner-eq :
    (owner : Option (List ℕ)) (uid : List ℕ) → is_owner owner uid ≡ true → owner ≡ some uid
is_owner-eq none uid h = cc
is_owner-eq (some o) uid h = ap some (sym (bytes_eq→eq uid o h))

as_text-eq-ok :
    (r : Result ApiError (List ℕ)) (text : Json)
    → as_text r ≡ ok text
    → (cs : List ℕ) × (r ≡ ok cs) × (Json.str cs ≡ text)
as_text-eq-ok (ok cs) text h = (cs, refl, cc)
as_text-eq-ok (err e) text h = cc

check_owner-eq-ok :
    (owner : Option (List ℕ)) (detail : Fields)
    → check_owner owner detail ≡ ok tt
    → (uid : List ℕ) × (identifier (get "userId" detail) ≡ ok uid) × (owner ≡ some uid)
unfolding check_owner
check_owner-eq-ok owner detail h =
    let (present, h₁) = require-eq-ok (not (is_null (get "userId" detail))) _ h in
    let (uid, named, h₂) = then_check-eq-ok (identifier (get "userId" detail)) _ h₁ in
    let (mine, u) = require-eq-ok (is_owner owner uid) _ h₂ in
    (uid, named, is_owner-eq owner uid mine)

get-with_id :
    (device detail : Fields)
    → (get "userId" (with_id device detail) ≡ get "userId" detail)
      × (get "deviceNum" (with_id device detail) ≡ get "deviceNum" detail)
unfolding get
get-with_id device detail = (refl, refl)

owned_lem :
    (mac target : Json) (device detail : Fields) (c : ApiClient)
    → as_text (normalize_mac mac) ≡ ok target
    → (t : List ℕ) × (normalize_mac target ≡ ok t) × (device_mac (get "deviceNum" device) ≡ ok t)
    → device_mac (get "deviceNum" detail) ≡ device_mac (get "deviceNum" device)
    → check_owner c.owner_id detail ≡ ok tt
    → IsOwned mac (with_id device detail) c
owned_lem mac target device detail c asked (t, named, located) same checked =
    let (cs, canonical, spelled) = as_text-eq-ok (normalize_mac mac) target asked in
    let again : ok cs ≡ ok t =
      sym (normalize_mac_idem mac cs canonical) ∙ ap normalize_mac spelled ∙ named in
    let (uid, user, account) = check_owner-eq-ok c.owner_id detail checked in
    let (users, numbers) = get-with_id device detail in
    record {
      target = t;
      asked = canonical ∙ again;
      located = ap device_mac numbers ∙ same ∙ located;
      uid = uid;
      user = ap identifier users ∙ user;
      holder = account;
    }

module _ (vendor : Vendor) where
  fetch_pages-Triple :
      (rounds page : ℕ) (devices : Directory)
      → IsDirectory devices
      → Triple IsIndexed IsIndexed
          (λ found c. IsDirectory found × IsIndexed c)
          (fetch_pages rounds vendor page devices)
  unfolding fetch_pages
  fetch_pages-Triple zero page devices v = record { at = λ w q. q }
  fetch_pages-Triple (suc rounds) page devices v =
      Triple-bind IsIndexed IsIndexed _ _ _ _
        (read-Keeps IsIndexed steady vendor CloudPath.device_list _)
        λ answer.
          Triple-bind IsIndexed IsIndexed _ _ _ _ (Keeps-give IsIndexed (page_of answer)) λ entries.
            Triple-bind IsIndexed IsIndexed _ _ _ _ (Keeps-self IsIndexed) λ c.
              Triple-bind IsIndexed IsIndexed _ _ _ _
                (Triple-give IsIndexed IsIndexed (add_rows c.owner_id entries.1 devices) (λ c h. h))
                λ more.
                  Triple-given IsIndexed (add_rows c.owner_id entries.1 devices ≡ ok more) IsIndexed
                    _ _
                    λ added.
                      let found : IsDirectory more =
                        add_rows-IsDirectory c.owner_id entries.1 devices more v added in
                      Triple-if IsIndexed (leb entries.0 page) IsIndexed _ _ _
                        (λ last. Triple-return IsIndexed IsIndexed _ more (λ c h. (found, h)))
                        (λ go. fetch_pages-Triple rounds (page + 1) more found)

  refetch-Keeps : Keeps IsIndexed (refetch vendor)
  unfolding fetch_devices
  refetch-Keeps =
      Triple-bind IsIndexed IsIndexed _ _ _ _ (fetch_pages-Triple max_pages 1 [] tt)
        λ found. Triple-update IsIndexed _ IsIndexed (hold_devices found) (λ c h. h.0)

  -- The device that `_resolve` gives has the address that was asked for.
  resolve-Triple :
      (mac : Json)
      → Triple IsIndexed IsIndexed
          (λ device c.
            ((target : List ℕ) × (normalize_mac mac ≡ ok target)
              × (device_mac (get "deviceNum" device) ≡ ok target))
            × IsIndexed c)
          (resolve vendor mac)
  unfolding resolve
  resolve-Triple mac =
      Triple-bind IsIndexed IsIndexed _ _ _ _
        (Triple-give IsIndexed IsIndexed (normalize_mac mac) (λ c h. h))
        λ target. Triple-given IsIndexed (normalize_mac mac ≡ ok target) IsIndexed _ _ λ asked.
          Triple-bind IsIndexed IsIndexed _ _ _ _ (async_login-Keeps IsIndexed steady vendor) λ u.
            Triple-bind IsIndexed IsIndexed _ _ _ _ (Keeps-self IsIndexed) λ c.
              Triple-bind IsIndexed IsIndexed _ _ _ _
                (Keeps-if IsIndexed (is_known (find target c.devices)) _ _
                  (Keeps-give IsIndexed (ok tt)) refetch-Keeps)
                λ u. Triple-bind IsIndexed IsIndexed _ _ _ _ (Triple-self IsIndexed IsIndexed) λ c'.
                  record {
                    at = λ w q.
                        let v : IsDirectory c'.devices = subst IsIndexed (sym q.0) q.1 in
                        found-Ends _ (find target c'.devices) w q.1
                          (λ d here. (target, asked, find-IsDirectory target c'.devices d v here));
                  }

  -- A detail that is accepted has the number of its device.
  device_detail-Triple :
      (device : Fields)
      → Triple IsIndexed IsIndexed
          (λ detail c.
            (device_mac (get "deviceNum" detail) ≡ device_mac (get "deviceNum" device))
            × IsIndexed c)
          (device_detail vendor device)
  unfolding device_detail
  device_detail-Triple device =
      Triple-bind IsIndexed IsIndexed _ _ _ _ (Keeps-give IsIndexed (identifier (get "id" device)))
        λ device_id.
          Triple-bind IsIndexed IsIndexed _ _ _ _ (read-Keeps IsIndexed steady vendor _ Fields.end)
            λ answer.
              Triple-weaken IsIndexed IsIndexed IsIndexed _ _ _ (λ c h. h)
                (λ detail c h. (check_detail_number device_id device answer detail h.0, h.1))
                (Triple-give IsIndexed IsIndexed (check_detail device_id device answer) (λ c h. h))

  owned_device-Triple :
      (mac : Json)
      → Triple IsIndexed IsIndexed
          (λ device c. IsOwned mac device c × IsIndexed c)
          (owned_device vendor mac)
  unfolding owned_device
  owned_device-Triple mac =
      Triple-bind IsIndexed IsIndexed _ _ _ _
        (Triple-give IsIndexed IsIndexed (as_text (normalize_mac mac)) (λ c h. h))
        λ target.
          Triple-given IsIndexed (as_text (normalize_mac mac) ≡ ok target) IsIndexed _ _ λ asked.
            Triple-bind IsIndexed IsIndexed _ _ _ _ (resolve-Triple target) λ device.
              Triple-given IsIndexed _ IsIndexed _ _ λ resolved.
                Triple-bind IsIndexed IsIndexed _ _ _ _ (device_detail-Triple device) λ detail.
                  Triple-given IsIndexed _ IsIndexed _ _ λ same.
                    Triple-bind IsIndexed IsIndexed _ _ _ _ (Triple-self IsIndexed IsIndexed) λ c.
                      Triple-weaken IsIndexed (λ x. (c ≡ x) × IsIndexed x)
                        (λ x. (c ≡ x) × IsIndexed x) _ _ _ (λ x h. h)
                        (λ d x (built, checked, now, indexed). (
                          subst (IsOwned mac d) now (
                              subst (λ (e : Fields). IsOwned mac e c) (sym built)
                                (owned_lem mac target device detail c asked resolved same checked)),
                          indexed,
                        ))
                        (Triple-bind IsIndexed (λ x. (c ≡ x) × IsIndexed x) _ _ _ _
                          (Triple-give IsIndexed (λ x. (c ≡ x) × IsIndexed x)
                            (check_owner c.owner_id detail) (λ x h. h.1))
                          λ u.
                            Triple-return IsIndexed _
                              (λ d x.
                                (d ≡ with_id device detail)
                                × (check_owner c.owner_id detail ≡ ok tt)
                                × (c ≡ x)
                                × IsIndexed x)
                              (with_id device detail) (λ x h. (refl, h.0, h.1.0, h.1.1)))

-- A device that `_owned_device` returns has the address that was asked for, and its user is the
-- account that the client is logged in to, if the client's devices stand under their own addresses
-- before; they do after, also when it raises.
pub owned_device-IsOwned :
    (vendor : Vendor) (mac : Json) (w : World)
    → IsIndexed w.client
    → Ends IsIndexed
        (λ device c. IsOwned mac device c × IsIndexed c)
        (owned_device vendor mac w).0
        (owned_device vendor mac w).1.client
owned_device-IsOwned vendor mac w v = (owned_device-Triple vendor mac).at w v

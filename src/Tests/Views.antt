-- ===== src/Tests/Views.antt =====
-- Runs of apps/iap/views.py, and of the purchases against their specification.
use backend_live_canvas.Prelude.{
  String, ◌≡◌, ◌⊎◌, refl, Bool, true, false, ◌&&◌, and_true, Option, none, some, first, update,
  exists, str_eq, str_eq_iff, truthy, if◌then◌else◌, Bool-cases, inl, inr,
}
use backend_live_canvas.Core.Errors.{Detail, default_detail}
use backend_live_canvas.Core.Exec.{ok, Outcome}
use backend_live_canvas.Core.Text.{strip, lstrip, rstrip}
use backend_live_canvas.Audit.{record_action}
use backend_live_canvas.Iap.Models.{ios, platform_value, status_value, grants_access}
use backend_live_canvas.Iap.Tables.{audit}
use backend_live_canvas.Iap.Verify.{conflicts, guard_conflict, write_entitlement, verify_receipt}
use backend_live_canvas.Iap.Gate.{resolve, resolve_status}
use backend_live_canvas.Iap.Views.{
  Body, CharFields, VerifyReceiptRequest, SubscriptionStatus, read_request, subscription_status,
  post_verify_receipt, get_subscription_status,
}
use backend_live_canvas.Iap.Views.Roundtrip.{Trims, post_verify_receipt-get_status}
use backend_live_canvas.Iap.Notify.{apply_notification}
use backend_live_canvas.Iap.Holdings.{view, deliver}
use backend_live_canvas.Iap.Holdings.Delivered.{apply_notification-deliver}
use backend_live_canvas.Iap.Holdings.Verified.{HasReported, verify_receipt-put}
use backend_live_canvas.Tests.Iap.{
  empty_db, empty_db-IsWellFormed, store, first_row, verified_db, verified_db-IsWellFormed,
  one_platform,
}
use backend_live_canvas.Tests.Notify.{renewal, refunded_db, refunded_db-IsWellFormed}

program : Unit {0}
unfolding str_eq first update exists record_action platform_value status_value grants_access audit
    conflicts guard_conflict write_entitlement verify_receipt resolve resolve_status strip lstrip
    rstrip read_request subscription_status post_verify_receipt get_subscription_status
    default_detail
program = tt

-- A field that takes a text only as it should be.
abbrev exact : String → Option String
exact s = if str_eq (strip s) s && truthy s then some s else none

abbrev read_exact : Bool → Option String → Option String → Option String
read_exact blank d none = d
read_exact true d (some s) = some s
read_exact false d (some s) = exact s

abbrev fields : CharFields
fields = record { read = read_exact; complaint = λ b. Detail.absent }

exact_trims : (s t : String) → exact s ≡ some t → (strip t ≡ t) × (truthy t ≡ true)
exact_trims s t h = elim (Bool-cases (str_eq (strip s) s && truthy s)) [
  | inr e ↦ absurd (cc (rw e at h))
  | inl e ↦
      let (a, b) = and_true (str_eq (strip s) s) (truthy s) e in
      let q : some s ≡ some t = rw e at h in
      let r : s ≡ t = cc in rw (← r) ((str_eq_iff (strip s) s).0 a, b)
]

fields-Trims : Trims fields
fields-Trims none s h = absurd (cc)
fields-Trims (some t) s h = exact_trims t s h

abbrev body : Body
body = record {
  platform = some "ios";
  receipt_data = some "r1";
  transaction_id = some "t1";
  product_id = some "monthly";
  device_id = some "phone";
}

abbrev request : VerifyReceiptRequest
request = record {
  platform = ios;
  receipt_data = "r1";
  transaction_id = "t1";
  product_id = "monthly";
  device_id = "phone";
}

request_read : read_request fields body ≡ some request
unfolding program
request_read = refl

abbrev shown : SubscriptionStatus
shown = subscription_status first_row

posted : post_verify_receipt fields store 10 body empty_db ≡ (ok shown, verified_db)
unfolding program
posted = refl

padded : strip " t1 " ≡ "t1"
unfolding program
padded = refl

post_verify_receipt-get_status_example :
    get_subscription_status (some " t1 ") verified_db ≡ (ok shown, verified_db)
post_verify_receipt-get_status_example =
    post_verify_receipt-get_status fields store 10 body " t1 " empty_db verified_db ios fields-Trims
      empty_db-IsWellFormed request_read padded posted one_platform

apply_notification-deliver_example :
    Outcome
      (λ row db'. view db' ≡ deliver renewal (view refunded_db))
      (λ x db'. db' ≡ refunded_db)
      (apply_notification 90 renewal refunded_db)
apply_notification-deliver_example =
    apply_notification-deliver 90 renewal refunded_db refunded_db-IsWellFormed

verify_receipt-put_example :
    Outcome
      (λ _. HasReported store 20 ios "r1" "t1" "monthly" "phone" verified_db)
      (λ x t.
        (t ≡ verified_db) ⊎ HasReported store 20 ios "r1" "t1" "monthly" "phone" verified_db t)
      (verify_receipt store 20 ios "r1" "t1" "monthly" "phone" verified_db)
verify_receipt-put_example =
    verify_receipt-put store 20 ios "r1" "t1" "monthly" "phone" verified_db verified_db-IsWellFormed

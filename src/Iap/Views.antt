-- ===== src/Iap/Views.antt =====
-- apps/iap/views.py and serializers.py: the endpoints of the purchases. How the framework reads a text
-- field of a body is an argument.
pub mod Roundtrip
use backend_live_canvas.Prelude.{
  ℕ, String, Bool, true, false, Option, none, some, str_eq, truthy, if◌then◌else◌,
}
use backend_live_canvas.Core.Errors.{Exc, AppErrorClass, Detail}
use backend_live_canvas.Core.Exec.{Result, ok, err, Exec, guard, pure, lift, ◌>>=◌, ◌>>◌}
use backend_live_canvas.Core.Text.{strip}
use backend_live_canvas.Iap.Models.{
  IapPlatform, ios, android, EntitlementStatus, SubscriptionEntitlement, StoreSubscription, IapDb,
}
use backend_live_canvas.Iap.Verify.{verify_receipt}
use backend_live_canvas.Iap.Gate.{text_or_empty, resolve_status}
use backend_live_canvas.Iap.Stores.Apple.{Verifier}
use backend_live_canvas.Iap.Stores.Google.{Parsers, ServiceAnswer, Message}
use backend_live_canvas.Iap.Webhook.{process_apple_notification, process_google_notification}

-- The members of a body of POST /iap/verify-receipt, where they are given.
pub record Body : Type 0 where
  pub platform : Option String
  pub receipt_data : Option String
  pub transaction_id : Option String
  pub product_id : Option String
  pub device_id : Option String

-- `VerifyReceiptRequestSerializer.validated_data`
pub record VerifyReceiptRequest : Type 0 where
  pub platform : IapPlatform
  pub receipt_data : String
  pub transaction_id : String
  pub product_id : String
  pub device_id : String

-- The framework: the text that a `CharField` reads, given whether it allows a blank text, its
-- default and the member of the body, or none where it complains; and the complaint on a body.
pub record CharFields : Type 0 where
  pub read : Bool → Option String → Option String → Option String
  pub complaint : Body → Detail

-- `ChoiceField(choices=IapPlatform.values)`
unfoldable pub read_platform : Option String → Option IapPlatform
read_platform none = none
read_platform (some value) =
    if str_eq value "ios" then some ios else if str_eq value "android" then some android else none

abbrev and_then {ℓ κ} : {A : Type ℓ} {B : Type κ} → Option A → (A → Option B) → Option B
and_then none f = none
and_then (some a) f = f a

-- `VerifyReceiptRequestSerializer`: a body is valid where all its fields are.
unfoldable pub read_request : CharFields → Body → Option VerifyReceiptRequest
unfolding read_platform
read_request fields b = and_then (read_platform b.platform) (λ platform.
    and_then (fields.read false none b.receipt_data) (λ receipt.
      and_then (fields.read false none b.transaction_id) (λ txn.
        and_then (fields.read true (some "") b.product_id) (λ product.
          and_then (fields.read true (some "") b.device_id) (λ device. some (record {
            platform = platform;
            receipt_data = receipt;
            transaction_id = txn;
            product_id = product;
            device_id = device;
          }))))))

abbrev pub or_complaint : Detail → Option VerifyReceiptRequest → Result VerifyReceiptRequest
or_complaint d none = err (Exc.validation_error d)
or_complaint d (some r) = ok r

-- `SubscriptionStatusSerializer(entitlement).data`
pub record SubscriptionStatus : Type 0 where
  pub transaction_id : String
  pub product_id : String
  pub status : EntitlementStatus
  pub expires_at : Option ℕ
  pub auto_renew : Bool

unfoldable pub subscription_status : SubscriptionEntitlement → SubscriptionStatus
subscription_status e = record {
  transaction_id = e.original_transaction_id;
  product_id = e.product_id;
  status = e.status;
  expires_at = e.expires_at;
  auto_renew = e.auto_renew;
}

-- `VerifyReceiptView.post`
unfoldable pub post_verify_receipt :
    CharFields
    → (IapPlatform → String → String → String → Result StoreSubscription)
    → ℕ
    → Body
    → Exec IapDb SubscriptionStatus
unfolding read_request
post_verify_receipt fields adapter now body = do
  r ← lift (or_complaint (fields.complaint body) (read_request fields body))
  e ← verify_receipt adapter now r.platform r.receipt_data r.transaction_id r.product_id r.device_id
  pure (subscription_status e)

-- `SubscriptionStatusView.get`
unfoldable pub get_subscription_status : Option String → Exec IapDb SubscriptionStatus
get_subscription_status param = do
  let transaction_id = strip (text_or_empty param)
  guard (truthy transaction_id)
      (Exc.app AppErrorClass.validation_failed "Query parameter 'transaction_id' is required.")
  e ← resolve_status transaction_id
  pure (subscription_status e)

-- `AppleWebhookView.post`: the response is an empty object.
unfoldable pub post_apple_webhook : Verifier → ℕ → Option String → Exec IapDb Unit
post_apple_webhook v now signed_payload =
    process_apple_notification v now (text_or_empty signed_payload) >> pure tt

-- `GoogleWebhookView.post`; a body without a message gives an empty one.
unfoldable pub post_google_webhook :
    Parsers
    → (String → Bool)
    → (String → ServiceAnswer)
    → ℕ
    → Option String
    → Message
    → Exec IapDb Unit
post_google_webhook p verifies service now header m =
    process_google_notification p verifies service now (text_or_empty header) m >> pure tt

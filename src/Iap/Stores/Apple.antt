-- ===== src/Iap/Stores/Apple.antt =====
-- apps/iap/stores/apple.py. What Apple's library returns is given as records, and its client and
-- verifier as functions.
use backend_live_canvas.Prelude.{
  ℕ, String, Bool, false, ◌&&◌, not, Option, none, some, List, [], ◌∷◌, ltb, ◌==◌, str_eq, truthy,
  or_else, if◌then◌else◌,
}
use backend_live_canvas.Core.Errors.{AppErrorClass, raised}
use backend_live_canvas.Core.Exec.{Result, ok, err, then_result}
use backend_live_canvas.Iap.Models.{
  EntitlementStatus, IapPlatform, StoreSubscription, NotificationEvent,
}
use backend_live_canvas.Iap.Stores.{id_set, ms_to_dt}

-- A decoded transaction; a text that is absent is empty.
pub record AppleTransaction : Type 0 where
  pub original_transaction_id : String
  pub transaction_id : String
  pub product_id : String
  pub expires_date : Option ℕ
  pub revocation_date : Option ℕ

pub record StatusItem : Type 0 where
  pub signed_transaction_info : String
  pub signed_renewal_info : String
  pub status : ℕ

-- The data of a notification.
pub record AppleData : Type 0 where
  pub signed_transaction_info : String
  pub signed_renewal_info : String

pub record ApplePayload : Type 0 where
  pub notification_type : String
  pub subtype : String
  pub notification_uuid : String
  pub signed_date : Option ℕ
  pub payload_data : Option AppleData

-- What the verifier decodes; a renewal is its `autoRenewStatus`. The types of a notification are
-- members of enumerations of the library: `member_text` is what `str` makes of a member, which is
-- given by its value; an absent member is empty.
pub record Verifier : Type 0 where
  pub member_text : String → String
  pub transaction : String → Result AppleTransaction
  pub renewal : String → Result ℕ
  pub notification : String → Result ApplePayload

-- What the client answers: groups of items, an `APIException`, or any other exception.
pub data ClientAnswer : Type 0 where
  statuses : List (List StatusItem) → ClientAnswer
  api_exception failure : ClientAnswer

-- `_APPLE_STATUS`, with the default of its lookup.
unfoldable pub apple_status : ℕ → EntitlementStatus
apple_status status =
    if status == 1
    then EntitlementStatus.active
    else if status == 2
    then EntitlementStatus.expired
    else if status == 3
    then EntitlementStatus.in_grace_period
    else if status == 4
    then EntitlementStatus.in_grace_period
    else if status == 5
    then EntitlementStatus.refunded
    else EntitlementStatus.expired

-- The first item of the nested loop.
unfoldable pub first_item : List (List StatusItem) → Option StatusItem
first_item [] = none
first_item ([] ∷ groups) = first_item groups
first_item ((item ∷ items) ∷ groups) = some item

-- The renewal where it is there.
abbrev pub renewal_of : Verifier → String → Result (Option ℕ)
renewal_of v info = if truthy info then then_result (v.renewal info) (λ r. ok (some r)) else ok none

abbrev pub renews : Option ℕ → Bool
renews none = false
renews (some r) = ltb 0 r

abbrev subscription_of :
    StatusItem → AppleTransaction → Option ℕ → String → String → StoreSubscription
subscription_of item txn renewal transaction_id product_id = record {
  platform = IapPlatform.ios;
  original_transaction_id = txn.original_transaction_id;
  latest_transaction_id = or_else txn.transaction_id transaction_id;
  product_id = or_else txn.product_id product_id;
  status = apple_status item.status;
  expires_at = ms_to_dt txn.expires_date;
  auto_renew = renews renewal;
  transaction_ids = id_set (txn.original_transaction_id ∷ txn.transaction_id ∷ transaction_id ∷ []);
}

abbrev verify_item : Verifier → String → String → Option StatusItem → Result StoreSubscription
verify_item v transaction_id product_id none = err (raised AppErrorClass.receipt_invalid)
verify_item v transaction_id product_id (some item) =
    then_result (v.transaction item.signed_transaction_info) (λ txn.
      then_result (renewal_of v item.signed_renewal_info)
        (λ renewal. ok (subscription_of item txn renewal transaction_id product_id)))

-- `verify`
unfoldable pub verify_apple :
    (String → ClientAnswer) → Verifier → String → String → Result StoreSubscription
unfolding apple_status first_item id_set ms_to_dt
verify_apple client v transaction_id product_id = elim (client transaction_id) [
  | api_exception ↦ err (raised AppErrorClass.receipt_invalid)
  | failure ↦ err (raised AppErrorClass.store_api_unavailable)
  | statuses groups ↦ verify_item v transaction_id product_id (first_item groups)
]

-- A date that is there and not zero.
abbrev pub is_date : Option ℕ → Bool
is_date none = false
is_date (some t) = ltb 0 t

-- `_notification_status`
unfoldable pub notification_status : String → String → AppleTransaction → EntitlementStatus
notification_status type subtype txn =
    if is_date txn.revocation_date
    then EntitlementStatus.refunded
    else if str_eq type "EXPIRED"
    then EntitlementStatus.expired
    else if str_eq type "DID_FAIL_TO_RENEW" && not (str_eq subtype "GRACE_PERIOD")
    then EntitlementStatus.in_grace_period
    else if str_eq type "DID_FAIL_TO_RENEW"
    then EntitlementStatus.in_grace_period
    else if str_eq type "REFUND"
    then EntitlementStatus.refunded
    else EntitlementStatus.active

abbrev pub notified : Verifier → ApplePayload → AppleTransaction → Option ℕ → StoreSubscription
notified v payload txn renewal = record {
  platform = IapPlatform.ios;
  original_transaction_id = txn.original_transaction_id;
  latest_transaction_id = or_else txn.transaction_id txn.original_transaction_id;
  product_id = txn.product_id;
  status =
      notification_status (v.member_text payload.notification_type)
        (if truthy payload.subtype then v.member_text payload.subtype else "") txn;
  expires_at = ms_to_dt txn.expires_date;
  auto_renew = renews renewal;
  transaction_ids = id_set (txn.original_transaction_id ∷ txn.transaction_id ∷ []);
}

-- The transaction and the renewal of a payload's data.
abbrev pub inner : Verifier → Option AppleData → Result (Option AppleTransaction × Option ℕ)
inner v none = ok (none, none)
inner v (some d) =
    then_result
      (if truthy d.signed_transaction_info
        then then_result (v.transaction d.signed_transaction_info) (λ t. ok (some t))
        else ok none)
      (λ txn. then_result (renewal_of v d.signed_renewal_info) (λ renewal. ok (txn, renewal)))

abbrev pub event_of :
    Verifier → ApplePayload → Option AppleTransaction × Option ℕ → NotificationEvent
event_of v payload (none, renewal) = record {
  platform = IapPlatform.ios;
  store_event_id = payload.notification_uuid;
  store_event_at = ms_to_dt payload.signed_date;
  notification_type = v.member_text payload.notification_type;
  subscription = none;
}
event_of v payload (some txn, renewal) = record {
  platform = IapPlatform.ios;
  store_event_id = payload.notification_uuid;
  store_event_at = ms_to_dt payload.signed_date;
  notification_type = v.member_text payload.notification_type;
  subscription = some (notified v payload txn renewal);
}

abbrev or_invalid :
    {A : Type 0} → Result A → (A → Result NotificationEvent) → Result NotificationEvent
or_invalid (ok a) f = f a
or_invalid (err e) f = err (raised AppErrorClass.webhook_signature_invalid)

-- `decode_notification`
unfoldable pub decode_apple : Verifier → String → Result NotificationEvent
unfolding notification_status id_set ms_to_dt
decode_apple v signed_payload =
    if truthy signed_payload
    then or_invalid (v.notification signed_payload) (λ payload.
      or_invalid (inner v payload.payload_data) (λ parts. ok (event_of v payload parts)))
    else err (raised AppErrorClass.webhook_signature_invalid)

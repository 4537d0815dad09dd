-- ===== src/Iap/Stores/Google.antt =====
-- apps/iap/stores/google.py. What Google's clients answer is given as records and functions; the
-- standard library's parsers of numbers, dates and payloads are functions of `Parsers`.
use Prim.Native.String as NativeString
use backend_live_canvas.Prelude.{
  ℕ, zero, suc, String, codes, Bool, true, false, ◌&&◌, Option, none, some, List, [], ◌∷◌, ltb, leb,
  str_eq, truthy, or_else, if◌then◌else◌,
}
use backend_live_canvas.Core.Errors.{Exc, AppErrorClass, raised}
use backend_live_canvas.Core.Exec.{Result, ok, err, then_result}
use backend_live_canvas.Core.Text.{strip}
use backend_live_canvas.Audit.Lower.{lower, is_prefix}
use backend_live_canvas.Iap.Models.{
  EntitlementStatus, IapPlatform, StoreSubscription, NotificationEvent,
}
use backend_live_canvas.Iap.Stores.{id_set}

pub record LineItem : Type 0 where
  pub expiry_time : String
  pub product_id : String
  pub auto_renew_enabled : Bool

-- A purchase; a text that is absent is empty.
pub record Purchase : Type 0 where
  pub subscription_state : String
  pub line_items : List LineItem
  pub linked_purchase_token : String

-- What the service answers: a purchase, an `HttpError` with its status, or any other exception.
pub data ServiceAnswer : Type 0 where
  purchase : Purchase → ServiceAnswer
  http_error : ℕ → ServiceAnswer
  failure : ServiceAnswer

-- A decoded push.
pub record Push : Type 0 where
  pub purchase_token : String
  pub subscription_id : String
  pub notification_type : String
  pub event_time_millis : String

-- The message of a push.
pub record Message : Type 0 where
  pub message_id : String
  pub old_message_id : String
  pub body : String

pub record Parsers : Type 0 where
  pub fromisoformat : String → Result ℕ
  pub to_int : String → Result ℕ
  -- `json.loads(base64.b64decode(...))`
  pub decode_push : String → Result Push

-- `_GOOGLE_STATE`, with the default of its lookup.
unfoldable pub google_state : String → EntitlementStatus
google_state state =
    if str_eq state "SUBSCRIPTION_STATE_ACTIVE"
    then EntitlementStatus.active
    else if str_eq state "SUBSCRIPTION_STATE_IN_GRACE_PERIOD"
    then EntitlementStatus.in_grace_period
    else if str_eq state "SUBSCRIPTION_STATE_CANCELED"
    then EntitlementStatus.active
    else EntitlementStatus.expired

-- `_parse_rfc3339`
unfoldable pub parse_rfc3339 : Parsers → String → Result (Option ℕ)
parse_rfc3339 p value =
    if truthy value then then_result (p.fromisoformat value) (λ t. ok (some t)) else ok none

abbrev pub first_line : List LineItem → LineItem
first_line [] = record { expiry_time = ""; product_id = ""; auto_renew_enabled = false }
first_line (l ∷ lines) = l

abbrev pub google_subscription : Purchase → Option ℕ → String → String → String → StoreSubscription
google_subscription b expires token transaction_id product_id =
    let original = or_else b.linked_purchase_token token in
    record {
      platform = IapPlatform.android;
      original_transaction_id = original;
      latest_transaction_id = token;
      product_id = or_else (first_line b.line_items).product_id product_id;
      status = google_state b.subscription_state;
      expires_at = expires;
      auto_renew = (first_line b.line_items).auto_renew_enabled;
      transaction_ids = id_set (original ∷ token ∷ transaction_id ∷ []);
    }

-- `verify`, on the purchase token.
unfoldable pub verify_google :
    Parsers → (String → ServiceAnswer) → String → String → String → Result StoreSubscription
unfolding google_state parse_rfc3339 id_set
verify_google p service token transaction_id product_id = elim (service token) [
  | http_error status ↦
      if leb 400 status && ltb status 500
      then err (raised AppErrorClass.receipt_invalid)
      else err (raised AppErrorClass.store_api_unavailable)
  | failure ↦ err (raised AppErrorClass.store_api_unavailable)
  | purchase b ↦
      then_result (parse_rfc3339 p (first_line b.line_items).expiry_time)
        (λ expires. ok (google_subscription b expires token transaction_id product_id))
]

-- `s[n:]`
unfoldable pub drop_text : ℕ → String → String
drop_text zero s = s
drop_text (suc n) NativeString.[] = ""
drop_text (suc n) (NativeString.◌∷◌ c s) = drop_text n s

-- The bearer token of a header: what follows its first space.
unfoldable pub bearer_token : String → String
unfolding lower is_prefix drop_text strip
bearer_token header =
    if is_prefix (codes "bearer ") (lower (codes header)) then strip (drop_text 7 header) else ""

-- `_verify_pubsub_token`; `verifies` is Google's check of a token for the audience.
unfoldable pub verify_pubsub_token : (String → Bool) → String → Result (Unit {0})
unfolding bearer_token
verify_pubsub_token verifies header =
    if truthy (bearer_token header) && verifies (bearer_token header)
    then ok tt
    else err (raised AppErrorClass.webhook_signature_invalid)

abbrev pub is_receipt_invalid : AppErrorClass → Bool
is_receipt_invalid AppErrorClass.receipt_invalid = true
is_receipt_invalid _ = false

-- The `except ReceiptInvalid` clause of the fetch.
abbrev pub unless_invalid : Result StoreSubscription → Result (Option StoreSubscription)
unless_invalid (ok sub) = ok (some sub)
unless_invalid (err (Exc.app c detail)) =
    if is_receipt_invalid c then ok none else err (Exc.app c detail)
unless_invalid (err e) = err e

abbrev pub refetched : Parsers → (String → ServiceAnswer) → Push → Result (Option StoreSubscription)
refetched p service push =
    if truthy push.purchase_token
    then unless_invalid
        (verify_google p service push.purchase_token push.purchase_token push.subscription_id)
    else ok none

abbrev pub event_time : Parsers → String → Result (Option ℕ)
event_time p ms = if truthy ms then then_result (p.to_int ms) (λ t. ok (some t)) else ok none

abbrev pub decoded_push : Parsers → String → Result Push
decoded_push p body = elim (p.decode_push body) [
  | ok push ↦ ok push
  | err e ↦ err (raised AppErrorClass.webhook_signature_invalid)
]

-- `decode_notification`
unfoldable pub decode_google :
    Parsers
    → (String → Bool)
    → (String → ServiceAnswer)
    → String
    → Message
    → Result NotificationEvent
decode_google p verifies service header m = then_result (verify_pubsub_token verifies header) (λ _.
    then_result (decoded_push p m.body) (λ push.
      then_result (event_time p push.event_time_millis) (λ at_time.
        then_result (refetched p service push) (λ sub. ok (record {
          platform = IapPlatform.android;
          store_event_id = or_else m.message_id m.old_message_id;
          store_event_at = at_time;
          notification_type = push.notification_type;
          subscription = sub;
        })))))

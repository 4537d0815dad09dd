-- ===== src/Iap/Webhook/Forged.antt =====
-- A push that is not the store's changes nothing (apps/iap/services.py and stores).
use backend_live_canvas.Prelude.{
  ℕ, ◌≡◌, String, Bool, true, Option, codes, ◌≢◌, none, some, ◌⊎◌, or_else,
}
use backend_live_canvas.Audit.Lower.{lower, is_prefix}
use backend_live_canvas.Core.Text.{strip}
use backend_live_canvas.Core.Errors.{Exc, AppErrorClass, raised}
use backend_live_canvas.Core.Exec.{Result, ok, err}
use backend_live_canvas.Iap.Models.{
  IapPlatform, StoreSubscription, StoreNotificationEvent, NotificationEvent, IapDb,
}
use backend_live_canvas.Iap.Notify.{apply_notification}
use backend_live_canvas.Iap.Stores.Apple.{Verifier, ApplePayload, AppleData}
use backend_live_canvas.Iap.Stores.Google.{
  Parsers, ServiceAnswer, Message, verify_google, Push, drop_text,
}

abbrev pub forged : Exc
forged = raised AppErrorClass.webhook_signature_invalid

-- The header carries a bearer token, whatever the case of its scheme, that Google's check accepts.
pub record IsSigned (verifies : String → Bool) (header : String) : Type 0 where
  pub token : String
  pub scheme : is_prefix (codes "bearer ") (lower (codes header)) ≡ true
  pub rest : token ≡ strip (drop_text 7 header)
  pub given : token ≢ ""
  pub accepted : verifies token ≡ true

-- What the subscription of a push is: none, or what the service of Google answers for the token of
-- the push. The push itself says nothing of it.
abbrev pub IsFetched : Parsers → (String → ServiceAnswer) → Push → Option StoreSubscription → Type 0
IsFetched p service push none = Unit
IsFetched p service push (some sub) =
    verify_google p service push.purchase_token push.purchase_token push.subscription_id ≡ ok sub

-- ---------------------------------------------------------------- the webhooks

-- How a webhook ends: refused as forged; or, from a sender that is who it says, failed before the
-- tables; or applied, with the event that was decoded. In the first two nothing is written.
pub data Ended (Authentic : Type 0) (Event : NotificationEvent → Type 0) (now : ℕ) (db : IapDb)
    (run : Result StoreNotificationEvent × IapDb) : Type 0 where
  refused : run ≡ (err forged, db) → Ended Authentic Event now db run
  undecoded : Authentic → (e : Exc) → run ≡ (err e, db) → Ended Authentic Event now db run
  applied :
      Authentic
      → (event : NotificationEvent) → Event event
      → run ≡ apply_notification now event db
      → Ended Authentic Event now db run

-- The event of a push: its id is that of the message, and its subscription is fetched.
pub record IsPushed (p : Parsers) (service : String → ServiceAnswer) (m : Message)
    (event : NotificationEvent) : Type 0 where
  pub push : Push
  pub decoded : p.decode_push m.body ≡ ok push
  pub platform : event.platform ≡ IapPlatform.android
  pub id : event.store_event_id ≡ or_else m.message_id m.old_message_id
  pub subscription : IsFetched p service push event.subscription

-- A signed part that is absent, or that the verifier accepts.
abbrev pub Accepts : {A : Type 0} → (String → Result A) → String → Type 0
Accepts {A = A} verify part = (part ≡ "") ⊎ ((a : A) × (verify part ≡ ok a))

abbrev pub AcceptsData : Verifier → Option AppleData → Type 0
AcceptsData v none = Unit
AcceptsData v (some d) =
    Accepts v.transaction d.signed_transaction_info × Accepts v.renewal d.signed_renewal_info

-- The verifier accepts the payload, and the transaction and the renewal in it.
pub record IsVerified (v : Verifier) (signed_payload : String) : Type 0 where
  pub payload : ApplePayload
  pub accepted : v.notification signed_payload ≡ ok payload
  pub parts : AcceptsData v payload.payload_data

-- The event has the id of the payload that the verifier decodes.
abbrev pub IsDecoded : Verifier → String → NotificationEvent → Type 0
IsDecoded v signed_payload event =
    (payload : ApplePayload) × (v.notification signed_payload ≡ ok payload)
    × (event.platform ≡ IapPlatform.ios)
    × (event.store_event_id ≡ payload.notification_uuid)

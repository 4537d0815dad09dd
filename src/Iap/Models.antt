-- ===== src/Iap/Models.antt =====
-- apps/iap/models.py and apps/iap/stores/base.py: the rows of the entitlement tables and the
-- normalized results of the stores. A table is the list of its rows in the order of their
-- primary keys; an instant is a number.
use backend_live_canvas.Prelude.{
  ℕ, String, ◌≡◌, refl, ◌↔◌, Bool, true, false, ◌&&◌, Option, none, some, List, ltb,
}
use backend_live_canvas.Audit.{AuditLogEntry}

-- `IapPlatform`
pub data IapPlatform : Type 0 where
  ios android : IapPlatform

-- `EntitlementStatus`
pub data EntitlementStatus : Type 0 where
  active in_grace_period expired canceled refunded : EntitlementStatus

abbrev pub platform_eq : IapPlatform → IapPlatform → Bool
platform_eq ios ios = true
platform_eq ios android = false
platform_eq android ios = false
platform_eq android android = true

pub platform_eq_iff : (p q : IapPlatform) → (platform_eq p q ≡ true) ↔ (p ≡ q)
platform_eq_iff ios ios = (λ _. refl, λ _. refl)
platform_eq_iff ios android = (λ h. cc, λ h. cc)
platform_eq_iff android ios = (λ h. cc, λ h. cc)
platform_eq_iff android android = (λ _. refl, λ _. refl)

-- The text values of the two enumerations.
unfoldable pub platform_value : IapPlatform → String
platform_value ios = "ios"
platform_value android = "android"

unfoldable pub status_value : EntitlementStatus → String
status_value active = "active"
status_value in_grace_period = "in_grace_period"
status_value expired = "expired"
status_value canceled = "canceled"
status_value refunded = "refunded"

-- `status in ENTITLED_STATUSES`
abbrev pub is_entitled_status : EntitlementStatus → Bool
is_entitled_status active = true
is_entitled_status in_grace_period = true
is_entitled_status _ = false

-- `SubscriptionEntitlement`
pub record SubscriptionEntitlement : Type 0 where
  pub id : ℕ
  pub platform : IapPlatform
  pub original_transaction_id : String
  pub latest_transaction_id : String
  pub product_id : String
  pub status : EntitlementStatus
  pub expires_at : Option ℕ
  pub auto_renew : Bool
  pub origin_device_id : String
  pub last_store_event_at : Option ℕ
  pub last_verified_at : ℕ
  pub created_at : ℕ
  pub updated_at : ℕ

abbrev pub not_past : Option ℕ → ℕ → Bool
not_past none now = true
not_past (some t) now = ltb now t

-- `SubscriptionEntitlement.is_entitled`, at the time `now`.
unfoldable pub grants_access : SubscriptionEntitlement → ℕ → Bool
grants_access e now = is_entitled_status e.status && not_past e.expires_at now

-- `EntitlementTransaction`: `entitlement` is the foreign key.
pub record EntitlementTransaction : Type 0 where
  pub entitlement : ℕ
  pub platform : IapPlatform
  pub transaction_id : String

-- `NotificationOutcome`
pub data NotificationOutcome : Type 0 where
  applied duplicate_ignored stale_ignored unmatched : NotificationOutcome

-- `StoreNotificationEvent`
pub record StoreNotificationEvent : Type 0 where
  pub platform : IapPlatform
  pub store_event_id : String
  pub notification_type : String
  pub original_transaction_id : String
  pub store_event_at : Option ℕ
  pub outcome : NotificationOutcome
  pub received_at : ℕ

-- stores/base.py: `StoreSubscription`
pub record StoreSubscription : Type 0 where
  pub platform : IapPlatform
  pub original_transaction_id : String
  pub latest_transaction_id : String
  pub product_id : String
  pub status : EntitlementStatus
  pub expires_at : Option ℕ
  pub auto_renew : Bool
  pub transaction_ids : List String

-- stores/base.py: `NotificationEvent`
pub record NotificationEvent : Type 0 where
  pub platform : IapPlatform
  pub store_event_id : String
  pub store_event_at : Option ℕ
  pub notification_type : String
  pub subscription : Option StoreSubscription

-- The tables of the app, the next primary key of an entitlement, and the audit trail.
pub record IapDb : Type 0 where
  pub entitlements : List SubscriptionEntitlement
  pub next_id : ℕ
  pub transactions : List EntitlementTransaction
  pub notifications : List StoreNotificationEvent
  pub audit_log : List AuditLogEntry

-- ===== src/Iap/Tables.antt =====
-- apps/iap/services.py: the queries on the tables of the entitlements, and `_audit`. The time of a
-- call is its argument `now`.
use backend_live_canvas.Prelude.{
  ℕ, String, Bool, ◌&&◌, Option, none, some, List, ◌==◌, str_eq, first,
}
use backend_live_canvas.Core.Exec.{Result, Exec}
use backend_live_canvas.Audit.{AuditLogEntry, Members, text, member, record_action}
use backend_live_canvas.Iap.Models.{
  IapPlatform, SubscriptionEntitlement, EntitlementTransaction, StoreNotificationEvent, IapDb,
  platform_eq, platform_value, status_value,
}

abbrev pub is_subscription : IapPlatform → String → SubscriptionEntitlement → Bool
is_subscription p original e = platform_eq e.platform p && str_eq e.original_transaction_id original

abbrev pub is_ref : IapPlatform → String → EntitlementTransaction → Bool
is_ref p txn r = platform_eq r.platform p && str_eq r.transaction_id txn

abbrev pub is_event : IapPlatform → String → StoreNotificationEvent → Bool
is_event p event_id n = platform_eq n.platform p && str_eq n.store_event_id event_id

-- The row of a subscription: the platform and the original transaction id are unique together.
abbrev pub find_entitlement :
    IapPlatform → String → List SubscriptionEntitlement → Option SubscriptionEntitlement
find_entitlement p original = first (is_subscription p original)

-- The row that a foreign key points at.
abbrev pub entitlement_by_id : ℕ → List SubscriptionEntitlement → Option SubscriptionEntitlement
entitlement_by_id i = first (λ e. e.id == i)

abbrev pub find_ref :
    IapPlatform → String → List EntitlementTransaction → Option EntitlementTransaction
find_ref p txn = first (is_ref p txn)

abbrev pub find_event :
    IapPlatform → String → List StoreNotificationEvent → Option StoreNotificationEvent
find_event p event_id = first (is_event p event_id)

abbrev pub audit_metadata : SubscriptionEntitlement → Members → Members
audit_metadata e extra = member "platform" (text (platform_value e.platform)) (
    member "product_id" (text e.product_id) (
      member "status" (text (status_value e.status))
        (member "original_transaction_id" (text e.original_transaction_id) extra)))

abbrev with_log : Result (Unit {0}) × List AuditLogEntry → IapDb → Result (Unit {0}) × IapDb
with_log (r, log) db = (r, record db { audit_log = log })

-- `_audit`
unfoldable pub audit : ℕ → SubscriptionEntitlement → String → String → Members → Exec IapDb Unit
audit now e action label extra db =
    with_log
      (record_action now none action
        (some (record { model_name = "subscriptionentitlement"; pk = some e.id })) label
        (audit_metadata e extra) db.audit_log)
      db

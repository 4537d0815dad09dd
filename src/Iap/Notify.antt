-- ===== src/Iap/Notify.antt =====
-- apps/iap/services.py: store notifications, applied once and in the order of the store's events.
pub mod Ledger
pub mod Newest
pub mod Revoked
use backend_live_canvas.Prelude.{
  ℕ, String, Bool, false, Option, none, some, [], ◌∷◌, ◌++◌, leb, if◌then◌else◌,
}
use backend_live_canvas.Core.Exec.{ok, Exec, pure, atomic, ◌>>◌}
use backend_live_canvas.Audit.{text, end, member}
use backend_live_canvas.Iap.Models.{
  SubscriptionEntitlement, StoreNotificationEvent, NotificationOutcome, StoreSubscription,
  NotificationEvent, IapDb, applied, stale_ignored, unmatched, platform_value,
}
use backend_live_canvas.Iap.Tables.{find_entitlement, find_event, audit}
use backend_live_canvas.Iap.Verify.{write_entitlement}

-- `_is_stale`
unfoldable pub is_stale : SubscriptionEntitlement → Option ℕ → Bool
is_stale e event_at = elim e.last_store_event_at [
  | none ↦ false
  | some last ↦ elim event_at [ none ↦ false | some t ↦ leb t last ]
]

abbrev pub Applied : Type 0
Applied = Option SubscriptionEntitlement × NotificationOutcome

-- The branches on the notification's subscription: the entitlement, and the outcome.
unfoldable pub apply_subscription :
    ℕ → Option ℕ → Option StoreSubscription → IapDb → Applied × IapDb
apply_subscription now event_at none db = ((none, unmatched), db)
apply_subscription now event_at (some sub) db =
    let (e', db') = write_entitlement now sub "" "" event_at db in
    elim (find_entitlement sub.platform sub.original_transaction_id db.entitlements) [
      | none ↦ ((some e', applied), db')
      | some e ↦
          if is_stale e event_at then ((some e, stale_ignored), db) else ((some e', applied), db')
    ]

abbrev pub original_of : Option StoreSubscription → String
original_of none = ""
original_of (some sub) = sub.original_transaction_id

abbrev pub event_row : ℕ → NotificationEvent → NotificationOutcome → StoreNotificationEvent
event_row now event outcome = record {
  platform = event.platform;
  store_event_id = event.store_event_id;
  notification_type = event.notification_type;
  original_transaction_id = original_of event.subscription;
  store_event_at = event.store_event_at;
  outcome = outcome;
  received_at = now;
}

abbrev pub add_event : StoreNotificationEvent → IapDb → IapDb
add_event n db = record db { notifications = db.notifications ++ n ∷ [] }

-- The audit of an applied notification.
unfoldable pub audit_applied : ℕ → NotificationEvent → Applied → Exec IapDb Unit
audit_applied now event (some e, applied) =
    audit now e "iap.webhook" (platform_value event.platform)
      (member "event_type" (text event.notification_type) end)
audit_applied now event _ = pure tt

-- `apply_notification`, the body of its transaction.
unfoldable pub apply_new : ℕ → NotificationEvent → Exec IapDb StoreNotificationEvent
apply_new now event db =
    let (a, db1) = apply_subscription now event.store_event_at event.subscription db in
    let row = event_row now event a.1 in
    (do audit_applied now event a; pure row) (add_event row db1)

unfoldable pub apply_notification : ℕ → NotificationEvent → Exec IapDb StoreNotificationEvent
apply_notification now event = atomic λ db.
    elim (find_event event.platform event.store_event_id db.notifications) [
      | some existing ↦ (ok existing, db)
      | none ↦ apply_new now event db
    ]

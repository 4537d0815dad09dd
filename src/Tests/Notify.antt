-- ===== src/Tests/Notify.antt =====
-- Runs of the notifications of apps/iap/services.py.
use backend_live_canvas.Prelude.{
  ◌≡◌, inl, refl, false, none, some, List, [], ◌∷◌, first, update, exists, str_eq,
}
use backend_live_canvas.Core.Errors.{default_detail}
use backend_live_canvas.Core.Exec.{ok}
use backend_live_canvas.Audit.{record_action}
use backend_live_canvas.Iap.Models.{
  ios, active, refunded, applied, stale_ignored, SubscriptionEntitlement, StoreNotificationEvent,
  NotificationEvent, IapDb, platform_value, status_value, grants_access,
}
use backend_live_canvas.Iap.Tables.{find_entitlement, find_event, audit}
use backend_live_canvas.Iap.Verify.{conflicts, guard_conflict, write_entitlement, verify_receipt}
use backend_live_canvas.Iap.Verify.Written.{IsWellFormed}
use backend_live_canvas.Iap.Gate.{resolve, is_entitled}
use backend_live_canvas.Iap.Gate.Access.{is_entitled_revoked}
use backend_live_canvas.Iap.Notify.{
  is_stale, apply_subscription, audit_applied, apply_new, apply_notification,
}
use backend_live_canvas.Iap.Notify.Ledger.{
  apply_notification_replay, apply_notification-IsWellFormed,
}
use backend_live_canvas.Iap.Notify.Newest.{
  Report, Delivered, start, accepted, Newest, Delivered-Newest,
}
use backend_live_canvas.Tests.Iap.{
  empty_db, empty_db-IsWellFormed, monthly, first_row, verified_db, verified_db-IsWellFormed,
}

program : Unit {0}
unfolding str_eq first update exists record_action platform_value status_value grants_access audit
    conflicts guard_conflict write_entitlement verify_receipt resolve is_entitled is_stale
    apply_subscription audit_applied apply_new apply_notification default_detail
program = tt

abbrev pub refund : NotificationEvent
refund = record {
  platform = ios;
  store_event_id = "n1";
  store_event_at = some 50;
  notification_type = "REFUND";
  subscription = some (record monthly { status = refunded });
}

abbrev pub renewal : NotificationEvent
renewal = record {
  platform = ios;
  store_event_id = "n2";
  store_event_at = some 80;
  notification_type = "DID_RENEW";
  subscription = some (record monthly { latest_transaction_id = "t3" });
}

abbrev pub refunded_db : IapDb
refunded_db = (apply_notification 60 refund verified_db).1

abbrev refunded_row : SubscriptionEntitlement
refunded_row = record first_row {
  status = refunded;
  last_store_event_at = some 50;
  last_verified_at = 60;
  updated_at = 60;
}

pub refunded_db-IsWellFormed : IsWellFormed refunded_db
refunded_db-IsWellFormed =
    apply_notification-IsWellFormed 60 refund verified_db verified_db-IsWellFormed

apply_notification-IsWellFormed_example : IsWellFormed (apply_notification 90 renewal refunded_db).1
apply_notification-IsWellFormed_example =
    apply_notification-IsWellFormed 90 renewal refunded_db refunded_db-IsWellFormed

refunded_row_found : find_entitlement ios "o1" refunded_db.entitlements ≡ some refunded_row
unfolding program
refunded_row_found = refl

t1_resolves : resolve "t1" refunded_db ≡ some refunded_row
unfolding program
t1_resolves = refl

is_entitled_revoked_example : is_entitled 70 (some "t1") refunded_db ≡ false
is_entitled_revoked_example =
    is_entitled_revoked refunded_db ios "o1" refunded_row refunded_row "t1" 70
      refunded_db-IsWellFormed refunded_row_found refl t1_resolves refl refl

abbrev pub refund_entry : StoreNotificationEvent
refund_entry = record {
  platform = ios;
  store_event_id = "n1";
  notification_type = "REFUND";
  original_transaction_id = "o1";
  store_event_at = some 50;
  outcome = applied;
  received_at = 60;
}

refund_run : apply_notification 60 refund verified_db ≡ (ok refund_entry, refunded_db)
unfolding program
refund_run = refl

apply_notification_replay_example :
    apply_notification 99 refund refunded_db ≡ (ok refund_entry, refunded_db)
apply_notification_replay_example = apply_notification_replay 60 99 refund verified_db refund_run

-- The refund is delivered after the renewal that is newer.
abbrev renewed_db : IapDb
renewed_db = (apply_notification 81 renewal empty_db).1

abbrev late_db : IapDb
late_db = (apply_notification 82 refund renewed_db).1

abbrev pub renewal_entry : StoreNotificationEvent
renewal_entry = record refund_entry {
  store_event_id = "n2";
  notification_type = "DID_RENEW";
  store_event_at = some 80;
  received_at = 81;
}

abbrev late_entry : StoreNotificationEvent
late_entry = record refund_entry { outcome = stale_ignored; received_at = 82 }

renewal_run : apply_notification 81 renewal empty_db ≡ (ok renewal_entry, renewed_db)
unfolding program
renewal_run = refl

late_run : apply_notification 82 refund renewed_db ≡ (ok late_entry, late_db)
unfolding program
late_run = refl

refund_unseen : find_event ios "n1" renewed_db.notifications ≡ none
unfolding program
refund_unseen = refl

renewal_unseen : find_event ios "n2" empty_db.notifications ≡ none
unfolding program
renewal_unseen = refl

pub absent_at_first : find_entitlement ios "o1" empty_db.entitlements ≡ none
unfolding program
absent_at_first = refl

abbrev reports : List Report
reports = record { time = 50; status = refunded } ∷ record { time = 80; status = active } ∷ []

late_delivery : Delivered ios "o1" reports late_db
late_delivery =
    accepted
      (accepted (start empty_db empty_db-IsWellFormed (inl absent_at_first)) 81 renewal
        (record monthly { latest_transaction_id = "t3" }) (record { time = 80; status = active })
        renewal_entry refl refl refl refl refl renewal_unseen renewal_run)
      82 refund (record monthly { status = refunded }) (record { time = 50; status = refunded })
      late_entry refl refl refl refl refl refund_unseen late_run

Delivered-Newest_example : Newest ios "o1" reports late_db.entitlements × IsWellFormed late_db
Delivered-Newest_example = Delivered-Newest ios "o1" late_delivery

-- ===== src/Tests/Revoked.antt =====
-- A refund, and an older renewal that is delivered after it.
use backend_live_canvas.Prelude.{
  ◌≡◌, refl, false, none, some, List, [], ◌∷◌, first, update, exists, str_eq, ◌≤◌, ap, inl, inr,
  All, In, arith,
}
use backend_live_canvas.Core.Errors.{default_detail}
use backend_live_canvas.Core.Exec.{ok}
use backend_live_canvas.Audit.{record_action}
use backend_live_canvas.Iap.Models.{
  ios, active, refunded, stale_ignored, SubscriptionEntitlement, StoreNotificationEvent,
  NotificationEvent, IapDb, platform_value, status_value, grants_access, is_entitled_status,
}
use backend_live_canvas.Iap.Tables.{find_event, audit}
use backend_live_canvas.Iap.Verify.{conflicts, guard_conflict, write_entitlement, verify_receipt}
use backend_live_canvas.Iap.Gate.{resolve, is_entitled}
use backend_live_canvas.Iap.Notify.{
  is_stale, apply_subscription, audit_applied, apply_new, apply_notification,
}
use backend_live_canvas.Iap.Notify.Revoked.{Delivered-is_entitled}
use backend_live_canvas.Iap.Notify.Newest.{Report, Delivered, start, accepted}
use backend_live_canvas.Tests.Iap.{empty_db, empty_db-IsWellFormed, monthly, first_row}
use backend_live_canvas.Tests.Notify.{refund, renewal, refund_entry, renewal_entry, absent_at_first}

program : Unit {0}
unfolding str_eq first update exists record_action platform_value status_value grants_access audit
    conflicts guard_conflict write_entitlement verify_receipt resolve is_entitled is_stale
    apply_subscription audit_applied apply_new apply_notification default_detail
program = tt

-- The renewal is delivered after the refund, which is newer.
abbrev late_refund : NotificationEvent
late_refund = record refund { store_event_at = some 99 }

abbrev refund_first_db : IapDb
refund_first_db = (apply_notification 100 late_refund empty_db).1

abbrev refund_then_renewal_db : IapDb
refund_then_renewal_db = (apply_notification 101 renewal refund_first_db).1

abbrev refund_first_entry : StoreNotificationEvent
refund_first_entry = record refund_entry { store_event_at = some 99; received_at = 100 }

abbrev late_renewal_entry : StoreNotificationEvent
late_renewal_entry = record renewal_entry { outcome = stale_ignored; received_at = 101 }

refund_first_run :
    apply_notification 100 late_refund empty_db ≡ (ok refund_first_entry, refund_first_db)
unfolding program
refund_first_run = refl

late_renewal_run :
    apply_notification 101 renewal refund_first_db ≡ (ok late_renewal_entry, refund_then_renewal_db)
unfolding program
late_renewal_run = refl

refund_unseen_first : find_event ios "n1" empty_db.notifications ≡ none
unfolding program
refund_unseen_first = refl

renewal_unseen_then : find_event ios "n2" refund_first_db.notifications ≡ none
unfolding program
renewal_unseen_then = refl

abbrev refund_newest : List Report
refund_newest = record { time = 80; status = active } ∷ record { time = 99; status = refunded } ∷ []

refund_newest_delivery : Delivered ios "o1" refund_newest refund_then_renewal_db
refund_newest_delivery =
    accepted
      (accepted (start empty_db empty_db-IsWellFormed (inl absent_at_first)) 100 late_refund
        (record monthly { status = refunded }) (record { time = 99; status = refunded })
        refund_first_entry refl refl refl refl refl refund_unseen_first refund_first_run)
      101 renewal (record monthly { latest_transaction_id = "t3" })
      (record { time = 80; status = active }) late_renewal_entry refl refl refl refl refl
      renewal_unseen_then late_renewal_run

refund_is_newest :
    (m : Report)
    → In m refund_newest
    → All (λ y. y.time ≤ m.time) refund_newest
    → is_entitled_status m.status ≡ false
refund_is_newest m (inl e) (l, (k, n)) =
    let q : m.time ≡ 80 = ap (λ (r : Report). r.time) e in absurd (omega arith)
refund_is_newest m (inr (inl e)) all = ap (λ (r : Report). is_entitled_status r.status) e
refund_is_newest m (inr (inr h)) all = elim h [ ]

abbrev revoked_row : SubscriptionEntitlement
revoked_row = record first_row {
  status = refunded;
  origin_device_id = "";
  last_store_event_at = some 99;
  last_verified_at = 100;
  created_at = 100;
  updated_at = 100;
}

o1_resolves : resolve "o1" refund_then_renewal_db ≡ some revoked_row
unfolding program
o1_resolves = refl

Delivered-is_entitled_example : is_entitled 102 (some "o1") refund_then_renewal_db ≡ false
Delivered-is_entitled_example =
    Delivered-is_entitled ios "o1" refund_newest_delivery refund_is_newest "o1" revoked_row
      o1_resolves refl refl 102

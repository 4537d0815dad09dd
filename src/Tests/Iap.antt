-- ===== src/Tests/Iap.antt =====
-- Runs of apps/iap/services.py.
use backend_live_canvas.Prelude.{
  ℕ, sym, String, ◌≡◌, ◌≢◌, refl, true, none, some, [], ◌∷◌, first, update, exists, str_eq,
  str_eq_iff, truthy, if◌then◌else◌,
}
use backend_live_canvas.Core.Errors.{AppErrorClass, default_detail, raised}
use backend_live_canvas.Core.Exec.{Result, ok, err}
use backend_live_canvas.Audit.{record_action}
use backend_live_canvas.Iap.Models.{
  IapPlatform, ios, active, SubscriptionEntitlement, StoreSubscription, EntitlementTransaction,
  IapDb, platform_value, status_value, grants_access,
}
use backend_live_canvas.Iap.Tables.{entitlement_by_id, find_ref, audit}
use backend_live_canvas.Iap.Verify.{conflicts, guard_conflict, write_entitlement, verify_receipt}
use backend_live_canvas.Iap.Verify.Written.{IsWellFormed}
use backend_live_canvas.Iap.Verify.Receipt.{BoundTo}
use backend_live_canvas.Iap.Verify.Outcome.{
  HasStoreState, verify_receipt-BoundTo, verify_receipt-IsWellFormed, verify_receipt_rebound,
}
use backend_live_canvas.Iap.Gate.{resolve, is_entitled}
use backend_live_canvas.Iap.Gate.Access.{IsOfPlatform, reports_access, verify_receipt-is_entitled}
use backend_live_canvas.Iap.Notify.{
  is_stale, apply_subscription, audit_applied, apply_new, apply_notification,
}

program : Unit {0}
unfolding str_eq first update exists record_action platform_value status_value grants_access audit
    conflicts guard_conflict write_entitlement verify_receipt resolve is_entitled is_stale
    apply_subscription audit_applied apply_new apply_notification default_detail
program = tt

abbrev pub empty_db : IapDb
empty_db = record {
  entitlements = [];
  next_id = 1;
  transactions = [];
  notifications = [];
  audit_log = [];
}

pub empty_db-IsWellFormed : IsWellFormed empty_db
empty_db-IsWellFormed = record { keyed = tt; refs = tt; only = tt }

abbrev pub monthly : StoreSubscription
monthly = record {
  platform = ios;
  original_transaction_id = "o1";
  latest_transaction_id = "t2";
  product_id = "monthly";
  status = active;
  expires_at = some 1000;
  auto_renew = true;
  transaction_ids = "o1" ∷ "t1" ∷ [];
}

abbrev other_account : StoreSubscription
other_account = record monthly { original_transaction_id = "o9" }

abbrev pub store : IapPlatform → String → String → String → Result StoreSubscription
store p receipt txn product = if◌then◌else◌ (str_eq receipt "r9") (ok other_account) (ok monthly)

abbrev pub first_row : SubscriptionEntitlement
first_row = record {
  id = 1;
  platform = ios;
  original_transaction_id = "o1";
  latest_transaction_id = "t2";
  product_id = "monthly";
  status = active;
  expires_at = some 1000;
  auto_renew = true;
  origin_device_id = "phone";
  last_store_event_at = none;
  last_verified_at = 10;
  created_at = 10;
  updated_at = 10;
}

abbrev pub verified_db : IapDb
verified_db = (verify_receipt store 10 ios "r1" "t1" "monthly" "phone" empty_db).1

pub verify_receipt_run :
    verify_receipt store 10 ios "r1" "t1" "monthly" "phone" empty_db ≡ (ok first_row, verified_db)
unfolding program
verify_receipt_run = refl

pub t1_given : truthy "t1" ≡ true
unfolding str_eq
t1_given = refl

verify_receipt-BoundTo_example :
    (sub : StoreSubscription) × (store ios "r1" "t1" "monthly" ≡ ok sub)
    × HasStoreState sub first_row
    × BoundTo sub "t1" first_row verified_db
verify_receipt-BoundTo_example =
    verify_receipt-BoundTo store 10 ios "r1" "t1" "monthly" "phone" empty_db empty_db-IsWellFormed
      t1_given verify_receipt_run

pub verified_db-IsWellFormed : IsWellFormed verified_db
verified_db-IsWellFormed =
    verify_receipt-IsWellFormed store 10 ios "r1" "t1" "monthly" "phone" empty_db
      empty_db-IsWellFormed

verify_receipt-IsWellFormed_example :
    IsWellFormed (verify_receipt store 10 ios "r9" "t1" "monthly" "phone" verified_db).1
verify_receipt-IsWellFormed_example =
    verify_receipt-IsWellFormed store 10 ios "r9" "t1" "monthly" "phone" verified_db
      verified_db-IsWellFormed

abbrev t1_ref : EntitlementTransaction
t1_ref = record { entitlement = 1; platform = ios; transaction_id = "t1" }

t1_ref_found : find_ref ios "t1" verified_db.transactions ≡ some t1_ref
unfolding program
t1_ref_found = refl

first_row_found : entitlement_by_id 1 verified_db.entitlements ≡ some first_row
unfolding program
first_row_found = refl

o1-ne-o9 : ◌≢◌ {A = String} "o1" "o9"
unfolding str_eq
o1-ne-o9 e = cc ((str_eq_iff "o1" "o9").1 e)

monthly_reported : store ios "r1" "t1" "monthly" ≡ ok monthly
unfolding str_eq
monthly_reported = refl

other_account_reported : store ios "r9" "t1" "monthly" ≡ ok other_account
unfolding str_eq
other_account_reported = refl

verify_receipt_rebound_example :
    verify_receipt store 11 ios "r9" "t1" "monthly" "phone" verified_db
    ≡ (err (raised AppErrorClass.receipt_conflict), verified_db)
verify_receipt_rebound_example =
    verify_receipt_rebound store 10 ios "r1" "t1" "monthly" "phone" empty_db monthly
      empty_db-IsWellFormed t1_given monthly_reported verify_receipt_run store 11 ios "r9" "monthly"
      "phone" other_account other_account_reported refl (λ e. o1-ne-o9 (sym e))

pub one_platform : IsOfPlatform ios "t1" verified_db.transactions
unfolding program
one_platform = (λ _. refl, (λ _. refl, (λ _. refl, tt)))

verify_receipt-is_entitled_example :
    (sub : StoreSubscription) × (store ios "r1" "t1" "monthly" ≡ ok sub)
    × ((later : ℕ) → is_entitled later (some "t1") verified_db ≡ reports_access sub later)
verify_receipt-is_entitled_example =
    verify_receipt-is_entitled store 10 ios "r1" "t1" "monthly" "phone" empty_db
      empty_db-IsWellFormed t1_given verify_receipt_run one_platform

gate_open : is_entitled 500 (some "t1") verified_db ≡ true
unfolding program
gate_open = refl

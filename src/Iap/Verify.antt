-- ===== src/Iap/Verify.antt =====
-- apps/iap/services.py: `verify_receipt` and `_write_entitlement`. The adapters of the stores are an
-- argument.
pub mod Index
pub mod Invariant
pub mod Refs
pub mod Written
pub mod Receipt
pub mod Outcome
pub mod Idempotent
use backend_live_canvas.Prelude.{
  ℕ, ◌+◌, String, Bool, false, not, Option, none, some, List, [], ◌∷◌, ◌++◌, ◌==◌, str_eq, truthy,
  or_else, update, if◌then◌else◌,
}
use backend_live_canvas.Core.Errors.{AppErrorClass, raised}
use backend_live_canvas.Core.Exec.{Result, ok, err, Exec, pure, lift, ◌>>=◌, ◌>>◌}
use backend_live_canvas.Audit.{end}
use backend_live_canvas.Iap.Models.{
  IapPlatform, SubscriptionEntitlement, EntitlementTransaction, StoreSubscription, IapDb,
}
use backend_live_canvas.Iap.Tables.{find_entitlement, entitlement_by_id, find_ref, audit}

abbrev bound_elsewhere : StoreSubscription → Option SubscriptionEntitlement → Bool
bound_elsewhere sub none = false
bound_elsewhere sub (some e) = not (str_eq e.original_transaction_id sub.original_transaction_id)

-- The test of `_guard_conflict`.
unfoldable pub conflicts : StoreSubscription → String → IapDb → Bool
conflicts sub incoming db = elim (find_ref sub.platform incoming db.transactions) [
  | none ↦ false
  | some ref ↦ bound_elsewhere sub (entitlement_by_id ref.entitlement db.entitlements)
]

-- `_guard_conflict`
unfoldable pub guard_conflict : StoreSubscription → String → Exec IapDb Unit
guard_conflict sub incoming db =
    if conflicts sub incoming db
    then (err (raised AppErrorClass.receipt_conflict), db)
    else (ok tt, db)

-- The row that `get_or_create` inserts: the defaults of the call and of the model.
unfoldable pub new_entitlement : ℕ → ℕ → StoreSubscription → String → SubscriptionEntitlement
new_entitlement now i sub device = record {
  id = i;
  platform = sub.platform;
  original_transaction_id = sub.original_transaction_id;
  latest_transaction_id = sub.latest_transaction_id;
  product_id = sub.product_id;
  status = sub.status;
  expires_at = sub.expires_at;
  auto_renew = sub.auto_renew;
  origin_device_id = device;
  last_store_event_at = none;
  last_verified_at = now;
  created_at = now;
  updated_at = now;
}

abbrev or_kept : Option ℕ → Option ℕ → Option ℕ
or_kept none old = old
or_kept (some t) old = some t

-- The assignments of `_write_entitlement` before `save`.
unfoldable pub refreshed :
    ℕ → StoreSubscription → String → Option ℕ → SubscriptionEntitlement → SubscriptionEntitlement
refreshed now sub device event_at e = record e {
  product_id = sub.product_id;
  status = sub.status;
  expires_at = sub.expires_at;
  auto_renew = sub.auto_renew;
  latest_transaction_id = sub.latest_transaction_id;
  last_verified_at = now;
  last_store_event_at = or_kept event_at e.last_store_event_at;
  origin_device_id = or_else e.origin_device_id device;
  updated_at = now;
}

-- `SubscriptionEntitlement.objects.get_or_create`
unfoldable pub get_or_create :
    ℕ → StoreSubscription → String → IapDb → SubscriptionEntitlement × IapDb
unfolding new_entitlement
get_or_create now sub device db =
    elim (find_entitlement sub.platform sub.original_transaction_id db.entitlements) [
      | some e ↦ (e, db)
      | none ↦
          let e = new_entitlement now db.next_id sub device in
          (e, record db { entitlements = db.entitlements ++ e ∷ []; next_id = db.next_id + 1 })
    ]

-- `entitlement.save()`
unfoldable pub save : SubscriptionEntitlement → IapDb → IapDb
save e db = record db { entitlements = update (λ r. r.id == e.id) (λ _. e) db.entitlements }

-- One round of the loop over the ids: an id that is known already keeps its row.
unfoldable pub index_id :
    IapPlatform → ℕ → String → List EntitlementTransaction → List EntitlementTransaction
index_id p i txn refs =
    if truthy txn
    then elim (find_ref p txn refs) [
      | some r ↦ refs
      | none ↦ refs ++ record { entitlement = i; platform = p; transaction_id = txn } ∷ []
    ]
    else refs

unfoldable pub index_ids :
    IapPlatform → ℕ → List String → List EntitlementTransaction → List EntitlementTransaction
unfolding index_id
index_ids p i [] refs = refs
index_ids p i (txn ∷ txns) refs = index_ids p i txns (index_id p i txn refs)

-- The ids of the loop. Python walks them as a set, in an order of its own; a repeated id changes
-- nothing, since its row is there the second time.
abbrev pub chain_ids : StoreSubscription → String → List String
chain_ids sub incoming = sub.transaction_ids ++ incoming ∷ sub.latest_transaction_id ∷ []

-- `_write_entitlement`
unfoldable pub write_entitlement :
    ℕ → StoreSubscription → String → String → Option ℕ → IapDb → SubscriptionEntitlement × IapDb
unfolding get_or_create refreshed save index_ids
write_entitlement now sub device incoming event_at db =
    let (e, db1) = get_or_create now sub device db in
    let e' = refreshed now sub device event_at e in
    let db2 = save e' db1 in
    (
      e',
      record db2 {
        transactions = index_ids sub.platform e'.id (chain_ids sub incoming) db2.transactions;
      },
    )

abbrev pub write :
    ℕ → StoreSubscription → String → String → Option ℕ → Exec IapDb SubscriptionEntitlement
write now sub device incoming event_at db =
    let (e, db') = write_entitlement now sub device incoming event_at db in (ok e, db')

-- `verify_receipt`; `adapter` is `_ADAPTERS[platform].verify` on receipt, transaction and product.
unfoldable pub verify_receipt :
    (IapPlatform → String → String → String → Result StoreSubscription)
    → ℕ
    → IapPlatform
    → String
    → String
    → String
    → String
    → Exec IapDb SubscriptionEntitlement
verify_receipt adapter now platform receipt txn product device = do
  sub ← lift (adapter platform receipt txn product)
  guard_conflict sub txn
  e ← write now sub device txn none
  audit now e "iap.verify" "app" end
  pure e

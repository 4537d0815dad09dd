-- ===== src/Iap/Gate.antt =====
-- apps/iap/services.py: which entitlement a transaction id resolves to, and whether it grants access.
pub mod Access
use backend_live_canvas.Prelude.{
  ℕ, String, Bool, false, Option, none, some, str_eq, truthy, first, if◌then◌else◌,
}
use backend_live_canvas.Core.Errors.{Exc}
use backend_live_canvas.Core.Exec.{ok, err, Exec}
use backend_live_canvas.Iap.Models.{SubscriptionEntitlement, IapDb, grants_access}
use backend_live_canvas.Iap.Tables.{entitlement_by_id}

-- `_resolve`: the first row of the index with the id, whatever its platform.
unfoldable pub resolve : String → IapDb → Option SubscriptionEntitlement
resolve txn db =
    if truthy txn
    then elim (first (λ r. str_eq r.transaction_id txn) db.transactions) [
      | none ↦ none
      | some ref ↦ entitlement_by_id ref.entitlement db.entitlements
    ]
    else none

abbrev pub text_or_empty : Option String → String
text_or_empty none = ""
text_or_empty (some s) = s

-- `is_entitled`
unfoldable pub is_entitled : ℕ → Option String → IapDb → Bool
is_entitled now txn db = elim (resolve (text_or_empty txn) db) [
  | none ↦ false
  | some e ↦ grants_access e now
]

-- `resolve_status`
unfoldable pub resolve_status : String → Exec IapDb SubscriptionEntitlement
resolve_status txn db = elim (resolve txn db) [
  | none ↦ (err (Exc.http404 "No subscription for this transaction."), db)
  | some e ↦ (ok e, db)
]

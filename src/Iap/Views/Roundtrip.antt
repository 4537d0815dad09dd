-- ===== src/Iap/Views/Roundtrip.antt =====
-- POST /iap/verify-receipt and GET /iap/subscription-status (apps/iap/views.py) agree on a
-- subscription.
use backend_live_canvas.Prelude.{
  ℕ, String, ◌≡◌, sym, subst, ◌∙◌, true, false, Option, none, some, truthy, arith,
}
use backend_live_canvas.Core.Exec.{Result, ok, bind_ok, ok_pair}
use backend_live_canvas.Core.Text.{strip}
use backend_live_canvas.Iap.Models.{IapPlatform, SubscriptionEntitlement, StoreSubscription, IapDb}
use backend_live_canvas.Iap.Verify.{verify_receipt}
use backend_live_canvas.Iap.Verify.Written.{IsWellFormed}
use backend_live_canvas.Iap.Gate.{resolve, resolve_status}
use backend_live_canvas.Iap.Gate.Access.{IsOfPlatform, verify_receipt-resolve}
use backend_live_canvas.Iap.Views.{
  CharFields, Body, VerifyReceiptRequest, SubscriptionStatus, read_request, subscription_status,
  post_verify_receipt, get_subscription_status,
}

-- The documented reading of a required text: it has no white space around it, and is not blank.
abbrev pub Trims : CharFields → Type 0
Trims fields =
    (given : Option String) (s : String)
    → fields.read false none given ≡ some s
    → (strip s ≡ s) × (truthy s ≡ true)

-- A request that was read has a transaction id that was read.
read_request-transaction :
    (fields : CharFields) (b : Body) {r : VerifyReceiptRequest}
    → read_request fields b ≡ some r
    → fields.read false none b.transaction_id ≡ some r.transaction_id
unfolding read_request
read_request-transaction fields b h = ground arith

-- The status view answers with the entitlement that a trimmed id resolves to.
get_subscription_status-resolve :
    (shown txn : String) (db : IapDb) {e : SubscriptionEntitlement}
    → strip shown ≡ txn
    → truthy txn ≡ true
    → resolve txn db ≡ some e
    → get_subscription_status (some shown) db ≡ (ok (subscription_status e), db)
unfolding get_subscription_status resolve_status
get_subscription_status-resolve shown txn db h given r = rw h (rw given (rw (r, resolve_status)))

-- After POST /iap/verify-receipt returned a status, GET /iap/subscription-status returns the same
-- one for the transaction id of the request, with or without white space around it, and writes
-- nothing, provided that the index rows of this id all stand on one platform.
pub post_verify_receipt-get_status :
    (fields : CharFields)
    (adapter : IapPlatform → String → String → String → Result StoreSubscription) (now : ℕ)
    (body : Body) (shown : String) (db db' : IapDb) (q : IapPlatform) {r : VerifyReceiptRequest}
    {status : SubscriptionStatus}
    → Trims fields
    → IsWellFormed db
    → read_request fields body ≡ some r
    → strip shown ≡ r.transaction_id
    → post_verify_receipt fields adapter now body db ≡ (ok status, db')
    → IsOfPlatform q r.transaction_id db'.transactions
    → get_subscription_status (some shown) db' ≡ (ok status, db')
unfolding post_verify_receipt
post_verify_receipt-get_status fields adapter now body shown db db' q {r} {status} trims w got same
      h only =
    let given =
      (trims body.transaction_id r.transaction_id (read_request-transaction fields body got)).1 in
    let (e, t, called, answered) =
      bind_ok
        (verify_receipt adapter now r.platform r.receipt_data r.transaction_id r.product_id
          r.device_id)
        _ db (rw got at h) in
    let (shown_status, left) = ok_pair (subscription_status e) t answered in
    let resolved =
      verify_receipt-resolve adapter now r.platform r.receipt_data r.transaction_id r.product_id
        r.device_id db w given called q
        (subst (λ (d : IapDb). IsOfPlatform q r.transaction_id d.transactions) (sym left) only) in
    rw (← left) (
      get_subscription_status-resolve shown r.transaction_id t same given resolved
      ∙ (rw shown_status))

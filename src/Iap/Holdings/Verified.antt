-- ===== src/Iap/Holdings/Verified.antt =====
-- `verify_receipt` (apps/iap/services.py) refines one write of the holdings.
use backend_live_canvas.Prelude.{ℕ, String, ◌≡◌, refl, ◌∙◌, inl, inr, ◌⊎◌, none, Bool-cases}
use backend_live_canvas.Core.Exec.{Result, ok, err, Outcome, Result-cases}
use backend_live_canvas.Audit.{end, Members}
use backend_live_canvas.Iap.Models.{IapPlatform, SubscriptionEntitlement, StoreSubscription, IapDb}
use backend_live_canvas.Iap.Tables.{audit}
use backend_live_canvas.Iap.Verify.{conflicts, verify_receipt}
use backend_live_canvas.Iap.Verify.Outcome.{
  written, audited, sealed, accepted, refused_by_store, refused_by_guard,
}
use backend_live_canvas.Iap.Verify.Written.{IsWellFormed}
use backend_live_canvas.Iap.Holdings.{put, view}
use backend_live_canvas.Iap.Holdings.Refines.{write_entitlement-put}

audit-view :
    (now : ℕ) (e : SubscriptionEntitlement) (action label : String) (extra : Members) (db : IapDb)
    → view (audit now e action label extra db).1 ≡ view db
unfolding audit
audit-view now e action label extra db = refl

module _ (adapter : IapPlatform → String → String → String → Result StoreSubscription) (now : ℕ)
    (p : IapPlatform) (receipt txn product device : String) (db : IapDb) where
  -- The holdings are those before, with what the store reports written.
  abbrev pub HasReported : IapDb → Type 0
  HasReported db' =
      (sub : StoreSubscription) × (adapter p receipt txn product ≡ ok sub)
      × (view db' ≡ put sub none (view db))

  sealed_view :
      (e : SubscriptionEntitlement) (r : Result (Unit {0})) (db' : IapDb)
      → HasReported db'
      → Outcome (λ _. HasReported) (λ x t. (t ≡ db) ⊎ HasReported t) (sealed e r db')
  sealed_view e (ok _) db' h = h
  sealed_view e (err x) db' h = inr h

  -- A success writes the state that the store reports to the holding of its subscription, and
  -- changes no other holding. A failure changes nothing, unless the write was done and its audit
  -- raised.
  pub verify_receipt-put :
      IsWellFormed db
      → Outcome
          (λ _. HasReported)
          (λ x t. (t ≡ db) ⊎ HasReported t)
          (verify_receipt adapter now p receipt txn product device db)
  verify_receipt-put w = elim (Result-cases (adapter p receipt txn product)) [
    | inr (x, h) ↦ rw (refused_by_store adapter now p receipt txn product device db x h) (inl refl)
    | inl (sub, h) ↦ elim (Bool-cases (conflicts sub txn db)) [
      | inl c ↦ rw (refused_by_guard adapter now p receipt txn product device db sub h c) (inl refl)
      | inr c ↦
          let row = (written adapter now p receipt txn product device db sub).0 in
          let r = audited adapter now p receipt txn product device db sub in
          rw (accepted adapter now p receipt txn product device db sub h c) (
            sealed_view row r.0 r.1 (
              sub,
              h,
              audit-view now row "iap.verify" "app" end
                    (written adapter now p receipt txn product device db sub).1
                  ∙ write_entitlement-put now sub device txn none db w,
            ))
    ]
  ]

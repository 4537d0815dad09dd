-- ===== src/Iap/Notify/Revoked.antt =====
-- A revocation stands against late notifications (apps/iap/services.py).
use backend_live_canvas.Prelude.{ℕ, String, ◌≡◌, ap, ◌≤◌, ◌∙◌, false, some, List, ◌∷◌, All, In}
use backend_live_canvas.Iap.Models.{IapPlatform, SubscriptionEntitlement, IapDb, is_entitled_status}
use backend_live_canvas.Iap.Gate.{resolve, is_entitled}
use backend_live_canvas.Iap.Gate.Access.{is_entitled_revoked}
use backend_live_canvas.Iap.Notify.Newest.{Report, Delivered, Delivered-Newest}

-- Dated notifications about a subscription came late, early or repeated, between notifications about
-- others, from a state in which no dated one had written its entitlement, and none without a date and
-- no verification of a receipt came in between. If no report than which none is newer grants access,
-- the gate refuses every id that resolves to the subscription, at any time: an older report that
-- arrives later opens it for nobody.
pub Delivered-is_entitled :
    (p : IapPlatform) (o : String) {x : Report} {xs : List Report} {db : IapDb}
    → Delivered p o (x ∷ xs) db
    → ((m : Report)
        → In m (x ∷ xs)
        → All (λ y. y.time ≤ m.time) (x ∷ xs)
        → is_entitled_status m.status ≡ false)
    → (t : String) (e : SubscriptionEntitlement) → resolve t db ≡ some e
    → e.platform ≡ p
    → e.original_transaction_id ≡ o
    → (now : ℕ) → is_entitled now (some t) db ≡ false
Delivered-is_entitled p o {db = db} d revoked t e r plat orig now =
    let (n, w) = Delivered-Newest p o d in
    let (row, m, f, time, status, i, all) = n in
    is_entitled_revoked db p o row e t now w f (ap is_entitled_status status ∙ revoked m i all) r
      plat orig

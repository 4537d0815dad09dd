-- ===== src/Wallpapers/Download/Purchase.antt =====
-- From a purchase to a download (apps/iap/services.py and apps/wallpapers/services.py).
use backend_live_canvas.Prelude.{
  ℕ, ◌≡◌, ap, ◌∙◌, String, Bool, true, false, none, some, truthy, if◌then◌else◌,
}
use backend_live_canvas.Core.Errors.{AppErrorClass, raised}
use backend_live_canvas.Core.Exec.{Result, ok, err}
use backend_live_canvas.Uploads.Storage.{Settings, presign_download}
use backend_live_canvas.Iap.Models.{IapPlatform, StoreSubscription, SubscriptionEntitlement, IapDb}
use backend_live_canvas.Iap.Verify.{verify_receipt}
use backend_live_canvas.Iap.Verify.Written.{IsWellFormed}
use backend_live_canvas.Iap.Gate.{is_entitled}
use backend_live_canvas.Iap.Gate.Access.{IsOfPlatform, reports_access, verify_receipt-is_entitled}
use backend_live_canvas.Wallpapers.Models.{Wallpaper, Db}
use backend_live_canvas.Wallpapers.Queries.{text_of, get_published_or_404}
use backend_live_canvas.Wallpapers.Download.{build_download_url, get_download_url}
use backend_live_canvas.Core.Text.{strip}

gated :
    (s : Settings) (later : ℕ) (w : Wallpaper) (txn : String) (db : IapDb) (granted : Bool)
    → w.is_premium ≡ true
    → truthy (text_of w.master_key) ≡ true
    → is_entitled later (some txn) db ≡ granted
    → build_download_url s later w (some txn) db ≡ (
        if granted
        then ok (presign_download s later (text_of w.master_key) none)
        else err (raised AppErrorClass.entitlement_required))
unfolding build_download_url
gated s later w txn db true p m e = rw (p, e, m)
gated s later w txn db false p m e = rw (p, e)

-- After a receipt was verified, the download endpoint hands out a published premium wallpaper that is
-- hosted for the transaction id at exactly the times at which the status that the store reported
-- grants access and the expiry that it reported is not past, and answers ENTITLEMENT_REQUIRED at
-- every other time; the tables were well-formed, the id is not empty and has no white space around
-- it, and no index row of it stands on the other platform.
pub verify_receipt-get_download_url :
    (adapter : IapPlatform → String → String → String → Result StoreSubscription) (now : ℕ)
    (p : IapPlatform) (receipt txn product device : String) (db : IapDb)
    {e : SubscriptionEntitlement} {db' : IapDb}
    → IsWellFormed db
    → truthy txn ≡ true
    → strip txn ≡ txn
    → verify_receipt adapter now p receipt txn product device db ≡ (ok e, db')
    → IsOfPlatform e.platform txn db'.transactions
    → (s : Settings) (i : ℕ) (content : Db) (w : Wallpaper) → get_published_or_404 i content ≡ ok w
    → w.is_premium ≡ true
    → truthy (text_of w.master_key) ≡ true
    → (sub : StoreSubscription) × (adapter p receipt txn product ≡ ok sub)
      × ((later : ℕ)
          → get_download_url s later i (some txn) content db' ≡ (
              if reports_access sub later
              then ok (presign_download s later (text_of w.master_key) none)
              else err (raised AppErrorClass.entitlement_required)))
unfolding get_download_url
verify_receipt-get_download_url adapter now p receipt txn product device db {db' = db'} wf given
      trimmed run only s i content w found premium master =
    let (sub, called, gate) =
      verify_receipt-is_entitled adapter now p receipt txn product device db wf given run only in
    (
      sub,
      called,
      λ later.
          rw (found, get_download_url)
            (gated s later w (strip txn) db' (reports_access sub later) premium master
              (ap (λ t. is_entitled later (some t) db') trimmed ∙ gate later)),
    )

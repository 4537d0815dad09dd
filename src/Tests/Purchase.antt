-- ===== src/Tests/Purchase.antt =====
-- A purchase, and the download that it opens.
use backend_live_canvas.Prelude.{
  ℕ, ◌≡◌, refl, true, some, none, [], ◌∷◌, first, str_eq, truthy, if◌then◌else◌,
}
use backend_live_canvas.Core.Errors.{AppErrorClass, raised}
use backend_live_canvas.Core.Exec.{ok, err}
use backend_live_canvas.Core.Text.{strip}
use backend_live_canvas.Uploads.Storage.{presign_download}
use backend_live_canvas.Iap.Models.{ios, StoreSubscription}
use backend_live_canvas.Iap.Gate.Access.{reports_access}
use backend_live_canvas.Wallpapers.Models.{Wallpaper, Db, is_published}
use backend_live_canvas.Wallpapers.Queries.{get_published_or_404}
use backend_live_canvas.Wallpapers.Download.{get_download_url}
use backend_live_canvas.Wallpapers.Download.Purchase.{verify_receipt-get_download_url}
use backend_live_canvas.Tests.Catalog.{sea, limits, catalog}
use backend_live_canvas.Tests.Iap.{
  store, empty_db, empty_db-IsWellFormed, verified_db, verify_receipt_run, t1_given, one_platform,
}

abbrev premium_sea : Wallpaper
premium_sea = record sea { is_premium = true }

sea_hosted : truthy "masters/sea.mp4" ≡ true
unfolding str_eq
sea_hosted = refl

abbrev shop : Db
shop = record catalog { wallpapers = premium_sea ∷ [] }

sea_found : get_published_or_404 1 shop ≡ ok premium_sea
unfolding get_published_or_404 first is_published
sea_found = refl

t1_trimmed : strip "t1" ≡ "t1"
unfolding strip str_eq
t1_trimmed = refl

verify_receipt-get_download_url_example :
    (sub : StoreSubscription) × (store ios "r1" "t1" "monthly" ≡ ok sub)
    × ((later : ℕ)
        → get_download_url limits later 1 (some "t1") shop verified_db ≡ (
            if reports_access sub later
            then ok (presign_download limits later "masters/sea.mp4" none)
            else err (raised AppErrorClass.entitlement_required)))
verify_receipt-get_download_url_example =
    verify_receipt-get_download_url store 10 ios "r1" "t1" "monthly" "phone" empty_db
      empty_db-IsWellFormed t1_given t1_trimmed verify_receipt_run one_platform limits 1 shop
      premium_sea sea_found refl sea_hosted

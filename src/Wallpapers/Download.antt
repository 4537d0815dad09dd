-- ===== src/Wallpapers/Download.antt =====
-- apps/wallpapers: the download link, behind the entitlement gate of the purchases app.
pub mod Link
pub mod Purchase
use backend_live_canvas.Prelude.{
  ℕ, String, Bool, true, false, ◌&&◌, not, Option, none, some, truthy, if◌then◌else◌,
}
use backend_live_canvas.Core.Errors.{Exc, AppErrorClass, raised}
use backend_live_canvas.Core.Exec.{Result, ok, err}
use backend_live_canvas.Uploads.Storage.{Settings, Presigned, presign_download}
use backend_live_canvas.Iap.Models.{IapDb}
use backend_live_canvas.Iap.Gate.{is_entitled}
use backend_live_canvas.Wallpapers.Models.{Wallpaper, Db}
use backend_live_canvas.Core.Text.{strip}
use backend_live_canvas.Wallpapers.Queries.{text_of, get_published_or_404}

-- `build_download_url`, at the time `now`; `iap` are the tables of the purchases app.
unfoldable pub build_download_url :
    Settings → ℕ → Wallpaper → Option String → IapDb → Result Presigned
build_download_url s now w txn iap =
    if w.is_premium && not (is_entitled now txn iap)
    then err (raised AppErrorClass.entitlement_required)
    else if truthy (text_of w.master_key)
    then ok (presign_download s now (text_of w.master_key) none)
    else err (Exc.http404 "")

abbrev with_wallpaper : Result Wallpaper → (Wallpaper → Result Presigned) → Result Presigned
with_wallpaper (ok w) f = f w
with_wallpaper (err e) f = err e

-- `WallpaperDownloadUrlView.get`
unfoldable pub get_download_url : Settings → ℕ → ℕ → Option String → Db → IapDb → Result Presigned
unfolding strip
get_download_url s now i txn db iap =
    with_wallpaper (get_published_or_404 i db)
      (λ w. build_download_url s now w (some (strip (text_of txn))) iap)

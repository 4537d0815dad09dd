-- ===== src/Wallpapers/Download/Link.antt =====
-- Who gets a download link, and what it opens (apps/wallpapers/services.py).
use backend_live_canvas.Prelude.{
  ℕ, ◌+◌, ◌≤◌, ◌≡◌, refl, ap, inl, inr, String, Bool, true, false, ◌&&◌, not, Option, none, some,
  str_eq, str_eq_refl, subst, first, first_sound, ◌==◌, ==_iff, and_true, truthy, Bool-cases,
  Option-cases, arith,
}
use backend_live_canvas.Core.Errors.{Exc, AppErrorClass, raised}
use backend_live_canvas.Core.Exec.{Result, ok, err}
use backend_live_canvas.Uploads.Storage.{Settings, Presigned, presign_download}
use backend_live_canvas.Iap.Models.{IapDb}
use backend_live_canvas.Iap.Gate.{is_entitled}
use backend_live_canvas.Wallpapers.Models.{Wallpaper, Db, is_published}
use backend_live_canvas.Core.Text.{strip}
use backend_live_canvas.Wallpapers.Queries.{text_of, get_published_or_404}
use backend_live_canvas.Wallpapers.Download.{build_download_url, get_download_url}

-- A link that the endpoint may hand out for the wallpaper `i`.
pub record IsAllowed (s : Settings) (now i : ℕ) (txn : Option String) (db : Db) (iap : IapDb)
    (link : Presigned) : Type 0 where
  pub wallpaper : Wallpaper
  pub asked_for : wallpaper.id ≡ i
  pub published : is_published wallpaper ≡ true
  pub master : wallpaper.master_key ≡ some link.key
  pub paid : wallpaper.is_premium ≡ true → is_entitled now (some (strip (text_of txn))) iap ≡ true
  pub private : link.bucket ≡ s.private_bucket
  pub short : link.expires_in ≤ s.download_ttl
  pub ends : link.expires_at ≡ now + link.expires_in

some-text_of : (o : Option String) → truthy (text_of o) ≡ true → o ≡ some (text_of o)
some-text_of none h = let e : not (str_eq "" "") ≡ false = ap not (str_eq_refl "") in absurd (cc)
some-text_of (some k) h = refl

module _ (s : Settings) (now i : ℕ) (txn : Option String) (db : Db) (iap : IapDb) where
  link_of :
      (w : Wallpaper)
      → first (λ v. is_published v && v.id == i) db.wallpapers ≡ some w
      → (w.is_premium ≡ true → is_entitled now (some (strip (text_of txn))) iap ≡ true)
      → truthy (text_of w.master_key) ≡ true
      → IsAllowed s now i txn db iap (presign_download s now (text_of w.master_key) none)
  unfolding presign_download
  link_of w h paid m =
      let found : is_published w && w.id == i ≡ true =
        first_sound (λ v. is_published v && v.id == i) db.wallpapers h in
      record {
        wallpaper = w;
        asked_for = (==_iff w.id i).0 (and_true (is_published w) (w.id == i) found).1;
        published = (and_true (is_published w) (w.id == i) found).0;
        master = some-text_of w.master_key m;
        paid = paid;
        private = refl;
        short = omega arith;
        ends = refl;
      }

  -- Every link that the endpoint hands out is for the published wallpaper with the primary key that
  -- was asked for, opens the master object of that wallpaper and only that, is paid for where the
  -- wallpaper is premium, and lives no longer than the download limit.
  pub get_download_url-IsAllowed :
      {link : Presigned}
      → get_download_url s now i txn db iap ≡ ok link
      → IsAllowed s now i txn db iap link
  unfolding get_download_url get_published_or_404 build_download_url
  get_download_url-IsAllowed {link} h =
      elim (Option-cases (first (λ v. is_published v && v.id == i) db.wallpapers)) [
        | inl e ↦ absurd (missing (rw (e, get_published_or_404) at h))
        | inr (w, e) ↦ found w e (rw (e, get_published_or_404) at h)
      ]
    where
      missing : ◌≡◌ {A = Result Presigned} (err (Exc.http404 "Wallpaper not found.")) (ok link) → ⊥
      missing q = cc

      found :
          (w : Wallpaper)
          → first (λ v. is_published v && v.id == i) db.wallpapers ≡ some w
          → build_download_url s now w (some (strip (text_of txn))) iap ≡ ok link
          → IsAllowed s now i txn db iap link
      found w e q =
          let gate : Bool =
            w.is_premium && not (is_entitled now (some (strip (text_of txn))) iap) in
          elim (Bool-cases gate) [
            | inl g ↦ absurd (refused (raised AppErrorClass.entitlement_required) (rw g at q))
            | inr g ↦ elim (Bool-cases (truthy (text_of w.master_key))) [
              | inr m ↦ absurd (refused (Exc.http404 "") (rw m at (rw g at q)))
              | inl m ↦
                  subst (λ l. IsAllowed s now i txn db iap l)
                    (same (presign_download s now (text_of w.master_key) none)
                      (rw m at (rw g at q)))
                    (link_of w e (λ p. ground arith) m)
            ]
          ]
        where
          refused : (x : Exc) → ◌≡◌ {A = Result Presigned} (err x) (ok link) → ⊥
          refused x q = cc

          same : (l : Presigned) → ◌≡◌ {A = Result Presigned} (ok l) (ok link) → l ≡ link
          same l q = cc

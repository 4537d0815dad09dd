-- ===== src/Uploads/Pipeline/Outcome.antt =====
-- What one run of the pipeline may leave (apps/uploads/tasks.py).
use backend_live_canvas.Prelude.{
  ℕ, ◌^◌, String, ◌≡◌, ◌≢◌, refl, ◌∙◌, ap, inl, inr, none, some, ◌==◌, ==_iff, leb, first_sound,
  truthy, concat, Bool-cases,
}
use backend_live_canvas.Uploads.Attempt.{Attempt, done, rejected, tool_failed, interrupted}
use backend_live_canvas.Uploads.Storage.{Settings}
use backend_live_canvas.Wallpapers.Models.{Wallpaper, WallpaperStatus, Db}
use backend_live_canvas.Uploads.Pipeline.{
  Media, Artifacts, World, TaskOutcome, wallpaper_by_id, failed_row, fail, published_row, publish,
  make_artifacts, conclude, text_of, process_row, process_wallpaper,
}
use backend_live_canvas.Uploads.Pipeline.Rows.{by_id-save_self, by_id-save_ne}

-- The media of a wallpaper that the backend hosts: all of them are there.
pub record IsHosted (w : Wallpaper) : Type 0 where
  pub master : (k : String) × (w.master_key ≡ some k)
  pub thumbnail : (k : String) × (w.thumbnail_key ≡ some k)
  pub preview : (k : String) × (w.preview_key ≡ some k)
  pub thumbnail_url : (u : String) × (w.thumbnail_url ≡ some u)
  pub preview_video_url : (u : String) × (w.preview_video_url ≡ some u)
  pub resolution : (r : String) × (w.resolution ≡ some r)
  pub duration : (d : ℕ) × (w.duration_seconds ≡ some d)
  pub size : (b : ℕ) × (w.file_size_bytes ≡ some b)
  pub no_failure : w.failure_reason ≡ none
  pub status : w.status ≡ WallpaperStatus.published
  pub no_staging : w.staging_key ≡ none

-- The row after a run, by what the run returned.
abbrev pub Ends : TaskOutcome → Wallpaper → Wallpaper → Type 0
Ends TaskOutcome.published w w' = IsHosted w'
Ends TaskOutcome.failed w w' = (reason : String) × (w' ≡ failed_row reason w)
Ends _ w w' = w' ≡ w

-- A run on the row `w`: what it returned fits what it left of the row, and every other row stays.
pub record RunOf (w : Wallpaper) (db : Db) (outcome : TaskOutcome) (db' : Db) : Type 0 where
  pub row : Wallpaper
  pub found : wallpaper_by_id w.id db'.wallpapers ≡ some row
  pub ends : Ends outcome w row
  pub others :
      (j : ℕ) → j ≢ w.id → wallpaper_by_id j db'.wallpapers ≡ wallpaper_by_id j db.wallpapers

module _ (s : Settings) (m : Media) (w : Wallpaper) where
  unchanged :
      (outcome : TaskOutcome) (db : Db)
      → wallpaper_by_id w.id db.wallpapers ≡ some w
      → Ends outcome w w
      → RunOf w db outcome db
  unchanged outcome db h e = record { row = w; found = h; ends = e; others = λ j n. refl }

  fail-RunOf :
      (reason : String) (world : World)
      → wallpaper_by_id w.id world.db.wallpapers ≡ some w
      → RunOf w world.db (fail reason w world).0 (fail reason w world).1.db
  unfolding fail
  fail-RunOf reason world h = record {
    row = failed_row reason w;
    found = by_id-save_self (failed_row reason w) w world.db h;
    ends = (reason, refl);
    others = λ j n. by_id-save_ne (failed_row reason w) j world.db n;
  }

  publish-RunOf :
      (staging : String) (a : Artifacts) (world : World)
      → wallpaper_by_id w.id world.db.wallpapers ≡ some w
      → RunOf w world.db (publish s m staging a w world).0 (publish s m staging a w world).1.db
  unfolding publish
  publish-RunOf staging a world h = record {
    row = published_row s m a w;
    found = by_id-save_self (published_row s m a w) w world.db h;
    ends = record {
      master = (_, refl);
      thumbnail = (_, refl);
      preview = (_, refl);
      thumbnail_url = (_, refl);
      preview_video_url = (_, refl);
      resolution = (_, refl);
      duration = (_, refl);
      size = (_, refl);
      no_failure = refl;
      status = refl;
      no_staging = refl;
    };
    others = λ j n. by_id-save_ne (published_row s m a w) j world.db n;
  }

  conclude-RunOf :
      (retries : ℕ) (staging : String) (r : Attempt Artifacts) (world : World)
      → wallpaper_by_id w.id world.db.wallpapers ≡ some w
      → RunOf w world.db
          (conclude s m retries staging w r world).0
          (conclude s m retries staging w r world).1.db
  unfolding conclude
  conclude-RunOf retries staging (done a) world h = publish-RunOf staging a world h
  conclude-RunOf retries staging (rejected reason) world h = fail-RunOf reason world h
  conclude-RunOf retries staging (tool_failed reason) world h = fail-RunOf reason world h
  conclude-RunOf retries staging (interrupted reason) world h = elim (Bool-cases (leb 3 retries)) [
    | inl e ↦ rw e (fail-RunOf (concat "pipeline error after retries: " reason) world h)
    | inr e ↦ rw e (unchanged (TaskOutcome.retry (2 ^ retries)) world.db h refl)
  ]

  process_row-RunOf :
      (retries : ℕ) (world : World)
      → wallpaper_by_id w.id world.db.wallpapers ≡ some w
      → RunOf w world.db (process_row s m retries w world).0 (process_row s m retries w world).1.db
  unfolding process_row
  process_row-RunOf retries world h = elim (Bool-cases (truthy (text_of w.master_key))) [
    | inl e ↦ rw e (unchanged TaskOutcome.already_processed world.db h refl)
    | inr e ↦ rw e (elim (Bool-cases (truthy (text_of w.staging_key))) [
      | inl f ↦
          let run = make_artifacts s m (text_of w.staging_key) world.objects in
          rw f (
            conclude-RunOf retries (text_of w.staging_key) run.0 (record world { objects = run.1 })
              h)
      | inr f ↦ rw f (fail-RunOf "no staging object recorded" world h)
    ])
  ]

-- A run on a wallpaper publishes its row with all media fields at once, or marks it failed and
-- leaves all else of it, or leaves it as it was; the row is found again, and no other row changes.
pub process_wallpaper-RunOf :
    (s : Settings) (m : Media) (retries i : ℕ) (w : Wallpaper) (world : World)
    → wallpaper_by_id i world.db.wallpapers ≡ some w
    → RunOf w world.db
        (process_wallpaper s m retries i world).0
        (process_wallpaper s m retries i world).1.db
unfolding process_wallpaper
process_wallpaper-RunOf s m retries i w world h =
    let e : w.id ≡ i = (==_iff w.id i).0 (first_sound (λ v. v.id == i) world.db.wallpapers h) in
    rw (h, process_wallpaper)
      (process_row-RunOf s m w retries world
        (ap (λ (k : ℕ). wallpaper_by_id k world.db.wallpapers) e ∙ h))

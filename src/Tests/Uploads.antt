-- ===== src/Tests/Uploads.antt =====
-- Runs of apps/uploads, and of the registration of an upload.
use backend_live_canvas.Prelude.{
  ◌≡◌, ◌≢◌, refl, true, none, some, [], ◌∷◌, every, first, exists, update, str_eq,
}
use backend_live_canvas.Core.Exec.{ok, Outcome}
use backend_live_canvas.Core.Errors.{Exc}
use backend_live_canvas.Audit.{Actor, record_action}
use backend_live_canvas.Uploads.Models.{video}
use backend_live_canvas.Uploads.Attempt.{done, interrupted}
use backend_live_canvas.Uploads.Pipeline.{
  Media, World, TaskOutcome, wallpaper_by_id, process_wallpaper, process_row, conclude,
  make_artifacts, publish,
}
use backend_live_canvas.Uploads.Pipeline.Outcome.{RunOf, process_wallpaper-RunOf}
use backend_live_canvas.Uploads.Pipeline.Retries.{IsBounded, process_wallpaper-IsBounded}
use backend_live_canvas.Uploads.Services.{consume_slot, consumed, start_processing}
use backend_live_canvas.Wallpapers.Models.{Orientation, WallpaperStatus, Wallpaper, Db}
use backend_live_canvas.Wallpapers.AdminViews.{CreateRequest, register, registered_row}
use backend_live_canvas.Wallpapers.AdminViews.Register.{register_once}
use backend_live_canvas.Tests.Catalog.{sea, catalog, limits, staged_slot}

-- A run in which every tool answers.
abbrev pub media : Media
media = record {
  head_size = λ key. done (some 1000);
  sniff = λ key. done "video/mp4";
  download_file = λ key. done tt;
  probe = done (record { width = 1080; height = 1920; duration = 12500000 });
  normalize_master = done tt;
  extract_thumbnail = done tt;
  render_preview = done tt;
  upload_file = λ key. done tt;
  master_size = 900;
  master_uuid = "aa";
  thumb_uuid = "bb";
  preview_uuid = "cc";
  deletes = true;
  round2 = λ d. 1250;
}

abbrev pub staged_sea : Wallpaper
staged_sea = record sea {
  master_key = none;
  staging_key = some "staging/a.mp4";
  status = WallpaperStatus.processing;
}

abbrev pub staged_world : World
staged_world = record { db = record catalog { wallpapers = staged_sea ∷ [] }; objects = [] }

pub staged_found : wallpaper_by_id 1 staged_world.db.wallpapers ≡ some staged_sea
unfolding first
staged_found = refl

staged_published : (process_wallpaper limits media 0 1 staged_world).0 ≡ TaskOutcome.published
unfolding process_wallpaper first str_eq process_row conclude make_artifacts publish
staged_published = refl

process_wallpaper-RunOf_example :
    RunOf staged_sea staged_world.db
      (process_wallpaper limits media 0 1 staged_world).0
      (process_wallpaper limits media 0 1 staged_world).1.db
process_wallpaper-RunOf_example =
    process_wallpaper-RunOf limits media 0 1 staged_sea staged_world staged_found

-- A run in which the storage is down.
abbrev pub offline : Media
offline = record media { head_size = λ key. interrupted "timeout" }

process_wallpaper-IsBounded_example :
    IsBounded 3 (process_wallpaper limits offline 3 1 staged_world).0
process_wallpaper-IsBounded_example = process_wallpaper-IsBounded limits offline 3 1 staged_world

abbrev claimed_catalog : Db
claimed_catalog = record catalog { slots = consumed 1000 staged_slot ∷ [] }

slot_claimed :
    consume_slot 1000 "staging/a.mp4" video catalog
    ≡ (ok (consumed 1000 staged_slot), claimed_catalog)
unfolding consume_slot first update str_eq
slot_claimed = refl

abbrev ops : Actor
ops = record { pk = some 1; username = "ops" }

abbrev request : CreateRequest
request = record {
  title = "Dunes";
  description = some "  ";
  category_id = 1;
  tag_ids = 2 ∷ 1 ∷ [];
  orientation = Orientation.landscape;
  is_premium = true;
  source_url = "https://example.org/dunes";
  license_type = "CC0";
  upload_key = "staging/a.mp4";
}

abbrev broker_down : Exc
broker_down = Exc.other "OperationalError"

abbrev dunes : Wallpaper
dunes = registered_row 1000 request (consumed 1000 staged_slot) claimed_catalog

abbrev after_dunes : Db
after_dunes = (register limits (ok (some 1000)) (ok tt) 1000 ops request catalog).1

dunes_registered :
    register limits (ok (some 1000)) (ok tt) 1000 ops request catalog ≡ (ok dunes, after_dunes)
unfolding register consume_slot first update str_eq exists every record_action start_processing
dunes_registered = refl

register_once_example :
    register limits (ok (some 5)) (ok tt) 2000 ops request after_dunes ≢ (ok dunes, after_dunes)
register_once_example =
    register_once limits (ok (some 1000)) (ok tt) 1000 ops request catalog ((λ e. refl, tt), tt)
      dunes_registered limits (ok (some 5)) (ok tt) 2000 ops request refl

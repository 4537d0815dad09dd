-- ===== src/Tests/Tasks.antt =====
-- Runs of apps/uploads/tasks.py over several attempts, and with the tools of apps/uploads/ffmpeg.py.
use backend_live_canvas.Prelude.{
  String, ◌≡◌, refl, true, false, none, some, first, update, take_text, str_eq, truthy, ◌==◌,
  if◌then◌else◌,
}
use backend_live_canvas.Uploads.Pipeline.{
  World, TaskOutcome, text_of, process_wallpaper, process_row, conclude, make_artifacts, publish,
  save_wallpaper, failed_row,
}
use backend_live_canvas.Uploads.Pipeline.Delivery.{Worker, run_task, HasEnded, run_task-HasEnded}
use backend_live_canvas.Uploads.Pipeline.Redelivery.{process_wallpaper_redelivered}
use backend_live_canvas.Uploads.Ffmpeg.{Tools, not_installed, Readers, with_tools}
use backend_live_canvas.Uploads.Ffmpeg.Failure.{IsStaged, missing, Fails, with_tools-failure}
use backend_live_canvas.Wallpapers.Models.{WallpaperStatus}
use backend_live_canvas.Tests.Catalog.{limits}
use backend_live_canvas.Tests.Uploads.{media, staged_sea, staged_world, offline, staged_found}

program : Unit {0}
unfolding process_wallpaper first str_eq process_row conclude make_artifacts publish run_task
    with_tools update save_wallpaper failed_row
program = tt

-- The storage is down in the first attempt, and answers in the second.
abbrev worker : Worker
worker = record { media = λ n. if n == 0 then offline else media; before = λ n w. w }

no_master : truthy (text_of staged_sea.master_key) ≡ false
unfolding program
no_master = refl

run_task-HasEnded_example : HasEnded 1 staged_sea (run_task limits worker 4 0 1 staged_world)
run_task-HasEnded_example =
    run_task-HasEnded limits worker 1 staged_sea no_master (λ n w h. h) staged_world staged_found

abbrev published_world : World
published_world = (process_wallpaper limits media 0 1 staged_world).1

published_run :
    process_wallpaper limits media 0 1 staged_world ≡ (TaskOutcome.published, published_world)
unfolding program
published_run = refl

process_wallpaper_redelivered_example :
    process_wallpaper limits offline 2 1 published_world
    ≡ (TaskOutcome.already_processed, published_world)
process_wallpaper_redelivered_example =
    process_wallpaper_redelivered limits media offline 0 2 1 staged_world published_run

-- A host without the tools.
abbrev bare : Tools
bare = λ cmd timeout. not_installed

abbrev readers : Readers
readers = record { loads = λ s. none; int_of_text = λ s. none; float_of_text = λ s. none }

staged : IsStaged limits media "staging/a.mp4"
unfolding program
staged = record {
  size = 1000;
  there = refl;
  fits = refl;
  mime = "video/mp4";
  sniffed = refl;
  accepted = refl;
  downloaded = refl;
}

has_staging : truthy "staging/a.mp4" ≡ true
unfolding program
has_staging = refl

abbrev no_ffprobe : String
no_ffprobe = "ffprobe binary not found on this host"

with_tools-failure_example :
    process_wallpaper limits (with_tools bare readers "/tmp/lc" media) 0 1 staged_world ≡ (
      TaskOutcome.failed,
      record staged_world {
        db = record staged_world.db {
          wallpapers =
              update
                (λ v. v.id == staged_sea.id)
                (λ _. record staged_sea {
                  status = WallpaperStatus.failed;
                  failure_reason = some (take_text 2000 no_ffprobe);
                })
                staged_world.db.wallpapers;
        };
      },
    )
with_tools-failure_example =
    with_tools-failure bare readers "/tmp/lc" limits media 0 1 staged_sea staged_world staged_found
      no_master has_staging staged (Fails.probe_fails missing)

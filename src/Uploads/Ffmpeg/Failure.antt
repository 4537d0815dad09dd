-- ===== src/Uploads/Ffmpeg/Failure.antt =====
-- What a failed media tool (apps/uploads/ffmpeg.py) leaves of a wallpaper.
use backend_live_canvas.Prelude.{
  ℕ, zero, suc, ◌≡◌, ◌≢◌, refl, concat, decimal, last_text, take_text, update, ◌==◌, or_else, List,
  [], true, false, String, Option, none, some, leb, truthy, arith,
}
use backend_live_canvas.Uploads.Attempt.{Attempt, done, tool_failed, Objects}
use backend_live_canvas.Uploads.Ffmpeg.{
  ReturnCode, exited, killed, CompletedProcess, Ran, completed, not_installed, timed_out, Tools,
  Report, Readers, program_of, code_text, is_zero, ignored, tail_of, concluded, run, read_report,
  probe, probe_command, master_command, thumbnail_command, preview_command, preview_filters,
  normalize_master, extract_thumbnail, render_preview, with_tools,
}
use backend_live_canvas.Core.Text.{strip}
use backend_live_canvas.Uploads.Pipeline.{Meta}
use backend_live_canvas.Uploads.Storage.{Settings}
use backend_live_canvas.Wallpapers.Models.{Wallpaper, WallpaperStatus}
use backend_live_canvas.Uploads.Pipeline.{
  Media, World, TaskOutcome, wallpaper_by_id, fail, failed_row, save_wallpaper, make_artifacts,
  size_guard, sniff_video, is_accepted_video, conclude, text_of, process_row, process_wallpaper,
}

abbrev then_failure : {A : Type 0} → Attempt A → Option String → Option String
then_failure (tool_failed reason) rest = some reason
then_failure (done a) rest = rest
then_failure _ rest = none

-- The reason of the first tool that fails in a run, if the tools before it succeed.
abbrev pub tool_failure : Media → Option String
tool_failure m = then_failure m.probe (
    then_failure m.normalize_master
      (then_failure m.extract_thumbnail (then_failure m.render_preview none)))

-- The staged object is there, in size and type as it should be, and is downloaded.
pub record IsStaged (s : Settings) (m : Media) (staging : String) : Type 0 where
  pub size : ℕ
  pub there : m.head_size staging ≡ done (some size)
  pub fits : leb size s.upload_max_bytes ≡ true
  pub mime : String
  pub sniffed : m.sniff staging ≡ done mime
  pub accepted : is_accepted_video mime ≡ true
  pub downloaded : m.download_file staging ≡ done tt

make_artifacts-tool_failure :
    (s : Settings) (m : Media) (staging : String) (objects : Objects) {reason : String}
    → IsStaged s m staging
    → tool_failure m ≡ some reason
    → make_artifacts s m staging objects ≡ (tool_failed reason, objects)
unfolding make_artifacts size_guard sniff_video
make_artifacts-tool_failure s m staging objects h f =
    ground (arith, h.there, h.fits, h.sniffed, h.accepted, h.downloaded)

process_wallpaper-tool_failure :
    (s : Settings) (m : Media) (retries i : ℕ) (w : Wallpaper) (world : World) {reason : String}
    → wallpaper_by_id i world.db.wallpapers ≡ some w
    → truthy (text_of w.master_key) ≡ false
    → truthy (text_of w.staging_key) ≡ true
    → IsStaged s m (text_of w.staging_key)
    → tool_failure m ≡ some reason
    → process_wallpaper s m retries i world
      ≡ (TaskOutcome.failed, record world { db = save_wallpaper (failed_row reason w) world.db })
unfolding process_wallpaper process_row conclude fail
process_wallpaper-tool_failure s m retries i w world {reason} found master staging h f =
    rw (found, process_wallpaper)
      (rw (master, staging)
        (rw (make_artifacts-tool_failure s m (text_of w.staging_key) world.objects h f) refl))

-- How a command fails, and the message: its program is not installed, it runs out of time, or it ends
-- with a code that is not zero, and then the message has the last 500 characters of its errors.
pub data ToolError (cmd : List String) (timeout : ℕ) : Ran → String → Type 0 where
  missing :
      ToolError cmd timeout not_installed (concat (program_of cmd) " binary not found on this host")
  late :
      ToolError cmd timeout timed_out
        (concat (program_of cmd) (concat " timed out after " (concat (decimal timeout) "s")))
  ended :
      (proc : CompletedProcess)
      → proc.returncode ≢ exited 0
      → ToolError cmd timeout (completed proc) (
          concat (program_of cmd) (
            concat " failed (rc=" (
              concat
                (code_text proc.returncode)
                (concat "): " (last_text 500 (strip proc.stderr))))))

-- The first command of a run that fails, in the order of the program, with its message: the probe, the
-- master, the thumbnail or the preview. The commands before it succeed.
pub data Fails (tools : Tools) (readers : Readers) (tmp : String) : String → Type 0 where
  probe_fails :
      {message : String}
      → ToolError
          (probe_command (concat tmp "/source"))
          60
          (tools (probe_command (concat tmp "/source")) 60)
          message
      → Fails tools readers tmp message
  no_stream :
      (proc : CompletedProcess)
      → tools (probe_command (concat tmp "/source")) 60 ≡ completed proc
      → proc.returncode ≡ exited 0
      → (report : Report) → readers.loads (or_else proc.stdout "{}") ≡ some report
      → report.streams ≡ []
      → Fails tools readers tmp "no video stream found"
  master_fails :
      {message : String} (meta : Meta)
      → probe tools readers (concat tmp "/source") ≡ done meta
      → ToolError
          (master_command (concat tmp "/source") (concat tmp "/master.mp4"))
          1800
          (tools (master_command (concat tmp "/source") (concat tmp "/master.mp4")) 1800)
          message
      → Fails tools readers tmp message
  thumbnail_fails :
      {message : String} (meta : Meta)
      → probe tools readers (concat tmp "/source") ≡ done meta
      → normalize_master tools (concat tmp "/source") (concat tmp "/master.mp4") ≡ done tt
      → ToolError
          (thumbnail_command (concat tmp "/source") (concat tmp "/thumb.jpg"))
          60
          (tools (thumbnail_command (concat tmp "/source") (concat tmp "/thumb.jpg")) 60)
          message
      → Fails tools readers tmp message
  preview_fails :
      {message : String} (meta : Meta)
      → probe tools readers (concat tmp "/source") ≡ done meta
      → normalize_master tools (concat tmp "/source") (concat tmp "/master.mp4") ≡ done tt
      → extract_thumbnail tools (concat tmp "/source") (concat tmp "/thumb.jpg") ≡ done tt
      → ToolError
          (preview_command
            (preview_filters tools)
            (concat tmp "/source")
            (concat tmp "/preview.mp4"))
          1800
          (tools
            (preview_command
              (preview_filters tools)
              (concat tmp "/source")
              (concat tmp "/preview.mp4"))
            1800)
          message
      → Fails tools readers tmp message

not_zero : (c : ReturnCode) → c ≢ exited 0 → is_zero c ≡ false
not_zero (exited zero) n = absurd (n refl)
not_zero (exited (suc k)) n = ground arith
not_zero (killed k) n = refl

run-ToolError :
    (tools : Tools) (cmd : List String) (timeout : ℕ) {message : String}
    → ToolError cmd timeout (tools cmd timeout) message
    → run tools cmd timeout ≡ tool_failed message
unfolding run
run-ToolError tools cmd timeout h = concluded_error (tools cmd timeout) h
  where
    concluded_error :
        (r : Ran) {message : String}
        → ToolError cmd timeout r message
        → concluded cmd timeout r ≡ tool_failed message
    concluded_error not_installed missing = refl
    concluded_error timed_out late = refl
    concluded_error (completed proc) (ended proc2 n) =
        rw (not_zero proc.returncode n, concluded, tail_of) refl

module _ (tools : Tools) (readers : Readers) (tmp : String) where
  abbrev src : String
  src = concat tmp "/source"

  probe_failed :
      {message : String}
      → ToolError (probe_command src) 60 (tools (probe_command src) 60) message
      → probe tools readers src ≡ tool_failed message
  unfolding probe
  probe_failed h = rw (run-ToolError tools (probe_command src) 60 h, probe) refl

  probe_empty :
      (proc : CompletedProcess)
      → tools (probe_command src) 60 ≡ completed proc
      → proc.returncode ≡ exited 0
      → (report : Report) → readers.loads (or_else proc.stdout "{}") ≡ some report
      → report.streams ≡ []
      → probe tools readers src ≡ tool_failed "no video stream found"
  unfolding probe run concluded read_report
  probe_empty proc e z report l n =
      rw (e, probe, run, concluded) (rw z (rw l (rw (n, read_report) refl)))

  failed_call :
      (cmd : List String) (timeout : ℕ) {message : String}
      → ToolError cmd timeout (tools cmd timeout) message
      → ignored (run tools cmd timeout) ≡ tool_failed message
  failed_call cmd timeout h = rw (run-ToolError tools cmd timeout h) refl

  Fails-tool_failure :
      (m : Media) {message : String}
      → Fails tools readers tmp message
      → tool_failure (with_tools tools readers tmp m) ≡ some message
  unfolding with_tools normalize_master extract_thumbnail render_preview
  Fails-tool_failure m (probe_fails h) = rw (probe_failed h, with_tools) refl
  Fails-tool_failure m (no_stream proc e z report l n) =
      rw (probe_empty proc e z report l n, with_tools) refl
  Fails-tool_failure m (master_fails meta p h) =
      rw (p, with_tools)
        (rw (failed_call (master_command src (concat tmp "/master.mp4")) 1800 h) refl)
  Fails-tool_failure m (thumbnail_fails meta p n h) =
      rw (p, with_tools)
        (rw n (rw (failed_call (thumbnail_command src (concat tmp "/thumb.jpg")) 60 h) refl))
  Fails-tool_failure m (preview_fails meta p n t h) =
      rw (p, with_tools)
        (rw (n, t)
          (rw
            (failed_call (preview_command (preview_filters tools) src (concat tmp "/preview.mp4"))
              1800 h)
            refl))

  -- When a media tool fails on a staged video, because it is not installed, runs out of time or ends
  -- with another code than zero, or the probe finds no video stream, the task ends as failed at once,
  -- in any attempt: the row becomes `failed`, its reason is the message that the failure calls for,
  -- cut to 2000 characters, and it keeps all else, its staging object included; no other row, no
  -- other table and no object of the storage changes. The tools that run before it succeed, and the
  -- row has a staging key and no master.
  pub with_tools-failure :
      (s : Settings) (m : Media) (retries i : ℕ) (w : Wallpaper) (world : World) {message : String}
      → wallpaper_by_id i world.db.wallpapers ≡ some w
      → truthy (text_of w.master_key) ≡ false
      → truthy (text_of w.staging_key) ≡ true
      → IsStaged s m (text_of w.staging_key)
      → Fails tools readers tmp message
      → process_wallpaper s (with_tools tools readers tmp m) retries i world ≡ (
        TaskOutcome.failed,
        record world {
          db = record world.db {
            wallpapers =
                update
                  (λ v. v.id == w.id)
                  (λ _. record w {
                    status = WallpaperStatus.failed;
                    failure_reason = some (take_text 2000 message);
                  })
                  world.db.wallpapers;
          };
        },
      )
  unfolding with_tools failed_row save_wallpaper
  with_tools-failure s m retries i w world found master staging h f =
      process_wallpaper-tool_failure s (with_tools tools readers tmp m) retries i w world found
        master staging
        (record {
          size = h.size;
          there = h.there;
          fits = h.fits;
          mime = h.mime;
          sniffed = h.sniffed;
          accepted = h.accepted;
          downloaded = h.downloaded;
        })
        (Fails-tool_failure m f)

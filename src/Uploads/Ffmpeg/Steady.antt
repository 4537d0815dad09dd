-- ===== src/Uploads/Ffmpeg/Steady.antt =====
-- A failure of a media tool (apps/uploads/ffmpeg.py) ends the task of apps/uploads/tasks.py.
use backend_live_canvas.Prelude.{
  ℕ, inl, inr, String, List, concat, truthy, Bool-cases, Option-cases, arith,
}
use backend_live_canvas.Uploads.Attempt.{Attempt, done, rejected, tool_failed, interrupted, Objects}
use backend_live_canvas.Uploads.Models.{new_key, masters_prefix, thumbs_prefix, previews_prefix}
use backend_live_canvas.Uploads.Storage.{Settings}
use backend_live_canvas.Wallpapers.Models.{Wallpaper}
use backend_live_canvas.Uploads.Pipeline.{
  Media, Artifacts, World, TaskOutcome, wallpaper_by_id, fail, publish, make_artifacts, size_guard,
  sniff_video, upload, conclude, text_of, process_row, process_wallpaper,
}
use backend_live_canvas.Uploads.Ffmpeg.{
  Tools, Readers, run, normalize_master, extract_thumbnail, render_preview, with_tools,
}

-- A call that did what it should, or was refused, or failed with an error of a tool.
abbrev pub IsSteady {ℓ} : {A : Type ℓ} → Attempt A → Type 0
IsSteady (interrupted m) = ⊥
IsSteady _ = Unit

run-IsSteady : (tools : Tools) (cmd : List String) (timeout : ℕ) → IsSteady (run tools cmd timeout)
unfolding run
run-IsSteady tools cmd timeout = ground arith

-- The storage answers every call of a run.
pub record Answers (m : Media) : Type 0 where
  pub head_size : (key : String) → IsSteady (m.head_size key)
  pub sniff : (key : String) → IsSteady (m.sniff key)
  pub download_file : (key : String) → IsSteady (m.download_file key)
  pub upload_file : (key : String) → IsSteady (m.upload_file key)

make_artifacts-IsSteady :
    (s : Settings) (m : Media) (staging : String) (objects : Objects)
    → Answers m
    → IsSteady m.probe
    → IsSteady m.normalize_master
    → IsSteady m.extract_thumbnail
    → IsSteady m.render_preview
    → IsSteady (make_artifacts s m staging objects).0
unfolding make_artifacts size_guard sniff_video upload
make_artifacts-IsSteady s m staging objects a p n t r =
    let h1 = a.head_size staging in
    let h2 = a.sniff staging in
    let h3 = a.download_file staging in
    ground (
      arith,
      a.upload_file (new_key m.master_uuid masters_prefix "mp4"),
      a.upload_file (new_key m.thumb_uuid thumbs_prefix "jpg"),
      a.upload_file (new_key m.preview_uuid previews_prefix "mp4"),
    )

-- The task ended: it asks for no other attempt.
abbrev pub IsEnd : TaskOutcome → Type 0
IsEnd (TaskOutcome.retry c) = ⊥
IsEnd _ = Unit

module _ (s : Settings) (m : Media) (retries : ℕ) (a : Answers m) (p : IsSteady m.probe)
    (n : IsSteady m.normalize_master) (t : IsSteady m.extract_thumbnail)
    (r : IsSteady m.render_preview) where
  conclude-IsEnd :
      (staging : String) (w : Wallpaper) (x : Attempt Artifacts) (world : World)
      → IsSteady x
      → IsEnd (conclude s m retries staging w x world).0
  unfolding conclude publish fail
  conclude-IsEnd staging w (done y) world h = tt
  conclude-IsEnd staging w (rejected reason) world h = tt
  conclude-IsEnd staging w (tool_failed reason) world h = tt
  conclude-IsEnd staging w (interrupted reason) world h = absurd h

  process_row-IsEnd : (w : Wallpaper) (world : World) → IsEnd (process_row s m retries w world).0
  unfolding process_row fail
  process_row-IsEnd w world = elim (Bool-cases (truthy (text_of w.master_key))) [
    | inl e ↦ rw e tt
    | inr e ↦ elim (Bool-cases (truthy (text_of w.staging_key))) [
      | inl f ↦
          let run = make_artifacts s m (text_of w.staging_key) world.objects in
          rw (e, f)
            (conclude-IsEnd (text_of w.staging_key) w run.0 (record world { objects = run.1 })
              (make_artifacts-IsSteady s m (text_of w.staging_key) world.objects a p n t r))
      | inr f ↦ rw (e, f) tt
    ]
  ]

  process_wallpaper-IsEnd :
      (i : ℕ) (world : World) → IsEnd (process_wallpaper s m retries i world).0
  unfolding process_wallpaper
  process_wallpaper-IsEnd i world = elim (Option-cases (wallpaper_by_id i world.db.wallpapers)) [
    | inl e ↦ rw (e, process_wallpaper) tt
    | inr (w, e) ↦ rw (e, process_wallpaper) (process_row-IsEnd w world)
  ]

module _ (tools : Tools) (src dst : String) where
  normalize_master-IsSteady : IsSteady (normalize_master tools src dst)
  unfolding normalize_master
  normalize_master-IsSteady = ground arith

  extract_thumbnail-IsSteady : IsSteady (extract_thumbnail tools src dst)
  unfolding extract_thumbnail
  extract_thumbnail-IsSteady = ground arith

  render_preview-IsSteady : IsSteady (render_preview tools src dst)
  unfolding render_preview
  render_preview-IsSteady = ground arith

module _ (s : Settings) (tools : Tools) (readers : Readers) (tmp : String) (m : Media)
    (retries i : ℕ) (world : World) where
  -- A media tool never makes the task try again, whether it is not installed, runs out of time or
  -- ends with an error: where the storage answers, and the probe's report can be read, an attempt
  -- ends the task.
  pub with_tools-IsEnd :
      Answers m
      → IsSteady (with_tools tools readers tmp m).probe
      → IsEnd (process_wallpaper s (with_tools tools readers tmp m) retries i world).0
  unfolding with_tools
  with_tools-IsEnd a p =
      process_wallpaper-IsEnd s (with_tools tools readers tmp m) retries
        (record {
          head_size = a.head_size;
          sniff = a.sniff;
          download_file = a.download_file;
          upload_file = a.upload_file;
        })
        p (normalize_master-IsSteady tools (concat tmp "/source") (concat tmp "/master.mp4"))
        (extract_thumbnail-IsSteady tools (concat tmp "/source") (concat tmp "/thumb.jpg"))
        (render_preview-IsSteady tools (concat tmp "/source") (concat tmp "/preview.mp4")) i world

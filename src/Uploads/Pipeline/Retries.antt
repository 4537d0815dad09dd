-- ===== src/Uploads/Pipeline/Retries.antt =====
-- How often a run is tried again (apps/uploads/tasks.py).
use backend_live_canvas.Prelude.{
  ℕ, ◌^◌, ◌<◌, ◌≡◌, refl, inl, inr, String, leb, truthy, Bool-cases, Option-cases, arith,
}
use backend_live_canvas.Uploads.Attempt.{Attempt, done, rejected, tool_failed, interrupted}
use backend_live_canvas.Uploads.Storage.{Settings}
use backend_live_canvas.Wallpapers.Models.{Wallpaper}
use backend_live_canvas.Uploads.Pipeline.{
  Media, Artifacts, World, TaskOutcome, wallpaper_by_id, fail, publish, make_artifacts, conclude,
  text_of, process_row, process_wallpaper,
}

-- A retry is asked for in the first three attempts only, with a countdown that doubles.
abbrev pub IsBounded : ℕ → TaskOutcome → Type 0
IsBounded retries (TaskOutcome.retry countdown) = (retries < 3) × (countdown ≡ 2 ^ retries)
IsBounded retries _ = Unit

module _ (s : Settings) (m : Media) (retries : ℕ) where
  conclude-IsBounded :
      (staging : String) (w : Wallpaper) (r : Attempt Artifacts) (world : World)
      → IsBounded retries (conclude s m retries staging w r world).0
  unfolding conclude publish fail
  conclude-IsBounded staging w (done a) world = tt
  conclude-IsBounded staging w (rejected reason) world = tt
  conclude-IsBounded staging w (tool_failed reason) world = tt
  conclude-IsBounded staging w (interrupted reason) world = elim (Bool-cases (leb 3 retries)) [
    | inl e ↦ rw e tt
    | inr e ↦ rw e (ground arith, refl)
  ]

  process_row-IsBounded :
      (w : Wallpaper) (world : World) → IsBounded retries (process_row s m retries w world).0
  unfolding process_row fail
  process_row-IsBounded w world = elim (Bool-cases (truthy (text_of w.master_key))) [
    | inl e ↦ rw e tt
    | inr e ↦ elim (Bool-cases (truthy (text_of w.staging_key))) [
      | inl f ↦
          let run = make_artifacts s m (text_of w.staging_key) world.objects in
          rw (e, f)
            (conclude-IsBounded (text_of w.staging_key) w run.0 (record world { objects = run.1 }))
      | inr f ↦ rw (e, f) tt
    ]
  ]

  -- A run of the pipeline asks for another only in its first three attempts, with a countdown of
  -- two to the number of attempts before; the fourth attempt always ends the task.
  pub process_wallpaper-IsBounded :
      (i : ℕ) (world : World) → IsBounded retries (process_wallpaper s m retries i world).0
  unfolding process_wallpaper
  process_wallpaper-IsBounded i world =
      elim (Option-cases (wallpaper_by_id i world.db.wallpapers)) [
        | inl e ↦ rw (e, process_wallpaper) tt
        | inr (w, e) ↦ rw (e, process_wallpaper) (process_row-IsBounded w world)
      ]

-- ===== src/Uploads/Pipeline/Redelivery.antt =====
-- A second delivery of the task (apps/uploads/tasks.py): a wallpaper that was published is left alone.
use backend_live_canvas.Prelude.{
  ℕ, ◌≡◌, ◌≢◌, ◌∙◌, ap, subst, inl, inr, true, String, some, ◌==◌, ==_iff, leb, truthy,
  truthy_of_ne, concat-ne-blank, cons-ne-blank, lstrip_dot, concat, first_sound, Bool-cases,
  Option-cases, arith,
}
use backend_live_canvas.Uploads.Attempt.{Attempt, done, rejected, tool_failed, interrupted, Objects}
use backend_live_canvas.Uploads.Models.{new_key, masters_prefix}
use backend_live_canvas.Uploads.Storage.{Settings}
use backend_live_canvas.Wallpapers.Models.{Wallpaper}
use backend_live_canvas.Uploads.Pipeline.{
  Media, Artifacts, World, TaskOutcome, wallpaper_by_id, fail, published_row, publish,
  make_artifacts, size_guard, sniff_video, upload, conclude, text_of, process_row,
  process_wallpaper,
}
use backend_live_canvas.Uploads.Pipeline.Rows.{by_id-save_self}

-- The artifacts of a run have a master under a fresh key.
abbrev HasMaster : Media → Attempt Artifacts → Type 0
HasMaster m (done a) = a.master_key ≡ new_key m.master_uuid masters_prefix "mp4"
HasMaster m _ = Unit

make_artifacts-HasMaster :
    (s : Settings) (m : Media) (staging : String) (objects : Objects)
    → HasMaster m (make_artifacts s m staging objects).0
unfolding make_artifacts size_guard sniff_video upload
make_artifacts-HasMaster s m staging objects = ground arith

master_key-truthy : (uuid ext : String) → truthy (new_key uuid masters_prefix ext) ≡ true
unfolding new_key
master_key-truthy uuid ext =
    let named = concat uuid (concat "." (lstrip_dot ext)) in
    truthy_of_ne (concat "masters/" named) (
      concat-ne-blank "masters/" named
        (concat-ne-blank uuid (concat "." (lstrip_dot ext)) (dot-ne (lstrip_dot ext))))
  where
    dot-ne : (t : String) → concat "." t ≢ ""
    dot-ne t = cons-ne-blank "." t (λ e. cc e)

-- The row has a master.
abbrev HasMasterRow : ℕ → World → Type 0
HasMasterRow i world =
    (row : Wallpaper) × (wallpaper_by_id i world.db.wallpapers ≡ some row)
    × (truthy (text_of row.master_key) ≡ true)

-- A run that published left a master.
abbrev IfPublished : ℕ → TaskOutcome × World → Type 0
IfPublished i (TaskOutcome.published, world) = HasMasterRow i world
IfPublished i _ = Unit

module _ (s : Settings) (m : Media) (retries : ℕ) (w : Wallpaper) where
  conclude-IfPublished :
      (staging : String) (r : Attempt Artifacts) (world : World)
      → HasMaster m r
      → wallpaper_by_id w.id world.db.wallpapers ≡ some w
      → IfPublished w.id (conclude s m retries staging w r world)
  unfolding conclude publish fail published_row
  conclude-IfPublished staging (done a) world h q = (
    published_row s m a w,
    by_id-save_self (published_row s m a w) w world.db q,
    rw h (master_key-truthy m.master_uuid "mp4"),
  )
  conclude-IfPublished staging (rejected reason) world h q = tt
  conclude-IfPublished staging (tool_failed reason) world h q = tt
  conclude-IfPublished staging (interrupted reason) world h q = elim (Bool-cases (leb 3 retries)) [
    | inl e ↦ rw e tt
    | inr e ↦ rw e tt
  ]

  process_row-IfPublished :
      (world : World)
      → wallpaper_by_id w.id world.db.wallpapers ≡ some w
      → IfPublished w.id (process_row s m retries w world)
  unfolding process_row fail
  process_row-IfPublished world q = elim (Bool-cases (truthy (text_of w.master_key))) [
    | inl e ↦ rw e tt
    | inr e ↦ elim (Bool-cases (truthy (text_of w.staging_key))) [
      | inl f ↦
          let run = make_artifacts s m (text_of w.staging_key) world.objects in
          rw (e, f)
            (conclude-IfPublished (text_of w.staging_key) run.0 (record world { objects = run.1 })
              (make_artifacts-HasMaster s m (text_of w.staging_key) world.objects) q)
      | inr f ↦ rw (e, f) tt
    ]
  ]

process_wallpaper-IfPublished :
    (s : Settings) (m : Media) (retries i : ℕ) (world : World)
    → IfPublished i (process_wallpaper s m retries i world)
unfolding process_wallpaper
process_wallpaper-IfPublished s m retries i world =
    elim (Option-cases (wallpaper_by_id i world.db.wallpapers)) [
      | inl e ↦ rw (e, process_wallpaper) tt
      | inr (w, e) ↦
          let same : w.id ≡ i =
            (==_iff w.id i).0 (first_sound (λ v. v.id == i) world.db.wallpapers e) in
          rw (e, process_wallpaper)
            (subst (λ (j : ℕ). IfPublished j (process_row s m retries w world)) same
              (process_row-IfPublished s m retries w world
                (ap (λ (j : ℕ). wallpaper_by_id j world.db.wallpapers) same ∙ e)))
    ]

skipped :
    (s : Settings) (m : Media) (retries i : ℕ) (world : World)
    → HasMasterRow i world
    → process_wallpaper s m retries i world ≡ (TaskOutcome.already_processed, world)
unfolding process_wallpaper process_row
skipped s m retries i world (row, found, master) = rw (found, process_wallpaper) (rw master)

-- Once the task has published a wallpaper, another delivery of it is a no-op: it returns that the
-- wallpaper was processed already, and writes neither to the tables nor to the storage, whatever
-- the storage and the tools would answer.
pub process_wallpaper_redelivered :
    (s : Settings) (m later : Media) (retries again i : ℕ) (world : World) {world' : World}
    → process_wallpaper s m retries i world ≡ (TaskOutcome.published, world')
    → process_wallpaper s later again i world' ≡ (TaskOutcome.already_processed, world')
process_wallpaper_redelivered s m later retries again i world {world'} h =
    skipped s later again i world'
      (subst (IfPublished i) h (process_wallpaper-IfPublished s m retries i world))

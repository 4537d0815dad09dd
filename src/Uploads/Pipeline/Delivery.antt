-- ===== src/Uploads/Pipeline/Delivery.antt =====
-- The task of apps/uploads/tasks.py over all its attempts: the worker runs it again as long as it asks
-- for a retry, with fresh answers of the storage and the tools.
use backend_live_canvas.Prelude.{
  ℕ, zero, suc, ◌+◌, ◌<◌, ◌≡◌, ◌∙◌, ap, subst, inl, inr, false, String, Option, none, some, ◌==◌,
  ==_iff, leb, truthy, first_sound, Bool-cases, arith,
}
use backend_live_canvas.Uploads.Attempt.{Attempt, done, rejected, tool_failed, interrupted}
use backend_live_canvas.Uploads.Storage.{Settings}
use backend_live_canvas.Wallpapers.Models.{Wallpaper}
use backend_live_canvas.Uploads.Pipeline.{
  Media, Artifacts, World, TaskOutcome, wallpaper_by_id, failed_row, text_of, make_artifacts,
  conclude, process_row, process_wallpaper, fail, publish,
}
use backend_live_canvas.Uploads.Pipeline.Outcome.{IsHosted, Ends, process_wallpaper-RunOf}
use backend_live_canvas.Uploads.Pipeline.Retries.{IsBounded, process_wallpaper-IsBounded}

-- The answers in each attempt, and what the rest of the system does to the world before it runs.
pub record Worker : Type 0 where
  pub media : ℕ → Media
  pub before : ℕ → World → World

abbrev again :
    (World → Option (TaskOutcome × World)) → TaskOutcome × World → Option (TaskOutcome × World)
again rest (TaskOutcome.retry _, world) = rest world
again rest (outcome, world) = some (outcome, world)

-- The attempts from number `retries` on, `fuel` of them at most; none where the fuel ran out.
unfoldable pub run_task : Settings → Worker → ℕ → ℕ → ℕ → World → Option (TaskOutcome × World)
run_task s k zero retries i world = none
run_task s k (suc fuel) retries i world =
    again (λ w. run_task s k fuel (suc retries) i w)
      (process_wallpaper s (k.media retries) retries i (k.before retries world))

-- The row that a final outcome leaves of `w`.
abbrev pub IsFinal : TaskOutcome → Wallpaper → Wallpaper → Type 0
IsFinal TaskOutcome.published w row = IsHosted row
IsFinal TaskOutcome.failed w row = (reason : String) × (row ≡ failed_row reason w)
IsFinal _ w row = ⊥

-- The row that one attempt leaves: a final one, or the row as it was for another attempt.
abbrev Attempted : ℕ → TaskOutcome → Wallpaper → Wallpaper → Type 0
Attempted retries (TaskOutcome.retry c) w row = (retries < 3) × (row ≡ w)
Attempted retries o w row = IsFinal o w row

abbrev IsTried : TaskOutcome → Type 0
IsTried TaskOutcome.missing = ⊥
IsTried TaskOutcome.already_processed = ⊥
IsTried _ = Unit

attempted :
    (retries : ℕ) (o : TaskOutcome) (w row : Wallpaper)
    → IsTried o
    → IsBounded retries o
    → Ends o w row
    → Attempted retries o w row
attempted retries TaskOutcome.missing w row t b e = absurd t
attempted retries TaskOutcome.already_processed w row t b e = absurd t
attempted retries TaskOutcome.published w row t b e = e
attempted retries TaskOutcome.failed w row t b e = e
attempted retries (TaskOutcome.retry c) w row t b e = (b.0, e)

module _ (s : Settings) (m : Media) (retries : ℕ) where
  conclude-IsTried :
      (staging : String) (w : Wallpaper) (r : Attempt Artifacts) (world : World)
      → IsTried (conclude s m retries staging w r world).0
  unfolding conclude publish fail
  conclude-IsTried staging w (done a) world = tt
  conclude-IsTried staging w (rejected reason) world = tt
  conclude-IsTried staging w (tool_failed reason) world = tt
  conclude-IsTried staging w (interrupted reason) world = elim (Bool-cases (leb 3 retries)) [
    | inl e ↦ rw e tt
    | inr e ↦ rw e tt
  ]

  process_row-IsTried :
      (w : Wallpaper) (world : World)
      → truthy (text_of w.master_key) ≡ false
      → IsTried (process_row s m retries w world).0
  unfolding process_row fail
  process_row-IsTried w world h = elim (Bool-cases (truthy (text_of w.staging_key))) [
    | inl f ↦
        let run = make_artifacts s m (text_of w.staging_key) world.objects in
        rw (h, f)
          (conclude-IsTried (text_of w.staging_key) w run.0 (record world { objects = run.1 }))
    | inr f ↦ rw (h, f) tt
  ]

  -- One attempt on a row without a master.
  process_wallpaper-Attempted :
      (i : ℕ) (w : Wallpaper) (world : World)
      → wallpaper_by_id i world.db.wallpapers ≡ some w
      → truthy (text_of w.master_key) ≡ false
      → (row : Wallpaper) × (wallpaper_by_id i
            (process_wallpaper s m retries i world).1.db.wallpapers
          ≡ some row)
        × Attempted retries (process_wallpaper s m retries i world).0 w row
  process_wallpaper-Attempted i w world h k =
      let run = process_wallpaper-RunOf s m retries i w world h in
      let tried : IsTried (process_wallpaper s m retries i world).0 =
        unfold process_wallpaper in rw (h, process_wallpaper) (process_row-IsTried w world k) in
      let same : w.id ≡ i =
        (==_iff w.id i).0 (first_sound (λ v. v.id == i) world.db.wallpapers h) in
      (
        run.row,
        subst
            (λ (j : ℕ).
              wallpaper_by_id j (process_wallpaper s m retries i world).1.db.wallpapers
              ≡ some run.row)
            same run.found,
        attempted retries (process_wallpaper s m retries i world).0 w run.row tried
            (process_wallpaper-IsBounded s m retries i world) run.ends,
      )

-- The rest of the system leaves the row of the wallpaper alone.
abbrev pub LeavesRow : Worker → ℕ → Wallpaper → Type 0
LeavesRow k i w =
    (n : ℕ) (world : World)
    → wallpaper_by_id i world.db.wallpapers ≡ some w
    → wallpaper_by_id i (k.before n world).db.wallpapers ≡ some w

-- The task ended with a final outcome, and with the row that this outcome leaves.
abbrev pub HasEnded : ℕ → Wallpaper → Option (TaskOutcome × World) → Type 0
HasEnded i w none = ⊥
HasEnded i w (some (o, world)) =
    (row : Wallpaper) × (wallpaper_by_id i world.db.wallpapers ≡ some row) × IsFinal o w row

module _ (s : Settings) (k : Worker) (i : ℕ) (w : Wallpaper)
    (no_master : truthy (text_of w.master_key) ≡ false) (leaves : LeavesRow k i w) where
  next-HasEnded :
      (rest : World → Option (TaskOutcome × World)) (retries : ℕ) (o : TaskOutcome) (world : World)
      (row : Wallpaper)
      → wallpaper_by_id i world.db.wallpapers ≡ some row
      → Attempted retries o w row
      → (retries < 3 → wallpaper_by_id i world.db.wallpapers ≡ some w → HasEnded i w (rest world))
      → HasEnded i w (again rest (o, world))
  next-HasEnded rest retries TaskOutcome.missing world row h a go = absurd a
  next-HasEnded rest retries TaskOutcome.already_processed world row h a go = absurd a
  next-HasEnded rest retries TaskOutcome.published world row h a go = (row, h, a)
  next-HasEnded rest retries TaskOutcome.failed world row h a go = (row, h, a)
  next-HasEnded rest retries (TaskOutcome.retry c) world row h a go = go a.0 (h ∙ ap some a.1)

  one_attempt-HasEnded :
      (fuel retries : ℕ) (world : World)
      → wallpaper_by_id i world.db.wallpapers ≡ some w
      → (retries < 3
          → (v : World) → wallpaper_by_id i v.db.wallpapers ≡ some w
          → HasEnded i w (run_task s k fuel (suc retries) i v))
      → HasEnded i w (run_task s k (suc fuel) retries i world)
  unfolding run_task
  one_attempt-HasEnded fuel retries world h go =
      let before = k.before retries world in
      let run = process_wallpaper s (k.media retries) retries i before in
      let (row, found, a) =
        process_wallpaper-Attempted s (k.media retries) retries i w before (leaves retries world h)
          no_master in
      next-HasEnded (λ v. run_task s k fuel (suc retries) i v) retries run.0 run.1 row found a
        (λ l. go l run.1)

  attempts-HasEnded :
      (fuel retries : ℕ) (world : World)
      → fuel + retries ≡ 3
      → wallpaper_by_id i world.db.wallpapers ≡ some w
      → HasEnded i w (run_task s k (suc fuel) retries i world)
  attempts-HasEnded zero retries world n h =
      one_attempt-HasEnded 0 retries world h (λ l. absurd (omega arith))
  attempts-HasEnded (suc fuel) retries world n h =
      one_attempt-HasEnded (suc fuel) retries world h
        (λ l v q. attempts-HasEnded fuel (suc retries) v (omega arith) q)

  -- A wallpaper without a master does not stay in processing: after four attempts at most, whatever
  -- the storage and the tools answer in each, the task has published it with all its media, or has
  -- marked it failed with a reason and left all else of its row; provided that nothing else writes
  -- its row meanwhile.
  pub run_task-HasEnded :
      (world : World)
      → wallpaper_by_id i world.db.wallpapers ≡ some w
      → HasEnded i w (run_task s k 4 0 i world)
  run_task-HasEnded world h = attempts-HasEnded 3 0 world (omega arith) h

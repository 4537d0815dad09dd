-- ===== src/Uploads/Commands.antt =====
-- apps/uploads/management/commands: the purge of stale slots, and the backfill of the seeded
-- catalog.
pub mod Purged
pub mod Limits
use backend_live_canvas.Prelude.{
  ℕ, ◌+◌, String, Bool, true, false, ◌&&◌, ◌||◌, not, Option, none, some, List, [], ◌∷◌, ◌++◌,
  length, select, update, leb, ltb, ◌==◌, truthy, or_else, lstrip_dot, is_some, if◌then◌else◌,
}
use backend_live_canvas.Core.Exec.{Result, ok, err, Exec}
use backend_live_canvas.Core.Errors.{Exc}
use backend_live_canvas.Audit.{Members, number, member, end}
use backend_live_canvas.Uploads.Models.{UploadSlot, private, new_key, staging_prefix}
use backend_live_canvas.Uploads.Attempt.{Objects}
use backend_live_canvas.Uploads.Pipeline.{World, delete_object, text_of}
use backend_live_canvas.Uploads.Services.{audit}
use backend_live_canvas.Wallpapers.Models.{Wallpaper, WallpaperStatus, Db, status_eq}

-- `STALE_AFTER`, in seconds.
abbrev pub stale_after : ℕ
stale_after = 86400

-- The filter of `purge_stale_uploads`, with the age added on the other side.
abbrev pub is_stale_slot : ℕ → UploadSlot → Bool
is_stale_slot now s = not (is_some s.consumed_at) && ltb (s.created_at + stale_after) now

abbrev pub drop_slot : ℕ → Db → Db
drop_slot i db = record db { slots = select (λ s. not (s.id == i)) db.slots }

-- The loop that deletes; `deletes` tells for which keys the storage obeys.
unfoldable pub purge_slots : (String → Bool) → List UploadSlot → World → World
unfolding delete_object
purge_slots deletes [] world = world
purge_slots deletes (s ∷ slots) world = purge_slots deletes slots (record {
  db = drop_slot s.id world.db;
  objects = if deletes s.key then delete_object private s.key world.objects else world.objects;
})

-- `purge_stale_uploads`: the count that it reports, and what it leaves.
unfoldable pub purge_stale_uploads : ℕ → Bool → (String → Bool) → World → ℕ × World
unfolding purge_slots
purge_stale_uploads now delete deletes world =
    let stale = select (is_stale_slot now) world.db.slots in
    (length stale, if delete then purge_slots deletes stale world else world)

-- The options of `backfill_media`, and what it finds outside the database: the file of a source
-- address with its suffix, the texts of the keys that it draws, and what the uploads answer.
pub record Backfill : Type 0 where
  pub limit : Option ℕ
  pub dry_run : Bool
  pub requeue_stale : Bool
  pub local_suffix : String → Option String
  pub uuid : ℕ → String
  pub upload_file : String → Result (Unit {0})

-- The counters of the loop.
pub record Counters : Type 0 where
  pub processed : ℕ
  pub requeued : ℕ
  pub inflight : ℕ
  pub skipped_missing : ℕ

pub record BackfillState : Type 0 where
  pub world : World
  pub counters : Counters

-- The rows that the loop walks, which it read before.
abbrev pub is_pending : Wallpaper → Bool
is_pending w = not (is_some w.master_key) && not (is_some w.deleted_at)

-- `process_wallpaper.delay`: the broker is taken to accept the task.
abbrev enqueue : ℕ → World → World
enqueue i world = record world { db = record world.db { queue = world.db.queue ++ i ∷ [] } }

abbrev stage : ℕ → String → World → World
stage i key world = record world {
  db = record world.db {
    wallpapers =
        update (λ v. v.id == i) (λ v. record v { staging_key = some key }) world.db.wallpapers;
  };
  objects = world.objects ++ (private, key) ∷ [];
}

abbrev pub is_failed : Wallpaper → Bool
is_failed w = status_eq w.status WallpaperStatus.failed

-- A wallpaper that is staged already.
unfoldable pub resume_one : Backfill → Wallpaper → BackfillState → BackfillState
resume_one b w st =
    let c = st.counters in
    if is_failed w || b.requeue_stale
    then record {
      world = if b.dry_run then st.world else enqueue w.id st.world;
      counters = record c { requeued = c.requeued + 1 };
    }
    else record st { counters = record c { inflight = c.inflight + 1 } }

abbrev count_processed : World → BackfillState → BackfillState
count_processed world st =
    let c = st.counters in
    record { world = world; counters = record c { processed = c.processed + 1 } }

abbrev pub staging_key_of : Backfill → Wallpaper → String → String
staging_key_of b w suffix = new_key (b.uuid w.id) staging_prefix (or_else (lstrip_dot suffix) "mp4")

-- A wallpaper whose file may be there.
unfoldable pub upload_one : Backfill → Wallpaper → Exec BackfillState (Unit {0})
unfolding lstrip_dot
upload_one b w st = elim (b.local_suffix w.source_url) [
  | none ↦
      let c = st.counters in
      (ok tt, record st { counters = record c { skipped_missing = c.skipped_missing + 1 } })
  | some suffix ↦
      if b.dry_run
      then (ok tt, count_processed st.world st)
      else elim (b.upload_file (staging_key_of b w suffix)) [
        | err e ↦ (err e, st)
        | ok u ↦ (
          ok tt,
          count_processed (enqueue w.id (stage w.id (staging_key_of b w suffix) st.world)) st,
        )
      ]
]

abbrev pub backfill_one : Backfill → Wallpaper → Exec BackfillState (Unit {0})
backfill_one b w st =
    if truthy (text_of w.staging_key) then (ok tt, resume_one b w st) else upload_one b w st

-- Whether the loop ends before its next row.
abbrev pub is_full : Option ℕ → ℕ → Bool
is_full none n = false
is_full (some limit) n = leb limit n

abbrev pub continue :
    Result (Unit {0}) × BackfillState
    → (BackfillState → Result (Unit {0}) × BackfillState)
    → Result (Unit {0}) × BackfillState
continue (ok u, st) f = f st
continue (err e, st) f = (err e, st)

-- The loop of `handle`.
unfoldable pub backfill_rows : Backfill → List Wallpaper → Exec BackfillState (Unit {0})
unfolding resume_one upload_one
backfill_rows b [] st = (ok tt, st)
backfill_rows b (w ∷ ws) st = elim (is_full b.limit st.counters.processed) [
  | true ↦ (ok tt, st)
  | false ↦ continue (backfill_one b w st) (λ next. backfill_rows b ws next)
]

abbrev pub no_counters : Counters
no_counters = record { processed = 0; requeued = 0; inflight = 0; skipped_missing = 0 }

abbrev run_report : Counters → ℕ → Members
run_report c done_count = member "processed" (number c.processed) (
    member "requeued" (number c.requeued) (
      member "skipped_done" (number done_count)
        (member "skipped_missing" (number c.skipped_missing) end)))

abbrev pub with_audit : Result (Unit {0}) × Db → BackfillState → Result (Unit {0}) × BackfillState
with_audit (r, db) st = let world = st.world in (r, record st { world = record world { db = db } })

abbrev pub report : ℕ → ℕ → Backfill → BackfillState → Result (Unit {0}) × BackfillState
report now done_count b st =
    if b.dry_run
    then (ok tt, st)
    else with_audit
        (audit now none "backfill.run" none "backfill_media" (run_report st.counters done_count)
          st.world.db)
        st

-- `backfill_media`, behind its checks of the data set and the fixture.
unfoldable pub backfill_media : ℕ → Backfill → World → Result (Unit {0}) × BackfillState
unfolding backfill_rows
backfill_media now b world =
    let done_count = length (select (λ w. is_some w.master_key) world.db.wallpapers) in
    continue
      (backfill_rows b (select is_pending world.db.wallpapers)
        (record { world = world; counters = no_counters }))
      (report now done_count b)

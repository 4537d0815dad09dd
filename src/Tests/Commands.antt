-- ===== src/Tests/Commands.antt =====
-- Runs of the management commands of apps/uploads.
use backend_live_canvas.Prelude.{
  ◌≡◌, ◌+◌, refl, true, false, none, some, [], ◌∷◌, length, select, update, str_eq,
}
use backend_live_canvas.Core.Exec.{ok}
use backend_live_canvas.Audit.{record_action}
use backend_live_canvas.Uploads.Pipeline.{World}
use backend_live_canvas.Uploads.Commands.{
  purge_stale_uploads, Backfill, BackfillState, backfill_media, backfill_rows, upload_one,
}
use backend_live_canvas.Uploads.Commands.Purged.{stays, Left, purge_stale_uploads-Left}
use backend_live_canvas.Tests.Catalog.{sea, catalog, staged_slot}

-- An old slot, and one that is new.
abbrev two_slots : World
two_slots = record {
  db = record catalog {
    slots =
        staged_slot ∷ record staged_slot { id = 2; key = "staging/b.mp4"; created_at = 99000 } ∷ [];
  };
  objects = [];
}

purge_stale_uploads-Left_example :
    ((purge_stale_uploads 100000 true (λ k. true) two_slots).0
        + length (select (stays 100000) two_slots.db.slots)
      ≡ length two_slots.db.slots)
    × Left true 100000 two_slots (purge_stale_uploads 100000 true (λ k. true) two_slots).1
purge_stale_uploads-Left_example =
    purge_stale_uploads-Left 100000 true (λ k. true) two_slots ((refl, tt), (tt, tt))

-- Two seeded wallpapers that the backend does not host yet.
abbrev seeded : World
seeded = record {
  db = record catalog {
    wallpapers = record sea { master_key = none } ∷ record sea { id = 2; master_key = none } ∷ [];
  };
  objects = [];
}

abbrev first_of_two : Backfill
first_of_two = record {
  limit = some 1;
  dry_run = false;
  requeue_stale = false;
  local_suffix = λ source. some ".mp4";
  uuid = λ i. "aa";
  upload_file = λ key. ok tt;
}

abbrev after_one : BackfillState
after_one = (backfill_media 1000 first_of_two seeded).1

one_uploaded : backfill_media 1000 first_of_two seeded ≡ (ok tt, after_one)
unfolding backfill_media backfill_rows upload_one str_eq select update record_action
one_uploaded = refl

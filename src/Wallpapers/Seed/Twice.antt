-- ===== src/Wallpapers/Seed/Twice.antt =====
-- Seeding again (apps/wallpapers/management/commands/seed_content.py): two runs in a row. The items'
-- own primary keys are not modelled.
use backend_live_canvas.Prelude.{ℕ, ◌≡◌, refl, sym, ◌∙◌, ap, subst, inl, inr, some, List}
use backend_live_canvas.Core.Exec.{ok, ok_pair, Result-cases}
use backend_live_canvas.Wallpapers.Models.{Category, Tag, Wallpaper, Collection, CollectionItem, Db}
use backend_live_canvas.Wallpapers.Upsert.{Seeded, seed_all}
use backend_live_canvas.Wallpapers.Upsert.Again.{
  AreDistinct, then_result_ok, seed_all-Holds, seed_all-again,
}
use backend_live_canvas.Wallpapers.Seed.{
  Fixture, category_writer, category_round, tag_writer, tag_round, wallpaper_writer,
  wallpaper_round, collection_writer, collection_round, category_table, tag_table, wallpaper_table,
  collection_table, seeded_db, seed, handle,
}
use backend_live_canvas.Wallpapers.Seed.Laws.{
  category_writer-IsLawful, tag_writer-IsLawful, wallpaper_writer-IsLawful,
  collection_writer-IsLawful, row_key, tag_key, wallpaper_key, HasDistinctIds, Holds-AreApart,
}
use backend_live_canvas.Wallpapers.Seed.Members.{Finished-again}

-- The natural keys of the fixture are pairwise distinct in each of its lists.
pub record IsKeyed (f : Fixture) : Type 0 where
  pub categories : AreDistinct (λ r. r.slug) f.categories
  pub tags : AreDistinct (λ r. r.slug) f.tags
  pub wallpapers : AreDistinct (λ r. r.source_url) f.wallpapers
  pub collections : AreDistinct (λ r. r.slug) f.collections

-- The four loops of a run that succeeds.
record Loops (now : ℕ) (f : Fixture) (db db' : Db) : Type 0 where
  cs : Seeded Category (Unit {0})
  ts : Seeded Tag (Unit {0})
  ws : Seeded Wallpaper (Unit {0})
  ks : Seeded Collection (List CollectionItem)
  categories :
      seed_all now category_writer category_round f.categories (category_table db) tt ≡ ok cs
  tags : seed_all now tag_writer tag_round f.tags (tag_table db) tt ≡ ok ts
  wallpapers :
      seed_all now wallpaper_writer
        (wallpaper_round cs.dict ts.dict)
        f.wallpapers
        (wallpaper_table db)
        tt
      ≡ ok ws
  collections :
      seed_all now collection_writer
        (collection_round ws.dict)
        f.collections
        (collection_table db)
        db.items
      ≡ ok ks
  whole : seeded_db db cs ts ws ks ≡ db'

ok_eq : {A : Type 0} (a b : A) → ok a ≡ ok b → a ≡ b
ok_eq a b h = cc

seed-Loops :
    (now : ℕ) (f : Fixture) (db : Db) {db' : Db} → seed now f db ≡ ok db' → Loops now f db db'
unfolding seed
seed-Loops now f db {db'} h =
    let (cs, c, h1) =
      then_result_ok
        (seed_all now category_writer category_round f.categories (category_table db) tt) _ h in
    let (ts, t, h2) =
      then_result_ok (seed_all now tag_writer tag_round f.tags (tag_table db) tt) _ h1 in
    let (ws, w, h3) =
      then_result_ok
        (seed_all now wallpaper_writer (wallpaper_round cs.dict ts.dict) f.wallpapers
          (wallpaper_table db) tt)
        _ h2 in
    let (ks, k, h4) =
      then_result_ok
        (seed_all now collection_writer (collection_round ws.dict) f.collections
          (collection_table db) db.items)
        _ h3 in
    record {
      cs = cs;
      ts = ts;
      ws = ws;
      ks = ks;
      categories = c;
      tags = t;
      wallpapers = w;
      collections = k;
      whole = ok_eq (seeded_db db cs ts ws ks) db' h4;
    }

module _ (now later : ℕ) (f : Fixture) (keyed : IsKeyed f) (db : Db) where
  seed-Loops_again :
      {db' : Db} (q : Loops now f db db')
      → HasDistinctIds q.ks.table.rows
      → seed later f (seeded_db db q.cs q.ts q.ws q.ks) ≡ ok (seeded_db db q.cs q.ts q.ws q.ks)
  unfolding seed
  seed-Loops_again q ids =
      let after = seeded_db db q.cs q.ts q.ws q.ks in
      let (xs, hx, fx) =
        seed_all-Holds category_writer category_writer-IsLawful category_round (λ r. r.slug)
          (row_key (λ r. r.slug)) now f.categories (category_table db) tt keyed.categories
          q.categories in
      let (ys, hy, fy) =
        seed_all-Holds tag_writer tag_writer-IsLawful tag_round (λ r. r.slug) tag_key now f.tags
          (tag_table db) tt keyed.tags q.tags in
      let (vs, hv, fv) =
        seed_all-Holds wallpaper_writer wallpaper_writer-IsLawful
          (wallpaper_round q.cs.dict q.ts.dict) (λ r. r.source_url)
          (wallpaper_key q.cs.dict q.ts.dict) now f.wallpapers (wallpaper_table db) tt
          keyed.wallpapers q.wallpapers in
      let (zs, hz, fz) =
        seed_all-Holds collection_writer collection_writer-IsLawful (collection_round q.ws.dict)
          (λ r. r.slug) (row_key (λ r. r.slug)) now f.collections (collection_table db) db.items
          keyed.collections q.collections in
      let fz' =
        Finished-again q.ws.dict f.collections zs db.items q.ks.own
          (Holds-AreApart q.ws.dict q.ks.table.rows f.collections zs q.ks.dict ids keyed.collections
            hz)
          fz in
      rw
        (seed_all-again category_writer category_writer-IsLawful category_round (λ r. r.slug)
          (row_key (λ r. r.slug)) later f.categories xs q.cs.dict (category_table after) tt q.cs.own
          hx fx)
        (rw
          (seed_all-again tag_writer tag_writer-IsLawful tag_round (λ r. r.slug) tag_key later
            f.tags ys q.ts.dict (tag_table after) tt q.ts.own hy fy)
          (rw
            (seed_all-again wallpaper_writer wallpaper_writer-IsLawful
              (wallpaper_round q.cs.dict q.ts.dict) (λ r. r.source_url)
              (wallpaper_key q.cs.dict q.ts.dict) later f.wallpapers vs q.ws.dict
              (wallpaper_table after) tt q.ws.own hv fv)
            (rw
              (seed_all-again collection_writer collection_writer-IsLawful
                (collection_round q.ws.dict) (λ r. r.slug) (row_key (λ r. r.slug)) later
                f.collections zs q.ks.dict (collection_table after) q.ks.own q.ks.own hz fz')
              refl)))

  -- What a run that succeeds committed.
  handle-seed : {db' : Db} → handle now (some f) db ≡ (ok tt, db') → seed now f db ≡ ok db'
  unfolding handle
  handle-seed {db'} h = elim (Result-cases (seed now f db)) [
    | inl (d, e) ↦ e ∙ ap (λ (x : Db). ok x) (ok_pair tt d (rw e at h)).1
    | inr (x, e) ↦ absurd (cc (rw e at h))
  ]

  handle_committed : (t : ℕ) (d d' : Db) → seed t f d ≡ ok d' → handle t (some f) d ≡ (ok tt, d')
  unfolding handle
  handle_committed t d d' h = rw h refl

  -- Seeding a second time, at any time, changes nothing but the items' own primary keys: after a
  -- run that succeeds, another one succeeds and leaves the categories, tags, wallpapers and
  -- collections as they are, with their primary keys, their times of creation and their order, and
  -- the items of all collections with their collection, wallpaper, position and order. The items
  -- are created anew, under primary keys that the model does not have. The natural keys of the
  -- fixture are pairwise distinct in each of its lists, and no two collections of the database have
  -- one primary key.
  pub handle_twice :
      {db' : Db}
      → handle now (some f) db ≡ (ok tt, db')
      → HasDistinctIds db'.collections
      → handle later (some f) db' ≡ (ok tt, db')
  handle_twice {db'} h ids =
      let q = seed-Loops now f db (handle-seed h) in
      handle_committed later db' db' (
        subst (λ (d : Db). seed later f d ≡ ok d) q.whole
          (seed-Loops_again q (subst (λ (d : Db). HasDistinctIds d.collections) (sym q.whole) ids)))

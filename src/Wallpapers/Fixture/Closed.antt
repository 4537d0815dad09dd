-- ===== src/Wallpapers/Fixture/Closed.antt =====
-- scripts/build_seed_fixture.py: a fixture that is built refers to nothing that it does not hold.
use backend_live_canvas.Prelude.{
  String, ◌≡◌, refl, ◌∙◌, true, some, List, [], ◌∷◌, map, select, All, All-map, exists, is_some,
  str_eq, str_eq_refl,
}
use backend_live_canvas.Core.Exec.{ok}
use backend_live_canvas.Wallpapers.Home.{order_by}
use backend_live_canvas.Wallpapers.Home.Order.{All-order_by}
use backend_live_canvas.Wallpapers.Crawl.{Clip, Manifest, VideoIndex, collections}
use backend_live_canvas.Wallpapers.Crawl.Folders.{
  Folders, folder_of, mapped_to, clips_in, premium_ids,
}
use backend_live_canvas.Wallpapers.Fixture.{Built, by_id, built, build}
use backend_live_canvas.Wallpapers.Fixture.Grouped.{
  members, in_folder, group_total, clips_in-members, select-exists, exists-order_by, exists_self,
}
use backend_live_canvas.Wallpapers.Fixture.Rows.{is_category, IsStored, build_rows_total}
use backend_live_canvas.Wallpapers.Fixture.Picks.{
  opens, HasClips, HasCover, build_collections_total,
}

-- What a fixture refers to it holds: the categories and tags of the wallpapers, the items of the
-- collections and the covers.
pub record IsClosed (b : Built) : Type 0 where
  pub categories : All (λ w. is_category w.row.category ≡ true) b.wallpapers
  pub tags :
      All (λ w. All (λ t. exists (λ r. str_eq r.slug t) b.tags ≡ true) w.row.tags) b.wallpapers
  pub items :
      All
        (λ c. All (λ i. exists (λ w. str_eq w.row.key i) b.wallpapers ≡ true) c.items)
        b.collections
  pub covers : All (HasCover b.wallpapers) b.collections

-- Every folder of the crawl is mapped, and every folder that a collection picks from has a clip.
pub record IsCrawl (m : Manifest) : Type 0 where
  pub mapped : All (λ c. is_some (mapped_to (folder_of c)) ≡ true) m.clips
  pub picked : All (λ s. All (HasClips m.clips) s.picks) collections

collections_open : All (λ s. opens s.picks ≡ true) collections
unfolding collections
collections_open = (refl, (refl, (refl, (refl, (refl, tt)))))

All-both :
    {A : Type 0} (P Q : A → Type 0) (xs : List A) → All P xs → All Q xs → All (λ x. P x × Q x) xs
All-both P Q [] h k = tt
All-both P Q (x ∷ xs) h k = ((h.0, k.0), All-both P Q xs h.1 k.1)

-- The folder of a clip is found.
found_folder :
    (clips : List Clip) (fs : Folders)
    → ((k : String) → members k fs ≡ select (in_folder k) clips)
    → (c : Clip) → exists (in_folder (folder_of c)) clips ≡ true
    → (e : String × List Clip) × (clips_in (folder_of c) fs ≡ some e)
found_folder clips fs g c h =
    let (y, ys, q) = select-exists (in_folder (folder_of c)) clips h in
    let (e, at, same) = clips_in-members (folder_of c) fs (g (folder_of c) ∙ q) in (e, at)

IsStored-clips :
    (clips : List Clip) (fs : Folders)
    → ((k : String) → members k fs ≡ select (in_folder k) clips)
    → All (λ c. is_some (mapped_to (folder_of c)) ≡ true) clips
    → All (IsStored fs) clips
IsStored-clips clips fs g h =
    All-map _ _ clips (λ c k. let (e, at) = found_folder clips fs g c k.1 in (k.0, e, at))
      (All-both _ _ clips h
        (exists_self (λ c. in_folder (folder_of c)) clips (λ c. str_eq_refl (folder_of c))))

picked_sorted :
    (m : Manifest)
    → IsCrawl m
    → All (λ s. All (HasClips (order_by by_id m.clips)) s.picks) collections
picked_sorted m h =
    All-map _ _ collections
      (λ s k. All-map _ _ s.picks (λ p e. exists-order_by by_id (in_folder p.0) m.clips ∙ e) k)
      h.picked

-- A crawl whose folders are all mapped, and that has a clip in every folder that a sample collection
-- picks from, is built into a fixture: with one row for each clip, in the order of their ids, and in
-- which every category, tag and item that a row names is a row of the fixture, and every cover the
-- thumbnail of the first item.
pub build-IsClosed :
    (m : Manifest) (index : VideoIndex)
    → IsCrawl m
    → (b : Built) × (build m index ≡ ok b)
      × (map (λ w. w.local_path) b.wallpapers ≡ map (λ c. c.path) (order_by by_id m.clips))
      × IsClosed b
unfolding build
build-IsClosed m index h =
    let clips = order_by by_id m.clips in
    let mapped = All-order_by by_id _ m.clips h.mapped in
    let (fs, q, grouped) = group_total clips mapped in
    let (ws, rows, paths, tagged, keys) =
      build_rows_total fs index (premium_ids index fs) clips
        (IsStored-clips clips fs grouped mapped) in
    let (cs, made, items, covers) =
      build_collections_total clips fs ws grouped keys collections collections_open
        (picked_sorted m h) in
    (
      built m index fs ws cs,
      rw (q, rows, made, build) refl,
      paths,
      record {
        categories = All-map _ _ ws (λ w t. t.category) tagged;
        tags = All-map _ _ ws (λ w t. t.tags) tagged;
        items = items;
        covers = covers;
      },
    )

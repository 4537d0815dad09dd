-- ===== src/Wallpapers/Fixture.antt =====
-- scripts/build_seed_fixture.py: the fixture of the seeder from a crawl. The files that it reads are
-- arguments, and what it writes is its result.
pub mod Grouped
pub mod Rows
pub mod Picks
pub mod Closed
use backend_live_canvas.Prelude.{
  ℕ, suc, String, concat, decimal, Bool, true, false, ◌||◌, ◌&&◌, Option, none, some, List, [], ◌∷◌,
  ◌++◌, ◌+◌, ◌*◌, ◌/◌, ◌%◌, max, map, length, take, select, first, exists, or_first, is_some, codes,
  ltb, ◌==◌, str_eq, if◌then◌else◌,
}
use backend_live_canvas.Core.Errors.{Exc}
use backend_live_canvas.Core.Exec.{Result, ok, err, then_result}
use backend_live_canvas.Wallpapers.Home.{order_by}
use backend_live_canvas.Wallpapers.Seed.{TagRow, WallpaperRow, CollectionRow, Fixture}
use backend_live_canvas.Wallpapers.Crawl.{
  Clip, Manifest, Video, VideoIndex, Folder, Sample, license_type, categories, collections,
  folder_map, premium_min_per_folder, orientation_of,
}
use backend_live_canvas.Wallpapers.Crawl.Folders.{
  folder_of, mapped_to, facts, Folders, group, clips_in, premium_ids,
}
use backend_live_canvas.Wallpapers.Crawl.Title.{first_part, title_from_page_url}

abbrev key_error : Exc
key_error = Exc.other "KeyError"

abbrev pub item_or : {A : Type 0} → Exc → Option A → Result A
item_or e none = err e
item_or e (some a) = ok a

-- ---------------------------------------------------------------- rows

-- A row with the members that the seeder ignores.
pub record BuiltRow : Type 0 where
  pub row : WallpaperRow
  pub author : String
  pub author_url : String
  pub local_path : String

abbrev pub built_row : VideoIndex → List ℕ → Clip → Folder → BuiltRow
built_row index premium c f =
    let local = facts index c in
    record {
      row = record {
        key = decimal c.id;
        title = title_from_page_url c.page_url c.id;
        category = f.category;
        tags = folder_of c ∷ [];
        orientation = orientation_of local.width local.height;
        is_premium = some (exists (λ i. i == c.id) premium);
        thumbnail_url = some c.poster;
        preview_video_url = some c.link;
        resolution = some (concat (decimal local.width) (concat "x" (decimal local.height)));
        duration_seconds = some (100 * local.duration);
        file_size_bytes = some local.size;
        source_url = c.page_url;
        license_type = license_type;
      };
      author = c.author;
      author_url = c.author_url;
      local_path = c.path;
    }

unfoldable pub build_rows : VideoIndex → List ℕ → List Clip → Result (List BuiltRow)
build_rows index premium [] = ok []
build_rows index premium (c ∷ cs) =
    then_result (item_or key_error (mapped_to (folder_of c)))
      (λ f. then_result (build_rows index premium cs) (λ ws. ok (built_row index premium c f ∷ ws)))

-- ---------------------------------------------------------------- collections

-- The first clips of each folder that a collection picks from.
unfoldable pub pick_items : Folders → List (String × ℕ) → Result (List String)
pick_items fs [] = ok []
pick_items fs ((k, n) ∷ ps) =
    then_result (item_or key_error (clips_in k fs))
      (λ e. then_result (pick_items fs ps) (λ is. ok (map (λ c. decimal c.id) (take n e.1) ++ is)))

-- `items[0]`
abbrev pub head_item : List String → Result String
head_item [] = err (Exc.other "IndexError")
head_item (k ∷ ks) = ok k

-- The thumbnail of the first row with a key.
abbrev pub cover_of : List BuiltRow → String → Result (Option String)
cover_of ws k =
    then_result (item_or (Exc.other "StopIteration") (first (λ w. str_eq w.row.key k) ws))
      (λ w. ok w.row.thumbnail_url)

abbrev pub sample_row : Sample → List String → Option String → CollectionRow
sample_row s items cover = record {
  slug = s.slug;
  title = s.title;
  author = some "LiveCanvas";
  description = some s.description;
  cover_url = cover;
  accent_color = some s.accent;
  is_premium = some s.is_premium;
  items = items;
}

unfoldable pub build_collections :
    Folders → List BuiltRow → List Sample → Result (List CollectionRow)
unfolding pick_items
build_collections fs ws [] = ok []
build_collections fs ws (s ∷ ss) = then_result (pick_items fs s.picks) (λ items.
    then_result (head_item items) (λ k. then_result (cover_of ws k) (λ cover.
      then_result (build_collections fs ws ss) (λ rest. ok (sample_row s items cover ∷ rest)))))

-- ---------------------------------------------------------------- the fixture

-- The order of texts by their code points.
abbrev before : List ℕ → List ℕ → Bool
before s [] = false
before [] (d ∷ t) = true
before (c ∷ s) (d ∷ t) = ltb c d || (c == d && before s t)

abbrev by_slug : Folder → Folder → Bool
by_slug f g = before (codes f.slug) (codes g.slug)

unfoldable pub build_tags : Folders → List TagRow
unfolding order_by
build_tags fs =
    map (λ f. record { slug = f.slug; name = f.name })
      (select (λ f. is_some (clips_in f.slug fs)) (order_by by_slug folder_map))

pub record Built : Type 0 where
  -- `generated_from`: the stamps of both files, and the source.
  pub manifest : Option String
  pub video_index : Option String
  pub source : Option String
  pub tags : List TagRow
  pub wallpapers : List BuiltRow
  pub collections : List CollectionRow

-- What the seeder reads of it.
abbrev pub fixture_of : Built → Fixture
fixture_of b = record {
  categories = categories;
  tags = b.tags;
  wallpapers = map (λ w. w.row) b.wallpapers;
  collections = b.collections;
}

abbrev pub by_id : Clip → Clip → Bool
by_id c d = ltb c.id d.id

abbrev pub built : Manifest → VideoIndex → Folders → List BuiltRow → List CollectionRow → Built
built manifest index fs ws cs = record {
  manifest = manifest.generated;
  video_index = index.generated;
  source = manifest.source;
  tags = build_tags fs;
  wallpapers = ws;
  collections = cs;
}

-- `build`
unfoldable pub build : Manifest → VideoIndex → Result Built
unfolding order_by group premium_ids build_rows build_tags build_collections
build manifest index =
    let clips = order_by by_id manifest.clips in
    then_result (group clips []) (λ fs.
      then_result (build_rows index (premium_ids index fs) clips) (λ ws.
        then_result (build_collections fs ws collections)
          (λ cs. ok (built manifest index fs ws cs))))

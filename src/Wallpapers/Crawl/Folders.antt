-- ===== src/Wallpapers/Crawl/Folders.antt =====
-- scripts/build_seed_fixture.py: the folders of a crawl, what is known of a clip, and the premium clips.
use backend_live_canvas.Prelude.{
  ℕ, suc, String, Bool, true, false, ◌||◌, ◌&&◌, Option, none, some, List, [], ◌∷◌, ◌++◌, ◌+◌, ◌*◌,
  ◌/◌, ◌%◌, max, map, length, take, first, or_first, is_some, ltb, ◌==◌, str_eq, if◌then◌else◌,
}
use backend_live_canvas.Core.Errors.{Exc}
use backend_live_canvas.Core.Exec.{Result, ok, err}
use backend_live_canvas.Wallpapers.Home.{order_by}
use backend_live_canvas.Wallpapers.Crawl.{
  Clip, Video, VideoIndex, Folder, folder_map, premium_min_per_folder,
}
use backend_live_canvas.Wallpapers.Crawl.Title.{first_part}

-- `clip["path"].split("/", 1)[0]`
abbrev pub folder_of : Clip → String
folder_of c = first_part c.path

-- `FOLDER_MAP[k]`, where there is one.
abbrev pub mapped_to : String → Option Folder
mapped_to k = first (λ f. str_eq f.slug k) folder_map

-- ---------------------------------------------------------------- facts of a clip

abbrev flat : List (List Video) → List Video
flat [] = []
flat (vs ∷ vss) = vs ++ flat vss

-- `local_by_path.get(path)`: a later file with the same path replaces an earlier one.
abbrev local_at : String → List Video → Option Video
local_at p [] = none
local_at p (v ∷ vs) = or_first (local_at p vs) (if str_eq v.path p then some v else none)

abbrev facts_or : Clip → Option Video → Video
facts_or c none = record {
  path = c.path;
  size = c.file_size;
  duration = c.duration;
  width = c.width;
  height = c.height;
}
facts_or c (some v) = v

-- What the local file says of a clip, or the manifest where there is no file.
abbrev pub facts : VideoIndex → Clip → Video
facts index c = facts_or c (local_at c.path (flat index.categories))

-- ---------------------------------------------------------------- folders

abbrev pub Folders : Type 0
Folders = List (String × List Clip)

-- `folders.setdefault(k, []).append(c)`
unfoldable pub add_clip : String → Clip → Folders → Folders
add_clip k c [] = (k, c ∷ []) ∷ []
add_clip k c ((j, cs) ∷ fs) =
    let rest = add_clip k c fs in if str_eq j k then (j, cs ++ c ∷ []) ∷ fs else (j, cs) ∷ rest

-- The clips by folder, in the order of the first clip of each.
unfoldable pub group : List Clip → Folders → Result Folders
unfolding add_clip
group [] fs = ok fs
group (c ∷ cs) fs = elim (is_some (mapped_to (folder_of c))) [
  | true ↦ group cs (add_clip (folder_of c) c fs)
  | false ↦ err (Exc.other "SystemExit: Unmapped folder")
]

-- `folders.get(k)`
abbrev pub clips_in : String → Folders → Option (String × List Clip)
clips_in k fs = first (λ e. str_eq e.0 k) fs

-- ---------------------------------------------------------------- premium clips

-- `-bitrate(c)` and then the id, as a test `c` before `d`; the quotients are compared exactly.
abbrev by_bitrate : VideoIndex → Clip → Clip → Bool
by_bitrate index c d =
    let a = (facts index c).size * max (facts index d).duration 1 in
    let b = (facts index d).size * max (facts index c).duration 1 in
    ltb b a || (a == b && ltb c.id d.id)

-- `round(n * PREMIUM_RATIO)`: to the nearest number, and to the even one of two.
abbrev rounded_share : ℕ → ℕ
rounded_share n =
    let q = (22 * n) / 100 in
    let r = (22 * n) % 100 in if ltb r 50 then q else if ltb 50 r then suc q else q + q % 2

-- How many clips of a folder are premium.
abbrev pub premium_take : ℕ → ℕ
premium_take n = max premium_min_per_folder (rounded_share n)

unfoldable pub premium_ids : VideoIndex → Folders → List ℕ
unfolding order_by
premium_ids index [] = []
premium_ids index ((k, cs) ∷ fs) =
    map (λ c. c.id) (take (premium_take (length cs)) (order_by (by_bitrate index) cs))
    ++ premium_ids index fs

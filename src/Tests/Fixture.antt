-- ===== src/Tests/Fixture.antt =====
-- Runs of scripts/build_seed_fixture.py.
use backend_live_canvas.Prelude.{
  ℕ, String, concat, ◌≡◌, refl, none, some, [], ◌∷◌, map, str_eq, first, exists,
}
use backend_live_canvas.Core.Exec.{ok}
use backend_live_canvas.Wallpapers.Home.{order_by}
use backend_live_canvas.Wallpapers.Crawl.{Clip, Manifest, VideoIndex, collections, folder_map}
use backend_live_canvas.Wallpapers.Crawl.Title.{first_part}
use backend_live_canvas.Wallpapers.Crawl.Folders.{premium_take}
use backend_live_canvas.Wallpapers.Fixture.{Built, by_id, build}
use backend_live_canvas.Wallpapers.Fixture.Closed.{IsCrawl, IsClosed, build-IsClosed}

-- Halves go to the even number.
premium_take_run : map premium_take (5 ∷ 17 ∷ 25 ∷ 75 ∷ []) ≡ 3 ∷ 4 ∷ 6 ∷ 16 ∷ []
premium_take_run = refl

abbrev clip : ℕ → String → Clip
clip i folder = record {
  id = i;
  page_url = concat "https://www.pexels.com/video/" folder;
  link = "https://videos.pexels.com/1.mp4";
  poster = concat "https://images.pexels.com/" folder;
  width = 2160;
  height = 3840;
  duration = 7;
  author = "Ann";
  author_url = "https://www.pexels.com/@ann";
  file_size = 1000;
  path = concat folder "/1.mp4";
}

-- One clip in every folder that a sample collection picks from.
abbrev crawl : Manifest
crawl = record {
  generated = some "2026-07-23";
  source = some "Pexels";
  clips =
      clip 12 "stars-night-sky"
      ∷ clip 3 "aurora-borealis"
      ∷ clip 4 "city-night"
      ∷ clip 5 "forest"
      ∷ clip 6 "rain"
      ∷ clip 7 "fog"
      ∷ clip 8 "waterfall"
      ∷ clip 9 "ocean-waves"
      ∷ clip 10 "underwater"
      ∷ clip 11 "neon-lights"
      ∷ clip 2 "bokeh-lights"
      ∷ clip 13 "fire"
      ∷ clip 14 "smoke"
      ∷ clip 15 "ink-water"
      ∷ [];
}

abbrev index : VideoIndex
index = record { generated = none; categories = [] }

crawl-IsCrawl : IsCrawl crawl
unfolding build collections folder_map first_part str_eq first exists
crawl-IsCrawl = record {
  mapped = (
    refl,
    (
      refl,
      (
        refl,
        (refl, (refl, (refl, (refl, (refl, (refl, (refl, (refl, (refl, (refl, (refl, tt))))))))))),
      ),
    ),
  );
  picked = (
    (refl, (refl, (refl, tt))),
    (
      (refl, (refl, (refl, (refl, tt)))),
      ((refl, (refl, tt)), ((refl, (refl, (refl, tt))), ((refl, (refl, (refl, tt))), tt))),
    ),
  );
}

build-IsClosed_example :
    (b : Built) × (build crawl index ≡ ok b)
    × (map (λ w. w.local_path) b.wallpapers ≡ map (λ c. c.path) (order_by by_id crawl.clips))
    × IsClosed b
build-IsClosed_example = build-IsClosed crawl index crawl-IsCrawl

-- ===== src/Wallpapers/Crawl.antt =====
-- scripts/build_seed_fixture.py: what it reads of a crawl, its constants, and the orientation of a clip.
pub mod Title
pub mod Folders
use backend_live_canvas.Prelude.{
  ℕ, String, Bool, true, false, Option, some, List, [], ◌∷◌, ltb, ◌==◌, if◌then◌else◌,
}
use backend_live_canvas.Wallpapers.Models.{Orientation}
use backend_live_canvas.Wallpapers.Seed.{CategoryRow}

-- A clip of manifest.json. Durations are whole seconds in both files of a crawl.
pub record Clip : Type 0 where
  pub id : ℕ
  pub page_url : String
  pub link : String
  pub poster : String
  pub width : ℕ
  pub height : ℕ
  pub duration : ℕ
  pub author : String
  pub author_url : String
  pub file_size : ℕ
  pub path : String

pub record Manifest : Type 0 where
  pub generated : Option String
  pub source : Option String
  pub clips : List Clip

-- A local file of video_index.json.
pub record Video : Type 0 where
  pub path : String
  pub size : ℕ
  pub duration : ℕ
  pub width : ℕ
  pub height : ℕ

-- The categories of the index are the lists of their videos.
pub record VideoIndex : Type 0 where
  pub generated : Option String
  pub categories : List (List Video)

abbrev pub license_type : String
license_type = "Pexels License"

abbrev pub categories : List CategoryRow
categories =
    record { slug = "nature"; name = "Thiên nhiên"; icon_url = some "" }
    ∷ record { slug = "sky"; name = "Bầu trời & Vũ trụ"; icon_url = some "" }
    ∷ record { slug = "city"; name = "Thành phố & Ánh đèn"; icon_url = some "" }
    ∷ record { slug = "abstract"; name = "Trừu tượng"; icon_url = some "" }
    ∷ record { slug = "anime"; name = "Anime"; icon_url = some "" }
    ∷ []

-- What a folder maps to.
pub record Folder : Type 0 where
  pub slug : String
  pub category : String
  pub name : String

abbrev folder : String → String → String → Folder
folder s c n = record { slug = s; category = c; name = n }

unfoldable pub folder_map : List Folder
folder_map =
    folder "forest" "nature" "Rừng"
    ∷ folder "waterfall" "nature" "Thác nước"
    ∷ folder "ocean-waves" "nature" "Sóng biển"
    ∷ folder "underwater" "nature" "Dưới đại dương"
    ∷ folder "flowers-blooming" "nature" "Hoa nở"
    ∷ folder "rain" "nature" "Mưa"
    ∷ folder "snow-falling" "nature" "Tuyết rơi"
    ∷ folder "fog" "nature" "Sương mù"
    ∷ folder "stars-night-sky" "sky" "Trời sao"
    ∷ folder "aurora-borealis" "sky" "Cực quang"
    ∷ folder "clouds-timelapse" "sky" "Mây trôi"
    ∷ folder "sunset" "sky" "Hoàng hôn"
    ∷ folder "city-night" "city" "Thành phố về đêm"
    ∷ folder "neon-lights" "city" "Đèn neon"
    ∷ folder "bokeh-lights" "city" "Bokeh"
    ∷ folder "abstract-motion" "abstract" "Chuyển động trừu tượng"
    ∷ folder "particles" "abstract" "Hạt sáng"
    ∷ folder "ink-water" "abstract" "Mực loang"
    ∷ folder "smoke" "abstract" "Khói"
    ∷ folder "fire" "abstract" "Lửa"
    ∷ folder "anime" "anime" "Anime"
    ∷ []

abbrev pub premium_min_per_folder : ℕ
premium_min_per_folder = 3

-- A sample collection, with the folders that it picks from and how many clips of each.
pub record Sample : Type 0 where
  pub slug : String
  pub title : String
  pub description : String
  pub accent : String
  pub is_premium : Bool
  pub picks : List (String × ℕ)

unfoldable pub collections : List Sample
collections =
    record {
      slug = "calm-nights";
      title = "Đêm yên bình";
      description = "Trời sao, cực quang và ánh đèn thành phố về khuya.";
      accent = "#1B2A4A";
      is_premium = false;
      picks = ("stars-night-sky", 4) ∷ ("aurora-borealis", 3) ∷ ("city-night", 3) ∷ [];
    }
    ∷ record {
      slug = "zen-nature";
      title = "Thiên nhiên tĩnh lặng";
      description = "Rừng sâu, mưa rơi và sương mù cho những phút thư giãn.";
      accent = "#2F4F3E";
      is_premium = false;
      picks = ("forest", 3) ∷ ("rain", 3) ∷ ("fog", 2) ∷ ("waterfall", 2) ∷ [];
    }
    ∷ record {
      slug = "ocean-escape";
      title = "Hơi thở đại dương";
      description = "Sóng biển và thế giới dưới mặt nước.";
      accent = "#0E4C6B";
      is_premium = false;
      picks = ("ocean-waves", 5) ∷ ("underwater", 5) ∷ [];
    }
    ∷ record {
      slug = "neon-vibes";
      title = "Neon Vibes";
      description = "Neon rực rỡ và bokeh lung linh của thành phố đêm.";
      accent = "#8A2BE2";
      is_premium = true;
      picks = ("neon-lights", 4) ∷ ("bokeh-lights", 3) ∷ ("city-night", 3) ∷ [];
    }
    ∷ record {
      slug = "smoke-and-fire";
      title = "Khói & Lửa";
      description = "Lửa cháy, khói cuộn và mực loang đầy mê hoặc.";
      accent = "#B33A1E";
      is_premium = false;
      picks = ("fire", 4) ∷ ("smoke", 3) ∷ ("ink-water", 3) ∷ [];
    }
    ∷ []

-- `orientation_of`
abbrev pub orientation_of : ℕ → ℕ → Orientation
orientation_of width height =
    if width == height
    then Orientation.square
    else if ltb width height
    then Orientation.portrait
    else Orientation.landscape

-- ===== src/Wallpapers/Seed.antt =====
-- apps/wallpapers/management/commands/seed_content.py: the catalog from the committed fixture. The
-- fixture is an argument, with the members that its rows have; the message at the end is not
-- modelled.
pub mod Members
pub mod Laws
pub mod Twice
use backend_live_canvas.Prelude.{
  ℕ, zero, suc, String, concat, Bool, true, false, not, ◌&&◌, ◌||◌, Option, none, some, List, [],
  ◌∷◌, ◌++◌, map, select, first, exists, every, ◌==◌, str_eq, if◌then◌else◌,
}
use backend_live_canvas.Core.Errors.{Exc}
use backend_live_canvas.Core.Exec.{Result, ok, err, Exec, atomic, then_result}
use backend_live_canvas.Wallpapers.Models.{
  Orientation, WallpaperStatus, Category, Tag, Wallpaper, Collection, CollectionItem, Db,
  is_reserved_slug,
}
use backend_live_canvas.Wallpapers.Admin.{sorted_set}
use backend_live_canvas.Wallpapers.Upsert.{Writer, Table, Round, Dict, Seeded, seed_all}

-- The rows of the fixture; a member that the command reads by `get` may be absent.
pub record CategoryRow : Type 0 where
  pub slug : String
  pub name : String
  pub icon_url : Option String

pub record TagRow : Type 0 where
  pub slug : String
  pub name : String

pub record WallpaperRow : Type 0 where
  pub key : String
  pub source_url : String
  pub title : String
  pub category : String
  pub orientation : Orientation
  pub is_premium : Option Bool
  pub thumbnail_url : Option String
  pub preview_video_url : Option String
  pub resolution : Option String
  pub duration_seconds : Option ℕ
  pub file_size_bytes : Option ℕ
  pub license_type : String
  pub tags : List String

pub record CollectionRow : Type 0 where
  pub slug : String
  pub title : String
  pub author : Option String
  pub description : Option String
  pub cover_url : Option String
  pub accent_color : Option String
  pub is_premium : Option Bool
  pub items : List String

pub record Fixture : Type 0 where
  pub categories : List CategoryRow
  pub tags : List TagRow
  pub wallpapers : List WallpaperRow
  pub collections : List CollectionRow

abbrev given {ℓ} : {A : Type ℓ} → A → Option A → A
given d none = d
given d (some a) = a

-- A dictionary's value under a key.
abbrev pub dict_get : String → Dict → Option (String × ℕ)
dict_get k d = first (λ e. str_eq e.0 k) d

abbrev value_of : Option (String × ℕ) → Result ℕ
value_of none = err (Exc.other "KeyError")
value_of (some (_, i)) = ok i

-- `d[k]`
abbrev pub dict_item : Dict → String → Result ℕ
dict_item d k = value_of (dict_get k d)

-- `[d[k] for k in ks]`
unfoldable pub dict_items : Dict → List String → Result (List ℕ)
dict_items d [] = ok []
dict_items d (k ∷ ks) =
    then_result (dict_item d k) (λ i. then_result (dict_items d ks) (λ is. ok (i ∷ is)))

-- ---------------------------------------------------------------- categories

abbrev pub category_writer : Writer CategoryRow Category
category_writer = record {
  wanted = λ r. r.slug;
  key_of = λ c. c.slug;
  apply = λ r c. record c { name = r.name; icon_url = given "" r.icon_url };
  create = λ now r n. record {
    id = n;
    slug = r.slug;
    name = r.name;
    icon_url = given "" r.icon_url;
    created_at = now;
  };
}

abbrev pub category_round : Round CategoryRow CategoryRow Category (Unit {0})
category_round = record {
  prepare = λ r. ok r;
  finish = λ r c own. ok own;
  entry = λ r c. (c.slug, c.id);
}

-- ---------------------------------------------------------------- tags

abbrev pub tag_writer : Writer TagRow Tag
tag_writer = record {
  wanted = λ r. r.slug;
  key_of = λ t. t.slug;
  apply = λ r t. record t { name = r.name };
  create = λ now r n. record { id = n; slug = r.slug; name = r.name; created_at = now };
}

-- `validate_tag_slug`
abbrev pub checked_tag : TagRow → Result TagRow
checked_tag r = if is_reserved_slug r.slug then err (Exc.other "ValidationError") else ok r

abbrev pub tag_round : Round TagRow TagRow Tag (Unit {0})
tag_round = record {
  prepare = checked_tag;
  finish = λ r t own. ok own;
  entry = λ r t. (t.slug, t.id);
}

-- ---------------------------------------------------------------- wallpapers

-- A row of the fixture with the primary keys of its category and tags.
pub record WallpaperValues : Type 0 where
  pub row : WallpaperRow
  pub category : ℕ
  pub tags : List ℕ

-- The columns of `defaults`, and the tags that are set behind the write.
abbrev pub with_values : WallpaperValues → Wallpaper → Wallpaper
with_values v w = record w {
  title = v.row.title;
  category = v.category;
  tags = sorted_set v.tags;
  orientation = v.row.orientation;
  thumbnail_url = v.row.thumbnail_url;
  preview_video_url = v.row.preview_video_url;
  resolution = v.row.resolution;
  duration_seconds = v.row.duration_seconds;
  file_size_bytes = v.row.file_size_bytes;
  is_premium = given false v.row.is_premium;
  license_type = v.row.license_type;
}

-- The new row: the same columns, and the defaults of the model.
abbrev pub new_wallpaper : ℕ → WallpaperValues → ℕ → Wallpaper
new_wallpaper now v n = with_values v (record {
  id = n;
  title = "";
  description = none;
  category = 0;
  tags = [];
  orientation = Orientation.portrait;
  thumbnail_url = none;
  preview_video_url = none;
  resolution = none;
  duration_seconds = none;
  file_size_bytes = none;
  is_premium = false;
  download_count = 0;
  like_count = 0;
  source_url = v.row.source_url;
  license_type = "";
  master_key = none;
  staging_key = none;
  thumbnail_key = none;
  preview_key = none;
  failure_reason = none;
  status = WallpaperStatus.published;
  deleted_at = none;
  created_at = now;
})

abbrev pub wallpaper_writer : Writer WallpaperValues Wallpaper
wallpaper_writer = record {
  wanted = λ v. v.row.source_url;
  key_of = λ w. w.source_url;
  apply = with_values;
  create = new_wallpaper;
}

abbrev known_ids : Dict → List String → List ℕ
known_ids d [] = []
known_ids d (k ∷ ks) = elim (dict_get k d) [ none ↦ known_ids d ks | some e ↦ e.1 ∷ known_ids d ks ]

-- The category is looked up before the write and the tags behind it; a tag that is missing raises
-- there, so that nothing of the command stays.
abbrev pub wallpaper_round : Dict → Dict → Round WallpaperRow WallpaperValues Wallpaper (Unit {0})
wallpaper_round categories tags = record {
  prepare = λ r.
      then_result (dict_item categories r.category)
        (λ c. ok (record { row = r; category = c; tags = known_ids tags r.tags }));
  finish = λ r w own. then_result (dict_items tags r.tags) (λ _. ok own);
  entry = λ r w. (r.key, w.id);
}

-- ---------------------------------------------------------------- collections

abbrev pub collection_writer : Writer CollectionRow Collection
collection_writer = record {
  wanted = λ r. r.slug;
  key_of = λ c. c.slug;
  apply = λ r c. record c {
    title = r.title;
    author = given "" r.author;
    description = given "" r.description;
    cover_url = given "" r.cover_url;
    accent_color = r.accent_color;
    is_premium = given false r.is_premium;
  };
  create = λ now r n. record {
    id = n;
    slug = r.slug;
    title = r.title;
    author = given "" r.author;
    description = given "" r.description;
    cover_url = given "" r.cover_url;
    accent_color = r.accent_color;
    is_premium = given false r.is_premium;
    created_at = now;
    show_on_home = false;
    home_position = 0;
  };
}

-- `enumerate`
unfoldable pub numbered : ℕ → ℕ → List ℕ → List CollectionItem
numbered c n [] = []
numbered c n (i ∷ is) =
    record { collection = c; wallpaper = i; position = n } ∷ numbered c (suc n) is

abbrev pub is_in : ℕ → CollectionItem → Bool
is_in c i = i.collection == c

unfoldable pub has_repeat : List ℕ → Bool
has_repeat [] = false
has_repeat (i ∷ is) = exists (λ j. j == i) is || has_repeat is

-- The items of a collection from scratch: `col.items.all().delete()` and `bulk_create`, whose new
-- primary keys are not modelled; a repeated wallpaper breaks the unique constraint.
unfoldable pub rebuild :
    Dict → CollectionRow → Collection → List CollectionItem → Result (List CollectionItem)
unfolding dict_items numbered has_repeat
rebuild wallpapers r c items = then_result (dict_items wallpapers r.items) (λ ids.
    if has_repeat ids
    then err (Exc.other "IntegrityError")
    else ok (select (λ i. not (is_in c.id i)) items ++ numbered c.id 0 ids))

abbrev pub collection_round :
    Dict → Round CollectionRow CollectionRow Collection (List CollectionItem)
collection_round wallpapers = record {
  prepare = λ r. ok r;
  finish = rebuild wallpapers;
  entry = λ r c. (c.slug, c.id);
}

-- ---------------------------------------------------------------- the command

abbrev pub category_table : Db → Table Category
category_table db = record { rows = db.categories; next = db.next_category }

abbrev pub tag_table : Db → Table Tag
tag_table db = record { rows = db.tags; next = db.next_tag }

abbrev pub wallpaper_table : Db → Table Wallpaper
wallpaper_table db = record { rows = db.wallpapers; next = db.next_wallpaper }

abbrev pub collection_table : Db → Table Collection
collection_table db = record { rows = db.collections; next = db.next_collection }

abbrev pub seeded_db :
    Db
    → Seeded Category (Unit {0})
    → Seeded Tag (Unit {0})
    → Seeded Wallpaper (Unit {0})
    → Seeded Collection (List CollectionItem)
    → Db
seeded_db db cs ts ws ks = record db {
  categories = cs.table.rows;
  next_category = cs.table.next;
  tags = ts.table.rows;
  next_tag = ts.table.next;
  wallpapers = ws.table.rows;
  next_wallpaper = ws.table.next;
  collections = ks.table.rows;
  next_collection = ks.table.next;
  items = ks.own;
}

-- The four loops.
unfoldable pub seed : ℕ → Fixture → Db → Result Db
unfolding seed_all
seed now f db =
    then_result (seed_all now category_writer category_round f.categories (category_table db) tt)
      (λ cs. then_result (seed_all now tag_writer tag_round f.tags (tag_table db) tt) (λ ts.
        then_result
          (seed_all now wallpaper_writer (wallpaper_round cs.dict ts.dict) f.wallpapers
            (wallpaper_table db) tt)
          (λ ws.
            then_result
              (seed_all now collection_writer (collection_round ws.dict) f.collections
                (collection_table db) db.items)
              (λ ks. ok (seeded_db db cs ts ws ks)))))

abbrev stored : Result Db → Exec Db (Unit {0})
stored (ok db') db = (ok tt, db')
stored (err e) db = (err e, db)

-- `Command.handle`; the fixture may be missing.
unfoldable pub handle : ℕ → Option Fixture → Exec Db (Unit {0})
unfolding seed
handle now none db = (err (Exc.other "CommandError: Fixture not found"), db)
handle now (some f) db = atomic (λ d. stored (seed now f d) d) db

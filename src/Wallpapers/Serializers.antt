-- ===== src/Wallpapers/Serializers.antt =====
-- apps/wallpapers/serializers.py: what the content API shows of a row. A count that the query does not
-- annotate is computed from the tables, to the same number.
use backend_live_canvas.Prelude.{
  ℕ, String, Bool, false, ◌&&◌, ◌||◌, Option, none, some, List, [], map, length, select, first,
  exists, ltb, ◌==◌,
}
use backend_live_canvas.Wallpapers.Models.{
  Orientation, Category, Tag, Wallpaper, Collection, CollectionItem, Db, is_published,
}
use backend_live_canvas.Wallpapers.Queries.{TagPayload, category_count, tag_count}
use backend_live_canvas.Wallpapers.Home.{Section, row_of, order_by}

-- `CategorySerializer`
pub record CategoryPayload : Type 0 where
  pub id : ℕ
  pub slug : String
  pub name : String
  pub icon_url : String
  pub wallpaper_count : ℕ

unfoldable pub category_payload : Db → Category → CategoryPayload
unfolding category_count
category_payload db c = record {
  id = c.id;
  slug = c.slug;
  name = c.name;
  icon_url = c.icon_url;
  wallpaper_count = category_count c db;
}

-- `TagSerializer`
unfoldable pub tag_payload : Db → Tag → TagPayload
unfolding tag_count
tag_payload db t = record {
  id = t.id;
  slug = t.slug;
  name = t.name;
  wallpaper_count = tag_count t db;
}

-- `CollectionRefSerializer`
pub record CollectionRef : Type 0 where
  pub id : ℕ
  pub slug : String
  pub title : String
  pub cover_url : String
  pub is_premium : Bool

unfoldable pub collection_ref : Collection → CollectionRef
collection_ref c = record {
  id = c.id;
  slug = c.slug;
  title = c.title;
  cover_url = c.cover_url;
  is_premium = c.is_premium;
}

-- `WallpaperSerializer`; the category is there, since its row is protected by the foreign key.
pub record WallpaperPayload : Type 0 where
  pub id : ℕ
  pub title : String
  pub description : Option String
  pub category : Option CategoryPayload
  pub tags : List TagPayload
  pub orientation : Orientation
  pub thumbnail_url : Option String
  pub preview_video_url : Option String
  pub is_premium : Bool
  pub resolution : Option String
  pub duration_seconds : Option ℕ
  pub file_size_bytes : Option ℕ
  pub download_count : ℕ
  pub like_count : ℕ
  pub source_url : String
  pub license_type : String
  pub collections : List CollectionRef
  pub created_at : ℕ

abbrev shown_category : Db → Option Category → Option CategoryPayload
shown_category db none = none
shown_category db (some c) = some (category_payload db c)

-- The tags of a wallpaper; `tags` is the table of tags in its order by name.
abbrev pub tags_of : List Tag → Wallpaper → List Tag
tags_of tags w = select (λ t. exists (λ i. i == t.id) w.tags) tags

-- `WallpaperSerializer`, with the collections that the variant shows.
unfoldable pub wallpaper_payload : List Tag → List CollectionRef → Db → Wallpaper → WallpaperPayload
unfolding category_payload tag_payload
wallpaper_payload tags refs db w = record {
  id = w.id;
  title = w.title;
  description = w.description;
  category = shown_category db (first (λ c. c.id == w.category) db.categories);
  tags = map (tag_payload db) (tags_of tags w);
  orientation = w.orientation;
  thumbnail_url = w.thumbnail_url;
  preview_video_url = w.preview_video_url;
  is_premium = w.is_premium;
  resolution = w.resolution;
  duration_seconds = w.duration_seconds;
  file_size_bytes = w.file_size_bytes;
  download_count = w.download_count;
  like_count = w.like_count;
  source_url = w.source_url;
  license_type = w.license_type;
  collections = refs;
  created_at = w.created_at;
}

-- `WallpaperListSerializer`
unfoldable pub wallpaper_in_list : List Tag → Db → Wallpaper → WallpaperPayload
unfolding wallpaper_payload
wallpaper_in_list tags db w = wallpaper_payload tags [] db w

-- `obj.collections.all()`, newest first.
abbrev newest_first : Collection → Collection → Bool
newest_first c d = ltb d.created_at c.created_at || (c.created_at == d.created_at && ltb d.id c.id)

unfoldable pub collections_of : Db → Wallpaper → List Collection
unfolding order_by
collections_of db w = order_by newest_first (
    select (λ c. exists (λ i. i.collection == c.id && i.wallpaper == w.id) db.items) db.collections)

-- `WallpaperDetailSerializer`
unfoldable pub wallpaper_detail : List Tag → Db → Wallpaper → WallpaperPayload
unfolding wallpaper_payload collections_of collection_ref
wallpaper_detail tags db w = wallpaper_payload tags (map collection_ref (collections_of db w)) db w

-- `collections_with_counts`: the annotation of one row.
abbrev is_published_row : Option Wallpaper → Bool
is_published_row none = false
is_published_row (some w) = is_published w

abbrev pub is_published_item : Db → CollectionItem → Bool
is_published_item db i = is_published_row (row_of i.wallpaper db)

unfoldable pub collection_count : Collection → Db → ℕ
collection_count c db =
    length (select (λ i. i.collection == c.id && is_published_item db i) db.items)

-- `CollectionMetaSerializer`, and `CollectionDetailSerializer` with its items.
pub record CollectionPayload : Type 0 where
  pub id : ℕ
  pub slug : String
  pub title : String
  pub author : String
  pub description : String
  pub cover_url : String
  pub accent_color : Option String
  pub is_premium : Bool
  pub created_at : ℕ
  pub wallpaper_count : ℕ

unfoldable pub collection_payload : Db → Collection → CollectionPayload
unfolding collection_count
collection_payload db c = record {
  id = c.id;
  slug = c.slug;
  title = c.title;
  author = c.author;
  description = c.description;
  cover_url = c.cover_url;
  accent_color = c.accent_color;
  is_premium = c.is_premium;
  created_at = c.created_at;
  wallpaper_count = collection_count c db;
}

pub record CollectionDetail : Type 0 where
  pub meta : CollectionPayload
  pub items : List WallpaperPayload

-- `HomeSectionSerializer`
pub record SectionPayload : Type 0 where
  pub key : String
  pub title : String
  pub collection_id : ℕ
  pub cover_url : String
  pub accent_color : Option String
  pub is_premium : Bool
  pub items : List WallpaperPayload

unfoldable pub section_payload : List Tag → Db → Section → SectionPayload
unfolding wallpaper_in_list
section_payload tags db s = record {
  key = s.collection.slug;
  title = s.collection.title;
  collection_id = s.collection.id;
  cover_url = s.collection.cover_url;
  accent_color = s.collection.accent_color;
  is_premium = s.collection.is_premium;
  items = map (wallpaper_in_list tags db) s.items;
}

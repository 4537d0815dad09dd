-- ===== src/Tests/Content.antt =====
-- Runs of apps/wallpapers/views.py and of the seeder.
use backend_live_canvas.Prelude.{
  String, ◌≡◌, ◌≢◌, refl, sym, ◌∙◌, true, none, some, Option, List, [], ◌∷◌, length, map, take,
  All-take, length-take-le, inl, inr, select, first, exists, update, str_eq, str_eq_iff, truthy,
}
use backend_live_canvas.Core.Errors.{Exc, Detail}
use backend_live_canvas.Core.Exec.{Result, ok, err, When}
use backend_live_canvas.Wallpapers.Models.{Orientation, Wallpaper, Category, Db}
use backend_live_canvas.Wallpapers.Queries.{build_wallpaper_queryset, category_count}
use backend_live_canvas.Wallpapers.Home.{collection_items}
use backend_live_canvas.Wallpapers.Pagination.{Texts, natural, Paginator}
use backend_live_canvas.Wallpapers.Serializers.{
  CollectionDetail, collection_payload, wallpaper_detail,
}
use backend_live_canvas.Wallpapers.Upsert.{update_or_create, seed_all}
use backend_live_canvas.Wallpapers.Seed.{Fixture, rebuild, seed, handle}
use backend_live_canvas.Wallpapers.Seed.Laws.{HasDistinctIds}
use backend_live_canvas.Wallpapers.Seed.Twice.{IsKeyed, handle_twice}
use backend_live_canvas.Wallpapers.Admin.{sorted_set}
use backend_live_canvas.Wallpapers.Views.{get_collection_or_404, get_collection, get_wallpapers}
use backend_live_canvas.Wallpapers.Views.Page.{
  IsInvalid, IsPaginator, IsPage, get_wallpapers-IsPage,
}
use backend_live_canvas.Wallpapers.Views.Counts.{
  only_category, get_collection-count, build_wallpaper_queryset-count,
}
use backend_live_canvas.Tests.Catalog.{catalog, calm, plain_host, two_tags}

program : Unit {0}
unfolding str_eq first select exists update get_collection_or_404 get_collection update_or_create
    seed_all rebuild seed handle sorted_set
program = tt

-- ---------------------------------------------------------------- a page

abbrev texts : Texts
texts = record { to_int = λ s. some (natural 5); repr = λ s. s; cursors = λ link. link ∷ [] }

abbrev decode : Option String → Result (Option (Unit {0}))
decode none = ok none
decode (some c) = err (Exc.not_found Detail.absent)

abbrev paginator : Paginator Wallpaper
paginator = record {
  Cursor = Unit {0};
  decode_cursor = decode;
  paginate = λ size c rows. (take size rows, none);
}

decode-not_found :
    (cursor : Option String) (e : Exc)
    → decode cursor ≡ err e
    → (d : Detail) × (e ≡ Exc.not_found d)
decode-not_found none e h = absurd (cc)
decode-not_found (some c) e h = (Detail.absent, cc)

paginator-IsPaginator : IsPaginator paginator
paginator-IsPaginator = record {
  cut = λ size c rows. length-take-le size rows;
  kept = λ P size c rows h. All-take P size rows h;
  complains = decode-not_found;
}

get_wallpapers-IsPage_example :
    When
      (IsPage plain_host texts catalog.tags two_tags (some "5") catalog)
      IsInvalid
      (get_wallpapers plain_host texts paginator catalog.tags two_tags (some "5") none catalog)
get_wallpapers-IsPage_example =
    get_wallpapers-IsPage plain_host texts paginator paginator-IsPaginator catalog.tags two_tags
      (some "5") none catalog

-- ---------------------------------------------------------------- counts

abbrev calm_detail : CollectionDetail
calm_detail = record {
  meta = collection_payload catalog calm;
  items = map (wallpaper_detail catalog.tags catalog) (collection_items calm catalog);
}

calm_shown : get_collection catalog.tags 1 catalog ≡ ok calm_detail
unfolding program
calm_shown = refl

get_collection-count_example : calm_detail.meta.wallpaper_count ≡ length calm_detail.items
get_collection-count_example = get_collection-count catalog.tags 1 catalog calm_shown

abbrev nature : Category
nature = record { id = 1; slug = "nature"; name = "Nature"; icon_url = ""; created_at = 1 }

nature_given : truthy "nature" ≡ true
unfolding str_eq
nature_given = refl

build_wallpaper_queryset-count_example :
    (rows : List Wallpaper) × (build_wallpaper_queryset plain_host (only_category "nature") catalog
      ≡ ok rows)
    × (category_count nature catalog ≡ length rows)
build_wallpaper_queryset-count_example =
    build_wallpaper_queryset-count plain_host nature catalog (inl refl) (λ _. refl, tt) nature_given

-- ---------------------------------------------------------------- the seeder

abbrev fixture : Fixture
fixture = record {
  categories = record { slug = "nature"; name = "Thiên nhiên"; icon_url = none } ∷ [];
  tags = record { slug = "sea"; name = "Biển" } ∷ record { slug = "fog"; name = "Sương mù" } ∷ [];
  wallpapers =
      record {
        key = "fog-1";
        source_url = "https://example.org/fog";
        title = "Fog";
        category = "nature";
        orientation = Orientation.portrait;
        is_premium = some true;
        thumbnail_url = none;
        preview_video_url = none;
        resolution = none;
        duration_seconds = none;
        file_size_bytes = none;
        license_type = "Pexels";
        tags = "fog" ∷ "sea" ∷ [];
      }
      ∷ [];
  collections =
      record {
        slug = "calm";
        title = "Calm";
        author = none;
        description = none;
        cover_url = none;
        accent_color = none;
        is_premium = none;
        items = "fog-1" ∷ [];
      }
      ∷ [];
}

fog-ne-sea : ◌≢◌ {A = String} "fog" "sea"
unfolding str_eq
fog-ne-sea e = cc ((str_eq_iff "fog" "sea").1 e)

fixture-IsKeyed : IsKeyed fixture
fixture-IsKeyed = record {
  categories = (tt, tt);
  tags = ((fog-ne-sea, tt), (tt, tt));
  wallpapers = (tt, tt);
  collections = (tt, tt);
}

abbrev seeded : Db
seeded = (handle 50 (some fixture) catalog).1

seeded_run : handle 50 (some fixture) catalog ≡ (ok tt, seeded)
unfolding program
seeded_run = refl

seeded-HasDistinctIds : HasDistinctIds seeded.collections
unfolding program
seeded-HasDistinctIds x y (inl a) (inl b) q = a ∙ sym b
seeded-HasDistinctIds x y (inr a) m q = elim a [ ]
seeded-HasDistinctIds x y (inl a) (inr b) q = elim b [ ]

handle_twice_example : handle 60 (some fixture) seeded ≡ (ok tt, seeded)
handle_twice_example =
    handle_twice 50 60 fixture fixture-IsKeyed catalog seeded_run seeded-HasDistinctIds

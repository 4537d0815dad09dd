-- ===== src/Wallpapers/Curation.antt =====
-- apps/wallpapers/admin_services.py: the collections and their ordered membership.
pub mod Membership
pub mod Collections
use backend_live_canvas.Prelude.{
  ℕ, suc, ◌+◌, String, Bool, true, false, ◌&&◌, ◌||◌, not, Option, none, some, List, [], ◌∷◌, ◌++◌,
  concat, decimal, first, update, select, exists, every, ltb, ◌==◌, str_eq, truthy, is_some,
  if◌then◌else◌,
}
use backend_live_canvas.Core.Errors.{Exc, AppErrorClass, raised}
use backend_live_canvas.Core.Exec.{
  Result, ok, err, Exec, guard, modify, pure, gets, atomic, ◌>>=◌, ◌>>◌,
}
use backend_live_canvas.Wallpapers.Models.{
  Tag, Wallpaper, Collection, CollectionItem, Db, is_reserved_slug,
}
use backend_live_canvas.Wallpapers.Queries.{is_tagged, text_of}
use backend_live_canvas.Wallpapers.Admin.{found_or_404, sorted_set, list_text}

abbrev pub is_wallpaper : Db → ℕ → Bool
is_wallpaper db i = exists (λ w. w.id == i) db.wallpapers

-- `_validate_wallpaper_ids`
unfoldable pub validate_wallpaper_ids : List ℕ → Exec Db (Unit {0})
unfolding sorted_set
validate_wallpaper_ids ids db =
    guard (every (is_wallpaper db) ids)
      (Exc.app AppErrorClass.wallpaper_not_found (
        concat "Unknown wallpaper ids: "
          (concat (list_text (sorted_set (select (λ i. not (is_wallpaper db i)) ids))) ".")))
      db

-- The rows of `enumerate(wallpaper_ids)` from a position on.
abbrev pub enumerate : ℕ → ℕ → List ℕ → List CollectionItem
enumerate c k [] = []
enumerate c k (i ∷ is) =
    record { collection = c; wallpaper = i; position = k } ∷ enumerate c (suc k) is

unfoldable pub repeats : List ℕ → Bool
repeats [] = false
repeats (i ∷ is) = exists (λ j. j == i) is || repeats is

-- `_set_collection_items`: a repeated id breaks the constraint `uniq_collection_wallpaper`.
unfoldable pub set_collection_items : ℕ → List ℕ → Exec Db (Unit {0})
unfolding repeats
set_collection_items c ids = do
  modify (λ db. record db { items = select (λ i. not (i.collection == c)) db.items })
  guard (not (repeats ids)) (Exc.other "IntegrityError")
  modify (λ db. record db { items = db.items ++ enumerate c 0 ids })

-- The fields of a collection that a request carries; on creation all of them are there.
pub record CollectionFields : Type 0 where
  pub slug : String
  pub title : String
  pub author : String
  pub description : String
  pub cover_url : String
  pub accent_color : Option String
  pub is_premium : Bool
  pub show_on_home : Bool
  pub home_position : ℕ

abbrev pub new_collection : ℕ → CollectionFields → Db → Collection
new_collection now f db = record {
  id = db.next_collection;
  slug = f.slug;
  title = f.title;
  author = f.author;
  description = f.description;
  cover_url = f.cover_url;
  accent_color = f.accent_color;
  is_premium = f.is_premium;
  created_at = now;
  show_on_home = f.show_on_home;
  home_position = f.home_position;
}

abbrev pub insert_collection : ℕ → CollectionFields → Exec Db Collection
insert_collection now f db = (
  ok (new_collection now f db),
  record db {
    collections = db.collections ++ new_collection now f db ∷ [];
    next_collection = suc db.next_collection;
  },
)

abbrev pub slug_used : String → Db → Bool
slug_used slug db = exists (λ c. str_eq c.slug slug) db.collections

-- `create_collection`, inside and with its transaction.
abbrev pub create_body : ℕ → List ℕ → CollectionFields → Exec Db Collection
create_body now ids f = do
  taken ← gets (slug_used f.slug)
  guard (not taken) (raised AppErrorClass.collection_slug_conflict)
  validate_wallpaper_ids ids
  c ← insert_collection now f
  set_collection_items c.id ids
  pure c

unfoldable pub create_collection : ℕ → List ℕ → CollectionFields → Exec Db Collection
create_collection now ids f = atomic (create_body now ids f)

-- The fields that a partial request carries: `none` for one that is not there.
pub record CollectionPatch : Type 0 where
  pub slug : Option String
  pub title : Option String
  pub author : Option String
  pub description : Option String
  pub cover_url : Option String
  pub accent_color : Option (Option String)
  pub is_premium : Option Bool
  pub show_on_home : Option Bool
  pub home_position : Option ℕ

abbrev given_or : {A : Type 0} → Option A → A → A
given_or none a = a
given_or (some b) a = b

-- The loop of `setattr`.
unfoldable pub patched : CollectionPatch → Collection → Collection
patched p c = record c {
  slug = given_or p.slug c.slug;
  title = given_or p.title c.title;
  author = given_or p.author c.author;
  description = given_or p.description c.description;
  cover_url = given_or p.cover_url c.cover_url;
  accent_color = given_or p.accent_color c.accent_color;
  is_premium = given_or p.is_premium c.is_premium;
  show_on_home = given_or p.show_on_home c.show_on_home;
  home_position = given_or p.home_position c.home_position;
}

abbrev pub get_collection : ℕ → Exec Db Collection
get_collection i db = found_or_404 (first (λ c. c.id == i) db.collections) db

abbrev pub save_collection : Collection → Db → Db
save_collection c db = record db {
  collections = update (λ d. d.id == c.id) (λ _. c) db.collections;
}

unfoldable pub slug_taken : ℕ → String → Db → Bool
slug_taken i slug db =
    truthy slug && exists (λ c. not (c.id == i) && str_eq c.slug slug) db.collections

abbrev set_items_if_given : ℕ → Option (List ℕ) → Exec Db (Unit {0})
set_items_if_given c none = pure tt
set_items_if_given c (some ids) = do validate_wallpaper_ids ids; set_collection_items c ids

-- `update_collection`, inside and with its transaction.
abbrev pub update_body : ℕ → Option (List ℕ) → CollectionPatch → Exec Db Collection
update_body i ids p = do
  c ← get_collection i
  taken ← gets (slug_taken i (text_of p.slug))
  guard (not taken) (raised AppErrorClass.collection_slug_conflict)
  modify (save_collection (patched p c))
  set_items_if_given (patched p c).id ids
  pure (patched p c)

unfoldable pub update_collection : ℕ → Option (List ℕ) → CollectionPatch → Exec Db Collection
update_collection i ids p = atomic (update_body i ids p)

-- `delete_collection`: the items go with the collection.
unfoldable pub delete_collection : ℕ → Exec Db Collection
delete_collection i = do
  c ← get_collection i
  modify (λ db. record db {
    collections = select (λ d. not (d.id == c.id)) db.collections;
    items = select (λ j. not (j.collection == c.id)) db.items;
  })
  pure c

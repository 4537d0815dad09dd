-- ===== src/Wallpapers/Admin.antt =====
-- apps/wallpapers/admin_services.py: the writes on wallpapers and tags. A call's time is its argument
-- `now`, and a primary key is a natural number.
pub mod Removal
use backend_live_canvas.Prelude.{
  ℕ, suc, ◌+◌, String, Bool, true, false, ◌&&◌, ◌||◌, not, Option, none, some, List, [], ◌∷◌, ◌++◌,
  concat, decimal, first, update, select, exists, every, ltb, ◌==◌, str_eq, truthy, is_some,
  if◌then◌else◌,
}
use backend_live_canvas.Core.Errors.{Exc, AppErrorClass, raised}
use backend_live_canvas.Core.Exec.{
  Result, ok, err, Exec, guard, modify, pure, gets, atomic, ◌>>=◌, ◌>>◌,
}
use backend_live_canvas.Wallpapers.Models.{
  Tag, Wallpaper, Collection, CollectionItem, Db, is_reserved_slug,
}
use backend_live_canvas.Wallpapers.Queries.{is_tagged, text_of}

-- `Model.objects.get(...)`, with the error of the `except` clause.
abbrev pub found_or_404 : {A : Type 0} → Option A → Exec Db A
found_or_404 none db = (err (Exc.http404 ""), db)
found_or_404 (some a) db = (ok a, db)

abbrev pub live_wallpaper : ℕ → Db → Option Wallpaper
live_wallpaper i db = first (λ w. w.id == i && not (is_some w.deleted_at)) db.wallpapers

abbrev pub save_wallpaper_row : Wallpaper → Db → Db
save_wallpaper_row w db = record db {
  wallpapers = update (λ v. v.id == w.id) (λ _. w) db.wallpapers;
}

abbrev pub get_live : ℕ → Exec Db Wallpaper
get_live i db = found_or_404 (live_wallpaper i db) db

-- `soft_delete_wallpaper`
unfoldable pub soft_delete_wallpaper : ℕ → ℕ → Exec Db Wallpaper
soft_delete_wallpaper now i = do
  w ← get_live i
  modify (save_wallpaper_row (record w { deleted_at = some now }))
  pure (record w { deleted_at = some now })

-- `update_wallpaper_description`
unfoldable pub update_wallpaper_description : ℕ → Option String → Exec Db Wallpaper
update_wallpaper_description i description = do
  w ← get_live i
  modify (save_wallpaper_row (record w { description = description }))
  pure (record w { description = description })

abbrev reserved_message : String → String
reserved_message slug =
    concat "\"" (concat slug "\" is a reserved slug and cannot be used for a real tag.")

-- `validate_tag_slug`, as `create_tag` raises it.
unfoldable pub validate_tag_slug : String → Exec Db (Unit {0})
validate_tag_slug slug =
    guard (not (is_reserved_slug slug))
      (Exc.app AppErrorClass.validation_failed (reserved_message slug))

abbrev pub tag_exists : String → Db → Bool
tag_exists slug db = exists (λ t. str_eq t.slug slug) db.tags

abbrev new_tag : ℕ → String → String → Db → Tag
new_tag now slug name db = record { id = db.next_tag; slug = slug; name = name; created_at = now }

abbrev insert_tag : ℕ → String → String → Exec Db Tag
insert_tag now slug name db = (
  ok (new_tag now slug name db),
  record db { tags = db.tags ++ new_tag now slug name db ∷ []; next_tag = suc db.next_tag },
)

-- `create_tag`
unfoldable pub create_tag : ℕ → String → String → Exec Db Tag
unfolding validate_tag_slug
create_tag now slug name = do
  validate_tag_slug slug
  taken ← gets (tag_exists slug)
  guard (not taken) (raised AppErrorClass.tag_slug_conflict)
  insert_tag now slug name

abbrev pub is_used : ℕ → Db → Bool
is_used i db = exists (is_tagged i) db.wallpapers

abbrev pub get_tag : ℕ → Exec Db Tag
get_tag i db = found_or_404 (first (λ t. t.id == i) db.tags) db

-- `delete_tag`
unfoldable pub delete_tag : ℕ → Exec Db Tag
delete_tag i = do
  tag ← get_tag i
  used ← gets (is_used tag.id)
  guard (not used) (raised AppErrorClass.tag_in_use)
  modify (λ db. record db { tags = select (λ t. not (t.id == tag.id)) db.tags })
  pure tag

-- `sorted(set(...))`: a number enters the sorted numbers once.
unfoldable pub insert_once : ℕ → List ℕ → List ℕ
insert_once i [] = i ∷ []
insert_once i (j ∷ js) =
    let rest = insert_once i js in
    if i == j then j ∷ js else if ltb i j then i ∷ j ∷ js else j ∷ rest

unfoldable pub sorted_set : List ℕ → List ℕ
unfolding insert_once
sorted_set [] = []
sorted_set (i ∷ is) = insert_once i (sorted_set is)

abbrev comma_list : List ℕ → String
comma_list [] = ""
comma_list (i ∷ []) = decimal i
comma_list (i ∷ j ∷ is) = concat (decimal i) (concat ", " (comma_list (j ∷ is)))

-- The text of a list of numbers.
abbrev pub list_text : List ℕ → String
list_text is = concat "[" (concat (comma_list is) "]")

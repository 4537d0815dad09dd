-- ===== src/Wallpapers/Home.antt =====
-- apps/wallpapers/services.py: the Browse screen and the items of a collection.
pub mod Order
pub mod Sections
use backend_live_canvas.Prelude.{
  ℕ, zero, suc, ◌+◌, Bool, true, false, ◌&&◌, ◌||◌, not, Option, none, some, List, [], ◌∷◌, ◌++◌,
  map, length, take, select, first, ltb, leb, ◌==◌, if◌then◌else◌,
}
use backend_live_canvas.Wallpapers.Models.{Wallpaper, Collection, CollectionItem, Db, is_published}

abbrev pub home_max_sections : ℕ
home_max_sections = 10

abbrev pub home_max_items_per_section : ℕ
home_max_items_per_section = 10

-- `order_by`: a stable sort by a test `x` before `y`.
unfoldable pub insert : {A : Type 0} → (A → A → Bool) → A → List A → List A
insert before x [] = x ∷ []
insert before x (y ∷ ys) =
    let rest = insert before x ys in if before y x then y ∷ rest else x ∷ y ∷ ys

unfoldable pub order_by : {A : Type 0} → (A → A → Bool) → List A → List A
unfolding insert
order_by before [] = []
order_by before (x ∷ xs) = insert before x (order_by before xs)

-- The row that a foreign key points at; the database keeps it there.
abbrev pub row_of : ℕ → Db → Option Wallpaper
row_of i db = first (λ w. w.id == i) db.wallpapers

abbrev pub with_row : Option Wallpaper → List Wallpaper → List Wallpaper
with_row none ws = ws
with_row (some w) ws = if is_published w then w ∷ ws else ws

-- The published wallpapers of some items, in their order.
unfoldable pub published_members : Db → List CollectionItem → List Wallpaper
published_members db [] = []
published_members db (i ∷ items) = with_row (row_of i.wallpaper db) (published_members db items)

abbrev pub by_position : CollectionItem → CollectionItem → Bool
by_position i j = ltb i.position j.position

-- `collection_items`, and the items that the prefetch of the Browse screen resolves.
unfoldable pub collection_items : Collection → Db → List Wallpaper
unfolding order_by published_members
collection_items c db =
    published_members db (order_by by_position (select (λ i. i.collection == c.id) db.items))

abbrev pub by_home_position : Collection → Collection → Bool
by_home_position c d =
    ltb c.home_position d.home_position || (c.home_position == d.home_position && ltb c.id d.id)

-- The collections that the operator flagged, by position and then by primary key.
unfoldable pub candidates : Db → List Collection
unfolding order_by
candidates db = order_by by_home_position (select (λ c. c.show_on_home) db.collections)

pub record Section : Type 0 where
  pub collection : Collection
  pub items : List Wallpaper

abbrev pub section_of : Db → Collection → Section
section_of db c = record {
  collection = c;
  items = take home_max_items_per_section (collection_items c db);
}

abbrev pub has_items : Section → Bool
has_items s = leb 1 (length s.items)

-- The loop, with the sections that are there: an empty section is skipped, and the loop ends at
-- the last slot.
unfoldable pub collect : Db → List Section → List Collection → List Section
collect db sections [] = sections
collect db sections (c ∷ cs) = elim (has_items (section_of db c)) [
  | false ↦ collect db sections cs
  | true ↦
      let grown = sections ++ section_of db c ∷ [] in
      elim (length grown == home_max_sections) [ true ↦ grown | false ↦ collect db grown cs ]
]

-- `build_home_sections`
unfoldable pub build_home_sections : Db → List Section
unfolding candidates collect
build_home_sections db = collect db [] (candidates db)

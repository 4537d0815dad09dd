-- ===== src/Wallpapers/Seed/Laws.antt =====
-- The writes of the seeder (apps/wallpapers/management/commands/seed_content.py) keep natural keys, and
-- rows of distinct slugs have distinct primary keys.
use backend_live_canvas.Prelude.{
  String, ◌≡◌, ◌≢◌, refl, sym, ◌∙◌, ap, subst, inl, inr, Bool, true, false, List, [], ◌∷◌, All,
  All-map, All-select, In, select, ◌==◌, ==_iff, str_eq_iff, Bool-cases,
}
use backend_live_canvas.Core.Exec.{Result, ok}
use backend_live_canvas.Wallpapers.Models.{Collection, is_reserved_slug}
use backend_live_canvas.Wallpapers.Upsert.{Dict, matches}
use backend_live_canvas.Wallpapers.Upsert.Settled.{IsLawful, SettledAt}
use backend_live_canvas.Wallpapers.Upsert.Again.{AreDistinct, Holds, then_result_ok}
use backend_live_canvas.Wallpapers.Seed.{
  TagRow, WallpaperRow, CollectionRow, WallpaperValues, category_writer, tag_writer,
  wallpaper_writer, collection_writer, checked_tag, wallpaper_round, collection_round, dict_item,
}
use backend_live_canvas.Wallpapers.Seed.Members.{AreApart}

pub category_writer-IsLawful : IsLawful category_writer
category_writer-IsLawful = record {
  key_apply = λ r x. refl;
  key_create = λ now r n. refl;
  apply_twice = λ r x. refl;
  apply_create = λ now r n. refl;
}

pub tag_writer-IsLawful : IsLawful tag_writer
tag_writer-IsLawful = record {
  key_apply = λ r x. refl;
  key_create = λ now r n. refl;
  apply_twice = λ r x. refl;
  apply_create = λ now r n. refl;
}

pub wallpaper_writer-IsLawful : IsLawful wallpaper_writer
wallpaper_writer-IsLawful = record {
  key_apply = λ r x. refl;
  key_create = λ now r n. refl;
  apply_twice = λ r x. refl;
  apply_create = λ now r n. refl;
}

pub collection_writer-IsLawful : IsLawful collection_writer
collection_writer-IsLawful = record {
  key_apply = λ r x. refl;
  key_create = λ now r n. refl;
  apply_twice = λ r x. refl;
  apply_create = λ now r n. refl;
}

pub row_key : {F : Type 0} (k : F → String) (f r : F) → ◌≡◌ {A = Result F} (ok f) (ok r) → k r ≡ k f
row_key k f r h = cc

pub tag_key : (f r : TagRow) → checked_tag f ≡ ok r → r.slug ≡ f.slug
tag_key f r h = elim (Bool-cases (is_reserved_slug f.slug)) [
  | inl e ↦ absurd (cc (rw e at h))
  | inr e ↦ row_key (λ (x : TagRow). x.slug) f r (rw e at h)
]

pub wallpaper_key :
    (categories tags : Dict) (f : WallpaperRow) (v : WallpaperValues)
    → (wallpaper_round categories tags).prepare f ≡ ok v
    → v.row.source_url ≡ f.source_url
wallpaper_key categories tags f v h =
    let (c, found, rest) = then_result_ok (dict_item categories f.category) _ h in
    values_row _ v rest
  where
    values_row :
        (a b : WallpaperValues)
        → ◌≡◌ {A = Result WallpaperValues} (ok a) (ok b)
        → b.row.source_url ≡ a.row.source_url
    values_row a b q = cc

-- ---------------------------------------------------------------- distinct collections

-- Rows of one primary key are one row.
abbrev pub HasDistinctIds : List Collection → Type 0
HasDistinctIds rows = (x y : Collection) → In x rows → In y rows → x.id ≡ y.id → x ≡ y

In-of_select :
    {A : Type 0} (p : A → Bool) (rows : List A) (x : A) → In x (select p rows) → In x rows
unfolding select
In-of_select p [] x h = h
In-of_select p (y ∷ rows) x h = elim (Bool-cases (p y)) [
  | inl e ↦ later (rw e at h) (In-of_select p rows x)
  | inr e ↦ inr (In-of_select p rows x (rw e at h))
]
  where
    later : In x (y ∷ select p rows) → (In x (select p rows) → In x rows) → In x (y ∷ rows)
    later (inl e) k = inl e
    later (inr m) k = inr (k m)

module _ (d : Dict) (rows : List Collection) where
  -- A row that holds its values has their slug, and stands in the table.
  settled_row :
      (r : CollectionRow) (x : Collection)
      → SettledAt collection_writer r x rows
      → (x.slug ≡ r.slug) × In x rows
  settled_row r x s =
      let found : All (λ y. matches collection_writer r y ≡ true) (x ∷ []) =
        subst (All (λ y. matches collection_writer r y ≡ true)) s.only
          (All-select (matches collection_writer r) rows) in
      (
        (str_eq_iff x.slug r.slug).0 found.0,
        In-of_select (matches collection_writer r) rows x (subst (In x) (sym s.only) (inl refl)),
      )

  held_rows :
      (k : String) (fs : List CollectionRow) (xs : List Collection) (dict : Dict)
      → All (λ g. g.slug ≢ k) fs
      → Holds collection_writer (collection_round d) fs xs dict rows
      → All (λ y. (y.slug ≢ k) × In y rows) xs
  held_rows k [] [] dict n h = tt
  held_rows k [] (x ∷ xs) dict n h = absurd h
  held_rows k (f ∷ fs) [] dict n h = absurd h
  held_rows k (f ∷ fs) (x ∷ xs) dict n (r, dict', p, s, q, h) =
      let (slug, there) = settled_row r x s in
      (
        (λ e. n.0 (sym (row_key (λ (y : CollectionRow). y.slug) f r p) ∙ sym slug ∙ e), there),
        held_rows k fs xs dict' n.1 h,
      )

  pub Holds-AreApart :
      (fs : List CollectionRow) (xs : List Collection) (dict : Dict)
      → HasDistinctIds rows
      → AreDistinct (λ f. f.slug) fs
      → Holds collection_writer (collection_round d) fs xs dict rows
      → AreApart xs
  Holds-AreApart [] [] dict i n h = tt
  Holds-AreApart [] (x ∷ xs) dict i n h = absurd h
  Holds-AreApart (f ∷ fs) [] dict i n h = absurd h
  Holds-AreApart (f ∷ fs) (x ∷ xs) dict i n (r, dict', p, s, q, h) =
      let (slug, there) = settled_row r x s in
      let key = slug ∙ row_key (λ (y : CollectionRow). y.slug) f r p in
      (
        All-map (λ y. (y.slug ≢ f.slug) × In y rows) (λ y. y.id == x.id ≡ false) xs
            (λ y m.
              other_id y x (λ e. m.0 (ap (λ (z : Collection). z.slug) (i y x m.1 there e) ∙ key)))
            (held_rows f.slug fs xs dict' n.0 h),
        Holds-AreApart fs xs dict' i n.1 h,
      )
    where
      other_id : (y x : Collection) → y.id ≢ x.id → y.id == x.id ≡ false
      other_id y x m = elim (Bool-cases (y.id == x.id)) [
        | inl e ↦ absurd (m ((==_iff y.id x.id).0 e))
        | inr e ↦ e
      ]

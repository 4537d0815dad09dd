-- ===== src/Wallpapers/Fixture/Rows.antt =====
-- scripts/build_seed_fixture.py: the rows of a fixture and the references in them.
use backend_live_canvas.Prelude.{
  ℕ, String, decimal, ◌≡◌, refl, ap, ◌∙◌, Bool, true, ◌||◌, inl, inr, some, List, [], ◌∷◌, map, All,
  All-map, In, select, first, first-All, exists, every, is_some, and_true, Option-cases, Bool-cases,
  str_eq, str_eq_iff, str_eq_refl,
}
use backend_live_canvas.Core.Exec.{ok}
use backend_live_canvas.Wallpapers.Home.{order_by}
use backend_live_canvas.Wallpapers.Crawl.{Clip, VideoIndex, Folder, categories, folder_map}
use backend_live_canvas.Wallpapers.Crawl.Folders.{Folders, folder_of, mapped_to, clips_in}
use backend_live_canvas.Wallpapers.Fixture.{BuiltRow, by_slug, built_row, build_rows, build_tags}
use backend_live_canvas.Wallpapers.Fixture.Grouped.{exists-order_by, or_true}

pub exists-map :
    {A B : Type 0} (g : A → B) (p : B → Bool) (xs : List A)
    → exists p (map g xs) ≡ exists (λ x. p (g x)) xs
unfolding exists
exists-map g p [] = refl
exists-map g p (x ∷ xs) = ap (λ b. p (g x) || b) (exists-map g p xs)

-- A selection keeps the rows that imply its test.
exists-select_of :
    {A : Type 0} (p s : A → Bool) (xs : List A)
    → ((x : A) → p x ≡ true → s x ≡ true)
    → exists p (select s xs) ≡ exists p xs
unfolding exists select
exists-select_of p s [] h = refl
exists-select_of p s (x ∷ xs) h = elim (Bool-cases (p x)) [
  | inl e ↦ rw (h x e, e) refl
  | inr e ↦ elim (Bool-cases (s x)) [
    | inl d ↦ rw (d, e) (exists-select_of p s xs h)
    | inr d ↦ rw (d, e) (exists-select_of p s xs h)
  ]
]

-- What a test finds passes it, and is in the list.
pub exists-first :
    {A : Type 0} (p : A → Bool) (xs : List A)
    → exists p xs ≡ true
    → (a : A) × (first p xs ≡ some a) × In a xs × (p a ≡ true)
unfolding exists first
exists-first p [] h = absurd (cc)
exists-first p (x ∷ xs) h = elim (Bool-cases (p x)) [
  | inl e ↦ (x, rw e refl, inl refl, e)
  | inr e ↦ let (a, q, i, t) = exists-first p xs (rw e at h) in (a, rw e q, inr i, t)
]

first-exists :
    {A : Type 0} (p : A → Bool) (xs : List A) {a : A} → first p xs ≡ some a → exists p xs ≡ true
unfolding exists first
first-exists p [] h = absurd (cc)
first-exists p (x ∷ xs) {a} h = elim (Bool-cases (p x)) [
  | inl e ↦ rw e refl
  | inr e ↦ rw e (first-exists p xs (rw e at h))
]

-- ---------------------------------------------------------------- categories and tags

abbrev pub is_category : String → Bool
is_category k = exists (λ c. str_eq c.slug k) categories

every-All : {A : Type 0} (p : A → Bool) (xs : List A) → every p xs ≡ true → All (λ x. p x ≡ true) xs
unfolding every
every-All p [] h = tt
every-All p (x ∷ xs) h = let (a, b) = and_true (p x) (every p xs) h in (a, every-All p xs b)

folders_categories : every (λ f. is_category f.category) folder_map ≡ true
unfolding every exists folder_map str_eq
folders_categories = refl

-- Every folder maps to one of the categories.
mapped_to-is_category :
    (k : String) {f : Folder} → mapped_to k ≡ some f → is_category f.category ≡ true
mapped_to-is_category k {f} h =
    first-All (λ g. is_category g.category ≡ true) (λ g. str_eq g.slug k) folder_map
      (every-All (λ g. is_category g.category) folder_map folders_categories) h

-- A folder that has clips is a tag.
build_tags-exists :
    (fs : Folders) (k : String) {f : Folder} {e : String × List Clip}
    → mapped_to k ≡ some f
    → clips_in k fs ≡ some e
    → exists (λ t. str_eq t.slug k) (build_tags fs) ≡ true
unfolding build_tags
build_tags-exists fs k {f} {e} m h =
    exists-map _ (λ t. str_eq t.slug k) (select stored (order_by by_slug folder_map))
    ∙ exists-select_of (λ g. str_eq g.slug k) stored (order_by by_slug folder_map) implied
    ∙ exists-order_by by_slug (λ g. str_eq g.slug k) folder_map
    ∙ first-exists (λ g. str_eq g.slug k) folder_map m
  where
    stored : Folder → Bool
    stored g = is_some (clips_in g.slug fs)

    implied : (g : Folder) → str_eq g.slug k ≡ true → stored g ≡ true
    implied g q = rw ((str_eq_iff g.slug k).0 q) (rw h refl)

-- ---------------------------------------------------------------- rows

module _ (fs : Folders) where
  -- The category and the tags of a row are in the fixture.
  pub record IsTagged (w : BuiltRow) : Type 0 where
    pub category : is_category w.row.category ≡ true
    pub tags : All (λ t. exists (λ r. str_eq r.slug t) (build_tags fs) ≡ true) w.row.tags

  abbrev pub IsStored : Clip → Type 0
  IsStored c =
      (is_some (mapped_to (folder_of c)) ≡ true)
      × (e : String × List Clip) × (clips_in (folder_of c) fs ≡ some e)

  pub build_rows_total :
      (index : VideoIndex) (premium : List ℕ) (cs : List Clip)
      → All IsStored cs
      → (ws : List BuiltRow) × (build_rows index premium cs ≡ ok ws)
        × (map (λ w. w.local_path) ws ≡ map (λ c. c.path) cs)
        × All IsTagged ws
        × All (λ c. exists (λ w. str_eq w.row.key (decimal c.id)) ws ≡ true) cs
  unfolding build_rows exists
  build_rows_total index premium [] h = ([], refl, refl, tt, tt)
  build_rows_total index premium (c ∷ cs) h = elim (Option-cases (mapped_to (folder_of c))) [
    | inl e ↦ absurd (cc (ap is_some e, h.0.0))
    | inr (f, e) ↦
        let (ws, q, paths, tagged, keys) = build_rows_total index premium cs h.1 in
        (
          built_row index premium c f ∷ ws,
          rw (e, q, build_rows) refl,
          ap (λ ps. c.path ∷ ps) paths,
          (
            record {
              category = mapped_to-is_category (folder_of c) e;
              tags = (build_tags-exists fs (folder_of c) e h.0.2, tt);
            },
            tagged,
          ),
          (
            rw (str_eq_refl (decimal c.id)) refl,
            All-map (λ d. exists (λ w. str_eq w.row.key (decimal d.id)) ws ≡ true) _ cs
                (λ d k. or_true (str_eq (decimal c.id) (decimal d.id)) k) keys,
          ),
        )
  ]

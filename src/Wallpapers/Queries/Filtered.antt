-- ===== src/Wallpapers/Queries/Filtered.antt =====
-- What GET /wallpapers lists (apps/wallpapers/services.py).
use backend_live_canvas.Prelude.{
  ◌≡◌, refl, sym, ◌∙◌, ap, inl, inr, String, Bool, true, false, ◌&&◌, ◌||◌, not, Option, none, some,
  List, [], ◌∷◌, select, every, truthy, Bool-cases, if◌then◌else◌,
}
use backend_live_canvas.Core.Errors.{Exc}
use backend_live_canvas.Core.Exec.{Result, ok, err}
use backend_live_canvas.Wallpapers.Models.{Wallpaper, Db, orientation_eq, is_published}
use backend_live_canvas.Wallpapers.Home.{order_by}
use backend_live_canvas.Wallpapers.Queries.{
  is_newer, Params, Host, text_of, has_category, has_tag, tag_slugs, filter_tags,
  orientation_result, parse_bool, same_bool, then_filter, by_category, by_tags, by_orientation,
  by_premium, by_search, and_then, build_wallpaper_queryset,
}

-- A constraint that an empty or missing parameter does not make.
abbrev pub if_given : Option String → Bool → Bool
if_given raw b = not (truthy (text_of raw)) || b

abbrev pub passes : {A : Type 0} → Result A → (A → Bool) → Bool
passes (ok a) p = p a
passes (err e) p = false

-- What the contract says of one row, without an order of the tests.
abbrev pub accepts : Host → Params → Db → Wallpaper → Bool
accepts host p db w =
    ((((is_published w && if_given p.category (has_category (text_of p.category) db w))
          && if_given p.tags (every (has_tag db w) (tag_slugs (text_of p.tags))))
        && if_given p.orientation (
            passes (orientation_result host (text_of p.orientation))
              (λ o. orientation_eq w.orientation o)))
      && if_given p.is_premium (
          passes (parse_bool host (text_of p.is_premium) "is_premium")
            (λ b. same_bool b w.is_premium)))
    && if_given p.search (host.icontains w.title (text_of p.search))

module _ {A : Type 0} where
  pub select-select :
      (p q : A → Bool) (xs : List A) → select p (select q xs) ≡ select (λ x. q x && p x) xs
  unfolding select
  select-select p q [] = refl
  select-select p q (x ∷ xs) = elim (Bool-cases (q x)) [
    | inl e ↦ rw e (elim (Bool-cases (p x)) [
      | inl f ↦ rw f (ap (λ r. x ∷ r) (select-select p q xs))
      | inr f ↦ rw f (select-select p q xs)
    ])
    | inr e ↦ rw e (select-select p q xs)
  ]

  pub select_ext :
      (p q : A → Bool) (xs : List A) → ((x : A) → p x ≡ q x) → select p xs ≡ select q xs
  unfolding select
  select_ext p q [] h = refl
  select_ext p q (x ∷ xs) h = rw (h x) (ap (λ r. if q x then x ∷ r else r) (select_ext p q xs h))

and_true_right : (b : Bool) → b && true ≡ b
and_true_right true = refl
and_true_right false = refl

and_assoc : (a b c : Bool) → (a && b) && c ≡ a && (b && c)
and_assoc true b c = refl
and_assoc false b c = refl

filter_tags-select :
    (db : Db) (slugs : List String) (q : Wallpaper → Bool) (ws : List Wallpaper)
    → filter_tags db slugs (select q ws) ≡ select (λ w. q w && every (has_tag db w) slugs) ws
unfolding filter_tags every
filter_tags-select db [] q ws = select_ext q (λ w. q w && true) ws (λ w. sym (and_true_right (q w)))
filter_tags-select db (slug ∷ slugs) q ws =
    ap (filter_tags db slugs) (select-select (λ w. has_tag db w slug) q ws)
    ∙ filter_tags-select db slugs (λ w. q w && has_tag db w slug) ws
    ∙ select_ext (λ w. (q w && has_tag db w slug) && every (has_tag db w) slugs)
        (λ w. q w && (has_tag db w slug && every (has_tag db w) slugs)) ws
        (λ w. and_assoc (q w) (has_tag db w slug) (every (has_tag db w) slugs))

-- The error of a parameter that is given and cannot be read.
abbrev pub fault : {A : Type 0} → Option String → Result A → Option Exc
fault raw (ok a) = none
fault raw (err e) = if truthy (text_of raw) then some e else none

abbrev pub verdict : Option Exc → List Wallpaper → Result (List Wallpaper)
verdict none ws = ok ws
verdict (some e) ws = err e

abbrev pub then_verdict : Option Exc → Option Exc → List Wallpaper → Result (List Wallpaper)
then_verdict none f ws = verdict f ws
then_verdict (some e) f ws = err e

module _ (raw : Option String) (q : Wallpaper → Bool) (ws : List Wallpaper) where
  unfiltered :
      (p : Wallpaper → Bool)
      → truthy (text_of raw) ≡ false
      → select q ws ≡ select (λ w. q w && if_given raw (p w)) ws
  unfiltered p e =
      select_ext q (λ w. q w && if_given raw (p w)) ws
        (λ w. sym (ap (λ t. q w && (not t || p w)) e ∙ and_true_right (q w)))

  filtered :
      (p : Wallpaper → Bool)
      → truthy (text_of raw) ≡ true
      → select p (select q ws) ≡ select (λ w. q w && if_given raw (p w)) ws
  filtered p e =
      select-select p q ws
      ∙ select_ext (λ w. q w && p w) (λ w. q w && if_given raw (p w)) ws
          (λ w. sym (ap (λ t. q w && (not t || p w)) e))

  by_category-select :
      (db : Db)
      → by_category raw db (select q ws)
        ≡ select (λ w. q w && if_given raw (has_category (text_of raw) db w)) ws
  by_category-select db = elim (Bool-cases (truthy (text_of raw))) [
    | inl e ↦
        ap (λ t. if t then select (has_category (text_of raw) db) (select q ws) else select q ws) e
        ∙ filtered (has_category (text_of raw) db) e
    | inr e ↦
        ap (λ t. if t then select (has_category (text_of raw) db) (select q ws) else select q ws) e
        ∙ unfiltered (has_category (text_of raw) db) e
  ]

  by_tags-select :
      (db : Db)
      → by_tags raw db (select q ws)
        ≡ select (λ w. q w && if_given raw (every (has_tag db w) (tag_slugs (text_of raw)))) ws
  by_tags-select db =
      let p : Wallpaper → Bool = λ w. every (has_tag db w) (tag_slugs (text_of raw)) in
      let branch : Bool → List Wallpaper =
        λ t. if t then filter_tags db (tag_slugs (text_of raw)) (select q ws) else select q ws in
      elim (Bool-cases (truthy (text_of raw))) [
        | inl e ↦
            ap branch e
            ∙ filter_tags-select db (tag_slugs (text_of raw)) q ws
            ∙ sym (select-select p q ws)
            ∙ filtered p e
        | inr e ↦ ap branch e ∙ unfiltered p e
      ]

  by_search-select :
      (host : Host)
      → by_search host raw (select q ws)
        ≡ select (λ w. q w && if_given raw (host.icontains w.title (text_of raw))) ws
  by_search-select host =
      let p : Wallpaper → Bool = λ w. host.icontains w.title (text_of raw) in
      let branch : Bool → List Wallpaper = λ t. if t then select p (select q ws) else select q ws in
      elim (Bool-cases (truthy (text_of raw))) [
        | inl e ↦ ap branch e ∙ filtered p e
        | inr e ↦ ap branch e ∙ unfiltered p e
      ]

  -- A filter whose parameter is read first.
  then_filter-select :
      {A : Type 0} (r : Result A) (p : A → Wallpaper → Bool)
      → (if truthy (text_of raw) then then_filter r p (select q ws) else ok (select q ws))
        ≡ verdict (fault raw r) (select (λ w. q w && if_given raw (passes r (λ a. p a w))) ws)
  then_filter-select {A = A} r p = elim (Bool-cases (truthy (text_of raw))) [
    | inl e ↦ ap (λ t. if t then then_filter r p (select q ws) else ok (select q ws)) e ∙ given r e
    | inr e ↦ ap (λ t. if t then then_filter r p (select q ws) else ok (select q ws)) e ∙ absent r e
  ]
    where
      given :
          (r : Result A)
          → truthy (text_of raw) ≡ true
          → then_filter r p (select q ws)
            ≡ verdict (fault raw r) (select (λ w. q w && if_given raw (passes r (λ a. p a w))) ws)
      given (ok a) e = ap (λ vs. ok vs) (filtered (p a) e)
      given (err x) e = sym (
          ap
            (λ t. verdict (if t then some x else none) (select (λ w. q w && if_given raw false) ws))
            e)

      absent :
          (r : Result A)
          → truthy (text_of raw) ≡ false
          → ok (select q ws)
            ≡ verdict (fault raw r) (select (λ w. q w && if_given raw (passes r (λ a. p a w))) ws)
      absent (ok a) e = ap (λ vs. ok vs) (unfiltered (p a) e)
      absent (err x) e =
          ap (λ vs. ok vs) (unfiltered (λ w. false) e)
          ∙ sym (
              ap
                (λ t.
                  verdict (if t then some x else none) (select (λ w. q w && if_given raw false) ws))
                e)

and_then-verdict :
    (f g : Option Exc) (ws vs : List Wallpaper) (k : List Wallpaper → Result (List Wallpaper))
    → k ws ≡ verdict g vs
    → and_then (verdict f ws) k ≡ then_verdict f g vs
and_then-verdict none g ws vs k h = h
and_then-verdict (some e) g ws vs k h = refl

-- GET /wallpapers fails exactly where the orientation or else the premium flag is given and cannot
-- be read, with the error of the first; otherwise it lists exactly the rows that are published, in the category, under every tag that constrains, and of the orientation,
-- premium flag and search text that are given, newest first, and rows of one time by descending
-- primary key.
pub build_wallpaper_queryset-accepts :
    (host : Host) (p : Params) (db : Db)
    → build_wallpaper_queryset host p db
      ≡ then_verdict
          (fault p.orientation (orientation_result host (text_of p.orientation)))
          (fault p.is_premium (parse_bool host (text_of p.is_premium) "is_premium"))
          (order_by is_newer (select (accepts host p db) db.wallpapers))
unfolding build_wallpaper_queryset
build_wallpaper_queryset-accepts host p db =
    let q1 : Wallpaper → Bool =
      λ w. is_published w && if_given p.category (has_category (text_of p.category) db w) in
    let q2 : Wallpaper → Bool =
      λ w. q1 w && if_given p.tags (every (has_tag db w) (tag_slugs (text_of p.tags))) in
    let ro = orientation_result host (text_of p.orientation) in
    let q3 : Wallpaper → Bool =
      λ w. q2 w && if_given p.orientation (passes ro (λ o. orientation_eq w.orientation o)) in
    let rp = parse_bool host (text_of p.is_premium) "is_premium" in
    let q4 : Wallpaper → Bool =
      λ w. q3 w && if_given p.is_premium (passes rp (λ b. same_bool b w.is_premium)) in
    let rows = db.wallpapers in
    let last : List Wallpaper → Result (List Wallpaper) =
      λ vs. ok (order_by is_newer (by_search host p.search vs)) in
    let rest : List Wallpaper → Result (List Wallpaper) =
      λ ws. and_then (by_premium host p.is_premium ws) last in
    ap (λ ws. and_then (by_orientation host p.orientation (by_tags p.tags db ws)) rest)
      (by_category-select p.category is_published rows db)
    ∙ ap (λ ws. and_then (by_orientation host p.orientation ws) rest)
        (by_tags-select p.tags q1 rows db)
    ∙ ap (λ r. and_then r rest)
        (then_filter-select p.orientation q2 rows ro (λ o w. orientation_eq w.orientation o))
    ∙ and_then-verdict (fault p.orientation ro) (fault p.is_premium rp) (select q3 rows)
        (order_by is_newer (select (accepts host p db) rows)) rest
        (ap (λ r. and_then r last)
            (then_filter-select p.is_premium q3 rows rp (λ b w. same_bool b w.is_premium))
          ∙ finish (fault p.is_premium rp) (select q4 rows)
              (order_by is_newer (select (accepts host p db) rows)) last
              (ap (λ vs. ok (order_by is_newer vs)) (by_search-select p.search q4 rows host)))
  where
    finish :
        (f : Option Exc) (ws vs : List Wallpaper) (k : List Wallpaper → Result (List Wallpaper))
        → k ws ≡ ok vs
        → and_then (verdict f ws) k ≡ verdict f vs
    finish none ws vs k h = h
    finish (some e) ws vs k h = refl

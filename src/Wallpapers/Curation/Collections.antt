-- ===== src/Wallpapers/Curation/Collections.antt =====
-- The writes of a collection by their outcome (apps/wallpapers/admin_services.py).
use backend_live_canvas.Prelude.{
  ℕ, ◌≡◌, ◌≢◌, refl, sym, ◌∙◌, ap, ap₂, subst, inl, inr, true, some, List, [], ◌∷◌, ◌==◌, ==_iff,
  first, first_sound, every, select, Bool-cases, Option-cases,
}
use backend_live_canvas.Core.Errors.{Exc, AppErrorClass, raised}
use backend_live_canvas.Core.Exec.{
  Result, ok, err, atomic_err, atomic_ok, ok_pair, pure, ◌>>◌, Outcome, Outcome-of,
}
use backend_live_canvas.Wallpapers.Models.{Collection, CollectionItem, Db}
use backend_live_canvas.Wallpapers.Queries.{text_of}
use backend_live_canvas.Wallpapers.Home.{
  order_by, with_row, published_members, by_position, collection_items,
}
use backend_live_canvas.Wallpapers.Curation.{
  repeats, set_collection_items, is_wallpaper, validate_wallpaper_ids, slug_taken, patched,
  save_collection, update_body, update_collection, CollectionPatch,
}
use backend_live_canvas.Wallpapers.Curation.Membership.{
  visible, with_members, collection_items-with_members, collection_items-with_members_other,
}

-- What replacing the membership comes to, where it returns.
set_items-with_members :
    (c : ℕ) (ids : List ℕ) (db : Db) {u : Unit {0}} {db' : Db}
    → set_collection_items c ids db ≡ (ok u, db')
    → db' ≡ with_members c ids db
unfolding set_collection_items
set_items-with_members c ids db {u} {db'} h = elim (Bool-cases (repeats ids)) [
  | inl e ↦ absurd (no (rw (e, set_collection_items) at h))
  | inr e ↦
      sym (ok_pair {A = Unit {0}} tt (with_members c ids db) (rw (e, set_collection_items) at h)).1
]
  where
    no :
        {d : Db}
        → ◌≡◌ {A = Result (Unit {0}) × Db} (err (Exc.other "IntegrityError"), d) (ok u, db')
        → ⊥
    no q = cc

visible_cong :
    (db1 db : Db) (ids : List ℕ) → db1.wallpapers ≡ db.wallpapers → visible db1 ids ≡ visible db ids
visible_cong db1 db [] e = refl
visible_cong db1 db (i ∷ ids) e =
    ap₂ with_row (ap (first (λ w. w.id == i)) e) (visible_cong db1 db ids e)

published_members_cong :
    (db1 db : Db) (items : List CollectionItem)
    → db1.wallpapers ≡ db.wallpapers
    → published_members db1 items ≡ published_members db items
unfolding published_members
published_members_cong db1 db [] e = refl
published_members_cong db1 db (i ∷ items) e =
    ap₂ with_row (ap (first (λ w. w.id == i.wallpaper)) e) (published_members_cong db1 db items e)

collection_items_cong :
    (d : Collection) (db1 db : Db)
    → db1.wallpapers ≡ db.wallpapers
    → db1.items ≡ db.items
    → collection_items d db1 ≡ collection_items d db
unfolding collection_items
collection_items_cong d db1 db e f =
    ap (λ xs. published_members db1 (order_by by_position (select (λ i. i.collection == d.id) xs)))
      f
    ∙ published_members_cong db1 db _ e

-- The public reads after a write of the membership of `c`: the collection shows the published
-- wallpapers among the given ones in the given order, and the others show what they showed.
pub record Shows (c : Collection) (ids : List ℕ) (db db' : Db) : Type 0 where
  pub members : collection_items c db' ≡ visible db ids
  pub others : (d : Collection) → d.id ≢ c.id → collection_items d db' ≡ collection_items d db

Shows-of :
    (c : Collection) (ids : List ℕ) (db1 db : Db)
    → db1.wallpapers ≡ db.wallpapers
    → db1.items ≡ db.items
    → Shows c ids db (with_members c.id ids db1)
Shows-of c ids db1 db e f = record {
  members = collection_items-with_members c ids db1 ∙ visible_cong db1 db ids e;
  others = λ d n.
      collection_items-with_members_other c.id ids db1 d n ∙ collection_items_cong d db1 db e f;
}

failed_not :
    {A : Type 0} (x : Exc) (d : Db) {a : A} {db' : Db}
    → ◌≡◌ {A = Result A × Db} (err x, d) (ok a, db')
    → ⊥
failed_not x d q = cc

-- The tail that both writes share: the ids are checked and the membership is replaced.
members_written :
    (c : Collection) (ids : List ℕ) (db1 : Db) {c' : Collection} {db' : Db}
    → ((validate_wallpaper_ids ids >> set_collection_items c.id ids) >> pure c) db1 ≡ (ok c', db')
    → (every (is_wallpaper db1) ids ≡ true) × (c' ≡ c) × (db' ≡ with_members c.id ids db1)
unfolding validate_wallpaper_ids set_collection_items
members_written c ids db1 {c'} {db'} h = elim (Bool-cases (every (is_wallpaper db1) ids)) [
  | inr e ↦ absurd (failed_not _ db1 (rw (e, validate_wallpaper_ids) at h))
  | inl e ↦ elim (Bool-cases (repeats ids)) [
    | inl f ↦ absurd (
        failed_not (Exc.other "IntegrityError") _
          (rw f at (rw (e, validate_wallpaper_ids, set_collection_items) at h)))
    | inr f ↦
        let q =
          ok_pair c (with_members c.id ids db1)
            (rw f at (rw (e, validate_wallpaper_ids, set_collection_items) at h)) in
        (e, sym q.0, sym q.1)
  ]
]

patched_id : (p : CollectionPatch) (d : Collection) → (patched p d).id ≡ d.id
unfolding patched
patched_id p d = refl

update_collection_runs :
    (i : ℕ) (ids : List ℕ) (p : CollectionPatch) (db : Db)
    → ((c : Collection) (db' : Db)
        → update_collection i (some ids) p db ≡ (ok c, db')
        → (c.id ≡ i) × (every (is_wallpaper db) ids ≡ true) × Shows c ids db db')
      × ((e : Exc) (db' : Db) → update_collection i (some ids) p db ≡ (err e, db') → db' ≡ db)
unfolding update_collection
update_collection_runs i ids p db = (
  λ c db' h. returned c db' (atomic_ok (update_body i (some ids) p) db h),
  λ e db' h. atomic_err (update_body i (some ids) p) db h,
)
  where
    written :
        (d c : Collection) (db' : Db)
        → d.id ≡ i
        → ((validate_wallpaper_ids ids >> set_collection_items d.id ids) >> pure d)
            (save_collection d db)
          ≡ (ok c, db')
        → (c.id ≡ i) × (every (is_wallpaper db) ids ≡ true) × Shows c ids db db'
    written d c db' k h =
        let w = members_written d ids (save_collection d db) h in
        (
          ap (λ (x : Collection). x.id) w.1 ∙ k,
          w.0,
          subst (λ x. Shows x ids db db') (sym w.1)
              (subst (λ x. Shows d ids db x) (sym w.2)
                (Shows-of d ids (save_collection d db) db refl refl)),
        )

    returned :
        (c : Collection) (db' : Db)
        → update_body i (some ids) p db ≡ (ok c, db')
        → (c.id ≡ i) × (every (is_wallpaper db) ids ≡ true) × Shows c ids db db'
    returned c db' h = elim (Option-cases (first (λ d. d.id == i) db.collections)) [
      | inl e ↦ absurd (failed_not (Exc.http404 "") db (rw e at h))
      | inr (d, e) ↦ elim (Bool-cases (slug_taken i (text_of p.slug) db)) [
        | inl f ↦
            absurd
              (failed_not (raised AppErrorClass.collection_slug_conflict) db (rw f at (rw e at h)))
        | inr f ↦
            written (patched p d) c db'
              (patched_id p d ∙ (==_iff d.id i).0 (first_sound (λ d. d.id == i) db.collections e))
              (rw f at (rw e at h))
      ]
    ]

-- An update that returns has the collection that was asked for, gave wallpapers that are all there,
-- and left a database in which the public read of the collection shows the published ones among
-- them in the given order, while every other collection shows what it showed; an update that
-- raises leaves the database as it was.
pub update_collection-Shows :
    (i : ℕ) (ids : List ℕ) (p : CollectionPatch) (db : Db)
    → Outcome
        (λ c db'. (c.id ≡ i) × (every (is_wallpaper db) ids ≡ true) × Shows c ids db db')
        (λ e db'. db' ≡ db)
        (update_collection i (some ids) p db)
update_collection-Shows i ids p db =
    let (good, bad) = update_collection_runs i ids p db in
    Outcome-of _ _ (update_collection i (some ids) p db) good bad

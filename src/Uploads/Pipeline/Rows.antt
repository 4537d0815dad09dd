-- ===== src/Uploads/Pipeline/Rows.antt =====
-- Saving a wallpaper (apps/uploads/tasks.py): its row is replaced and the others stay.
use backend_live_canvas.Prelude.{
  ℕ, ◌≡◌, ◌≢◌, sym, ◌∙◌, ap, inl, inr, true, false, some, List, [], ◌∷◌, ◌==◌, ==_iff, All,
  first-update, first_sound, replaced, map_option, Bool-cases, Option-cases, arith,
}
use backend_live_canvas.Wallpapers.Models.{Wallpaper, Db}
use backend_live_canvas.Uploads.Pipeline.{wallpaper_by_id, save_wallpaper}

id_kept :
    (w : Wallpaper) (j : ℕ) (ws : List Wallpaper)
    → All (λ v. (replaced (λ u. u.id == w.id) (λ _. w) v).id == j ≡ (v.id == j)) ws
id_kept w j [] = tt
id_kept w j (v ∷ ws) = (
  elim (Bool-cases (v.id == w.id)) [
    | inl e ↦ rw e (ap (λ (i : ℕ). i == j) (sym ((==_iff v.id w.id).0 e)))
    | inr e ↦ rw e
  ],
  id_kept w j ws,
)

pub wallpaper_by_id-save :
    (w : Wallpaper) (j : ℕ) (db : Db)
    → wallpaper_by_id j (save_wallpaper w db).wallpapers
      ≡ map_option (replaced (λ u. u.id == w.id) (λ _. w)) (wallpaper_by_id j db.wallpapers)
unfolding save_wallpaper
wallpaper_by_id-save w j db =
    first-update (λ v. v.id == j) (λ u. u.id == w.id) (λ _. w) db.wallpapers
      (id_kept w j db.wallpapers)

-- The row that is saved is found under its primary key, if a row was there.
pub by_id-save_self :
    (w v : Wallpaper) (db : Db)
    → wallpaper_by_id w.id db.wallpapers ≡ some v
    → wallpaper_by_id w.id (save_wallpaper w db).wallpapers ≡ some w
by_id-save_self w v db h =
    let e : v.id == w.id ≡ true = first_sound (λ u. u.id == w.id) db.wallpapers h in
    wallpaper_by_id-save w w.id db ∙ (rw (h, e))

-- The other rows stay.
pub by_id-save_ne :
    (w : Wallpaper) (j : ℕ) (db : Db)
    → j ≢ w.id
    → wallpaper_by_id j (save_wallpaper w db).wallpapers ≡ wallpaper_by_id j db.wallpapers
by_id-save_ne w j db h = elim (Option-cases (wallpaper_by_id j db.wallpapers)) [
  | inl e ↦ wallpaper_by_id-save w j db ∙ (rw e)
  | inr (x, e) ↦
      let q : x.id ≡ j = (==_iff x.id j).0 (first_sound (λ u. u.id == j) db.wallpapers e) in
      let n : x.id == w.id ≡ false = ground arith in wallpaper_by_id-save w j db ∙ (rw e (rw n))
]

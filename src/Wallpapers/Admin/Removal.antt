-- ===== src/Wallpapers/Admin/Removal.antt =====
-- Removing wallpapers and tags (apps/wallpapers/admin_services.py).
use backend_live_canvas.Prelude.{
  ℕ, ◌≡◌, ◌≢◌, refl, sym, subst, inl, inr, Bool, true, false, ◌&&◌, ◌||◌, not, some, List, [], ◌∷◌,
  ◌==◌, ==_iff, and_true, All, first, first-none, first_sound, exists, select, update, is_some,
  Bool-cases, Option-cases, arith,
}
use backend_live_canvas.Core.Errors.{Exc, AppErrorClass, raised}
use backend_live_canvas.Core.Exec.{Result, ok, err, ok_pair, Outcome, Outcome-of}
use backend_live_canvas.Wallpapers.Models.{Tag, Wallpaper, Db, is_published}
use backend_live_canvas.Wallpapers.Queries.{is_tagged, get_published_or_404}
use backend_live_canvas.Wallpapers.Admin.{
  live_wallpaper, save_wallpaper_row, soft_delete_wallpaper, is_used, delete_tag,
}

no_value :
    {A : Type 0} (x : Exc) (d : Db) {a : A} {db' : Db}
    → ◌≡◌ {A = Result A × Db} (err x, d) (ok a, db')
    → ⊥
no_value x d q = cc

hidden :
    (w : Wallpaper) (i : ℕ) (ws : List Wallpaper)
    → is_published w ≡ false
    → w.id ≡ i
    → All (λ v. (is_published v && v.id == i) ≡ false) (update (λ v. v.id == w.id) (λ _. w) ws)
unfolding update
hidden w i [] p e = tt
hidden w i (v ∷ ws) p e = (
  elim (Bool-cases (v.id == w.id)) [
    | inl f ↦ rw f (rw p refl)
    | inr f ↦
        let k : (v.id == i) ≡ false = subst (λ (j : ℕ). (v.id == j) ≡ false) e f in
        rw f (rw k (and_false (is_published v)))
  ],
  hidden w i ws p e,
)
  where
    and_false : (b : Bool) → b && false ≡ false
    and_false true = refl
    and_false false = refl

deleted_hidden :
    (w : Wallpaper) (now : ℕ) → is_published (record w { deleted_at = some now }) ≡ false
unfolding is_published
deleted_hidden w now = ground arith

-- A wallpaper that was deleted is found by no public read any more.
pub soft_delete_wallpaper-get_published_or_404 :
    (now i : ℕ) (db : Db) {w : Wallpaper} {db' : Db}
    → soft_delete_wallpaper now i db ≡ (ok w, db')
    → get_published_or_404 i db' ≡ err (Exc.http404 "Wallpaper not found.")
unfolding soft_delete_wallpaper get_published_or_404
soft_delete_wallpaper-get_published_or_404 now i db {w} {db'} h =
    elim (Option-cases (live_wallpaper i db)) [
      | inl e ↦ absurd (no_value (Exc.http404 "") db (rw (e, soft_delete_wallpaper) at h))
      | inr (v, e) ↦
          let q =
            ok_pair (record v { deleted_at = some now })
              (save_wallpaper_row (record v { deleted_at = some now }) db)
              (rw (e, soft_delete_wallpaper) at h) in
          let k : v.id ≡ i =
            (==_iff v.id i).0
              (and_true (v.id == i) (not (is_some v.deleted_at))
                (first_sound (λ u. u.id == i && not (is_some u.deleted_at)) db.wallpapers e)).0 in
          subst (λ d. get_published_or_404 i d ≡ err (Exc.http404 "Wallpaper not found.")) q.1
            (rw (
              first-none (λ u. is_published u && u.id == i)
                  (update (λ u. u.id == v.id) (λ _. record v { deleted_at = some now })
                    db.wallpapers)
                  (hidden (record v { deleted_at = some now }) i db.wallpapers
                    (deleted_hidden v now) k),
              get_published_or_404,
            ))
    ]

abbrev pub IsTagOf : List Tag → ℕ → Type 0
IsTagOf tags i = exists (λ t. t.id == i) tags ≡ true

-- Every tag that a wallpaper carries is a row of the table.
abbrev pub HasKnownTags : Db → Type 0
HasKnownTags db = All (λ w. All (IsTagOf db.tags) w.tags) db.wallpapers

exists-select :
    (i k : ℕ) (tags : List Tag)
    → i ≢ k
    → IsTagOf tags i
    → IsTagOf (select (λ t. not (t.id == k)) tags) i
unfolding exists select
exists-select i k [] n h = h
exists-select i k (t ∷ tags) n h = elim (Bool-cases (t.id == k)) [
  | inl e ↦
      let f : (t.id == i) ≡ false = ground arith in rw e (exists-select i k tags n (rw f at h))
  | inr e ↦ elim (Bool-cases (t.id == i)) [
    | inl f ↦ rw (e, f)
    | inr f ↦ rw (e, f) (exists-select i k tags n (rw f at h))
  ]
]

tags_left :
    (k : ℕ) (tags : List Tag) (is : List ℕ)
    → exists (λ j. j == k) is ≡ false
    → All (IsTagOf tags) is
    → All (IsTagOf (select (λ t. not (t.id == k)) tags)) is
unfolding exists
tags_left k tags [] u h = tt
tags_left k tags (i ∷ is) u h = elim (Bool-cases (i == k)) [
  | inl e ↦ absurd (conflict (exists (λ j. j == k) is) (rw e at u))
  | inr e ↦ (exists-select i k tags (λ q. differ i k e q) h.0, tags_left k tags is (rw e at u) h.1)
]
  where
    conflict : (b : Bool) → true || b ≡ false → ⊥
    conflict b q = cc

    differ : (i k : ℕ) → (i == k) ≡ false → i ≡ k → ⊥
    differ i k e q = ground arith

known_left :
    (k : ℕ) (tags : List Tag) (ws : List Wallpaper)
    → exists (is_tagged k) ws ≡ false
    → All (λ w. All (IsTagOf tags) w.tags) ws
    → All (λ w. All (IsTagOf (select (λ t. not (t.id == k)) tags)) w.tags) ws
unfolding exists
known_left k tags [] u h = tt
known_left k tags (w ∷ ws) u h =
    let used : Bool = exists (λ j. j == k) w.tags in
    elim (Bool-cases used) [
      | inl e ↦ absurd (conflict (exists (is_tagged k) ws) (rw e at u))
      | inr e ↦ (tags_left k tags w.tags e h.0, known_left k tags ws (rw e at u) h.1)
    ]
  where
    conflict : (b : Bool) → true || b ≡ false → ⊥
    conflict b q = cc

gone : (k : ℕ) (tags : List Tag) → IsTagOf (select (λ t. not (t.id == k)) tags) k → ⊥
unfolding exists select
gone k [] h = cc
gone k (t ∷ tags) h = elim (Bool-cases (t.id == k)) [
  | inl e ↦ gone k tags (rw e at h)
  | inr e ↦ gone k tags (rw e at (rw e at h))
]

delete_tag_runs :
    (i : ℕ) (db : Db)
    → HasKnownTags db
    → ((tag : Tag) (db' : Db)
        → delete_tag i db ≡ (ok tag, db')
        → (tag.id ≡ i) × (is_used i db ≡ false) × HasKnownTags db' × (IsTagOf db'.tags i → ⊥))
      × ((e : Exc) (db' : Db) → delete_tag i db ≡ (err e, db') → db' ≡ db)
unfolding delete_tag
delete_tag_runs i db w = (
  λ tag db' h. elim (Option-cases (first (λ t. t.id == i) db.tags)) [
    | inl e ↦ absurd (no_value (Exc.http404 "") db (rw (e, delete_tag) at h))
    | inr (t, e) ↦ elim (Bool-cases (is_used t.id db)) [
      | inl f ↦
          absurd (no_value (raised AppErrorClass.tag_in_use) db (rw f at (rw (e, delete_tag) at h)))
      | inr f ↦
          let q =
            ok_pair t (record db { tags = select (λ u. not (u.id == t.id)) db.tags })
              (rw f at (rw (e, delete_tag) at h)) in
          let k : t.id ≡ i = (==_iff t.id i).0 (first_sound (λ t. t.id == i) db.tags e) in
          (
            subst (λ (u : Tag). u.id ≡ i) q.0 k,
            subst (λ (j : ℕ). is_used j db ≡ false) k f,
            subst HasKnownTags q.1 (known_left t.id db.tags db.wallpapers f w),
            subst (λ (d : Db). IsTagOf d.tags i → ⊥) q.1
                (subst (λ (j : ℕ). IsTagOf (select (λ u. not (u.id == j)) db.tags) i → ⊥) (sym k)
                  (gone i db.tags)),
          )
    ]
  ],
  λ x db' h. elim (Option-cases (first (λ t. t.id == i) db.tags)) [
    | inl e ↦ same (Exc.http404 "") (rw (e, delete_tag) at h)
    | inr (t, e) ↦ elim (Bool-cases (is_used t.id db)) [
      | inl f ↦ same (raised AppErrorClass.tag_in_use) (rw f at (rw (e, delete_tag) at h))
      | inr f ↦ absurd (
          no_error t (record db { tags = select (λ u. not (u.id == t.id)) db.tags })
            (rw f at (rw (e, delete_tag) at h)))
    ]
  ],
)
  where
    same :
        {x : Exc} {db' : Db} (y : Exc)
        → ◌≡◌ {A = Result Tag × Db} (err y, db) (err x, db')
        → db' ≡ db
    same y q = cc

    no_error :
        {x : Exc} {db' : Db} (t : Tag) (d : Db)
        → ◌≡◌ {A = Result Tag × Db} (ok t, d) (err x, db')
        → ⊥
    no_error t d q = cc

-- Deleting a tag succeeds only for one that no wallpaper carries, deleted wallpapers included, and
-- keeps every tag of every wallpaper in the table; where it raises, nothing changes.
pub delete_tag-HasKnownTags :
    (i : ℕ) (db : Db)
    → HasKnownTags db
    → Outcome
        (λ tag db'. (tag.id ≡ i) × (is_used i db ≡ false) × HasKnownTags db' × ¬ IsTagOf db'.tags i)
        (λ e db'. db' ≡ db)
        (delete_tag i db)
delete_tag-HasKnownTags i db w =
    let (good, bad) = delete_tag_runs i db w in Outcome-of _ _ (delete_tag i db) good bad

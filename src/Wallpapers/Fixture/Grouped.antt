-- ===== src/Wallpapers/Fixture/Grouped.antt =====
-- scripts/build_seed_fixture.py: the folders hold the clips by folder, in their order.
use backend_live_canvas.Prelude.{
  String, ◌≡◌, refl, sym, ap, ◌∙◌, Bool, true, false, inl, inr, Option, none, some, List, [], ◌∷◌,
  ◌++◌, ◌||◌, All, All-map, select, first, exists, is_some, str_eq, str_eq_iff, str_eq_of_ne,
  Bool-cases, if◌then◌else◌, arith,
}
use backend_live_canvas.Core.Exec.{ok}
use backend_live_canvas.Wallpapers.Home.{insert, order_by}
use backend_live_canvas.Wallpapers.Crawl.{Clip}
use backend_live_canvas.Wallpapers.Crawl.Folders.{
  Folders, folder_of, mapped_to, clips_in, add_clip, group,
}

-- The clips that are stored under a folder.
abbrev clips_or : Option (String × List Clip) → List Clip
clips_or none = []
clips_or (some e) = e.1

abbrev pub members : String → Folders → List Clip
members k fs = clips_or (clips_in k fs)

abbrev pub in_folder : String → Clip → Bool
in_folder k c = str_eq (folder_of c) k

abbrev added : Bool → Clip → List Clip → List Clip
added true c cs = cs ++ c ∷ []
added false c cs = cs

members-add_clip :
    (k j : String) (c : Clip) (fs : Folders)
    → members k (add_clip j c fs) ≡ added (str_eq j k) c (members k fs)
unfolding first add_clip
members-add_clip k j c [] = elim (Bool-cases (str_eq j k)) [ inl e ↦ rw e refl | inr e ↦ rw e refl ]
members-add_clip k j c ((i, cs) ∷ fs) = elim (Bool-cases (str_eq i j)) [
  | inl e ↦
      let q : i ≡ j = (str_eq_iff i j).0 e in
      rw e (rw q (elim (Bool-cases (str_eq j k)) [ inl d ↦ rw d refl | inr d ↦ rw d refl ]))
  | inr e ↦ rw e (elim (Bool-cases (str_eq i k)) [
    | inl d ↦ rw (d, other i j k e d) refl
    | inr d ↦ rw d (members-add_clip k j c fs)
  ])
]
  where
    other : (i j k : String) → str_eq i j ≡ false → str_eq i k ≡ true → str_eq j k ≡ false
    other i j k e d =
        str_eq_of_ne j k (λ q. cc (e, (str_eq_iff i j).1 ((str_eq_iff i k).0 d ∙ sym q)))

append_assoc : (xs : List Clip) (c : Clip) (ys : List Clip) → (xs ++ c ∷ []) ++ ys ≡ xs ++ c ∷ ys
append_assoc [] c ys = refl
append_assoc (x ∷ xs) c ys = ap (λ zs. x ∷ zs) (append_assoc xs c ys)

append-nil : (xs : List Clip) → xs ++ [] ≡ xs
append-nil [] = refl
append-nil (x ∷ xs) = ap (λ zs. x ∷ zs) (append-nil xs)

added-append :
    (b : Bool) (c : Clip) (xs ys : List Clip)
    → added b c xs ++ ys ≡ xs ++ (if b then c ∷ ys else ys)
added-append true c xs ys = append_assoc xs c ys
added-append false c xs ys = refl

group_onto :
    (cs : List Clip) (fs : Folders)
    → All (λ c. is_some (mapped_to (folder_of c)) ≡ true) cs
    → (gs : Folders) × (group cs fs ≡ ok gs)
      × ((k : String) → members k gs ≡ members k fs ++ select (in_folder k) cs)
unfolding group select
group_onto [] fs h = (fs, refl, λ k. sym (append-nil (members k fs)))
group_onto (c ∷ cs) fs h =
    let (gs, e, m) = group_onto cs (add_clip (folder_of c) c fs) h.1 in
    (
      gs,
      rw (h.0, group) e,
      λ k.
          m k
          ∙ ap (λ xs. xs ++ select (in_folder k) cs) (members-add_clip k (folder_of c) c fs)
          ∙ added-append (in_folder k c) c (members k fs) (select (in_folder k) cs),
    )

-- Where every folder is mapped, the grouping succeeds.
pub group_total :
    (cs : List Clip)
    → All (λ c. is_some (mapped_to (folder_of c)) ≡ true) cs
    → (gs : Folders) × (group cs [] ≡ ok gs)
      × ((k : String) → members k gs ≡ select (in_folder k) cs)
unfolding first
group_total cs h = group_onto cs [] h

-- A row of a selection that is not empty.
pub select-exists :
    {A : Type 0} (p : A → Bool) (xs : List A)
    → exists p xs ≡ true
    → (y : A) × (ys : List A) × (select p xs ≡ y ∷ ys)
unfolding select exists
select-exists p [] h = absurd (cc)
select-exists p (x ∷ xs) h = elim (Bool-cases (p x)) [
  | inl e ↦ (x, select p xs, rw e refl)
  | inr e ↦ let (y, ys, q) = select-exists p xs (rw e at h) in (y, ys, rw e q)
]

-- A folder with clips is found, and holds them.
pub clips_in-members :
    (k : String) (fs : Folders) {y : Clip} {ys : List Clip}
    → members k fs ≡ y ∷ ys
    → (e : String × List Clip) × (clips_in k fs ≡ some e) × (e.1 ≡ y ∷ ys)
clips_in-members k fs {y} {ys} h = found (clips_in k fs) h
  where
    found :
        (o : Option (String × List Clip))
        → clips_or o ≡ y ∷ ys
        → (e : String × List Clip) × (o ≡ some e) × (e.1 ≡ y ∷ ys)
    found none q = absurd (cc)
    found (some e) q = (e, refl, q)

exists-insert :
    {A : Type 0} (before : A → A → Bool) (p : A → Bool) (x : A) (ys : List A)
    → exists p (insert before x ys) ≡ exists p (x ∷ ys)
unfolding exists insert
exists-insert before p x [] = refl
exists-insert before p x (y ∷ ys) = ground (arith, exists-insert before p x ys)

-- Sorting loses no row.
pub exists-order_by :
    {A : Type 0} (before : A → A → Bool) (p : A → Bool) (xs : List A)
    → exists p (order_by before xs) ≡ exists p xs
unfolding exists order_by
exists-order_by before p [] = refl
exists-order_by before p (x ∷ xs) =
    exists-insert before p x (order_by before xs) ∙ ap (λ b. p x || b) (exists-order_by before p xs)

pub or_true : (a : Bool) {b : Bool} → b ≡ true → a || b ≡ true
or_true true h = refl
or_true false h = h

-- A reflexive test finds every row.
pub exists_self :
    {A : Type 0} (p : A → A → Bool) (xs : List A)
    → ((x : A) → p x x ≡ true)
    → All (λ x. exists (p x) xs ≡ true) xs
unfolding exists
exists_self p [] r = tt
exists_self p (x ∷ xs) r = (
  rw (r x) refl,
  All-map (λ y. exists (p y) xs ≡ true) _ xs (λ y h. or_true (p y x) h) (exists_self p xs r),
)

-- ===== src/Wallpapers/Seed/Members.antt =====
-- The items of the seeded collections (apps/wallpapers/management/commands/seed_content.py): rebuilding
-- them a second time leaves the same items.
use mathlib.Core.List.{append-nil, append_assoc}
use backend_live_canvas.Prelude.{
  ℕ, suc, ◌≡◌, refl, sym, ◌∙◌, ap, ap₂, subst, inl, inr, Bool, false, not, List, [], ◌∷◌, ◌++◌, All,
  select, ◌==◌, ==_iff, Bool-cases, arith,
}
use backend_live_canvas.Core.Exec.{ok}
use backend_live_canvas.Wallpapers.Models.{Collection, CollectionItem}
use backend_live_canvas.Wallpapers.Upsert.{Dict}
use backend_live_canvas.Wallpapers.Upsert.Settled.{select-append}
use backend_live_canvas.Wallpapers.Upsert.Again.{Finished, then_result_ok}
use backend_live_canvas.Wallpapers.Seed.{
  CollectionRow, dict_items, numbered, is_in, has_repeat, rebuild, collection_writer,
  collection_round,
}

-- The items of the other collections.
abbrev pub without : Collection → List CollectionItem → List CollectionItem
without c items = select (λ i. not (is_in c.id i)) items

unfoldable pub cleared : List Collection → List CollectionItem → List CollectionItem
cleared [] items = items
cleared (c ∷ cs) items = cleared cs (without c items)

-- The primary keys of some collections are pairwise distinct.
abbrev pub AreApart : List Collection → Type 0
AreApart [] = Unit
AreApart (c ∷ cs) = All (λ x. x.id == c.id ≡ false) cs × AreApart cs

select_comm :
    {A : Type 0} (p q : A → Bool) (xs : List A) → select p (select q xs) ≡ select q (select p xs)
unfolding select
select_comm p q [] = refl
select_comm p q (x ∷ xs) = elim (Bool-cases (p x)) [
  | inl e ↦ elim (Bool-cases (q x)) [
    | inl f ↦ rw (e, f) (rw e (ap (λ zs. x ∷ zs) (select_comm p q xs)))
    | inr f ↦ rw (e, f) (select_comm p q xs)
  ]
  | inr e ↦ elim (Bool-cases (q x)) [
    | inl f ↦ rw (e, f) (rw e (select_comm p q xs))
    | inr f ↦ rw (e, f) (select_comm p q xs)
  ]
]

select_idem : {A : Type 0} (p : A → Bool) (xs : List A) → select p (select p xs) ≡ select p xs
unfolding select
select_idem p [] = refl
select_idem p (x ∷ xs) = elim (Bool-cases (p x)) [
  | inl e ↦ rw e (rw e (ap (λ zs. x ∷ zs) (select_idem p xs)))
  | inr e ↦ rw e (select_idem p xs)
]

cleared-append :
    (cs : List Collection) (a b : List CollectionItem)
    → cleared cs (a ++ b) ≡ cleared cs a ++ cleared cs b
unfolding cleared
cleared-append [] a b = refl
cleared-append (c ∷ cs) a b =
    ap (cleared cs) (select-append (λ i. not (is_in c.id i)) a b)
    ∙ cleared-append cs (without c a) (without c b)

cleared-without :
    (cs : List Collection) (c : Collection) (a : List CollectionItem)
    → without c (cleared cs a) ≡ cleared cs (without c a)
unfolding cleared
cleared-without [] c a = refl
cleared-without (d ∷ cs) c a =
    cleared-without cs c (without d a)
    ∙ ap (cleared cs) (select_comm (λ i. not (is_in c.id i)) (λ i. not (is_in d.id i)) a)

cleared_idem :
    (cs : List Collection) (a : List CollectionItem) → cleared cs (cleared cs a) ≡ cleared cs a
unfolding cleared
cleared_idem [] a = refl
cleared_idem (c ∷ cs) a =
    ap (cleared cs) (cleared-without cs c (without c a))
    ∙ cleared_idem cs (without c (without c a))
    ∙ ap (cleared cs) (select_idem (λ i. not (is_in c.id i)) a)

cleared-nil : (cs : List Collection) → cleared cs [] ≡ []
unfolding cleared select
cleared-nil [] = refl
cleared-nil (c ∷ cs) = cleared-nil cs

-- ---------------------------------------------------------------- one collection

module _ (c : Collection) where
  without-numbered : (n : ℕ) (ids : List ℕ) → without c (numbered c.id n ids) ≡ []
  unfolding numbered select
  without-numbered n [] = refl
  without-numbered n (i ∷ is) = rw ((==_iff c.id c.id).1 refl) (without-numbered (suc n) is)

  without-numbered_other :
      (d : Collection) (n : ℕ) (ids : List ℕ)
      → d.id == c.id ≡ false
      → without d (numbered c.id n ids) ≡ numbered c.id n ids
  unfolding numbered select
  without-numbered_other d n [] h = refl
  without-numbered_other d n (i ∷ is) h =
      let k : c.id == d.id ≡ false = ground arith in
      rw k (
        ap (λ zs. record { collection = c.id; wallpaper = i; position = n } ∷ zs)
          (without-numbered_other d (suc n) is h))

  cleared-numbered :
      (cs : List Collection) (n : ℕ) (ids : List ℕ)
      → All (λ x. x.id == c.id ≡ false) cs
      → cleared cs (numbered c.id n ids) ≡ numbered c.id n ids
  unfolding cleared
  cleared-numbered [] n ids h = refl
  cleared-numbered (d ∷ cs) n ids h =
      ap (cleared cs) (without-numbered_other d n ids h.0) ∙ cleared-numbered cs n ids h.1

-- A collection that was rebuilt once is rebuilt from any items, to the same items of its own.
rebuild-parts :
    (d : Dict) (r : CollectionRow) (c : Collection) (a : List CollectionItem)
    {b : List CollectionItem}
    → rebuild d r c a ≡ ok b
    → (ids : List ℕ) × (b ≡ without c a ++ numbered c.id 0 ids)
      × ((any : List CollectionItem)
          → rebuild d r c any ≡ ok (without c any ++ numbered c.id 0 ids))
unfolding rebuild
rebuild-parts d r c a {b} h =
    let (ids, found, rest) = then_result_ok (dict_items d r.items) _ h in
    elim (Bool-cases (has_repeat ids)) [
      | inl e ↦ absurd (cc (rw e at rest))
      | inr e ↦ (ids, ok_eq (rw e at rest), λ any. rw found (rw e refl))
    ]
  where
    ok_eq : {x y : List CollectionItem} → ok x ≡ ok y → y ≡ x
    ok_eq q = cc

-- ---------------------------------------------------------------- the loop

module _ (d : Dict) where
  abbrev Done :
      List CollectionRow → List Collection → List CollectionItem → List CollectionItem → Type 0
  Done = Finished collection_writer (collection_round d)

  -- What the loop adds for its collections, from whatever items it begins.
  record Added (fs : List CollectionRow) (cs : List Collection) (a b : List CollectionItem)
      : Type 0 where
    added : List CollectionItem
    whole : b ≡ cleared cs a ++ added
    own : cleared cs added ≡ []
    anew : (any : List CollectionItem) → Done fs cs any (cleared cs any ++ added)

  Finished-Added :
      (fs : List CollectionRow) (cs : List Collection) (a b : List CollectionItem)
      → AreApart cs
      → Done fs cs a b
      → Added fs cs a b
  unfolding cleared select
  Finished-Added [] [] a b h e = record {
    added = [];
    whole = sym e ∙ sym (append-nil a);
    own = refl;
    anew = λ any. sym (append-nil any);
  }
  Finished-Added [] (c ∷ cs) a b h e = absurd e
  Finished-Added (r ∷ fs) [] a b h e = absurd e
  Finished-Added (r ∷ fs) (c ∷ cs) a b h (m, f, g) =
      let (ids, one, anew) = rebuild-parts d r c a f in
      let block = numbered c.id 0 ids in
      let q = Finished-Added fs cs m b h.1 g in
      let apart = cleared-numbered c cs 0 ids h.0 in
      let joined : (any : List CollectionItem)
          → cleared cs (without c any ++ block) ++ q.added
            ≡ cleared cs (without c any) ++ (block ++ q.added) =
        λ any.
          ap (λ (zs : List CollectionItem). zs ++ q.added)
            (cleared-append cs (without c any) block
              ∙ ap (λ (zs : List CollectionItem). cleared cs (without c any) ++ zs) apart)
          ∙ append_assoc (cleared cs (without c any)) block q.added in
      record {
        added = block ++ q.added;
        whole =
            q.whole ∙ ap (λ (zs : List CollectionItem). cleared cs zs ++ q.added) one ∙ joined a;
        own =
            ap (cleared cs) (
              select-append (λ i. not (is_in c.id i)) block q.added
              ∙ ap (λ (zs : List CollectionItem). zs ++ without c q.added)
                  (without-numbered c 0 ids))
            ∙ sym (cleared-without cs c q.added)
            ∙ ap (without c) q.own;
        anew = λ any. (
          without c any ++ block,
          anew any,
          subst (Done fs cs (without c any ++ block)) (joined any)
              (q.anew (without c any ++ block)),
        );
      }

  -- Over the items that it left, the loop leaves the same items.
  pub Finished-again :
      (fs : List CollectionRow) (cs : List Collection) (a b : List CollectionItem)
      → AreApart cs
      → Done fs cs a b
      → Done fs cs b b
  Finished-again fs cs a b h e =
      let q = Finished-Added fs cs a b h e in
      subst (Done fs cs b)
        (ap (λ (zs : List CollectionItem). zs ++ q.added)
            (ap (cleared cs) q.whole
              ∙ cleared-append cs (cleared cs a) q.added
              ∙ ap₂ (λ (ys zs : List CollectionItem). ys ++ zs) (cleared_idem cs a) q.own
              ∙ append-nil (cleared cs a))
          ∙ sym q.whole)
        (q.anew b)

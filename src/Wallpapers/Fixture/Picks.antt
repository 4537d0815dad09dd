-- ===== src/Wallpapers/Fixture/Picks.antt =====
-- scripts/build_seed_fixture.py: the sample collections of a fixture and the references in them.
use backend_live_canvas.Prelude.{
  ℕ, zero, suc, String, decimal, ◌≡◌, refl, sym, ◌∙◌, Bool, true, false, some, List, [], ◌∷◌, ◌++◌,
  map, take, All, All-append, All-take, All-select_of, In, select, exists, str_eq, str_eq_iff,
}
use backend_live_canvas.Core.Exec.{ok}
use backend_live_canvas.Wallpapers.Seed.{CollectionRow}
use backend_live_canvas.Wallpapers.Crawl.{Clip, Sample}
use backend_live_canvas.Wallpapers.Crawl.Folders.{Folders, clips_in}
use backend_live_canvas.Wallpapers.Fixture.{BuiltRow, pick_items, sample_row, build_collections}
use backend_live_canvas.Wallpapers.Fixture.Grouped.{
  members, in_folder, clips_in-members, select-exists,
}
use backend_live_canvas.Wallpapers.Fixture.Rows.{exists-first}

-- The first pick of a list takes a clip.
abbrev pub opens : List (String × ℕ) → Bool
opens ((k, suc n) ∷ ps) = true
opens _ = false

All-to_map :
    {A B : Type 0} (P : B → Type 0) (g : A → B) (xs : List A)
    → All (λ x. P (g x)) xs
    → All P (map g xs)
All-to_map P g [] h = tt
All-to_map P g (x ∷ xs) h = (h.0, All-to_map P g xs h.1)

-- The cover of a collection is the thumbnail of its first item.
abbrev pub HasCover : List BuiltRow → CollectionRow → Type 0
HasCover ws c =
    (w : BuiltRow) × (rest : List String) × In w ws
    × (c.items ≡ w.row.key ∷ rest)
    × (c.cover_url ≡ w.row.thumbnail_url)

-- A folder that is picked from has a clip.
abbrev pub HasClips : List Clip → String × ℕ → Type 0
HasClips clips p = exists (in_folder p.0) clips ≡ true

module _ (clips : List Clip) (fs : Folders) (ws : List BuiltRow) where
  -- Every folder holds its clips.
  abbrev pub IsGrouped : Type 0
  IsGrouped = (k : String) → members k fs ≡ select (in_folder k) clips

  abbrev pub is_key : String → Bool
  is_key k = exists (λ w. str_eq w.row.key k) ws

  module _ (g : IsGrouped) (keys : All (λ c. is_key (decimal c.id) ≡ true) clips) where
    -- The clips of a folder: it is found, and they have rows.
    found_clips :
        (p : String × ℕ)
        → HasClips clips p
        → (e : String × List Clip) × (clips_in p.0 fs ≡ some e)
          × All (λ c. is_key (decimal c.id) ≡ true) e.1
          × (y : Clip) × (ys : List Clip) × (e.1 ≡ y ∷ ys)
    found_clips p h =
        let (y, ys, q) = select-exists (in_folder p.0) clips h in
        let (e, at, same) = clips_in-members p.0 fs (g p.0 ∙ q) in
        (
          e,
          at,
          rw (same ∙ sym q)
              (All-select_of (λ c. is_key (decimal c.id) ≡ true) (in_folder p.0) clips keys),
          y,
          ys,
          same,
        )

    pick_items_total :
        (ps : List (String × ℕ))
        → All (HasClips clips) ps
        → (is : List String) × (pick_items fs ps ≡ ok is)
          × All (λ i. is_key i ≡ true) is
          × (opens ps ≡ true → (i : String) × (rest : List String) × (is ≡ i ∷ rest))
    unfolding pick_items
    pick_items_total [] h = ([], refl, tt, λ o. absurd (cc))
    pick_items_total ((k, n) ∷ ps) h =
        let (e, at, known, y, ys, same) = found_clips (k, n) h.0 in
        let (is, q, rest, _) = pick_items_total ps h.1 in
        (
          map (λ c. decimal c.id) (take n e.1) ++ is,
          rw (at, q, pick_items) refl,
          All-append (λ i. is_key i ≡ true) (map (λ c. decimal c.id) (take n e.1)) is
              (All-to_map (λ i. is_key i ≡ true) (λ c. decimal c.id) (take n e.1)
                (All-take (λ c. is_key (decimal c.id) ≡ true) n e.1 known))
              rest,
          λ o. opened n e.1 is same o,
        )
      where
        opened :
            (m : ℕ) (cs : List Clip) {y : Clip} {ys : List Clip} (is : List String)
            → cs ≡ y ∷ ys
            → opens ((k, m) ∷ ps) ≡ true
            → (i : String) × (rest : List String) × (map (λ c. decimal c.id) (take m cs) ++ is
                ≡ i ∷ rest)
        opened zero cs is same o = absurd (cc)
        opened (suc m) [] is same o = absurd (cc)
        opened (suc m) (c ∷ cs) is same o = (decimal c.id, _, refl)

    pub build_collections_total :
        (ss : List Sample)
        → All (λ s. opens s.picks ≡ true) ss
        → All (λ s. All (HasClips clips) s.picks) ss
        → (cs : List CollectionRow) × (build_collections fs ws ss ≡ ok cs)
          × All (λ c. All (λ i. is_key i ≡ true) c.items) cs
          × All (HasCover ws) cs
    unfolding build_collections
    build_collections_total [] o h = ([], refl, tt, tt)
    build_collections_total (s ∷ ss) o h =
        let (is, q, known, start) = pick_items_total s.picks h.0 in
        let (i, rest, e) = start o.0 in
        let (w, found, at, key) =
          exists-first (λ w. str_eq w.row.key i) ws (head_of i rest (rw e at known)) in
        let (cs, q', items, covers) = build_collections_total ss o.1 h.1 in
        (
          sample_row s is w.row.thumbnail_url ∷ cs,
          rw (q, e, found, q', build_collections) refl,
          (known, items),
          ((w, rest, at, rw ((str_eq_iff w.row.key i).0 key) e, refl), covers),
        )
      where
        head_of :
            (i : String) (rest : List String)
            → All (λ j. is_key j ≡ true) (i ∷ rest)
            → is_key i ≡ true
        head_of i rest h = h.0

-- ===== src/Uploads/Commands/Purged.antt =====
-- What the purge removes (apps/uploads/management/commands/purge_stale_uploads.py).
use backend_live_canvas.Prelude.{
  ℕ, ◌+◌, leb, is_some, ◌≡◌, refl, sym, ◌∙◌, ap, inl, inr, String, Bool, true, false, ◌||◌, not,
  List, [], ◌∷◌, ◌==◌, ==_iff, All, All-map, exists, length, select, Bool-cases, if◌then◌else◌,
  arith,
}
use backend_live_canvas.Uploads.Models.{UploadSlot}
use backend_live_canvas.Uploads.Pipeline.{World}
use backend_live_canvas.Wallpapers.Queries.Filtered.{select_ext}
use backend_live_canvas.Uploads.Commands.{is_stale_slot, purge_slots, purge_stale_uploads}

-- No row with the primary key of another.
abbrev pub IsUnique : List UploadSlot → Type 0
IsUnique [] = Unit
IsUnique (s ∷ slots) = All (λ t. (t.id == s.id) ≡ false) slots × IsUnique slots

abbrev is_listed : List UploadSlot → UploadSlot → Bool
is_listed stale s = exists (λ t. s.id == t.id) stale

select_all : {A : Type 0} (xs : List A) → select (λ _. true) xs ≡ xs
unfolding select
select_all [] = refl
select_all (x ∷ xs) = ap (λ r. x ∷ r) (select_all xs)

select_twice :
    (i : ℕ) (stale slots : List UploadSlot)
    → select (λ s. not (is_listed stale s)) (select (λ s. not (s.id == i)) slots)
      ≡ select (λ s. not (s.id == i || is_listed stale s)) slots
unfolding select
select_twice i stale [] = refl
select_twice i stale (s ∷ slots) = elim (Bool-cases (s.id == i)) [
  | inl e ↦ rw e (select_twice i stale slots)
  | inr e ↦ elim (Bool-cases (is_listed stale s)) [
    | inl f ↦ rw (e, f) (select_twice i stale slots)
    | inr f ↦ rw (e, f) (ap (λ r. s ∷ r) (select_twice i stale slots))
  ]
]

purge_slots-slots :
    (deletes : String → Bool) (stale : List UploadSlot) (world : World)
    → (purge_slots deletes stale world).db.slots
      ≡ select (λ s. not (is_listed stale s)) world.db.slots
unfolding purge_slots exists
purge_slots-slots deletes [] world = sym (select_all world.db.slots)
purge_slots-slots deletes (s ∷ stale) world =
    purge_slots-slots deletes stale _ ∙ select_twice s.id stale world.db.slots

listed_none :
    (p : UploadSlot → Bool) (s : UploadSlot) (slots : List UploadSlot)
    → All (λ t. (t.id == s.id) ≡ false) slots
    → is_listed (select p slots) s ≡ false
unfolding select exists
listed_none p s [] h = refl
listed_none p s (t ∷ slots) h =
    let e : (s.id == t.id) ≡ false = flip s.id t.id h.0 in
    elim (Bool-cases (p t)) [
      | inl f ↦ rw (f, e) (listed_none p s slots h.1)
      | inr f ↦ rw f (listed_none p s slots h.1)
    ]
  where
    flip : (a b : ℕ) → (b == a) ≡ false → (a == b) ≡ false
    flip a b h = ground arith

select_same :
    (p q : UploadSlot → Bool) (slots : List UploadSlot)
    → All (λ t. p t ≡ q t) slots
    → select p slots ≡ select q slots
unfolding select
select_same p q [] h = refl
select_same p q (t ∷ slots) h =
    rw h.0 (ap (λ r. if q t then t ∷ r else r) (select_same p q slots h.1))

-- A row that no listed row shares its key with is judged by the rest of the list.
select_listed :
    (p : UploadSlot → Bool) (slots : List UploadSlot)
    → IsUnique slots
    → select (λ s. not (is_listed (select p slots) s)) slots ≡ select (λ s. not (p s)) slots
unfolding select exists
select_listed p [] u = refl
select_listed p (s ∷ slots) u = elim (Bool-cases (p s)) [
  | inl e ↦
      ap (λ stale. select (λ t. not (is_listed stale t)) (s ∷ slots)) (taken e)
      ∙ rw ((==_iff s.id s.id).1 refl, e)
          (select_same (λ t. not (is_listed (s ∷ select p slots) t))
              (λ t. not (is_listed (select p slots) t)) slots
              (All-map (λ t. (t.id == s.id) ≡ false)
                (λ t. not (is_listed (s ∷ select p slots) t) ≡ not (is_listed (select p slots) t))
                slots (λ t h. ap (λ b. not (b || is_listed (select p slots) t)) h) u.0)
            ∙ select_listed p slots u.1)
  | inr e ↦
      ap (λ stale. select (λ t. not (is_listed stale t)) (s ∷ slots)) (left e)
      ∙ rw (listed_none p s slots u.0, e) (ap (λ r. s ∷ r) (select_listed p slots u.1))
]
  where
    taken : p s ≡ true → select p (s ∷ slots) ≡ s ∷ select p slots
    taken e = rw e

    left : p s ≡ false → select p (s ∷ slots) ≡ select p slots
    left e = rw e

-- A slot that the purge has to leave: one that was consumed, or one that was issued in the last day.
abbrev pub stays : ℕ → UploadSlot → Bool
stays now s = is_some s.consumed_at || leb now (s.created_at + 86400)

stays-stale : (now : ℕ) (s : UploadSlot) → not (is_stale_slot now s) ≡ stays now s
stays-stale now s = ground arith

count_split :
    {A : Type 0} (p : A → Bool) (xs : List A)
    → length (select p xs) + length (select (λ x. not (p x)) xs) ≡ length xs
unfolding select
count_split p [] = omega arith
count_split p (x ∷ xs) = elim (Bool-cases (p x)) [
  | inl e ↦ rw e (omega (arith, count_split p xs))
  | inr e ↦ rw e (omega (arith, count_split p xs))
]

-- The world behind a purge: its slots, and everything else of its database.
pub record IsPurged (now : ℕ) (world after : World) : Type 0 where
  pub slots : after.db.slots ≡ select (stays now) world.db.slots
  pub rest : after.db ≡ record world.db { slots = after.db.slots }

purge_slots-rest :
    (deletes : String → Bool) (stale : List UploadSlot) (world : World)
    → (purge_slots deletes stale world).db
      ≡ record world.db { slots = (purge_slots deletes stale world).db.slots }
unfolding purge_slots
purge_slots-rest deletes [] world = refl
purge_slots-rest deletes (s ∷ stale) world = purge_slots-rest deletes stale _

-- What a run of the purge leaves, by whether it deletes.
abbrev pub Left : Bool → ℕ → World → World → Type 0
Left true now world after = IsPurged now world after
Left false now world after = after ≡ world

-- The purge keeps every slot that was consumed and every slot that was issued in the last 24 hours, and
-- reports how many are left of the others. Where it deletes, exactly those that it keeps stand in the
-- table afterwards, in their order, and nothing else of the database changes; in a dry run neither
-- the database nor the storage changes. The slots have unique primary keys.
pub purge_stale_uploads-Left :
    (now : ℕ) (delete : Bool) (deletes : String → Bool) (world : World)
    → IsUnique world.db.slots
    → ((purge_stale_uploads now delete deletes world).0 + length (select (stays now) world.db.slots)
        ≡ length world.db.slots)
      × Left delete now world (purge_stale_uploads now delete deletes world).1
unfolding purge_stale_uploads
purge_stale_uploads-Left now delete deletes world u = (
  ap (λ (xs : List UploadSlot). length (select (is_stale_slot now) world.db.slots) + length xs)
        (sym kept)
      ∙ count_split (is_stale_slot now) world.db.slots,
  left delete,
)
  where
    kept :
        select (λ s. not (is_stale_slot now s)) world.db.slots ≡ select (stays now) world.db.slots
    kept = select_ext (λ s. not (is_stale_slot now s)) (stays now) world.db.slots (stays-stale now)

    left : (b : Bool) → Left b now world (purge_stale_uploads now b deletes world).1
    left true = record {
      slots =
          purge_slots-slots deletes (select (is_stale_slot now) world.db.slots) world
          ∙ select_listed (is_stale_slot now) world.db.slots u
          ∙ kept;
      rest = purge_slots-rest deletes (select (is_stale_slot now) world.db.slots) world;
    }
    left false = refl

-- ===== src/Uploads/Services/Slots.antt =====
-- A slot is claimed once (apps/uploads/services.py).
use backend_live_canvas.Prelude.{
  ℕ, ◌≡◌, refl, sym, ◌∙◌, ap, subst, inl, inr, String, true, none, some, List, ◌==◌, ==_iff, All,
  All-map, first-update, first-All, replaced, map_option, str_eq, Bool-cases, Option-cases,
}
use backend_live_canvas.Core.Errors.{Exc}
use backend_live_canvas.Core.Exec.{Result, ok, err, ok_pair}
use backend_live_canvas.Uploads.Models.{UploadPurpose, UploadSlot, purpose_eq}
use backend_live_canvas.Uploads.Services.{
  unknown_key, registered, other_purpose, slot_by_key, consumed, save_slot, consume_slot,
}
use backend_live_canvas.Wallpapers.Models.{Db}

-- Slots with one primary key have one upload key: primary keys are unique.
abbrev pub IsKeyed : List UploadSlot → Type 0
IsKeyed slots = All (λ u. All (λ v. v.id ≡ u.id → v.key ≡ u.key) slots) slots

-- What a claim that succeeded found, and left.
pub record Claimed (now : ℕ) (key : String) (expected : UploadPurpose) (db : Db) (slot : UploadSlot)
    (db' : Db) : Type 0 where
  pub before : UploadSlot
  pub found : slot_by_key key db.slots ≡ some before
  pub fresh : before.consumed_at ≡ none
  pub purpose : purpose_eq before.purpose expected ≡ true
  pub slot_is : slot ≡ consumed now before
  pub db_is : db' ≡ save_slot (consumed now before) db

module _ (now : ℕ) (key : String) (expected : UploadPurpose) (db : Db) where
  pub consume_slot-Claimed :
      {slot : UploadSlot} {db' : Db}
      → consume_slot now key expected db ≡ (ok slot, db')
      → Claimed now key expected db slot db'
  unfolding consume_slot
  consume_slot-Claimed {slot} {db'} h = elim (Option-cases (slot_by_key key db.slots)) [
    | inl e ↦ absurd (no unknown_key db (rw (e, consume_slot) at h))
    | inr (s, e) ↦ elim (Option-cases s.consumed_at) [
      | inr (t, f) ↦ absurd (no registered db (rw f at (rw (e, consume_slot) at h)))
      | inl f ↦ elim (Bool-cases (purpose_eq s.purpose expected)) [
        | inr g ↦ absurd (no other_purpose db (rw g at (rw f at (rw (e, consume_slot) at h))))
        | inl g ↦
            let q =
              ok_pair (consumed now s) (save_slot (consumed now s) db)
                (rw g at (rw f at (rw (e, consume_slot) at h))) in
            record {
              before = s;
              found = e;
              fresh = f;
              purpose = g;
              slot_is = sym q.0;
              db_is = sym q.1;
            }
      ]
    ]
  ]
    where
      no : (x : Exc) (d : Db) → ◌≡◌ {A = Result UploadSlot × Db} (err x, d) (ok slot, db') → ⊥
      no x d q = cc

pub slot-saved :
    (now : ℕ) (key : String) (db : Db) (s : UploadSlot)
    → IsKeyed db.slots
    → slot_by_key key db.slots ≡ some s
    → slot_by_key key (save_slot (consumed now s) db).slots ≡ some (consumed now s)
slot-saved now key db s w e =
    first-update (λ u. str_eq u.key key) (λ u. u.id == s.id) (λ _. consumed now s) db.slots
      (All-map (λ v. v.id ≡ s.id → v.key ≡ s.key)
        (λ v.
          str_eq (replaced (λ u. u.id == s.id) (λ _. consumed now s) v).key key ≡ str_eq v.key key)
        db.slots (λ v f. kept v f)
        (first-All (λ u. All (λ v. v.id ≡ u.id → v.key ≡ u.key) db.slots) (λ u. str_eq u.key key)
          db.slots w e))
    ∙ ap (map_option (replaced (λ u. u.id == s.id) (λ _. consumed now s))) e
    ∙ rw ((==_iff s.id s.id).1 refl)
  where
    kept :
        (v : UploadSlot)
        → (v.id ≡ s.id → v.key ≡ s.key)
        → str_eq (replaced (λ u. u.id == s.id) (λ _. consumed now s) v).key key ≡ str_eq v.key key
    kept v f = elim (Bool-cases (v.id == s.id)) [
      | inl g ↦ rw g (ap (λ k. str_eq k key) (sym (f ((==_iff v.id s.id).0 g))))
      | inr g ↦ rw g
    ]

-- Once a claim of an upload key succeeded, no later claim of the key does, at any time and for any
-- purpose: it is refused as already registered and changes nothing. The slots have unique primary
-- keys.
pub consume_slot_once :
    (now : ℕ) (key : String) (expected : UploadPurpose) (db : Db) {slot : UploadSlot} {db' : Db}
    → IsKeyed db.slots
    → consume_slot now key expected db ≡ (ok slot, db')
    → (later : ℕ) (other : UploadPurpose) → consume_slot later key other db' ≡ (err registered, db')
unfolding consume_slot
consume_slot_once now key expected db {slot} {db'} w h later other =
    let c = consume_slot-Claimed now key expected db h in
    subst (λ d. consume_slot later key other d ≡ (err registered, d)) (sym c.db_is)
      (rw (slot-saved now key db c.before w c.found, consume_slot))

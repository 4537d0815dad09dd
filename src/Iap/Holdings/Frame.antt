-- ===== src/Iap/Holdings/Frame.antt =====
-- `_write_entitlement` (apps/iap/services.py) writes one subscription, and leaves every other one as it
-- was.
use backend_live_canvas.Prelude.{
  ℕ, String, ◌≡◌, refl, ◌∙◌, ap, ap₂, inl, inr, false, true, ◌&&◌, Option, none, some, [], ◌∷◌,
  ◌==◌, ==_iff, first, first-All, first_sound, first-append, or_first, map_option, str_eq,
  Bool-cases, Option-cases,
}
use backend_live_canvas.Iap.Models.{
  IapPlatform, SubscriptionEntitlement, StoreSubscription, IapDb, platform_eq,
}
use backend_live_canvas.Iap.Tables.{find_entitlement, is_subscription}
use backend_live_canvas.Iap.Verify.{new_entitlement, get_or_create, write_entitlement}
use backend_live_canvas.Iap.Verify.Invariant.{IsFound, saved, same_row, by_key-save}
use backend_live_canvas.Iap.Verify.Written.{
  IsWellFormed, got_row, got_db, new_row, new_db, got, new_row-SameKey,
}
use backend_live_canvas.Iap.Holdings.{is_key}

or_first-none : {A : Type 0} (x : Option A) → or_first x none ≡ x
or_first-none none = refl
or_first-none (some a) = refl

map_option_id :
    {A : Type 0} (f : A → A) (x : Option A) → ((a : A) → x ≡ some a → f a ≡ a) → map_option f x ≡ x
map_option_id f none h = refl
map_option_id f (some a) h = ap some (h a refl)

module _ (now : ℕ) (sub : StoreSubscription) (device incoming : String) (event_at : Option ℕ)
    (db : IapDb) (wf : IsWellFormed db) (p : IapPlatform) (o : String)
    (other : is_key sub p o ≡ false) where
  got_db-other :
      find_entitlement p o (get_or_create now sub device db).1.entitlements
      ≡ find_entitlement p o db.entitlements
  unfolding get_or_create
  got_db-other =
      elim (Option-cases
        (find_entitlement sub.platform sub.original_transaction_id db.entitlements)) [
          | inr (e, f) ↦ rw (f, get_or_create) refl
          | inl f ↦
              rw (f, get_or_create)
                (first-append (is_subscription p o) db.entitlements
                    (new_entitlement now db.next_id sub device ∷ [])
                  ∙ (unfold new_entitlement first in
                      rw other (or_first-none (find_entitlement p o db.entitlements))))
        ]

  abbrev row : SubscriptionEntitlement
  row = new_row now sub device incoming event_at db wf

  abbrev before : SubscriptionEntitlement
  before = got_row now sub device incoming event_at db wf

  abbrev table : IapDb
  table = got_db now sub device incoming event_at db wf

  saved-other :
      (x : SubscriptionEntitlement)
      → find_entitlement p o table.entitlements ≡ some x
      → saved row x ≡ x
  saved-other x f = elim (Bool-cases (x.id == row.id)) [
    | inr h ↦ rw h refl
    | inl h ↦
        let g = got now sub device incoming event_at db wf in
        let there =
          first-All (IsFound table.entitlements table.next_id) _ table.entitlements g.keyed f in
        let same : x ≡ before =
          same_row table.entitlements table.next_id before row g.keyed g.found
            (new_row-SameKey now sub device incoming event_at db wf) x there
            ((==_iff x.id row.id).0 h) in
        let key : is_subscription p o x ≡ true =
          first_sound (is_subscription p o) table.entitlements f in
        let key_other : is_subscription p o x ≡ false =
          ap (λ (y : SubscriptionEntitlement). is_subscription p o y) same
          ∙ ap₂ (λ (q : IapPlatform) (u : String). platform_eq q p && str_eq u o) g.platform
              g.original
          ∙ other in
        absurd (cc)
  ]

  -- Another subscription is found as before.
  pub find_entitlement-write_other :
      find_entitlement p o (new_db now sub device incoming event_at db wf).entitlements
      ≡ find_entitlement p o db.entitlements
  unfolding write_entitlement
  find_entitlement-write_other =
      by_key-save table.entitlements table.next_id before row
        (got now sub device incoming event_at db wf).keyed
        (got now sub device incoming event_at db wf).found
        (new_row-SameKey now sub device incoming event_at db wf) p o
      ∙ map_option_id (saved row) (find_entitlement p o table.entitlements) saved-other
      ∙ got_db-other

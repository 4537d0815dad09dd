-- ===== src/Iap/Holdings/Refines.antt =====
-- The operations of apps/iap/services.py refine the holdings.
use backend_live_canvas.Prelude.{
  ℕ, String, ◌≡◌, ◌∙◌, ap, subst₂, inl, inr, Option, some, map_option, is_some, str_eq, str_eq_iff,
  and_true, Bool-cases, Option-cases, if◌then◌else◌, arith,
}
use backend_live_canvas.Iap.Models.{
  IapPlatform, SubscriptionEntitlement, StoreSubscription, IapDb, platform_eq, platform_eq_iff,
}
use backend_live_canvas.Iap.Tables.{find_entitlement, find_event}
use backend_live_canvas.Iap.Verify.{refreshed, get_or_create, write_entitlement}
use backend_live_canvas.Iap.Verify.Written.{IsWellFormed, new_row_lem, find_entitlement-write}
use backend_live_canvas.Iap.Holdings.{is_key, reported, put, holding, view_held, view}
use backend_live_canvas.Iap.Holdings.Frame.{find_entitlement-write_other}

refreshed-reported :
    (now : ℕ) (sub : StoreSubscription) (device : String) (event_at : Option ℕ) (db : IapDb)
    → holding (refreshed now sub device event_at (get_or_create now sub device db).0)
      ≡ reported sub event_at (view_held db sub.platform sub.original_transaction_id)
unfolding get_or_create refreshed
refreshed-reported now sub device event_at db =
    elim (Option-cases
      (find_entitlement sub.platform sub.original_transaction_id db.entitlements)) [
        | inl f ↦ rw (f, get_or_create) (ground arith)
        | inr (e, f) ↦ rw (f, get_or_create) (ground arith)
      ]

module _ (now : ℕ) (sub : StoreSubscription) (device incoming : String) (event_at : Option ℕ)
    (db : IapDb) (wf : IsWellFormed db) where
  abbrev after : IapDb
  after = (write_entitlement now sub device incoming event_at db).1

  held_self :
      view_held after sub.platform sub.original_transaction_id
      ≡ some (reported sub event_at (view_held db sub.platform sub.original_transaction_id))
  held_self =
      ap (map_option holding) (find_entitlement-write now sub device incoming event_at db wf)
      ∙ ap (λ (e : SubscriptionEntitlement). some (holding e))
          (new_row_lem now sub device incoming event_at db wf)
      ∙ ap some (refreshed-reported now sub device event_at db)

  held_after :
      (p : IapPlatform) (o : String)
      → view_held after p o ≡ (
          if is_key sub p o
          then some (reported sub event_at (view_held db p o))
          else view_held db p o)
  held_after p o = elim (Bool-cases (is_key sub p o)) [
    | inr h ↦ rw h (
        ap (map_option holding)
          (find_entitlement-write_other now sub device incoming event_at db wf p o h))
    | inl h ↦
        let (q, u) =
          and_true (platform_eq sub.platform p) (str_eq sub.original_transaction_id o) h in
        rw h (
          subst₂
            (λ (p : IapPlatform) (o : String).
              view_held after p o ≡ some (reported sub event_at (view_held db p o)))
            ((platform_eq_iff sub.platform p).0 q) ((str_eq_iff sub.original_transaction_id o).0 u)
            held_self)
  ]

  seen_after : after.notifications ≡ db.notifications
  unfolding write_entitlement get_or_create
  seen_after = ground arith

  -- Writing a store state writes the holding of its subscription, and no other.
  pub write_entitlement-put : view after ≡ put sub event_at (view db)
  unfolding put
  write_entitlement-put = λ i. record {
    held = λ p o. held_after p o i;
    seen = λ p n. is_some (find_event p n (seen_after i));
  }

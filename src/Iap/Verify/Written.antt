-- ===== src/Iap/Verify/Written.antt =====
-- What `_write_entitlement` (apps/iap/services.py) leaves: one row for the subscription with the
-- store's fields, the other rows as they were, and well-formed tables.
use backend_live_canvas.Prelude.{
  ℕ, String, ◌≡◌, refl, sym, ◌∙◌, ap, ap₂, subst, inl, inr, Option, some, List, [], ◌∷◌, ◌==◌, All,
  first-append, Option-cases,
}
use backend_live_canvas.Iap.Models.{
  IapPlatform, SubscriptionEntitlement, EntitlementTransaction, StoreSubscription, IapDb,
}
use backend_live_canvas.Iap.Tables.{find_entitlement}
use backend_live_canvas.Iap.Verify.{
  new_entitlement, refreshed, get_or_create, index_ids, chain_ids, write_entitlement,
}
use backend_live_canvas.Iap.Verify.Index.{ref_row}
use backend_live_canvas.Iap.Verify.Invariant.{
  IsFound, IsKeyed, SameKey, saved, IsFound-of_by_id, IsFound-of_by_key, append-IsKeyed,
  new-IsFound, by_id-save, saved-SameKey, save-IsKeyed, save-IsFound,
}
use backend_live_canvas.Iap.Verify.Refs.{
  HasEntitlement, IsOnlyRef, Keeps, index_ids-All, index_ids-only, refs-Keeps,
}

pub record IsWellFormed (db : IapDb) : Type 0 where
  pub keyed : IsKeyed db.entitlements db.next_id
  pub refs : All (HasEntitlement db.entitlements) db.transactions
  pub only : All (IsOnlyRef db.transactions) db.transactions

-- The row that `get_or_create` hands over, and the tables behind it.
pub record Got (db : IapDb) (sub : StoreSubscription) (e : SubscriptionEntitlement) (db' : IapDb)
    : Type 0 where
  pub keyed : IsKeyed db'.entitlements db'.next_id
  pub found : IsFound db'.entitlements db'.next_id e
  pub platform : e.platform ≡ sub.platform
  pub original : e.original_transaction_id ≡ sub.original_transaction_id
  pub transactions : db'.transactions ≡ db.transactions
  pub keeps : Keeps db.entitlements db'.entitlements

get_or_create-Got :
    (now : ℕ) (sub : StoreSubscription) (device : String) (db : IapDb)
    → IsKeyed db.entitlements db.next_id
    → Got db sub (get_or_create now sub device db).0 (get_or_create now sub device db).1
unfolding get_or_create
get_or_create-Got now sub device db h =
    elim (Option-cases
      (find_entitlement sub.platform sub.original_transaction_id db.entitlements)) [
        | inr (e, f) ↦
            let (there, p, o) =
              IsFound-of_by_key db.entitlements db.next_id sub.platform sub.original_transaction_id
                h f in
            rw (f, get_or_create)
              (record {
                keyed = h;
                found = there;
                platform = p;
                original = o;
                transactions = refl;
                keeps = λ i x g. (x, g, record { id = refl; platform = refl; original = refl });
              })
        | inl f ↦
            let e = new_entitlement now db.next_id sub device in
            rw (f, get_or_create)
              (record {
                keyed = append-IsKeyed db.entitlements db.next_id e refl h f;
                found = new-IsFound db.entitlements db.next_id e refl h f;
                platform = refl;
                original = refl;
                transactions = refl;
                keeps = λ i x g. (
                  x,
                  first-append (λ r. r.id == i) db.entitlements (e ∷ []) ∙ (rw g),
                  record { id = refl; platform = refl; original = refl },
                );
              })
      ]

refreshed-SameKey :
    (now : ℕ) (sub : StoreSubscription) (device : String) (event_at : Option ℕ)
    (e : SubscriptionEntitlement)
    → SameKey (refreshed now sub device event_at e) e
unfolding refreshed
refreshed-SameKey now sub device event_at e = record { id = refl; platform = refl; original = refl }

module _ (now : ℕ) (sub : StoreSubscription) (device incoming : String) (event_at : Option ℕ)
    (db : IapDb) (wf : IsWellFormed db) where
  abbrev pub got_row : SubscriptionEntitlement
  got_row = (get_or_create now sub device db).0

  abbrev pub got_db : IapDb
  got_db = (get_or_create now sub device db).1

  abbrev pub new_row : SubscriptionEntitlement
  new_row = (write_entitlement now sub device incoming event_at db).0

  abbrev pub new_db : IapDb
  new_db = (write_entitlement now sub device incoming event_at db).1

  -- The row that is returned and saved.
  pub new_row_lem : new_row ≡ refreshed now sub device event_at got_row
  unfolding write_entitlement
  new_row_lem = refl

  pub got : Got db sub got_row got_db
  got = get_or_create-Got now sub device db wf.keyed

  pub new_row-SameKey : SameKey new_row got_row
  unfolding write_entitlement
  new_row-SameKey = refreshed-SameKey now sub device event_at got_row

  pub write-IsKeyed : IsKeyed new_db.entitlements new_db.next_id
  unfolding write_entitlement
  write-IsKeyed =
      save-IsKeyed got_db.entitlements got_db.next_id got_row new_row got.keyed got.found
        new_row-SameKey

  pub write-Keeps : Keeps db.entitlements new_db.entitlements
  unfolding write_entitlement
  write-Keeps i x f =
      let (y, g, s) = got.keeps i x f in
      let (there, _) = IsFound-of_by_id got_db.entitlements got_db.next_id i got.keyed g in
      let s' =
        saved-SameKey got_db.entitlements got_db.next_id got_row new_row got.keyed got.found
          new_row-SameKey y there in
      (
        saved new_row y,
        by_id-save got_db.entitlements got_db.next_id got_row new_row got.keyed got.found
              new_row-SameKey i
            ∙ (rw g),
        record {
          id = s'.id ∙ s.id;
          platform = s'.platform ∙ s.platform;
          original = s'.original ∙ s.original;
        },
      )

  -- The saved row is found by its primary key and by its subscription.
  pub new_row-IsFound : IsFound new_db.entitlements new_db.next_id new_row
  unfolding write_entitlement
  new_row-IsFound =
      save-IsFound got_db.entitlements got_db.next_id got_row new_row got.keyed got.found
        new_row-SameKey

  pub new_row-platform : new_row.platform ≡ sub.platform
  new_row-platform = new_row-SameKey.platform ∙ got.platform

  pub new_row-original : new_row.original_transaction_id ≡ sub.original_transaction_id
  new_row-original = new_row-SameKey.original ∙ got.original

  -- The subscription is found at the written row.
  pub find_entitlement-write :
      find_entitlement sub.platform sub.original_transaction_id new_db.entitlements ≡ some new_row
  find_entitlement-write =
      ap₂ (λ (q : IapPlatform) (o : String). find_entitlement q o new_db.entitlements)
        (sym new_row-platform) (sym new_row-original)
      ∙ new_row-IsFound.by_key

  -- The index after the write.
  pub transactions-write :
      new_db.transactions
      ≡ index_ids sub.platform new_row.id (chain_ids sub incoming) db.transactions
  unfolding write_entitlement
  transactions-write =
      ap
        (λ (ts : List EntitlementTransaction).
          index_ids sub.platform new_row.id (chain_ids sub incoming) ts)
        got.transactions

  new_row-HasEntitlement :
      (txn : String) → HasEntitlement new_db.entitlements (ref_row sub.platform new_row.id txn)
  new_row-HasEntitlement txn = (new_row, new_row-IsFound.by_id, new_row-platform)

  -- The tables stay well-formed.
  pub write-IsWellFormed : IsWellFormed new_db
  write-IsWellFormed = record {
    keyed = write-IsKeyed;
    refs = subst (All (HasEntitlement new_db.entitlements)) (sym transactions-write) (
        index_ids-All (HasEntitlement new_db.entitlements) sub.platform new_row.id
          new_row-HasEntitlement (chain_ids sub incoming) db.transactions
          (refs-Keeps db.entitlements new_db.entitlements db.transactions write-Keeps wf.refs));
    only =
        subst (λ ts. All (IsOnlyRef ts) ts) (sym transactions-write)
          (index_ids-only sub.platform new_row.id (chain_ids sub incoming) db.transactions wf.only);
  }

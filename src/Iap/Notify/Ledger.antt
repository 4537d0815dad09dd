-- ===== src/Iap/Notify/Ledger.antt =====
-- The ledger of notifications (apps/iap/services.py, `apply_notification`): what a delivery leaves,
-- and that a notification is applied once.
use backend_live_canvas.Prelude.{
  ℕ, ◌≡◌, refl, sym, ◌∙◌, ap, subst, subst₂, All, inl, inr, Option, none, some, [], ◌∷◌, ◌++◌,
  first, first-append, str_eq_refl, Bool-cases, Option-cases, arith,
}
use backend_live_canvas.Core.Exec.{Result, ok, err, pure, atomic, ok_pair, ◌>>◌}
use backend_live_canvas.Iap.Models.{
  StoreNotificationEvent, NotificationOutcome, StoreSubscription, NotificationEvent, IapDb,
  platform_eq_iff,
}
use backend_live_canvas.Iap.Tables.{find_entitlement, find_event, is_event, audit}
use backend_live_canvas.Iap.Verify.{write_entitlement}
use backend_live_canvas.Iap.Verify.Invariant.{IsKeyed}
use backend_live_canvas.Iap.Verify.Refs.{HasEntitlement, IsOnlyRef}
use backend_live_canvas.Iap.Verify.Written.{IsWellFormed, write-IsWellFormed}
use backend_live_canvas.Iap.Notify.{
  Applied, is_stale, apply_subscription, event_row, add_event, audit_applied, apply_new,
  apply_notification,
}

-- A database but for its audit trail.
pub record SameTables (a b : IapDb) : Type 0 where
  pub entitlements : a.entitlements ≡ b.entitlements
  pub next_id : a.next_id ≡ b.next_id
  pub transactions : a.transactions ≡ b.transactions
  pub notifications : a.notifications ≡ b.notifications

SameTables-refl : (db : IapDb) → SameTables db db
SameTables-refl db = record {
  entitlements = refl;
  next_id = refl;
  transactions = refl;
  notifications = refl;
}

audit_applied-SameTables :
    (now : ℕ) (event : NotificationEvent) (a : Applied) (db : IapDb)
    → SameTables (audit_applied now event a db).1 db
unfolding audit_applied audit
audit_applied-SameTables now event (some e, NotificationOutcome.applied) db = record {
  entitlements = refl;
  next_id = refl;
  transactions = refl;
  notifications = refl;
}
audit_applied-SameTables now event _ db = SameTables-refl db

module _ (now : ℕ) (event : NotificationEvent) (db : IapDb) where
  abbrev pub step : Applied × IapDb
  step = apply_subscription now event.store_event_at event.subscription db

  abbrev pub ledger_row : StoreNotificationEvent
  ledger_row = event_row now event step.0.1

  abbrev audited : Result (Unit {0}) × IapDb
  audited = audit_applied now event step.0 (add_event ledger_row step.1)

-- What is left of a transaction that ends in `r`, with the tables `t`, and began with `db`.
abbrev committed :
    StoreNotificationEvent
    → IapDb
    → Result (Unit {0}) × IapDb
    → Result StoreNotificationEvent × IapDb
committed row db (ok _, t) = (ok row, t)
committed row db (err x, t) = (err x, db)

settled :
    (row : StoreNotificationEvent) (db : IapDb) (m : Result (Unit {0}) × IapDb)
    → atomic ((λ (_ : IapDb). m) >> pure row) db ≡ committed row db m
settled row db (ok _, t) = refl
settled row db (err x, t) = refl

pub apply_notification_fresh :
    (now : ℕ) (event : NotificationEvent) (db : IapDb)
    → find_event event.platform event.store_event_id db.notifications ≡ none
    → apply_notification now event db
      ≡ committed (ledger_row now event db) db (audited now event db)
unfolding apply_notification apply_new
apply_notification_fresh now event db h =
    rw h (settled (ledger_row now event db) db (audited now event db))

pub apply_notification_seen :
    (now : ℕ) (event : NotificationEvent) (db : IapDb) (row : StoreNotificationEvent)
    → find_event event.platform event.store_event_id db.notifications ≡ some row
    → apply_notification now event db ≡ (ok row, db)
unfolding apply_notification
apply_notification_seen now event db row h = rw h

committed_ok :
    (row : StoreNotificationEvent) (db : IapDb) (m : Result (Unit {0}) × IapDb)
    {r : StoreNotificationEvent} {db' : IapDb}
    → committed row db m ≡ (ok r, db')
    → (row ≡ r) × (m.1 ≡ db')
committed_ok row db (ok _, t) h = (cc, cc)
committed_ok row db (err x, t) h = absurd (cc)

-- A notification that was not seen before, where it is accepted: its row is returned, and the
-- tables are those of its branch with the row added to the ledger.
pub fresh_accepted :
    (now : ℕ) (event : NotificationEvent) (db : IapDb) {r : StoreNotificationEvent} {db' : IapDb}
    → find_event event.platform event.store_event_id db.notifications ≡ none
    → apply_notification now event db ≡ (ok r, db')
    → (ledger_row now event db ≡ r)
      × SameTables db' (add_event (ledger_row now event db) (step now event db).1)
fresh_accepted now event db h a =
    let (same, tables) =
      committed_ok (ledger_row now event db) db (audited now event db)
        (sym (apply_notification_fresh now event db h) ∙ a) in
    (
      same,
      subst (λ d. SameTables d (add_event (ledger_row now event db) (step now event db).1)) tables
          (audit_applied-SameTables now event (step now event db).0
            (add_event (ledger_row now event db) (step now event db).1)),
    )

-- The branches on the subscription leave the ledger alone.
pub step-notifications :
    (now : ℕ) (event_at : Option ℕ) (sub : Option StoreSubscription) (db : IapDb)
    → (apply_subscription now event_at sub db).1.notifications ≡ db.notifications
unfolding apply_subscription write_entitlement
step-notifications now event_at none db = refl
step-notifications now event_at (some sub) db = ground arith

row_found :
    (now : ℕ) (event : NotificationEvent) (db : IapDb)
    → first (is_event event.platform event.store_event_id) (ledger_row now event db ∷ [])
      ≡ some (ledger_row now event db)
unfolding first
row_found now event db =
    rw ((platform_eq_iff event.platform event.platform).1 refl, str_eq_refl event.store_event_id)

-- Delivering an accepted notification again, at any later time, changes nothing and returns the
-- row of the first delivery.
pub apply_notification_replay :
    (now later : ℕ) (event : NotificationEvent) (db : IapDb) {r : StoreNotificationEvent}
    {db' : IapDb}
    → apply_notification now event db ≡ (ok r, db')
    → apply_notification later event db' ≡ (ok r, db')
apply_notification_replay now later event db {r} {db'} a =
    elim (Option-cases (find_event event.platform event.store_event_id db.notifications)) [
      | inr (row, h) ↦
          let (x, d) = ok_pair row db (sym (apply_notification_seen now event db row h) ∙ a) in
          subst₂ (λ y t. apply_notification later event t ≡ (ok y, t)) x d
            (apply_notification_seen later event db row h)
      | inl h ↦
          let (x, t) = fresh_accepted now event db h a in
          apply_notification_seen later event db' r (
            ap (λ ns. find_event event.platform event.store_event_id ns)
              (t.notifications
                ∙ ap (λ ns. ns ++ ledger_row now event db ∷ [])
                    (step-notifications now event.store_event_at event.subscription db))
            ∙ first-append (is_event event.platform event.store_event_id) db.notifications
                (ledger_row now event db ∷ [])
            ∙ (rw h (row_found now event db))
            ∙ ap some x)
    ]

SameTables-IsWellFormed : (a b : IapDb) → SameTables a b → IsWellFormed b → IsWellFormed a
SameTables-IsWellFormed a b s w = record {
  keyed = subst₂ IsKeyed (sym s.entitlements) (sym s.next_id) w.keyed;
  refs =
      subst₂ (λ es rs. All (HasEntitlement es) rs) (sym s.entitlements) (sym s.transactions) w.refs;
  only = subst (λ rs. All (IsOnlyRef rs) rs) (sym s.transactions) w.only;
}

step-IsWellFormed :
    (now : ℕ) (event_at : Option ℕ) (sub : Option StoreSubscription) (db : IapDb)
    → IsWellFormed db
    → IsWellFormed (apply_subscription now event_at sub db).1
unfolding apply_subscription
step-IsWellFormed now event_at none db w = w
step-IsWellFormed now event_at (some sub) db w =
    elim (Option-cases
      (find_entitlement sub.platform sub.original_transaction_id db.entitlements)) [
        | inl h ↦ rw (h, apply_subscription) (write-IsWellFormed now sub "" "" event_at db w)
        | inr (e, h) ↦
            rw (h, apply_subscription)
              (elim (Bool-cases (is_stale e event_at)) [
                | inl old ↦ rw old w
                | inr new ↦ rw new (write-IsWellFormed now sub "" "" event_at db w)
              ])
      ]

committed-IsWellFormed :
    (row : StoreNotificationEvent) (db : IapDb) (m : Result (Unit {0}) × IapDb)
    → IsWellFormed db
    → IsWellFormed m.1
    → IsWellFormed (committed row db m).1
committed-IsWellFormed row db (ok _, t) w v = v
committed-IsWellFormed row db (err x, t) w v = w

-- A delivery keeps the tables well-formed, whatever its outcome.
pub apply_notification-IsWellFormed :
    (now : ℕ) (event : NotificationEvent) (db : IapDb)
    → IsWellFormed db
    → IsWellFormed (apply_notification now event db).1
apply_notification-IsWellFormed now event db w =
    elim (Option-cases (find_event event.platform event.store_event_id db.notifications)) [
      | inr (row, h) ↦ rw (apply_notification_seen now event db row h) w
      | inl h ↦
          let s = step-IsWellFormed now event.store_event_at event.subscription db w in
          rw (apply_notification_fresh now event db h) (
            committed-IsWellFormed (ledger_row now event db) db (audited now event db) w (
              SameTables-IsWellFormed (audited now event db).1
                (add_event (ledger_row now event db) (step now event db).1)
                (audit_applied-SameTables now event (step now event db).0
                  (add_event (ledger_row now event db) (step now event db).1))
                (record { keyed = s.keyed; refs = s.refs; only = s.only })))
    ]

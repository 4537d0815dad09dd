-- ===== src/Iap/Notify/Newest.antt =====
-- Dated notifications out of order (apps/iap/services.py, `apply_notification` and `_is_stale`).
use backend_live_canvas.Prelude.{
  ℕ, ◌≤◌, String, ◌≡◌, refl, sym, ◌∙◌, ap, ap₂, subst, subst₂, inl, inr, ◌⊎◌, Option-cases, true,
  false, Option, none, some, List, [], ◌∷◌, All, All-map, In, Bool-cases, arith,
}
use backend_live_canvas.Core.Exec.{Result, ok, err, ok_pair, atomic_err}
use backend_live_canvas.Iap.Holdings.{is_key}
use backend_live_canvas.Iap.Holdings.Frame.{find_entitlement-write_other}
use backend_live_canvas.Iap.Models.{
  IapPlatform, EntitlementStatus, SubscriptionEntitlement, StoreNotificationEvent,
  StoreSubscription, NotificationEvent, IapDb,
}
use backend_live_canvas.Iap.Tables.{find_entitlement, find_event}
use backend_live_canvas.Iap.Verify.{write_entitlement}
use backend_live_canvas.Iap.Verify.Written.{IsWellFormed, find_entitlement-write}
use backend_live_canvas.Iap.Notify.{is_stale, apply_subscription, apply_new, apply_notification}
use backend_live_canvas.Iap.Notify.Ledger.{
  fresh_accepted, apply_notification_seen, apply_notification-IsWellFormed,
}

-- The time and the status that a notification reports.
pub record Report : Type 0 where
  pub time : ℕ
  pub status : EntitlementStatus

-- The subscription has no entitlement, or one that no dated notification has written: as a
-- verification of its receipt creates it.
abbrev pub IsUndated : IapPlatform → String → List SubscriptionEntitlement → Type 0
IsUndated p o es =
    (find_entitlement p o es ≡ none)
    ⊎ ((e : SubscriptionEntitlement) × (find_entitlement p o es ≡ some e)
        × (e.last_store_event_at ≡ none))

-- A notification that is not about the subscription.
abbrev pub IsElsewhere : IapPlatform → String → Option StoreSubscription → Type 0
IsElsewhere p o none = Unit
IsElsewhere p o (some sub) = is_key sub p o ≡ false

-- The notifications from a time at which the subscription was undated, the last one first: new ones
-- about it that are dated and accepted, which make the history, repetitions, and any about another
-- subscription or none, whether they are accepted or fail. Notifications about it without a date, and
-- verifications of receipts in between, are no part of this.
pub data Delivered (p : IapPlatform) (o : String) : List Report → IapDb → Type 0 where
  start : (db : IapDb) → IsWellFormed db → IsUndated p o db.entitlements → Delivered p o [] db
  accepted :
      {history : List Report} {db db' : IapDb}
      → Delivered p o history db
      → (now : ℕ) (event : NotificationEvent) (sub : StoreSubscription) (x : Report)
        (r : StoreNotificationEvent)
      → event.subscription ≡ some sub
      → sub.platform ≡ p
      → sub.original_transaction_id ≡ o
      → event.store_event_at ≡ some x.time
      → sub.status ≡ x.status
      → find_event event.platform event.store_event_id db.notifications ≡ none
      → apply_notification now event db ≡ (ok r, db')
      → Delivered p o (x ∷ history) db'
  repeated :
      {history : List Report} {db db' : IapDb}
      → Delivered p o history db
      → (now : ℕ) (event : NotificationEvent) (r : StoreNotificationEvent)
      → find_event event.platform event.store_event_id db.notifications ≡ some r
      → apply_notification now event db ≡ (ok r, db')
      → Delivered p o history db'
  elsewhere :
      {history : List Report} {db db' : IapDb}
      → Delivered p o history db
      → (now : ℕ) (event : NotificationEvent) (r : Result StoreNotificationEvent)
      → IsElsewhere p o event.subscription
      → apply_notification now event db ≡ (r, db')
      → Delivered p o history db'

-- The entitlement has the time and the status of a report, and no report is newer than that one.
abbrev pub Newest : IapPlatform → String → List Report → List SubscriptionEntitlement → Type 0
Newest p o [] es = IsUndated p o es
Newest p o (x ∷ xs) es =
    (e : SubscriptionEntitlement) × (m : Report) × (find_entitlement p o es ≡ some e)
    × (e.last_store_event_at ≡ some m.time)
    × (e.status ≡ m.status)
    × In m (x ∷ xs)
    × All (λ y. y.time ≤ m.time) (x ∷ xs)

written_time :
    (now : ℕ) (sub : StoreSubscription) (t : ℕ) (db : IapDb)
    → (write_entitlement now sub "" "" (some t) db).0.last_store_event_at ≡ some t
unfolding write_entitlement
written_time now sub t db = refl

written_status :
    (now : ℕ) (sub : StoreSubscription) (t : ℕ) (db : IapDb)
    → (write_entitlement now sub "" "" (some t) db).0.status ≡ sub.status
unfolding write_entitlement
written_status now sub t db = refl

stale_le :
    (e : SubscriptionEntitlement) (last t : ℕ)
    → e.last_store_event_at ≡ some last
    → is_stale e (some t) ≡ true
    → t ≤ last
unfolding is_stale
stale_le e last t h old = ground arith

later_le :
    (e : SubscriptionEntitlement) (last t z : ℕ)
    → e.last_store_event_at ≡ some last
    → is_stale e (some t) ≡ false
    → z ≤ last
    → z ≤ t
unfolding is_stale
later_le e last t z h new l = ground arith

stale_undated :
    (e : SubscriptionEntitlement) (t : ℕ)
    → e.last_store_event_at ≡ none
    → is_stale e (some t) ≡ false
unfolding is_stale
stale_undated e t h = rw (h, is_stale) refl

-- A notification about another subscription leaves this one as it was.
find_entitlement-step_other :
    (p : IapPlatform) (o : String) (now : ℕ) (event_at : Option ℕ) (s : Option StoreSubscription)
    (db : IapDb)
    → IsWellFormed db
    → IsElsewhere p o s
    → find_entitlement p o (apply_subscription now event_at s db).1.entitlements
      ≡ find_entitlement p o db.entitlements
unfolding apply_subscription
find_entitlement-step_other p o now event_at none db w h = refl
find_entitlement-step_other p o now event_at (some sub) db w h =
    elim (Option-cases
      (find_entitlement sub.platform sub.original_transaction_id db.entitlements)) [
        | inl f ↦
            rw (f, apply_subscription)
              (find_entitlement-write_other now sub "" "" event_at db w p o h)
        | inr (e, f) ↦ elim (Bool-cases (is_stale e event_at)) [
          | inl g ↦ rw (f, apply_subscription) (rw g refl)
          | inr g ↦
              rw (f, apply_subscription)
                (rw g (find_entitlement-write_other now sub "" "" event_at db w p o h))
        ]
      ]

elsewhere-find_entitlement :
    (p : IapPlatform) (o : String) (now : ℕ) (event : NotificationEvent) (db : IapDb)
    (r : Result StoreNotificationEvent) {db' : IapDb}
    → IsWellFormed db
    → IsElsewhere p o event.subscription
    → apply_notification now event db ≡ (r, db')
    → find_entitlement p o db'.entitlements ≡ find_entitlement p o db.entitlements
unfolding apply_notification
elsewhere-find_entitlement p o now event db (err x) w h a =
    ap (λ (d : IapDb). find_entitlement p o d.entitlements)
      (atomic_err
        (λ d. elim (find_event event.platform event.store_event_id d.notifications) [
          | some existing ↦ (ok existing, d)
          | none ↦ apply_new now event d
        ])
        db a)
elsewhere-find_entitlement p o now event db (ok r) {db'} w h a =
    elim (Option-cases (find_event event.platform event.store_event_id db.notifications)) [
      | inr (s, f) ↦
          ap (λ (d : IapDb). find_entitlement p o d.entitlements)
            (sym (ok_pair s db (sym (apply_notification_seen now event db s f) ∙ a)).1)
      | inl f ↦
          ap (λ es. find_entitlement p o es) (fresh_accepted now event db f a).1.entitlements
          ∙ find_entitlement-step_other p o now event.store_event_at event.subscription db w h
    ]

Newest-same :
    (p : IapPlatform) (o : String) (history : List Report) (xs ys : List SubscriptionEntitlement)
    → find_entitlement p o ys ≡ find_entitlement p o xs
    → Newest p o history xs
    → Newest p o history ys
Newest-same p o [] xs ys q (inl n) = inl (q ∙ n)
Newest-same p o [] xs ys q (inr (e, f, u)) = inr (e, q ∙ f, u)
Newest-same p o (x ∷ history) xs ys q (e, m, f, t, s, i, all) = (e, m, q ∙ f, t, s, i, all)

module _ (now : ℕ) (sub : StoreSubscription) (x : Report) (db : IapDb) (w : IsWellFormed db)
    (reported : sub.status ≡ x.status) where
  abbrev Key : List Report → List SubscriptionEntitlement → Type 0
  Key = Newest sub.platform sub.original_transaction_id

  abbrev after : IapDb
  after = (apply_subscription now (some x.time) (some sub) db).1

  -- The new report is written over what was there.
  written_Newest :
      (xs : List Report)
      → All (λ y. y.time ≤ x.time) xs
      → Key (x ∷ xs) (write_entitlement now sub "" "" (some x.time) db).1.entitlements
  written_Newest xs older = (
    (write_entitlement now sub "" "" (some x.time) db).0,
    x,
    find_entitlement-write now sub "" "" (some x.time) db w,
    written_time now sub x.time db,
    written_status now sub x.time db ∙ reported,
    inl refl,
    (omega arith, older),
  )

  after_absent :
      find_entitlement sub.platform sub.original_transaction_id db.entitlements ≡ none
      → (apply_subscription now (some x.time) (some sub) db).1
        ≡ (write_entitlement now sub "" "" (some x.time) db).1
  unfolding apply_subscription
  after_absent h = rw (h, apply_subscription)

  module _ (e : SubscriptionEntitlement)
      (found : find_entitlement sub.platform sub.original_transaction_id db.entitlements
        ≡ some e) where
    after_newer :
        is_stale e (some x.time) ≡ false
        → (apply_subscription now (some x.time) (some sub) db).1
          ≡ (write_entitlement now sub "" "" (some x.time) db).1
    unfolding apply_subscription
    after_newer new = rw (found, apply_subscription) (rw new)

    after_older :
        is_stale e (some x.time) ≡ true
        → (apply_subscription now (some x.time) (some sub) db).1 ≡ db
    unfolding apply_subscription
    after_older old = rw (found, apply_subscription) (rw old)

  step-Newest : (xs : List Report) → Key xs db.entitlements → Key (x ∷ xs) after.entitlements
  step-Newest [] (inl h) =
      subst (λ d. Key (x ∷ []) d.entitlements) (sym (after_absent h)) (written_Newest [] tt)
  step-Newest [] (inr (e, f, u)) =
      subst (λ d. Key (x ∷ []) d.entitlements) (sym (after_newer e f (stale_undated e x.time u)))
        (written_Newest [] tt)
  step-Newest (y ∷ ys) (e, m, f, t, s, i, all) = elim (Bool-cases (is_stale e (some x.time))) [
    | inl old ↦
        subst (λ d. Key (x ∷ y ∷ ys) d.entitlements) (sym (after_older e f old))
          (e, m, f, t, s, inr i, (stale_le e m.time x.time t old, all))
    | inr new ↦
        subst (λ d. Key (x ∷ y ∷ ys) d.entitlements) (sym (after_newer e f new))
          (written_Newest (y ∷ ys) (
            All-map (λ z. z.time ≤ m.time) _ (y ∷ ys)
              (λ z l. later_le e m.time x.time z.time t new l) all))
  ]

-- Dated notifications about a subscription may come late, early or repeated, between notifications about
-- others: from a state in which no dated notification had written its entitlement, and while none
-- without a date and no verification of a receipt comes in between, it ends with the time and the
-- status of one of the reports than which none is newer.
pub Delivered-Newest :
    (p : IapPlatform) (o : String) {history : List Report} {db : IapDb}
    → Delivered p o history db
    → Newest p o history db.entitlements × IsWellFormed db
Delivered-Newest p o (start db w h) = (h, w)
Delivered-Newest p o
      (accepted {history = xs} {db = d} {db' = d'} del now event sub x r sub_is plat orig time
        status new acc) =
    let w = (Delivered-Newest p o del).1 in
    let same = fresh_accepted now event d new acc in
    (
      subst₂ (λ q u. Newest q u (x ∷ xs) d'.entitlements) plat orig
          (subst (Newest sub.platform sub.original_transaction_id (x ∷ xs))
            (sym (
              same.1.entitlements
              ∙ ap₂
                  (λ (a : Option ℕ) (b : Option StoreSubscription).
                    (apply_subscription now a b d).1.entitlements)
                  time sub_is))
            (step-Newest now sub x d w status xs (
              subst₂ (λ q u. Newest q u xs d.entitlements) (sym plat) (sym orig)
                (Delivered-Newest p o del).0))),
      subst (λ t. IsWellFormed t) (ap (λ q. q.1) acc)
          (apply_notification-IsWellFormed now event d w),
    )
Delivered-Newest p o (repeated {history = xs} {db = d} {db' = d'} del now event r seen acc) =
    let (n, w) = Delivered-Newest p o del in
    let unchanged : d ≡ d' =
      (ok_pair r d (sym (apply_notification_seen now event d r seen) ∙ acc)).1 in
    (subst (λ t. Newest p o xs t.entitlements) unchanged n, subst IsWellFormed unchanged w)
Delivered-Newest p o (elsewhere {history = xs} {db = d} {db' = d'} del now event r other acc) =
    let (n, w) = Delivered-Newest p o del in
    (
      Newest-same p o xs d.entitlements d'.entitlements
          (elsewhere-find_entitlement p o now event d r w other acc) n,
      subst (λ t. IsWellFormed t) (ap (λ q. q.1) acc)
          (apply_notification-IsWellFormed now event d w),
    )

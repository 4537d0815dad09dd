-- ===== src/Iap/Holdings/Delivered.antt =====
-- `apply_notification` (apps/iap/services.py) refines a delivery to the holdings.
use backend_live_canvas.Prelude.{
  ℕ, String, ◌≡◌, refl, sym, ◌∙◌, ap, inl, inr, false, true, ◌||◌, Option, none, some, List, [],
  ◌∷◌, ◌++◌, first, first-append, is_some, map_option, or_first, Bool, Bool-cases, Option-cases,
  arith,
}
use backend_live_canvas.Core.Errors.{Exc}
use backend_live_canvas.Core.Exec.{Exec, ok, err, Outcome, Outcome-of, ok_pair, atomic_err}
use backend_live_canvas.Iap.Models.{
  IapPlatform, SubscriptionEntitlement, StoreSubscription, StoreNotificationEvent,
  NotificationEvent, IapDb,
}
use backend_live_canvas.Iap.Tables.{find_entitlement, find_event, is_event}
use backend_live_canvas.Iap.Verify.Written.{IsWellFormed}
use backend_live_canvas.Iap.Notify.{
  is_stale, apply_subscription, add_event, apply_new, apply_notification,
}
use backend_live_canvas.Iap.Notify.Ledger.{
  ledger_row, step, step-notifications, SameTables, fresh_accepted, apply_notification_seen,
}
use backend_live_canvas.Iap.Holdings.{
  Holdings, accept, is_late, seen_with, deliver, holding, view_held, view_seen, view,
}
use backend_live_canvas.Iap.Holdings.Refines.{write_entitlement-put}

is_stale-is_late :
    (e : SubscriptionEntitlement) (event_at : Option ℕ)
    → is_stale e event_at ≡ is_late e.last_store_event_at event_at
unfolding is_stale
is_stale-is_late e event_at = ground arith

step-accept :
    (now : ℕ) (event_at : Option ℕ) (sub : Option StoreSubscription) (db : IapDb)
    → IsWellFormed db
    → view (apply_subscription now event_at sub db).1 ≡ accept event_at sub (view db)
unfolding apply_subscription accept
step-accept now event_at none db w = refl
step-accept now event_at (some sub) db w =
    let written = write_entitlement-put now sub "" "" event_at db w in
    elim (Option-cases
      (find_entitlement sub.platform sub.original_transaction_id db.entitlements)) [
        | inl f ↦ rw (f, apply_subscription) written
        | inr (e, f) ↦
            rw (f, apply_subscription)
              (rw (← is_stale-is_late e event_at) (elim (Bool-cases (is_stale e event_at)) [
                | inl old ↦ rw old refl
                | inr new ↦ rw new written
              ]))
      ]

is_some-or : {A : Type 0} (x y : Option A) → is_some (or_first x y) ≡ (is_some x || is_some y)
is_some-or none y = refl
is_some-or (some a) y = refl

found_or_not : {A : Type 0} (k : A → Bool) (x : A) → is_some (first k (x ∷ [])) ≡ k x
unfolding first
found_or_not k x = ground arith

seen_again :
    (event : NotificationEvent) (db : IapDb)
    → view_seen db event.platform event.store_event_id ≡ true
    → view db ≡ deliver event (view db)
unfolding deliver
seen_again event db h = rw h refl

raised_nothing :
    (now : ℕ) (event : NotificationEvent) (db : IapDb) {x : Exc} {db' : IapDb}
    → apply_notification now event db ≡ (err x, db')
    → db' ≡ db
unfolding apply_notification
raised_nothing now event db a =
    let body : Exec IapDb StoreNotificationEvent = λ d.
      elim (find_event event.platform event.store_event_id d.notifications) [
        | some existing ↦ (ok existing, d)
        | none ↦ apply_new now event d
      ] in
    atomic_err body db a

module _ (now : ℕ) (event : NotificationEvent) (db : IapDb) where
  abbrev recorded : IapDb
  recorded = add_event (ledger_row now event db) (step now event db).1

  recorded_seen :
      (p : IapPlatform) (i : String) → view_seen recorded p i ≡ seen_with event (view_seen db) p i
  recorded_seen p i =
      ap
        (λ (ns : List StoreNotificationEvent).
          is_some (find_event p i (ns ++ ledger_row now event db ∷ [])))
        (step-notifications now event.store_event_at event.subscription db)
      ∙ ap (λ (x : Option StoreNotificationEvent). is_some x)
          (first-append (is_event p i) db.notifications (ledger_row now event db ∷ []))
      ∙ is_some-or (first (is_event p i) db.notifications)
          (first (is_event p i) (ledger_row now event db ∷ []))
      ∙ ap (λ (b : Bool). is_some (find_event p i db.notifications) || b)
          (found_or_not (is_event p i) (ledger_row now event db))

  -- A notification that was not seen, where it is accepted.
  accepted_view :
      (db' : IapDb)
      → IsWellFormed db
      → view_seen db event.platform event.store_event_id ≡ false
      → SameTables db' recorded
      → view db' ≡ deliver event (view db)
  unfolding deliver
  accepted_view db' w new t =
      let held =
        ap (λ (l : Holdings). l.held)
          (step-accept now event.store_event_at event.subscription db w) in
      let same_held : view_held db' ≡ view_held recorded =
        λ i p o. map_option holding (find_entitlement p o (t.entitlements i)) in
      let same_seen : (p : IapPlatform) (n : String) → view_seen db' p n ≡ view_seen recorded p n =
        λ p n i. is_some (find_event p n (t.notifications i)) in
      rw new (λ i. record {
        held = (same_held ∙ held) i;
        seen = λ p n. (same_seen p n ∙ recorded_seen p n) i;
      })

-- A delivery that is accepted changes the holdings and the events that were seen as the
-- specification says: a repeated event and a late one change no holding, another one writes the
-- holding of its subscription alone. One that raises changes nothing.
pub apply_notification-deliver :
    (now : ℕ) (event : NotificationEvent) (db : IapDb)
    → IsWellFormed db
    → Outcome
        (λ row db'. view db' ≡ deliver event (view db))
        (λ x db'. db' ≡ db)
        (apply_notification now event db)
apply_notification-deliver now event db w =
    Outcome-of _ _ (apply_notification now event db)
      (λ row db' a.
        elim (Option-cases (find_event event.platform event.store_event_id db.notifications)) [
          | inr (old, h) ↦
              let (same, t) =
                ok_pair old db (sym (apply_notification_seen now event db old h) ∙ a) in
              ap (λ (d : IapDb). view d) (sym t) ∙ seen_again event db (ap (λ x. is_some x) h)
          | inl h ↦
              accepted_view now event db db' w (ap (λ x. is_some x) h)
                (fresh_accepted now event db h a).1
        ])
      (λ x db' a. raised_nothing now event db a)

-- ===== src/Iap/Holdings.antt =====
-- What the purchases promise, apart from their tables: a holding for each subscription, and the
-- store events that were seen. The operations of apps/iap/services.py are compared with it.
pub mod Frame
pub mod Refines
pub mod Verified
pub mod Delivered
use backend_live_canvas.Prelude.{
  ℕ, String, Bool, false, ◌&&◌, ◌||◌, Option, none, some, leb, is_some, map_option, str_eq,
  if◌then◌else◌,
}
use backend_live_canvas.Iap.Models.{
  IapPlatform, EntitlementStatus, SubscriptionEntitlement, StoreSubscription, NotificationEvent,
  IapDb, platform_eq,
}
use backend_live_canvas.Iap.Tables.{find_entitlement, find_event}

-- The state of a subscription, with the time of the newest event that was applied to it.
pub record Holding : Type 0 where
  pub product_id : String
  pub status : EntitlementStatus
  pub expires_at : Option ℕ
  pub auto_renew : Bool
  pub last_event : Option ℕ

pub record Holdings : Type 0 where
  pub held : IapPlatform → String → Option Holding
  pub seen : IapPlatform → String → Bool

abbrev pub is_key : StoreSubscription → IapPlatform → String → Bool
is_key sub p o = platform_eq sub.platform p && str_eq sub.original_transaction_id o

abbrev newest : Option ℕ → Option Holding → Option ℕ
newest (some t) h = some t
newest none none = none
newest none (some h) = h.last_event

-- The holding that a store reports over what was held.
abbrev pub reported : StoreSubscription → Option ℕ → Option Holding → Holding
reported sub event_at h = record {
  product_id = sub.product_id;
  status = sub.status;
  expires_at = sub.expires_at;
  auto_renew = sub.auto_renew;
  last_event = newest event_at h;
}

-- The one subscription is written, and no other.
unfoldable pub put : StoreSubscription → Option ℕ → Holdings → Holdings
put sub event_at l = record l {
  held = λ p o. if is_key sub p o then some (reported sub event_at (l.held p o)) else l.held p o;
}

-- An event is late if it is not newer than the last one.
abbrev pub is_late : Option ℕ → Option ℕ → Bool
is_late none t = false
is_late (some last) none = false
is_late (some last) (some t) = leb t last

abbrev pub is_late_for : Option ℕ → Option Holding → Bool
is_late_for event_at none = false
is_late_for event_at (some h) = is_late h.last_event event_at

unfoldable pub accept : Option ℕ → Option StoreSubscription → Holdings → Holdings
accept event_at none l = l
accept event_at (some sub) l =
    if is_late_for event_at (l.held sub.platform sub.original_transaction_id)
    then l
    else put sub event_at l

abbrev pub seen_with :
    NotificationEvent → (IapPlatform → String → Bool) → IapPlatform → String → Bool
seen_with event seen p i =
    seen p i || (platform_eq event.platform p && str_eq event.store_event_id i)

-- A notification that was seen does nothing; another is seen from now on, and is accepted.
unfoldable pub deliver : NotificationEvent → Holdings → Holdings
unfolding accept
deliver event l =
    if l.seen event.platform event.store_event_id
    then l
    else record (accept event.store_event_at event.subscription l) { seen = seen_with event l.seen }

-- ---------------------------------------------------------------- the view of the tables

abbrev pub holding : SubscriptionEntitlement → Holding
holding e = record {
  product_id = e.product_id;
  status = e.status;
  expires_at = e.expires_at;
  auto_renew = e.auto_renew;
  last_event = e.last_store_event_at;
}

abbrev pub view_held : IapDb → IapPlatform → String → Option Holding
view_held db p o = map_option holding (find_entitlement p o db.entitlements)

abbrev pub view_seen : IapDb → IapPlatform → String → Bool
view_seen db p i = is_some (find_event p i db.notifications)

abbrev pub view : IapDb → Holdings
view db = record { held = view_held db; seen = view_seen db }

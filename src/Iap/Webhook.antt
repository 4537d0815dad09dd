-- ===== src/Iap/Webhook.antt =====
-- apps/iap/services.py and views.py: the webhooks, from the request to the tables.
pub mod Forged
use backend_live_canvas.Prelude.{ℕ, String, Bool}
use backend_live_canvas.Core.Exec.{Result, Exec, lift, ◌>>=◌}
use backend_live_canvas.Iap.Models.{StoreNotificationEvent, IapDb}
use backend_live_canvas.Iap.Notify.{apply_notification}
use backend_live_canvas.Iap.Stores.Apple.{Verifier, decode_apple}
use backend_live_canvas.Iap.Stores.Google.{Parsers, ServiceAnswer, Message, decode_google}

-- `process_apple_notification`
unfoldable pub process_apple_notification :
    Verifier → ℕ → String → Exec IapDb StoreNotificationEvent
process_apple_notification v now signed_payload = do
  event ← lift (decode_apple v signed_payload)
  apply_notification now event

-- `process_google_notification`
unfoldable pub process_google_notification :
    Parsers
    → (String → Bool)
    → (String → ServiceAnswer)
    → ℕ
    → String
    → Message
    → Exec IapDb StoreNotificationEvent
process_google_notification p verifies service now header m = do
  event ← lift (decode_google p verifies service header m)
  apply_notification now event

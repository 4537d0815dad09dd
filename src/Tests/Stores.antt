-- ===== src/Tests/Stores.antt =====
-- Runs of apps/iap/stores and of the webhooks.
use backend_live_canvas.Prelude.{String, ◌≡◌, refl, true, some, [], ◌∷◌, str_eq}
use backend_live_canvas.Core.Errors.{Exc}
use backend_live_canvas.Core.Exec.{ok, err}
use backend_live_canvas.Iap.Models.{StoreSubscription}
use backend_live_canvas.Iap.Stores.Apple.{Verifier, ApplePayload}
use backend_live_canvas.Iap.Stores.Google.{
  Parsers, ServiceAnswer, Purchase, Message, purchase, google_subscription, verify_google,
  parse_rfc3339,
}

abbrev parsers : Parsers
parsers = record {
  fromisoformat = λ s. ok 5000;
  to_int = λ s. ok 7;
  decode_push = λ s. ok (record {
    purchase_token = "tok";
    subscription_id = "monthly";
    notification_type = "4";
    event_time_millis = "7";
  });
}

abbrev bought : Purchase
bought = record {
  subscription_state = "SUBSCRIPTION_STATE_ACTIVE";
  line_items =
      record {
        expiry_time = "2026-01-01T00:00:00Z";
        product_id = "monthly";
        auto_renew_enabled = true;
      }
      ∷ [];
  linked_purchase_token = "root";
}

abbrev store : String → ServiceAnswer
store token = purchase bought

abbrev push_message : Message
push_message = record { message_id = "m-1"; old_message_id = ""; body = "e30=" }

abbrev apple_payload : ApplePayload
apple_payload = record {
  notification_type = "DID_RENEW";
  subtype = "";
  notification_uuid = "n-1";
  signed_date = some 100;
  payload_data = some (record { signed_transaction_info = "forged.jws"; signed_renewal_info = "" });
}

abbrev verifier : Verifier
verifier = record {
  member_text = λ s. s;
  transaction = λ s. err (Exc.other "VerificationException");
  renewal = λ s. ok 1;
  notification = λ s. ok apple_payload;
}

abbrev reported : StoreSubscription
reported = google_subscription bought (some 5000) "tok" "tok" "monthly"

purchase_verified : verify_google parsers store "tok" "tok" "monthly" ≡ ok reported
unfolding verify_google parse_rfc3339 str_eq
purchase_verified = refl

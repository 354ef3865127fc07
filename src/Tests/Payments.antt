-- ===== src/Tests/Payments.antt =====
-- Webhooks of a provider that accepts a payment of the administrator in a one-row table.
use o2ul_portal.Common.{◌≡◌, ◌⊎◌, true, some, Option, [], ◌∷◌, ok}
use o2ul_portal.Domain.Player.{Player}
use o2ul_portal.Accounts.{UserRepository}
use o2ul_portal.Accounts.Users.{UserRecord, to_user_record, strata_users}
use o2ul_portal.Payment.{
  WebhookResult, PaymentService, World, new_payment_service, with_user_repository, handle_webhook,
}
use o2ul_portal.Payment.Providers.{string, done, field, Platform, Stripe, stripe}
use o2ul_portal.Payment.Promotion.{IsPromotion, handle_webhook-users}
use o2ul_portal.Tests.Accounts.{user_table}

abbrev platform : Platform
platform = record {
  unmarshal = λ payload. ok (field "playerId" (string "u1") done);
  now = 5;
  uuid = "a-b";
}

abbrev keys : Stripe
keys = record { secret_key = "sk"; webhook_secret = "whsec" }

abbrev boss : Player
boss = record {
  id = "u1";
  email = "boss@o2ul";
  username = "Boss";
  password_hash = "#pw";
  role = "admin";
  created_at = 1;
  updated_at = 1;
}

abbrev payments : PaymentService (Option UserRecord)
payments =
    with_user_repository (strata_users user_table) (new_payment_service (stripe platform keys ∷ []))

abbrev before : World (Option UserRecord)
before = record { users = some (to_user_record boss); log = [] }

abbrev accepted : WebhookResult
accepted = record {
  provider = "stripe";
  event_id = "evt_ab";
  event_type = "unknown";
  accepted = true;
  metadata = ("playerId", "u1") ∷ [];
}

handle_webhook-users_example :
    ((handle_webhook payments 7 before "stripe" "{}" "sig").1.users ≡ before.users)
    ⊎ ((out : WebhookResult) × (users : UserRepository (Option UserRecord)) × ((handle_webhook
            payments 7 before "stripe" "{}" "sig").0
          ≡ ok out)
        × (out.accepted ≡ true)
        × (payments.users ≡ some users)
        × IsPromotion users 7 before (handle_webhook payments 7 before "stripe" "{}" "sig").1 out)
handle_webhook-users_example = handle_webhook-users payments 7 before "stripe" "{}" "sig"

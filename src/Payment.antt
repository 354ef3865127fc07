-- ===== src/Payment.antt =====
-- `PaymentService` (internal/application/payment_service.go) and the payment types
-- (internal/domain/payment/payment.go).
use o2ul_portal.Common.{
  ℕ, String, Bool, true, false, not, Option, none, some, List, [], ◌∷◌, ◌==◌, is_empty, is_nil,
  if◌then◌else◌, Map, lookup, insert, Result, ok, err, message, Error,
}
use o2ul_portal.Common.Int.{ℤ}
use o2ul_portal.Domain.Role.{normalize_role, is_registered_user, role_subscriber}
use o2ul_portal.Domain.Player.{Player}
use o2ul_portal.Store.{text}
use o2ul_portal.Log.{Field, value, failure, Log, info, log_error}
use o2ul_portal.Accounts.{UserRepository}
pub mod Providers
pub mod Promotion

-- `amount` is an int64.
pub record CheckoutRequest : Type 0 where
  pub provider : String
  pub player_id : String
  pub email : String
  pub product_id : String
  pub currency : String
  pub amount : ℤ
  pub metadata : Map String

pub record CheckoutSession : Type 0 where
  pub provider : String
  pub session_id : String
  pub checkout_url : String
  pub expires_at : ℕ

pub record WebhookResult : Type 0 where
  pub provider : String
  pub event_id : String
  pub event_type : String
  pub accepted : Bool
  pub metadata : Map String

-- A provider, at one time and with one fresh uuid.
pub record PaymentProvider : Type 0 where
  pub provider_name : String
  pub create_checkout_session : CheckoutRequest → Result CheckoutSession
  pub handle_webhook : String → String → Result WebhookResult

-- `users` is none until WithUserRepository.
pub record PaymentService (U : Type 0) : Type 0 where
  pub providers : Map PaymentProvider
  pub users : Option (UserRepository U)

-- the loop of NewPaymentService
unfoldable pub map_providers : List PaymentProvider → Map PaymentProvider → Map PaymentProvider
map_providers [] mapped = mapped
map_providers (p ∷ ps) mapped = map_providers ps (insert p.provider_name p mapped)

abbrev pub new_payment_service : {U : Type 0} → List PaymentProvider → PaymentService U
new_payment_service providers = record { providers = map_providers providers []; users = none }

abbrev pub with_user_repository :
    {U : Type 0} → UserRepository U → PaymentService U → PaymentService U
with_user_repository users s = record s { users = some users }

-- `metadata[key]`
abbrev pub entry : String → Map String → String
entry key metadata = elim (lookup key metadata) [ some v ↦ v | none ↦ "" ]

unfoldable pub resolve_player_id : Map String → String
resolve_player_id metadata =
    if is_nil metadata
    then ""
    else if not (is_empty (entry "playerId" metadata))
    then entry "playerId" metadata
    else if not (is_empty (entry "playerID" metadata))
    then entry "playerID" metadata
    else if not (is_empty (entry "player_id" metadata))
    then entry "player_id" metadata
    else ""

-- the users and the log
pub record World (U : Type 0) : Type 0 where
  pub users : U
  pub log : Log

abbrev pub with_info : {U : Type 0} → String → List (String × Field) → World U → World U
with_info name fields w = record w { log = info name fields w.log }

abbrev pub with_error : {U : Type 0} → String → List (String × Field) → World U → World U
with_error name fields w = record w { log = log_error name fields w.log }

abbrev unsupported : Error
unsupported = message "unsupported payment provider"

-- the outcome of `s.users.UpdateRole`
unfoldable pub finish_promotion : {U : Type 0} → String → World U → Result (Unit {0}) × U → World U
finish_promotion player_id w (err e, users) =
    with_error "payment_role_promotion_failed"
      (("playerId", value (text player_id)) ∷ ("error", failure e) ∷ [])
      (record w { users = users })
finish_promotion player_id w (ok u, users) =
    with_info "payment_role_promoted"
      (("playerId", value (text player_id)) ∷ ("role", value (text role_subscriber)) ∷ [])
      (record w { users = users })

module _ {U : Type 0} where
  -- the promotion of a player that was found
  unfoldable pub promote_player : UserRepository U → ℕ → World U → String → Player → World U
  promote_player users now w player_id player =
      let current_role = normalize_role player.role in
      if not (is_registered_user current_role)
      then with_error "payment_role_promotion_rejected"
          (("playerId", value (text player_id))
            ∷ ("reason", value (text "target_not_registered"))
            ∷ [])
          w
      else if current_role == role_subscriber
      then w
      else finish_promotion player_id w (users.update_role w.users player_id role_subscriber now)

  unfoldable pub promote_subscriber_if_eligible :
      Option (UserRepository U) → ℕ → World U → WebhookResult → World U
  promote_subscriber_if_eligible none now w out = w
  promote_subscriber_if_eligible (some users) now w out =
      let player_id = resolve_player_id out.metadata in
      if is_empty player_id then w else elim (users.by_id w.users player_id) [
        | err e ↦
            with_error "payment_role_promotion_failed"
              (("playerId", value (text player_id)) ∷ ("error", failure e) ∷ []) w
        | ok player ↦ promote_player users now w player_id player
      ]

  unfoldable pub create_checkout_session :
      PaymentService U → World U → CheckoutRequest → Result CheckoutSession × World U
  create_checkout_session s w req = elim (lookup req.provider s.providers) [
    | none ↦ (err unsupported, w)
    | some provider ↦ elim (provider.create_checkout_session req) [
      | err e ↦ (
        err e,
        with_error "payment_checkout_failed"
            (("provider", value (text req.provider))
              ∷ ("playerId", value (text req.player_id))
              ∷ ("error", failure e)
              ∷ [])
            w,
      )
      | ok out ↦ (
        ok out,
        with_info "payment_checkout_created"
            (("provider", value (text req.provider))
              ∷ ("playerId", value (text req.player_id))
              ∷ ("sessionId", value (text out.session_id))
              ∷ [])
            w,
      )
    ]
  ]

  unfoldable pub handle_webhook :
      PaymentService U → ℕ → World U → String → String → String → Result WebhookResult × World U
  handle_webhook s now w provider_name payload signature = elim (lookup provider_name s.providers) [
    | none ↦ (err unsupported, w)
    | some provider ↦ elim (provider.handle_webhook payload signature) [
      | err e ↦ (
        err e,
        with_error "payment_webhook_failed"
            (("provider", value (text provider_name)) ∷ ("error", failure e) ∷ []) w,
      )
      | ok out ↦
          let promoted = promote_subscriber_if_eligible s.users now w out in
          (
            ok out,
            with_info "payment_webhook_processed"
                (("provider", value (text provider_name))
                  ∷ ("eventId", value (text out.event_id))
                  ∷ ("eventType", value (text out.event_type))
                  ∷ [])
                (if out.accepted then promoted else w),
          )
    ]
  ]

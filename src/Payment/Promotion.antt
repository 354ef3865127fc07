-- ===== src/Payment/Promotion.antt =====
-- What a payment webhook does to the users' roles.
use o2ul_portal.Common.{
  ℕ, String, true, false, ◌≡◌, refl, ◌≢◌, ap, ◌∙◌, ◌⊎◌, inl, inr, if_true, if_false, Bool-cases,
  Option-cases, Option, none, some, arith, eq_iff, ◌==◌, is_empty, is_empty-eq, is_blank, lookup,
  Result, Result-cases, ok, err,
}
use o2ul_portal.Domain.Role.{
  normalize_role, is_registered_user, role_subscriber, role_moderator, can_act_as,
}
use o2ul_portal.Domain.Role.Order.{moderator_registered, subscriber_below}
use o2ul_portal.Domain.Player.{Player}
use o2ul_portal.Accounts.{UserRepository, IsUserRepository}
use o2ul_portal.Payment.{
  WebhookResult, PaymentProvider, PaymentService, World, resolve_player_id, finish_promotion,
  promote_player, promote_subscriber_if_eligible, handle_webhook,
}
use o2ul_portal.Payment.Providers.{Platform, Stripe, stripe_webhook, Steam, steam_webhook}

-- The signature and the secret of a webhook are not compared: with any other secret and signature
-- that are not blank, both providers give the same result.
pub webhook_signature_unchecked :
    (env : Platform) (p q : Stripe) (x y : Steam) (payload s t : String)
    → is_blank p.webhook_secret ≡ false
    → is_blank q.webhook_secret ≡ false
    → is_blank x.webhook_secret ≡ false
    → is_blank y.webhook_secret ≡ false
    → is_blank s ≡ false
    → is_blank t ≡ false
    → (stripe_webhook env p payload s ≡ stripe_webhook env q payload t)
      × (steam_webhook env x payload s ≡ steam_webhook env y payload t)
unfolding stripe_webhook steam_webhook
webhook_signature_unchecked env p q x y payload s t hp hq hx hy hs ht = (
  rw (hp, hq, stripe_webhook) (rw (hs, ht, stripe_webhook) refl),
  rw (hx, hy, steam_webhook) (rw (hs, ht, steam_webhook) refl),
)

module _ {U : Type 0} where
  -- What a promotion rests on, and the users that it leaves.
  pub record IsPromotion (users : UserRepository U) (now : ℕ) (w t : World U) (out : WebhookResult)
      : Type 0 where
    pub player : Player
    pub found : users.by_id w.users (resolve_player_id out.metadata) ≡ ok player
    pub registered : is_registered_user (normalize_role player.role) ≡ true
    pub lower : normalize_role player.role ≢ role_subscriber
    pub written :
        t.users ≡ (users.update_role w.users (resolve_player_id out.metadata) role_subscriber now).1

  finish_promotion-users :
      (id : String) (w : World U) (x : Result (Unit {0}) × U)
      → (finish_promotion id w x).users ≡ x.1
  unfolding finish_promotion
  finish_promotion-users id w (err e, users) = refl
  finish_promotion-users id w (ok u, users) = refl

  promote-users :
      (repo : Option (UserRepository U)) (now : ℕ) (w : World U) (out : WebhookResult)
      → ((promote_subscriber_if_eligible repo now w out).users ≡ w.users)
        ⊎ ((users : UserRepository U) × (repo ≡ some users)
            × IsPromotion users now w (promote_subscriber_if_eligible repo now w out) out)
  unfolding promote_subscriber_if_eligible promote_player
  promote-users none now w out = inl refl
  promote-users (some users) now w out =
      let id = resolve_player_id out.metadata in
      elim (Bool-cases (is_empty id)) [
        | inl e ↦ inl (rw e refl)
        | inr e ↦ elim (Result-cases (users.by_id w.users id)) [
          | inr (x, f) ↦ inl (rw e (rw (f, promote_subscriber_if_eligible) refl))
          | inl (player, f) ↦ elim (Bool-cases (is_registered_user (normalize_role player.role))) [
            | inr g ↦
                inl (rw e (rw (f, promote_subscriber_if_eligible) (rw (g, promote_player) refl)))
            | inl g ↦ elim (Bool-cases (normalize_role player.role == role_subscriber)) [
              | inl k ↦ inl (
                  rw e
                    (rw (f, promote_subscriber_if_eligible) (rw (g, promote_player) (rw k refl))))
              | inr k ↦ inr (
                users,
                refl,
                record {
                  player = player;
                  found = f;
                  registered = g;
                  lower = λ p. ground (arith, eq_iff (normalize_role player.role) role_subscriber);
                  written = rw e (
                      rw (f, promote_subscriber_if_eligible)
                        (rw (g, promote_player) (rw k (finish_promotion-users id w _))));
                },
              )
            ]
          ]
        ]
      ]

  -- A webhook changes the users only by one role update: they stay as they are, or the provider
  -- accepted the event, and the player whom its metadata names was found, was registered and no
  -- subscriber, and the users are what the update of that player's role to subscriber leaves.
  pub handle_webhook-users :
      (s : PaymentService U) (now : ℕ) (w : World U) (name payload signature : String)
      → ((handle_webhook s now w name payload signature).1.users ≡ w.users)
        ⊎ ((out : WebhookResult) × (users : UserRepository U) × ((handle_webhook s now w name
                payload signature).0
              ≡ ok out)
            × (out.accepted ≡ true)
            × (s.users ≡ some users)
            × IsPromotion users now w (handle_webhook s now w name payload signature).1 out)
  unfolding handle_webhook
  handle_webhook-users s now w name payload signature =
      elim (Option-cases (lookup name s.providers)) [
        | inl e ↦ inl (rw (e, handle_webhook) refl)
        | inr (provider, e) ↦ elim (Result-cases (provider.handle_webhook payload signature)) [
          | inr (x, f) ↦ inl (rw (e, handle_webhook) (rw f refl))
          | inl (out, f) ↦ elim (Bool-cases out.accepted) [
            | inr g ↦
                inl
                  (rw (e, handle_webhook) (rw f (ap (λ v. v.users) (if_false out.accepted _ w g))))
            | inl g ↦ elim (promote-users s.users now w out) [
              | inl k ↦ inl (
                  rw (e, handle_webhook)
                    (rw f (ap (λ v. v.users) (if_true out.accepted _ w g) ∙ k)))
              | inr (users, k, r) ↦ inr (
                out,
                users,
                rw (e, handle_webhook) (rw f refl),
                g,
                k,
                record {
                  player = r.player;
                  found = r.found;
                  registered = r.registered;
                  lower = r.lower;
                  written =
                      rw (e, handle_webhook)
                        (rw f (ap (λ v. v.users) (if_true out.accepted _ w g) ∙ r.written));
                },
              )
            ]
          ]
        ]
      ]

  -- An accepted event makes its player a subscriber whatever higher role the player had: one who
  -- could act as a moderator before, an administrator for instance, no longer can.
  pub handle_webhook-demotes :
      (s : PaymentService U) (users : UserRepository U) (provider : PaymentProvider)
      (out : WebhookResult) (player : Player) (now : ℕ) (w : World U) (u : U)
      (name payload signature : String)
      → IsUserRepository users
      → s.users ≡ some users
      → lookup name s.providers ≡ some provider
      → provider.handle_webhook payload signature ≡ ok out
      → out.accepted ≡ true
      → resolve_player_id out.metadata ≢ ""
      → users.by_id w.users (resolve_player_id out.metadata) ≡ ok player
      → can_act_as player.role role_moderator ≡ true
      → users.update_role w.users (resolve_player_id out.metadata) role_subscriber now ≡ (ok tt, u)
      → (users.by_id
            (handle_webhook s now w name payload signature).1.users
            (resolve_player_id out.metadata)
          ≡ ok (record player { role = role_subscriber; updated_at = now }))
        × (can_act_as role_subscriber role_moderator ≡ false)
  unfolding handle_webhook promote_subscriber_if_eligible promote_player finish_promotion
  handle_webhook-demotes s users provider out player now w u name payload signature law a b c d
        named found high updated =
      let e : is_empty (resolve_player_id out.metadata) ≡ false =
        ground (arith, is_empty-eq (resolve_player_id out.metadata)) in
      let (g, k) = moderator_registered player.role high in
      (
        rw (b, handle_webhook)
            (rw c (
              rw (if_true out.accepted (promote_subscriber_if_eligible s.users now w out) w d) (
                rw (a, promote_subscriber_if_eligible)
                  (rw e (
                    rw (found, promote_subscriber_if_eligible)
                      (rw (g, promote_player)
                        (rw k (
                          rw (updated, finish_promotion)
                            (law.role_found w.users u _ role_subscriber now player updated
                              found))))))))),
        subscriber_below,
      )

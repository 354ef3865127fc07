-- ===== src/Auth/Reset/Once.antt =====
-- A password reset: it works once, and it changes one player's password.
use o2ul_portal.Common.{
  ℕ, ◌≢◌, String, true, ◌≡◌, refl, sym, ap, ◌∙◌, subst, some, Option-cases, arith, inl, inr,
  Result-cases, ok,
}
use o2ul_portal.Domain.Player.{Player, PasswordResetToken}
use o2ul_portal.Accounts.{PasswordResetRepository, IsUserRepository}
use o2ul_portal.Auth.{Platform, Runtime, World, AuthService, IsBcrypt}
use o2ul_portal.Auth.Sessions.{normalized_email, authenticate}
use o2ul_portal.Auth.Reset.{check_reset, write_reset, reset_password}

module _ {U S : Type 0} (env : Platform) (s : AuthService U S) where
  -- What a reset that succeeds has found and done.
  record ResetTrace (resets : PasswordResetRepository S) (rt : Runtime) (w t : World U S)
      (raw_token password : String) : Type 0 where
    token : PasswordResetToken
    hash : String
    valid : resets.get_valid_by_hash w.resets (env.sha256_hex raw_token) rt.now ≡ ok token
    hashed : env.bcrypt_hash rt.salt password ≡ ok hash
    updated : s.repo.update_password w.users token.player_id hash rt.later ≡ (ok tt, t.users)
    marked : resets.mark_used w.resets token.id rt.later ≡ (ok tt, t.resets)

  write_reset-ok :
      (resets : PasswordResetRepository S) (now : ℕ) (w t : World U S) (token : PasswordResetToken)
      (hash : String)
      → write_reset env s resets now w token hash ≡ (ok tt, t)
      → (s.repo.update_password w.users token.player_id hash now ≡ (ok tt, t.users))
        × (resets.mark_used w.resets token.id now ≡ (ok tt, t.resets))
  unfolding write_reset
  write_reset-ok resets now w t token hash h = ground arith

  check_reset-resets :
      (raw_token password : String) (resets : PasswordResetRepository S)
      → check_reset env s raw_token password ≡ ok resets
      → s.reset_repo ≡ some resets
  unfolding check_reset
  check_reset-resets raw_token password resets h = elim (Option-cases (s.reset_repo)) [
    | inl e ↦ ground arith
    | inr (r, e) ↦ ground arith
  ]

  trace_of_reset :
      (resets : PasswordResetRepository S) (rt : Runtime) (w t : World U S)
      (raw_token password : String)
      → s.reset_repo ≡ some resets
      → reset_password env s rt w raw_token password ≡ (ok tt, t)
      → ResetTrace resets rt w t raw_token password
  unfolding reset_password
  trace_of_reset resets rt w t raw_token password same h =
      elim (Result-cases (check_reset env s raw_token password)) [
        | inr (x, e) ↦ ground arith
        | inl (found, e) ↦
            let eq : found ≡ resets = cc (check_reset-resets raw_token password found e, same) in
            elim (Result-cases
              (resets.get_valid_by_hash w.resets (env.sha256_hex raw_token) rt.now)) [
                | inr (x, f) ↦ ground arith
                | inl (token, f) ↦ elim (Result-cases (env.bcrypt_hash rt.salt password)) [
                  | inr (x, g) ↦ ground arith
                  | inl (hash, g) ↦
                      let k : write_reset env s resets rt.later w token hash ≡ (ok tt, t) =
                        ground arith in
                      let (updated, marked) = write_reset-ok resets rt.later w t token hash k in
                      record {
                        token = token;
                        hash = hash;
                        valid = f;
                        hashed = g;
                        updated = updated;
                        marked = marked;
                      }
                ]
              ]
      ]

  authenticate-known :
      (w : World U S) (email password : String) (p : Player)
      → s.repo.by_email w.users (normalized_email env email) ≡ ok p
      → env.bcrypt_matches p.password_hash password ≡ true
      → authenticate env s w email password ≡ ok p
  unfolding authenticate
  authenticate-known w email password p h k = rw (h, authenticate) (rw k refl)

  -- After a reset the new password opens the account of the token's player.
  pub reset_password-authenticate :
      (resets : PasswordResetRepository S)
      → IsBcrypt env
      → IsUserRepository s.repo
      → s.reset_repo ≡ some resets
      → (rt : Runtime) (w t : World U S) (raw_token password email : String)
        (token : PasswordResetToken) (p : Player)
      → resets.get_valid_by_hash w.resets (env.sha256_hex raw_token) rt.now ≡ ok token
      → s.repo.by_email w.users (normalized_email env email) ≡ ok p
      → token.player_id ≡ p.id
      → reset_password env s rt w raw_token password ≡ (ok tt, t)
      → (hash : String) × (authenticate env s t email password
          ≡ ok (record p { password_hash = hash; updated_at = rt.later }))
  reset_password-authenticate resets bcrypt users same rt w t raw_token password email token p valid
        known owner h =
      let r = trace_of_reset resets rt w t raw_token password same h in
      let tokens : r.token ≡ token = cc (valid, r.valid) in
      let updated =
        subst (λ i. s.repo.update_password w.users i r.hash rt.later ≡ (ok tt, t.users))
          (ap (λ k. k.player_id) tokens ∙ owner) r.updated in
      let (mail, stored) = users.email_id w.users (normalized_email env email) p known in
      let q : Player = record p { password_hash = r.hash; updated_at = rt.later } in
      let found = users.password_found w.users t.users p.id r.hash rt.later p updated stored in
      (
        r.hash,
        authenticate-known t email password q
            (subst (λ m. s.repo.by_email t.users m ≡ ok q) mail
              (users.id_email t.users p.id q found))
            (bcrypt rt.salt password r.hash r.hashed),
      )

  -- A reset leaves the accounts of all other players alone.
  pub reset_password-other :
      (resets : PasswordResetRepository S)
      → IsUserRepository s.repo
      → s.reset_repo ≡ some resets
      → (rt : Runtime) (w t : World U S) (raw_token password email other : String)
        (token : PasswordResetToken) (p : Player)
      → resets.get_valid_by_hash w.resets (env.sha256_hex raw_token) rt.now ≡ ok token
      → s.repo.by_email w.users (normalized_email env email) ≡ ok p
      → token.player_id ≢ p.id
      → reset_password env s rt w raw_token password ≡ (ok tt, t)
      → authenticate env s t email other ≡ authenticate env s w email other
  unfolding authenticate
  reset_password-other resets users same rt w t raw_token password email other token p valid known
        ne h =
      let r = trace_of_reset resets rt w t raw_token password same h in
      let tokens : r.token ≡ token = cc (valid, r.valid) in
      let (mail, stored) = users.email_id w.users (normalized_email env email) p known in
      let kept =
        users.password_other w.users t.users r.token.player_id p.id r.hash rt.later r.updated
          (λ e. ne (sym (ap (λ k. k.player_id) tokens) ∙ e)) in
      let found =
        subst (λ m. s.repo.by_email t.users m ≡ ok p) mail
          (users.id_email t.users p.id p (kept ∙ stored)) in
      rw (found, authenticate) (rw (known, authenticate) refl)

-- ===== src/Auth/Sessions/Login.antt =====
-- Who can log in: registration and login fit together, and a refused call changes nothing.
use o2ul_portal.Common.{
  String, true, ◌≡◌, refl, sym, ap, ◌∙◌, subst, List, arith, inl, inr, ◌⊎◌, Bool-cases,
  Result-cases, Result, ok, err, message, Error, ◌>>◌, ◌≢◌, >>-eq-ok,
}
use o2ul_portal.Domain.Role.{is_valid_role}
use o2ul_portal.Domain.Player.{Player}
use o2ul_portal.Log.{Field}
use o2ul_portal.Accounts.{IsUserRepository}
use o2ul_portal.Auth.{Platform, Runtime, World, AuthService, IsBcrypt, validate_smtp_config}
use o2ul_portal.Auth.Sessions.{
  normalized_email, registered_role, finish_session, finish_registration, new_player, register,
  authenticate, login,
}

pub new_player-ok :
    (env : Platform) (rt : Runtime) (email username password role : String) (p : Player)
    → new_player env rt email username password role ≡ ok p
    → (p.email ≡ normalized_email env email)
      × (p.id ≡ rt.uuid)
      × (is_valid_role p.role ≡ true)
      × (env.bcrypt_hash rt.salt password ≡ ok p.password_hash)
unfolding new_player
new_player-ok env rt email username password role p h =
    elim (Result-cases (env.bcrypt_hash rt.salt password)) [
      | inl (hash, e) ↦ ground arith
      | inr (x, e) ↦ ground arith
    ]

pub new_player-role :
    (env : Platform) (rt : Runtime) (email username password role : String) (p : Player)
    → new_player env rt email username password role ≡ ok p
    → p.role ≡ registered_role role
unfolding new_player
new_player-role env rt email username password role p h =
    elim (Result-cases (env.bcrypt_hash rt.salt password)) [
      | inl (hash, e) ↦ ground arith
      | inr (x, e) ↦ ground arith
    ]

module _ {U S : Type 0} (env : Platform) where
  finish_session-ok :
      (rt : Runtime) (name : String) (fields : List (String × Field)) (player p : Player)
      (token : String) (w w2 : World U S)
      → finish_session env rt name fields player w ≡ (ok (p, token), w2)
      → (p ≡ player) × (env.issue rt.now player ≡ ok token) × (w2.users ≡ w.users)
  unfolding finish_session
  finish_session-ok rt name fields player p token w w2 h =
      elim (Result-cases (env.issue rt.now player)) [
        | inl (t, e) ↦ ground arith
        | inr (x, e) ↦ ground arith
      ]

  finish_registration-ok :
      (rt : Runtime) (w t : World U S) (x : Result Player × U) (p : Player) (token : String)
      → finish_registration env rt w x ≡ (ok (p, token), t)
      → x ≡ (ok p, t.users)
  unfolding finish_registration
  finish_registration-ok rt w t (ok created, users) p token h =
      let (same, _, rest) = finish_session-ok rt _ _ created p token _ t h in cc (same, rest)
  finish_registration-ok rt w t (err x, users) p token h = ground arith

  module _ (s : AuthService U S) (law : IsUserRepository s.repo) where
    pub register-ok :
        (rt : Runtime) (w t : World U S) (email username password role : String) (p : Player)
        (token : String)
        → register env s rt w email username password role ≡ (ok (p, token), t)
        → (new_player env rt email username password role ≡ ok p)
          × (s.repo.by_id t.users p.id ≡ ok p)
          × (s.repo.by_email t.users p.email ≡ ok p)
          × ((id : String) → p.id ≢ id → s.repo.by_id t.users id ≡ s.repo.by_id w.users id)
    unfolding register
    register-ok rt w t email username password role p token h =
        elim (Result-cases
          (validate_smtp_config s >> new_player env rt email username password role)) [
            | inl (player, e) ↦
                let (_, made) = (>>-eq-ok (validate_smtp_config s) _ player).0 e in
                let k : finish_registration env rt w (s.repo.create w.users player)
                    ≡ (ok (p, token), t) =
                  ground arith in
                let x = finish_registration-ok rt w t _ p token k in
                let (same, found, listed) = law.create_found w.users t.users player p x in
                (
                  cc (made, same),
                  subst (λ q. s.repo.by_id t.users q.id ≡ ok q) (sym same) found,
                  subst (λ q. s.repo.by_email t.users q.email ≡ ok q) (sym same) listed,
                  λ id ne.
                      law.create_other w.users t.users player p id x
                        (λ e2. ne (ap (λ q. q.id) same ∙ e2)),
                )
            | inr (x, e) ↦ ground arith
          ]

    login-known :
        (rt : Runtime) (w : World U S) (email password : String) (p : Player) (token : String)
        → s.repo.by_email w.users (normalized_email env email) ≡ ok p
        → env.bcrypt_matches p.password_hash password ≡ true
        → env.issue rt.now p ≡ ok token
        → (login env s rt w email password).0 ≡ ok (p, token)
    unfolding login authenticate finish_session
    login-known rt w email password p token found matches issued =
        rw (found, login, authenticate) (rw matches (rw (issued, finish_session) refl))

    -- Who registers can log in. If Register returns a player, Login with the same email and
    -- password returns that player again, with whatever token the token service issues for it;
    -- the player has a valid role and the normalized email, and is stored under the fresh id.
    pub register-login :
        IsBcrypt env
        → (rt rt2 : Runtime) (w t : World U S) (email username password role : String) (p : Player)
          (token token2 : String)
        → register env s rt w email username password role ≡ (ok (p, token), t)
        → env.issue rt2.now p ≡ ok token2
        → ((login env s rt2 t email password).0 ≡ ok (p, token2))
          × (is_valid_role p.role ≡ true)
          × (p.email ≡ normalized_email env email)
          × (s.repo.by_id t.users rt.uuid ≡ ok p)
    register-login bcrypt rt rt2 w t email username password role p token token2 h issued =
        let (made, found, listed, _) = register-ok rt w t email username password role p token h in
        let (mail, fresh, valid, hashed) =
          new_player-ok env rt email username password role p made in
        (
          login-known rt2 t email password p token2
              (subst (λ m. s.repo.by_email t.users m ≡ ok p) mail listed)
              (bcrypt rt.salt password p.password_hash hashed) issued,
          valid,
          mail,
          subst (λ i. s.repo.by_id t.users i ≡ ok p) fresh found,
        )

    -- A login that is refused changes nothing, and a login that succeeds returns a stored player
    -- whose email is the normalized one and whose hash the password matches; the stored players and
    -- reset tokens are the same after every login.
    pub login-authentic :
        (rt : Runtime) (w : World U S) (email password : String)
        → ((e : Error) × (login env s rt w email password ≡ (err e, w)))
          ⊎ ((p : Player) × (token : String) × ((login env s rt w email password).0 ≡ ok (p, token))
              × (p.email ≡ normalized_email env email)
              × (s.repo.by_id w.users p.id ≡ ok p)
              × (env.bcrypt_matches p.password_hash password ≡ true)
              × ((login env s rt w email password).1.users ≡ w.users)
              × ((login env s rt w email password).1.resets ≡ w.resets))
    unfolding login authenticate finish_session
    login-authentic rt w email password =
        elim (Result-cases (s.repo.by_email w.users (normalized_email env email))) [
          | inr (x, e) ↦ inl (message "invalid credentials", rw (e, login, authenticate) refl)
          | inl (p, e) ↦ elim (Bool-cases (env.bcrypt_matches p.password_hash password)) [
            | inr wrong ↦
                inl (message "invalid credentials", rw (e, login, authenticate) (rw wrong refl))
            | inl right ↦ elim (Result-cases (env.issue rt.now p)) [
              | inr (x, f) ↦
                  inl (x, rw (e, login, authenticate) (rw right (rw (f, finish_session) refl)))
              | inl (token, f) ↦
                  let (mail, stored) = law.email_id w.users (normalized_email env email) p e in
                  inr (
                    p,
                    token,
                    login-known rt w email password p token e right f,
                    mail,
                    stored,
                    right,
                    rw (e, login, authenticate) (rw right (rw (f, finish_session) refl)),
                    rw (e, login, authenticate) (rw right (rw (f, finish_session) refl)),
                  )
            ]
          ]
        ]

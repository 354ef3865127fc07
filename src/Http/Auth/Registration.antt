-- ===== src/Http/Auth/Registration.antt =====
-- What a registration makes.
use Prim.Native.Char.{Char}
use o2ul_portal.Common.{
  ℕ, String, ◌≡◌, ◌≢◌, refl, sym, ap, ◌∙◌, subst, arith, eq_iff, inl, inr, Result-cases, Result, ok,
  err, lookup,
}
use o2ul_portal.Domain.Role.{Role, parse_role, normalize_role, role_registered}
use o2ul_portal.Domain.Player.{Player}
use o2ul_portal.Accounts.{IsUserRepository}
use o2ul_portal.Auth.{Platform, Runtime, World, AuthService, IsBcrypt}
use o2ul_portal.Auth.Sessions
use o2ul_portal.Auth.Sessions.{registered_role}
use o2ul_portal.Auth.Sessions.Login.{register-ok, new_player-ok, new_player-role, register-login}
use o2ul_portal.Http.{failed, json}
use o2ul_portal.Http.Auth.{RegisterReq, Session, requested_role, session_answer, register, login}

requested_role-registered :
    (beyond_ascii : Char → Char) (raw : String) (role : Role)
    → requested_role beyond_ascii raw ≡ ok role
    → role ≡ role_registered
unfolding requested_role
requested_role-registered beyond_ascii raw role h =
    ground (arith, eq_iff (parse_role beyond_ascii raw).0 role_registered)

registered_role-registered : registered_role role_registered ≡ role_registered
unfolding normalize_role lookup
registered_role-registered = refl

session_answer-json :
    (status : ℕ) (made : Result (Player × String)) (given : Session)
    → session_answer status (failed 400) made ≡ json status given
    → made ≡ ok (given.player, given.token)
session_answer-json status (err e) given h = cc
session_answer-json status (ok (player, token)) given h = ground arith

module _ {U S : Type 0} (env : Platform) (s : AuthService U S) (law : IsUserRepository s.repo) where
  opened :
      (rt : Runtime) (req : RegisterReq) (w t : World U S) (given : Session) (role : Role)
      → requested_role env.lower_beyond_ascii req.role ≡ ok role
      → register env s rt (ok req) w ≡ (json 201 given, t)
      → (session_answer 201
            (failed 400)
            (Sessions.register env s rt w req.email req.username req.password role).0
          ≡ json 201 given)
        × ((Sessions.register env s rt w req.email req.username req.password role).1 ≡ t)
  unfolding register
  opened rt req w t given role k h =
      let g = rw (k, register) at h in (ap (λ z. z.0) g, ap (λ z. z.1) g)

  register-made :
      (rt : Runtime) (req : RegisterReq) (w t : World U S) (given : Session)
      → register env s rt (ok req) w ≡ (json 201 given, t)
      → Sessions.register env s rt w req.email req.username req.password role_registered
        ≡ (ok (given.player, given.token), t)
  unfolding register
  register-made rt req w t given h =
      elim (Result-cases (requested_role env.lower_beyond_ascii req.role)) [
        | inr (e, k) ↦ ground arith
        | inl (role, k) ↦
            let made : Role → Result (Player × String) × World U S =
              Sessions.register env s rt w req.email req.username req.password in
            let (answer, after) =
              subst
                (λ r.
                  (session_answer 201 (failed 400) (made r).0 ≡ json 201 given) × ((made r).1 ≡ t))
                (requested_role-registered env.lower_beyond_ascii req.role role k)
                (opened rt req w t given role k h) in
            subst (λ v. made role_registered ≡ (ok (given.player, given.token), v)) after
              (subst (λ r. made role_registered ≡ (r, (made role_registered).1))
                (session_answer-json 201 (made role_registered).0 given answer) refl)
      ]

  -- A registration makes a registered player and no other. If POST /auth/register answers 201,
  -- whatever role its body asks for, the player in the answer has the role `registered` and is
  -- stored under the fresh id, all other ids give the players that they gave before, and a login
  -- with the email and password of the body is then answered 200 with the same player and whatever
  -- token the token service issues for it.
  pub register-registered :
      IsBcrypt env
      → (rt rt2 : Runtime) (req : RegisterReq) (w t : World U S) (given : Session) (token2 : String)
      → register env s rt (ok req) w ≡ (json 201 given, t)
      → env.issue rt2.now given.player ≡ ok token2
      → (given.player.role ≡ role_registered)
        × (s.repo.by_id t.users rt.uuid ≡ ok given.player)
        × ((id : String) → rt.uuid ≢ id → s.repo.by_id t.users id ≡ s.repo.by_id w.users id)
        × ((login env s rt2 (ok (record { email = req.email; password = req.password })) t).0
            ≡ json 200 (record { token = token2; player = given.player }))
  unfolding login
  register-registered bcrypt rt rt2 req w t given token2 h issued =
      let made = register-made rt req w t given h in
      let (created, found, listed, others) =
        register-ok env s law rt w t req.email req.username req.password role_registered
          given.player given.token made in
      let (mail, fresh, valid, hashed) =
        new_player-ok env rt req.email req.username req.password role_registered given.player
          created in
      let (logs_in, _, _, _) =
        register-login env s law bcrypt rt rt2 w t req.email req.username req.password
          role_registered given.player given.token token2 made issued in
      (
        new_player-role env rt req.email req.username req.password role_registered given.player
              created
            ∙ registered_role-registered,
        subst (λ i. s.repo.by_id t.users i ≡ ok given.player) fresh found,
        λ id ne. others id (λ e. ne (sym fresh ∙ e)),
        rw logs_in refl,
      )

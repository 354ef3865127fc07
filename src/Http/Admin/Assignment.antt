-- ===== src/Http/Admin/Assignment.antt =====
-- Who may change a role, and whose.
use Prim.Native.Char.{Char}
use o2ul_portal.Common.{
  ℕ, String, true, false, not, ◌&&◌, some, ◌≡◌, ◌≢◌, refl, ap, arith, inl, inr, ◌⊎◌, Bool-cases,
  Option-cases, Result-cases, strip_prefix, Result, ok, err, Error, message, trim_space,
  is_space_code, to_lower, lower_rune, lookup,
}
use o2ul_portal.Domain.Role.{
  Role, normalize_role, parse_role, can_assign_role, can_act_as, is_registered_user, role_moderator,
  role_registered,
}
use o2ul_portal.Domain.Role.Order.{Rank, HasRank, HasRank-unique, can_act_as_iff}
use o2ul_portal.Domain.Role.Assign.{can_assign_role_iff}
use o2ul_portal.Domain.Player.{Player}
use o2ul_portal.Accounts.{UserRepository, IsUserRepository}
use o2ul_portal.Http.{Response, failed, json, refuse, TokenClaims}
use o2ul_portal.Http.Middleware.{require_auth, require_role}
use o2ul_portal.Http.Admin.{needs_registered, answered, write_role, update_role, patch_role}

-- A refusal changes nothing.
abbrev pub IsRefused : {U : Type 0} → Response (Unit {0}) → U → U → Type 0
IsRefused answer u v = ((status : ℕ) × (e : Error) × (answer ≡ failed status e)) × (v ≡ u)

registered_rank : HasRank role_registered 2
unfolding normalize_role lookup
registered_rank = Rank.registered

moderator_rank : HasRank role_moderator 4
unfolding normalize_role lookup
moderator_rank = Rank.moderator

moderator_assigns :
    (role : Role)
    → can_act_as role role_moderator ≡ true
    → can_assign_role role role_registered ≡ true
moderator_assigns role h =
    let (m, n, hm, hn, le) = (can_act_as_iff role role_moderator).0 h in
    (can_assign_role_iff role role_registered).1
      (m, 2, hm, registered_rank, omega (arith, HasRank-unique role_moderator hn moderator_rank))

module _ {U : Type 0} (repo : UserRepository U) (beyond_ascii : Char → Char) where
  -- What a request has shown when its role is written.
  pub record IsPermitted (claims : TokenClaims) (id : String) (raw : Role) (user : Player) (u : U)
      : Type 0 where
    pub moderator : can_act_as claims.role role_moderator ≡ true
    pub valid : (parse_role beyond_ascii raw).1 ≡ true
    pub assignable : can_assign_role claims.role (parse_role beyond_ascii raw).0 ≡ true
    pub found : repo.by_id u id ≡ ok user
    pub registered :
        (needs_registered (parse_role beyond_ascii raw).0 && not (is_registered_user user.role))
        ≡ false

  abbrev IsWritten : TokenClaims → ℕ → String → Role → Response (Unit {0}) → U → U → Type 0
  IsWritten claims now id raw answer u v =
      (user : Player) × (written : Result (Unit {0})) × IsPermitted claims id raw user u
      × (repo.update_role u id (parse_role beyond_ascii raw).0 now ≡ (written, v))
      × (answer ≡ answered written)

  write_role-cases :
      (now : ℕ) (id : String) (target : Role) (user : Player) (u v : U)
      (answer : Response (Unit {0}))
      → write_role repo beyond_ascii now id target user u ≡ (answer, v)
      → IsRefused answer u v
        ⊎ (((needs_registered target && not (is_registered_user user.role)) ≡ false)
            × (written : Result (Unit {0})) × (repo.update_role u id target now ≡ (written, v))
            × (answer ≡ answered written))
  unfolding write_role
  write_role-cases now id target user u v answer h =
      elim (Bool-cases (needs_registered target && not (is_registered_user user.role))) [
        | inl a ↦
            inl ((400, message "target must be at least registered", ground arith), ground arith)
        | inr a ↦ inr (a, (repo.update_role u id target now).0, ground arith, ground arith)
      ]

  update_role-cases :
      (now : ℕ) (id : String) (raw : Role) (claims : TokenClaims) (u v : U)
      (answer : Response (Unit {0}))
      → can_act_as claims.role role_moderator ≡ true
      → update_role repo beyond_ascii now id (ok raw) (some claims) u ≡ (answer, v)
      → IsRefused answer u v ⊎ IsWritten claims now id raw answer u v
  unfolding update_role
  update_role-cases now id raw claims u v answer moderator h =
      let target = (parse_role beyond_ascii raw).0 in
      elim (Bool-cases ((parse_role beyond_ascii raw).1)) [
        | inr a ↦ inl ((400, message "invalid role", ground arith), ground arith)
        | inl a ↦ elim (Bool-cases (can_assign_role claims.role target)) [
          | inr b ↦ inl ((403, message "forbidden", ground arith), ground arith)
          | inl b ↦ elim (Result-cases (repo.by_id u id)) [
            | inr (x, c) ↦ inl ((404, message "not found", ground arith), ground arith)
            | inl (user, c) ↦ elim (write_role-cases now id target user u v answer (ground arith)) [
              | inl refused ↦ inl refused
              | inr (d, written, update, same) ↦ inr (
                user,
                written,
                record {
                  moderator = moderator;
                  valid = a;
                  assignable = b;
                  found = c;
                  registered = d;
                },
                update,
                same,
              )
            ]
          ]
        ]
      ]

  update_role-undecoded :
      (now : ℕ) (id : String) (x : Error) (claims : TokenClaims) (u : U)
      → update_role repo beyond_ascii now id (err x) (some claims) u
        ≡ (refuse 400 "invalid payload", u)
  unfolding update_role
  update_role-undecoded now id x claims u = refl

  patch_role-cases :
      (parse : String → Result TokenClaims) (now : ℕ) (id authorization : String)
      (decoded : Result Role) (u v : U) (answer : Response (Unit {0}))
      → patch_role repo beyond_ascii parse now id decoded authorization u ≡ (answer, v)
      → IsRefused answer u v
        ⊎ ((token : String) × (claims : TokenClaims) × (raw : Role) × (strip_prefix "Bearer "
                authorization
              ≡ some token)
            × (parse token ≡ ok claims)
            × (decoded ≡ ok raw)
            × IsWritten claims now id raw answer u v)
  unfolding patch_role require_auth require_role
  patch_role-cases parse now id authorization decoded u v answer h =
      elim (Option-cases (strip_prefix "Bearer " authorization)) [
        | inl a ↦ inl ((401, message "missing bearer token", ground arith), ground arith)
        | inr (token, a) ↦ elim (Result-cases (parse token)) [
          | inr (x, b) ↦ inl ((401, message "invalid token", ground arith), ground arith)
          | inl (claims, b) ↦ elim (Bool-cases (can_act_as claims.role role_moderator)) [
            | inr c ↦ inl ((403, message "forbidden", ground arith), ground arith)
            | inl c ↦ elim (Result-cases decoded) [
              | inr (x, d) ↦
                  let no = update_role-undecoded now id x claims u in
                  inl ((400, message "invalid payload", ground arith), ground arith)
              | inl (raw, d) ↦
                  elim (update_role-cases now id raw claims u v answer c (ground arith)) [
                    | inl refused ↦ inl refused
                    | inr written ↦ inr (token, claims, raw, a, b, d, written)
                  ]
            ]
          ]
        ]
      ]

  written-found :
      IsUserRepository repo
      → (id other : String) (now : ℕ) (target : Role) (user : Player) (u v : U)
        (answer : Response (Unit {0})) (written : Result (Unit {0}))
      → id ≢ other
      → repo.by_id u id ≡ ok user
      → repo.update_role u id target now ≡ (written, v)
      → answer ≡ answered written
      → ((e : Error) × (answer ≡ failed 500 e))
        ⊎ ((answer ≡ json 200 tt)
            × (repo.by_id v id ≡ ok (record user { role = target; updated_at = now }))
            × (repo.by_id v other ≡ repo.by_id u other))
  written-found law id other now target user u v answer (err e) ne found update same = inl (e, same)
  written-found law id other now target user u v answer (ok done) ne found update same = inr (
    same,
    law.role_found u v id target now user update found,
    law.role_other u v id other target now update ne,
  )

  -- Whoever changes a role has shown for it: PATCH /admin/users/{id}/role answers 200 only to a
  -- bearer token of a moderator or higher, for a valid role that the role in the token may assign, and
  -- a user who exists, and who is registered unless the role is `registered`; the user then has the
  -- role, and any other user is as before. An answer that is no 500 and no 200 has changed nothing.
  pub patch_role-IsPermitted :
      IsUserRepository repo
      → (parse : String → Result TokenClaims) (now : ℕ) (id other authorization : String)
        (decoded : Result Role) (u v : U) (answer : Response (Unit {0}))
      → id ≢ other
      → patch_role repo beyond_ascii parse now id decoded authorization u ≡ (answer, v)
      → IsRefused answer u v
        ⊎ ((token : String) × (claims : TokenClaims) × (raw : Role) × (user : Player)
            × (strip_prefix "Bearer " authorization ≡ some token)
            × (parse token ≡ ok claims)
            × (decoded ≡ ok raw)
            × IsPermitted claims id raw user u
            × (((e : Error) × (answer ≡ failed 500 e))
                ⊎ ((answer ≡ json 200 tt)
                    × (repo.by_id v id
                        ≡ ok (record user {
                          role = (parse_role beyond_ascii raw).0;
                          updated_at = now;
                        }))
                    × (repo.by_id v other ≡ repo.by_id u other))))
  patch_role-IsPermitted law parse now id other authorization decoded u v answer ne h =
      elim (patch_role-cases parse now id authorization decoded u v answer h) [
        | inl refused ↦ inl refused
        | inr (token, claims, raw, a, b, d, (user, written, permitted, update, same)) ↦ inr (
          token,
          claims,
          raw,
          user,
          a,
          b,
          d,
          permitted,
          written-found law id other now _ user u v answer written ne permitted.found update same,
        )
      ]

  registered_parsed : parse_role beyond_ascii role_registered ≡ (role_registered, true)
  unfolding parse_role trim_space is_space_code to_lower lower_rune normalize_role lookup
  registered_parsed = refl

  registered_unguarded : needs_registered role_registered ≡ false
  unfolding needs_registered
  registered_unguarded = refl

  -- The role that the user has is not looked at: with the bearer token of any moderator, PATCH
  -- /admin/users/{id}/role makes every stored user a registered user, a master administrator too.
  pub patch_role-demotes :
      IsUserRepository repo
      → (parse : String → Result TokenClaims) (now : ℕ) (id authorization token : String)
        (claims : TokenClaims) (user : Player) (u v : U)
      → strip_prefix "Bearer " authorization ≡ some token
      → parse token ≡ ok claims
      → can_act_as claims.role role_moderator ≡ true
      → repo.by_id u id ≡ ok user
      → repo.update_role u id role_registered now ≡ (ok tt, v)
      → (patch_role repo beyond_ascii parse now id (ok role_registered) authorization u
          ≡ (json 200 tt, v))
        × (repo.by_id v id ≡ ok (record user { role = role_registered; updated_at = now }))
  unfolding patch_role require_auth require_role update_role write_role
  patch_role-demotes law parse now id authorization token claims user u v a b c found update = (
    rw (a, patch_role, require_auth)
        (rw b (
          rw (c, require_role)
            (rw (ap (λ z. z.1) registered_parsed, update_role)
              (rw (ap (λ z. z.0) registered_parsed) (
                rw (moderator_assigns claims.role c) (
                  rw found (
                    rw (ap (λ z. z.0) registered_parsed)
                      (rw (registered_unguarded, write_role) (rw update refl))))))))),
    law.role_found u v id role_registered now user update found,
  )

-- ===== src/Http/Middleware.antt =====
-- internal/infrastructure/http/middleware/auth.go. A handler is a function of the claims in the
-- request's context; `S` is the state that it may change.
use o2ul_portal.Common.{String, not, none, some, strip_prefix, if◌then◌else◌, Result, ok, err}
use o2ul_portal.Domain.Role.{Role, can_act_as}
use o2ul_portal.Http.{Response, TokenClaims, Claims, refuse}

abbrev pub Handler : Type 0 → Type 0 → Type 0
Handler A S = Claims → S → Response A × S

module _ {A S : Type 0} where
  -- `authorization` is the header, "" if there is none; `parse` is TokenParser.Parse.
  unfoldable pub require_auth :
      (String → Result TokenClaims) → Handler A S → String → S → Response A × S
  require_auth parse next authorization s = elim (strip_prefix "Bearer " authorization) [
    | none ↦ (refuse 401 "missing bearer token", s)
    | some token ↦ elim (parse token) [
      | err e ↦ (refuse 401 "invalid token", s)
      | ok claims ↦ next (some claims) s
    ]
  ]

  unfoldable pub require_role : Role → Handler A S → Handler A S
  require_role required next none s = (refuse 401 "missing auth claims", s)
  require_role required next (some claims) s =
      if not (can_act_as claims.role required)
      then (refuse 403 "forbidden", s)
      else next (some claims) s

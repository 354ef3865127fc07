-- ===== src/Http.antt =====
-- The HTTP layer (internal/infrastructure/http): what handlers answer, and the claims of a request.
-- net/http, chi and encoding/json are parameters: a handler gets the decoded body, or the error of
-- decoding it, and answers with a status and a payload.
use o2ul_portal.Common.{ℕ, String, Option, Error, message}
use o2ul_portal.Common.Int.{ℤ}
use o2ul_portal.Domain.Role.{Role}
pub mod Middleware
pub mod Admin
pub mod Instances
pub mod Wallet
pub mod Auth

-- `http.Error(w, text, status)`, where the text of an error stands for the error, and
-- `respondJSON(w, status, payload)`
pub data Response (A : Type 0) : Type 0 where
  failed : ℕ → Error → Response A
  json : ℕ → A → Response A

-- `application.TokenClaims`
pub record TokenClaims : Type 0 where
  pub player_id : String
  pub email : String
  pub username : String
  pub role : Role
  pub expires_at : ℤ

-- the claims that a request's context holds
abbrev pub Claims : Type 0
Claims = Option TokenClaims

-- `http.Error` with a literal text
abbrev pub refuse : {A : Type 0} → ℕ → String → Response A
refuse status text = failed status (message text)

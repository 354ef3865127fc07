-- ===== src/Domain/Player.antt =====
-- `domain.Player` and `domain.PasswordResetToken` (internal/domain/user.go, password_reset.go).
use o2ul_portal.Common.{ℕ, String, Bool}

-- Times are counts of nanoseconds from Go's zero time.
pub record Player : Type 0 where
  pub id : String
  pub email : String
  pub username : String
  pub password_hash : String
  pub role : String
  pub created_at : ℕ
  pub updated_at : ℕ

pub record PasswordResetToken : Type 0 where
  pub id : String
  pub player_id : String
  pub token_hash : String
  pub expires_at : ℕ
  pub created_at : ℕ
  pub used : Bool
  pub used_at : ℕ

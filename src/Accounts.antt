-- ===== src/Accounts.antt =====
-- The repositories of the accounts, as the services see them: `UserRepository`,
-- `passwordUpdater` and `PasswordResetRepository` (internal/application/interfaces.go,
-- auth_service.go), each over a state of its own.
use o2ul_portal.Common.{ℕ, ◌<◌, String, false, List, ◌≡◌, ◌≢◌, ok, err, Result, Error}
use o2ul_portal.Domain.Player.{Player, PasswordResetToken}
pub mod Users
pub mod Resets

pub record UserRepository (S : Type 0) : Type 0 where
  pub create : S → Player → Result Player × S
  pub by_email : S → String → Result Player
  pub by_id : S → String → Result Player
  pub list : S → Result (List Player)
  pub update_role : S → String → String → ℕ → Result (Unit {0}) × S
  pub update_password : S → String → String → ℕ → Result (Unit {0}) × S

pub record PasswordResetRepository (S : Type 0) : Type 0 where
  pub create : S → PasswordResetToken → Result (Unit {0}) × S
  pub get_valid_by_hash : S → String → ℕ → Result PasswordResetToken
  pub mark_used : S → String → ℕ → Result (Unit {0}) × S

-- What the services rely on: a created player and a changed one are found again, by the id and by
-- the email, and the other players stay as they were. This is a repository that keeps the
-- times it is given; strata fills them in itself, and `IsUserStore` leaves them open.
pub record IsUserRepository {S : Type 0} (R : UserRepository S) : Type 0 where
  pub create_found :
      (s t : S) (p q : Player)
      → R.create s p ≡ (ok q, t)
      → (q ≡ p) × (R.by_id t p.id ≡ ok p) × (R.by_email t p.email ≡ ok p)
  pub create_other :
      (s t : S) (p q : Player) (id : String)
      → R.create s p ≡ (ok q, t)
      → p.id ≢ id
      → R.by_id t id ≡ R.by_id s id
  pub email_id :
      (s : S) (email : String) (p : Player)
      → R.by_email s email ≡ ok p
      → (p.email ≡ email) × (R.by_id s p.id ≡ ok p)
  pub id_email :
      (s : S) (id : String) (p : Player) → R.by_id s id ≡ ok p → R.by_email s p.email ≡ ok p
  pub password_found :
      (s t : S) (id hash : String) (now : ℕ) (p : Player)
      → R.update_password s id hash now ≡ (ok tt, t)
      → R.by_id s id ≡ ok p
      → R.by_id t id ≡ ok (record p { password_hash = hash; updated_at = now })
  pub password_known :
      (s t : S) (id hash : String) (now : ℕ)
      → R.update_password s id hash now ≡ (ok tt, t)
      → (p : Player) × (R.by_id s id ≡ ok p)
  pub password_other :
      (s t : S) (id other hash : String) (now : ℕ)
      → R.update_password s id hash now ≡ (ok tt, t)
      → id ≢ other
      → R.by_id t other ≡ R.by_id s other
  pub role_found :
      (s t : S) (id role : String) (now : ℕ) (p : Player)
      → R.update_role s id role now ≡ (ok tt, t)
      → R.by_id s id ≡ ok p
      → R.by_id t id ≡ ok (record p { role = role; updated_at = now })
  pub role_other :
      (s t : S) (id other role : String) (now : ℕ)
      → R.update_role s id role now ≡ (ok tt, t)
      → id ≢ other
      → R.by_id t other ≡ R.by_id s other

-- `q` is the player `p`, up to the times at which it was created and changed.
abbrev pub Restamped : Player → Player → Type 0
Restamped p q =
    (created : ℕ) × (updated : ℕ) × (q ≡ record p { created_at = created; updated_at = updated })

-- A repository that fills in the times itself, and in which a search by email may fail.
pub record IsUserStore {S : Type 0} (R : UserRepository S) : Type 0 where
  pub create_found :
      (s t : S) (p q : Player)
      → R.create s p ≡ (ok q, t)
      → (q ≡ p) × ((r : Player) × (R.by_id t p.id ≡ ok r) × Restamped p r)
  pub create_other :
      (s t : S) (p q : Player) (id : String)
      → R.create s p ≡ (ok q, t)
      → p.id ≢ id
      → R.by_id t id ≡ R.by_id s id
  pub email_id :
      (s : S) (email : String) (p : Player)
      → R.by_email s email ≡ ok p
      → (p.email ≡ email) × (R.by_id s p.id ≡ ok p)
  pub id_email :
      (s : S) (id : String) (p q : Player)
      → R.by_id s id ≡ ok p
      → R.by_email s p.email ≡ ok q
      → q ≡ p
  pub password_found :
      (s t : S) (id hash : String) (now : ℕ)
      → R.update_password s id hash now ≡ (ok tt, t)
      → (p : Player) × (r : Player) × (R.by_id s id ≡ ok p)
        × (R.by_id t id ≡ ok r)
        × Restamped (record p { password_hash = hash }) r
  pub password_other :
      (s t : S) (id other hash : String) (now : ℕ)
      → R.update_password s id hash now ≡ (ok tt, t)
      → id ≢ other
      → R.by_id t other ≡ R.by_id s other
  pub role_found :
      (s t : S) (id role : String) (now : ℕ)
      → R.update_role s id role now ≡ (ok tt, t)
      → (p : Player) × (r : Player) × (R.by_id s id ≡ ok p)
        × (R.by_id t id ≡ ok r)
        × Restamped (record p { role = role }) r
  pub role_other :
      (s t : S) (id other role : String) (now : ℕ)
      → R.update_role s id role now ≡ (ok tt, t)
      → id ≢ other
      → R.by_id t other ≡ R.by_id s other

-- A token is only given out while it is valid, and never again once it was marked as used.
pub record IsResetRepository {S : Type 0} (R : PasswordResetRepository S) : Type 0 where
  pub valid :
      (s : S) (hash : String) (now : ℕ) (token : PasswordResetToken)
      → R.get_valid_by_hash s hash now ≡ ok token
      → (token.token_hash ≡ hash) × (token.used ≡ false) × (now < token.expires_at)
  pub used_once :
      (s t : S) (hash : String) (now used_at later : ℕ) (token : PasswordResetToken)
      → R.get_valid_by_hash s hash now ≡ ok token
      → R.mark_used s token.id used_at ≡ (ok tt, t)
      → (e : Error) × (R.get_valid_by_hash t hash later ≡ err e)

-- ===== src/Accounts/Resets.antt =====
-- `StrataPasswordResetRepository` (internal/infrastructure/db/postgres_password_reset.go).
use o2ul_portal.Common.{
  ℕ, ◌<◌, String, Bool, true, false, ◌≡◌, none, some, List, [], ◌∷◌, arith, inl, inr, Result-cases,
  Result, ok, err, not_found, Error,
}
use o2ul_portal.Common.Int.{pos}
use o2ul_portal.Domain.Player.{PasswordResetToken}
use o2ul_portal.Store.{Value, text, flag, instant, Query, query_all, Table, IsTable, missing_as}
use o2ul_portal.Accounts.{PasswordResetRepository}
pub mod Once

-- strata fills in `created_at` (auto_now_add) itself, see `Once`.
pub record PasswordResetTokenRecord : Type 0 where
  pub id : String
  pub player_id : String
  pub token_hash : String
  pub expires_at : ℕ
  pub created_at : ℕ
  pub used : Bool
  pub used_at : ℕ

abbrev pub valid_query : String → ℕ → Query
valid_query token_hash now = record query_all {
  condition = "token_hash = $1 AND used = $2 AND expires_at > $3";
  arguments = text token_hash ∷ flag false ∷ instant now ∷ [];
  limit = some (pos 1);
}

abbrev pub to_password_reset_domain : PasswordResetTokenRecord → PasswordResetToken
to_password_reset_domain r = record {
  id = r.id;
  player_id = r.player_id;
  token_hash = r.token_hash;
  expires_at = r.expires_at;
  created_at = r.created_at;
  used = r.used;
  used_at = r.used_at;
}

abbrev pub reset_record : PasswordResetToken → PasswordResetTokenRecord
reset_record token = record {
  id = token.id;
  player_id = token.player_id;
  token_hash = token.token_hash;
  expires_at = token.expires_at;
  created_at = token.created_at;
  used = token.used;
  used_at = token.used_at;
}

module _ {S : Type 0} (T : Table PasswordResetTokenRecord S) where
  unfoldable pub create : S → PasswordResetToken → Result (Unit {0}) × S
  create s token = T.set s token.id (reset_record token)

  unfoldable pub get_valid_by_hash : S → String → ℕ → Result PasswordResetToken
  get_valid_by_hash s token_hash now = elim (T.search s (valid_query token_hash now)) [
    | err e ↦ err e
    | ok [] ↦ err not_found
    | ok (r ∷ rs) ↦ ok (to_password_reset_domain r)
  ]

  unfoldable pub mark_used : S → String → ℕ → Result (Unit {0}) × S
  mark_used s id used_at = elim (missing_as not_found (T.get s id)) [
    | err e ↦ (err e, s)
    | ok r ↦ T.set s id (record r { used = true; used_at = used_at })
  ]

  abbrev pub strata_resets : PasswordResetRepository S
  strata_resets = record {
    create = create;
    get_valid_by_hash = get_valid_by_hash;
    mark_used = mark_used;
  }

-- ===== src/Accounts/Users.antt =====
-- `StrataUserRepository` (internal/infrastructure/db/postgres_users.go).
use o2ul_portal.Common.{
  ℕ, ◌+◌, String, Bool, true, false, ◌≡◌, refl, ◌≢◌, none, some, List, [], ◌∷◌, map, arith, eq_iff,
  inl, inr, Result-cases, Result, ok, err, message, if◌then◌else◌, length, take, Map, subst,
}
use o2ul_portal.Common.Int.{ℤ, pos, negsuc, ◌+ℤ◌, ltb_ℤ, leb_ℤ, pos_part}
use o2ul_portal.Domain.Player.{Player}
use o2ul_portal.Store.{
  Value, text, flag, instant, Query, query_all, Table, IsTable, missing_as, text_not_found,
}
use o2ul_portal.Accounts.{UserRepository}
pub mod Rows
pub mod Lookup
pub mod Stamped

-- strata fills in `created_at` (auto_now_add) and `updated_at` (auto_now) itself: what a table reads
-- back may have other times than the record that was written (see `Stamped`).
pub record UserRecord : Type 0 where
  pub id : String
  pub email : String
  pub username : String
  pub password_hash : String
  pub role : String
  pub created_at : ℕ
  pub updated_at : ℕ

abbrev pub to_user_record : Player → UserRecord
to_user_record p = record {
  id = p.id;
  email = p.email;
  username = p.username;
  password_hash = p.password_hash;
  role = p.role;
  created_at = p.created_at;
  updated_at = p.updated_at;
}

abbrev pub from_user_record : UserRecord → Player
from_user_record r = record {
  id = r.id;
  email = r.email;
  username = r.username;
  password_hash = r.password_hash;
  role = r.role;
  created_at = r.created_at;
  updated_at = r.updated_at;
}

abbrev pub email_query : String → Query
email_query email = record query_all {
  condition = "email = $1";
  arguments = text email ∷ [];
  limit = some (pos 1);
}

-- the query of one page, and one record more
abbrev pub page_query : ℤ → ℤ → Query
page_query offset limit = record query_all {
  order_by = "created_at";
  descending = true;
  offset = some offset;
  limit = some (limit +ℤ pos 1);
}

module _ {S : Type 0} (T : Table UserRecord S) where
  unfoldable pub create : S → Player → Result Player × S
  create s p =
      let (r, t) = T.set s p.id (to_user_record p) in
      elim r [ ok u ↦ (ok p, t) | err e ↦ (err e, t) ]

  unfoldable pub by_email : S → String → Result Player
  by_email s email = elim (T.search s (email_query email)) [
    | err e ↦ err e
    | ok [] ↦ err text_not_found
    | ok (r ∷ rs) ↦ ok (from_user_record r)
  ]

  unfoldable pub by_id : S → String → Result Player
  by_id s id = elim (missing_as text_not_found (T.get s id)) [
    | err e ↦ err e
    | ok r ↦ ok (from_user_record r)
  ]

  unfoldable pub list : S → Result (List Player)
  list s = elim (T.search s (record query_all { order_by = "created_at"; descending = true })) [
    | err e ↦ err e
    | ok rs ↦ ok (map from_user_record rs)
  ]

  unfoldable pub list_page : S → ℤ → ℤ → Result (List Player × Bool)
  list_page s offset limit =
      let start = if ltb_ℤ offset (pos 0) then pos 0 else offset in
      let size = if leb_ℤ limit (pos 0) then pos 50 else limit in
      elim (T.search s (page_query start size)) [
        | err e ↦ err e
        | ok rs ↦
            let has_more = ltb_ℤ size (pos (length rs)) in
            let page = if has_more then take (pos_part size) rs else rs in
            ok (map from_user_record page, has_more)
      ]

  unfoldable pub update_role : S → String → String → ℕ → Result (Unit {0}) × S
  update_role s id role updated_at = elim (missing_as text_not_found (T.get s id)) [
    | err e ↦ (err e, s)
    | ok r ↦ T.set s id (record r { role = role; updated_at = updated_at })
  ]

  unfoldable pub update_password : S → String → String → ℕ → Result (Unit {0}) × S
  update_password s id password_hash updated_at = elim (missing_as text_not_found (T.get s id)) [
    | err e ↦ (err e, s)
    | ok r ↦ T.set s id (record r { password_hash = password_hash; updated_at = updated_at })
  ]

  abbrev pub strata_users : UserRepository S
  strata_users = record {
    create = create;
    by_email = by_email;
    by_id = by_id;
    list = list;
    update_role = update_role;
    update_password = update_password;
  }

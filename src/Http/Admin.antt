-- ===== src/Http/Admin.antt =====
-- `AdminHandler` (internal/infrastructure/http/handlers/admin_handler.go), with its routes as
-- BuildAPIRouter puts them behind the middleware.
use Prim.Native.Char.{Char}
use o2ul_portal.Common.{
  ℕ, ◌+◌, ◌-◌, ◌*◌, ◌%◌, ◌^◌, String, Bool, true, false, not, ◌&&◌, ◌||◌, Option, none, some, List,
  [], ◌∷◌, ◌==◌, ltb, leb, length, take, drop, if◌then◌else◌, Result, ok, err, Error, message,
}
use o2ul_portal.Common.Int.{ℤ, pos, negsuc, pos_part, leb_ℤ}
use o2ul_portal.Common.Numbers.{atoi}
use o2ul_portal.Domain.Role.{
  Role, parse_role, can_assign_role, is_registered_user, role_admin, role_sys_op, role_moderator,
  role_subscriber,
}
use o2ul_portal.Domain.Player.{Player}
use o2ul_portal.Accounts.{UserRepository}
use o2ul_portal.Http.{Response, failed, json, refuse, TokenClaims, Claims}
use o2ul_portal.Http.Middleware.{require_auth, require_role}
pub mod Assignment

-- a positive int
unfoldable pub parse_positive_int : String → ℕ → ℕ
parse_positive_int raw fallback = elim (atoi raw) [
  | none ↦ fallback
  | some v ↦ if leb_ℤ v (pos 0) then fallback else pos_part v
]

-- the roles that are given to registered users only
unfoldable pub needs_registered : Role → Bool
needs_registered role =
    role == role_admin || role == role_sys_op || role == role_moderator || role == role_subscriber

abbrev pub answered : Result (Unit {0}) → Response (Unit {0})
answered (err e) = failed 500 e
answered (ok done) = json 200 tt

module _ {U : Type 0} (repo : UserRepository U) (beyond_ascii : Char → Char) where
  -- The end of UpdateRole, for a user that was found.
  unfoldable pub write_role : ℕ → String → Role → Player → U → Response (Unit {0}) × U
  write_role now id target user u =
      if needs_registered target && not (is_registered_user user.role)
      then (refuse 400 "target must be at least registered", u)
      else let (written, v) = repo.update_role u id target now in (answered written, v)

  -- UpdateRole with the claims, the id of the path and the decoded role; the payload of the answer
  -- is `{"ok": true}`.
  unfoldable pub update_role : ℕ → String → Result Role → Claims → U → Response (Unit {0}) × U
  update_role now id decoded none u = (refuse 401 "missing auth claims", u)
  update_role now id (err e) (some claims) u = (refuse 400 "invalid payload", u)
  update_role now id (ok raw) (some claims) u =
      let (target, valid) = parse_role beyond_ascii raw in
      if not valid
      then (refuse 400 "invalid role", u)
      else if not (can_assign_role claims.role target)
      then (refuse 403 "forbidden", u)
      else elim (repo.by_id u id) [
        | err e ↦ (refuse 404 "not found", u)
        | ok user ↦ write_role now id target user u
      ]

  -- PATCH /admin/users/{id}/role
  unfoldable pub patch_role :
      (String → Result TokenClaims)
      → ℕ
      → String
      → Result Role
      → String
      → U
      → Response (Unit {0}) × U
  patch_role parse now id decoded =
      require_auth parse (require_role role_moderator (update_role now id decoded))

pub record UserListing : Type 0 where
  pub users : List Player
  pub page : ℕ
  pub page_size : ℕ
  pub count : ℕ
  pub has_more : Bool
  pub next_page : ℤ

abbrev pub admin_page_size : String → ℕ
admin_page_size raw = let size = parse_positive_int raw 50 in if ltb 200 size then 200 else size

-- the int64 with these bits
unfoldable pub int64_of : ℕ → ℤ
int64_of n = if leb (2 ^ 63) n then negsuc (2 ^ 64 - n - 1) else pos n

-- `users[offset:end]`, for a repository without pages. Slicing with a negative offset panics, which
-- the router's Recoverer answers with 500.
unfoldable pub slice_users : ℤ → ℕ → List Player → Result (List Player × Bool)
slice_users (negsuc n) size all = err (message "slice bounds out of range")
slice_users (pos offset) size all =
    let last = if ltb (length all) (offset + size) then length all else offset + size in
    if ltb offset (length all)
    then ok (take (last - offset) (drop offset all), ltb last (length all))
    else ok ([], false)

module _ {U : Type 0} (repo : UserRepository U) where
  -- ListUsers with the query's `page` and `page_size`. `paged` is the method ListPage, if the
  -- repository has it.
  unfoldable pub list_users :
      Option (U → ℤ → ℤ → Result (List Player × Bool)) → String → String → U → Response UserListing
  list_users paged raw_page raw_size u =
      let page = parse_positive_int raw_page 1 in
      let size = admin_page_size raw_size in
      let offset = int64_of ((page - 1) * size % 2 ^ 64) in
      let found : Result (List Player × Bool) = elim paged [
        | some list_page ↦ list_page u offset (pos size)
        | none ↦ elim (repo.list u) [ err e ↦ err e | ok all ↦ slice_users offset size all ]
      ] in
      elim found [
        | err e ↦ failed 500 e
        | ok (users, has_more) ↦ json 200 (record {
          users = users;
          page = page;
          page_size = size;
          count = length users;
          has_more = has_more;
          next_page = int64_of ((page + 1) % 2 ^ 64);
        })
      ]

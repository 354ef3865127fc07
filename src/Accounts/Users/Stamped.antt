-- ===== src/Accounts/Users/Stamped.antt =====
-- A strata table of users: it fills in the columns `created_at` and `updated_at` itself
-- (internal/infrastructure/db/postgres_users.go).
use o2ul_portal.Common.{
  ℕ, String, ◌≡◌, refl, ◌≢◌, List, [], ◌∷◌, arith, inl, inr, Result-cases, ok, ap,
}
use o2ul_portal.Domain.Player.{Player}
use o2ul_portal.Store.{Table, IsFilledTable}
use o2ul_portal.Accounts.{IsUserStore, Restamped}
use o2ul_portal.Accounts.Users.Rows.{
  by_id-get, get-by_id, create-set, update_password-set, update_role-set,
}
use o2ul_portal.Accounts.Users.{
  UserRecord, to_user_record, from_user_record, email_query, by_email, by_id, strata_users,
}

-- what is read back of `r`: the times are the table's
abbrev pub Stamped : UserRecord → UserRecord → Type 0
Stamped r q =
    (created : ℕ) × (updated : ℕ) × (q ≡ record r { created_at = created; updated_at = updated })

-- The column `email` is unique: a search for it that does not fail finds the record that has it, and
-- no other. What it finds is stored.
pub record IsStampedUserTable {S : Type 0} (T : Table UserRecord S) : Type 0 where
  pub is_filled : IsFilledTable T Stamped
  pub email_found :
      (s : S) (email : String) (r : UserRecord) (rs : List UserRecord)
      → T.search s (email_query email) ≡ ok (r ∷ rs)
      → (r.email ≡ email) × (T.get s r.id ≡ ok r)
  pub email_unique :
      (s : S) (k : String) (r : UserRecord) (rs : List UserRecord)
      → T.get s k ≡ ok r
      → T.search s (email_query r.email) ≡ ok rs
      → rs ≡ r ∷ []

module _ {S : Type 0} (T : Table UserRecord S) (law : IsStampedUserTable T) where
  found_by_email :
      (s : S) (email : String) (p : Player)
      → by_email T s email ≡ ok p
      → (r : UserRecord) × (rs : List UserRecord) × (T.search s (email_query email) ≡ ok (r ∷ rs))
        × (p ≡ from_user_record r)
  unfolding by_email
  found_by_email s email p h = elim (Result-cases (T.search s (email_query email))) [
    | inl ([], e) ↦ ground arith
    | inl (r ∷ rs, e) ↦ (r, rs, e, ground arith)
    | inr (x, e) ↦ ground arith
  ]

  email_id_lem :
      (s : S) (email : String) (p : Player)
      → by_email T s email ≡ ok p
      → (p.email ≡ email) × (by_id T s p.id ≡ ok p)
  email_id_lem s email p h =
      let (r, rs, found, same) = found_by_email s email p h in
      let (mail, row) = law.email_found s email r rs found in
      rw same (mail, by_id-get T s r.id r row)

  id_email_lem :
      (s : S) (id : String) (p q : Player)
      → by_id T s id ≡ ok p
      → by_email T s p.email ≡ ok q
      → q ≡ p
  id_email_lem s id p q h k =
      let (r, rs, found, same) = found_by_email s p.email q k in
      let one : r ∷ rs ≡ to_user_record p ∷ [] =
        law.email_unique s id (to_user_record p) (r ∷ rs) (get-by_id T s id p h) found in
      ground arith

  by_id-other :
      (s t : S) (id other : String) (r : UserRecord)
      → T.set s id r ≡ (ok tt, t)
      → id ≢ other
      → by_id T t other ≡ by_id T s other
  unfolding by_id
  by_id-other s t id other r h ne = rw (law.is_filled.set_other s t id other r h ne, by_id) refl

  by_id-set :
      (s t : S) (id : String) (r : UserRecord)
      → T.set s id r ≡ (ok tt, t)
      → (q : Player) × (by_id T t id ≡ ok q) × Restamped (from_user_record r) q
  by_id-set s t id r h =
      let (q, row, (created, updated, same)) = law.is_filled.set_get s t id r h in
      (from_user_record q, by_id-get T t id q row, (created, updated, ap from_user_record same))

  -- Over a table of users that fills in the times itself, and whose email column is unique, the
  -- repository keeps what it is told, up to the times: a created player is found by the id, a changed
  -- password or role is found with all else of that player as it was, an update of a player who is
  -- not stored fails, no other player changes, and what a search by email finds is a stored player
  -- with that email, the only one there is.
  pub strata_users-IsUserStore : IsUserStore (strata_users T)
  strata_users-IsUserStore = record {
    create_found = λ s t p q h.
        let (same, set) = create-set T s t p q h in
        (same, by_id-set s t p.id (to_user_record p) set);
    create_other =
        λ s t p q id h ne. by_id-other s t p.id id (to_user_record p) (create-set T s t p q h).1 ne;
    email_id = email_id_lem;
    id_email = id_email_lem;
    password_found = λ s t id hash now h.
        let (r, row, set) = update_password-set T s t id hash now h in
        let (q, found, (created, updated, same)) = by_id-set s t id _ set in
        (from_user_record r, q, by_id-get T s id r row, found, (created, updated, same));
    password_other = λ s t id other hash now h ne.
        let (r, row, set) = update_password-set T s t id hash now h in
        by_id-other s t id other _ set ne;
    role_found = λ s t id role now h.
        let (r, row, set) = update_role-set T s t id role now h in
        let (q, found, (created, updated, same)) = by_id-set s t id _ set in
        (from_user_record r, q, by_id-get T s id r row, found, (created, updated, same));
    role_other = λ s t id other role now h ne.
        let (r, row, set) = update_role-set T s t id role now h in
        by_id-other s t id other _ set ne;
  }

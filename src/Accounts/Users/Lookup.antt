-- ===== src/Accounts/Users/Lookup.antt =====
-- A table of users whose email column is unique, and that keeps the times it is given, is a user
-- repository. (`Stamped` is about a table that fills in the times itself, as strata does.)
use o2ul_portal.Common.{
  String, ◌≡◌, refl, ◌≢◌, List, [], ◌∷◌, arith, inl, inr, Result-cases, ok, subst,
}
use o2ul_portal.Domain.Player.{Player}
use o2ul_portal.Store.{Table, IsTable}
use o2ul_portal.Accounts.{IsUserRepository}
use o2ul_portal.Accounts.Users.Rows.{
  by_id-get, get-by_id, create-set, update_password-set, update_role-set,
}
use o2ul_portal.Accounts.Users.{
  UserRecord, to_user_record, from_user_record, email_query, by_email, by_id, strata_users,
}

-- A record is read back as it was written. The column `email` is unique, so the search for it finds
-- the one record that has it.
pub record IsUserTable {S : Type 0} (T : Table UserRecord S) : Type 0 where
  pub is_table : IsTable T
  pub email_found :
      (s : S) (email : String) (r : UserRecord) (rs : List UserRecord)
      → T.search s (email_query email) ≡ ok (r ∷ rs)
      → (r.email ≡ email) × (T.get s r.id ≡ ok r)
  pub email_unique :
      (s : S) (k : String) (r : UserRecord)
      → T.get s k ≡ ok r
      → T.search s (email_query r.email) ≡ ok (r ∷ [])

module _ {S : Type 0} (T : Table UserRecord S) (law : IsUserTable T) where
  by_email-get :
      (s : S) (id : String) (r : UserRecord)
      → T.get s id ≡ ok r
      → by_email T s r.email ≡ ok (from_user_record r)
  unfolding by_email
  by_email-get s id r h = rw (law.email_unique s id r h, by_email)

  get-by_email :
      (s : S) (email : String) (p : Player)
      → by_email T s email ≡ ok p
      → (p.email ≡ email) × (T.get s p.id ≡ ok (to_user_record p))
  unfolding by_email
  get-by_email s email p h = elim (Result-cases (T.search s (email_query email))) [
    | inl ([], e) ↦ ground arith
    | inl (r ∷ rs, e) ↦ let (same, row) = law.email_found s email r rs e in ground arith
    | inr (x, e) ↦ ground arith
  ]

  by_id-other :
      (s t : S) (id other : String) (r : UserRecord)
      → T.set s id r ≡ (ok tt, t)
      → id ≢ other
      → by_id T t other ≡ by_id T s other
  unfolding by_id
  by_id-other s t id other r h ne = rw (law.is_table.set_other s t id other r h ne, by_id) refl

  found_again :
      (s t : S) (id : String) (f : UserRecord → UserRecord) (p : Player)
      → by_id T s id ≡ ok p
      → (r : UserRecord) × (T.get s id ≡ ok r) × (T.set s id (f r) ≡ (ok tt, t))
      → by_id T t id ≡ ok (from_user_record (f (to_user_record p)))
  found_again s t id f p k (r, row, set) =
      let same : r ≡ to_user_record p = cc (row, get-by_id T s id p k) in
      subst (λ q. by_id T t id ≡ ok (from_user_record (f q))) same
        (by_id-get T t id (f r) (law.is_table.set_get s t id (f r) set))

  -- The users of such a table are a user repository.
  pub strata_users-IsUserRepository : IsUserRepository (strata_users T)
  strata_users-IsUserRepository = record {
    create_found = λ s t p q h.
        let (same, set) = create-set T s t p q h in
        let row = law.is_table.set_get s t p.id (to_user_record p) set in
        (
          same,
          by_id-get T t p.id (to_user_record p) row,
          by_email-get t p.id (to_user_record p) row,
        );
    create_other =
        λ s t p q id h ne. by_id-other s t p.id id (to_user_record p) (create-set T s t p q h).1 ne;
    email_id = λ s email p h.
        let (same, row) = get-by_email s email p h in
        (same, by_id-get T s p.id (to_user_record p) row);
    id_email = λ s id p h. by_email-get s id (to_user_record p) (get-by_id T s id p h);
    password_found = λ s t id hash now p h k.
        found_again s t id (λ r. record r { password_hash = hash; updated_at = now }) p k
          (update_password-set T s t id hash now h);
    password_known = λ s t id hash now h.
        let (r, row, set) = update_password-set T s t id hash now h in
        (from_user_record r, by_id-get T s id r row);
    password_other = λ s t id other hash now h ne.
        let (r, row, set) = update_password-set T s t id hash now h in
        by_id-other s t id other _ set ne;
    role_found = λ s t id role now p h k.
        found_again s t id (λ r. record r { role = role; updated_at = now }) p k
          (update_role-set T s t id role now h);
    role_other = λ s t id other role now h ne.
        let (r, row, set) = update_role-set T s t id role now h in
        by_id-other s t id other _ set ne;
  }

-- ===== src/Accounts/Users/Rows.antt =====
-- What the operations of `StrataUserRepository` (internal/infrastructure/db/postgres_users.go) do with
-- the rows of their table.
use o2ul_portal.Common.{ℕ, String, ◌≡◌, refl, arith, inl, inr, Result-cases, Result, ok, err}
use o2ul_portal.Domain.Player.{Player}
use o2ul_portal.Store.{Table, missing_as, text_not_found}
use o2ul_portal.Accounts.Users.{
  UserRecord, to_user_record, from_user_record, create, by_id, update_role, update_password,
}

module _ {S : Type 0} (T : Table UserRecord S) where
  pub by_id-get :
      (s : S) (id : String) (r : UserRecord)
      → T.get s id ≡ ok r
      → by_id T s id ≡ ok (from_user_record r)
  unfolding by_id
  by_id-get s id r h = rw (h, by_id)

  pub get-by_id :
      (s : S) (id : String) (p : Player) → by_id T s id ≡ ok p → T.get s id ≡ ok (to_user_record p)
  unfolding by_id
  get-by_id s id p h = elim (Result-cases (T.get s id)) [
    | inl (r, e) ↦ ground arith
    | inr (x, e) ↦ ground arith
  ]

  pub create-set :
      (s t : S) (p q : Player)
      → create T s p ≡ (ok q, t)
      → (q ≡ p) × (T.set s p.id (to_user_record p) ≡ (ok tt, t))
  unfolding create
  create-set s t p q h = ground arith

  update-set :
      (s : S) (id : String) (f : UserRecord → UserRecord) (x : Result UserRecord) (t : S)
      → elim (missing_as text_not_found x) as (λ _. Result (Unit {0}) × S) [
        | err e ↦ (err e, s)
        | ok r ↦ T.set s id (f r)
      ]
        ≡ (ok tt, t)
      → (r : UserRecord) × (x ≡ ok r) × (T.set s id (f r) ≡ (ok tt, t))
  update-set s id f (ok r) t h = (r, refl, h)
  update-set s id f (err x) t h = ground arith

  pub update_password-set :
      (s t : S) (id hash : String) (now : ℕ)
      → update_password T s id hash now ≡ (ok tt, t)
      → (r : UserRecord) × (T.get s id ≡ ok r)
        × (T.set s id (record r { password_hash = hash; updated_at = now }) ≡ (ok tt, t))
  unfolding update_password
  update_password-set s t id hash now h =
      update-set s id (λ r. record r { password_hash = hash; updated_at = now }) (T.get s id) t h

  pub update_role-set :
      (s t : S) (id role : String) (now : ℕ)
      → update_role T s id role now ≡ (ok tt, t)
      → (r : UserRecord) × (T.get s id ≡ ok r)
        × (T.set s id (record r { role = role; updated_at = now }) ≡ (ok tt, t))
  unfolding update_role
  update_role-set s t id role now h =
      update-set s id (λ r. record r { role = role; updated_at = now }) (T.get s id) t h

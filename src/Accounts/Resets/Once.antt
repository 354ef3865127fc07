-- ===== src/Accounts/Resets/Once.antt =====
-- A strata table of reset tokens whose hash column is unique gives out each token once.
use o2ul_portal.Common.{
  ℕ, ◌<◌, String, true, false, ◌≡◌, ap, sym, ◌∙◌, subst, List, [], ◌∷◌, arith, inl, inr,
  Result-cases, ok,
}
use o2ul_portal.Domain.Player.{PasswordResetToken}
use o2ul_portal.Store.{Table, IsFilledTable}
use o2ul_portal.Accounts.{IsResetRepository}
use o2ul_portal.Accounts.Resets.{
  PasswordResetTokenRecord, valid_query, to_password_reset_domain, reset_record, get_valid_by_hash,
  mark_used, strata_resets,
}

-- what is read back of `r`: strata fills in the column `created_at` (auto_now_add) itself
abbrev pub Stamped : PasswordResetTokenRecord → PasswordResetTokenRecord → Type 0
Stamped r q = (created : ℕ) × (q ≡ record r { created_at = created })

-- The search returns rows of the table that meet its condition; the column `token_hash` is unique.
pub record IsResetTable {S : Type 0} (T : Table PasswordResetTokenRecord S) : Type 0 where
  pub is_filled : IsFilledTable T Stamped
  pub valid_found :
      (s : S) (hash : String) (now : ℕ) (r : PasswordResetTokenRecord)
      (rs : List PasswordResetTokenRecord)
      → T.search s (valid_query hash now) ≡ ok (r ∷ rs)
      → (r.token_hash ≡ hash) × (r.used ≡ false) × (now < r.expires_at) × (T.get s r.id ≡ ok r)
  pub hash_unique :
      (s : S) (k j : String) (r q : PasswordResetTokenRecord)
      → T.get s k ≡ ok r
      → T.get s j ≡ ok q
      → r.token_hash ≡ q.token_hash
      → r ≡ q

module _ {S : Type 0} (T : Table PasswordResetTokenRecord S) (law : IsResetTable T) where
  found :
      (s : S) (hash : String) (now : ℕ) (token : PasswordResetToken)
      → get_valid_by_hash T s hash now ≡ ok token
      → (token.token_hash ≡ hash)
        × (token.used ≡ false)
        × (now < token.expires_at)
        × (T.get s token.id ≡ ok (reset_record token))
  unfolding get_valid_by_hash
  found s hash now token h = elim (Result-cases (T.search s (valid_query hash now))) [
    | inl ([], e) ↦ ground arith
    | inl (r ∷ rs, e) ↦
        let is : to_password_reset_domain r ≡ token = ground arith in
        subst
          (λ k.
            (k.token_hash ≡ hash)
            × (k.used ≡ false)
            × (now < k.expires_at)
            × (T.get s k.id ≡ ok (reset_record k)))
          is (law.valid_found s hash now r rs e)
    | inr (x, e) ↦ ground arith
  ]

  mark_used-set :
      (s t : S) (id : String) (used_at : ℕ) (r : PasswordResetTokenRecord)
      → T.get s id ≡ ok r
      → mark_used T s id used_at ≡ (ok tt, t)
      → T.set s id (record r { used = true; used_at = used_at }) ≡ (ok tt, t)
  unfolding mark_used
  mark_used-set s t id used_at r h k = ground arith

  -- The tokens of a strata table with a unique hash column, which fills in the times of creation
  -- itself, are a reset repository.
  pub strata_resets-IsResetRepository : IsResetRepository (strata_resets T)
  strata_resets-IsResetRepository = record {
    valid = λ s hash now token h.
        let (same, fresh, later, row) = found s hash now token h in (same, fresh, later);
    used_once = λ s t hash now used_at later token h k.
        elim (Result-cases (get_valid_by_hash T t hash later)) [
          | inr e ↦ e
          | inl (again, e) ↦
              let (same, _, _, row) = found s hash now token h in
              let (same2, fresh2, _, row2) = found t hash later again e in
              let marked : PasswordResetTokenRecord = record (reset_record token) {
                used = true;
                used_at = used_at;
              } in
              let set = mark_used-set s t token.id used_at (reset_record token) row k in
              let (q, row3, (created, stamped)) = law.is_filled.set_get s t token.id marked set in
              let u : record marked { created_at = created } ≡ reset_record again =
                sym stamped
                ∙ law.hash_unique t token.id again.id q (reset_record again) row3 row2
                    (ap (λ r. r.token_hash) stamped ∙ same ∙ sym same2) in
              let w : true ≡ again.used = ap (λ r. r.used) u in absurd (cc (w, fresh2))
        ];
  }

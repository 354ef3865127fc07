-- ===== src/Tests/Accounts.antt =====
-- One-row tables of users and of reset tokens meet the laws of the repositories.
use o2ul_portal.Common.{
  ℕ, ◌<◌, String, Bool, true, false, not, ◌&&◌, ◌≡◌, Option, none, some, List, [], ◌∷◌, refl, arith,
  eq_iff, ◌==◌, ok, ltb,
}
use o2ul_portal.Store.{Value, text, flag, instant, Table, IsFilledTable}
use o2ul_portal.Accounts.{IsUserRepository, IsUserStore, IsResetRepository}
use o2ul_portal.Accounts.Users.{UserRecord, email_query, strata_users}
use o2ul_portal.Accounts.Users.Lookup.{IsUserTable, strata_users-IsUserRepository}
use o2ul_portal.Accounts.Users.Stamped.{IsStampedUserTable, strata_users-IsUserStore}
use o2ul_portal.Accounts.Resets.{PasswordResetTokenRecord, valid_query, strata_resets}
use o2ul_portal.Accounts.Resets.Once as ResetsOnce
use o2ul_portal.Accounts.Resets.Once.{IsResetTable, strata_resets-IsResetRepository}
use o2ul_portal.Tests.OneRow.{one_get, one_set, one_search, one_row, one_row-IsTable}

abbrev pub has_email : List Value → UserRecord → Bool
has_email (text email ∷ []) r = r.email == email
has_email _ r = true

abbrev pub user_table : Table UserRecord (Option UserRecord)
user_table = one_row (λ r. r.id) has_email

abbrev pub is_valid_token : List Value → PasswordResetTokenRecord → Bool
is_valid_token (text hash ∷ flag b ∷ instant now ∷ []) r =
    r.token_hash == hash && not r.used && ltb now r.expires_at
is_valid_token _ r = true

abbrev pub reset_table : Table PasswordResetTokenRecord (Option PasswordResetTokenRecord)
reset_table = one_row (λ r. r.id) is_valid_token

user_email_found :
    (s : Option UserRecord) (email : String) (r : UserRecord) (rs : List UserRecord)
    → user_table.search s (email_query email) ≡ ok (r ∷ rs)
    → (r.email ≡ email) × (user_table.get s r.id ≡ ok r)
unfolding one_search one_get
user_email_found none email r rs h = ground arith
user_email_found (some q) email r rs h = ground (arith, eq_iff q.email email, eq_iff r.id r.id)

user_email_unique :
    (s : Option UserRecord) (k : String) (r : UserRecord)
    → user_table.get s k ≡ ok r
    → user_table.search s (email_query r.email) ≡ ok (r ∷ [])
unfolding one_search one_get
user_email_unique none k r h = ground arith
user_email_unique (some q) k r h = ground (arith, eq_iff q.id k, eq_iff r.email r.email)

pub user_table-IsUserTable : IsUserTable user_table
user_table-IsUserTable = record {
  is_table = one_row-IsTable (λ r. r.id) has_email;
  email_found = user_email_found;
  email_unique = user_email_unique;
}

reset_valid_found :
    (s : Option PasswordResetTokenRecord) (hash : String) (now : ℕ) (r : PasswordResetTokenRecord)
    (rs : List PasswordResetTokenRecord)
    → reset_table.search s (valid_query hash now) ≡ ok (r ∷ rs)
    → (r.token_hash ≡ hash)
      × (r.used ≡ false)
      × (now < r.expires_at)
      × (reset_table.get s r.id ≡ ok r)
unfolding one_search one_get
reset_valid_found none hash now r rs h = ground arith
reset_valid_found (some q) hash now r rs h =
    ground (arith, eq_iff q.token_hash hash, eq_iff r.id r.id)

reset_hash_unique :
    (s : Option PasswordResetTokenRecord) (k j : String) (r q : PasswordResetTokenRecord)
    → reset_table.get s k ≡ ok r
    → reset_table.get s j ≡ ok q
    → r.token_hash ≡ q.token_hash
    → r ≡ q
unfolding one_get
reset_hash_unique none k j r q h1 h2 e = ground arith
reset_hash_unique (some x) k j r q h1 h2 e = ground arith

reset_table-IsFilledTable : IsFilledTable reset_table ResetsOnce.Stamped
reset_table-IsFilledTable =
    let rows = one_row-IsTable {R = PasswordResetTokenRecord} (λ r. r.id) is_valid_token in
    record {
      set_get = λ s t k r h. (r, rows.set_get s t k r h, (r.created_at, refl));
      set_other = rows.set_other;
    }

pub reset_table-IsResetTable : IsResetTable reset_table
reset_table-IsResetTable = record {
  is_filled = reset_table-IsFilledTable;
  valid_found = reset_valid_found;
  hash_unique = reset_hash_unique;
}

pub users-IsUserRepository : IsUserRepository (strata_users user_table)
users-IsUserRepository = strata_users-IsUserRepository user_table user_table-IsUserTable

pub resets-IsResetRepository : IsResetRepository (strata_resets reset_table)
resets-IsResetRepository = strata_resets-IsResetRepository reset_table reset_table-IsResetTable

-- a table that fills in the times itself
abbrev stamping_table : Table UserRecord (Option UserRecord)
stamping_table = record user_table {
  set = λ s k r.
      one_set (λ (q : UserRecord). q.id) has_email s k
        (record r { created_at = 98; updated_at = 99 });
}

stamping_email_unique :
    (s : Option UserRecord) (k : String) (r : UserRecord) (rs : List UserRecord)
    → stamping_table.get s k ≡ ok r
    → stamping_table.search s (email_query r.email) ≡ ok rs
    → rs ≡ r ∷ []
stamping_email_unique s k r rs h found =
    let only : user_table.search s (email_query r.email) ≡ ok (r ∷ []) =
      user_email_unique s k r h in
    ground arith

stamping_table-IsStampedUserTable : IsStampedUserTable stamping_table
stamping_table-IsStampedUserTable =
    let rows = one_row-IsTable {R = UserRecord} (λ r. r.id) has_email in
    record {
      is_filled = record {
        set_get = λ s t k r h.
            let q : UserRecord = record r { created_at = 98; updated_at = 99 } in
            (q, rows.set_get s t k q h, (98, 99, refl));
        set_other = λ s t k j r h ne.
            rows.set_other s t k j (record r { created_at = 98; updated_at = 99 }) h ne;
      };
      email_found = user_email_found;
      email_unique = stamping_email_unique;
    }

strata_users-IsUserStore_example : IsUserStore (strata_users stamping_table)
strata_users-IsUserStore_example =
    strata_users-IsUserStore stamping_table stamping_table-IsStampedUserTable

strata_resets-IsResetRepository_example : IsResetRepository (strata_resets reset_table)
strata_resets-IsResetRepository_example =
    strata_resets-IsResetRepository reset_table reset_table-IsResetTable

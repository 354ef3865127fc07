-- ===== src/Store.antt =====
-- What the repositories use of github.com/AndrewDonelson/strata, which is not part of the
-- repository: a table of typed records with its four operations, over a state of its own. They are
-- parameters of the models; the laws that a theorem relies on stand beside the repository.
use o2ul_portal.Common.{
  ℕ, String, Bool, Option, none, List, [], ◌≡◌, ◌≢◌, false, Result, Error, ok, err, not_found,
  message,
}
use o2ul_portal.Common.Int.{ℤ}

-- An argument of a query, or a field of a log entry. A time is a count of nanoseconds from Go's
-- zero time.
pub data Value : Type 0 where
  text : String → Value
  flag : Bool → Value
  instant : ℕ → Value

-- `strata.Q().Where(...).OrderBy(...).Desc().Offset(...).Limit(...).Build()`
pub record Query : Type 0 where
  pub condition : String
  pub arguments : List Value
  pub order_by : String
  pub descending : Bool
  pub offset : Option ℤ
  pub limit : Option ℤ

-- `strata.Q().Build()`
abbrev pub query_all : Query
query_all = record {
  condition = "";
  arguments = [];
  order_by = "";
  descending = false;
  offset = none;
  limit = none;
}

-- strata.GetTyped, Set, Delete and SearchTyped at one schema. `not_found` is strata.ErrNotFound.
pub record Table (R S : Type 0) : Type 0 where
  pub get : S → String → Result R
  pub set : S → String → R → Result (Unit {0}) × S
  pub delete : S → String → Result (Unit {0}) × S
  pub search : S → Query → Result (List R)

-- A record that was written is read back under its key, and no other key changes. This is for the
-- columns of a record that strata does not fill in itself.
pub record IsTable {R S : Type 0} (T : Table R S) : Type 0 where
  pub set_get : (s t : S) (k : String) (r : R) → T.set s k r ≡ (ok tt, t) → T.get t k ≡ ok r
  pub set_other :
      (s t : S) (k j : String) (r : R) → T.set s k r ≡ (ok tt, t) → k ≢ j → T.get t j ≡ T.get s j

-- The same for a table with columns that strata fills in itself, those tagged auto_now or
-- auto_now_add: what is read back is `Filled` from what was written.
pub record IsFilledTable {R S : Type 0} (T : Table R S) (Filled : R → R → Type 0) : Type 0 where
  pub set_get :
      (s t : S) (k : String) (r : R)
      → T.set s k r ≡ (ok tt, t)
      → (q : R) × (T.get t k ≡ ok q) × Filled r q
  pub set_other :
      (s t : S) (k j : String) (r : R) → T.set s k r ≡ (ok tt, t) → k ≢ j → T.get t j ≡ T.get s j

-- `if err != nil { if errors.Is(err, strata.ErrNotFound) { return ..., missing }; return ..., err }`
abbrev pub missing_as {ℓ} : {A : Type ℓ} → Error → Result A → Result A
missing_as missing (ok a) = ok a
missing_as missing (err not_found) = err missing
missing_as missing (err e) = err e

-- `errors.New("not found")`, which is no application.ErrNotFound
abbrev pub text_not_found : Error
text_not_found = message "not found"

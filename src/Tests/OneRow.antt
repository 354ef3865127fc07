-- ===== src/Tests/OneRow.antt =====
-- A small strata table: it holds one row at most, and refuses a second one.
use o2ul_portal.Common.{
  String, Bool, ◌≡◌, ◌≢◌, Option, none, some, List, [], ◌∷◌, arith, eq_iff, ◌==◌, if◌then◌else◌,
  Result, ok, err, not_found, message,
}
use o2ul_portal.Store.{Value, Query, Table, IsTable}

module _ {R : Type 0} (key : R → String) (holds : List Value → R → Bool) where
  unfoldable pub one_get : Option R → String → Result R
  one_get none k = err not_found
  one_get (some r) k = if key r == k then ok r else err not_found

  unfoldable pub one_set : Option R → String → R → Result (Unit {0}) × Option R
  one_set none k r = if key r == k then (ok tt, some r) else (err (message "key"), none)
  one_set (some q) k r =
      if key r == k
      then if key q == k then (ok tt, some r) else (err (message "full"), some q)
      else (err (message "key"), some q)

  abbrev one_delete : Option R → String → Result (Unit {0}) × Option R
  one_delete none k = (ok tt, none)
  one_delete (some r) k = if key r == k then (ok tt, none) else (ok tt, some r)

  unfoldable pub one_search : Option R → Query → Result (List R)
  one_search none q = ok []
  one_search (some r) q = if holds q.arguments r then ok (r ∷ []) else ok []

  abbrev pub one_row : Table R (Option R)
  one_row = record { get = one_get; set = one_set; delete = one_delete; search = one_search }

  one_set_get :
      (s t : Option R) (k : String) (r : R) → one_set s k r ≡ (ok tt, t) → one_get t k ≡ ok r
  unfolding one_set one_get
  one_set_get none t k r h = ground arith
  one_set_get (some q) t k r h = ground arith

  one_set_other :
      (s t : Option R) (k j : String) (r : R)
      → one_set s k r ≡ (ok tt, t)
      → k ≢ j
      → one_get t j ≡ one_get s j
  unfolding one_set one_get
  one_set_other none t k j r h ne = ground (arith, eq_iff (key r) k, eq_iff (key r) j)
  one_set_other (some q) t k j r h ne =
      ground (arith, eq_iff (key r) k, eq_iff (key r) j, eq_iff (key q) k, eq_iff (key q) j)

  pub one_row-IsTable : IsTable one_row
  one_row-IsTable = record { set_get = one_set_get; set_other = one_set_other }

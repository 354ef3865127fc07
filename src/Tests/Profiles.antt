-- ===== src/Tests/Profiles.antt =====
-- The profiles over one-row tables.
use o2ul_portal.Common.{
  eq_iff, ◌≡◌, refl, String, Bool, true, false, none, some, Option, List, [], ◌∷◌, map, ◌==◌, ◌+◌,
  ◌^◌, ok, err,
}
use o2ul_portal.Common.Int.{pos}
use o2ul_portal.Domain.Player.{Player}
use o2ul_portal.Store.{Value, Table}
use o2ul_portal.Accounts.Users.{UserRecord, strata_users, list, from_user_record}
use o2ul_portal.Portal.Profiles.{ProfileRecord, strata_profiles}
use o2ul_portal.Portal.Profiles.Listing.{
  list_item, slice_panic, page_of, list_users, list_users-page,
}
use o2ul_portal.Tests.OneRow.{one_search, one_row}

abbrev pub any_row : {R : Type 0} → List Value → R → Bool
any_row arguments r = true

abbrev profiles : Table ProfileRecord (Option ProfileRecord)
profiles = one_row (λ r. r.player_id) any_row

pub a_b : ◌≡◌ {A = String} "a" "b" → ⊥
a_b e = let k : ("a" == "b") ≡ true = (eq_iff "a" "b").1 e in cc

abbrev ann_row : Option UserRecord
ann_row = some (record {
  id = "a";
  email = "ann@o2ul";
  username = "Ann";
  password_hash = "#";
  role = "registered";
  created_at = 1;
  updated_at = 1;
})

abbrev everyone : Table UserRecord (Option UserRecord)
everyone = one_row (λ r. r.id) any_row

abbrev ann : List Player
ann = elim ann_row [ none ↦ [] | some r ↦ from_user_record r ∷ [] ]

listed : (strata_users everyone).list ann_row ≡ ok ann
unfolding list one_search
listed = refl

-- Page 2 ^ 62 + 1 of two users each: the offset is 2 ^ 63.
page_panics :
    list_users
      (strata_users everyone)
      (strata_profiles profiles)
      (λ found. found)
      ann_row
      none
      (pos (2 ^ 62 + 1))
      (pos 2)
    ≡ err slice_panic
unfolding list_users page_of list one_search
page_panics = refl

list_users-page_example :
    list_users
      (strata_users everyone)
      (strata_profiles profiles)
      (λ found. found)
      ann_row
      none
      (pos 0)
      (pos 500)
    ≡ ok (record {
      items = map (list_item (strata_users everyone) (strata_profiles profiles) none) ann;
      page = 1;
      page_size = 200;
      has_more = false;
      total_count = 1;
    })
list_users-page_example =
    list_users-page (strata_users everyone) (strata_profiles profiles) (λ found. found) ann_row none
      (pos 0) (pos 500) ann listed

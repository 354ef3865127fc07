-- ===== src/Portal/Profiles/Listing.antt =====
-- `O2ULUsersService.List` and `GetCurrent`. The order that sort.Slice gives to the users, newest
-- first, is the parameter `newest_first`, since it leaves the order of equals open.
use o2ul_portal.Common.{
  ℕ, zero, suc, Bool-cases, length-drop, ◌+◌, ◌-◌, ◌*◌, ◌%◌, ◌^◌, ◌≤◌, ◌≡◌, refl, ap, String, Bool,
  Option, none, some, List, [], ◌∷◌, map, arith, leb, ltb, is_blank, if◌then◌else◌, length, take,
  drop, Result, inl, inr, ok, err, message, Error,
}
use o2ul_portal.Common.Int.{ℤ, pos, pos_part, leb_ℤ}
use o2ul_portal.Domain.Role.{Role}
use o2ul_portal.Domain.Player.{Player}
use o2ul_portal.Accounts.{UserRepository}
use o2ul_portal.Portal.Profiles.{ProfileRepository}
use o2ul_portal.Portal.Profiles.Users.{first_non_empty, profile_of}

-- the entries of the map that GetCurrent returns
pub record CurrentView : Type 0 where
  pub id : String
  pub email : String
  pub username : String
  pub role : Role
  pub name : String
  pub image : String
  pub bio : String
  pub phone : String
  pub is_online : Bool
  pub is_anonymous : Bool
  pub last_login_date : ℤ
  pub last_seen : ℤ
  pub bg_image_url : String
  pub bg_image_storage_id : String

-- one of the `items` of List
pub record ListItem : Type 0 where
  pub id : String
  pub email : String
  pub username : String
  pub role : Role
  pub name : String
  pub image : String

pub record UserPage : Type 0 where
  pub items : List ListItem
  pub page : ℕ
  pub page_size : ℕ
  pub has_more : Bool
  pub total_count : ℕ

abbrev pub page_number : ℤ → ℕ
page_number page = if leb_ℤ page (pos 0) then 1 else pos_part page

abbrev pub page_length : ℤ → ℕ
page_length size =
    if leb_ℤ size (pos 0) then 50 else if ltb 200 (pos_part size) then 200 else pos_part size

abbrev pub at_most : ℕ → ℕ → ℕ
at_most n limit = if ltb limit n then limit else n

-- `users[offset:end]` with a negative offset
abbrev pub slice_panic : Error
slice_panic = message "slice bounds out of range"

module _ {U S : Type 0} (users : UserRepository U) (profiles : ProfileRepository S) where
  unfoldable pub get_current : U → S → String → Result (Option CurrentView)
  get_current u s caller_id =
      if is_blank caller_id then ok none else elim (users.by_id u caller_id) [
        | err e ↦ err e
        | ok user ↦
            let profile = profile_of users profiles s caller_id in
            ok (
              some (record {
                id = user.id;
                email = user.email;
                username = first_non_empty (profile.username ∷ user.username ∷ []);
                role = user.role;
                name = first_non_empty (profile.name ∷ user.username ∷ []);
                image = profile.image;
                bio = profile.bio;
                phone = profile.phone;
                is_online = profile.is_online;
                is_anonymous = profile.is_anonymous;
                last_login_date = profile.last_login_date_unix;
                last_seen = profile.last_seen_unix;
                bg_image_url = profile.bg_image_url;
                bg_image_storage_id = profile.bg_image_storage_id;
              }))
      ]

  abbrev pub list_item : S → Player → ListItem
  list_item s user =
      let profile = profile_of users profiles s user.id in
      record {
        id = user.id;
        email = user.email;
        username = first_non_empty (profile.username ∷ user.username ∷ []);
        role = user.role;
        name = first_non_empty (profile.name ∷ user.username ∷ []);
        image = profile.image;
      }

  -- the page of the sorted users; the offset is computed in int64, where it may be negative
  unfoldable pub page_of : S → List Player → ℕ → ℕ → Result UserPage
  page_of s sorted page size =
      let raw = (page - 1) * size % 2 ^ 64 in
      let total = length sorted in
      let offset = at_most raw total in
      let last = at_most (offset + size) total in
      if leb (2 ^ 63) raw
      then err slice_panic
      else ok (record {
        items = map (list_item s) (take (last - offset) (drop offset sorted));
        page = page;
        page_size = size;
        has_more = ltb last total;
        total_count = total;
      })

  unfoldable pub list_users : (List Player → List Player) → U → S → ℤ → ℤ → Result UserPage
  list_users newest_first u s page size = elim (users.list u) [
    | err e ↦ err e
    | ok found ↦ page_of s (newest_first found) (page_number page) (page_length size)
  ]

module _ {A : Type 0} where
  take_same : (n m : ℕ) (xs : List A) → length xs ≤ n → length xs ≤ m → take n xs ≡ take m xs
  take_same zero zero [] h k = refl
  take_same zero (suc m) [] h k = refl
  take_same (suc n) zero [] h k = refl
  take_same (suc n) (suc m) [] h k = refl
  take_same zero m (x ∷ xs) h k = absurd (omega (arith, h))
  take_same (suc n) zero (x ∷ xs) h k = absurd (omega (arith, k))
  take_same (suc n) (suc m) (x ∷ xs) h k =
      ap (λ ys. x ∷ ys) (take_same n m xs (omega (arith, h)) (omega (arith, k)))

  drop_all : (n : ℕ) (xs : List A) → length xs ≤ n → drop n xs ≡ []
  drop_all zero [] h = refl
  drop_all (suc n) [] h = refl
  drop_all zero (x ∷ xs) h = absurd (omega (arith, h))
  drop_all (suc n) (x ∷ xs) h = drop_all n xs (omega (arith, h))

  -- Go's slice from an offset to an end that are both cut down to the length.
  slice-take :
      (n size : ℕ) (xs : List A)
      → take
          (at_most (at_most n (length xs) + size) (length xs) - at_most n (length xs))
          (drop (at_most n (length xs)) xs)
        ≡ take size (drop n xs)
  slice-take n size xs = elim (Bool-cases (ltb (length xs) n)) [
    | inl over ↦
        let a : at_most n (length xs) ≡ length xs = rw over refl in
        rw a (
          rw (drop_all (length xs) xs (omega arith))
            (rw (drop_all n xs (ground arith)) (take_same _ size [] (omega arith) (omega arith))))
    | inr inside ↦
        let a : at_most n (length xs) ≡ n = rw inside refl in
        rw a (elim (Bool-cases (ltb (length xs) (n + size))) [
          | inl long ↦ rw long (
              take_same _ size (drop n xs) (omega (arith, length-drop n xs))
                (ground (arith, length-drop n xs)))
          | inr short ↦ rw short (ap (λ m. take m (drop n xs)) (omega arith))
        ])
  ]

more_after :
    (n size total : ℕ) → ltb (at_most (at_most n total + size) total) total ≡ ltb (n + size) total
more_after n size total = ground arith

module _ {U S : Type 0} (users : UserRepository U) (profiles : ProfileRepository S) where
  -- When the users can be read, List gives out at most a page size of them, from the page's offset
  -- of the sorted order on, and says whether more follow; it panics where the offset, computed in
  -- int64, is negative.
  pub list_users-page :
      (newest_first : List Player → List Player) (u : U) (s : S) (page size : ℤ)
      (found : List Player)
      → users.list u ≡ ok found
      → list_users users profiles newest_first u s page size ≡ (
          if leb (2 ^ 63) ((page_number page - 1) * page_length size % 2 ^ 64)
          then err slice_panic
          else ok (record {
            items = map (list_item users profiles s) (
                take
                  (page_length size)
                  (drop ((page_number page - 1) * page_length size % 2 ^ 64) (newest_first found)));
            page = page_number page;
            page_size = page_length size;
            has_more =
                ltb
                  ((page_number page - 1) * page_length size % 2 ^ 64 + page_length size)
                  (length (newest_first found));
            total_count = length (newest_first found);
          }))
  unfolding list_users page_of
  list_users-page newest_first u s page size found h =
      let raw = (page_number page - 1) * page_length size % 2 ^ 64 in
      let sorted = newest_first found in
      rw (h, list_users)
        (elim (Bool-cases (leb (2 ^ 63) raw)) [
          | inl e ↦ rw e refl
          | inr e ↦
              rw
                (
                  e,
                  slice-take raw (page_length size) sorted,
                  more_after raw (page_length size) (length sorted),
                )
                refl
        ])

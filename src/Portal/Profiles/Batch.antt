-- ===== src/Portal/Profiles/Batch.antt =====
-- What a batch of profiles contains.
use o2ul_portal.Common.{
  String, true, ◌≡◌, refl, List, [], ◌∷◌, ◌++◌, arith, eq_iff, ◌==◌, inl, inr, Bool-cases, All,
  All-mono, subst, sym, Result-cases, ok,
}
use o2ul_portal.Accounts.{UserRepository}
use o2ul_portal.Portal.Profiles.{Profile, ProfileRepository}
use o2ul_portal.Portal.Profiles.Users.{seen_in, anonymous, add_missing, batch_profiles}

-- A profile for the id is in the list.
abbrev pub IsCovered : List Profile → String → Type 0
IsCovered out id = seen_in id out ≡ true

seen_in-left : (id : String) (xs ys : List Profile) → IsCovered xs id → IsCovered (xs ++ ys) id
unfolding seen_in
seen_in-left id [] ys h = cc
seen_in-left id (x ∷ xs) ys h = ground (arith, seen_in-left id xs ys)

seen_in-right : (id : String) (xs ys : List Profile) → IsCovered ys id → IsCovered (xs ++ ys) id
unfolding seen_in
seen_in-right id [] ys h = h
seen_in-right id (x ∷ xs) ys h = ground (arith, seen_in-right id xs ys h)

seen_in-between :
    (id : String) (xs ys : List Profile) (y : Profile)
    → IsCovered (xs ++ ys) id
    → IsCovered (xs ++ y ∷ ys) id
unfolding seen_in
seen_in-between id [] ys y h = ground arith
seen_in-between id (x ∷ xs) ys y h = ground (arith, seen_in-between id xs ys y)

-- Each id of the list is in the profiles that were seen or in those that are added.
add_missing-step :
    (seen : List Profile) (id j : String) (ids : List String)
    → IsCovered (seen ++ add_missing seen ids) j
    → IsCovered (seen ++ add_missing seen (id ∷ ids)) j
unfolding add_missing seen_in
add_missing-step seen id j ids h = elim (Bool-cases (seen_in id seen)) [
  | inl e ↦ rw (e, add_missing) h
  | inr e ↦ rw (e, add_missing) (seen_in-between j seen (add_missing seen ids) (anonymous id) h)
]

add_missing-covers :
    (seen : List Profile) (ids : List String) → All (IsCovered (seen ++ add_missing seen ids)) ids
unfolding add_missing seen_in
add_missing-covers seen [] = tt
add_missing-covers seen (id ∷ ids) = (
  elim (Bool-cases (seen_in id seen)) [
    | inl e ↦ rw (e, add_missing) (seen_in-left id seen (add_missing seen ids) e)
    | inr e ↦
        let k : (id == id) ≡ true = (eq_iff id id).1 refl in
        rw (e, add_missing)
          (seen_in-right id seen (anonymous id ∷ add_missing seen ids) (rw (k, seen_in) refl))
  ],
  All-mono (λ j. add_missing-step seen id j ids) ids (add_missing-covers seen ids),
)

module _ {U S : Type 0} (users : UserRepository U) (profiles : ProfileRepository S) where
  -- BatchProfiles answers for every id that it was asked for, and keeps the profiles that were
  -- found as they are: what it adds comes after them.
  pub batch_profiles-covers :
      (s : S) (ids : List String) (out : List Profile)
      → batch_profiles users profiles s ids ≡ ok out
      → All (IsCovered out) ids
        × ((found : List Profile) × (added : List Profile) × (profiles.batch_get_by_player_ids s ids
              ≡ ok found)
            × (out ≡ found ++ added))
  unfolding batch_profiles
  batch_profiles-covers s ids out h = elim (Result-cases (profiles.batch_get_by_player_ids s ids)) [
    | inl (found, e) ↦
        let is : out ≡ found ++ add_missing found ids = ground arith in
        (
          subst (λ o. All (IsCovered o) ids) (sym is) (add_missing-covers found ids),
          (found, add_missing found ids, e, is),
        )
    | inr (x, e) ↦ ground arith
  ]

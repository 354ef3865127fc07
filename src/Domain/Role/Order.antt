-- ===== src/Domain/Role/Order.antt =====
-- The order that CanActAs puts on the roles.
use mathlib.Core.Path.{subst₂}
use native.Mathlib.Decide.{dec_le}
use o2ul_portal.Common.{
  ℕ, ◌≤◌, ◌≡◌, refl, ap, ◌↔◌, ◌⊎◌, inl, inr, true, false, none, some, arith, Option-cases, lookup,
  lookup-cons, lookup-nil, ◌==◌,
}
use o2ul_portal.Domain.Role.{
  Role, role_priority, role_aliases, normalize_role, can_act_as, is_valid_role, is_registered_user,
  role_subscriber, role_moderator,
}

-- The place of a canonical role name in the hierarchy.
pub data Rank : Role → ℕ → Type 0 where
  guest : Rank "guest" 1
  registered : Rank "registered" 2
  subscriber : Rank "subscriber" 3
  moderator : Rank "moderator" 4
  sys_op : Rank "sysop" 5
  admin : Rank "admin" 6
  master_admin : Rank "master_admin" 7

-- The table lists the seven canonical names.
pub lookup-Rank : (r : Role) (n : ℕ) → lookup r role_priority ≡ some n → Rank r n
lookup-Rank r n h = elim (lookup-cons r _ _ n _ h) [
  | inl (e, f) ↦ subst₂ Rank e f guest
  | inr h ↦ elim (lookup-cons r _ _ n _ h) [
    | inl (e, f) ↦ subst₂ Rank e f registered
    | inr h ↦ elim (lookup-cons r _ _ n _ h) [
      | inl (e, f) ↦ subst₂ Rank e f subscriber
      | inr h ↦ elim (lookup-cons r _ _ n _ h) [
        | inl (e, f) ↦ subst₂ Rank e f moderator
        | inr h ↦ elim (lookup-cons r _ _ n _ h) [
          | inl (e, f) ↦ subst₂ Rank e f sys_op
          | inr h ↦ elim (lookup-cons r _ _ n _ h) [
            | inl (e, f) ↦ subst₂ Rank e f admin
            | inr h ↦ elim (lookup-cons r _ _ n _ h) [
              | inl (e, f) ↦ subst₂ Rank e f master_admin
              | inr h ↦ elim (lookup-nil r n h) [ ]
            ]
          ]
        ]
      ]
    ]
  ]
]

pub Rank-lookup : {r : Role} {n : ℕ} → Rank r n → lookup r role_priority ≡ some n
unfolding lookup
Rank-lookup guest = refl
Rank-lookup r = refl

pub Rank-normalize : {r : Role} {n : ℕ} → Rank r n → normalize_role r ≡ r
unfolding normalize_role lookup
Rank-normalize guest = refl
Rank-normalize r = refl

normalize_of_none : (r : Role) → lookup r role_aliases ≡ none → normalize_role r ≡ r
unfolding normalize_role
normalize_of_none r e = rw (e, normalize_role)

normalize_of_some : (r c : Role) → lookup r role_aliases ≡ some c → normalize_role r ≡ c
unfolding normalize_role
normalize_of_some r c e = rw (e, normalize_role)

alias_canonical : (r c : Role) → lookup r role_aliases ≡ some c → normalize_role c ≡ c
alias_canonical r c e = elim (lookup-cons r _ _ c _ e) [
  | inl (_, f) ↦ rw (← f) (Rank-normalize registered)
  | inr e ↦ elim (lookup-cons r _ _ c _ e) [
    | inl (_, f) ↦ rw (← f) (Rank-normalize sys_op)
    | inr e ↦ absurd (lookup-nil r c e)
  ]
]

-- An alias stands for a canonical name, never for another alias.
pub normalize_role_idem : (r : Role) → normalize_role (normalize_role r) ≡ normalize_role r
normalize_role_idem r = elim (Option-cases (lookup r role_aliases)) [
  | inl e ↦ ap normalize_role (normalize_of_none r e)
  | inr (c, e) ↦ rw (normalize_of_some r c e) (alias_canonical r c e)
]

pub is_valid_role-normalize : (r : Role) → is_valid_role (normalize_role r) ≡ is_valid_role r
unfolding is_valid_role
is_valid_role-normalize r = rw (normalize_role_idem r)

-- What a role counts as: its rank once its alias is resolved.
abbrev pub HasRank : Role → ℕ → Type 0
HasRank r n = Rank (normalize_role r) n

-- Every role is invalid or has exactly one rank.
pub rank-cases :
    (r : Role) → (is_valid_role r ≡ false) ⊎ ((n : ℕ) × (is_valid_role r ≡ true) × HasRank r n)
unfolding is_valid_role
rank-cases r = elim (Option-cases (lookup (normalize_role r) role_priority)) [
  | inl e ↦ inl (rw e)
  | inr (n, e) ↦ inr (n, rw e, lookup-Rank _ n e)
]

HasRank-lookup : (r : Role) (n : ℕ) → HasRank r n → lookup (normalize_role r) role_priority ≡ some n
HasRank-lookup r n h = Rank-lookup h

pub HasRank-unique : (r : Role) {m n : ℕ} → HasRank r m → HasRank r n → m ≡ n
HasRank-unique r {m} {n} h k = cc (HasRank-lookup r m h, HasRank-lookup r n k)

pub HasRank-valid : (r : Role) {n : ℕ} → HasRank r n → is_valid_role r ≡ true
unfolding is_valid_role
HasRank-valid r {n} h = rw (HasRank-lookup r n h)

-- CanActAs holds exactly of two valid roles of which the first ranks at least as high, where
-- guest < registered < subscriber < moderator < sysop < admin < master_admin and the aliases
-- count as what they stand for.
pub can_act_as_iff :
    (current required : Role)
    → (can_act_as current required ≡ true)
      ↔ ((m : ℕ) × (n : ℕ) × HasRank current m × HasRank required n × (n ≤ m))
unfolding can_act_as
can_act_as_iff a b = (
  λ h. elim (Option-cases (lookup (normalize_role a) role_priority)) [
    | inl e ↦ ground arith
    | inr (m, e) ↦ elim (Option-cases (lookup (normalize_role b) role_priority)) [
      | inl f ↦ ground arith
      | inr (n, f) ↦ (m, n, lookup-Rank _ m e, lookup-Rank _ n f, ground arith)
    ]
  ],
  λ (m, n, h, k, le). ground (arith, HasRank-lookup a m h, HasRank-lookup b n k),
)

-- CanActAs is a total preorder on the valid roles.
pub can_act_as_preorder :
    ((r : Role) → is_valid_role r ≡ true → can_act_as r r ≡ true)
    × ((a b c : Role) → can_act_as a b ≡ true → can_act_as b c ≡ true → can_act_as a c ≡ true)
    × ((a b : Role)
        → is_valid_role a ≡ true
        → is_valid_role b ≡ true
        → (can_act_as a b ≡ true) ⊎ (can_act_as b a ≡ true))
can_act_as_preorder = (reflexive, transitive, total)
  where
    reflexive : (r : Role) → is_valid_role r ≡ true → can_act_as r r ≡ true
    reflexive r v = elim (rank-cases r) [
      | inl e ↦ cc
      | inr (n, _, h) ↦ (can_act_as_iff r r).1 (n, n, h, h, omega arith)
    ]

    transitive :
        (a b c : Role) → can_act_as a b ≡ true → can_act_as b c ≡ true → can_act_as a c ≡ true
    transitive a b c p q =
        let (i, j, ha, hb, le) = (can_act_as_iff a b).0 p in
        let (k, l, hb', hc, le') = (can_act_as_iff b c).0 q in
        (can_act_as_iff a c).1 (i, l, ha, hc, omega (arith, HasRank-unique b hb hb'))

    total :
        (a b : Role)
        → is_valid_role a ≡ true
        → is_valid_role b ≡ true
        → (can_act_as a b ≡ true) ⊎ (can_act_as b a ≡ true)
    total a b v w = elim (rank-cases a) [
      | inl e ↦ cc
      | inr (m, _, h) ↦ elim (rank-cases b) [
        | inl e ↦ cc
        | inr (n, _, k) ↦ elim (dec_le n m) [
          | yes le ↦ inl ((can_act_as_iff a b).1 (m, n, h, k, le))
          | no lt ↦ inr ((can_act_as_iff b a).1 (n, m, k, h, omega arith))
        ]
      ]
    ]

rank_high :
    {r : Role} {m : ℕ}
    → Rank r m
    → 4 ≤ m
    → (is_registered_user r ≡ true) × ((r == role_subscriber) ≡ false)
unfolding is_registered_user is_valid_role normalize_role lookup
rank_high guest le = absurd (omega arith)
rank_high registered le = absurd (omega arith)
rank_high subscriber le = absurd (omega arith)
rank_high moderator le = (refl, refl)
rank_high sys_op le = (refl, refl)
rank_high admin le = (refl, refl)
rank_high master_admin le = (refl, refl)

-- Who can act as a moderator is registered and no subscriber, and a subscriber cannot.
pub moderator_registered :
    (r : Role)
    → can_act_as r role_moderator ≡ true
    → (is_registered_user (normalize_role r) ≡ true)
      × ((normalize_role r == role_subscriber) ≡ false)
moderator_registered r h =
    let (m, n, high, low, le) = (can_act_as_iff r role_moderator).0 h in
    let four : HasRank role_moderator 4 = rw (Rank-normalize moderator) moderator in
    let e = HasRank-unique role_moderator low four in rank_high high (omega (arith, le, e))

pub subscriber_below : can_act_as role_subscriber role_moderator ≡ false
unfolding can_act_as normalize_role lookup
subscriber_below = refl

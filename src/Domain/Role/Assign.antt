-- ===== src/Domain/Role/Assign.antt =====
-- Who may assign which role (CanAssignRole of internal/domain/user.go).
use o2ul_portal.Common.{ℕ, ◌≤◌, ◌<◌, ◌≡◌, ◌↔◌, inl, inr, true, false, arith}
use o2ul_portal.Domain.Role.{
  Role, normalize_role, is_valid_role, may_assign, can_assign_role, can_act_as,
}
use o2ul_portal.Domain.Role.Order.{
  Rank, guest, registered, subscriber, moderator, sys_op, admin, master_admin, HasRank,
  HasRank-valid, rank-cases, is_valid_role-normalize, HasRank-unique, can_act_as_iff,
}

-- What an assigner of rank `m` may hand out.
abbrev pub Assigns : ℕ → ℕ → Type 0
Assigns m n = (4 ≤ m) × (2 ≤ n) × (n < m)

-- The switch of CanAssignRole on two canonical roles.
may_assign_iff :
    {a t : Role} {m n : ℕ} → Rank a m → Rank t n → (may_assign a t ≡ true) ↔ Assigns m n
unfolding may_assign
may_assign_iff guest guest = ground arith
may_assign_iff guest t = ground arith
may_assign_iff registered guest = ground arith
may_assign_iff registered t = ground arith
may_assign_iff subscriber guest = ground arith
may_assign_iff subscriber t = ground arith
may_assign_iff moderator guest = ground arith
may_assign_iff moderator t = ground arith
may_assign_iff sys_op guest = ground arith
may_assign_iff sys_op t = ground arith
may_assign_iff admin guest = ground arith
may_assign_iff admin t = ground arith
may_assign_iff master_admin guest = ground arith
may_assign_iff master_admin t = ground arith

guarded_actor : (a t : Role) → is_valid_role a ≡ false → can_assign_role a t ≡ false
unfolding can_assign_role
guarded_actor a t e = ground (arith, is_valid_role-normalize a)

guarded_target : (a t : Role) → is_valid_role t ≡ false → can_assign_role a t ≡ false
unfolding can_assign_role
guarded_target a t e = ground (arith, is_valid_role-normalize t)

guarded_both :
    (a t : Role)
    → is_valid_role a ≡ true
    → is_valid_role t ≡ true
    → can_assign_role a t ≡ may_assign (normalize_role a) (normalize_role t)
unfolding can_assign_role
guarded_both a t v w = ground (arith, is_valid_role-normalize a, is_valid_role-normalize t)

-- CanAssignRole holds exactly of two valid roles where the assigner is at least a moderator and
-- outranks the target, and the target is at least registered.
pub can_assign_role_iff :
    (assigner target : Role)
    → (can_assign_role assigner target ≡ true)
      ↔ ((m : ℕ) × (n : ℕ) × HasRank assigner m × HasRank target n × Assigns m n)
can_assign_role_iff a t = elim (rank-cases a) [
  | inl e ↦ (λ h. cc (guarded_actor a t e, h), λ (m, n, ha, ht, r). cc (e, HasRank-valid a ha))
  | inr (m, v, ha) ↦ elim (rank-cases t) [
    | inl e ↦ (λ h. cc (guarded_target a t e, h), λ (i, n, hi, ht, r). cc (e, HasRank-valid t ht))
    | inr (n, w, ht) ↦ (
      λ h. (m, n, ha, ht, (may_assign_iff ha ht).0 (rw (← guarded_both a t v w) h)),
      λ (i, j, hi, hj, r). rw (guarded_both a t v w) ((may_assign_iff hi hj).1 r),
    )
  ]
]

-- Whoever may assign a role outranks it: the assigner can act as the target, and who has the
-- target role cannot act as the assigner.
pub assigner_outranks :
    (assigner target : Role)
    → can_assign_role assigner target ≡ true
    → (can_act_as assigner target ≡ true) × ¬ (can_act_as target assigner ≡ true)
assigner_outranks a t h =
    let (m, n, ha, ht, rules) = (can_assign_role_iff a t).0 h in
    (
      (can_act_as_iff a t).1 (m, n, ha, ht, omega arith),
      λ back.
          let (i, j, ht', ha', le) = (can_act_as_iff t a).0 back in
          omega (arith, HasRank-unique a ha ha', HasRank-unique t ht ht'),
    )

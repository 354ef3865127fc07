-- ===== src/Tests/Roles.antt =====
-- The role rules at an administrator and a moderator.
use o2ul_portal.Common.{ℕ, ◌≡◌, refl, ◌↔◌, true, lookup}
use o2ul_portal.Domain.Role.{
  role_admin, role_moderator, normalize_role, is_valid_role, may_assign, can_assign_role,
}
use o2ul_portal.Domain.Role.Order.{HasRank}
use o2ul_portal.Domain.Role.Assign.{Assigns, can_assign_role_iff}

can_assign_role_iff_example :
    (can_assign_role role_admin "systop" ≡ true)
    ↔ ((m : ℕ) × (n : ℕ) × HasRank role_admin m × HasRank "systop" n × Assigns m n)
can_assign_role_iff_example = can_assign_role_iff role_admin "systop"

admin_assigns : can_assign_role role_admin role_moderator ≡ true
unfolding can_assign_role may_assign is_valid_role normalize_role lookup
admin_assigns = refl

-- ===== src/Domain/Role.antt =====
-- Roles and the permission rules (internal/domain/user.go). A role is a text: anything may come
-- in from a token or a request, and only the seven of `role_priority` are valid.
pub mod Order
pub mod Assign
use Prim.Native.Char.{Char}
use o2ul_portal.Common.{
  ℕ, String, Bool, true, false, ◌&&◌, ◌||◌, not, Option, none, some, List, [], ◌∷◌, ◌==◌, leb,
  if◌then◌else◌, Map, lookup, trim_space, to_lower,
}

abbrev pub Role : Type 0
Role = String

abbrev pub role_master_admin : Role
role_master_admin = "master_admin"

abbrev pub role_admin : Role
role_admin = "admin"

abbrev pub role_sys_op : Role
role_sys_op = "sysop"

abbrev pub role_moderator : Role
role_moderator = "moderator"

abbrev pub role_subscriber : Role
role_subscriber = "subscriber"

abbrev pub role_registered : Role
role_registered = "registered"

abbrev pub role_guest : Role
role_guest = "guest"

-- var rolePriority
abbrev pub role_priority : Map ℕ
role_priority =
    (role_guest, 1)
    ∷ (role_registered, 2)
    ∷ (role_subscriber, 3)
    ∷ (role_moderator, 4)
    ∷ (role_sys_op, 5)
    ∷ (role_admin, 6)
    ∷ (role_master_admin, 7)
    ∷ []

-- var roleAliases
abbrev pub role_aliases : Map Role
role_aliases = ("member", role_registered) ∷ ("systop", role_sys_op) ∷ []

unfoldable pub normalize_role : Role → Role
normalize_role role = elim (lookup role role_aliases) [ some canonical ↦ canonical | none ↦ role ]

abbrev is_some {ℓ} : {A : Type ℓ} → Option A → Bool
is_some (some a) = true
is_some none = false

abbrev at_least : Option ℕ → Option ℕ → Bool
at_least (some current) (some required) = leb required current
at_least _ _ = false

unfoldable pub can_act_as : Role → Role → Bool
can_act_as current required =
    at_least (lookup (normalize_role current) role_priority)
      (lookup (normalize_role required) role_priority)

unfoldable pub is_valid_role : Role → Bool
is_valid_role role = is_some (lookup (normalize_role role) role_priority)

-- The role read from a text, and whether it is valid.
unfoldable pub parse_role : (Char → Char) → String → Role × Bool
parse_role beyond_ascii raw =
    let r = normalize_role (to_lower beyond_ascii (trim_space raw)) in
    (r, is_some (lookup r role_priority))

unfoldable pub is_registered_user : Role → Bool
is_registered_user role = let r = normalize_role role in not (r == role_guest) && is_valid_role r

-- the `switch` of CanAssignRole, on normalised roles
unfoldable pub may_assign : Role → Role → Bool
may_assign actor wanted =
    if wanted == role_master_admin
    then false
    else if wanted == role_admin
    then actor == role_master_admin
    else if wanted == role_sys_op
    then actor == role_master_admin || actor == role_admin
    else if wanted == role_moderator
    then actor == role_master_admin || actor == role_admin || actor == role_sys_op
    else if wanted == role_subscriber || wanted == role_registered
    then actor == role_master_admin
      || actor == role_admin
      || actor == role_sys_op
      || actor == role_moderator
    else false

unfoldable pub can_assign_role : Role → Role → Bool
can_assign_role assigner target =
    let actor = normalize_role assigner in
    let wanted = normalize_role target in
    if not (is_valid_role actor) || not (is_valid_role wanted)
    then false
    else may_assign actor wanted

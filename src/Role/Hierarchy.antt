-- ===== src/Role/Hierarchy.antt =====
-- What `role_hierarchy` means for the filters of syncmaster/db/repositories/group.py.
use syncmaster.Prelude.{◌≡◌, refl, true, false, some, any, arith}
use syncmaster.Db.{GroupMemberRole, maintainer, developer, owner, guest, superuser}
use syncmaster.Role.{value, of_value, role_eq, is_at_least_privilege_level, roles_at_least}

-- The text of a role is read back as that role.
pub of_value-value : (r : GroupMemberRole) → of_value (value r) ≡ some r
unfolding of_value value
of_value-value maintainer = refl
of_value-value developer = refl
of_value-value owner = refl
of_value-value guest = refl
of_value-value superuser = refl

-- A role is in `roles_at_least(role)` exactly when `is_at_least_privilege_level` puts it at or
-- above `role`: the filter of the memberships and the test for the owned groups agree.
pub roles_at_least-is_at_least_privilege_level :
    (r role : GroupMemberRole)
    → any (role_eq r) (roles_at_least role) ≡ is_at_least_privilege_level r role
unfolding roles_at_least is_at_least_privilege_level
roles_at_least-is_at_least_privilege_level r role = ground arith

-- The hierarchy is a total order: two roles that are each at least the other are the same role,
-- and of any two roles one is at least the other.
pub is_at_least_privilege_level_total :
    (a b : GroupMemberRole)
    → (is_at_least_privilege_level a b ≡ true → is_at_least_privilege_level b a ≡ true → a ≡ b)
      × (is_at_least_privilege_level a b ≡ false → is_at_least_privilege_level b a ≡ true)
unfolding is_at_least_privilege_level
is_at_least_privilege_level_total a b = ground arith

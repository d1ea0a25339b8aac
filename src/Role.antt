-- ===== src/Role.antt =====
-- `GroupMemberRole` of syncmaster/db/models/group.py: the roles, their texts and their order.
pub mod Hierarchy
use syncmaster.Prelude.{
  ℕ, String, Bool, true, false, ◌||◌, Option, none, some, List, [], ◌∷◌, any, leb, ◌==◌,
  if◌then◌else◌, str_eq,
}
use syncmaster.Db.{GroupMemberRole, maintainer, developer, owner, guest, superuser}

-- `role.value`
unfoldable pub value : GroupMemberRole → String
value maintainer = "Maintainer"
value developer = "Developer"
value owner = "Owner"
value guest = "Guest"
value superuser = "Superuser"

-- `cls(role)`: `none` stands for the `ValueError`.
unfoldable pub of_value : String → Option GroupMemberRole
of_value s =
    if str_eq s "Maintainer"
    then some maintainer
    else if str_eq s "Developer"
    then some developer
    else if str_eq s "Owner"
    then some owner
    else if str_eq s "Guest"
    then some guest
    else if str_eq s "Superuser"
    then some superuser
    else none

-- The number that tells the members of the enum apart, for `==` and `in`.
abbrev pub index : GroupMemberRole → ℕ
index maintainer = 0
index developer = 1
index owner = 2
index guest = 3
index superuser = 4

abbrev pub role_eq : GroupMemberRole → GroupMemberRole → Bool
role_eq a b = index a == index b

unfoldable pub public_roles : List GroupMemberRole
public_roles = maintainer ∷ developer ∷ guest ∷ []

-- `role in cls.public_roles()`, for a role that is a member of the enum.
unfoldable pub is_public : GroupMemberRole → Bool
unfolding public_roles
is_public r = any (role_eq r) public_roles

unfoldable pub is_public_role : String → Bool
unfolding of_value is_public
is_public_role s = elim (of_value s) [ none ↦ false | some r ↦ is_public r ]

-- `role_hierarchy`, as the pairs of the dictionary in their order.
unfoldable pub role_hierarchy : List (GroupMemberRole × ℕ)
role_hierarchy = (guest, 1) ∷ (developer, 2) ∷ (maintainer, 3) ∷ (owner, 4) ∷ (superuser, 5) ∷ []

level_in : GroupMemberRole → List (GroupMemberRole × ℕ) → ℕ
level_in r [] = 0
level_in r ((s, n) ∷ rest) = if role_eq r s then n else level_in r rest

-- `hierarchy.get(role, 0)`; every role is in the dictionary, so `hierarchy[role]` is the same.
unfoldable pub role_level : GroupMemberRole → ℕ
unfolding level_in role_hierarchy
role_level r = level_in r role_hierarchy

unfoldable pub is_at_least_privilege_level : GroupMemberRole → GroupMemberRole → Bool
unfolding role_level
is_at_least_privilege_level role1 role2 = leb (role_level role2) (role_level role1)

at_least : ℕ → List (GroupMemberRole × ℕ) → List GroupMemberRole
at_least required [] = []
at_least required ((r, n) ∷ rest) =
    if leb required n then r ∷ at_least required rest else at_least required rest

-- The roles whose texts the method returns.
unfoldable pub roles_at_least : GroupMemberRole → List GroupMemberRole
unfolding at_least role_level role_hierarchy
roles_at_least role = at_least (role_level role) role_hierarchy

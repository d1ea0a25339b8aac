-- ===== src/Tests/GroupCases.antt =====
-- Groups, members and rights on the sample.
use syncmaster.Errors.{raised, action_not_allowed}
use syncmaster.Transfers.{transfer_model}
use syncmaster.Session.{err, ok}
use syncmaster.Db.{User, Transfer, maintainer}
use syncmaster.Access.{
  get_resource_permission_with, resource_policy, write, no_permission, group_permission,
}
use syncmaster.Prelude.{none, some, List, ◌≡◌, arith, ◌∷◌, refl, [], pair_eq, nat_eq}
use syncmaster.Role.{is_public}
use syncmaster.Groups.Requests.{IsValid, GroupRequest, serve, serve-IsValid}
use syncmaster.Groups.Rights.{refused, update_group-succeeds}
use syncmaster.Groups.Api.{
  update_group, update_user_role_group, add_user_to_group, delete_user_from_group,
}
use syncmaster.Groups.Outcomes.{group_updated}
use syncmaster.Groups.Statements.{set_group}
use syncmaster.Access.Laws.{get_resource_permission-group_permission}
use syncmaster.Tests.Sample.{ann, bob, root, team, sample}
use syncmaster.Prelude.Tables.{get}

sample-IsValid : IsValid sample
unfolding get is_public
sample-IsValid = record {
  distinct_groups = (refl, (refl, tt));
  distinct_members = (refl, tt);
  fresh = λ gid h. ground arith;
  member_group = λ gid uid h. ground arith;
  public_role = λ (g, w) m h. ground arith;
  owner_outside = λ gid g h. ground arith;
}

-- A handover, a member who leaves, and a role that no request can give.
abbrev requests : List (User × GroupRequest)
requests =
    (ann, GroupRequest.update 1 "team" "" 2)
    ∷ (ann, GroupRequest.remove 1 1)
    ∷ (bob, GroupRequest.add 1 3 "Owner")
    ∷ (ann, GroupRequest.create "new" "")
    ∷ (root, GroupRequest.delete 2)
    ∷ []

serve-IsValid_example : IsValid (serve requests sample)
serve-IsValid_example = serve-IsValid requests sample sample-IsValid

refused_example :
    (update_group bob 1 "mine" "" 2 sample ≡ (err (raised action_not_allowed), sample))
    × (update_user_role_group bob 1 2 maintainer sample ≡ (err (raised action_not_allowed), sample))
    × (add_user_to_group bob 1 2 maintainer sample ≡ (err (raised action_not_allowed), sample))
    × (delete_user_from_group bob 1 7 sample ≡ (err (raised action_not_allowed), sample))
unfolding get
refused_example = refused bob 1 sample refl refl refl "mine" "" 2 2 7 maintainer (omega arith)

update_group-succeeds_example :
    update_group ann 1 "crew" "" 2 sample
    ≡ (ok (set_group "crew" "" 2 team), group_updated 1 "crew" "" 2 team sample)
unfolding get syncmaster.Groups.Statements.fits_group
update_group-succeeds_example =
    update_group-succeeds ann 1 "crew" "" 2 team sample sample-IsValid refl refl refl refl refl refl

get_resource_permission-group_permission_example :
    get_resource_permission_with transfer_model resource_policy bob 1 sample
    ≡ elim (get (λ (t : Transfer). t.id) 1 sample.transfers) [
      | none ↦ no_permission
      | some t ↦ group_permission resource_policy bob t.group_id sample
    ]
unfolding get
get_resource_permission-group_permission_example =
    get_resource_permission-group_permission transfer_model resource_policy bob 1 sample
      (refl, (refl, tt))

bob_may_write : get_resource_permission_with transfer_model resource_policy bob 1 sample ≡ write
unfolding get_resource_permission_with resource_policy get
bob_may_write = refl

-- ===== src/Org/Roles.antt =====
-- Roles that the endpoints of src/kohakuhub/api/org/router.py hand out.
use kohaku_hub.Prelude.{
  any, ℕ, ◌≡◌, refl, sym, ◌∙◌, String, List, none, some, true, false, arith, find?, find?-append,
  eq_iff, str_eq, ◌&&◌, Bool-cases, inl, inr,
}
use kohaku_hub.Config.{Config}
use mathlib.Core.Path.{subst}
use kohaku_hub.Http.{ok}
use kohaku_hub.Db.{Db, User, UserOrganization}
use kohaku_hub.Db.Queries.{
  get_organization, get_user_by_username, get_user_organization, create_user_organization,
  update_user_organization,
}
use kohaku_hub.Db.Keys.{
  role_of, role_of-create, create_user_organization_cases, role_of-update, role_of-set_role,
}
use kohaku_hub.Names.{is_reserved}
use kohaku_hub.Auth.Permissions.{check_namespace_permission, is_admin_role}
use kohaku_hub.Org.{
  create_organization, has_normalized_name, organization_row, with_user,
  create_organization_endpoint, update_member_role_endpoint,
}

admin_passes :
    (namespace : String) (user : User) (org : User) (m : UserOrganization) (db : Db)
    → get_organization namespace db ≡ some org
    → get_user_organization user org db ≡ some m
    → is_admin_role m.role ≡ true
    → check_namespace_permission namespace (some user) true false db ≡ ok true
unfolding check_namespace_permission
admin_passes namespace user org m db found member admin =
    elim (Bool-cases (str_eq namespace user.username)) [
      | inl own ↦ rw own
      | inr other ↦ rw (other, found) (rw member (ground arith))
    ]

org_stored :
    (cfg : Config) (id : ℕ) (name : String) (db : Db)
    → get_organization name db ≡ none
    → get_organization name (with_user db (organization_row cfg id name none none))
      ≡ some (organization_row cfg id name none none)
unfolding get_organization find?
org_stored cfg id name db h =
    find?-append (λ u. str_eq u.username name && u.is_org) db.users _
    ∙ rw h (ground (arith, eq_iff name name))

get_organization-memberships :
    (name : String) (db : Db) (rows : List UserOrganization)
    → get_organization name (record db { memberships = rows }) ≡ get_organization name db
unfolding get_organization
get_organization-memberships name db rows = refl

promoted :
    (admin org : User) (m : UserOrganization) (role : String) (db : Db)
    → get_user_organization admin org db ≡ some m
    → get_user_organization admin org (update_user_organization m role db)
      ≡ some (record { user = admin.id; organization = org.id; role = role })
unfolding get_user_organization role_of
promoted admin org m role db member =
    role_of-update m role db admin.id org.id
    ∙ role_of-set_role admin.id org.id m role db admin.id org.id member
    ∙ ground arith

module _ (lower : String → String) (cfg : Config) (id : ℕ) (name : String) (user : User) (db : Db)
    {db' : Db} where
  created :
      create_organization_endpoint lower cfg id name user db ≡ ok db'
      → (is_reserved lower name ≡ false)
        × (get_organization name db ≡ none)
        × (any (has_normalized_name lower name) db.users ≡ false)
        × (create_user_organization user
              (organization_row cfg id name none none)
              "super-admin"
              (with_user db (organization_row cfg id name none none))
            ≡ ok db')
  unfolding create_organization_endpoint create_organization
  created h = (ground arith, ground arith, ground arith, ground arith)

  -- An organization is created only under a name that is not reserved, that no organization has, and
  -- that no user or organization has up to normalization; its creator is then an admin of the namespace and passes the check that asks for one.
  pub create_organization_effect :
      create_organization_endpoint lower cfg id name user db ≡ ok db'
      → (is_reserved lower name ≡ false)
        × (get_organization name db ≡ none)
        × (any (has_normalized_name lower name) db.users ≡ false)
        × (check_namespace_permission name (some user) true false db' ≡ ok true)
  unfolding get_user_organization role_of
  create_organization_effect h =
      let (free, absent, unused, made) = created h in
      let org = organization_row cfg id name none none in
      let (_, e) = create_user_organization_cases user org "super-admin" (with_user db org) made in
      let member = role_of-create user org "super-admin" (with_user db org) user.id id made in
      let creator : UserOrganization = record {
        user = user.id;
        organization = id;
        role = "super-admin";
      } in
      let stored = org_stored cfg id name db absent in
      (
        free,
        absent,
        unused,
        admin_passes name user org creator db'
            (subst (λ d. get_organization name d ≡ some org) (sym e)
              (get_organization-memberships name (with_user db org) _ ∙ stored))
            (member ∙ ground arith) refl,
      )

-- An admin of an organization, not only a super-admin, can give any member of it any role: with the
-- admin's own name in the request, the admin becomes a super-admin.
pub admin_self_promotion :
    (org_name : String) (admin org : User) (m : UserOrganization) (db : Db)
    → get_organization org_name db ≡ some org
    → get_user_by_username admin.username db ≡ some admin
    → get_user_organization admin org db ≡ some m
    → m.role ≡ "admin"
    → (db' : Db) × (update_member_role_endpoint org_name admin.username "super-admin" admin db
        ≡ ok db')
      × (get_user_organization admin org db'
          ≡ some (record { user = admin.id; organization = org.id; role = "super-admin" }))
unfolding update_member_role_endpoint
admin_self_promotion org_name admin org m db org_found self member role = (
  update_user_organization m "super-admin" db,
  ground (arith, eq_iff m.role "admin"),
  promoted admin org m "super-admin" db member,
)

-- ===== src/Org/Members.antt =====
-- What the organization endpoints of src/kohakuhub/api/org/router.py do to the memberships.
use kohaku_hub.Prelude.{
  ℕ, ◌≡◌, String, none, some, Option-cases, inl, inr, true, arith, ◌==◌, ◌&&◌, ◌∙◌, find?_passes,
  if◌then◌else◌,
}
use kohaku_hub.Http.{ok}
use kohaku_hub.Db.{Db, User, UserOrganization}
use mathlib.Core.Option
use kohaku_hub.Db.Queries.{
  is_membership, set_role, get_organization, get_user_by_username, get_user_organization,
  create_user_organization, update_user_organization, delete_user_organization,
}
use kohaku_hub.Db.Keys.{role_of, role_of-create, role_of-update, role_of-delete, role_of-set_role}
use kohaku_hub.Org.{is_admin_of, add_member, remove_member_endpoint, update_member_role_endpoint}

-- What a successful member endpoint found: the organization, the admin who calls, the target.
pub record Acts (org_name username : String) (current_user : User) (db : Db) : Type 0 where
  pub org : User
  pub target : User
  pub org_found : get_organization org_name db ≡ some org
  pub by_admin : is_admin_of (get_user_organization current_user org db) ≡ true
  pub target_found : get_user_by_username username db ≡ some target

module _ (org_name username : String) (current_user : User) (db : Db) {db' : Db} where
  add_member_cases :
      (role : String)
      → add_member org_name username role current_user db ≡ ok db'
      → (a : Acts org_name username current_user db) × (get_user_organization a.target a.org db
          ≡ none)
        × (create_user_organization a.target a.org role db ≡ ok db')
  unfolding add_member
  add_member_cases role h = elim (Option-cases (get_organization org_name db)) [
    | inl missing ↦ absurd (ground arith)
    | inr (org, org_found) ↦ elim (Option-cases (get_user_by_username username db)) [
      | inl missing ↦ absurd (ground arith)
      | inr (target, target_found) ↦ (
        record {
          org = org;
          target = target;
          org_found = org_found;
          by_admin = ground arith;
          target_found = target_found;
        },
        ground arith,
        ground arith,
      )
    ]
  ]

  remove_member_cases :
      remove_member_endpoint org_name username current_user db ≡ ok db'
      → (a : Acts org_name username current_user db) × (m : UserOrganization)
        × (get_user_organization a.target a.org db ≡ some m)
        × (delete_user_organization m db ≡ db')
  unfolding remove_member_endpoint
  remove_member_cases h = elim (Option-cases (get_organization org_name db)) [
    | inl missing ↦ absurd (ground arith)
    | inr (org, org_found) ↦ elim (Option-cases (get_user_by_username username db)) [
      | inl missing ↦ absurd (ground arith)
      | inr (target, target_found) ↦ elim (Option-cases (get_user_organization target org db)) [
        | inl missing ↦ absurd (ground arith)
        | inr (m, m_found) ↦ (
          record {
            org = org;
            target = target;
            org_found = org_found;
            by_admin = ground arith;
            target_found = target_found;
          },
          m,
          m_found,
          ground arith,
        )
      ]
    ]
  ]

  update_member_role_cases :
      (role : String)
      → update_member_role_endpoint org_name username role current_user db ≡ ok db'
      → (a : Acts org_name username current_user db) × (m : UserOrganization)
        × (get_user_organization a.target a.org db ≡ some m)
        × (update_user_organization m role db ≡ db')
  unfolding update_member_role_endpoint
  update_member_role_cases role h = elim (Option-cases (get_organization org_name db)) [
    | inl missing ↦ absurd (ground arith)
    | inr (org, org_found) ↦ elim (Option-cases (get_user_by_username username db)) [
      | inl missing ↦ absurd (ground arith)
      | inr (target, target_found) ↦ elim (Option-cases (get_user_organization target org db)) [
        | inl missing ↦ absurd (ground arith)
        | inr (m, m_found) ↦ (
          record {
            org = org;
            target = target;
            org_found = org_found;
            by_admin = ground arith;
            target_found = target_found;
          },
          m,
          m_found,
          ground arith,
        )
      ]
    ]
  ]

  -- A member is added only by an admin of the organization and only where there was none; then
  -- exactly the target's membership of this organization changes, to the role that was asked for.
  pub add_member_effect :
      (role : String)
      → add_member org_name username role current_user db ≡ ok db'
      → (a : Acts org_name username current_user db) × (role_of a.target.id a.org.id db ≡ none)
        × ((u o : ℕ)
            → role_of u o db' ≡ (
                if a.target.id == u && a.org.id == o
                then some (record { user = a.target.id; organization = a.org.id; role = role })
                else role_of u o db))
  unfolding role_of get_user_organization
  add_member_effect role h =
      let (a, missing, made) = add_member_cases role h in
      (a, missing, λ u o. role_of-create a.target a.org role db u o made)

  -- A member is removed only by an admin of the organization; then the target has no membership of
  -- this organization, and every other membership is as it was.
  pub remove_member_effect :
      remove_member_endpoint org_name username current_user db ≡ ok db'
      → (a : Acts org_name username current_user db) × ((u o : ℕ)
          → role_of u o db' ≡ (if a.target.id == u && a.org.id == o then none else role_of u o db))
  unfolding get_user_organization
  remove_member_effect h =
      let (a, m, stored, done) = remove_member_cases h in
      let keyed = find?_passes (is_membership a.target.id a.org.id) db.memberships m stored in
      let eu : m.user ≡ a.target.id = ground arith in
      let eo : m.organization ≡ a.org.id = ground arith in
      (a, λ u o. rw (← done, ← eu, ← eo) (role_of-delete m db u o))

  -- A role is changed only by an admin of the organization; then the target has the role that was
  -- asked for, and every other membership is as it was.
  pub update_member_role_effect :
      (role : String)
      → update_member_role_endpoint org_name username role current_user db ≡ ok db'
      → (a : Acts org_name username current_user db) × ((u o : ℕ)
          → role_of u o db' ≡ (
              if a.target.id == u && a.org.id == o
              then some (record { user = a.target.id; organization = a.org.id; role = role })
              else role_of u o db))
  unfolding role_of get_user_organization
  update_member_role_effect role h =
      let (a, m, stored, done) = update_member_role_cases role h in
      (a, λ u o. rw (← done) (role_of-update m role db u o ∙ changed a m stored u o))
    where
      changed :
          (a : Acts org_name username current_user db) (m : UserOrganization)
          → get_user_organization a.target a.org db ≡ some m
          → (u o : ℕ)
          → Option.map (set_role m role) (role_of u o db) ≡ (
              if a.target.id == u && a.org.id == o
              then some (record { user = a.target.id; organization = a.org.id; role = role })
              else role_of u o db)
      changed a m stored u o = role_of-set_role a.target.id a.org.id m role db u o stored

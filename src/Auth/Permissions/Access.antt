-- ===== src/Auth/Permissions/Access.antt =====
-- Whom the checks of src/kohakuhub/auth/permissions.py let through, said of the tables.
use kohaku_hub.Prelude.{
  ◌≡◌, refl, ◌↔◌, ◌⊎◌, inl, inr, String, Bool, true, false, Option-cases, some, arith, eq_iff,
  str_eq, ◌&&◌, Elem, find?, find?-Elem, find?_passes, find?_only,
}
use mathlib.Core.Bool.{and-eq-true_iff}
use kohaku_hub.Http.{ok}
use kohaku_hub.Db.{Db, User, UserOrganization, Repository}
use kohaku_hub.Db.Queries.{is_membership, get_organization, get_user_organization}
use kohaku_hub.Db.Keys.{UniqueKeys}
use kohaku_hub.Auth.Permissions.{
  check_repo_read_permission, check_repo_write_permission, check_repo_delete_permission,
  membership_in, admits, is_admin_role, is_writer_role,
}

-- The user has a membership row, with a role as described, in an organization of that name.
pub record HasRole (Role : String → Type 0) (namespace : String) (user : User) (db : Db)
    : Type 0 where
  pub org : User
  pub row : UserOrganization
  pub org_stored : Elem org db.users
  pub org_named : org.username ≡ namespace
  pub is_org : org.is_org ≡ true
  pub row_stored : Elem row db.memberships
  pub of_user : row.user ≡ user.id
  pub of_org : row.organization ≡ org.id
  pub role : Role row.role

abbrev pub AnyRole : String → Type 0
AnyRole role = Unit

abbrev pub WriterRole : String → Type 0
WriterRole role = (role ≡ "member") ⊎ (role ≡ "admin") ⊎ (role ≡ "super-admin")

abbrev pub AdminRole : String → Type 0
AdminRole role = (role ≡ "admin") ⊎ (role ≡ "super-admin")

pub AdminRole-iff : (role : String) → (is_admin_role role ≡ true) ↔ AdminRole role
AdminRole-iff role = ground (arith, eq_iff role "admin", eq_iff role "super-admin")

WriterRole-iff : (role : String) → (is_writer_role role ≡ true) ↔ WriterRole role
WriterRole-iff role =
    ground (arith, eq_iff role "member", eq_iff role "admin", eq_iff role "super-admin")

module _ (allowed : String → Bool) (Role : String → Type 0)
    (role_iff : (role : String) → (allowed role ≡ true) ↔ Role role) (namespace : String)
    (user : User) (db : Db) where
  admits_sound :
      admits allowed (membership_in namespace user db) ≡ true → HasRole Role namespace user db
  unfolding membership_in get_organization get_user_organization
  admits_sound h =
      elim (Option-cases (find? (λ u. str_eq u.username namespace && u.is_org) db.users)) [
        | inl missing ↦ absurd (ground arith)
        | inr (org, found) ↦
            elim (Option-cases (find? (is_membership user.id org.id) db.memberships)) [
              | inl missing ↦ absurd (ground arith)
              | inr (row, member) ↦
                  let hit =
                    find?_passes (λ u. str_eq u.username namespace && u.is_org) db.users org
                      found in
                  let keyed =
                    find?_passes (is_membership user.id org.id) db.memberships row member in
                  record {
                    org = org;
                    row = row;
                    org_stored = find?-Elem _ db.users org found;
                    org_named = ground (arith, eq_iff org.username namespace);
                    is_org = ground arith;
                    row_stored = find?-Elem _ db.memberships row member;
                    of_user = ground arith;
                    of_org = ground arith;
                    role = (role_iff row.role).0 (ground arith);
                  }
            ]
      ]

  admits_complete :
      UniqueKeys db
      → HasRole Role namespace user db
      → admits allowed (membership_in namespace user db) ≡ true
  unfolding membership_in get_organization get_user_organization
  admits_complete keys h =
      let named : (str_eq h.org.username namespace && h.org.is_org) ≡ true =
        ground (arith, eq_iff h.org.username namespace) in
      let org_found =
        find?_only (λ u. str_eq u.username namespace && u.is_org) db.users h.org
          (λ x y ex ey hx hy.
            keys.username namespace x y ex ey ((and-eq-true_iff _ _).0 hx).0
              ((and-eq-true_iff _ _).0 hy).0)
          h.org_stored named in
      let keyed : is_membership user.id h.org.id h.row ≡ true = ground arith in
      let row_found =
        find?_only (is_membership user.id h.org.id) db.memberships h.row
          (keys.membership user.id h.org.id) h.row_stored keyed in
      rw (org_found, membership_in) (rw row_found ((role_iff h.row.role).1 h.role))

  admits_iff :
      UniqueKeys db
      → (admits allowed (membership_in namespace user db) ≡ true) ↔ HasRole Role namespace user db
  admits_iff keys = (admits_sound, admits_complete keys)

module _ (repo : Repository) (user : User) (db : Db) (keys : UniqueKeys db) where
  -- A user who is not the site's admin may read a repository exactly if it is public, is in the
  -- namespace of the user's own name, or is in an organization where the user has any role; may
  -- modify it exactly if it is the user's own, or the role there is member, admin or super-admin;
  -- may delete it exactly if it is the user's own, or the role is admin or super-admin. The tables
  -- satisfy their unique indexes.
  pub permissions_iff :
      ((check_repo_read_permission repo (some user) false db ≡ ok true) ↔ (
        (repo.private ≡ false)
        ⊎ (repo.namespace ≡ user.username)
        ⊎ HasRole AnyRole repo.namespace user db))
      × ((check_repo_write_permission repo (some user) false db ≡ ok true)
          ↔ ((repo.namespace ≡ user.username) ⊎ HasRole WriterRole repo.namespace user db))
      × ((check_repo_delete_permission repo (some user) false db ≡ ok true)
          ↔ ((repo.namespace ≡ user.username) ⊎ HasRole AdminRole repo.namespace user db))
  unfolding check_repo_read_permission check_repo_write_permission check_repo_delete_permission
  permissions_iff =
      let own = eq_iff repo.namespace user.username in
      let read =
        admits_iff (λ _. true) AnyRole (λ _. (λ _. tt, λ _. refl)) repo.namespace user db keys in
      let write = admits_iff is_writer_role WriterRole WriterRole-iff repo.namespace user db keys in
      let remove = admits_iff is_admin_role AdminRole AdminRole-iff repo.namespace user db keys in
      (ground arith, ground arith, ground arith)

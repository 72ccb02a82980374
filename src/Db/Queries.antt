-- ===== src/Db/Queries.antt =====
-- The row operations of src/kohakuhub/db_operations.py on users, organizations, memberships and
-- repositories. `get_or_none` is the first row that passes, `create` refuses what a unique index
-- refuses, `save` writes the row with the id of the object, `delete_instance` deletes it.
-- The id of a created row is the database's choice, an argument here.
use kohaku_hub.Prelude.{
  ℕ, String, Bool, ◌&&◌, not, Option, [], ◌∷◌, ◌++◌, map, find?, keep, any, ◌==◌, str_eq,
  if◌then◌else◌,
}
use kohaku_hub.Http.{Result, ok, err, integrity_error}
use kohaku_hub.Db.{Db, User, UserOrganization, Repository}

unfoldable pub get_user_by_id : ℕ → Db → Option User
get_user_by_id user_id db = find? (λ u. u.id == user_id) db.users

unfoldable pub get_user_by_username : String → Db → Option User
get_user_by_username username db = find? (λ u. str_eq u.username username) db.users

unfoldable pub get_organization : String → Db → Option User
get_organization name db = find? (λ u. str_eq u.username name && u.is_org) db.users

-- the row of the unique (user, organization) index
abbrev pub is_membership : ℕ → ℕ → UserOrganization → Bool
is_membership user org m = m.user == user && m.organization == org

unfoldable pub get_user_organization : User → User → Db → Option UserOrganization
get_user_organization user org db = find? (is_membership user.id org.id) db.memberships

unfoldable pub create_user_organization : User → User → String → Db → Result Db
create_user_organization user org role db =
    if any (is_membership user.id org.id) db.memberships
    then err integrity_error
    else ok (record db {
      memberships =
          db.memberships ++ record { user = user.id; organization = org.id; role = role } ∷ [];
    })

abbrev pub set_role : UserOrganization → String → UserOrganization → UserOrganization
set_role target role m =
    if is_membership target.user target.organization m then record m { role = role } else m

unfoldable pub update_user_organization : UserOrganization → String → Db → Db
update_user_organization membership role db = record db {
  memberships = map (set_role membership role) db.memberships;
}

unfoldable pub delete_user_organization : UserOrganization → Db → Db
delete_user_organization membership db = record db {
  memberships =
      keep (λ m. not (is_membership membership.user membership.organization m)) db.memberships;
}

unfoldable pub get_repository : String → String → String → Db → Option Repository
get_repository repo_type namespace name db =
    find? (λ r. str_eq r.repo_type repo_type && str_eq r.namespace namespace && str_eq r.name name)
      db.repositories

unfoldable pub get_repository_by_full_id : String → String → Db → Option Repository
get_repository_by_full_id full_id repo_type db =
    find? (λ r. str_eq r.full_id full_id && str_eq r.repo_type repo_type) db.repositories

-- `entity.save()`
unfoldable pub save_user : User → Db → Db
save_user user db = record db { users = map (λ u. if u.id == user.id then user else u) db.users }

-- `repo.save()`
unfoldable pub save_repository : Repository → Db → Db
save_repository repo db = record db {
  repositories = map (λ r. if r.id == repo.id then repo else r) db.repositories;
}

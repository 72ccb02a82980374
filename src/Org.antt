-- ===== src/Org.antt =====
-- src/kohakuhub/api/org/router.py: organizations and their members, with the row operations of
-- src/kohakuhub/db_operations.py that make an organization. A handler gives the new tables, or what
-- it raises; every write that precedes a raise stands in the same transaction and is undone.
pub mod Members
pub mod Roles
mod Tests
use kohaku_hub.Prelude.{
  ℕ, String, Bool, true, false, ◌||◌, not, Option, none, some, [], ◌∷◌, ◌++◌, any, str_eq,
  if◌then◌else◌,
}
use kohaku_hub.Prelude.Int.{ℤ, pos}
use kohaku_hub.Config.{Config}
use kohaku_hub.Names.{is_reserved, normalize_name}
use kohaku_hub.Http.{
  Result, ok, err, ◌>>=◌, ◌>>◌, Error, http, integrity_error, require, found, absent,
}
use kohaku_hub.Db.{Db, User, UserOrganization}
use kohaku_hub.Db.Queries.{
  get_organization, get_user_by_username, get_user_organization, create_user_organization,
  update_user_organization, delete_user_organization,
}
use kohaku_hub.Auth.Permissions.{◌+s◌, is_admin_role}

abbrev or_default : Option ℤ → Option ℤ → Option ℤ
or_default none default = default
or_default (some quota) default = some quota

-- The row that `create_organization` creates.
abbrev pub organization_row :
    Config → ℕ → String → (private_quota_bytes public_quota_bytes : Option ℤ) → User
organization_row cfg id name private_quota_bytes public_quota_bytes = record {
  id = id;
  username = name;
  is_org = true;
  email = none;
  private_quota_bytes = or_default private_quota_bytes cfg.default_org_private_quota_bytes;
  public_quota_bytes = or_default public_quota_bytes cfg.default_org_public_quota_bytes;
  private_used_bytes = pos 0;
  public_used_bytes = pos 0;
}

abbrev pub with_user : Db → User → Db
with_user db user = record db { users = db.users ++ user ∷ [] }

-- The row of the unique index on `normalized_name`.
abbrev pub has_normalized_name : (lower : String → String) → String → User → Bool
has_normalized_name lower name u =
    str_eq (normalize_name lower u.username) (normalize_name lower name)

-- `User.create` with the given id; the indexes on `username` and `normalized_name` are unique. The
-- second column is computed, since every row is created with its normalized username in it.
unfoldable pub create_organization :
    (lower : String → String)
    → Config
    → ℕ
    → String
    → (private_quota_bytes public_quota_bytes : Option ℤ) → Db
    → Result (User × Db)
create_organization lower cfg id name private_quota_bytes public_quota_bytes db =
    let org = organization_row cfg id name private_quota_bytes public_quota_bytes in
    if any (λ u. str_eq u.username name) db.users || any (has_normalized_name lower name) db.users
    then err integrity_error
    else ok (org, with_user db org)

-- `user_org.role in ["admin", "super-admin"]`, where there is a membership
abbrev pub is_admin_of : Option UserOrganization → Bool
is_admin_of none = false
is_admin_of (some user_org) = is_admin_role user_org.role

unfoldable pub create_organization_endpoint :
    (lower : String → String) → Config → ℕ → String → User → Db → Result Db
create_organization_endpoint lower cfg id name user db = do
  require (not (is_reserved lower name))
      (http 400 ("Organization name '" +s name +s "' is reserved and cannot be used"))
  absent (get_organization name db) (http 400 "Organization name already exists")
  (org, db') ← create_organization lower cfg id name none none db
  create_user_organization user org "super-admin" db'

abbrev admin_required : String → Error
admin_required action = http 403 ("Not authorized to " +s action)

-- The checks that the three member endpoints begin with: the organization and its admin.
abbrev pub org_for_admin : String → User → String → Db → Result User
org_for_admin org_name current_user action db = do
  org ← found (get_organization org_name db) (http 404 "Organization not found")
  require (is_admin_of (get_user_organization current_user org db)) (admin_required action)
  ok org

unfoldable pub add_member : String → (username role : String) → User → Db → Result Db
add_member org_name username role current_user db = do
  org ← org_for_admin org_name current_user "add members" db
  user_to_add ← found (get_user_by_username username db) (http 404 "User not found")
  absent (get_user_organization user_to_add org db)
      (http 400 "User is already a member of the organization")
  create_user_organization user_to_add org role db

unfoldable pub remove_member_endpoint : String → String → User → Db → Result Db
remove_member_endpoint org_name username current_user db = do
  org ← org_for_admin org_name current_user "remove members" db
  user_to_remove ← found (get_user_by_username username db) (http 404 "User not found")
  membership ←
      found (get_user_organization user_to_remove org db)
        (http 404 "User is not a member of the organization")
  ok (delete_user_organization membership db)

unfoldable pub update_member_role_endpoint :
    String → (username role : String) → User → Db → Result Db
update_member_role_endpoint org_name username role current_user db = do
  org ← org_for_admin org_name current_user "update member roles" db
  user_to_update ← found (get_user_by_username username db) (http 404 "User not found")
  membership ←
      found (get_user_organization user_to_update org db)
        (http 404 "User is not a member of the organization")
  ok (update_user_organization membership role db)

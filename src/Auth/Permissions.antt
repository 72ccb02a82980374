-- ===== src/Auth/Permissions.antt =====
-- src/kohakuhub/auth/permissions.py. `user` is `none` for an anonymous caller, and where an admin
-- token was used; `is_admin` says that one was.
pub mod Hierarchy
pub mod Access
mod Tests
use Prim.Native.String
use kohaku_hub.Prelude.{
  String, Bool, true, false, ◌||◌, ◌&&◌, not, Option, none, some, str_eq, if◌then◌else◌,
}
use kohaku_hub.Http.{Result, ok, err, ◌>>=◌, ◌>>◌, http, repo_read_denied, require, found}
use kohaku_hub.Db.{Db, User, UserOrganization, Repository}
use kohaku_hub.Db.Queries.{get_organization, get_user_organization}

infixr 66 ◌+s◌
abbrev pub ◌+s◌ : String → String → String
a +s b = String.◌++◌ a b

abbrev pub auth_required : String
auth_required = "User authentication required"

abbrev pub is_admin_role : String → Bool
is_admin_role role = str_eq role "admin" || str_eq role "super-admin"

abbrev pub is_writer_role : String → Bool
is_writer_role role = str_eq role "member" || is_admin_role role

unfoldable pub check_namespace_permission :
    String → Option User → (require_admin is_admin : Bool) → Db → Result Bool
check_namespace_permission namespace user require_admin true db = ok true
check_namespace_permission namespace none require_admin false db = err (http 403 auth_required)
check_namespace_permission namespace (some user) require_admin false db =
    if str_eq namespace user.username then ok true else do
      org ←
          found (get_organization namespace db)
            (http 403 ("Namespace '" +s namespace +s "' does not exist or you don't have access"))
      membership ←
          found (get_user_organization user org db)
            (http 403 ("You are not a member of organization '" +s namespace +s "'"))
      require (not (require_admin && not (is_admin_role membership.role)))
          (http 403 ("You need admin privileges in organization '" +s namespace +s "'"))
      ok true

-- The membership of `user` in the organization that owns the namespace, if there is one.
pub membership_in : String → User → Db → Option UserOrganization
membership_in namespace user db = elim (get_organization namespace db) [
  | none ↦ none
  | some org ↦ get_user_organization user org db
]

-- What the last part of a check does with that membership.
abbrev admits : (String → Bool) → Option UserOrganization → Bool
admits allowed none = false
admits allowed (some membership) = allowed membership.role

unfoldable pub check_repo_read_permission : Repository → Option User → Bool → Db → Result Bool
check_repo_read_permission repo user true db = ok true
check_repo_read_permission repo none false db =
    if not repo.private then ok true else err (repo_read_denied repo.repo_type repo.full_id)
check_repo_read_permission repo (some user) false db =
    if not repo.private
    then ok true
    else if str_eq repo.namespace user.username
    then ok true
    else if admits (λ _. true) (membership_in repo.namespace user db)
    then ok true
    else err (repo_read_denied repo.repo_type repo.full_id)

unfoldable pub check_repo_write_permission : Repository → Option User → Bool → Db → Result Bool
check_repo_write_permission repo user true db = ok true
check_repo_write_permission repo none false db = err (http 403 auth_required)
check_repo_write_permission repo (some user) false db =
    if str_eq repo.namespace user.username
    then ok true
    else if admits is_writer_role (membership_in repo.namespace user db)
    then ok true
    else err (http 403 ("You don't have permission to modify repository '" +s repo.full_id +s "'"))

unfoldable pub check_repo_delete_permission : Repository → Option User → Bool → Db → Result Bool
check_repo_delete_permission repo user true db = ok true
check_repo_delete_permission repo none false db = err (http 403 auth_required)
check_repo_delete_permission repo (some user) false db =
    if str_eq repo.namespace user.username
    then ok true
    else if admits is_admin_role (membership_in repo.namespace user db)
    then ok true
    else err (http 403 ("You don't have permission to delete repository '" +s repo.full_id +s "'"))

-- ===== src/Auth/Permissions/Hierarchy.antt =====
-- The permissions on a repository of src/kohakuhub/auth/permissions.py form a hierarchy.
use kohaku_hub.Prelude.{◌≡◌, Bool, true, false, Option, none, some, arith}
use kohaku_hub.Http.{ok}
use kohaku_hub.Db.{Db, User, Repository}
use kohaku_hub.Auth.Permissions.{
  check_repo_read_permission, check_repo_write_permission, check_repo_delete_permission,
}

-- Whoever may delete a repository may modify it, and whoever may modify it may read it.
pub delete-write-read :
    (repo : Repository) (user : Option User) (is_admin : Bool) (db : Db)
    → (check_repo_delete_permission repo user is_admin db ≡ ok true
        → check_repo_write_permission repo user is_admin db ≡ ok true)
      × (check_repo_write_permission repo user is_admin db ≡ ok true
          → check_repo_read_permission repo user is_admin db ≡ ok true)
unfolding check_repo_read_permission check_repo_write_permission check_repo_delete_permission
delete-write-read repo user true db = ground arith
delete-write-read repo none false db = ground arith
delete-write-read repo (some user) false db = ground arith

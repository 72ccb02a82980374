-- ===== src/Auth/Permissions/Tests.antt =====
-- The permission checks at concrete tables.
use kohaku_hub.Prelude.{◌≡◌, ◌↔◌, ◌⊎◌, refl, true, false, some, find?}
use kohaku_hub.Fixtures.{tables, tables-UniqueKeys, alice, bob, bert}
use kohaku_hub.Http.{ok, err, http, repo_read_denied}
use kohaku_hub.Db.Queries.{get_organization, get_user_organization}
use kohaku_hub.Auth.Permissions.{
  membership_in, check_namespace_permission, check_repo_read_permission,
  check_repo_write_permission, check_repo_delete_permission,
}
use kohaku_hub.Auth.Permissions.Hierarchy.{delete-write-read}
use kohaku_hub.Auth.Permissions.Access.{HasRole, AnyRole, WriterRole, AdminRole, permissions_iff}

checks :
    (check_repo_delete_permission bert (some alice) false tables ≡ ok true)
    × (check_repo_read_permission bert (some bob) false tables
        ≡ err (repo_read_denied "model" "acme/bert"))
    × (check_namespace_permission "acme" (some bob) false false tables
        ≡ err (http 403 "You are not a member of organization 'acme'"))
unfolding check_repo_read_permission check_repo_delete_permission check_namespace_permission
    membership_in get_organization get_user_organization find?
checks = (refl, refl, refl)

permissions_iff_example :
    ((check_repo_read_permission bert (some alice) false tables ≡ ok true) ↔ (
      (bert.private ≡ false)
      ⊎ (bert.namespace ≡ alice.username)
      ⊎ HasRole AnyRole bert.namespace alice tables))
    × ((check_repo_write_permission bert (some alice) false tables ≡ ok true)
        ↔ ((bert.namespace ≡ alice.username) ⊎ HasRole WriterRole bert.namespace alice tables))
    × ((check_repo_delete_permission bert (some alice) false tables ≡ ok true)
        ↔ ((bert.namespace ≡ alice.username) ⊎ HasRole AdminRole bert.namespace alice tables))
permissions_iff_example = permissions_iff bert alice tables tables-UniqueKeys

delete-write-read_example :
    (check_repo_delete_permission bert (some alice) false tables ≡ ok true
      → check_repo_write_permission bert (some alice) false tables ≡ ok true)
    × (check_repo_write_permission bert (some alice) false tables ≡ ok true
        → check_repo_read_permission bert (some alice) false tables ≡ ok true)
delete-write-read_example = delete-write-read bert (some alice) false tables

-- ===== src/Quota/Tests.antt =====
-- The quota functions at concrete tables.
use kohaku_hub.Prelude.{ℕ, ◌≡◌, ◌≢◌, ◌↔◌, refl, true, false, none, some, find?, arith}
use kohaku_hub.Prelude.Int.{pos, ◌+ℤ◌, ◌-ℤ◌}
use kohaku_hub.Fixtures.{tables, tables-UniqueKeys, acme, bert}
use kohaku_hub.Http.{ok, err, value_error}
use kohaku_hub.Db.{Db, User}
use kohaku_hub.Db.Queries.{
  get_organization, get_user_by_username, get_user_by_id, save_user, save_repository,
}
use kohaku_hub.Db.Keys.{UniqueKeys}
use kohaku_hub.Quota.{
  entity_or_none, entity, check_quota, increment_storage, set_quota, get_storage_info, storage_info,
  owner_of, set_repo_quota, get_repo_storage_info,
}
use kohaku_hub.Quota.Enforce.{
  Fits, WithinQuota, check_quota_iff, increment_storage_effect, check-increment-WithinQuota,
}
use kohaku_hub.Quota.Settings.{with_quotas}

quota_tests : Unit {0}
unfolding entity_or_none entity check_quota increment_storage set_quota get_storage_info owner_of
    set_repo_quota get_repo_storage_info get_organization get_user_by_username get_user_by_id find?
    save_user save_repository ◌+ℤ◌ ◌-ℤ◌
quota_tests = tt

stored : entity_or_none "acme" true tables ≡ some acme
unfolding quota_tests
stored = refl

limits :
    ((check_quota "acme" (pos 70) true true tables).0 ≡ true)
    × ((check_quota "acme" (pos 71) true true tables).0 ≡ false)
    × ((check_quota "acme" (pos 71) false true tables).0 ≡ true)
    × ((check_quota "nobody" (pos 0) true false tables).0 ≡ false)
unfolding quota_tests
limits = (refl, refl, refl, refl)

check_quota_iff_example :
    ((check_quota "acme" (pos 70) true true tables).0 ≡ true)
    ↔ ((user : User) × (entity_or_none "acme" true tables ≡ some user) × Fits true (pos 70) user)
check_quota_iff_example = check_quota_iff "acme" (pos 70) true true tables

increment_storage_effect_example :
    (db' : Db) × (increment_storage "acme" (pos 70) true true tables ≡ ok ((pos 100, pos 0), db'))
    × (entity_or_none "acme" true db' ≡ some (record acme { private_used_bytes = pos 100 }))
    × ((id : ℕ) → id ≢ 2 → get_user_by_id id db' ≡ get_user_by_id id tables)
    × UniqueKeys db'
unfolding quota_tests
increment_storage_effect_example =
    increment_storage_effect "acme" true true tables acme tables-UniqueKeys stored (pos 70)

abbrev acme_full : User
acme_full = record acme { private_used_bytes = pos 100 }

charge :
    (increment_storage "acme" (pos 70) true true tables
      ≡ ok ((pos 100, pos 0), save_user acme_full tables))
    × (entity_or_none "acme" true (save_user acme_full tables) ≡ some acme_full)
unfolding quota_tests
charge = (refl, refl)

check-increment-WithinQuota_example : WithinQuota true acme_full
check-increment-WithinQuota_example =
    check-increment-WithinQuota "acme" true true tables acme tables-UniqueKeys stored 70
      (omega arith) limits.0 charge.0 charge.1

abbrev asked_unlimited : Db
asked_unlimited = save_user acme tables

unlimited_call :
    set_quota "acme" none none true tables
    ≡ ok (storage_info (some (pos 100)) none (pos 30) (pos 0), asked_unlimited)
unfolding quota_tests
unlimited_call = refl

abbrev zero_set : Db
zero_set = save_user (with_quotas acme (some (pos 0)) none) tables

zero_call :
    set_quota "acme" (some (pos 0)) none true tables
    ≡ ok (storage_info (some (pos 0)) none (pos 30) (pos 0), zero_set)
unfolding quota_tests
zero_call = refl

owned : owner_of bert tables ≡ ok acme
unfolding quota_tests
owned = refl

repo_limits :
    (set_repo_quota bert (some (pos 71)) tables ≡ err value_error)
    × (owner_of (record bert { quota_bytes = some (pos 500) }) tables ≡ ok acme)
unfolding quota_tests
repo_limits = (refl, refl)

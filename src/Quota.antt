-- ===== src/Quota.antt =====
-- src/kohakuhub/api/quota/util.py: the storage quotas of users, organizations and repositories, with
-- separate accounts for private and public repositories. A percentage, a float in the source, is the
-- exact pair of the used bytes and the quota that it is the quotient of (times 100); the text of the
-- refusal, which prints gigabytes, is the data that it is printed from. Logging is left out.
pub mod Enforce
pub mod Calculate
pub mod Repo
pub mod Settings
mod Tests
use kohaku_hub.Prelude.{ℕ, String, Bool, true, false, Option, none, some, ◌==◌, ◌&&◌, if◌then◌else◌}
use kohaku_hub.Prelude.Int.{ℤ, pos, ◌+ℤ◌, ◌-ℤ◌, ltb_ℤ, max_zero, pos_part, neg_part}
use kohaku_hub.Http.{
  Result, ok, err, ◌>>=◌, ◌>>◌, does_not_exist, attribute_error, value_error, require, found,
}
use kohaku_hub.Db.{Db, User, Repository}
use kohaku_hub.Db.Queries.{
  get_organization, get_user_by_id, get_user_by_username, save_user, save_repository,
}

-- `get_organization(namespace)`, or `User.get_or_none(User.username == namespace)`
unfoldable pub entity_or_none : String → Bool → Db → Option User
entity_or_none namespace is_org db =
    if is_org then get_organization namespace db else get_user_by_username namespace db

-- The same with `User.get`, which raises; an organization that is not there is None, whose first
-- attribute raises.
unfoldable pub entity : String → Bool → Db → Result User
entity namespace is_org db =
    found (entity_or_none namespace is_org db) (if is_org then attribute_error else does_not_exist)

-- The text of a refusal of `check_quota`.
pub data Refusal : Type 0 where
  not_found : (is_org : Bool) (namespace : String) → Refusal
  exceeded : (is_private : Bool) (new_usage quota_bytes : ℤ) → Refusal

abbrev pub quota_of : Bool → User → Option ℤ
quota_of is_private user = if is_private then user.private_quota_bytes else user.public_quota_bytes

abbrev pub used_of : Bool → User → ℤ
used_of is_private user = if is_private then user.private_used_bytes else user.public_used_bytes

-- The comparison of the new usage with the quota; NULL is unlimited.
check_against : Bool → Option ℤ → ℤ → Bool × Option Refusal
check_against is_private none new_usage = (true, none)
check_against is_private (some quota_bytes) new_usage =
    if ltb_ℤ quota_bytes new_usage
    then (false, some (exceeded is_private new_usage quota_bytes))
    else (true, none)

check_entity : String → ℤ → (is_private is_org : Bool) → Option User → Bool × Option Refusal
check_entity namespace additional_bytes is_private is_org none =
    (false, some (not_found is_org namespace))
check_entity namespace additional_bytes is_private is_org (some user) =
    check_against is_private (quota_of is_private user)
      (used_of is_private user +ℤ additional_bytes)

unfoldable pub check_quota : String → ℤ → (is_private is_org : Bool) → Db → Bool × Option Refusal
unfolding check_entity check_against
check_quota namespace additional_bytes is_private is_org db =
    check_entity namespace additional_bytes is_private is_org (entity_or_none namespace is_org db)

abbrev pub set_used : Bool → ℤ → User → User
set_used true used user = record user { private_used_bytes = used }
set_used false used user = record user { public_used_bytes = used }

unfoldable pub increment_storage :
    String → ℤ → (is_private is_org : Bool) → Db → Result ((ℤ × ℤ) × Db)
increment_storage namespace bytes_delta is_private is_org db = do
  user ← entity namespace is_org db
  let user' = set_used is_private (max_zero (used_of is_private user +ℤ bytes_delta)) user
  ok ((user'.private_used_bytes, user'.public_used_bytes), save_user user' db)

abbrev pub available : Option ℤ → ℤ → Option ℤ
available none used = none
available (some quota) used = some (max_zero (quota -ℤ used))

abbrev pub is_zero : ℤ → Bool
is_zero a = pos_part a == 0 && neg_part a == 0

-- used / quota * 100
abbrev pub percentage : Option ℤ → ℤ → Option (ℤ × ℤ)
percentage none used = none
percentage (some quota) used = if is_zero quota then none else some (used, quota)

pub record StorageInfo : Type 0 where
  pub private_quota_bytes : Option ℤ
  pub public_quota_bytes : Option ℤ
  pub private_used_bytes : ℤ
  pub public_used_bytes : ℤ
  pub private_available_bytes : Option ℤ
  pub public_available_bytes : Option ℤ
  pub private_percentage_used : Option (ℤ × ℤ)
  pub public_percentage_used : Option (ℤ × ℤ)
  pub total_used_bytes : ℤ

abbrev pub storage_info : Option ℤ → Option ℤ → ℤ → ℤ → StorageInfo
storage_info private_quota public_quota private_used public_used = record {
  private_quota_bytes = private_quota;
  public_quota_bytes = public_quota;
  private_used_bytes = private_used;
  public_used_bytes = public_used;
  private_available_bytes = available private_quota private_used;
  public_available_bytes = available public_quota public_used;
  private_percentage_used = percentage private_quota private_used;
  public_percentage_used = percentage public_quota public_used;
  total_used_bytes = private_used +ℤ public_used;
}

unfoldable pub get_storage_info : String → Bool → Db → StorageInfo
get_storage_info namespace is_org db = elim (entity_or_none namespace is_org db) [
  | none ↦ storage_info none none (pos 0) (pos 0)
  | some user ↦
      storage_info user.private_quota_bytes user.public_quota_bytes user.private_used_bytes
        user.public_used_bytes
]

abbrev pub if_given : Option ℤ → Option ℤ → Option ℤ
if_given none old = old
if_given (some quota) old = some quota

-- A parameter of `none` is None, also by default.
unfoldable pub set_quota :
    String
    → (private_quota_bytes public_quota_bytes : Option ℤ) → Bool
    → Db
    → Result (StorageInfo × Db)
set_quota namespace private_quota_bytes public_quota_bytes is_org db = do
  user ← entity namespace is_org db
  let user' : User = record user {
    private_quota_bytes = if_given private_quota_bytes user.private_quota_bytes;
    public_quota_bytes = if_given public_quota_bytes user.public_quota_bytes;
  }
  let db' = save_user user' db
  ok (get_storage_info namespace is_org db', db')

-- `repo.owner`: the foreign key's row, or DoesNotExist
unfoldable pub owner_of : Repository → Db → Result User
owner_of repo db = found (get_user_by_id repo.owner db) does_not_exist

pub record RepoStorageInfo : Type 0 where
  pub quota_bytes : Option ℤ
  pub used_bytes : ℤ
  pub available_bytes : Option ℤ
  pub percentage_used : Option (ℤ × ℤ)
  pub effective_quota_bytes : Option ℤ
  pub namespace_quota_bytes : Option ℤ
  pub namespace_used_bytes : ℤ
  pub namespace_available_bytes : Option ℤ
  pub is_inheriting : Bool

abbrev pub effective_quota : Option ℤ → Option ℤ → Option ℤ
effective_quota none namespace_quota = namespace_quota
effective_quota (some repo_quota) namespace_quota = some repo_quota

abbrev is_none : Option ℤ → Bool
is_none none = true
is_none (some _) = false

-- The description of a repository whose owner has the given row.
abbrev pub repo_storage_info : Repository → User → RepoStorageInfo
repo_storage_info repo user =
    let namespace_quota = quota_of repo.private user in
    let namespace_used = used_of repo.private user in
    let effective = effective_quota repo.quota_bytes namespace_quota in
    record {
      quota_bytes = repo.quota_bytes;
      used_bytes = repo.used_bytes;
      available_bytes = available effective repo.used_bytes;
      percentage_used = percentage effective repo.used_bytes;
      effective_quota_bytes = effective;
      namespace_quota_bytes = namespace_quota;
      namespace_used_bytes = namespace_used;
      namespace_available_bytes = available namespace_quota namespace_used;
      is_inheriting = is_none repo.quota_bytes;
    }

unfoldable pub get_repo_storage_info : Repository → Db → Result RepoStorageInfo
get_repo_storage_info repo db = do user ← owner_of repo db; ok (repo_storage_info repo user)

abbrev pub add_back : ℤ → Option ℤ → ℤ
add_back available none = available
add_back available (some quota) = available +ℤ quota

-- The test of a quota against what the namespace has left, with the repository's own quota added.
fits_within : Option ℤ → ℤ → Repository → ℤ → Bool
fits_within none namespace_used repo quota = true
fits_within (some namespace_quota) namespace_used repo quota =
    let namespace_available = max_zero (namespace_quota -ℤ namespace_used) in
    if ltb_ℤ (add_back namespace_available repo.quota_bytes) quota then false else true

validate_repo_quota : Repository → Option ℤ → Db → Result (Unit {0})
unfolding fits_within
validate_repo_quota repo none db = ok tt
validate_repo_quota repo (some quota) db = do
  user ← owner_of repo db
  let namespace_used = used_of repo.private user
  require (fits_within (quota_of repo.private user) namespace_used repo quota) value_error

unfoldable pub set_repo_quota : Repository → Option ℤ → Db → Result (RepoStorageInfo × Db)
unfolding validate_repo_quota
set_repo_quota repo quota_bytes db = do
  validate_repo_quota repo quota_bytes db
  let repo' = record repo { quota_bytes = quota_bytes }
  let db' = save_repository repo' db
  info ← get_repo_storage_info repo' db'
  ok (info, db')

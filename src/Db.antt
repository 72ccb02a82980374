-- ===== src/Db.antt =====
-- The tables of src/kohakuhub/db.py that the modelled code reads or writes, as lists of rows in
-- the order of creation. A foreign key is the id of the row that it names. A column that no modelled
-- code reads (passwords, profiles, avatars) is left out.
pub mod Queries
pub mod Keys
pub mod Saves
use kohaku_hub.Prelude.{ℕ, String, Bool, Option, List}
use kohaku_hub.Prelude.Int.{ℤ}

-- A user, or an organization if `is_org`. A quota of `none` is NULL: unlimited.
pub record User : Type 0 where
  pub id : ℕ
  pub username : String
  pub is_org : Bool
  pub email : Option String
  pub private_quota_bytes : Option ℤ
  pub public_quota_bytes : Option ℤ
  pub private_used_bytes : ℤ
  pub public_used_bytes : ℤ

pub record Repository : Type 0 where
  pub id : ℕ
  pub repo_type : String
  pub namespace : String
  pub name : String
  pub full_id : String
  pub private : Bool
  pub owner : ℕ
  pub quota_bytes : Option ℤ
  pub used_bytes : ℤ
  pub lfs_threshold_bytes : Option ℕ
  pub lfs_keep_versions : Option ℕ
  pub lfs_suffix_rules : Option String
  pub likes_count : ℕ

pub record File : Type 0 where
  pub id : ℕ
  pub repository : ℕ
  pub path_in_repo : String
  pub size : ℕ
  pub sha256 : String
  pub lfs : Bool
  pub is_deleted : Bool

pub record UserOrganization : Type 0 where
  pub user : ℕ
  pub organization : ℕ
  pub role : String

pub record LfsObjectHistory : Type 0 where
  pub repository : ℕ
  pub path_in_repo : String
  pub sha256 : String
  pub size : ℕ
  pub commit_id : String
  pub file : Option ℕ
  pub created_at : ℕ

pub record RepositoryLike : Type 0 where
  pub repository : ℕ
  pub user : ℕ

-- `parameters` is the JSON text of the source; a time is a number of seconds since a fixed day.
pub record Invitation : Type 0 where
  pub id : ℕ
  pub token : String
  pub action : String
  pub parameters : String
  pub created_by : Option ℕ
  pub expires_at : ℤ
  pub max_usage : Option ℤ
  pub usage_count : ℕ
  pub used_at : Option ℕ
  pub used_by : Option ℕ

-- A commit as its author made it; LakeFS does not know the users.
pub record Commit : Type 0 where
  pub commit_id : String
  pub repository : ℕ
  pub repo_type : String
  pub branch : String
  pub author : ℕ
  pub owner : ℕ
  pub username : String
  pub message : String
  pub description : String

pub record Db : Type 0 where
  pub users : List User
  pub memberships : List UserOrganization
  pub repositories : List Repository
  pub files : List File
  pub lfs_history : List LfsObjectHistory
  pub likes : List RepositoryLike
  pub invitations : List Invitation
  pub commits : List Commit

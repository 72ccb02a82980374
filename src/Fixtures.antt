-- ===== src/Fixtures.antt =====
-- Tables for the tests: two users and an organization with one admin, a private repository of the
-- organization and another one, and LFS files.
use kohaku_hub.Prelude.{
  ℕ, refl, String, Bool, true, false, none, some, [], ◌∷◌, AtMostOne-nil, AtMostOne-cons, any,
  arith, eq_iff, str_eq, ◌==◌,
}
use kohaku_hub.Prelude.Int.{pos}
use kohaku_hub.Config.{Config}
use kohaku_hub.Db.{Db, User, UserOrganization, Repository, File, LfsObjectHistory}
use kohaku_hub.Db.Keys.{UniqueKeys}
use kohaku_hub.Db.Queries.{is_membership}
use kohaku_hub.Auth.Permissions.{◌+s◌}

abbrev pub user_row : ℕ → String → Bool → User
user_row id name is_org = record {
  id = id;
  username = name;
  is_org = is_org;
  email = none;
  private_quota_bytes = some (pos 100);
  public_quota_bytes = none;
  private_used_bytes = pos 30;
  public_used_bytes = pos 0;
}

abbrev pub alice : User
alice = user_row 1 "alice" false

abbrev pub acme : User
acme = user_row 2 "acme" true

abbrev pub bob : User
bob = user_row 3 "bob" false

abbrev pub alice_in_acme : UserOrganization
alice_in_acme = record { user = 1; organization = 2; role = "admin" }

abbrev pub repo_row : ℕ → String → String → ℕ → Repository
repo_row id namespace name owner = record {
  id = id;
  repo_type = "model";
  namespace = namespace;
  name = name;
  full_id = namespace +s "/" +s name;
  private = true;
  owner = owner;
  quota_bytes = none;
  used_bytes = pos 30;
  lfs_threshold_bytes = none;
  lfs_keep_versions = some 2;
  lfs_suffix_rules = some "rules";
  likes_count = 0;
}

abbrev pub bert : Repository
bert = repo_row 5 "acme" "bert" 2

abbrev pub clip : Repository
clip = repo_row 6 "bob" "clip" 3

abbrev pub file_row : ℕ → ℕ → String → String → File
file_row id repo path sha256 = record {
  id = id;
  repository = repo;
  path_in_repo = path;
  size = 20;
  sha256 = sha256;
  lfs = true;
  is_deleted = false;
}

abbrev pub version_row : ℕ → String → ℕ → LfsObjectHistory
version_row repo sha256 time = record {
  repository = repo;
  path_in_repo = "w.bin";
  sha256 = sha256;
  size = 20;
  commit_id = "c";
  file = none;
  created_at = time;
}

-- `bert` has four versions of one file, the newest in use; its oldest is in use by `clip`.
abbrev pub tables : Db
tables = record {
  users = alice ∷ acme ∷ bob ∷ [];
  memberships = alice_in_acme ∷ [];
  repositories = bert ∷ clip ∷ [];
  files = file_row 1 5 "w.bin" "s4" ∷ file_row 2 6 "w.bin" "s1" ∷ [];
  lfs_history =
      version_row 5 "s1" 10
      ∷ version_row 5 "s2" 20
      ∷ version_row 6 "s1" 25
      ∷ version_row 5 "s3" 30
      ∷ version_row 5 "s4" 40
      ∷ [];
  likes = [];
  invitations = [];
  commits = [];
}

abbrev pub settings : Config
settings = record {
  default_user_private_quota_bytes = none;
  default_user_public_quota_bytes = none;
  default_org_private_quota_bytes = some (pos 1000);
  default_org_public_quota_bytes = none;
  lfs_threshold_bytes = 5000000;
  lfs_keep_versions = 5;
  lfs_suffix_rules_default = ".safetensors" ∷ ".bin" ∷ [];
  lfs_auto_gc = true;
}

pub tables-UniqueKeys : UniqueKeys tables
unfolding any
tables-UniqueKeys = record {
  username = λ name.
      let p : User → Bool = λ u. str_eq u.username name in
      AtMostOne-cons p alice (acme ∷ bob ∷ []) (λ h. rw (← (eq_iff alice.username name).0 h))
        (AtMostOne-cons p acme (bob ∷ []) (λ h. rw (← (eq_iff acme.username name).0 h))
          (AtMostOne-cons p bob [] (λ h. refl) (AtMostOne-nil p)));
  user_id = λ id.
      let p : User → Bool = λ u. u.id == id in
      AtMostOne-cons p alice (acme ∷ bob ∷ []) (λ h. ground arith)
        (AtMostOne-cons p acme (bob ∷ []) (λ h. ground arith)
          (AtMostOne-cons p bob [] (λ h. refl) (AtMostOne-nil p)));
  membership =
      λ u o. AtMostOne-cons (is_membership u o) alice_in_acme [] (λ h. refl) (AtMostOne-nil _);
  repository_id = λ id.
      let p : Repository → Bool = λ r. r.id == id in
      AtMostOne-cons p bert (clip ∷ []) (λ h. ground arith)
        (AtMostOne-cons p clip [] (λ h. refl) (AtMostOne-nil p));
}

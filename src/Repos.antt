-- ===== src/Repos.antt =====
-- src/kohakuhub/api/repo/routers/crud.py: the creation of a repository. LakeFS and S3 are services with
-- one state: `RepoLake` has the calls that are made of them.
pub mod Orphans
pub mod Creating
pub mod Moving
mod Tests
use kohaku_hub.Prelude.{
  ℕ, String, Bool, true, false, ◌&&◌, ◌||◌, not, Option, none, some, List, [], ◌∷◌, ◌++◌, find?,
  ltb, str_eq, if◌then◌else◌,
}
use kohaku_hub.Prelude.Int.{pos}
use kohaku_hub.Http.{Error, Result, ok, err, http, ◌>>=◌, ◌>>◌, absent}
use kohaku_hub.Db.{Db, User, Repository}
use kohaku_hub.Db.Queries.{get_repository}
use kohaku_hub.Auth.Permissions.{◌+s◌, check_namespace_permission}
use kohaku_hub.Names.{normalize_name}
use kohaku_hub.Names.Lake.{lakefs_repo_name}
use kohaku_hub.Fallback.Keys.{RepoKey, starts_with}
use kohaku_hub.Fallback.Cache.{TtlCache, RepoSourceCache, invalidate_repo}

-- What LakeFS answers to the creation of a repository: the new state, or the text of what it raises.
pub data Creation (Lake : Type 0) : Type 0 where
  created : Lake → Creation Lake
  refused : String → Creation Lake

pub record RepoLake : Type 1 where
  pub Lake : Type 0
  pub create_repository : (name storage_namespace : String) → Lake → Creation Lake
  -- `none` where it raises
  pub repository_exists : String → Lake → Option Bool
  -- the first keys with the prefix, in the order of S3; `none` where it raises
  pub list_keys : (prefix : String) → (max_keys : ℕ) → Lake → Option (List String)
  pub delete_key : String → Lake → Option Lake
  -- the number of deleted objects; what S3 raises is caught there
  pub delete_prefix : String → Lake → ℕ × Lake

-- `text in whole`
unfoldable pub contains : String → String → Bool
contains text String.[] = starts_with String.[] text
contains text (String.◌∷◌ c whole) = starts_with (String.◌∷◌ c whole) text || contains text whole

-- `_is_lakefs_namespace_in_use_error`
unfoldable pub is_namespace_in_use_error :
    (lower : String → String) → (error_text storage_namespace : String) → Bool
is_namespace_in_use_error lower error_text storage_namespace =
    contains "storage namespace already in use" (lower error_text)
    && contains storage_namespace error_text
    && contains "_lakefs/dummy" error_text

abbrev pub storage_namespace : (bucket lakefs_repo : String) → String
storage_namespace bucket lakefs_repo = "s3://" +s bucket +s "/" +s lakefs_repo

abbrev pub all_internal : String → List String → Bool
all_internal repo_prefix [] = true
all_internal repo_prefix (key ∷ keys) =
    starts_with key (repo_prefix +s "_lakefs/") && all_internal repo_prefix keys

-- `_has_only_internal_lakefs_markers`; the prefix ends with one slash.
unfoldable pub has_only_internal_markers : List String → String → Bool → Bool
has_only_internal_markers [] repo_prefix allow_empty = allow_empty
has_only_internal_markers (key ∷ keys) repo_prefix allow_empty =
    all_internal repo_prefix (key ∷ keys)

abbrev pub is_empty : List String → Bool
is_empty [] = true
is_empty (key ∷ keys) = false

abbrev pub creation_failed : Error
creation_failed = http 500 "LakeFS repository creation failed"

-- The answer to an exception that no handler catches.
abbrev pub uncaught : Error
uncaught = http 500 "Internal Server Error"

module _ (lakes : RepoLake) where
  abbrev pub delete_dummy : String → lakes.Lake → Option Bool × lakes.Lake
  delete_dummy repo_prefix lake = elim (lakes.delete_key (repo_prefix +s "_lakefs/dummy") lake) [
    | none ↦ (some false, lake)
    | some lake' ↦ (some true, lake')
  ]

  abbrev pub delete_all_keys : String → lakes.Lake → Option Bool × lakes.Lake
  delete_all_keys repo_prefix lake =
      let (deleted_count, lake') = lakes.delete_prefix repo_prefix lake in
      (some (ltb 0 deleted_count), lake')

  abbrev pub delete_sampled :
      String → Bool → Option (List String) → lakes.Lake → Option Bool × lakes.Lake
  delete_sampled repo_prefix allow_empty none lake = (none, lake)
  delete_sampled repo_prefix allow_empty (some sample_keys) lake =
      if not (has_only_internal_markers sample_keys repo_prefix allow_empty)
      then (some false, lake)
      else if is_empty sample_keys && allow_empty
      then delete_dummy repo_prefix lake
      else delete_all_keys repo_prefix lake

  -- `_cleanup_orphan_namespace_if_safe`; `none` where S3 raises.
  unfoldable pub cleanup_orphan : String → Bool → lakes.Lake → Option Bool × lakes.Lake
  cleanup_orphan lakefs_repo allow_empty lake = elim (lakes.repository_exists lakefs_repo lake) [
    | none ↦ (some false, lake)
    | some true ↦ (some false, lake)
    | some false ↦
        let repo_prefix = lakefs_repo +s "/" in
        delete_sampled repo_prefix allow_empty (lakes.list_keys repo_prefix 20 lake) lake
  ]

  abbrev pub create_again :
      (lakefs_repo namespace : String) → Option Bool × lakes.Lake → Result (Unit {0}) × lakes.Lake
  create_again lakefs_repo namespace (none, lake) = (err uncaught, lake)
  create_again lakefs_repo namespace (some cleaned, lake) =
      if cleaned
      then elim (lakes.create_repository lakefs_repo namespace lake) [
        | created lake' ↦ (ok tt, lake')
        | refused text ↦ (err creation_failed, lake)
      ]
      else (err creation_failed, lake)

  -- An orphaned namespace of the same name is cleaned, once, if that is safe.
  unfoldable pub create_lake :
      (lower : String → String)
      → (bucket lakefs_repo : String) → lakes.Lake
      → Result (Unit {0}) × lakes.Lake
  create_lake lower bucket lakefs_repo lake =
      let namespace = storage_namespace bucket lakefs_repo in
      elim (lakes.create_repository lakefs_repo namespace lake) [
        | created lake' ↦ (ok tt, lake')
        | refused text ↦
            if is_namespace_in_use_error lower text namespace
            then create_again lakefs_repo namespace (cleanup_orphan lakefs_repo true lake)
            else (err creation_failed, lake)
      ]

pub record CreateRepoPayload : Type 0 where
  pub repo_type : String
  pub name : String
  pub organization : Option String
  pub private : Option Bool
  pub visibility : Option String

-- `private` comes before `visibility`, and a repository is public without both.
unfoldable pub resolve_create_repo_private : Option Bool → Option String → Result Bool
resolve_create_repo_private (some private) visibility = ok private
resolve_create_repo_private none none = ok false
resolve_create_repo_private none (some visibility) =
    if str_eq visibility "private"
    then ok true
    else if str_eq visibility "public"
    then ok false
    else err
        (http 400 "Unsupported repository visibility. Only 'public' and 'private' are supported.")

-- `organization or username`
abbrev pub namespace_of : Option String → User → String
namespace_of none user = user.username
namespace_of (some organization) user =
    if str_eq organization "" then user.username else organization

-- The repository has the type, the namespace and the normalized name.
abbrev pub same_name :
    (lower : String → String) → (repo_type namespace normalized : String) → Repository → Bool
same_name lower repo_type namespace normalized r =
    str_eq r.repo_type repo_type
    && str_eq r.namespace namespace
    && str_eq (normalize_name lower r.name) normalized

-- The answer 409 to a name that is taken up to its normalization.
abbrev pub no_conflict : Option Repository → Result (Unit {0})
no_conflict none = ok tt
no_conflict (some repo) =
    err (http 409 ("Repository name conflicts with existing repository: " +s repo.name))

unfoldable pub create_repo_checks :
    (lower : String → String) → CreateRepoPayload → User → Db → Result Bool
create_repo_checks lower payload user db = do
  private ← resolve_create_repo_private payload.private payload.visibility
  let namespace = namespace_of payload.organization user
  allowed ← check_namespace_permission namespace (some user) false false db
  absent (get_repository payload.repo_type namespace payload.name db)
      (http 409 ("Repository " +s namespace +s "/" +s payload.name +s " already exists"))
  no_conflict (
      find? (same_name lower payload.repo_type namespace (normalize_name lower payload.name))
        db.repositories)
  ok private

abbrev pub repository_row : ℕ → (repo_type namespace name : String) → Bool → User → Repository
repository_row new_id repo_type namespace name private user = record {
  id = new_id;
  repo_type = repo_type;
  namespace = namespace;
  name = name;
  full_id = namespace +s "/" +s name;
  private = private;
  owner = user.id;
  quota_bytes = none;
  used_bytes = pos 0;
  lfs_threshold_bytes = none;
  lfs_keep_versions = none;
  lfs_suffix_rules = none;
  likes_count = 0;
}

-- `Repository.get_or_create`, by all but the defaults.
unfoldable pub get_or_create_repository : Repository → Db → Db
get_or_create_repository row db =
    elim (find?
      (λ r.
        str_eq r.repo_type row.repo_type
        && str_eq r.namespace row.namespace
        && str_eq r.name row.name
        && str_eq r.full_id row.full_id)
      db.repositories) [
        | some repo ↦ db
        | none ↦ record db { repositories = db.repositories ++ row ∷ [] }
      ]

pub record Server (ttl : TtlCache) (lakes : RepoLake) : Type 0 where
  pub db : Db
  pub lake : lakes.Lake
  pub fallback_cache : RepoSourceCache ttl

module _ {ttl : TtlCache} {lakes : RepoLake} (lower : String → String) (base_repr : ℕ → String)
    (halves : String → ℕ × ℕ) (str : ℕ → String) (bucket : String) where
  abbrev pub store_repo :
      Repository
      → Result (Unit {0}) × lakes.Lake
      → Server ttl lakes
      → Result String × Server ttl lakes
  store_repo row (err e, lake) s = (err e, record s { lake = lake })
  store_repo row (ok done, lake) s = (
    ok row.full_id,
    record {
      db = get_or_create_repository row s.db;
      lake = lake;
      fallback_cache =
          (invalidate_repo ttl str
            (record { repo_type = row.repo_type; namespace = row.namespace; name = row.name })
            s.fallback_cache).1;
    },
  )

  -- The full id of the repository.
  unfoldable pub create_repo :
      (new_id : ℕ) → CreateRepoPayload → User → Server ttl lakes → Result String × Server ttl lakes
  create_repo new_id payload user s = elim (create_repo_checks lower payload user s.db) [
    | err e ↦ (err e, s)
    | ok private ↦
        let namespace = namespace_of payload.organization user in
        let row = repository_row new_id payload.repo_type namespace payload.name private user in
        let lakefs_repo = lakefs_repo_name lower base_repr halves payload.repo_type row.full_id in
        store_repo row (create_lake lakes lower bucket lakefs_repo s.lake) s
  ]

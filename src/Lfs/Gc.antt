-- ===== src/Lfs/Gc.antt =====
-- src/kohakuhub/api/repo/utils/gc.py, the tracking and the collection of LFS objects. The state is the
-- tables and the LFS objects in S3, by their hash, which the object's key ends with. `s3_deletes` says
-- whether S3 carries out the deletion of an object or raises. A row's time is the clock's, an argument;
-- of rows with one time the order of the query is the order of creation.
pub mod Order
pub mod Versions
pub mod Oldest
pub mod Safety
pub mod Sharing
mod Tests
use kohaku_hub.Prelude.{
  ℕ, suc, ◌+◌, String, Bool, true, false, ◌&&◌, not, Option, none, some, List, [], ◌∷◌, ◌++◌,
  length, drop, find?, keep, any, count, ltb, leb, ◌==◌, str_eq, if◌then◌else◌,
}
use kohaku_hub.Config.{Config}
use kohaku_hub.Db.{Db, Repository, File, LfsObjectHistory}
use kohaku_hub.Db.Queries.{get_repository}
use kohaku_hub.Lfs.Rules.{get_effective_lfs_keep_versions}

pub record Storage : Type 0 where
  pub db : Db
  pub objects : List String

unfoldable pub create_lfs_history :
    Repository → (path sha256 : String) → ℕ → String → Option ℕ → ℕ → Db → Db
create_lfs_history repo path sha256 size commit_id file now db = record db {
  lfs_history =
      db.lfs_history
      ++ record {
        repository = repo.id;
        path_in_repo = path;
        sha256 = sha256;
        size = size;
        commit_id = commit_id;
        file = file;
        created_at = now;
      }
        ∷ [];
}

abbrev file_id : Option File → Option ℕ
file_id none = none
file_id (some f) = some f.id

-- The tables, changed only if the repository is there.
unfoldable pub track_lfs_object :
    (repo_type namespace name path sha256 : String) → ℕ → String → ℕ → Db → Db
track_lfs_object repo_type namespace name path sha256 size commit_id now db =
    elim (get_repository repo_type namespace name db) [
      | none ↦ db
      | some repo ↦
          let file = find? (λ f. f.repository == repo.id && str_eq f.path_in_repo path) db.files in
          create_lfs_history repo path sha256 size commit_id (file_id file) now db
    ]

-- ORDER BY created_at DESC
insert_newest : LfsObjectHistory → List LfsObjectHistory → List LfsObjectHistory
insert_newest h [] = h ∷ []
insert_newest h (r ∷ rows) =
    let later = r ∷ insert_newest h rows in
    if leb r.created_at h.created_at then h ∷ r ∷ rows else later

unfoldable pub newest_first : List LfsObjectHistory → List LfsObjectHistory
unfolding insert_newest
newest_first [] = []
newest_first (h ∷ rows) = insert_newest h (newest_first rows)

-- The loop over the rows, with the set of the hashes seen so far.
unfoldable pub unique_oids : List String → List LfsObjectHistory → List String
unique_oids seen [] = []
unique_oids seen (version ∷ rows) =
    let rest = unique_oids seen rows in
    let fresh = version.sha256 ∷ unique_oids (version.sha256 ∷ seen) rows in
    if any (str_eq version.sha256) seen then rest else fresh

abbrev pub is_version : Repository → String → LfsObjectHistory → Bool
is_version repo path h = h.repository == repo.id && str_eq h.path_in_repo path

-- The unique hashes of the file's versions, newest first.
unfoldable pub versions : Repository → String → Db → List String
unfolding newest_first unique_oids
versions repo path db = unique_oids [] (newest_first (keep (is_version repo path) db.lfs_history))

unfoldable pub get_old_lfs_versions : Repository → String → ℕ → Db → List String
get_old_lfs_versions repo path keep_count db =
    let oids = versions repo path db in
    if leb (length oids) keep_count then [] else drop keep_count oids

abbrev pub is_active_lfs : String → File → Bool
is_active_lfs sha256 f = str_eq f.sha256 sha256 && f.lfs && not f.is_deleted

-- The test that a repository, if one is given, puts on a row's repository.
abbrev pub in_scope : Option Repository → ℕ → Bool
in_scope none id = true
in_scope (some repo) id = id == repo.id

abbrev pub is_history_of : String → Option Repository → LfsObjectHistory → Bool
is_history_of sha256 repo h = in_scope repo h.repository && str_eq h.sha256 sha256

-- `if not repo` and the global history has the object.
abbrev in_other_history : String → Option Repository → Db → Bool
in_other_history sha256 none db = ltb 0 (count (λ h. str_eq h.sha256 sha256) db.lfs_history)
in_other_history sha256 (some repo) db = false

unfoldable pub delete_object : String → Option Repository → Storage → Storage
delete_object sha256 repo s = record {
  db = record s.db { lfs_history = keep (λ h. not (is_history_of sha256 repo h)) s.db.lfs_history };
  objects = keep (λ key. not (str_eq key sha256)) s.objects;
}

module _ (s3_deletes : String → Bool) where
  unfoldable pub cleanup_lfs_object : String → Option Repository → Storage → Bool × Storage
  cleanup_lfs_object sha256 repo s =
      let current_uses =
        count (λ f. is_active_lfs sha256 f && in_scope repo f.repository) s.db.files in
      if ltb 0 current_uses
      then (false, s)
      else if in_other_history sha256 repo s.db
      then (false, s)
      else if s3_deletes sha256
      then (true, delete_object sha256 repo s)
      else (false, s)

  -- The loop of `run_gc_for_file` over the old hashes.
  unfoldable pub cleanup_all : List String → Repository → ℕ × Storage → ℕ × Storage
  cleanup_all [] repo (deleted_count, s) = (deleted_count, s)
  cleanup_all (sha256 ∷ old_hashes) repo (deleted_count, s) =
      let (done, s') = cleanup_lfs_object sha256 (some repo) s in
      cleanup_all old_hashes repo (if done then deleted_count + 1 else deleted_count, s')

  unfoldable pub run_gc_for_file :
      Config → (repo_type namespace name path : String) → Storage → ℕ × Storage
  unfolding cleanup_all
  run_gc_for_file cfg repo_type namespace name path s =
      if not cfg.lfs_auto_gc then (0, s) else elim (get_repository repo_type namespace name s.db) [
        | none ↦ (0, s)
        | some repo ↦
            cleanup_all
              (get_old_lfs_versions repo path (get_effective_lfs_keep_versions cfg repo) s.db) repo
              (0, s)
      ]

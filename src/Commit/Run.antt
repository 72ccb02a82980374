-- ===== src/Commit/Run.antt =====
-- The endpoint `commit` of src/kohakuhub/api/commit/routers/operations.py: its payload, the loop over
-- the operations, and what follows them. Waiting until LakeFS shows the commit changes nothing and is
-- left out, as is logging. The id of a LakeFS commit is new, so that its row can always be added.
use kohaku_hub.Prelude.{
  is_some, ℕ, String, Bool, false, ◌||◌, not, Option, none, some, List, [], ◌∷◌, ◌++◌,
  if◌then◌else◌,
}
use kohaku_hub.Config.{Config}
use kohaku_hub.Http.{Result, ok, err, http, out_of_fuel}
use kohaku_hub.Db.{Db, User, Repository, Commit}
use kohaku_hub.Db.Queries.{get_repository_by_full_id, get_organization}
use kohaku_hub.Auth.Permissions.{◌+s◌, check_repo_write_permission}
use kohaku_hub.Names.Lake.{lakefs_repo_name}
use kohaku_hub.Quota.Calculate.{Lister, update_repository_storage, update_namespace_storage}
use kohaku_hub.Lfs.Gc.{Storage, track_lfs_object, run_gc_for_file}
use kohaku_hub.Commit.{
  LakeFs, Services, Handler, return, ◌>>=◌, ◌>>◌, given, check, get_db, change_db, with_db,
}
use kohaku_hub.Commit.Process.{
  LfsInfo, process_regular_file, process_lfs_file, process_deleted_file, process_deleted_folder,
  process_copy_file,
}

-- The value of an operation has all its keys.
pub data Operation : Type 0 where
  file : (path content encoding : String) → Operation
  lfs_file : (path oid : String) → ℕ → (algo : String) → Operation
  deleted_file : String → Operation
  deleted_folder : String → Operation
  -- without a source revision it is the branch itself
  copy_file : (path src_path : String) → Option String → Operation

-- A line of the payload, as `json.loads` reads it.
pub data Line : Type 0 where
  blank : Line
  broken : Line
  header : (summary description : String) → Line
  operation : Operation → Line
  other_key : Line

pub record Payload : Type 0 where
  pub head : Option (String × String)
  pub operations : List Operation

-- The loop over the lines; a later header takes the place of an earlier one.
unfoldable pub parse_lines : List Line → Payload → Result Payload
parse_lines [] payload = ok payload
parse_lines (blank ∷ lines) payload = parse_lines lines payload
parse_lines (broken ∷ lines) payload = err (http 400 "Invalid JSON line")
parse_lines (header summary description ∷ lines) payload =
    parse_lines lines (record payload { head = some (summary, description) })
parse_lines (operation op ∷ lines) payload =
    parse_lines lines (record payload { operations = payload.operations ++ op ∷ [] })
parse_lines (other_key ∷ lines) payload = parse_lines lines payload

abbrev pub lift : {lakefs : LakeFs} {A : Type 0} → Result A → Handler lakefs A
lift r w = (r, w)

abbrev pub or_revision : String → Option String → String
or_revision revision none = revision
or_revision revision (some src_revision) = src_revision

abbrev pub record_commit : String → Repository → String → User → String → String → Db → Db
record_commit commit_id repo revision user message description db =
    let row : Commit = record {
      commit_id = commit_id;
      repository = repo.id;
      repo_type = repo.repo_type;
      branch = revision;
      author = user.id;
      owner = repo.owner;
      username = user.username;
      message = message;
      description = description;
    } in
    record db { commits = db.commits ++ row ∷ [] }

module _ (cfg : Config) (s3_deletes : String → Bool) (repo_type namespace name commit_id : String)
    (now : ℕ) where
  abbrev pub collect_if : Option String → String → Storage → Storage
  collect_if none path s = s
  collect_if (some old_sha256) path s =
      if cfg.lfs_auto_gc
      then (run_gc_for_file s3_deletes cfg repo_type namespace name path s).1
      else s

  -- Each LFS file is recorded, and the old versions of a replaced one are collected.
  unfoldable pub track_pending : List LfsInfo → Storage → Storage
  track_pending [] s = s
  track_pending (lfs_info ∷ pending) s =
      let tracked =
        track_lfs_object repo_type namespace name lfs_info.path lfs_info.sha256 lfs_info.size
          commit_id now s.db in
      track_pending pending
        (collect_if lfs_info.old_sha256 lfs_info.path (record s { db = tracked }))

abbrev pub with_info : {lakefs : LakeFs} → Bool × LfsInfo → Handler lakefs (Bool × List LfsInfo)
with_info (changed, lfs_info) = return (changed, lfs_info ∷ [])

abbrev pub without_info : {lakefs : LakeFs} → Bool → Handler lakefs (Bool × List LfsInfo)
without_info changed = return (changed, [])

module _ {lakefs : LakeFs} (cfg : Config) (services : Services) where
  module _ (fuel : ℕ) (repo : Repository) (lakefs_repo revision : String) where
    -- Whether it changed a file, and what is to be recorded.
    unfoldable pub process_operation : Operation → Handler lakefs (Bool × List LfsInfo)
    process_operation (file path content encoding) =
        process_regular_file cfg services repo lakefs_repo revision path content
          (services.lower encoding)
        >>= without_info
    process_operation (lfs_file path oid size algo) =
        process_lfs_file cfg services repo lakefs_repo revision path oid size algo >>= with_info
    process_operation (deleted_file path) =
        process_deleted_file cfg services repo lakefs_repo revision path >>= without_info
    process_operation (deleted_folder path) =
        process_deleted_folder cfg services repo lakefs_repo revision fuel path >>= without_info
    process_operation (copy_file path src_path src_revision) =
        process_copy_file cfg services repo lakefs_repo revision path src_path
          (or_revision revision src_revision)
        >>= without_info

    unfoldable pub process_operations :
        List Operation → Bool → List LfsInfo → Handler lakefs (Bool × List LfsInfo)
    process_operations [] files_changed pending = return (files_changed, pending)
    process_operations (op ∷ operations) files_changed pending = do
      (changed, infos) ← process_operation op
      process_operations operations (files_changed || changed) (pending ++ infos)

  -- What is raised is logged only; without enough fuel for the listings the model has no answer.
  unfoldable pub update_storage :
      ℕ → (Repository → Lister) → Repository → String → Handler lakefs (Unit {0})
  update_storage fuel listings repo namespace w =
      elim (update_repository_storage fuel (listings repo) repo w.storage.db) [
        | none ↦ (err out_of_fuel, w)
        | some (stats, db) ↦
            elim (update_namespace_storage fuel listings namespace
              (is_some (get_organization namespace db)) db) [
                | none ↦ (err out_of_fuel, with_db w db)
                | some (err e) ↦ (ok tt, with_db w db)
                | some (ok (storage, db')) ↦ (ok tt, with_db w db')
              ]
      ]

  abbrev pub no_changes : String → String → Handler lakefs String
  no_changes lakefs_repo revision w = elim (lakefs.get_branch lakefs_repo revision w.lake) [
    | none ↦ (ok "no-changes", w)
    | some commit_id ↦ (ok commit_id, w)
  ]

  abbrev pub commit_lake : String → String → String → String → Handler lakefs String
  commit_lake lakefs_repo revision message description w =
      elim (lakefs.commit lakefs_repo revision message description w.lake) [
        | none ↦ (err (http 500 "Commit failed"), w)
        | some (commit_id, lake) ↦ (ok commit_id, record w { lake = lake })
      ]

  abbrev pub change_storage : (Storage → Storage) → Handler lakefs (Unit {0})
  change_storage change w = (ok tt, record w { storage = change w.storage })

  -- What follows the operations, of which some file was changed.
  unfoldable pub finish_commit :
      ℕ
      → (Repository → Lister)
      → (s3_deletes : String → Bool) → (repo_type namespace name : String) → Repository
      → (lakefs_repo revision message description : String) → List LfsInfo
      → User
      → (now : ℕ) → Handler lakefs String
  finish_commit fuel listings s3_deletes repo_type namespace name repo lakefs_repo revision message
        description pending user now =
      do
        commit_id ← commit_lake lakefs_repo revision message description
        change_db (λ db. record_commit commit_id repo revision user message description db)
        change_storage (track_pending cfg s3_deletes repo_type namespace name commit_id now pending)
        update_storage fuel listings repo namespace
        return commit_id

  unfoldable pub after_operations :
      ℕ
      → (Repository → Lister)
      → (s3_deletes : String → Bool) → (repo_type namespace name : String) → Repository
      → (lakefs_repo revision message description : String) → User
      → (now : ℕ) → Bool × List LfsInfo
      → Handler lakefs String
  after_operations fuel listings s3_deletes repo_type namespace name repo lakefs_repo revision
        message description user now (files_changed, pending) =
      if files_changed
      then finish_commit fuel listings s3_deletes repo_type namespace name repo lakefs_repo revision
          message description pending user now
      else no_changes lakefs_repo revision

  -- The operations of an accepted request, and what follows them.
  unfoldable pub run_commit :
      ℕ
      → (Repository → Lister)
      → (s3_deletes : String → Bool) → (repo_type namespace name : String) → Repository
      → (revision : String) → List Operation
      → String × String
      → User
      → (now : ℕ) → Handler lakefs String
  run_commit fuel listings s3_deletes repo_type namespace name repo revision operations
        (message, description) user now =
      do
        let lakefs_repo =
            lakefs_repo_name services.lower services.base_repr services.halves repo_type
              (namespace +s "/" +s name)
        result ← process_operations fuel repo lakefs_repo revision operations false []
        after_operations fuel listings s3_deletes repo_type namespace name repo lakefs_repo revision
            message description user now result

  -- The id of the commit. `create_pr` asks for a pull request.
  unfoldable pub commit :
      ℕ
      → (Repository → Lister)
      → (s3_deletes : String → Bool) → (repo_type namespace name : String) → (revision : String)
      → (create_pr : Bool) → List Line
      → User
      → (now : ℕ) → Handler lakefs String
  commit fuel listings s3_deletes repo_type namespace name revision create_pr lines user now = do
    let repo_id = namespace +s "/" +s name
    check (not create_pr) (
        http 501
          "create_commit(create_pr=True) is not supported by KohakuHub. Commit to a branch directly instead; the discussions / pull-request workflow is not implemented.")
    db ← get_db
    repo ← given (get_repository_by_full_id repo_id repo_type db) (http 404 "Repository not found")
    allowed ← lift (check_repo_write_permission repo (some user) false db)
    payload ← lift (parse_lines lines (record { head = none; operations = [] }))
    head ← given payload.head (http 400 "Missing commit header")
    run_commit fuel listings s3_deletes repo_type namespace name repo revision payload.operations
        head user now

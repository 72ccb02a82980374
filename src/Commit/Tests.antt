-- ===== src/Commit/Tests.antt =====
-- A commit of three operations, on a LakeFS of one repository that keeps the paths of its objects.
use kohaku_hub.Prelude.{
  ℕ, suc, ◌≡◌, ◌<◌, ◌+◌, ◌⊎◌, refl, String, Bool, true, false, not, none, some, List, [], ◌∷◌, ◌++◌,
  keep, any, find?, count, arith, str_eq, ◌==◌, if◌then◌else◌, AtMostOne-cons, AtMostOne-nil,
}
use kohaku_hub.Http.{Error, Result, ok, err, http}
use kohaku_hub.Db.{File, Repository}
use kohaku_hub.Fixtures.{tables, settings, bob, file_row}
use kohaku_hub.Quota.Calculate.{
  Lister, update_repository_storage, calculate_repository_storage, count_pages,
  update_namespace_storage, calculate_namespace_storage, sum_totals, distinct, sum_sizes,
}
use kohaku_hub.Quota.{entity_or_none}
use kohaku_hub.Fallback.Keys.{starts_with, ends_with}
use kohaku_hub.Commit.{LakeFs, LakeObject, Services, Work}
use kohaku_hub.Commit.Files.{
  is_file, get_file, get_any_file, upsert_file, set_deleted, view, FileKeys,
}
use kohaku_hub.Commit.Content.{contents, Same}
use kohaku_hub.Commit.Writes.{GivesFreshIds}
use kohaku_hub.Commit.Runs.{Runs}
use kohaku_hub.Commit.Requests.{Accepted, lake_name, Committed, Stopped}
use kohaku_hub.Commit.Refines.{commit_refines, commit_error}
use kohaku_hub.Commit.Run.{
  Operation, Line, parse_lines, track_pending, process_operation, process_operations,
  update_storage, finish_commit, after_operations, run_commit, commit,
}
use kohaku_hub.Commit.Process.{
  list_all, calculate_git_blob_sha1, as_folder, process_regular_file, keep_lfs_file, link_lfs_file,
  process_lfs_file, process_deleted_file, delete_objects, process_deleted_folder, process_copy_file,
}
use kohaku_hub.Db.Queries.{
  get_repository_by_full_id, get_repository, get_organization, get_user_by_username, save_user,
  save_repository,
}
use kohaku_hub.Auth.Permissions.{check_repo_write_permission}
use kohaku_hub.Lfs.Rules.{
  should_use_lfs, get_effective_lfs_threshold, get_effective_lfs_suffix_rules,
  get_effective_lfs_keep_versions,
}
use kohaku_hub.Lfs.Gc.{
  track_lfs_object, create_lfs_history, run_gc_for_file, get_old_lfs_versions, versions,
  cleanup_lfs_object, delete_object,
}

abbrev object : String → LakeObject
object path = record {
  path = path;
  path_type = "object";
  physical_address = path;
  checksum = "sum";
  size_bytes = 4;
}

abbrev objects : List String → List LakeObject
objects [] = []
objects (path ∷ paths) = object path ∷ objects paths

abbrev paths : LakeFs
paths = record {
  Lake = List String;
  upload_object = λ repo branch path content lake. some (path ∷ lake);
  link_physical_address = λ repo branch path address checksum size lake. some (path ∷ lake);
  delete_object = λ repo branch path lake.
      if any (str_eq path) lake then some (keep (λ p. not (str_eq p path)) lake) else none;
  stat_object = λ repo ref path lake. if any (str_eq path) lake then some (object path) else none;
  list_objects = λ repo ref folder after lake. some (record {
    results = objects (keep (λ p. starts_with p folder) lake);
    has_more = false;
    next_offset = "";
  });
  commit = λ repo branch message description lake. some ("c1", lake);
  get_branch = λ repo branch lake. some "c0";
}

max_id : List File → ℕ
max_id [] = 0
max_id (f ∷ files) = f.id + max_id files

abbrev next_id : List File → ℕ
next_id files = suc (max_id files)

abbrev services : Services
services = record {
  lower = λ text. text;
  parse_rules = λ text. some [];
  base_repr = λ num. "7";
  halves = λ text. (6, 3);
  b64decode = λ text. some (1 ∷ 2 ∷ []);
  blob_header = λ size. size ∷ [];
  sha1 = λ content. "hash";
  bucket = "bucket";
  object_exists = λ key. some true;
  object_size = λ key. some 9;
  row_starts_with = starts_with;
  fresh_id = next_id;
}

above : (files : List File) (id : ℕ) → max_id files < id → any (λ f. f.id == id) files ≡ false
unfolding max_id any
above [] id h = refl
above (f ∷ files) id h = ground (arith, above files id)

fresh_ids : GivesFreshIds services
fresh_ids files = above files (next_id files) (omega arith)

file_keys : FileKeys tables.files
unfolding any
file_keys = record {
  file_id = λ id.
      let p : File → Bool = λ f. f.id == id in
      AtMostOne-cons p (file_row 1 5 "w.bin" "s4") (file_row 2 6 "w.bin" "s1" ∷ [])
        (λ h. ground arith)
        (AtMostOne-cons p (file_row 2 6 "w.bin" "s1") [] (λ h. refl) (AtMostOne-nil p));
  file_path = λ repo path.
      let p : File → Bool = is_file repo path in
      AtMostOne-cons p (file_row 1 5 "w.bin" "s4") (file_row 2 6 "w.bin" "s1" ∷ [])
        (λ h. ground arith)
        (AtMostOne-cons p (file_row 2 6 "w.bin" "s1") [] (λ h. refl) (AtMostOne-nil p));
}

abbrev before : Work paths
before = record {
  storage = record { db = tables; objects = "s4" ∷ "s1" ∷ [] };
  lake = "w.bin" ∷ "old/a.txt" ∷ [];
}

abbrev empty_listing : Repository → Lister
empty_listing repo after = none

abbrev request : List Line
request =
    Line.header "message" ""
    ∷ Line.operation (Operation.file "a.txt" "AQI=" "base64")
    ∷ Line.operation (Operation.lfs_file "w.bin" "s5" 9 "sha256")
    ∷ Line.operation (Operation.deleted_folder "old")
    ∷ Line.operation (Operation.copy_file "b.txt" "a.txt" none)
    ∷ Line.operation (Operation.deleted_file "a.txt")
    ∷ []

abbrev run : List Line → Result String × Work paths
run lines =
    commit settings services 2 empty_listing (λ key. true) "model" "bob" "clip" "main" false lines
      bob 50 before

committed : run request ≡ (ok "c1", (run request).1)
unfolding commit run_commit after_operations finish_commit update_storage track_pending parse_lines
    process_operations process_operation process_regular_file process_lfs_file keep_lfs_file
    link_lfs_file process_deleted_file process_deleted_folder process_copy_file delete_objects
    list_all calculate_git_blob_sha1 as_folder get_file get_any_file upsert_file set_deleted
    get_repository_by_full_id check_repo_write_permission find? any keep should_use_lfs starts_with
    ends_with kohaku_hub.Lfs.Rules.ends_with get_effective_lfs_suffix_rules
    update_repository_storage calculate_repository_storage count_pages update_namespace_storage
    calculate_namespace_storage sum_totals save_repository run_gc_for_file get_repository
    track_lfs_object create_lfs_history get_old_lfs_versions versions get_organization save_user
    cleanup_lfs_object delete_object get_effective_lfs_keep_versions get_effective_lfs_threshold
    count distinct sum_sizes entity_or_none get_user_by_username
committed = refl

commit_refines_example :
    (a : Accepted "model" "bob" "clip" false request bob tables) × (last : Work paths) × Runs
      services a.repo
      (lake_name services "model" "bob" "clip")
      "main"
      a.operations
      before
      last
    × Committed before
        (run request).1
        last
        "main"
        a.message
        (lake_name services "model" "bob" "clip")
        "c1"
    × Same (contents (run request).1) (contents last)
commit_refines_example =
    commit_refines settings services 2 empty_listing (λ key. true) "model" "bob" "clip" "main" false
      request bob 50 before (run request).1 "c1" fresh_ids file_keys committed

abbrev bad_request : List Line
bad_request =
    Line.header "message" ""
    ∷ Line.operation (Operation.file "a.txt" "AQI=" "base64")
    ∷ Line.operation (Operation.copy_file "b.txt" "" none)
    ∷ []

abbrev missing : Error
missing = http 400 "Missing srcPath for copyFile operation"

refused : run bad_request ≡ (err missing, (run bad_request).1)
unfolding commit run_commit after_operations finish_commit update_storage track_pending parse_lines
    process_operations process_operation process_regular_file process_lfs_file keep_lfs_file
    link_lfs_file process_deleted_file process_deleted_folder process_copy_file delete_objects
    list_all calculate_git_blob_sha1 as_folder get_file get_any_file upsert_file set_deleted
    get_repository_by_full_id check_repo_write_permission find? any keep should_use_lfs starts_with
    ends_with kohaku_hub.Lfs.Rules.ends_with get_effective_lfs_suffix_rules
refused = refl

commit_error_example :
    (¬ Accepted "model" "bob" "clip" false bad_request bob tables × ((run bad_request).1 ≡ before))
    ⊎ ((a : Accepted "model" "bob" "clip" false bad_request bob tables) × (first rest : List
          Operation)
        × (a.operations ≡ first ++ rest)
        × Runs services a.repo
            (lake_name services "model" "bob" "clip")
            "main"
            first
            before
            (run bad_request).1
        × Stopped settings services 2
            (run bad_request).1
            a.repo
            "main"
            a.message
            (lake_name services "model" "bob" "clip")
            missing
            rest)
commit_error_example =
    commit_error settings services 2 empty_listing (λ key. true) "model" "bob" "clip" "main" false
      bad_request bob 50 before (run bad_request).1 missing (λ same. cc same) fresh_ids file_keys
      refused

-- The file of the operation before the failed one is there, though no commit has it.
stays : contents (run bad_request).1 6 "a.txt" ≡ some (record { sha256 = "hash"; size = 2 })
unfolding commit run_commit after_operations finish_commit update_storage track_pending parse_lines
    process_operations process_operation process_regular_file process_lfs_file keep_lfs_file
    link_lfs_file process_deleted_file process_deleted_folder process_copy_file delete_objects
    list_all calculate_git_blob_sha1 as_folder get_file get_any_file upsert_file set_deleted
    get_repository_by_full_id check_repo_write_permission find? any keep should_use_lfs starts_with
    ends_with kohaku_hub.Lfs.Rules.ends_with get_effective_lfs_suffix_rules view
stays = refl

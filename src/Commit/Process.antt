-- ===== src/Commit/Process.antt =====
-- The functions `process_…` of src/kohakuhub/api/commit/routers/operations.py, one for each kind of
-- file operation. `lakefs_repo` and `revision` name the LakeFS repository and the branch.
use Prim.Native.String
use kohaku_hub.Prelude.{
  ℕ, zero, suc, String, Bool, true, false, ◌&&◌, ◌||◌, not, Option, none, some, List, [], ◌∷◌, ◌++◌,
  length, keep, ◌==◌, str_eq, if◌then◌else◌,
}
use kohaku_hub.Config.{Config}
use kohaku_hub.Http.{Error, Result, ok, err, http, out_of_fuel}
use kohaku_hub.Db.{Repository, File}
use kohaku_hub.Auth.Permissions.{◌+s◌}
use kohaku_hub.Lfs.Rules.{should_use_lfs}
use kohaku_hub.Fallback.Keys.{starts_with, ends_with}
use kohaku_hub.Commit.{
  LakeFs, LakeObject, LakePage, Services, Work, Handler, return, ◌>>=◌, ◌>>◌, given, check, get_db,
  change_db, with_db, call_lake, ask_lake,
}
use kohaku_hub.Commit.Files.{is_file, get_file, get_any_file, upsert_file, set_deleted}

-- What is recorded of an LFS file after the commit.
pub record LfsInfo : Type 0 where
  pub path : String
  pub sha256 : String
  pub size : ℕ
  pub old_sha256 : Option String

abbrev has_content : String → ℕ → File → Bool
has_content sha256 size f = str_eq f.sha256 sha256 && f.size == size

-- An active row with this content; a deleted one has to be restored.
abbrev pub is_unchanged : Option File → String → ℕ → Bool
is_unchanged none sha256 size = false
is_unchanged (some existing) sha256 size =
    has_content sha256 size existing && not existing.is_deleted

-- A row with this content, deleted or not.
abbrev pub same_content : Option File → String → ℕ → Option File
same_content none oid size = none
same_content (some existing) oid size =
    if has_content oid size existing then some existing else none

-- The hash that an LFS file had before, if it is another.
abbrev pub old_lfs_oid : Option File → String → Option String
old_lfs_oid none oid = none
old_lfs_oid (some existing) oid =
    if existing.lfs && not (str_eq existing.sha256 oid) then some existing.sha256 else none

abbrev pub lfs_key : String → String
lfs_key oid = "lfs/" +s String.slice oid 0 2 +s "/" +s String.slice oid 2 4 +s "/" +s oid

abbrev pub or_given : Option ℕ → ℕ → ℕ
or_given none size = size
or_given (some actual_size) size = actual_size

pub data Listing : Type 0 where
  listed : List LakeObject → Listing
  raised : Listing
  unfinished : Listing

abbrev pub and_listed : List LakeObject → Listing → Listing
and_listed results (listed rest) = listed (results ++ rest)
and_listed results raised = raised
and_listed results unfinished = unfinished

-- The loop over the pages of a listing; each takes one unit of fuel.
unfoldable pub list_all : ℕ → (String → Option LakePage) → String → Listing
list_all zero list_objects after = unfinished
list_all (suc fuel) list_objects after = elim (list_objects after) [
  | none ↦ raised
  | some page ↦ elim page.has_more [
    | true ↦ and_listed page.results (list_all fuel list_objects page.next_offset)
    | false ↦ listed page.results
  ]
]

unfoldable pub calculate_git_blob_sha1 : Services → List ℕ → String
calculate_git_blob_sha1 services content =
    services.sha1 (services.blob_header (length content) ++ content)

abbrev pub uses_lfs : Config → Services → Repository → String → ℕ → Bool
uses_lfs cfg services repo path size =
    should_use_lfs services.lower services.parse_rules cfg repo path size

abbrev pub address_of : Services → String → String
address_of services oid = "s3://" +s services.bucket +s "/" +s lfs_key oid

abbrev pub info : String → String → ℕ → Option String → LfsInfo
info path oid size old = record { path = path; sha256 = oid; size = size; old_sha256 = old }

-- `path if path.endswith("/") else f"{path}/"`
unfoldable pub as_folder : String → String
as_folder path = if ends_with path "/" then path else path +s "/"

-- The rows that the deletion of a folder marks.
abbrev pub in_folder : Services → ℕ → String → ℕ → String → Bool
in_folder services repo folder_path r path = r == repo && services.row_starts_with path folder_path

module _ {lakefs : LakeFs} (cfg : Config) (services : Services) (repo : Repository)
    (lakefs_repo revision : String) where
  abbrev write_file : String → ℕ → String → Bool → Handler lakefs (Unit {0})
  write_file path size sha256 lfs =
      change_db λ db. upsert_file (services.fresh_id db.files) repo path size sha256 lfs db

  -- The refusal of a file for LFS leaves out the sizes and the hint in the source's text.
  unfoldable pub process_regular_file : (path content_b64 encoding : String) → Handler lakefs Bool
  unfolding calculate_git_blob_sha1
  process_regular_file path content_b64 encoding = do
    check (starts_with encoding "base64") (http 400 ("Invalid file operation for " +s path))
    content ← given (services.b64decode content_b64) (http 400 "Failed to decode base64")
    check (not (uses_lfs cfg services repo path (length content)))
        (http 400 ("File " +s path +s " should use LFS"))
    let git_blob_sha1 = calculate_git_blob_sha1 services content
    db ← get_db
    if is_unchanged (get_file repo path db) git_blob_sha1 (length content) then return false else do
      call_lake (λ lake. lakefs.upload_object lakefs_repo revision path content lake)
          (http 500 ("Failed to upload " +s path))
      write_file path (length content) git_blob_sha1 false
      return true

  abbrev link : String → String → String → ℕ → Error → Handler lakefs (Unit {0})
  link path physical_address checksum size e =
      call_lake
        (λ lake.
          lakefs.link_physical_address lakefs_repo revision path physical_address checksum size
            lake)
        e

  -- A row with the same content: a deleted one is linked again and restored.
  unfoldable pub keep_lfs_file :
      (path oid : String) → ℕ → String → File → Handler lakefs (Bool × LfsInfo)
  keep_lfs_file path oid size algo existing =
      if existing.is_deleted
      then (do
        link path (address_of services oid) (algo +s ":" +s oid) size
            (http 500 ("Failed to restore LFS file " +s path +s " in LakeFS"))
        change_db (λ db. set_deleted false (λ f. f.id == existing.id) db)
        return (true, info path oid size none))
      else return (false, info path oid size none)

  -- New content, which S3 must have; its size is the one that S3 tells.
  unfoldable pub link_lfs_file :
      (path oid : String) → ℕ → String → Option String → Handler lakefs (Bool × LfsInfo)
  link_lfs_file path oid size algo old = do
    exists ←
        given (services.object_exists (lfs_key oid)) (http 500 "Failed to verify LFS object in S3")
    check exists (http 400 ("LFS object " +s oid +s " not found in storage"))
    let actual_size = or_given (services.object_size (lfs_key oid)) size
    link path (address_of services oid) (algo +s ":" +s oid) actual_size
        (http 500 ("Failed to link LFS file " +s path +s " in LakeFS"))
    write_file path actual_size oid true
    return (true, info path oid actual_size old)

  unfoldable pub process_lfs_file :
      (path oid : String) → ℕ → String → Handler lakefs (Bool × LfsInfo)
  process_lfs_file path oid size algo = do
    check (not (str_eq oid "")) (http 400 ("Missing OID for LFS file " +s path))
    db ← get_db
    elim (same_content (get_any_file repo path db) oid size) [
      | some existing ↦ keep_lfs_file path oid size algo existing
      | none ↦ link_lfs_file path oid size algo (old_lfs_oid (get_any_file repo path db) oid)
    ]

  -- What LakeFS raises is logged only.
  abbrev pub try_delete : String → Work lakefs → Bool × Work lakefs
  try_delete path w = elim (lakefs.delete_object lakefs_repo revision path w.lake) [
    | none ↦ (false, w)
    | some lake ↦ (true, record w { lake = lake })
  ]

  unfoldable pub process_deleted_file : String → Handler lakefs Bool
  process_deleted_file path w =
      let (done, w') = try_delete path w in
      (ok true, with_db w' (set_deleted true (is_file repo.id path) w'.storage.db))

  -- Whether any of the objects was deleted. The deletions, which run concurrently, are taken in the
  -- listing's order.
  unfoldable pub delete_objects : List LakeObject → Work lakefs → Bool × Work lakefs
  delete_objects [] w = (false, w)
  delete_objects (obj ∷ file_objects) w =
      let (done, w') = try_delete obj.path w in
      let (more, w'') = delete_objects file_objects w' in (done || more, w'')

  abbrev pub mark_folder : String → Bool × Work lakefs → Result Bool × Work lakefs
  mark_folder folder_path (deleted_files, w) =
      if deleted_files
      then (
        ok true,
        with_db w (
            set_deleted true
              (λ f. in_folder services repo.id folder_path f.repository f.path_in_repo)
              w.storage.db),
      )
      else (ok true, w)

  unfoldable pub process_deleted_folder : ℕ → String → Handler lakefs Bool
  process_deleted_folder fuel path w =
      let folder_path = as_folder path in
      elim (list_all fuel
        (λ after. lakefs.list_objects lakefs_repo revision folder_path after w.lake) "") [
          | unfinished ↦ (err out_of_fuel, w)
          | raised ↦ (ok true, w)
          | listed objects ↦
              mark_folder folder_path
                (delete_objects (keep (λ obj. str_eq obj.path_type "object") objects) w)
        ]

  abbrev pub write_copy : Option File → LakeObject → String → Handler lakefs (Unit {0})
  write_copy (some src_file) src_obj dest_path =
      write_file dest_path src_file.size src_file.sha256 src_file.lfs
  write_copy none src_obj dest_path =
      write_file dest_path src_obj.size_bytes src_obj.checksum
        (uses_lfs cfg services repo dest_path src_obj.size_bytes)

  unfoldable pub process_copy_file :
      (dest_path src_path src_revision : String) → Handler lakefs Bool
  process_copy_file dest_path src_path src_revision = do
    check (not (str_eq src_path "")) (http 400 "Missing srcPath for copyFile operation")
    let failed = http 500 ("Failed to copy file " +s src_path +s " to " +s dest_path)
    src_obj ← ask_lake (λ lake. lakefs.stat_object lakefs_repo src_revision src_path lake) failed
    link dest_path src_obj.physical_address src_obj.checksum src_obj.size_bytes failed
    db ← get_db
    write_copy (get_file repo src_path db) src_obj dest_path
    return true

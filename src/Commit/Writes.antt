-- ===== src/Commit/Writes.antt =====
-- The functions `process_…` of src/kohakuhub/api/commit/routers/operations.py write to the file table
-- at most once, and one that raises leaves everything as it was.
use mathlib.Core.Path.{subst}
use kohaku_hub.Prelude.{
  ℕ, ◌≡◌, sym, String, Bool, true, false, List, length, any, keep, arith, ◌==◌, str_eq, Bool-cases,
  Option-cases, inl, inr,
}
use kohaku_hub.Config.{Config}
use kohaku_hub.Http.{Error, Result, ok, err}
use kohaku_hub.Db.{Db, Repository, File}
use kohaku_hub.Commit.{LakeFs, Services, Work}
use kohaku_hub.Commit.Files.{is_file, get_file, get_any_file, upsert_file, set_deleted, FileKeys}
use kohaku_hub.Commit.Keys.{set_deleted-FileKeys, upsert_file-FileKeys}
use kohaku_hub.Commit.Process.{
  LfsInfo, list_all, same_content, or_given, lfs_key, as_folder, in_folder, process_regular_file,
  calculate_git_blob_sha1, keep_lfs_file, link_lfs_file, process_lfs_file, process_deleted_file,
  delete_objects, process_deleted_folder, process_copy_file, uses_lfs,
}
use kohaku_hub.Commit.Effects.{Listing-cases, delete_objects-storage}

-- The file table before and after.
pub data Wrote (services : Services) (db : Db) (files : List File) : Type 0 where
  nothing : files ≡ db.files → Wrote services db files
  a_row :
      (repo : Repository) (path : String) (size : ℕ) (sha256 : String) (lfs : Bool)
      → files ≡ (upsert_file (services.fresh_id db.files) repo path size sha256 lfs db).files
      → Wrote services db files
  marks :
      (is_deleted : Bool) (where_row : File → Bool)
      → files ≡ (set_deleted is_deleted where_row db).files
      → Wrote services db files

abbrev pub GivesFreshIds : Services → Type 0
GivesFreshIds services =
    (files : List File) → any (λ f. f.id == services.fresh_id files) files ≡ false

pub Wrote-FileKeys :
    (services : Services) (db : Db) (files : List File)
    → GivesFreshIds services
    → FileKeys db.files
    → Wrote services db files
    → FileKeys files
Wrote-FileKeys services db files fresh keys (nothing same) = subst FileKeys (sym same) keys
Wrote-FileKeys services db files fresh keys (a_row repo path size sha256 lfs same) =
    subst FileKeys (sym same) (
      upsert_file-FileKeys (services.fresh_id db.files) repo path size sha256 lfs db
        (fresh db.files) keys)
Wrote-FileKeys services db files fresh keys (marks is_deleted where_row same) =
    subst FileKeys (sym same) (set_deleted-FileKeys is_deleted where_row db keys)

module _ {lakefs : LakeFs} (cfg : Config) (services : Services) (repo : Repository)
    (lakefs_repo revision : String) (w w' : Work lakefs) where
  abbrev WroteDb : Type 0
  WroteDb = Wrote services w.storage.db w'.storage.db.files

  pub process_regular_file-Wrote :
      (path content_b64 encoding : String) (changed : Bool)
      → process_regular_file cfg services repo lakefs_repo revision path content_b64 encoding w
        ≡ (ok changed, w')
      → WroteDb
  unfolding process_regular_file
  process_regular_file-Wrote path content_b64 encoding changed h =
      elim (Option-cases (services.b64decode content_b64)) [
        | inl missing ↦ absurd (ground arith)
        | inr (content, decoded) ↦ elim (Bool-cases changed) [
          | inl new ↦
              a_row repo path (length content) (calculate_git_blob_sha1 services content) false
                (ground arith)
          | inr old ↦ nothing (ground arith)
        ]
      ]

  pub process_regular_file_error :
      (path content_b64 encoding : String) (e : Error)
      → process_regular_file cfg services repo lakefs_repo revision path content_b64 encoding w
        ≡ (err e, w')
      → w' ≡ w
  unfolding process_regular_file
  process_regular_file_error path content_b64 encoding e h = ground arith

  pub process_lfs_file-Wrote :
      (path oid : String) (size : ℕ) (algo : String) (out : Bool × LfsInfo)
      → process_lfs_file cfg services repo lakefs_repo revision path oid size algo w ≡ (ok out, w')
      → WroteDb
  unfolding process_lfs_file keep_lfs_file link_lfs_file
  process_lfs_file-Wrote path oid size algo out h =
      elim (Option-cases (same_content (get_any_file repo path w.storage.db) oid size)) [
        | inr (existing, found) ↦ elim (Bool-cases existing.is_deleted) [
          | inl deleted ↦ marks false (λ f. f.id == existing.id) (ground arith)
          | inr active ↦ nothing (ground arith)
        ]
        | inl other ↦
            a_row repo path (or_given (services.object_size (lfs_key oid)) size) oid true
              (ground arith)
      ]

  pub process_lfs_file_error :
      (path oid : String) (size : ℕ) (algo : String) (e : Error)
      → process_lfs_file cfg services repo lakefs_repo revision path oid size algo w ≡ (err e, w')
      → w' ≡ w
  unfolding process_lfs_file keep_lfs_file link_lfs_file
  process_lfs_file_error path oid size algo e h = ground arith

  pub process_deleted_file-Wrote :
      (path : String) (out : Result Bool)
      → process_deleted_file cfg services repo lakefs_repo revision path w ≡ (out, w')
      → WroteDb
  unfolding process_deleted_file
  process_deleted_file-Wrote path out h = marks true (is_file repo.id path) (ground arith)

  pub process_deleted_file_error :
      (path : String) (e : Error)
      → process_deleted_file cfg services repo lakefs_repo revision path w ≡ (err e, w')
      → w' ≡ w
  unfolding process_deleted_file
  process_deleted_file_error path e h = absurd (ground arith)

  pub process_deleted_folder-Wrote :
      (fuel : ℕ) (path : String) (changed : Bool)
      → process_deleted_folder cfg services repo lakefs_repo revision fuel path w ≡ (ok changed, w')
      → WroteDb
  unfolding process_deleted_folder
  process_deleted_folder-Wrote fuel path changed h =
      let folder_path = as_folder path in
      let list =
        λ (after : String). lakefs.list_objects lakefs_repo revision folder_path after w.lake in
      elim (Listing-cases (list_all fuel list "")) [
        | inl (objects, all) ↦
            let chosen = keep (λ obj. str_eq obj.path_type "object") objects in
            let out = delete_objects cfg services repo lakefs_repo revision chosen w in
            let same = delete_objects-storage cfg services repo lakefs_repo revision chosen w in
            elim (Bool-cases out.0) [
              | inl some_deleted ↦
                  marks true
                    (λ f. in_folder services repo.id folder_path f.repository f.path_in_repo)
                    (ground (arith, same))
              | inr no_deletion ↦ nothing (ground (arith, same))
            ]
        | inr not_all ↦ nothing (ground arith)
      ]

  pub process_deleted_folder_error :
      (fuel : ℕ) (path : String) (e : Error)
      → process_deleted_folder cfg services repo lakefs_repo revision fuel path w ≡ (err e, w')
      → w' ≡ w
  unfolding process_deleted_folder
  process_deleted_folder_error fuel path e h = ground arith

  pub process_copy_file-Wrote :
      (dest_path src_path src_revision : String) (changed : Bool)
      → process_copy_file cfg services repo lakefs_repo revision dest_path src_path src_revision w
        ≡ (ok changed, w')
      → WroteDb
  unfolding process_copy_file
  process_copy_file-Wrote dest_path src_path src_revision changed h =
      elim (Option-cases (lakefs.stat_object lakefs_repo src_revision src_path w.lake)) [
        | inl missing ↦ absurd (ground arith)
        | inr (src_obj, found) ↦ elim (Option-cases (get_file repo src_path w.storage.db)) [
          | inl no_row ↦
              a_row repo dest_path src_obj.size_bytes src_obj.checksum
                (uses_lfs cfg services repo dest_path src_obj.size_bytes) (ground arith)
          | inr (src_file, row) ↦
              a_row repo dest_path src_file.size src_file.sha256 src_file.lfs (ground arith)
        ]
      ]

  pub process_copy_file_error :
      (dest_path src_path src_revision : String) (e : Error)
      → process_copy_file cfg services repo lakefs_repo revision dest_path src_path src_revision w
        ≡ (err e, w')
      → w' ≡ w
  unfolding process_copy_file
  process_copy_file_error dest_path src_path src_revision e h = ground arith

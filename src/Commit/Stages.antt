-- ===== src/Commit/Stages.antt =====
-- What each of the functions `process_…` of src/kohakuhub/api/commit/routers/operations.py stages on
-- the branch in LakeFS: which objects it uploads, links and deletes, and when it calls LakeFS at all.
use mathlib.Core.Path.{subst}
use kohaku_hub.Commit.View.{view-set_deleted}
use kohaku_hub.Commit.Effects.{
  Listing-cases, delete_objects-storage, or_given_cases, keep_lfs_file_effect, link_lfs_file_effect,
}
use kohaku_hub.Commit.Staging.{
  Pages, Breaks, Deletes, DeletesAll, list_all-Pages, list_all-Breaks, try_delete-Deletes,
  delete_objects-DeletesAll,
}
use kohaku_hub.Prelude.{
  ℕ, ◌≡◌, ◌≢◌, refl, ◌⊎◌, String, Bool, ◌&&◌, Option, none, some, List, length, keep, arith, str_eq,
  eq_iff, if◌then◌else◌, Bool-cases, Option-cases, inl, inr,
}
use kohaku_hub.Config.{Config}
use kohaku_hub.Http.{ok}
use kohaku_hub.Db.{Repository, File}
use kohaku_hub.Auth.Permissions.{◌+s◌}
use kohaku_hub.Commit.{LakeFs, LakeObject, Services, Work}
use kohaku_hub.Commit.Files.{Content, get_file, get_any_file, FileKeys}
use kohaku_hub.Commit.Content.{
  contents, Same, put, is_unchanged-view, view-is_unchanged, same_content-view, put-same_content,
}
use kohaku_hub.Commit.Process.{
  LfsInfo, list_all, same_content, old_lfs_oid, lfs_key, address_of, as_folder, in_folder,
  is_unchanged, process_regular_file, calculate_git_blob_sha1, keep_lfs_file, link_lfs_file,
  process_lfs_file, try_delete, process_deleted_file, delete_objects, process_deleted_folder,
  process_copy_file,
}

-- A write that is not needed changes nothing; one that is needed calls LakeFS.
abbrev pub WritesUnless :
    {lakefs : LakeFs}
    → Repository
    → Work lakefs
    → Work lakefs
    → String
    → Content
    → Option lakefs.Lake
    → Type 0
WritesUnless repo w w' path content called =
    ((contents w repo.id path ≡ some content) × (w' ≡ w))
    ⊎ ((contents w repo.id path ≢ some content) × (called ≡ some w'.lake))

module _ {lakefs : LakeFs} (cfg : Config) (services : Services) (repo : Repository)
    (lakefs_repo revision : String) (w w' : Work lakefs) where
  abbrev StagesUnless : String → Content → Option lakefs.Lake → Type 0
  StagesUnless = WritesUnless repo w w'

  pub process_regular_file_stages :
      (path content_b64 encoding : String) (changed : Bool) (content : List ℕ)
      → services.b64decode content_b64 ≡ some content
      → process_regular_file cfg services repo lakefs_repo revision path content_b64 encoding w
        ≡ (ok changed, w')
      → StagesUnless path
          (record { sha256 = calculate_git_blob_sha1 services content; size = length content })
          (lakefs.upload_object lakefs_repo revision path content w.lake)
  unfolding process_regular_file
  process_regular_file_stages path content_b64 encoding changed content decoded h =
      let sha1 = calculate_git_blob_sha1 services content in
      let db = w.storage.db in
      elim (Bool-cases (is_unchanged (get_file repo path db) sha1 (length content))) [
        | inl kept ↦
            inl (view-is_unchanged repo path db sha1 (length content) kept, ground (arith, kept))
        | inr new ↦ inr (
          λ there.
              let kept = is_unchanged-view repo path db sha1 (length content) there in
              cc (kept, new),
          ground (arith, new),
        )
      ]

  -- A row with the content is restored if it is deleted.
  keep_lfs_file_stages :
      (path oid : String) (size : ℕ) (algo : String) (existing : File) (out : Bool × LfsInfo)
      → FileKeys w.storage.db.files
      → same_content (get_any_file repo path w.storage.db) oid size ≡ some existing
      → keep_lfs_file cfg services repo lakefs_repo revision path oid size algo existing w
        ≡ (ok out, w')
      → StagesUnless path
          (record { sha256 = oid; size = size })
          (lakefs.link_physical_address lakefs_repo revision path
            (address_of services oid)
            (algo +s ":" +s oid)
            size
            w.lake)
  unfolding keep_lfs_file
  keep_lfs_file_stages path oid size algo existing out keys found h =
      elim (Bool-cases existing.is_deleted) [
        | inl deleted ↦ inr (
          λ there.
              let (f, same, active) =
                same_content-view repo path w.storage.db oid size keys there in
              ground (arith, same, found, active, deleted),
          ground (arith, deleted),
        )
        | inr active ↦
            let there =
              put-same_content repo path w.storage.db oid size existing repo.id path keys found in
            let this = (eq_iff path path).1 refl in
            inl (ground (arith, rw active at there, this), ground (arith, active))
      ]

  -- The size is the one given, or the one of S3.
  pub process_lfs_file_stages :
      (path oid : String) (size : ℕ) (algo : String) (out : Bool × LfsInfo)
      → FileKeys w.storage.db.files
      → process_lfs_file cfg services repo lakefs_repo revision path oid size algo w ≡ (ok out, w')
      → (actual : ℕ) × ((actual ≡ size) ⊎ (services.object_size (lfs_key oid) ≡ some actual))
        × Same
            (contents w')
            (put repo.id path (some (record { sha256 = oid; size = actual })) (contents w))
        × StagesUnless path
            (record { sha256 = oid; size = size })
            (lakefs.link_physical_address lakefs_repo revision path
              (address_of services oid)
              (algo +s ":" +s oid)
              actual
              w.lake)
  unfolding process_lfs_file link_lfs_file
  process_lfs_file_stages path oid size algo out keys h =
      elim (Option-cases (same_content (get_any_file repo path w.storage.db) oid size)) [
        | inr (existing, found) ↦ (
          size,
          inl refl,
          keep_lfs_file_effect cfg services repo lakefs_repo revision w w' path oid size algo
              existing out keys found (ground arith),
          keep_lfs_file_stages path oid size algo existing out keys found (ground arith),
        )
        | inl other ↦
            let old = old_lfs_oid (get_any_file repo path w.storage.db) oid in
            (
              _,
              or_given_cases (services.object_size (lfs_key oid)) size,
              link_lfs_file_effect cfg services repo lakefs_repo revision w w' path oid size algo
                  old out (ground arith),
              inr (
                λ there.
                    let (f, same, active) =
                      same_content-view repo path w.storage.db oid size keys there in
                    cc (same, other),
                ground (arith, other),
              ),
            )
      ]

  pub process_deleted_file_stages :
      (path : String) (changed : Bool)
      → process_deleted_file cfg services repo lakefs_repo revision path w ≡ (ok changed, w')
      → (done : Bool) × Deletes lakefs lakefs_repo revision path w.lake w'.lake done
  unfolding process_deleted_file
  process_deleted_file_stages path changed h =
      let out = try_delete cfg services repo lakefs_repo revision path w in
      let same : out.1.lake ≡ w'.lake = ground arith in
      (
        out.0,
        subst (λ lake. Deletes lakefs lakefs_repo revision path w.lake lake out.0) same
            (try_delete-Deletes cfg services repo lakefs_repo revision path w),
      )

  pub process_copy_file_stages :
      (dest_path src_path src_revision : String) (changed : Bool) (src_obj : LakeObject)
      → lakefs.stat_object lakefs_repo src_revision src_path w.lake ≡ some src_obj
      → process_copy_file cfg services repo lakefs_repo revision dest_path src_path src_revision w
        ≡ (ok changed, w')
      → lakefs.link_physical_address lakefs_repo revision dest_path src_obj.physical_address
          src_obj.checksum src_obj.size_bytes w.lake
        ≡ some w'.lake
  unfolding process_copy_file
  process_copy_file_stages dest_path src_path src_revision changed src_obj found h =
      elim (Option-cases (get_file repo src_path w.storage.db)) [
        | inl no_row ↦ ground (arith, found, no_row)
        | inr (src_file, row) ↦ ground (arith, found, row)
      ]

  -- The folder's listing raises and nothing happens, or all its objects are deleted as far as LakeFS
  -- deletes them, and the rows are marked if it deleted one.
  pub process_deleted_folder_stages :
      (fuel : ℕ) (path : String) (changed : Bool)
      → process_deleted_folder cfg services repo lakefs_repo revision fuel path w ≡ (ok changed, w')
      → (Breaks (λ after. lakefs.list_objects lakefs_repo revision (as_folder path) after w.lake) ""
          × (w' ≡ w))
        ⊎ ((objects : List LakeObject) × (some_deleted : Bool) × Pages
              (λ after. lakefs.list_objects lakefs_repo revision (as_folder path) after w.lake)
              ""
              objects
            × DeletesAll lakefs lakefs_repo revision
                (keep (λ obj. str_eq obj.path_type "object") objects)
                w.lake
                w'.lake
                some_deleted
            × Same (contents w') (λ r p.
              if some_deleted && in_folder services repo.id (as_folder path) r p
              then none
              else contents w r p))
  unfolding process_deleted_folder
  process_deleted_folder_stages fuel path changed h =
      let folder_path = as_folder path in
      let list =
        λ (after : String). lakefs.list_objects lakefs_repo revision folder_path after w.lake in
      elim (Listing-cases (list_all fuel list "")) [
        | inl (objects, all) ↦
            let chosen = keep (λ obj. str_eq obj.path_type "object") objects in
            let out = delete_objects cfg services repo lakefs_repo revision chosen w in
            let same = delete_objects-storage cfg services repo lakefs_repo revision chosen w in
            let lake : out.1.lake ≡ w'.lake = ground arith in
            inr (
              objects,
              out.0,
              list_all-Pages list fuel "" objects all,
              subst (λ lake. DeletesAll lakefs lakefs_repo revision chosen w.lake lake out.0) lake
                  (delete_objects-DeletesAll cfg services repo lakefs_repo revision chosen w),
              λ r p.
                  let gone =
                    view-set_deleted (in_folder services repo.id folder_path) out.1.storage.db r
                      p in
                  ground (arith, gone, same),
            )
        | inr (inl raises) ↦ inl (list_all-Breaks list fuel "" raises, ground arith)
        | inr (inr short) ↦ absurd (ground arith)
      ]

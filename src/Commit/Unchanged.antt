-- ===== src/Commit/Unchanged.antt =====
-- Operations of src/kohakuhub/api/commit/routers/operations.py that report no changed file: they left
-- the tables, S3 and LakeFS as they were.
use kohaku_hub.Prelude.{
  ℕ, ◌≡◌, ap, ◌∙◌, inl, inr, String, Bool, true, false, ◌||◌, List, [], ◌∷◌, ◌++◌, keep, str_eq,
  arith, Bool-cases, Option-cases,
}
use kohaku_hub.Config.{Config}
use kohaku_hub.Http.{Result, ok, err}
use kohaku_hub.Db.{Repository}
use kohaku_hub.Commit.{LakeFs, Services, Work, continue}
use kohaku_hub.Commit.Files.{get_any_file}
use kohaku_hub.Commit.Inversion.{continue-eq-ok}
use kohaku_hub.Commit.Process.{
  LfsInfo, same_content, process_regular_file, process_lfs_file, keep_lfs_file, link_lfs_file,
  process_deleted_file, process_deleted_folder, process_copy_file, delete_objects, as_folder,
  list_all,
}
use kohaku_hub.Commit.Effects.{Listing-cases}
use kohaku_hub.Commit.Run.{
  Operation, file, lfs_file, deleted_file, deleted_folder, copy_file, or_revision, with_info,
  without_info, process_operation, process_operations,
}

without_info-changed :
    {lakefs : LakeFs} (r : Result Bool × Work lakefs) (changed : Bool) (infos : List LfsInfo)
    (w' : Work lakefs)
    → continue r without_info ≡ (ok (changed, infos), w')
    → r ≡ (ok changed, w')
without_info-changed (ok a, w) changed infos w' h = ground arith
without_info-changed (err e, w) changed infos w' h = absurd (cc h)

with_info-changed :
    {lakefs : LakeFs} (r : Result (Bool × LfsInfo) × Work lakefs) (changed : Bool)
    (infos : List LfsInfo) (w' : Work lakefs)
    → continue r with_info ≡ (ok (changed, infos), w')
    → (info : LfsInfo) × (r ≡ (ok (changed, info), w'))
with_info-changed (ok (a, info), w) changed infos w' h = (info, ground arith)
with_info-changed (err e, w) changed infos w' h = absurd (cc h)

or-false : (a b : Bool) → (a || b) ≡ false → (a ≡ false) × (b ≡ false)
or-false a b h = (ground arith, ground arith)

module _ {lakefs : LakeFs} (cfg : Config) (services : Services) (repo : Repository)
    (lakefs_repo revision : String) (w w' : Work lakefs) where
  process_regular_file_unchanged :
      (path content_b64 encoding : String)
      → process_regular_file cfg services repo lakefs_repo revision path content_b64 encoding w
        ≡ (ok false, w')
      → w' ≡ w
  unfolding process_regular_file
  process_regular_file_unchanged path content_b64 encoding h = ground arith

  process_lfs_file_unchanged :
      (path oid : String) (size : ℕ) (algo : String) (info : LfsInfo)
      → process_lfs_file cfg services repo lakefs_repo revision path oid size algo w
        ≡ (ok (false, info), w')
      → w' ≡ w
  unfolding process_lfs_file keep_lfs_file link_lfs_file
  process_lfs_file_unchanged path oid size algo info h =
      elim (Option-cases (same_content (get_any_file repo path w.storage.db) oid size)) [
        | inl other ↦ absurd (ground arith)
        | inr (existing, found) ↦ ground arith
      ]

  process_deleted_file_unchanged :
      (path : String)
      → process_deleted_file cfg services repo lakefs_repo revision path w ≡ (ok false, w')
      → w' ≡ w
  unfolding process_deleted_file
  process_deleted_file_unchanged path h = absurd (ground arith)

  process_deleted_folder_unchanged :
      (fuel : ℕ) (path : String)
      → process_deleted_folder cfg services repo lakefs_repo revision fuel path w ≡ (ok false, w')
      → w' ≡ w
  unfolding process_deleted_folder
  process_deleted_folder_unchanged fuel path h =
      let list = λ (after : String).
        lakefs.list_objects lakefs_repo revision (as_folder path) after w.lake in
      elim (Listing-cases (list_all fuel list "")) [
        | inr not_all ↦ absurd (ground arith)
        | inl (objects, all) ↦
            let chosen = keep (λ obj. str_eq obj.path_type "object") objects in
            elim (Bool-cases (delete_objects cfg services repo lakefs_repo revision chosen w).0) [
              | inl some_deleted ↦ absurd (ground arith)
              | inr no_deletion ↦ absurd (ground arith)
            ]
      ]

  process_copy_file_unchanged :
      (dest_path src_path src_revision : String)
      → process_copy_file cfg services repo lakefs_repo revision dest_path src_path src_revision w
        ≡ (ok false, w')
      → w' ≡ w
  unfolding process_copy_file
  process_copy_file_unchanged dest_path src_path src_revision h = absurd (ground arith)

  process_operation_unchanged :
      (fuel : ℕ) (op : Operation) (infos : List LfsInfo)
      → process_operation cfg services fuel repo lakefs_repo revision op w ≡ (ok (false, infos), w')
      → w' ≡ w
  unfolding process_operation
  process_operation_unchanged fuel (file path content_b64 encoding) infos h =
      process_regular_file_unchanged path content_b64 (services.lower encoding)
        (without_info-changed _ false infos w' h)
  process_operation_unchanged fuel (lfs_file path oid size algo) infos h =
      let (info, done) = with_info-changed _ false infos w' h in
      process_lfs_file_unchanged path oid size algo info done
  process_operation_unchanged fuel (deleted_file path) infos h =
      process_deleted_file_unchanged path (without_info-changed _ false infos w' h)
  process_operation_unchanged fuel (deleted_folder path) infos h =
      process_deleted_folder_unchanged fuel path (without_info-changed _ false infos w' h)
  process_operation_unchanged fuel (copy_file path src_path src_revision) infos h =
      process_copy_file_unchanged path src_path (or_revision revision src_revision)
        (without_info-changed _ false infos w' h)

module _ {lakefs : LakeFs} (cfg : Config) (services : Services) (fuel : ℕ) (repo : Repository)
    (lakefs_repo revision : String) where
  changed-before :
      (operations : List Operation) (pending : List LfsInfo) (out : Bool × List LfsInfo)
      (w w' : Work lakefs)
      → process_operations cfg services fuel repo lakefs_repo revision operations true pending w
        ≡ (ok out, w')
      → out.0 ≡ true
  unfolding process_operations
  changed-before [] pending out w w' h = ground arith
  changed-before (op ∷ operations) pending out w w' h =
      let (result, next, done, more) =
        continue-eq-ok (process_operation cfg services fuel repo lakefs_repo revision op w) _ out w'
          h in
      changed-before operations (pending ++ result.1) out next w' more

  pub process_operations_unchanged :
      (operations : List Operation) (pending infos : List LfsInfo) (w w' : Work lakefs)
      → process_operations cfg services fuel repo lakefs_repo revision operations false pending w
        ≡ (ok (false, infos), w')
      → w' ≡ w
  unfolding process_operations
  process_operations_unchanged [] pending infos w w' h = ground arith
  process_operations_unchanged (op ∷ operations) pending infos w w' h =
      let (result, next, done, more) =
        continue-eq-ok (process_operation cfg services fuel repo lakefs_repo revision op w) _
          (false, infos) w' h in
      elim (Bool-cases result.0) [
        | inl changes ↦
            let reported =
              changed-before operations (pending ++ result.1) (false, infos) next w'
                (rw changes at more) in
            absurd (cc reported)
        | inr same ↦
            let rest =
              process_operations_unchanged operations (pending ++ result.1) infos next w'
                (rw same at more) in
            let first =
              process_operation_unchanged cfg services repo lakefs_repo revision w next fuel op
                result.1 (done ∙ ap (λ b. (ok (b, result.1), next)) same) in
            rest ∙ first
      ]

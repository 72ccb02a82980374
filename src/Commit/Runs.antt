-- ===== src/Commit/Runs.antt =====
-- What a list of operations of src/kohakuhub/api/commit/routers/operations.py does to the content of
-- the repositories, as the effects of its members one after another.
use mathlib.Core.Path.{subst}
use kohaku_hub.Prelude.{
  ℕ, ◌≡◌, refl, sym, ap, ◌⊎◌, String, Bool, ◌&&◌, ◌||◌, keep, str_eq, none, some, List, [], ◌∷◌,
  ◌++◌, length, arith, if◌then◌else◌, inl, inr,
}
use kohaku_hub.Config.{Config}
use kohaku_hub.Http.{Error, Result, ok, err}
use kohaku_hub.Db.{Repository}
use kohaku_hub.Commit.{LakeFs, LakeObject, Services, Work}
use kohaku_hub.Commit.Files.{FileKeys}
use kohaku_hub.Commit.Content.{contents, Same, put}
use kohaku_hub.Commit.Process.{
  LfsInfo, lfs_key, address_of, as_folder, in_folder, calculate_git_blob_sha1,
}
use kohaku_hub.Commit.Effects.{
  or_else, process_regular_file_effect, process_deleted_file_effect, process_copy_file_effect,
}
use kohaku_hub.Commit.Staging.{Pages, Breaks, Deletes, DeletesAll}
use kohaku_hub.Commit.Stages.{
  WritesUnless, process_regular_file_stages, process_lfs_file_stages, process_deleted_file_stages,
  process_deleted_folder_stages, process_copy_file_stages,
}
use kohaku_hub.Auth.Permissions.{◌+s◌}
use kohaku_hub.Commit.Inversion.{
  continue-eq-ok, continue-eq-err, with_info-eq-ok, without_info-eq-ok, with_info-eq-err,
  without_info-eq-err,
}
use kohaku_hub.Commit.Writes.{
  Wrote, GivesFreshIds, Wrote-FileKeys, process_regular_file-Wrote, process_lfs_file-Wrote,
  process_deleted_file-Wrote, process_deleted_folder-Wrote, process_copy_file-Wrote,
  process_regular_file_error, process_lfs_file_error, process_deleted_file_error,
  process_deleted_folder_error, process_copy_file_error,
}
use kohaku_hub.Commit.Run.{
  Operation, file, lfs_file, deleted_file, deleted_folder, copy_file, or_revision,
  process_operation, process_operations,
}

module _ {lakefs : LakeFs} (services : Services) (repo : Repository)
    (lakefs_repo revision : String) where
  -- The effect of one operation on the content, of every repository at every path, and on LakeFS.
  abbrev pub Does : Operation → Work lakefs → Work lakefs → Type 0
  Does (file path content_b64 encoding) w w' =
      (content : List ℕ) × (services.b64decode content_b64 ≡ some content)
      × Same (contents w') (
          put repo.id path
            (some
              (record { sha256 = calculate_git_blob_sha1 services content; size = length content }))
            (contents w))
      × WritesUnless repo w w' path
          (record { sha256 = calculate_git_blob_sha1 services content; size = length content })
          (lakefs.upload_object lakefs_repo revision path content w.lake)
  Does (lfs_file path oid size algo) w w' =
      (actual : ℕ) × ((actual ≡ size) ⊎ (services.object_size (lfs_key oid) ≡ some actual))
      × Same (contents w')
          (put repo.id path (some (record { sha256 = oid; size = actual })) (contents w))
      × WritesUnless repo w w' path (record { sha256 = oid; size = size })
          (lakefs.link_physical_address lakefs_repo revision path (address_of services oid)
            (algo +s ":" +s oid) actual w.lake)
  Does (deleted_file path) w w' =
      Same (contents w') (put repo.id path none (contents w))
      × ((done : Bool) × Deletes lakefs lakefs_repo revision path w.lake w'.lake done)
  Does (deleted_folder path) w w' =
      (Breaks (λ after. lakefs.list_objects lakefs_repo revision (as_folder path) after w.lake) ""
        × (w' ≡ w))
      ⊎ ((objects : List LakeObject) × (some_deleted : Bool) × Pages
            (λ after. lakefs.list_objects lakefs_repo revision (as_folder path) after w.lake) ""
            objects
          × DeletesAll lakefs lakefs_repo revision
              (keep (λ obj. str_eq obj.path_type "object") objects) w.lake w'.lake some_deleted
          × Same (contents w') (λ r p.
            if some_deleted && in_folder services repo.id (as_folder path) r p
            then none
            else contents w r p))
  Does (copy_file path src_path src_revision) w w' =
      (src_obj : LakeObject) × (lakefs.stat_object lakefs_repo (or_revision revision src_revision)
          src_path w.lake
        ≡ some src_obj)
      × Same (contents w') (
          put repo.id path
            (or_else (contents w repo.id src_path)
              (record { sha256 = src_obj.checksum; size = src_obj.size_bytes }))
            (contents w))
      × (lakefs.link_physical_address lakefs_repo revision path src_obj.physical_address
            src_obj.checksum src_obj.size_bytes w.lake
          ≡ some w'.lake)

  abbrev pub Runs : List Operation → Work lakefs → Work lakefs → Type 0
  Runs [] w w' = w' ≡ w
  Runs (op ∷ operations) w w' = (next : Work lakefs) × Does op w next × Runs operations next w'

module _ {lakefs : LakeFs} (cfg : Config) (services : Services) (fuel : ℕ) (repo : Repository)
    (lakefs_repo revision : String) (w w' : Work lakefs) where
  abbrev run : Operation → Result (Bool × List LfsInfo) × Work lakefs
  run op = process_operation cfg services fuel repo lakefs_repo revision op w

  process_operation-Does :
      (op : Operation) (out : Bool × List LfsInfo)
      → FileKeys w.storage.db.files
      → run op ≡ (ok out, w')
      → Does services repo lakefs_repo revision op w w'
  unfolding process_operation
  process_operation-Does (file path content_b64 encoding) out keys h =
      let (changed, done) = without_info-eq-ok out w' _ h in
      let (content, decoded, same) =
        process_regular_file_effect cfg services repo lakefs_repo revision w w' path content_b64
          (services.lower encoding) changed done in
      (
        content,
        decoded,
        same,
        process_regular_file_stages cfg services repo lakefs_repo revision w w' path content_b64
            (services.lower encoding) changed content decoded done,
      )
  process_operation-Does (lfs_file path oid size algo) out keys h =
      let (result, done) = with_info-eq-ok out w' _ h in
      process_lfs_file_stages cfg services repo lakefs_repo revision w w' path oid size algo result
        keys done
  process_operation-Does (deleted_file path) out keys h =
      let (changed, done) = without_info-eq-ok out w' _ h in
      (
        process_deleted_file_effect cfg services repo lakefs_repo revision w w' path changed done,
        process_deleted_file_stages cfg services repo lakefs_repo revision w w' path changed done,
      )
  process_operation-Does (deleted_folder path) out keys h =
      let (changed, done) = without_info-eq-ok out w' _ h in
      process_deleted_folder_stages cfg services repo lakefs_repo revision w w' fuel path changed
        done
  process_operation-Does (copy_file path src_path src_revision) out keys h =
      let (changed, done) = without_info-eq-ok out w' _ h in
      let (src_obj, found, same) =
        process_copy_file_effect cfg services repo lakefs_repo revision w w' path src_path
          (or_revision revision src_revision) changed done in
      (
        src_obj,
        found,
        same,
        process_copy_file_stages cfg services repo lakefs_repo revision w w' path src_path
            (or_revision revision src_revision) changed src_obj found done,
      )

  process_operation-FileKeys :
      (op : Operation) (out : Bool × List LfsInfo)
      → GivesFreshIds services
      → FileKeys w.storage.db.files
      → run op ≡ (ok out, w')
      → FileKeys w'.storage.db.files
  unfolding process_operation
  process_operation-FileKeys op out fresh keys h =
      Wrote-FileKeys services w.storage.db w'.storage.db.files fresh keys (wrote op h)
    where
      wrote :
          (op : Operation) → run op ≡ (ok out, w') → Wrote services w.storage.db w'.storage.db.files
      wrote (file path content_b64 encoding) h =
          let (changed, done) = without_info-eq-ok out w' _ h in
          process_regular_file-Wrote cfg services repo lakefs_repo revision w w' path content_b64
            (services.lower encoding) changed done
      wrote (lfs_file path oid size algo) h =
          let (result, done) = with_info-eq-ok out w' _ h in
          process_lfs_file-Wrote cfg services repo lakefs_repo revision w w' path oid size algo
            result done
      wrote (deleted_file path) h =
          let (changed, done) = without_info-eq-ok out w' _ h in
          process_deleted_file-Wrote cfg services repo lakefs_repo revision w w' path (ok changed)
            done
      wrote (deleted_folder path) h =
          let (changed, done) = without_info-eq-ok out w' _ h in
          process_deleted_folder-Wrote cfg services repo lakefs_repo revision w w' fuel path changed
            done
      wrote (copy_file path src_path src_revision) h =
          let (changed, done) = without_info-eq-ok out w' _ h in
          process_copy_file-Wrote cfg services repo lakefs_repo revision w w' path src_path
            (or_revision revision src_revision) changed done

  -- An operation that raises leaves the tables, S3 and LakeFS as they were.
  pub process_operation_error : (op : Operation) (e : Error) → run op ≡ (err e, w') → w' ≡ w
  unfolding process_operation
  process_operation_error (file path content_b64 encoding) e h =
      process_regular_file_error cfg services repo lakefs_repo revision w w' path content_b64
        (services.lower encoding) e (without_info-eq-err e w' _ h)
  process_operation_error (lfs_file path oid size algo) e h =
      process_lfs_file_error cfg services repo lakefs_repo revision w w' path oid size algo e
        (with_info-eq-err e w' _ h)
  process_operation_error (deleted_file path) e h =
      process_deleted_file_error cfg services repo lakefs_repo revision w w' path e
        (without_info-eq-err e w' _ h)
  process_operation_error (deleted_folder path) e h =
      process_deleted_folder_error cfg services repo lakefs_repo revision w w' fuel path e
        (without_info-eq-err e w' _ h)
  process_operation_error (copy_file path src_path src_revision) e h =
      process_copy_file_error cfg services repo lakefs_repo revision w w' path src_path
        (or_revision revision src_revision) e (without_info-eq-err e w' _ h)

module _ {lakefs : LakeFs} (cfg : Config) (services : Services) (fuel : ℕ) (repo : Repository)
    (lakefs_repo revision : String) where
  -- The operations in their order, and the table's keys.
  pub process_operations-Runs :
      (operations : List Operation) (files_changed : Bool) (pending : List LfsInfo)
      (out : Bool × List LfsInfo) (w w' : Work lakefs)
      → GivesFreshIds services
      → FileKeys w.storage.db.files
      → process_operations cfg services fuel repo lakefs_repo revision operations files_changed
          pending w
        ≡ (ok out, w')
      → Runs services repo lakefs_repo revision operations w w' × FileKeys w'.storage.db.files
  unfolding process_operations
  process_operations-Runs [] files_changed pending out w w' fresh keys h =
      let same : w' ≡ w = ground arith in
      (same, subst (λ (v : Work lakefs). FileKeys v.storage.db.files) (sym same) keys)
  process_operations-Runs (op ∷ operations) files_changed pending out w w' fresh keys h =
      let (result, next, done, more) =
        continue-eq-ok (process_operation cfg services fuel repo lakefs_repo revision op w) _ out w'
          h in
      let does =
        process_operation-Does cfg services fuel repo lakefs_repo revision w next op result keys
          done in
      let keys' =
        process_operation-FileKeys cfg services fuel repo lakefs_repo revision w next op result
          fresh keys done in
      let (runs, keys'') =
        process_operations-Runs operations (files_changed || result.0) (pending ++ result.1) out
          next w' fresh keys' more in
      ((next, does, runs), keys'')

  pub process_operations_error :
      (operations : List Operation) (files_changed : Bool) (pending : List LfsInfo) (e : Error)
      (w w' : Work lakefs)
      → GivesFreshIds services
      → FileKeys w.storage.db.files
      → process_operations cfg services fuel repo lakefs_repo revision operations files_changed
          pending w
        ≡ (err e, w')
      → (before : List Operation) × (op : Operation) × (after : List Operation) × (operations
          ≡ before ++ op ∷ after)
        × Runs services repo lakefs_repo revision before w w'
        × (process_operation cfg services fuel repo lakefs_repo revision op w' ≡ (err e, w'))
        × FileKeys w'.storage.db.files
  unfolding process_operations
  process_operations_error [] files_changed pending e w w' fresh keys h = absurd (cc h)
  process_operations_error (op ∷ operations) files_changed pending e w w' fresh keys h =
      let here = process_operation cfg services fuel repo lakefs_repo revision op w in
      elim (continue-eq-err here _ e w' h) [
        | inl raised ↦
            let same : w' ≡ w =
              process_operation_error cfg services fuel repo lakefs_repo revision w w' op e
                raised in
            (
              [],
              op,
              operations,
              refl,
              same,
              subst
                  (λ (v : Work lakefs).
                    process_operation cfg services fuel repo lakefs_repo revision op v
                    ≡ (err e, w'))
                  (sym same) raised,
              subst (λ (v : Work lakefs). FileKeys v.storage.db.files) (sym same) keys,
            )
        | inr (result, next, done, more) ↦
            let does =
              process_operation-Does cfg services fuel repo lakefs_repo revision w next op result
                keys done in
            let keys' =
              process_operation-FileKeys cfg services fuel repo lakefs_repo revision w next op
                result fresh keys done in
            let (before, failed, after, parts, runs, raised, keys'') =
              process_operations_error operations (files_changed || result.0) (pending ++ result.1)
                e next w' fresh keys' more in
            (
              op ∷ before,
              failed,
              after,
              ap (λ ops. op ∷ ops) parts,
              (next, does, runs),
              raised,
              keys'',
            )
      ]

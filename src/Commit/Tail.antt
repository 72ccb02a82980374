-- ===== src/Commit/Tail.antt =====
-- What follows the operations of a commit in src/kohakuhub/api/commit/routers/operations.py leaves the
-- file table alone.
use kohaku_hub.Prelude.{
  is_some, ℕ, ◌≡◌, ◌≢◌, ◌⊎◌, refl, ◌∙◌, String, Bool, true, false, Option, none, some, List, [],
  ◌∷◌, arith, Option-cases, inl, inr,
}
use kohaku_hub.Config.{Config}
use kohaku_hub.Http.{Error, Result, ok, err, http, out_of_fuel}
use kohaku_hub.Db.{Db, User, Repository}
use kohaku_hub.Db.Queries.{get_repository, get_organization, save_user, save_repository}
use kohaku_hub.Quota.Calculate.{
  Lister, Stats, NamespaceStorage, update_repository_storage, update_namespace_storage,
}
use kohaku_hub.Lfs.Gc.{
  Storage, cleanup_lfs_object, delete_object, cleanup_all, run_gc_for_file, get_old_lfs_versions,
  track_lfs_object, create_lfs_history,
}
use kohaku_hub.Lfs.Rules.{get_effective_lfs_keep_versions}
use kohaku_hub.Commit.{LakeFs, Services, Work}
use kohaku_hub.Commit.Process.{LfsInfo}
use kohaku_hub.Commit.Run.{
  track_pending, collect_if, record_commit, update_storage, finish_commit, after_operations,
}

cleanup_lfs_object-files :
    (s3_deletes : String → Bool) (sha256 : String) (repo : Option Repository) (s : Storage)
    → (cleanup_lfs_object s3_deletes sha256 repo s).1.db.files ≡ s.db.files
unfolding cleanup_lfs_object delete_object
cleanup_lfs_object-files s3_deletes sha256 repo s = ground arith

cleanup_all-files :
    (s3_deletes : String → Bool) (oids : List String) (repo : Repository) (n : ℕ) (s : Storage)
    → (cleanup_all s3_deletes oids repo (n, s)).1.db.files ≡ s.db.files
unfolding cleanup_all
cleanup_all-files s3_deletes [] repo n s = refl
cleanup_all-files s3_deletes (sha256 ∷ oids) repo n s =
    let out = cleanup_lfs_object s3_deletes sha256 (some repo) s in
    cleanup_all-files s3_deletes oids repo _ out.1
    ∙ cleanup_lfs_object-files s3_deletes sha256 (some repo) s

run_gc_for_file-files :
    (s3_deletes : String → Bool) (cfg : Config) (repo_type namespace name path : String)
    (s : Storage)
    → (run_gc_for_file s3_deletes cfg repo_type namespace name path s).1.db.files ≡ s.db.files
unfolding run_gc_for_file
run_gc_for_file-files s3_deletes cfg repo_type namespace name path s =
    elim (Option-cases (get_repository repo_type namespace name s.db)) [
      | inl missing ↦ ground arith
      | inr (repo, found) ↦
          let old =
            get_old_lfs_versions repo path (get_effective_lfs_keep_versions cfg repo) s.db in
          let all = cleanup_all-files s3_deletes old repo 0 s in ground (arith, all)
    ]

track_lfs_object-files :
    (repo_type namespace name path sha256 : String) (size : ℕ) (commit_id : String) (now : ℕ)
    (db : Db)
    → (track_lfs_object repo_type namespace name path sha256 size commit_id now db).files ≡ db.files
unfolding track_lfs_object create_lfs_history
track_lfs_object-files repo_type namespace name path sha256 size commit_id now db = ground arith

update_repository_storage-files :
    (fuel : ℕ) (list_objects : Lister) (repo : Repository) (db db' : Db) (stats : Stats)
    → update_repository_storage fuel list_objects repo db ≡ some (stats, db')
    → db'.files ≡ db.files
unfolding update_repository_storage save_repository
update_repository_storage-files fuel list_objects repo db db' stats h = ground arith

update_namespace_storage-files :
    (fuel : ℕ) (listings : Repository → Lister) (namespace : String) (is_org : Bool) (db db' : Db)
    (storage : NamespaceStorage)
    → update_namespace_storage fuel listings namespace is_org db ≡ some (ok (storage, db'))
    → db'.files ≡ db.files
unfolding update_namespace_storage save_user
update_namespace_storage-files fuel listings namespace is_org db db' storage h = ground arith

track_pending-files :
    (cfg : Config) (s3_deletes : String → Bool) (repo_type namespace name commit_id : String)
    (now : ℕ) (pending : List LfsInfo) (s : Storage)
    → (track_pending cfg s3_deletes repo_type namespace name commit_id now pending s).db.files
      ≡ s.db.files
unfolding track_pending
track_pending-files cfg s3_deletes repo_type namespace name commit_id now [] s = refl
track_pending-files cfg s3_deletes repo_type namespace name commit_id now (lfs_info ∷ pending) s =
    let tracked =
      track_lfs_object repo_type namespace name lfs_info.path lfs_info.sha256 lfs_info.size
        commit_id now s.db in
    let collected =
      collect_if cfg s3_deletes repo_type namespace name commit_id now lfs_info.old_sha256
        lfs_info.path (record s { db = tracked }) in
    let gc =
      run_gc_for_file-files s3_deletes cfg repo_type namespace name lfs_info.path
        (record s { db = tracked }) in
    let track =
      track_lfs_object-files repo_type namespace name lfs_info.path lfs_info.sha256 lfs_info.size
        commit_id now s.db in
    let rest =
      track_pending-files cfg s3_deletes repo_type namespace name commit_id now pending collected in
    ground (arith, gc, track, rest)

module _ {lakefs : LakeFs} (cfg : Config) (services : Services) (fuel : ℕ)
    (listings : Repository → Lister) where
  update_storage-files :
      (repo : Repository) (namespace : String) (w w' : Work lakefs) (out : Result (Unit {0}))
      → update_storage cfg services fuel listings repo namespace w ≡ (out, w')
      → w'.storage.db.files ≡ w.storage.db.files
  unfolding update_storage
  update_storage-files repo namespace w w' out h =
      elim (Option-cases (update_repository_storage fuel (listings repo) repo w.storage.db)) [
        | inl unfinished ↦ ground arith
        | inr ((stats, db), done) ↦
            let first =
              update_repository_storage-files fuel (listings repo) repo w.storage.db db stats
                done in
            elim (Option-cases (
              update_namespace_storage fuel listings namespace
                (is_some (get_organization namespace db)) db)) [
                  | inl unfinished ↦ ground (arith, first)
                  | inr (ok (storage, db'), more) ↦
                      let second =
                        update_namespace_storage-files fuel listings namespace
                          (is_some (get_organization namespace db)) db db' storage more in
                      ground (arith, first, second)
                  | inr (err e, more) ↦ ground (arith, first)
                ]
      ]

  update_storage-lake :
      (repo : Repository) (namespace : String) (w : Work lakefs)
      → (update_storage cfg services fuel listings repo namespace w).1.lake ≡ w.lake
  unfolding update_storage
  update_storage-lake repo namespace w = ground arith

  -- Only the listings' fuel fails it.
  update_storage_error :
      (repo : Repository) (namespace : String) (w : Work lakefs)
      → ((update_storage cfg services fuel listings repo namespace w).0 ≡ ok tt)
        ⊎ ((update_storage cfg services fuel listings repo namespace w).0 ≡ err out_of_fuel)
  unfolding update_storage
  update_storage_error repo namespace w =
      elim (Option-cases (update_repository_storage fuel (listings repo) repo w.storage.db)) [
        | inl unfinished ↦ inr (ground arith)
        | inr ((stats, db), done) ↦
            elim (Option-cases (
              update_namespace_storage fuel listings namespace
                (is_some (get_organization namespace db)) db)) [
                  | inl unfinished ↦ inr (ground arith)
                  | inr (ok (storage, db'), more) ↦ inl (ground arith)
                  | inr (err e, more) ↦ inl (ground arith)
                ]
      ]

  pub finish_commit-files :
      (s3_deletes : String → Bool) (repo_type namespace name : String) (repo : Repository)
      (lakefs_repo revision message description : String) (pending : List LfsInfo) (user : User)
      (now : ℕ) (w w' : Work lakefs) (out : Result String)
      → finish_commit cfg services fuel listings s3_deletes repo_type namespace name repo
          lakefs_repo revision message description pending user now w
        ≡ (out, w')
      → w'.storage.db.files ≡ w.storage.db.files
  unfolding finish_commit
  finish_commit-files s3_deletes repo_type namespace name repo lakefs_repo revision message
        description pending user now w w' out h =
      elim (Option-cases (lakefs.commit lakefs_repo revision message description w.lake)) [
        | inl refused ↦ ground arith
        | inr ((commit_id, lake), done) ↦
            let db = record_commit commit_id repo revision user message description w.storage.db in
            let tracked =
              track_pending cfg s3_deletes repo_type namespace name commit_id now pending
                (record w.storage { db = db }) in
            let next : Work lakefs = record { storage = tracked; lake = lake } in
            let same =
              track_pending-files cfg s3_deletes repo_type namespace name commit_id now pending
                (record w.storage { db = db }) in
            let (result, last) = update_storage cfg services fuel listings repo namespace next in
            let stored = update_storage-files repo namespace next last result refl in
            ground (arith, same, stored)
      ]

  -- A commit that LakeFS refuses changes nothing more.
  finish_commit_error :
      (s3_deletes : String → Bool) (repo_type namespace name : String) (repo : Repository)
      (lakefs_repo revision message description : String) (pending : List LfsInfo) (user : User)
      (now : ℕ) (w w' : Work lakefs) (e : Error)
      → e ≢ out_of_fuel
      → finish_commit cfg services fuel listings s3_deletes repo_type namespace name repo
          lakefs_repo revision message description pending user now w
        ≡ (err e, w')
      → (w' ≡ w)
        × (lakefs.commit lakefs_repo revision message description w.lake ≡ none)
        × (e ≡ http 500 "Commit failed")
  unfolding finish_commit
  finish_commit_error s3_deletes repo_type namespace name repo lakefs_repo revision message
        description pending user now w w' e enough h =
      elim (Option-cases (lakefs.commit lakefs_repo revision message description w.lake)) [
        | inl refused ↦ (ground arith, refused, ground arith)
        | inr ((commit_id, lake), done) ↦
            let db = record_commit commit_id repo revision user message description w.storage.db in
            let tracked =
              track_pending cfg s3_deletes repo_type namespace name commit_id now pending
                (record w.storage { db = db }) in
            let next : Work lakefs = record { storage = tracked; lake = lake } in
            let fuel_only = update_storage_error repo namespace next in
            elim fuel_only [
              | inl stored ↦ absurd (ground arith)
              | inr short ↦ absurd (enough (ground arith))
            ]
      ]

  pub after_operations-files :
      (s3_deletes : String → Bool) (repo_type namespace name : String) (repo : Repository)
      (lakefs_repo revision message description : String) (user : User) (now : ℕ)
      (result : Bool × List LfsInfo) (w w' : Work lakefs) (out : Result String)
      → after_operations cfg services fuel listings s3_deletes repo_type namespace name repo
          lakefs_repo revision message description user now result w
        ≡ (out, w')
      → w'.storage.db.files ≡ w.storage.db.files
  unfolding after_operations
  after_operations-files s3_deletes repo_type namespace name repo lakefs_repo revision message
        description user now (true, pending) w w' out h =
      finish_commit-files s3_deletes repo_type namespace name repo lakefs_repo revision message
        description pending user now w w' out h
  after_operations-files s3_deletes repo_type namespace name repo lakefs_repo revision message
        description user now (false, pending) w w' out h =
      ground arith

  pub after_operations_error :
      (s3_deletes : String → Bool) (repo_type namespace name : String) (repo : Repository)
      (lakefs_repo revision message description : String) (user : User) (now : ℕ)
      (result : Bool × List LfsInfo) (w w' : Work lakefs) (e : Error)
      → e ≢ out_of_fuel
      → after_operations cfg services fuel listings s3_deletes repo_type namespace name repo
          lakefs_repo revision message description user now result w
        ≡ (err e, w')
      → (w' ≡ w)
        × (lakefs.commit lakefs_repo revision message description w.lake ≡ none)
        × (e ≡ http 500 "Commit failed")
  unfolding after_operations
  after_operations_error s3_deletes repo_type namespace name repo lakefs_repo revision message
        description user now (true, pending) w w' e enough h =
      finish_commit_error s3_deletes repo_type namespace name repo lakefs_repo revision message
        description pending user now w w' e enough h
  after_operations_error s3_deletes repo_type namespace name repo lakefs_repo revision message
        description user now (false, pending) w w' e enough h =
      absurd (ground arith)

  -- LakeFS commits what was staged, or nothing was changed and the branch's last commit is answered.
  pub after_operations-commit :
      (s3_deletes : String → Bool) (repo_type namespace name : String) (repo : Repository)
      (lakefs_repo revision message description : String) (user : User) (now : ℕ)
      (result : Bool × List LfsInfo) (w w' : Work lakefs) (commit_id : String)
      → after_operations cfg services fuel listings s3_deletes repo_type namespace name repo
          lakefs_repo revision message description user now result w
        ≡ (ok commit_id, w')
      → (lakefs.commit lakefs_repo revision message description w.lake ≡ some (commit_id, w'.lake))
        ⊎ ((result.0 ≡ false)
            × (w' ≡ w)
            × ((lakefs.get_branch lakefs_repo revision w.lake ≡ some commit_id)
                ⊎ ((lakefs.get_branch lakefs_repo revision w.lake ≡ none)
                    × (commit_id ≡ "no-changes"))))
  unfolding after_operations finish_commit
  after_operations-commit s3_deletes repo_type namespace name repo lakefs_repo revision message
        description user now (true, pending) w w' commit_id h =
      elim (Option-cases (lakefs.commit lakefs_repo revision message description w.lake)) [
        | inl refused ↦ absurd (ground arith)
        | inr ((id, lake), done) ↦
            let db = record_commit id repo revision user message description w.storage.db in
            let tracked =
              track_pending cfg s3_deletes repo_type namespace name id now pending
                (record w.storage { db = db }) in
            let next : Work lakefs = record { storage = tracked; lake = lake } in
            let same = update_storage-lake repo namespace next in inl (ground (arith, same))
      ]
  after_operations-commit s3_deletes repo_type namespace name repo lakefs_repo revision message
        description user now (false, pending) w w' commit_id h =
      elim (Option-cases (lakefs.get_branch lakefs_repo revision w.lake)) [
        | inl missing ↦ inr (refl, ground arith, inr (missing, ground arith))
        | inr (head, found) ↦ inr (refl, ground arith, inl (ground arith))
      ]

-- ===== src/Lfs/Gc/Safety.antt =====
-- What the collection of src/kohakuhub/api/repo/utils/gc.py leaves alone.
use kohaku_hub.Prelude.{
  ℕ, ◌<◌, ◌≡◌, ◌≢◌, sym, ◌∙◌, String, Bool, true, false, Option, none, some, List, [], ◌∷◌, Elem,
  Elem-keep, count, arith, eq_iff, str_eq, ◌&&◌, not, Bool-cases, inl, inr,
}
use kohaku_hub.Config.{Config}
use kohaku_hub.Db.{Db, Repository, File, LfsObjectHistory}
use kohaku_hub.Db.Queries.{get_repository}
use kohaku_hub.Lfs.Rules.{get_effective_lfs_keep_versions}
use kohaku_hub.Lfs.Gc.{
  Storage, is_active_lfs, in_scope, in_other_history, delete_object, cleanup_lfs_object,
  cleanup_all, get_old_lfs_versions, run_gc_for_file,
}

-- An active file of the repository (of any repository, if none is given) is that LFS object.
pub record Uses (repo : Option Repository) (sha256 : String) (db : Db) : Type 0 where
  pub file : File
  pub stored : Elem file db.files
  pub of_repo : in_scope repo file.repository ≡ true
  pub hash : file.sha256 ≡ sha256
  pub is_lfs : file.lfs ≡ true
  pub active : file.is_deleted ≡ false

count-pos :
    {A : Type 0} (p : A → Bool) (xs : List A) (x : A) → Elem x xs → p x ≡ true → 0 < count p xs
unfolding count
count-pos p [] x e h = elim e [ ]
count-pos p (y ∷ ys) x (inl same) h = rw (← same) (rw h (omega arith))
count-pos p (y ∷ ys) x (inr later) h = omega (arith, count-pos p ys x later h)

count-zero :
    {A : Type 0} (p : A → Bool) (xs : List A) (x : A) → count p xs ≡ 0 → Elem x xs → p x ≡ false
unfolding count
count-zero p [] x h e = elim e [ ]
count-zero p (y ∷ ys) x h (inl same) = rw same (ground arith)
count-zero p (y ∷ ys) x h (inr later) = count-zero p ys x (omega arith) later

-- What a cleanup that deleted did, and found first.
cleanup_deletes :
    (s3_deletes : String → Bool) (sha256 : String) (repo : Option Repository) (s : Storage)
    → (cleanup_lfs_object s3_deletes sha256 repo s).0 ≡ true
    → (count (λ f. is_active_lfs sha256 f && in_scope repo f.repository) s.db.files ≡ 0)
      × (in_other_history sha256 repo s.db ≡ false)
      × ((cleanup_lfs_object s3_deletes sha256 repo s).1 ≡ delete_object sha256 repo s)
unfolding cleanup_lfs_object
cleanup_deletes s3_deletes sha256 repo s h = (ground arith, ground arith, ground arith)

cleanup_keeps :
    (s3_deletes : String → Bool) (sha256 : String) (repo : Option Repository) (s : Storage)
    → (cleanup_lfs_object s3_deletes sha256 repo s).0 ≡ false
    → (cleanup_lfs_object s3_deletes sha256 repo s).1 ≡ s
unfolding cleanup_lfs_object
cleanup_keeps s3_deletes sha256 repo s h = ground arith

cleanup-files :
    (s3_deletes : String → Bool) (sha256 : String) (repo : Option Repository) (s : Storage)
    → (cleanup_lfs_object s3_deletes sha256 repo s).1.db.files ≡ s.db.files
unfolding cleanup_lfs_object delete_object
cleanup-files s3_deletes sha256 repo s = ground arith

uses_counted :
    (repo : Option Repository) (sha256 : String) (db : Db)
    → Uses repo sha256 db
    → 0 < count (λ f. is_active_lfs sha256 f && in_scope repo f.repository) db.files
uses_counted repo sha256 db u =
    count-pos (λ f. is_active_lfs sha256 f && in_scope repo f.repository) db.files u.file u.stored
      (ground (arith, eq_iff u.file.sha256 sha256, u.of_repo, u.hash, u.is_lfs, u.active))

-- A cleanup, of whatever hash, keeps an object that an active file in its scope uses.
cleanup-Elem :
    (s3_deletes : String → Bool) (other sha256 : String) (repo : Option Repository) (s : Storage)
    → Uses repo sha256 s.db
    → Elem sha256 s.objects
    → Elem sha256 (cleanup_lfs_object s3_deletes other repo s).1.objects
unfolding delete_object
cleanup-Elem s3_deletes other sha256 repo s used stored =
    elim (Bool-cases (cleanup_lfs_object s3_deletes other repo s).0) [
      | inr kept ↦ rw (cleanup_keeps s3_deletes other repo s kept) stored
      | inl deleted ↦
          let (none_used, _, done) = cleanup_deletes s3_deletes other repo s deleted in
          let some_used = uses_counted repo sha256 s.db used in
          rw done (elim (Bool-cases (str_eq sha256 other)) [
            | inl same ↦
                let e : sha256 ≡ other = (eq_iff sha256 other).0 same in
                let some_used' = rw e at some_used in absurd (omega arith)
            | inr differs ↦
                (Elem-keep (λ key. not (str_eq key other)) s.objects sha256).1 (stored, rw differs)
          ])
    ]

Uses-files :
    (repo : Option Repository) (sha256 : String) (a b : Db)
    → b.files ≡ a.files
    → Uses repo sha256 a
    → Uses repo sha256 b
Uses-files repo sha256 a b same u = record {
  file = u.file;
  stored = rw same u.stored;
  of_repo = u.of_repo;
  hash = u.hash;
  is_lfs = u.is_lfs;
  active = u.active;
}

cleanup_all-Elem :
    (s3_deletes : String → Bool) (old_hashes : List String) (sha256 : String) (repo : Repository)
    (n : ℕ) (s : Storage)
    → Uses (some repo) sha256 s.db
    → Elem sha256 s.objects
    → Elem sha256 (cleanup_all s3_deletes old_hashes repo (n, s)).1.objects
unfolding cleanup_all
cleanup_all-Elem s3_deletes [] sha256 repo n s used stored = stored
cleanup_all-Elem s3_deletes (other ∷ old_hashes) sha256 repo n s used stored =
    cleanup_all-Elem s3_deletes old_hashes sha256 repo _
      (cleanup_lfs_object s3_deletes other (some repo) s).1
      (Uses-files (some repo) sha256 s.db (cleanup_lfs_object s3_deletes other (some repo) s).1.db
        (cleanup-files s3_deletes other (some repo) s) used)
      (cleanup-Elem s3_deletes other sha256 (some repo) s used stored)

-- The collection for a file of a repository never deletes an LFS object that an active file of this
-- repository uses, whatever the settings, the path and the answers of S3.
pub run_gc_for_file-Elem :
    (s3_deletes : String → Bool) (cfg : Config) (repo_type namespace name path sha256 : String)
    (s : Storage) (repo : Repository)
    → get_repository repo_type namespace name s.db ≡ some repo
    → Uses (some repo) sha256 s.db
    → Elem sha256 s.objects
    → Elem sha256 (run_gc_for_file s3_deletes cfg repo_type namespace name path s).1.objects
unfolding run_gc_for_file
run_gc_for_file-Elem s3_deletes cfg repo_type namespace name path sha256 s repo found used stored =
    elim (Bool-cases (not cfg.lfs_auto_gc)) [
      | inl off ↦ rw off stored
      | inr auto ↦ rw auto (
          rw found (
            cleanup_all-Elem s3_deletes
              (get_old_lfs_versions repo path (get_effective_lfs_keep_versions cfg repo) s.db)
              sha256 repo 0 s used stored))
    ]

-- A cleanup with no repository deletes an object only if no active file of any repository uses it and
-- no row of any repository's history names it.
pub cleanup_global :
    (s3_deletes : String → Bool) (sha256 : String) (s : Storage)
    → (cleanup_lfs_object s3_deletes sha256 none s).0 ≡ true
    → (¬ Uses none sha256 s.db)
      × ((h : LfsObjectHistory) → Elem h s.db.lfs_history → h.sha256 ≢ sha256)
cleanup_global s3_deletes sha256 s h =
    let (none_used, none_in_history, _) = cleanup_deletes s3_deletes sha256 none s h in
    (
      λ used. let some_used = uses_counted none sha256 s.db used in absurd (omega arith),
      λ row e same.
          let miss =
            count-zero (λ h. str_eq h.sha256 sha256) s.db.lfs_history row (ground arith) e in
          cc (sym miss ∙ (eq_iff row.sha256 sha256).1 same),
    )

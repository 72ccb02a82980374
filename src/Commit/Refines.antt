-- ===== src/Commit/Refines.antt =====
-- The endpoint `commit` of src/kohakuhub/api/commit/routers/operations.py against the effects of the
-- operations in its payload.
use mathlib.Core.Path.{subst}
use mathlib.Core.List.{append-nil}
use kohaku_hub.Prelude.{
  ℕ, ◌≡◌, ◌≢◌, sym, ap, ◌⊎◌, ◌∙◌, String, Bool, false, none, some, List, [], ◌∷◌, ◌++◌, inl, inr,
}
use kohaku_hub.Config.{Config}
use kohaku_hub.Http.{Error, ok, err, out_of_fuel}
use kohaku_hub.Db.{User, Repository}
use kohaku_hub.Quota.Calculate.{Lister}
use kohaku_hub.Commit.{LakeFs, Services, Work}
use kohaku_hub.Commit.Files.{view, FileKeys}
use kohaku_hub.Commit.Content.{contents, Same}
use kohaku_hub.Commit.Writes.{GivesFreshIds}
use kohaku_hub.Commit.Runs.{Runs, process_operations-Runs, process_operations_error}
use kohaku_hub.Commit.Inversion.{continue-eq-ok, continue-eq-err}
use kohaku_hub.Commit.Tail.{after_operations-files, after_operations_error, after_operations-commit}
use kohaku_hub.Commit.Unchanged.{process_operations_unchanged}
use kohaku_hub.Commit.Process.{LfsInfo}
use kohaku_hub.Commit.Run.{
  Operation, Line, process_operations, after_operations, run_commit, commit,
}
use kohaku_hub.Commit.Requests.{Accepted, Committed, Stopped, lake_name, commit_cases}

module _ {lakefs : LakeFs} (cfg : Config) (services : Services) (fuel : ℕ)
    (listings : Repository → Lister) (s3_deletes : String → Bool)
    (repo_type namespace name : String) (revision : String) (create_pr : Bool) (lines : List Line)
    (user : User) (now : ℕ) (w w' : Work lakefs) where
  committed :
      (repo : Repository) (operations : List Operation) (message : String × String)
      (lakefs_repo commit_id : String) (result : Bool × List LfsInfo) (last : Work lakefs)
      → process_operations cfg services fuel repo lakefs_repo revision operations false [] w
        ≡ (ok result, last)
      → after_operations cfg services fuel listings s3_deletes repo_type namespace name repo
          lakefs_repo revision message.0 message.1 user now result last
        ≡ (ok commit_id, w')
      → Committed w w' last revision message lakefs_repo commit_id
  committed repo operations message lakefs_repo commit_id result last done more =
      elim (after_operations-commit cfg services fuel listings s3_deletes repo_type namespace name
        repo lakefs_repo revision message.0 message.1 user now result last w' commit_id more) [
          | inl stored ↦ inl stored
          | inr (unchanged, same, answer) ↦
              let none_ran =
                process_operations_unchanged cfg services fuel repo lakefs_repo revision operations
                  [] result.1 w last (done ∙ ap (λ b. (ok (b, result.1), last)) unchanged) in
              inr (
                none_ran,
                same ∙ none_ran,
                subst
                    (λ (v : Work lakefs).
                      (lakefs.get_branch lakefs_repo revision v.lake ≡ some commit_id)
                      ⊎ ((lakefs.get_branch lakefs_repo revision v.lake ≡ none)
                          × (commit_id ≡ "no-changes")))
                    none_ran answer,
              )
        ]

  -- A request that succeeds is an accepted one. The operations of its payload ran in their order, each
  -- with its effect on the content of every repository at every path by the file table and on what is
  -- staged in LakeFS. Then LakeFS committed what was staged under the id that is answered, or no
  -- operation changed anything and the branch's last commit is answered; the content stays as the
  -- operations left it.
  pub commit_refines :
      (commit_id : String)
      → GivesFreshIds services
      → FileKeys w.storage.db.files
      → commit cfg services fuel listings s3_deletes repo_type namespace name revision create_pr
          lines user now w
        ≡ (ok commit_id, w')
      → (a : Accepted repo_type namespace name create_pr lines user w.storage.db) × (last : Work
          lakefs)
        × Runs services a.repo
            (lake_name services repo_type namespace name)
            revision
            a.operations
            w
            last
        × Committed w w' last revision a.message
            (lake_name services repo_type namespace name)
            commit_id
        × Same (contents w') (contents last)
  unfolding run_commit
  commit_refines commit_id fresh keys h =
      elim (commit_cases cfg services fuel listings s3_deletes repo_type namespace name revision
        create_pr lines user now w w' (ok commit_id) h) [
          | inl (e, failed, same, _) ↦ absurd (cc failed)
          | inr (a, run) ↦
              let lakefs_repo = lake_name services repo_type namespace name in
              let (result, last, done, more) =
                continue-eq-ok
                  (process_operations cfg services fuel a.repo lakefs_repo revision a.operations
                    false [] w)
                  _ commit_id w' run in
              let (runs, _) =
                process_operations-Runs cfg services fuel a.repo lakefs_repo revision a.operations
                  false [] result w last fresh keys done in
              let kept =
                after_operations-files cfg services fuel listings s3_deletes repo_type namespace
                  name a.repo lakefs_repo revision a.message.0 a.message.1 user now result last w'
                  (ok commit_id) more in
              (
                a,
                last,
                runs,
                committed a.repo a.operations a.message lakefs_repo commit_id result last done more,
                λ r p. ap (λ files. view r p files) kept,
              )
        ]

  -- A request that fails for another reason than too little fuel has changed nothing if it is not an
  -- accepted one. Of an accepted one the first operations ran, with their effects on the file table
  -- and LakeFS, and nothing of them is undone: the state at the end is the one in which the next
  -- operation raised the error, or in which LakeFS refused to commit after all operations.
  pub commit_error :
      (e : Error)
      → e ≢ out_of_fuel
      → GivesFreshIds services
      → FileKeys w.storage.db.files
      → commit cfg services fuel listings s3_deletes repo_type namespace name revision create_pr
          lines user now w
        ≡ (err e, w')
      → (¬ Accepted repo_type namespace name create_pr lines user w.storage.db × (w' ≡ w))
        ⊎ ((a : Accepted repo_type namespace name create_pr lines user w.storage.db) × (before
              after : List Operation)
            × (a.operations ≡ before ++ after)
            × Runs services a.repo
                (lake_name services repo_type namespace name)
                revision
                before
                w
                w'
            × Stopped cfg services fuel w' a.repo revision a.message
                (lake_name services repo_type namespace name)
                e
                after)
  unfolding run_commit
  commit_error e enough fresh keys h =
      elim (commit_cases cfg services fuel listings s3_deletes repo_type namespace name revision
        create_pr lines user now w w' (err e) h) [
          | inl (_, failed, same, unaccepted) ↦ inl (unaccepted, same)
          | inr (a, run) ↦
              let lakefs_repo = lake_name services repo_type namespace name in
              elim (continue-eq-err
                (process_operations cfg services fuel a.repo lakefs_repo revision a.operations false
                  [] w)
                _ e w' run) [
                  | inl raised ↦
                      let (before, op, after, parts, runs, at, _) =
                        process_operations_error cfg services fuel a.repo lakefs_repo revision
                          a.operations false [] e w w' fresh keys raised in
                      inr (a, before, op ∷ after, parts, runs, at)
                  | inr (result, last, done, more) ↦
                      let (runs, _) =
                        process_operations-Runs cfg services fuel a.repo lakefs_repo revision
                          a.operations false [] result w last fresh keys done in
                      let (same, refused, code) =
                        after_operations_error cfg services fuel listings s3_deletes repo_type
                          namespace name a.repo lakefs_repo revision a.message.0 a.message.1 user
                          now result last w' e enough more in
                      inr (
                        a,
                        a.operations,
                        [],
                        sym (append-nil _),
                        subst
                            (λ (v : Work lakefs).
                              Runs services a.repo lakefs_repo revision a.operations w v)
                            (sym same) runs,
                        (
                          subst
                              (λ (v : Work lakefs).
                                lakefs.commit lakefs_repo revision a.message.0 a.message.1 v.lake
                                ≡ none)
                              (sym same) refused,
                          code,
                        ),
                      )
                ]
        ]

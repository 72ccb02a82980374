-- ===== src/Commit/Requests.antt =====
-- Which requests the endpoint `commit` of src/kohakuhub/api/commit/routers/operations.py accepts, and
-- how one ends.
use kohaku_hub.Prelude.{
  ℕ, ◌≡◌, refl, ap, ◌⊎◌, ◌∙◌, String, Bool, true, false, none, some, List, [], ◌∷◌, arith,
  Bool-cases, Option-cases, inl, inr,
}
use kohaku_hub.Config.{Config}
use kohaku_hub.Http.{Error, Result, ok, err, http}
use kohaku_hub.Db.{Db, User, Repository}
use kohaku_hub.Db.Queries.{get_repository_by_full_id}
use kohaku_hub.Auth.Permissions.{◌+s◌, check_repo_write_permission}
use kohaku_hub.Names.Lake.{lakefs_repo_name}
use kohaku_hub.Quota.Calculate.{Lister}
use kohaku_hub.Commit.{LakeFs, Services, Work}
use kohaku_hub.Commit.Run.{Operation, Line, parse_lines, process_operation, run_commit, commit}

Result-cases : {A : Type 0} (r : Result A) → ((a : A) × (r ≡ ok a)) ⊎ ((e : Error) × (r ≡ err e))
Result-cases (ok a) = inl (a, refl)
Result-cases (err e) = inr (e, refl)

-- What an accepted request has: the repository, which the user may write, and a payload with a header.
pub record Accepted (repo_type namespace name : String) (create_pr : Bool) (lines : List Line)
    (user : User) (db : Db) : Type 0 where
  pub repo : Repository
  pub operations : List Operation
  pub message : String × String
  pub no_pull_request : create_pr ≡ false
  pub found : get_repository_by_full_id (namespace +s "/" +s name) repo_type db ≡ some repo
  pub allowed : check_repo_write_permission repo (some user) false db ≡ ok true
  pub parsed :
      parse_lines lines (record { head = none; operations = [] })
      ≡ ok (record { head = some message; operations = operations })

write-eq-true :
    (repo : Repository) (user : User) (db : Db) (answer : Bool)
    → check_repo_write_permission repo (some user) false db ≡ ok answer
    → answer ≡ true
unfolding check_repo_write_permission
write-eq-true repo user db answer h = ground arith

module _ {lakefs : LakeFs} (cfg : Config) (services : Services) (fuel : ℕ)
    (listings : Repository → Lister) (s3_deletes : String → Bool)
    (repo_type namespace name : String) (revision : String) (create_pr : Bool) (lines : List Line)
    (user : User) (now : ℕ) (w w' : Work lakefs) (out : Result String) where
  abbrev runs : Repository → List Operation → String × String → Result String × Work lakefs
  runs repo operations message =
      run_commit cfg services fuel listings s3_deletes repo_type namespace name repo revision
        operations message user now w

  pub commit_cases :
      commit cfg services fuel listings s3_deletes repo_type namespace name revision create_pr lines
          user now w
        ≡ (out, w')
      → ((e : Error) × (out ≡ err e)
          × (w' ≡ w)
          × ¬ Accepted repo_type namespace name create_pr lines user w.storage.db)
        ⊎ ((a : Accepted repo_type namespace name create_pr lines user w.storage.db) × (runs a.repo
                a.operations a.message
              ≡ (out, w')))
  unfolding commit
  commit_cases h =
      let unsupported =
        http 501
          "create_commit(create_pr=True) is not supported by KohakuHub. Commit to a branch directly instead; the discussions / pull-request workflow is not implemented." in
      let not_found = http 404 "Repository not found" in
      let no_header = http 400 "Missing commit header" in
      elim (Bool-cases create_pr) [
        | inl pull_request ↦
            inl (unsupported, ground arith, ground arith, λ a. cc (a.no_pull_request, pull_request))
        | inr no_pull_request ↦
            elim (Option-cases
              (get_repository_by_full_id (namespace +s "/" +s name) repo_type w.storage.db)) [
                | inl missing ↦
                    inl (not_found, ground arith, ground arith, λ a. cc (a.found, missing))
                | inr (repo, found) ↦
                    elim (Result-cases
                      (check_repo_write_permission repo (some user) false w.storage.db)) [
                        | inr (e, refused) ↦ inl (
                          e,
                          ground arith,
                          ground arith,
                          λ a.
                              let same : a.repo ≡ repo = ground (arith, a.found, found) in
                              let allowed = a.allowed in
                              ground (arith, rw same at allowed, refused),
                        )
                        | inl (answer, allowed) ↦
                            elim (Result-cases
                              (parse_lines lines (record { head = none; operations = [] }))) [
                                | inr (e, broken) ↦
                                    inl (e, ground arith, ground arith, λ a. cc (a.parsed, broken))
                                | inl (payload, parsed) ↦ elim (Option-cases payload.head) [
                                  | inl headless ↦ inl (
                                    no_header,
                                    ground arith,
                                    ground arith,
                                    λ a.
                                        let head : payload.head ≡ some a.message =
                                          ground (arith, a.parsed, parsed) in
                                        cc (head, headless),
                                  )
                                  | inr (message, head) ↦ inr (
                                    record {
                                      repo = repo;
                                      operations = payload.operations;
                                      message = message;
                                      no_pull_request = no_pull_request;
                                      found = found;
                                      allowed =
                                          allowed
                                          ∙ ap (λ b. ok b)
                                              (write-eq-true repo user w.storage.db answer allowed);
                                      parsed = ground arith;
                                    },
                                    ground arith,
                                  )
                                ]
                              ]
                      ]
              ]
      ]

-- LakeFS commits what was staged, or nothing was staged and nothing is committed.
abbrev pub Committed :
    {lakefs : LakeFs}
    → (w w' last : Work lakefs) → String
    → String × String
    → (lakefs_repo commit_id : String) → Type 0
Committed {lakefs} w w' last branch (message, description) lakefs_repo commit_id =
    (lakefs.commit lakefs_repo branch message description last.lake ≡ some (commit_id, w'.lake))
    ⊎ ((last ≡ w)
        × (w' ≡ w)
        × ((lakefs.get_branch lakefs_repo branch w.lake ≡ some commit_id)
            ⊎ ((lakefs.get_branch lakefs_repo branch w.lake ≡ none) × (commit_id ≡ "no-changes"))))

-- The operations that did not run: the first of them raises the error, or there are none and LakeFS
-- refuses the commit.
abbrev pub Stopped :
    {lakefs : LakeFs}
    → Config
    → Services
    → ℕ
    → Work lakefs
    → Repository
    → String
    → String × String
    → (lakefs_repo : String) → Error
    → List Operation
    → Type 0
Stopped {lakefs} cfg services fuel w' repo branch (message, description) lakefs_repo e [] =
    (lakefs.commit lakefs_repo branch message description w'.lake ≡ none)
    × (e ≡ http 500 "Commit failed")
Stopped cfg services fuel w' repo branch message lakefs_repo e (op ∷ after) =
    process_operation cfg services fuel repo lakefs_repo branch op w' ≡ (err e, w')

abbrev pub lake_name : Services → (repo_type namespace name : String) → String
lake_name services repo_type namespace name =
    lakefs_repo_name services.lower services.base_repr services.halves repo_type
      (namespace +s "/" +s name)

-- ===== src/Quota/Repo.antt =====
-- The quota of one repository: `set_repo_quota` of src/kohakuhub/api/quota/util.py.
use kohaku_hub.Prelude.{
  ◌≡◌, ◌↔◌, refl, true, false, Option, none, some, Bool-cases, inl, inr, arith,
}
use kohaku_hub.Prelude.Int.{ℤ, ◌+ℤ◌, ◌-ℤ◌, ◌≤ℤ◌, max_zero, +ℤ_parts}
use kohaku_hub.Http.{ok, err, value_error}
use kohaku_hub.Db.{Db, User, Repository}
use kohaku_hub.Db.Queries.{save_repository, get_user_by_id}
use kohaku_hub.Quota.{
  quota_of, used_of, owner_of, add_back, fits_within, set_repo_quota, get_repo_storage_info,
  repo_storage_info,
}

-- What the namespace has left for the repository: nothing limits it, or what its quota exceeds its
-- used bytes by (zero, if by nothing) and the repository's own present quota.
abbrev pub Allows : Repository → User → ℤ → Type 0
Allows repo user quota =
    (limit : ℤ)
    → quota_of repo.private user ≡ some limit
    → quota ≤ℤ add_back (max_zero (limit -ℤ used_of repo.private user)) repo.quota_bytes

own-le : (quota left : ℤ) → quota ≤ℤ max_zero left +ℤ quota
own-le quota left = ground (arith, +ℤ_parts (max_zero left) quota)

fits_within_iff :
    (repo : Repository) (quota used : ℤ) (namespace_quota : Option ℤ)
    → (fits_within namespace_quota used repo quota ≡ true) ↔ (
        (limit : ℤ)
        → namespace_quota ≡ some limit
        → quota ≤ℤ add_back (max_zero (limit -ℤ used)) repo.quota_bytes)
unfolding fits_within
fits_within_iff repo quota used none = (λ _ limit h. absurd (ground arith), λ _. refl)
fits_within_iff repo quota used (some n) = (
  λ h limit e. let same : n ≡ limit = cc in rw (← same) (ground arith),
  λ h. let room = h n refl in ground arith,
)

module _ (repo : Repository) (db : Db) (user : User) (owned : owner_of repo db ≡ ok user) where
  abbrev limited : ℤ → Repository
  limited quota = record repo { quota_bytes = some quota }

  accepted :
      (quota : ℤ)
      → fits_within (quota_of repo.private user) (used_of repo.private user) repo quota ≡ true
      → set_repo_quota repo (some quota) db
        ≡ ok (repo_storage_info (limited quota) user, save_repository (limited quota) db)
  unfolding set_repo_quota get_repo_storage_info owner_of get_user_by_id save_repository
  accepted quota fits = rw owned (rw fits refl)

  refused :
      (quota : ℤ)
      → fits_within (quota_of repo.private user) (used_of repo.private user) repo quota ≡ false
      → set_repo_quota repo (some quota) db ≡ err value_error
  unfolding set_repo_quota
  refused quota full = rw owned (rw full refl)

  -- A quota is accepted exactly if the namespace has that much left for the repository, and refused
  -- with ValueError exactly if not. An accepted quota is stored, and is then the repository's effective
  -- quota, whatever the namespace's is.
  pub set_repo_quota_iff :
      (quota : ℤ)
      → (Allows repo user quota ↔ (
          set_repo_quota repo (some quota) db
          ≡ ok (repo_storage_info (limited quota) user, save_repository (limited quota) db)))
        × ((¬ Allows repo user quota) ↔ (set_repo_quota repo (some quota) db ≡ err value_error))
        × ((repo_storage_info (limited quota) user).effective_quota_bytes ≡ some quota)
  set_repo_quota_iff quota =
      let (to, from) =
        fits_within_iff repo quota (used_of repo.private user) (quota_of repo.private user) in
      elim (Bool-cases
        (fits_within (quota_of repo.private user) (used_of repo.private user) repo quota)) [
          | inl fits ↦
              let done = accepted quota fits in
              ((λ _. done, λ _. to fits), (λ no. absurd (no (to fits)), λ bad. absurd (cc)), refl)
          | inr full ↦
              let bad = refused quota full in
              (
                (λ room. absurd (cc (from room)), λ done. absurd (cc)),
                (λ _. bad, λ _ room. cc (from room)),
                refl,
              )
        ]

  -- The present quota of a repository may always be set again.
  pub set_repo_quota_again :
      (quota : ℤ)
      → repo.quota_bytes ≡ some quota
      → set_repo_quota repo (some quota) db
        ≡ ok (repo_storage_info (limited quota) user, save_repository (limited quota) db)
  set_repo_quota_again quota present =
      (set_repo_quota_iff quota).0.0
        (λ limit _. rw present (own-le quota (limit -ℤ used_of repo.private user)))

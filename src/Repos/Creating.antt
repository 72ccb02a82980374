-- ===== src/Repos/Creating.antt =====
-- The effect of the creation of a repository (src/kohakuhub/api/repo/routers/crud.py).
use mathlib.Core.Path.{subst}
use kohaku_hub.Prelude.{
  ℕ, ◌≡◌, refl, sym, ap, ◌∙◌, ◌⊎◌, inl, inr, String, Bool, true, false, ◌&&◌, Option, none, some,
  List, [], ◌∷◌, ◌++◌, find?, any-eq-find?, AtMostOne, AtMostOne-append, arith, Bool-cases, eq_iff,
  str_eq,
}
use kohaku_hub.Http.{Error, Result, ok, err}
use kohaku_hub.Db.{Db, User, Repository}
use kohaku_hub.Db.Queries.{get_repository}
use kohaku_hub.Auth.Permissions.{check_namespace_permission}
use kohaku_hub.Names.{normalize_name}
use kohaku_hub.Fallback.Keys.{RepoKey}
use kohaku_hub.Fallback.Cache.{TtlCache, TtlLaws, get, invalidate_repo}
use kohaku_hub.Fallback.Cache.Evict.{invalidations_evict}
use kohaku_hub.Repos.{
  RepoLake, CreateRepoPayload, namespace_of, same_name, create_repo_checks,
  resolve_create_repo_private, repository_row, get_or_create_repository, Server, create_repo,
}

-- No two repositories of one type in one namespace have the same normalized name.
abbrev pub NamesDiffer : (lower : String → String) → Db → Type 0
NamesDiffer lower db =
    (repo_type namespace normalized : String)
    → AtMostOne (same_name lower repo_type namespace normalized) db.repositories

Result-cases : {A : Type 0} (r : Result A) → ((a : A) × (r ≡ ok a)) ⊎ ((e : Error) × (r ≡ err e))
Result-cases (ok a) = inl (a, refl)
Result-cases (err e) = inr (e, refl)

answer-eq-true :
    (namespace : String) (user : User) (db : Db) (answer : Bool)
    → check_namespace_permission namespace (some user) false false db ≡ ok answer
    → answer ≡ true
unfolding check_namespace_permission
answer-eq-true namespace user db answer h = ground arith

-- What is known of a request that passed the checks.
pub record Passed (lower : String → String) (payload : CreateRepoPayload) (user : User) (db : Db)
    (private : Bool) : Type 0 where
  pub visibility : resolve_create_repo_private payload.private payload.visibility ≡ ok private
  pub allowed :
      check_namespace_permission (namespace_of payload.organization user) (some user) false false db
      ≡ ok true
  pub is_new :
      get_repository payload.repo_type (namespace_of payload.organization user) payload.name db
      ≡ none
  pub no_other :
      find?
        (same_name lower payload.repo_type
          (namespace_of payload.organization user)
          (normalize_name lower payload.name))
        db.repositories
      ≡ none

create_repo_checks-Passed :
    (lower : String → String) (payload : CreateRepoPayload) (user : User) (db : Db) (private : Bool)
    → create_repo_checks lower payload user db ≡ ok private
    → Passed lower payload user db private
unfolding create_repo_checks
create_repo_checks-Passed lower payload user db private h =
    let namespace = namespace_of payload.organization user in
    elim (Result-cases (check_namespace_permission namespace (some user) false false db)) [
      | inr (e, refused) ↦ absurd (ground arith)
      | inl (answer, allowed) ↦ record {
        visibility = ground arith;
        allowed = allowed ∙ ap (λ b. ok b) (answer-eq-true namespace user db answer allowed);
        is_new = ground arith;
        no_other = ground arith;
      }
    ]

find?_narrower :
    (p q : Repository → Bool) (repos : List Repository)
    → ((r : Repository) → q r ≡ true → p r ≡ true)
    → find? p repos ≡ none
    → find? q repos ≡ none
unfolding find?
find?_narrower p q [] narrower missing = refl
find?_narrower p q (r ∷ repos) narrower missing = elim (Bool-cases (q r)) [
  | inl hit ↦ let wider = narrower r hit in absurd (ground arith)
  | inr miss ↦ rw miss (find?_narrower p q repos narrower (ground arith))
]

get_or_create-append :
    (row : Repository) (db : Db)
    → get_repository row.repo_type row.namespace row.name db ≡ none
    → get_or_create_repository row db ≡ record db { repositories = db.repositories ++ row ∷ [] }
unfolding get_or_create_repository get_repository
get_or_create-append row db missing =
    let none_found =
      find?_narrower
        (λ r.
          str_eq r.repo_type row.repo_type
          && str_eq r.namespace row.namespace
          && str_eq r.name row.name)
        (λ r.
          str_eq r.repo_type row.repo_type
          && str_eq r.namespace row.namespace
          && str_eq r.name row.name
          && str_eq r.full_id row.full_id)
        db.repositories (λ r h. ground arith) missing in
    rw (none_found, get_or_create_repository) refl

-- A row is added where no row has its normalized name.
added-NamesDiffer :
    (lower : String → String) (payload : CreateRepoPayload) (user : User) (db : Db) (new_id : ℕ)
    (private : Bool)
    → NamesDiffer lower db
    → find?
        (same_name lower payload.repo_type
          (namespace_of payload.organization user)
          (normalize_name lower payload.name))
        db.repositories
      ≡ none
    → NamesDiffer lower (record db {
      repositories =
          db.repositories
          ++ repository_row new_id payload.repo_type
              (namespace_of payload.organization user)
              payload.name
              private
              user
            ∷ [];
    })
added-NamesDiffer lower payload user db new_id private differ missing repo_type namespace
      normalized =
    AtMostOne-append (same_name lower repo_type namespace normalized) db.repositories _
      (differ repo_type namespace normalized)
      λ h.
        let type_same : payload.repo_type ≡ repo_type =
          (eq_iff payload.repo_type repo_type).0 (ground arith) in
        let namespace_same : namespace_of payload.organization user ≡ namespace =
          (eq_iff (namespace_of payload.organization user) namespace).0 (ground arith) in
        let name_same : normalize_name lower payload.name ≡ normalized =
          (eq_iff (normalize_name lower payload.name) normalized).0 (ground arith) in
        rw (← type_same, ← namespace_same, ← name_same)
          (any-eq-find?
            (same_name lower payload.repo_type (namespace_of payload.organization user)
              (normalize_name lower payload.name))
            db.repositories missing)

module _ {ttl : TtlCache} {lakes : RepoLake} (lower : String → String) (base_repr : ℕ → String)
    (halves : String → ℕ × ℕ) (str : ℕ → String) (bucket : String) (new_id : ℕ)
    (payload : CreateRepoPayload) (user : User) (s s' : Server ttl lakes) where
  abbrev namespace : String
  namespace = namespace_of payload.organization user

  abbrev key : RepoKey
  key = record { repo_type = payload.repo_type; namespace = namespace; name = payload.name }

  abbrev run : Result String × Server ttl lakes
  run = create_repo lower base_repr halves str bucket new_id payload user s

  abbrev with_row : Bool → Db
  with_row private = record s.db {
    repositories =
        s.db.repositories
        ++ repository_row new_id payload.repo_type namespace payload.name private user ∷ [];
  }

  create_repo_rows :
      (full_id : String)
      → run ≡ (ok full_id, s')
      → (private : Bool) × Passed lower payload user s.db private
        × (s'.db ≡ with_row private)
        × (s'.fallback_cache ≡ (invalidate_repo ttl str key s.fallback_cache).1)
  unfolding create_repo
  create_repo_rows full_id h = elim (Result-cases (create_repo_checks lower payload user s.db)) [
    | inr (e, refused) ↦ absurd (ground arith)
    | inl (private, passed) ↦
        let checks = create_repo_checks-Passed lower payload user s.db private passed in
        let row = repository_row new_id payload.repo_type namespace payload.name private user in
        let added = get_or_create-append row s.db checks.is_new in
        (private, checks, ground (arith, added), ground arith)
  ]

  -- A repository is created only for a request that passes the checks: the caller may use the
  -- namespace, where no repository of that type has the name, also after normalization. Then the
  -- row with these values is added, nothing else in the tables changes, and the fallback cache has no
  -- source for the repository, for any user and set of tokens.
  pub create_repo_effect :
      (full_id : String)
      → TtlLaws ttl
      → create_repo lower base_repr halves str bucket new_id payload user s ≡ (ok full_id, s')
      → (private : Bool) × Passed lower payload user s.db private
        × (s'.db ≡ record s.db {
          repositories =
              s.db.repositories
              ++ repository_row new_id payload.repo_type
                  (namespace_of payload.organization user)
                  payload.name
                  private
                  user
                ∷ [];
        })
        × ((user_id : Option ℕ) (tokens_hash : String)
            → get ttl str user_id tokens_hash
                (record {
                  repo_type = payload.repo_type;
                  namespace = namespace_of payload.organization user;
                  name = payload.name;
                })
                s'.fallback_cache
              ≡ none)
  create_repo_effect full_id laws h =
      let (private, checks, added, cached) = create_repo_rows full_id h in
      (
        private,
        checks,
        added,
        λ user_id tokens_hash.
            rw cached (invalidations_evict ttl laws str user_id tokens_hash key s.fallback_cache).0,
      )

  -- A request that fails leaves the tables and the cache as they were.
  create_repo_error :
      (e : Error) → run ≡ (err e, s') → (s'.db ≡ s.db) × (s'.fallback_cache ≡ s.fallback_cache)
  unfolding create_repo
  create_repo_error e h = (ground arith, ground arith)

module _ {ttl : TtlCache} {lakes : RepoLake} (lower : String → String) (base_repr : ℕ → String)
    (halves : String → ℕ × ℕ) (str : ℕ → String) (bucket : String) (new_id : ℕ)
    (payload : CreateRepoPayload) (user : User) (s : Server ttl lakes) where
  -- If no two repositories of one type in one namespace have the same normalized name, this holds
  -- after a request to create one, whether it fails or not.
  pub create_repo-NamesDiffer :
      NamesDiffer lower s.db
      → NamesDiffer lower (create_repo lower base_repr halves str bucket new_id payload user s).1.db
  create_repo-NamesDiffer differ =
      let (out, s') = create_repo lower base_repr halves str bucket new_id payload user s in
      elim (Result-cases out) [
        | inr (e, failed) ↦
            let (same, _) =
              create_repo_error lower base_repr halves str bucket new_id payload user s s' e
                (ap (λ r. (r, s')) failed) in
            subst (NamesDiffer lower) (sym same) differ
        | inl (full_id, done) ↦
            let (private, checks, added, _) =
              create_repo_rows lower base_repr halves str bucket new_id payload user s s' full_id
                (ap (λ r. (r, s')) done) in
            subst (NamesDiffer lower) (sym added)
              (added-NamesDiffer lower payload user s.db new_id private differ checks.no_other)
      ]

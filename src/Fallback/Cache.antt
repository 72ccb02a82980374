-- ===== src/Fallback/Cache.antt =====
-- src/kohakuhub/api/fallback/cache.py: which source serves a repository, for each user and set of
-- tokens, with the counters that reject a late write. The entries are a cachetools.TTLCache, an
-- argument: `TtlCache` has the operations that are used, `TtlLaws` what is documented of them.
pub mod Evict
pub mod Generations
mod Tests
use kohaku_hub.Prelude.{
  ℕ, ◌+◌, ◌≡◌, String, Bool, true, false, ◌&&◌, Option, none, some, List, [], ◌∷◌, keep, length,
  Elem, ◌==◌, str_eq, if◌then◌else◌,
}
use kohaku_hub.Auth.Permissions.{◌+s◌}
use kohaku_hub.Fallback.Keys.{
  RepoKey, same_user, same_repo, get_key, suffix_of, prefix_of, ends_with, starts_with,
}

pub record Source : Type 0 where
  pub source_url : String
  pub source_name : String
  pub source_type : String
  pub checked_at : ℕ
  pub exists : Bool

pub record TtlCache : Type 1 where
  pub Store : Type 0
  pub empty : Store
  pub get : String → Store → Option Source
  pub put : String → Source → Store → Store
  pub delete : String → Store → Store
  pub keys : Store → List String
  -- so many seconds pass
  pub elapse : ℕ → Store → Store

-- An entry may vanish (by age, or where there are too many), but never appears by itself.
pub record TtlLaws (ttl : TtlCache) : Type 0 where
  pub empty_has_none : (key : String) → ttl.get key ttl.empty ≡ none
  pub put_same :
      (key : String) (source found : Source) (s : ttl.Store)
      → ttl.get key (ttl.put key source s) ≡ some found
      → found ≡ source
  pub delete_same : (key : String) (s : ttl.Store) → ttl.get key (ttl.delete key s) ≡ none
  pub delete_keeps :
      (key other : String) (found : Source) (s : ttl.Store)
      → ttl.get other (ttl.delete key s) ≡ some found
      → ttl.get other s ≡ some found
  pub has_key :
      (key : String) (found : Source) (s : ttl.Store)
      → ttl.get key s ≡ some found
      → Elem key (ttl.keys s)

-- Two maps with a default of 0 hold the counters of users and repositories.
pub record RepoSourceCache (ttl : TtlCache) : Type 0 where
  pub cache : ttl.Store
  pub global_gen : ℕ
  pub user_gens : Option ℕ → ℕ
  pub repo_gens : RepoKey → ℕ

module _ (ttl : TtlCache) (str : ℕ → String) where
  unfoldable pub get : Option ℕ → String → RepoKey → RepoSourceCache ttl → Option Source
  get user_id tokens_hash repo c = ttl.get (get_key str user_id tokens_hash repo) c.cache

  unfoldable pub set :
      Option ℕ → String → RepoKey → Source → RepoSourceCache ttl → RepoSourceCache ttl
  set user_id tokens_hash repo source c = record c {
    cache = ttl.put (get_key str user_id tokens_hash repo) source c.cache;
  }

  unfoldable pub snapshot : Option ℕ → RepoKey → RepoSourceCache ttl → ℕ × ℕ × ℕ
  snapshot user_id repo c = (c.global_gen, c.user_gens user_id, c.repo_gens repo)

  abbrev pub same_gens : ℕ × ℕ × ℕ → ℕ × ℕ × ℕ → Bool
  same_gens (g, u, r) (g', u', r') = g == g' && u == u' && r == r'

  unfoldable pub safe_set :
      Option ℕ
      → String
      → RepoKey
      → Source
      → ℕ × ℕ × ℕ
      → RepoSourceCache ttl
      → Bool × RepoSourceCache ttl
  safe_set user_id tokens_hash repo source gens_at_start c =
      if same_gens (snapshot user_id repo c) gens_at_start
      then (true, set user_id tokens_hash repo source c)
      else (false, c)

  unfoldable pub invalidate :
      Option ℕ → String → RepoKey → RepoSourceCache ttl → Bool × RepoSourceCache ttl
  invalidate user_id tokens_hash repo c =
      let key = get_key str user_id tokens_hash repo in
      elim (ttl.get key c.cache) [
        | none ↦ (false, c)
        | some source ↦ (true, record c { cache = ttl.delete key c.cache })
      ]

  -- `for k in evicted_keys: del self.cache[k]`
  unfoldable pub delete_all : List String → ttl.Store → ttl.Store
  delete_all [] s = s
  delete_all (key ∷ evicted_keys) s = delete_all evicted_keys (ttl.delete key s)

  unfoldable pub invalidate_repo : RepoKey → RepoSourceCache ttl → ℕ × RepoSourceCache ttl
  invalidate_repo repo c =
      let evicted_keys = keep (λ k. ends_with k (suffix_of repo)) (ttl.keys c.cache) in
      (
        length evicted_keys,
        record c {
          repo_gens = λ r. if same_repo r repo then c.repo_gens r + 1 else c.repo_gens r;
          cache = delete_all evicted_keys c.cache;
        },
      )

  unfoldable pub clear_user : Option ℕ → RepoSourceCache ttl → ℕ × RepoSourceCache ttl
  clear_user user_id c =
      let evicted_keys = keep (λ k. starts_with k (prefix_of str user_id)) (ttl.keys c.cache) in
      (
        length evicted_keys,
        record c {
          user_gens = λ u. if same_user u user_id then c.user_gens u + 1 else c.user_gens u;
          cache = delete_all evicted_keys c.cache;
        },
      )

  unfoldable pub clear : RepoSourceCache ttl → RepoSourceCache ttl
  clear c = record c { global_gen = c.global_gen + 1; cache = ttl.empty }

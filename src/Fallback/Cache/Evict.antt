-- ===== src/Fallback/Cache/Evict.antt =====
-- What the invalidations of src/kohakuhub/api/fallback/cache.py leave in the cache.
use kohaku_hub.Prelude.{
  ℕ, ◌≡◌, String, Bool, true, Option, none, List, [], ◌∷◌, keep, Elem, Elem-keep, Option-cases,
  arith, inl, inr,
}
use kohaku_hub.Fallback.Keys.{
  RepoKey, get_key, suffix_of, prefix_of, ends_with, starts_with, get_key-has_suffix,
  get_key-has_prefix,
}
use kohaku_hub.Fallback.Cache.{
  TtlCache, TtlLaws, RepoSourceCache, get, invalidate, delete_all, invalidate_repo, clear_user,
  clear,
}

module _ (ttl : TtlCache) (laws : TtlLaws ttl) (str : ℕ → String) where
  delete_none :
      (key other : String) (s : ttl.Store)
      → ttl.get other s ≡ none
      → ttl.get other (ttl.delete key s) ≡ none
  delete_none key other s missing = elim (Option-cases (ttl.get other (ttl.delete key s))) [
    | inl still ↦ still
    | inr (found, h) ↦
        let there = laws.delete_keeps key other found s h in absurd (ground (arith, there, missing))
  ]

  delete_all-none :
      (evicted_keys : List String) (key : String) (s : ttl.Store)
      → ttl.get key s ≡ none
      → ttl.get key (delete_all ttl str evicted_keys s) ≡ none
  unfolding delete_all
  delete_all-none [] key s missing = missing
  delete_all-none (k ∷ evicted_keys) key s missing =
      delete_all-none evicted_keys key (ttl.delete k s) (delete_none k key s missing)

  delete_all-hit :
      (evicted_keys : List String) (key : String) (s : ttl.Store)
      → Elem key evicted_keys
      → ttl.get key (delete_all ttl str evicted_keys s) ≡ none
  unfolding delete_all
  delete_all-hit [] key s e = elim e [ ]
  delete_all-hit (k ∷ evicted_keys) key s (inl same) =
      delete_all-none evicted_keys key (ttl.delete k s) (rw same (laws.delete_same k s))
  delete_all-hit (k ∷ evicted_keys) key s (inr later) =
      delete_all-hit evicted_keys key (ttl.delete k s) later

  -- The eviction of the keys that pass a test leaves no entry under such a key.
  evicted :
      (p : String → Bool) (key : String) (s : ttl.Store)
      → p key ≡ true
      → ttl.get key (delete_all ttl str (keep p (ttl.keys s)) s) ≡ none
  evicted p key s hit = elim (Option-cases (ttl.get key s)) [
    | inl missing ↦ delete_all-none (keep p (ttl.keys s)) key s missing
    | inr (found, h) ↦
        delete_all-hit (keep p (ttl.keys s)) key s
          ((Elem-keep p (ttl.keys s) key).1 (laws.has_key key found s h, hit))
  ]

  invalidated :
      (user_id : Option ℕ) (tokens_hash : String) (repo : RepoKey) (c : RepoSourceCache ttl)
      → get ttl str user_id tokens_hash repo (invalidate ttl str user_id tokens_hash repo c).1
        ≡ none
  unfolding get invalidate
  invalidated user_id tokens_hash repo c =
      let key = get_key str user_id tokens_hash repo in
      elim (Option-cases (ttl.get key c.cache)) [
        | inl missing ↦ rw (invalidate, missing) missing
        | inr (found, h) ↦ rw (invalidate, h) (laws.delete_same key c.cache)
      ]

  -- With a TTLCache that does what is documented, and whatever the cache holds: a repository has no
  -- entry for any user and set of tokens after `invalidate_repo`, a user has none for any repository
  -- after `clear_user`, nobody has one after `clear`, and `invalidate` removes the entry it names.
  pub invalidations_evict :
      (user_id : Option ℕ) (tokens_hash : String) (repo : RepoKey) (c : RepoSourceCache ttl)
      → (get ttl str user_id tokens_hash repo (invalidate_repo ttl str repo c).1 ≡ none)
        × (get ttl str user_id tokens_hash repo (clear_user ttl str user_id c).1 ≡ none)
        × (get ttl str user_id tokens_hash repo (clear ttl str c) ≡ none)
        × (get ttl str user_id tokens_hash repo (invalidate ttl str user_id tokens_hash repo c).1
            ≡ none)
  unfolding get invalidate_repo clear_user clear
  invalidations_evict user_id tokens_hash repo c = (
    evicted (λ k. ends_with k (suffix_of repo)) (get_key str user_id tokens_hash repo) c.cache
        (get_key-has_suffix str user_id tokens_hash repo),
    evicted (λ k. starts_with k (prefix_of str user_id)) (get_key str user_id tokens_hash repo)
        c.cache (get_key-has_prefix str user_id tokens_hash repo),
    laws.empty_has_none (get_key str user_id tokens_hash repo),
    invalidated user_id tokens_hash repo c,
  )

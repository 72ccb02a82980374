-- ===== src/Fallback/Cache/Generations.antt =====
-- A probe takes the counters before it asks the sources and stores its answer afterwards
-- (src/kohakuhub/api/fallback/cache.py); what happens to the cache in between is a list of events.
use kohaku_hub.Prelude.{
  ℕ, ◌≡◌, ◌≤◌, refl, String, Bool, true, false, ◌||◌, not, sym, Option, List, [], ◌∷◌, any, arith,
  if◌then◌else◌, Bool-cases, Option-cases, inl, inr,
}
use mathlib.Core.Path.{subst}
use kohaku_hub.Fallback.Keys.{RepoKey, same_user, same_repo, get_key}
use kohaku_hub.Fallback.Cache.{
  Source, TtlCache, RepoSourceCache, set, snapshot, same_gens, safe_set, invalidate,
  invalidate_repo, clear_user, clear,
}

pub data Event : Type 0 where
  -- another probe's `safe_set`
  stored : Option ℕ → String → RepoKey → Source → ℕ × ℕ × ℕ → Event
  -- `invalidate`
  dropped : Option ℕ → String → RepoKey → Event
  -- `invalidate_repo`
  repo_changed : RepoKey → Event
  -- `clear_user`
  tokens_changed : Option ℕ → Event
  -- `clear`
  sources_changed : Event
  -- seconds pass
  elapsed : ℕ → Event

-- The invalidations that concern a user's binding of a repository.
abbrev pub affects : Option ℕ → RepoKey → Event → Bool
affects user_id repo (stored u h r source gens) = false
affects user_id repo (dropped u h r) = false
affects user_id repo (repo_changed r) = same_repo repo r
affects user_id repo (tokens_changed u) = same_user user_id u
affects user_id repo sources_changed = true
affects user_id repo (elapsed seconds) = false

module _ (ttl : TtlCache) (str : ℕ → String) where
  unfoldable pub happen : Event → RepoSourceCache ttl → RepoSourceCache ttl
  happen (stored u h r source gens) c = (safe_set ttl str u h r source gens c).1
  happen (dropped u h r) c = (invalidate ttl str u h r c).1
  happen (repo_changed r) c = (invalidate_repo ttl str r c).1
  happen (tokens_changed u) c = (clear_user ttl str u c).1
  happen sources_changed c = clear ttl str c
  happen (elapsed seconds) c = record c { cache = ttl.elapse seconds c.cache }

  unfoldable pub happen_all : List Event → RepoSourceCache ttl → RepoSourceCache ttl
  happen_all [] c = c
  happen_all (e ∷ events) c = happen_all events (happen e c)

  snapshot-safe_set :
      (user_id u : Option ℕ) (repo r : RepoKey) (h : String) (source : Source) (gens : ℕ × ℕ × ℕ)
      (c : RepoSourceCache ttl)
      → snapshot ttl str user_id repo (safe_set ttl str u h r source gens c).1
        ≡ snapshot ttl str user_id repo c
  unfolding safe_set set snapshot
  snapshot-safe_set user_id u repo r h source gens c =
      elim (Bool-cases (same_gens ttl str (snapshot ttl str u r c) gens)) [
        | inl same ↦ rw (safe_set, same) refl
        | inr other ↦ rw (safe_set, other) refl
      ]

  snapshot-invalidate :
      (user_id u : Option ℕ) (repo r : RepoKey) (h : String) (c : RepoSourceCache ttl)
      → snapshot ttl str user_id repo (invalidate ttl str u h r c).1
        ≡ snapshot ttl str user_id repo c
  unfolding invalidate snapshot
  snapshot-invalidate user_id u repo r h c =
      elim (Option-cases (ttl.get (get_key str u h r) c.cache)) [
        | inl missing ↦ rw (invalidate, missing) refl
        | inr (source, there) ↦ rw (invalidate, there) refl
      ]

  -- No counter falls, and one of them rises exactly if there was an invalidation.
  record Later (before after : ℕ × ℕ × ℕ) (changed : Bool) : Type 0 where
    global : before.0 ≤ after.0
    user : before.1 ≤ after.1
    of_repo : before.2 ≤ after.2
    rises : same_gens ttl str after before ≡ not changed

  unchanged : (before after : ℕ × ℕ × ℕ) → after ≡ before → Later before after false
  unchanged before after same =
      subst (λ s. Later before s false) (sym same)
        (record {
          global = omega arith;
          user = omega arith;
          of_repo = omega arith;
          rises = ground arith;
        })

  Later-step : (a b c : ℕ × ℕ × ℕ) (p q : Bool) → Later a b p → Later b c q → Later a c (p || q)
  Later-step a b c p q first second = record {
    global = omega (arith, first.global, second.global);
    user = omega (arith, first.user, second.user);
    of_repo = omega (arith, first.of_repo, second.of_repo);
    rises = ground (
      arith, first.global, second.global, first.user, second.user, first.of_repo, second.of_repo,
      first.rises, second.rises,
    );
  }

  module _ (user_id : Option ℕ) (repo : RepoKey) where
    happen-Later :
        (e : Event) (c : RepoSourceCache ttl)
        → Later
            (snapshot ttl str user_id repo c)
            (snapshot ttl str user_id repo (happen e c))
            (affects user_id repo e)
    unfolding happen invalidate_repo clear_user clear snapshot
    happen-Later (stored u h r source gens) c =
        unchanged _ _ (snapshot-safe_set user_id u repo r h source gens c)
    happen-Later (dropped u h r) c = unchanged _ _ (snapshot-invalidate user_id u repo r h c)
    happen-Later (repo_changed r) c = record {
      global = omega arith;
      user = omega arith;
      of_repo = ground arith;
      rises = ground arith;
    }
    happen-Later (tokens_changed u) c = record {
      global = omega arith;
      user = ground arith;
      of_repo = omega arith;
      rises = ground arith;
    }
    happen-Later sources_changed c = record {
      global = omega arith;
      user = omega arith;
      of_repo = omega arith;
      rises = ground arith;
    }
    happen-Later (elapsed seconds) c = unchanged _ _ refl

    happen_all-Later :
        (events : List Event) (c : RepoSourceCache ttl)
        → Later
            (snapshot ttl str user_id repo c)
            (snapshot ttl str user_id repo (happen_all events c))
            (any (affects user_id repo) events)
    unfolding happen_all any
    happen_all-Later [] c = unchanged _ _ refl
    happen_all-Later (e ∷ events) c =
        Later-step _ _ _ (affects user_id repo e) (any (affects user_id repo) events)
          (happen-Later e c) (happen_all-Later events (happen e c))

    -- After whatever events, the answer of a probe is stored if and only if none of them, since its
    -- counters were taken, was an invalidation that concerns its user or its repository; otherwise
    -- the cache stays as it is.
    pub safe_set_fresh :
        (tokens_hash : String) (source : Source) (events : List Event) (c : RepoSourceCache ttl)
        → safe_set ttl str user_id tokens_hash repo source
            (snapshot ttl str user_id repo c)
            (happen_all events c)
          ≡ (if any (affects user_id repo) events
              then (false, happen_all events c)
              else (true, set ttl str user_id tokens_hash repo source (happen_all events c)))
    unfolding safe_set
    safe_set_fresh tokens_hash source events c =
        let later = happen_all-Later events c in
        elim (Bool-cases (any (affects user_id repo) events)) [
          | inl hit ↦ ground (arith, later.rises)
          | inr miss ↦ ground (arith, later.rises)
        ]

-- ===== src/Fallback/Cache/Tests.antt =====
-- A cache whose entries never vanish, as a list, and probes with it
-- (src/kohakuhub/api/fallback/cache.py).
use kohaku_hub.Prelude.{
  ℕ, ◌≡◌, refl, sym, ◌∙◌, String, true, false, not, Option, none, some, List, [], ◌∷◌, map, keep,
  any, find?, Elem, eq_iff, str_eq, arith, Bool-cases, inl, inr,
}
use mathlib.Core.Path.{subst}
use kohaku_hub.Fallback.Keys.{RepoKey, get_key, user_key, ends_with, starts_with}
use kohaku_hub.Fallback.Cache.{
  Source, TtlCache, TtlLaws, RepoSourceCache, get, set, snapshot, safe_set, invalidate,
  invalidate_repo, clear_user, clear,
}
use kohaku_hub.Fallback.Cache.Evict.{invalidations_evict}
use kohaku_hub.Fallback.Cache.Generations.{
  Event, repo_changed, tokens_changed, elapsed, happen_all, safe_set_fresh,
}

record Entry : Type 0 where
  key : String
  source : Source

abbrev entry_of : Option Entry → Option Source
entry_of none = none
entry_of (some e) = some e.source

abbrev no_limit : TtlCache
no_limit = record {
  Store = List Entry;
  empty = [];
  get = λ key s. entry_of (find? (λ e. str_eq e.key key) s);
  put = λ key source s. record { key = key; source = source } ∷ s;
  delete = λ key s. keep (λ e. not (str_eq e.key key)) s;
  keys = λ s. map (λ e. e.key) s;
  elapse = λ seconds s. s;
}

deleted :
    (key : String) (s : List Entry)
    → entry_of (find? (λ e. str_eq e.key key) (keep (λ e. not (str_eq e.key key)) s)) ≡ none
unfolding find? keep
deleted key [] = refl
deleted key (e ∷ s) = ground (arith, deleted key s)

kept :
    (key other : String) (s : List Entry) (found : Source)
    → entry_of (find? (λ e. str_eq e.key other) (keep (λ e. not (str_eq e.key key)) s)) ≡ some found
    → entry_of (find? (λ e. str_eq e.key other) s) ≡ some found
unfolding find? keep
kept key other [] found h = h
kept key other (e ∷ s) found h =
    let rest = kept key other s found in
    elim (Bool-cases (str_eq e.key key)) [
      | inr stays ↦ ground (arith, rest)
      | inl gone ↦ elim (Bool-cases (str_eq e.key other)) [
        | inr differs ↦ ground (arith, rest)
        | inl same ↦
            let keys : key ≡ other =
              sym ((eq_iff e.key key).0 gone) ∙ (eq_iff e.key other).0 same in
            let nothing =
              subst
                (λ k.
                  entry_of (find? (λ e. str_eq e.key k) (keep (λ e. not (str_eq e.key key)) s))
                  ≡ none)
                keys (deleted key s) in
            absurd (ground (arith, nothing, h))
      ]
    ]

listed :
    (key : String) (s : List Entry) (found : Source)
    → entry_of (find? (λ e. str_eq e.key key) s) ≡ some found
    → Elem key (map (λ (e : Entry). e.key) s)
unfolding find?
listed key [] found h = absurd (ground arith)
listed key (e ∷ s) found h = elim (Bool-cases (str_eq e.key key)) [
  | inl same ↦ inl (sym ((eq_iff e.key key).0 same))
  | inr other ↦ inr (listed key s found (ground arith))
]

no_limit-Laws : TtlLaws no_limit
unfolding find?
no_limit-Laws = record {
  empty_has_none = λ key. refl;
  put_same = λ key source found s h. let same = (eq_iff key key).1 refl in ground (arith, same, h);
  delete_same = deleted;
  delete_keeps = λ key other found s h. kept key other s found h;
  has_key = λ key found s h. listed key s found h;
}

abbrev str : ℕ → String
str n = "1"

abbrev gpt : RepoKey
gpt = record { repo_type = "model"; namespace = "openai"; name = "gpt" }

abbrev hub : Source
hub = record {
  source_url = "https://hub";
  source_name = "hub";
  source_type = "huggingface";
  checked_at = 5;
  exists = true;
}

abbrev empty_cache : RepoSourceCache no_limit
empty_cache = record { cache = []; global_gen = 0; user_gens = λ u. 0; repo_gens = λ r. 0 }

abbrev filled : RepoSourceCache no_limit
filled = record empty_cache {
  cache = record { key = "fallback:repo:u=1:t=h:model:openai/gpt"; source = hub } ∷ [];
}

stores : safe_set no_limit str (some 1) "h" gpt hub (0, 0, 0) empty_cache ≡ (true, filled)
unfolding safe_set snapshot set get_key user_key
stores = refl

evicts_one : (invalidate_repo no_limit str gpt filled).0 ≡ 1
unfolding invalidate_repo ends_with keep
evicts_one = refl

other_user : (clear_user no_limit str none filled).0 ≡ 0
unfolding clear_user starts_with user_key keep
other_user = refl

invalidations_evict_example :
    (get no_limit str (some 1) "h" gpt (invalidate_repo no_limit str gpt filled).1 ≡ none)
    × (get no_limit str (some 1) "h" gpt (clear_user no_limit str (some 1) filled).1 ≡ none)
    × (get no_limit str (some 1) "h" gpt (clear no_limit str filled) ≡ none)
    × (get no_limit str (some 1) "h" gpt (invalidate no_limit str (some 1) "h" gpt filled).1 ≡ none)
invalidations_evict_example = invalidations_evict no_limit no_limit-Laws str (some 1) "h" gpt filled

-- While user 1 asks the sources, the tokens of another user change, and then the repository.
abbrev meanwhile : List Event
meanwhile = tokens_changed (some 2) ∷ elapsed 3 ∷ repo_changed gpt ∷ []

safe_set_fresh_example :
    safe_set no_limit str
      (some 1)
      "h"
      gpt
      hub
      (0, 0, 0)
      (happen_all no_limit str meanwhile empty_cache)
    ≡ (false, happen_all no_limit str meanwhile empty_cache)
unfolding snapshot any
safe_set_fresh_example = safe_set_fresh no_limit str (some 1) gpt "h" hub meanwhile empty_cache

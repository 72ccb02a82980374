-- ===== src/Repos/Tests.antt =====
-- Repositories that are created, on a LakeFS that keeps names and keys, and a cache of one entry.
use kohaku_hub.Prelude.{
  ℕ, ◌≡◌, refl, sym, ap, inl, inr, String, Bool, true, not, Option, none, some, List, [], ◌∷◌, ◌++◌,
  keep, Elem, Elem-keep, length, take, any, find?, AtMostOne-cons, AtMostOne-nil, Bool-cases, arith,
  str_eq, eq_iff, if◌then◌else◌,
}
use kohaku_hub.Http.{Result, ok}
use kohaku_hub.Db.{Db}
use kohaku_hub.Db.Queries.{get_repository}
use kohaku_hub.Auth.Permissions.{◌+s◌, check_namespace_permission}
use kohaku_hub.Names.{normalize_name}
use kohaku_hub.Fixtures.{tables, alice, bert, clip}
use kohaku_hub.Fallback.Keys.{starts_with}
use kohaku_hub.Fallback.Cache.{TtlCache, TtlLaws, Source, get}
use kohaku_hub.Repos.{
  RepoLake, created, refused, CreateRepoPayload, Server, same_name, repository_row,
  resolve_create_repo_private, create_repo_checks, cleanup_orphan, create_lake, create_repo,
}
use kohaku_hub.Repos.Moving.Conflict.{move_not-NamesDiffer}
use kohaku_hub.Repos.Moving.{move_repo_checks, update_repository_database_records, split_id}
use kohaku_hub.Repos.Creating.{NamesDiffer, Passed, create_repo_effect, create_repo-NamesDiffer}
use kohaku_hub.Repos.Orphans.{KeyLaws, cleanup_orphan-keeps}

record Stored : Type 0 where
  names : List String
  keys : List String

abbrev without_prefix : String → List String → List String
without_prefix prefix keys = keep (λ k. not (starts_with k prefix)) keys

abbrev names_and_keys : RepoLake
names_and_keys = record {
  Lake = Stored;
  create_repository = λ name namespace lake.
      if any (str_eq name) lake.names
      then refused "not unique"
      else if any (λ k. starts_with k (name +s "/")) lake.keys
      then refused ("storage namespace already in use: " +s namespace +s " has _lakefs/dummy")
      else created (record lake { names = name ∷ lake.names });
  repository_exists = λ name lake. some (any (str_eq name) lake.names);
  list_keys =
      λ prefix max_keys lake. some (take max_keys (keep (λ k. starts_with k prefix) lake.keys));
  delete_key = λ key lake. some (record lake { keys = keep (λ k. not (str_eq k key)) lake.keys });
  delete_prefix =
      λ prefix lake. (length lake.keys, record lake { keys = without_prefix prefix lake.keys });
}

key_laws : KeyLaws names_and_keys
key_laws = record {
  keys = λ lake. lake.keys;
  lists = λ prefix max_keys lake listed h. ground arith;
  delete_prefix_keeps = λ prefix key lake stored other.
      (Elem-keep (λ k. not (starts_with k prefix)) lake.keys key).1 (stored, ap not other);
  delete_key_keeps = λ deleted key lake lake' done stored differs.
      let same : lake'.keys ≡ keep (λ k. not (str_eq k deleted)) lake.keys = ground arith in
      rw same (
        (Elem-keep (λ k. not (str_eq k deleted)) lake.keys key).1 (
          stored,
          elim (Bool-cases (str_eq key deleted)) [
            | inl equal ↦ absurd (differs ((eq_iff key deleted).0 equal))
            | inr other ↦ ap not other
          ],
        ));
}

cleanup_orphan-keeps_example : Elem "m-x/data/1" (
    key_laws.keys
      (cleanup_orphan names_and_keys "m-x" true
        (record { names = []; keys = "m-x/_lakefs/dummy" ∷ "m-x/data/1" ∷ [] })).1)
unfolding keep starts_with key_laws
cleanup_orphan-keeps_example =
    cleanup_orphan-keeps key_laws "m-x" true
      (record { names = []; keys = "m-x/_lakefs/dummy" ∷ "m-x/data/1" ∷ [] }) "m-x/data/1"
      (omega arith) (inr (inl refl)) refl

record Entry : Type 0 where
  key : String
  source : Source

abbrev entry_at : String → Option Entry → Option Source
entry_at key none = none
entry_at key (some e) = if str_eq e.key key then some e.source else none

abbrev keys_of : Option Entry → List String
keys_of none = []
keys_of (some e) = e.key ∷ []

abbrev drop_key : String → Option Entry → Option Entry
drop_key key none = none
drop_key key (some e) = if str_eq e.key key then none else some e

abbrev one_entry : TtlCache
one_entry = record {
  Store = Option Entry;
  empty = none;
  get = entry_at;
  put = λ key source s. some (record { key = key; source = source });
  delete = drop_key;
  keys = keys_of;
  elapse = λ seconds s. s;
}

has_key :
    (key : String) (found : Source) (s : Option Entry)
    → entry_at key s ≡ some found
    → Elem key (keys_of s)
has_key key found none h = absurd (cc h)
has_key key found (some e) h = inl (sym ((eq_iff e.key key).0 (ground arith)))

delete_same : (key : String) (s : Option Entry) → entry_at key (drop_key key s) ≡ none
delete_same key none = refl
delete_same key (some e) = ground arith

delete_keeps :
    (key other : String) (found : Source) (s : Option Entry)
    → entry_at other (drop_key key s) ≡ some found
    → entry_at other s ≡ some found
delete_keeps key other found none h = h
delete_keeps key other found (some e) h = ground arith

one_entry-Laws : TtlLaws one_entry
one_entry-Laws = record {
  empty_has_none = λ key. refl;
  put_same = λ key source found s h. let same = (eq_iff key key).1 refl in ground (arith, same, h);
  delete_same = delete_same;
  delete_keeps = delete_keeps;
  has_key = has_key;
}

abbrev same_text : String → String
same_text text = text

abbrev before : Server one_entry names_and_keys
before = record {
  db = tables;
  lake = record { names = []; keys = [] };
  fallback_cache = record { cache = none; global_gen = 0; user_gens = λ u. 0; repo_gens = λ r. 0 };
}

abbrev payload : CreateRepoPayload
payload = record {
  repo_type = "model";
  name = "new_bert";
  organization = none;
  private = none;
  visibility = some "private";
}

abbrev run : Result String × Server one_entry names_and_keys
run = create_repo same_text (λ num. "7") (λ text. (6, 3)) (λ n. "1") "hub" 9 payload alice before

done : run ≡ (ok "alice/new_bert", run.1)
unfolding create_repo create_repo_checks resolve_create_repo_private check_namespace_permission
    get_repository find? normalize_name create_lake any
done = refl

create_repo_effect_example :
    (private : Bool) × Passed same_text payload alice tables private
    × (run.1.db ≡ record tables {
      repositories =
          tables.repositories ++ repository_row 9 "model" "alice" "new_bert" private alice ∷ [];
    })
    × ((user_id : Option ℕ) (tokens_hash : String)
        → get one_entry
            (λ n. "1")
            user_id
            tokens_hash
            (record { repo_type = "model"; namespace = "alice"; name = "new_bert" })
            run.1.fallback_cache
          ≡ none)
create_repo_effect_example =
    create_repo_effect same_text (λ num. "7") (λ text. (6, 3)) (λ n. "1") "hub" 9 payload alice
      before run.1 "alice/new_bert" one_entry-Laws done

names_differ : NamesDiffer same_text tables
unfolding any
names_differ repo_type namespace normalized =
    let p = same_name same_text repo_type namespace normalized in
    AtMostOne-cons p bert (clip ∷ [])
      (λ h.
        let same : "acme" ≡ namespace = (eq_iff "acme" namespace).0 (ground arith) in
        rw (← same) (ground arith))
      (AtMostOne-cons p clip [] (λ h. refl) (AtMostOne-nil p))

create_repo-NamesDiffer_example : NamesDiffer same_text run.1.db
create_repo-NamesDiffer_example =
    create_repo-NamesDiffer same_text (λ num. "7") (λ text. (6, 3)) (λ n. "1") "hub" 9 payload alice
      before names_differ

move_not-NamesDiffer_example :
    (move_repo_checks 1 (λ repo after. none) "model" "acme/bert" "bob/cl_ip" none true tables
      ≡ ok (bert, 0))
    × ((db' : Db) × (update_repository_database_records "bob/cl_ip" "acme" "bob" "cl_ip"
            (not (str_eq "acme" "bob"))
            0
            bert
            tables
          ≡ ok db')
        × ¬ NamesDiffer same_text db')
unfolding normalize_name split_id get_repository find?
move_not-NamesDiffer_example =
    move_not-NamesDiffer 1 (λ repo after. none) same_text "model" "acme/bert" "bob/cl_ip" "acme"
      "bert" "bob" "cl_ip" bert clip none tables refl refl refl refl (inr (inl refl)) (omega arith)
      refl refl refl

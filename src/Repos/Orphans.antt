-- ===== src/Repos/Orphans.antt =====
-- What the cleanup of an orphaned storage namespace (src/kohakuhub/api/repo/routers/crud.py) deletes.
use mathlib.Core.Path.{subst}
use kohaku_hub.Prelude.{
  ℕ, zero, suc, ◌≤◌, ◌≡◌, ◌≢◌, refl, ap, ◌⊎◌, ◌∙◌, inl, inr, String, Bool, true, false, ◌&&◌, some,
  List, [], ◌∷◌, keep, Elem, Elem-keep, length, take, Bool-cases, Option-cases, arith,
}
use kohaku_hub.Auth.Permissions.{◌+s◌}
use kohaku_hub.Fallback.Keys.{starts_with, starts_with-append_both}
use kohaku_hub.Repos.{RepoLake, all_internal, has_only_internal_markers, is_empty, cleanup_orphan}

-- What is documented of S3: a listing has the first keys with the prefix, and a deletion leaves every
-- other key.
pub record KeyLaws (lakes : RepoLake) : Type 0 where
  pub keys : lakes.Lake → List String
  pub lists :
      (prefix : String) (max_keys : ℕ) (lake : lakes.Lake) (listed : List String)
      → lakes.list_keys prefix max_keys lake ≡ some listed
      → listed ≡ take max_keys (keep (λ k. starts_with k prefix) (keys lake))
  pub delete_prefix_keeps :
      (prefix key : String) (lake : lakes.Lake)
      → Elem key (keys lake)
      → starts_with key prefix ≡ false
      → Elem key (keys (lakes.delete_prefix prefix lake).1)
  pub delete_key_keeps :
      (deleted key : String) (lake lake' : lakes.Lake)
      → lakes.delete_key deleted lake ≡ some lake'
      → Elem key (keys lake)
      → key ≢ deleted
      → Elem key (keys lake')

take_all : (n : ℕ) (xs : List String) → length xs ≤ n → take n xs ≡ xs
take_all zero [] h = refl
take_all zero (x ∷ xs) h = absurd (omega arith)
take_all (suc n) [] h = refl
take_all (suc n) (x ∷ xs) h = rw (take_all n xs (omega arith)) refl

all_internal-Elem :
    (repo_prefix : String) (keys : List String) (key : String)
    → all_internal repo_prefix keys ≡ true
    → Elem key keys
    → starts_with key (repo_prefix +s "_lakefs/") ≡ true
all_internal-Elem repo_prefix [] key all e = elim e [ ]
all_internal-Elem repo_prefix (k ∷ keys) key all (inl same) = rw same (ground arith)
all_internal-Elem repo_prefix (k ∷ keys) key all (inr later) =
    all_internal-Elem repo_prefix keys key (ground arith) later

only_internal :
    (repo_prefix : String) (keys : List String) (allow_empty : Bool) (key : String)
    → has_only_internal_markers keys repo_prefix allow_empty ≡ true
    → Elem key keys
    → starts_with key (repo_prefix +s "_lakefs/") ≡ true
unfolding has_only_internal_markers
only_internal repo_prefix [] allow_empty key only e = elim e [ ]
only_internal repo_prefix (k ∷ keys) allow_empty key only e =
    all_internal-Elem repo_prefix (k ∷ keys) key only e

dummy_internal :
    (repo_prefix : String)
    → starts_with (repo_prefix +s "_lakefs/dummy") (repo_prefix +s "_lakefs/") ≡ true
unfolding starts_with
dummy_internal repo_prefix = starts_with-append_both repo_prefix "_lakefs/dummy" "_lakefs/" refl

module _ {lakes : RepoLake} (laws : KeyLaws lakes) (lakefs_repo : String) (allow_empty : Bool)
    (lake : lakes.Lake) (key : String) where
  abbrev repo_prefix : String
  repo_prefix = lakefs_repo +s "/"

  abbrev under : List String
  under = keep (λ k. starts_with k repo_prefix) (laws.keys lake)

  deletes_internal :
      Elem key (laws.keys lake)
      → starts_with key (repo_prefix +s "_lakefs/") ≡ false
      → has_only_internal_markers under repo_prefix allow_empty ≡ true
      → Elem key (laws.keys (lakes.delete_prefix repo_prefix lake).1)
  deletes_internal stored outside only = elim (Bool-cases (starts_with key repo_prefix)) [
    | inr other ↦ laws.delete_prefix_keeps repo_prefix key lake stored other
    | inl inside ↦
        let sampled =
          (Elem-keep (λ k. starts_with k repo_prefix) (laws.keys lake) key).1 (stored, inside) in
        let internal = only_internal repo_prefix under allow_empty key only sampled in
        absurd (cc (internal, outside))
  ]

  deletes_dummy :
      (lake' : lakes.Lake)
      → Elem key (laws.keys lake)
      → starts_with key (repo_prefix +s "_lakefs/") ≡ false
      → lakes.delete_key (repo_prefix +s "_lakefs/dummy") lake ≡ some lake'
      → Elem key (laws.keys lake')
  deletes_dummy lake' stored outside deleted =
      laws.delete_key_keeps (repo_prefix +s "_lakefs/dummy") key lake lake' deleted stored λ same.
        let internal = dummy_internal repo_prefix in
        cc (ap (λ k. starts_with k (repo_prefix +s "_lakefs/")) same, internal, outside)

  abbrev after : lakes.Lake
  after = (cleanup_orphan lakes lakefs_repo allow_empty lake).1

  cleanup_cases :
      (after ≡ lake)
      ⊎ (((lake' : lakes.Lake) × (lakes.delete_key (repo_prefix +s "_lakefs/dummy") lake
              ≡ some lake')
            × (after ≡ lake'))
          ⊎ ((sample : List String) × (lakes.list_keys repo_prefix 20 lake ≡ some sample)
              × (has_only_internal_markers sample repo_prefix allow_empty ≡ true)
              × (after ≡ (lakes.delete_prefix repo_prefix lake).1)))
  unfolding cleanup_orphan
  cleanup_cases = elim (Option-cases (lakes.repository_exists lakefs_repo lake)) [
    | inl raised ↦ inl (ground arith)
    | inr (true, exists) ↦ inl (ground arith)
    | inr (false, absent) ↦ elim (Option-cases (lakes.list_keys repo_prefix 20 lake)) [
      | inl raised ↦ inl (ground arith)
      | inr (sample, listed) ↦
          elim (Bool-cases (has_only_internal_markers sample repo_prefix allow_empty)) [
            | inr other ↦ inl (ground arith)
            | inl only ↦ elim (Bool-cases (is_empty sample && allow_empty)) [
              | inr some_keys ↦ inr (inr (sample, listed, only, ground arith))
              | inl no_keys ↦
                  elim (Option-cases (lakes.delete_key (repo_prefix +s "_lakefs/dummy") lake)) [
                    | inl failed ↦ inl (ground arith)
                    | inr (lake', deleted) ↦ inr (inl (lake', deleted, ground arith))
                  ]
            ]
          ]
    ]
  ]

  -- Where S3 lists and deletes as documented, and the namespace has twenty objects at most, as many as
  -- are sampled, the cleanup keeps every object but LakeFS's internal ones of this namespace.
  pub cleanup_orphan-keeps :
      length (keep (λ k. starts_with k (lakefs_repo +s "/")) (laws.keys lake)) ≤ 20
      → Elem key (laws.keys lake)
      → starts_with key ((lakefs_repo +s "/") +s "_lakefs/") ≡ false
      → Elem key (laws.keys (cleanup_orphan lakes lakefs_repo allow_empty lake).1)
  cleanup_orphan-keeps few stored outside = elim cleanup_cases [
    | inl same ↦ rw same stored
    | inr (inl (lake', deleted, same)) ↦ rw same (deletes_dummy lake' stored outside deleted)
    | inr (inr (sample, listed, only, same)) ↦
        let sampled : sample ≡ under =
          laws.lists repo_prefix 20 lake sample listed ∙ take_all 20 under few in
        rw same (
          deletes_internal stored outside (
            subst (λ keys. has_only_internal_markers keys repo_prefix allow_empty ≡ true) sampled
              only))
  ]

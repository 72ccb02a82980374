-- ===== src/Lfs/Rules.antt =====
-- The LFS settings of a repository: `get_effective_lfs_…` and `should_use_lfs` of
-- src/kohakuhub/db_operations.py. `lower` is Python's `str.lower`; `parse` is `json.loads` of the stored
-- rules, `none` where the text is no JSON or no list.
pub mod Choice
mod Tests
use Prim.Native.String
use kohaku_hub.Prelude.{
  ℕ, String, Bool, true, false, ◌||◌, not, Option, none, some, List, [], ◌∷◌, ◌++◌, any, leb,
  str_eq, if◌then◌else◌,
}
use kohaku_hub.Config.{Config}
use kohaku_hub.Db.{Repository}

abbrev or_else {ℓ} : {A : Type ℓ} → Option A → A → A
or_else none default = default
or_else (some a) default = a

unfoldable pub get_effective_lfs_threshold : Config → Repository → ℕ
get_effective_lfs_threshold cfg repo = or_else repo.lfs_threshold_bytes cfg.lfs_threshold_bytes

unfoldable pub get_effective_lfs_keep_versions : Config → Repository → ℕ
get_effective_lfs_keep_versions cfg repo = or_else repo.lfs_keep_versions cfg.lfs_keep_versions

-- `for rule in repo_rules: if rule not in effective_rules: effective_rules.append(rule)`
merge : List String → List String → List String
merge effective [] = effective
merge effective (rule ∷ rules) =
    merge (if any (str_eq rule) effective then effective else effective ++ rule ∷ []) rules

-- `text.endswith(suffix)`
unfoldable pub ends_with : String → String → Bool
ends_with suffix String.[] = str_eq String.[] suffix
ends_with suffix (String.◌∷◌ c text) = str_eq (String.◌∷◌ c text) suffix || ends_with suffix text

module _ (lower : String → String) (parse : String → Option (List String)) (cfg : Config) where
  -- The repository's own rules: none, if the column is NULL or empty or does not parse.
  pub repo_rules : Repository → List String
  repo_rules repo = elim repo.lfs_suffix_rules [
    | none ↦ []
    | some text ↦ if str_eq text "" then [] else or_else (parse text) []
  ]

  unfoldable pub get_effective_lfs_suffix_rules : Repository → List String
  unfolding repo_rules merge
  get_effective_lfs_suffix_rules repo = merge cfg.lfs_suffix_rules_default (repo_rules repo)

  unfoldable pub should_use_lfs : Repository → String → ℕ → Bool
  unfolding get_effective_lfs_threshold
  should_use_lfs repo file_path file_size =
      leb (get_effective_lfs_threshold cfg repo) file_size
      || any (λ suffix. ends_with (lower suffix) (lower file_path))
          (get_effective_lfs_suffix_rules repo)

-- ===== src/Lfs/Rules/Choice.antt =====
-- When a file goes to LFS (`should_use_lfs` of src/kohakuhub/db_operations.py).
use kohaku_hub.Prelude.{
  ℕ, ◌≤◌, ◌≡◌, refl, sym, ◌∙◌, ◌↔◌, ◌⊎◌, inl, inr, String, Bool, true, Option, List, [], ◌∷◌, ◌++◌,
  any, Elem, Elem-append, arith, eq_iff, str_eq, Bool-cases, if◌then◌else◌, leb,
}
use mathlib.Core.Path.{subst}
use kohaku_hub.Config.{Config}
use kohaku_hub.Db.{Repository}
use kohaku_hub.Lfs.Rules.{
  get_effective_lfs_threshold, get_effective_lfs_suffix_rules, merge, repo_rules, ends_with,
  should_use_lfs,
}

any_iff :
    (p : String → Bool) (xs : List String)
    → (any p xs ≡ true) ↔ ((x : String) × Elem x xs × (p x ≡ true))
unfolding any
any_iff p [] = (λ h. absurd (ground arith), λ (x, e, _). elim e [ ])
any_iff p (y ∷ ys) =
    let (to, from) = any_iff p ys in
    (
      λ h. elim (Bool-cases (p y)) [
        | inl hit ↦ (y, inl refl, hit)
        | inr miss ↦ let (x, e, hit) = to (ground arith) in (x, inr e, hit)
      ],
      λ (x, e, hit). elim e [
        | inl same ↦ rw (← same) (rw hit)
        | inr later ↦ let rest = from (x, later, hit) in ground arith
      ],
    )

add_rule : String → List String → List String
add_rule rule effective = if any (str_eq rule) effective then effective else effective ++ rule ∷ []

add_rule_iff :
    (rule : String) (effective : List String) (x : String)
    → Elem x (add_rule rule effective) ↔ (Elem x effective ⊎ (x ≡ rule))
unfolding add_rule
add_rule_iff rule effective x = elim (Bool-cases (any (str_eq rule) effective)) [
  | inl present ↦
      let (y, e, hit) = (any_iff (str_eq rule) effective).0 present in
      let same : rule ≡ y = (eq_iff rule y).0 hit in
      rw present (
        inl,
        λ h. elim h [
          | inl old ↦ old
          | inr this ↦ subst (λ z. Elem z effective) (sym (this ∙ same)) e
        ],
      )
  | inr new ↦
      let (to, from) = Elem-append effective (rule ∷ []) x in
      rw new (
        λ h. elim (to h) [
          | inl old ↦ inl old
          | inr this ↦ elim this [ inl same ↦ inr same | inr no_rule ↦ absurd no_rule ]
        ],
        λ h. from (elim h [ inl old ↦ inl old | inr same ↦ inr (inl same) ]),
      )
]

-- The merged rules are those of the server and those of the repository.
merge_iff :
    (effective rules : List String) (x : String)
    → Elem x (merge effective rules) ↔ (Elem x effective ⊎ Elem x rules)
unfolding merge add_rule
merge_iff effective [] x = (inl, λ e. elim e [ inl old ↦ old | inr no_rule ↦ absurd no_rule ])
merge_iff effective (rule ∷ rules) x =
    let (to, from) = merge_iff (add_rule rule effective) rules x in
    let (to', from') = add_rule_iff rule effective x in
    (
      λ h. elim (to h) [
        | inl e ↦ elim (to' e) [ inl old ↦ inl old | inr same ↦ inr (inl same) ]
        | inr later ↦ inr (inr later)
      ],
      λ h. from (elim h [
        | inl old ↦ inl (from' (inl old))
        | inr own ↦ elim own [ inl same ↦ inl (from' (inr same)) | inr later ↦ inr later ]
      ]),
    )

module _ (lower : String → String) (parse : String → Option (List String)) (cfg : Config)
    (repo : Repository) (file_path : String) (file_size : ℕ) where
  -- The file's name ends, in lower case, as one of the rules says.
  abbrev pub EndsAs : List String → Type 0
  EndsAs rules =
      (rule : String) × Elem rule rules × (ends_with (lower rule) (lower file_path) ≡ true)

  -- A file goes to LFS exactly if it is at least as large as the threshold in force for the repository,
  -- or its name ends as a rule of the server or a rule of the repository says.
  pub should_use_lfs_iff : (should_use_lfs lower parse cfg repo file_path file_size ≡ true) ↔ (
      (get_effective_lfs_threshold cfg repo ≤ file_size)
      ⊎ EndsAs cfg.lfs_suffix_rules_default
      ⊎ EndsAs (repo_rules lower parse cfg repo))
  unfolding should_use_lfs get_effective_lfs_suffix_rules
  should_use_lfs_iff =
      let rules = repo_rules lower parse cfg repo in
      let hit : String → Bool = λ suffix. ends_with (lower suffix) (lower file_path) in
      let (to, from) = any_iff hit (merge cfg.lfs_suffix_rules_default rules) in
      (
        λ h. elim (Bool-cases (leb (get_effective_lfs_threshold cfg repo) file_size)) [
          | inl large ↦ inl (ground arith)
          | inr small ↦
              let (rule, e, ends) = to (ground arith) in
              elim ((merge_iff cfg.lfs_suffix_rules_default rules rule).0 e) [
                | inl server ↦ inr (inl (rule, server, ends))
                | inr own ↦ inr (inr (rule, own, ends))
              ]
        ],
        λ h. elim h [
          | inl large ↦ ground arith
          | inr named ↦ elim named [
            | inl (rule, e, ends) ↦
                let some_rule =
                  from
                    (rule, (merge_iff cfg.lfs_suffix_rules_default rules rule).1 (inl e), ends) in
                ground arith
            | inr (rule, e, ends) ↦
                let some_rule =
                  from
                    (rule, (merge_iff cfg.lfs_suffix_rules_default rules rule).1 (inr e), ends) in
                ground arith
          ]
        ],
      )

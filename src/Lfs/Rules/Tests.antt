-- ===== src/Lfs/Rules/Tests.antt =====
-- The choice of LFS at concrete settings.
use kohaku_hub.Prelude.{
  ◌≡◌, ◌≤◌, ◌↔◌, ◌⊎◌, refl, String, true, false, some, Option, [], ◌∷◌, List, any,
}
use kohaku_hub.Fixtures.{settings, bert}
use kohaku_hub.Lfs.Rules.{
  get_effective_lfs_threshold, get_effective_lfs_suffix_rules, should_use_lfs, ends_with,
  repo_rules,
}
use kohaku_hub.Lfs.Rules.Choice.{EndsAs, should_use_lfs_iff}

abbrev as_is : String → String
as_is text = text

abbrev two_rules : String → Option (List String)
two_rules text = some (".onnx" ∷ ".bin" ∷ [])

rules :
    (get_effective_lfs_suffix_rules as_is two_rules settings bert
      ≡ ".safetensors" ∷ ".bin" ∷ ".onnx" ∷ [])
    × (should_use_lfs as_is two_rules settings bert "a/w.onnx" 3 ≡ true)
    × (should_use_lfs as_is two_rules settings bert "a/readme.md" 3 ≡ false)
    × (should_use_lfs as_is two_rules settings bert "a/readme.md" 5000000 ≡ true)
unfolding should_use_lfs get_effective_lfs_suffix_rules ends_with any
rules = (refl, refl, refl, refl)

should_use_lfs_iff_example : (should_use_lfs as_is two_rules settings bert "a/w.onnx" 3 ≡ true) ↔ (
    (get_effective_lfs_threshold settings bert ≤ 3)
    ⊎ EndsAs as_is two_rules settings bert "a/w.onnx" 3 (".safetensors" ∷ ".bin" ∷ [])
    ⊎ EndsAs as_is two_rules settings bert "a/w.onnx" 3 (repo_rules as_is two_rules settings bert))
should_use_lfs_iff_example = should_use_lfs_iff as_is two_rules settings bert "a/w.onnx" 3

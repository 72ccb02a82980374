-- ===== src/Config.antt =====
-- The settings of src/kohakuhub/config.py that the modelled code reads (`cfg`).
use kohaku_hub.Prelude.{ℕ, String, Bool, Option, List}
use kohaku_hub.Prelude.Int.{ℤ}

pub record Config : Type 0 where
  pub default_user_private_quota_bytes : Option ℤ
  pub default_user_public_quota_bytes : Option ℤ
  pub default_org_private_quota_bytes : Option ℤ
  pub default_org_public_quota_bytes : Option ℤ
  pub lfs_threshold_bytes : ℕ
  pub lfs_keep_versions : ℕ
  pub lfs_suffix_rules_default : List String
  pub lfs_auto_gc : Bool

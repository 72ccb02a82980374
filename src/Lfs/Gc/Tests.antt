-- ===== src/Lfs/Gc/Tests.antt =====
-- The collection of old versions at concrete tables.
use kohaku_hub.Prelude.{
  ◌≡◌, ◌↔◌, List, ◌≢◌, ◌<◌, ◌-◌, ap, refl, inl, inr, String, Bool, true, none, some, [], ◌∷◌, Elem,
  any, keep, count, find?, length, arith,
}
use kohaku_hub.Fixtures.{settings, tables, bert, clip, file_row, version_row}
use kohaku_hub.Db.{LfsObjectHistory}
use kohaku_hub.Db.Queries.{get_repository}
use kohaku_hub.Lfs.Rules.{get_effective_lfs_keep_versions}
use kohaku_hub.Lfs.Gc.{
  Storage, versions, is_version, get_old_lfs_versions, cleanup_lfs_object, delete_object,
  run_gc_for_file,
}
use kohaku_hub.Lfs.Gc.Safety.{Uses, run_gc_for_file-Elem}
use kohaku_hub.Lfs.Gc.Order.{NoRepeat}
use kohaku_hub.Lfs.Gc.Oldest.{IsVersion, AsNew, get_old_lfs_versions_effect}
use kohaku_hub.Lfs.Gc.Versions.{newest_version_kept}
use kohaku_hub.Lfs.Gc.Sharing.{cleanup_ignores_other_repositories}

gc_tests : Unit {0}
unfolding run_gc_for_file get_repository get_effective_lfs_keep_versions get_old_lfs_versions
    versions cleanup_lfs_object delete_object any keep count find?
gc_tests = tt

abbrev always : String → Bool
always sha256 = true

abbrev before : Storage
before = record { db = tables; objects = "s1" ∷ "s2" ∷ "s3" ∷ "s4" ∷ "s9" ∷ [] }

-- Two old versions are deleted, the one that `clip` uses among them.
collected :
    ((run_gc_for_file always settings "model" "acme" "bert" "w.bin" before).0 ≡ 2)
    × ((run_gc_for_file always settings "model" "acme" "bert" "w.bin" before).1.objects
        ≡ "s3" ∷ "s4" ∷ "s9" ∷ [])
unfolding gc_tests
collected = (refl, refl)

found_bert : get_repository "model" "acme" "bert" tables ≡ some bert
unfolding gc_tests
found_bert = refl

abbrev in_use : Uses (some bert) "s4" tables
in_use = record {
  file = file_row 1 5 "w.bin" "s4";
  stored = inl refl;
  of_repo = refl;
  hash = refl;
  is_lfs = refl;
  active = refl;
}

run_gc_for_file-Elem_example :
    Elem "s4" (run_gc_for_file always settings "model" "acme" "bert" "w.bin" before).1.objects
run_gc_for_file-Elem_example =
    run_gc_for_file-Elem always settings "model" "acme" "bert" "w.bin" "s4" before bert found_bert
      in_use (inr (inr (inr (inl refl))))

cleanup_global_deletes : (cleanup_lfs_object always "s9" none before).0 ≡ true
unfolding gc_tests
cleanup_global_deletes = refl

abbrev in_use_elsewhere : Uses (some clip) "s1" tables
in_use_elsewhere = record {
  file = file_row 2 6 "w.bin" "s1";
  stored = inr (inl refl);
  of_repo = refl;
  hash = refl;
  is_lfs = refl;
  active = refl;
}

cleanup_ignores_other_repositories_example :
    ((cleanup_lfs_object always "s1" (some bert) before).0 ≡ true)
    × (¬ Elem "s1" (cleanup_lfs_object always "s1" (some bert) before).1.objects)
    × Uses (some clip) "s1" (cleanup_lfs_object always "s1" (some bert) before).1.db
unfolding count
cleanup_ignores_other_repositories_example =
    cleanup_ignores_other_repositories always "s1" bert clip before refl refl in_use_elsewhere

get_old_lfs_versions_effect_example :
    ((x : String)
      → Elem x (get_old_lfs_versions bert "w.bin" 2 tables)
      → IsVersion bert "w.bin" tables x)
    × NoRepeat (get_old_lfs_versions bert "w.bin" 2 tables)
    × ((all : List String) × NoRepeat all
        × ((x : String) → Elem x all ↔ IsVersion bert "w.bin" tables x)
        × (length (get_old_lfs_versions bert "w.bin" 2 tables) ≡ length all - 2))
    × ((x y : String)
        → Elem x (get_old_lfs_versions bert "w.bin" 2 tables)
        → IsVersion bert "w.bin" tables y
        → ¬ Elem y (get_old_lfs_versions bert "w.bin" 2 tables)
        → AsNew bert "w.bin" tables y x)
get_old_lfs_versions_effect_example = get_old_lfs_versions_effect bert "w.bin" tables 2

newest_is_newer :
    (r : LfsObjectHistory)
    → Elem r tables.lfs_history
    → is_version bert "w.bin" r ≡ true
    → r.sha256 ≢ "s4"
    → r.created_at < 40
newest_is_newer r (inl e) version other = rw e (omega arith)
newest_is_newer r (inr (inl e)) version other = rw e (omega arith)
newest_is_newer r (inr (inr (inl e))) version other = rw e (omega arith)
newest_is_newer r (inr (inr (inr (inl e)))) version other = rw e (omega arith)
newest_is_newer r (inr (inr (inr (inr (inl e))))) version other =
    absurd (other (ap (λ (h : LfsObjectHistory). h.sha256) e))
newest_is_newer r (inr (inr (inr (inr (inr no_row))))) version other = elim no_row [ ]

newest_version_kept_example : ¬ Elem "s4" (get_old_lfs_versions bert "w.bin" 2 tables)
newest_version_kept_example =
    newest_version_kept bert "w.bin" tables 2 (version_row 5 "s4" 40) (omega arith)
      (inr (inr (inr (inr (inl refl))))) refl newest_is_newer

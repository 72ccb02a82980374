-- ===== src/Quota/Calculate/Tests.antt =====
-- The recomputation of the used bytes over a listing of two pages.
use kohaku_hub.Prelude.{
  ℕ, ◌≡◌, ◌+◌, refl, String, true, false, some, [], ◌∷◌, arith, any, not, keep, str_eq,
  if◌then◌else◌,
}
use kohaku_hub.Fixtures.{tables, bert}
use kohaku_hub.Quota.Calculate.{
  Entry, Page, Lister, Stats, calculate_repository_storage, count_pages, count_page, is_lfs,
  sum_sizes, distinct, history_of,
}
use kohaku_hub.Quota.Calculate.Listing.{
  Lists, last, more, bytes_where, all_entries, calculate_repository_storage_total,
}
use kohaku_hub.Db.{Db}
use kohaku_hub.Prelude.{true}

abbrev object : String → ℕ → Entry
object path size = record { path_type = "object"; path = some path; size_bytes = some size }

abbrev first_page : Page
first_page = record { results = object "w.bin" 20 ∷ []; has_more = true; next_offset = "w.bin" }

abbrev second_page : Page
second_page = record { results = object "z.txt" 7 ∷ []; has_more = false; next_offset = "" }

abbrev two_pages : Lister
two_pages after = if str_eq after "" then some first_page else some second_page

listed : Lists two_pages "" 2 (object "w.bin" 20 ∷ object "z.txt" 7 ∷ [])
listed = more first_page refl refl (last second_page refl refl)

computed :
    calculate_repository_storage 2 two_pages bert tables
    ≡ some (record {
      total_bytes = 87;
      current_branch_bytes = 27;
      current_branch_non_lfs_bytes = 7;
      lfs_total_bytes = 80;
      lfs_unique_bytes = 80;
    })
unfolding calculate_repository_storage count_pages count_page sum_sizes distinct any keep
computed = refl

calculate_repository_storage_total_example :
    (stats : Stats) × (calculate_repository_storage 2 two_pages bert tables ≡ some stats)
    × (stats.current_branch_bytes
        ≡ bytes_where all_entries (object "w.bin" 20 ∷ object "z.txt" 7 ∷ []))
    × (stats.total_bytes
        ≡ bytes_where
            (λ obj. not (is_lfs bert.id tables.files obj))
            (object "w.bin" 20 ∷ object "z.txt" 7 ∷ [])
          + sum_sizes (distinct (history_of bert tables)))
calculate_repository_storage_total_example =
    calculate_repository_storage_total two_pages bert tables 2 listed (omega arith)

-- ===== src/Quota/Calculate/Listing.antt =====
-- What the loop over the pages of a LakeFS listing counts (src/kohakuhub/api/quota/util.py).
use kohaku_hub.Prelude.{
  ℕ, zero, suc, ◌+◌, ◌≤◌, ◌≡◌, ◌∙◌, ap, String, Bool, true, false, some, List, [], ◌∷◌, ◌++◌, arith,
  not, if◌then◌else◌,
}
use kohaku_hub.Db.{Db, Repository}
use kohaku_hub.Quota.Calculate.{
  Entry, Page, Lister, size_of, is_object, is_lfs, Counted, count_entry, count_page, count_pages,
  sum_sizes, distinct, history_of, Stats, stats_of, calculate_repository_storage,
}

-- From the offset on the service lists these entries, on that many pages.
pub data Lists (list_objects : Lister) : String → ℕ → List Entry → Type 0 where
  last :
      {after : String} (page : Page)
      → list_objects after ≡ some page
      → page.has_more ≡ false
      → Lists list_objects after 1 page.results
  more :
      {after : String} {pages : ℕ} {rest : List Entry} (page : Page)
      → list_objects after ≡ some page
      → page.has_more ≡ true
      → Lists list_objects page.next_offset pages rest
      → Lists list_objects after (suc pages) (page.results ++ rest)

-- The bytes of the objects among the entries that pass the test.
unfoldable pub bytes_where : (Entry → Bool) → List Entry → ℕ
bytes_where p [] = 0
bytes_where p (obj ∷ rest) =
    (if is_object obj then (if p obj then size_of obj else 0) else 0) + bytes_where p rest

abbrev pub all_entries : Entry → Bool
all_entries _ = true

add : (Entry → Bool) → List Entry → Counted → Counted
add lfs entries c = record {
  branch_bytes = c.branch_bytes + bytes_where all_entries entries;
  lfs_bytes = c.lfs_bytes + bytes_where lfs entries;
}

count_page-add :
    (lfs : Entry → Bool) (entries : List Entry) (c : Counted)
    → count_page lfs entries c ≡ add lfs entries c
unfolding count_page add bytes_where
count_page-add lfs [] c = ground arith
count_page-add lfs (obj ∷ rest) c = ground (arith, count_page-add lfs rest (count_entry lfs obj c))

bytes_where-append :
    (p : Entry → Bool) (xs ys : List Entry)
    → bytes_where p (xs ++ ys) ≡ bytes_where p xs + bytes_where p ys
unfolding bytes_where
bytes_where-append p [] ys = omega arith
bytes_where-append p (x ∷ xs) ys = omega (arith, bytes_where-append p xs ys)

bytes_where-le :
    (p : Entry → Bool) (xs : List Entry) → bytes_where p xs ≤ bytes_where all_entries xs
unfolding bytes_where
bytes_where-le p [] = omega arith
bytes_where-le p (x ∷ xs) = ground (arith, bytes_where-le p xs)

not_lfs : (Entry → Bool) → Entry → Bool
not_lfs lfs obj = not (lfs obj)

bytes_where-split :
    (p : Entry → Bool) (xs : List Entry)
    → bytes_where p xs + bytes_where (not_lfs p) xs ≡ bytes_where all_entries xs
unfolding bytes_where not_lfs
bytes_where-split p [] = omega arith
bytes_where-split p (x ∷ xs) = ground (arith, bytes_where-split p xs)

add-append :
    (lfs : Entry → Bool) (xs ys : List Entry) (c : Counted)
    → add lfs ys (add lfs xs c) ≡ add lfs (xs ++ ys) c
unfolding add
add-append lfs xs ys c =
    ground (arith, bytes_where-append all_entries xs ys, bytes_where-append lfs xs ys)

-- With one unit of fuel for a page the loop ends, and it has counted each entry once.
count_pages-Lists :
    (list_objects : Lister) (lfs : Entry → Bool) (fuel : ℕ) (c : Counted) {after : String}
    {pages : ℕ} {entries : List Entry}
    → Lists list_objects after pages entries
    → pages ≤ fuel
    → count_pages fuel list_objects lfs after c ≡ some (add lfs entries c)
unfolding count_pages
count_pages-Lists list_objects lfs zero c (last page e h) le = absurd (omega arith)
count_pages-Lists list_objects lfs zero c (more page e h rest) le = absurd (omega arith)
count_pages-Lists list_objects lfs (suc fuel) c (last page e h) le =
    rw (e, count_pages) (rw h (ap (λ (d : Counted). some d) (count_page-add lfs page.results c)))
count_pages-Lists list_objects lfs (suc fuel) c (more {rest = rest} page e h later) le =
    rw (e, count_pages)
      (rw h (
        count_pages-Lists list_objects lfs fuel (count_page lfs page.results c) later (omega arith)
        ∙ ap (λ (d : Counted). some (add lfs rest d)) (count_page-add lfs page.results c)
        ∙ ap (λ (d : Counted). some d) (add-append lfs page.results rest c)))

-- Where LakeFS lists the main branch on some number of pages, that much fuel is enough, and the storage
-- of a repository is computed: the bytes of the branch are those of all its objects, and the total is
-- the bytes of its objects that are not LFS files, with those of the distinct LFS objects of the whole
-- history.
pub calculate_repository_storage_total :
    (list_objects : Lister) (repo : Repository) (db : Db) (fuel : ℕ) {pages : ℕ}
    {entries : List Entry}
    → Lists list_objects "" pages entries
    → pages ≤ fuel
    → (stats : Stats) × (calculate_repository_storage fuel list_objects repo db ≡ some stats)
      × (stats.current_branch_bytes ≡ bytes_where all_entries entries)
      × (stats.total_bytes
          ≡ bytes_where (λ obj. not (is_lfs repo.id db.files obj)) entries
            + sum_sizes (distinct (history_of repo db)))
unfolding calculate_repository_storage add not_lfs
calculate_repository_storage_total list_objects repo db fuel {entries = entries} listed le =
    let lfs = is_lfs repo.id db.files in
    let done =
      count_pages-Lists list_objects lfs fuel (record { branch_bytes = 0; lfs_bytes = 0 }) listed
        le in
    let split = bytes_where-split lfs entries in
    (
      stats_of (history_of repo db) (add lfs entries (record { branch_bytes = 0; lfs_bytes = 0 })),
      rw done,
      omega arith,
      omega (arith, split),
    )

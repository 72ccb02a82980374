-- ===== src/Quota/Calculate.antt =====
-- Recomputing the used bytes: the `calculate_…` and `update_…` functions of
-- src/kohakuhub/api/quota/util.py. The listing of a LakeFS branch is a service: `list_objects` is its
-- answer at an offset, `none` where the call raises, which ends the loop with what was counted so far.
-- The loop over the pages takes fuel; `none` means that the fuel ran out.
pub mod Listing
pub mod Unique
pub mod Namespace
mod Tests
use mathlib.Core.Option
use kohaku_hub.Prelude.{
  ℕ, zero, suc, ◌+◌, ◌-◌, String, Bool, true, false, ◌&&◌, not, Option, none, some, List, [], ◌∷◌,
  keep, any, ◌==◌, str_eq, if◌then◌else◌,
}
use kohaku_hub.Prelude.Int.{ℤ, pos}
use kohaku_hub.Db.{Db, Repository, File, LfsObjectHistory, User}
use kohaku_hub.Db.Queries.{save_user, save_repository}
use kohaku_hub.Http.{Result, ok, err, does_not_exist}
use kohaku_hub.Quota.{entity_or_none}

-- An entry of a listing; `path` and `size_bytes` may be missing.
pub record Entry : Type 0 where
  pub path_type : String
  pub path : Option String
  pub size_bytes : Option ℕ

pub record Page : Type 0 where
  pub results : List Entry
  pub has_more : Bool
  pub next_offset : String

abbrev pub Lister : Type 0
Lister = String → Option Page

-- `obj.get("size_bytes") or 0`
abbrev pub size_of : Entry → ℕ
size_of obj = elim obj.size_bytes [ none ↦ 0 | some size ↦ size ]

-- The dictionary from path to LFS flag over the active files of the repository: the last row counts.
unfoldable pub flag : ℕ → String → List File → Option Bool
flag repo path [] = none
flag repo path (f ∷ files) =
    let later = flag repo path files in
    let here =
      if f.repository == repo && str_eq f.path_in_repo path && not f.is_deleted
      then some f.lfs
      else none in
    elim later [ none ↦ here | some b ↦ some b ]

-- `file_is_lfs.get(obj.get("path"), False)`
unfoldable pub is_lfs : ℕ → List File → Entry → Bool
unfolding flag
is_lfs repo files obj = elim obj.path [
  | none ↦ false
  | some path ↦ elim (flag repo path files) [ none ↦ false | some b ↦ b ]
]

-- The two counters of the loop.
pub record Counted : Type 0 where
  pub branch_bytes : ℕ
  pub lfs_bytes : ℕ

abbrev pub is_object : Entry → Bool
is_object obj = str_eq obj.path_type "object"

-- One turn of the loop over the entries of a page.
abbrev pub count_entry : (Entry → Bool) → Entry → Counted → Counted
count_entry lfs obj c =
    if is_object obj
    then record {
      branch_bytes = c.branch_bytes + size_of obj;
      lfs_bytes = if lfs obj then c.lfs_bytes + size_of obj else c.lfs_bytes;
    }
    else c

unfoldable pub count_page : (Entry → Bool) → List Entry → Counted → Counted
count_page lfs [] c = c
count_page lfs (obj ∷ results) c = count_page lfs results (count_entry lfs obj c)

unfoldable pub count_pages : ℕ → Lister → (Entry → Bool) → String → Counted → Option Counted
count_pages zero list_objects lfs after c = none
count_pages (suc fuel) list_objects lfs after c = elim (list_objects after) [
  | none ↦ some c
  | some page ↦ elim page.has_more [
    | true ↦ count_pages fuel list_objects lfs page.next_offset (count_page lfs page.results c)
    | false ↦ some (count_page lfs page.results c)
  ]
]

unfoldable pub sum_sizes : List LfsObjectHistory → ℕ
sum_sizes [] = 0
sum_sizes (h ∷ rows) = h.size + sum_sizes rows

-- The row has the same (sha256, size) pair.
abbrev pub same_object : LfsObjectHistory → LfsObjectHistory → Bool
same_object a b = str_eq a.sha256 b.sha256 && a.size == b.size

-- SELECT DISTINCT sha256, size: of the rows with one pair, the last is kept.
unfoldable pub distinct : List LfsObjectHistory → List LfsObjectHistory
distinct [] = []
distinct (h ∷ rows) =
    let rest = distinct rows in if any (same_object h) rows then rest else h ∷ rest

abbrev pub history_of : Repository → Db → List LfsObjectHistory
history_of repo db = keep (λ h. h.repository == repo.id) db.lfs_history

pub record Stats : Type 0 where
  pub total_bytes : ℕ
  pub current_branch_bytes : ℕ
  pub current_branch_non_lfs_bytes : ℕ
  pub lfs_total_bytes : ℕ
  pub lfs_unique_bytes : ℕ

abbrev pub stats_of : List LfsObjectHistory → Counted → Stats
stats_of history c =
    let non_lfs = c.branch_bytes - c.lfs_bytes in
    record {
      total_bytes = non_lfs + sum_sizes (distinct history);
      current_branch_bytes = c.branch_bytes;
      current_branch_non_lfs_bytes = non_lfs;
      lfs_total_bytes = sum_sizes history;
      lfs_unique_bytes = sum_sizes (distinct history);
    }

abbrev map_stats : List LfsObjectHistory → Option Counted → Option Stats
map_stats history none = none
map_stats history (some c) = some (stats_of history c)

unfoldable pub calculate_repository_storage : ℕ → Lister → Repository → Db → Option Stats
unfolding is_lfs
calculate_repository_storage fuel list_objects repo db = map_stats (history_of repo db) (
    count_pages fuel list_objects (is_lfs repo.id db.files) ""
      (record { branch_bytes = 0; lfs_bytes = 0 }))

-- `update_repository_storage`: the row gets the recomputed total.
unfoldable pub update_repository_storage : ℕ → Lister → Repository → Db → Option (Stats × Db)
update_repository_storage fuel list_objects repo db =
    elim (calculate_repository_storage fuel list_objects repo db) [
      | none ↦ none
      | some stats ↦
          some (stats, save_repository (record repo { used_bytes = pos stats.total_bytes }) db)
    ]

-- The sum of the totals of the repositories that pass the test. Each has a listing of its own.
unfoldable pub sum_totals :
    ℕ → (Repository → Lister) → (Repository → Bool) → Db → List Repository → Option ℕ
sum_totals fuel listings p db [] = some 0
sum_totals fuel listings p db (repo ∷ repos) =
    let rest = sum_totals fuel listings p db repos in
    if p repo
    then elim (calculate_repository_storage fuel (listings repo) repo db) [
      | none ↦ none
      | some stats ↦ Option.map (λ n. stats.total_bytes + n) rest
    ]
    else rest

pub record NamespaceStorage : Type 0 where
  pub private_bytes : ℕ
  pub public_bytes : ℕ
  pub total_bytes : ℕ

abbrev pub both : Option ℕ → Option ℕ → Option NamespaceStorage
both none public_bytes = none
both (some private_bytes) none = none
both (some private_bytes) (some public_bytes) = some (record {
  private_bytes = private_bytes;
  public_bytes = public_bytes;
  total_bytes = private_bytes + public_bytes;
})

unfoldable pub calculate_namespace_storage :
    ℕ → (Repository → Lister) → String → Db → Option NamespaceStorage
calculate_namespace_storage fuel listings namespace db =
    let repos = keep (λ r. str_eq r.namespace namespace) db.repositories in
    both (sum_totals fuel listings (λ r. r.private) db repos)
      (sum_totals fuel listings (λ r. not r.private) db repos)

write_storage : NamespaceStorage → String → Bool → Db → Result (NamespaceStorage × Db)
write_storage storage namespace is_org db = elim (entity_or_none namespace is_org db) [
  | none ↦ if is_org then ok (storage, db) else err does_not_exist
  | some user ↦ ok (
    storage,
    save_user
        (record user {
          private_used_bytes = pos storage.private_bytes;
          public_used_bytes = pos storage.public_bytes;
        })
        db,
  )
]

-- The new counts are written to the namespace's row; `entity` is None for an organization that is
-- not there, and then nothing is written, and raises for a user who is not.
unfoldable pub update_namespace_storage :
    ℕ → (Repository → Lister) → String → Bool → Db → Option (Result (NamespaceStorage × Db))
unfolding write_storage
update_namespace_storage fuel listings namespace is_org db =
    Option.map (λ storage. write_storage storage namespace is_org db)
      (calculate_namespace_storage fuel listings namespace db)

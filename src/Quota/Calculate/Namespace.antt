-- ===== src/Quota/Calculate/Namespace.antt =====
-- The recomputed usage of a namespace: `calculate_namespace_storage` and `update_namespace_storage` of
-- src/kohakuhub/api/quota/util.py.
use kohaku_hub.Prelude.{ℕ, ◌+◌, ◌≡◌, ◌≤◌, String, true, not, some, List, keep, str_eq}
use kohaku_hub.Prelude.Int.{pos}
use kohaku_hub.Db.{Db, User, Repository}
use kohaku_hub.Quota.Calculate.{Lister, Entry, NamespaceStorage, sum_totals}
use kohaku_hub.Quota.Calculate.Listing.{Lists}

-- A complete listing of the repository in at most so many pages.
abbrev pub ListedWithin : ℕ → Lister → Type 0
ListedWithin fuel list_objects =
    (pages : ℕ) × (entries : List Entry) × Lists list_objects "" pages entries × (pages ≤ fuel)

abbrev pub of_namespace : String → Db → List Repository
of_namespace namespace db = keep (λ r. str_eq r.namespace namespace) db.repositories

module _ (fuel : ℕ) (listings : Repository → Lister) (db : Db) where
  -- The two sums over some repositories, and the sum over all of them.
  record Sums (repos : List Repository) : Type 0 where
    private_bytes : ℕ
    public_bytes : ℕ
    is_private : sum_totals fuel listings (λ r. r.private) db repos ≡ some private_bytes
    is_public : sum_totals fuel listings (λ r. not r.private) db repos ≡ some public_bytes
    all : sum_totals fuel listings (λ r. true) db repos ≡ some (private_bytes + public_bytes)

-- The namespace's row with the new counts.
abbrev pub recounted : User → NamespaceStorage → User
recounted user storage = record user {
  private_used_bytes = pos storage.private_bytes;
  public_used_bytes = pos storage.public_bytes;
}

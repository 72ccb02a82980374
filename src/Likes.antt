-- ===== src/Likes.antt =====
-- src/kohakuhub/api/likes.py: liking and unliking a repository, with the row operations of
-- src/kohakuhub/db_operations.py on likes. The number of likes stands in the repository's row as well.
-- `like_write` is the transaction at the end of `like_repository`, with the row that was read before it.
pub mod Counting
pub mod Effect
pub mod Race
mod Tests
use kohaku_hub.Prelude.{
  ℕ, suc, ◌+◌, ◌-◌, String, Bool, true, false, ◌&&◌, not, Option, none, some, List, [], ◌∷◌, ◌++◌,
  find?, keep, any, count, ◌==◌, str_eq, if◌then◌else◌,
}
use kohaku_hub.Http.{
  Result, ok, err, ◌>>=◌, ◌>>◌, http, hf_repo_not_found, integrity_error, require, found, absent,
}
use kohaku_hub.Db.{Db, User, Repository, RepositoryLike}
use kohaku_hub.Db.Queries.{get_repository, save_repository}
use kohaku_hub.Auth.Permissions.{check_repo_read_permission, ◌+s◌}

-- the row of the unique (repository, user) index
abbrev pub is_like : ℕ → ℕ → RepositoryLike → Bool
is_like repo user l = l.repository == repo && l.user == user

unfoldable pub get_repository_like : Repository → User → Db → Option RepositoryLike
get_repository_like repo user db = find? (is_like repo.id user.id) db.likes

unfoldable pub create_repository_like : Repository → User → Db → Result Db
create_repository_like repo user db =
    if any (is_like repo.id user.id) db.likes
    then err integrity_error
    else ok (record db { likes = db.likes ++ record { repository = repo.id; user = user.id } ∷ [] })

-- The number of deleted rows, and the tables without them.
unfoldable pub delete_repository_like : Repository → User → Db → ℕ × Db
delete_repository_like repo user db = (
  count (is_like repo.id user.id) db.likes,
  record db { likes = keep (λ l. not (is_like repo.id user.id l)) db.likes },
)

abbrev pub with_likes : Repository → ℕ → Repository
with_likes repo new_count = record repo { likes_count = new_count }

unfoldable pub like_write : Repository → User → Db → Result (ℕ × Db)
like_write repo user db = do
  db' ← create_repository_like repo user db
  let new_count = repo.likes_count + 1
  ok (new_count, save_repository (with_likes repo new_count) db')

abbrev pub repo_id : String → String → String
repo_id namespace name = namespace +s "/" +s name

unfoldable pub like_repository : (repo_type namespace name : String) → User → Db → Result (ℕ × Db)
like_repository repo_type namespace name user db = do
  repo ←
      found (get_repository repo_type namespace name db)
        (hf_repo_not_found (repo_id namespace name) repo_type)
  _ ← check_repo_read_permission repo (some user) false db
  absent (get_repository_like repo user db) (http 400 "Repository already liked")
  like_write repo user db

unfoldable pub unlike_repository : (repo_type namespace name : String) → User → Db → Result (ℕ × Db)
unlike_repository repo_type namespace name user db = do
  repo ←
      found (get_repository repo_type namespace name db)
        (hf_repo_not_found (repo_id namespace name) repo_type)
  let (deleted, db') = delete_repository_like repo user db
  require (not (deleted == 0)) (http 400 "Repository not liked")
  let new_count = repo.likes_count - 1
  ok (new_count, save_repository (with_likes repo new_count) db')

-- ===== src/Likes/Race.antt =====
-- The reading and the writing of the number of likes in src/kohakuhub/api/likes.py, interleaved.
use kohaku_hub.Prelude.{ℕ, ◌+◌, ◌≡◌, ◌∙◌, Elem, count, arith}
use kohaku_hub.Http.{Result, ok, ◌>>=◌, bind_ok}
use kohaku_hub.Db.{Db, User, Repository}
use kohaku_hub.Likes.{like_write}
use kohaku_hub.Likes.Counting.{of_repo, like_write_adds}

-- Two requests that read the repository's row before either of them writes, as two workers may.
unfoldable pub both_like : Repository → User → User → Db → Result (ℕ × Db)
both_like repo first second db = do (n, db') ← like_write repo first db; like_write repo second db'

-- When two requests to like a repository read its row before either writes, and both succeed, there
-- are two more likes, but the second answers, and the repository's row has at the end, a count that is
-- only one more than the one that was read.
pub both_like_loses :
    (repo : Repository) (first second : User) (db : Db) {db' : Db} {n : ℕ}
    → both_like repo first second db ≡ ok (n, db')
    → (n ≡ repo.likes_count + 1)
      × ((r : Repository)
          → Elem r db'.repositories
          → r.id ≡ repo.id
          → r.likes_count ≡ repo.likes_count + 1)
      × (count (of_repo repo.id) db'.likes ≡ count (of_repo repo.id) db.likes + 2)
unfolding both_like
both_like_loses repo first second db h =
    let ((n, db'), one, two) = bind_ok (like_write repo first db) _ h in
    let (_, _, more) = like_write_adds repo first db one in
    let (stored, same, more') = like_write_adds repo second db' two in
    (same, λ r e this. stored r e this ∙ same, omega arith)

-- ===== src/Likes/Effect.antt =====
-- What `like_repository` and `unlike_repository` of src/kohakuhub/api/likes.py leave behind.
use kohaku_hub.Prelude.{
  ℕ, ◌-◌, ◌≡◌, ◌≢◌, String, not, some, keep, count, arith, Option-cases, inl, inr,
}
use kohaku_hub.Http.{ok}
use kohaku_hub.Db.{Db, User, Repository}
use kohaku_hub.Db.Queries.{get_repository, save_repository}
use kohaku_hub.Likes.{
  is_like, delete_repository_like, like_write, like_repository, unlike_repository,
}
use kohaku_hub.Likes.Counting.{
  Counted, of_repo, recounted, recounted-Counted, count-keep_others, count-keep_le, count-keep_rest,
  get_repository-Elem, like_write-Counted,
}

module _ (repo_type namespace name : String) (user : User) (db : Db) {db' : Db} {n : ℕ} where
  like_repository_cases :
      like_repository repo_type namespace name user db ≡ ok (n, db')
      → (repo : Repository) × (get_repository repo_type namespace name db ≡ some repo)
        × (like_write repo user db ≡ ok (n, db'))
  unfolding like_repository
  like_repository_cases h = elim (Option-cases (get_repository repo_type namespace name db)) [
    | inl missing ↦ absurd (ground arith)
    | inr (repo, stored) ↦ (repo, stored, ground arith)
  ]

  -- Where every repository's row has the number of its likes, a successful like keeps that for all
  -- repositories, answers that number, and leaves exactly one like of the caller.
  pub like_repository-Counted :
      Counted db
      → like_repository repo_type namespace name user db ≡ ok (n, db')
      → (repo : Repository) × (get_repository repo_type namespace name db ≡ some repo)
        × Counted db'
        × (n ≡ count (of_repo repo.id) db'.likes)
        × (count (is_like repo.id user.id) db'.likes ≡ 1)
  like_repository-Counted counted h =
      let (repo, stored, write) = like_repository_cases h in
      let e = get_repository-Elem repo_type namespace name db repo stored in
      let (counted', total, mine) = like_write-Counted repo user db e counted write in
      (repo, stored, counted', total, mine)

  unlike_repository_cases :
      unlike_repository repo_type namespace name user db ≡ ok (n, db')
      → (repo : Repository) × (get_repository repo_type namespace name db ≡ some repo)
        × (count (is_like repo.id user.id) db.likes ≢ 0)
        × (n ≡ repo.likes_count - 1)
        × (recounted repo n (keep (λ l. not (is_like repo.id user.id l)) db.likes) db ≡ db')
  unfolding unlike_repository delete_repository_like
  unlike_repository_cases h = elim (Option-cases (get_repository repo_type namespace name db)) [
    | inl missing ↦ absurd (ground arith)
    | inr (repo, stored) ↦ (repo, stored, ground arith, ground arith, ground arith)
  ]

  -- Where every repository's row has the number of its likes, a successful removal of a like keeps
  -- that for all repositories, answers that number, and leaves no like of the caller.
  pub unlike_repository-Counted :
      Counted db
      → unlike_repository repo_type namespace name user db ≡ ok (n, db')
      → (repo : Repository) × (get_repository repo_type namespace name db ≡ some repo)
        × Counted db'
        × (n ≡ count (of_repo repo.id) db'.likes)
        × (count (is_like repo.id user.id) db'.likes ≡ 0)
  unfolding save_repository
  unlike_repository-Counted counted h =
      let (repo, stored, some_like, less, done) = unlike_repository_cases h in
      let e = get_repository-Elem repo_type namespace name db repo stored in
      let mine = is_like repo.id user.id in
      let rest = keep (λ l. not (is_like repo.id user.id l)) db.likes in
      let removed = λ (r : ℕ). count-keep_others repo.id user.id r db.likes in
      let total : n ≡ count (of_repo repo.id) rest =
        ground (arith, counted.counts repo e, counted.once repo.id user.id, removed repo.id) in
      let counted' =
        recounted-Counted repo n rest db counted total (λ r other. ground (arith, removed r))
          (λ r u.
            omega (
              arith,
              counted.once r u,
              count-keep_le (is_like r u) (λ l. not (mine l)) db.likes,
            )) in
      rw (← done) (repo, stored, counted', total, count-keep_rest mine db.likes)

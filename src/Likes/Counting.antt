-- ===== src/Likes/Counting.antt =====
-- The number of likes in a repository's row is the number of its likes (src/kohakuhub/api/likes.py).
use kohaku_hub.Prelude.{
  ℕ, ◌+◌, ◌≤◌, ◌≡◌, ◌≢◌, ◌⊎◌, refl, sym, ap, ◌∙◌, String, Bool, false, not, some, List, [], ◌∷◌,
  ◌++◌, Elem, Elem-map, find?-Elem, keep, any, count, count-append, arith, ◌==◌, if◌then◌else◌,
  Bool-cases, inl, inr,
}
use mathlib.Core.Path.{subst}
use kohaku_hub.Http.{ok}
use kohaku_hub.Db.{Db, User, Repository, RepositoryLike}
use kohaku_hub.Db.Queries.{get_repository, save_repository}
use kohaku_hub.Likes.{is_like, create_repository_like, with_likes, like_write}

abbrev pub of_repo : ℕ → RepositoryLike → Bool
of_repo repo l = l.repository == repo

-- Each repository's row has the number of its likes, and no user likes a repository twice.
pub record Counted (db : Db) : Type 0 where
  pub counts :
      (r : Repository) → Elem r db.repositories → r.likes_count ≡ count (of_repo r.id) db.likes
  pub once : (repo user : ℕ) → count (is_like repo user) db.likes ≤ 1

count-of_any : {A : Type 0} (p : A → Bool) (xs : List A) → any p xs ≡ false → count p xs ≡ 0
unfolding any count
count-of_any p [] h = refl
count-of_any p (x ∷ xs) h = ground (arith, count-of_any p xs)

count-one : {A : Type 0} (p : A → Bool) (x : A) → count p (x ∷ []) ≡ (if p x then 1 else 0)
unfolding count
count-one p x = ground arith

-- The rows of a repository without those of one user.
pub count-keep_others :
    (repo user r : ℕ) (xs : List RepositoryLike)
    → count (of_repo r) (keep (λ l. not (is_like repo user l)) xs)
        + (if repo == r then count (is_like repo user) xs else 0)
      ≡ count (of_repo r) xs
unfolding count keep
count-keep_others repo user r [] = ground arith
count-keep_others repo user r (l ∷ xs) = ground (arith, count-keep_others repo user r xs)

pub count-keep_le : {A : Type 0} (p q : A → Bool) (xs : List A) → count p (keep q xs) ≤ count p xs
unfolding count keep
count-keep_le p q [] = omega arith
count-keep_le p q (x ∷ xs) = ground (arith, count-keep_le p q xs)

pub count-keep_rest :
    {A : Type 0} (p : A → Bool) (xs : List A) → count p (keep (λ x. not (p x)) xs) ≡ 0
unfolding count keep
count-keep_rest p [] = refl
count-keep_rest p (x ∷ xs) = ground (arith, count-keep_rest p xs)

-- A row of the saved tables is the saved one, or another that stood there.
save_repository-Elem :
    (repo r : Repository) (db : Db)
    → Elem r (save_repository repo db).repositories
    → (r ≡ repo) ⊎ ((r.id ≢ repo.id) × Elem r db.repositories)
unfolding save_repository
save_repository-Elem repo r db e =
    let (x, at, same) = Elem-map (λ r. if r.id == repo.id then repo else r) db.repositories r e in
    elim (Bool-cases (x.id == repo.id)) [
      | inl hit ↦ inl (rw hit at same)
      | inr miss ↦ let this : r ≡ x = rw miss at same in inr (rw this (ground arith), rw this at)
    ]

pub get_repository-Elem :
    (repo_type namespace name : String) (db : Db) (repo : Repository)
    → get_repository repo_type namespace name db ≡ some repo
    → Elem repo db.repositories
unfolding get_repository
get_repository-Elem repo_type namespace name db repo h = find?-Elem _ db.repositories repo h

-- The tables with the rows of likes and with a new count in one repository's row.
abbrev pub recounted : Repository → ℕ → List RepositoryLike → Db → Db
recounted repo new_count rows db =
    save_repository (with_likes repo new_count) (record db { likes = rows })

pub recounted-Counted :
    (repo : Repository) (new_count : ℕ) (rows : List RepositoryLike) (db : Db)
    → Counted db
    → new_count ≡ count (of_repo repo.id) rows
    → ((r : ℕ) → r ≢ repo.id → count (of_repo r) rows ≡ count (of_repo r) db.likes)
    → ((r u : ℕ) → count (is_like r u) rows ≤ 1)
    → Counted (recounted repo new_count rows db)
unfolding save_repository
recounted-Counted repo new_count rows db counted this others once = record {
  counts = λ r e.
      elim (save_repository-Elem (with_likes repo new_count) r (record db { likes = rows }) e) [
        | inl same ↦ rw same this
        | inr (other, stored) ↦ counted.counts r stored ∙ sym (others r.id other)
      ];
  once = once;
}

module _ (repo : Repository) (user : User) (db : Db) {db' : Db} {n : ℕ} where
  like_write_cases :
      like_write repo user db ≡ ok (n, db')
      → (any (is_like repo.id user.id) db.likes ≡ false)
        × (n ≡ repo.likes_count + 1)
        × (recounted repo n (db.likes ++ record { repository = repo.id; user = user.id } ∷ []) db
            ≡ db')
  unfolding like_write create_repository_like
  like_write_cases h = elim (Bool-cases (any (is_like repo.id user.id) db.likes)) [
    | inl taken ↦ absurd (ground arith)
    | inr free ↦ (free, ground arith, ground arith)
  ]

  pub like_write-Counted :
      Elem repo db.repositories
      → Counted db
      → like_write repo user db ≡ ok (n, db')
      → Counted db'
        × (n ≡ count (of_repo repo.id) db'.likes)
        × (count (is_like repo.id user.id) db'.likes ≡ 1)
  unfolding save_repository
  like_write-Counted stored counted h =
      let (free, more, done) = like_write_cases h in
      let row : RepositoryLike = record { repository = repo.id; user = user.id } in
      let added : (p : RepositoryLike → Bool)
          → count p (db.likes ++ row ∷ []) ≡ count p db.likes + (if p row then 1 else 0) =
        λ p.
          count-append p db.likes (row ∷ []) ∙ ap (λ k. count p db.likes + k) (count-one p row) in
      let none_yet = count-of_any (is_like repo.id user.id) db.likes free in
      let total : n ≡ count (of_repo repo.id) (db.likes ++ row ∷ []) =
        ground (arith, counted.counts repo stored, added (of_repo repo.id)) in
      let one_each : (r u : ℕ) → count (is_like r u) (db.likes ++ row ∷ []) ≤ 1 = λ r u.
        elim (Bool-cases (is_like r u row)) [
          | inl hit ↦
              let er : repo.id ≡ r = ground arith in
              let eu : user.id ≡ u = ground arith in
              rw (← er, ← eu) (ground (arith, added (is_like repo.id user.id)))
          | inr miss ↦ ground (arith, added (is_like r u), counted.once r u)
        ] in
      let ok_db =
        recounted-Counted repo n (db.likes ++ row ∷ []) db counted total
          (λ r other. ground (arith, added (of_repo r))) one_each in
      rw (← done) (ok_db, total, ground (arith, added (is_like repo.id user.id)))

  pub like_write_adds :
      like_write repo user db ≡ ok (n, db')
      → ((r : Repository) → Elem r db'.repositories → r.id ≡ repo.id → r.likes_count ≡ n)
        × (n ≡ repo.likes_count + 1)
        × (count (of_repo repo.id) db'.likes ≡ count (of_repo repo.id) db.likes + 1)
  unfolding save_repository
  like_write_adds h =
      let (free, more, done) = like_write_cases h in
      let row : RepositoryLike = record { repository = repo.id; user = user.id } in
      let added = count-append (of_repo repo.id) db.likes (row ∷ []) in
      let stored = save_repository-Elem (with_likes repo n) in
      (
        λ r e same.
            elim (stored r (record db { likes = db.likes ++ row ∷ [] })
              (subst (λ (d : Db). Elem r d.repositories) (sym done) e)) [
                | inl this ↦ rw this refl
                | inr (other, _) ↦ absurd (other same)
              ],
        more,
        rw (← done) (ground (arith, added, count-one (of_repo repo.id) row)),
      )

-- ===== src/Likes/Tests.antt =====
-- Likes of the repositories in the test tables (src/kohakuhub/api/likes.py).
use kohaku_hub.Prelude.{
  Elem, ◌+◌, ◌≡◌, refl, ap, some, [], ◌∷◌, count, any, find?, keep, arith, inl, inr,
}
use kohaku_hub.Http.{ok, err, http}
use kohaku_hub.Db.{Db, Repository}
use kohaku_hub.Db.Queries.{get_repository, save_repository}
use kohaku_hub.Auth.Permissions.{check_repo_read_permission}
use kohaku_hub.Fixtures.{tables, alice, bob, bert, clip}
use kohaku_hub.Likes.{
  is_like, get_repository_like, create_repository_like, delete_repository_like, like_write,
  like_repository, unlike_repository, with_likes,
}
use kohaku_hub.Likes.Counting.{Counted, of_repo}
use kohaku_hub.Likes.Effect.{like_repository-Counted, unlike_repository-Counted}
use kohaku_hub.Likes.Race.{both_like, both_like_loses}

tables-Counted : Counted tables
unfolding count
tables-Counted = record {
  counts = λ r e. elim e [
    | inl same ↦ ap (λ r. r.likes_count) same
    | inr later ↦ elim later [
      | inl same ↦ ap (λ r. r.likes_count) same
      | inr no_row ↦ elim no_row [ ]
    ]
  ];
  once = λ repo user. omega arith;
}

-- `clip`, liked by bob
abbrev liked : Db
liked = record tables {
  repositories = bert ∷ with_likes clip 1 ∷ [];
  likes = record { repository = 6; user = 3 } ∷ [];
}

bob_likes : like_repository "model" "bob" "clip" bob tables ≡ ok (1, liked)
unfolding like_repository get_repository get_repository_like create_repository_like
    check_repo_read_permission like_write save_repository find? any
bob_likes = refl

bob_unlikes : unlike_repository "model" "bob" "clip" bob liked ≡ ok (0, tables)
unfolding unlike_repository get_repository delete_repository_like save_repository find? keep count
bob_unlikes = refl

bob_likes_twice :
    like_repository "model" "bob" "clip" bob liked ≡ err (http 400 "Repository already liked")
unfolding like_repository get_repository get_repository_like check_repo_read_permission find?
bob_likes_twice = refl

liked-Counted : Counted liked
unfolding like_repository
liked-Counted =
    let (_, _, counted, _, _) =
      like_repository-Counted "model" "bob" "clip" bob tables tables-Counted bob_likes in
    counted

like_repository-Counted_example :
    (repo : Repository) × (get_repository "model" "bob" "clip" tables ≡ some repo)
    × Counted liked
    × (1 ≡ count (of_repo repo.id) liked.likes)
    × (count (is_like repo.id 3) liked.likes ≡ 1)
like_repository-Counted_example =
    like_repository-Counted "model" "bob" "clip" bob tables tables-Counted bob_likes

unlike_repository-Counted_example :
    (repo : Repository) × (get_repository "model" "bob" "clip" liked ≡ some repo)
    × Counted tables
    × (0 ≡ count (of_repo repo.id) tables.likes)
    × (count (is_like repo.id 3) tables.likes ≡ 0)
unlike_repository-Counted_example =
    unlike_repository-Counted "model" "bob" "clip" bob liked liked-Counted bob_unlikes

abbrev liked_by_two : Db
liked_by_two = record tables {
  repositories = bert ∷ with_likes clip 1 ∷ [];
  likes = record { repository = 6; user = 3 } ∷ record { repository = 6; user = 1 } ∷ [];
}

two_like : both_like clip bob alice tables ≡ ok (1, liked_by_two)
unfolding both_like like_write create_repository_like save_repository any
two_like = refl

both_like_loses_example :
    (1 ≡ 0 + 1)
    × ((r : Repository) → Elem r liked_by_two.repositories → r.id ≡ 6 → r.likes_count ≡ 0 + 1)
    × (count (of_repo 6) liked_by_two.likes ≡ count (of_repo 6) tables.likes + 2)
both_like_loses_example = both_like_loses clip bob alice tables two_like

-- ===== src/Repos/Moving/Conflict.antt =====
-- A move does not look at normalized names (src/kohakuhub/api/repo/routers/crud.py).
use mathlib.Core.Path.{subst}
use kohaku_hub.Prelude.{
  any-eq-find?, find?-Elem, find?_passes, ℕ, ◌≡◌, ◌≢◌, refl, sym, ap, ◌∙◌, inl, inr, String, Bool,
  true, false, ◌&&◌, not, Option, none, some, List, [], ◌∷◌, map, any, Elem, ltb, ◌==◌, arith,
  eq_iff, str_eq, Bool-cases, if◌then◌else◌, is_some,
}
use kohaku_hub.Prelude.Int.{ℤ, pos, ◌-ℤ◌}
use kohaku_hub.Http.{Result, ok, bind_ok, ◌>>=◌}
use kohaku_hub.Db.{Db, User, Repository}
use kohaku_hub.Db.Queries.{get_repository, get_organization, save_user}
use kohaku_hub.Auth.Permissions.{check_namespace_permission, check_repo_delete_permission}
use kohaku_hub.Names.{normalize_name}
use kohaku_hub.Quota.{increment_storage}
use kohaku_hub.Quota.Calculate.{Lister}
use kohaku_hub.Repos.{same_name}
use kohaku_hub.Repos.Creating.{NamesDiffer}
use kohaku_hub.Repos.Moving.{
  split_id, move_repo_checks, moved, write_moved, update_repository_database_records,
}

Elem-map_intro :
    (f : Repository → Repository) (repos : List Repository) (r : Repository)
    → Elem r repos
    → Elem (f r) (map f repos)
Elem-map_intro f [] r e = elim e [ ]
Elem-map_intro f (x ∷ repos) r (inl same) = inl (ap f same)
Elem-map_intro f (x ∷ repos) r (inr later) = inr (Elem-map_intro f repos r later)

increment_storage-repositories :
    (namespace : String) (delta : ℤ) (is_private is_org : Bool) (db db' : Db) (totals : ℤ × ℤ)
    → increment_storage namespace delta is_private is_org db ≡ ok (totals, db')
    → db'.repositories ≡ db.repositories
unfolding increment_storage save_user
increment_storage-repositories namespace delta is_private is_org db db' totals h = ground arith

module _ (to_id from_namespace to_namespace to_name : String) (moving_namespace : Bool)
    (repo_size : ℕ) (repo_row : Repository) (db db' : Db) where
  abbrev move_row : Repository → Repository
  move_row r =
      if r.id == repo_row.id
      then moved to_id to_namespace to_name moving_namespace repo_row r
      else r

  write_moved-repositories :
      (mid : Db)
      → write_moved to_id to_namespace to_name moving_namespace repo_row db ≡ ok mid
      → mid.repositories ≡ map move_row db.repositories
  unfolding write_moved
  write_moved-repositories mid h = ground arith

  abbrev charge : Db → Result Db
  charge mid = do
    (left, db'') ←
        increment_storage from_namespace (pos 0 -ℤ pos repo_size) repo_row.private
          (is_some (get_organization from_namespace mid)) mid
    (charged, last_db) ←
        increment_storage to_namespace (pos repo_size) repo_row.private
          (is_some (get_organization to_namespace mid)) db''
    ok last_db

  charge-repositories : (mid : Db) → charge mid ≡ ok db' → db'.repositories ≡ mid.repositories
  charge-repositories mid h =
      let (first, one, more) =
        bind_ok
          (increment_storage from_namespace (pos 0 -ℤ pos repo_size) repo_row.private
            (is_some (get_organization from_namespace mid)) mid)
          _ h in
      let (second, two, last) =
        bind_ok
          (increment_storage to_namespace (pos repo_size) repo_row.private
            (is_some (get_organization to_namespace mid)) first.1)
          _ more in
      let left =
        increment_storage-repositories from_namespace (pos 0 -ℤ pos repo_size) repo_row.private
          (is_some (get_organization from_namespace mid)) mid first.1 first.0 one in
      let charged =
        increment_storage-repositories to_namespace (pos repo_size) repo_row.private
          (is_some (get_organization to_namespace mid)) first.1 second.1 second.0 two in
      ground (arith, left, charged, last)

  written :
      update_repository_database_records to_id from_namespace to_namespace to_name moving_namespace
          repo_size repo_row db
        ≡ ok db'
      → db'.repositories ≡ map move_row db.repositories
  unfolding update_repository_database_records
  written h =
      let (mid, wrote, more) =
        bind_ok (write_moved to_id to_namespace to_name moving_namespace repo_row db) _ h in
      let rows = write_moved-repositories mid wrote in
      elim (Bool-cases (moving_namespace && ltb 0 repo_size)) [
        | inl charged ↦ charge-repositories mid (rw charged at more) ∙ rows
        | inr free ↦ let same : mid ≡ db' = ground arith in rw (← same) rows
      ]

  -- Two repositories have the same normalized name after such a write.
  written_not_NamesDiffer :
      (lower : String → String) (other : Repository)
      → Elem repo_row db.repositories
      → Elem other db.repositories
      → other.id ≢ repo_row.id
      → other.repo_type ≡ repo_row.repo_type
      → other.namespace ≡ to_namespace
      → normalize_name lower other.name ≡ normalize_name lower to_name
      → update_repository_database_records to_id from_namespace to_namespace to_name
          moving_namespace repo_size repo_row db
        ≡ ok db'
      → ¬ NamesDiffer lower db'
  written_not_NamesDiffer lower other stored there differs same_type same_namespace same_normalized
        done differ =
      let rows = written done in
      let row_moved = Elem-map_intro move_row db.repositories repo_row stored in
      let other_there = Elem-map_intro move_row db.repositories other there in
      let itself : move_row repo_row
          ≡ moved to_id to_namespace to_name moving_namespace repo_row repo_row =
        ground arith in
      let stays : move_row other ≡ other = ground arith in
      let test = same_name lower repo_row.repo_type to_namespace (normalize_name lower to_name) in
      let t = (eq_iff repo_row.repo_type repo_row.repo_type).1 refl in
      let n = (eq_iff to_namespace to_namespace).1 refl in
      let m = (eq_iff (normalize_name lower to_name) (normalize_name lower to_name)).1 refl in
      let hit : test (move_row repo_row) ≡ true = rw itself (ground (arith, t, n, m)) in
      let hit' : test (move_row other) ≡ true =
        rw (stays, same_type, same_namespace, same_normalized) (ground (arith, t, n, m)) in
      let same =
        differ repo_row.repo_type to_namespace (normalize_name lower to_name) (move_row repo_row)
          (move_row other) (subst (λ rs. Elem (move_row repo_row) rs) (sym rows) row_moved)
          (subst (λ rs. Elem (move_row other) rs) (sym rows) other_there) hit hit' in
      differs (ground (arith, ap (λ (r : Repository). r.id) same, itself, stays))

any_narrower :
    (p q : Repository → Bool) (repos : List Repository)
    → ((r : Repository) → q r ≡ true → p r ≡ true)
    → any p repos ≡ false
    → any q repos ≡ false
unfolding any
any_narrower p q [] narrower none_passes = refl
any_narrower p q (r ∷ repos) narrower none_passes =
    let rest = any_narrower p q repos narrower (ground arith) in
    elim (Bool-cases (q r)) [
      | inl hit ↦ let wider = narrower r hit in absurd (ground arith)
      | inr miss ↦ rw miss rest
    ]

write_moved-eq-ok :
    (to_id to_namespace to_name : String) (moving_namespace : Bool) (repo_row : Repository)
    (db : Db)
    → get_repository repo_row.repo_type to_namespace to_name db ≡ none
    → (db' : Db) × (write_moved to_id to_namespace to_name moving_namespace repo_row db ≡ ok db')
unfolding write_moved get_repository
write_moved-eq-ok to_id to_namespace to_name moving_namespace repo_row db free =
    let wider : Repository → Bool = λ r.
      str_eq r.repo_type repo_row.repo_type
      && str_eq r.namespace to_namespace
      && str_eq r.name to_name in
    let none_passes =
      any_narrower wider (λ r. not (r.id == repo_row.id) && wider r) db.repositories
        (λ r h. ground arith) (any-eq-find? wider db.repositories free) in
    (
      record db {
        repositories =
            map
              (λ r.
                if r.id == repo_row.id
                then moved to_id to_namespace to_name moving_namespace repo_row r
                else r)
              db.repositories;
      },
      rw none_passes refl,
    )

module _ (fuel : ℕ) (listings : Repository → Lister) (lower : String → String)
    (repo_type from_id to_id from_namespace from_name to_namespace to_name : String)
    (repo_row other : Repository) (user : Option User) (db : Db) where
  source_row :
      get_repository repo_type from_namespace from_name db ≡ some repo_row
      → Elem repo_row db.repositories × (repo_row.repo_type ≡ repo_type)
  unfolding get_repository
  source_row source =
      let hit = find?_passes _ db.repositories repo_row source in
      (
        find?-Elem _ db.repositories repo_row source,
        (eq_iff repo_row.repo_type repo_type).0 (ground arith),
      )

  only_written :
      (db' : Db)
      → write_moved to_id to_namespace to_name
          (not (str_eq from_namespace to_namespace))
          repo_row
          db
        ≡ ok db'
      → update_repository_database_records to_id from_namespace to_namespace to_name
          (not (str_eq from_namespace to_namespace))
          0
          repo_row
          db
        ≡ ok db'
  unfolding update_repository_database_records
  only_written db' wrote = rw wrote (ground arith)

  passes :
      split_id from_id ≡ some (from_namespace, from_name)
      → split_id to_id ≡ some (to_namespace, to_name)
      → get_repository repo_type from_namespace from_name db ≡ some repo_row
      → get_repository repo_type to_namespace to_name db ≡ none
      → move_repo_checks fuel listings repo_type from_id to_id user true db ≡ ok (repo_row, 0)
  unfolding move_repo_checks check_repo_delete_permission check_namespace_permission
  passes from to source free = rw (from, to) (rw (source, free) (ground arith))

  -- Where the source of a move is there, and no repository of the type has exactly the new namespace and
  -- name, a move with the admin token passes its checks and its write to the tables succeeds,
  -- whatever names are there up to normalization: if another repository of the type in the new
  -- namespace has the new name up to normalization, two repositories have the same normalized name
  -- after the move.
  pub move_not-NamesDiffer :
      split_id from_id ≡ some (from_namespace, from_name)
      → split_id to_id ≡ some (to_namespace, to_name)
      → get_repository repo_type from_namespace from_name db ≡ some repo_row
      → get_repository repo_type to_namespace to_name db ≡ none
      → Elem other db.repositories
      → other.id ≢ repo_row.id
      → other.repo_type ≡ repo_type
      → other.namespace ≡ to_namespace
      → normalize_name lower other.name ≡ normalize_name lower to_name
      → (move_repo_checks fuel listings repo_type from_id to_id user true db ≡ ok (repo_row, 0))
        × ((db' : Db) × (update_repository_database_records to_id from_namespace to_namespace
                to_name
                (not (str_eq from_namespace to_namespace))
                0
                repo_row
                db
              ≡ ok db')
            × ¬ NamesDiffer lower db')
  move_not-NamesDiffer from to source free there differs same_type same_namespace same_normalized =
      let moving = not (str_eq from_namespace to_namespace) in
      let (stored, typed) = source_row source in
      let (db', wrote) =
        write_moved-eq-ok to_id to_namespace to_name moving repo_row db (rw typed free) in
      let done = only_written db' wrote in
      (
        passes from to source free,
        (
          db',
          done,
          written_not_NamesDiffer to_id from_namespace to_namespace to_name moving 0 repo_row db db'
              lower other stored there differs (same_type ∙ sym typed) same_namespace
              same_normalized done,
        ),
      )

-- ===== src/Repos/Moving.antt =====
-- src/kohakuhub/api/repo/routers/crud.py: the checks of a move and its writes to the tables. Between
-- them the objects are copied to a new LakeFS repository, which is not modelled.
pub mod Conflict
use Prim.Native.Char.{code}
use mathlib.Core.Path.{subst}
use kohaku_hub.Prelude.{
  any-eq-find?, find?-Elem, find?_passes, ℕ, ◌≡◌, ◌≢◌, refl, sym, ap, ◌∙◌, inl, inr, String, Bool,
  true, false, ◌&&◌, not, Option, none, some, List, [], ◌∷◌, map, any, Elem, ltb, ◌==◌, arith,
  eq_iff, str_eq, Bool-cases, if◌then◌else◌, is_some,
}
use kohaku_hub.Prelude.Int.{ℤ, pos, ◌-ℤ◌}
use kohaku_hub.Http.{
  Result, ok, err, http, hf_repo_not_found, integrity_error, out_of_fuel, found, absent, bind_ok,
  ◌>>=◌, ◌>>◌,
}
use kohaku_hub.Db.{Db, User, Repository}
use kohaku_hub.Db.Queries.{get_repository, get_organization, save_user}
use kohaku_hub.Auth.Permissions.{◌+s◌, check_namespace_permission, check_repo_delete_permission}
use kohaku_hub.Names.{normalize_name}
use kohaku_hub.Quota.{check_quota, increment_storage}
use kohaku_hub.Quota.Calculate.{Lister, calculate_repository_storage}
use kohaku_hub.Repos.{same_name}
use kohaku_hub.Repos.Creating.{NamesDiffer}

abbrev before_slash : String → Option (String × String) → Option (String × String)
before_slash c none = none
before_slash c (some (namespace, name)) = some (c +s namespace, name)

-- `id.split("/", 1)`, of which there have to be two parts
unfoldable pub split_id : String → Option (String × String)
split_id String.[] = none
split_id (String.◌∷◌ c id) =
    let rest = before_slash (String.◌∷◌ c String.[]) (split_id id) in
    if code c == b'/' then some (String.[], id) else rest

-- The size of the repository, for which the new namespace has to have room.
unfoldable pub move_size : ℕ → Lister → Repository → (to_namespace : String) → Db → Result ℕ
move_size fuel list_objects repo_row to_namespace db =
    elim (calculate_repository_storage fuel list_objects repo_row db) [
      | none ↦ err out_of_fuel
      | some stats ↦
          if (check_quota to_namespace (pos stats.total_bytes) repo_row.private
            (is_some (get_organization to_namespace db)) db).0
          then ok stats.total_bytes
          else err (http 400 "quota exceeded")
    ]

-- The row that is moved, and the bytes that are charged for it.
unfoldable pub move_repo_checks :
    ℕ
    → (Repository → Lister)
    → (repo_type from_id to_id : String) → Option User
    → (is_admin : Bool) → Db
    → Result (Repository × ℕ)
move_repo_checks fuel listings repo_type from_id to_id user is_admin db = do
  (from_namespace, from_name) ← found (split_id from_id) (http 400 "Invalid source repository ID")
  (to_namespace, to_name) ← found (split_id to_id) (http 400 "Invalid destination repository ID")
  repo_row ←
      found (get_repository repo_type from_namespace from_name db)
        (hf_repo_not_found from_id repo_type)
  may_delete ← check_repo_delete_permission repo_row user is_admin db
  may_write ← check_namespace_permission to_namespace user false is_admin db
  absent (get_repository repo_type to_namespace to_name db)
      (http 409 ("Repository " +s to_id +s " already exists"))
  repo_size ←
      (if not (str_eq from_namespace to_namespace) && not is_admin
        then move_size fuel (listings repo_row) repo_row to_namespace db
        else ok 0)
  ok (repo_row, repo_size)

-- The row at its new place; its quota is kept only within the namespace.
abbrev pub moved :
    (to_id to_namespace to_name : String) → Bool → Repository → Repository → Repository
moved to_id to_namespace to_name moving_namespace repo_row r = record r {
  namespace = to_namespace;
  name = to_name;
  full_id = to_id;
  quota_bytes = if moving_namespace then none else repo_row.quota_bytes;
  used_bytes = repo_row.used_bytes;
}

-- `Repository.update(...).where(Repository.id == repo_row.id)`, which the unique index may refuse.
unfoldable pub write_moved :
    (to_id to_namespace to_name : String) → Bool → Repository → Db → Result Db
write_moved to_id to_namespace to_name moving_namespace repo_row db =
    if any
      (λ r.
        not (r.id == repo_row.id)
        && (str_eq r.repo_type repo_row.repo_type
            && str_eq r.namespace to_namespace
            && str_eq r.name to_name))
      db.repositories
    then err integrity_error
    else ok (record db {
      repositories =
          map
            (λ r.
              if r.id == repo_row.id
              then moved to_id to_namespace to_name moving_namespace repo_row r
              else r)
            db.repositories;
    })

-- `_update_repository_database_records`, with `preserve_quota`.
unfoldable pub update_repository_database_records :
    (to_id from_namespace to_namespace to_name : String) → Bool → ℕ → Repository → Db → Result Db
update_repository_database_records to_id from_namespace to_namespace to_name moving_namespace
      repo_size repo_row db =
    do
      db' ← write_moved to_id to_namespace to_name moving_namespace repo_row db
      if moving_namespace && ltb 0 repo_size
          then (do
            (left, db'') ←
                increment_storage from_namespace (pos 0 -ℤ pos repo_size) repo_row.private
                  (is_some (get_organization from_namespace db')) db'
            (charged, last_db) ←
                increment_storage to_namespace (pos repo_size) repo_row.private
                  (is_some (get_organization to_namespace db')) db''
            ok last_db)
          else ok db'

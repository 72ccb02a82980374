-- ===== src/Db/Saves.antt =====
-- `entity.save()` and `repo.save()`: what queries find after a row was written back.
use mathlib.Core.Option
use kohaku_hub.Prelude.{
  ◌≡◌, refl, sym, ap, ◌∙◌, ◌≢◌, List, [], ◌∷◌, ℕ, Bool, map, arith, Elem, find?, find?-map_on,
  AtMostOne-map_on, ◌==◌, str_eq, if◌then◌else◌, Bool-cases, inl, inr,
}
use kohaku_hub.Db.{Db, User}
use kohaku_hub.Db.Queries.{save_user, get_user_by_id}
use kohaku_hub.Db.Keys.{UniqueKeys}

-- `after` is `before` but for columns that no index and no query reads.
pub record SameKeys (before after : User) : Type 0 where
  pub id : after.id ≡ before.id
  pub username : after.username ≡ before.username
  pub is_org : after.is_org ≡ before.is_org

abbrev pub written : User → User → User
written after u = if u.id == after.id then after else u

module _ (before after : User) (db : Db) (keys : UniqueKeys db) (same : SameKeys before after)
    (stored : Elem before db.users) where
  keeps :
      (p : User → Bool)
      → p after ≡ p before
      → (u : User) → Elem u db.users
      → p (written after u) ≡ p u
  keeps p kept u e = elim (Bool-cases (u.id == after.id)) [
    | inl hit ↦
        let this : u ≡ before =
          keys.user_id after.id u before e stored hit (ground (arith, same.id)) in
        rw hit (kept ∙ ap p (sym this))
    | inr miss ↦ rw miss
  ]

  pub find?-save_user :
      (p : User → Bool)
      → p after ≡ p before
      → find? p (save_user after db).users ≡ Option.map (written after) (find? p db.users)
  unfolding save_user
  find?-save_user p kept = find?-map_on p (written after) db.users (keeps p kept)

  pub save_user-UniqueKeys : UniqueKeys (save_user after db)
  unfolding save_user
  save_user-UniqueKeys = record {
    username = λ name.
        AtMostOne-map_on (λ u. str_eq u.username name) (written after) db.users
          (keeps (λ u. str_eq u.username name) (ap (λ n. str_eq n name) same.username))
          (keys.username name);
    user_id = λ id.
        AtMostOne-map_on (λ u. u.id == id) (written after) db.users
          (keeps (λ u. u.id == id) (ap (λ n. n == id) same.id)) (keys.user_id id);
    membership = keys.membership;
    repository_id = keys.repository_id;
  }

written-other :
    (after : User) (id : ℕ) (users : List User)
    → id ≢ after.id
    → find? (λ u. u.id == id) (map (written after) users) ≡ find? (λ u. u.id == id) users
unfolding find?
written-other after id [] other = refl
written-other after id (u ∷ users) other = ground (arith, written-other after id users other)

-- A query by the id of another user finds what it found.
pub get_user_by_id-save_other :
    (after : User) (db : Db) (id : ℕ)
    → id ≢ after.id
    → get_user_by_id id (save_user after db) ≡ get_user_by_id id db
unfolding get_user_by_id save_user
get_user_by_id-save_other after db id other = written-other after id db.users other

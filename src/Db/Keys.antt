-- ===== src/Db/Keys.antt =====
-- Four of the unique keys of src/kohakuhub/db.py, as an invariant of the tables: names and ids of
-- users, memberships, and ids of repositories.
use kohaku_hub.Prelude.{
  find?_passes, Option-cases, sym, ◌∙◌, find?-append_fresh, find?-append_other, find?-keep_empty, ℕ,
  String, ◌≡◌, ◌&&◌, true, false, AtMostOne, AtMostOne-append, AtMostOne-keep, AtMostOne-map, any,
  find?, find?-map, Bool-cases, inl, inr, arith, str_eq, ◌==◌, Option, none, some, List, [], ◌∷◌,
  ◌++◌, find?-keep_other, if◌then◌else◌,
}
use mathlib.Core.Option
use mathlib.Core.Path.{subst}
use kohaku_hub.Http.{ok}
use kohaku_hub.Db.{Db, User, UserOrganization}
use kohaku_hub.Db.Queries.{
  is_membership, set_role, create_user_organization, update_user_organization,
  delete_user_organization,
}

-- A user's name is unique, a membership is unique to its user and organization, and ids are unique.
pub record UniqueKeys (db : Db) : Type 0 where
  pub username : (name : String) → AtMostOne (λ u. str_eq u.username name) db.users
  pub user_id : (id : ℕ) → AtMostOne (λ u. u.id == id) db.users
  pub membership : (user org : ℕ) → AtMostOne (is_membership user org) db.memberships
  pub repository_id : (id : ℕ) → AtMostOne (λ r. r.id == id) db.repositories

pub is_membership-eq :
    (u o u' o' : ℕ) (m : UserOrganization)
    → is_membership u o m ≡ true
    → is_membership u' o' m ≡ ((u == u') && (o == o'))
is_membership-eq u o u' o' m h = ground arith

is_membership-set_role :
    (u o : ℕ) (t : UserOrganization) (role : String) (m : UserOrganization)
    → is_membership u o (set_role t role m) ≡ is_membership u o m
is_membership-set_role u o t role m = ground arith

with_memberships : Db → List UserOrganization → Db
with_memberships db rows = record db { memberships = rows }

with_memberships-UniqueKeys :
    (db : Db) (rows : List UserOrganization)
    → UniqueKeys db
    → ((u o : ℕ) → AtMostOne (is_membership u o) rows)
    → UniqueKeys (with_memberships db rows)
unfolding with_memberships
with_memberships-UniqueKeys db rows keys h = record {
  username = keys.username;
  user_id = keys.user_id;
  membership = h;
  repository_id = keys.repository_id;
}

-- The new row has a key that no row of the table has.
pub create_user_organization_cases :
    (user org : User) (role : String) (db : Db) {db' : Db}
    → create_user_organization user org role db ≡ ok db'
    → (any (is_membership user.id org.id) db.memberships ≡ false)
      × (db' ≡ record db {
        memberships =
            db.memberships ++ record { user = user.id; organization = org.id; role = role } ∷ [];
      })
unfolding create_user_organization
create_user_organization_cases user org role db h =
    elim (Bool-cases (any (is_membership user.id org.id) db.memberships)) [
      | inl taken ↦ absurd (ground arith)
      | inr fresh ↦ (fresh, ground arith)
    ]

pub create_user_organization-UniqueKeys :
    (user org : User) (role : String) (db : Db) {db' : Db}
    → create_user_organization user org role db ≡ ok db'
    → UniqueKeys db
    → UniqueKeys db'
unfolding with_memberships
create_user_organization-UniqueKeys user org role db h keys =
    let (fresh, e) = create_user_organization_cases user org role db h in
    subst UniqueKeys (sym e) (
      with_memberships-UniqueKeys db _ keys λ u o.
        AtMostOne-append (is_membership u o) db.memberships _ (keys.membership u o)
          λ same. rw (key u o same) fresh)
  where
    key :
        (u o : ℕ)
        → is_membership u o (record { user = user.id; organization = org.id; role = role }) ≡ true
        → is_membership u o ≡ is_membership user.id org.id
    key u o same = let eu : user.id ≡ u = ground arith in let eo : org.id ≡ o = ground arith in cc

pub update_user_organization-UniqueKeys :
    (target : UserOrganization) (role : String) (db : Db)
    → UniqueKeys db
    → UniqueKeys (update_user_organization target role db)
unfolding update_user_organization with_memberships
update_user_organization-UniqueKeys target role db keys =
    with_memberships-UniqueKeys db _ keys λ u o.
      AtMostOne-map (is_membership u o) (set_role target role) db.memberships
        (is_membership-set_role u o target role) (keys.membership u o)

pub delete_user_organization-UniqueKeys :
    (target : UserOrganization) (db : Db)
    → UniqueKeys db
    → UniqueKeys (delete_user_organization target db)
unfolding delete_user_organization with_memberships
delete_user_organization-UniqueKeys target db keys =
    with_memberships-UniqueKeys db _ keys
      λ u o. AtMostOne-keep (is_membership u o) _ db.memberships (keys.membership u o)

-- The role that a user id has in an organization id.
unfoldable pub role_of : ℕ → ℕ → Db → Option UserOrganization
role_of u o db = find? (is_membership u o) db.memberships

-- What the query for a membership finds after each of the three writes.
pub role_of-create :
    (user org : User) (role : String) (db : Db) {db' : Db} (u o : ℕ)
    → create_user_organization user org role db ≡ ok db'
    → role_of u o db' ≡ (
        if user.id == u && org.id == o
        then some (record { user = user.id; organization = org.id; role = role })
        else role_of u o db)
unfolding role_of
role_of-create user org role db u o h =
    let (fresh, e) = create_user_organization_cases user org role db h in
    rw e (elim (Bool-cases (user.id == u && org.id == o)) [
      | inl same ↦
          let eu : user.id ≡ u = ground arith in
          let eo : org.id ≡ o = ground arith in
          let fresh' : any (is_membership u o) db.memberships ≡ false = rw (← eu, ← eo) fresh in
          find?-append_fresh (is_membership u o) db.memberships _ fresh' ∙ ground arith
      | inr other ↦ find?-append_other (is_membership u o) db.memberships _ other ∙ ground arith
    ])

pub role_of-update :
    (target : UserOrganization) (role : String) (db : Db) (u o : ℕ)
    → role_of u o (update_user_organization target role db)
      ≡ Option.map (set_role target role) (role_of u o db)
unfolding role_of update_user_organization
role_of-update target role db u o =
    find?-map (is_membership u o) (set_role target role) db.memberships
      (is_membership-set_role u o target role)

pub role_of-delete :
    (target : UserOrganization) (db : Db) (u o : ℕ)
    → role_of u o (delete_user_organization target db)
      ≡ (if target.user == u && target.organization == o then none else role_of u o db)
unfolding role_of delete_user_organization
role_of-delete target db u o = elim (Bool-cases (target.user == u && target.organization == o)) [
  | inl same ↦
      find?-keep_empty (is_membership u o) _ db.memberships (λ m h. ground arith) ∙ ground arith
  | inr other ↦
      find?-keep_other (is_membership u o) _ db.memberships (λ m h. ground arith) ∙ ground arith
]

-- Setting the role of the membership of user `u` in organization `o`, seen by its key.
pub role_of-set_role :
    (u o : ℕ) (m : UserOrganization) (role : String) (db : Db) (u' o' : ℕ)
    → role_of u o db ≡ some m
    → Option.map (set_role m role) (role_of u' o' db) ≡ (
        if u == u' && o == o'
        then some (record { user = u; organization = o; role = role })
        else role_of u' o' db)
unfolding role_of
role_of-set_role u o m role db u' o' stored =
    let keyed = find?_passes (is_membership u o) db.memberships m stored in
    elim (Bool-cases (u == u' && o == o')) [
      | inl same ↦
          let eu : u ≡ u' = ground arith in
          let eo : o ≡ o' = ground arith in rw (same, ← eu, ← eo, stored) (ground arith)
      | inr other ↦ elim (Option-cases (find? (is_membership u' o') db.memberships)) [
        | inl missing ↦ rw (other, missing)
        | inr (m', found) ↦
            let keyed' = find?_passes (is_membership u' o') db.memberships m' found in
            rw (other, found) (ground arith)
      ]
    ]

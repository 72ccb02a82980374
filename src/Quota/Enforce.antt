-- ===== src/Quota/Enforce.antt =====
-- Checking a quota and then charging for an upload: src/kohakuhub/api/quota/util.py.
use mathlib.Core.Option.{some-injective}
use mathlib.Core.Path.{subst}
use kohaku_hub.Prelude.{
  ◌≡◌, refl, sym, ◌∙◌, ◌↔◌, ◌≢◌, String, ℕ, Bool, true, false, Option, none, some, arith, Elem,
  find?-Elem, ◌&&◌, str_eq,
}
use kohaku_hub.Prelude.Int.{ℤ, pos, ◌+ℤ◌, ◌≤ℤ◌, max_zero, +ℤ_parts}
use kohaku_hub.Http.{ok}
use kohaku_hub.Db.{Db, User}
use kohaku_hub.Db.Queries.{save_user, get_organization, get_user_by_username, get_user_by_id}
use kohaku_hub.Db.Keys.{UniqueKeys}
use kohaku_hub.Db.Saves.{SameKeys, find?-save_user, save_user-UniqueKeys, get_user_by_id-save_other}
use kohaku_hub.Quota.{
  entity_or_none, entity, check_against, check_entity, check_quota, increment_storage, quota_of,
  used_of, set_used,
}

pub entity_or_none-Elem :
    (namespace : String) (is_org : Bool) (db : Db) (user : User)
    → entity_or_none namespace is_org db ≡ some user
    → Elem user db.users
unfolding entity_or_none get_organization get_user_by_username
entity_or_none-Elem namespace true db user h = find?-Elem _ db.users user h
entity_or_none-Elem namespace false db user h = find?-Elem _ db.users user h

-- A saved entity is found again, as it was saved.
pub entity_or_none-save_user :
    (namespace : String) (is_org : Bool) (db : Db) (before after : User)
    → UniqueKeys db
    → SameKeys before after
    → entity_or_none namespace is_org db ≡ some before
    → entity_or_none namespace is_org (save_user after db) ≡ some after
unfolding entity_or_none get_organization get_user_by_username
entity_or_none-save_user namespace true db before after keys same h =
    find?-save_user before after db keys same (find?-Elem _ db.users before h)
      (λ u. str_eq u.username namespace && u.is_org) (ground (arith, same.username, same.is_org))
    ∙ rw h (ground (arith, same.id))
entity_or_none-save_user namespace false db before after keys same h =
    find?-save_user before after db keys same (find?-Elem _ db.users before h)
      (λ u. str_eq u.username namespace) (ground (arith, same.username))
    ∙ rw h (ground (arith, same.id))

-- The account of the user is within its quota, if it has one.
abbrev pub WithinQuota : Bool → User → Type 0
WithinQuota is_private user =
    (quota : ℤ) → quota_of is_private user ≡ some quota → used_of is_private user ≤ℤ quota

-- The account has room for the bytes.
abbrev pub Fits : Bool → ℤ → User → Type 0
Fits is_private bytes user =
    (quota : ℤ) → quota_of is_private user ≡ some quota → used_of is_private user +ℤ bytes ≤ℤ quota

check_against_iff :
    (is_private : Bool) (limit : Option ℤ) (new_usage : ℤ)
    → ((check_against is_private limit new_usage).0 ≡ true)
      ↔ ((quota : ℤ) → limit ≡ some quota → new_usage ≤ℤ quota)
unfolding check_against
check_against_iff is_private none new_usage = (λ _ quota h. absurd (ground arith), λ _. refl)
check_against_iff is_private (some q) new_usage = (
  λ h quota e. let same : q ≡ quota = cc in rw (← same) (ground arith),
  λ h. let fits = h q refl in ground arith,
)

check_entity_iff :
    (namespace : String) (bytes : ℤ) (is_private is_org : Bool) (found : Option User)
    → ((check_entity namespace bytes is_private is_org found).0 ≡ true)
      ↔ ((user : User) × (found ≡ some user) × Fits is_private bytes user)
unfolding check_entity
check_entity_iff namespace bytes is_private is_org none =
    (λ h. absurd (ground arith), λ (user, e, _). absurd (ground arith))
check_entity_iff namespace bytes is_private is_org (some user) =
    let (to, from) =
      check_against_iff is_private (quota_of is_private user) (used_of is_private user +ℤ bytes) in
    (
      λ h. (user, refl, to h),
      λ (user', e, fits).
          from (subst (Fits is_private bytes) (sym (some-injective user user' e)) fits),
    )

-- An upload is allowed exactly if the namespace exists and has no quota for repositories of this
-- privacy, or one that the used bytes and the additional ones together do not exceed.
pub check_quota_iff :
    (namespace : String) (bytes : ℤ) (is_private is_org : Bool) (db : Db)
    → ((check_quota namespace bytes is_private is_org db).0 ≡ true) ↔ (
        (user : User) × (entity_or_none namespace is_org db ≡ some user)
        × Fits is_private bytes user)
unfolding check_quota
check_quota_iff namespace bytes is_private is_org db =
    check_entity_iff namespace bytes is_private is_org (entity_or_none namespace is_org db)

set_used-SameKeys :
    (is_private : Bool) (used : ℤ) (user : User) → SameKeys user (set_used is_private used user)
set_used-SameKeys true used user = record { id = refl; username = refl; is_org = refl }
set_used-SameKeys false used user = record { id = refl; username = refl; is_org = refl }

charge-le :
    (used quota : ℤ) (bytes : ℕ)
    → pos 0 ≤ℤ used
    → used +ℤ pos bytes ≤ℤ quota
    → max_zero (used +ℤ pos bytes) ≤ℤ quota
charge-le used quota bytes nonneg room = ground (arith, +ℤ_parts used (pos bytes))

charge-Fits :
    (is_private : Bool) (user : User) (bytes : ℕ)
    → pos 0 ≤ℤ used_of is_private user
    → Fits is_private (pos bytes) user
    → WithinQuota is_private
        (set_used is_private (max_zero (used_of is_private user +ℤ pos bytes)) user)
charge-Fits true user bytes nonneg fits quota e =
    charge-le user.private_used_bytes quota bytes nonneg (fits quota e)
charge-Fits false user bytes nonneg fits quota e =
    charge-le user.public_used_bytes quota bytes nonneg (fits quota e)

module _ (namespace : String) (is_private is_org : Bool) (db : Db) (user : User)
    (keys : UniqueKeys db) (stored : entity_or_none namespace is_org db ≡ some user) where
  abbrev pub charged : ℤ → User
  charged delta = set_used is_private (max_zero (used_of is_private user +ℤ delta)) user

  -- A charge to an existing namespace succeeds and returns what it stores: the account of this
  -- privacy moves by the bytes, and stops at zero; the rest of the row is as it was, and so is every
  -- row of another user.
  pub increment_storage_effect :
      (delta : ℤ)
      → (db' : Db) × (increment_storage namespace delta is_private is_org db
          ≡ ok (((charged delta).private_used_bytes, (charged delta).public_used_bytes), db'))
        × (entity_or_none namespace is_org db' ≡ some (charged delta))
        × ((id : ℕ) → id ≢ user.id → get_user_by_id id db' ≡ get_user_by_id id db)
        × UniqueKeys db'
  unfolding increment_storage entity
  increment_storage_effect delta =
      let same = set_used-SameKeys is_private (max_zero (used_of is_private user +ℤ delta)) user in
      let row = entity_or_none-Elem namespace is_org db user stored in
      (
        save_user (charged delta) db,
        rw stored,
        entity_or_none-save_user namespace is_org db user (charged delta) keys same stored,
        λ id other. get_user_by_id-save_other (charged delta) db id (rw same.id other),
        save_user-UniqueKeys user (charged delta) db keys same row,
      )

  -- After an upload that the check allows and that is charged for, the account is within its quota;
  -- the bytes are no negative number and the account's bytes neither.
  pub check-increment-WithinQuota :
      (bytes : ℕ) {db' : Db} {totals : ℤ × ℤ} {user' : User}
      → pos 0 ≤ℤ used_of is_private user
      → (check_quota namespace (pos bytes) is_private is_org db).0 ≡ true
      → increment_storage namespace (pos bytes) is_private is_org db ≡ ok (totals, db')
      → entity_or_none namespace is_org db' ≡ some user'
      → WithinQuota is_private user'
  check-increment-WithinQuota bytes {db'} {user' = user'} nonneg allowed done found =
      let (db'', done', found', _, _) = increment_storage_effect (pos bytes) in
      let (user'', stored', fits) =
        (check_quota_iff namespace (pos bytes) is_private is_org db).0 allowed in
      let same : user'' ≡ user = cc in
      let state : db'' ≡ db' = cc in
      let saved : entity_or_none namespace is_org db' ≡ some (charged (pos bytes)) =
        rw (← state) found' in
      let final : charged (pos bytes) ≡ user' = cc in
      subst (WithinQuota is_private) final
        (charge-Fits is_private user bytes nonneg (subst (Fits is_private (pos bytes)) same fits))

-- ===== src/Quota/Settings.antt =====
-- Setting the quota of a namespace: `set_quota` of src/kohakuhub/api/quota/util.py.
use kohaku_hub.Prelude.{
  ◌≡◌, ◌≢◌, refl, String, Bool, true, false, Option, none, some, inl, inr, arith, ℕ, suc,
  if◌then◌else◌, Bool-cases,
}
use kohaku_hub.Prelude.Int.{ℤ, pos, ◌+ℤ◌, ◌≤ℤ◌, +ℤ_parts}
use mathlib.Core.Path.{subst}
use kohaku_hub.Http.{ok}
use kohaku_hub.Db.{Db, User}
use kohaku_hub.Db.Queries.{save_user}
use kohaku_hub.Db.Keys.{UniqueKeys}
use kohaku_hub.Db.Saves.{SameKeys, save_user-UniqueKeys}
use kohaku_hub.Quota.{
  entity_or_none, entity, if_given, storage_info, StorageInfo, get_storage_info, set_quota,
  quota_of, used_of, check_quota,
}
use kohaku_hub.Quota.Enforce.{entity_or_none-save_user, entity_or_none-Elem, check_quota_iff, Fits}

abbrev pub with_quotas : User → Option ℤ → Option ℤ → User
with_quotas user private_quota_bytes public_quota_bytes = record user {
  private_quota_bytes = if_given private_quota_bytes user.private_quota_bytes;
  public_quota_bytes = if_given public_quota_bytes user.public_quota_bytes;
}

-- For an existing namespace the call succeeds: each quota that is given is stored, each that is not
-- given stays, the used bytes stay, and the answer describes the row as it was stored.
pub set_quota_effect :
    (namespace : String) (is_org : Bool) (db : Db) (user : User)
    (private_quota_bytes public_quota_bytes : Option ℤ)
    → UniqueKeys db
    → entity_or_none namespace is_org db ≡ some user
    → (db' : Db) × (set_quota namespace private_quota_bytes public_quota_bytes is_org db
        ≡ ok (get_storage_info namespace is_org db', db'))
      × (entity_or_none namespace is_org db'
          ≡ some (with_quotas user private_quota_bytes public_quota_bytes))
      × (get_storage_info namespace is_org db'
          ≡ storage_info
              (if_given private_quota_bytes user.private_quota_bytes)
              (if_given public_quota_bytes user.public_quota_bytes)
              user.private_used_bytes
              user.public_used_bytes)
      × UniqueKeys db'
unfolding set_quota entity get_storage_info
set_quota_effect namespace is_org db user private_quota public_quota keys stored =
    let after = with_quotas user private_quota public_quota in
    let same : SameKeys user after = record { id = refl; username = refl; is_org = refl } in
    let found = entity_or_none-save_user namespace is_org db user after keys same stored in
    (
      save_user after db,
      rw stored,
      found,
      rw (found, get_storage_info),
      save_user-UniqueKeys user after db keys same
          (entity_or_none-Elem namespace is_org db user stored),
    )

still_limited :
    (is_private : Bool) (user : User) (p q : Option ℤ)
    → quota_of is_private user ≢ none
    → quota_of is_private (with_quotas user p q) ≢ none
still_limited true user none q limited = limited
still_limited true user (some n) q limited = λ h. cc
still_limited false user p none limited = limited
still_limited false user p (some n) limited = λ h. cc

-- What was stored for the namespace by a call that succeeded.
set_quota_stored :
    (namespace : String) (is_org : Bool) (db : Db) (user : User) (p q : Option ℤ)
    {info : StorageInfo} {db' : Db}
    → UniqueKeys db
    → entity_or_none namespace is_org db ≡ some user
    → set_quota namespace p q is_org db ≡ ok (info, db')
    → entity_or_none namespace is_org db' ≡ some (with_quotas user p q)
set_quota_stored namespace is_org db user p q {db'} keys stored h =
    let (db'', done, found, _, _) = set_quota_effect namespace is_org db user p q keys stored in
    let same : db'' ≡ db' = cc in rw (← same) found

-- A quota that is set cannot be lifted by this call: whatever the arguments, None among them, a
-- namespace with a quota for repositories of some privacy still has one afterwards.
pub set_quota_never_lifts :
    (namespace : String) (is_org is_private : Bool) (db : Db) (user : User) (p q : Option ℤ)
    {info : StorageInfo} {db' : Db}
    → UniqueKeys db
    → entity_or_none namespace is_org db ≡ some user
    → quota_of is_private user ≢ none
    → set_quota namespace p q is_org db ≡ ok (info, db')
    → (user' : User) × (entity_or_none namespace is_org db' ≡ some user')
      × (quota_of is_private user' ≢ none)
set_quota_never_lifts namespace is_org is_private db user p q keys stored limited h = (
  with_quotas user p q,
  set_quota_stored namespace is_org db user p q keys stored h,
  still_limited is_private user p q limited,
)

zero_stored :
    (is_private : Bool) (user : User) (p q : Option ℤ)
    → (if is_private then p else q) ≡ some (pos 0)
    → quota_of is_private (with_quotas user p q) ≡ some (pos 0)
zero_stored true user p q h = rw h
zero_stored false user p q h = rw h

used-with_quotas :
    (is_private : Bool) (user : User) (p q : Option ℤ)
    → used_of is_private (with_quotas user p q) ≡ used_of is_private user
used-with_quotas true user p q = refl
used-with_quotas false user p q = refl

no_room : (used : ℤ) (n : ℕ) → pos 0 ≤ℤ used → ¬ (used +ℤ pos (suc n) ≤ℤ pos 0)
no_room used n nonneg = λ h. absurd (ground (arith, +ℤ_parts used (pos (suc n))))

-- A quota of zero is a quota: after it is set for repositories of some privacy, no upload of at least
-- one byte to them is allowed, where the used bytes are not negative.
pub set_quota_zero :
    (namespace : String) (is_org is_private : Bool) (db : Db) (user : User) (p q : Option ℤ) (n : ℕ)
    {info : StorageInfo} {db' : Db}
    → UniqueKeys db
    → entity_or_none namespace is_org db ≡ some user
    → pos 0 ≤ℤ used_of is_private user
    → (if is_private then p else q) ≡ some (pos 0)
    → set_quota namespace p q is_org db ≡ ok (info, db')
    → (check_quota namespace (pos (suc n)) is_private is_org db').0 ≡ false
set_quota_zero namespace is_org is_private db user p q n {db'} keys stored nonneg zero_given h =
    elim (Bool-cases (check_quota namespace (pos (suc n)) is_private is_org db').0) [
      | inr refused ↦ refused
      | inl allowed ↦
          let (user', found, fits) =
            (check_quota_iff namespace (pos (suc n)) is_private is_org db').0 allowed in
          let saved = set_quota_stored namespace is_org db user p q keys stored h in
          let same : user' ≡ with_quotas user p q = cc in
          let limit = zero_stored is_private user p q zero_given in
          let room = subst (Fits is_private (pos (suc n))) same fits (pos 0) limit in
          absurd (
            no_room (used_of is_private user) n nonneg
              (rw (used-with_quotas is_private user p q) at room))
    ]

-- ===== src/Invitations.antt =====
-- src/kohakuhub/api/invitation/router.py: invitations to an organization or to the hub, with the row
-- operations of src/kohakuhub/db_operations.py on them. The time of a request is an argument.
pub mod Available
pub mod Accepting
pub mod Joining
pub mod Usage
pub mod Deleting
mod Tests
use kohaku_hub.Prelude.{
  ℕ, zero, suc, ◌+◌, ◌-◌, ◌*◌, String, Bool, true, false, ◌&&◌, ◌||◌, not, Option, none, some, List,
  [], ◌∷◌, ◌++◌, map, find?, keep, any, ◌==◌, str_eq, if◌then◌else◌,
}
use kohaku_hub.Prelude.Int.{ℤ, pos, negsuc, ◌+ℤ◌, ltb_ℤ}
use kohaku_hub.Http.{Result, ok, err, ◌>>=◌, ◌>>◌, http, integrity_error, require, found, absent}
use kohaku_hub.Db.{Db, User, Invitation}
use kohaku_hub.Db.Queries.{
  get_organization, get_user_by_id, get_user_organization, create_user_organization,
}
use kohaku_hub.Auth.Permissions.{◌+s◌}
use kohaku_hub.Org.{is_admin_of}

-- The dictionary in an invitation's `parameters`; `none` is a missing key or null. The program gives
-- every invitation to an organization a role, and a null for the role, which differs from a missing one,
-- is no case of the model.
pub record Params : Type 0 where
  pub org_id : Option ℕ
  pub org_name : Option String
  pub role : Option String
  pub email : Option String

-- `json.dumps`, `json.loads` (`none` is JSONDecodeError) and `str` of an integer.
pub record Text : Type 0 where
  pub dumps : Params → String
  pub loads : String → Option Params
  pub str : ℤ → String

unfoldable pub get_user_by_email : String → Db → Option User
get_user_by_email email db = find? (λ u. has_email u.email && not u.is_org) db.users
  where
    has_email : Option String → Bool
    has_email none = false
    has_email (some e) = str_eq e email

abbrev pub with_invitations : List Invitation → Db → Db
with_invitations rows db = record db { invitations = rows }

unfoldable pub create_invitation : Invitation → Db → Result Db
create_invitation invitation db =
    if any (λ i. str_eq i.token invitation.token) db.invitations
    then err integrity_error
    else ok (with_invitations (db.invitations ++ invitation ∷ []) db)

unfoldable pub get_invitation : String → Db → Option Invitation
get_invitation token db = find? (λ i. str_eq i.token token) db.invitations

-- `invitation.save()`
abbrev pub save_invitation : Invitation → Db → Db
save_invitation invitation db =
    with_invitations (map (λ i. if i.id == invitation.id then invitation else i) db.invitations) db

-- The fields `used_at` and `used_by` keep the first use.
abbrev pub used : Invitation → User → ℕ → Invitation
used invitation used_by now = record invitation {
  usage_count = invitation.usage_count + 1;
  used_at = some (elim invitation.used_at [ none ↦ now | some first ↦ first ]);
  used_by = elim invitation.used_at [ none ↦ some used_by.id | some first ↦ invitation.used_by ];
}

unfoldable pub mark_invitation_used : Invitation → User → ℕ → Db → Db
mark_invitation_used invitation used_by now db = save_invitation (used invitation used_by now) db

-- `none` for an available invitation, or the message why it is not.
unfoldable pub check_invitation_available : Text → Invitation → ℕ → Option String
check_invitation_available text invitation now =
    if not (ltb_ℤ (pos now) invitation.expires_at)
    then some "Invitation has expired"
    else elim invitation.max_usage [
      | none ↦ elim invitation.used_at [
        | none ↦ none
        | some first ↦ some "Invitation has already been used"
      ]
      | some (negsuc zero) ↦ none
      | some max_usage ↦
          if not (ltb_ℤ (pos invitation.usage_count) max_usage)
          then some ("Invitation has reached maximum usage limit (" +s text.str max_usage +s ")")
          else none
    ]

unfoldable pub delete_invitation : Invitation → Db → Db
delete_invitation invitation db =
    with_invitations (keep (λ i. not (i.id == invitation.id)) db.invitations) db

abbrev is_unused : Option ℕ → Bool
is_unused none = true
is_unused (some first) = false

unfoldable pub delete_expired_invitations : ℕ → Db → Db
delete_expired_invitations now db =
    with_invitations
      (keep (λ i. not (ltb_ℤ i.expires_at (pos now) && is_unused i.used_at)) db.invitations) db

-- CreateOrgInvitationRequest
pub record OrgInvitation : Type 0 where
  pub email : Option String
  pub role : String
  pub max_usage : Option ℤ
  pub expires_days : ℤ

abbrev pub is_invited_role : String → Bool
is_invited_role role = str_eq role "visitor" || str_eq role "member" || str_eq role "admin"

-- `timedelta(days=days)` in seconds
abbrev pub seconds_of_days : ℤ → ℤ
seconds_of_days (pos days) = pos (days * 86400)
seconds_of_days (negsuc days) = negsuc (suc days * 86400 - 1)

-- The test for a member with the invited address.
abbrev pub is_member_address : Option String → User → Db → Bool
is_member_address none org db = false
is_member_address (some email) org db = elim (get_user_by_email email db) [
  | none ↦ false
  | some invitee ↦ elim (get_user_organization invitee org db) [
    | none ↦ false
    | some membership ↦ true
  ]
]

abbrev pub params_of : OrgInvitation → User → Params
params_of req org = record {
  org_id = some org.id;
  org_name = some org.username;
  role = some req.role;
  email = req.email;
}

-- `id` and `token` are the database's and the random generator's choice.
abbrev pub invitation_row : Text → ℕ → String → OrgInvitation → User → User → ℕ → Invitation
invitation_row text id token req org user now = record {
  id = id;
  token = token;
  action = "join_org";
  parameters = text.dumps (params_of req org);
  created_by = some user.id;
  expires_at = pos now +ℤ seconds_of_days req.expires_days;
  max_usage = req.max_usage;
  usage_count = 0;
  used_at = none;
  used_by = none;
}

unfoldable pub create_org_invitation :
    Text → ℕ → String → String → OrgInvitation → User → ℕ → Db → Result Db
create_org_invitation text id token org_name req user now db = do
  require (is_invited_role req.role)
      (http 400 "Invalid role. Must be 'visitor', 'member', or 'admin'")
  org ← found (get_organization org_name db) (http 404 "Organization not found")
  require (is_admin_of (get_user_organization user org db))
      (http 403 "Not authorized to invite members to this organization")
  require (not (is_member_address req.email org db))
      (http 400 "User is already a member of this organization")
  create_invitation (invitation_row text id token req org user now) db

abbrev pub or_member : Option String → String
or_member none = "member"
or_member (some role) = role

-- `get_user_by_id`, with None for an id; ids begin at 1, so that an id is never false.
abbrev pub org_of : Option ℕ → Db → Option User
org_of none db = none
org_of (some org_id) db = get_user_by_id org_id db

unfoldable pub handle_join_org_action : Invitation → User → Params → ℕ → Db → Result Db
handle_join_org_action invitation user params now db = do
  org ← found (org_of params.org_id db) (http 404 "Organization not found")
  absent (get_user_organization user org db)
      (http 400 "You are already a member of this organization")
  db' ← create_user_organization user org (or_member params.role) db
  ok (mark_invitation_used invitation user now db')

-- A new account joins the organization, if the invitation names one that it is no member of.
abbrev pub join_invited : Option User → User → String → Db → Result Db
join_invited none user role db = ok db
join_invited (some org) user role db = elim (get_user_organization user org db) [
  | none ↦ create_user_organization user org role db
  | some membership ↦ ok db
]

unfoldable pub handle_register_account_action : Invitation → User → Params → ℕ → Db → Result Db
handle_register_account_action invitation user params now db =
    join_invited (org_of params.org_id (mark_invitation_used invitation user now db)) user
      (or_member params.role) (mark_invitation_used invitation user now db)

-- `match invitation.action`
abbrev pub handle_action : Invitation → User → Params → ℕ → Db → Result Db
handle_action invitation user params now db =
    if str_eq invitation.action "join_org"
    then handle_join_org_action invitation user params now db
    else if str_eq invitation.action "register_account"
    then handle_register_account_action invitation user params now db
    else err (http 400 ("Unknown invitation action: " +s invitation.action))

unfoldable pub accept_invitation : Text → String → User → ℕ → Db → Result Db
accept_invitation text token user now db = do
  invitation ← found (get_invitation token db) (http 404 "Invitation not found")
  elim (check_invitation_available text invitation now) [
    | none ↦ do
      params ← found (text.loads invitation.parameters) (http 500 "Invalid invitation data")
      handle_action invitation user params now db
    | some message ↦ err (http 400 message)
  ]

-- Only an invitation to an organization is checked for the caller's role.
abbrev pub deletion_check : Invitation → Params → User → Db → Result (Unit {0})
deletion_check invitation params user db =
    if not (str_eq invitation.action "join_org") then ok tt else do
      org ← found (org_of params.org_id db) (http 404 "Organization not found")
      require (is_admin_of (get_user_organization user org db))
          (http 403 "Not authorized to delete this invitation")

unfoldable pub delete_invitation_endpoint : Text → String → User → Db → Result Db
delete_invitation_endpoint text token user db = do
  invitation ← found (get_invitation token db) (http 404 "Invitation not found")
  params ← found (text.loads invitation.parameters) (http 500 "Invalid invitation data")
  deletion_check invitation params user db
  ok (delete_invitation invitation db)

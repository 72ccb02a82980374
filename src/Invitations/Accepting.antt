-- ===== src/Invitations/Accepting.antt =====
-- What accept_invitation of src/kohakuhub/api/invitation/router.py leaves behind: the invitation's
-- row after the use, and the new membership.
use kohaku_hub.Prelude.{
  ℕ, ◌≡◌, refl, ap, ◌∙◌, String, Bool, true, Option, none, some, List, [], ◌∷◌, map, find?,
  find?_passes, arith, ◌==◌, str_eq, if◌then◌else◌, Option-cases, Bool-cases, inl, inr,
}
use kohaku_hub.Http.{ok, bind_ok}
use kohaku_hub.Db.{Db, User, Invitation}
use kohaku_hub.Db.Queries.{get_user_organization, create_user_organization}
use kohaku_hub.Db.Keys.{create_user_organization_cases}
use kohaku_hub.Invitations.{
  Text, Params, get_invitation, used, mark_invitation_used, check_invitation_available, org_of,
  or_member, handle_join_org_action, handle_register_account_action, join_invited, handle_action,
  accept_invitation,
}

-- A saved row stands where the first row with its token stood.
find?-saved :
    (p : Invitation → Bool) (saved : Invitation) (rows : List Invitation) (row : Invitation)
    → find? p rows ≡ some row
    → saved.id ≡ row.id
    → p saved ≡ true
    → find? p (map (λ i. if i.id == saved.id then saved else i) rows) ≡ some saved
unfolding find?
find?-saved p saved [] row found same hit = absurd (ground arith)
find?-saved p saved (i ∷ rows) row found same hit = ground (arith, find?-saved p saved rows row)

get_invitation-mark_used :
    (token : String) (invitation : Invitation) (user : User) (now : ℕ) (db : Db)
    → get_invitation token db ≡ some invitation
    → get_invitation token (mark_invitation_used invitation user now db)
      ≡ some (used invitation user now)
unfolding get_invitation mark_invitation_used
get_invitation-mark_used token invitation user now db found =
    let hit = find?_passes _ db.invitations invitation found in
    find?-saved (λ i. str_eq i.token token) (used invitation user now) db.invitations invitation
      found refl hit

create-invitations :
    (user org : User) (role : String) (db : Db) {db' : Db}
    → create_user_organization user org role db ≡ ok db'
    → db'.invitations ≡ db.invitations
create-invitations user org role db h =
    let (_, done) = create_user_organization_cases user org role db h in
    ap (λ d. d.invitations) done

join_invited-invitations :
    (org : Option User) (user : User) (role : String) (db : Db) {db' : Db}
    → join_invited org user role db ≡ ok db'
    → db'.invitations ≡ db.invitations
join_invited-invitations none user role db {db'} h =
    let same : db' ≡ db = ground arith in ap (λ (d : Db). d.invitations) same
join_invited-invitations (some org) user role db {db'} h =
    elim (Option-cases (get_user_organization user org db)) [
      | inl no_member ↦ create-invitations user org role db {db' = db'} (ground arith)
      | inr (member, is_member) ↦ ground arith
    ]

get_invitation-same :
    (token : String) (db db' : Db)
    → db'.invitations ≡ db.invitations
    → get_invitation token db' ≡ get_invitation token db
unfolding get_invitation
get_invitation-same token db db' same = rw same

module _ (token : String) (invitation : Invitation) (user : User) (params : Params) (now : ℕ)
    (db : Db) {db' : Db} (stored : get_invitation token db ≡ some invitation) where
  pub join_org_cases :
      handle_join_org_action invitation user params now db ≡ ok db'
      → (org : User) × (joined : Db) × (org_of params.org_id db ≡ some org)
        × (get_user_organization user org db ≡ none)
        × (create_user_organization user org (or_member params.role) db ≡ ok joined)
        × (mark_invitation_used invitation user now joined ≡ db')
  unfolding handle_join_org_action
  join_org_cases h = elim (Option-cases (org_of params.org_id db)) [
    | inl missing ↦ absurd (ground arith)
    | inr (org, org_found) ↦ elim (Option-cases (get_user_organization user org db)) [
      | inr (member, is_member) ↦ absurd (ground arith)
      | inl no_member ↦
          let (joined, made, done) =
            bind_ok (create_user_organization user org (or_member params.role) db)
              (λ d. ok (mark_invitation_used invitation user now d)) {y = db'} (ground arith) in
          (org, joined, org_found, no_member, made, ground arith)
    ]
  ]

  join_org-get_invitation :
      handle_join_org_action invitation user params now db ≡ ok db'
      → get_invitation token db' ≡ some (used invitation user now)
  join_org-get_invitation h =
      let (org, joined, _, _, made, done) = join_org_cases h in
      let same = get_invitation-same token db joined (create-invitations user org _ db made) in
      rw (← done) (get_invitation-mark_used token invitation user now joined (same ∙ stored))

  register-get_invitation :
      handle_register_account_action invitation user params now db ≡ ok db'
      → get_invitation token db' ≡ some (used invitation user now)
  unfolding handle_register_account_action
  register-get_invitation h =
      let marked = get_invitation-mark_used token invitation user now db stored in
      let marked_db : Db = mark_invitation_used invitation user now db in
      get_invitation-same token marked_db db' (
        join_invited-invitations (org_of params.org_id marked_db) user (or_member params.role)
          marked_db h)
      ∙ marked

  handle_action-get_invitation :
      handle_action invitation user params now db ≡ ok db'
      → get_invitation token db' ≡ some (used invitation user now)
  handle_action-get_invitation h = elim (Bool-cases (str_eq invitation.action "join_org")) [
    | inl join ↦ join_org-get_invitation (ground arith)
    | inr other ↦ elim (Bool-cases (str_eq invitation.action "register_account")) [
      | inl register ↦ register-get_invitation (ground arith)
      | inr unknown ↦ absurd (ground arith)
    ]
  ]

module _ (text : Text) (token : String) (user : User) (now : ℕ) (db : Db) {db' : Db} where
  pub accept_cases :
      accept_invitation text token user now db ≡ ok db'
      → (invitation : Invitation) × (params : Params) × (get_invitation token db ≡ some invitation)
        × (check_invitation_available text invitation now ≡ none)
        × (text.loads invitation.parameters ≡ some params)
        × (handle_action invitation user params now db ≡ ok db')
  unfolding accept_invitation
  accept_cases h = elim (Option-cases (get_invitation token db)) [
    | inl missing ↦ absurd (ground arith)
    | inr (invitation, stored) ↦
        elim (Option-cases (check_invitation_available text invitation now)) [
          | inr (message, refused) ↦ absurd (ground arith)
          | inl available ↦ elim (Option-cases (text.loads invitation.parameters)) [
            | inl broken ↦ absurd (ground arith)
            | inr (params, parsed) ↦ (invitation, params, stored, available, parsed, ground arith)
          ]
        ]
  ]

  -- An accepted invitation was available and is stored as used once more, by whichever action.
  pub accept-get_invitation :
      accept_invitation text token user now db ≡ ok db'
      → (invitation : Invitation) × (get_invitation token db ≡ some invitation)
        × (check_invitation_available text invitation now ≡ none)
        × (get_invitation token db' ≡ some (used invitation user now))
  accept-get_invitation h =
      let (invitation, params, stored, available, _, handled) = accept_cases h in
      (
        invitation,
        stored,
        available,
        handle_action-get_invitation token invitation user params now db stored handled,
      )

-- ===== src/Invitations/Joining.antt =====
-- An invitation to an organization from its creation to its acceptance
-- (src/kohakuhub/api/invitation/router.py).
use kohaku_hub.Prelude.{
  ℕ, ◌≡◌, ◌≢◌, refl, sym, ap, ◌∙◌, String, true, false, ◌&&◌, some, [], ◌∷◌, ◌++◌, any,
  find?_passes, find?-append_fresh, arith, eq_iff, ◌==◌, str_eq, if◌then◌else◌, Option-cases, inl,
  inr,
}
use mathlib.Core.Path.{subst}
use kohaku_hub.Http.{ok}
use kohaku_hub.Db.{Db, User, Invitation}
use kohaku_hub.Db.Queries.{get_organization, get_user_by_id, get_user_organization}
use kohaku_hub.Db.Keys.{role_of, role_of-create}
use kohaku_hub.Org.{is_admin_of}
use kohaku_hub.Invitations.{
  Text, Params, OrgInvitation, params_of, invitation_row, is_invited_role, create_invitation,
  create_org_invitation, get_invitation, with_invitations, mark_invitation_used,
  check_invitation_available, or_member, handle_join_org_action, accept_invitation,
}
use kohaku_hub.Invitations.Accepting.{join_org_cases}

module _ (text : Text) (id : ℕ) (token org_name : String) (req : OrgInvitation) (user : User)
    (now : ℕ) (db : Db) {db' : Db} where
  create_cases :
      create_org_invitation text id token org_name req user now db ≡ ok db'
      → (org : User) × (get_organization org_name db ≡ some org)
        × (is_admin_of (get_user_organization user org db) ≡ true)
        × (is_invited_role req.role ≡ true)
        × (any (λ i. str_eq i.token token) db.invitations ≡ false)
        × (with_invitations
              (db.invitations ++ invitation_row text id token req org user now ∷ [])
              db
            ≡ db')
  unfolding create_org_invitation create_invitation
  create_cases h = elim (Option-cases (get_organization org_name db)) [
    | inl missing ↦ absurd (ground arith)
    | inr (org, org_found) ↦
        (org, org_found, ground arith, ground arith, ground arith, ground arith)
  ]

  created-get_invitation :
      (h : create_org_invitation text id token org_name req user now db ≡ ok db')
      → get_invitation token db'
        ≡ some (invitation_row text id token req (create_cases h).0 user now)
  unfolding get_invitation
  created-get_invitation h =
      let (org, _, _, _, fresh, done) = create_cases h in
      let itself : str_eq token token ≡ true = (eq_iff token token).1 refl in
      rw (← done) (
        find?-append_fresh (λ i. str_eq i.token token) db.invitations
          (invitation_row text id token req org user now) fresh
        ∙ rw itself refl)

invited_role : (role : String) → is_invited_role role ≡ true → role ≢ "super-admin"
invited_role role invited h =
    let bad : is_invited_role "super-admin" ≡ true =
      subst (λ r. is_invited_role r ≡ true) h invited in
    absurd (ground arith)

accepts_join_org :
    (text : Text) (token : String) (invitation : Invitation) (params : Params) (user : User)
    (now : ℕ) (db : Db) {db' : Db}
    → get_invitation token db ≡ some invitation
    → invitation.action ≡ "join_org"
    → text.loads invitation.parameters ≡ some params
    → accept_invitation text token user now db ≡ ok db'
    → handle_join_org_action invitation user params now db ≡ ok db'
unfolding accept_invitation
accepts_join_org text token invitation params user now db stored join parsed h =
    let is_join : str_eq invitation.action "join_org" ≡ true =
      (eq_iff invitation.action "join_org").1 join in
    elim (Option-cases (check_invitation_available text invitation now)) [
      | inl available ↦ ground arith
      | inr (message, refused) ↦ absurd (ground arith)
    ]

-- The memberships after an acceptance, seen by the id of the organization.
joined-role_of :
    (token : String) (invitation : Invitation) (user : User) (params : Params) (now : ℕ) (db : Db)
    {db' : Db} (org_id u o : ℕ)
    → get_invitation token db ≡ some invitation
    → params.org_id ≡ some org_id
    → handle_join_org_action invitation user params now db ≡ ok db'
    → role_of u o db' ≡ (
        if user.id == u && org_id == o
        then some (record { user = user.id; organization = org_id; role = or_member params.role })
        else role_of u o db)
unfolding role_of mark_invitation_used get_user_by_id
joined-role_of token invitation user params now db org_id u o stored names h =
    let (org, joined, org_found, _, made, done) =
      join_org_cases token invitation user params now db stored h in
    let here : get_user_by_id org_id db ≡ some org = rw names at org_found in
    let same : org.id ≡ org_id =
      let hit = find?_passes (λ u. u.id == org_id) db.users org here in ground (arith, hit) in
    rw (← done, ← same) (role_of-create user org (or_member params.role) db u o made)

module _ (text : Text) (id : ℕ) (token org_name : String) (req : OrgInvitation) (user guest : User)
    (now later : ℕ) (db : Db) {db' db'' : Db} where
  -- Where an invitation was created and its parameters are read back as they were written, whoever
  -- accepts it gets the role that was asked for in that organization, which is never super-admin;
  -- every other membership is as it was, and an admin of the organization created the invitation.
  pub created_accepted :
      ((org : User)
        → get_organization org_name db ≡ some org
        → text.loads (text.dumps (params_of req org)) ≡ some (params_of req org))
      → create_org_invitation text id token org_name req user now db ≡ ok db'
      → accept_invitation text token guest later db' ≡ ok db''
      → (org : User) × (get_organization org_name db ≡ some org)
        × (is_admin_of (get_user_organization user org db) ≡ true)
        × (req.role ≢ "super-admin")
        × ((u o : ℕ)
            → role_of u o db'' ≡ (
                if guest.id == u && org.id == o
                then some (record { user = guest.id; organization = org.id; role = req.role })
                else role_of u o db))
  unfolding role_of
  created_accepted read_back created accepted =
      let (org, org_found, by_admin, invited, _, done) =
        create_cases text id token org_name req user now db created in
      let row : Invitation = invitation_row text id token req org user now in
      let stored : get_invitation token db' ≡ some row =
        created-get_invitation text id token org_name req user now db created in
      let handled =
        accepts_join_org text token row (params_of req org) guest later db' stored refl
          (read_back org org_found) accepted in
      let joined = λ (u o : ℕ).
        joined-role_of token row guest (params_of req org) later db' org.id u o stored refl
          handled in
      let kept : (u o : ℕ) → role_of u o db' ≡ role_of u o db =
        λ u o. ap (λ (d : Db). role_of u o d) (sym done) in
      (
        org,
        org_found,
        by_admin,
        invited_role req.role invited,
        λ u o. joined u o ∙ unchanged org u o (kept u o),
      )
    where
      unchanged :
          (org : User) (u o : ℕ)
          → role_of u o db' ≡ role_of u o db
          → (if guest.id == u && org.id == o
              then some (record { user = guest.id; organization = org.id; role = req.role })
              else role_of u o db')
            ≡ (if guest.id == u && org.id == o
                then some (record { user = guest.id; organization = org.id; role = req.role })
                else role_of u o db)
      unchanged org u o same = rw same refl

-- ===== src/Invitations/Deleting.antt =====
-- Which invitations are deleted, by whom (src/kohakuhub/api/invitation/router.py), and by the
-- clean-up delete_expired_invitations of src/kohakuhub/db_operations.py.
use kohaku_hub.Prelude.{
  ℕ, ◌≡◌, ◌≢◌, ap, String, Bool, true, not, none, some, List, keep, find?, find?_passes, find?-Elem,
  Elem, Elem-keep, AtMostOne, arith, eq_iff, ◌==◌, str_eq, Option-cases, Bool-cases, inl, inr,
}
use kohaku_hub.Prelude.Int.{pos, ltb_ℤ}
use kohaku_hub.Http.{ok, bind_ok}
use kohaku_hub.Db.{Db, User, Invitation}
use kohaku_hub.Db.Queries.{get_user_organization}
use kohaku_hub.Org.{is_admin_of}
use kohaku_hub.Invitations.{
  Text, Params, get_invitation, check_invitation_available, org_of, deletion_check,
  delete_invitation, delete_expired_invitations, delete_invitation_endpoint,
}
use kohaku_hub.Invitations.Available.{check_invitation_available_iff}

-- The clean-up deletes no invitation that is available, deletes each one that expired before and was
-- never used, and leaves each one that was ever used, however long ago it expired.
pub delete_expired_invitations_effect :
    (text : Text) (now : ℕ) (db : Db) (invitation : Invitation)
    → Elem invitation db.invitations
    → (check_invitation_available text invitation now ≡ none
        → Elem invitation (delete_expired_invitations now db).invitations)
      × (ltb_ℤ invitation.expires_at (pos now) ≡ true
          → invitation.used_at ≡ none
          → ¬ Elem invitation (delete_expired_invitations now db).invitations)
      × ((first : ℕ)
          → invitation.used_at ≡ some first
          → Elem invitation (delete_expired_invitations now db).invitations)
unfolding delete_expired_invitations
delete_expired_invitations_effect text now db invitation stored =
    let (to, from) = Elem-keep _ db.invitations invitation in
    (
      λ available.
          let (fresh, _) = (check_invitation_available_iff text invitation now).0 available in
          from (stored, ground (arith, fresh)),
      λ expired unused e. let (_, kept) = to e in ground (arith, kept),
      λ first used. from (stored, ground (arith, used)),
    )

module _ (text : Text) (token : String) (user : User) (db : Db) where
  delete_cases :
      {db' : Db}
      → delete_invitation_endpoint text token user db ≡ ok db'
      → (invitation : Invitation) × (params : Params) × (get_invitation token db ≡ some invitation)
        × (text.loads invitation.parameters ≡ some params)
        × (deletion_check invitation params user db ≡ ok tt)
        × (delete_invitation invitation db ≡ db')
  unfolding delete_invitation_endpoint
  delete_cases {db'} h = elim (Option-cases (get_invitation token db)) [
    | inl missing ↦ absurd (ground arith)
    | inr (invitation, stored) ↦ elim (Option-cases (text.loads invitation.parameters)) [
      | inl broken ↦ absurd (ground arith)
      | inr (params, parsed) ↦
          let (_, allowed, done) =
            bind_ok (deletion_check invitation params user db)
              (λ _. ok (delete_invitation invitation db)) {y = db'} (ground arith) in
          (invitation, params, stored, parsed, allowed, ground arith)
    ]
  ]

  admin_checked :
      (invitation : Invitation) (params : Params)
      → deletion_check invitation params user db ≡ ok tt
      → invitation.action ≡ "join_org"
      → (org : User) × (org_of params.org_id db ≡ some org)
        × (is_admin_of (get_user_organization user org db) ≡ true)
  admin_checked invitation params allowed join =
      let is_join : str_eq invitation.action "join_org" ≡ true =
        (eq_iff invitation.action "join_org").1 join in
      elim (Option-cases (org_of params.org_id db)) [
        | inl missing ↦ absurd (ground arith)
        | inr (org, org_found) ↦ (org, org_found, ground arith)
      ]

  deleted-get_invitation :
      (invitation : Invitation)
      → AtMostOne (λ i. str_eq i.token token) db.invitations
      → get_invitation token db ≡ some invitation
      → get_invitation token (delete_invitation invitation db) ≡ none
  unfolding get_invitation delete_invitation
  deleted-get_invitation invitation unique stored =
      let p : Invitation → Bool = λ i. str_eq i.token token in
      let rest : List Invitation = keep (λ i. not (i.id == invitation.id)) db.invitations in
      elim (Option-cases (find? p rest)) [
        | inl none_left ↦ none_left
        | inr (other, found_other) ↦
            let (there, kept) =
              (Elem-keep _ db.invitations other).0 (find?-Elem p rest other found_other) in
            let same =
              unique other invitation there (find?-Elem p db.invitations invitation stored)
                (find?_passes p rest other found_other)
                (find?_passes p db.invitations invitation stored) in
            let id : other.id ≡ invitation.id = ap (λ (i : Invitation). i.id) same in
            absurd (ground (arith, id, kept))
      ]

  -- Where no two invitations have the token, a successful deletion leaves no invitation with it,
  -- and if the invitation is to an organization, then the caller is an admin of that organization.
  pub delete_invitation_effect :
      {db' : Db}
      → AtMostOne (λ i. str_eq i.token token) db.invitations
      → delete_invitation_endpoint text token user db ≡ ok db'
      → (get_invitation token db' ≡ none)
        × ((invitation : Invitation)
            → get_invitation token db ≡ some invitation
            → invitation.action ≡ "join_org"
            → (params : Params) × (org : User) × (text.loads invitation.parameters ≡ some params)
              × (org_of params.org_id db ≡ some org)
              × (is_admin_of (get_user_organization user org db) ≡ true))
  unfolding delete_invitation_endpoint delete_invitation get_invitation
  delete_invitation_effect unique h =
      let (found, params, stored, parsed, allowed, done) = delete_cases h in
      (
        rw (← done) (deleted-get_invitation found unique stored),
        λ invitation stored' join.
            let same : found ≡ invitation = ground (arith, stored, stored') in
            let (org, org_found, by_admin) = admin_checked found params allowed (rw same join) in
            (params, org, rw (← same) parsed, org_found, by_admin),
      )

  -- Any caller who has its token deletes an invitation that is not to an organization, if its
  -- parameters can be read.
  pub anyone_deletes :
      (invitation : Invitation) (params : Params)
      → get_invitation token db ≡ some invitation
      → text.loads invitation.parameters ≡ some params
      → invitation.action ≢ "join_org"
      → delete_invitation_endpoint text token user db ≡ ok (delete_invitation invitation db)
  unfolding delete_invitation_endpoint
  anyone_deletes invitation params stored parsed other =
      elim (Bool-cases (str_eq invitation.action "join_org")) [
        | inl join ↦ absurd (other ((eq_iff invitation.action "join_org").0 join))
        | inr is_other ↦ ground arith
      ]

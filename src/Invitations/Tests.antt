-- ===== src/Invitations/Tests.antt =====
-- An invitation to `acme` in the test tables: created, accepted, deleted
-- (src/kohakuhub/api/invitation/router.py).
use kohaku_hub.Prelude.{
  ℕ, ◌≡◌, ◌≢◌, ◌<◌, ◌↔◌, refl, Bool, true, ◌&&◌, none, some, [], ◌∷◌, find?, any, keep, Elem,
  AtMostOne, AtMostOne-nil, AtMostOne-cons, ◌==◌, str_eq, eq_iff, arith, if◌then◌else◌, inl,
}
use kohaku_hub.Prelude.Int.{pos, ◌+ℤ◌}
use kohaku_hub.Http.{ok, err, http}
use kohaku_hub.Db.{Db, User, UserOrganization, Invitation}
use kohaku_hub.Db.Queries.{
  get_organization, get_user_by_id, get_user_organization, create_user_organization,
}
use kohaku_hub.Db.Keys.{role_of}
use kohaku_hub.Org.{is_admin_of}
use kohaku_hub.Fixtures.{tables, alice, bob, acme, alice_in_acme}
use kohaku_hub.Invitations.{
  Text, OrgInvitation, params_of, invitation_row, create_invitation, create_org_invitation,
  get_invitation, mark_invitation_used, check_invitation_available, handle_join_org_action,
  accept_invitation, used, delete_invitation, delete_invitation_endpoint,
  delete_expired_invitations,
}
use kohaku_hub.Invitations.Available.{check_invitation_available_iff}
use kohaku_hub.Invitations.Joining.{created_accepted}
use kohaku_hub.Invitations.Usage.{accept_all, WithinLimit, accept_all-WithinLimit}
use kohaku_hub.Invitations.Deleting.{delete_expired_invitations_effect}

abbrev request : OrgInvitation
request = record { email = none; role = "member"; max_usage = some (pos 1); expires_days = pos 7 }

abbrev text : Text
text = record {
  dumps = λ params. "{...}";
  loads = λ json. some (params_of request acme);
  str = λ number. "1";
}

abbrev invitation : Invitation
invitation = invitation_row text 1 "token" request acme alice 1000

abbrev invited : Db
invited = record tables { invitations = invitation ∷ [] }

abbrev bob_in_acme : UserOrganization
bob_in_acme = record { user = 3; organization = 2; role = "member" }

abbrev accepted : Db
accepted = record tables {
  memberships = alice_in_acme ∷ bob_in_acme ∷ [];
  invitations = used invitation bob 2000 ∷ [];
}

alice_invites : create_org_invitation text 1 "token" "acme" request alice 1000 tables ≡ ok invited
unfolding create_org_invitation get_organization get_user_organization create_invitation find? any
alice_invites = refl

bob_accepts : accept_invitation text "token" bob 2000 invited ≡ ok accepted
unfolding accept_invitation get_invitation check_invitation_available handle_join_org_action
    get_user_by_id get_user_organization create_user_organization mark_invitation_used find? any
    ◌+ℤ◌
bob_accepts = refl

bob_too_late :
    accept_invitation text "token" bob 605800 invited ≡ err (http 400 "Invitation has expired")
unfolding accept_invitation get_invitation check_invitation_available find? ◌+ℤ◌
bob_too_late = refl

spent :
    accept_invitation text "token" acme 3000 accepted
    ≡ err (http 400 "Invitation has reached maximum usage limit (1)")
unfolding accept_invitation get_invitation check_invitation_available find? ◌+ℤ◌
spent = refl

two_requests : (accept_all text "token" ((bob, 2000) ∷ (acme, 3000) ∷ []) invited).0 ≡ 1
unfolding accept_all accept_invitation get_invitation check_invitation_available
    handle_join_org_action get_user_by_id get_user_organization create_user_organization
    mark_invitation_used find? any ◌+ℤ◌
two_requests = refl

check_invitation_available_iff_example :
    check_invitation_available text invitation 2000 ≡ none ↔ ((true ≡ true) × (0 < 1))
unfolding ◌+ℤ◌
check_invitation_available_iff_example = check_invitation_available_iff text invitation 2000

found_acme :
    (org : User)
    → get_organization "acme" tables ≡ some org
    → some (params_of request acme) ≡ some (params_of request org)
unfolding get_organization find?
found_acme org h = ground (arith, h)

created_accepted_example :
    (org : User) × (get_organization "acme" tables ≡ some org)
    × (is_admin_of (get_user_organization alice org tables) ≡ true)
    × (request.role ≢ "super-admin")
    × ((u o : ℕ)
        → role_of u o accepted ≡ (
            if 3 == u && org.id == o
            then some (record { user = 3; organization = org.id; role = "member" })
            else role_of u o tables))
created_accepted_example =
    created_accepted text 1 "token" "acme" request alice bob 1000 2000 tables found_acme
      alice_invites bob_accepts

stored : get_invitation "token" invited ≡ some invitation
unfolding get_invitation find?
stored = refl

accept_all-WithinLimit_example :
    WithinLimit
      (some (pos 1))
      0
      none
      (accept_all text "token" ((bob, 2000) ∷ (acme, 3000) ∷ []) invited).0
accept_all-WithinLimit_example =
    accept_all-WithinLimit text "token" ((bob, 2000) ∷ (acme, 3000) ∷ []) invited invitation stored

delete_expired_invitations_effect_example :
    (check_invitation_available text invitation 700000 ≡ none
      → Elem invitation (delete_expired_invitations 700000 invited).invitations)
    × (true ≡ true
        → invitation.used_at ≡ none
        → ¬ Elem invitation (delete_expired_invitations 700000 invited).invitations)
    × ((first : ℕ)
        → invitation.used_at ≡ some first
        → Elem invitation (delete_expired_invitations 700000 invited).invitations)
unfolding ◌+ℤ◌
delete_expired_invitations_effect_example =
    delete_expired_invitations_effect text 700000 invited invitation (inl refl)

alice_deletes : delete_invitation_endpoint text "token" alice invited ≡ ok tables
unfolding delete_invitation_endpoint get_invitation get_user_by_id get_user_organization
    delete_invitation find? keep
alice_deletes = refl

one_token : AtMostOne (λ (i : Invitation). str_eq i.token "token") invited.invitations
unfolding any
one_token =
    let p : Invitation → Bool = λ i. str_eq i.token "token" in
    AtMostOne-cons p invitation [] (λ h. refl) (AtMostOne-nil p)

-- An invitation to register.
abbrev registration : Invitation
registration = record invitation { action = "register_account"; created_by = none }

abbrev with_registration : Db
with_registration = record tables { invitations = registration ∷ [] }

registration_stored : get_invitation "token" with_registration ≡ some registration
unfolding get_invitation find?
registration_stored = refl

other_action : registration.action ≢ "join_org"
other_action h =
    let same : str_eq "register_account" "join_org" ≡ true =
      (eq_iff "register_account" "join_org").1 h in
    absurd (ground (arith, same))

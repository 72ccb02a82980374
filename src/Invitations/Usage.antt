-- ===== src/Invitations/Usage.antt =====
-- How often an invitation can be accepted (src/kohakuhub/api/invitation/router.py).
use kohaku_hub.Prelude.{
  ℕ, zero, suc, ◌+◌, ◌≤◌, ◌-◌, ◌⊎◌, ◌≡◌, refl, String, Option, none, some, List, [], ◌∷◌, arith,
  inl, inr,
}
use mathlib.Core.Path.{subst}
use kohaku_hub.Prelude.Int.{ℤ, pos, negsuc}
use kohaku_hub.Http.{Result, ok, err, Error}
use kohaku_hub.Db.{Db, User, Invitation}
use kohaku_hub.Invitations.{Text, get_invitation, used, accept_invitation}
use kohaku_hub.Invitations.Available.{UsesLeft, check_invitation_available_iff}
use kohaku_hub.Invitations.Accepting.{accept-get_invitation}

-- Requests of users, at their times, to accept one invitation: how many succeed, and the tables
-- after all of them.
unfoldable pub accept_all : Text → String → List (User × ℕ) → Db → ℕ × Db
accept_all text token [] db = (0, db)
accept_all text token ((user, now) ∷ requests) db =
    elim (accept_invitation text token user now db) [
      | err raised ↦ accept_all text token requests db
      | ok db' ↦ let (accepted, end) = accept_all text token requests db' in (suc accepted, end)
    ]

-- What a limit, a count of uses and a first use allow: so many further uses at most.
abbrev pub WithinLimit : Option ℤ → ℕ → Option ℕ → ℕ → Type 0
WithinLimit none usage_count none accepted = accepted ≤ 1
WithinLimit none usage_count (some first) accepted = accepted ≡ 0
WithinLimit (some (pos limit)) usage_count used_at accepted = accepted ≤ limit - usage_count
WithinLimit (some (negsuc zero)) usage_count used_at accepted = Unit
WithinLimit (some (negsuc (suc n))) usage_count used_at accepted = accepted ≡ 0

none_accepted :
    (max_usage : Option ℤ) (usage_count : ℕ) (used_at : Option ℕ)
    → WithinLimit max_usage usage_count used_at 0
none_accepted none usage_count none = omega arith
none_accepted none usage_count (some first) = refl
none_accepted (some (pos limit)) usage_count used_at = omega arith
none_accepted (some (negsuc zero)) usage_count used_at = tt
none_accepted (some (negsuc (suc n))) usage_count used_at = refl

-- A use that was left, and what is allowed after it.
one_more :
    (max_usage : Option ℤ) (usage_count : ℕ) (used_at : Option ℕ) (first accepted : ℕ)
    → UsesLeft max_usage usage_count used_at
    → WithinLimit max_usage (usage_count + 1) (some first) accepted
    → WithinLimit max_usage usage_count used_at (suc accepted)
one_more none usage_count none first accepted left later = omega arith
one_more none usage_count (some t) first accepted left later = absurd (ground arith)
one_more (some (pos limit)) usage_count used_at first accepted left later = omega arith
one_more (some (negsuc zero)) usage_count used_at first accepted left later = tt
one_more (some (negsuc (suc n))) usage_count used_at first accepted left later = absurd left

Result-cases : {A : Type 0} (r : Result A) → ((e : Error) × (r ≡ err e)) ⊎ ((a : A) × (r ≡ ok a))
Result-cases (err e) = inl (e, refl)
Result-cases (ok a) = inr (a, refl)

accepted-get_invitation :
    (text : Text) (token : String) (user : User) (now : ℕ) (db : Db) (invitation : Invitation)
    → get_invitation token db ≡ some invitation
    → (db' : Db) → accept_invitation text token user now db ≡ ok db'
    → UsesLeft invitation.max_usage invitation.usage_count invitation.used_at
      × (get_invitation token db' ≡ some (used invitation user now))
accepted-get_invitation text token user now db invitation stored db' h =
    let (found, stored', available, after) = accept-get_invitation text token user now db h in
    let same : found ≡ invitation = ground (arith, stored, stored') in
    let (_, left) = (check_invitation_available_iff text found now).0 available in
    subst
      (λ i.
        UsesLeft i.max_usage i.usage_count i.used_at
        × (get_invitation token db' ≡ some (used i user now)))
      same (left, after)

-- However many requests come, an invitation is accepted at most once if it is for a single use, not
-- at all if that use is spent, and with a limit at most as often as its count leaves.
pub accept_all-WithinLimit :
    (text : Text) (token : String) (requests : List (User × ℕ)) (db : Db) (invitation : Invitation)
    → get_invitation token db ≡ some invitation
    → WithinLimit invitation.max_usage invitation.usage_count invitation.used_at
        (accept_all text token requests db).0
unfolding accept_all
accept_all-WithinLimit text token [] db invitation stored =
    none_accepted invitation.max_usage invitation.usage_count invitation.used_at
accept_all-WithinLimit text token ((user, now) ∷ requests) db invitation stored =
    elim (Result-cases (accept_invitation text token user now db)) [
      | inl (e, refused) ↦
          rw (accept_all, refused) (accept_all-WithinLimit text token requests db invitation stored)
      | inr (db', accepted) ↦
          let (left, after) =
            accepted-get_invitation text token user now db invitation stored db' accepted in
          rw (accept_all, accepted)
            (one_more invitation.max_usage invitation.usage_count invitation.used_at _ _ left
              (accept_all-WithinLimit text token requests db' (used invitation user now) after))
    ]

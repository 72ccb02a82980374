-- ===== src/Invitations/Available.antt =====
-- Which invitations check_invitation_available of src/kohakuhub/db_operations.py admits.
use kohaku_hub.Prelude.{
  ℕ, zero, suc, true, ◌≡◌, refl, ◌<◌, ◌⊎◌, ◌↔◌, Option, none, some, arith, Option-cases, inl, inr,
}
use kohaku_hub.Prelude.Int.{ℤ, pos, negsuc, ltb_ℤ}
use kohaku_hub.Db.{Invitation}
use kohaku_hub.Invitations.{Text, check_invitation_available}

-- Unused, unlimited, or used less often than the limit.
abbrev pub UsesLeft : Option ℤ → ℕ → Option ℕ → Type 0
UsesLeft none usage_count used_at = used_at ≡ none
UsesLeft (some (pos limit)) usage_count used_at = usage_count < limit
UsesLeft (some (negsuc zero)) usage_count used_at = Unit
UsesLeft (some (negsuc (suc n))) usage_count used_at = ⊥

limit_cases :
    (m : Option ℤ)
    → (m ≡ none)
      ⊎ ((m ≡ some (negsuc 0))
          ⊎ (((limit : ℕ) × (m ≡ some (pos limit))) ⊎ ((n : ℕ) × (m ≡ some (negsuc (suc n))))))
limit_cases none = inl refl
limit_cases (some (pos limit)) = inr (inr (inl (limit, refl)))
limit_cases (some (negsuc zero)) = inr (inl refl)
limit_cases (some (negsuc (suc n))) = inr (inr (inr (n, refl)))

-- An invitation is available exactly if it has not expired and has a use left: a single-use
-- invitation was never used, one with limit -1 always has, any other was used fewer times than
-- its limit (never, if that is negative).
pub check_invitation_available_iff :
    (text : Text) (invitation : Invitation) (now : ℕ)
    → check_invitation_available text invitation now ≡ none ↔ (
        (ltb_ℤ (pos now) invitation.expires_at ≡ true)
        × UsesLeft invitation.max_usage invitation.usage_count invitation.used_at)
unfolding check_invitation_available
check_invitation_available_iff text invitation now = elim (limit_cases invitation.max_usage) [
  | inl once ↦ rw once (ground (arith, Option-cases invitation.used_at))
  | inr (inl unlimited) ↦ rw unlimited (ground arith)
  | inr (inr (inl (limit, h))) ↦ rw h (ground arith)
  | inr (inr (inr (n, h))) ↦ rw h (ground arith)
]

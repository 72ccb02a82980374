-- ===== src/Commit/Inversion.antt =====
-- What is known of the parts of a handler of src/kohakuhub/api/commit/routers/operations.py that gave
-- a value, and of those of one that raised.
use kohaku_hub.Prelude.{◌≡◌, refl, ap, ◌⊎◌, ◌∙◌, Bool, List, arith, inl, inr}
use kohaku_hub.Http.{Error, Result, ok, err}
use kohaku_hub.Commit.{LakeFs, Work, Handler, continue}
use kohaku_hub.Commit.Process.{LfsInfo}
use kohaku_hub.Commit.Run.{with_info, without_info}

-- A bind that gave a value gave one in its first part.
pub continue-eq-ok :
    {lakefs : LakeFs} {A B : Type 0} (r : Result A × Work lakefs) (f : A → Handler lakefs B) (b : B)
    (w' : Work lakefs)
    → continue r f ≡ (ok b, w')
    → (a : A) × (w : Work lakefs) × (r ≡ (ok a, w)) × (f a w ≡ (ok b, w'))
continue-eq-ok (ok a, w) f b w' h = (a, w, refl, h)
continue-eq-ok (err e, w) f b w' h = absurd (cc h)

-- A bind that raised raised in its first part or in its second.
pub continue-eq-err :
    {lakefs : LakeFs} {A B : Type 0} (r : Result A × Work lakefs) (f : A → Handler lakefs B)
    (e : Error) (w' : Work lakefs)
    → continue r f ≡ (err e, w')
    → (r ≡ (err e, w')) ⊎ ((a : A) × (w : Work lakefs) × (r ≡ (ok a, w)) × (f a w ≡ (err e, w')))
continue-eq-err (ok a, w) f e w' h = inr (a, w, refl, h)
continue-eq-err (err e, w) f e' w' h = inl (ground arith)

module _ {lakefs : LakeFs} (out : Bool × List LfsInfo) (w' : Work lakefs) where
  pub with_info-eq-ok :
      (r : Result (Bool × LfsInfo) × Work lakefs)
      → continue r with_info ≡ (ok out, w')
      → (result : Bool × LfsInfo) × (r ≡ (ok result, w'))
  with_info-eq-ok r h =
      let (result, next, done, same) = continue-eq-ok r with_info out w' h in
      (result, done ∙ ap (λ w. (ok result, w)) (ap (λ pair. pair.1) same))

  pub without_info-eq-ok :
      (r : Result Bool × Work lakefs)
      → continue r without_info ≡ (ok out, w')
      → (changed : Bool) × (r ≡ (ok changed, w'))
  without_info-eq-ok r h =
      let (changed, next, done, same) = continue-eq-ok r without_info out w' h in
      (changed, done ∙ ap (λ w. (ok changed, w)) (ap (λ pair. pair.1) same))

module _ {lakefs : LakeFs} (e : Error) (w' : Work lakefs) where
  pub with_info-eq-err :
      (r : Result (Bool × LfsInfo) × Work lakefs)
      → continue r with_info ≡ (err e, w')
      → r ≡ (err e, w')
  with_info-eq-err r h = elim (continue-eq-err r with_info e w' h) [
    | inl raised ↦ raised
    | inr (result, next, done, more) ↦ absurd (cc more)
  ]

  pub without_info-eq-err :
      (r : Result Bool × Work lakefs) → continue r without_info ≡ (err e, w') → r ≡ (err e, w')
  without_info-eq-err r h = elim (continue-eq-err r without_info e w' h) [
    | inl raised ↦ raised
    | inr (changed, next, done, more) ↦ absurd (cc more)
  ]

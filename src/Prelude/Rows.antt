-- ===== src/Prelude/Rows.antt =====
-- Rows of a table, and what a query for the first of them finds.
use mathlib.Core.Path.{◌≡◌, refl, sym, ap, ◌∙◌}
use mathlib.Core.Bool.{Bool, true, false, ◌&&◌}
use mathlib.Core.Logic.{◌⊎◌, ◌↔◌, inl, inr}
use mathlib.Core.List.{List, [], ◌∷◌, ◌++◌, map}
use mathlib.Core.Option
use mathlib.Core.Option.{Option, none, some}
use native.Mathlib.Omega.{arith}
use kohaku_hub.Prelude.Tests.{if◌then◌else◌, Bool-cases}
use kohaku_hub.Prelude.Lists.{find?, keep, any, find?_passes}

-- The row stands in the table.
abbrev pub Elem : {A : Type 0} → A → List A → Type 0
Elem x [] = ⊥
Elem x (y ∷ ys) = (x ≡ y) ⊎ Elem x ys

-- At most one row of the table passes the test.
abbrev pub AtMostOne : {A : Type 0} → (A → Bool) → List A → Type 0
AtMostOne {A} p xs = (x y : A) → Elem x xs → Elem y xs → p x ≡ true → p y ≡ true → x ≡ y

module _ {A : Type 0} (p : A → Bool) where
  pub find?-Elem : (xs : List A) (x : A) → find? p xs ≡ some x → Elem x xs
  unfolding find?
  find?-Elem [] x h = cc
  find?-Elem (y ∷ ys) x h = elim (Bool-cases (p y)) [
    | inl hit ↦ inl (ground arith)
    | inr miss ↦ inr (find?-Elem ys x (ground arith))
  ]

  pub find?-eq-none : (xs : List A) (x : A) → find? p xs ≡ none → Elem x xs → p x ≡ false
  unfolding find?
  find?-eq-none [] x h e = elim e [ ]
  find?-eq-none (y ∷ ys) x h (inl e) = rw e (ground arith)
  find?-eq-none (y ∷ ys) x h (inr e) = find?-eq-none ys x (ground arith) e

  pub find?_hit : (xs : List A) (x : A) → Elem x xs → p x ≡ true → (y : A) × (find? p xs ≡ some y)
  unfolding find?
  find?_hit [] x e hit = elim e [ ]
  find?_hit (y ∷ ys) x e hit = elim (Bool-cases (p y)) [
    | inl this ↦ (y, rw this)
    | inr miss ↦ elim e [
      | inl same ↦ absurd (cc (ap p same))
      | inr later ↦ let (z, h) = find?_hit ys x later hit in (z, rw miss h)
    ]
  ]

  pub find?_only :
      (xs : List A) (x : A) → AtMostOne p xs → Elem x xs → p x ≡ true → find? p xs ≡ some x
  find?_only xs x one e hit =
      let (y, h) = find?_hit xs x e hit in
      h ∙ ap some (one y x (find?-Elem xs y h) e (find?_passes p xs y h) hit)

  pub Elem-keep : (xs : List A) (x : A) → Elem x (keep p xs) ↔ (Elem x xs × (p x ≡ true))
  unfolding keep
  Elem-keep [] x = (λ e. elim e [ ], λ e. elim e.0 [ ])
  Elem-keep (y ∷ ys) x = elim (Bool-cases (p y)) [
    | inl hit ↦ rw hit (
      λ e. elim e [
        | inl same ↦ (inl same, ap p same ∙ hit)
        | inr later ↦ let (f, h) = (Elem-keep ys x).0 later in (inr f, h)
      ],
      λ (e, h). elim e [ inl same ↦ inl same | inr later ↦ inr ((Elem-keep ys x).1 (later, h)) ],
    )
    | inr miss ↦ rw miss (
      λ e. let (f, h) = (Elem-keep ys x).0 e in (inr f, h),
      λ (e, h). elim e [
        | inl same ↦ absurd (cc (ap p same))
        | inr later ↦ (Elem-keep ys x).1 (later, h)
      ],
    )
  ]

  pub any-eq-false : (xs : List A) (x : A) → any p xs ≡ false → Elem x xs → p x ≡ false
  unfolding any
  any-eq-false [] x h e = elim e [ ]
  any-eq-false (y ∷ ys) x h (inl e) = rw e (ground arith)
  any-eq-false (y ∷ ys) x h (inr e) = any-eq-false ys x (ground arith) e

  pub any-eq-find? : (xs : List A) → find? p xs ≡ none → any p xs ≡ false
  unfolding any find?
  any-eq-find? [] h = refl
  any-eq-find? (y ∷ ys) h = ground (arith, any-eq-find? ys)

  pub any-eq-true : (xs : List A) (x : A) → Elem x xs → p x ≡ true → any p xs ≡ true
  unfolding any
  any-eq-true [] x e hit = elim e [ ]
  any-eq-true (y ∷ ys) x (inl e) hit = rw (← e, hit) refl
  any-eq-true (y ∷ ys) x (inr e) hit = ground (arith, any-eq-true ys x e hit)

module _ {A : Type 0} where
  pub Elem-append : (xs ys : List A) (x : A) → Elem x (xs ++ ys) ↔ (Elem x xs ⊎ Elem x ys)
  Elem-append [] ys x = (inr, λ e. elim e [ inl no_row ↦ absurd no_row | inr later ↦ later ])
  Elem-append (y ∷ xs) ys x =
      let (to, from) = Elem-append xs ys x in
      (
        λ e. elim e [
          | inl same ↦ inl (inl same)
          | inr later ↦ elim (to later) [ inl l ↦ inl (inr l) | inr r ↦ inr r ]
        ],
        λ e. elim e [
          | inl front ↦ elim front [ inl same ↦ inl same | inr l ↦ inr (from (inl l)) ]
          | inr r ↦ inr (from (inr r))
        ],
      )

  pub Elem-map :
      {B : Type 0} (f : A → B) (xs : List A) (y : B)
      → Elem y (map f xs)
      → (x : A) × Elem x xs × (y ≡ f x)
  Elem-map f [] y e = elim e [ ]
  Elem-map f (x ∷ xs) y (inl same) = (x, inl refl, same)
  Elem-map f (x ∷ xs) y (inr later) = let (z, e, h) = Elem-map f xs y later in (z, inr e, h)

  pub AtMostOne-keep : (p q : A → Bool) (xs : List A) → AtMostOne p xs → AtMostOne p (keep q xs)
  AtMostOne-keep p q xs one x y e f = one x y ((Elem-keep q xs x).0 e).0 ((Elem-keep q xs y).0 f).0

  -- A row may be added where no row has its key.
  pub AtMostOne-append :
      (p : A → Bool) (xs : List A) (row : A)
      → AtMostOne p xs
      → (p row ≡ true → any p xs ≡ false)
      → AtMostOne p (xs ++ row ∷ [])
  AtMostOne-append p xs row one fresh x y e f hx hy = elim ((Elem-append xs (row ∷ []) x).0 e) [
    | inl ex ↦ elim ((Elem-append xs (row ∷ []) y).0 f) [
      | inl ey ↦ one x y ex ey hx hy
      | inr ey ↦ absurd (clash x ex hx y ey hy)
    ]
    | inr ex ↦ elim ((Elem-append xs (row ∷ []) y).0 f) [
      | inl ey ↦ absurd (clash y ey hy x ex hx)
      | inr ey ↦ last x ex ∙ sym (last y ey)
    ]
  ]
    where
      last : (z : A) → Elem z (row ∷ []) → z ≡ row
      last z (inl same) = same
      last z (inr no_row) = elim no_row [ ]

      clash : (z : A) → Elem z xs → p z ≡ true → (w : A) → Elem w (row ∷ []) → p w ≡ true → ⊥
      clash z ez hz w ew hw =
          let miss = any-eq-false p xs z (fresh (sym (ap p (last w ew)) ∙ hw)) ez in cc

  pub AtMostOne-map :
      (p : A → Bool) (f : A → A) (xs : List A)
      → ((x : A) → p (f x) ≡ p x)
      → AtMostOne p xs
      → AtMostOne p (map f xs)
  AtMostOne-map p f xs same one x y e g hx hy =
      let (a, ea, ha) = Elem-map f xs x e in
      let (b, eb, hb) = Elem-map f xs y g in
      ha
      ∙ ap f (one a b ea eb (sym (same a) ∙ ap p (sym ha) ∙ hx) (sym (same b) ∙ ap p (sym hb) ∙ hy))
      ∙ sym hb

  pub find?-map :
      (p : A → Bool) (f : A → A) (xs : List A)
      → ((x : A) → p (f x) ≡ p x)
      → find? p (map f xs) ≡ Option.map f (find? p xs)
  unfolding find?
  find?-map p f [] same = refl
  find?-map p f (x ∷ xs) same = ground (arith, same x, find?-map p f xs same)

  pub find?-keep_other :
      (p q : A → Bool) (xs : List A)
      → ((x : A) → p x ≡ true → q x ≡ true)
      → find? p (keep q xs) ≡ find? p xs
  unfolding find? keep
  find?-keep_other p q [] through = refl
  find?-keep_other p q (x ∷ xs) through = ground (arith, through x, find?-keep_other p q xs through)

  pub find?-append_fresh :
      (p : A → Bool) (xs : List A) (row : A)
      → any p xs ≡ false
      → find? p (xs ++ row ∷ []) ≡ (if p row then some row else none)
  unfolding find? any
  find?-append_fresh p [] row h = refl
  find?-append_fresh p (x ∷ xs) row h = ground (arith, find?-append_fresh p xs row)

  pub find?-append_other :
      (p : A → Bool) (xs : List A) (row : A) → p row ≡ false → find? p (xs ++ row ∷ []) ≡ find? p xs
  unfolding find?
  find?-append_other p [] row h = ground arith
  find?-append_other p (x ∷ xs) row h = ground (arith, find?-append_other p xs row h)

  pub find?-keep_empty :
      (p q : A → Bool) (xs : List A)
      → ((x : A) → p x ≡ true → q x ≡ false)
      → find? p (keep q xs) ≡ none
  unfolding find? keep
  find?-keep_empty p q [] out = refl
  find?-keep_empty p q (x ∷ xs) out = ground (arith, out x, find?-keep_empty p q xs out)

  -- A change of the rows that keeps the test of each of them.
  pub find?-map_on :
      (p : A → Bool) (f : A → A) (xs : List A)
      → ((x : A) → Elem x xs → p (f x) ≡ p x)
      → find? p (map f xs) ≡ Option.map f (find? p xs)
  unfolding find?
  find?-map_on p f [] same = refl
  find?-map_on p f (x ∷ xs) same =
      ground (arith, same x (inl refl), find?-map_on p f xs (λ y e. same y (inr e)))

  pub AtMostOne-map_on :
      (p : A → Bool) (f : A → A) (xs : List A)
      → ((x : A) → Elem x xs → p (f x) ≡ p x)
      → AtMostOne p xs
      → AtMostOne p (map f xs)
  AtMostOne-map_on p f xs same one x y e g hx hy =
      let (a, ea, ha) = Elem-map f xs x e in
      let (b, eb, hb) = Elem-map f xs y g in
      ha
      ∙ ap f (
          one a b ea eb (sym (same a ea) ∙ ap p (sym ha) ∙ hx)
            (sym (same b eb) ∙ ap p (sym hb) ∙ hy))
      ∙ sym hb

  pub AtMostOne-nil : (p : A → Bool) → AtMostOne p []
  AtMostOne-nil p x y e f hx hy = elim e [ ]

  pub AtMostOne-cons :
      (p : A → Bool) (row : A) (xs : List A)
      → (p row ≡ true → any p xs ≡ false)
      → AtMostOne p xs
      → AtMostOne p (row ∷ xs)
  AtMostOne-cons p row xs fresh one x y (inl ex) (inl ey) hx hy = ex ∙ sym ey
  AtMostOne-cons p row xs fresh one x y (inl ex) (inr ey) hx hy =
      let miss = any-eq-false p xs y (fresh (sym (ap p ex) ∙ hx)) ey in absurd (cc)
  AtMostOne-cons p row xs fresh one x y (inr ex) (inl ey) hx hy =
      let miss = any-eq-false p xs x (fresh (sym (ap p ey) ∙ hy)) ex in absurd (cc)
  AtMostOne-cons p row xs fresh one x y (inr ex) (inr ey) hx hy = one x y ex ey hx hy

  -- An element that passes one test is the first that passes two, where it passes the other too.
  pub find?-and :
      (p q : A → Bool) (xs : List A) (x : A)
      → find? p xs ≡ some x
      → q x ≡ true
      → find? (λ y. p y && q y) xs ≡ some x
  unfolding find?
  find?-and p q [] x h also = ground arith
  find?-and p q (y ∷ ys) x h also = elim (Bool-cases (p y)) [
    | inl hit ↦
        let same : y ≡ x = ground arith in
        let too : q y ≡ true = ap q same ∙ also in rw (hit, too, same) refl
    | inr miss ↦ rw miss (find?-and p q ys x (ground arith) also)
  ]

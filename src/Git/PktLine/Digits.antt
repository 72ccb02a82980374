-- ===== src/Git/PktLine/Digits.antt =====
-- The four digits of a pkt-line's length (src/kohakuhub/api/git/utils/server.py), written and read.
use Prim.Native.Nat.{◌/◌, ◌%◌}
use kohaku_hub.Prelude.{
  ℕ, suc, ◌+◌, ◌*◌, ◌≤◌, ◌<◌, ◌≡◌, ◌∙◌, ap, refl, inl, inr, Bool-cases, true, false, ltb, Option,
  some, [], ◌∷◌, ◌++◌, arith,
}
use kohaku_hub.Git.PktLine.{Bytes, hex_digit, hex, zeros, format_04x, hex_value, hex_text, int_16}

abbrev pub four_digits : ℕ → Bytes
four_digits n =
    hex_digit (n / 4096)
    ∷ hex_digit (n / 256 % 16)
    ∷ hex_digit (n / 16 % 16)
    ∷ hex_digit (n % 16)
    ∷ []

hex_one : (fuel n : ℕ) → n < 16 → hex (suc fuel) n ≡ hex_digit n ∷ []
unfolding hex
hex_one fuel n h = let small : ltb n 16 ≡ true = ground arith in rw small refl

hex_more : (fuel n : ℕ) → 16 ≤ n → hex (suc fuel) n ≡ hex fuel (n / 16) ++ hex_digit (n % 16) ∷ []
unfolding hex
hex_more fuel n h = let large : ltb n 16 ≡ false = ground arith in rw large refl

hex_two :
    (fuel n : ℕ)
    → 16 ≤ n
    → n < 256
    → hex (suc (suc fuel)) n ≡ hex_digit (n / 16) ∷ hex_digit (n % 16) ∷ []
hex_two fuel n low high = hex_more (suc fuel) n low ∙ rw (hex_one fuel (n / 16) (omega arith)) refl

hex_three :
    (fuel n : ℕ)
    → 256 ≤ n
    → n < 4096
    → hex (suc (suc (suc fuel))) n
      ≡ hex_digit (n / 256) ∷ hex_digit (n / 16 % 16) ∷ hex_digit (n % 16) ∷ []
hex_three fuel n low high =
    let top : n / 16 / 16 ≡ n / 256 = omega arith in
    hex_more (suc (suc fuel)) n (omega arith)
    ∙ rw (hex_two fuel (n / 16) (omega arith) (omega arith)) (rw top refl)

hex_four : (fuel n : ℕ) → 4096 ≤ n → n < 65536 → hex (suc (suc (suc (suc fuel)))) n ≡ four_digits n
hex_four fuel n low high =
    let top : n / 16 / 256 ≡ n / 4096 = omega arith in
    let next : n / 16 / 16 ≡ n / 256 = omega arith in
    hex_more (suc (suc (suc fuel))) n (omega arith)
    ∙ rw (hex_three fuel (n / 16) (omega arith) (omega arith)) (rw (top, next) refl)

pub format_04x-eq-four_digits : (n : ℕ) → n < 65536 → format_04x n ≡ four_digits n
unfolding format_04x zeros hex_digit
format_04x-eq-four_digits n h = elim (Bool-cases (ltb n 16)) [
  | inl one ↦
      let top : n / 4096 ≡ 0 = ground arith in
      let next : n / 256 % 16 ≡ 0 = ground arith in
      let third : n / 16 % 16 ≡ 0 = ground arith in
      let last : n % 16 ≡ n = ground arith in
      rw (hex_one 15 n (ground arith), top, next, third, last) refl
  | inr many ↦ elim (Bool-cases (ltb n 256)) [
    | inl two ↦
        let top : n / 4096 ≡ 0 = ground arith in
        let next : n / 256 % 16 ≡ 0 = ground arith in
        let third : n / 16 % 16 ≡ n / 16 = ground arith in
        rw (hex_two 14 n (ground arith) (ground arith), top, next, third) refl
    | inr more ↦ elim (Bool-cases (ltb n 4096)) [
      | inl three ↦
          let top : n / 4096 ≡ 0 = ground arith in
          let next : n / 256 % 16 ≡ n / 256 = ground arith in
          rw (hex_three 13 n (ground arith) (ground arith), top, next) refl
      | inr four ↦ rw (hex_four 12 n (ground arith) h) refl
    ]
  ]
]

hex_value-hex_digit : (v : ℕ) → v < 16 → hex_value (hex_digit v) ≡ some v
unfolding hex_value hex_digit
hex_value-hex_digit v h = ground arith

hex_text-cons :
    (n v : ℕ) (text : Bytes) → v < 16 → hex_text n (hex_digit v ∷ text) ≡ hex_text (n * 16 + v) text
unfolding hex_text
hex_text-cons n v text h = rw (hex_value-hex_digit v h, hex_text) refl

hex_text-four_digits : (n : ℕ) → n < 65536 → hex_text 0 (four_digits n) ≡ some n
unfolding hex_text
hex_text-four_digits n h =
    let d2 = hex_digit (n / 256 % 16) in
    let d1 = hex_digit (n / 16 % 16) in
    let d0 = hex_digit (n % 16) in
    let n3 = 0 * 16 + n / 4096 in
    let n2 = n3 * 16 + n / 256 % 16 in
    let n1 = n2 * 16 + n / 16 % 16 in
    let sum : n1 * 16 + n % 16 ≡ n = omega arith in
    hex_text-cons 0 (n / 4096) (d2 ∷ d1 ∷ d0 ∷ []) (omega arith)
    ∙ hex_text-cons n3 (n / 256 % 16) (d1 ∷ d0 ∷ []) (omega arith)
    ∙ hex_text-cons n2 (n / 16 % 16) (d0 ∷ []) (omega arith)
    ∙ hex_text-cons n1 (n % 16) [] (omega arith)
    ∙ ap (λ (k : ℕ). some k) sum

pub int_16-four_digits :
    (unusual : Bytes → Option ℕ) (n : ℕ) → n < 65536 → int_16 unusual (four_digits n) ≡ some n
unfolding int_16
int_16-four_digits unusual n h = rw (hex_text-four_digits n h, int_16) refl

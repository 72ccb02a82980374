-- ===== src/Git/PktLine/RoundTrip.antt =====
-- pkt-lines that src/kohakuhub/api/git/utils/server.py writes and reads again.
use mathlib.Core.Option
use mathlib.Core.List.{append_assoc}
use Prim.Native.Nat.{◌/◌, ◌%◌}
use kohaku_hub.Prelude.{
  ℕ, zero, suc, ◌+◌, ◌≤◌, ◌<◌, ◌≡◌, ◌∙◌, ap, refl, true, false, ltb, Option, none, some, List, [],
  ◌∷◌, ◌++◌, length, take, drop, length-append, All, arith,
}
use kohaku_hub.Git.PktLine.{
  Bytes, hex_digit, format_04x, pkt_line, pkt_line_stream, int_16, parse_pkt_line, is_end,
  parse_pkt_lines,
}
use kohaku_hub.Git.PktLine.Digits.{format_04x-eq-four_digits, int_16-four_digits}

take-length-append : (xs ys : Bytes) → take (length xs) (xs ++ ys) ≡ xs
take-length-append [] ys = refl
take-length-append (x ∷ xs) ys = rw (take-length-append xs ys) refl

drop-length-append : (xs ys : Bytes) → drop (length xs) (xs ++ ys) ≡ ys
drop-length-append [] ys = refl
drop-length-append (x ∷ xs) ys = drop-length-append xs ys

-- The length fits the four digits.
abbrev pub Fits : Option Bytes → Type 0
Fits none = Unit
Fits (some line) = length line + 4 < 65536

-- A flush packet at the end is not kept.
abbrev pub without_last_flush : List (Option Bytes) → List (Option Bytes)
without_last_flush [] = []
without_last_flush (none ∷ []) = []
without_last_flush (some line ∷ []) = some line ∷ []
without_last_flush (line ∷ next ∷ lines) = line ∷ without_last_flush (next ∷ lines)

module _ (unusual : Bytes → Option ℕ) where
  parse_line :
      (c3 c2 c1 c0 : ℕ) (line rest : Bytes)
      → int_16 unusual (c3 ∷ c2 ∷ c1 ∷ c0 ∷ []) ≡ some (suc (suc (suc (suc (length line)))))
      → parse_pkt_line unusual (c3 ∷ c2 ∷ c1 ∷ c0 ∷ (line ++ rest)) ≡ (some line, rest)
  unfolding parse_pkt_line
  parse_line c3 c2 c1 c0 line rest read =
      let taken = take-length-append line rest in
      let dropped = drop-length-append line rest in
      let few : ltb (suc (suc (suc (suc (length (line ++ rest)))))) 4 ≡ false = ground arith in
      rw (few, read) (ground (arith, taken, dropped))

  parse_flush :
      (c3 c2 c1 c0 : ℕ) (rest : Bytes)
      → int_16 unusual (c3 ∷ c2 ∷ c1 ∷ c0 ∷ []) ≡ some 0
      → parse_pkt_line unusual (c3 ∷ c2 ∷ c1 ∷ c0 ∷ rest) ≡ (none, rest)
  unfolding parse_pkt_line
  parse_flush c3 c2 c1 c0 rest read =
      let few : ltb (suc (suc (suc (suc (length rest))))) 4 ≡ false = ground arith in
      rw (few, read) refl

  parse-pkt_line :
      (line : Option Bytes) (rest : Bytes)
      → Fits line
      → parse_pkt_line unusual (pkt_line line ++ rest) ≡ (line, rest)
  unfolding pkt_line hex_digit
  parse-pkt_line none rest fits =
      parse_flush b'0' b'0' b'0' b'0' rest (int_16-four_digits unusual 0 (omega arith))
  parse-pkt_line (some line) rest fits =
      let n = length line + 4 in
      let whole : suc (suc (suc (suc (length line)))) ≡ n = omega arith in
      let read = int_16-four_digits unusual n fits in
      ap (λ header. parse_pkt_line unusual ((header ++ line) ++ rest))
        (format_04x-eq-four_digits n fits)
      ∙ parse_line (hex_digit (n / 4096)) (hex_digit (n / 256 % 16)) (hex_digit (n / 16 % 16))
          (hex_digit (n % 16)) line rest (rw whole read)

  length-pkt_line : (line : Option Bytes) → Fits line → 4 ≤ length (pkt_line line)
  unfolding pkt_line
  length-pkt_line none fits = omega arith
  length-pkt_line (some line) fits =
      let digits = ap length (format_04x-eq-four_digits (length line + 4) fits) in
      omega (arith, length-append (format_04x (length line + 4)) line)

  abbrev next_round : ℕ → Option Bytes × Bytes → Option (List (Option Bytes))
  next_round fuel (line, remaining) = elim (is_end unusual line remaining) [
    | true ↦ some []
    | false ↦ Option.map (λ lines. line ∷ lines) (parse_pkt_lines unusual fuel remaining)
  ]

  one_round :
      (fuel : ℕ) (bytes : Bytes)
      → 0 < length bytes
      → parse_pkt_lines unusual (suc fuel) bytes ≡ next_round fuel (parse_pkt_line unusual bytes)
  unfolding parse_pkt_lines
  one_round fuel [] h = absurd (omega arith)
  one_round fuel (b ∷ bytes) h = refl

  one_line :
      (fuel : ℕ) (line : Option Bytes) (rest : Bytes)
      → Fits line
      → parse_pkt_lines unusual (suc fuel) (pkt_line line ++ rest) ≡ next_round fuel (line, rest)
  one_line fuel line rest fits =
      one_round fuel (pkt_line line ++ rest)
        (omega (arith, length-append (pkt_line line) rest, length-pkt_line line fits))
      ∙ ap (next_round fuel) (parse-pkt_line line rest fits)

  more_follows :
      (fuel : ℕ) (line : Option Bytes) (rest : Bytes) (result : Option (List (Option Bytes)))
      → 0 < length rest
      → parse_pkt_lines unusual fuel rest ≡ result
      → next_round fuel (line, rest) ≡ Option.map (λ lines. line ∷ lines) result
  more_follows fuel none [] result h read = absurd (omega arith)
  more_follows fuel none (b ∷ rest) result h read = ap (Option.map (λ lines. none ∷ lines)) read
  more_follows fuel (some line) rest result h read =
      ap (Option.map (λ lines. some line ∷ lines)) read

  few_bytes : (bytes : Bytes) → length bytes < 4 → parse_pkt_line unusual bytes ≡ (none, bytes)
  unfolding parse_pkt_line
  few_bytes bytes h = let few : ltb (length bytes) 4 ≡ true = ground arith in rw few refl

  -- Lines of which each fits its four digits are read as they were written, but for a flush packet at
  -- the end; one round for each, and a last test, are enough.
  pub parse-pkt_line_stream :
      (fuel : ℕ) (lines : List (Option Bytes))
      → All Fits lines
      → length lines < fuel
      → parse_pkt_lines unusual fuel (pkt_line_stream lines) ≡ some (without_last_flush lines)
  unfolding parse_pkt_lines pkt_line_stream
  parse-pkt_line_stream zero lines fits enough = absurd (omega arith)
  parse-pkt_line_stream (suc fuel) [] fits enough = refl
  parse-pkt_line_stream (suc fuel) (none ∷ []) (fits, _) enough = one_line fuel none [] fits
  parse-pkt_line_stream (suc fuel) (some line ∷ []) (fits, all) enough =
      one_line fuel (some line) [] fits ∙ rw (parse-pkt_line_stream fuel [] all (omega arith)) refl
  parse-pkt_line_stream (suc fuel) (line ∷ next ∷ lines) (fits, all) enough =
      let rest = pkt_line_stream (next ∷ lines) in
      let later = length-append (pkt_line next) (pkt_line_stream lines) in
      let read = parse-pkt_line_stream fuel (next ∷ lines) all (omega arith) in
      one_line fuel line rest fits
      ∙ more_follows fuel line rest _ (omega (arith, length-pkt_line next all.0)) read

  -- The loop does not end on one, two or three bytes after any such lines, however many rounds it has.
  pub parse_trailing_bytes :
      (fuel : ℕ) (lines : List (Option Bytes)) (tail : Bytes)
      → All Fits lines
      → 0 < length tail
      → length tail < 4
      → parse_pkt_lines unusual fuel (pkt_line_stream lines ++ tail) ≡ none
  unfolding parse_pkt_lines pkt_line_stream
  parse_trailing_bytes zero lines tail fits some_bytes few = refl
  parse_trailing_bytes (suc fuel) [] tail fits some_bytes few =
      one_round fuel tail some_bytes
      ∙ ap (next_round fuel) (few_bytes tail few)
      ∙ more_follows fuel none tail none some_bytes
          (parse_trailing_bytes fuel [] tail tt some_bytes few)
  parse_trailing_bytes (suc fuel) (line ∷ lines) tail (fits, all) some_bytes few =
      let rest = pkt_line_stream lines ++ tail in
      let later = length-append (pkt_line_stream lines) tail in
      let read = parse_trailing_bytes fuel lines tail all some_bytes few in
      ap (parse_pkt_lines unusual (suc fuel))
        (append_assoc (pkt_line line) (pkt_line_stream lines) tail)
      ∙ one_line fuel line rest fits
      ∙ more_follows fuel line rest none (omega arith) read

-- ===== src/Git/PktLine.antt =====
-- The framing of src/kohakuhub/api/git/utils/server.py: pkt-lines, each with four hexadecimal digits
-- that tell its length, and the flush packet 0000.
pub mod Digits
pub mod RoundTrip
use mathlib.Core.Option
use Prim.Native.Nat.{◌/◌, ◌%◌}
use kohaku_hub.Prelude.{
  ℕ, zero, suc, ◌+◌, ◌-◌, ◌*◌, Bool, true, false, ◌&&◌, Option, none, some, List, [], ◌∷◌, ◌++◌,
  length, take, drop, leb, ltb, ◌==◌, if◌then◌else◌,
}

abbrev pub Bytes : Type 0
Bytes = List ℕ

unfoldable pub hex_digit : ℕ → ℕ
hex_digit n = if ltb n 10 then b'0' + n else b'a' + (n - 10)

-- The digits of a number to base 16; the fuel is their greatest count.
unfoldable pub hex : ℕ → ℕ → Bytes
hex zero n = []
hex (suc fuel) n =
    let high = hex fuel (n / 16) in
    if ltb n 16 then hex_digit n ∷ [] else high ++ hex_digit (n % 16) ∷ []

unfoldable pub zeros : ℕ → Bytes → Bytes
zeros zero digits = digits
zeros (suc n) digits = b'0' ∷ zeros n digits

-- f"{n:04x}"; the length of a text in memory has 16 digits at most.
unfoldable pub format_04x : ℕ → Bytes
format_04x n = let digits = hex 16 n in zeros (4 - length digits) digits

-- `none` is the flush packet.
unfoldable pub pkt_line : Option Bytes → Bytes
pkt_line none = b'0' ∷ b'0' ∷ b'0' ∷ b'0' ∷ []
pkt_line (some line) = format_04x (length line + 4) ++ line

unfoldable pub pkt_line_stream : List (Option Bytes) → Bytes
pkt_line_stream [] = []
pkt_line_stream (line ∷ lines) = pkt_line line ++ pkt_line_stream lines

unfoldable pub hex_value : ℕ → Option ℕ
hex_value c =
    if leb b'0' c && leb c b'9'
    then some (c - b'0')
    else if leb b'a' c && leb c b'f'
    then some (c - b'a' + 10)
    else if leb b'A' c && leb c b'F'
    then some (c - b'A' + 10)
    else none

unfoldable pub hex_text : ℕ → Bytes → Option ℕ
hex_text n [] = some n
hex_text n (c ∷ text) = elim (hex_value c) [ none ↦ none | some v ↦ hex_text (n * 16 + v) text ]

module _ (unusual : Bytes → Option ℕ) where
  -- int(text, 16); `unusual` is its answer to what is not digits only, such as signs, blanks,
  -- underscores and 0x, `none` where it raises or is negative.
  unfoldable pub int_16 : Bytes → Option ℕ
  int_16 text = elim (hex_text 0 text) [ none ↦ unusual text | some n ↦ some n ]

  -- The line, `none` for a flush packet and for what is no pkt-line, and the remaining bytes.
  unfoldable pub parse_pkt_line : Bytes → Option Bytes × Bytes
  parse_pkt_line bytes =
      if ltb (length bytes) 4 then (none, bytes) else elim (int_16 (take 4 bytes)) [
        | none ↦ (none, drop 4 bytes)
        | some n ↦
            if n == 0
            then (none, drop 4 bytes)
            else if ltb n 4
            then (none, drop 4 bytes)
            else (some (drop 4 (take n bytes)), drop n bytes)
      ]

  abbrev pub is_end : Option Bytes → Bytes → Bool
  is_end none [] = true
  is_end none (b ∷ remaining) = false
  is_end (some line) remaining = false

  -- `while remaining`, with one unit of fuel for each round and for the last test.
  unfoldable pub parse_pkt_lines : ℕ → Bytes → Option (List (Option Bytes))
  parse_pkt_lines zero remaining = none
  parse_pkt_lines (suc fuel) [] = some []
  parse_pkt_lines (suc fuel) (b ∷ bytes) =
      let (line, remaining) = parse_pkt_line (b ∷ bytes) in
      elim (is_end line remaining) [
        | true ↦ some []
        | false ↦ Option.map (λ lines. line ∷ lines) (parse_pkt_lines fuel remaining)
      ]

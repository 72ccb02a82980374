-- ===== src/Git/SideBand.antt =====
-- The answer of GitUploadPackHandler.handle_upload_pack in src/kohakuhub/api/git/utils/server.py to a
-- pack: NAK, then the pack in chunks, each in a pkt-line after the number of its band.
use mathlib.Core.Option
use mathlib.Core.List.{append_assoc}
use kohaku_hub.Prelude.{
  ℕ, zero, suc, ◌+◌, ◌≤◌, ◌<◌, ◌≡◌, ◌∙◌, ap, sym, refl, inl, inr, Bool-cases, ltb, Option, none,
  some, List, [], ◌∷◌, ◌++◌, length, take, drop, length-append, All, arith, if◌then◌else◌,
}
use kohaku_hub.Git.PktLine.{Bytes, pkt_line, pkt_line_stream, parse_pkt_lines}
use kohaku_hub.Git.PktLine.RoundTrip.{Fits, without_last_flush, parse-pkt_line_stream}

abbrev pub nak : Bytes
nak = b'N' ∷ b'A' ∷ b'K' ∷ 10 ∷ []

module _ (max_chunk_size : ℕ) where
  -- `while offset < len(pack_data)`, with one unit of fuel for each chunk and the last test.
  unfoldable pub band_chunks : ℕ → Bytes → ℕ → Option (List (Option Bytes))
  band_chunks zero pack_data offset = none
  band_chunks (suc fuel) pack_data offset =
      let chunk = take max_chunk_size (drop offset pack_data) in
      let rest =
        Option.map (λ lines. some (1 ∷ chunk) ∷ lines)
          (band_chunks fuel pack_data (offset + max_chunk_size)) in
      if ltb offset (length pack_data) then rest else some []

unfoldable pub upload_pack_response : ℕ → Bytes → Option Bytes
upload_pack_response fuel pack_data =
    Option.map
      (λ chunks. pkt_line_stream (some nak ∷ []) ++ (pkt_line_stream chunks ++ pkt_line none))
      (band_chunks 65500 fuel pack_data 0)

-- What a client takes from the lines: the bytes after the band's number.
unfoldable pub band_data : List (Option Bytes) → Bytes
band_data [] = []
band_data (none ∷ lines) = band_data lines
band_data (some [] ∷ lines) = band_data lines
band_data (some (band ∷ chunk) ∷ lines) = chunk ++ band_data lines

take-drop : (n : ℕ) (xs : Bytes) → take n xs ++ drop n xs ≡ xs
take-drop zero xs = refl
take-drop (suc n) [] = refl
take-drop (suc n) (x ∷ xs) = rw (take-drop n xs) refl

drop-add : (m n : ℕ) (xs : Bytes) → drop (m + n) xs ≡ drop n (drop m xs)
drop-add zero n xs = let e : 0 + n ≡ n = omega arith in rw e refl
drop-add (suc m) zero [] = let e : suc m + 0 ≡ suc m = omega arith in rw e refl
drop-add (suc m) (suc n) [] = let e : suc m + suc n ≡ suc (m + suc n) = omega arith in rw e refl
drop-add (suc m) n (x ∷ xs) =
    let e : suc m + n ≡ suc (m + n) = omega arith in rw e (drop-add m n xs)

drop_all : (n : ℕ) (xs : Bytes) → length xs ≤ n → drop n xs ≡ []
drop_all zero [] h = refl
drop_all zero (x ∷ xs) h = absurd (omega arith)
drop_all (suc n) [] h = refl
drop_all (suc n) (x ∷ xs) h = drop_all n xs (omega arith)

length-take : (n : ℕ) (xs : Bytes) → length (take n xs) ≤ n
length-take zero xs = omega arith
length-take (suc n) [] = omega arith
length-take (suc n) (x ∷ xs) = omega (arith, length-take n xs)

-- A line with a band's number and a chunk.
abbrev pub IsChunk : ℕ → Option Bytes → Type 0
IsChunk max_chunk_size none = ⊥
IsChunk max_chunk_size (some line) = length line ≤ max_chunk_size + 1

module _ (max_chunk_size : ℕ) (some_size : 0 < max_chunk_size) where
  record Chunks (fuel : ℕ) (pack_data : Bytes) (offset : ℕ) : Type 0 where
    lines : List (Option Bytes)
    made : band_chunks max_chunk_size fuel pack_data offset ≡ some lines
    small : All (IsChunk max_chunk_size) lines
    whole : band_data lines ≡ drop offset pack_data
    few : length lines < fuel

  chunks :
      (fuel : ℕ) (pack_data : Bytes) (offset : ℕ)
      → 0 < fuel
      → length pack_data < offset + fuel
      → Chunks fuel pack_data offset
  unfolding band_chunks band_data
  chunks zero pack_data offset some_fuel enough = absurd (omega arith)
  chunks (suc fuel) pack_data offset some_fuel enough =
      elim (Bool-cases (ltb offset (length pack_data))) [
        | inr done ↦ record {
          lines = [];
          made = rw done refl;
          small = tt;
          whole = sym (drop_all offset pack_data (ground arith));
          few = omega arith;
        }
        | inl more ↦
            let rest =
              chunks fuel pack_data (offset + max_chunk_size) (ground arith) (ground arith) in
            let chunk = take max_chunk_size (drop offset pack_data) in
            record {
              lines = some (1 ∷ chunk) ∷ rest.lines;
              made = rw (more, rest.made) refl;
              small =
                  (omega (arith, length-take max_chunk_size (drop offset pack_data)), rest.small);
              whole =
                  ap (λ bytes. chunk ++ bytes)
                    (rest.whole ∙ drop-add offset max_chunk_size pack_data)
                  ∙ take-drop max_chunk_size (drop offset pack_data);
              few = omega (arith, rest.few);
            }
      ]

IsChunk-Fits : (line : Option Bytes) → IsChunk 65500 line → Fits line
IsChunk-Fits none small = elim small [ ]
IsChunk-Fits (some line) small = omega arith

All-Fits : (lines : List (Option Bytes)) → All (IsChunk 65500) lines → All Fits (lines ++ none ∷ [])
All-Fits [] small = (tt, tt)
All-Fits (line ∷ lines) (small, rest) = (IsChunk-Fits line small, All-Fits lines rest)

stream-append :
    (xs ys : List (Option Bytes))
    → pkt_line_stream (xs ++ ys) ≡ pkt_line_stream xs ++ pkt_line_stream ys
unfolding pkt_line_stream
stream-append [] ys = refl
stream-append (x ∷ xs) ys =
    ap (λ bytes. pkt_line x ++ bytes) (stream-append xs ys)
    ∙ sym (append_assoc (pkt_line x) (pkt_line_stream xs) (pkt_line_stream ys))

without_last-append :
    (lines : List (Option Bytes)) → without_last_flush (lines ++ none ∷ []) ≡ lines
without_last-append [] = refl
without_last-append (none ∷ []) = refl
without_last-append (some line ∷ []) = refl
without_last-append (none ∷ next ∷ lines) =
    ap (λ rest. none ∷ rest) (without_last-append (next ∷ lines))
without_last-append (some line ∷ next ∷ lines) =
    ap (λ rest. some line ∷ rest) (without_last-append (next ∷ lines))

-- The parts of the answer are one stream.
joined :
    (lines : List (Option Bytes))
    → pkt_line_stream (some nak ∷ []) ++ (pkt_line_stream lines ++ pkt_line none)
      ≡ pkt_line_stream (some nak ∷ (lines ++ none ∷ []))
unfolding pkt_line_stream pkt_line
joined lines =
    append_assoc (pkt_line (some nak)) [] _
    ∙ ap (λ bytes. pkt_line (some nak) ++ bytes) (sym (stream-append lines (none ∷ [])))

-- With a round for each byte of the pack and one more, the answer is made; its pkt-lines, read by the
-- parser, are NAK and the chunks, whose bytes after the band's number are the pack, and none of them
-- has more than 65,505 bytes with its length.
pub upload_pack_response_lem :
    (unusual : Bytes → Option ℕ) (fuel rounds : ℕ) (pack_data : Bytes)
    → length pack_data < fuel
    → fuel + 2 ≤ rounds
    → (response : Bytes) × (lines : List (Option Bytes)) × (upload_pack_response fuel pack_data
        ≡ some response)
      × (parse_pkt_lines unusual rounds response ≡ some (some nak ∷ lines))
      × (band_data lines ≡ pack_data)
      × All (IsChunk 65500) lines
unfolding upload_pack_response
upload_pack_response_lem unusual fuel rounds pack_data enough enough_rounds =
    let made = chunks 65500 (omega arith) fuel pack_data 0 (omega arith) (omega arith) in
    let lines = made.lines in
    let sent = some nak ∷ (lines ++ none ∷ []) in
    let stream : pkt_line_stream (some nak ∷ []) ++ (pkt_line_stream lines ++ pkt_line none)
        ≡ pkt_line_stream sent =
      joined lines in
    let count = length-append lines (none ∷ []) in
    let read =
      parse-pkt_line_stream unusual rounds sent (omega arith, All-Fits lines made.small)
        (omega arith) in
    (
      pkt_line_stream sent,
      lines,
      rw (made.made, stream) refl,
      read ∙ ap (λ all. some all) (without_last-append (some nak ∷ lines)),
      made.whole,
      made.small,
    )

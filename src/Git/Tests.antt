-- ===== src/Git/Tests.antt =====
-- Small streams of pkt-lines.
use kohaku_hub.Prelude.{ℕ, ◌≡◌, refl, Option, none, some, List, [], ◌∷◌, ◌++◌, All, arith}
use kohaku_hub.Git.PktLine.{
  Bytes, hex_digit, hex, zeros, format_04x, pkt_line, pkt_line_stream, parse_pkt_lines,
}
use kohaku_hub.Git.PktLine.RoundTrip.{
  without_last_flush, parse-pkt_line_stream, parse_trailing_bytes,
}
use kohaku_hub.Git.SideBand.{
  nak, upload_pack_response, band_data, IsChunk, upload_pack_response_lem,
}

abbrev only_digits : Bytes → Option ℕ
only_digits text = none

abbrev lines : List (Option Bytes)
lines = some (b'h' ∷ b'i' ∷ []) ∷ none ∷ some [] ∷ none ∷ []

written :
    pkt_line_stream lines
    ≡ b'0' ∷ b'0' ∷ b'0' ∷ b'6' ∷ b'h' ∷ b'i' ∷ b'0' ∷ b'0' ∷ b'0' ∷ b'0' ∷ b'0' ∷ b'0' ∷ b'0'
      ∷ b'4' ∷ b'0' ∷ b'0' ∷ b'0' ∷ b'0' ∷ []
unfolding pkt_line_stream pkt_line format_04x hex hex_digit zeros
written = refl

-- Lines of which the length has more than four digits are not read back.
too_long : format_04x 65536 ≡ b'1' ∷ b'0' ∷ b'0' ∷ b'0' ∷ b'0' ∷ []
unfolding format_04x hex hex_digit zeros
too_long = refl

parse-pkt_line_stream_example :
    parse_pkt_lines only_digits 5 (pkt_line_stream lines) ≡ some (without_last_flush lines)
parse-pkt_line_stream_example =
    parse-pkt_line_stream only_digits 5 lines (omega arith, (tt, (omega arith, (tt, tt))))
      (omega arith)

parse_trailing_bytes_example :
    parse_pkt_lines only_digits 100 (pkt_line_stream lines ++ b'P' ∷ b'A' ∷ []) ≡ none
parse_trailing_bytes_example =
    parse_trailing_bytes only_digits 100 lines (b'P' ∷ b'A' ∷ [])
      (omega arith, (tt, (omega arith, (tt, tt)))) (omega arith) (omega arith)

abbrev pack : Bytes
pack = b'P' ∷ b'A' ∷ b'C' ∷ b'K' ∷ []

upload_pack_response_example :
    (response : Bytes) × (lines : List (Option Bytes)) × (upload_pack_response 5 pack
      ≡ some response)
    × (parse_pkt_lines only_digits 7 response ≡ some (some nak ∷ lines))
    × (band_data lines ≡ pack)
    × All (IsChunk 65500) lines
upload_pack_response_example =
    upload_pack_response_lem only_digits 5 7 pack (omega arith) (omega arith)

-- ===== src/Viewer/Tests.antt =====
-- Requests of one session to the dataset viewer (src/kohakuhub/datasetviewer/rate_limit.py).
use kohaku_hub.Prelude.{
  ℕ, ◌+◌, ◌≡◌, ◌≤◌, ◌<◌, ◌↔◌, refl, String, Option, none, some, keep, length, arith, str_eq,
  if◌then◌else◌,
}
use kohaku_hub.Viewer.{
  RateLimitConfig, RateLimiter, Request, Refusal, too_many_concurrent, refused, get_identifier,
  cleanup_old_records, recent_requests, check_rate_limit, start_request,
  check_rate_limit_dependency, preview_file,
}
use kohaku_hub.Viewer.Limits.{check_rate_limit_iff}
use kohaku_hub.Viewer.Slots.{dependency_effect, is_bad_request, preview_file_slots}

abbrev limits : RateLimitConfig
limits = record {
  max_requests = 60;
  window_seconds = 60;
  max_concurrent = 3;
  max_file_size = 524288000;
  max_rows = 10000;
}

abbrev fresh : RateLimiter
fresh = record {
  requests = λ id. none;
  concurrent = λ id. 0;
  bytes_processed = λ id. 0;
  last_cleanup = 100;
}

abbrev parse : String → Option ℕ
parse format = if str_eq format "csv" then some 1000 else none

abbrev visitor : Request
visitor = record { session = some ""; client_host = some "10.0.0.1"; forwarded_for = none }

by_address : get_identifier (λ text. text) visitor ≡ "ip:10.0.0.1"
unfolding get_identifier
by_address = refl

-- One preview with too many rows, and three of them.
abbrev asked_too_much : ℕ → RateLimiter → RateLimiter
asked_too_much now l = (preview_file limits parse "ip:1" now 20000 (some "csv") l).1

abbrev full : RateLimiter
full = asked_too_much 103 (asked_too_much 102 (asked_too_much 101 fresh))

still_full :
    (preview_file limits parse "ip:1" 1000000 10 (some "csv") full).0
    ≡ refused (too_many_concurrent 3 3)
unfolding preview_file check_rate_limit_dependency check_rate_limit cleanup_old_records
    start_request keep
still_full = refl

check_rate_limit_iff_example :
    (check_rate_limit limits "ip:1" (some 5) 101 fresh).0 ≡ none
    ↔ ((length (recent_requests limits "ip:1" 101 fresh) < 60) × (0 < 3) × (5 ≤ 524288000))
check_rate_limit_iff_example = check_rate_limit_iff limits "ip:1" (some 5) 101 fresh

dependency_effect_example :
    ((check_rate_limit_dependency limits "ip:1" 101 fresh).0 ≡ none
      → ((check_rate_limit_dependency limits "ip:1" 101 fresh).1.concurrent "ip:1" ≡ 0 + 1)
        × ((check_rate_limit_dependency limits "ip:1" 101 fresh).1.concurrent "ip:1" ≤ 3)
        × (length (
              recent_requests limits "ip:1" 101
                (check_rate_limit_dependency limits "ip:1" 101 fresh).1)
            ≡ length (recent_requests limits "ip:1" 101 fresh) + 1)
        × (length (
              recent_requests limits "ip:1" 101
                (check_rate_limit_dependency limits "ip:1" 101 fresh).1)
            ≤ 60))
    × ((r : Refusal)
        → (check_rate_limit_dependency limits "ip:1" 101 fresh).0 ≡ some r
        → ((check_rate_limit_dependency limits "ip:1" 101 fresh).1.concurrent "ip:1" ≡ 0)
          × (recent_requests limits "ip:1" 101
                (check_rate_limit_dependency limits "ip:1" 101 fresh).1
              ≡ recent_requests limits "ip:1" 101 fresh))
dependency_effect_example = dependency_effect limits "ip:1" 101 fresh (omega arith)

preview_file_slots_example :
    (asked_too_much 101 fresh).concurrent "ip:1"
    ≡ 0
      + (if is_bad_request (preview_file limits parse "ip:1" 101 20000 (some "csv") fresh).0
          then 1
          else 0)
preview_file_slots_example = preview_file_slots limits parse "ip:1" 101 20000 (some "csv") fresh

is_full : 3 ≤ full.concurrent "ip:1"
unfolding preview_file check_rate_limit_dependency check_rate_limit cleanup_old_records
    start_request keep
is_full = omega arith

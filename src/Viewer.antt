-- ===== src/Viewer.antt =====
-- The rate limiter of the dataset viewer, src/kohakuhub/datasetviewer/rate_limit.py, and the endpoint
-- of src/kohakuhub/datasetviewer/router.py that previews a file under it. Times are ticks of the
-- clock and an argument; the parsers, which read from the network, are one too.
pub mod Limits
pub mod Slots
mod Tests
use kohaku_hub.Prelude.{
  ℕ, ◌+◌, ◌-◌, String, Bool, true, false, not, Option, none, some, List, [], ◌∷◌, ◌++◌, keep,
  length, ltb, leb, str_eq, if◌then◌else◌,
}
use kohaku_hub.Auth.Permissions.{◌+s◌}

pub record RateLimitConfig : Type 0 where
  pub max_requests : ℕ
  pub window_seconds : ℕ
  pub max_concurrent : ℕ
  pub max_file_size : ℕ
  pub max_rows : ℕ

pub record RequestRecord : Type 0 where
  pub timestamp : ℕ
  pub file_size : ℕ

-- The three dictionaries; a key that is not there has no list of requests, and counts 0.
pub record RateLimiter : Type 0 where
  pub requests : String → Option (List RequestRecord)
  pub concurrent : String → ℕ
  pub bytes_processed : String → ℕ
  pub last_cleanup : ℕ

pub record Request : Type 0 where
  pub session : Option String
  pub client_host : Option String
  pub forwarded_for : Option String

-- `if text:`
abbrev or_else : Option String → String → (String → String) → String
or_else none absent given = absent
or_else (some text) absent given = if str_eq text "" then absent else given text

-- `first_of` is `split(",")[0].strip()`.
unfoldable pub get_identifier : (first_of : String → String) → Request → String
get_identifier first_of request =
    let client_ip : String = elim request.client_host [ none ↦ "unknown" | some host ↦ host ] in
    or_else request.session ("ip:" +s or_else request.forwarded_for client_ip first_of)
      λ session_id. "session:" +s session_id

-- `timestamp > now - window_seconds`
abbrev pub is_recent : RateLimitConfig → ℕ → RequestRecord → Bool
is_recent cfg now r = ltb now (r.timestamp + cfg.window_seconds)

abbrev pub or_empty : Option (List RequestRecord) → List RequestRecord
or_empty none = []
or_empty (some records) = records

-- An entry of the dictionary without its old records; an empty one is deleted.
abbrev pub without_old :
    RateLimitConfig → ℕ → Option (List RequestRecord) → Option (List RequestRecord)
without_old cfg now none = none
without_old cfg now (some records) = elim (keep (is_recent cfg now) records) [
  | [] ↦ none
  | r ∷ rest ↦ some (r ∷ rest)
]

-- The bytes of an identifier whose entry is deleted are deleted with it.
abbrev pub bytes_kept : RateLimitConfig → ℕ → Option (List RequestRecord) → ℕ → ℕ
bytes_kept cfg now none bytes = bytes
bytes_kept cfg now (some records) bytes = elim (keep (is_recent cfg now) records) [
  | [] ↦ 0
  | r ∷ rest ↦ bytes
]

unfoldable pub cleanup_old_records : RateLimitConfig → ℕ → RateLimiter → RateLimiter
cleanup_old_records cfg now l = if ltb now (l.last_cleanup + 60) then l else record l {
  requests = λ id. without_old cfg now (l.requests id);
  bytes_processed = λ id. bytes_kept cfg now (l.requests id) (l.bytes_processed id);
  last_cleanup = now;
}

-- What is raised: 429, 429 or 413.
pub data Refusal : Type 0 where
  rate_limit_exceeded : (limit window_seconds retry_after : ℕ) → Refusal
  too_many_concurrent : (limit current : ℕ) → Refusal
  file_too_large : (file_size max_size : ℕ) → Refusal

abbrev pub recent_requests : RateLimitConfig → String → ℕ → RateLimiter → List RequestRecord
recent_requests cfg identifier now l = keep (is_recent cfg now) (or_empty (l.requests identifier))

abbrev retry_after : RateLimitConfig → ℕ → List RequestRecord → ℕ
retry_after cfg now [] = 0
retry_after cfg now (r ∷ rest) = r.timestamp + cfg.window_seconds - now

-- The tests on a limiter that was cleaned up; a size of `none` or 0 is not tested. The limit of
-- requests is positive, so that a refusal has a first recent request.
abbrev pub refusal : RateLimitConfig → String → Option ℕ → ℕ → RateLimiter → Option Refusal
refusal cfg identifier file_size now l =
    let recent = recent_requests cfg identifier now l in
    if leb cfg.max_requests (length recent)
    then some (rate_limit_exceeded cfg.max_requests cfg.window_seconds (retry_after cfg now recent))
    else if leb cfg.max_concurrent (l.concurrent identifier)
    then some (too_many_concurrent cfg.max_concurrent (l.concurrent identifier))
    else elim file_size [
      | none ↦ none
      | some size ↦
          if ltb cfg.max_file_size size then some (file_too_large size cfg.max_file_size) else none
    ]

-- The lookup of an identifier in the dictionary creates its entry.
abbrev pub with_entry : String → RateLimiter → RateLimiter
with_entry identifier l = record l {
  requests = λ id. if str_eq id identifier then some (or_empty (l.requests id)) else l.requests id;
}

unfoldable pub check_rate_limit :
    RateLimitConfig → String → Option ℕ → ℕ → RateLimiter → Option Refusal × RateLimiter
check_rate_limit cfg identifier file_size now l =
    let cleaned = with_entry identifier (cleanup_old_records cfg now l) in
    (refusal cfg identifier file_size now cleaned, cleaned)

unfoldable pub start_request : String → ℕ → ℕ → RateLimiter → RateLimiter
start_request identifier file_size now l = record l {
  requests = λ id.
      if str_eq id identifier
      then some (or_empty (l.requests id) ++ record { timestamp = now; file_size = file_size } ∷ [])
      else l.requests id;
  concurrent = λ id. if str_eq id identifier then l.concurrent id + 1 else l.concurrent id;
}

unfoldable pub finish_request : String → ℕ → RateLimiter → RateLimiter
finish_request identifier bytes l = record l {
  concurrent = λ id. if str_eq id identifier then l.concurrent id - 1 else l.concurrent id;
  bytes_processed =
      λ id. if str_eq id identifier then l.bytes_processed id + bytes else l.bytes_processed id;
}

-- `check_rate_limit_dependency`, which runs before an endpoint's body
unfoldable pub check_rate_limit_dependency :
    RateLimitConfig → String → ℕ → RateLimiter → Option Refusal × RateLimiter
check_rate_limit_dependency cfg identifier now l =
    let (refused, checked) = check_rate_limit cfg identifier none now l in
    elim refused [
      | some r ↦ (some r, checked)
      | none ↦ (none, start_request identifier 0 now checked)
    ]

pub data Answer : Type 0 where
  refused : Refusal → Answer
  -- 400, with the limit
  too_many_rows : ℕ → Answer
  -- 400
  unknown_format : Answer
  -- 500
  failed : Answer
  previewed : Answer

-- `parse` is the branch on the format with its parser: the size of the file, or what raised. A request
-- that is cancelled, and an exception after the request is counted as finished, are not modelled.
unfoldable pub preview_file :
    RateLimitConfig
    → (parse : String → Option ℕ) → String
    → ℕ
    → (max_rows : ℕ) → (file_format : Option String) → RateLimiter
    → Answer × RateLimiter
preview_file cfg parse identifier now max_rows file_format l =
    let (limited, started) = check_rate_limit_dependency cfg identifier now l in
    elim limited [
      | some r ↦ (refused r, started)
      | none ↦
          if ltb cfg.max_rows max_rows
          then (too_many_rows cfg.max_rows, started)
          else elim file_format [
            | none ↦ (unknown_format, started)
            | some format ↦ elim (parse format) [
              | none ↦ (failed, finish_request identifier 0 started)
              | some bytes ↦ (previewed, finish_request identifier bytes started)
            ]
          ]
    ]

-- ===== src/Viewer/Slots.antt =====
-- The requests that run, as the limiter counts them (src/kohakuhub/datasetviewer/rate_limit.py), and
-- what previews of files (src/kohakuhub/datasetviewer/router.py) leave of that count.
use kohaku_hub.Prelude.{
  ℕ, ◌+◌, ◌≡◌, ◌≤◌, ◌<◌, refl, ap, ◌∙◌, String, Bool, true, false, Option, none, some, List, [],
  ◌∷◌, ◌++◌, keep, length, length-append, ltb, eq_iff, arith, if◌then◌else◌, Bool-cases,
  Option-cases, inl, inr,
}
use kohaku_hub.Viewer.{
  RateLimitConfig, RequestRecord, RateLimiter, Refusal, Answer, refused, too_many_rows,
  unknown_format, is_recent, or_empty, recent_requests, check_rate_limit, start_request,
  finish_request, check_rate_limit_dependency, preview_file,
}
use kohaku_hub.Viewer.Limits.{cleanup-recent, cleanup-concurrent, check_rate_limit_iff}

keep-append :
    {A : Type 0} (p : A → Bool) (xs ys : List A) → keep p (xs ++ ys) ≡ keep p xs ++ keep p ys
unfolding keep
keep-append p [] ys = refl
keep-append p (x ∷ xs) ys = ground (arith, keep-append p xs ys)

check-concurrent :
    (cfg : RateLimitConfig) (identifier : String) (now : ℕ) (l : RateLimiter)
    → (check_rate_limit cfg identifier none now l).1.concurrent identifier ≡ l.concurrent identifier
unfolding check_rate_limit
check-concurrent cfg identifier now l = cleanup-concurrent cfg identifier now l

check-recent :
    (cfg : RateLimitConfig) (identifier : String) (now : ℕ) (l : RateLimiter)
    → recent_requests cfg identifier now (check_rate_limit cfg identifier none now l).1
      ≡ recent_requests cfg identifier now l
unfolding check_rate_limit
check-recent cfg identifier now l = cleanup-recent cfg identifier now l

module _ (cfg : RateLimitConfig) (identifier : String) (now : ℕ) (l : RateLimiter) where
  abbrev checked : RateLimiter
  checked = (check_rate_limit cfg identifier none now l).1

  abbrev outcome : Option Refusal × RateLimiter
  outcome = check_rate_limit_dependency cfg identifier now l

  dependency_passes :
      outcome.0 ≡ none
      → ((check_rate_limit cfg identifier none now l).0 ≡ none)
        × (outcome.1 ≡ start_request identifier 0 now checked)
  unfolding check_rate_limit_dependency
  dependency_passes h = elim (Option-cases (check_rate_limit cfg identifier none now l).0) [
    | inl passes ↦ (passes, rw (check_rate_limit_dependency, passes) refl)
    | inr (r, limited) ↦ absurd (ground (arith, limited))
  ]

  dependency_refuses : (r : Refusal) → outcome.0 ≡ some r → outcome.1 ≡ checked
  unfolding check_rate_limit_dependency
  dependency_refuses r h = elim (Option-cases (check_rate_limit cfg identifier none now l).0) [
    | inl passes ↦ absurd (ground (arith, passes))
    | inr (r', limited) ↦ rw (check_rate_limit_dependency, limited) refl
  ]

  started-concurrent :
      (start_request identifier 0 now checked).concurrent identifier ≡ l.concurrent identifier + 1
  unfolding start_request
  started-concurrent =
      let same = (eq_iff identifier identifier).1 refl in
      rw (same, check-concurrent cfg identifier now l) refl

  new_is_recent :
      0 < cfg.window_seconds
      → length (keep (is_recent cfg now) (record { timestamp = now; file_size = 0 } ∷ [])) ≡ 1
  unfolding keep
  new_is_recent window =
      let new_one : ltb now (now + cfg.window_seconds) ≡ true = ground arith in rw new_one refl

  started-recent :
      0 < cfg.window_seconds
      → length (recent_requests cfg identifier now (start_request identifier 0 now checked))
        ≡ length (recent_requests cfg identifier now l) + 1
  unfolding start_request
  started-recent window =
      let p : RequestRecord → Bool = is_recent cfg now in
      let before : List RequestRecord = or_empty (checked.requests identifier) in
      let row : RequestRecord = record { timestamp = now; file_size = 0 } in
      let same = (eq_iff identifier identifier).1 refl in
      let one = new_is_recent window in
      let old : keep p before ≡ recent_requests cfg identifier now l =
        check-recent cfg identifier now l in
      rw same (
        ap (λ (rs : List RequestRecord). length rs) (keep-append p before (row ∷ []))
        ∙ length-append (keep p before) (keep p (row ∷ []))
        ∙ rw (old, one) refl)

  -- With a window that is not empty, a request that the dependency lets through counts as running and
  -- as recent, and neither number then exceeds its limit; one that it refuses changes neither.
  pub dependency_effect :
      0 < cfg.window_seconds
      → (outcome.0 ≡ none
          → (outcome.1.concurrent identifier ≡ l.concurrent identifier + 1)
            × (outcome.1.concurrent identifier ≤ cfg.max_concurrent)
            × (length (recent_requests cfg identifier now outcome.1)
                ≡ length (recent_requests cfg identifier now l) + 1)
            × (length (recent_requests cfg identifier now outcome.1) ≤ cfg.max_requests))
        × ((r : Refusal)
            → outcome.0 ≡ some r
            → (outcome.1.concurrent identifier ≡ l.concurrent identifier)
              × (recent_requests cfg identifier now outcome.1
                  ≡ recent_requests cfg identifier now l))
  dependency_effect window = (
    λ h.
        let (passes, done) = dependency_passes h in
        let (few, running, _) = (check_rate_limit_iff cfg identifier none now l).0 passes in
        let recent = started-recent window in
        rw done
          (started-concurrent, omega (arith, started-concurrent), recent, omega (arith, recent)),
    λ r h.
        rw (dependency_refuses r h)
          (check-concurrent cfg identifier now l, check-recent cfg identifier now l),
  )

-- Whether the endpoint's body raised before it began to read the file.
abbrev pub is_bad_request : Answer → Bool
is_bad_request (too_many_rows limit) = true
is_bad_request unknown_format = true
is_bad_request other = false

-- A preview that is refused, fails or succeeds leaves as many requests counted as running as there
-- were; one that is answered as a bad request leaves one more, though it is over.
pub preview_file_slots :
    (cfg : RateLimitConfig) (parse : String → Option ℕ) (identifier : String) (now max_rows : ℕ)
    (file_format : Option String) (l : RateLimiter)
    → (preview_file cfg parse identifier now max_rows file_format l).1.concurrent identifier
      ≡ l.concurrent identifier
        + (if is_bad_request (preview_file cfg parse identifier now max_rows file_format l).0
            then 1
            else 0)
unfolding preview_file finish_request
preview_file_slots cfg parse identifier now max_rows file_format l =
    let same = (eq_iff identifier identifier).1 refl in
    elim (Option-cases (check_rate_limit_dependency cfg identifier now l).0) [
      | inr (r, limited) ↦
          let stays : (check_rate_limit_dependency cfg identifier now l).1.concurrent identifier
              ≡ l.concurrent identifier =
            rw (dependency_refuses cfg identifier now l r limited)
              (check-concurrent cfg identifier now l) in
          rw (preview_file, limited) (omega (arith, stays))
      | inl passes ↦
          let started : (check_rate_limit_dependency cfg identifier now l).1.concurrent identifier
              ≡ l.concurrent identifier + 1 =
            rw (dependency_passes cfg identifier now l passes).1
              (started-concurrent cfg identifier now l) in
          elim (Bool-cases (ltb cfg.max_rows max_rows)) [
            | inl too_many ↦ rw (preview_file, passes, too_many) started
            | inr fewer ↦ elim (Option-cases file_format) [
              | inl unknown ↦ rw (preview_file, passes, fewer, unknown) started
              | inr (format, known) ↦ elim (Option-cases (parse format)) [
                | inl broken ↦
                    rw (preview_file, passes, fewer, known, broken, same) (omega (arith, started))
                | inr (bytes, parsed) ↦
                    rw (preview_file, passes, fewer, known, parsed, same) (omega (arith, started))
              ]
            ]
          ]
    ]

-- Once as many requests count as running as may run, every later preview is refused, at any time,
-- and as many still count as running.
pub full_stays :
    (cfg : RateLimitConfig) (parse : String → Option ℕ) (identifier : String) (now max_rows : ℕ)
    (file_format : Option String) (l : RateLimiter)
    → cfg.max_concurrent ≤ l.concurrent identifier
    → (r : Refusal) × ((preview_file cfg parse identifier now max_rows file_format l).0 ≡ refused r)
      × ((preview_file cfg parse identifier now max_rows file_format l).1.concurrent identifier
          ≡ l.concurrent identifier)
unfolding preview_file
full_stays cfg parse identifier now max_rows file_format l full =
    elim (Option-cases (check_rate_limit_dependency cfg identifier now l).0) [
      | inl passes ↦
          let (checked_ok, _) = dependency_passes cfg identifier now l passes in
          let (_, running, _) = (check_rate_limit_iff cfg identifier none now l).0 checked_ok in
          absurd (omega arith)
      | inr (r, limited) ↦
          let stays : (check_rate_limit_dependency cfg identifier now l).1.concurrent identifier
              ≡ l.concurrent identifier =
            rw (dependency_refuses cfg identifier now l r limited)
              (check-concurrent cfg identifier now l) in
          rw (preview_file, limited) (r, refl, stays)
    ]

-- ===== src/Viewer/Limits.antt =====
-- Which requests the limiter of src/kohakuhub/datasetviewer/rate_limit.py lets through.
use kohaku_hub.Prelude.{
  ℕ, ◌+◌, ◌≡◌, ◌≤◌, ◌<◌, ◌↔◌, refl, String, Bool, Option, none, some, List, [], ◌∷◌, keep, length,
  ltb, eq_iff, arith, Bool-cases, Option-cases, inl, inr,
}
use kohaku_hub.Viewer.{
  RateLimitConfig, RequestRecord, RateLimiter, is_recent, or_empty, without_old,
  cleanup_old_records, recent_requests, with_entry, check_rate_limit,
}

keep-keep : {A : Type 0} (p : A → Bool) (xs : List A) → keep p (keep p xs) ≡ keep p xs
unfolding keep
keep-keep p [] = refl
keep-keep p (x ∷ xs) = ground (arith, keep-keep p xs)

-- The clean-up removes only what is not counted.
without_old-recent :
    (cfg : RateLimitConfig) (now : ℕ) (records : Option (List RequestRecord))
    → keep (is_recent cfg now) (or_empty (without_old cfg now records))
      ≡ keep (is_recent cfg now) (or_empty records)
unfolding keep
without_old-recent cfg now none = refl
without_old-recent cfg now (some records) =
    by_kept (keep (is_recent cfg now) records) (keep-keep (is_recent cfg now) records)
  where
    by_kept :
        (kept : List RequestRecord)
        → keep (is_recent cfg now) kept ≡ kept
        → keep (is_recent cfg now) (or_empty (elim kept [ [] ↦ none | r ∷ rest ↦ some (r ∷ rest) ]))
          ≡ kept
    by_kept [] h = refl
    by_kept (r ∷ rest) h = h

pub cleanup-recent :
    (cfg : RateLimitConfig) (identifier : String) (now : ℕ) (l : RateLimiter)
    → recent_requests cfg identifier now (with_entry identifier (cleanup_old_records cfg now l))
      ≡ recent_requests cfg identifier now l
unfolding cleanup_old_records
cleanup-recent cfg identifier now l =
    let same = (eq_iff identifier identifier).1 refl in
    elim (Bool-cases (ltb now (l.last_cleanup + 60))) [
      | inl early ↦ rw (cleanup_old_records, early, same) refl
      | inr late ↦
          rw (cleanup_old_records, late, same) (without_old-recent cfg now (l.requests identifier))
    ]

pub cleanup-concurrent :
    (cfg : RateLimitConfig) (identifier : String) (now : ℕ) (l : RateLimiter)
    → (cleanup_old_records cfg now l).concurrent identifier ≡ l.concurrent identifier
unfolding cleanup_old_records
cleanup-concurrent cfg identifier now l = elim (Bool-cases (ltb now (l.last_cleanup + 60))) [
  | inl early ↦ rw (cleanup_old_records, early) refl
  | inr late ↦ rw (cleanup_old_records, late) refl
]

-- No size, or one within the limit.
abbrev pub FitsSize : RateLimitConfig → Option ℕ → Type 0
FitsSize cfg none = Unit
FitsSize cfg (some size) = size ≤ cfg.max_file_size

-- A request passes exactly if its identifier has fewer recent requests than the limit, fewer that
-- run, and the file is not too large; the clean-up of old records, due or not, changes nothing.
pub check_rate_limit_iff :
    (cfg : RateLimitConfig) (identifier : String) (file_size : Option ℕ) (now : ℕ) (l : RateLimiter)
    → (check_rate_limit cfg identifier file_size now l).0 ≡ none ↔ (
        (length (recent_requests cfg identifier now l) < cfg.max_requests)
        × (l.concurrent identifier < cfg.max_concurrent)
        × FitsSize cfg file_size)
unfolding check_rate_limit
check_rate_limit_iff cfg identifier file_size now l =
    let recent = cleanup-recent cfg identifier now l in
    let running = cleanup-concurrent cfg identifier now l in
    elim (Option-cases file_size) [
      | inl no_size ↦ rw (no_size, recent, running) (ground arith)
      | inr (size, given) ↦ rw (given, recent, running) (ground arith)
    ]

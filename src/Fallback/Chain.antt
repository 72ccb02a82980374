-- ===== src/Fallback/Chain.antt =====
-- The walk over the fallback sources (src/kohakuhub/api/fallback/core.py), the classification of
-- what they answer and the answer when none serves the repository
-- (src/kohakuhub/api/fallback/utils.py). `ask` is the request to a source, by httpx.
pub mod First
pub mod Aggregate
pub mod Missing
mod Tests
use kohaku_hub.Prelude.{
  ℕ, ◌≡◌, String, Bool, true, false, ◌&&◌, ◌||◌, not, Option, none, some, List, [], ◌∷◌, any, ltb,
  leb, ◌==◌, str_eq, if◌then◌else◌,
}

pub data FallbackDecision : Type 0 where
  bind_and_respond : FallbackDecision
  bind_and_propagate : FallbackDecision
  try_next_source : FallbackDecision

-- The status and the headers of a response that are looked at, and the message that
-- `extract_error_message` finds in its body.
pub record Response : Type 0 where
  pub status_code : ℕ
  pub x_error_code : Option String
  pub x_error_message : Option String
  pub message : String

-- What comes of a request; an exception has its text.
pub data Answer : Type 0 where
  response : Response → Answer
  timeout : String → Answer
  network : String → Answer

abbrev pub is_text : String → Option String → Bool
is_text text none = false
is_text text (some header) = str_eq header text

abbrev pub disabled_message : String
disabled_message = "Access to this resource is disabled."

unfoldable pub classify_upstream : Answer → FallbackDecision
classify_upstream (timeout text) = try_next_source
classify_upstream (network text) = try_next_source
classify_upstream (response r) =
    if leb 200 r.status_code && ltb r.status_code 400
    then bind_and_respond
    else if is_text "EntryNotFound" r.x_error_code
    then bind_and_propagate
    else if is_text "RevisionNotFound" r.x_error_code
    then bind_and_propagate
    else if is_text "GatedRepo" r.x_error_code
    then try_next_source
    else if is_text "RepoNotFound" r.x_error_code
    then try_next_source
    else if is_text disabled_message r.x_error_message
    then try_next_source
    else try_next_source

pub data Category : Type 0 where
  auth : Category
  disabled : Category
  forbidden : Category
  not_found : Category
  server : Category
  timed_out : Category
  no_network : Category
  other : Category

unfoldable pub categorize_status : ℕ → Option String → Option String → Category
categorize_status status error_code error_message =
    if is_text "GatedRepo" error_code
    then auth
    else if is_text "RepoNotFound" error_code
        || is_text "EntryNotFound" error_code
        || is_text "RevisionNotFound" error_code
    then not_found
    else if is_text disabled_message error_message
    then disabled
    else if status == 401
    then not_found
    else if status == 403
    then forbidden
    else if status == 404 || status == 410
    then not_found
    else if leb 500 status && ltb status 600
    then server
    else other

-- A source without a name has its URL for one.
pub record FallbackSource : Type 0 where
  pub name : String
  pub url : String

pub record Attempt : Type 0 where
  pub source : FallbackSource
  pub status : Option ℕ
  pub error_code : Option String
  pub category : Category
  pub message : String

-- `str(timeout) or "request timed out"`
abbrev pub text_or : String → String → String
text_or default text = if str_eq text "" then default else text

-- `build_fallback_attempt`; `first` cuts a message off, and `class_name` is that of a network error.
unfoldable pub build_fallback_attempt :
    (first : ℕ → String → String) → (class_name : String) → FallbackSource → Answer → Attempt
build_fallback_attempt first class_name source (response r) = record {
  source = source;
  status = some r.status_code;
  error_code = r.x_error_code;
  category = categorize_status r.status_code r.x_error_code r.x_error_message;
  message = first 500 r.message;
}
build_fallback_attempt first class_name source (timeout text) = record {
  source = source;
  status = none;
  error_code = none;
  category = timed_out;
  message = text_or "request timed out" text;
}
build_fallback_attempt first class_name source (network text) = record {
  source = source;
  status = none;
  error_code = none;
  category = no_network;
  message = text_or class_name text;
}

pub record ProbeAttempt : Type 0 where
  pub source : FallbackSource
  pub answer : Answer
  pub decision : FallbackDecision

pub data Outcome : Type 0 where
  bound : FallbackDecision → Outcome
  chain_exhausted : Outcome

pub record ProbeReport : Type 0 where
  pub attempts : List ProbeAttempt
  pub final_outcome : Outcome
  pub bound_source : Option FallbackSource

-- `_probe_one_source`. The answer tells a timeout and a network error, for which the code has decisions
-- of their own, from the other answers after which the walk goes on.
unfoldable pub probe_one_source : (FallbackSource → Answer) → FallbackSource → ProbeAttempt
probe_one_source ask source = record {
  source = source;
  answer = ask source;
  decision = classify_upstream (ask source);
}

-- The attempt comes before those of the rest of the chain.
abbrev pub then_walk : ProbeAttempt → ProbeReport → ProbeReport
then_walk attempt report = record report { attempts = attempt ∷ report.attempts }

abbrev pub stop_at : FallbackDecision → ProbeAttempt → ProbeReport
stop_at decision attempt = record {
  attempts = attempt ∷ [];
  final_outcome = bound decision;
  bound_source = some attempt.source;
}

-- The break of the loop, or its next round.
abbrev pub stop_or_walk : FallbackDecision → ProbeAttempt → ProbeReport → ProbeReport
stop_or_walk bind_and_respond attempt walked = stop_at bind_and_respond attempt
stop_or_walk bind_and_propagate attempt walked = stop_at bind_and_propagate attempt
stop_or_walk try_next_source attempt walked = then_walk attempt walked

-- The sources after the one that binds are not asked: their answers are in no attempt.
unfoldable pub probe_chain : (FallbackSource → Answer) → List FallbackSource → ProbeReport
probe_chain ask [] = record { attempts = []; final_outcome = chain_exhausted; bound_source = none }
probe_chain ask (source ∷ sources) =
    let attempt = probe_one_source ask source in
    let walked = probe_chain ask sources in stop_or_walk attempt.decision attempt walked

abbrev pub is_auth : Category → Bool
is_auth auth = true
is_auth c = false

abbrev pub is_disabled : Category → Bool
is_disabled disabled = true
is_disabled c = false

abbrev pub is_forbidden : Category → Bool
is_forbidden forbidden = true
is_forbidden c = false

abbrev pub is_not_found : Category → Bool
is_not_found not_found = true
is_not_found c = false

pub data Scope : Type 0 where
  file : Scope
  repo : Scope

abbrev pub is_repo : Scope → Bool
is_repo file = false
is_repo repo = true

-- The JSONResponse: its status, X-Error-Code, X-Error-Message and the attempts in its body.
pub record Failure : Type 0 where
  pub status_code : ℕ
  pub error_code : Option String
  pub detail : String
  pub sources : List Attempt

-- A 401 without a code says that the repository does not exist.
abbrev pub is_bare_401 : Option ℕ → Option String → Bool
is_bare_401 none code = false
is_bare_401 (some status) none = status == 401
is_bare_401 (some status) (some code) = status == 401 && str_eq code ""

abbrev pub repo_miss : Attempt → Bool
repo_miss a = is_bare_401 a.status a.error_code || is_text "RepoNotFound" a.error_code

abbrev pub no_attempts : List Attempt → Bool
no_attempts [] = true
no_attempts (a ∷ attempts) = false

abbrev pub failure : List Attempt → ℕ → Option String → String → Failure
failure attempts status code detail = record {
  status_code = status;
  error_code = code;
  detail = detail;
  sources = attempts;
}

unfoldable pub build_aggregate_failure_response : List Attempt → Scope → Failure
build_aggregate_failure_response attempts scope =
    if any (λ a. is_auth a.category) attempts
    then failure attempts 401 (some "GatedRepo")
        "Upstream source requires authentication - likely a gated repository. Attach an access token for that source in KohakuHub account settings."
    else if any (λ a. is_disabled a.category) attempts
    then failure attempts 403 none disabled_message
    else if any (λ a. is_forbidden a.category) attempts
    then failure attempts 403 none "Upstream source denied access."
    else if not (no_attempts attempts) && not (any (λ a. not (is_not_found a.category)) attempts)
    then (if is_repo scope || any repo_miss attempts
        then failure attempts 404 (some "RepoNotFound") "No fallback source serves this repository."
        else failure attempts 404 (some "EntryNotFound") "No fallback source serves this file.")
    else failure attempts 502 none "All fallback sources failed - upstream unavailable."

-- ===== src/Fallback/Chain/Missing.antt =====
-- When a client is told that nothing was found (src/kohakuhub/api/fallback/utils.py).
use kohaku_hub.Prelude.{
  ℕ, ◌≡◌, ◌≢◌, ◌↔◌, ◌⊎◌, inl, inr, refl, ap, String, Bool, true, false, ◌||◌, not, Option, some,
  List, [], ◌∷◌, map, any, All, ◌==◌, arith, Bool-cases,
}
use kohaku_hub.Fallback.Chain.{
  Answer, response, timeout, network, FallbackSource, Attempt, Scope, Category, auth, disabled,
  forbidden, not_found, server, timed_out, no_network, other, is_text, is_auth, is_disabled,
  is_forbidden, is_not_found, no_attempts, disabled_message, categorize_status,
  build_fallback_attempt, build_aggregate_failure_response,
}
use kohaku_hub.Fallback.Chain.Aggregate.{is_text_iff}

-- The code says that the repository, the file or the revision does not exist.
abbrev pub HasMissingCode : Option String → Type 0
HasMissingCode code =
    (code ≡ some "RepoNotFound")
    ⊎ ((code ≡ some "EntryNotFound") ⊎ (code ≡ some "RevisionNotFound"))

-- The source answers that there is no such thing: by a code, or by a status without the marks of a
-- gated or a disabled repository. A 401 counts, since it hides which repositories exist.
abbrev pub Missing : Answer → Type 0
Missing (response r) =
    HasMissingCode r.x_error_code
    ⊎ ((r.x_error_code ≢ some "GatedRepo")
        × (r.x_error_message ≢ some disabled_message)
        × ((r.status_code ≡ 401) ⊎ ((r.status_code ≡ 404) ⊎ (r.status_code ≡ 410))))
Missing (timeout text) = ⊥
Missing (network text) = ⊥

abbrev has_missing_code : Option String → Bool
has_missing_code code =
    is_text "RepoNotFound" code || is_text "EntryNotFound" code || is_text "RevisionNotFound" code

has_missing_code_iff : (code : Option String) → has_missing_code code ≡ true ↔ HasMissingCode code
has_missing_code_iff code =
    let (repo_to, repo_from) = is_text_iff "RepoNotFound" code in
    let (entry_to, entry_from) = is_text_iff "EntryNotFound" code in
    let (revision_to, revision_from) = is_text_iff "RevisionNotFound" code in
    (
      λ h. elim (Bool-cases (is_text "RepoNotFound" code)) [
        | inl t ↦ inl (repo_to t)
        | inr f ↦ elim (Bool-cases (is_text "EntryNotFound" code)) [
          | inl t ↦ inr (inl (entry_to t))
          | inr g ↦ inr (inr (revision_to (ground arith)))
        ]
      ],
      λ has. elim has [
        | inl same ↦ let t = repo_from same in ground (arith, t)
        | inr (inl same) ↦ let t = entry_from same in ground (arith, t)
        | inr (inr same) ↦ let t = revision_from same in ground (arith, t)
      ],
    )

no_other_code :
    (code : Option String) → is_text "GatedRepo" code ≡ true → has_missing_code code ≡ false
no_other_code code gated = ap has_missing_code ((is_text_iff "GatedRepo" code).0 gated)

is_text-eq-false :
    (text : String) (header : Option String) → header ≢ some text → is_text text header ≡ false
is_text-eq-false text header differs = elim (Bool-cases (is_text text header)) [
  | inl same ↦ absurd (differs ((is_text_iff text header).0 same))
  | inr differ ↦ differ
]

module _ (status : ℕ) (code message : Option String) where
  abbrev answer : Answer
  answer = response (record {
    status_code = status;
    x_error_code = code;
    x_error_message = message;
    message = "";
  })

  to_answer : is_not_found (categorize_status status code message) ≡ true → Missing answer
  unfolding categorize_status
  to_answer h = elim (Bool-cases (has_missing_code code)) [
    | inl has ↦ inl ((has_missing_code_iff code).0 has)
    | inr without ↦ inr (
      (λ same. let gated = (is_text_iff "GatedRepo" code).1 same in ground (arith, gated)),
      (λ same.
          let taken_down = (is_text_iff disabled_message message).1 same in
          ground (arith, taken_down)),
      elim (Bool-cases (status == 401)) [
        | inl t ↦ inl (ground arith)
        | inr f ↦ elim (Bool-cases (status == 404)) [
          | inl t ↦ inr (inl (ground arith))
          | inr g ↦ inr (inr (ground arith))
        ]
      ],
    )
  ]

  from_answer : Missing answer → is_not_found (categorize_status status code message) ≡ true
  unfolding categorize_status
  from_answer (inl has) = elim (Bool-cases (is_text "GatedRepo" code)) [
    | inl gated ↦
        let without = no_other_code code gated in
        let t = (has_missing_code_iff code).1 has in absurd (cc (t, without))
    | inr without ↦ let t = (has_missing_code_iff code).1 has in ground (arith, t)
  ]
  from_answer (inr (not_gated, not_disabled, not_there)) =
      let g = is_text-eq-false "GatedRepo" code not_gated in
      let d = is_text-eq-false disabled_message message not_disabled in
      elim not_there [
        | inl same ↦ ground (arith, g, d)
        | inr (inl same) ↦ ground (arith, g, d)
        | inr (inr same) ↦ ground (arith, g, d)
      ]

one_category :
    (c : Category)
    → is_not_found c ≡ true
    → (is_auth c ≡ false) × (is_disabled c ≡ false) × (is_forbidden c ≡ false)
one_category not_found is = (refl, refl, refl)
one_category auth is = absurd (cc is)
one_category disabled is = absurd (cc is)
one_category forbidden is = absurd (cc is)
one_category server is = absurd (cc is)
one_category timed_out is = absurd (cc is)
one_category no_network is = absurd (cc is)
one_category other is = absurd (cc is)

-- Where all are in one category, none is in another.
no_other :
    (p : Category → Bool) (attempts : List Attempt)
    → ((c : Category) → is_not_found c ≡ true → p c ≡ false)
    → any (λ a. not (is_not_found a.category)) attempts ≡ false
    → any (λ a. p a.category) attempts ≡ false
unfolding any
no_other p [] excludes all = refl
no_other p (a ∷ attempts) excludes all =
    let here = excludes a.category (ground arith) in
    let later = no_other p attempts excludes (ground arith) in ground (arith, here, later)

status_404 :
    (attempts : List Attempt) (scope : Scope)
    → (build_aggregate_failure_response attempts scope).status_code ≡ 404
    → (no_attempts attempts ≡ false) × (any (λ a. not (is_not_found a.category)) attempts ≡ false)
unfolding build_aggregate_failure_response
status_404 attempts scope h = (ground arith, ground arith)

all_not_found :
    (attempts : List Attempt) (scope : Scope)
    → no_attempts attempts ≡ false
    → any (λ a. not (is_not_found a.category)) attempts ≡ false
    → (build_aggregate_failure_response attempts scope).status_code ≡ 404
unfolding build_aggregate_failure_response
all_not_found attempts scope some_attempt all =
    let a = no_other is_auth attempts (λ c is. (one_category c is).0) all in
    let d = no_other is_disabled attempts (λ c is. (one_category c is).1) all in
    let f = no_other is_forbidden attempts (λ c is. (one_category c is).2) all in
    ground (arith, a, d, f)

module _ (first : ℕ → String → String) (class_name : String) (ask : FallbackSource → Answer) where
  abbrev attempt_at : FallbackSource → Attempt
  attempt_at source = build_fallback_attempt first class_name source (ask source)

  not_there_iff :
      (source : FallbackSource) (answer : Answer)
      → is_not_found (build_fallback_attempt first class_name source answer).category ≡ true
        ↔ Missing answer
  unfolding build_fallback_attempt
  not_there_iff source (response r) = (
    to_answer r.status_code r.x_error_code r.x_error_message,
    from_answer r.status_code r.x_error_code r.x_error_message,
  )
  not_there_iff source (timeout text) = (λ h. absurd (cc h), λ e. elim e [ ])
  not_there_iff source (network text) = (λ h. absurd (cc h), λ e. elim e [ ])

  each_not_there :
      (sources : List FallbackSource)
      → any (λ a. not (is_not_found a.category)) (map attempt_at sources) ≡ false
      → All (λ source. Missing (ask source)) sources
  unfolding any
  each_not_there [] h = tt
  each_not_there (s ∷ sources) h =
      ((not_there_iff s (ask s)).0 (ground arith), each_not_there sources (ground arith))

  none_outside :
      (sources : List FallbackSource)
      → All (λ source. Missing (ask source)) sources
      → any (λ a. not (is_not_found a.category)) (map attempt_at sources) ≡ false
  unfolding any
  none_outside [] all = refl
  none_outside (s ∷ sources) (here, all) =
      let h = (not_there_iff s (ask s)).1 here in
      let later = none_outside sources all in ground (arith, h, later)

  -- When no source serves the repository, the client gets the status 404 exactly if a source was asked
  -- and each one that was asked answered that there is no such thing.
  pub aggregate_not_found_iff :
      (sources : List FallbackSource) (scope : Scope)
      → (build_aggregate_failure_response
            (map (λ source. build_fallback_attempt first class_name source (ask source)) sources)
            scope).status_code
          ≡ 404
        ↔ ((sources ≢ []) × All (λ source. Missing (ask source)) sources)
  aggregate_not_found_iff [] scope = (
    λ status. let (some_attempt, all) = status_404 [] scope status in absurd (cc some_attempt),
    λ (some_source, all). absurd (some_source refl),
  )
  aggregate_not_found_iff (s ∷ sources) scope = (
    λ status.
        let (some_attempt, all) = status_404 (map attempt_at (s ∷ sources)) scope status in
        ((λ same. absurd (cc same)), each_not_there (s ∷ sources) all),
    λ (some_source, all).
        all_not_found (map attempt_at (s ∷ sources)) scope refl (none_outside (s ∷ sources) all),
  )

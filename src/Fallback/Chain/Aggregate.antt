-- ===== src/Fallback/Chain/Aggregate.antt =====
-- What a client is told when no source serves the repository (src/kohakuhub/api/fallback/utils.py).
use mathlib.Core.Path.{subst}
use kohaku_hub.Prelude.{
  ℕ, ◌≡◌, ◌↔◌, inl, inr, refl, sym, ap, ◌∙◌, String, true, Option, none, some, List, [], ◌∷◌, map,
  any, Elem, arith, eq_iff, Bool-cases,
}
use kohaku_hub.Fallback.Chain.{
  Answer, response, timeout, network, FallbackSource, Attempt, Scope, is_text, is_auth,
  categorize_status, build_fallback_attempt, build_aggregate_failure_response,
}

-- The source says that the repository is gated.
abbrev pub Gated : Answer → Type 0
Gated (response r) = r.x_error_code ≡ some "GatedRepo"
Gated (timeout text) = ⊥
Gated (network text) = ⊥

pub is_text_iff :
    (text : String) (header : Option String) → is_text text header ≡ true ↔ (header ≡ some text)
is_text_iff text none = (λ h. absurd (cc h), λ h. absurd (cc h))
is_text_iff text (some header) =
    (λ h. ap some ((eq_iff header text).0 h), λ h. (eq_iff header text).1 (cc h))

categorize-auth :
    (status : ℕ) (code message : Option String)
    → is_auth (categorize_status status code message) ≡ is_text "GatedRepo" code
unfolding categorize_status
categorize-auth status code message = ground arith

status_401 :
    (attempts : List Attempt) (scope : Scope)
    → (build_aggregate_failure_response attempts scope).status_code ≡ 401
    → any (λ a. is_auth a.category) attempts ≡ true
unfolding build_aggregate_failure_response
status_401 attempts scope h = ground arith

module _ (first : ℕ → String → String) (class_name : String) (ask : FallbackSource → Answer) where
  abbrev attempt_at : FallbackSource → Attempt
  attempt_at source = build_fallback_attempt first class_name source (ask source)

  auth_iff :
      (source : FallbackSource) (answer : Answer)
      → is_auth (build_fallback_attempt first class_name source answer).category ≡ true
        ↔ Gated answer
  unfolding build_fallback_attempt
  auth_iff source (response r) =
      let (to, from) = is_text_iff "GatedRepo" r.x_error_code in
      let same = categorize-auth r.status_code r.x_error_code r.x_error_message in
      (λ h. to (sym same ∙ h), λ h. same ∙ from h)
  auth_iff source (timeout text) = (λ h. absurd (cc h), λ e. elim e [ ])
  auth_iff source (network text) = (λ h. absurd (cc h), λ e. elim e [ ])

  auth_source :
      (sources : List FallbackSource)
      → any (λ a. is_auth a.category) (map attempt_at sources) ≡ true
      → (source : FallbackSource) × Elem source sources × Gated (ask source)
  unfolding any
  auth_source [] h = absurd (cc h)
  auth_source (s ∷ sources) h = elim (Bool-cases (is_auth (attempt_at s).category)) [
    | inl gated ↦ (s, inl refl, (auth_iff s (ask s)).0 gated)
    | inr other ↦
        let (source, there, gated) = auth_source sources (ground arith) in
        (source, inr there, gated)
  ]

  source_auth :
      (sources : List FallbackSource) (source : FallbackSource)
      → Elem source sources
      → Gated (ask source)
      → any (λ a. is_auth a.category) (map attempt_at sources) ≡ true
  unfolding any
  source_auth [] source e gated = elim e [ ]
  source_auth (s ∷ sources) source (inl same) gated =
      let here = (auth_iff s (ask s)).1 (subst (λ x. Gated (ask x)) same gated) in
      ground (arith, here)
  source_auth (s ∷ sources) source (inr there) gated =
      let later = source_auth sources source there gated in ground (arith, later)

  -- When no source serves the repository, the client gets the status 401 exactly if a source
  -- answered with the code of a gated repository, whatever the other sources answered.
  pub aggregate-Gated_iff :
      (sources : List FallbackSource) (scope : Scope)
      → (build_aggregate_failure_response
            (map (λ source. build_fallback_attempt first class_name source (ask source)) sources)
            scope).status_code
          ≡ 401
        ↔ ((source : FallbackSource) × Elem source sources × Gated (ask source))
  unfolding build_aggregate_failure_response
  aggregate-Gated_iff sources scope =
      let attempts = map attempt_at sources in
      (
        λ status. auth_source sources (status_401 attempts scope status),
        λ (source, there, gated).
            let some_gated = source_auth sources source there gated in ground (arith, some_gated),
      )

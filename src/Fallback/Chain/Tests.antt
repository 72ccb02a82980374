-- ===== src/Fallback/Chain/Tests.antt =====
-- A chain of three sources: one times out, one does not have the repository, one has it; and a gated one.
use kohaku_hub.Prelude.{
  ℕ, ◌≡◌, ◌≢◌, refl, inl, inr, ◌↔◌, String, str_eq, if◌then◌else◌, Option, none, some, [], ◌∷◌, map,
  All, Elem,
}
use kohaku_hub.Fallback.Chain.{
  Answer, response, timeout, FallbackSource, bound, file, classify_upstream, probe_one_source,
  probe_chain, build_fallback_attempt, build_aggregate_failure_response,
}
use kohaku_hub.Fallback.Chain.First.{probe_chain_first}
use kohaku_hub.Fallback.Chain.Aggregate.{Gated, aggregate-Gated_iff}
use kohaku_hub.Fallback.Chain.Missing.{Missing, aggregate_not_found_iff}

abbrev source_at : String → FallbackSource
source_at name = record { name = name; url = name }

abbrev with_code : ℕ → Option String → Answer
with_code status code =
    response
      (record { status_code = status; x_error_code = code; x_error_message = none; message = "m" })

abbrev ask : FallbackSource → Answer
ask source =
    if str_eq source.name "slow"
    then timeout ""
    else if str_eq source.name "other"
    then with_code 404 none
    else if str_eq source.name "gated"
    then with_code 403 (some "GatedRepo")
    else with_code 302 none

abbrev whole : ℕ → String → String
whole n text = text

probe_chain_first_example :
    probe_chain ask (source_at "slow" ∷ source_at "other" ∷ source_at "hub" ∷ source_at "next" ∷ [])
    ≡ record {
      attempts =
          map (probe_one_source ask) (source_at "slow" ∷ source_at "other" ∷ source_at "hub" ∷ []);
      final_outcome = bound (classify_upstream (with_code 302 none));
      bound_source = some (source_at "hub");
    }
unfolding classify_upstream
probe_chain_first_example =
    probe_chain_first ask (source_at "slow" ∷ source_at "other" ∷ []) (source_at "next" ∷ [])
      (source_at "hub") (refl, (refl, tt)) (λ same. absurd (cc same))

aggregate-Gated_iff_example :
    (build_aggregate_failure_response
        (map
          (λ source. build_fallback_attempt whole "E" source (ask source))
          (source_at "slow" ∷ source_at "gated" ∷ []))
        file).status_code
      ≡ 401
    ↔ ((source : FallbackSource) × Elem source (source_at "slow" ∷ source_at "gated" ∷ [])
        × Gated (ask source))
aggregate-Gated_iff_example =
    aggregate-Gated_iff whole "E" ask (source_at "slow" ∷ source_at "gated" ∷ []) file

aggregate_not_found_iff_example :
    (build_aggregate_failure_response
        (map
          (λ source. build_fallback_attempt whole "E" source (ask source))
          (source_at "other" ∷ source_at "other" ∷ []))
        file).status_code
      ≡ 404
    ↔ ((source_at "other" ∷ source_at "other" ∷ [] ≢ [])
        × All (λ source. Missing (ask source)) (source_at "other" ∷ source_at "other" ∷ []))
aggregate_not_found_iff_example =
    aggregate_not_found_iff whole "E" ask (source_at "other" ∷ source_at "other" ∷ []) file

-- The two sides of both hold there.
status_example :
    (build_aggregate_failure_response
      (map
        (λ source. build_fallback_attempt whole "E" source (ask source))
        (source_at "slow" ∷ source_at "gated" ∷ []))
      file).status_code
    ≡ 401
status_example =
    (aggregate-Gated_iff whole "E" ask (source_at "slow" ∷ source_at "gated" ∷ []) file).1
      (source_at "gated", inr (inl refl), refl)

-- ===== src/Fallback/Chain/First.antt =====
-- Which source a walk over the chain ends at (src/kohakuhub/api/fallback/core.py).
use kohaku_hub.Prelude.{◌≡◌, ◌≢◌, refl, ap, ◌∙◌, List, [], ◌∷◌, ◌++◌, map, All, some, none}
use kohaku_hub.Fallback.Chain.{
  Answer, FallbackDecision, bind_and_respond, bind_and_propagate, try_next_source, FallbackSource,
  ProbeReport, ProbeAttempt, stop_at, bound, chain_exhausted, classify_upstream, probe_one_source,
  probe_chain, then_walk, stop_or_walk,
}

stops :
    (decision : FallbackDecision) (attempt : ProbeAttempt) (walked : ProbeReport)
    → decision ≢ try_next_source
    → stop_or_walk decision attempt walked ≡ stop_at decision attempt
stops bind_and_respond attempt walked binds = refl
stops bind_and_propagate attempt walked binds = refl
stops try_next_source attempt walked binds = absurd (binds refl)

module _ (ask : FallbackSource → Answer) where
  -- The source does not bind the repository.
  abbrev pub FallsThrough : FallbackSource → Type 0
  FallsThrough source = classify_upstream (ask source) ≡ try_next_source

  walks_on :
      (source : FallbackSource) (sources : List FallbackSource)
      → FallsThrough source
      → probe_chain ask (source ∷ sources)
        ≡ then_walk (probe_one_source ask source) (probe_chain ask sources)
  unfolding probe_chain probe_one_source
  walks_on source sources through =
      ap (λ d. stop_or_walk d (probe_one_source ask source) (probe_chain ask sources)) through

  -- A source that binds the repository is reached, if no source before it does, and ends the
  -- walk: the report has its decision and one attempt for each source up to it, in their order, and
  -- the sources after it are not asked.
  pub probe_chain_first :
      (before after : List FallbackSource) (source : FallbackSource)
      → All FallsThrough before
      → classify_upstream (ask source) ≢ try_next_source
      → probe_chain ask (before ++ source ∷ after) ≡ record {
        attempts = map (probe_one_source ask) (before ++ source ∷ []);
        final_outcome = bound (classify_upstream (ask source));
        bound_source = some source;
      }
  unfolding probe_chain probe_one_source
  probe_chain_first [] after source through binds =
      stops (classify_upstream (ask source)) (probe_one_source ask source) (probe_chain ask after)
        binds
  probe_chain_first (s ∷ before) after source (here, through) binds =
      walks_on s (before ++ source ∷ after) here
      ∙ ap (then_walk (probe_one_source ask s))
          (probe_chain_first before after source through binds)

  -- If no source binds the repository, each is asked once, and the chain is exhausted.
  pub probe_chain_exhausted :
      (sources : List FallbackSource)
      → All FallsThrough sources
      → probe_chain ask sources ≡ record {
        attempts = map (probe_one_source ask) sources;
        final_outcome = chain_exhausted;
        bound_source = none;
      }
  unfolding probe_chain
  probe_chain_exhausted [] through = refl
  probe_chain_exhausted (s ∷ sources) (here, through) =
      walks_on s sources here
      ∙ ap (then_walk (probe_one_source ask s)) (probe_chain_exhausted sources through)

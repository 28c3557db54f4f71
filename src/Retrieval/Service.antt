-- ===== src/Retrieval/Service.antt =====
-- app/retrieval/service.py: exact matches, the search, and the rechecks behind the ranking. The provider is a
-- parameter. Its name is left out of the outcome.
pub mod Laws
use text_to_sql_rag.Prelude.{
  ℕ, zero, suc, ◌+◌, ◌≡◌, refl, ap, sym, ◌∙◌, Bool, true, false, not, ◌&&◌, ◌||◌, Option, none,
  some, List, [], ◌∷◌, ◌++◌, arith, Text, ◌==◌, list_eq, nat_eq, contains, select, map, values,
  lower, strip, length, sorted_set, All, ltb, Bool-cases, inl, inr, if◌then◌else◌, concat_map,
  insert,
}
use text_to_sql_rag.Contracts.Errors.{
  Result, ok, err, raised, value_error, key_error, index_error, out_of_fuel, ErrorClass, retrieval,
  governed, authorization, catalog, compilation, validation, Finding, partial_retrieval,
  discovery_denied, warn, info, ◌>>=◌, >>=-eq-ok, ok-injective,
}
use text_to_sql_rag.Contracts.Ids.{show_ref, ObjectType, column}
use text_to_sql_rag.Contracts.Scope.{TrustedScope, discover}
use text_to_sql_rag.Contracts.Records.{MetricRecord, DimensionRecord, GlossaryRecord}
use text_to_sql_rag.Contracts.Retrieval.{
  Candidate, SearchRequest, SearchResponse, CompletionStatus, failed, is_whole, request_fields,
}
use text_to_sql_rag.Authorization.Policy.{check}
use text_to_sql_rag.Authorization.Policy.Sweeps.{allows}
use text_to_sql_rag.Catalog.Service.{CatalogService, lookup_term}
use text_to_sql_rag.Retrieval.Fusion.{cap_per_source}

abbrev pub max_per_source : ℕ
max_per_source = 3

pub record RetrievalOutcome : Type 0 where
  pub candidates : List Candidate
  pub exact_matches : List Text
  pub findings : List Finding
  pub status : CompletionStatus

-- `c.table_id or c.object_id`
abbrev pub source_of : Candidate → Text
source_of c = elim c.table_id [ none ↦ c.object_id | some [] ↦ c.object_id | some (x ∷ s) ↦ x ∷ s ]

-- The ranks are counted from 1 again.
abbrev pub ranked_from : ℕ → List Candidate → List Candidate
ranked_from i [] = []
ranked_from i (c ∷ cs) = record c { rank = i } ∷ ranked_from (i + 1) cs

-- The dict of the sources: a later candidate with the same chunk id wins.
abbrev pub sources_from : List (Text × Text) → List Candidate → List (Text × Text)
sources_from sources [] = sources
sources_from sources (c ∷ cs) = sources_from (insert c.chunk_id (source_of c) sources) cs

abbrev finding : Bool → Finding → List Finding
finding true f = f ∷ []
finding false f = []

abbrev pub response_findings : SearchResponse → List Finding
response_findings response =
    response.findings
    ++ finding (not (is_whole response.status))
        (record { code = partial_retrieval; severity = warn; subject = none })

-- The outcome of a provider that raises: nothing is found, and the status says so.
abbrev pub failed_outcome : Finding → RetrievalOutcome
failed_outcome f = record {
  candidates = [];
  exact_matches = [];
  findings = f ∷ [];
  status = failed;
}

module _ (service : CatalogService) (scope : TrustedScope) where
  -- The two loops over the metrics and the dimensions, from their names and references.
  unfoldable pub named_hits : Text → List (List Text × Text × Text) → Result (List Text)
  named_hits needle [] = ok []
  named_hits needle ((names, id, ref) ∷ rs) =
      let rest = named_hits needle rs in
      if contains needle (map lower names)
      then (check service.policy scope.principal_id discover id >>= λ d.
          rest >>= λ hits. ok (if d.allowed then ref ∷ hits else hits))
      else rest

  abbrev metric_names : MetricRecord → List Text × Text × Text
  metric_names m =
      (m.name ∷ m.id ∷ m.aliases, m.id, show_ref (record { id = m.id; version = m.version }))

  abbrev dimension_names : DimensionRecord → List Text × Text × Text
  dimension_names d =
      (d.name ∷ d.id ∷ d.aliases, d.id, show_ref (record { id = d.id; version = d.version }))

  unfoldable pub resolve_exact : Text → Result (List Text)
  unfolding named_hits
  resolve_exact s = do
    terms ← lookup_term service scope s
    metrics ← named_hits (lower (strip s)) (map metric_names (values service.snapshot.metrics))
    dimensions ←
        named_hits (lower (strip s)) (map dimension_names (values service.snapshot.dimensions))
    ok (sorted_set (concat_map (λ g. g.maps_to) terms ++ metrics ++ dimensions))

  -- The recheck of the discovery permission.
  unfoldable pub recheck : List Candidate → Result (List Candidate)
  recheck [] = ok []
  recheck (c ∷ cs) = do
    d ← check service.policy scope.principal_id discover c.object_id
    rest ← recheck cs
    ok (if d.allowed then c ∷ rest else rest)

  abbrev pub dropped_finding : List Candidate → List Candidate → List Finding
  dropped_finding all authorized =
      finding (ltb (length authorized) (length all))
        (record { code = discovery_denied; severity = info; subject = none })

  -- The candidates that the cap keeps, with new ranks.
  abbrev pub capped : List Candidate → List Candidate
  capped authorized =
      let keep =
        cap_per_source (map (λ c. c.chunk_id) authorized) (sources_from [] authorized)
          max_per_source in
      ranked_from 1 (select (λ c. contains c.chunk_id keep) authorized)

  unfoldable pub answered : Text → SearchResponse → Result RetrievalOutcome
  unfolding recheck resolve_exact
  answered s response = do
    authorized ← recheck response.candidates
    exact ← resolve_exact s
    ok (record {
      candidates = capped authorized;
      exact_matches = exact;
      findings = response_findings response ++ dropped_finding response.candidates authorized;
      status = response.status;
    })

  -- `except RetrievalError`: an error of another class ends the search.
  abbrev pub on_error : ErrorClass → Finding → Result RetrievalOutcome
  on_error retrieval f = ok (failed_outcome f)
  on_error class f = err (raised class f)

  abbrev pub on_response : Text → Result SearchResponse → Result RetrievalOutcome
  on_response s (ok response) = answered s response
  on_response s (err (raised class f)) = on_error class f
  on_response s (err value_error) = err value_error
  on_response s (err key_error) = err key_error
  on_response s (err index_error) = err index_error
  on_response s (err out_of_fuel) = err out_of_fuel

  abbrev pub request_for : Text → List ObjectType → List Text → ℕ → SearchRequest
  request_for s object_types table_ids budget = record {
    search_text = s;
    object_types = object_types;
    table_ids = table_ids;
    candidate_budget = budget;
    snapshot_id = scope.snapshot_id;
  }

  -- `provider` is the search of the provider under the scope.
  unfoldable pub search :
      (provider : SearchRequest → Result SearchResponse)
      → Text
      → List ObjectType
      → List Text
      → ℕ
      → Result RetrievalOutcome
  unfolding answered
  search provider s object_types table_ids budget =
      let request = request_for s object_types table_ids budget in
      if request_fields request then on_response s (provider request) else err value_error

  unfoldable pub columns_for_table :
      (provider : SearchRequest → Result SearchResponse) → Text → Text → ℕ → Result (List Candidate)
  unfolding search
  columns_for_table provider table_id s budget = do
    outcome ← search provider s (column ∷ []) (table_id ∷ []) budget
    ok outcome.candidates

-- ===== src/Planning/Binder.antt =====
-- app/planning/binder.py: a proposed request becomes an authorized plan. The cache of the metric service is
-- passed along; an exception leaves it as it was. Texts that only people read (notes, evidence) are left out,
-- and so are the fields that are copied and never read (roles, calendars' policies, missing groups).
pub mod Parts
pub mod Steps
pub mod Authority
pub mod Contract
use text_to_sql_rag.Prelude.{
  ℕ, Bool, true, false, not, ◌&&◌, ◌||◌, Option, none, some, List, [], ◌∷◌, ◌++◌, Text, text, ◌==◌,
  list_eq, nat_eq, option_eq, contains, select, difference, map, lower, upper, has_text, rpartition,
  starts_with, concat_map, leb, any_of, if◌then◌else◌,
}
use text_to_sql_rag.Contracts.Errors.{
  Result, ok, err, fail, governed, value_error, unsupported_capability, unsupported_operator,
  mandatory_rule_unresolved, fan_out_unproven, validation_failed, ◌>>=◌, ◌>>◌,
}
use text_to_sql_rag.Contracts.Ids.{show_ref}
use text_to_sql_rag.Contracts.Scope.{TrustedScope, use_in_predicate, read}
use text_to_sql_rag.Contracts.Coverage.{ConceptCoverage, CoverageMatrix, with_entry, resolved}
use text_to_sql_rag.Contracts.Expressions.{
  Value, LiteralType, Operand, Predicate, CompareOp, comparison, membership, columns_in,
  optional_columns,
}
use text_to_sql_rag.Contracts.Records.{MetricRecord, DimensionRecord, TimeGrain, time_grain_eq}
use text_to_sql_rag.Contracts.Plan.{
  SemanticRequest, ProposedFilter, FilterOp, TimeRange, SortKey, Direction, BoundMetric,
  BoundDimension, BoundTimeSpec, BoundSemanticPlan, Obligation, ExpectedResultContract,
}
use text_to_sql_rag.Catalog.Service.{
  CatalogService, CatalogSnapshot, get, get_column, require_columns_usable,
}
use text_to_sql_rag.Semantics.Metrics.{
  MetricClosure, MetricCache, all_columns, resolve, resolve_dimension_columns,
  check_dimension_allowed, tables_of,
}
use text_to_sql_rag.Semantics.Rules.{ClosureInput, ClosureResult, close}
use text_to_sql_rag.Relationships.Planner.{
  JoinPlan, PlannedJoin, plan, is_additive_safe, relationship_refs,
}
use text_to_sql_rag.Planning.Clarify.{grain_value}
use text_to_sql_rag.Planning.Binder.Parts.{
  alias, unit_suffix, metric_alias, time_columns, found_aliases, expected_output_columns,
  literal_type_for, filter_predicate, filter_concept, resolved_as, nonempty, metric_ref,
  dimension_ref, bound_metric, supports, bind_time, time_entries, covers, dimension_entries,
  time_alias, grain_columns, order_or, check_order, check_rules, single_metric, refuse_requirements,
  obligation_columns, key_columns, BindResult, Bound, seed_columns, dimension_refs, seed_of,
  swept_columns, rule_entries, contract_columns, contract_of,
}

module _ (service : CatalogService) (scope : TrustedScope) where
  unfoldable pub bind_dimensions : MetricRecord → List Text → Result (List BoundDimension)
  bind_dimensions metric [] = ok []
  bind_dimensions metric (id ∷ ids) = do
    d ← get service.snapshot.dimensions id
    allowed ← check_dimension_allowed metric id
    found ← resolve_dimension_columns service scope (dimension_ref d)
    rest ← bind_dimensions metric ids
    ok (
        record {
          ref = dimension_ref d;
          column = found.0;
          output_alias = alias d.id;
          via_relationship_ref = found.1;
        }
        ∷ rest)

  -- A filter may name a dimension.
  abbrev pub filtered_column : Text → Text
  filtered_column target = elim (get service.snapshot.dimensions target) [
    | ok d ↦ d.column
    | err e ↦ target
  ]

  unfoldable pub bind_filter : ProposedFilter → Result Predicate
  unfolding filter_predicate literal_type_for
  bind_filter f = do
    let id = filtered_column f.target_id
    column ← get_column service scope id
    usable ← require_columns_usable service scope (id ∷ []) use_in_predicate
    filter_predicate f.op (Operand.column id)
        (map (λ v. Operand.literal (literal_type_for column.data_type) v) f.values) f.target_id

  unfoldable pub bind_filters : List ProposedFilter → Result (List Predicate)
  unfolding bind_filter
  bind_filters [] = ok []
  bind_filters (f ∷ fs) = do p ← bind_filter f; ps ← bind_filters fs; ok (p ∷ ps)

  module _ (isoformat : ℕ → Text) where
    abbrev pub coverage_of : Text → Text → SemanticRequest → List BoundDimension → CoverageMatrix
    coverage_of metric_id ref request dims =
        covers
          (resolved_as metric_id (text "metric") (some ref)
            ∷ (dimension_entries request.dimension_ids dims
                ++ (time_entries isoformat request.time_range
                    ++ map (λ f. resolved_as (filter_concept f) (text "filter") (some f.target_id))
                        request.filters)))
          (record { entries = [] })

    -- The steps up to the filters of the user.
    unfoldable pub gather : MetricCache → SemanticRequest → Result (Bound × MetricCache)
    unfolding single_metric bind_dimensions bind_time bind_filters
    gather cache request = do
      id ← single_metric request.metric_ids
      record_ ← get service.snapshot.metrics id
      let ref = metric_ref record_
      found ← resolve service scope cache ref
      let metric = found.0.metric
      dims ← bind_dimensions metric request.dimension_ids
      time ← bind_time metric request.time_range request.time_grain
      filters ← bind_filters request.filters
      ok (
        record {
          ref = ref;
          closure = found.0;
          dimensions = dims;
          time = time;
          filters = filters;
          coverage = coverage_of id ref request dims;
        },
        found.1,
      )

  -- The closure of the rules, and the tests on it.
  unfoldable pub close_bound : Bound → Result ClosureResult
  unfolding check_rules
  close_bound b = do
    tables ← tables_of (seed_columns b)
    rules ← close service scope (seed_of b tables)
    settled ← refuse_requirements rules.semantic_requirements
    required ← check_rules b.closure.metric.required_rule_refs rules.applied_rule_refs
    ok rules

  unfoldable pub join_bound : Bound → ClosureResult → Result JoinPlan
  join_bound b rules = do
    joins ←
        plan service scope b.closure.metric.base_table rules.tables
          (dimension_refs b.dimensions ++ rules.relationship_refs) true
    if is_additive_safe joins then ok joins else fail governed fan_out_unproven none

  -- Every reference is authorized again.
  unfoldable pub sweep : Bound → ClosureResult → JoinPlan → Result (Unit {0})
  sweep b rules joins =
      require_columns_usable service scope
        (difference (swept_columns b rules joins) b.closure.of_measure) use_in_predicate
      >> require_columns_usable service scope b.closure.of_measure read

  abbrev pub plan_of :
      SemanticRequest → Text → ℕ → Bound → ClosureResult → JoinPlan → BoundSemanticPlan
  plan_of request plan_id plan_revision b rules joins = record {
    plan_id = plan_id;
    plan_revision = plan_revision;
    operation = request.operation;
    snapshot_id = scope.snapshot_id;
    policy_epoch = scope.policy_epoch;
    metrics = bound_metric b.ref b.closure.metric ∷ [];
    dimensions = b.dimensions;
    time = b.time;
    filters = b.filters;
    obligations = rules.obligations;
    relationship_refs = relationship_refs joins;
    rule_refs = rules.applied_rule_refs;
    metric_refs = b.ref ∷ [];
    order_by = order_or request.order_by (grain_columns b.time b.dimensions);
    limit = request.limit;
    result_contract = contract_of b;
    coverage = covers (rule_entries b.closure.metric.required_rule_refs) b.coverage;
  }

  unfoldable pub bind :
      (isoformat : ℕ → Text)
      → MetricCache
      → SemanticRequest
      → (plan_id : Text) → (plan_revision : ℕ) → Result (BindResult × MetricCache)
  unfolding gather close_bound join_bound sweep check_order
  bind isoformat cache request plan_id plan_revision = do
    found ← gather isoformat cache request
    let b = found.0
    rules ← close_bound b
    joins ← join_bound b rules
    authorized ← sweep b rules joins
    sorted ← check_order request.order_by (contract_columns b)
    ok (
      record {
        plan = plan_of request plan_id plan_revision b rules joins;
        join_plan = joins;
        closure = rules;
      },
      found.1,
    )

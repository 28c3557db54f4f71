-- ===== src/Sql/Validators/Records.antt =====
-- app/sql/validators/suite.py: the gates that read the records of the plan. A gate that may raise returns a result.
use text_to_sql_rag.Prelude.{
  Bool, true, false, not, Option, none, some, List, [], ◌∷◌, ◌++◌, Text, ◌==◌, list_eq, nat_eq,
  option_eq, contains, select, map, length, leb, any_of, concat_map, same_set, subset, starts_with,
  rpartition, sorted_set, if◌then◌else◌,
}
use text_to_sql_rag.Contracts.Errors.{
  Result, ok, err, Finding, finding_of, no_approved_path, validation_failed, not_authorized,
  mandatory_rule_unresolved, fan_out_unproven, policy_epoch_changed, stale_snapshot, ◌>>=◌,
}
use text_to_sql_rag.Contracts.Scope.{
  TrustedScope, Action, read, use_in_predicate, discover, execute_metric,
}
use text_to_sql_rag.Contracts.Expressions.{
  MeasureExpr, aggregate, ratio, sum, avg, columns_in, measure_columns, predicate_eq, measure_eq,
}
use text_to_sql_rag.Contracts.Records.{Placement, before_aggregation, after_aggregation}
use text_to_sql_rag.Contracts.Plan.{
  BoundMetric, BoundSemanticPlan, Obligation, JoinOp, LogicalPlan, CompiledQuery,
}
use text_to_sql_rag.Authorization.Policy.{check}
use text_to_sql_rag.Catalog.Service.{CatalogService, get, get_pinned, get_relationship}
use text_to_sql_rag.Planning.Lowering.Parts.{tenant_tag, tenant_rule}
use text_to_sql_rag.Sql.Compiler.Emission.{BoundValue}
use text_to_sql_rag.Sql.Validators.Nodes.{blocked}

-- A loop whose body may raise.
unfoldable pub each {ℓ} :
    {A : Type ℓ} → (A → Result (List Finding)) → List A → Result (List Finding)
each f [] = ok []
each f (a ∷ xs) = do here ← f a; rest ← each f xs; ok (here ++ rest)

-- `ref.split("@")[0]`
unfoldable pub before_at : Text → Text
before_at [] = []
before_at (c ∷ s) = let rest = before_at s in if c == b'@' then [] else c ∷ rest

-- `column_id.rsplit(".", 1)[0]`
unfoldable pub stem : Text → Text
stem s = elim (rpartition b'.' s) [ none ↦ s | some (parent, _) ↦ parent ]

abbrev is_none : {A : Type 0} → Option A → Bool
is_none none = true
is_none (some a) = false

abbrev pub is_additive : MeasureExpr → Bool
is_additive (aggregate sum operand) = true
is_additive (aggregate avg operand) = true
is_additive (aggregate op operand) = false
is_additive (ratio numerator denominator zero_denominator) = false

unfoldable pub gate_grain : LogicalPlan → BoundSemanticPlan → List Finding
gate_grain logical plan =
    blocked (not (same_set plan.result_contract.grain logical.output_grain))
      (finding_of validation_failed none)

unfoldable pub gate_fan_out : LogicalPlan → BoundSemanticPlan → List Finding
gate_fan_out logical plan =
    if any_of (λ m. is_additive m.expression) plan.metrics
    then concat_map
        (λ j.
          blocked (not j.preserves_left_multiplicity)
            (finding_of fan_out_unproven (some j.relationship_ref)))
        logical.joins
    else []

unfoldable pub gate_policy_epoch : BoundSemanticPlan → TrustedScope → List Finding
gate_policy_epoch plan scope =
    if not (plan.policy_epoch == scope.policy_epoch)
    then finding_of policy_epoch_changed none ∷ []
    else blocked (not (plan.snapshot_id == scope.snapshot_id)) (finding_of stale_snapshot none)

-- A column of a measure is read, any other one is used in a predicate.
abbrev pub action_on : List BoundMetric → Text → Action
action_on metrics c =
    if contains c (concat_map (λ m. measure_columns m.expression) metrics)
    then read
    else use_in_predicate

-- The columns that an obligation is looked for in.
abbrev pub target : (where_ having : List Text) → Placement → List Text
target where_ having before_aggregation = where_
target where_ having after_aggregation = having

abbrev pub scanned_tables : LogicalPlan → List Text
scanned_tables logical = logical.base.table_id ∷ map (λ j. j.right.table_id) logical.joins

module _ (service : CatalogService) where
  -- `_is_tenant_key`
  unfoldable pub is_tenant_key : Text → Bool
  is_tenant_key id = elim (get service.snapshot.columns id) [
    | err e ↦ false
    | ok c ↦ c.is_tenant_key
  ]

  -- The tables that carry the tag of tenancy.
  unfoldable pub tenant_tables : List Text → Result (List Text)
  tenant_tables [] = ok []
  tenant_tables (t ∷ ts) = do
    table ← get service.snapshot.tables t
    rest ← tenant_tables ts
    ok (if contains tenant_tag table.tags then t ∷ rest else rest)

  abbrev pub covered : List Text → List Text
  covered columns = map stem (select is_tenant_key columns)

  unfoldable pub isolation : LogicalPlan → (where_ : List Text) → Obligation → Result (List Finding)
  unfolding tenant_tables stem is_tenant_key
  isolation logical where_ o = do
    needs ← tenant_tables (scanned_tables logical)
    ok (
        blocked (not (subset needs (covered where_)))
          (finding_of mandatory_rule_unresolved (some o.rule_ref)))

  -- What the columns of the two clauses show of an obligation.
  unfoldable pub evidence :
      LogicalPlan → (where_ having : List Text) → Obligation → Result (List Finding)
  unfolding isolation
  evidence logical where_ having o = elim o.predicate [
    | some p ↦ ok (
        blocked (not (subset (columns_in p) (target where_ having o.placement)))
          (finding_of mandatory_rule_unresolved (some o.rule_ref)))
    | none ↦ if starts_with o.rule_ref tenant_rule then isolation logical where_ o else ok []
  ]

  unfoldable pub gate_obligations : BoundSemanticPlan → LogicalPlan → Result (List Finding)
  unfolding evidence each
  gate_obligations plan logical =
      each
        (evidence logical (concat_map columns_in logical.where_)
          (concat_map columns_in logical.having))
        plan.obligations

  unfoldable pub gate_time : BoundSemanticPlan → Result (List Finding)
  gate_time plan = elim plan.time [
    | none ↦ ok []
    | some t ↦ do
      column ← get service.snapshot.columns t.column
      ok (
          blocked (leb t.range.end_exclusive t.range.start) (finding_of validation_failed none)
          ++ blocked (is_none column.time_role) (finding_of validation_failed (some t.column)))
  ]

  -- The metrics against their records, in pairs while there are both.
  unfoldable pub metric_findings : List BoundMetric → List Text → Result (List Finding)
  metric_findings (b ∷ bs) (ref ∷ refs) = do
    published ← get_pinned (λ m. m.version) service.snapshot.metrics ref
    rest ← metric_findings bs refs
    ok (
        blocked (not (b.expression == published.expression))
          (finding_of validation_failed (some ref))
        ++ (blocked (not (b.population == published.population))
              (finding_of validation_failed (some ref))
            ++ (blocked (not (b.unit == published.unit)) (finding_of validation_failed (some ref))
                ++ rest)))
  metric_findings [] refs = ok []
  metric_findings (b ∷ bs) [] = ok []

  abbrev pub gate_metric_integrity : BoundSemanticPlan → Result (List Finding)
  gate_metric_integrity plan = metric_findings plan.metrics plan.metric_refs

module _ (service : CatalogService) (scope : TrustedScope) where
  -- The join against the relationship that it cites.
  unfoldable pub join_findings : JoinOp → List Finding
  join_findings j = elim (get_relationship service scope j.relationship_ref) [
    | err e ↦ finding_of no_approved_path (some j.relationship_ref) ∷ []
    | ok rel ↦
        blocked (not (length j.predicates == length rel.predicates))
          (finding_of validation_failed (some j.relationship_ref))
  ]

  unfoldable pub gate_joins_approved : LogicalPlan → List Finding
  unfolding join_findings
  gate_joins_approved logical = concat_map join_findings logical.joins

  unfoldable pub refused : Action → (resource subject : Text) → Result (List Finding)
  refused action resource subject = do
    d ← check service.policy scope.principal_id action resource
    ok (blocked (not d.allowed) (finding_of not_authorized (some subject)))

  unfoldable pub gate_authorization :
      CompiledQuery BoundValue → BoundSemanticPlan → Result (List Finding)
  unfolding refused each before_at
  gate_authorization compiled plan = do
    columns ←
        each (λ c. refused (action_on plan.metrics c) c c) (sorted_set compiled.referenced_columns)
    tables ← each (λ t. refused discover t t) (sorted_set compiled.referenced_tables)
    metrics ← each (λ ref. refused execute_metric (before_at ref) ref) plan.metric_refs
    ok (columns ++ (tables ++ metrics))

-- ===== src/Planning/Lowering.antt =====
-- app/planning/lowering.py: a bound plan becomes the logical plan, the only input of the compiler.
pub mod Parts
pub mod Rows
use text_to_sql_rag.Prelude.{
  ℕ, suc, ◌+◌, Bool, true, false, not, ◌&&◌, ◌||◌, Option, none, some, List, [], ◌∷◌, ◌++◌, Text,
  text, ◌==◌, list_eq, nat_eq, contains, select, map, any_of, starts_with, concat_map, insert,
  lookup, decimal, sorted_set, if◌then◌else◌,
}
use text_to_sql_rag.Contracts.Errors.{
  Result, ok, err, fail, governed, key_error, validation_failed, unsupported_operator, ◌>>=◌, ◌>>◌,
}
use text_to_sql_rag.Contracts.Ids.{table_id_of}
use text_to_sql_rag.Contracts.Scope.{TrustedScope}
use text_to_sql_rag.Contracts.Expressions.{
  Operand, Predicate, nil, cons, CompareOp, comparison, is_null, bool_op, or_, columns_in,
  optional_columns, measure_columns,
}
use text_to_sql_rag.Contracts.Records.{
  TableRecord, JoinPredicate, TimeGrain, Placement, before_aggregation, after_aggregation,
}
use text_to_sql_rag.Contracts.Plan.{
  BoundMetric, BoundDimension, BoundTimeSpec, BoundSemanticPlan, Obligation, ScanOp, JoinOp,
  LogicalPlan,
}
use text_to_sql_rag.Catalog.Service.{CatalogService, get_table}
use text_to_sql_rag.Relationships.Planner.{JoinPlan, PlannedJoin, relationship_ref}
use text_to_sql_rag.Planning.Clarify.{grain_value}
use text_to_sql_rag.Planning.Lowering.Parts.{
  aliases_from, assign_aliases, alias_in, obligation_columns, wanted, columns_of_table, columns_for,
  join_predicate, join_predicates, tenant_tag, tenant_rule, needs_tenant, tenant_predicate, isolate,
  tenant_predicates, time_predicates, optional, is_before, place, placed, time_bucket, bucket_group,
  groups, dict_from, lineage_of,
}

module _ (service : CatalogService) (scope : TrustedScope) where
  unfoldable pub scan_of : BoundSemanticPlan → List (Text × Text) → Text → Result ScanOp
  unfolding alias_in columns_for
  scan_of p aliases table_id = do
    table ← get_table service scope table_id
    a ← alias_in aliases table.id
    columns ← columns_for p table.id
    ok (record { table_id = table.id; physical = table.physical; alias = a; columns = columns })

  unfoldable pub lower_join : BoundSemanticPlan → List (Text × Text) → PlannedJoin → Result JoinOp
  unfolding scan_of join_predicates
  lower_join p aliases j = do
    table ← get_table service scope j.to_table
    left ← alias_in aliases j.from_table
    right ← alias_in aliases j.to_table
    scan ← scan_of p aliases j.to_table
    predicates ← join_predicates (relationship_ref j.relationship) j.relationship.predicates
    ok (record {
      relationship_ref = relationship_ref j.relationship;
      left_alias = left;
      right_alias = right;
      right = scan;
      join_type = j.relationship.join_type;
      predicates = predicates;
      preserves_left_multiplicity = j.preserves_left_multiplicity;
    })

  unfoldable pub lower_joins :
      BoundSemanticPlan → List (Text × Text) → List PlannedJoin → Result (List JoinOp)
  unfolding lower_join
  lower_joins p aliases [] = ok []
  lower_joins p aliases (j ∷ js) = do
    k ← lower_join p aliases j
    ks ← lower_joins p aliases js
    ok (k ∷ ks)

  unfoldable pub scanned : List Text → Result (List TableRecord)
  scanned [] = ok []
  scanned (t ∷ ts) = do table ← get_table service scope t; rest ← scanned ts; ok (table ∷ rest)

  -- The tenant of every scanned table, where an obligation asks for it.
  unfoldable pub tenancy : BoundSemanticPlan → JoinPlan → Result (List Predicate)
  unfolding scanned tenant_predicates needs_tenant
  tenancy p joins = do
    tables ← scanned (joins.base_table ∷ map (λ j. j.to_table) joins.joins)
    if needs_tenant p.obligations then tenant_predicates tables else ok []

  abbrev pub where_of : BoundSemanticPlan → List Predicate → List Predicate
  where_of p tenant =
      tenant
      ++ (time_predicates p.time
          ++ (concat_map (λ m. optional m.population) p.metrics
              ++ (placed true p.obligations ++ p.filters)))

  abbrev pub logical_of :
      BoundSemanticPlan → Text → ScanOp → List JoinOp → List Predicate → LogicalPlan
  logical_of p dialect base joins tenant = record {
    plan_id = p.plan_id;
    plan_revision = p.plan_revision;
    dialect = dialect;
    base = base;
    joins = joins;
    where_ = where_of p tenant;
    group_by = groups p;
    time_bucket = time_bucket p.time;
    measures = map (λ m. (m.output_alias, m.expression)) p.metrics;
    having = placed false p.obligations;
    order_by = p.order_by;
    limit = p.limit;
    output_grain = map (λ g. g.0) (groups p);
    lineage = lineage_of p;
  }

  unfoldable pub lower : BoundSemanticPlan → JoinPlan → (dialect : Text) → Result LogicalPlan
  unfolding scan_of lower_joins tenancy
  lower p joins dialect = do
    let aliases = assign_aliases joins
    base ← scan_of p aliases joins.base_table
    lowered ← lower_joins p aliases joins.joins
    tenant ← tenancy p joins
    ok (logical_of p dialect base lowered tenant)

-- ===== src/Planning/Binder/Parts.antt =====
-- app/planning/binder.py: the parts of a plan that need no look into the catalog, and the records of a binding.
use text_to_sql_rag.Prelude.{
  ℕ, Bool, true, false, ◌&&◌, ◌||◌, Option, none, some, List, [], ◌∷◌, ◌++◌, Text, text, ◌==◌,
  list_eq, nat_eq, option_eq, contains, map, lower, upper, has_text, rpartition, starts_with,
  concat_map, leb, any_of, if◌then◌else◌,
}
use text_to_sql_rag.Contracts.Errors.{
  Result, ok, err, fail, governed, value_error, unsupported_capability, unsupported_operator,
  mandatory_rule_unresolved, validation_failed,
}
use text_to_sql_rag.Contracts.Ids.{show_ref}
use text_to_sql_rag.Contracts.Coverage.{ConceptCoverage, CoverageMatrix, with_entry, resolved}
use text_to_sql_rag.Contracts.Expressions.{
  LiteralType, Operand, Predicate, CompareOp, comparison, membership, columns_in, optional_columns,
}
use text_to_sql_rag.Contracts.Records.{MetricRecord, DimensionRecord, TimeGrain, time_grain_eq}
use text_to_sql_rag.Contracts.Plan.{
  SemanticRequest, ProposedFilter, FilterOp, TimeRange, SortKey, Direction, BoundMetric,
  BoundDimension, BoundTimeSpec, BoundSemanticPlan, Obligation, ExpectedResultContract,
}
use text_to_sql_rag.Catalog.Service.{CatalogSnapshot, get}
use text_to_sql_rag.Semantics.Metrics.{MetricClosure, all_columns}
use text_to_sql_rag.Semantics.Rules.{ClosureInput, ClosureResult}
use text_to_sql_rag.Relationships.Planner.{JoinPlan, PlannedJoin}
use text_to_sql_rag.Planning.Clarify.{grain_value}

abbrev alias_char : ℕ → ℕ
alias_char c =
    if (leb b'a' c && leb c b'z') || (leb b'0' c && leb c b'9') || (c == b'_') then c else b'_'

abbrev leaf : Text → Text
leaf s = elim (rpartition b'.' s) [ none ↦ s | some (before, after) ↦ after ]

-- `_alias`
unfoldable pub alias : Text → Text
alias object_id = map alias_char (lower (leaf object_id))

-- `"_" + unit.lower() if unit else ""`
abbrev pub unit_suffix : Option Text → Text
unit_suffix none = []
unit_suffix (some []) = []
unit_suffix (some (c ∷ s)) = b'_' ∷ lower (c ∷ s)

unfoldable pub metric_alias : MetricRecord → Text
unfolding alias
metric_alias m = alias m.id ++ unit_suffix m.unit

-- The column of the period, if a range and a grain are asked for.
abbrev pub time_columns : Option TimeRange → Option TimeGrain → List Text
time_columns (some r) (some g) = grain_value g ∷ []
time_columns (some r) none = []
time_columns none g = []

-- An id that the catalog does not have gives no column.
abbrev pub found_aliases : {R : Type 0} → (R → Text) → List (Text × R) → List Text → List Text
found_aliases name records ids =
    concat_map (λ id. elim (get records id) [ ok r ↦ name r ∷ [] | err e ↦ [] ]) ids

unfoldable pub expected_output_columns : CatalogSnapshot → SemanticRequest → List Text
unfolding get metric_alias alias
expected_output_columns snapshot request =
    time_columns request.time_range request.time_grain
    ++ (found_aliases (λ d. alias d.id) snapshot.dimensions request.dimension_ids
        ++ found_aliases metric_alias snapshot.metrics request.metric_ids)

-- `_literal_type_for`
unfoldable pub literal_type_for : Text → LiteralType
unfolding starts_with has_text
literal_type_for data_type =
    let u = upper data_type in
    let starts = any_of (λ p. starts_with u p) in
    if starts (text "BOOL" ∷ [])
    then LiteralType.boolean
    else if starts (text "INT" ∷ text "BIGINT" ∷ text "SMALLINT" ∷ [])
    then LiteralType.integer
    else if starts (text "DECIMAL" ∷ text "NUMERIC" ∷ text "DOUBLE" ∷ text "FLOAT" ∷ [])
    then LiteralType.decimal
    else if has_text u (text "TIMESTAMP")
    then LiteralType.instant
    else if starts (text "DATE" ∷ [])
    then LiteralType.date
    else LiteralType.string

-- `Comparison(op=...)` behind the test that there is one value.
abbrev compare_one : CompareOp → Operand → List Operand → Text → Result Predicate
compare_one op left (right ∷ []) target = ok (comparison op left right)
compare_one op left other target = fail governed unsupported_operator (some target)

-- `Membership(members=...)`, of at least one member.
abbrev make_membership : Bool → Operand → List Operand → Result Predicate
make_membership negated left [] = err value_error
make_membership negated left (m ∷ ms) = ok (membership negated left (m ∷ ms))

-- The predicate of a filter, by its operator.
unfoldable pub filter_predicate : FilterOp → Operand → List Operand → Text → Result Predicate
filter_predicate FilterOp.in_ left operands target = make_membership false left operands
filter_predicate FilterOp.not_in left operands target = make_membership true left operands
filter_predicate FilterOp.eq left operands target = compare_one CompareOp.eq left operands target
filter_predicate FilterOp.ne left operands target = compare_one CompareOp.ne left operands target
filter_predicate FilterOp.lt left operands target = compare_one CompareOp.lt left operands target
filter_predicate FilterOp.lte left operands target = compare_one CompareOp.lte left operands target
filter_predicate FilterOp.gt left operands target = compare_one CompareOp.gt left operands target
filter_predicate FilterOp.gte left operands target = compare_one CompareOp.gte left operands target

-- `f"{target_id} {op}"`
abbrev op_text : FilterOp → Text
op_text FilterOp.eq = text "eq"
op_text FilterOp.ne = text "ne"
op_text FilterOp.lt = text "lt"
op_text FilterOp.lte = text "lte"
op_text FilterOp.gt = text "gt"
op_text FilterOp.gte = text "gte"
op_text FilterOp.in_ = text "in"
op_text FilterOp.not_in = text "not_in"

abbrev pub filter_concept : ProposedFilter → Text
filter_concept f = f.target_id ++ b' ' ∷ op_text f.op

-- A concept that the catalog resolves.
abbrev pub resolved_as : Text → Text → Option Text → ConceptCoverage
resolved_as concept kind ref = record {
  concept = concept;
  kind = kind;
  state = resolved;
  resolved_ref = ref;
  alternatives = [];
}

abbrev pub nonempty : Option Text → List Text
nonempty none = []
nonempty (some []) = []
nonempty (some (c ∷ s)) = (c ∷ s) ∷ []

abbrev pub metric_ref : MetricRecord → Text
metric_ref m = show_ref (record { id = m.id; version = m.version })

abbrev pub dimension_ref : DimensionRecord → Text
dimension_ref d = show_ref (record { id = d.id; version = d.version })

abbrev pub bound_metric : Text → MetricRecord → BoundMetric
bound_metric ref m = record {
  ref = ref;
  expression = m.expression;
  population = m.population;
  base_table = m.base_table;
  base_grain = m.base_grain;
  unit = m.unit;
  output_alias = metric_alias m;
}

-- The grain must be one of the metric.
abbrev pub supports : Option TimeGrain → List TimeGrain → Bool
supports none grains = true
supports (some g) grains = contains g grains

abbrev alias_of_grain : Option TimeGrain → Option Text
alias_of_grain none = none
alias_of_grain (some g) = some (grain_value g)

abbrev subject_of_grain : Option TimeGrain → Option Text
subject_of_grain = alias_of_grain

unfoldable pub bind_time :
    MetricRecord → Option TimeRange → Option TimeGrain → Result (Option BoundTimeSpec)
bind_time m none grain = ok none
bind_time m (some range) grain =
    if supports grain m.time.grains
    then ok (
        some (record {
          column = m.time.time_column;
          range = range;
          grain = grain;
          output_alias = alias_of_grain grain;
          calendar_ref = m.time.calendar_ref;
        }))
    else fail governed unsupported_capability (subject_of_grain grain)

-- `start.isoformat()/end.isoformat()`
abbrev pub time_entries : (isoformat : ℕ → Text) → Option TimeRange → List ConceptCoverage
time_entries isoformat none = []
time_entries isoformat (some r) =
    resolved_as (text "time range") (text "time")
      (some (isoformat r.start ++ (b'/' ∷ isoformat r.end_exclusive)))
    ∷ []

-- What is covered, in the order in which the binder resolves it.
abbrev pub covers : List ConceptCoverage → CoverageMatrix → CoverageMatrix
covers [] m = m
covers (e ∷ es) m = covers es (with_entry m e)

abbrev pub dimension_entries : List Text → List BoundDimension → List ConceptCoverage
dimension_entries (id ∷ ids) (d ∷ ds) =
    resolved_as id (text "dimension") (some d.ref) ∷ dimension_entries ids ds
dimension_entries _ _ = []

abbrev pub time_alias : Option BoundTimeSpec → List Text
time_alias none = []
time_alias (some t) = nonempty t.output_alias

abbrev pub grain_columns : Option BoundTimeSpec → List BoundDimension → List Text
grain_columns time dims = time_alias time ++ map (λ d. d.output_alias) dims

-- `order_by or ({"field": g, "direction": "asc"} for g in grain)`
abbrev pub order_or : List SortKey → List Text → List SortKey
order_or [] grain = map (λ g. record { field = g; direction = Direction.asc }) grain
order_or (k ∷ ks) grain = k ∷ ks

unfoldable pub check_order : List SortKey → List Text → Result (Unit {0})
check_order [] columns = ok tt
check_order (k ∷ ks) columns =
    let rest = check_order ks columns in
    if contains k.field columns then rest else fail governed validation_failed (some k.field)

unfoldable pub check_rules : List Text → List Text → Result (Unit {0})
check_rules [] applied = ok tt
check_rules (r ∷ rs) applied =
    let rest = check_rules rs applied in
    if contains r applied then rest else fail governed mandatory_rule_unresolved (some r)

-- One metric, no more.
unfoldable pub single_metric : List Text → Result Text
single_metric [] = fail governed unsupported_capability none
single_metric (m ∷ []) = ok m
single_metric (m ∷ n ∷ ms) = fail governed unsupported_capability none

abbrev pub refuse_requirements : List Text → Result (Unit {0})
refuse_requirements [] = ok tt
refuse_requirements (r ∷ rs) = fail governed mandatory_rule_unresolved none

abbrev pub obligation_columns : List Obligation → List Text
obligation_columns os = concat_map (λ o. optional_columns o.predicate) os

abbrev pub key_columns : PlannedJoin → List Text
key_columns j = concat_map (λ p. p.left_column ∷ p.right_column ∷ []) j.relationship.predicates

pub record BindResult : Type 0 where
  pub plan : BoundSemanticPlan
  pub join_plan : JoinPlan
  pub closure : ClosureResult

-- What the steps before the closure of the rules leave in the local variables.
pub record Bound : Type 0 where
  pub ref : Text
  pub closure : MetricClosure
  pub dimensions : List BoundDimension
  pub time : Option BoundTimeSpec
  pub filters : List Predicate
  pub coverage : CoverageMatrix

-- The seed of the closure of the rules.
abbrev pub seed_columns : Bound → List Text
seed_columns b =
    all_columns b.closure ++ (map (λ d. d.column) b.dimensions ++ concat_map columns_in b.filters)

abbrev pub dimension_refs : List BoundDimension → List Text
dimension_refs dims = concat_map (λ d. nonempty d.via_relationship_ref) dims

abbrev pub seed_of : Bound → List Text → ClosureInput
seed_of b tables = record {
  tables = tables ++ b.closure.tables;
  columns = seed_columns b;
  metric_refs = b.ref ∷ [];
  entities = b.closure.metric.base_entity ∷ [];
  relationship_refs = dimension_refs b.dimensions;
  slots = [];
}

-- The columns of the final sweep.
abbrev pub swept_columns : Bound → ClosureResult → JoinPlan → List Text
swept_columns b rules joins =
    seed_columns b ++ (obligation_columns rules.obligations ++ concat_map key_columns joins.joins)

abbrev pub rule_entries : List Text → List ConceptCoverage
rule_entries refs = map (λ r. resolved_as r (text "rule") (some r)) refs

abbrev pub contract_columns : Bound → List Text
contract_columns b = grain_columns b.time b.dimensions ++ metric_alias b.closure.metric ∷ []

abbrev pub contract_of : Bound → ExpectedResultContract
contract_of b = record {
  columns = contract_columns b;
  grain = grain_columns b.time b.dimensions;
  unit = b.closure.metric.unit;
  unique_keys = grain_columns b.time b.dimensions;
}

-- ===== src/Contracts/Plan.antt =====
-- app/contracts/semantic_plan.py: what a model proposes, what the binder makes of it, and what the
-- compiler renders. An instant is a number of microseconds.
use text_to_sql_rag.Prelude.{ℕ, Bool, Option, List, Text, Eq, ℕ_discrete, leb, if◌then◌else◌}
use text_to_sql_rag.Contracts.Errors.{Result, ok, err, value_error}
use text_to_sql_rag.Contracts.Ids.{QualifiedName}
use text_to_sql_rag.Contracts.Coverage.{CoverageMatrix}
use text_to_sql_rag.Contracts.Expressions.{Value, MeasureExpr, Predicate}
use text_to_sql_rag.Contracts.Records.{TimeGrain, Placement}

pub data Operation : Type 0 where
  lookup aggregate trend rank compare : Operation

pub record TimeRange : Type 0 where
  pub start : ℕ
  pub end_exclusive : ℕ
  pub timezone : Text
  pub grain : Option TimeGrain

-- `_ordered`
unfoldable pub validate_range : TimeRange → Result TimeRange
validate_range r = if leb r.end_exclusive r.start then err value_error else ok r

pub data Direction : Type 0 where
  asc desc : Direction

pub record SortKey : Type 0 where
  pub field : Text
  pub direction : Direction

pub data FilterOp : Type 0 where
  eq ne lt lte gt gte in_ not_in : FilterOp

pub record ProposedFilter : Type 0 where
  pub target_id : Text
  pub op : FilterOp
  pub values : List Value

pub record SemanticRequest : Type 0 where
  pub operation : Operation
  pub metric_ids : List Text
  pub dimension_ids : List Text
  pub filters : List ProposedFilter
  pub time_range : Option TimeRange
  pub time_grain : Option TimeGrain
  pub order_by : List SortKey
  pub limit : Option ℕ
  pub attribution : Option Text

pub record BoundMetric : Type 0 where
  pub ref : Text
  pub expression : MeasureExpr
  pub population : Option Predicate
  pub base_table : Text
  pub base_grain : List Text
  pub unit : Option Text
  pub output_alias : Text

pub record BoundDimension : Type 0 where
  pub ref : Text
  pub column : Text
  pub output_alias : Text
  pub via_relationship_ref : Option Text

pub record BoundTimeSpec : Type 0 where
  pub column : Text
  pub range : TimeRange
  pub grain : Option TimeGrain
  pub output_alias : Option Text
  pub calendar_ref : Text

-- `satisfied_by` is never set by the program.
pub record Obligation : Type 0 where
  pub rule_ref : Text
  pub predicate : Option Predicate
  pub placement : Placement
  pub required_tables : List Text
  pub required_relationship_ref : Option Text

pub record ExpectedResultContract : Type 0 where
  pub columns : List Text
  pub grain : List Text
  pub unit : Option Text
  pub unique_keys : List Text

pub record BoundSemanticPlan : Type 0 where
  pub plan_id : Text
  pub plan_revision : ℕ
  pub operation : Operation
  pub snapshot_id : Text
  pub policy_epoch : ℕ
  pub metrics : List BoundMetric
  pub dimensions : List BoundDimension
  pub time : Option BoundTimeSpec
  pub filters : List Predicate
  pub obligations : List Obligation
  pub relationship_refs : List Text
  pub rule_refs : List Text
  pub metric_refs : List Text
  pub order_by : List SortKey
  pub limit : Option ℕ
  pub result_contract : ExpectedResultContract
  pub coverage : CoverageMatrix

pub record ScanOp : Type 0 where
  pub table_id : Text
  pub physical : QualifiedName
  pub alias : Text
  pub columns : List Text

pub record JoinOp : Type 0 where
  pub relationship_ref : Text
  pub left_alias : Text
  pub right_alias : Text
  pub right : ScanOp
  pub join_type : Text
  pub predicates : List Predicate
  pub preserves_left_multiplicity : Bool

pub record LogicalPlan : Type 0 where
  pub plan_id : Text
  pub plan_revision : ℕ
  pub dialect : Text
  pub base : ScanOp
  pub joins : List JoinOp
  pub where_ : List Predicate
  pub group_by : List (Text × Option Text)
  pub time_bucket :
      Option (record { alias : Text; column : Text; grain : TimeGrain; timezone : Text })
  pub measures : List (Text × MeasureExpr)
  pub having : List Predicate
  pub order_by : List SortKey
  pub limit : Option ℕ
  pub output_grain : List Text
  pub lineage : List (Text × Text)

-- The driver's value of a bound parameter is opaque. The lineage and the version of the compiler, which nothing here
-- reads, are left out.
pub record CompiledQuery (V : Type 0) : Type 0 where
  pub plan_id : Text
  pub plan_revision : ℕ
  pub dialect : Text
  pub sql : Text
  pub parameter_values : List V
  pub parameter_order : List Text
  pub referenced_tables : List Text
  pub referenced_columns : List Text

ProposedFilter-discrete : Discrete ProposedFilter
ProposedFilter-discrete = hlevel ℕ_discrete

TimeRange-discrete : Discrete TimeRange
TimeRange-discrete = hlevel ℕ_discrete

instance unfoldable pub filter_eq : Eq ProposedFilter
unfolding ProposedFilter-discrete
filter_eq = record { dec = ProposedFilter-discrete }

instance unfoldable pub range_eq : Eq TimeRange
unfolding TimeRange-discrete
range_eq = record { dec = TimeRange-discrete }

-- ===== src/Contracts/Records.antt =====
-- app/contracts/catalog.py and app/contracts/semantics.py: the authoritative records. Of the base
-- record the fields that no code of the pipeline reads (hash, owner, domain, source) are left out,
-- and so are descriptions.
use text_to_sql_rag.Prelude.{
  ℕ, Bool, true, false, ◌&&◌, Option, none, some, List, [], ◌∷◌, Text, Eq, ◌==◌, list_eq, nat_eq,
  if◌then◌else◌,
}
use text_to_sql_rag.Contracts.Errors.{Result, ok, err, value_error, ◌>>=◌}
use text_to_sql_rag.Contracts.Ids.{QualifiedName, table_id_of}
use text_to_sql_rag.Contracts.Expressions.{MeasureExpr, Predicate}

pub data KeyEvidence : Type 0 where
  enforced declared profiled unknown : KeyEvidence

pub data TimeRole : Type 0 where
  event processing ingestion validity_start validity_end : TimeRole

pub data Cardinality : Type 0 where
  one_to_one many_to_one one_to_many many_to_many : Cardinality

pub data TimeGrain : Type 0 where
  day week month quarter year : TimeGrain

TimeGrain-discrete : Discrete TimeGrain
TimeGrain-discrete = hlevel

instance unfoldable pub time_grain_eq : Eq TimeGrain
unfolding TimeGrain-discrete
time_grain_eq = record { dec = TimeGrain-discrete }

pub record ColumnRecord : Type 0 where
  pub id : Text
  pub table_id : Text
  pub name : Text
  pub data_type : Text
  pub nullable : Bool
  pub time_role : Option TimeRole
  pub is_tenant_key : Bool

-- `_parent_matches_id`
unfoldable pub validate_column : ColumnRecord → Result ColumnRecord
validate_column c = do
  parent ← table_id_of c.id
  if parent == c.table_id then ok c else err value_error

pub record TableRecord : Type 0 where
  pub id : Text
  pub physical : QualifiedName
  pub grain : List Text
  pub primary_key : List Text
  pub tenant_key : Option Text
  pub is_certified : Bool
  pub tags : List Text

pub record JoinPredicate : Type 0 where
  pub op : Text
  pub left_column : Text
  pub right_column : Text

pub record RelationshipRecord : Type 0 where
  pub id : Text
  pub version : ℕ
  pub left_table : Text
  pub right_table : Text
  pub predicates : List JoinPredicate
  pub cardinality : Cardinality
  pub join_type : Text
  pub is_temporal : Bool
  pub temporal_fact_column : Option Text
  pub requires_uniqueness_contract : Bool
  pub prohibited_usages : List Text

-- `not self.temporal_fact_column`
abbrev is_missing : Option Text → Bool
is_missing none = true
is_missing (some []) = true
is_missing (some (c ∷ s)) = false

-- `_temporal_needs_fact_column`
unfoldable pub validate_relationship : RelationshipRecord → Result RelationshipRecord
validate_relationship r =
    if r.is_temporal && is_missing r.temporal_fact_column then err value_error else ok r

pub record GlossaryRecord : Type 0 where
  pub id : Text
  pub term : Text
  pub synonyms : List Text
  pub maps_to : List Text

pub record ValueSetRecord : Type 0 where
  pub id : Text
  pub version : ℕ
  pub members : List (Text × Text)

pub record MetricTimeSpec : Type 0 where
  pub time_column : Text
  pub grains : List TimeGrain
  pub timezone : Text
  pub calendar_ref : Text

pub record MetricRecord : Type 0 where
  pub id : Text
  pub version : ℕ
  pub name : Text
  pub aliases : List Text
  pub unit : Option Text
  pub base_entity : Text
  pub allowed_dimensions : List Text
  pub base_table : Text
  pub base_grain : List Text
  pub expression : MeasureExpr
  pub population : Option Predicate
  pub required_rule_refs : List Text
  pub time : MetricTimeSpec

pub record DimensionRecord : Type 0 where
  pub id : Text
  pub version : ℕ
  pub name : Text
  pub aliases : List Text
  pub column : Text
  pub required_relationship_ref : Option Text

pub data RuleClass : Type 0 where
  security_obligation mandatory_business_population semantic_requirement : RuleClass
  contextual default preference : RuleClass

-- `RULE_CLASS_PRECEDENCE`: the lower number wins.
unfoldable pub class_precedence : RuleClass → ℕ
class_precedence security_obligation = 0
class_precedence mandatory_business_population = 1
class_precedence semantic_requirement = 2
class_precedence contextual = 3
class_precedence default = 4
class_precedence preference = 5

-- The fields that the source keeps beside the operator stand under the operator that reads them.
-- A field that is null in the source is none.
pub data Activation : Type 0 where
  any_scan_with_tag : (tag : Option Text) → Activation
  population_contains_entity : (entity : Option Text) → Activation
  uses_table uses_column : (object_id : Option Text) → Activation
  uses_metric : (metric_ref : Option Text) → Activation
  slot_unset : (slot : Option Text) → Activation
  always : Activation

pub data Placement : Type 0 where
  before_aggregation after_aggregation : Placement

pub data EffectOp : Type 0 where
  require_population_filter require_tenant_scope set_slot : EffectOp
  require_semijoin_or_allocation prefer_relationship : EffectOp

pub record RuleEffect : Type 0 where
  pub op : EffectOp
  pub predicate : Option Predicate
  pub placement : Placement
  pub required_tables : List Text
  pub required_relationship_ref : Option Text
  pub slot : Option Text
  pub slot_value : Option Text

pub record RuleRecord : Type 0 where
  pub id : Text
  pub version : ℕ
  pub rule_class : RuleClass
  pub activation : Activation
  pub effect : RuleEffect
  pub overrideable : Bool
  pub priority_within_class : ℕ

abbrev is_security : RuleClass → Bool
is_security security_obligation = true
is_security _ = false

-- `_security_is_not_overrideable`
unfoldable pub validate_rule : RuleRecord → Result RuleRecord
validate_rule r = if is_security r.rule_class && r.overrideable then err value_error else ok r

unfoldable pub is_mandatory : RuleRecord → Bool
is_mandatory r = elim r.rule_class [
  | security_obligation ↦ true
  | mandatory_business_population ↦ true
  | semantic_requirement ↦ true
  | _ ↦ false
]

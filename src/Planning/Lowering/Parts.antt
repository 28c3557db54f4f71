-- ===== src/Planning/Lowering/Parts.antt =====
-- app/planning/lowering.py: the parts of a logical plan that are made from the bound plan and the joins alone.
use text_to_sql_rag.Prelude.{
  ℕ, ◌+◌, Bool, true, false, Option, none, some, List, [], ◌∷◌, ◌++◌, Text, text, ◌==◌, list_eq,
  nat_eq, contains, map, any_of, starts_with, concat_map, insert, lookup, decimal, sorted_set,
  if◌then◌else◌,
}
use text_to_sql_rag.Contracts.Errors.{
  Result, ok, err, fail, governed, key_error, validation_failed, unsupported_operator, ◌>>=◌,
}
use text_to_sql_rag.Contracts.Ids.{table_id_of}
use text_to_sql_rag.Contracts.Expressions.{
  Operand, Predicate, nil, cons, CompareOp, comparison, is_null, bool_op, or_, columns_in,
  optional_columns, measure_columns,
}
use text_to_sql_rag.Contracts.Records.{
  TableRecord, JoinPredicate, TimeGrain, Placement, before_aggregation, after_aggregation,
}
use text_to_sql_rag.Contracts.Plan.{BoundTimeSpec, BoundSemanticPlan, Obligation}
use text_to_sql_rag.Relationships.Planner.{JoinPlan}
use text_to_sql_rag.Planning.Clarify.{grain_value}

-- The dict from a table to its alias: `t0` is the base table.
unfoldable pub aliases_from : ℕ → List Text → List (Text × Text) → List (Text × Text)
aliases_from i [] aliases = aliases
aliases_from i (t ∷ ts) aliases = aliases_from (i + 1) ts (insert t (b't' ∷ decimal i) aliases)

abbrev pub assign_aliases : JoinPlan → List (Text × Text)
assign_aliases p = aliases_from 0 (p.base_table ∷ map (λ j. j.to_table) p.joins) []

-- `aliases[table_id]`
unfoldable pub alias_in : List (Text × Text) → Text → Result Text
alias_in aliases table_id = elim (lookup table_id aliases) [ none ↦ err key_error | some a ↦ ok a ]

abbrev time_column : Option BoundTimeSpec → List Text
time_column none = []
time_column (some t) = t.column ∷ []

abbrev pub obligation_columns : List Obligation → List Text
obligation_columns os = concat_map (λ o. optional_columns o.predicate) os

-- What the plan reads, of every table.
abbrev pub wanted : BoundSemanticPlan → List Text
wanted p =
    concat_map (λ m. measure_columns m.expression ++ optional_columns m.population) p.metrics
    ++ (map (λ d. d.column) p.dimensions
        ++ (time_column p.time
            ++ (concat_map columns_in p.filters ++ obligation_columns p.obligations)))

-- `{c for c in wanted if table_id_of(c) == table_id}`
unfoldable pub columns_of_table : Text → List Text → Result (List Text)
columns_of_table table_id [] = ok []
columns_of_table table_id (c ∷ cs) = do
  parent ← table_id_of c
  rest ← columns_of_table table_id cs
  ok (if parent == table_id then c ∷ rest else rest)

-- `tuple(sorted(self._columns_for(plan, table_id)))`
unfoldable pub columns_for : BoundSemanticPlan → Text → Result (List Text)
unfolding columns_of_table
columns_for p table_id = columns_of_table table_id (wanted p) >>= λ cs. ok (sorted_set cs)

-- `fact < valid_to or valid_to is null`
abbrev open_ended : Operand → Operand → Predicate
open_ended left right =
    bool_op or_ (cons (comparison CompareOp.lt left right) (cons (is_null false right) nil))

-- One predicate of a relationship, by its operator.
unfoldable pub join_predicate : Text → JoinPredicate → Result Predicate
join_predicate ref p =
    let left = Operand.column p.left_column in
    let right = Operand.column p.right_column in
    if p.op == text "eq"
    then ok (comparison CompareOp.eq left right)
    else if p.op == text "gte"
    then ok (comparison CompareOp.gte left right)
    else if p.op == text "lt"
    then ok (comparison CompareOp.lt left right)
    else if p.op == text "lte"
    then ok (comparison CompareOp.lte left right)
    else if p.op == text "gt"
    then ok (comparison CompareOp.gt left right)
    else if p.op == text "lt_or_null"
    then ok (open_ended left right)
    else fail governed unsupported_operator (some ref)

unfoldable pub join_predicates : Text → List JoinPredicate → Result (List Predicate)
unfolding join_predicate
join_predicates ref [] = ok []
join_predicates ref (p ∷ ps) = do q ← join_predicate ref p; qs ← join_predicates ref ps; ok (q ∷ qs)

abbrev pub tenant_tag : Text
tenant_tag = text "tenant_scoped"

abbrev pub tenant_rule : Text
tenant_rule = text "security.tenant_scope"

unfoldable pub needs_tenant : List Obligation → Bool
unfolding starts_with
needs_tenant os = any_of (λ o. starts_with o.rule_ref tenant_rule) os

abbrev pub tenant_predicate : Text → Predicate
tenant_predicate key =
    comparison CompareOp.eq (Operand.column key) (Operand.parameter (text "p_tenant"))

-- The predicate of one table, from its key.
unfoldable pub isolate : TableRecord → Option Text → Result (List Predicate)
isolate t none = fail governed validation_failed (some t.id)
isolate t (some []) = fail governed validation_failed (some t.id)
isolate t (some (c ∷ s)) = ok (tenant_predicate (c ∷ s) ∷ [])

unfoldable pub tenant_predicates : List TableRecord → Result (List Predicate)
unfolding isolate
tenant_predicates [] = ok []
tenant_predicates (t ∷ ts) = do
  here ← if contains tenant_tag t.tags then isolate t t.tenant_key else ok []
  rest ← tenant_predicates ts
  ok (here ++ rest)

-- Half-open.
abbrev pub time_predicates : Option BoundTimeSpec → List Predicate
time_predicates none = []
time_predicates (some t) =
    comparison CompareOp.gte (Operand.column t.column) (Operand.parameter (text "p_time_start"))
    ∷ comparison CompareOp.lt (Operand.column t.column) (Operand.parameter (text "p_time_end"))
    ∷ []

abbrev pub optional : Option Predicate → List Predicate
optional none = []
optional (some p) = p ∷ []

abbrev pub is_before : Placement → Bool
is_before before_aggregation = true
is_before after_aggregation = false

abbrev pub place : Bool → Obligation → List Predicate
place before o =
    if is_before o.placement
    then (if before then optional o.predicate else [])
    else if before
    then []
    else optional o.predicate

abbrev pub placed : Bool → List Obligation → List Predicate
placed before os = concat_map (place before) os

-- `(alias, column, grain, timezone)`, where there is a grain and an alias.
abbrev bucket_of :
    BoundTimeSpec
    → Option TimeGrain
    → Option Text
    → Option (record { alias : Text; column : Text; grain : TimeGrain; timezone : Text })
bucket_of t none a = none
bucket_of t (some g) none = none
bucket_of t (some g) (some []) = none
bucket_of t (some g) (some (c ∷ s)) =
    some (record { alias = c ∷ s; column = t.column; grain = g; timezone = t.range.timezone })

abbrev pub time_bucket :
    Option BoundTimeSpec
    → Option (record { alias : Text; column : Text; grain : TimeGrain; timezone : Text })
time_bucket none = none
time_bucket (some t) = bucket_of t t.grain t.output_alias

abbrev pub bucket_group :
    Option (record { alias : Text; column : Text; grain : TimeGrain; timezone : Text })
    → List (Text × Option Text)
bucket_group none = []
bucket_group (some b) = (b.alias, none) ∷ []

abbrev pub groups : BoundSemanticPlan → List (Text × Option Text)
groups p =
    bucket_group (time_bucket p.time) ++ map (λ d. (d.output_alias, some d.column)) p.dimensions

-- `f"{column}#{grain}"`
abbrev bucket_lineage :
    Option (record { alias : Text; column : Text; grain : TimeGrain; timezone : Text })
    → List (Text × Text)
bucket_lineage none = []
bucket_lineage (some b) = (b.alias, b.column ++ (b'#' ∷ grain_value b.grain)) ∷ []

-- Later entries of a dict take the place of the earlier ones.
unfoldable pub dict_from : List (Text × Text) → List (Text × Text) → List (Text × Text)
dict_from d [] = d
dict_from d ((k, v) ∷ rest) = dict_from (insert k v d) rest

abbrev pub lineage_of : BoundSemanticPlan → List (Text × Text)
lineage_of p = dict_from [] (
    bucket_lineage (time_bucket p.time)
    ++ (map (λ d. (d.output_alias, d.ref)) p.dimensions
        ++ map (λ m. (m.output_alias, m.ref)) p.metrics))

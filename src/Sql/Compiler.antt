-- ===== src/Sql/Compiler.antt =====
-- app/sql/compiler.py: the compiler of a logical plan. The binder of the parameters and the set of the columns
-- are a state that is passed along, in the order in which the source evaluates.
pub mod Clauses
pub mod Joining
pub mod Placeholders
pub mod Emission
pub mod Meaning
pub mod Runs
pub mod Correct
pub mod Statement
pub mod Binding
pub mod Projections
pub mod Counts
use text_to_sql_rag.Prelude.{
  ℕ, ◌+◌, Bool, true, false, not, Option, none, some, List, [], ◌∷◌, ◌++◌, Text, text, ◌==◌,
  list_eq, nat_eq, contains, map, concat_map, insert, lookup, keys, length, union, if◌then◌else◌,
}
use text_to_sql_rag.Contracts.Errors.{
  Result, ok, err, fail, compilation, index_error, unsupported_capability, unresolved_reference,
  compiler_defect,
}
use text_to_sql_rag.Contracts.Ids.{table_id_of}
use text_to_sql_rag.Contracts.Scope.{TrustedScope}
use text_to_sql_rag.Contracts.Expressions.{
  Value, str, LiteralType, Operand, literal, enum, parameter, Predicate, Predicates, nil, cons,
  CompareOp, comparison, is_null, membership, bool_op, BoolOperator, and_, or_, not_, MeasureExpr,
  aggregate, ratio, ZeroDenominator,
}
use text_to_sql_rag.Contracts.Records.{TimeGrain}
use text_to_sql_rag.Contracts.Plan.{LogicalPlan, JoinOp, CompiledQuery}
use text_to_sql_rag.Catalog.Service.{CatalogService, get, resolve_enum}
use text_to_sql_rag.Sql.Dialect
use text_to_sql_rag.Sql.Dialect.{
  Scalar, Condition, Measure, Bucket, Projected, TableSql, JoinSql, Select, table_expression,
  column_expression, time_bucket, duckdb,
}
use text_to_sql_rag.Sql.Compiler.Emission.{
  BoundValue, Emitted, nothing_emitted, M, ◌>>=◌, return, lift, bind_value, refer, join_from,
  and_all, negated, combine, require_projections, plain, instant,
}
use text_to_sql_rag.Sql.Compiler.Placeholders.{
  scalar_placeholders, list_placeholders, placeholders, optional_list, conditions, all_placeholders,
  statement_placeholders, aliases_of_joins, plan_aliases, tenant_parameter, with_tenant, parents,
}

module _ (service : CatalogService) (scope : TrustedScope) (fromisoformat : Text → Result ℕ)
    (alias_of : List (Text × Text)) (supplied : List (Text × BoundValue)) where
  -- `_coerce`
  unfoldable pub coerce : LiteralType → Value → Result BoundValue
  coerce LiteralType.instant (str s) = elim (fromisoformat s) [
    | ok t ↦ ok (instant t)
    | err e ↦ err e
  ]
  coerce _ v = ok (plain v)

  -- The alias and the name of a column.
  unfoldable pub resolve_column : Text → Result (Text × Text)
  resolve_column c = elim (table_id_of c) [
    | err e ↦ err e
    | ok t ↦ elim (lookup t alias_of) [
      | none ↦ fail compilation unresolved_reference (some c)
      | some a ↦ elim (get service.snapshot.columns c) [ err e ↦ err e | ok r ↦ ok (a, r.name) ]
    ]
  ]

  unfoldable pub column : Text → M Scalar
  column c s = refer c s (resolve_column c)

  -- The value that is bound for an operand, which is no column.
  unfoldable pub value_of : Operand → Result (Text × BoundValue)
  unfolding coerce
  value_of (Operand.column c) = err index_error
  value_of (literal type v) = elim (coerce type v) [ err e ↦ err e | ok b ↦ ok (text "literal", b) ]
  value_of (enum set member) = elim (resolve_enum service scope set member) [
    | err e ↦ err e
    | ok v ↦ ok (text "enum_" ++ member, plain (str v))
  ]
  value_of (parameter name) = elim (lookup name supplied) [
    | none ↦ fail compilation unresolved_reference (some name)
    | some v ↦ ok (name, v)
  ]

  unfoldable pub operand : Operand → M Scalar
  unfolding column value_of
  operand (Operand.column c) = column c
  operand other = lift (value_of other) >>= λ p. bind_value p.0 p.1

  unfoldable pub operands : List Operand → M (List Scalar)
  unfolding operand
  operands [] = return []
  operands (o ∷ os) = do x ← operand o; xs ← operands os; return (x ∷ xs)

  unfoldable mutual
    unfolding operand operands combine

    pub predicate : Predicate → M Condition
    predicate (comparison op left right) = do
      l ← operand left
      r ← operand right
      return (Condition.compare op l r)
    predicate (is_null negate o) = do x ← operand o; return (negated negate (Condition.is_null x))
    -- The members are bound before the left side.
    predicate (membership negate left members) = do
      ms ← operands members
      l ← operand left
      return (negated negate (Condition.in_ l ms))
    predicate (bool_op op args) = do parts ← predicates args; lift (combine op parts)

    pub predicates : Predicates → M (List Condition)
    predicates nil = return []
    predicates (cons p ps) = do c ← predicate p; cs ← predicates ps; return (c ∷ cs)

  unfoldable pub measure : MeasureExpr → M Measure
  unfolding column Dialect.aggregate
  measure (aggregate op none) = return (Dialect.aggregate op none)
  measure (aggregate op (some c)) = do x ← column c; return (Dialect.aggregate op (some x))
  measure (ratio numerator denominator ZeroDenominator.null) = do
    n ← measure numerator
    d ← measure denominator
    return (Measure.div n (Measure.nullif_zero d))
  measure (ratio numerator denominator _) = do
    n ← measure numerator
    d ← measure denominator
    return (Measure.div n d)

  unfoldable pub predicate_list : List Predicate → M (List Condition)
  unfolding predicate
  predicate_list [] = return []
  predicate_list (p ∷ ps) = do c ← predicate p; cs ← predicate_list ps; return (c ∷ cs)

  -- A clause that is there only if it has predicates.
  unfoldable pub clause : List Predicate → M (Option Condition)
  unfolding predicate_list and_all
  clause [] = return none
  clause (p ∷ ps) = do cs ← predicate_list (p ∷ ps); c ← lift (and_all cs); return (some c)

  abbrev bucket_node :
      record { alias : Text; column : Text; grain : TimeGrain; timezone : Text } → M Bucket
  bucket_node b = do x ← column b.column; return (time_bucket x b.grain b.timezone)

  unfoldable pub bucket_projection :
      Option (record { alias : Text; column : Text; grain : TimeGrain; timezone : Text })
      → M (List (Projected × Text))
  unfolding column time_bucket
  bucket_projection none = return []
  bucket_projection (some b) = do n ← bucket_node b; return ((Projected.bucket n, b.alias) ∷ [])

  unfoldable pub group_projections : List (Text × Option Text) → M (List (Projected × Text))
  unfolding column
  group_projections [] = return []
  group_projections ((a, none) ∷ gs) = group_projections gs
  group_projections ((a, some c) ∷ gs) = do
    x ← column c
    rest ← group_projections gs
    return ((Projected.plain x, a) ∷ rest)

  unfoldable pub measure_projections : List (Text × MeasureExpr) → M (List (Projected × Text))
  unfolding measure
  measure_projections [] = return []
  measure_projections ((a, m) ∷ ms) = do
    x ← measure m
    rest ← measure_projections ms
    return ((Projected.measured x, a) ∷ rest)

  unfoldable pub joined : JoinOp → M JoinSql
  unfolding predicate_list and_all
  joined j = do
    cs ← predicate_list j.predicates
    on ← lift (and_all cs)
    return (record {
      table = table_expression j.right.physical j.right.alias;
      on = on;
      join_type = j.join_type;
    })

  unfoldable pub joined_all : List JoinOp → M (List JoinSql)
  unfolding joined
  joined_all [] = return []
  joined_all (j ∷ js) = do k ← joined j; ks ← joined_all js; return (k ∷ ks)

  -- The projections, in the order of the contract.
  unfoldable pub projections : LogicalPlan → M (List (Projected × Text))
  unfolding bucket_projection group_projections measure_projections
  projections p = do
    bucket ← bucket_projection p.time_bucket
    grouped ← group_projections p.group_by
    measured ← measure_projections p.measures
    present ← lift (require_projections p.plan_id (bucket ++ (grouped ++ measured)))
    return (bucket ++ (grouped ++ measured))

  unfoldable pub grouping : LogicalPlan → M (List Projected)
  unfolding bucket_projection group_projections
  grouping p = do
    bucket ← bucket_projection p.time_bucket
    grouped ← group_projections p.group_by
    return (map (λ x. x.0) (bucket ++ grouped))

  abbrev pub select_of :
      LogicalPlan
      → List (Projected × Text)
      → List JoinSql
      → Option Condition
      → List Projected
      → Option Condition
      → Select
  select_of p projected joins condition group having = record {
    projections = projected;
    from_ = table_expression p.base.physical p.base.alias;
    joins = joins;
    where_ = condition;
    group = group;
    having = having;
    order = p.order_by;
    limit = p.limit;
  }

  -- The statement, clause by clause in the order in which the source builds it.
  unfoldable pub build : LogicalPlan → M Select
  unfolding projections joined_all clause grouping
  build p = do
    projected ← projections p
    joins ← joined_all p.joins
    condition ← clause p.where_
    group ← grouping p
    having ← clause p.having
    return (select_of p projected joins condition group having)

-- `render` is `select.sql(dialect, pretty=True)` of sqlglot.
module _ (service : CatalogService) (scope : TrustedScope) (fromisoformat : Text → Result ℕ)
    (render : Select → Text) where
  abbrev pub compiled_of : LogicalPlan → Select → Emitted → List Text → CompiledQuery BoundValue
  compiled_of p select emitted tables = record {
    plan_id = p.plan_id;
    plan_revision = p.plan_revision;
    dialect = p.dialect;
    sql = render select;
    parameter_values = emitted.values;
    parameter_order = emitted.names;
    referenced_tables = union tables (p.base.table_id ∷ map (λ j. j.right.table_id) p.joins);
    referenced_columns = emitted.columns;
  }

  -- Behind the construction: the tables of the columns, and the count of the placeholders.
  unfoldable pub finish : LogicalPlan → Select → Emitted → Result (CompiledQuery BoundValue)
  unfolding statement_placeholders parents
  finish p select emitted = elim (parents emitted.columns) [
    | err e ↦ err e
    | ok tables ↦
        if statement_placeholders select == length emitted.values
        then ok (compiled_of p select emitted tables)
        else fail compilation compiler_defect (some p.plan_id)
  ]

  unfoldable pub compile :
      LogicalPlan → (parameters : List (Text × BoundValue)) → Result (CompiledQuery BoundValue)
  unfolding build finish aliases_of_joins
  compile p parameters =
      if p.dialect == duckdb
      then elim (build service scope fromisoformat (plan_aliases p)
          (with_tenant scope.tenant_id parameters) p nothing_emitted) [
            | err e ↦ err e
            | ok (select, emitted) ↦ finish p select emitted
          ]
      else fail compilation unsupported_capability (some p.dialect)

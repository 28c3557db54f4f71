-- ===== src/Sql/Compiler/Placeholders.antt =====
-- app/sql/compiler.py: the placeholders of a statement, the aliases of its tables, and the parameters.
use text_to_sql_rag.Prelude.{
  ℕ, ◌+◌, Option, none, some, List, [], ◌∷◌, ◌++◌, Text, text, list_eq, nat_eq, contains, map,
  insert, keys, if◌then◌else◌,
}
use text_to_sql_rag.Contracts.Errors.{Result, ok, err}
use text_to_sql_rag.Contracts.Ids.{table_id_of}
use text_to_sql_rag.Contracts.Expressions.{str}
use text_to_sql_rag.Contracts.Plan.{LogicalPlan, JoinOp}
use text_to_sql_rag.Sql.Dialect.{Scalar, Condition, Measure, Projected, Select}
use text_to_sql_rag.Sql.Compiler.Emission.{BoundValue, plain}

-- `find_all(exp.Placeholder)`, counted.
abbrev pub scalar_placeholders : Scalar → ℕ
scalar_placeholders (Scalar.column a n) = 0
scalar_placeholders Scalar.placeholder = 1

unfoldable pub list_placeholders : List Scalar → ℕ
list_placeholders [] = 0
list_placeholders (x ∷ xs) = scalar_placeholders x + list_placeholders xs

unfoldable pub placeholders : Condition → ℕ
unfolding list_placeholders
placeholders (Condition.compare op l r) = scalar_placeholders l + scalar_placeholders r
placeholders (Condition.is_null x) = scalar_placeholders x
placeholders (Condition.in_ x xs) = scalar_placeholders x + list_placeholders xs
placeholders (Condition.not_ c) = placeholders c
placeholders (Condition.paren c) = placeholders c
placeholders (Condition.and_ c d) = placeholders c + placeholders d
placeholders (Condition.or_ c d) = placeholders c + placeholders d

abbrev pub optional_list : Option Condition → List Condition
optional_list none = []
optional_list (some c) = c ∷ []

-- The conditions of a statement, in the order of its text.
abbrev pub conditions : Select → List Condition
conditions s = map (λ j. j.on) s.joins ++ (optional_list s.where_ ++ optional_list s.having)

unfoldable pub all_placeholders : List Condition → ℕ
all_placeholders [] = 0
all_placeholders (c ∷ cs) = placeholders c + all_placeholders cs

abbrev pub optional_placeholders : Option Scalar → ℕ
optional_placeholders none = 0
optional_placeholders (some x) = scalar_placeholders x

unfoldable pub measure_placeholders : Measure → ℕ
measure_placeholders (Measure.sum x) = optional_placeholders x
measure_placeholders (Measure.avg x) = optional_placeholders x
measure_placeholders (Measure.min x) = optional_placeholders x
measure_placeholders (Measure.max x) = optional_placeholders x
measure_placeholders (Measure.count_distinct x) = optional_placeholders x
measure_placeholders (Measure.count x) = scalar_placeholders x
measure_placeholders Measure.count_star = 0
measure_placeholders (Measure.nullif_zero m) = measure_placeholders m
measure_placeholders (Measure.div m n) = measure_placeholders m + measure_placeholders n

unfoldable pub projected_placeholders : Projected → ℕ
unfolding measure_placeholders
projected_placeholders (Projected.bucket b) = scalar_placeholders b.target
projected_placeholders (Projected.plain x) = scalar_placeholders x
projected_placeholders (Projected.measured m) = measure_placeholders m

unfoldable pub all_projected : List Projected → ℕ
unfolding projected_placeholders
all_projected [] = 0
all_projected (p ∷ ps) = projected_placeholders p + all_projected ps

-- Of the whole statement: its order and its limit have none.
unfoldable pub statement_placeholders : Select → ℕ
unfolding all_projected all_placeholders
statement_placeholders s =
    all_projected (map (λ p. p.0) s.projections)
    + (all_placeholders (conditions s) + all_projected s.group)

-- `alias_of`: a dict, in which a later table takes the place of an earlier one.
unfoldable pub aliases_of_joins : List (Text × Text) → List JoinOp → List (Text × Text)
aliases_of_joins d [] = d
aliases_of_joins d (j ∷ js) = aliases_of_joins (insert j.right.table_id j.right.alias d) js

abbrev pub plan_aliases : LogicalPlan → List (Text × Text)
plan_aliases p = aliases_of_joins ((p.base.table_id, p.base.alias) ∷ []) p.joins

abbrev pub tenant_parameter : Text
tenant_parameter = text "p_tenant"

-- `setdefault("p_tenant", scope.tenant_id)`
abbrev pub with_tenant : Text → List (Text × BoundValue) → List (Text × BoundValue)
with_tenant tenant_id supplied =
    if contains tenant_parameter (keys supplied)
    then supplied
    else supplied ++ (tenant_parameter, plain (str tenant_id)) ∷ []

unfoldable pub parents : List Text → Result (List Text)
parents [] = ok []
parents (c ∷ cs) = elim (table_id_of c) [
  | err e ↦ err e
  | ok t ↦ elim (parents cs) [ err e ↦ err e | ok ts ↦ ok (t ∷ ts) ]
]

-- ===== src/Sql/Validators/Evidence.antt =====
-- app/sql/validators/suite.py: the gates that look in the parsed text for the evidence of what the plan demands.
use text_to_sql_rag.Prelude.{
  ℕ, zero, suc, Bool, true, false, not, ◌&&◌, Option, none, some, List, [], ◌∷◌, ◌++◌, Text, text,
  ◌==◌, list_eq, nat_eq, option_eq, contains, select, length, any_of, concat_map, if◌then◌else◌,
}
use text_to_sql_rag.Contracts.Errors.{Result, ok, err, Finding, finding_of, validation_failed}
use text_to_sql_rag.Contracts.Scope.{TrustedScope}
use text_to_sql_rag.Contracts.Expressions.{
  MeasureExpr, aggregate, ratio, count_distinct, predicate_eq, measure_eq,
}
use text_to_sql_rag.Contracts.Plan.{BoundSemanticPlan, JoinOp, LogicalPlan}
use text_to_sql_rag.Catalog.Service.{CatalogService, get_relationship}
use text_to_sql_rag.Sql.Validators.Tree.{is_one_of, columns_of, sql_aliases, inner}
use text_to_sql_rag.Sql.Validators.Nodes.{Sqlglot, blocked, aggregate_nodes}
use text_to_sql_rag.Sql.Validators.Records.{evidence, each}

abbrev is_count_distinct : MeasureExpr → Bool
is_count_distinct (aggregate count_distinct operand) = true
is_count_distinct (aggregate op operand) = false
is_count_distinct (ratio numerator denominator zero_denominator) = false

module _ (lib : Sqlglot) where
  open lib use {Node, is_instance, walk, find_all, arg, this, expression, expressions, alias}

  -- `_conjuncts`, in at most so many steps down.
  unfoldable pub conjuncts : ℕ → Node → List Node
  conjuncts zero n = []
  conjuncts (suc fuel) n =
      let left = conjuncts fuel (this n) in
      let right = conjuncts fuel (expression n) in
      if is_instance (text "And") n then left ++ right else n ∷ []

  -- A tree is not deeper than it has nodes.
  abbrev pub conjuncts_of : Option Node → List Node
  conjuncts_of none = []
  conjuncts_of (some n) = conjuncts (suc (length (walk n))) n

  -- The two lists have the same length.
  unfoldable pub emitted_findings :
      CatalogService → TrustedScope → List Node → List JoinOp → List Finding
  unfolding conjuncts
  emitted_findings service scope (n ∷ ns) (j ∷ js) =
      elim (get_relationship service scope j.relationship_ref) [
        | err e ↦ []
        | ok rel ↦
            blocked (not (length (conjuncts_of (arg (text "on") n)) == length rel.predicates))
              (finding_of validation_failed (some j.relationship_ref))
      ]
      ++ emitted_findings service scope ns js
  emitted_findings service scope [] js = []
  emitted_findings service scope (n ∷ ns) [] = []

  unfoldable pub gate_join_predicates_in_sql :
      CatalogService → TrustedScope → Node → LogicalPlan → List Finding
  unfolding emitted_findings
  gate_join_predicates_in_sql service scope tree logical =
      if not (length (find_all (text "Join") tree) == length logical.joins)
      then finding_of validation_failed none ∷ []
      else emitted_findings service scope (find_all (text "Join") tree) logical.joins

  abbrev pub declared_distinct : BoundSemanticPlan → List Text
  declared_distinct plan =
      concat_map (λ m. if is_count_distinct m.expression then m.output_alias ∷ [] else [])
        plan.metrics

  -- `projection.alias if isinstance(projection, exp.Alias) else None`
  abbrev projected_alias : Node → Option Text
  projected_alias p = if is_instance (text "Alias") p then some (alias p) else none

  abbrev alias_among : Option Text → List Text → Bool
  alias_among none aliases = false
  alias_among (some a) aliases = contains a aliases

  -- `alias or "projection"`
  abbrev named_or : Option Text → Text
  named_or none = text "projection"
  named_or (some []) = text "projection"
  named_or (some (c ∷ s)) = c ∷ s

  -- `inner.find_all(_AGGREGATE_NODES)`
  abbrev pub aggregates_of : Node → List Node
  aggregates_of p = select (is_one_of lib aggregate_nodes) (walk (inner lib p))

  unfoldable pub projection_findings : List Text → Node → List Finding
  projection_findings declared p =
      concat_map
        (λ a.
          blocked
            (any_of (is_instance (text "Distinct")) (walk a)
              && not (alias_among (projected_alias p) declared))
            (finding_of validation_failed (some (named_or (projected_alias p)))))
        (aggregates_of p)

  unfoldable pub gate_aggregates_in_sql : Node → BoundSemanticPlan → List Finding
  unfolding projection_findings
  gate_aggregates_in_sql tree plan =
      concat_map (projection_findings (declared_distinct plan)) (expressions tree)

  unfoldable pub gate_obligations_in_sql :
      CatalogService → Node → BoundSemanticPlan → LogicalPlan → Result (List Finding)
  unfolding evidence each
  gate_obligations_in_sql service tree plan logical =
      let aliases = sql_aliases lib service.snapshot tree in
      each
        (evidence service logical (columns_of lib aliases (arg (text "where") tree))
          (columns_of lib aliases (arg (text "having") tree)))
        plan.obligations

-- ===== src/Examples/Gates.antt =====
-- The text of the statement as sqlglot could parse it, and the report on it.
use text_to_sql_rag.Prelude.{
  ℕ, starts_with, option_eq, text_lt, ◌≡◌, refl, true, false, All, Text, [], ◌∷◌, none, some, text,
  list_eq, nat_eq, List, Option, ◌==◌, get_default, select, concat_map, if◌then◌else◌, same_set,
}
use text_to_sql_rag.Contracts.Errors.{severity_eq}
use text_to_sql_rag.Contracts.Ids.{show_name}
use text_to_sql_rag.Contracts.Expressions.{
  columns_in, operand_columns, measure_columns, optional_columns, predicate_eq, measure_eq,
}
use text_to_sql_rag.Sql.Validators.Tree.{
  sql_aliases, columns_of, gate_single_statement, gate_read_only, gate_allowed_nodes,
  gate_functions, gate_no_star, gate_parameters, table_findings, gate_tables, aliases_from,
  column_findings, gate_columns, gate_no_cartesian, gate_group_by,
}
use text_to_sql_rag.Sql.Validators.Nodes.{Sqlglot, table_named, call_findings, node_findings}
use text_to_sql_rag.Sql.Validators.Records.{
  each, before_at, stem, gate_grain, gate_fan_out, gate_policy_epoch, is_tenant_key, tenant_tables,
  isolation, evidence, gate_obligations, gate_time, metric_findings, join_findings,
  gate_joins_approved, refused, gate_authorization,
}
use text_to_sql_rag.Sql.Validators.Evidence.{
  conjuncts, emitted_findings, gate_join_predicates_in_sql, projection_findings,
  gate_aggregates_in_sql, gate_obligations_in_sql,
}
use text_to_sql_rag.Sql.Validators.Passed.{IsSafeText}
use text_to_sql_rag.Sql.Validators.Allowed.{IsAllowed}
use text_to_sql_rag.Sql.Validators.Evident.{IsEvident}
use text_to_sql_rag.Sql.Validators.Guarantees.{
  IsPublished, validate-IsSafeText, validate-IsAllowed, validate-IsEvident, validate-IsPublished,
}
use text_to_sql_rag.Sql.Validators.{
  ValidationReport, validate, passed, guarded, run_gates, validate_parsed,
}
use text_to_sql_rag.Examples.Code.{compiler_code}
use text_to_sql_rag.Examples.Data.{scope}
use text_to_sql_rag.Examples.Metrics.{full_service}
use text_to_sql_rag.Examples.Pipeline.{lowered, bound}
use text_to_sql_rag.Examples.Statements.{compiled}

-- SELECT DATE_TRUNC(...) AS month, SUM(t0.a) AS r FROM w.s.o AS t0 WHERE ... GROUP BY ..., where a node is its number.
abbrev classes : List (ℕ × Text)
classes =
    (0, text "Select")
    ∷ (1, text "Table")
    ∷ (2, text "Where")
    ∷ (3, text "Column")
    ∷ (4, text "Group")
    ∷ (5, text "Alias")
    ∷ (6, text "TimestampTrunc")
    ∷ (7, text "Alias")
    ∷ (8, text "Sum")
    ∷ (9, text "Placeholder")
    ∷ (10, text "Placeholder")
    ∷ (11, text "Placeholder")
    ∷ []

abbrev children : List (ℕ × List ℕ)
children =
    (0, 0 ∷ 1 ∷ 2 ∷ 3 ∷ 4 ∷ 5 ∷ 6 ∷ 7 ∷ 8 ∷ 9 ∷ 10 ∷ 11 ∷ [])
    ∷ (2, 2 ∷ 3 ∷ 9 ∷ 10 ∷ 11 ∷ [])
    ∷ (5, 5 ∷ 6 ∷ [])
    ∷ (7, 7 ∷ 8 ∷ [])
    ∷ []

abbrev class_named : ℕ → Text
class_named n = get_default n [] classes

abbrev nodes_below : ℕ → List ℕ
nodes_below n = get_default n (n ∷ []) children

abbrev clause_of : Text → ℕ → Option ℕ
clause_of key n =
    if key == text "where" then some 2 else if key == text "group" then some 4 else none

abbrev parts : ℕ → List ℕ
parts n = get_default n [] ((0, 5 ∷ 7 ∷ []) ∷ (4, 6 ∷ []) ∷ [])

abbrev parsed : Sqlglot
parsed = record {
  Node = ℕ;
  parse = λ sql dialect. some (0 ∷ []);
  class_of = class_named;
  is_instance = λ class n. class_named n == class;
  walk = nodes_below;
  find_all = λ class n. select (λ m. class_named m == class) (nodes_below n);
  arg = clause_of;
  this = λ n. get_default n 0 ((5, 6) ∷ (7, 8) ∷ []);
  expression = λ n. n;
  expressions = parts;
  parent = λ n. none;
  name = λ n. get_default n [] ((1, text "o") ∷ (3, text "t") ∷ []);
  alias = λ n. get_default n [] ((1, text "t0") ∷ (5, text "month") ∷ (7, text "r") ∷ []);
  table = λ n. text "t0";
  db = λ n. text "s";
  catalog_name = λ n. text "w";
  is_string = λ n. false;
}

abbrev report : ValidationReport
report = validate parsed full_service scope compiled lowered bound.plan

report_test : passed (validate parsed full_service scope compiled lowered bound.plan) ≡ true
unfolding compiler_code option_eq text_lt severity_eq predicate_eq measure_eq starts_with columns_in
    operand_columns measure_columns optional_columns show_name table_named call_findings
    node_findings gate_single_statement gate_read_only gate_allowed_nodes gate_functions
    gate_no_star gate_parameters table_findings gate_tables aliases_from column_findings
    gate_columns gate_no_cartesian gate_group_by each before_at stem gate_grain gate_fan_out
    gate_policy_epoch is_tenant_key tenant_tables isolation evidence gate_obligations gate_time
    metric_findings join_findings gate_joins_approved refused gate_authorization conjuncts
    emitted_findings gate_join_predicates_in_sql projection_findings gate_aggregates_in_sql
    gate_obligations_in_sql passed guarded run_gates validate_parsed validate
report_test = refl

validate-IsSafeText_example :
    (tree : ℕ) × (parsed.parse compiled.sql compiled.dialect ≡ some (tree ∷ []))
    × IsSafeText parsed full_service.snapshot compiled tree
validate-IsSafeText_example =
    validate-IsSafeText parsed full_service scope compiled lowered bound.plan report_test

validate-IsAllowed_example : IsAllowed full_service scope compiled bound.plan
validate-IsAllowed_example =
    validate-IsAllowed parsed full_service scope compiled lowered bound.plan report_test

validate-IsEvident_example :
    All
      (IsEvident full_service lowered (concat_map columns_in lowered.where_) [])
      bound.plan.obligations
    × ((tree : ℕ) × (parsed.parse compiled.sql compiled.dialect ≡ some (tree ∷ []))
        × All
            (IsEvident full_service lowered
              (columns_of parsed
                (sql_aliases parsed full_service.snapshot tree)
                (parsed.arg (text "where") tree))
              (columns_of parsed
                (sql_aliases parsed full_service.snapshot tree)
                (parsed.arg (text "having") tree)))
            bound.plan.obligations)
validate-IsEvident_example =
    validate-IsEvident parsed full_service scope compiled lowered bound.plan report_test

validate-IsPublished_example :
    IsPublished full_service bound.plan.metrics bound.plan.metric_refs
    × (same_set bound.plan.result_contract.grain lowered.output_grain ≡ true)
validate-IsPublished_example =
    validate-IsPublished parsed full_service scope compiled lowered bound.plan refl report_test

-- ===== src/Examples/Code.antt =====
-- The definitions that a binding, a lowering and a compilation run through, for `unfolding` lines.
use text_to_sql_rag.Prelude.{text_lt, option_eq, starts_with, has_text}
use text_to_sql_rag.Contracts.Records.{class_precedence, time_grain_eq}
use text_to_sql_rag.Contracts.Expressions.{
  optional_columns, columns_in, operand_columns, measure_columns,
}
use text_to_sql_rag.Catalog.Service.{get_column, resolve_enum}
use text_to_sql_rag.Contracts.Coverage.{with_entry}
use text_to_sql_rag.Semantics.Metrics.{
  resolve, closure_of, check_dimension_allowed, resolve_dimension_columns,
}
use text_to_sql_rag.Semantics.Rules.{
  close, close_rounds, round, candidates, seen_rules, activates, any_tagged, bucketed,
  by_activation, precedence_lt, apply_rules, apply_effect, apply_mandatory, relationship_needs,
  get_tables, require_added, tables_of_columns, detect_conflicts, conflicts_among,
}
use text_to_sql_rag.Relationships.Planner.{
  plan, enumerate, search_plans, weight, visit, expand, expand_edges, edges_from, permitted,
  preserves_multiplicity, require_some, choose, is_additive_safe, rank_key_eq,
}
use text_to_sql_rag.Planning.Binder.{
  bind_dimensions, bind_filter, bind_filters, gather, close_bound, join_bound, sweep, bind,
}
use text_to_sql_rag.Planning.Binder.Parts.{
  expected_output_columns, literal_type_for, filter_predicate, bind_time, check_order, check_rules,
  single_metric, alias, metric_alias,
}
use text_to_sql_rag.Planning.Lowering.{scan_of, lower_join, lower_joins, scanned, tenancy, lower}
use text_to_sql_rag.Planning.Lowering.Parts.{
  aliases_from, alias_in, columns_of_table, columns_for, join_predicate, join_predicates,
  needs_tenant, isolate, tenant_predicates, dict_from,
}
use text_to_sql_rag.Sql.Dialect.{aggregate, time_bucket}
use text_to_sql_rag.Sql.Compiler.{
  coerce, resolve_column, column, value_of, operand, operands, predicate, predicates, measure,
  predicate_list, clause, bucket_projection, group_projections, measure_projections, joined,
  joined_all, projections, grouping, build, finish, compile,
}
use text_to_sql_rag.Sql.Compiler.Placeholders.{
  list_placeholders, placeholders, all_placeholders, measure_placeholders, projected_placeholders,
  all_projected, statement_placeholders, aliases_of_joins, parents,
}
use text_to_sql_rag.Sql.Compiler.Emission.{join_from, and_all, combine}
use text_to_sql_rag.Examples.Data.{catalog_code}

unfoldable pub binder_code : Unit {0}
unfolding catalog_code text_lt option_eq starts_with has_text class_precedence time_grain_eq
    optional_columns columns_in operand_columns measure_columns get_column with_entry resolve
    closure_of check_dimension_allowed resolve_dimension_columns close close_rounds round candidates
    seen_rules activates any_tagged bucketed by_activation precedence_lt apply_rules apply_effect
    apply_mandatory relationship_needs get_tables require_added tables_of_columns detect_conflicts
    conflicts_among plan enumerate search_plans weight visit expand expand_edges edges_from
    permitted preserves_multiplicity require_some choose is_additive_safe rank_key_eq
    expected_output_columns literal_type_for filter_predicate bind_time check_order check_rules
    single_metric bind_dimensions bind_filter bind_filters gather close_bound join_bound sweep bind
    alias metric_alias
binder_code = tt

unfoldable pub lowering_code : Unit {0}
unfolding binder_code aliases_from alias_in columns_of_table columns_for join_predicate
    join_predicates needs_tenant isolate tenant_predicates dict_from scan_of lower_join lower_joins
    scanned tenancy lower
lowering_code = tt

unfoldable pub compiler_code : Unit {0}
unfolding catalog_code columns_in resolve_enum join_from and_all combine coerce resolve_column
    column value_of operand operands predicate predicates measure predicate_list clause
    bucket_projection group_projections measure_projections joined joined_all projections grouping
    build list_placeholders placeholders all_placeholders measure_placeholders
    projected_placeholders all_projected statement_placeholders aliases_of_joins parents finish
    compile aggregate time_bucket
compiler_code = tt

-- ===== src/Examples/Rules.antt =====
-- The closure of the tenant rule of the examples.
use text_to_sql_rag.Prelude.{◌≡◌, refl, some, [], ◌∷◌, text, values, option_eq, list_eq, nat_eq}
use text_to_sql_rag.Contracts.Errors.{ok}
use text_to_sql_rag.Contracts.Records.{class_precedence}
use text_to_sql_rag.Contracts.Expressions.{optional_columns, columns_in, operand_columns}
use text_to_sql_rag.Semantics.Rules.{
  ClosureInput, ClosureResult, Closing, close, close_rounds, round, candidates, seen_rules,
  activates, any_tagged, bucketed, by_activation, precedence_lt, apply_rules, apply_effect,
  apply_mandatory, relationship_needs, get_tables, require_added, tables_of_columns,
  detect_conflicts, conflicts_among, obligation_of, opening, max_closure_rounds,
}
use text_to_sql_rag.Semantics.Rules.Fixpoint.{IsFixpoint, close-IsFixpoint, state_of}
use text_to_sql_rag.Semantics.Rules.Authority.{AddsUsable, close-AddsUsable}
use text_to_sql_rag.Semantics.Rules.Slots.{close_rounds-detect_conflicts}
use text_to_sql_rag.Examples.Data.{service, scope, orders, tenant, tenant_rule, catalog_code}

abbrev seed : ClosureInput
seed = record {
  tables = [];
  columns = [];
  metric_refs = [];
  entities = [];
  relationship_refs = [];
  slots = (some (text "z"), text "UTC") ∷ [];
}

abbrev closed : ClosureResult
closed = record {
  tables = orders ∷ orders ∷ [];
  columns = tenant ∷ [];
  relationship_refs = [];
  obligations = obligation_of tenant_rule ∷ [];
  slots = (some (text "z"), text "UTC") ∷ [];
  applied_rule_refs = text "s.u@1" ∷ [];
  rounds = 2;
  semantic_requirements = [];
}

close_test : close service scope seed ≡ ok closed
unfolding catalog_code close close_rounds round candidates seen_rules activates any_tagged bucketed
    by_activation precedence_lt apply_rules apply_effect apply_mandatory relationship_needs
    get_tables require_added tables_of_columns detect_conflicts conflicts_among class_precedence
    optional_columns columns_in operand_columns option_eq
close_test = refl

close-IsFixpoint_example : IsFixpoint service scope seed closed
close-IsFixpoint_example = close-IsFixpoint service scope seed closed close_test

close-AddsUsable_example : AddsUsable service scope seed (state_of seed closed)
close-AddsUsable_example = close-AddsUsable service scope seed closed close_test

abbrev closing : Closing
closing = record {
  state = record {
    tables = closed.tables;
    columns = closed.columns;
    metric_refs = [];
    entities = [];
    relationship_refs = [];
    slots = closed.slots;
  };
  obligations = (text "s.u@1", obligation_of tenant_rule) ∷ [];
  applied = (text "s.u@1", tenant_rule) ∷ [];
  semantic_reqs = [];
}

close_rounds_test : close_rounds service scope max_closure_rounds (opening seed) ≡ ok (closing, 2)
unfolding catalog_code close_rounds round candidates seen_rules activates any_tagged bucketed
    by_activation precedence_lt apply_rules apply_effect apply_mandatory relationship_needs
    get_tables require_added tables_of_columns class_precedence optional_columns columns_in
    operand_columns option_eq
close_rounds_test = refl

close_rounds-detect_conflicts_example : detect_conflicts (values closing.applied) ≡ ok tt
close_rounds-detect_conflicts_example =
    close_rounds-detect_conflicts service scope max_closure_rounds seed (closing, 2)
      close_rounds_test

-- ===== src/Examples/Pipeline.antt =====
-- Revenue by month, bound to a plan and lowered.
use text_to_sql_rag.Prelude.{
  ℕ, ◌≡◌, refl, true, false, All, Text, [], ◌∷◌, none, some, text, text_code, list_eq, nat_eq, List,
  contains, all_of, subset, if◌then◌else◌,
}
use text_to_sql_rag.Contracts.Errors.{ok}
use text_to_sql_rag.Contracts.Plan.{BoundSemanticPlan, SemanticRequest, LogicalPlan, Direction}
use text_to_sql_rag.Contracts.Records.{month, TableRecord}
use text_to_sql_rag.Semantics.Rules.{ClosureResult, obligation_of}
use text_to_sql_rag.Relationships.Planner.{JoinPlan}
use text_to_sql_rag.Planning.Binder.{bind, plan_of, coverage_of}
use text_to_sql_rag.Planning.Binder.Parts.{Bound, BindResult, expected_output_columns}
use text_to_sql_rag.Planning.Binder.Authority.{read_columns, used_columns, bind-IsAuthorized}
use text_to_sql_rag.Planning.Binder.Contract.{
  bind-expected_output_columns, bind-IsSorted, bind-required_rule_refs,
}
use text_to_sql_rag.Planning.Lowering.Rows.{is_wanted, is_met, lower-is_wanted}
use text_to_sql_rag.Sql.Validators.Records.{
  gate_grain, gate_fan_out, gate_metric_integrity, gate_policy_epoch, gate_obligations, stem,
  is_tenant_key,
}
use text_to_sql_rag.Sql.Validators.Obligations.{lower-gate_obligations}
use text_to_sql_rag.Sql.Validators.Pipeline.{lower-gates}
use text_to_sql_rag.Contracts.Scope.{read, use_in_predicate}
use text_to_sql_rag.Catalog.Service.Laws.{may}
use text_to_sql_rag.Planning.Lowering.{lower, scanned}
use text_to_sql_rag.Examples.Data.{
  request, scope, orders, orders_table, revenue, revenue_metric, tenant, tenant_rule, catalog_code,
}
use text_to_sql_rag.Examples.Code.{binder_code, lowering_code}
use text_to_sql_rag.Contracts.Expressions.{comparison, CompareOp, column, parameter}
use text_to_sql_rag.Sql.Dialect.{duckdb}
use text_to_sql_rag.Examples.Metrics.{full_service, cache, closure, ref, amount, day}

abbrev pub isoformat : ℕ → Text
isoformat n = text "t"

abbrev pub monthly : SemanticRequest
monthly = record request {
  time_range = some (record { start = 1; end_exclusive = 9; timezone = text "UTC"; grain = none });
  time_grain = some month;
  order_by = [];
}

abbrev pub gathered : Bound
gathered = record {
  ref = ref;
  closure = closure;
  dimensions = [];
  time = some (record {
    column = day;
    range = record { start = 1; end_exclusive = 9; timezone = text "UTC"; grain = none };
    grain = some month;
    output_alias = some (text "month");
    calendar_ref = [];
  });
  filters = [];
  coverage = coverage_of full_service scope isoformat revenue ref monthly [];
}

abbrev pub rules : ClosureResult
rules = record {
  tables = orders ∷ orders ∷ orders ∷ orders ∷ [];
  columns = amount ∷ day ∷ tenant ∷ [];
  relationship_refs = [];
  obligations = obligation_of tenant_rule ∷ [];
  slots = [];
  applied_rule_refs = text "s.u@1" ∷ [];
  rounds = 2;
  semantic_requirements = [];
}

abbrev pub joins : JoinPlan
joins = record { base_table = orders; joins = [] }

abbrev pub bound : BindResult
bound = record {
  plan = plan_of full_service scope monthly (text "p") 1 gathered rules joins;
  join_plan = joins;
  closure = rules;
}

abbrev pub lowered : LogicalPlan
lowered = record {
  plan_id = text "p";
  plan_revision = 1;
  dialect = duckdb;
  base = record {
    table_id = orders;
    physical = orders_table.physical;
    alias = text "t0";
    columns = amount ∷ day ∷ tenant ∷ [];
  };
  joins = [];
  where_ =
      comparison CompareOp.gte (column day) (parameter (text "p_time_start"))
      ∷ comparison CompareOp.lt (column day) (parameter (text "p_time_end"))
      ∷ comparison CompareOp.eq (column tenant) (parameter (text "p"))
      ∷ [];
  group_by = (text "month", none) ∷ [];
  time_bucket =
      some (record { alias = text "month"; column = day; grain = month; timezone = text "UTC" });
  measures = (text "r", revenue_metric.expression) ∷ [];
  having = [];
  order_by = record { field = text "month"; direction = Direction.asc } ∷ [];
  limit = none;
  output_grain = text "month" ∷ [];
  lineage = (text "month", text "s.o.d#month") ∷ (text "r", ref) ∷ [];
}

pub bind_test : bind full_service scope isoformat [] monthly (text "p") 1 ≡ ok (bound, cache)
unfolding binder_code
bind_test = refl

pub lower_test : lower full_service scope bound.plan joins duckdb ≡ ok lowered
unfolding lowering_code
lower_test = refl

bind-IsAuthorized_example :
    All (λ c. may full_service scope read c ≡ true) (read_columns bound.plan)
    × All
        (λ c.
          may full_service scope
            (if contains c (read_columns bound.plan) then read else use_in_predicate)
            c
          ≡ true)
        (used_columns bound.plan joins)
unfolding text_code
bind-IsAuthorized_example =
    bind-IsAuthorized full_service scope isoformat [] cache monthly (text "p") 1 bound (refl, tt) tt
      bind_test

bind-expected_output_columns_example :
    expected_output_columns full_service.snapshot monthly ≡ bound.plan.result_contract.columns
unfolding text_code
bind-expected_output_columns_example =
    bind-expected_output_columns full_service scope isoformat [] cache monthly (text "p") 1 bound
      (refl, tt) (refl, tt) tt bind_test

bind-IsSorted_example :
    (all_of (λ k. contains k.field bound.plan.result_contract.columns) bound.plan.order_by ≡ true)
    × (subset bound.plan.result_contract.grain bound.plan.result_contract.columns ≡ true)
bind-IsSorted_example =
    bind-IsSorted full_service scope isoformat [] cache monthly (text "p") 1 bound bind_test

bind-required_rule_refs_example :
    subset revenue_metric.required_rule_refs bound.plan.rule_refs ≡ true
unfolding catalog_code
bind-required_rule_refs_example =
    bind-required_rule_refs full_service scope isoformat [] cache monthly (text "p") 1 bound revenue
      revenue_metric (refl, tt) (refl, tt) tt bind_test refl refl

-- A row is looked at of which every predicate is true.
lower-is_wanted_example :
    (tables : List TableRecord) × (scanned full_service scope (orders ∷ []) ≡ ok tables)
    × (all_of (λ p. true) lowered.where_ ≡ is_wanted (λ p. true) tables bound.plan)
    × (all_of (λ p. true) lowered.having ≡ all_of (is_met (λ p. true) false) bound.plan.obligations)
lower-is_wanted_example =
    lower-is_wanted (λ p. true) full_service scope bound.plan joins duckdb lowered lower_test

lower-gates_example :
    (gate_grain lowered bound.plan ≡ [])
    × (gate_fan_out lowered bound.plan ≡ [])
    × (gate_metric_integrity full_service bound.plan ≡ ok [])
    × (gate_policy_epoch bound.plan scope ≡ [])
unfolding text_code
lower-gates_example =
    lower-gates full_service scope isoformat [] cache monthly (text "p") 1 bound duckdb lowered
      (refl, tt) tt bind_test lower_test

-- The same plan under an obligation of tenancy without a predicate.
abbrev tenant_plan : BoundSemanticPlan
tenant_plan = record (bound.plan) {
  obligations =
      record (obligation_of tenant_rule) {
        rule_ref = text "security.tenant_scope@1";
        predicate = none;
      }
      ∷ [];
}

abbrev tenant_lowered : LogicalPlan
tenant_lowered = record lowered {
  base = record (lowered.base) { columns = amount ∷ day ∷ [] };
  where_ =
      comparison CompareOp.eq (column tenant) (parameter (text "p_tenant"))
      ∷ comparison CompareOp.gte (column day) (parameter (text "p_time_start"))
      ∷ comparison CompareOp.lt (column day) (parameter (text "p_time_end"))
      ∷ [];
}

tenant_test : lower full_service scope tenant_plan joins duckdb ≡ ok tenant_lowered
unfolding lowering_code
tenant_test = refl

lower-gate_obligations_example : gate_obligations full_service tenant_plan tenant_lowered ≡ ok []
unfolding text_code catalog_code stem is_tenant_key
lower-gate_obligations_example =
    lower-gate_obligations full_service scope ((refl, (refl, refl)), ((refl, tt), tt)) tenant_plan
      joins duckdb tenant_lowered tenant_test

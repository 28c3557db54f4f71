-- ===== src/Examples/Data.antt =====
-- A policy with one principal, and a snapshot with two tables, a relationship, a metric and a rule.
use text_to_sql_rag.Prelude.{
  true, false, none, some, [], ◌∷◌, Text, text, text_code, strip, decimal, lookup, insert,
  sorted_set, sort_by,
}
use text_to_sql_rag.Contracts.Ids.{approved, parse, make_ref, is_object_id, table_id_of, show_ref}
use text_to_sql_rag.Contracts.Expressions.{
  aggregate, AggregateOp, comparison, CompareOp, column, parameter,
}
use text_to_sql_rag.Contracts.Scope.{discover, read, execute_metric, TrustedScope, action_eq}
use text_to_sql_rag.Contracts.Records.{
  TableRecord, RelationshipRecord, MetricRecord, RuleRecord, month, quarter, always,
  require_tenant_scope, before_aggregation, RuleClass, Cardinality,
}
use text_to_sql_rag.Authorization.Policy.{
  PolicyEngine, PrincipalPolicy, check, principal, decision, deny_cascade, cascade, by_grants,
  matches, covers, require, check_all, denied_among,
}
use text_to_sql_rag.Catalog.Service.{
  CatalogService, get, get_pinned, require_snapshot, authorize, get_table, get_relationship,
  require_columns_usable, refuse_denied, get_metric, executable_metrics, executable_among,
  allowed_both, relationships_by_table,
}
use text_to_sql_rag.Contracts.Plan.{SemanticRequest, Operation, Direction}

abbrev pub orders : Text
orders = text "s.o"

abbrev pub customers : Text
customers = text "s.c"

abbrev pub customer_id : Text
customer_id = text "s.o.k"

abbrev pub customer_key : Text
customer_key = text "s.c.k"

abbrev pub tenant : Text
tenant = text "s.o.t"

abbrev pub secret : Text
secret = text "s.o.x"

abbrev pub revenue : Text
revenue = text "s.r"

abbrev pub ana : Text
ana = text "ana"

abbrev pub snapshot_name : Text
snapshot_name = text "catalog-1"

abbrev pub ana_policy : PrincipalPolicy
ana_policy = record {
  principal_id = ana;
  tenant_id = text "t1";
  purpose = text "reporting";
  domains = [];
  access_scopes = [];
  grants =
      (discover, text "s.*" ∷ []) ∷ (read, text "s.*" ∷ []) ∷ (execute_metric, revenue ∷ []) ∷ [];
  denies = (read, secret ∷ []) ∷ [];
}

-- The same policy without its deny.
abbrev pub open_policy : PrincipalPolicy
open_policy = record ana_policy { denies = [] }

abbrev pub engine : PolicyEngine
engine = record { principals = (ana, ana_policy) ∷ []; policy_epoch = 3 }

abbrev pub scope : TrustedScope
scope = record {
  principal_id = ana;
  tenant_id = text "t1";
  purpose = text "reporting";
  policy_epoch = 3;
  snapshot_id = snapshot_name;
  discovery = record {
    tenant_id = text "t1";
    access_scopes = [];
    allowed_domains = none;
    denied_object_ids = secret ∷ [];
    snapshot_id = snapshot_name;
    publication_status = approved;
  };
  established_at = 5;
  token = text "k";
}

abbrev pub orders_table : TableRecord
orders_table = record {
  id = orders;
  physical = record { database = text "w"; schema_name = text "s"; name = text "o" };
  grain = [];
  primary_key = [];
  tenant_key = some tenant;
  is_certified = true;
  tags = text "tenant_scoped" ∷ [];
}

abbrev pub customers_table : TableRecord
customers_table = record orders_table {
  id = customers;
  physical = record { database = text "w"; schema_name = text "s"; name = text "c" };
  tenant_key = none;
  tags = [];
}

abbrev pub orders_customers : RelationshipRecord
orders_customers = record {
  id = text "s.j";
  version = 1;
  left_table = orders;
  right_table = customers;
  predicates =
      record { op = text "eq"; left_column = customer_id; right_column = customer_key } ∷ [];
  cardinality = Cardinality.many_to_one;
  join_type = text "left";
  is_temporal = false;
  temporal_fact_column = none;
  requires_uniqueness_contract = false;
  prohibited_usages = [];
}

abbrev pub revenue_metric : MetricRecord
revenue_metric = record {
  id = revenue;
  version = 2;
  name = text "Revenue";
  aliases = [];
  unit = none;
  base_entity = text "order";
  allowed_dimensions = [];
  base_table = orders;
  base_grain = [];
  expression = aggregate AggregateOp.sum (some (text "s.o.a"));
  population = none;
  required_rule_refs = [];
  time = record {
    time_column = text "s.o.d";
    grains = month ∷ quarter ∷ [];
    timezone = text "UTC";
    calendar_ref = [];
  };
}

abbrev pub tenant_rule : RuleRecord
tenant_rule = record {
  id = text "s.u";
  version = 1;
  rule_class = RuleClass.security_obligation;
  activation = always;
  effect = record {
    op = require_tenant_scope;
    predicate = some (comparison CompareOp.eq (column tenant) (parameter (text "p")));
    placement = before_aggregation;
    required_tables = orders ∷ [];
    required_relationship_ref = none;
    slot = none;
    slot_value = none;
  };
  overrideable = false;
  priority_within_class = 0;
}

abbrev pub service : CatalogService
service = record {
  snapshot = record {
    snapshot_id = snapshot_name;
    dialect = text "duckdb";
    tables = (orders, orders_table) ∷ (customers, customers_table) ∷ [];
    columns = [];
    relationships = (text "s.j", orders_customers) ∷ [];
    value_sets = [];
    metrics = (revenue, revenue_metric) ∷ [];
    dimensions = [];
    rules = (text "s.u", tenant_rule) ∷ [];
    glossary = [];
  };
  policy = engine;
}

-- Revenue by an unknown sort key, without a period.
abbrev pub request : SemanticRequest
request = record {
  operation = Operation.aggregate;
  metric_ids = revenue ∷ [];
  dimension_ids = [];
  filters = [];
  time_range = none;
  time_grain = none;
  order_by = record { field = text "nope"; direction = Direction.asc } ∷ [];
  limit = none;
  attribution = none;
}

-- The definitions that a check, a resolution and a parse run through, for `unfolding` lines.
unfoldable pub policy_code : Unit {0}
unfolding text_code strip decimal lookup insert sorted_set sort_by action_eq check principal
    decision deny_cascade cascade by_grants matches covers require check_all denied_among
policy_code = tt

unfoldable pub catalog_code : Unit {0}
unfolding policy_code parse make_ref is_object_id table_id_of show_ref get get_pinned
    require_snapshot authorize get_table get_relationship require_columns_usable refuse_denied
    get_metric executable_metrics executable_among allowed_both relationships_by_table
catalog_code = tt

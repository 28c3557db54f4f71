-- ===== src/Examples/Metrics.antt =====
-- ana resolves revenue twice; the second time the cache answers.
use text_to_sql_rag.Prelude.{
  ◌≡◌, refl, true, false, some, All, Text, [], ◌∷◌, text, text_code, list_eq, nat_eq, text_lt,
}
use text_to_sql_rag.Contracts.Errors.{ok}
use text_to_sql_rag.Contracts.Expressions.{measure_columns, optional_columns}
use text_to_sql_rag.Contracts.Records.{ColumnRecord, event}
use text_to_sql_rag.Catalog.Service.{CatalogService, get_column}
use text_to_sql_rag.Semantics.Metrics.{MetricClosure, MetricCache, cache_key, resolve, closure_of}
use text_to_sql_rag.Semantics.Metrics.Laws.{IsUsable, IsOwned, resolve-IsUsable}
use text_to_sql_rag.Examples.Data.{
  ana, orders, tenant, service, scope, revenue_metric, catalog_code,
}

abbrev pub amount : Text
amount = text "s.o.a"

abbrev pub day : Text
day = text "s.o.d"

abbrev column_of_orders : Text → Text → ColumnRecord
column_of_orders id name = record {
  id = id;
  table_id = orders;
  name = name;
  data_type = text "DATE";
  nullable = false;
  time_role = some event;
  is_tenant_key = false;
}

abbrev pub full_service : CatalogService
full_service = record service {
  snapshot = record (service.snapshot) {
    columns =
        (amount, column_of_orders amount (text "a"))
        ∷ (day, column_of_orders day (text "d"))
        ∷ (tenant, record (column_of_orders tenant (text "t")) { is_tenant_key = true })
        ∷ [];
  };
}

abbrev pub ref : Text
ref = text "s.r@2"

abbrev pub closure : MetricClosure
closure = record {
  metric = revenue_metric;
  of_measure = amount ∷ [];
  of_population = [];
  time_column = day;
  tables = orders ∷ orders ∷ [];
  required_rule_refs = [];
}

abbrev pub cache : MetricCache
cache = (cache_key ana 3 ref, closure) ∷ []

first_test : resolve full_service scope [] ref ≡ ok (closure, cache)
unfolding catalog_code resolve get_column measure_columns closure_of optional_columns text_lt
first_test = refl

resolve-IsUsable_example : IsUsable full_service ana closure × All (IsOwned full_service) cache
unfolding text_code
resolve-IsUsable_example =
    resolve-IsUsable full_service scope [] cache ref closure refl tt first_test

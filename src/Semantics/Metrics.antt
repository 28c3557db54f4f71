-- ===== src/Semantics/Metrics.antt =====
-- app/semantics/metrics.py: the resolution of a metric with what it depends on. The cache of the service is
-- passed along; an exception leaves it as it was.
pub mod Laws
use text_to_sql_rag.Prelude.{
  ℕ, ◌≡◌, Bool, true, false, not, ◌&&◌, Option, none, some, List, [], ◌∷◌, ◌++◌, Text, list_eq,
  nat_eq, contains, lookup, insert, decimal, sorted_set, if◌then◌else◌,
}
use text_to_sql_rag.Contracts.Errors.{
  Result, ok, err, fail, catalog, unsupported_capability, ◌>>=◌, ◌>>◌,
}
use text_to_sql_rag.Contracts.Ids.{table_id_of}
use text_to_sql_rag.Contracts.Expressions.{measure_columns, optional_columns}
use text_to_sql_rag.Contracts.Scope.{TrustedScope, use_in_predicate, read}
use text_to_sql_rag.Contracts.Records.{MetricRecord}
use text_to_sql_rag.Catalog.Service.{
  CatalogService, get_column, get_metric, get_dimension, require_columns_usable,
}

pub record MetricClosure : Type 0 where
  pub metric : MetricRecord
  pub of_measure : List Text
  pub of_population : List Text
  pub time_column : Text
  pub tables : List Text
  pub required_rule_refs : List Text

abbrev pub all_columns : MetricClosure → List Text
all_columns c = c.of_measure ++ c.of_population ++ c.time_column ∷ []

abbrev pub MetricCache : Type 0
MetricCache = List (Text × MetricClosure)

-- `f"{principal_id}:{policy_epoch}:{ref}"`
abbrev pub cache_key : Text → ℕ → Text → Text
cache_key principal_id epoch ref = principal_id ++ (b':' ∷ (decimal epoch ++ (b':' ∷ ref)))

unfoldable pub tables_of : List Text → Result (List Text)
tables_of [] = ok []
tables_of (c ∷ cs) = do table ← table_id_of c; rest ← tables_of cs; ok (table ∷ rest)

-- With the base table, if no column is of it.
abbrev pub with_base : Text → List Text → List Text
with_base base tables = if contains base tables then tables else tables ++ base ∷ []

module _ (service : CatalogService) (scope : TrustedScope) where
  unfoldable pub columns_exist : List Text → Result (Unit {0})
  columns_exist [] = ok tt
  columns_exist (c ∷ cs) = get_column service scope c >>= λ record_. columns_exist cs

  -- What a resolution computes that the cache does not have.
  unfoldable pub closure_of : MetricRecord → Result MetricClosure
  unfolding columns_exist tables_of
  closure_of metric =
      let measure = measure_columns metric.expression in
      let population = optional_columns metric.population in
      let time = metric.time.time_column in
      columns_exist (sorted_set (measure ++ (population ++ time ∷ [])))
      >> (require_columns_usable service scope (population ++ time ∷ []) use_in_predicate
          >> (require_columns_usable service scope measure read
              >> (tables_of (measure ++ (population ++ time ∷ [])) >>= λ tables. ok (record {
                metric = metric;
                of_measure = measure;
                of_population = population;
                time_column = time;
                tables = with_base metric.base_table tables;
                required_rule_refs = metric.required_rule_refs;
              }))))

  -- From what the cache holds for the key.
  unfoldable pub resolved :
      MetricCache
      → Text
      → MetricRecord
      → Option MetricClosure
      → Result (MetricClosure × MetricCache)
  resolved cache key metric (some closure) = ok (closure, cache)
  resolved cache key metric none =
      closure_of metric >>= λ closure. ok (closure, insert key closure cache)

  unfoldable pub resolve : MetricCache → Text → Result (MetricClosure × MetricCache)
  unfolding resolved
  resolve cache ref =
      let key = cache_key scope.principal_id scope.policy_epoch ref in
      get_metric service scope ref >>= λ metric. resolved cache key metric (lookup key cache)

  unfoldable pub resolve_dimension_columns : Text → Result (Text × Option Text)
  resolve_dimension_columns ref = do
    dimension ← get_dimension service scope ref
    column ← get_column service scope dimension.column
    usable ← require_columns_usable service scope (dimension.column ∷ []) read
    ok (dimension.column, dimension.required_relationship_ref)

unfoldable pub check_dimension_allowed : MetricRecord → Text → Result (Unit {0})
check_dimension_allowed metric dimension_id = elim metric.allowed_dimensions [
  | [] ↦ ok tt
  | d ∷ ds ↦
      if contains dimension_id (d ∷ ds)
      then ok tt
      else fail catalog unsupported_capability (some dimension_id)
]

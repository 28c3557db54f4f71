-- ===== src/Catalog/Service.antt =====
-- app/catalog/service.py: the snapshot and the service that authorizes every resolution. Loading
-- the JSON files is left out: a snapshot is the dicts that `__init__` builds.
pub mod Laws
use text_to_sql_rag.Prelude.{
  ℕ, Bool, true, false, ◌&&◌, ◌||◌, Option, none, some, List, [], ◌∷◌, ◌++◌, Text, Eq, ◌==◌,
  list_eq, nat_eq, contains, select, map, lookup, values, strip, lower, if◌then◌else◌, concat_map,
}
use text_to_sql_rag.Contracts.Errors.{
  Result, ok, err, fail, catalog, authorization, object_not_found, stale_snapshot, not_authorized,
  ◌>>=◌, ◌>>◌,
}
use text_to_sql_rag.Contracts.Ids.{parse, show_ref}
use text_to_sql_rag.Contracts.Scope.{Action, discover, read, execute_metric, TrustedScope}
use text_to_sql_rag.Contracts.Records.{
  ColumnRecord, TableRecord, RelationshipRecord, GlossaryRecord, ValueSetRecord, MetricRecord,
  DimensionRecord, RuleRecord,
}
use text_to_sql_rag.Authorization.Policy.{PolicyEngine, check, check_all, require}

pub record CatalogSnapshot : Type 0 where
  pub snapshot_id : Text
  pub dialect : Text
  pub tables : List (Text × TableRecord)
  pub columns : List (Text × ColumnRecord)
  pub relationships : List (Text × RelationshipRecord)
  pub value_sets : List (Text × ValueSetRecord)
  pub metrics : List (Text × MetricRecord)
  pub dimensions : List (Text × DimensionRecord)
  pub rules : List (Text × RuleRecord)
  pub glossary : List (Text × GlossaryRecord)

-- `snapshot.get(kind, id)`, on the records of the kind.
unfoldable pub get : {R : Type 0} → List (Text × R) → Text → Result R
get records object_id = elim (lookup object_id records) [
  | some record_ ↦ ok record_
  | none ↦ fail catalog object_not_found (some object_id)
]

-- `snapshot.get_pinned(kind, ref)`: another version than the pinned one is an error.
unfoldable pub get_pinned : {R : Type 0} → (R → ℕ) → List (Text × R) → Text → Result R
unfolding get
get_pinned version records ref = do
  parsed ← parse ref
  record_ ← get records parsed.id
  if version record_ == parsed.version
      then ok record_
      else fail catalog stale_snapshot (some (show_ref parsed))

-- `columns_by_table.get(table_id, [])`
unfoldable pub columns_by_table : CatalogSnapshot → Text → List ColumnRecord
columns_by_table snapshot table_id = select (λ c. c.table_id == table_id) (values snapshot.columns)

-- `relationships_by_table.get(table_id, [])`: a relationship of a table with itself stands twice.
unfoldable pub relationships_by_table : CatalogSnapshot → Text → List RelationshipRecord
relationships_by_table snapshot table_id =
    concat_map
      (λ r.
        (if r.left_table == table_id then r ∷ [] else [])
        ++ (if r.right_table == table_id then r ∷ [] else []))
      (values snapshot.relationships)

pub record CatalogService : Type 0 where
  pub snapshot : CatalogSnapshot
  pub policy : PolicyEngine

-- A denied resource is an error about the first one.
unfoldable pub refuse_denied : List Text → Result (Unit {0})
refuse_denied [] = ok tt
refuse_denied (c ∷ cs) = fail authorization not_authorized (some c)

module _ (service : CatalogService) (scope : TrustedScope) where
  unfoldable pub require_snapshot : Result (Unit {0})
  require_snapshot =
      if scope.snapshot_id == service.snapshot.snapshot_id
      then ok tt
      else fail catalog stale_snapshot none

  unfoldable pub authorize : Action → Text → Result (Unit {0})
  authorize action resource = do
    d ← check service.policy scope.principal_id action resource
    require d resource

  unfoldable pub get_table : Text → Result TableRecord
  unfolding require_snapshot authorize
  get_table table_id = do
    require_snapshot
    table ← get service.snapshot.tables table_id
    authorize discover table_id
    ok table

  unfoldable pub get_column : Text → Result ColumnRecord
  unfolding require_snapshot authorize
  get_column column_id = do
    require_snapshot
    column ← get service.snapshot.columns column_id
    authorize discover column_id
    ok column

  -- The columns of one table that the action is allowed on.
  unfoldable pub permitted_columns : Action → List ColumnRecord → Result (List ColumnRecord)
  permitted_columns action [] = ok []
  permitted_columns action (c ∷ cs) = do
    d ← check service.policy scope.principal_id action c.id
    rest ← permitted_columns action cs
    ok (if d.allowed then c ∷ rest else rest)

  unfoldable pub columns_of : Action → List Text → Result (List ColumnRecord)
  columns_of action [] = ok []
  columns_of action (t ∷ ts) = do
    authorize discover t
    here ← permitted_columns action (columns_by_table service.snapshot t)
    rest ← columns_of action ts
    ok (here ++ rest)

  unfoldable pub get_columns : List Text → Action → Result (List ColumnRecord)
  unfolding columns_of permitted_columns
  get_columns table_ids action = do require_snapshot; columns_of action table_ids

  unfoldable pub require_columns_usable : List Text → Action → Result (Unit {0})
  unfolding refuse_denied
  require_columns_usable column_ids action = do
    denied ← check_all service.policy scope.principal_id action column_ids
    refuse_denied denied

  unfoldable pub get_metric_contract : Text → Result MetricRecord
  unfolding require_snapshot authorize
  get_metric_contract ref = do
    require_snapshot
    metric ← get_pinned (λ m. m.version) service.snapshot.metrics ref
    authorize discover metric.id
    ok metric

  unfoldable pub get_metric : Text → Result MetricRecord
  unfolding require_snapshot authorize
  get_metric ref = do
    require_snapshot
    metric ← get_pinned (λ m. m.version) service.snapshot.metrics ref
    authorize discover metric.id
    authorize execute_metric metric.id
    ok metric

  unfoldable pub get_dimension : Text → Result DimensionRecord
  unfolding require_snapshot authorize
  get_dimension ref = do
    require_snapshot
    dimension ← get_pinned (λ d. d.version) service.snapshot.dimensions ref
    authorize discover dimension.id
    ok dimension

  unfoldable pub get_relationship : Text → Result RelationshipRecord
  unfolding require_snapshot authorize
  get_relationship ref = do
    require_snapshot
    rel ← get_pinned (λ r. r.version) service.snapshot.relationships ref
    authorize discover rel.left_table
    authorize discover rel.right_table
    ok rel

  -- Rules are not filtered by discovery.
  unfoldable pub get_rule : Text → Result RuleRecord
  get_rule ref = get_pinned (λ r. r.version) service.snapshot.rules ref

  unfoldable pub resolve_enum : Text → Text → Result Text
  resolve_enum value_set_ref member = do
    vs ← get_pinned (λ v. v.version) service.snapshot.value_sets value_set_ref
    elim (lookup member vs.members) [
      | some stored ↦ ok stored
      | none ↦ fail catalog object_not_found (some value_set_ref)
    ]

  unfoldable pub glossary_hits : Text → List GlossaryRecord → Result (List GlossaryRecord)
  glossary_hits needle [] = ok []
  glossary_hits needle (g ∷ gs) =
      let rest = glossary_hits needle gs in
      if contains needle (lower g.term ∷ map lower g.synonyms)
      then (check service.policy scope.principal_id discover g.id >>= λ d.
          rest >>= λ hits. ok (if d.allowed then g ∷ hits else hits))
      else rest

  unfoldable pub lookup_term : Text → Result (List GlossaryRecord)
  unfolding require_snapshot glossary_hits
  lookup_term s = do
    require_snapshot
    glossary_hits (lower (strip s)) (values service.snapshot.glossary)

  -- Both actions are allowed: the second is asked only if the first is.
  unfoldable pub allowed_both : Action → Action → Text → Result Bool
  allowed_both first second resource = do
    d ← check service.policy scope.principal_id first resource
    e ← check service.policy scope.principal_id second resource
    ok (d.allowed && e.allowed)

  unfoldable pub queryable_among : List TableRecord → Result (List TableRecord)
  unfolding allowed_both
  queryable_among [] = ok []
  queryable_among (t ∷ ts) =
      let rest = queryable_among ts in
      if t.is_certified
      then (allowed_both discover read t.id >>= λ b.
          rest >>= λ kept. ok (if b then t ∷ kept else kept))
      else rest

  unfoldable pub queryable_tables : Result (List TableRecord)
  unfolding require_snapshot queryable_among
  queryable_tables = do require_snapshot; queryable_among (values service.snapshot.tables)

  unfoldable pub executable_among : List MetricRecord → Result (List MetricRecord)
  unfolding allowed_both
  executable_among [] = ok []
  executable_among (m ∷ ms) = do
    b ← allowed_both discover execute_metric m.id
    kept ← executable_among ms
    ok (if b then m ∷ kept else kept)

  unfoldable pub executable_metrics : Result (List MetricRecord)
  unfolding require_snapshot executable_among
  executable_metrics = do require_snapshot; executable_among (values service.snapshot.metrics)

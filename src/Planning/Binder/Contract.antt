-- ===== src/Planning/Binder/Contract.antt =====
-- The result contract, the coverage and the rules of the plans of app/planning/binder.py.
use mathlib.Core.Option.{some-injective}
use text_to_sql_rag.Prelude.{
  ℕ, ◌≡◌, ◌∙◌, refl, sym, ap, subst, true, false, Option, none, some, List, [], ◌∷◌, ◌++◌,
  append_assoc, arith, Text, contains, map, list_eq, nat_eq, Bool-cases, inl, inr, All, all_of,
  lookup, decimal, not-contains-decimal, rpartition-append, ◌==◌, eq_of_==, subset,
  subset-append_left,
}
use text_to_sql_rag.Contracts.Errors.{ok, >>=-eq-ok, ok-injective}
use text_to_sql_rag.Contracts.Ids.{Ref, parse, make_ref, show_ref}
use text_to_sql_rag.Contracts.Scope.{TrustedScope}
use text_to_sql_rag.Contracts.Records.{MetricRecord, TimeGrain, day, week, month, quarter, year}
use text_to_sql_rag.Contracts.Plan.{
  SemanticRequest, SortKey, asc, TimeRange, BoundTimeSpec, BoundDimension,
}
use text_to_sql_rag.Catalog.Service.{CatalogService, get, get_pinned}
use text_to_sql_rag.Catalog.Service.Laws.{get_pinned-IsPinned, get-eq-ok}
use text_to_sql_rag.Semantics.Metrics.{
  MetricCache, check_dimension_allowed, resolve_dimension_columns,
}
use text_to_sql_rag.Semantics.Metrics.Laws.{IsOwned, resolve-IsClosureOf}
use text_to_sql_rag.Planning.Clarify.{grain_value}
use text_to_sql_rag.Planning.Binder.{bind, bind_dimensions}
use text_to_sql_rag.Planning.Binder.Parts.{
  Bound, BindResult, metric_ref, metric_alias, alias, dimension_ref, bind_time, single_metric,
  time_columns, found_aliases, time_alias, nonempty, nonempty, expected_output_columns,
  contract_columns, check_order, check_rules, supports, order_or, grain_columns,
}
use text_to_sql_rag.Planning.Binder.Steps.{IsGathered, bind-IsBound}
use text_to_sql_rag.Planning.Binder.Authority.{HasPlainIds, get-value, metric_ref-plain}

-- Every metric stands under its own id.
abbrev pub IsKeyed : CatalogService → Type 0
IsKeyed service = All (λ e. e.1.id ≡ e.0) service.snapshot.metrics

lookup-IsKeyed :
    (records : List (Text × MetricRecord)) (id : Text) (m : MetricRecord)
    → All (λ e. e.1.id ≡ e.0) records
    → lookup id records ≡ some m
    → m.id ≡ id
unfolding lookup
lookup-IsKeyed [] id m h e = cc
lookup-IsKeyed ((k, n) ∷ records) id m (h, hs) e = elim (Bool-cases (id == k)) [
  | inl same ↦
      let e' = rw same at e in
      ap (λ r. r.id) (sym (some-injective _ _ e')) ∙ h ∙ sym (eq_of_== id k same)
  | inr other ↦ let e' = rw other at e in lookup-IsKeyed records id m hs e'
]

parse-show_ref-id : (r q : Ref) → parse (show_ref r) ≡ ok q → q.id ≡ r.id
unfolding parse show_ref make_ref
parse-show_ref-id r q h = ground (
  arith,
  rpartition-append b'@' r.id (decimal r.version) (not-contains-decimal b'@' r.version refl),
)

-- The reference of a record pins the record.
pinned-same :
    (service : CatalogService) (id : Text) (m n : MetricRecord)
    → IsKeyed service
    → get service.snapshot.metrics id ≡ ok m
    → get_pinned (λ r. r.version) service.snapshot.metrics (metric_ref m) ≡ ok n
    → n ≡ m
pinned-same service id m n keyed found pinned =
    let p = get_pinned-IsPinned (λ r. r.version) service.snapshot.metrics (metric_ref m) n pinned in
    let here = get-eq-ok service.snapshot.metrics id m found in
    let named : p.parsed.id ≡ id =
      parse-show_ref-id _ p.parsed p.parses
      ∙ lookup-IsKeyed service.snapshot.metrics id m keyed here in
    sym (
      some-injective _ _
        (sym here ∙ ap (λ x. lookup x service.snapshot.metrics) (sym named) ∙ p.found))

grain_nonempty : (g : TimeGrain) → nonempty (some (grain_value g)) ≡ grain_value g ∷ []
grain_nonempty day = refl
grain_nonempty week = refl
grain_nonempty month = refl
grain_nonempty quarter = refl
grain_nonempty year = refl

bind_time-alias :
    (m : MetricRecord) (range : Option TimeRange) (grain : Option TimeGrain)
    (t : Option BoundTimeSpec)
    → bind_time m range grain ≡ ok t
    → time_alias t ≡ time_columns range grain
unfolding bind_time
bind_time-alias m none grain t h = ap time_alias (sym (ok-injective h))
bind_time-alias m (some r) none t h = ap time_alias (sym (ok-injective h))
bind_time-alias m (some r) (some g) t h = elim (Bool-cases (supports (some g) m.time.grains)) [
  | inl fine ↦ let h' = rw fine at h in ap time_alias (sym (ok-injective h')) ∙ grain_nonempty g
  | inr other ↦ let h' = rw other at h in cc
]

single_metric-eq-ok : (ids : List Text) (id : Text) → single_metric ids ≡ ok id → ids ≡ id ∷ []
unfolding single_metric
single_metric-eq-ok [] id h = cc
single_metric-eq-ok (m ∷ []) id h = ap (λ x. x ∷ []) (ok-injective h)
single_metric-eq-ok (m ∷ n ∷ ms) id h = cc

first-injective : {a b : Text} → a ∷ [] ≡ b ∷ [] → a ≡ b
first-injective e = cc

found_one :
    {R : Type 0} (name : R → Text) (records : List (Text × R)) (id : Text) (ids : List Text) (r : R)
    → get records id ≡ ok r
    → found_aliases name records (id ∷ ids) ≡ name r ∷ found_aliases name records ids
found_one name records id ids r h = rw h refl

check_order-eq-ok :
    (ks : List SortKey) (columns : List Text)
    → check_order ks columns ≡ ok tt
    → all_of (λ k. contains k.field columns) ks ≡ true
unfolding check_order
check_order-eq-ok [] columns h = refl
check_order-eq-ok (k ∷ ks) columns h = ground (arith, check_order-eq-ok ks columns)

check_rules-eq-ok :
    (rs applied : List Text) → check_rules rs applied ≡ ok tt → subset rs applied ≡ true
unfolding check_rules
check_rules-eq-ok [] applied h = refl
check_rules-eq-ok (r ∷ rs) applied h = ground (arith, check_rules-eq-ok rs applied)

-- The default order goes through columns that are there.
default_order :
    (grain columns : List Text)
    → subset grain columns ≡ true
    → all_of {A = SortKey}
        (λ k. contains k.field columns)
        (map (λ g. record { field = g; direction = asc }) grain)
      ≡ true
default_order [] columns h = refl
default_order (g ∷ gs) columns h = ground (arith, default_order gs columns)

order_or-fields :
    (ks : List SortKey) (grain columns : List Text)
    → subset grain columns ≡ true
    → check_order ks columns ≡ ok tt
    → all_of (λ k. contains k.field columns) (order_or ks grain) ≡ true
order_or-fields [] grain columns h c = default_order grain columns h
order_or-fields (k ∷ ks) grain columns h c = check_order-eq-ok (k ∷ ks) columns c

module _ (service : CatalogService) (scope : TrustedScope) where
  bind_dimensions-aliases :
      (m : MetricRecord) (ids : List Text) (dims : List BoundDimension)
      → bind_dimensions service scope m ids ≡ ok dims
      → map (λ d. d.output_alias) dims
        ≡ found_aliases (λ d. alias d.id) service.snapshot.dimensions ids
  unfolding bind_dimensions
  bind_dimensions-aliases m [] dims h = ap (map (λ d. d.output_alias)) (sym (ok-injective h))
  bind_dimensions-aliases m (id ∷ ids) dims h =
      let (d, found, h1) = >>=-eq-ok (get service.snapshot.dimensions id) _ h in
      let (_, allowed, h2) = >>=-eq-ok (check_dimension_allowed m id) _ h1 in
      let (c, columns, h3) =
        >>=-eq-ok (resolve_dimension_columns service scope (dimension_ref d)) _ h2 in
      let (rest, more, done) = >>=-eq-ok (bind_dimensions service scope m ids) _ h3 in
      ap (map (λ d. d.output_alias)) (sym (ok-injective done))
      ∙ ap (λ x. alias d.id ∷ x) (bind_dimensions-aliases m ids rest more)
      ∙ sym (found_one (λ d. alias d.id) service.snapshot.dimensions id ids d found)

  -- The metric of the closure is the record that the catalog has under the id of the request.
  bound_metric_is :
      (isoformat : ℕ → Text) (cache cache' : MetricCache) (request : SemanticRequest) (b : Bound)
      → HasPlainIds service
      → IsKeyed service
      → All (IsOwned service) cache
      → (g : IsGathered service scope isoformat cache request b cache')
      → b.closure.metric ≡ g.metric
  bound_metric_is isoformat cache cache' request b plain keyed owned g =
      let ref_plain =
        subst (λ x. contains b':' x ≡ false) (sym g.ref)
          (metric_ref-plain g.metric (
            get-value (λ m. contains b':' m.id ≡ false) service.snapshot.metrics g.id g.metric plain
              g.found)) in
      let whole =
        resolve-IsClosureOf service scope cache cache' b.ref b.closure ref_plain owned g.resolved in
      pinned-same service g.id g.metric b.closure.metric keyed g.found (
        subst (λ x. get_pinned (λ r. r.version) service.snapshot.metrics x ≡ ok b.closure.metric)
          g.ref whole.pinned)

  -- The columns that a repair expects of a request are those of the contract of the plan that the binder returns for
  -- it, if the cache was filled by resolutions, no id of a metric has a colon and every metric stands under its id.
  pub bind-expected_output_columns :
      (isoformat : ℕ → Text) (cache cache' : MetricCache) (request : SemanticRequest)
      (plan_id : Text) (plan_revision : ℕ) (r : BindResult)
      → HasPlainIds service
      → IsKeyed service
      → All (IsOwned service) cache
      → bind service scope isoformat cache request plan_id plan_revision ≡ ok (r, cache')
      → expected_output_columns service.snapshot request ≡ r.plan.result_contract.columns
  unfolding expected_output_columns
  bind-expected_output_columns isoformat cache cache' request plan_id plan_revision r plain keyed
        owned h =
      let bound =
        bind-IsBound service scope isoformat cache cache' request plan_id plan_revision r h in
      let b = bound.b in
      let g = bound.gathered in
      let metric = bound_metric_is isoformat cache cache' request b plain keyed owned g in
      let times =
        bind_time-alias b.closure.metric request.time_range request.time_grain b.time g.time in
      let dims =
        bind_dimensions-aliases b.closure.metric request.dimension_ids b.dimensions g.dimensions in
      let one : found_aliases metric_alias service.snapshot.metrics request.metric_ids
          ≡ metric_alias b.closure.metric ∷ [] =
        ap (found_aliases metric_alias service.snapshot.metrics)
          (single_metric-eq-ok request.metric_ids g.id g.single)
        ∙ found_one metric_alias service.snapshot.metrics g.id [] g.metric g.found
        ∙ ap (λ x. metric_alias x ∷ []) (sym metric) in
      ap
        (λ x.
          x
          ++ (found_aliases (λ d. alias d.id) service.snapshot.dimensions request.dimension_ids
              ++ found_aliases metric_alias service.snapshot.metrics request.metric_ids))
        (sym times)
      ∙ ap
          (λ x.
            time_alias b.time
            ++ (x ++ found_aliases metric_alias service.snapshot.metrics request.metric_ids))
          (sym dims)
      ∙ ap (λ x. time_alias b.time ++ (map (λ d. d.output_alias) b.dimensions ++ x)) one
      ∙ sym (
          append_assoc (time_alias b.time) (map (λ d. d.output_alias) b.dimensions)
            (metric_alias b.closure.metric ∷ []))
      ∙ ap (λ p. p.result_contract.columns) (sym bound.planned)

  -- A plan that the binder returns sorts by columns of its result only, and the columns of its grain are among those of
  -- the result.
  pub bind-IsSorted :
      (isoformat : ℕ → Text) (cache cache' : MetricCache) (request : SemanticRequest)
      (plan_id : Text) (plan_revision : ℕ) (r : BindResult)
      → bind service scope isoformat cache request plan_id plan_revision ≡ ok (r, cache')
      → (all_of (λ k. contains k.field r.plan.result_contract.columns) r.plan.order_by ≡ true)
        × (subset r.plan.result_contract.grain r.plan.result_contract.columns ≡ true)
  bind-IsSorted isoformat cache cache' request plan_id plan_revision r h =
      let bound =
        bind-IsBound service scope isoformat cache cache' request plan_id plan_revision r h in
      let b = bound.b in
      let grain : List Text = grain_columns b.time b.dimensions in
      let within = subset-append_left grain (metric_alias b.closure.metric ∷ []) in
      subst
        (λ p.
          (all_of (λ k. contains k.field p.result_contract.columns) p.order_by ≡ true)
          × (subset p.result_contract.grain p.result_contract.columns ≡ true))
        (sym bound.planned)
        (order_or-fields request.order_by grain (contract_columns b) within bound.sorted, within)

  -- A plan is bound only if every rule that its metric requires was applied, if the cache was filled by resolutions, no
  -- id of a metric has a colon and every metric stands under its id.
  pub bind-required_rule_refs :
      (isoformat : ℕ → Text) (cache cache' : MetricCache) (request : SemanticRequest)
      (plan_id : Text) (plan_revision : ℕ) (r : BindResult) (id : Text) (m : MetricRecord)
      → HasPlainIds service
      → IsKeyed service
      → All (IsOwned service) cache
      → bind service scope isoformat cache request plan_id plan_revision ≡ ok (r, cache')
      → request.metric_ids ≡ id ∷ []
      → get service.snapshot.metrics id ≡ ok m
      → subset m.required_rule_refs r.plan.rule_refs ≡ true
  bind-required_rule_refs isoformat cache cache' request plan_id plan_revision r id m plain keyed
        owned h asked found =
      let bound =
        bind-IsBound service scope isoformat cache cache' request plan_id plan_revision r h in
      let b = bound.b in
      let g = bound.gathered in
      let metric = bound_metric_is isoformat cache cache' request b plain keyed owned g in
      let same_id : id ≡ g.id =
        first-injective (sym asked ∙ single_metric-eq-ok request.metric_ids g.id g.single) in
      let same : g.metric ≡ m =
        ok-injective (sym g.found ∙ ap (get service.snapshot.metrics) (sym same_id) ∙ found) in
      subst (λ x. subset x.required_rule_refs r.plan.rule_refs ≡ true) (metric ∙ same)
        (subst (λ p. subset b.closure.metric.required_rule_refs p.rule_refs ≡ true)
          (sym bound.planned)
          (check_rules-eq-ok b.closure.metric.required_rule_refs r.closure.applied_rule_refs
            bound.closing.required))

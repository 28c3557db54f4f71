-- ===== src/Planning/Binder/Authority.antt =====
-- What the final sweep of app/planning/binder.py guarantees of the plan that it returns.
use mathlib.Core.Option.{some-injective}
use text_to_sql_rag.Prelude.{
  ℕ, ◌≡◌, ◌∙◌, refl, sym, subst, true, false, ◌==◌, Option, none, some, List, [], ◌∷◌, ◌++◌,
  append-nil, arith, Text, contains, contains-append, contains-select, difference, concat_map, map,
  list_eq, nat_eq, if◌then◌else◌, Bool-cases, inl, inr, All, values, lookup, decimal,
  not-contains-decimal,
}
use text_to_sql_rag.Contracts.Errors.{ok, >>=-eq-ok}
use text_to_sql_rag.Contracts.Ids.{show_ref}
use text_to_sql_rag.Contracts.Scope.{TrustedScope, read, use_in_predicate}
use text_to_sql_rag.Contracts.Expressions.{columns_in, optional_columns, measure_columns}
use text_to_sql_rag.Contracts.Records.{MetricRecord, TimeGrain}
use text_to_sql_rag.Contracts.Plan.{SemanticRequest, TimeRange, BoundSemanticPlan, BoundTimeSpec}
use text_to_sql_rag.Catalog.Service.{CatalogService, get, require_columns_usable}
use text_to_sql_rag.Catalog.Service.Laws.{may, get-eq-ok, require_columns_usable-may}
use text_to_sql_rag.Semantics.Metrics.{MetricCache}
use text_to_sql_rag.Semantics.Metrics.Laws.{
  IsOwned, IsClosureOf, resolve-IsClosureOf, resolve-IsUsable, All-intro,
}
use text_to_sql_rag.Semantics.Rules.{ClosureResult}
use text_to_sql_rag.Relationships.Planner.{JoinPlan}
use text_to_sql_rag.Planning.Binder.{bind, sweep, plan_of}
use text_to_sql_rag.Planning.Binder.Parts.{
  Bound, BindResult, metric_ref, bind_time, swept_columns, obligation_columns, key_columns,
}
use text_to_sql_rag.Planning.Binder.Steps.{bind-IsBound}

-- The columns that the measures of a plan aggregate.
abbrev pub read_columns : BoundSemanticPlan → List Text
read_columns p = concat_map (λ m. measure_columns m.expression) p.metrics

abbrev pub time_column : Option BoundTimeSpec → List Text
time_column none = []
time_column (some t) = t.column ∷ []

-- The columns that a plan filters, groups and joins by.
abbrev pub used_columns : BoundSemanticPlan → JoinPlan → List Text
used_columns p joins =
    concat_map (λ m. optional_columns m.population) p.metrics
    ++ (map (λ d. d.column) p.dimensions
        ++ (time_column p.time
            ++ (concat_map columns_in p.filters
                ++ (obligation_columns p.obligations ++ concat_map key_columns joins.joins))))

-- No id of a metric has a colon.
abbrev pub HasPlainIds : CatalogService → Type 0
HasPlainIds service = All (λ m. contains b':' m.id ≡ false) (values service.snapshot.metrics)

lookup-value :
    {R : Type 0} (P : R → Type 0) (records : List (Text × R)) (id : Text) (r : R)
    → All P (values records)
    → lookup id records ≡ some r
    → P r
unfolding lookup
lookup-value P [] id r h e = cc
lookup-value P ((k, s) ∷ records) id r (h, hs) e = elim (Bool-cases (id == k)) [
  | inl same ↦ let e' = rw same at e in subst P (some-injective _ _ e') h
  | inr other ↦ let e' = rw other at e in lookup-value P records id r hs e'
]

pub get-value :
    {R : Type 0} (P : R → Type 0) (records : List (Text × R)) (id : Text) (r : R)
    → All P (values records)
    → get records id ≡ ok r
    → P r
get-value P records id r h e = lookup-value P records id r h (get-eq-ok records id r e)

pub metric_ref-plain :
    (m : MetricRecord) → contains b':' m.id ≡ false → contains b':' (metric_ref m) ≡ false
unfolding show_ref
metric_ref-plain m h = ground (
  arith,
  contains-append b':' m.id (b'@' ∷ decimal m.version),
  not-contains-decimal b':' m.version refl,
)

bind_time-column :
    (m : MetricRecord) (range : Option TimeRange) (grain : Option TimeGrain)
    (t : Option BoundTimeSpec) (c : Text)
    → bind_time m range grain ≡ ok t
    → contains c (time_column t) ≡ true
    → contains c (m.time.time_column ∷ []) ≡ true
unfolding bind_time
bind_time-column m none grain t c h k = ground arith
bind_time-column m (some r) grain t c h k = ground arith

-- The parts of what the plan uses, where they stand in what is swept.
regroup :
    (c : Text) (a b t d t' f o k : List Text)
    → (contains c t' ≡ true → contains c t ≡ true)
    → contains c ((b ++ []) ++ (d ++ (t' ++ (f ++ (o ++ k))))) ≡ true
    → contains c (a ++ b ++ t ++ (d ++ f) ++ (o ++ k)) ≡ true
regroup c a b t d t' f o k time m = ground (
  arith,
  append-nil b,
  contains-append c b (d ++ (t' ++ (f ++ (o ++ k)))),
  contains-append c d (t' ++ (f ++ (o ++ k))),
  contains-append c t' (f ++ (o ++ k)),
  contains-append c f (o ++ k),
  contains-append c (a ++ b ++ t ++ (d ++ f)) (o ++ k),
  contains-append c (a ++ b ++ t) (d ++ f),
  contains-append c (a ++ b) t,
  contains-append c a b,
  contains-append c d f,
)

module _ (service : CatalogService) (scope : TrustedScope) where
  -- What the sweep allows on a column, which is to read it if it is one of the measure.
  swept-may :
      (b : Bound) (rules : ClosureResult) (joins : JoinPlan) (c : Text)
      → sweep service scope b rules joins ≡ ok tt
      → contains c (swept_columns b rules joins) ≡ true
      → may service scope (if contains c b.closure.of_measure then read else use_in_predicate) c
        ≡ true
  unfolding sweep
  swept-may b rules joins c h m =
      let rest : List Text = difference (swept_columns b rules joins) b.closure.of_measure in
      let (_, predicates, reads) =
        >>=-eq-ok (require_columns_usable service scope rest use_in_predicate) _ h in
      elim (Bool-cases (contains c b.closure.of_measure)) [
        | inl measured ↦
            rw measured
              (require_columns_usable-may service scope b.closure.of_measure read reads c measured)
        | inr other ↦ rw other (
            require_columns_usable-may service scope rest use_in_predicate predicates c (
              ground (
                arith,
                contains-select (λ x. if contains x b.closure.of_measure then false else true) c
                    (swept_columns b rules joins),
              )))
      ]

  -- The columns that the plan uses are among those of the sweep.
  used-swept :
      (request : SemanticRequest) (plan_id : Text) (plan_revision : ℕ) (b : Bound)
      (rules : ClosureResult) (joins : JoinPlan) (ref c : Text)
      → IsClosureOf service ref b.closure
      → bind_time b.closure.metric request.time_range request.time_grain ≡ ok b.time
      → contains c
          (used_columns (plan_of service scope request plan_id plan_revision b rules joins) joins)
        ≡ true
      → contains c (swept_columns b rules joins) ≡ true
  used-swept request plan_id plan_revision b rules joins ref c whole time m =
      let population : List Text = optional_columns b.closure.metric.population in
      let dims : List Text = map (λ d. d.column) b.dimensions in
      let filters : List Text = concat_map columns_in b.filters in
      let obligations : List Text = obligation_columns rules.obligations in
      let keys : List Text = concat_map key_columns joins.joins in
      let in_time =
        bind_time-column b.closure.metric request.time_range request.time_grain b.time c time in
      regroup c b.closure.of_measure b.closure.of_population (b.closure.time_column ∷ []) dims
        (time_column b.time) filters obligations keys
        (λ k. subst (λ x. contains c (x ∷ []) ≡ true) (sym whole.time) (in_time k))
        (subst
          (λ x.
            contains c
              ((x ++ []) ++ (dims ++ (time_column b.time ++ (filters ++ (obligations ++ keys)))))
            ≡ true)
          (sym whole.population) m)

  -- Every column of the measure of a plan that the binder returns may be read, and every other column that the plan
  -- filters, groups or joins by may be used in a predicate, if the cache was filled by resolutions and no id of a
  -- metric has a colon.
  pub bind-IsAuthorized :
      (isoformat : ℕ → Text) (cache cache' : MetricCache) (request : SemanticRequest)
      (plan_id : Text) (plan_revision : ℕ) (r : BindResult)
      → HasPlainIds service
      → All (IsOwned service) cache
      → bind service scope isoformat cache request plan_id plan_revision ≡ ok (r, cache')
      → All (λ c. may service scope read c ≡ true) (read_columns r.plan)
        × All
            (λ c.
              may service scope
                (if contains c (read_columns r.plan) then read else use_in_predicate)
                c
              ≡ true)
            (used_columns r.plan r.join_plan)
  bind-IsAuthorized isoformat cache cache' request plan_id plan_revision r plain owned h =
      let bound =
        bind-IsBound service scope isoformat cache cache' request plan_id plan_revision r h in
      let b = bound.b in
      let g = bound.gathered in
      let ref_plain =
        subst (λ x. contains b':' x ≡ false) (sym g.ref)
          (metric_ref-plain g.metric (
            get-value (λ m. contains b':' m.id ≡ false) service.snapshot.metrics g.id g.metric plain
              g.found)) in
      let whole =
        resolve-IsClosureOf service scope cache cache' b.ref b.closure ref_plain owned g.resolved in
      let usable =
        (resolve-IsUsable service scope cache cache' b.ref b.closure ref_plain owned
          g.resolved).0 in
      let measured : read_columns
            (plan_of service scope request plan_id plan_revision b r.closure r.join_plan)
          ≡ b.closure.of_measure =
        append-nil (measure_columns b.closure.metric.expression) ∙ sym whole.measure in
      let P = λ (p : BoundSemanticPlan).
        All (λ c. may service scope read c ≡ true) (read_columns p)
        × All
            (λ c.
              may service scope (if contains c (read_columns p) then read else use_in_predicate) c
              ≡ true)
            (used_columns p r.join_plan) in
      subst P (sym bound.planned) (
        subst (λ x. All (λ c. may service scope read c ≡ true) x) (sym measured) usable.1,
        subst
            (λ x.
              All
                (λ c. may service scope (if contains c x then read else use_in_predicate) c ≡ true)
                (used_columns
                  (plan_of service scope request plan_id plan_revision b r.closure r.join_plan)
                  r.join_plan))
            (sym measured)
            (All-intro _ _ (λ c m. swept-may b r.closure r.join_plan c bound.swept (
              used-swept request plan_id plan_revision b r.closure r.join_plan b.ref c whole g.time
                m))),
      )

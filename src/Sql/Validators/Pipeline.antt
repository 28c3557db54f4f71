-- ===== src/Sql/Validators/Pipeline.antt =====
-- The gates of app/sql/validators/suite.py on what app/planning/binder.py and app/planning/lowering.py make.
use text_to_sql_rag.Prelude.{
  ℕ, ◌≡◌, ◌∙◌, refl, sym, ap, subst, true, false, not, Option, none, some, List, [], ◌∷◌, ◌++◌,
  Text, contains, map, any_of, all_of, list_eq, nat_eq, option_eq, ==_refl, Bool-cases, inl, inr,
  All, concat_map, subset_refl, arith,
}
use text_to_sql_rag.Contracts.Errors.{ok, Finding, >>=-eq-ok, ok-injective}
use text_to_sql_rag.Contracts.Scope.{TrustedScope}
use text_to_sql_rag.Contracts.Expressions.{predicate_eq, measure_eq}
use text_to_sql_rag.Contracts.Records.{MetricRecord, TimeGrain, day, week, month, quarter, year}
use text_to_sql_rag.Contracts.Plan.{
  SemanticRequest, TimeRange, BoundTimeSpec, BoundDimension, JoinOp, LogicalPlan, BoundSemanticPlan,
}
use text_to_sql_rag.Catalog.Service.{CatalogService, get_pinned, get_table}
use text_to_sql_rag.Semantics.Metrics.{MetricCache}
use text_to_sql_rag.Semantics.Metrics.Laws.{IsOwned, resolve-IsClosureOf}
use text_to_sql_rag.Relationships.Planner.{
  JoinPlan, PlannedJoin, is_additive_safe, relationship_ref,
}
use text_to_sql_rag.Planning.Clarify.{grain_value}
use text_to_sql_rag.Planning.Binder.{bind}
use text_to_sql_rag.Planning.Binder.Parts.{
  BindResult, bind_time, supports, time_alias, grain_columns, bound_metric,
}
use text_to_sql_rag.Planning.Binder.Steps.{bind-IsBound}
use text_to_sql_rag.Planning.Binder.Authority.{HasPlainIds, get-value, metric_ref-plain}
use text_to_sql_rag.Planning.Lowering.{lower, tenancy, scan_of, lower_join, lower_joins}
use text_to_sql_rag.Planning.Lowering.Parts.{
  alias_in, join_predicates, assign_aliases, time_bucket, bucket_group, groups,
}
use text_to_sql_rag.Sql.Validators.Nodes.{blocked}
use text_to_sql_rag.Sql.Validators.Records.{
  gate_grain, gate_fan_out, gate_policy_epoch, gate_metric_integrity, metric_findings, is_additive,
}

-- The time of a plan that has a grain.
abbrev with_grain : MetricRecord → TimeRange → TimeGrain → Option BoundTimeSpec
with_grain m r g = some (record {
  column = m.time.time_column;
  range = r;
  grain = some g;
  output_alias = some (grain_value g);
  calendar_ref = m.time.calendar_ref;
})

grain-bucket :
    (m : MetricRecord) (r : TimeRange) (g : TimeGrain)
    → map (λ g. g.0) (bucket_group (time_bucket (with_grain m r g))) ≡ time_alias (with_grain m r g)
grain-bucket m r day = refl
grain-bucket m r week = refl
grain-bucket m r month = refl
grain-bucket m r quarter = refl
grain-bucket m r year = refl

-- The bucket of time gives the alias that the contract has.
bind_time-bucket :
    (m : MetricRecord) (range : Option TimeRange) (grain : Option TimeGrain)
    (t : Option BoundTimeSpec)
    → bind_time m range grain ≡ ok t
    → map (λ g. g.0) (bucket_group (time_bucket t)) ≡ time_alias t
unfolding bind_time
bind_time-bucket m none grain t h =
    subst (λ t. map (λ g. g.0) (bucket_group (time_bucket t)) ≡ time_alias t) (ok-injective h) refl
bind_time-bucket m (some r) none t h =
    subst (λ t. map (λ g. g.0) (bucket_group (time_bucket t)) ≡ time_alias t) (ok-injective h) refl
bind_time-bucket m (some r) (some g) t h = elim (Bool-cases (supports (some g) m.time.grains)) [
  | inl fine ↦
      let h' = rw fine at h in
      subst (λ t. map (λ g. g.0) (bucket_group (time_bucket t)) ≡ time_alias t) (ok-injective h')
        (grain-bucket m r g)
  | inr other ↦ let h' = rw other at h in cc
]

map-append-groups :
    (bucket : List (Text × Option Text)) (dims : List BoundDimension)
    → map (λ g. g.0) (bucket ++ map (λ d. (d.output_alias, some d.column)) dims)
      ≡ map (λ g. g.0) bucket ++ map (λ d. d.output_alias) dims
map-append-groups [] [] = refl
map-append-groups [] (d ∷ ds) = ap (λ x. d.output_alias ∷ x) (map-append-groups [] ds)
map-append-groups (b ∷ bs) ds = ap (λ x. b.0 ∷ x) (map-append-groups bs ds)

-- No join multiplies, so that none is reported.
fan_out_none :
    (f : JoinOp → Finding) (js : List JoinOp)
    → all_of (λ j. j.preserves_left_multiplicity) js ≡ true
    → concat_map (λ j. blocked (not j.preserves_left_multiplicity) (f j)) js ≡ []
fan_out_none f [] h = refl
fan_out_none f (j ∷ js) h =
    let first : j.preserves_left_multiplicity ≡ true = ground arith in
    rw first (fan_out_none f js (ground arith))

gate_fan_out-none :
    (l : LogicalPlan) (plan : BoundSemanticPlan)
    → all_of (λ j. j.preserves_left_multiplicity) l.joins ≡ true
    → gate_fan_out l plan ≡ []
unfolding gate_fan_out
gate_fan_out-none l plan h =
    elim (Bool-cases (any_of (λ m. is_additive m.expression) plan.metrics)) [
      | inl additive ↦ rw additive (fan_out_none _ l.joins h)
      | inr other ↦ rw other refl
    ]

gate_grain-none :
    (l : LogicalPlan) (plan : BoundSemanticPlan)
    → plan.result_contract.grain ≡ l.output_grain
    → gate_grain l plan ≡ []
unfolding gate_grain
gate_grain-none l plan same = rw (same, subset_refl l.output_grain) refl

gate_policy_epoch-none :
    (plan : BoundSemanticPlan) (scope : TrustedScope)
    → plan.policy_epoch ≡ scope.policy_epoch
    → plan.snapshot_id ≡ scope.snapshot_id
    → gate_policy_epoch plan scope ≡ []
unfolding gate_policy_epoch
gate_policy_epoch-none plan scope epoch snapshot =
    rw (epoch, snapshot, ==_refl scope.policy_epoch, ==_refl scope.snapshot_id) refl

module _ (service : CatalogService) (scope : TrustedScope) where
  lower_join-preserves :
      (plan : BoundSemanticPlan) (aliases : List (Text × Text)) (j : PlannedJoin) (k : JoinOp)
      → lower_join service scope plan aliases j ≡ ok k
      → k.preserves_left_multiplicity ≡ j.preserves_left_multiplicity
  unfolding lower_join
  lower_join-preserves plan aliases j k h =
      let (t, h1, m1) = >>=-eq-ok (get_table service scope j.to_table) _ h in
      let (a, h2, m2) = >>=-eq-ok (alias_in aliases j.from_table) _ m1 in
      let (b, h3, m3) = >>=-eq-ok (alias_in aliases j.to_table) _ m2 in
      let (c, h4, m4) = >>=-eq-ok (scan_of service scope plan aliases j.to_table) _ m3 in
      let (d, h5, done) =
        >>=-eq-ok (join_predicates (relationship_ref j.relationship) j.relationship.predicates) _
          m4 in
      ap (λ x. x.preserves_left_multiplicity) (sym (ok-injective done))

  lower_joins-preserve :
      (plan : BoundSemanticPlan) (aliases : List (Text × Text)) (js : List PlannedJoin)
      (ks : List JoinOp)
      → lower_joins service scope plan aliases js ≡ ok ks
      → all_of (λ j. j.preserves_left_multiplicity) js ≡ true
      → all_of (λ k. k.preserves_left_multiplicity) ks ≡ true
  unfolding lower_joins
  lower_joins-preserve plan aliases [] ks h safe =
      ap (all_of (λ k. k.preserves_left_multiplicity)) (sym (ok-injective h))
  lower_joins-preserve plan aliases (j ∷ js) ks h safe =
      let (k, first, m) = >>=-eq-ok (lower_join service scope plan aliases j) _ h in
      let (rest, more, done) = >>=-eq-ok (lower_joins service scope plan aliases js) _ m in
      ap (all_of (λ k. k.preserves_left_multiplicity)) (sym (ok-injective done))
      ∙ ground (
        arith,
        lower_join-preserves plan aliases j k first,
        lower_joins-preserve plan aliases js rest more,
      )

  metric_findings-none :
      (ref : Text) (m : MetricRecord)
      → get_pinned (λ r. r.version) service.snapshot.metrics ref ≡ ok m
      → metric_findings service (bound_metric ref m ∷ []) (ref ∷ []) ≡ ok []
  unfolding metric_findings
  metric_findings-none ref m pinned =
      rw (pinned, ==_refl m.expression, ==_refl m.population, ==_refl m.unit) refl

  lower-joins :
      (plan : BoundSemanticPlan) (joins : JoinPlan) (dialect : Text) (l : LogicalPlan)
      → lower service scope plan joins dialect ≡ ok l
      → is_additive_safe joins ≡ true
      → (l.output_grain ≡ map (λ g. g.0) (groups plan))
        × (all_of (λ j. j.preserves_left_multiplicity) l.joins ≡ true)
  unfolding lower is_additive_safe
  lower-joins plan joins dialect l h safe =
      let (base, h1, m1) =
        >>=-eq-ok (scan_of service scope plan (assign_aliases joins) joins.base_table) _ h in
      let (lowered, h2, m2) =
        >>=-eq-ok (lower_joins service scope plan (assign_aliases joins) joins.joins) _ m1 in
      let (tenant, h3, done) = >>=-eq-ok (tenancy service scope plan joins) _ m2 in
      (
        ap (λ x. x.output_grain) (sym (ok-injective done)),
        ap (λ x. all_of (λ j. j.preserves_left_multiplicity) x.joins) (sym (ok-injective done))
            ∙ lower_joins-preserve plan (assign_aliases joins) joins.joins lowered h2 safe,
      )

  -- Where the binder returns a plan and it is lowered, the gates of the grain, of the fan-out and of the metrics find
  -- nothing and the plan is of the policy epoch and the snapshot of the scope, if the cache was filled by resolutions
  -- and no id of a metric has a colon.
  pub lower-gates :
      (isoformat : ℕ → Text) (cache cache' : MetricCache) (request : SemanticRequest)
      (plan_id : Text) (plan_revision : ℕ) (r : BindResult) (dialect : Text) (l : LogicalPlan)
      → HasPlainIds service
      → All (IsOwned service) cache
      → bind service scope isoformat cache request plan_id plan_revision ≡ ok (r, cache')
      → lower service scope r.plan r.join_plan dialect ≡ ok l
      → (gate_grain l r.plan ≡ [])
        × (gate_fan_out l r.plan ≡ [])
        × (gate_metric_integrity service r.plan ≡ ok [])
        × (gate_policy_epoch r.plan scope ≡ [])
  lower-gates isoformat cache cache' request plan_id plan_revision r dialect l plain owned bound_ok
        lowered_ok =
      let bound =
        bind-IsBound service scope isoformat cache cache' request plan_id plan_revision r
          bound_ok in
      let b = bound.b in
      let g = bound.gathered in
      let ref_plain =
        subst (λ x. contains b':' x ≡ false) (sym g.ref)
          (metric_ref-plain g.metric (
            get-value (λ m. contains b':' m.id ≡ false) service.snapshot.metrics g.id g.metric plain
              g.found)) in
      let whole =
        resolve-IsClosureOf service scope cache cache' b.ref b.closure ref_plain owned g.resolved in
      let (grain, kept) = lower-joins r.plan r.join_plan dialect l lowered_ok bound.joined.safe in
      let times =
        bind_time-bucket b.closure.metric request.time_range request.time_grain b.time g.time in
      let contract : r.plan.result_contract.grain ≡ grain_columns b.time b.dimensions =
        ap (λ p. p.result_contract.grain) bound.planned in
      let grouped : map (λ g. g.0) (groups r.plan) ≡ grain_columns b.time b.dimensions =
        ap (λ p. map (λ g. g.0) (groups p)) bound.planned
        ∙ map-append-groups (bucket_group (time_bucket b.time)) b.dimensions
        ∙ ap (λ x. x ++ map (λ d. d.output_alias) b.dimensions) times in
      (
        gate_grain-none l r.plan (contract ∙ sym grouped ∙ sym grain),
        gate_fan_out-none l r.plan kept,
        ap (λ p. gate_metric_integrity service p) bound.planned
            ∙ metric_findings-none b.ref b.closure.metric whole.pinned,
        gate_policy_epoch-none r.plan scope (ap (λ p. p.policy_epoch) bound.planned)
            (ap (λ p. p.snapshot_id) bound.planned),
      )

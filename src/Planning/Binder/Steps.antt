-- ===== src/Planning/Binder/Steps.antt =====
-- What a binding that succeeds went through, step by step.
use text_to_sql_rag.Prelude.{
  ℕ, ◌≡◌, refl, subst, true, List, ◌++◌, Text, list_eq, nat_eq, Bool-cases, inl, inr,
}
use text_to_sql_rag.Contracts.Errors.{ok, >>=-eq-ok, ok-injective}
use text_to_sql_rag.Contracts.Scope.{TrustedScope}
use text_to_sql_rag.Contracts.Records.{MetricRecord}
use text_to_sql_rag.Contracts.Plan.{SemanticRequest}
use text_to_sql_rag.Catalog.Service.{CatalogService, get}
use text_to_sql_rag.Semantics.Metrics.{MetricCache, resolve, tables_of}
use text_to_sql_rag.Semantics.Rules.{ClosureResult, close}
use text_to_sql_rag.Relationships.Planner.{JoinPlan, plan, is_additive_safe}
use text_to_sql_rag.Planning.Binder.{
  bind_dimensions, bind_filters, coverage_of, gather, close_bound, join_bound, sweep, plan_of, bind,
}
use text_to_sql_rag.Planning.Binder.Parts.{
  Bound, BindResult, metric_ref, single_metric, bind_time, seed_columns, seed_of, check_rules,
  contract_columns, check_order, dimension_refs, refuse_requirements,
}

module _ (service : CatalogService) (scope : TrustedScope) where
  -- The local variables behind the resolution of the request.
  pub record IsGathered (isoformat : ℕ → Text) (cache : MetricCache) (request : SemanticRequest)
      (b : Bound) (cache' : MetricCache) : Type 0 where
    pub id : Text
    pub metric : MetricRecord
    pub single : single_metric request.metric_ids ≡ ok id
    pub found : get service.snapshot.metrics id ≡ ok metric
    pub ref : b.ref ≡ metric_ref metric
    pub resolved : resolve service scope cache b.ref ≡ ok (b.closure, cache')
    pub dimensions :
        bind_dimensions service scope b.closure.metric request.dimension_ids ≡ ok b.dimensions
    pub time : bind_time b.closure.metric request.time_range request.time_grain ≡ ok b.time
    pub filters : bind_filters service scope request.filters ≡ ok b.filters
    pub coverage : b.coverage ≡ coverage_of service scope isoformat id b.ref request b.dimensions

  pub gather-IsGathered :
      (isoformat : ℕ → Text) (cache cache' : MetricCache) (request : SemanticRequest) (b : Bound)
      → gather service scope isoformat cache request ≡ ok (b, cache')
      → IsGathered isoformat cache request b cache'
  unfolding gather
  gather-IsGathered isoformat cache cache' request b h =
      let (id, single, h1) = >>=-eq-ok (single_metric request.metric_ids) _ h in
      let (m, found, h2) = >>=-eq-ok (get service.snapshot.metrics id) _ h1 in
      let (c, resolved, h3) = >>=-eq-ok (resolve service scope cache (metric_ref m)) _ h2 in
      let (dims, dimensions, h4) =
        >>=-eq-ok (bind_dimensions service scope c.0.metric request.dimension_ids) _ h3 in
      let (t, time, h5) =
        >>=-eq-ok (bind_time c.0.metric request.time_range request.time_grain) _ h4 in
      let (fs, filters, done) = >>=-eq-ok (bind_filters service scope request.filters) _ h5 in
      subst (λ q. IsGathered isoformat cache request q.0 q.1) (ok-injective done)
        (record {
          id = id;
          metric = m;
          single = single;
          found = found;
          ref = refl;
          resolved = resolved;
          dimensions = dimensions;
          time = time;
          filters = filters;
          coverage = refl;
        })

  -- The closure of the rules of a bound request.
  pub record IsClosing (b : Bound) (rules : ClosureResult) : Type 0 where
    pub tables : List Text
    pub parents : tables_of (seed_columns b) ≡ ok tables
    pub closed : close service scope (seed_of b tables) ≡ ok rules
    pub required : check_rules b.closure.metric.required_rule_refs rules.applied_rule_refs ≡ ok tt

  pub close_bound-IsClosing :
      (b : Bound) (rules : ClosureResult)
      → close_bound service scope b ≡ ok rules
      → IsClosing b rules
  unfolding close_bound
  close_bound-IsClosing b rules h =
      let (tables, parents, h1) = >>=-eq-ok (tables_of (seed_columns b)) _ h in
      let (r, closed, h2) = >>=-eq-ok (close service scope (seed_of b tables)) _ h1 in
      let (_, settled, h3) = >>=-eq-ok (refuse_requirements r.semantic_requirements) _ h2 in
      let (_, required, done) =
        >>=-eq-ok (check_rules b.closure.metric.required_rule_refs r.applied_rule_refs) _ h3 in
      subst (λ q. IsClosing b q) (ok-injective done)
        (record { tables = tables; parents = parents; closed = closed; required = required })

  pub record IsJoined (b : Bound) (rules : ClosureResult) (joins : JoinPlan) : Type 0 where
    pub planned :
        plan service scope b.closure.metric.base_table rules.tables
          (dimension_refs b.dimensions ++ rules.relationship_refs)
          true
        ≡ ok joins
    pub safe : is_additive_safe joins ≡ true

  pub join_bound-IsJoined :
      (b : Bound) (rules : ClosureResult) (joins : JoinPlan)
      → join_bound service scope b rules ≡ ok joins
      → IsJoined b rules joins
  unfolding join_bound
  join_bound-IsJoined b rules joins h =
      let (j, planned, done) =
        >>=-eq-ok
          (plan service scope b.closure.metric.base_table rules.tables
            (dimension_refs b.dimensions ++ rules.relationship_refs) true)
          _ h in
      elim (Bool-cases (is_additive_safe j)) [
        | inl safe ↦
            let done' = rw safe at done in
            subst (λ q. IsJoined b rules q) (ok-injective done')
              (record { planned = planned; safe = safe })
        | inr unsafe ↦ let done' = rw unsafe at done in cc
      ]

  -- All steps of a binding.
  pub record IsBound (isoformat : ℕ → Text) (cache : MetricCache) (request : SemanticRequest)
      (plan_id : Text) (plan_revision : ℕ) (r : BindResult) (cache' : MetricCache) : Type 0 where
    pub b : Bound
    pub gathered : IsGathered isoformat cache request b cache'
    pub closing : IsClosing b r.closure
    pub joined : IsJoined b r.closure r.join_plan
    pub swept : sweep service scope b r.closure r.join_plan ≡ ok tt
    pub sorted : check_order request.order_by (contract_columns b) ≡ ok tt
    pub planned :
        r.plan ≡ plan_of service scope request plan_id plan_revision b r.closure r.join_plan

  pub bind-IsBound :
      (isoformat : ℕ → Text) (cache cache' : MetricCache) (request : SemanticRequest)
      (plan_id : Text) (plan_revision : ℕ) (r : BindResult)
      → bind service scope isoformat cache request plan_id plan_revision ≡ ok (r, cache')
      → IsBound isoformat cache request plan_id plan_revision r cache'
  unfolding bind
  bind-IsBound isoformat cache cache' request plan_id plan_revision r h =
      let ((b, c), gathered, h1) = >>=-eq-ok (gather service scope isoformat cache request) _ h in
      let (rules, closing, h2) = >>=-eq-ok (close_bound service scope b) _ h1 in
      let (joins, joined, h3) = >>=-eq-ok (join_bound service scope b rules) _ h2 in
      let (_, swept, h4) = >>=-eq-ok (sweep service scope b rules joins) _ h3 in
      let (_, sorted, done) = >>=-eq-ok (check_order request.order_by (contract_columns b)) _ h4 in
      subst (λ q. IsBound isoformat cache request plan_id plan_revision q.0 q.1) (ok-injective done)
        (record {
          b = b;
          gathered = gather-IsGathered isoformat cache c request b gathered;
          closing = close_bound-IsClosing b rules closing;
          joined = join_bound-IsJoined b rules joins joined;
          swept = swept;
          sorted = sorted;
          planned = refl;
        })

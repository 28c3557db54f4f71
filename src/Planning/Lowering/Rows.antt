-- ===== src/Planning/Lowering/Rows.antt =====
-- Which rows and groups a logical plan keeps, against what the bound plan asks for.
use text_to_sql_rag.Prelude.{
  ◌≡◌, ◌∙◌, refl, sym, ap, true, false, ◌&&◌, Bool, Option, none, some, List, [], ◌∷◌, ◌++◌, arith,
  Text, text, contains, concat_map, map, list_eq, nat_eq, if◌then◌else◌, all_of, any_of,
  starts_with,
}
use text_to_sql_rag.Contracts.Errors.{ok, >>=-eq-ok, ok-injective}
use text_to_sql_rag.Contracts.Scope.{TrustedScope}
use text_to_sql_rag.Contracts.Expressions.{Predicate, Operand, CompareOp, comparison}
use text_to_sql_rag.Contracts.Records.{TableRecord, before_aggregation, after_aggregation}
use text_to_sql_rag.Contracts.Plan.{BoundSemanticPlan, BoundTimeSpec, Obligation, LogicalPlan}
use text_to_sql_rag.Catalog.Service.{CatalogService}
use text_to_sql_rag.Relationships.Planner.{JoinPlan}
use text_to_sql_rag.Planning.Lowering.{lower, tenancy, scanned, scan_of, lower_joins}
use text_to_sql_rag.Planning.Lowering.Parts.{
  assign_aliases, tenant_predicates, tenant_tag, isolate, needs_tenant, time_predicates, optional,
  place, placed,
}

-- `holds` tells whether a predicate of the plan is true of the row, or of the group, that is looked at.
module _ (holds : Predicate → Bool) where
  abbrev pub holds_if_any : Option Predicate → Bool
  holds_if_any none = true
  holds_if_any (some p) = holds p

  -- The key equals the parameter of the tenant.
  abbrev pub equals_tenant : Text → Bool
  equals_tenant key =
      holds (comparison CompareOp.eq (Operand.column key) (Operand.parameter (text "p_tenant")))

  -- The row is one of the tenant, on a table that has tenants.
  abbrev pub is_of_tenant : TableRecord → Bool
  is_of_tenant t =
      if contains (text "tenant_scoped") t.tags
      then elim t.tenant_key [ none ↦ false | some k ↦ equals_tenant k ]
      else true

  -- An obligation of the plan comes from a rule of tenancy.
  abbrev pub asks_for_tenant : BoundSemanticPlan → Bool
  asks_for_tenant p =
      any_of (λ o. starts_with o.rule_ref (text "security.tenant_scope")) p.obligations

  -- Not before the start of the period, and before its end.
  abbrev pub is_in_time : Option BoundTimeSpec → Bool
  is_in_time none = true
  is_in_time (some t) =
      holds (
        comparison CompareOp.gte (Operand.column t.column)
          (Operand.parameter (text "p_time_start")))
      && holds (
          comparison CompareOp.lt (Operand.column t.column) (Operand.parameter (text "p_time_end")))

  -- An obligation on rows, if `before`, and one on groups otherwise.
  abbrev pub is_met : Bool → Obligation → Bool
  is_met true o = elim o.placement [
    | before_aggregation ↦ holds_if_any o.predicate
    | after_aggregation ↦ true
  ]
  is_met false o = elim o.placement [
    | before_aggregation ↦ true
    | after_aggregation ↦ holds_if_any o.predicate
  ]

  -- What the bound plan asks of a row of the scanned tables.
  abbrev pub is_wanted : List TableRecord → BoundSemanticPlan → Bool
  is_wanted tables p =
      (if asks_for_tenant p then all_of is_of_tenant tables else true)
      && (is_in_time p.time
          && (all_of (λ m. holds_if_any m.population) p.metrics
              && (all_of (is_met true) p.obligations && all_of holds p.filters)))

  all_of-append :
      (ps qs : List Predicate) → all_of holds (ps ++ qs) ≡ (all_of holds ps && all_of holds qs)
  all_of-append [] qs = refl
  all_of-append (p ∷ ps) qs = ground (arith, all_of-append ps qs)

  optional-holds : (p : Option Predicate) → all_of holds (optional p) ≡ holds_if_any p
  optional-holds none = refl
  optional-holds (some p) = ground arith

  concat_map-holds :
      {A : Type 0} (f : A → List Predicate) (q : A → Bool) (xs : List A)
      → ((x : A) → all_of holds (f x) ≡ q x)
      → all_of holds (concat_map f xs) ≡ all_of q xs
  concat_map-holds f q [] h = refl
  concat_map-holds f q (x ∷ xs) h =
      ground (arith, all_of-append (f x) (concat_map f xs), h x, concat_map-holds f q xs h)

  place-holds : (before : Bool) (o : Obligation) → all_of holds (place before o) ≡ is_met before o
  place-holds true o = ground (arith, optional-holds o.predicate)
  place-holds false o = ground (arith, optional-holds o.predicate)

  time-holds : (t : Option BoundTimeSpec) → all_of holds (time_predicates t) ≡ is_in_time t
  time-holds none = refl
  time-holds (some t) = ground arith

  isolate-holds :
      (t : TableRecord) (tagged : Bool) (key : Option Text) (here : List Predicate)
      → (if tagged then isolate t key else ok []) ≡ ok here
      → all_of holds here
        ≡ (if tagged then elim key [ none ↦ false | some k ↦ equals_tenant k ] else true)
  unfolding isolate
  isolate-holds t false key here h = ap (all_of holds) (sym (ok-injective h))
  isolate-holds t true none here h = cc
  isolate-holds t true (some []) here h = cc
  isolate-holds t true (some (c ∷ s)) here h =
      ap (all_of holds) (sym (ok-injective h)) ∙ ground arith

  tenant-holds :
      (tables : List TableRecord) (ps : List Predicate)
      → tenant_predicates tables ≡ ok ps
      → all_of holds ps ≡ all_of is_of_tenant tables
  unfolding tenant_predicates
  tenant-holds [] ps h = ap (all_of holds) (sym (ok-injective h))
  tenant-holds (t ∷ ts) ps h =
      let (here, first, more) =
        >>=-eq-ok (if contains tenant_tag t.tags then isolate t t.tenant_key else ok []) _ h in
      let (rest, others, done) = >>=-eq-ok (tenant_predicates ts) _ more in
      ap (all_of holds) (sym (ok-injective done))
      ∙ all_of-append here rest
      ∙ ground (
        arith,
        isolate-holds t (contains tenant_tag t.tags) t.tenant_key here,
        tenant-holds ts rest others,
      )

  needed-holds :
      (needed : Bool) (tables : List TableRecord) (tenant : List Predicate)
      → (if needed then tenant_predicates tables else ok []) ≡ ok tenant
      → all_of holds tenant ≡ (if needed then all_of is_of_tenant tables else true)
  needed-holds true tables tenant h = tenant-holds tables tenant h
  needed-holds false tables tenant h = ap (all_of holds) (sym (ok-injective h))

  where-holds :
      (tables : List TableRecord) (p : BoundSemanticPlan) (tenant : List Predicate)
      → (if needs_tenant p.obligations then tenant_predicates tables else ok []) ≡ ok tenant
      → all_of holds (
          tenant
          ++ (time_predicates p.time
              ++ (concat_map (λ m. optional m.population) p.metrics
                  ++ (placed true p.obligations ++ p.filters))))
        ≡ is_wanted tables p
  unfolding needs_tenant
  where-holds tables p tenant h =
      let populations : List Predicate = concat_map (λ m. optional m.population) p.metrics in
      let rules : List Predicate = placed true p.obligations in
      ground (
        arith,
        all_of-append tenant (time_predicates p.time ++ (populations ++ (rules ++ p.filters))),
        all_of-append (time_predicates p.time) (populations ++ (rules ++ p.filters)),
        all_of-append populations (rules ++ p.filters),
        all_of-append rules p.filters,
        needed-holds (needs_tenant p.obligations) tables tenant h,
        time-holds p.time,
        concat_map-holds (λ m. optional m.population) (λ m. holds_if_any m.population) p.metrics
            (λ m. optional-holds m.population),
        concat_map-holds (place true) (is_met true) p.obligations (place-holds true),
      )

  -- A row passes the condition of a logical plan that is lowered exactly if, where an obligation of the plan comes from a
  -- rule of tenancy, every scanned table that is tagged with tenants has a tenant key, which equals the parameter
  -- p_tenant, the row lies in the period, and the populations of the metrics, the obligations on rows and the filters
  -- of the user are true of it; and a group passes exactly if the obligations on groups are true of it.
  pub lower-is_wanted :
      (service : CatalogService) (scope : TrustedScope) (p : BoundSemanticPlan) (joins : JoinPlan)
      (dialect : Text) (l : LogicalPlan)
      → lower service scope p joins dialect ≡ ok l
      → (tables : List TableRecord) × (scanned service scope
            (joins.base_table ∷ map (λ j. j.to_table) joins.joins)
          ≡ ok tables)
        × (all_of holds l.where_ ≡ is_wanted tables p)
        × (all_of holds l.having ≡ all_of (is_met false) p.obligations)
  unfolding lower tenancy
  lower-is_wanted service scope p joins dialect l h =
      let aliases : List (Text × Text) = assign_aliases joins in
      let (base, h1, m1) = >>=-eq-ok (scan_of service scope p aliases joins.base_table) _ h in
      let (lowered, h2, m2) = >>=-eq-ok (lower_joins service scope p aliases joins.joins) _ m1 in
      let (tenant, h3, done) = >>=-eq-ok (tenancy service scope p joins) _ m2 in
      let (tables, found, asked) =
        >>=-eq-ok (scanned service scope (joins.base_table ∷ map (λ j. j.to_table) joins.joins)) _
          h3 in
      (
        tables,
        found,
        ap (λ x. all_of holds x.where_) (sym (ok-injective done))
            ∙ where-holds tables p tenant asked,
        ap (λ x. all_of holds x.having) (sym (ok-injective done))
            ∙ concat_map-holds (place false) (is_met false) p.obligations (place-holds false),
      )

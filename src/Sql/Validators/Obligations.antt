-- ===== src/Sql/Validators/Obligations.antt =====
-- The gate of obligations of app/sql/validators/suite.py on the plans that app/planning/lowering.py makes.
use text_to_sql_rag.Prelude.{
  ◌≡◌, ◌∙◌, refl, sym, ap, subst, true, false, Option, some, List, [], ◌∷◌, ◌++◌, Text, map, select,
  concat_map, concat_map-append, subset, subset_trans, subset-append_left, subset-append_right,
  list_eq, nat_eq, if◌then◌else◌, Bool-cases, Option-cases, inl, inr, All, All-map, All-both,
  any_of-All, starts_with,
}
use text_to_sql_rag.Contracts.Errors.{Result, ok, Finding, >>=-eq-ok, ok-injective}
use text_to_sql_rag.Contracts.Scope.{TrustedScope}
use text_to_sql_rag.Contracts.Expressions.{Predicate, columns_in}
use text_to_sql_rag.Contracts.Records.{Placement, before_aggregation, after_aggregation}
use text_to_sql_rag.Contracts.Plan.{BoundSemanticPlan, Obligation, ScanOp, JoinOp, LogicalPlan}
use text_to_sql_rag.Catalog.Service.{CatalogService, get, get_table}
use text_to_sql_rag.Relationships.Planner.{JoinPlan, PlannedJoin, relationship_ref}
use text_to_sql_rag.Planning.Lowering.{
  lower, tenancy, scanned, scan_of, lower_join, lower_joins, where_of, logical_of,
}
use text_to_sql_rag.Planning.Lowering.Parts.{
  alias_in, columns_for, join_predicates, assign_aliases, tenant_rule, needs_tenant,
  time_predicates, optional, is_before, place, placed,
}
use text_to_sql_rag.Sql.Validators.Records.{
  each, evidence, isolation, gate_obligations, tenant_tables, scanned_tables, covered, target,
}
use text_to_sql_rag.Sql.Validators.Tenancy.{
  HasTenantKeys, KeyFits, is_tagged, covered-append, tenant_predicates-cover, tenant_tables-found,
  get_table-IsStored, scanned-IsStored, IsStored,
}

each-none :
    {A : Type 0} (f : A → Result (List Finding)) (xs : List A)
    → All (λ x. f x ≡ ok []) xs
    → each f xs ≡ ok []
unfolding each
each-none f [] h = refl
each-none f (x ∷ xs) (h, hs) = rw (h, each-none f xs hs) refl

abbrev columns_of_all : List Predicate → List Text
columns_of_all ps = concat_map columns_in ps

placed_at :
    (at : Placement) (held : Option Predicate) (p : Predicate)
    → held ≡ some p
    → (if is_before at
        then (if is_before at then optional held else [])
        else if is_before at
        then []
        else optional held)
      ≡ p ∷ []
placed_at before_aggregation held p h = ap optional h
placed_at after_aggregation held p h = ap optional h

-- The columns of an obligation are among those of the predicates that are placed where it is.
abbrev IsCovered : List Obligation → Obligation → Type 0
IsCovered os o =
    (p : Predicate)
    → o.predicate ≡ some p
    → subset (columns_in p) (columns_of_all (placed (is_before o.placement) os)) ≡ true

IsCovered-first : (o : Obligation) (os : List Obligation) → IsCovered (o ∷ os) o
IsCovered-first o os p e =
    subst
      (λ ps.
        subset (columns_in p) (columns_of_all (ps ++ placed (is_before o.placement) os)) ≡ true)
      (sym (placed_at o.placement o.predicate p e))
      (subset-append_left (columns_in p) (columns_of_all (placed (is_before o.placement) os)))

IsCovered-later : (o q : Obligation) (os : List Obligation) → IsCovered os q → IsCovered (o ∷ os) q
IsCovered-later o q os h p e =
    let here : List Predicate = place (is_before q.placement) o in
    let rest : List Predicate = placed (is_before q.placement) os in
    subst (λ cs. subset (columns_in p) cs ≡ true) (sym (concat_map-append columns_in here rest))
      (subset_trans (columns_in p) (columns_of_all rest)
        (columns_of_all here ++ columns_of_all rest) (h p e)
        (subset-append_right (columns_of_all here) (columns_of_all rest)))

placed-IsCovered : (os : List Obligation) → All (IsCovered os) os
placed-IsCovered [] = tt
placed-IsCovered (o ∷ os) = (
  IsCovered-first o os,
  All-map (IsCovered os) (IsCovered (o ∷ os)) os (λ q. IsCovered-later o q os)
      (placed-IsCovered os),
)

-- The columns of the condition on rows, clause by clause.
columns-where_of :
    (service : CatalogService) (scope : TrustedScope) (plan : BoundSemanticPlan)
    (tenant : List Predicate)
    → columns_of_all (where_of service scope plan tenant)
      ≡ columns_of_all tenant
        ++ (columns_of_all (time_predicates plan.time)
            ++ (columns_of_all (concat_map (λ m. optional m.population) plan.metrics)
                ++ (columns_of_all (placed true plan.obligations) ++ columns_of_all plan.filters)))
columns-where_of service scope plan tenant =
    let time : List Predicate = time_predicates plan.time in
    let populations : List Predicate = concat_map (λ m. optional m.population) plan.metrics in
    let rules : List Predicate = placed true plan.obligations in
    concat_map-append columns_in tenant (time ++ (populations ++ (rules ++ plan.filters)))
    ∙ ap (λ x. columns_of_all tenant ++ x)
        (concat_map-append columns_in time (populations ++ (rules ++ plan.filters))
          ∙ ap (λ x. columns_of_all time ++ x)
              (concat_map-append columns_in populations (rules ++ plan.filters)
                ∙ ap (λ x. columns_of_all populations ++ x)
                    (concat_map-append columns_in rules plan.filters)))

-- What stands fourth stands in the whole.
subset-fourth : (as_ bs cs ds es : List Text) → subset ds (as_ ++ (bs ++ (cs ++ (ds ++ es)))) ≡ true
subset-fourth as_ bs cs ds es =
    subset_trans ds (cs ++ (ds ++ es)) (as_ ++ (bs ++ (cs ++ (ds ++ es))))
      (subset_trans ds (ds ++ es) (cs ++ (ds ++ es)) (subset-append_left ds es)
        (subset-append_right cs (ds ++ es)))
      (subset_trans (cs ++ (ds ++ es)) (bs ++ (cs ++ (ds ++ es)))
        (as_ ++ (bs ++ (cs ++ (ds ++ es)))) (subset-append_right bs (cs ++ (ds ++ es)))
        (subset-append_right as_ (bs ++ (cs ++ (ds ++ es)))))

module _ (service : CatalogService) where
  -- A gate of obligations finds nothing where there is evidence.
  evidence-none :
      (l : LogicalPlan) (where_ having : List Text) (o : Obligation)
      → ((p : Predicate)
          → o.predicate ≡ some p
          → subset (columns_in p) (target where_ having o.placement) ≡ true)
      → (starts_with o.rule_ref tenant_rule ≡ true → isolation service l where_ o ≡ ok [])
      → evidence service l where_ having o ≡ ok []
  unfolding evidence
  evidence-none l where_ having o present isolated = elim (Option-cases o.predicate) [
    | inr (p, e) ↦ rw (e, present p e) refl
    | inl e ↦ elim (Bool-cases (starts_with o.rule_ref tenant_rule)) [
      | inl tenant ↦ rw (e, tenant) (isolated tenant)
      | inr other ↦ rw (e, other) refl
    ]
  ]

  isolation-none :
      (l : LogicalPlan) (where_ needs : List Text) (o : Obligation)
      → tenant_tables service (scanned_tables l) ≡ ok needs
      → subset needs (covered service where_) ≡ true
      → isolation service l where_ o ≡ ok []
  unfolding isolation
  isolation-none l where_ needs o found within = rw (found, within) refl

  module _ (scope : TrustedScope) (keys : HasTenantKeys service) where
    scan_of-table :
        (plan : BoundSemanticPlan) (aliases : List (Text × Text)) (id : Text) (s : ScanOp)
        → scan_of service scope plan aliases id ≡ ok s
        → s.table_id ≡ id
    unfolding scan_of
    scan_of-table plan aliases id s h =
        let (t, found, h1) = >>=-eq-ok (get_table service scope id) _ h in
        let (a, h2, h3) = >>=-eq-ok (alias_in aliases t.id) _ h1 in
        let (cs, h4, done) = >>=-eq-ok (columns_for plan t.id) _ h3 in
        ap (λ x. x.table_id) (sym (ok-injective done))
        ∙ (get_table-IsStored service scope keys id t found).0

    lower_join-table :
        (plan : BoundSemanticPlan) (aliases : List (Text × Text)) (j : PlannedJoin) (k : JoinOp)
        → lower_join service scope plan aliases j ≡ ok k
        → k.right.table_id ≡ j.to_table
    unfolding lower_join
    lower_join-table plan aliases j k h =
        let (t, h1, m1) = >>=-eq-ok (get_table service scope j.to_table) _ h in
        let (a, h2, m2) = >>=-eq-ok (alias_in aliases j.from_table) _ m1 in
        let (b, h3, m3) = >>=-eq-ok (alias_in aliases j.to_table) _ m2 in
        let (s, h4, m4) = >>=-eq-ok (scan_of service scope plan aliases j.to_table) _ m3 in
        let (d, h5, done) =
          >>=-eq-ok (join_predicates (relationship_ref j.relationship) j.relationship.predicates) _
            m4 in
        ap (λ x. x.right.table_id) (sym (ok-injective done))
        ∙ scan_of-table plan aliases j.to_table s h4

    lower_joins-tables :
        (plan : BoundSemanticPlan) (aliases : List (Text × Text)) (js : List PlannedJoin)
        (ks : List JoinOp)
        → lower_joins service scope plan aliases js ≡ ok ks
        → map (λ k. k.right.table_id) ks ≡ map (λ j. j.to_table) js
    unfolding lower_joins
    lower_joins-tables plan aliases [] ks h =
        ap (map (λ k. k.right.table_id)) (sym (ok-injective h))
    lower_joins-tables plan aliases (j ∷ js) ks h =
        let (k, first, m) = >>=-eq-ok (lower_join service scope plan aliases j) _ h in
        let (rest, more, done) = >>=-eq-ok (lower_joins service scope plan aliases js) _ m in
        ap (map (λ k. k.right.table_id)) (sym (ok-injective done))
        ∙ ap (λ x. x ∷ map (λ k. k.right.table_id) rest) (lower_join-table plan aliases j k first)
        ∙ ap (λ x. j.to_table ∷ x) (lower_joins-tables plan aliases js rest more)

    -- Where an obligation asks for tenancy, the tagged tables are covered.
    tenancy-covers :
        (plan : BoundSemanticPlan) (joins : JoinPlan) (tenant : List Predicate)
        → tenancy service scope plan joins ≡ ok tenant
        → needs_tenant plan.obligations ≡ true
        → (needs : List Text) × (tenant_tables service
              (joins.base_table ∷ map (λ j. j.to_table) joins.joins)
            ≡ ok needs)
          × (subset needs (covered service (columns_of_all tenant)) ≡ true)
    unfolding tenancy
    tenancy-covers plan joins tenant h asked =
        let ids : List Text = joins.base_table ∷ map (λ j. j.to_table) joins.joins in
        let (ts, found, h1) = >>=-eq-ok (scanned service scope ids) _ h in
        let h2 = rw asked at h1 in
        let (names, stored) = scanned-IsStored service scope keys ids ts found in
        (
          map (λ t. t.id) (select is_tagged ts),
          ap (tenant_tables service) (sym names)
              ∙ tenant_tables-found service ts (
                  All-map (IsStored service scope keys)
                    (λ t. get service.snapshot.tables t.id ≡ ok t) ts (λ t s. s.0) stored),
          tenant_predicates-cover service ts tenant
              (All-map (IsStored service scope keys) (KeyFits service) ts (λ t s. s.1) stored) h2,
        )

    target-covers :
        (plan : BoundSemanticPlan) (tenant : List Predicate) (at : Placement) (cs : List Text)
        → subset cs (columns_of_all (placed (is_before at) plan.obligations)) ≡ true
        → subset cs (
            target
              (columns_of_all (where_of service scope plan tenant))
              (columns_of_all (placed false plan.obligations))
              at)
          ≡ true
    target-covers plan tenant after_aggregation cs h = h
    target-covers plan tenant before_aggregation cs h =
        subset_trans cs (columns_of_all (placed true plan.obligations)) _ h (
          subst (λ x. subset (columns_of_all (placed true plan.obligations)) x ≡ true)
            (sym (columns-where_of service scope plan tenant))
            (subset-fourth (columns_of_all tenant) (columns_of_all (time_predicates plan.time))
              (columns_of_all (concat_map (λ m. optional m.population) plan.metrics))
              (columns_of_all (placed true plan.obligations)) (columns_of_all plan.filters)))

    -- The tenant's predicates stand first.
    where-covers :
        (plan : BoundSemanticPlan) (tenant : List Predicate) (needs : List Text)
        → subset needs (covered service (columns_of_all tenant)) ≡ true
        → subset needs (covered service (columns_of_all (where_of service scope plan tenant)))
          ≡ true
    where-covers plan tenant needs h =
        subst (λ x. subset needs (covered service x) ≡ true)
          (sym (columns-where_of service scope plan tenant))
          (subst (λ x. subset needs x ≡ true)
            (sym (covered-append service (columns_of_all tenant) _))
            (subset_trans needs (covered service (columns_of_all tenant)) _ h
              (subset-append_left (covered service (columns_of_all tenant)) _)))

    logical-gate_obligations :
        (plan : BoundSemanticPlan) (joins : JoinPlan) (dialect : Text) (base : ScanOp)
        (lowered : List JoinOp) (tenant : List Predicate)
        → base.table_id ∷ map (λ k. k.right.table_id) lowered
          ≡ joins.base_table ∷ map (λ j. j.to_table) joins.joins
        → tenancy service scope plan joins ≡ ok tenant
        → gate_obligations service plan (logical_of service scope plan dialect base lowered tenant)
          ≡ ok []
    unfolding gate_obligations needs_tenant
    logical-gate_obligations plan joins dialect base lowered tenant tables isolated =
        let l : LogicalPlan = logical_of service scope plan dialect base lowered tenant in
        let where_ : List Text = columns_of_all l.where_ in
        let having : List Text = columns_of_all l.having in
        each-none (evidence service l where_ having) plan.obligations (
          All-both (IsCovered plan.obligations)
            (λ o. starts_with o.rule_ref tenant_rule ≡ true → needs_tenant plan.obligations ≡ true)
            (λ o. evidence service l where_ having o ≡ ok []) plan.obligations
            (λ o cov asks.
              evidence-none l where_ having o
                (λ p e. target-covers plan tenant o.placement (columns_in p) (cov p e))
                (λ starts.
                  let (needs, found, within) =
                    tenancy-covers plan joins tenant isolated (asks starts) in
                  isolation-none l where_ needs o (ap (tenant_tables service) tables ∙ found)
                    (where-covers plan tenant needs within)))
            (placed-IsCovered plan.obligations)
            (any_of-All (λ o. starts_with o.rule_ref tenant_rule) plan.obligations))

    -- Whatever bound plan is lowered, the gate of obligations finds nothing in the logical plan, if every table of the
    -- catalog stands under its own id and its tenant key, if any, is one of its columns and marked as a tenant key.
    pub lower-gate_obligations :
        (plan : BoundSemanticPlan) (joins : JoinPlan) (dialect : Text) (l : LogicalPlan)
        → lower service scope plan joins dialect ≡ ok l
        → gate_obligations service plan l ≡ ok []
    unfolding lower
    lower-gate_obligations plan joins dialect l h =
        let (base, h1, m1) =
          >>=-eq-ok (scan_of service scope plan (assign_aliases joins) joins.base_table) _ h in
        let (lowered, h2, m2) =
          >>=-eq-ok (lower_joins service scope plan (assign_aliases joins) joins.joins) _ m1 in
        let (tenant, h3, done) = >>=-eq-ok (tenancy service scope plan joins) _ m2 in
        ap (gate_obligations service plan) (sym (ok-injective done))
        ∙ logical-gate_obligations plan joins dialect base lowered tenant
            (ap (λ x. x ∷ map (λ k. k.right.table_id) lowered)
                (scan_of-table plan (assign_aliases joins) joins.base_table base h1)
              ∙ ap (λ x. joins.base_table ∷ x)
                  (lower_joins-tables plan (assign_aliases joins) joins.joins lowered h2))
            h3

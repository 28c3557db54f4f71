-- ===== src/Sql/Validators/Guarantees.antt =====
-- What a passed report of app/sql/validators/suite.py guarantees: of the text, of the authority of the principal, of the
-- obligations, and of the metrics.
use text_to_sql_rag.Prelude.{
  arith, ◌≡◌, ◌∙◌, ap, true, not, none, some, List, [], ◌∷◌, Text, text, any_of, All, All-map,
  contains, list_eq, nat_eq, option_eq, ◌==◌, eq_of_==, length, same_set, concat_map, lower,
}
use text_to_sql_rag.Contracts.Errors.{
  ok, Finding, >>=-eq-ok, ok-injective, unsafe_query, compiler_defect, validation_failed,
}
use text_to_sql_rag.Contracts.Scope.{TrustedScope}
use text_to_sql_rag.Contracts.Expressions.{columns_in, predicate_eq, measure_eq}
use text_to_sql_rag.Contracts.Records.{MetricRecord}
use text_to_sql_rag.Contracts.Plan.{BoundMetric, BoundSemanticPlan, CompiledQuery, LogicalPlan}
use text_to_sql_rag.Catalog.Service.{CatalogService, get_pinned}
use text_to_sql_rag.Sql.Compiler.Emission.{BoundValue}
use text_to_sql_rag.Sql.Validators.Tree.{
  table_findings, gate_read_only, sql_aliases, columns_of, gate_allowed_nodes, gate_functions,
  gate_parameters, gate_tables, gate_columns, column_findings, output_aliases,
}
use text_to_sql_rag.Sql.Validators.Nodes.{
  Sqlglot, is_blocking, blocked, allowed_nodes, call_findings, node_findings,
}
use text_to_sql_rag.Sql.Validators.Records.{
  each, gate_obligations, evidence, metric_findings, gate_grain,
}
use text_to_sql_rag.Sql.Validators.Evidence.{gate_obligations_in_sql}
use text_to_sql_rag.Sql.Validators.Clean.{
  IsClean, IsPassed, IsClean-append, IsClean-blocked, IsClean-passed, IsClean-concat_map,
  ok-IsPassed, each-IsPassed,
}
use text_to_sql_rag.Sql.Validators.Parsed.{
  IsCallable, call_findings-IsClean, node_findings-IsClean, IsScannable, table_findings-IsClean,
}
use text_to_sql_rag.Sql.Validators.Aliases.{
  IsDeclared, IsNamed, column_findings-IsDeclared, column_findings-IsNamed,
}
use text_to_sql_rag.Sql.Validators.Evident.{IsEvident, evidence-IsPassed}
use text_to_sql_rag.Sql.Validators.Allowed.{IsAllowed, gate_authorization-IsPassed}
use text_to_sql_rag.Sql.Validators.Passed.{IsSafeText, IsAccepted, validate-IsAccepted}
use text_to_sql_rag.Sql.Validators.{validate, passed}

-- There are as many references as metrics, and pair by pair the metric of the plan is the published record.
abbrev pub IsPublished : CatalogService → List BoundMetric → List Text → Type 0
IsPublished service (b ∷ bs) (ref ∷ refs) =
    ((m : MetricRecord) × (get_pinned (λ r. r.version) service.snapshot.metrics ref ≡ ok m)
      × (b.expression ≡ m.expression)
      × (b.population ≡ m.population)
      × (b.unit ≡ m.unit))
    × IsPublished service bs refs
IsPublished service [] [] = Unit
IsPublished service [] (ref ∷ refs) = ⊥
IsPublished service (b ∷ bs) [] = ⊥

module _ (service : CatalogService) where
  metric_findings-IsClean :
      (bs : List BoundMetric) (refs : List Text) (fs : List Finding)
      → metric_findings service bs refs ≡ ok fs
      → IsClean fs
      → length bs ≡ length refs
      → IsPublished service bs refs
  unfolding metric_findings
  metric_findings-IsClean [] [] fs h c same = tt
  metric_findings-IsClean [] (ref ∷ refs) fs h c same = omega (arith, same)
  metric_findings-IsClean (b ∷ bs) [] fs h c same = omega (arith, same)
  metric_findings-IsClean (b ∷ bs) (ref ∷ refs) fs h c same =
      let (m, published, h1) =
        >>=-eq-ok (get_pinned (λ r. r.version) service.snapshot.metrics ref) _ h in
      let (rest, more, done) = >>=-eq-ok (metric_findings service bs refs) _ h1 in
      let p1 =
        IsClean-append (blocked (not (b.expression == m.expression)) _) _
          (ap (any_of is_blocking) (ok-injective done) ∙ c) in
      let p2 = IsClean-append (blocked (not (b.population == m.population)) _) _ p1.1 in
      let p3 = IsClean-append (blocked (not (b.unit == m.unit)) _) _ p2.1 in
      (
        (
          m,
          published,
          eq_of_== b.expression m.expression (IsClean-passed _ _ _ p1.0),
          eq_of_== b.population m.population (IsClean-passed _ _ _ p2.0),
          eq_of_== b.unit m.unit (IsClean-passed _ _ _ p3.0),
        ),
        metric_findings-IsClean bs refs rest more p3.1 (omega (arith, same)),
      )

module _ (lib : Sqlglot) (service : CatalogService) (scope : TrustedScope)
    (compiled : CompiledQuery BoundValue) (logical : LogicalPlan) (plan : BoundSemanticPlan) where
  text_gates-IsClean :
      (tree : lib.Node)
      → IsAccepted lib service scope compiled logical plan tree
      → IsSafeText lib service.snapshot compiled tree
  unfolding gate_read_only gate_allowed_nodes gate_functions gate_parameters gate_tables
      gate_columns
  text_gates-IsClean tree a =
      let scanned : All (IsScannable lib service.snapshot compiled)
          (lib.find_all (text "Table") tree) =
        All-map (λ n. IsClean (table_findings lib service.snapshot compiled n))
          (IsScannable lib service.snapshot compiled) (lib.find_all (text "Table") tree)
          (table_findings-IsClean lib service.snapshot compiled)
          (IsClean-concat_map (table_findings lib service.snapshot compiled)
            (lib.find_all (text "Table") tree) (ok-IsPassed a.tables)) in
      let columns =
        IsClean-concat_map
          (column_findings lib service.snapshot compiled (sql_aliases lib service.snapshot tree)
            (output_aliases lib tree))
          (lib.find_all (text "Column") tree) (ok-IsPassed a.columns) in
      record {
        is_select = a.is_select;
        reads = IsClean-blocked _ unsafe_query none (ok-IsPassed a.read_only);
        known_nodes =
            All-map (λ n. IsClean (node_findings (lib.class_of n)))
              (λ n. contains (lib.class_of n) allowed_nodes ≡ true) (lib.walk tree)
              (λ n. node_findings-IsClean (lib.class_of n))
              (IsClean-concat_map (λ n. node_findings (lib.class_of n)) (lib.walk tree)
                (ok-IsPassed a.allowed_nodes));
        callable =
            All-map (λ n. IsClean (call_findings (lower (lib.name n))))
              (λ n. IsCallable (lower (lib.name n))) (lib.find_all (text "Anonymous") tree)
              (λ n. call_findings-IsClean (lower (lib.name n)))
              (IsClean-concat_map (λ n. call_findings (lower (lib.name n)))
                (lib.find_all (text "Anonymous") tree) (ok-IsPassed a.functions));
        filled =
            IsClean-passed
              (length (lib.find_all (text "Placeholder") tree) == length compiled.parameter_values)
              compiler_defect none (IsClean-append (blocked _ _) _ (ok-IsPassed a.parameters)).0;
        scannable = scanned;
        declared =
            All-map _ (IsDeclared lib service.snapshot compiled tree)
              (lib.find_all (text "Column") tree)
              (λ n. column_findings-IsDeclared lib service.snapshot compiled tree n _ scanned)
              columns;
        named =
            All-map _ (IsNamed lib tree) (lib.find_all (text "Column") tree)
              (λ n. column_findings-IsNamed lib service.snapshot compiled tree n _) columns;
      }

  -- A report passes only if the text parses to one statement, a SELECT without a node that writes, of known nodes and
  -- permitted functions, with a placeholder for each bound value, that scans only certified tables of the catalog which
  -- the compiled query declares; a column that is qualified by the alias of a table is then a column that the compiled
  -- query declares, of a table that is scanned under this alias, and a column without a qualifier is the alias of a
  -- projection.
  pub validate-IsSafeText :
      passed (validate lib service scope compiled logical plan) ≡ true
      → (tree : lib.Node) × (lib.parse compiled.sql compiled.dialect ≡ some (tree ∷ []))
        × IsSafeText lib service.snapshot compiled tree
  validate-IsSafeText h =
      let (tree, a) = validate-IsAccepted service scope lib compiled logical plan h in
      (tree, a.parsed, text_gates-IsClean tree a)

  -- A report passes only if, of the columns that the compiled query references, the policy lets the principal read those
  -- of the measures of the plan and use the others in predicates, if it lets the principal discover the tables that the
  -- compiled query references and execute the metric that stands before the @ of each reference of the plan, and if the
  -- plan was bound in the policy epoch and the snapshot of the scope.
  pub validate-IsAllowed :
      passed (validate lib service scope compiled logical plan) ≡ true
      → IsAllowed service scope compiled plan
  validate-IsAllowed h =
      let (tree, a) = validate-IsAccepted service scope lib compiled logical plan h in
      gate_authorization-IsPassed service scope compiled plan a.authorization
        (ok-IsPassed a.policy_epoch)

  gate_obligations-IsPassed :
      (where_ having : List Text)
      → IsPassed (each (evidence service logical where_ having) plan.obligations)
      → All (IsEvident service logical where_ having) plan.obligations
  gate_obligations-IsPassed where_ having p =
      All-map (λ o. IsPassed (evidence service logical where_ having o))
        (IsEvident service logical where_ having) plan.obligations
        (evidence-IsPassed service logical where_ having)
        (each-IsPassed (evidence service logical where_ having) plan.obligations p.findings
          p.completes p.clean)

  -- A report passes only if, both in the logical plan and in the text that was parsed, the columns of the predicate of an
  -- obligation are among those of the first clause, if it is placed before the aggregation, and of the second, if after,
  -- and if, where a rule of tenancy asks for an obligation without a predicate, a tenant key of every scanned table that
  -- is tagged with tenants is among the columns of the first clause; of other obligations without a predicate it asks
  -- nothing.
  pub validate-IsEvident :
      passed (validate lib service scope compiled logical plan) ≡ true
      → All
          (IsEvident service logical
            (concat_map columns_in logical.where_)
            (concat_map columns_in logical.having))
          plan.obligations
        × ((tree : lib.Node) × (lib.parse compiled.sql compiled.dialect ≡ some (tree ∷ []))
            × All
                (IsEvident service logical
                  (columns_of lib
                    (sql_aliases lib service.snapshot tree)
                    (lib.arg (text "where") tree))
                  (columns_of lib
                    (sql_aliases lib service.snapshot tree)
                    (lib.arg (text "having") tree)))
                plan.obligations)
  unfolding gate_obligations gate_obligations_in_sql
  validate-IsEvident h =
      let (tree, a) = validate-IsAccepted service scope lib compiled logical plan h in
      (
        gate_obligations-IsPassed _ _ a.obligations,
        (tree, a.parsed, gate_obligations-IsPassed _ _ a.obligations_sql),
      )

  -- If a plan has as many references to metrics as metrics, its report passes only if every metric has the expression,
  -- the population and the unit of the published record that its reference pins, and if the grain of the logical plan
  -- is that of the result contract.
  pub validate-IsPublished :
      length plan.metrics ≡ length plan.metric_refs
      → passed (validate lib service scope compiled logical plan) ≡ true
      → IsPublished service plan.metrics plan.metric_refs
        × (same_set plan.result_contract.grain logical.output_grain ≡ true)
  unfolding gate_grain
  validate-IsPublished paired h =
      let (tree, a) = validate-IsAccepted service scope lib compiled logical plan h in
      (
        metric_findings-IsClean service plan.metrics plan.metric_refs a.metric_integrity.findings
            a.metric_integrity.completes a.metric_integrity.clean paired,
        IsClean-passed (same_set plan.result_contract.grain logical.output_grain) validation_failed
            none (ok-IsPassed a.grain),
      )

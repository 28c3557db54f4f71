-- ===== src/Sql/Validators/Passed.antt =====
-- What a report of app/sql/validators/suite.py that passes means: that every gate completed and found nothing that
-- blocks.
use text_to_sql_rag.Prelude.{
  ◌≡◌, refl, ◌∙◌, ap, Bool, true, false, not, none, some, List, [], ◌∷◌, Text, text, arith, any_of,
  All, Option-cases, Bool-cases, inl, inr, contains, list_eq, nat_eq, ◌==◌, length, lower,
}
use text_to_sql_rag.Contracts.Errors.{Result, ok, err, Finding, compiler_defect, validation_failed}
use text_to_sql_rag.Contracts.Scope.{TrustedScope}
use text_to_sql_rag.Contracts.Plan.{BoundSemanticPlan, CompiledQuery, LogicalPlan}
use text_to_sql_rag.Catalog.Service.{CatalogService, CatalogSnapshot}
use text_to_sql_rag.Sql.Compiler.Emission.{BoundValue}
use text_to_sql_rag.Sql.Validators.Tree.{
  is_one_of, gate_single_statement, gate_read_only, gate_allowed_nodes, gate_functions,
  gate_no_star, gate_parameters, gate_tables, gate_columns, gate_no_cartesian, gate_group_by,
}
use text_to_sql_rag.Sql.Validators.Nodes.{Sqlglot, is_blocking, write_nodes, allowed_nodes}
use text_to_sql_rag.Sql.Validators.Records.{
  gate_authorization, gate_fan_out, gate_grain, gate_joins_approved, gate_metric_integrity,
  gate_obligations, gate_policy_epoch, gate_time,
}
use text_to_sql_rag.Sql.Validators.Evidence.{
  gate_aggregates_in_sql, gate_join_predicates_in_sql, gate_obligations_in_sql,
}
use text_to_sql_rag.Sql.Validators.Clean.{IsClean, IsPassed, IsClean-append, not-IsClean}
use text_to_sql_rag.Sql.Validators.Parsed.{IsCallable, gate_single_statement-IsClean, IsScannable}
use text_to_sql_rag.Sql.Validators.Aliases.{IsDeclared, IsNamed}
use text_to_sql_rag.Sql.Validators.{validate, validate_parsed, run_gates, guarded, gates, passed}

not-false : (b : Bool) → not b ≡ true → b ≡ false
not-false b h = ground arith

guarded-IsPassed :
    (name : Text) (gate : Result (List Finding)) → IsClean (guarded name gate) → IsPassed gate
unfolding guarded
guarded-IsPassed name (ok fs) h = record { findings = fs; completes = refl; clean = h }
guarded-IsPassed name (err e) h = not-IsClean validation_failed (some name) [] h

run_gates-IsPassed :
    (gs : List (Text × Result (List Finding))) → IsClean (run_gates gs) → All (λ g. IsPassed g.1) gs
unfolding run_gates
run_gates-IsPassed [] h = tt
run_gates-IsPassed ((name, gate) ∷ gs) h =
    let parts = IsClean-append (guarded name gate) (run_gates gs) h in
    (guarded-IsPassed name gate parts.0, run_gates-IsPassed gs parts.1)

-- The text that is executed only reads, and what it names is known.
pub record IsSafeText (lib : Sqlglot) (snapshot : CatalogSnapshot)
    (compiled : CompiledQuery BoundValue) (tree : lib.Node) : Type 0 where
  pub is_select : lib.is_instance (text "Select") tree ≡ true
  pub reads : any_of (is_one_of lib write_nodes) (lib.walk tree) ≡ false
  pub known_nodes : All (λ n. contains (lib.class_of n) allowed_nodes ≡ true) (lib.walk tree)
  pub callable : All (λ n. IsCallable (lower (lib.name n))) (lib.find_all (text "Anonymous") tree)
  pub filled :
      (length (lib.find_all (text "Placeholder") tree) == length compiled.parameter_values) ≡ true
  pub scannable : All (IsScannable lib snapshot compiled) (lib.find_all (text "Table") tree)
  pub declared : All (IsDeclared lib snapshot compiled tree) (lib.find_all (text "Column") tree)
  pub named : All (IsNamed lib tree) (lib.find_all (text "Column") tree)

-- Every gate completed, and nothing that it found blocks.
pub record IsAccepted (lib : Sqlglot) (service : CatalogService) (scope : TrustedScope)
    (compiled : CompiledQuery BoundValue) (logical : LogicalPlan) (plan : BoundSemanticPlan)
    (tree : lib.Node) : Type 0 where
  pub parsed : lib.parse compiled.sql compiled.dialect ≡ some (tree ∷ [])
  pub is_select : lib.is_instance (text "Select") tree ≡ true
  pub read_only : IsPassed (ok (gate_read_only lib tree))
  pub allowed_nodes : IsPassed (ok (gate_allowed_nodes lib tree))
  pub functions : IsPassed (ok (gate_functions lib tree))
  pub no_star : IsPassed (ok (gate_no_star lib tree))
  pub parameters : IsPassed (ok (gate_parameters lib tree compiled))
  pub tables : IsPassed (ok (gate_tables lib service.snapshot tree compiled))
  pub columns : IsPassed (ok (gate_columns lib service.snapshot tree compiled))
  pub no_cartesian : IsPassed (ok (gate_no_cartesian lib tree))
  pub joins_approved : IsPassed (ok (gate_joins_approved service scope logical))
  pub join_predicates_sql :
      IsPassed (ok (gate_join_predicates_in_sql lib service scope tree logical))
  pub aggregates_sql : IsPassed (ok (gate_aggregates_in_sql lib tree plan))
  pub authorization : IsPassed (gate_authorization service scope compiled plan)
  pub metric_integrity : IsPassed (gate_metric_integrity service plan)
  pub obligations : IsPassed (gate_obligations service plan logical)
  pub obligations_sql : IsPassed (gate_obligations_in_sql lib service tree plan logical)
  pub grain : IsPassed (ok (gate_grain logical plan))
  pub group_by : IsPassed (ok (gate_group_by lib tree))
  pub time : IsPassed (gate_time service plan)
  pub fan_out : IsPassed (ok (gate_fan_out logical plan))
  pub policy_epoch : IsPassed (ok (gate_policy_epoch plan scope))

module _ (service : CatalogService) (scope : TrustedScope) where
  validate_parsed-IsPassed :
      (lib : Sqlglot) (compiled : CompiledQuery BoundValue) (logical : LogicalPlan)
      (plan : BoundSemanticPlan) (parsed : List lib.Node)
      → IsClean (validate_parsed lib service scope compiled logical plan parsed)
      → (tree : lib.Node) × (parsed ≡ tree ∷ [])
        × (lib.is_instance (text "Select") tree ≡ true)
        × All (λ g. IsPassed g.1) (gates lib service scope compiled logical plan tree)
  unfolding validate_parsed
  validate_parsed-IsPassed lib compiled logical plan parsed h =
      elim (Bool-cases (any_of is_blocking (gate_single_statement lib parsed))) [
        | inl blocks ↦ let h' = rw (blocks, validate_parsed) at h in absurd (ground (arith))
        | inr clean ↦
            let (tree, one, is) = gate_single_statement-IsClean lib parsed clean in
            let h' = rw (clean, one, validate_parsed) at h in
            (
              tree,
              one,
              is,
              run_gates-IsPassed (gates lib service scope compiled logical plan tree)
                  (IsClean-append _ _ h').1,
            )
      ]

  IsAccepted-intro :
      (lib : Sqlglot) (compiled : CompiledQuery BoundValue) (logical : LogicalPlan)
      (plan : BoundSemanticPlan) (tree : lib.Node)
      → lib.parse compiled.sql compiled.dialect ≡ some (tree ∷ [])
      → lib.is_instance (text "Select") tree ≡ true
      → All (λ g. IsPassed g.1) (gates lib service scope compiled logical plan tree)
      → IsAccepted lib service scope compiled logical plan tree
  IsAccepted-intro lib compiled logical plan tree parsed is all = record {
    parsed = parsed;
    is_select = is;
    read_only = all.0;
    allowed_nodes = all.1.0;
    functions = all.1.1.0;
    no_star = all.1.1.1.0;
    parameters = all.1.1.1.1.0;
    tables = all.1.1.1.1.1.0;
    columns = all.1.1.1.1.1.1.0;
    no_cartesian = all.1.1.1.1.1.1.1.0;
    joins_approved = all.1.1.1.1.1.1.1.1.0;
    join_predicates_sql = all.1.1.1.1.1.1.1.1.1.0;
    aggregates_sql = all.1.1.1.1.1.1.1.1.1.1.0;
    authorization = all.1.1.1.1.1.1.1.1.1.1.1.0;
    metric_integrity = all.1.1.1.1.1.1.1.1.1.1.1.1.0;
    obligations = all.1.1.1.1.1.1.1.1.1.1.1.1.1.0;
    obligations_sql = all.1.1.1.1.1.1.1.1.1.1.1.1.1.1.0;
    grain = all.1.1.1.1.1.1.1.1.1.1.1.1.1.1.1.0;
    group_by = all.1.1.1.1.1.1.1.1.1.1.1.1.1.1.1.1.0;
    time = all.1.1.1.1.1.1.1.1.1.1.1.1.1.1.1.1.1.0;
    fan_out = all.1.1.1.1.1.1.1.1.1.1.1.1.1.1.1.1.1.1.0;
    policy_epoch = all.1.1.1.1.1.1.1.1.1.1.1.1.1.1.1.1.1.1.1.0;
  }

  pub validate-IsAccepted :
      (lib : Sqlglot) (compiled : CompiledQuery BoundValue) (logical : LogicalPlan)
      (plan : BoundSemanticPlan)
      → passed (validate lib service scope compiled logical plan) ≡ true
      → (tree : lib.Node) × IsAccepted lib service scope compiled logical plan tree
  unfolding validate passed
  validate-IsAccepted lib compiled logical plan h =
      elim (Option-cases (lib.parse compiled.sql compiled.dialect)) [
        | inl unparsed ↦
            let h' = rw (unparsed, validate) at h in
            not-IsClean compiler_defect none [] (not-false _ h')
        | inr (parsed, e) ↦
            let h' = rw (e, validate) at h in
            let (tree, one, is, all) =
              validate_parsed-IsPassed lib compiled logical plan parsed (not-false _ h') in
            (tree, IsAccepted-intro lib compiled logical plan tree (e ∙ ap some one) is all)
      ]

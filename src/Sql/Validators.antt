-- ===== src/Sql/Validators.antt =====
-- app/sql/validators/suite.py: the report, and the suite that runs every gate on the plan and on the parsed text.
pub mod Nodes
pub mod Evidence
pub mod Tree
pub mod Records
pub mod Clean
pub mod Parsed
pub mod Aliases
pub mod Allowed
pub mod Passed
pub mod Evident
pub mod Guarantees
pub mod Pipeline
pub mod Conjuncts
pub mod Tenancy
pub mod Obligations
use text_to_sql_rag.Prelude.{
  Bool, not, Option, none, some, List, [], ◌∷◌, ◌++◌, Text, text, any_of, select, ◌==◌,
  if◌then◌else◌,
}
use text_to_sql_rag.Contracts.Errors.{
  Result, ok, err, Finding, finding_of, Severity, warn, compiler_defect, validation_failed,
  severity_eq,
}
use text_to_sql_rag.Contracts.Scope.{TrustedScope}
use text_to_sql_rag.Contracts.Plan.{BoundSemanticPlan, CompiledQuery, LogicalPlan}
use text_to_sql_rag.Catalog.Service.{CatalogService}
use text_to_sql_rag.Sql.Compiler.Emission.{BoundValue}
use Tree.{
  gate_single_statement, gate_read_only, gate_allowed_nodes, gate_functions, gate_no_star,
  gate_parameters, gate_tables, gate_columns, gate_no_cartesian, gate_group_by,
}
use Nodes.{Sqlglot, is_blocking}
use Records.{
  gate_joins_approved, gate_authorization, gate_metric_integrity, gate_obligations, gate_grain,
  gate_time, gate_fan_out, gate_policy_epoch,
}
use Evidence.{gate_join_predicates_in_sql, gate_aggregates_in_sql, gate_obligations_in_sql}

pub record ValidationReport : Type 0 where
  pub findings : List Finding

unfoldable pub passed : ValidationReport → Bool
passed report = not (any_of is_blocking report.findings)

unfoldable pub blocking : ValidationReport → List Finding
blocking report = select is_blocking report.findings

unfoldable pub warnings : ValidationReport → List Finding
warnings report = select (λ f. f.severity == warn) report.findings

-- A gate that cannot complete has not proven anything.
unfoldable pub guarded : Text → Result (List Finding) → List Finding
guarded name (ok findings) = findings
guarded name (err e) = finding_of validation_failed (some name) ∷ []

-- The loop over the gates.
unfoldable pub run_gates : List (Text × Result (List Finding)) → List Finding
unfolding guarded
run_gates [] = []
run_gates ((name, gate) ∷ gates) = guarded name gate ++ run_gates gates

module _ (lib : Sqlglot) (service : CatalogService) (scope : TrustedScope)
    (compiled : CompiledQuery BoundValue) (logical : LogicalPlan) (plan : BoundSemanticPlan) where
  open lib use {Node, parse}

  abbrev pub gates : Node → List (Text × Result (List Finding))
  gates tree =
      (text "read_only", ok (gate_read_only lib tree))
      ∷ (text "allowed_nodes", ok (gate_allowed_nodes lib tree))
      ∷ (text "functions", ok (gate_functions lib tree))
      ∷ (text "no_star", ok (gate_no_star lib tree))
      ∷ (text "parameters", ok (gate_parameters lib tree compiled))
      ∷ (text "tables", ok (gate_tables lib service.snapshot tree compiled))
      ∷ (text "columns", ok (gate_columns lib service.snapshot tree compiled))
      ∷ (text "no_cartesian", ok (gate_no_cartesian lib tree))
      ∷ (text "joins_approved", ok (gate_joins_approved service scope logical))
      ∷ (
        text "join_predicates_sql",
        ok (gate_join_predicates_in_sql lib service scope tree logical),
      )
      ∷ (text "aggregates_sql", ok (gate_aggregates_in_sql lib tree plan))
      ∷ (text "authorization", gate_authorization service scope compiled plan)
      ∷ (text "metric_integrity", gate_metric_integrity service plan)
      ∷ (text "obligations", gate_obligations service plan logical)
      ∷ (text "obligations_sql", gate_obligations_in_sql lib service tree plan logical)
      ∷ (text "grain", ok (gate_grain logical plan))
      ∷ (text "group_by", ok (gate_group_by lib tree))
      ∷ (text "time", gate_time service plan)
      ∷ (text "fan_out", ok (gate_fan_out logical plan))
      ∷ (text "policy_epoch", ok (gate_policy_epoch plan scope))
      ∷ []

  -- Behind the first gate there is one statement; the loop is empty where the list is.
  unfoldable pub validate_parsed : List Node → List Finding
  unfolding gate_single_statement run_gates
  validate_parsed parsed =
      let first = gate_single_statement lib parsed in
      if any_of is_blocking first
      then first
      else elim parsed [ [] ↦ first | tree ∷ rest ↦ first ++ run_gates (gates tree) ]

  unfoldable pub validate : ValidationReport
  unfolding validate_parsed
  validate = elim (parse compiled.sql compiled.dialect) [
    | none ↦ record { findings = finding_of compiler_defect none ∷ [] }
    | some parsed ↦ record { findings = validate_parsed parsed }
  ]

-- ===== src/Sql/Validators/Parsed.antt =====
-- What the gates of app/sql/validators/suite.py that read the parsed text prove where they do not block.
use text_to_sql_rag.Prelude.{
  ◌≡◌, refl, Bool, true, false, not, Option, none, some, List, [], ◌∷◌, Text, text, Option-cases,
  Bool-cases, inl, inr, contains, list_eq, nat_eq, values,
}
use text_to_sql_rag.Contracts.Errors.{
  Result, ok, err, finding_of, unsafe_query, unresolved_reference,
}
use text_to_sql_rag.Contracts.Records.{TableRecord}
use text_to_sql_rag.Contracts.Plan.{CompiledQuery}
use text_to_sql_rag.Catalog.Service.{CatalogSnapshot}
use text_to_sql_rag.Sql.Compiler.Emission.{BoundValue}
use text_to_sql_rag.Sql.Dialect.{forbidden_functions, supported_functions}
use text_to_sql_rag.Sql.Validators.Tree.{physical_name, table_findings, gate_single_statement}
use text_to_sql_rag.Sql.Validators.Nodes.{
  Sqlglot, blocked, allowed_nodes, table_named, call_findings, node_findings,
}
use text_to_sql_rag.Sql.Validators.Clean.{IsClean, IsClean-append, IsClean-passed, not-IsClean}

-- A function that is called is on the list of the dialect, and not among the forbidden.
pub record IsCallable (called : Text) : Type 0 where
  pub permitted : contains called forbidden_functions ≡ false
  pub supported : contains called supported_functions ≡ true

pub call_findings-IsClean : (called : Text) → IsClean (call_findings called) → IsCallable called
unfolding call_findings
call_findings-IsClean called h = elim (Bool-cases (contains called forbidden_functions)) [
  | inl bad ↦ let h' = rw (bad, call_findings) at h in not-IsClean unsafe_query (some called) [] h'
  | inr fine ↦ elim (Bool-cases (contains called supported_functions)) [
    | inl known ↦ record { permitted = fine; supported = known }
    | inr other ↦
        let h' = rw (fine, other, call_findings) at h in
        not-IsClean unsafe_query (some called) [] h'
  ]
]

pub node_findings-IsClean :
    (class : Text) → IsClean (node_findings class) → contains class allowed_nodes ≡ true
unfolding node_findings
node_findings-IsClean class h = elim (Bool-cases (contains class allowed_nodes)) [
  | inl known ↦ known
  | inr other ↦
      let h' = rw (other, node_findings) at h in not-IsClean unsafe_query (some class) [] h'
]

pub resolved-IsClean :
    {R : Type 0} (r : Result R) (b : Bool) (subject : Option Text)
    → IsClean (elim r [
      | err e ↦ finding_of unresolved_reference subject ∷ []
      | ok x ↦ blocked (not b) (finding_of unresolved_reference subject)
    ])
    → b ≡ true
resolved-IsClean (err e) b subject h = not-IsClean unresolved_reference subject [] h
resolved-IsClean (ok x) b subject h = IsClean-passed b unresolved_reference subject h

module _ (lib : Sqlglot) where
  open lib use {Node, is_instance}

  pub gate_single_statement-IsClean :
      (parsed : List Node)
      → IsClean (gate_single_statement lib parsed)
      → (tree : Node) × (parsed ≡ tree ∷ []) × (is_instance (text "Select") tree ≡ true)
  unfolding gate_single_statement
  gate_single_statement-IsClean [] h = not-IsClean unsafe_query none [] h
  gate_single_statement-IsClean (n ∷ m ∷ ns) h = not-IsClean unsafe_query none [] h
  gate_single_statement-IsClean (n ∷ []) h = elim (Bool-cases (is_instance (text "Select") n)) [
    | inl is ↦ (n, refl, is)
    | inr other ↦ let h' = rw other at h in not-IsClean unsafe_query none [] h'
  ]

  -- The relation of the text is certified, and the compiled query declares it.
  pub record IsScannable (snapshot : CatalogSnapshot) (compiled : CompiledQuery BoundValue)
      (n : Node) : Type 0 where
    pub table : TableRecord
    pub found : table_named (physical_name lib n) (values snapshot.tables) ≡ some table
    pub declared : contains table.id compiled.referenced_tables ≡ true
    pub certified : table.is_certified ≡ true

  pub table_findings-IsClean :
      (snapshot : CatalogSnapshot) (compiled : CompiledQuery BoundValue) (n : Node)
      → IsClean (table_findings lib snapshot compiled n)
      → IsScannable snapshot compiled n
  unfolding table_findings
  table_findings-IsClean snapshot compiled n h =
      elim (Option-cases (table_named (physical_name lib n) (values snapshot.tables))) [
        | inl missing ↦
            let h' = rw (missing, table_findings) at h in
            not-IsClean unresolved_reference (some (physical_name lib n)) [] h'
        | inr (t, found) ↦
            let h' = rw (found, table_findings) at h in
            let parts =
              IsClean-append (blocked (not (contains t.id compiled.referenced_tables)) _) _ h' in
            record {
              table = t;
              found = found;
              declared = IsClean-passed _ _ _ parts.0;
              certified = IsClean-passed _ _ _ parts.1;
            }
      ]

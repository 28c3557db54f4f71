-- ===== src/Sql/Validators/Tree.antt =====
-- app/sql/validators/suite.py: the gates that read the parsed text.
use text_to_sql_rag.Prelude.{
  ℕ, Bool, true, false, not, ◌&&◌, Option, none, some, List, [], ◌∷◌, ◌++◌, Text, text, ◌==◌,
  list_eq, nat_eq, contains, select, length, lower, any_of, concat_map, lookup, insert, values,
  if◌then◌else◌,
}
use text_to_sql_rag.Contracts.Errors.{
  ok, err, Finding, finding_of, unsafe_query, compiler_defect, unresolved_reference,
  unsupported_capability, validation_failed, severity_eq,
}
use text_to_sql_rag.Contracts.Plan.{CompiledQuery}
use text_to_sql_rag.Catalog.Service.{CatalogSnapshot, get}
use text_to_sql_rag.Sql.Compiler.Emission.{BoundValue}
use text_to_sql_rag.Sql.Validators.Nodes.{
  Sqlglot, aggregate_nodes, write_nodes, comparisons, named_parts, dotted, table_named, blocked,
  call_findings, node_findings,
}

module _ (lib : Sqlglot) where
  open lib use {
    Node, class_of, is_instance, walk, find_all, arg, this, expression, expressions, parent, name,
    alias, table, db, catalog_name, is_string,
  }

  abbrev pub is_one_of : List Text → Node → Bool
  is_one_of classes n = any_of (λ c. is_instance c n) classes

  unfoldable pub gate_single_statement : List Node → List Finding
  gate_single_statement (n ∷ []) =
      if is_instance (text "Select") n then [] else finding_of unsafe_query none ∷ []
  gate_single_statement _ = finding_of unsafe_query none ∷ []

  unfoldable pub gate_read_only : Node → List Finding
  gate_read_only tree =
      blocked (any_of (is_one_of write_nodes) (walk tree)) (finding_of unsafe_query none)

  unfoldable pub gate_allowed_nodes : Node → List Finding
  unfolding node_findings
  gate_allowed_nodes tree = concat_map (λ n. node_findings (class_of n)) (walk tree)

  unfoldable pub gate_functions : Node → List Finding
  unfolding call_findings
  gate_functions tree =
      concat_map (λ n. call_findings (lower (name n))) (find_all (text "Anonymous") tree)

  unfoldable pub gate_no_star : Node → List Finding
  gate_no_star tree =
      blocked
        (any_of (λ s. any_of (is_instance (text "Star")) (expressions s))
          (find_all (text "Select") tree))
        (finding_of unsafe_query none)

  abbrev is_inline : Node → Bool
  is_inline n = is_string n && elim (parent n) [ none ↦ false | some p ↦ is_one_of comparisons p ]

  unfoldable pub gate_parameters : Node → CompiledQuery BoundValue → List Finding
  gate_parameters tree compiled =
      blocked
        (not (length (find_all (text "Placeholder") tree) == length compiled.parameter_values))
        (finding_of compiler_defect none)
      ++ concat_map (λ n. blocked (is_inline n) (finding_of unsafe_query (some (name n))))
          (find_all (text "Literal") tree)

  -- The qualified name of a table of the text.
  abbrev pub physical_name : Node → Text
  physical_name n = dotted (named_parts (catalog_name n ∷ db n ∷ name n ∷ []))

  unfoldable pub table_findings : CatalogSnapshot → CompiledQuery BoundValue → Node → List Finding
  unfolding table_named
  table_findings snapshot compiled n =
      elim (table_named (physical_name n) (values snapshot.tables)) [
        | none ↦ finding_of unresolved_reference (some (physical_name n)) ∷ []
        | some t ↦
            blocked (not (contains t.id compiled.referenced_tables))
              (finding_of unresolved_reference (some t.id))
            ++ blocked (not t.is_certified) (finding_of unsupported_capability (some t.id))
      ]

  unfoldable pub gate_tables : CatalogSnapshot → Node → CompiledQuery BoundValue → List Finding
  unfolding table_findings
  gate_tables snapshot tree compiled =
      concat_map (table_findings snapshot compiled) (find_all (text "Table") tree)

  -- The dict from an alias of the text to the table of the catalog.
  unfoldable pub aliases_from :
      CatalogSnapshot → List (Text × Text) → List Node → List (Text × Text)
  unfolding table_named
  aliases_from snapshot aliases [] = aliases
  aliases_from snapshot aliases (n ∷ ns) =
      aliases_from snapshot
        (elim (table_named (physical_name n) (values snapshot.tables)) [
          | none ↦ aliases
          | some t ↦ if alias n == [] then aliases else insert (alias n) t.id aliases
        ])
        ns

  abbrev pub sql_aliases : CatalogSnapshot → Node → List (Text × Text)
  sql_aliases snapshot tree = aliases_from snapshot [] (find_all (text "Table") tree)

  abbrev pub output_aliases : Node → List Text
  output_aliases tree =
      concat_map
        (λ p. if is_instance (text "Alias") p && not (alias p == []) then alias p ∷ [] else [])
        (expressions tree)

  -- A column that the catalog has and the plan declares.
  abbrev declared : CatalogSnapshot → CompiledQuery BoundValue → Text → List Finding
  declared snapshot compiled id = elim (get snapshot.columns id) [
    | err e ↦ finding_of unresolved_reference (some id) ∷ []
    | ok r ↦
        blocked (not (contains id compiled.referenced_columns))
          (finding_of unresolved_reference (some id))
  ]

  unfoldable pub column_findings :
      CatalogSnapshot
      → CompiledQuery BoundValue
      → List (Text × Text)
      → List Text
      → Node
      → List Finding
  column_findings snapshot compiled aliases outputs n =
      if table n == []
      then blocked (not (contains (name n) outputs))
          (finding_of unresolved_reference (some (name n)))
      else elim (lookup (table n) aliases) [
        | none ↦ []
        | some id ↦ declared snapshot compiled (id ++ (b'.' ∷ name n))
      ]

  unfoldable pub gate_columns : CatalogSnapshot → Node → CompiledQuery BoundValue → List Finding
  unfolding column_findings aliases_from
  gate_columns snapshot tree compiled =
      concat_map
        (column_findings snapshot compiled (sql_aliases snapshot tree) (output_aliases tree))
        (find_all (text "Column") tree)

  abbrev is_cartesian : Node → Bool
  is_cartesian n = elim (arg (text "on") n) [
    | some p ↦ false
    | none ↦ elim (arg (text "using") n) [ some p ↦ false | none ↦ true ]
  ]

  unfoldable pub gate_no_cartesian : Node → List Finding
  gate_no_cartesian tree =
      blocked (any_of is_cartesian (find_all (text "Join") tree)) (finding_of unsafe_query none)

  -- `projection.this if isinstance(projection, exp.Alias) else projection`
  abbrev pub inner : Node → Node
  inner p = if is_instance (text "Alias") p then this p else p

  abbrev pub grouped : Node → ℕ
  grouped tree = elim (arg (text "group") tree) [ none ↦ 0 | some g ↦ length (expressions g) ]

  abbrev pub plain_projections : Node → List Node
  plain_projections tree =
      select (λ p. not (any_of (is_one_of aggregate_nodes) (walk (inner p)))) (expressions tree)

  unfoldable pub gate_group_by : Node → List Finding
  gate_group_by tree =
      blocked (not (length (plain_projections tree) == grouped tree))
        (finding_of validation_failed none)

  -- `_columns_of`
  abbrev pub columns_of : List (Text × Text) → Option Node → List Text
  columns_of aliases none = []
  columns_of aliases (some n) =
      concat_map
        (λ c. elim (lookup (table c) aliases) [
          | none ↦ []
          | some id ↦ (id ++ (b'.' ∷ name c)) ∷ []
        ])
        (find_all (text "Column") n)

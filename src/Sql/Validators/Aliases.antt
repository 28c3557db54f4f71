-- ===== src/Sql/Validators/Aliases.antt =====
-- What the gate of columns of app/sql/validators/suite.py proves of the columns of the parsed text where it does not
-- block, through the dict from the aliases of the text to the tables of the catalog.
use text_to_sql_rag.Prelude.{
  ◌≡◌, ◌≢◌, refl, true, false, not, none, some, List, [], ◌∷◌, ◌++◌, Text, text, Option-cases,
  Bool-cases, inl, inr, contains, list_eq, nat_eq, ◌==◌, lookup, values, eq_of_==, insert,
  lookup-insert, any_of, All, ◌&&◌, ◌⊎◌, ◌∙◌, sym, ap, concat_map, if◌then◌else◌, arith,
  contains-append, ==_refl,
}
use text_to_sql_rag.Contracts.Records.{TableRecord}
use text_to_sql_rag.Contracts.Plan.{CompiledQuery}
use text_to_sql_rag.Catalog.Service.{get, CatalogSnapshot}
use text_to_sql_rag.Sql.Compiler.Emission.{BoundValue}
use text_to_sql_rag.Sql.Validators.Tree.{
  physical_name, column_findings, sql_aliases, aliases_from, output_aliases,
}
use text_to_sql_rag.Sql.Validators.Nodes.{Sqlglot, table_named}
use text_to_sql_rag.Sql.Validators.Clean.{IsClean, IsClean-passed}
use text_to_sql_rag.Sql.Validators.Parsed.{IsScannable, resolved-IsClean}

==_sym : (a b : Text) → (a == b) ≡ (b == a)
==_sym a b = elim (Bool-cases (a == b)) [
  | inl same ↦ let e = eq_of_== a b same in ap (λ x. x == b) e ∙ ap (λ x. b == x) (sym e)
  | inr other ↦ elim (Bool-cases (b == a)) [
    | inl same ↦ let e = eq_of_== b a same in ap (λ x. a == x) e ∙ ap (λ x. x == a) (sym e)
    | inr other' ↦ other ∙ sym other'
  ]
]

module _ (lib : Sqlglot) where
  open lib use {Node, is_instance, find_all, name, table, alias, expressions}

  -- One of the nodes has the alias, and is the table of the catalog.
  abbrev pub IsScanned : CatalogSnapshot → Text → TableRecord → List Node → Type 0
  IsScanned snapshot a t [] = ⊥
  IsScanned snapshot a t (n ∷ ns) =
      ((alias n ≡ a) × (table_named (physical_name lib n) (values snapshot.tables) ≡ some t))
      ⊎ IsScanned snapshot a t ns

  -- A column of the text that is qualified by the alias of a scan is one that the compiled query declares, of a table
  -- that is scanned under that alias.
  abbrev pub IsDeclared : CatalogSnapshot → CompiledQuery BoundValue → Node → Node → Type 0
  IsDeclared snapshot compiled tree n =
      table n ≢ []
      → any_of (λ m. alias m == table n) (find_all (text "Table") tree) ≡ true
      → (t : TableRecord) × IsScanned snapshot (table n) t (find_all (text "Table") tree)
        × (contains (t.id ++ (b'.' ∷ name n)) compiled.referenced_columns ≡ true)

  -- A column of the text without a qualifier is the alias of a projection.
  abbrev pub IsNamed : Node → Node → Type 0
  IsNamed tree n =
      table n ≡ []
      → any_of (λ p. is_instance (text "Alias") p && alias p == name n) (expressions tree) ≡ true

  -- The dict after one table of the text.
  abbrev with_table : CatalogSnapshot → List (Text × Text) → Node → List (Text × Text)
  with_table snapshot d n = elim (table_named (physical_name lib n) (values snapshot.tables)) [
    | none ↦ d
    | some t ↦ if alias n == [] then d else insert (alias n) t.id d
  ]

  lookup-with_table-other :
      (snapshot : CatalogSnapshot) (a : Text) (d : List (Text × Text)) (n : Node)
      → (alias n == a) ≡ false
      → lookup a (with_table snapshot d n) ≡ lookup a d
  lookup-with_table-other snapshot a d n h =
      elim (Option-cases (table_named (physical_name lib n) (values snapshot.tables))) [
        | inl missing ↦ rw (missing, with_table) refl
        | inr (t, found) ↦
            rw (found, with_table)
              (elim (Bool-cases (alias n == [])) [
                | inl empty ↦ rw empty refl
                | inr other ↦ rw other (
                    lookup-insert a (alias n) t.id d
                    ∙ ap (λ b. if b then some t.id else lookup a d) (==_sym a (alias n) ∙ h))
              ])
      ]

  lookup-with_table :
      (snapshot : CatalogSnapshot) (a : Text) (d : List (Text × Text)) (n : Node) (t : TableRecord)
      → a ≢ []
      → alias n ≡ a
      → table_named (physical_name lib n) (values snapshot.tables) ≡ some t
      → lookup a (with_table snapshot d n) ≡ some t.id
  lookup-with_table snapshot a d n t named same found =
      rw (found, with_table)
        (elim (Bool-cases (alias n == [])) [
          | inl empty ↦ absurd (named (sym same ∙ eq_of_== (alias n) [] empty))
          | inr other ↦ rw other (
              lookup-insert a (alias n) t.id d
              ∙ ap (λ b. if b then some t.id else lookup a d) (ap (λ x. a == x) same ∙ ==_refl a))
        ])

  lookup-aliases_from-other :
      (snapshot : CatalogSnapshot) (a : Text) (d : List (Text × Text)) (ns : List Node)
      → any_of (λ m. alias m == a) ns ≡ false
      → lookup a (aliases_from lib snapshot d ns) ≡ lookup a d
  unfolding aliases_from
  lookup-aliases_from-other snapshot a d [] h = refl
  lookup-aliases_from-other snapshot a d (n ∷ ns) h =
      lookup-aliases_from-other snapshot a (with_table snapshot d n) ns (ground arith)
      ∙ lookup-with_table-other snapshot a d n (ground arith)

  aliases_from-IsScanned :
      (snapshot : CatalogSnapshot) (compiled : CompiledQuery BoundValue) (a : Text)
      (d : List (Text × Text)) (ns : List Node)
      → a ≢ []
      → All (IsScannable lib snapshot compiled) ns
      → any_of (λ m. alias m == a) ns ≡ true
      → (t : TableRecord) × IsScanned snapshot a t ns
        × (lookup a (aliases_from lib snapshot d ns) ≡ some t.id)
  unfolding aliases_from
  aliases_from-IsScanned snapshot compiled a d [] named h m = cc
  aliases_from-IsScanned snapshot compiled a d (n ∷ ns) named h m =
      elim (Bool-cases (any_of (λ m. alias m == a) ns)) [
        | inl later ↦
            let (t, scanned, e) =
              aliases_from-IsScanned snapshot compiled a (with_table snapshot d n) ns named h.1
                later in
            (t, inr scanned, e)
        | inr never ↦
            let same : alias n ≡ a = eq_of_== (alias n) a (ground arith) in
            (
              h.0.table,
              inl (same, h.0.found),
              lookup-aliases_from-other snapshot a (with_table snapshot d n) ns never
                  ∙ lookup-with_table snapshot a d n h.0.table named same h.0.found,
            )
      ]

  contains-output_aliases :
      (a : Text) (ps : List Node)
      → contains a (
          concat_map
            (λ p. if is_instance (text "Alias") p && not (alias p == []) then alias p ∷ [] else [])
            ps)
        ≡ true
      → any_of (λ p. is_instance (text "Alias") p && alias p == a) ps ≡ true
  contains-output_aliases a [] h = cc
  contains-output_aliases a (p ∷ ps) h =
      let here : List Text =
        if is_instance (text "Alias") p && not (alias p == []) then alias p ∷ [] else [] in
      ground (
        arith,
        contains-append a here (
            concat_map
              (λ p.
                if is_instance (text "Alias") p && not (alias p == []) then alias p ∷ [] else [])
              ps),
        ==_sym a (alias p),
        contains-output_aliases a ps,
      )

  column_findings-qualified :
      (snapshot : CatalogSnapshot) (compiled : CompiledQuery BoundValue) (tree n : Node)
      (outputs : List Text)
      → IsClean (column_findings lib snapshot compiled (sql_aliases lib snapshot tree) outputs n)
      → (id : Text) → table n ≢ []
      → lookup (table n) (sql_aliases lib snapshot tree) ≡ some id
      → contains (id ++ (b'.' ∷ name n)) compiled.referenced_columns ≡ true
  unfolding column_findings
  column_findings-qualified snapshot compiled tree n outputs h id qualified found =
      elim (Bool-cases (table n == [])) [
        | inl empty ↦ absurd (qualified (eq_of_== (table n) [] empty))
        | inr other ↦
            let h' = rw (other, found, column_findings) at h in
            resolved-IsClean (get snapshot.columns (id ++ (b'.' ∷ name n)))
              (contains (id ++ (b'.' ∷ name n)) compiled.referenced_columns)
              (some (id ++ (b'.' ∷ name n))) h'
      ]

  pub column_findings-IsDeclared :
      (snapshot : CatalogSnapshot) (compiled : CompiledQuery BoundValue) (tree n : Node)
      (outputs : List Text)
      → All (IsScannable lib snapshot compiled) (find_all (text "Table") tree)
      → IsClean (column_findings lib snapshot compiled (sql_aliases lib snapshot tree) outputs n)
      → IsDeclared snapshot compiled tree n
  column_findings-IsDeclared snapshot compiled tree n outputs scannable h qualified known =
      let (t, scanned, e) =
        aliases_from-IsScanned snapshot compiled (table n) [] (find_all (text "Table") tree)
          qualified scannable known in
      (t, scanned, column_findings-qualified snapshot compiled tree n outputs h t.id qualified e)

  pub column_findings-IsNamed :
      (snapshot : CatalogSnapshot) (compiled : CompiledQuery BoundValue) (tree n : Node)
      (aliases : List (Text × Text))
      → IsClean (column_findings lib snapshot compiled aliases (output_aliases lib tree) n)
      → IsNamed tree n
  unfolding column_findings
  column_findings-IsNamed snapshot compiled tree n aliases h plain =
      let empty : (table n == []) ≡ true = ap (λ x. x == []) plain ∙ ==_refl {A = Text} [] in
      let h' = rw (empty, column_findings) at h in
      contains-output_aliases (name n) (expressions tree)
        (IsClean-passed (contains (name n) (output_aliases lib tree)) _ _ h')

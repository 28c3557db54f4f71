-- ===== src/Sql/Validators/Nodes.antt =====
-- app/sql/validators/suite.py: the tree of sqlglot as a parameter, the lists of its nodes, and findings.
use text_to_sql_rag.Prelude.{
  Bool, true, false, Option, none, some, List, [], ◌∷◌, ◌++◌, Text, text, ◌==◌, list_eq, nat_eq,
  contains, if◌then◌else◌,
}
use text_to_sql_rag.Contracts.Errors.{Finding, finding_of, unsafe_query, block, severity_eq}
use text_to_sql_rag.Contracts.Ids.{show_name}
use text_to_sql_rag.Contracts.Records.{TableRecord}
use text_to_sql_rag.Sql.Dialect.{supported_functions, forbidden_functions}

-- `parse` is none where sqlglot raises. An attribute that is missing is the empty text.
pub record Sqlglot : Type 1 where
  pub Node : Type 0
  pub parse : (sql dialect : Text) → Option (List Node)
  pub class_of : Node → Text
  pub is_instance : Text → Node → Bool
  pub walk : Node → List Node
  pub find_all : Text → Node → List Node
  pub arg : Text → Node → Option Node
  pub this : Node → Node
  pub expression : Node → Node
  pub expressions : Node → List Node
  pub parent : Node → Option Node
  pub name : Node → Text
  pub alias : Node → Text
  pub table : Node → Text
  pub db : Node → Text
  pub catalog_name : Node → Text
  pub is_string : Node → Bool

abbrev pub allowed_nodes : List Text
allowed_nodes =
    text "Select"
    ∷ text "From"
    ∷ text "Table"
    ∷ text "TableAlias"
    ∷ text "Column"
    ∷ text "Identifier"
    ∷ text "Alias"
    ∷ text "Join"
    ∷ text "Where"
    ∷ text "Group"
    ∷ text "Having"
    ∷ text "Order"
    ∷ text "Ordered"
    ∷ text "Limit"
    ∷ text "And"
    ∷ text "Or"
    ∷ text "Not"
    ∷ text "Paren"
    ∷ text "EQ"
    ∷ text "NEQ"
    ∷ text "LT"
    ∷ text "LTE"
    ∷ text "GT"
    ∷ text "GTE"
    ∷ text "Is"
    ∷ text "Null"
    ∷ text "In"
    ∷ text "Placeholder"
    ∷ text "Literal"
    ∷ text "Boolean"
    ∷ text "Star"
    ∷ text "Sum"
    ∷ text "Count"
    ∷ text "Avg"
    ∷ text "Min"
    ∷ text "Max"
    ∷ text "Distinct"
    ∷ text "Div"
    ∷ text "Anonymous"
    ∷ text "AtTimeZone"
    ∷ text "Cast"
    ∷ text "DataType"
    ∷ text "Neg"
    ∷ text "TimestampTrunc"
    ∷ text "DateTrunc"
    ∷ text "Var"
    ∷ []

abbrev pub aggregate_nodes : List Text
aggregate_nodes = text "Sum" ∷ text "Count" ∷ text "Avg" ∷ text "Min" ∷ text "Max" ∷ []

abbrev pub write_nodes : List Text
write_nodes =
    text "Insert"
    ∷ text "Update"
    ∷ text "Delete"
    ∷ text "Drop"
    ∷ text "Create"
    ∷ text "Alter"
    ∷ text "Merge"
    ∷ text "Command"
    ∷ text "Copy"
    ∷ []

abbrev pub comparisons : List Text
comparisons =
    text "EQ" ∷ text "NEQ" ∷ text "In" ∷ text "LT" ∷ text "LTE" ∷ text "GT" ∷ text "GTE" ∷ []

-- `x or None`, of a text.
abbrev pub named_parts : List Text → List Text
named_parts [] = []
named_parts ([] ∷ ps) = named_parts ps
named_parts ((c ∷ s) ∷ ps) = (c ∷ s) ∷ named_parts ps

-- `".".join(parts)`
abbrev pub dotted : List Text → Text
dotted [] = []
dotted (p ∷ []) = p
dotted (p ∷ q ∷ ps) = p ++ (b'.' ∷ dotted (q ∷ ps))

-- The first table of the catalog with the physical name.
unfoldable pub table_named : Text → List TableRecord → Option TableRecord
unfolding show_name
table_named physical [] = none
table_named physical (t ∷ ts) =
    let rest = table_named physical ts in if show_name t.physical == physical then some t else rest

abbrev pub is_blocking : Finding → Bool
is_blocking f = f.severity == block

abbrev pub blocked : Bool → Finding → List Finding
blocked true f = f ∷ []
blocked false f = []

-- What the dialect says of a function that is called.
unfoldable pub call_findings : Text → List Finding
call_findings called =
    if contains called forbidden_functions
    then finding_of unsafe_query (some called) ∷ []
    else if contains called supported_functions
    then []
    else finding_of unsafe_query (some called) ∷ []

-- A node that is not on the list blocks.
unfoldable pub node_findings : (class : Text) → List Finding
node_findings class =
    if contains class allowed_nodes then [] else finding_of unsafe_query (some class) ∷ []

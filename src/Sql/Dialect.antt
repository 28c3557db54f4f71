-- ===== src/Sql/Dialect.antt =====
-- app/sql/dialects/duckdb.py and the nodes of sqlglot that the compiler builds: one constructor for each node,
-- by the place in which it stands. `Paren` is a node of its own.
use text_to_sql_rag.Prelude.{
  ℕ, Option, none, some, List, [], ◌∷◌, Text, text, ◌==◌, list_eq, nat_eq, upper, if◌then◌else◌,
}
use text_to_sql_rag.Contracts.Ids.{QualifiedName}
use text_to_sql_rag.Contracts.Expressions.{CompareOp, AggregateOp}
use text_to_sql_rag.Contracts.Records.{TimeGrain}
use text_to_sql_rag.Contracts.Plan.{SortKey}
use text_to_sql_rag.Planning.Clarify.{grain_value}

abbrev pub duckdb : Text
duckdb = text "duckdb"

-- `exp.Column` and `exp.Placeholder`.
pub data Scalar : Type 0 where
  column : (table name : Text) → Scalar
  placeholder : Scalar

-- `exp.EQ` and the like, `exp.Is(this, exp.Null())`, `exp.In`, `exp.Not`, `exp.Paren`, `exp.And`, `exp.Or`.
pub data Condition : Type 0 where
  compare : CompareOp → Scalar → Scalar → Condition
  is_null : Scalar → Condition
  in_ : Scalar → List Scalar → Condition
  not_ paren : Condition → Condition
  and_ or_ : Condition → Condition → Condition

-- An aggregate without an operand is that of `None`, but `COUNT(*)`.
pub data Measure : Type 0 where
  sum avg min max count_distinct : Option Scalar → Measure
  count : Scalar → Measure
  count_star : Measure
  nullif_zero : Measure → Measure
  div : Measure → Measure → Measure

-- `DATE_TRUNC(grain, column AT TIME ZONE zone)`
pub record Bucket : Type 0 where
  pub grain : Text
  pub target : Scalar
  pub zone : Option Text

pub data Projected : Type 0 where
  bucket : Bucket → Projected
  plain : Scalar → Projected
  measured : Measure → Projected

pub record TableSql : Type 0 where
  pub physical : QualifiedName
  pub alias : Text

pub record JoinSql : Type 0 where
  pub table : TableSql
  pub on : Condition
  pub join_type : Text

-- `exp.Select`, clause by clause.
pub record Select : Type 0 where
  pub projections : List (Projected × Text)
  pub from_ : TableSql
  pub joins : List JoinSql
  pub where_ : Option Condition
  pub group : List Projected
  pub having : Option Condition
  pub order : List SortKey
  pub limit : Option ℕ

-- `table_expression`
abbrev pub table_expression : QualifiedName → Text → TableSql
table_expression physical alias = record { physical = physical; alias = alias }

-- `column_expression`
abbrev pub column_expression : Text → Text → Scalar
column_expression alias name = column alias name

-- `time_bucket`: the manifest has every grain.
unfoldable pub time_bucket : Scalar → TimeGrain → Text → Bucket
time_bucket target grain timezone = record {
  grain = grain_value grain;
  target = target;
  zone = if upper timezone == text "UTC" then none else some timezone;
}

-- `aggregate`: the manifest has every operator.
unfoldable pub aggregate : AggregateOp → Option Scalar → Measure
aggregate AggregateOp.sum operand = sum operand
aggregate AggregateOp.avg operand = avg operand
aggregate AggregateOp.min operand = min operand
aggregate AggregateOp.max operand = max operand
aggregate AggregateOp.count none = count_star
aggregate AggregateOp.count (some operand) = count operand
aggregate AggregateOp.count_distinct operand = count_distinct operand

abbrev pub supported_functions : List Text
supported_functions = text "date_trunc" ∷ []

abbrev pub forbidden_functions : List Text
forbidden_functions =
    text "read_csv"
    ∷ text "read_csv_auto"
    ∷ text "read_parquet"
    ∷ text "read_json"
    ∷ text "read_json_auto"
    ∷ text "read_blob"
    ∷ text "read_text"
    ∷ text "glob"
    ∷ text "copy"
    ∷ text "install"
    ∷ text "load"
    ∷ text "attach"
    ∷ text "httpfs"
    ∷ text "url"
    ∷ text "shell"
    ∷ text "system"
    ∷ text "getenv"
    ∷ text "sniff_csv"
    ∷ text "parquet_scan"
    ∷ []

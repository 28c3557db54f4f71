-- ===== src/Examples/Statements.antt =====
-- The statement of the lowered plan, and what is bound for it.
use text_to_sql_rag.Prelude.{
  ◌≡◌, refl, Text, [], ◌∷◌, none, some, text, list_eq, nat_eq, List, length,
}
use text_to_sql_rag.Contracts.Errors.{ok}
use text_to_sql_rag.Contracts.Expressions.{str, CompareOp}
use text_to_sql_rag.Contracts.Plan.{CompiledQuery}
use text_to_sql_rag.Sql.Dialect.{Select, Scalar, Condition, Projected, Measure, duckdb}
use text_to_sql_rag.Sql.Compiler.{compile, build}
use text_to_sql_rag.Sql.Compiler.Placeholders.{plan_aliases, conditions, statement_placeholders}
use text_to_sql_rag.Sql.Compiler.Emission.{BoundValue, plain, instant, Emitted, nothing_emitted}
use text_to_sql_rag.Sql.Compiler.Meaning
use text_to_sql_rag.Sql.Compiler.Meaning.{Database, plan_meaning}
use text_to_sql_rag.Sql.Compiler.Statement.{build-plan_meaning}
use text_to_sql_rag.Sql.Compiler.Counts.{build-placeholders}
use text_to_sql_rag.Examples.Data.{scope, orders_table, orders, tenant}
use text_to_sql_rag.Examples.Metrics.{full_service, amount, day}
use text_to_sql_rag.Examples.Pipeline.{lowered}
use text_to_sql_rag.Examples.Code.{compiler_code}

abbrev pub supplied : List (Text × BoundValue)
supplied =
    (text "p", plain (str (text "t1")))
    ∷ (text "p_time_start", instant 1)
    ∷ (text "p_time_end", instant 9)
    ∷ []

abbrev at : Text → Scalar
at name = Scalar.column (text "t0") name

abbrev by_month : Projected
by_month = Projected.bucket (record { grain = text "month"; target = at (text "d"); zone = none })

abbrev select : Select
select = record {
  projections =
      (by_month, text "month")
      ∷ (Projected.measured (Measure.sum (some (at (text "a")))), text "r")
      ∷ [];
  from_ = record { physical = orders_table.physical; alias = text "t0" };
  joins = [];
  where_ = some (
      Condition.and_
        (Condition.and_ (Condition.compare CompareOp.gte (at (text "d")) Scalar.placeholder)
          (Condition.compare CompareOp.lt (at (text "d")) Scalar.placeholder))
        (Condition.compare CompareOp.eq (at (text "t")) Scalar.placeholder));
  group = by_month ∷ [];
  having = none;
  order = lowered.order_by;
  limit = none;
}

abbrev emitted : Emitted
emitted = record {
  values = instant 1 ∷ instant 9 ∷ plain (str (text "t1")) ∷ [];
  names = text "p_time_start" ∷ text "p_time_end" ∷ text "p" ∷ [];
  columns = day ∷ amount ∷ tenant ∷ [];
}

abbrev pub compiled : CompiledQuery BoundValue
compiled = record {
  plan_id = text "p";
  plan_revision = 1;
  dialect = duckdb;
  sql = text "sql";
  parameter_values = emitted.values;
  parameter_order = emitted.names;
  referenced_tables = orders ∷ orders ∷ orders ∷ [];
  referenced_columns = emitted.columns;
}

build_test :
    build full_service scope (λ s. ok 0) (plan_aliases lowered) supplied lowered nothing_emitted
    ≡ ok (select, emitted)
unfolding compiler_code
build_test = refl

compile_test :
    compile full_service scope (λ s. ok 0) (λ s. text "sql") lowered supplied ≡ ok compiled
unfolding compiler_code
compile_test = refl

-- A cell holds the values that were bound for it, and a truth value is the right side of the last comparison.
abbrev recorded : Database
recorded = record {
  Cell = List BoundValue;
  Truth = List BoundValue;
  cell = λ alias name. [];
  given = λ v. v ∷ [];
  compares = λ op a b. b;
  is_missing = λ a. a;
  is_among = λ a as_. a;
  negation = λ t. t;
  both = λ t u. u;
  either = λ t u. u;
}

build-plan_meaning_example :
    (ts : List (List BoundValue)) × (plan_meaning recorded full_service scope
        (λ s. ok 0)
        (plan_aliases lowered)
        supplied
        lowered
      ≡ ok ts)
    × (Meaning.run_all recorded (conditions select) emitted.values ≡ some (ts, []))
unfolding Meaning.is_aligned
build-plan_meaning_example =
    build-plan_meaning recorded full_service scope (λ s. ok 0) (plan_aliases lowered) supplied
      lowered select emitted refl build_test

build-placeholders_example : statement_placeholders select ≡ length emitted.values
build-placeholders_example =
    build-placeholders full_service scope (λ s. ok 0) (plan_aliases lowered) supplied lowered select
      emitted build_test

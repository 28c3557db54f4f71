-- ===== src/Contracts/Expressions.antt =====
-- app/contracts/expressions.py: the closed expression language, and the columns that it touches.
use text_to_sql_rag.Prelude.{
  ℕ, Bool, Option, none, some, List, [], ◌∷◌, ◌++◌, Text, concat_map, ℕ_discrete, Eq,
}

-- The value of a literal. A float is known by its bits, and an integer by its sign and size.
pub data Value : Type 0 where
  str : Text → Value
  bool : Bool → Value
  int : (negative : Bool) → ℕ → Value
  float : (bits : ℕ) → Value

pub data LiteralType : Type 0 where
  string boolean integer decimal instant date : LiteralType

pub data Operand : Type 0 where
  column : (column_ref : Text) → Operand
  literal : LiteralType → Value → Operand
  enum : (value_set_ref member : Text) → Operand
  parameter : (name : Text) → Operand

pub data CompareOp : Type 0 where
  eq ne lt lte gt gte : CompareOp

pub data BoolOperator : Type 0 where
  and_ or_ not_ : BoolOperator

mutual
  pub data Predicate : Type 0 where
    comparison : CompareOp → Operand → Operand → Predicate
    is_null : (negated : Bool) → Operand → Predicate
    membership : (negated : Bool) → Operand → List Operand → Predicate
    bool_op : BoolOperator → Predicates → Predicate

  pub data Predicates : Type 0 where
    nil : Predicates
    cons : Predicate → Predicates → Predicates

pub data AggregateOp : Type 0 where
  sum count count_distinct avg min max : AggregateOp

pub data ZeroDenominator : Type 0 where
  null zero error : ZeroDenominator

-- The operand of an aggregate is a column or nothing.
pub data MeasureExpr : Type 0 where
  aggregate : AggregateOp → Option Text → MeasureExpr
  ratio : MeasureExpr → MeasureExpr → ZeroDenominator → MeasureExpr

-- `columns_in`, by the type of its argument. A frozenset is a list, read up to membership.
unfoldable pub operand_columns : Operand → List Text
operand_columns (column c) = c ∷ []
operand_columns (literal _ _) = []
operand_columns (enum _ _) = []
operand_columns (parameter _) = []

unfoldable mutual
  unfolding operand_columns

  pub columns_in : Predicate → List Text
  columns_in (comparison op left right) = operand_columns left ++ operand_columns right
  columns_in (is_null negated operand) = operand_columns operand
  columns_in (membership negated left members) =
      operand_columns left ++ concat_map operand_columns members
  columns_in (bool_op op args) = columns_in_all args

  pub columns_in_all : Predicates → List Text
  columns_in_all nil = []
  columns_in_all (cons p ps) = columns_in p ++ columns_in_all ps

unfoldable pub measure_columns : MeasureExpr → List Text
measure_columns (aggregate op none) = []
measure_columns (aggregate op (some c)) = c ∷ []
measure_columns (ratio numerator denominator zero_denominator) =
    measure_columns numerator ++ measure_columns denominator

-- `columns_in(None)` is empty.
unfoldable pub optional_columns : Option Predicate → List Text
optional_columns none = []
optional_columns (some p) = columns_in p

Value-discrete : Discrete Value
Value-discrete = hlevel ℕ_discrete

Predicate-discrete : Discrete Predicate
Predicate-discrete = hlevel ℕ_discrete

MeasureExpr-discrete : Discrete MeasureExpr
MeasureExpr-discrete = hlevel ℕ_discrete

instance unfoldable pub predicate_eq : Eq Predicate
unfolding Predicate-discrete
predicate_eq = record { dec = Predicate-discrete }

instance unfoldable pub measure_eq : Eq MeasureExpr
unfolding MeasureExpr-discrete
measure_eq = record { dec = MeasureExpr-discrete }

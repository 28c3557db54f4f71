-- ===== src/Sql/Compiler/Emission.antt =====
-- app/sql/compiler.py: what is bound and noted while a statement is built, and the nodes that are made of parts.
use text_to_sql_rag.Prelude.{
  ℕ, Bool, true, false, none, some, List, [], ◌∷◌, ◌++◌, Text, list_eq, nat_eq, union,
}
use text_to_sql_rag.Contracts.Errors.{
  Result, ok, err, fail, compilation, index_error, compiler_defect,
}
use text_to_sql_rag.Contracts.Expressions.{Value, BoolOperator, and_, or_, not_}
use text_to_sql_rag.Sql.Dialect.{Scalar, Condition, Projected, column_expression}

-- What the driver is given: the value of a literal, or an instant.
pub data BoundValue : Type 0 where
  plain : Value → BoundValue
  instant : ℕ → BoundValue

-- `_ParamBinder` and the columns of `_Ctx`.
pub record Emitted : Type 0 where
  pub values : List BoundValue
  pub names : List Text
  pub columns : List Text

abbrev pub nothing_emitted : Emitted
nothing_emitted = record { values = []; names = []; columns = [] }

abbrev pub M : Type 0 → Type 0
M A = Emitted → Result (A × Emitted)

infixl 5 ◌>>=◌
abbrev pub ◌>>=◌ : {A B : Type 0} → M A → (A → M B) → M B
◌>>=◌ m f s = elim (m s) [ err e ↦ err e | ok (a, t) ↦ f a t ]

abbrev pub return : {A : Type 0} → A → M A
return a s = ok (a, s)

abbrev pub lift : {A : Type 0} → Result A → M A
lift (ok a) s = ok (a, s)
lift (err e) s = err e

-- `binder.bind(name, value)`
abbrev pub bind_value : Text → BoundValue → M Scalar
bind_value name value s =
    ok (
      Scalar.placeholder,
      record s { values = s.values ++ value ∷ []; names = s.names ++ name ∷ [] },
    )

-- A column that is resolved is noted.
abbrev pub refer : Text → Emitted → Result (Text × Text) → Result (Scalar × Emitted)
refer c s (err e) = err e
refer c s (ok (a, name)) =
    ok (column_expression a name, record s { columns = union s.columns (c ∷ []) })

-- The loop that joins the parts from the left, with `exp.And` or `exp.Or`.
unfoldable pub join_from :
    (Condition → Condition → Condition) → Condition → List Condition → Condition
join_from joiner c [] = c
join_from joiner c (d ∷ ds) = join_from joiner (joiner c d) ds

-- `_and_all`: the first part of no parts is an IndexError.
unfoldable pub and_all : List Condition → Result Condition
unfolding join_from
and_all [] = err index_error
and_all (c ∷ cs) = ok (join_from Condition.and_ c cs)

abbrev pub negated : Bool → Condition → Condition
negated true c = Condition.not_ c
negated false c = c

-- The node of a Boolean operator, from its parts.
unfoldable pub combine : BoolOperator → List Condition → Result Condition
unfolding join_from
combine not_ (c ∷ []) = ok (Condition.not_ (Condition.paren c))
combine not_ _ = fail compilation compiler_defect none
combine and_ [] = err index_error
combine and_ (c ∷ cs) = ok (join_from Condition.and_ c cs)
combine or_ [] = err index_error
combine or_ (c ∷ cs) = ok (Condition.paren (join_from Condition.or_ c cs))

abbrev pub require_projections : Text → List (Projected × Text) → Result (Unit {0})
require_projections plan_id [] = fail compilation compiler_defect (some plan_id)
require_projections plan_id (p ∷ ps) = ok tt

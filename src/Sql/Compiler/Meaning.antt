-- ===== src/Sql/Compiler/Meaning.antt =====
-- What a compiled condition means, with the bound values taken in the order of the placeholders of its text, and
-- what a predicate of the plan means. The values and the logic of the database are a parameter.
use text_to_sql_rag.Prelude.{
  ℕ, Bool, true, false, ◌&&◌, Option, none, some, List, [], ◌∷◌, ◌++◌, Text,
}
use text_to_sql_rag.Contracts.Errors.{Result, ok, err, index_error, ◌>>=◌}
use text_to_sql_rag.Contracts.Scope.{TrustedScope}
use text_to_sql_rag.Contracts.Expressions.{
  Operand, Predicate, Predicates, nil, cons, CompareOp, comparison, is_null, membership, bool_op,
  BoolOperator, and_, or_, not_,
}
use text_to_sql_rag.Contracts.Plan.{LogicalPlan, JoinOp}
use text_to_sql_rag.Catalog.Service.{CatalogService}
use text_to_sql_rag.Sql.Dialect.{Scalar, Condition}
use text_to_sql_rag.Sql.Compiler.{value_of, resolve_column}
use text_to_sql_rag.Sql.Compiler.Emission.{BoundValue}

-- The cells of the scanned rows, by alias and name, and the truth values of SQL.
pub record Database : Type 1 where
  pub Cell : Type 0
  pub Truth : Type 0
  pub cell : (alias name : Text) → Cell
  pub given : BoundValue → Cell
  pub compares : CompareOp → Cell → Cell → Truth
  pub is_missing : Cell → Truth
  pub is_among : Cell → List Cell → Truth
  pub negation : Truth → Truth
  pub both : Truth → Truth → Truth
  pub either : Truth → Truth → Truth

-- An evaluation takes values off the front of the bound ones: `none` where they run out.
abbrev pub R : Type 0 → Type 0
R A = List BoundValue → Option (A × List BoundValue)

abbrev pub bind_run : {A B : Type 0} → R A → (A → R B) → R B
bind_run m f vs = elim (m vs) [ none ↦ none | some (a, rest) ↦ f a rest ]

abbrev pub give : {A : Type 0} → A → R A
give a vs = some (a, vs)

module _ (db : Database) where
  open db use {Cell, Truth, cell, given, compares, is_missing, is_among, negation, both, either}

  abbrev pub run_scalar : Scalar → R Cell
  run_scalar (Scalar.column a n) vs = some (cell a n, vs)
  run_scalar Scalar.placeholder [] = none
  run_scalar Scalar.placeholder (v ∷ vs) = some (given v, vs)

  abbrev pub run_scalars : List Scalar → R (List Cell)
  run_scalars [] = give []
  run_scalars (x ∷ xs) =
      bind_run (run_scalar x) (λ c. bind_run (run_scalars xs) (λ cs. give (c ∷ cs)))

  -- The left side of `IN` stands before its members.
  abbrev pub run : Condition → R Truth
  run (Condition.compare op l r) =
      bind_run (run_scalar l) (λ a. bind_run (run_scalar r) (λ b. give (compares op a b)))
  run (Condition.is_null x) = bind_run (run_scalar x) (λ a. give (is_missing a))
  run (Condition.in_ x xs) =
      bind_run (run_scalar x) (λ a. bind_run (run_scalars xs) (λ as_. give (is_among a as_)))
  run (Condition.not_ c) = bind_run (run c) (λ t. give (negation t))
  run (Condition.paren c) = run c
  run (Condition.and_ c d) = bind_run (run c) (λ t. bind_run (run d) (λ u. give (both t u)))
  run (Condition.or_ c d) = bind_run (run c) (λ t. bind_run (run d) (λ u. give (either t u)))

  abbrev pub run_all : List Condition → R (List Truth)
  run_all [] = give []
  run_all (c ∷ cs) = bind_run (run c) (λ t. bind_run (run_all cs) (λ ts. give (t ∷ ts)))

  abbrev pub fold : (Truth → Truth → Truth) → Truth → List Truth → Truth
  fold op t [] = t
  fold op t (u ∷ us) = fold op (op t u) us

  abbrev pub negate_if : Bool → Truth → Truth
  negate_if true t = negation t
  negate_if false t = t

  -- A Boolean operator on the meanings of its arguments.
  abbrev pub combined : BoolOperator → List Truth → Result Truth
  combined not_ (t ∷ []) = ok (negation t)
  combined not_ _ = err index_error
  combined and_ [] = err index_error
  combined and_ (t ∷ ts) = ok (fold both t ts)
  combined or_ [] = err index_error
  combined or_ (t ∷ ts) = ok (fold either t ts)

  abbrev pub conjunction : List Truth → Result Truth
  conjunction [] = err index_error
  conjunction (t ∷ ts) = ok (fold both t ts)

  module _ (service : CatalogService) (scope : TrustedScope) (fromisoformat : Text → Result ℕ)
      (alias_of : List (Text × Text)) (supplied : List (Text × BoundValue)) where
    -- A column means its cell, and any other operand the value that is bound for it.
    unfoldable pub operand_meaning : Operand → Result Cell
    operand_meaning (Operand.column c) =
        resolve_column service scope fromisoformat alias_of supplied c >>= λ p. ok (cell p.0 p.1)
    operand_meaning other =
        value_of service scope fromisoformat alias_of supplied other >>= λ p. ok (given p.1)

    unfoldable pub operands_meaning : List Operand → Result (List Cell)
    operands_meaning [] = ok []
    operands_meaning (o ∷ os) = do c ← operand_meaning o; cs ← operands_meaning os; ok (c ∷ cs)

    unfoldable mutual
      pub meaning : Predicate → Result Truth
      meaning (comparison op left right) = do
        a ← operand_meaning left
        b ← operand_meaning right
        ok (compares op a b)
      meaning (is_null negate o) = do a ← operand_meaning o; ok (negate_if negate (is_missing a))
      meaning (membership negate left members) = do
        a ← operand_meaning left
        as_ ← operands_meaning members
        ok (negate_if negate (is_among a as_))
      meaning (bool_op op args) = do ts ← meanings args; combined op ts

      pub meanings : Predicates → Result (List Truth)
      meanings nil = ok []
      meanings (cons p ps) = do t ← meaning p; ts ← meanings ps; ok (t ∷ ts)

    unfoldable pub list_meaning : List Predicate → Result (List Truth)
    list_meaning [] = ok []
    list_meaning (p ∷ ps) = do t ← meaning p; ts ← list_meaning ps; ok (t ∷ ts)

    -- All predicates of a clause together.
    unfoldable pub clause_meaning : List Predicate → Result (List Truth)
    unfolding list_meaning
    clause_meaning [] = ok []
    clause_meaning (p ∷ ps) = do ts ← list_meaning (p ∷ ps); t ← conjunction ts; ok (t ∷ [])

    unfoldable pub joins_meaning : List JoinOp → Result (List Truth)
    joins_meaning [] = ok []
    joins_meaning (j ∷ js) = do
      ts ← list_meaning j.predicates
      t ← conjunction ts
      us ← joins_meaning js
      ok (t ∷ us)

    -- What the joins, the condition on the rows and the condition on the groups mean, in this order.
    unfoldable pub plan_meaning : LogicalPlan → Result (List Truth)
    plan_meaning p = do
      on ← joins_meaning p.joins
      ws ← clause_meaning p.where_
      hs ← clause_meaning p.having
      ok (on ++ (ws ++ hs))

-- Every left side of a membership is a column.
abbrev is_column : Operand → Bool
is_column (Operand.column c) = true
is_column _ = false

unfoldable mutual
  pub is_aligned : Predicate → Bool
  is_aligned (comparison op left right) = true
  is_aligned (is_null negate o) = true
  is_aligned (membership negate left members) = is_column left
  is_aligned (bool_op op args) = are_aligned args

  pub are_aligned : Predicates → Bool
  are_aligned nil = true
  are_aligned (cons p ps) = is_aligned p && are_aligned ps

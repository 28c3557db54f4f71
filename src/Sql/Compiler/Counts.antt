-- ===== src/Sql/Compiler/Counts.antt =====
-- Every placeholder of a statement has its value: the count behind the construction never fails.
use text_to_sql_rag.Prelude.{
  ℕ, ◌+◌, ◌≡◌, refl, sym, ap, ◌∙◌, Bool, true, false, Option, none, some, List, [], ◌∷◌, ◌++◌,
  arith, Text, map, length, length-append,
}
use text_to_sql_rag.Contracts.Errors.{Result, ok, err, ok-injective}
use text_to_sql_rag.Contracts.Scope.{TrustedScope}
use text_to_sql_rag.Contracts.Expressions.{
  Operand, literal, enum, parameter, Predicate, Predicates, nil, cons, comparison, is_null,
  membership, bool_op, BoolOperator, and_, or_, not_,
}
use text_to_sql_rag.Contracts.Plan.{LogicalPlan, JoinOp}
use text_to_sql_rag.Catalog.Service.{CatalogService}
use text_to_sql_rag.Sql.Dialect.{Condition, Select, JoinSql}
use text_to_sql_rag.Sql.Compiler.{
  operand, operands, predicate, predicates, predicate_list, clause, joined, joined_all, build,
}
use text_to_sql_rag.Sql.Compiler.Placeholders.{
  optional_list, scalar_placeholders, list_placeholders, placeholders, all_placeholders,
  all_projected, statement_placeholders,
}
use text_to_sql_rag.Sql.Compiler.Emission.{
  BoundValue, Emitted, ◌>>=◌, lift, bind_value, and_all, join_from, combine, negated,
  nothing_emitted,
}
use text_to_sql_rag.Sql.Compiler.Binding.{
  Binds, Binds-bind, Binds-return, Binds-lift, Binds-more, column-Binds,
}
use text_to_sql_rag.Sql.Compiler.Projections.{projected_sum, projections-Binds, grouping-Binds}

join_from-placeholders :
    (joiner : Condition → Condition → Condition)
    → ((c d : Condition) → placeholders (joiner c d) ≡ placeholders c + placeholders d)
    → (c : Condition) (cs : List Condition)
    → placeholders (join_from joiner c cs) ≡ placeholders c + all_placeholders cs
unfolding join_from all_placeholders
join_from-placeholders joiner law c [] = omega arith
join_from-placeholders joiner law c (d ∷ ds) =
    omega (arith, join_from-placeholders joiner law (joiner c d) ds, law c d)

combine-placeholders :
    (op : BoolOperator) (cs : List Condition) (c : Condition)
    → combine op cs ≡ ok c
    → placeholders c ≡ all_placeholders cs
unfolding combine all_placeholders placeholders
combine-placeholders and_ [] c h = cc
combine-placeholders or_ [] c h = cc
combine-placeholders not_ [] c h = cc
combine-placeholders and_ (d ∷ ds) c h =
    ap placeholders (sym (ok-injective h))
    ∙ join_from-placeholders Condition.and_ (λ a b. refl) d ds
combine-placeholders or_ (d ∷ ds) c h =
    ap placeholders (sym (ok-injective h)) ∙ join_from-placeholders Condition.or_ (λ a b. refl) d ds
combine-placeholders not_ (d ∷ []) c h = omega (arith, ap placeholders (sym (ok-injective h)))
combine-placeholders not_ (d ∷ e ∷ ds) c h = cc

and_all-placeholders :
    (cs : List Condition) (c : Condition) → and_all cs ≡ ok c → placeholders c ≡ all_placeholders cs
unfolding and_all all_placeholders placeholders
and_all-placeholders [] c h = cc
and_all-placeholders (d ∷ ds) c h =
    ap placeholders (sym (ok-injective h))
    ∙ join_from-placeholders Condition.and_ (λ a b. refl) d ds

negated-placeholders : (b : Bool) (c : Condition) → placeholders (negated b c) ≡ placeholders c
unfolding placeholders
negated-placeholders true c = refl
negated-placeholders false c = refl

all_placeholders-append :
    (cs ds : List Condition)
    → all_placeholders (cs ++ ds) ≡ all_placeholders cs + all_placeholders ds
unfolding all_placeholders
all_placeholders-append [] ds = omega arith
all_placeholders-append (c ∷ cs) ds = omega (arith, all_placeholders-append cs ds)

module _ (service : CatalogService) (scope : TrustedScope) (fromisoformat : Text → Result ℕ)
    (alias_of : List (Text × Text)) (supplied : List (Text × BoundValue)) where
  bound-Binds :
      (r : Result (Text × BoundValue))
      → Binds 0 scalar_placeholders (lift r >>= λ p. bind_value p.0 p.1)
  bound-Binds (ok (n, v)) s t x h = omega (
    arith,
    length-append s.values (v ∷ []),
    ap (λ p. length (p.1.values)) (ok-injective h),
    ap (λ p. scalar_placeholders (p.0)) (ok-injective h),
  )
  bound-Binds (err e) s t x h = cc

  operand-Binds :
      (o : Operand)
      → Binds 0 scalar_placeholders (operand service scope fromisoformat alias_of supplied o)
  unfolding operand
  operand-Binds (Operand.column c) = column-Binds service scope fromisoformat alias_of supplied c
  operand-Binds (literal type v) = bound-Binds _
  operand-Binds (enum set member) = bound-Binds _
  operand-Binds (parameter name) = bound-Binds _

  operands-Binds :
      (os : List Operand)
      → Binds 0 list_placeholders (operands service scope fromisoformat alias_of supplied os)
  unfolding operands list_placeholders
  operands-Binds [] = Binds-return 0 list_placeholders [] refl
  operands-Binds (o ∷ os) =
      Binds-bind 0 scalar_placeholders list_placeholders _ _ (operand-Binds o) (λ x.
        Binds-bind (scalar_placeholders x) (λ xs. scalar_placeholders x + list_placeholders xs)
          list_placeholders _ _
          (Binds-more (scalar_placeholders x) list_placeholders _ (operands-Binds os))
          (λ xs. Binds-return _ list_placeholders (x ∷ xs) refl))

  mutual
    unfolding predicate predicates placeholders all_placeholders

    predicate-Binds :
        (p : Predicate)
        → Binds 0 placeholders (predicate service scope fromisoformat alias_of supplied p)
    predicate-Binds (comparison op left right) =
        Binds-bind 0 scalar_placeholders placeholders _ _ (operand-Binds left) (λ l.
          Binds-bind (scalar_placeholders l) (λ r. scalar_placeholders l + scalar_placeholders r)
            placeholders _ _
            (Binds-more (scalar_placeholders l) scalar_placeholders _ (operand-Binds right))
            (λ r. Binds-return _ placeholders (Condition.compare op l r) refl))
    predicate-Binds (is_null negate o) =
        Binds-bind 0 scalar_placeholders placeholders _ _ (operand-Binds o) (λ x.
          Binds-return (scalar_placeholders x) placeholders (negated negate (Condition.is_null x))
            (negated-placeholders negate (Condition.is_null x)))
    predicate-Binds (membership negate left members) =
        Binds-bind 0 list_placeholders placeholders _ _ (operands-Binds members) (λ ms.
          Binds-bind (list_placeholders ms) (λ l. list_placeholders ms + scalar_placeholders l)
            placeholders _ _
            (Binds-more (list_placeholders ms) scalar_placeholders _ (operand-Binds left))
            (λ l.
              Binds-return _ placeholders (negated negate (Condition.in_ l ms))
                (omega (arith, negated-placeholders negate (Condition.in_ l ms)))))
    predicate-Binds (bool_op op args) =
        Binds-bind 0 all_placeholders placeholders _ _ (predicates-Binds args) (λ parts.
          Binds-lift (all_placeholders parts) placeholders (combine op parts)
            (λ c h. combine-placeholders op parts c h))

    predicates-Binds :
        (ps : Predicates)
        → Binds 0 all_placeholders (predicates service scope fromisoformat alias_of supplied ps)
    predicates-Binds nil = Binds-return 0 all_placeholders [] refl
    predicates-Binds (cons p ps) =
        Binds-bind 0 placeholders all_placeholders _ _ (predicate-Binds p) (λ c.
          Binds-bind (placeholders c) (λ cs. placeholders c + all_placeholders cs) all_placeholders
            _ _ (Binds-more (placeholders c) all_placeholders _ (predicates-Binds ps))
            (λ cs. Binds-return _ all_placeholders (c ∷ cs) refl))

  list-Binds :
      (ps : List Predicate)
      → Binds 0 all_placeholders (predicate_list service scope fromisoformat alias_of supplied ps)
  unfolding predicate_list all_placeholders
  list-Binds [] = Binds-return 0 all_placeholders [] refl
  list-Binds (p ∷ ps) = Binds-bind 0 placeholders all_placeholders _ _ (predicate-Binds p) (λ c.
      Binds-bind (placeholders c) (λ cs. placeholders c + all_placeholders cs) all_placeholders _ _
        (Binds-more (placeholders c) all_placeholders _ (list-Binds ps))
        (λ cs. Binds-return _ all_placeholders (c ∷ cs) refl))

  abbrev clause_placeholders : Option Condition → ℕ
  clause_placeholders c = all_placeholders (optional_list c)

  clause-Binds :
      (ps : List Predicate)
      → Binds 0 clause_placeholders (clause service scope fromisoformat alias_of supplied ps)
  unfolding clause all_placeholders
  clause-Binds [] = Binds-return 0 clause_placeholders none refl
  clause-Binds (p ∷ ps) =
      Binds-bind 0 all_placeholders clause_placeholders _ _ (list-Binds (p ∷ ps)) (λ cs.
        Binds-bind (all_placeholders cs) placeholders clause_placeholders _ _
          (Binds-lift (all_placeholders cs) placeholders (and_all cs)
            (λ c h. and_all-placeholders cs c h))
          (λ c. Binds-return _ clause_placeholders (some c) (omega arith)))

  abbrev joins_placeholders : List JoinSql → ℕ
  joins_placeholders ks = all_placeholders (map (λ k. k.on) ks)

  joined-Binds :
      (j : JoinOp)
      → Binds 0 (λ k. placeholders k.on) (joined service scope fromisoformat alias_of supplied j)
  unfolding joined
  joined-Binds j =
      Binds-bind 0 all_placeholders (λ k. placeholders k.on) _ _ (list-Binds j.predicates)
        (λ cs.
          Binds-bind (all_placeholders cs) placeholders (λ k. placeholders k.on) _ _
            (Binds-lift (all_placeholders cs) placeholders (and_all cs)
              (λ c h. and_all-placeholders cs c h))
            (λ c. Binds-return _ (λ k. placeholders k.on) _ refl))

  joined_all-Binds :
      (js : List JoinOp)
      → Binds 0 joins_placeholders (joined_all service scope fromisoformat alias_of supplied js)
  unfolding joined_all all_placeholders
  joined_all-Binds [] = Binds-return 0 joins_placeholders [] refl
  joined_all-Binds (j ∷ js) =
      Binds-bind 0 (λ k. placeholders k.on) joins_placeholders _ _ (joined-Binds j)
        (λ k.
          Binds-bind (placeholders k.on) (λ ks. placeholders k.on + joins_placeholders ks)
            joins_placeholders _ _
            (Binds-more (placeholders k.on) joins_placeholders _ (joined_all-Binds js))
            (λ ks. Binds-return _ joins_placeholders (k ∷ ks) refl))

  build-Binds :
      (p : LogicalPlan)
      → Binds 0 statement_placeholders (build service scope fromisoformat alias_of supplied p)
  unfolding build statement_placeholders
  build-Binds p =
      Binds-bind 0 projected_sum statement_placeholders _ _
        (projections-Binds service scope fromisoformat alias_of supplied p)
        (λ ps.
          Binds-bind (projected_sum ps) (λ ks. projected_sum ps + joins_placeholders ks)
            statement_placeholders _ _
            (Binds-more (projected_sum ps) joins_placeholders _ (joined_all-Binds p.joins))
            (λ ks.
              let before : ℕ = projected_sum ps + joins_placeholders ks in
              Binds-bind before (λ w. before + clause_placeholders w) statement_placeholders _ _
                (Binds-more before clause_placeholders _ (clause-Binds p.where_))
                (λ w.
                  Binds-bind (before + clause_placeholders w)
                    (λ g. before + clause_placeholders w + all_projected g) statement_placeholders _
                    _
                    (Binds-more (before + clause_placeholders w) all_projected _
                      (grouping-Binds service scope fromisoformat alias_of supplied p))
                    (λ g.
                      Binds-bind (before + clause_placeholders w + all_projected g)
                        (λ h.
                          before + clause_placeholders w + all_projected g + clause_placeholders h)
                        statement_placeholders _ _
                        (Binds-more (before + clause_placeholders w + all_projected g)
                          clause_placeholders _ (clause-Binds p.having))
                        (λ h. Binds-return _ statement_placeholders _ (
                          omega (
                            arith,
                            all_placeholders-append (map (λ k. k.on) ks)
                                (optional_list w ++ optional_list h),
                            all_placeholders-append (optional_list w) (optional_list h),
                          )))))))

  -- A statement that is built has as many placeholders as values that are bound for it, whatever the plan.
  pub build-placeholders :
      (p : LogicalPlan) (select : Select) (emitted : Emitted)
      → build service scope fromisoformat alias_of supplied p nothing_emitted ≡ ok (select, emitted)
      → statement_placeholders select ≡ length emitted.values
  build-placeholders p select emitted h =
      omega (arith, build-Binds p nothing_emitted emitted select h)

-- ===== src/Sql/Compiler/Projections.antt =====
-- The projections and the grouping of app/sql/compiler.py bind no value and hold no placeholder.
use text_to_sql_rag.Prelude.{
  ℕ, ◌+◌, ◌≡◌, refl, Option, none, some, List, [], ◌∷◌, ◌++◌, arith, Text, map,
}
use text_to_sql_rag.Contracts.Errors.{Result}
use text_to_sql_rag.Contracts.Scope.{TrustedScope}
use text_to_sql_rag.Contracts.Expressions.{
  MeasureExpr, aggregate, ratio, AggregateOp, ZeroDenominator,
}
use text_to_sql_rag.Contracts.Records.{TimeGrain}
use text_to_sql_rag.Contracts.Plan.{LogicalPlan}
use text_to_sql_rag.Catalog.Service.{CatalogService}
use text_to_sql_rag.Sql.Dialect
use text_to_sql_rag.Sql.Compiler.Emission
use text_to_sql_rag.Sql.Dialect.{Scalar, Measure, Projected, time_bucket}
use text_to_sql_rag.Sql.Compiler.{
  measure, bucket_projection, group_projections, measure_projections, projections, grouping,
}
use text_to_sql_rag.Sql.Compiler.Placeholders.{
  scalar_placeholders, optional_placeholders, measure_placeholders, projected_placeholders,
  all_projected,
}
use text_to_sql_rag.Sql.Compiler.Emission.{BoundValue, require_projections}
use text_to_sql_rag.Sql.Compiler.Binding.{
  Binds, Binds-bind, Binds-return, Binds-lift, Binds-more, column-Binds,
}

-- The placeholders of projections with their aliases.
abbrev pub projected_sum : List (Projected × Text) → ℕ
projected_sum ps = all_projected (map (λ p. p.0) ps)

projected_sum-append :
    (ps qs : List (Projected × Text))
    → projected_sum (ps ++ qs) ≡ projected_sum ps + projected_sum qs
unfolding all_projected
projected_sum-append [] qs = omega arith
projected_sum-append (p ∷ ps) qs = omega (arith, projected_sum-append ps qs)

measure_placeholders-aggregate :
    (op : AggregateOp) (x : Option Scalar)
    → measure_placeholders (Dialect.aggregate op x) ≡ optional_placeholders x
unfolding Dialect.aggregate measure_placeholders
measure_placeholders-aggregate AggregateOp.sum x = refl
measure_placeholders-aggregate AggregateOp.avg x = refl
measure_placeholders-aggregate AggregateOp.min x = refl
measure_placeholders-aggregate AggregateOp.max x = refl
measure_placeholders-aggregate AggregateOp.count none = refl
measure_placeholders-aggregate AggregateOp.count (some x) = refl
measure_placeholders-aggregate AggregateOp.count_distinct x = refl

module _ (service : CatalogService) (scope : TrustedScope) (fromisoformat : Text → Result ℕ)
    (alias_of : List (Text × Text)) (supplied : List (Text × BoundValue)) where
  divided-Binds :
      (n d : MeasureExpr) (over : Measure → Measure)
      → ((m : Measure) → measure_placeholders (over m) ≡ measure_placeholders m)
      → Binds 0 measure_placeholders (measure service scope fromisoformat alias_of supplied n)
      → Binds 0 measure_placeholders (measure service scope fromisoformat alias_of supplied d)
      → Binds 0 measure_placeholders (
          Emission.◌>>=◌ (measure service scope fromisoformat alias_of supplied n) (λ x.
            Emission.◌>>=◌
              (measure service scope fromisoformat alias_of supplied d)
              (λ y. Emission.return (Measure.div x (over y)))))
  unfolding measure_placeholders
  divided-Binds n d over same first second =
      Binds-bind 0 measure_placeholders measure_placeholders _ _ first (λ x.
        Binds-bind (measure_placeholders x) (λ y. measure_placeholders x + measure_placeholders y)
          measure_placeholders _ _
          (Binds-more (measure_placeholders x) measure_placeholders _ second)
          (λ y. Binds-return _ measure_placeholders _ (omega (arith, same y))))

  measure-Binds :
      (m : MeasureExpr)
      → Binds 0 measure_placeholders (measure service scope fromisoformat alias_of supplied m)
  unfolding measure measure_placeholders
  measure-Binds (aggregate op none) =
      Binds-return 0 measure_placeholders _ (measure_placeholders-aggregate op none)
  measure-Binds (aggregate op (some c)) =
      Binds-bind 0 scalar_placeholders measure_placeholders _ _
        (column-Binds service scope fromisoformat alias_of supplied c)
        (λ x. Binds-return _ measure_placeholders _ (measure_placeholders-aggregate op (some x)))
  measure-Binds (ratio n d ZeroDenominator.null) =
      divided-Binds n d Measure.nullif_zero (λ m. refl) (measure-Binds n) (measure-Binds d)
  measure-Binds (ratio n d _) =
      divided-Binds n d (λ m. m) (λ m. refl) (measure-Binds n) (measure-Binds d)

  bucket_projection-Binds :
      (b : Option (record { alias : Text; column : Text; grain : TimeGrain; timezone : Text }))
      → Binds 0 projected_sum (bucket_projection service scope fromisoformat alias_of supplied b)
  unfolding bucket_projection all_projected projected_placeholders time_bucket
  bucket_projection-Binds none = Binds-return 0 projected_sum [] refl
  bucket_projection-Binds (some b) =
      Binds-bind 0 (λ n. scalar_placeholders n.target) projected_sum _ _
        (Binds-bind 0 scalar_placeholders (λ n. scalar_placeholders n.target) _ _
          (column-Binds service scope fromisoformat alias_of supplied b.column)
          (λ x. Binds-return _ (λ n. scalar_placeholders n.target) _ refl))
        (λ n. Binds-return _ projected_sum _ (omega arith))

  group_projections-Binds :
      (gs : List (Text × Option Text))
      → Binds 0 projected_sum (group_projections service scope fromisoformat alias_of supplied gs)
  unfolding group_projections all_projected projected_placeholders
  group_projections-Binds [] = Binds-return 0 projected_sum [] refl
  group_projections-Binds ((a, none) ∷ gs) = group_projections-Binds gs
  group_projections-Binds ((a, some c) ∷ gs) =
      Binds-bind 0 scalar_placeholders projected_sum _ _
        (column-Binds service scope fromisoformat alias_of supplied c)
        (λ x.
          Binds-bind (scalar_placeholders x) (λ ps. scalar_placeholders x + projected_sum ps)
            projected_sum _ _
            (Binds-more (scalar_placeholders x) projected_sum _ (group_projections-Binds gs))
            (λ ps. Binds-return _ projected_sum _ refl))

  measure_projections-Binds :
      (ms : List (Text × MeasureExpr))
      → Binds 0 projected_sum (measure_projections service scope fromisoformat alias_of supplied ms)
  unfolding measure_projections all_projected projected_placeholders
  measure_projections-Binds [] = Binds-return 0 projected_sum [] refl
  measure_projections-Binds ((a, m) ∷ ms) =
      Binds-bind 0 measure_placeholders projected_sum _ _ (measure-Binds m) (λ x.
        Binds-bind (measure_placeholders x) (λ ps. measure_placeholders x + projected_sum ps)
          projected_sum _ _
          (Binds-more (measure_placeholders x) projected_sum _ (measure_projections-Binds ms))
          (λ ps. Binds-return _ projected_sum _ refl))

  pub projections-Binds :
      (p : LogicalPlan)
      → Binds 0 projected_sum (projections service scope fromisoformat alias_of supplied p)
  unfolding projections
  projections-Binds p =
      Binds-bind 0 projected_sum projected_sum _ _ (bucket_projection-Binds p.time_bucket) (λ b.
        Binds-bind (projected_sum b) (λ g. projected_sum b + projected_sum g) projected_sum _ _
          (Binds-more (projected_sum b) projected_sum _ (group_projections-Binds p.group_by))
          (λ g.
            let before : ℕ = projected_sum b + projected_sum g in
            Binds-bind before (λ m. before + projected_sum m) projected_sum _ _
              (Binds-more before projected_sum _ (measure_projections-Binds p.measures))
              (λ m.
                Binds-bind (before + projected_sum m) (λ u. before + projected_sum m) projected_sum
                  _ _
                  (Binds-lift (before + projected_sum m) (λ u. before + projected_sum m)
                    (require_projections p.plan_id (b ++ (g ++ m))) (λ u e. refl))
                  (λ u.
                    Binds-return _ projected_sum _
                      (omega (arith, projected_sum-append b (g ++ m), projected_sum-append g m))))))

  pub grouping-Binds :
      (p : LogicalPlan)
      → Binds 0 all_projected (grouping service scope fromisoformat alias_of supplied p)
  unfolding grouping
  grouping-Binds p =
      Binds-bind 0 projected_sum all_projected _ _ (bucket_projection-Binds p.time_bucket) (λ b.
        Binds-bind (projected_sum b) (λ g. projected_sum b + projected_sum g) all_projected _ _
          (Binds-more (projected_sum b) projected_sum _ (group_projections-Binds p.group_by))
          (λ g. Binds-return _ all_projected _ (projected_sum-append b g)))

-- ===== src/Sql/Validators/Conjuncts.antt =====
-- The split of a condition into its conjuncts, `_conjuncts` of app/sql/validators/suite.py.
use text_to_sql_rag.Prelude.{
  ℕ, zero, suc, ◌≡◌, ◌<◌, refl, true, Bool-cases, inl, inr, [], ◌∷◌, ◌++◌, some, text, length,
  arith, if◌then◌else◌,
}
use text_to_sql_rag.Sql.Validators.Nodes.{Sqlglot}
use text_to_sql_rag.Sql.Validators.Evidence.{conjuncts, conjuncts_of}

-- A walk of one side of a conjunction passes fewer nodes than a walk of the conjunction.
pub record IsTree (lib : Sqlglot) : Type 0 where
  pub this_smaller :
      (n : lib.Node)
      → lib.is_instance (text "And") n ≡ true
      → length (lib.walk (lib.this n)) < length (lib.walk n)
  pub expression_smaller :
      (n : lib.Node)
      → lib.is_instance (text "And") n ≡ true
      → length (lib.walk (lib.expression n)) < length (lib.walk n)

module _ (lib : Sqlglot) (tree : IsTree lib) where
  open lib use {Node, is_instance, walk, this, expression}

  conjuncts_enough :
      (f g : ℕ) (n : Node)
      → length (walk n) < f
      → length (walk n) < g
      → conjuncts lib f n ≡ conjuncts lib g n
  unfolding conjuncts
  conjuncts_enough zero g n h k = absurd (omega (arith, h))
  conjuncts_enough (suc f) zero n h k = absurd (omega (arith, k))
  conjuncts_enough (suc f) (suc g) n h k = elim (Bool-cases (is_instance (text "And") n)) [
    | inr leaf ↦ rw leaf refl
    | inl both ↦
        let a = tree.this_smaller n both in
        let b = tree.expression_smaller n both in
        rw
          (
            conjuncts_enough f g (this n) (omega (arith, a, h)) (omega (arith, a, k)),
            conjuncts_enough f g (expression n) (omega (arith, b, h)) (omega (arith, b, k)),
          )
          refl
  ]

  -- The split of a conjunction is the split of its left side before that of its right side, and a condition that is no
  -- conjunction is its own one conjunct, if a walk of a side passes fewer nodes than a walk of the conjunction.
  pub conjuncts_of_lem :
      (n : Node)
      → conjuncts_of lib (some n) ≡ (
          if is_instance (text "And") n
          then conjuncts_of lib (some (this n)) ++ conjuncts_of lib (some (expression n))
          else n ∷ [])
  unfolding conjuncts
  conjuncts_of_lem n = elim (Bool-cases (is_instance (text "And") n)) [
    | inr leaf ↦ rw leaf refl
    | inl both ↦
        let a = tree.this_smaller n both in
        let b = tree.expression_smaller n both in
        rw
          (
            both,
            conjuncts_enough (length (walk n)) (suc (length (walk (this n)))) (this n)
                (omega (arith, a)) (omega arith),
            conjuncts_enough (length (walk n)) (suc (length (walk (expression n)))) (expression n)
                (omega (arith, b)) (omega arith),
          )
          refl
  ]

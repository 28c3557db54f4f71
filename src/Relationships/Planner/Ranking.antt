-- ===== src/Relationships/Planner/Ranking.antt =====
-- The order of the rank keys, and the best plan.
use text_to_sql_rag.Prelude.{
  ℕ, ◌≤◌, Bool, map, length, all_of, sorted_set, ◌≡◌, refl, true, false, List, [], ◌∷◌, arith, Text,
  ◌==◌, list_eq, nat_eq, lex_lt, text_lt, IsWeakOrder, lex_lt-IsStrictTotal, total-IsWeakOrder,
  text_lt-IsStrictTotal, same_set, subset_refl, ap, Bool-cases, inl, inr, eq_of_==,
}
use text_to_sql_rag.Contracts.Errors.{ok}
use text_to_sql_rag.Relationships.Planner.{
  JoinPlan, RankKey, rank_key_eq, rank_key, key_lt, plan_lt, choose, relationship_refs,
  is_additive_safe, plan_tables,
}

refs_order : IsWeakOrder (lex_lt text_lt)
refs_order = total-IsWeakOrder (lex_lt text_lt) (lex_lt-IsStrictTotal text_lt text_lt-IsStrictTotal)

key_lt_asym : (a b : RankKey) → key_lt a b ≡ true → key_lt b a ≡ false
unfolding key_lt
key_lt_asym a b h = ground (arith, refs_order.asym a.refs b.refs)

key_lt_not_trans : (a b c : RankKey) → key_lt a b ≡ false → key_lt b c ≡ false → key_lt a c ≡ false
unfolding key_lt
key_lt_not_trans a b c h k = ground (arith, refs_order.not_trans a.refs b.refs c.refs)

pub plan_lt-IsWeakOrder : IsWeakOrder plan_lt
plan_lt-IsWeakOrder = record {
  asym = λ p q. key_lt_asym (rank_key p) (rank_key q);
  not_trans = λ p q r. key_lt_not_trans (rank_key p) (rank_key q) (rank_key r);
}

-- Equal keys list equal references.
refs-rank_key :
    (p q : JoinPlan) → rank_key p ≡ rank_key q → relationship_refs p ≡ relationship_refs q
unfolding rank_key
refs-rank_key p q h = ap (λ k. k.refs) h

same_set_refl : (refs : List Text) → same_set refs refs ≡ true
same_set_refl refs = ground (arith, subset_refl refs)

-- The test for an ambiguous pair never succeeds: the keys that it compares hold the references.
pub choose_best :
    (base_table : Text) (best : JoinPlan) (more : List JoinPlan)
    → choose base_table (best ∷ more) ≡ ok best
unfolding choose
choose_best base_table best [] = refl
choose_best base_table best (second ∷ more) = elim (Bool-cases (rank_key second == rank_key best)) [
  | inr differ ↦ rw differ
  | inl same ↦
      let refs = refs-rank_key second best (eq_of_== _ _ same) in
      rw (same, refs, same_set_refl (relationship_refs best))
]

-- No join multiplies the rows of the table that it leaves.
abbrev pub keeps_rows : JoinPlan → Bool
keeps_rows p = all_of (λ j. j.preserves_left_multiplicity) p.joins

-- The number of different tables of the plan.
abbrev pub table_count : JoinPlan → ℕ
table_count p = length (sorted_set (p.base_table ∷ map (λ j. j.to_table) p.joins))

-- The first plan is at least as good as the second: it multiplies no rows if the second multiplies none; of two
-- that agree on this it has no more tables, of two that agree on these no more joins, and of two that agree on
-- all of them the list of its references is not after that of the second.
pub record RanksFirst (p q : JoinPlan) : Type 0 where
  pub safety : keeps_rows q ≡ true → keeps_rows p ≡ true
  pub tables : keeps_rows p ≡ keeps_rows q → table_count p ≤ table_count q
  pub joins :
      keeps_rows p ≡ keeps_rows q → table_count p ≡ table_count q → length p.joins ≤ length q.joins
  pub refs :
      keeps_rows p ≡ keeps_rows q
      → table_count p ≡ table_count q
      → length p.joins ≡ length q.joins
      → lex_lt text_lt (relationship_refs q) (relationship_refs p) ≡ false

pub plan_lt-RanksFirst : (p q : JoinPlan) → plan_lt q p ≡ false → RanksFirst p q
unfolding key_lt rank_key is_additive_safe plan_tables
plan_lt-RanksFirst p q h = record {
  safety = λ e. ground (arith, h, e);
  tables = λ e. ground (arith, h, e);
  joins = λ e f. ground (arith, h, e, f);
  refs = λ e f g. ground (arith, h, e, f, g);
}

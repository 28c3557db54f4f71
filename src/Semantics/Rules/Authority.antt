-- ===== src/Semantics/Rules/Authority.antt =====
-- What the closure adds, the principal may use.
use text_to_sql_rag.Prelude.{
  ℕ, ◌≡◌, subst, ◌∙◌, ◌⊎◌, inl, inr, true, List, [], ◌∷◌, arith, Text, ◌==◌, list_eq, nat_eq,
  contains, contains-append, union, difference, Bool-cases, sorted_set, contains-sorted_set,
}
use text_to_sql_rag.Contracts.Errors.{ok, >>=-eq-ok}
use text_to_sql_rag.Contracts.Scope.{TrustedScope, discover, use_in_predicate}
use text_to_sql_rag.Contracts.Records.{RuleRecord}
use text_to_sql_rag.Catalog.Service.{CatalogService, get_table}
use text_to_sql_rag.Catalog.Service.Laws.{may, get_table_checked, require_columns_usable-may}
use text_to_sql_rag.Semantics.Rules.{
  ClosureInput, Closing, ClosureResult, close, max_closure_rounds, close_rounds, opening,
  require_added, get_tables, added_columns, added_tables, needed_columns, needed_tables,
}
use text_to_sql_rag.Semantics.Rules.Steps.{Step, close_rounds_ind}
use text_to_sql_rag.Semantics.Rules.Fixpoint.{state_of, close_inv}

contains-union :
    (x : Text) (xs ys : List Text)
    → contains x (union xs ys) ≡ true
    → (contains x xs ≡ true) ⊎ (contains x (difference ys xs) ≡ true)
contains-union x xs ys h = elim (Bool-cases (contains x xs)) [
  | inl old ↦ inl old
  | inr new ↦ inr (ground (arith, contains-append x xs (difference ys xs)))
]

module _ (service : CatalogService) (scope : TrustedScope) where
  require_added-may :
      (columns : List Text)
      → require_added service scope columns ≡ ok tt
      → (x : Text) → contains x columns ≡ true
      → may service scope use_in_predicate x ≡ true
  unfolding require_added
  require_added-may [] h x m = cc
  require_added-may (c ∷ cs) h x m =
      require_columns_usable-may service scope (c ∷ cs) use_in_predicate h x m

  get_tables-may :
      (tables : List Text)
      → get_tables service scope tables ≡ ok tt
      → (x : Text) → contains x tables ≡ true
      → may service scope discover x ≡ true
  unfolding get_tables
  get_tables-may [] h x m = cc
  get_tables-may (t ∷ ts) h x m =
      let (table, found, rest) = >>=-eq-ok (get_table service scope t) _ h in
      let here = (get_table_checked service scope t table found).1 in
      elim (Bool-cases (x == t)) [
        | inl same ↦ ground (arith, here)
        | inr other ↦ get_tables-may ts rest x (ground arith)
      ]

  -- What is new in the second state, the principal may use: a column in a predicate, and a table by
  -- discovery.
  pub record AddsUsable (c d : ClosureInput) : Type 0 where
    pub columns :
        (x : Text)
        → contains x d.columns ≡ true
        → (contains x c.columns ≡ true) ⊎ (may service scope use_in_predicate x ≡ true)
    pub tables :
        (x : Text)
        → contains x d.tables ≡ true
        → (contains x c.tables ≡ true) ⊎ (may service scope discover x ≡ true)

  AddsUsable-refl : (c : ClosureInput) → AddsUsable c c
  AddsUsable-refl c = record { columns = λ x m. inl m; tables = λ x m. inl m }

  AddsUsable-trans : (a b c : ClosureInput) → AddsUsable a b → AddsUsable b c → AddsUsable a c
  AddsUsable-trans a b c g h = record {
    columns = λ x m. elim (h.columns x m) [ inl old ↦ g.columns x old | inr may_use ↦ inr may_use ];
    tables = λ x m. elim (h.tables x m) [ inl old ↦ g.tables x old | inr may_see ↦ inr may_see ];
  }

  Step-AddsUsable :
      (c : Closing) (r : RuleRecord) (d : Closing)
      → Step service scope c r d
      → AddsUsable c.state d.state
  Step-AddsUsable c r d (Step.skip _) = AddsUsable-refl c.state
  Step-AddsUsable c r d (Step.set _ _ _ _) = record {
    columns = λ x m. inl m;
    tables = λ x m. inl m;
  }
  Step-AddsUsable c r d (Step.prefer _) = AddsUsable-refl c.state
  Step-AddsUsable c r d (Step.semijoin _) = AddsUsable-refl c.state
  Step-AddsUsable c r d (Step.mandate pred_tables needs _ columns_ok tables_ok) = record {
    columns = λ x m. elim (contains-union x c.state.columns (needed_columns r needs.2) m) [
      | inl old ↦ inl old
      | inr added ↦ inr (require_added-may (added_columns c r needs.2) columns_ok x added)
    ];
    tables = λ x m. elim (contains-union x c.state.tables (needed_tables r pred_tables needs.1) m) [
      | inl old ↦ inl old
      | inr added ↦ inr (
          get_tables-may (sorted_set (added_tables c r pred_tables needs.1)) tables_ok x
            (contains-sorted_set x (added_tables c r pred_tables needs.1) ∙ added))
    ];
  }

  pub close_rounds-AddsUsable :
      (left : ℕ) (seed : ClosureInput) (q : Closing × ℕ)
      → close_rounds service scope left (opening seed) ≡ ok q
      → AddsUsable seed q.0.state
  close_rounds-AddsUsable left seed q h =
      close_rounds_ind service scope (λ c d. AddsUsable c.state d.state)
        (λ c. AddsUsable-refl c.state) (λ a b c. AddsUsable-trans a.state b.state c.state)
        Step-AddsUsable left (opening seed) q h

  -- Every column of a closure that was not in the seed may be used in a predicate by the principal, and
  -- every table that was not in the seed may be discovered.
  pub close-AddsUsable :
      (seed : ClosureInput) (r : ClosureResult)
      → close service scope seed ≡ ok r
      → AddsUsable seed (state_of seed r)
  close-AddsUsable seed r h =
      let (q, looped, e) = close_inv service scope seed r h in
      let adds = close_rounds-AddsUsable max_closure_rounds seed q looped in
      subst (λ s. AddsUsable seed (state_of seed s)) e
        (record { columns = adds.columns; tables = adds.tables })

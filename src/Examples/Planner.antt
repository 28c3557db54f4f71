-- ===== src/Examples/Planner.antt =====
-- A join of the two tables of the examples.
use text_to_sql_rag.Prelude.{
  ◌≡◌, refl, true, false, [], ◌∷◌, text, text_code, subset, list_eq, nat_eq, All,
}
use text_to_sql_rag.Contracts.Errors.{ok, Ensures}
use text_to_sql_rag.Relationships.Planner.{
  JoinPlan, plan, enumerate, search_plans, weight, visit, expand, expand_edges, edges_from,
  permitted, preserves_multiplicity, require_some, choose, relationship_refs, rank_key_eq,
}
use text_to_sql_rag.Relationships.Planner.Paths.{IsConnection}
use text_to_sql_rag.Relationships.Planner.Ranking.{RanksFirst}
use text_to_sql_rag.Relationships.Planner.Choice.{
  plan-IsConnection, plan_least, plan-FailsAsPlan, terminals, FailsAsPlan,
}
use text_to_sql_rag.Examples.Data.{
  service, scope, orders, customers, orders_customers, catalog_code,
}

abbrev joined : JoinPlan
joined = record {
  base_table = orders;
  joins =
      record {
        relationship = orders_customers;
        from_table = orders;
        to_table = customers;
        reversed = false;
        preserves_left_multiplicity = true;
      }
      ∷ [];
}

plan_test : plan service scope orders (orders ∷ customers ∷ []) (text "s.j@1" ∷ []) true ≡ ok joined
unfolding catalog_code plan enumerate search_plans weight visit expand expand_edges edges_from
    permitted preserves_multiplicity require_some choose
plan_test = refl

plan-IsConnection_example :
    IsConnection service scope true orders
      (terminals service scope orders (orders ∷ customers ∷ []) [] true)
      joined
plan-IsConnection_example =
    plan-IsConnection service scope orders (orders ∷ customers ∷ []) (text "s.j@1" ∷ []) true joined
      plan_test

plan_least_example :
    Ensures
      (All (λ q. subset (text "s.j@1" ∷ []) (relationship_refs q) ≡ true → RanksFirst joined q))
      (enumerate service scope orders (customers ∷ []) true)
unfolding text_code
plan_least_example =
    plan_least service scope orders (orders ∷ customers ∷ []) (text "s.j@1" ∷ []) true joined refl
      plan_test

plan-FailsAsPlan_example : FailsAsPlan (plan service scope orders (text "s.z" ∷ []) [] true)
plan-FailsAsPlan_example = plan-FailsAsPlan service scope orders (text "s.z" ∷ []) [] true

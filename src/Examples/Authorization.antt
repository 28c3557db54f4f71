-- ===== src/Examples/Authorization.antt =====
-- The policy of the examples at work, and what the catalog resolves under it.
use text_to_sql_rag.Prelude.{
  ◌≡◌, refl, sym, ◌∙◌, ◌↔◌, true, false, not, ◌&&◌, none, [], ◌∷◌, text, contains, list_eq, nat_eq,
  lookup, ap, ◌==◌, subset, eq_of_==, Bool-cases, inl, inr,
}
use mathlib.Core.Option.{some-injective, none-ne-some}
use text_to_sql_rag.Contracts.Errors.{ok}
use text_to_sql_rag.Contracts.Ids.{is_snapshot_id}
use text_to_sql_rag.Contracts.Scope.{
  Action, discover, read, execute_metric, use_in_predicate, disclose, is_empty, mint,
  verify_construction,
}
use text_to_sql_rag.Authorization.Policy.{decision, granted_to, denied_to, denied_object_ids}
use text_to_sql_rag.Authorization.Policy.Decisions.{IsAllowed, allowed-IsAllowed}
use text_to_sql_rag.Authorization.Policy.Sweeps.{allows, contains-check_all}
use text_to_sql_rag.Authorization.Scope.{establish_scope, fields_of, reauthorize}
use text_to_sql_rag.Authorization.Scope.Laws.{
  IsKeyed, establish_scope-is_empty, reauthorize-establish_scope,
}
use text_to_sql_rag.Examples.Data.{
  ana, ana_policy, open_policy, engine, orders, secret, scope, snapshot_name, policy_code,
}

-- A deny of the column wins over the grant on the schema.
denied_test : (decision ana_policy 3 read secret).allowed ≡ false
unfolding policy_code
denied_test = refl

allowed-IsAllowed_example :
    ((decision ana_policy 3 read orders).allowed ≡ true) ↔ IsAllowed ana_policy read orders
allowed-IsAllowed_example = allowed-IsAllowed ana_policy 3 read orders

same_grants : (a : Action) → subset (granted_to ana_policy a) (granted_to open_policy a) ≡ true
unfolding policy_code
same_grants discover = refl
same_grants read = refl
same_grants use_in_predicate = refl
same_grants execute_metric = refl
same_grants disclose = refl

fewer_denies : (a : Action) → subset (denied_to open_policy a) (denied_to ana_policy a) ≡ true
unfolding policy_code
fewer_denies discover = refl
fewer_denies read = refl
fewer_denies use_in_predicate = refl
fewer_denies execute_metric = refl
fewer_denies disclose = refl

contains-check_all_example :
    contains secret (secret ∷ [])
    ≡ (contains secret (secret ∷ orders ∷ []) && not (allows engine ana read secret))
unfolding policy_code
contains-check_all_example =
    contains-check_all engine ana read (secret ∷ orders ∷ []) (secret ∷ []) secret refl

establish_scope-is_empty_example : is_empty scope.discovery ≡ false
unfolding policy_code establish_scope fields_of mint verify_construction is_snapshot_id
    denied_object_ids
establish_scope-is_empty_example =
    establish_scope-is_empty (text "k") 5 engine ana snapshot_name none scope refl

engine-IsKeyed : IsKeyed engine
unfolding lookup
engine-IsKeyed principal_id policy h = elim (Bool-cases (principal_id == ana)) [
  | inl same ↦
      let h' = rw same at h in
      sym (ap (λ p. p.principal_id) (some-injective ana_policy policy h'))
      ∙ sym (eq_of_== principal_id ana same)
  | inr other ↦ let h' = rw other at h in absurd (none-ne-some policy h')
]

reauthorize-establish_scope_example :
    reauthorize (text "k") 9 engine scope ≡ ok (record scope { established_at = 9 })
unfolding policy_code establish_scope fields_of mint verify_construction is_snapshot_id
    denied_object_ids
reauthorize-establish_scope_example =
    reauthorize-establish_scope (text "k") 5 9 engine engine-IsKeyed ana snapshot_name none scope
      refl

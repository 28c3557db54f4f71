-- ===== src/Sql/Validators/Allowed.antt =====
-- What the gates of authority of app/sql/validators/suite.py prove of the principal where they do not block.
use text_to_sql_rag.Prelude.{
  ◌≡◌, refl, ◌∙◌, ap, true, false, none, List, [], ◌∷◌, ◌++◌, Text, arith, any_of, All, All-map,
  Bool-cases, inl, inr, contains, list_eq, nat_eq, ◌==◌, sorted_set, contains-sorted_set,
  concat_map, All-elim, eq_of_==, subst,
}
use text_to_sql_rag.Contracts.Errors.{ok, Finding, >>=-eq-ok, ok-injective, policy_epoch_changed}
use text_to_sql_rag.Contracts.Scope.{
  TrustedScope, Action, read, use_in_predicate, discover, execute_metric,
}
use text_to_sql_rag.Contracts.Expressions.{measure_columns}
use text_to_sql_rag.Contracts.Plan.{BoundSemanticPlan, CompiledQuery}
use text_to_sql_rag.Authorization.Policy.{check}
use text_to_sql_rag.Authorization.Policy.Sweeps.{allows}
use text_to_sql_rag.Catalog.Service.{CatalogService}
use text_to_sql_rag.Sql.Compiler.Emission.{BoundValue}
use text_to_sql_rag.Sql.Validators.Nodes.{is_blocking}
use text_to_sql_rag.Sql.Validators.Records.{
  each, refused, action_on, before_at, gate_authorization, gate_policy_epoch,
}
use text_to_sql_rag.Sql.Validators.Clean.{
  IsClean, IsPassed, IsClean-append, IsClean-passed, not-IsClean, each-IsPassed,
}

-- The principal may do what the query does, under the policy that the plan was bound under.
pub record IsAllowed (service : CatalogService) (scope : TrustedScope)
    (compiled : CompiledQuery BoundValue) (plan : BoundSemanticPlan) : Type 0 where
  pub measured :
      (c : Text)
      → contains c compiled.referenced_columns ≡ true
      → contains c (concat_map (λ m. measure_columns m.expression) plan.metrics) ≡ true
      → allows service.policy scope.principal_id read c ≡ true
  pub others :
      (c : Text)
      → contains c compiled.referenced_columns ≡ true
      → contains c (concat_map (λ m. measure_columns m.expression) plan.metrics) ≡ false
      → allows service.policy scope.principal_id use_in_predicate c ≡ true
  pub tables :
      (t : Text)
      → contains t compiled.referenced_tables ≡ true
      → allows service.policy scope.principal_id discover t ≡ true
  pub metrics :
      (ref id version : Text)
      → contains ref plan.metric_refs ≡ true
      → ref ≡ id ++ (b'@' ∷ version)
      → contains b'@' id ≡ false
      → allows service.policy scope.principal_id execute_metric id ≡ true
  pub epoch : plan.policy_epoch ≡ scope.policy_epoch
  pub snapshot : plan.snapshot_id ≡ scope.snapshot_id

before_at-append :
    (id version : Text) → contains b'@' id ≡ false → before_at (id ++ (b'@' ∷ version)) ≡ id
unfolding before_at nat_eq
before_at-append [] version h = refl
before_at-append (c ∷ id) version h = ground (arith, before_at-append id version)

module _ (service : CatalogService) (scope : TrustedScope) where
  refused-IsPassed :
      (action : Action) (resource subject : Text)
      → IsPassed (refused service scope action resource subject)
      → allows service.policy scope.principal_id action resource ≡ true
  unfolding refused
  refused-IsPassed action resource subject p =
      let (d, checked, done) =
        >>=-eq-ok (check service.policy scope.principal_id action resource) _ p.completes in
      let allowed : d.allowed ≡ true =
        IsClean-passed d.allowed _ _ (ap (any_of is_blocking) (ok-injective done) ∙ p.clean) in
      rw (checked, allows) allowed

  gate_policy_epoch-IsClean :
      (plan : BoundSemanticPlan)
      → IsClean (gate_policy_epoch plan scope)
      → ((plan.policy_epoch == scope.policy_epoch) ≡ true)
        × ((plan.snapshot_id == scope.snapshot_id) ≡ true)
  unfolding gate_policy_epoch
  gate_policy_epoch-IsClean plan h = elim (Bool-cases (plan.policy_epoch == scope.policy_epoch)) [
    | inl same ↦ let h' = rw (same, gate_policy_epoch) at h in (same, IsClean-passed _ _ _ h')
    | inr other ↦
        let h' = rw (other, gate_policy_epoch) at h in not-IsClean policy_epoch_changed none [] h'
  ]

  -- One loop of the gate.
  each-refused :
      {A : Type 0} (action : A → Action) (resource subject : A → Text) (xs : List A)
      (fs : List Finding)
      → each (λ x. refused service scope (action x) (resource x) (subject x)) xs ≡ ok fs
      → IsClean fs
      → All (λ x. allows service.policy scope.principal_id (action x) (resource x) ≡ true) xs
  each-refused action resource subject xs fs h c =
      All-map (λ x. IsPassed (refused service scope (action x) (resource x) (subject x)))
        (λ x. allows service.policy scope.principal_id (action x) (resource x) ≡ true) xs
        (λ x. refused-IsPassed (action x) (resource x) (subject x))
        (each-IsPassed (λ x. refused service scope (action x) (resource x) (subject x)) xs fs h c)

  pub gate_authorization-IsPassed :
      (compiled : CompiledQuery BoundValue) (plan : BoundSemanticPlan)
      → IsPassed (gate_authorization service scope compiled plan)
      → IsClean (gate_policy_epoch plan scope)
      → IsAllowed service scope compiled plan
  unfolding gate_authorization
  gate_authorization-IsPassed compiled plan p h =
      let (cs, columns, h1) =
        >>=-eq-ok
          (each (λ c. refused service scope (action_on plan.metrics c) c c)
            (sorted_set compiled.referenced_columns))
          _ p.completes in
      let (ts, tables, h2) =
        >>=-eq-ok
          (each (λ t. refused service scope discover t t) (sorted_set compiled.referenced_tables)) _
          h1 in
      let (ms, metrics, done) =
        >>=-eq-ok
          (each (λ ref. refused service scope execute_metric (before_at ref) ref) plan.metric_refs)
          _ h2 in
      let parts =
        IsClean-append cs (ts ++ ms) (ap (any_of is_blocking) (ok-injective done) ∙ p.clean) in
      let parts' = IsClean-append ts ms parts.1 in
      let pinned = gate_policy_epoch-IsClean plan h in
      let on_columns =
        each-refused (action_on plan.metrics) (λ c. c) (λ c. c)
          (sorted_set compiled.referenced_columns) cs columns parts.0 in
      let on_tables =
        each-refused (λ t. discover) (λ t. t) (λ t. t) (sorted_set compiled.referenced_tables) ts
          tables parts'.0 in
      let on_metrics =
        each-refused (λ r. execute_metric) before_at (λ r. r) plan.metric_refs ms metrics
          parts'.1 in
      let of_column : (c : Text)
          → contains c compiled.referenced_columns ≡ true
          → allows service.policy scope.principal_id (action_on plan.metrics c) c ≡ true =
        λ c there.
          All-elim
            (λ c. allows service.policy scope.principal_id (action_on plan.metrics c) c ≡ true) c
            (sorted_set compiled.referenced_columns) on_columns
            (contains-sorted_set c compiled.referenced_columns ∙ there) in
      record {
        measured = λ c there is.
            subst (λ a. allows service.policy scope.principal_id a c ≡ true) (rw is refl)
              (of_column c there);
        others = λ c there is_not.
            subst (λ a. allows service.policy scope.principal_id a c ≡ true) (rw is_not refl)
              (of_column c there);
        tables = λ t there.
            All-elim (λ t. allows service.policy scope.principal_id discover t ≡ true) t
              (sorted_set compiled.referenced_tables) on_tables
              (contains-sorted_set t compiled.referenced_tables ∙ there);
        metrics = λ ref id version there e plain.
            subst (λ x. allows service.policy scope.principal_id execute_metric x ≡ true)
              (ap before_at e ∙ before_at-append id version plain)
              (All-elim
                (λ r. allows service.policy scope.principal_id execute_metric (before_at r) ≡ true)
                ref plan.metric_refs on_metrics there);
        epoch = eq_of_== plan.policy_epoch scope.policy_epoch pinned.0;
        snapshot = eq_of_== plan.snapshot_id scope.snapshot_id pinned.1;
      }

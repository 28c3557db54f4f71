-- ===== src/Authorization/Scope/Laws.antt =====
-- What an established scope holds, and what re-deriving it keeps.
use text_to_sql_rag.Prelude.{
  ℕ, ◌≡◌, refl, ◌≢◌, ap, ◌∙◌, Bool, true, false, ◌&&◌, Option, none, some, List, [], ◌∷◌, ◌++◌,
  Text, arith, list_eq, nat_eq, leb, lookup, ==_refl, Option-cases, inl, inr, if◌then◌else◌,
}
use text_to_sql_rag.Contracts.Errors.{ok, err, value_error}
use text_to_sql_rag.Contracts.Ids.{is_snapshot_id}
use text_to_sql_rag.Contracts.Scope.{discover, read, action_eq, TrustedScope, mint, is_empty}
use text_to_sql_rag.Authorization.Policy.{
  PolicyEngine, PrincipalPolicy, principal, denied_object_ids, denied_to,
}
use text_to_sql_rag.Authorization.Scope.{
  or_none, purpose_or, fields_of, establish_scope, reauthorize,
}

-- The engine files each policy under its principal, as `from_file` does.
abbrev pub IsKeyed : PolicyEngine → Type 0
IsKeyed engine =
    (principal_id : Text) (policy : PrincipalPolicy)
    → lookup principal_id engine.principals ≡ some policy
    → policy.principal_id ≡ principal_id

or_none-is_empty :
    (domains : List Text)
    → elim (or_none domains) as (λ _. Bool) [
      | none ↦ false
      | some [] ↦ true
      | some (d ∷ ds) ↦ false
    ]
      ≡ false
or_none-is_empty [] = refl
or_none-is_empty (d ∷ ds) = refl

purpose_or_twice :
    (purpose : Option Text) (p : Text)
    → purpose_or (some (purpose_or purpose p)) p ≡ purpose_or purpose p
purpose_or_twice none [] = refl
purpose_or_twice none (c ∷ p) = refl
purpose_or_twice (some []) [] = refl
purpose_or_twice (some []) (c ∷ p) = refl
purpose_or_twice (some (c ∷ s)) p = refl

module _ (token : Text) (now : ℕ) (engine : PolicyEngine) (principal_id snapshot_id : Text)
    (purpose : Option Text) where
  -- A known principal gets the fields of its policy, and the construction check passes exactly
  -- when the epoch and the snapshot are well formed.
  establish_scope_known :
      (policy : PrincipalPolicy)
      → lookup principal_id engine.principals ≡ some policy
      → establish_scope token now engine principal_id snapshot_id purpose ≡ (
          if leb 1 engine.policy_epoch && is_snapshot_id snapshot_id
          then ok (
              fields_of token now engine policy
                (denied_to policy discover ++ denied_to policy read)
                snapshot_id
                purpose)
          else err value_error)
  unfolding establish_scope principal denied_object_ids mint fields_of
  establish_scope_known policy h =
      ground (arith, ==_refl token, ==_refl policy.tenant_id, ==_refl snapshot_id)

  establish_scope_unknown :
      lookup principal_id engine.principals ≡ none
      → {s : TrustedScope}
      → establish_scope token now engine principal_id snapshot_id purpose ≢ ok s
  unfolding establish_scope principal
  establish_scope_unknown h e = ground arith

  -- What a successful call returned.
  pub establish_scope_inv :
      (s : TrustedScope)
      → establish_scope token now engine principal_id snapshot_id purpose ≡ ok s
      → (policy : PrincipalPolicy) × (lookup principal_id engine.principals ≡ some policy)
        × ((leb 1 engine.policy_epoch && is_snapshot_id snapshot_id) ≡ true)
        × (s
            ≡ fields_of token now engine policy
                (denied_to policy discover ++ denied_to policy read)
                snapshot_id
                purpose)
  establish_scope_inv s h = elim (Option-cases (lookup principal_id engine.principals)) [
    | inl unknown ↦ absurd (establish_scope_unknown unknown h)
    | inr (policy, known) ↦ (
      policy,
      known,
      ground (arith, establish_scope_known policy known),
      ground (arith, establish_scope_known policy known),
    )
  ]

  -- An established scope never has an empty discovery restriction: a policy that lists no domain
  -- is read as one without a restriction on domains.
  pub establish_scope-is_empty :
      (s : TrustedScope)
      → establish_scope token now engine principal_id snapshot_id purpose ≡ ok s
      → is_empty s.discovery ≡ false
  unfolding is_empty fields_of
  establish_scope-is_empty s h =
      let (policy, known, formed, e) = establish_scope_inv s h in
      ap (λ t. is_empty t.discovery) e ∙ or_none-is_empty policy.domains

module _ (token : Text) (now later : ℕ) (engine : PolicyEngine) (keyed : IsKeyed engine)
    (principal_id snapshot_id : Text) (purpose : Option Text) (s : TrustedScope)
    (established : establish_scope token now engine principal_id snapshot_id purpose ≡ ok s) where
  -- Under an unchanged policy, re-deriving a scope gives it back, established at the later time.
  pub reauthorize-establish_scope :
      reauthorize token later engine s ≡ ok (record s { established_at = later })
  unfolding reauthorize fields_of
  reauthorize-establish_scope =
      let (policy, known, formed, e) =
        establish_scope_inv token now engine principal_id snapshot_id purpose s established in
      let same = keyed principal_id policy known in
      rw e (
        establish_scope_known token later engine policy.principal_id snapshot_id
          (some (purpose_or purpose policy.purpose)) policy (rw same known)
        ∙ rw (formed, purpose_or_twice))

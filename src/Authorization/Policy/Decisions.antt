-- ===== src/Authorization/Policy/Decisions.antt =====
-- What `check` decides: an equivalent description, and how decisions change with the policy.
use text_to_sql_rag.Prelude.{
  ℕ, ◌≡◌, ◌⊎◌, inl, inr, true, arith, Text, contains, list_eq, nat_eq, ◌↔◌, subset, contains-subset,
}
use text_to_sql_rag.Contracts.Scope.{
  Action, discover, read, use_in_predicate, execute_metric, disclose, action_eq,
}
use text_to_sql_rag.Authorization.Policy.{
  PrincipalPolicy, granted_to, denied_to, matches, decision, deny_cascade,
}
use text_to_sql_rag.Authorization.Policy.Matching.{matches_mono, contains-matches}

module _ (policy : PrincipalPolicy) (action : Action) (resource : Text) where
  abbrev pub IsDenied : Action → Type 0
  IsDenied a = matches (denied_to policy a) resource ≡ true

  -- A deny on a broader action carries over.
  abbrev pub HasBroaderDeny : Action → Type 0
  HasBroaderDeny discover = ⊥
  HasBroaderDeny read = IsDenied discover
  HasBroaderDeny use_in_predicate = IsDenied discover ⊎ IsDenied read
  HasBroaderDeny execute_metric = IsDenied discover
  HasBroaderDeny disclose = IsDenied discover ⊎ IsDenied read

  -- The grant matches, or filtering is implied by a grant to read.
  abbrev pub IsGranted : Type 0
  IsGranted =
      (matches (granted_to policy action) resource ≡ true)
      ⊎ ((action ≡ use_in_predicate) × (matches (granted_to policy read) resource ≡ true))

  abbrev pub IsGrantedExactly : Type 0
  IsGrantedExactly = contains resource (granted_to policy action) ≡ true

  -- What the policy says, without the order of the tests.
  pub record IsAllowed : Type 0 where
    pub not_denied : ¬ IsDenied action
    pub granted : IsGranted
    pub exact_if_cascaded : HasBroaderDeny action → IsGrantedExactly

module _ (policy : PrincipalPolicy) (epoch : ℕ) where
  -- The decision allows an action exactly when the action itself is not denied, a grant covers
  -- it (a grant to read covers filtering too), and, if a broader action is denied, the grant
  -- names the resource itself.
  pub allowed-IsAllowed :
      (action : Action) (resource : Text)
      → ((decision policy epoch action resource).allowed ≡ true) ↔ IsAllowed policy action resource
  unfolding decision deny_cascade
  allowed-IsAllowed discover resource = (
    λ h. record {
      not_denied = ground arith;
      granted = ground (arith, contains-matches (granted_to policy discover) resource);
      exact_if_cascaded = ground arith;
    },
    λ a. ground (arith, contains-matches (granted_to policy discover) resource),
  )
  allowed-IsAllowed read resource = (
    λ h. record {
      not_denied = ground arith;
      granted = ground (arith, contains-matches (granted_to policy read) resource);
      exact_if_cascaded = ground arith;
    },
    λ a. ground (arith, contains-matches (granted_to policy read) resource),
  )
  allowed-IsAllowed use_in_predicate resource = (
    λ h. record {
      not_denied = ground arith;
      granted = ground (arith, contains-matches (granted_to policy use_in_predicate) resource);
      exact_if_cascaded = ground arith;
    },
    λ a. ground (arith, contains-matches (granted_to policy use_in_predicate) resource),
  )
  allowed-IsAllowed execute_metric resource = (
    λ h. record {
      not_denied = ground arith;
      granted = ground (arith, contains-matches (granted_to policy execute_metric) resource);
      exact_if_cascaded = ground arith;
    },
    λ a. ground (arith, contains-matches (granted_to policy execute_metric) resource),
  )
  allowed-IsAllowed disclose resource = (
    λ h. record {
      not_denied = ground arith;
      granted = ground (arith, contains-matches (granted_to policy disclose) resource);
      exact_if_cascaded = ground arith;
    },
    λ a. ground (arith, contains-matches (granted_to policy disclose) resource),
  )

module _ (p q : PrincipalPolicy)
    (more_grants : (a : Action) → subset (granted_to p a) (granted_to q a) ≡ true)
    (fewer_denies : (a : Action) → subset (denied_to q a) (denied_to p a) ≡ true) where
  IsDenied-mono : (resource : Text) (a : Action) → IsDenied q a resource a → IsDenied p a resource a
  IsDenied-mono resource a = matches_mono (denied_to q a) (denied_to p a) resource (fewer_denies a)

  HasBroaderDeny-mono :
      (action : Action) (resource : Text)
      → HasBroaderDeny q action resource action
      → HasBroaderDeny p action resource action
  HasBroaderDeny-mono discover resource h = h
  HasBroaderDeny-mono read resource h = IsDenied-mono resource discover h
  HasBroaderDeny-mono use_in_predicate resource (inl h) = inl (IsDenied-mono resource discover h)
  HasBroaderDeny-mono use_in_predicate resource (inr h) = inr (IsDenied-mono resource read h)
  HasBroaderDeny-mono execute_metric resource h = IsDenied-mono resource discover h
  HasBroaderDeny-mono disclose resource (inl h) = inl (IsDenied-mono resource discover h)
  HasBroaderDeny-mono disclose resource (inr h) = inr (IsDenied-mono resource read h)

  IsGranted_mono :
      (action : Action) (resource : Text)
      → IsGranted p action resource
      → IsGranted q action resource
  IsGranted_mono action resource (inl h) = inl (matches_mono _ _ resource (more_grants action) h)
  IsGranted_mono action resource (inr (e, h)) =
      inr (e, matches_mono _ _ resource (more_grants read) h)

  -- Adding grants and removing denies never takes a permission away; so adding a deny or removing
  -- a grant never opens anything.
  pub allowed_mono :
      (epoch epoch' : ℕ) (action : Action) (resource : Text)
      → (decision p epoch action resource).allowed ≡ true
      → (decision q epoch' action resource).allowed ≡ true
  allowed_mono epoch epoch' action resource h =
      let a = (allowed-IsAllowed p epoch action resource).0 h in
      (allowed-IsAllowed q epoch' action resource).1 (record {
        not_denied = λ d. a.not_denied (IsDenied-mono resource action d);
        granted = IsGranted_mono action resource a.granted;
        exact_if_cascaded = λ b.
            contains-subset resource _ _ (more_grants action)
              (a.exact_if_cascaded (HasBroaderDeny-mono action resource b));
      })

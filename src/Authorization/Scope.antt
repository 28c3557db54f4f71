-- ===== src/Authorization/Scope.antt =====
-- app/authorization/scope.py: establishing and re-deriving the trusted scope.
pub mod Laws
use text_to_sql_rag.Prelude.{ℕ, Bool, Option, none, some, List, [], ◌∷◌, Text}
use text_to_sql_rag.Contracts.Errors.{Result, ok, err, ◌>>=◌, ◌>>◌}
use text_to_sql_rag.Contracts.Ids.{approved}
use text_to_sql_rag.Contracts.Scope.{DiscoveryRestriction, TrustedScope, mint}
use text_to_sql_rag.Authorization.Policy.{
  PolicyEngine, PrincipalPolicy, principal, denied_object_ids,
}

-- `policy.domains or None`
abbrev pub or_none : List Text → Option (List Text)
or_none [] = none
or_none (d ∷ ds) = some (d ∷ ds)

-- `purpose or policy.purpose`
abbrev pub purpose_or : Option Text → Text → Text
purpose_or none fallback = fallback
purpose_or (some []) fallback = fallback
purpose_or (some (c ∷ s)) fallback = c ∷ s

-- The fields of the new scope. The clock reads `now`; `token` is the construction token.
unfoldable pub fields_of :
    (token : Text) (now : ℕ)
    → PolicyEngine
    → PrincipalPolicy
    → List Text
    → Text
    → Option Text
    → TrustedScope
fields_of token now engine policy denied snapshot_id purpose = record {
  principal_id = policy.principal_id;
  tenant_id = policy.tenant_id;
  purpose = purpose_or purpose policy.purpose;
  policy_epoch = engine.policy_epoch;
  snapshot_id = snapshot_id;
  discovery = record {
    tenant_id = policy.tenant_id;
    access_scopes = policy.access_scopes;
    allowed_domains = or_none policy.domains;
    denied_object_ids = denied;
    snapshot_id = snapshot_id;
    publication_status = approved;
  };
  established_at = now;
  token = token;
}

unfoldable pub establish_scope :
    (token : Text) (now : ℕ) → PolicyEngine → Text → Text → Option Text → Result TrustedScope
unfolding fields_of
establish_scope token now engine principal_id snapshot_id purpose = do
  policy ← principal engine principal_id
  denied ← denied_object_ids engine principal_id
  mint token (fields_of token now engine policy denied snapshot_id purpose)

-- Re-derives the scope of the same principal, snapshot and purpose.
unfoldable pub reauthorize :
    (token : Text) (now : ℕ) → PolicyEngine → TrustedScope → Result TrustedScope
reauthorize token now engine scope =
    establish_scope token now engine scope.principal_id scope.snapshot_id (some scope.purpose)

-- ===== src/Contracts/Scope.antt =====
-- app/contracts/scope.py: the trusted scope, and what its construction checks.
use text_to_sql_rag.Prelude.{
  ℕ, Bool, true, false, ◌&&◌, Option, none, some, List, [], ◌∷◌, Text, Eq, ◌==◌, list_eq, nat_eq,
  leb, if◌then◌else◌,
}
use text_to_sql_rag.Contracts.Errors.{Result, ok, err, value_error}
use text_to_sql_rag.Contracts.Ids.{PublicationStatus, is_snapshot_id}

pub data Action : Type 0 where
  discover read use_in_predicate execute_metric disclose : Action

Action-discrete : Discrete Action
Action-discrete = hlevel

instance unfoldable pub action_eq : Eq Action
unfolding Action-discrete
action_eq = record { dec = Action-discrete }

-- `allowed_domains`: none means no restriction.
pub record DiscoveryRestriction : Type 0 where
  pub tenant_id : Text
  pub access_scopes : List Text
  pub allowed_domains : Option (List Text)
  pub denied_object_ids : List Text
  pub snapshot_id : Text
  pub publication_status : PublicationStatus

unfoldable pub is_empty : DiscoveryRestriction → Bool
is_empty r = elim r.allowed_domains [ none ↦ false | some [] ↦ true | some (d ∷ ds) ↦ false ]

pub record TrustedScope : Type 0 where
  pub principal_id : Text
  pub tenant_id : Text
  pub purpose : Text
  pub policy_epoch : ℕ
  pub snapshot_id : Text
  pub discovery : DiscoveryRestriction
  pub established_at : ℕ
  pub token : Text

-- The field constraints and `_verify_construction_token`, for the token of this process.
unfoldable pub verify_construction : Text → TrustedScope → Result TrustedScope
verify_construction construction_token s =
    if leb 1 s.policy_epoch && is_snapshot_id s.snapshot_id
    then if s.token == construction_token
      then if s.discovery.tenant_id == s.tenant_id
        then if s.discovery.snapshot_id == s.snapshot_id then ok s else err value_error
        else err value_error
      else err value_error
    else err value_error

-- `_mint` hands the token of this process to the constructor.
unfoldable pub mint : Text → TrustedScope → Result TrustedScope
unfolding verify_construction
mint construction_token fields =
    verify_construction construction_token (record fields { token = construction_token })

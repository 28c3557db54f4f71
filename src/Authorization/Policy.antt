-- ===== src/Authorization/Policy.antt =====
-- app/authorization/policy.py: the policy decision point. `from_file` reads JSON and is left out.
pub mod Matching
pub mod Decisions
pub mod Sweeps
use text_to_sql_rag.Prelude.{
  ℕ, Bool, true, false, ◌&&◌, ◌||◌, Option, none, some, List, [], ◌∷◌, ◌++◌, Text, text, contains,
  ◌==◌, list_eq, nat_eq, ends_with, starts_with, drop_last, any_of, select, sorted_set, lookup, not,
  get_default, if◌then◌else◌,
}
use text_to_sql_rag.Contracts.Errors.{
  Result, ok, err, fail, authorization, not_authorized, ◌>>=◌, ◌>>◌,
}
use text_to_sql_rag.Contracts.Ids.{table_id_of}
use text_to_sql_rag.Contracts.Scope.{
  Action, discover, read, use_in_predicate, execute_metric, disclose, action_eq,
}

-- `DENY_CASCADE`: the broader actions whose deny carries over.
unfoldable pub deny_cascade : Action → List Action
deny_cascade discover = []
deny_cascade read = discover ∷ []
deny_cascade use_in_predicate = discover ∷ read ∷ []
deny_cascade execute_metric = discover ∷ []
deny_cascade disclose = discover ∷ read ∷ []

-- The prose of `Decision.reason`, by the return statement that writes it.
pub data Reason : Type 0 where
  explicit_deny : Action → Text → Reason
  grant_overrides : (action broader : Action) → Reason
  cascaded_deny : (broader : Action) → Text → (action : Action) → Reason
  granted implied_by_read : Reason
  no_grant : Action → Text → Reason

pub record Decision : Type 0 where
  pub allowed : Bool
  pub reason : Reason
  pub policy_epoch : ℕ

unfoldable pub require : Decision → Text → Result (Unit {0})
require d subject = if d.allowed then ok tt else fail authorization not_authorized (some subject)

pub record PrincipalPolicy : Type 0 where
  pub principal_id : Text
  pub tenant_id : Text
  pub purpose : Text
  pub domains : List Text
  pub access_scopes : List Text
  pub grants : List (Action × List Text)
  pub denies : List (Action × List Text)

-- A pattern `stem.*` covers the stem and what lies below it.
unfoldable pub covers : Text → Text → Bool
covers resource p =
    ends_with p (text ".*") && (resource == drop_last 2 p || starts_with resource (drop_last 1 p))

unfoldable pub matches : List Text → Text → Bool
unfolding covers
matches patterns resource =
    if contains resource patterns then true else any_of (covers resource) patterns

abbrev pub granted_to : PrincipalPolicy → Action → List Text
granted_to policy action = get_default action [] policy.grants

abbrev pub denied_to : PrincipalPolicy → Action → List Text
denied_to policy action = get_default action [] policy.denies

pub record PolicyEngine : Type 0 where
  pub principals : List (Text × PrincipalPolicy)
  pub policy_epoch : ℕ

unfoldable pub principal : PolicyEngine → Text → Result PrincipalPolicy
principal engine principal_id = elim (lookup principal_id engine.principals) [
  | some policy ↦ ok policy
  | none ↦ fail authorization not_authorized (some principal_id)
]

module _ (policy : PrincipalPolicy) (epoch : ℕ) (action : Action) (resource : Text) where
  abbrev decide_as : Bool → Reason → Decision
  decide_as allowed reason = record { allowed = allowed; reason = reason; policy_epoch = epoch }

  -- The `for` loop over the broader actions; `otherwise` is the code behind it.
  unfoldable pub cascade : List Action → Decision → Decision
  cascade [] otherwise = otherwise
  cascade (broader ∷ more) otherwise =
      let rest = cascade more otherwise in
      if matches (denied_to policy broader) resource
      then if contains resource (granted_to policy action)
        then decide_as true (grant_overrides action broader)
        else decide_as false (cascaded_deny broader resource action)
      else rest

  -- The code behind the loop.
  unfoldable pub by_grants : Decision
  by_grants =
      if matches (granted_to policy action) resource
      then decide_as true granted
      else if action == use_in_predicate && matches (granted_to policy read) resource
      then decide_as true implied_by_read
      else decide_as false (no_grant action resource)

  -- `check`, for a principal that is known.
  unfoldable pub decision : Decision
  unfolding cascade by_grants
  decision =
      if matches (denied_to policy action) resource
      then decide_as false (explicit_deny action resource)
      else cascade (deny_cascade action) by_grants

unfoldable pub check : PolicyEngine → Text → Action → Text → Result Decision
unfolding principal
check engine principal_id action resource = do
  policy ← principal engine principal_id
  ok (decision policy engine.policy_epoch action resource)

-- The comprehension of `check_all`, before it is sorted. The resources are a set, so that the
-- sorted list holds each once.
unfoldable pub denied_among : PolicyEngine → Text → Action → List Text → Result (List Text)
denied_among engine principal_id action [] = ok []
denied_among engine principal_id action (r ∷ rs) = do
  d ← check engine principal_id action r
  rest ← denied_among engine principal_id action rs
  ok (if d.allowed then rest else r ∷ rest)

unfoldable pub check_all : PolicyEngine → Text → Action → List Text → Result (List Text)
unfolding denied_among
check_all engine principal_id action resources = do
  denied ← denied_among engine principal_id action resources
  ok (sorted_set denied)

unfoldable pub filter_discoverable : PolicyEngine → Text → List Text → Result (List Text)
filter_discoverable engine principal_id [] = ok []
filter_discoverable engine principal_id (r ∷ rs) = do
  d ← check engine principal_id discover r
  rest ← filter_discoverable engine principal_id rs
  ok (if d.allowed then r ∷ rest else rest)

unfoldable pub denied_object_ids : PolicyEngine → Text → Result (List Text)
unfolding principal
denied_object_ids engine principal_id = do
  policy ← principal engine principal_id
  ok (denied_to policy discover ++ denied_to policy read)

parent_discoverable : PolicyEngine → Text → Text → Result Bool
parent_discoverable engine principal_id column_id = do
  table_id ← table_id_of column_id
  table ← check engine principal_id discover table_id
  ok table.allowed

-- The parent is looked at only if the column may be read.
unfoldable pub column_parent_readable : PolicyEngine → Text → Text → Result Bool
unfolding parent_discoverable
column_parent_readable engine principal_id column_id = do
  column ← check engine principal_id read column_id
  if column.allowed then parent_discoverable engine principal_id column_id else ok false

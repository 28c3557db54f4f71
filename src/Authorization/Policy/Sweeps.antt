-- ===== src/Authorization/Policy/Sweeps.antt =====
-- `check_all` and `filter_discoverable` against the decision on each resource.
use text_to_sql_rag.Prelude.{
  ◌≡◌, Bool, true, false, not, ◌&&◌, List, [], ◌∷◌, arith, Text, contains, list_eq, nat_eq,
  contains-sorted_set,
}
use text_to_sql_rag.Contracts.Errors.{
  ok, err, >>=-eq-ok, FailsWith, >>=-FailsWith, FailsWith-intro, not_authorized,
}
use text_to_sql_rag.Contracts.Scope.{Action, discover}
use text_to_sql_rag.Authorization.Policy.{
  PolicyEngine, principal, check, denied_among, check_all, filter_discoverable,
}

-- The principal is known and its decision on the resource is to allow.
abbrev pub allows : PolicyEngine → Text → Action → Text → Bool
allows engine principal_id action r = elim (check engine principal_id action r) [
  | ok d ↦ d.allowed
  | err e ↦ false
]

module _ (engine : PolicyEngine) (principal_id : Text) (action : Action) where
  denied_among_lem :
      (rs denied : List Text) (r : Text)
      → denied_among engine principal_id action rs ≡ ok denied
      → contains r denied ≡ (contains r rs && not (allows engine principal_id action r))
  unfolding denied_among
  denied_among_lem [] denied r h = ground arith
  denied_among_lem (x ∷ rs) denied r h =
      let (d, checked, more) = >>=-eq-ok (check engine principal_id action x) _ h in
      let (rest, swept, done) = >>=-eq-ok (denied_among engine principal_id action rs) _ more in
      ground (arith, denied_among_lem rs rest r swept)

  -- The list that `check_all` returns holds exactly the resources that are not allowed.
  pub contains-check_all :
      (rs denied : List Text) (r : Text)
      → check_all engine principal_id action rs ≡ ok denied
      → contains r denied ≡ (contains r rs && not (allows engine principal_id action r))
  unfolding check_all
  contains-check_all rs denied r h =
      let (found, swept, done) = >>=-eq-ok (denied_among engine principal_id action rs) _ h in
      ground (arith, denied_among_lem rs found r swept, contains-sorted_set r found)

  -- An empty answer of `check_all` means that every resource is allowed.
  pub check_all-nil :
      (rs : List Text)
      → check_all engine principal_id action rs ≡ ok []
      → (r : Text) → contains r rs ≡ true
      → allows engine principal_id action r ≡ true
  check_all-nil rs h r m = ground (arith, contains-check_all rs [] r h)

  -- Discovery filtering keeps exactly the resources that may be discovered.
  pub contains-filter_discoverable :
      (rs kept : List Text) (r : Text)
      → filter_discoverable engine principal_id rs ≡ ok kept
      → contains r kept ≡ (contains r rs && allows engine principal_id discover r)
  unfolding filter_discoverable
  contains-filter_discoverable [] kept r h = ground arith
  contains-filter_discoverable (x ∷ rs) kept r h =
      let (d, checked, more) = >>=-eq-ok (check engine principal_id discover x) _ h in
      let (rest, swept, done) = >>=-eq-ok (filter_discoverable engine principal_id rs) _ more in
      ground (arith, contains-filter_discoverable rs rest r swept)

-- A check fails only for an unknown principal, and then with `NOT_AUTHORIZED`.
pub check-FailsWith :
    (engine : PolicyEngine) (principal_id : Text) (action : Action) (r : Text)
    → FailsWith not_authorized (check engine principal_id action r)
unfolding check
check-FailsWith engine principal_id action r =
    >>=-FailsWith not_authorized (principal engine principal_id) _
      (FailsWith-intro not_authorized (principal engine principal_id) (λ e h. ground arith))
      (λ policy. tt)

denied_among-FailsWith :
    (engine : PolicyEngine) (principal_id : Text) (action : Action) (rs : List Text)
    → FailsWith not_authorized (denied_among engine principal_id action rs)
unfolding denied_among
denied_among-FailsWith engine principal_id action [] = tt
denied_among-FailsWith engine principal_id action (r ∷ rs) =
    >>=-FailsWith not_authorized (check engine principal_id action r) _
      (check-FailsWith engine principal_id action r)
      (λ d.
        >>=-FailsWith not_authorized (denied_among engine principal_id action rs) _
          (denied_among-FailsWith engine principal_id action rs) (λ rest. tt))

pub check_all-FailsWith :
    (engine : PolicyEngine) (principal_id : Text) (action : Action) (rs : List Text)
    → FailsWith not_authorized (check_all engine principal_id action rs)
unfolding check_all
check_all-FailsWith engine principal_id action rs =
    >>=-FailsWith not_authorized (denied_among engine principal_id action rs) _
      (denied_among-FailsWith engine principal_id action rs) (λ denied. tt)

-- ===== src/Catalog/Service/Laws.antt =====
-- What a resolution that succeeds has checked.
use text_to_sql_rag.Prelude.{
  ℕ, ◌≡◌, refl, ap, ◌∙◌, Bool, true, ◌&&◌, some, List, [], ◌∷◌, arith, Text, contains, list_eq,
  nat_eq, lookup, select, values,
}
use text_to_sql_rag.Contracts.Errors.{ok, >>=-eq-ok}
use text_to_sql_rag.Contracts.Ids.{Ref, parse}
use text_to_sql_rag.Contracts.Scope.{Action, discover, execute_metric, TrustedScope}
use text_to_sql_rag.Contracts.Records.{MetricRecord, TableRecord}
use text_to_sql_rag.Authorization.Policy.{Decision, check, check_all, require}
use text_to_sql_rag.Authorization.Policy.Sweeps.{allows, check_all-nil}
use text_to_sql_rag.Catalog.Service.{
  CatalogService, get, get_pinned, require_snapshot, authorize, get_table, get_metric,
  require_columns_usable, refuse_denied, allowed_both, executable_among, executable_metrics,
}

require-eq-ok : (d : Decision) (subject : Text) → require d subject ≡ ok tt → d.allowed ≡ true
unfolding require
require-eq-ok d subject h = ground arith

refuse_denied-eq-ok : (denied : List Text) → refuse_denied denied ≡ ok tt → denied ≡ []
unfolding refuse_denied
refuse_denied-eq-ok [] h = refl
refuse_denied-eq-ok (c ∷ cs) h = cc

pub get-eq-ok :
    {R : Type 0} (records : List (Text × R)) (id : Text) (r : R)
    → get records id ≡ ok r
    → lookup id records ≡ some r
unfolding get
get-eq-ok records id r h = ground arith

-- The record stands under the id that the reference names, at the version that it pins.
pub record IsPinned {R : Type 0} (version : R → ℕ) (records : List (Text × R)) (ref : Text) (r : R)
    : Type 0 where
  pub parsed : Ref
  pub parses : parse ref ≡ ok parsed
  pub found : lookup parsed.id records ≡ some r
  pub pinned : version r ≡ parsed.version

pub get_pinned-IsPinned :
    {R : Type 0} (version : R → ℕ) (records : List (Text × R)) (ref : Text) (r : R)
    → get_pinned version records ref ≡ ok r
    → IsPinned version records ref r
unfolding get_pinned
get_pinned-IsPinned version records ref r h =
    let (parsed, parses, more) = >>=-eq-ok (parse ref) _ h in
    let (s, found, last) = >>=-eq-ok (get records parsed.id) _ more in
    let same : s ≡ r = ground arith in
    record {
      parsed = parsed;
      parses = parses;
      found = get-eq-ok records parsed.id r (found ∙ ground arith);
      pinned = ground arith;
    }

module _ (service : CatalogService) (scope : TrustedScope) where
  abbrev pub may : Action → Text → Bool
  may = allows service.policy scope.principal_id

  pub authorize-may : (a : Action) (r : Text) → authorize service scope a r ≡ ok tt → may a r ≡ true
  unfolding authorize
  authorize-may a r h =
      let (d, checked, allowed) = >>=-eq-ok (check service.policy scope.principal_id a r) _ h in
      ground (arith, require-eq-ok d r allowed)

  require_snapshot-eq :
      require_snapshot service scope ≡ ok tt → scope.snapshot_id ≡ service.snapshot.snapshot_id
  unfolding require_snapshot
  require_snapshot-eq h = ground arith

  -- A metric is resolved only at the pinned version, in the snapshot of the scope, and for a
  -- principal that may discover and execute it.
  pub get_metric_checked :
      (ref : Text) (m : MetricRecord)
      → get_metric service scope ref ≡ ok m
      → IsPinned (λ r. r.version) service.snapshot.metrics ref m
        × (scope.snapshot_id ≡ service.snapshot.snapshot_id)
        × (may discover m.id ≡ true)
        × (may execute_metric m.id ≡ true)
  unfolding get_metric
  get_metric_checked ref m h =
      let (_, current, more) = >>=-eq-ok (require_snapshot service scope) _ h in
      let (n, pinned, more') =
        >>=-eq-ok (get_pinned (λ r. r.version) service.snapshot.metrics ref) _ more in
      let (_, seen, more'') = >>=-eq-ok (authorize service scope discover n.id) _ more' in
      let (_, run, last) = >>=-eq-ok (authorize service scope execute_metric n.id) _ more'' in
      let same : n ≡ m = ground arith in
      (
        get_pinned-IsPinned (λ r. r.version) service.snapshot.metrics ref m (pinned ∙ ground arith),
        require_snapshot-eq current,
        ground (arith, authorize-may discover n.id seen),
        ground (arith, authorize-may execute_metric n.id run),
      )

  pub get_metric-get_pinned :
      (ref : Text) (m : MetricRecord)
      → get_metric service scope ref ≡ ok m
      → get_pinned (λ r. r.version) service.snapshot.metrics ref ≡ ok m
  unfolding get_metric
  get_metric-get_pinned ref m h =
      let (_, current, more) = >>=-eq-ok (require_snapshot service scope) _ h in
      let (n, pinned, more') =
        >>=-eq-ok (get_pinned (λ r. r.version) service.snapshot.metrics ref) _ more in
      let (_, seen, more'') = >>=-eq-ok (authorize service scope discover n.id) _ more' in
      let (_, run, last) = >>=-eq-ok (authorize service scope execute_metric n.id) _ more'' in
      pinned ∙ last

  pub get_table_checked :
      (id : Text) (t : TableRecord)
      → get_table service scope id ≡ ok t
      → (lookup id service.snapshot.tables ≡ some t) × (may discover id ≡ true)
  unfolding get_table
  get_table_checked id t h =
      let (_, current, more) = >>=-eq-ok (require_snapshot service scope) _ h in
      let (n, found, more') = >>=-eq-ok (get service.snapshot.tables id) _ more in
      let (_, seen, last) = >>=-eq-ok (authorize service scope discover id) _ more' in
      (
        get-eq-ok service.snapshot.tables id t (found ∙ ground arith),
        authorize-may discover id seen,
      )

  -- If the check of a set of columns passes, the principal may use each of them.
  pub require_columns_usable-may :
      (columns : List Text) (action : Action)
      → require_columns_usable service scope columns action ≡ ok tt
      → (c : Text) → contains c columns ≡ true
      → may action c ≡ true
  unfolding require_columns_usable
  require_columns_usable-may columns action h c m =
      let (denied, swept, none_left) =
        >>=-eq-ok (check_all service.policy scope.principal_id action columns) _ h in
      check_all-nil service.policy scope.principal_id action columns
        (swept ∙ ap ok (refuse_denied-eq-ok denied none_left)) c m

  allowed_both_lem :
      (a b : Action) (r : Text) (both : Bool)
      → allowed_both service scope a b r ≡ ok both
      → both ≡ (may a r && may b r)
  unfolding allowed_both
  allowed_both_lem a b r both h =
      let (d, first, more) = >>=-eq-ok (check service.policy scope.principal_id a r) _ h in
      let (e, second, last) = >>=-eq-ok (check service.policy scope.principal_id b r) _ more in
      ground arith

  executable_among_lem :
      (ms kept : List MetricRecord)
      → executable_among service scope ms ≡ ok kept
      → kept ≡ select (λ m. may discover m.id && may execute_metric m.id) ms
  unfolding executable_among
  executable_among_lem [] kept h = ground arith
  executable_among_lem (m ∷ ms) kept h =
      let (b, both, more) =
        >>=-eq-ok (allowed_both service scope discover execute_metric m.id) _ h in
      let (rest, swept, last) = >>=-eq-ok (executable_among service scope ms) _ more in
      ground (
        arith,
        allowed_both_lem discover execute_metric m.id b both,
        executable_among_lem ms rest swept,
      )

  -- The list of executable metrics holds, in the order of the catalog, exactly the metrics that
  -- the principal may both discover and execute.
  pub executable_metrics_lem :
      (kept : List MetricRecord)
      → executable_metrics service scope ≡ ok kept
      → kept
        ≡ select
            (λ m. may discover m.id && may execute_metric m.id)
            (values service.snapshot.metrics)
  unfolding executable_metrics
  executable_metrics_lem kept h =
      let (_, current, more) = >>=-eq-ok (require_snapshot service scope) _ h in
      executable_among_lem (values service.snapshot.metrics) kept more

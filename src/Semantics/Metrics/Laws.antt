-- ===== src/Semantics/Metrics/Laws.antt =====
-- What the resolution of a metric in app/semantics/metrics.py authorizes, and what its cache may answer.
use text_to_sql_rag.Prelude.{
  ℕ, Eq, ◌≡◌, refl, ap, sym, subst, ◌∙◌, true, false, Option, none, some, List, [], ◌∷◌, ◌++◌,
  arith, Text, list_eq, nat_eq, contains, lookup, insert, decimal, lookup-insert, All, All-insert,
  sorted_set, rpartition, rpartition-append, not-contains-decimal, append_assoc, Option-cases, inl,
  inr, Bool-cases, eq_of_==, ◌==◌, ==_refl,
}
use mathlib.Core.Option.{some-injective}
use text_to_sql_rag.Contracts.Errors.{ok, >>=-eq-ok, ok-injective}
use text_to_sql_rag.Contracts.Scope.{TrustedScope, read, use_in_predicate, execute_metric}
use text_to_sql_rag.Contracts.Records.{MetricRecord}
use text_to_sql_rag.Contracts.Expressions.{measure_columns, optional_columns}
use text_to_sql_rag.Authorization.Policy.Sweeps.{allows}
use text_to_sql_rag.Catalog.Service.{CatalogService, get_metric, get_pinned, require_columns_usable}
use text_to_sql_rag.Catalog.Service.Laws.{
  may, require_columns_usable-may, get_metric_checked, get_metric-get_pinned,
}
use text_to_sql_rag.Semantics.Metrics.{
  MetricClosure, MetricCache, cache_key, closure_of, resolved, resolve, tables_of, columns_exist,
}

key_parts :
    (p : Text) (n : ℕ) (r : Text)
    → contains b':' r ≡ false
    → rpartition b':' (cache_key p n r) ≡ some (p ++ b':' ∷ decimal n, r)
key_parts p n r plain =
    subst (λ x. rpartition b':' x ≡ some (p ++ b':' ∷ decimal n, r))
      (append_assoc p (b':' ∷ decimal n) (b':' ∷ r))
      (rpartition-append b':' (p ++ b':' ∷ decimal n) r plain)

-- The principals and the references of two keys are the same where the keys are, for references without a colon.
cache_key-injective :
    (p q : Text) (m n : ℕ) (r s : Text)
    → contains b':' r ≡ false
    → contains b':' s ≡ false
    → cache_key p m r ≡ cache_key q n s
    → (p ≡ q) × (r ≡ s)
cache_key-injective p q m n r s hr hs e =
    let parts = sym (key_parts p m r hr) ∙ ap (rpartition b':') e ∙ key_parts q n s hs in
    let fronts : p ++ b':' ∷ decimal m ≡ q ++ b':' ∷ decimal n =
      ap (λ x. x.0) (some-injective _ _ parts) in
    let cut =
      sym (rpartition-append b':' p (decimal m) (not-contains-decimal b':' m refl))
      ∙ ap (rpartition b':') fronts
      ∙ rpartition-append b':' q (decimal n) (not-contains-decimal b':' n refl) in
    (ap (λ x. x.0) (some-injective _ _ cut), ap (λ x. x.1) (some-injective _ _ parts))

pub All-intro :
    {A : Type 0} ⦃e : Eq A⦄ (P : A → Type 0) (xs : List A)
    → ((x : A) → contains x xs ≡ true → P x)
    → All P xs
All-intro P [] h = tt
All-intro P (x ∷ xs) h =
    (h x (ground (arith, ==_refl x)), All-intro P xs (λ y m. h y (ground arith)))

module _ (service : CatalogService) where
  -- The principal may execute the metric, read its measure and use its population and time in a predicate.
  abbrev pub IsUsable : Text → MetricClosure → Type 0
  IsUsable principal_id c =
      (allows service.policy principal_id execute_metric c.metric.id ≡ true)
      × All (λ column. allows service.policy principal_id read column ≡ true) c.of_measure
      × All (λ column. allows service.policy principal_id use_in_predicate column ≡ true)
          (c.of_population ++ c.time_column ∷ [])

  -- The closure is that of the metric that the reference pins.
  pub record IsClosureOf (ref : Text) (c : MetricClosure) : Type 0 where
    pub pinned : get_pinned (λ m. m.version) service.snapshot.metrics ref ≡ ok c.metric
    pub measure : c.of_measure ≡ measure_columns c.metric.expression
    pub population : c.of_population ≡ optional_columns c.metric.population
    pub time : c.time_column ≡ c.metric.time.time_column

  -- An entry was stored for a principal that may use it, under a reference that pins its metric.
  pub record IsOwned (entry : Text × MetricClosure) : Type 0 where
    pub owner : Text
    pub epoch : ℕ
    pub ref : Text
    pub key : entry.0 ≡ cache_key owner epoch ref
    pub plain : contains b':' ref ≡ false
    pub usable : IsUsable owner entry.1
    pub whole : IsClosureOf ref entry.1

  owned_lookup :
      (p : Text) (n : ℕ) (r : Text) (cache : MetricCache) (c : MetricClosure)
      → contains b':' r ≡ false
      → All IsOwned cache
      → lookup (cache_key p n r) cache ≡ some c
      → IsUsable p c × IsClosureOf r c
  unfolding lookup
  owned_lookup p n r [] c plain owned h = cc
  owned_lookup p n r ((k, d) ∷ cache) c plain (o, os) h = elim (Bool-cases (cache_key p n r == k)) [
    | inl same ↦
        let h' = rw same at h in
        let e =
          cache_key-injective o.owner p o.epoch n o.ref r o.plain plain
            (sym o.key ∙ sym (eq_of_== _ k same)) in
        subst (λ x. IsUsable p x × IsClosureOf r x) (some-injective _ _ h')
          (subst (λ x. IsUsable x d) e.0 o.usable, subst (λ x. IsClosureOf x d) e.1 o.whole)
    | inr other ↦ let h' = rw other at h in owned_lookup p n r cache c plain os h'
  ]

module _ (service : CatalogService) (scope : TrustedScope) where
  closure_of-IsUsable :
      (ref : Text) (m : MetricRecord) (c : MetricClosure)
      → may service scope execute_metric m.id ≡ true
      → get_pinned (λ r. r.version) service.snapshot.metrics ref ≡ ok m
      → closure_of service scope m ≡ ok c
      → IsUsable service scope.principal_id c × IsClosureOf service ref c
  unfolding closure_of
  closure_of-IsUsable ref m c may_run got h =
      let measure : List Text = measure_columns m.expression in
      let in_predicates : List Text = optional_columns m.population ++ m.time.time_column ∷ [] in
      let (_, exist, more) =
        >>=-eq-ok (columns_exist service scope (sorted_set (measure ++ in_predicates))) _ h in
      let (_, predicates, more') =
        >>=-eq-ok (require_columns_usable service scope in_predicates use_in_predicate) _ more in
      let (_, reads, more'') =
        >>=-eq-ok (require_columns_usable service scope measure read) _ more' in
      let (tables, parents, done) = >>=-eq-ok (tables_of (measure ++ in_predicates)) _ more'' in
      subst (λ x. IsUsable service scope.principal_id x × IsClosureOf service ref x)
        (ok-injective done)
        (
          (
            may_run,
            All-intro _ measure (require_columns_usable-may service scope measure read reads),
            All-intro _ in_predicates (
                require_columns_usable-may service scope in_predicates use_in_predicate predicates),
          ),
          record { pinned = got; measure = refl; population = refl; time = refl },
        )

  -- What a resolution gives and leaves.
  resolve_lem :
      (cache cache' : MetricCache) (ref : Text) (c : MetricClosure)
      → contains b':' ref ≡ false
      → All (IsOwned service) cache
      → resolve service scope cache ref ≡ ok (c, cache')
      → (IsUsable service scope.principal_id c × IsClosureOf service ref c)
        × All (IsOwned service) cache'
  unfolding resolve resolved
  resolve_lem cache cache' ref c plain owned h =
      let key : Text = cache_key scope.principal_id scope.policy_epoch ref in
      let (m, got, more) = >>=-eq-ok (get_metric service scope ref) _ h in
      let checked = get_metric_checked service scope ref m got in
      elim (Option-cases (lookup key cache)) [
        | inl absent ↦
            let (d, closed, done) =
              >>=-eq-ok (closure_of service scope m) _
                (subst (λ x. resolved service scope cache key m x ≡ ok (c, cache')) absent more) in
            let (usable, whole) =
              closure_of-IsUsable ref m d checked.3 (get_metric-get_pinned service scope ref m got)
                closed in
            subst
              (λ x.
                (IsUsable service scope.principal_id x.0 × IsClosureOf service ref x.0)
                × All (IsOwned service) x.1)
              (ok-injective done)
              (
                (usable, whole),
                All-insert (IsOwned service) key d cache
                    (record {
                      owner = scope.principal_id;
                      epoch = scope.policy_epoch;
                      ref = ref;
                      key = refl;
                      plain = plain;
                      usable = usable;
                      whole = whole;
                    })
                    owned,
              )
        | inr (d, present) ↦
            let done =
              subst (λ x. resolved service scope cache key m x ≡ ok (c, cache')) present more in
            subst
              (λ x.
                (IsUsable service scope.principal_id x.0 × IsClosureOf service ref x.0)
                × All (IsOwned service) x.1)
              (ok-injective done)
              (
                owned_lookup service scope.principal_id scope.policy_epoch ref cache d plain owned
                    present,
                owned,
              )
      ]

  -- A resolution that succeeds gives a closure that the principal may use, from the cache or not, and leaves a
  -- cache in which every entry was stored for a principal that may use it, under a reference that pins its metric,
  -- if the cache was such and the reference has no colon.
  pub resolve-IsUsable :
      (cache cache' : MetricCache) (ref : Text) (c : MetricClosure)
      → contains b':' ref ≡ false
      → All (IsOwned service) cache
      → resolve service scope cache ref ≡ ok (c, cache')
      → IsUsable service scope.principal_id c × All (IsOwned service) cache'
  resolve-IsUsable cache cache' ref c plain owned h =
      let r = resolve_lem cache cache' ref c plain owned h in (r.0.0, r.1)

  pub resolve-IsClosureOf :
      (cache cache' : MetricCache) (ref : Text) (c : MetricClosure)
      → contains b':' ref ≡ false
      → All (IsOwned service) cache
      → resolve service scope cache ref ≡ ok (c, cache')
      → IsClosureOf service ref c
  resolve-IsClosureOf cache cache' ref c plain owned h =
      (resolve_lem cache cache' ref c plain owned h).0.1

  resolved-IsCached :
      (cache cache' : MetricCache) (key : Text) (m : MetricRecord) (c : MetricClosure)
      (held : Option MetricClosure)
      → lookup key cache ≡ held
      → resolved service scope cache key m held ≡ ok (c, cache')
      → lookup key cache' ≡ some c
  unfolding resolved
  resolved-IsCached cache cache' key m c (some d) e h =
      ap (lookup key) (sym (ap (λ x. x.1) (ok-injective h)))
      ∙ e
      ∙ ap (λ x. some (x.0)) (ok-injective h)
  resolved-IsCached cache cache' key m c none e h =
      let (d, closed, done) = >>=-eq-ok (closure_of service scope m) _ h in
      let stored : lookup key (insert key d cache) ≡ some d =
        ground (arith, lookup-insert key key d cache, ==_refl key) in
      ap (lookup key) (sym (ap (λ x. x.1) (ok-injective done)))
      ∙ stored
      ∙ ap (λ x. some (x.0)) (ok-injective done)

  -- Resolving a reference again, with the cache that its resolution left, gives the same closure and leaves the
  -- cache as it is.
  pub resolve-resolve :
      (cache cache' : MetricCache) (ref : Text) (c : MetricClosure)
      → resolve service scope cache ref ≡ ok (c, cache')
      → resolve service scope cache' ref ≡ ok (c, cache')
  unfolding resolve resolved
  resolve-resolve cache cache' ref c h =
      let key : Text = cache_key scope.principal_id scope.policy_epoch ref in
      let (m, got, more) = >>=-eq-ok (get_metric service scope ref) _ h in
      let held = resolved-IsCached cache cache' key m c (lookup key cache) refl more in
      rw (got, held) refl

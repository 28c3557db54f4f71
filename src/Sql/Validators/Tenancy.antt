-- ===== src/Sql/Validators/Tenancy.antt =====
-- What the tenancy of app/planning/lowering.py leaves in a plan, for the gate of obligations of
-- app/sql/validators/suite.py.
use mathlib.Core.Option.{some-injective}
use text_to_sql_rag.Prelude.{
  ◌≡◌, ◌∙◌, refl, sym, ap, subst, Bool, true, Option, none, some, List, [], ◌∷◌, ◌++◌, Text,
  contains, map, select, concat_map, subset, subset_intro, contains-subset, list_eq, nat_eq,
  Bool-cases, inl, inr, All, arith, lookup, ◌==◌, eq_of_==,
}
use text_to_sql_rag.Contracts.Errors.{ok, >>=-eq-ok, ok-injective}
use text_to_sql_rag.Contracts.Scope.{TrustedScope, discover}
use text_to_sql_rag.Contracts.Expressions.{Predicate, columns_in, operand_columns}
use text_to_sql_rag.Contracts.Records.{TableRecord}
use text_to_sql_rag.Catalog.Service.{CatalogService, get, get_table, require_snapshot, authorize}
use text_to_sql_rag.Catalog.Service.Laws.{get-eq-ok}
use text_to_sql_rag.Planning.Lowering.{scanned}
use text_to_sql_rag.Planning.Lowering.Parts.{
  tenant_tag, tenant_predicate, isolate, tenant_predicates,
}
use text_to_sql_rag.Sql.Validators.Records.{stem, is_tenant_key, tenant_tables, covered}

abbrev pub is_tagged : TableRecord → Bool
is_tagged t = contains tenant_tag t.tags

-- The tenant key of a table, if it has one, is a column of the table that the catalog marks as such.
abbrev pub KeyFits : CatalogService → TableRecord → Type 0
KeyFits service t = elim t.tenant_key [
  | none ↦ Unit
  | some k ↦ (stem k ≡ t.id) × (is_tenant_key service k ≡ true)
]

-- Every table stands under its own id, with a tenant key that fits.
abbrev pub HasTenantKeys : CatalogService → Type 0
HasTenantKeys service = All (λ e. (e.1.id ≡ e.0) × KeyFits service e.1) service.snapshot.tables

KeyFits-some :
    (service : CatalogService) (t : TableRecord) (k : Text)
    → t.tenant_key ≡ some k
    → KeyFits service t
    → (stem k ≡ t.id) × (is_tenant_key service k ≡ true)
KeyFits-some service t k e fits = rw e at fits

lookup-entry :
    (P : Text × TableRecord → Type 0) (records : List (Text × TableRecord)) (id : Text)
    (t : TableRecord)
    → All P records
    → lookup id records ≡ some t
    → P (id, t)
unfolding lookup
lookup-entry P [] id t h e = cc
lookup-entry P ((k, u) ∷ records) id t (h, hs) e = elim (Bool-cases (id == k)) [
  | inl same ↦
      let e' = rw same at e in
      subst (λ q. P (q, t)) (sym (eq_of_== id k same))
        (subst (λ q. P (k, q)) (some-injective _ _ e') h)
  | inr other ↦ let e' = rw other at e in lookup-entry P records id t hs e'
]

isolate-eq-ok :
    (t : TableRecord) (key : Option Text) (here : List Predicate)
    → isolate t key ≡ ok here
    → (k : Text) × (key ≡ some k) × (here ≡ tenant_predicate k ∷ [])
unfolding isolate
isolate-eq-ok t none here h = cc
isolate-eq-ok t (some []) here h = cc
isolate-eq-ok t (some (c ∷ s)) here h = (c ∷ s, refl, sym (ok-injective h))

subset-cons : (x : Text) (xs ys : List Text) → subset xs ys ≡ true → subset (x ∷ xs) (x ∷ ys) ≡ true
subset-cons x xs ys h =
    subset_intro (x ∷ xs) (x ∷ ys) (λ a m. ground (arith, contains-subset a xs ys h))

module _ (service : CatalogService) where
  pub covered-append :
      (xs ys : List Text) → covered service (xs ++ ys) ≡ covered service xs ++ covered service ys
  covered-append [] ys = refl
  covered-append (x ∷ xs) ys = elim (Bool-cases (is_tenant_key service x)) [
    | inl key ↦ rw (key, covered-append xs ys) refl
    | inr other ↦ rw (other, covered-append xs ys) refl
  ]

  covered-key :
      (k : Text) (rest : List Text)
      → is_tenant_key service k ≡ true
      → covered service (k ∷ rest) ≡ stem k ∷ covered service rest
  covered-key k rest key = rw key refl

  -- The predicates of the tenant cover all tagged tables.
  pub tenant_predicates-cover :
      (ts : List TableRecord) (ps : List Predicate)
      → All (KeyFits service) ts
      → tenant_predicates ts ≡ ok ps
      → subset (map (λ t. t.id) (select is_tagged ts)) (covered service (concat_map columns_in ps))
        ≡ true
  unfolding tenant_predicates columns_in operand_columns
  tenant_predicates-cover [] ps fits h = refl
  tenant_predicates-cover (t ∷ ts) ps (fit, fits) h = elim (Bool-cases (is_tagged t)) [
    | inl tagged ↦
        let h0 = rw (tagged, tenant_predicates) at h in
        let (here, first, h1) = >>=-eq-ok (isolate t t.tenant_key) _ h0 in
        let (rest, more, done) = >>=-eq-ok (tenant_predicates ts) _ h1 in
        let (k, key, only) = isolate-eq-ok t t.tenant_key here first in
        let (stemmed, marked) = KeyFits-some service t k key fit in
        let all : ps ≡ tenant_predicate k ∷ rest =
          sym (ok-injective done) ∙ ap (λ x. x ++ rest) only in
        let found : covered service (concat_map columns_in ps)
            ≡ t.id ∷ covered service (concat_map columns_in rest) =
          ap (λ x. covered service (concat_map columns_in x)) all
          ∙ covered-key k (concat_map columns_in rest) marked
          ∙ ap (λ x. x ∷ covered service (concat_map columns_in rest)) stemmed in
        rw tagged (
          ap (subset (t.id ∷ map (λ t. t.id) (select is_tagged ts))) found
          ∙ subset-cons t.id _ _ (tenant_predicates-cover ts rest fits more))
    | inr plain ↦
        let h0 = rw (plain, tenant_predicates) at h in
        let (rest, more, done) = >>=-eq-ok (tenant_predicates ts) _ h0 in
        rw plain (
          ap
            (λ x.
              subset (map (λ t. t.id) (select is_tagged ts))
                (covered service (concat_map columns_in x)))
            (sym (ok-injective done))
          ∙ tenant_predicates-cover ts rest fits more)
  ]

  pub tenant_tables-found :
      (ts : List TableRecord)
      → All (λ t. get service.snapshot.tables t.id ≡ ok t) ts
      → tenant_tables service (map (λ t. t.id) ts) ≡ ok (map (λ t. t.id) (select is_tagged ts))
  unfolding tenant_tables
  tenant_tables-found [] h = refl
  tenant_tables-found (t ∷ ts) (h, hs) = elim (Bool-cases (is_tagged t)) [
    | inl tagged ↦ rw (h, tenant_tables-found ts hs, tagged) refl
    | inr plain ↦ rw (h, tenant_tables-found ts hs, plain) refl
  ]

  module _ (scope : TrustedScope) (keys : HasTenantKeys service) where
    -- A table that is resolved stands in the catalog under its id.
    abbrev pub IsStored : TableRecord → Type 0
    IsStored t = (get service.snapshot.tables t.id ≡ ok t) × KeyFits service t

    pub get_table-IsStored :
        (id : Text) (t : TableRecord) → get_table service scope id ≡ ok t → (t.id ≡ id) × IsStored t
    unfolding get_table
    get_table-IsStored id t h =
        let (_, current, h1) = >>=-eq-ok (require_snapshot service scope) _ h in
        let (u, found, h2) = >>=-eq-ok (get service.snapshot.tables id) _ h1 in
        let (_, seen, done) = >>=-eq-ok (authorize service scope discover id) _ h2 in
        let here : get service.snapshot.tables id ≡ ok t =
          found ∙ ap (λ x. ok x) (ok-injective done) in
        let (named, fits) =
          lookup-entry (λ e. (e.1.id ≡ e.0) × KeyFits service e.1) service.snapshot.tables id t keys
            (get-eq-ok service.snapshot.tables id t here) in
        (named, (ap (get service.snapshot.tables) named ∙ here, fits))

    pub scanned-IsStored :
        (ids : List Text) (ts : List TableRecord)
        → scanned service scope ids ≡ ok ts
        → (map (λ t. t.id) ts ≡ ids) × All IsStored ts
    unfolding scanned
    scanned-IsStored [] ts h =
        subst (λ q. (map (λ t. t.id) q ≡ []) × All IsStored q) (ok-injective h) (refl, tt)
    scanned-IsStored (id ∷ ids) ts h =
        let (t, found, h1) = >>=-eq-ok (get_table service scope id) _ h in
        let (rest, more, done) = >>=-eq-ok (scanned service scope ids) _ h1 in
        let (named, stored) = get_table-IsStored id t found in
        let (names, all) = scanned-IsStored ids rest more in
        subst (λ q. (map (λ t. t.id) q ≡ id ∷ ids) × All IsStored q) (ok-injective done)
          (ap (λ x. x ∷ map (λ t. t.id) rest) named ∙ ap (λ x. id ∷ x) names, (stored, all))

-- ===== src/Sql/Validators/Evident.antt =====
-- What the gates of obligations of app/sql/validators/suite.py prove of an obligation where they do not block.
use text_to_sql_rag.Prelude.{
  ◌≡◌, refl, sym, ◌∙◌, ap, subst, ◌⊎◌, inl, inr, true, false, none, some, List, [], ◌∷◌, ◌++◌, Text,
  text, arith, any_of, map, select, contains, contains-select, contains-subset, list_eq, nat_eq,
  ◌==◌, eq_of_==, Bool-cases, Option-cases, subset, starts_with, rpartition, rpartition_split,
}
use text_to_sql_rag.Contracts.Errors.{
  Result, ok, err, >>=-eq-ok, ok-injective, mandatory_rule_unresolved,
}
use text_to_sql_rag.Contracts.Expressions.{Predicate, columns_in}
use text_to_sql_rag.Contracts.Records.{
  TableRecord, ColumnRecord, before_aggregation, after_aggregation,
}
use text_to_sql_rag.Contracts.Plan.{Obligation, LogicalPlan}
use text_to_sql_rag.Catalog.Service.{CatalogService, get}
use text_to_sql_rag.Sql.Validators.Nodes.{is_blocking}
use text_to_sql_rag.Sql.Validators.Records.{
  evidence, isolation, tenant_tables, covered, target, stem, scanned_tables, is_tenant_key,
}
use text_to_sql_rag.Sql.Validators.Clean.{IsPassed, IsClean-passed}

-- One of the columns is a column of the table that the catalog marks as a tenant key, or is such a column and has
-- the name of the table.
pub record HasTenantKey (service : CatalogService) (columns : List Text) (t : Text) : Type 0 where
  pub key : Text
  pub is_there : contains key columns ≡ true
  pub column : ColumnRecord
  pub found : get service.snapshot.columns key ≡ ok column
  pub marked : column.is_tenant_key ≡ true
  pub of_table : (key ≡ t) ⊎ ((name : Text) × (key ≡ t ++ (b'.' ∷ name)))

-- The columns of a predicate are in the clause of its placement; where an obligation of tenancy has no predicate,
-- every scanned table that is tagged with tenants has a tenant key among the columns of the first clause.
pub record IsEvident (service : CatalogService) (logical : LogicalPlan) (where_ having : List Text)
    (o : Obligation) : Type 0 where
  pub on_rows :
      (p : Predicate)
      → o.predicate ≡ some p
      → o.placement ≡ before_aggregation
      → subset (columns_in p) where_ ≡ true
  pub on_groups :
      (p : Predicate)
      → o.predicate ≡ some p
      → o.placement ≡ after_aggregation
      → subset (columns_in p) having ≡ true
  pub isolated :
      (t : Text) (r : TableRecord)
      → o.predicate ≡ none
      → starts_with o.rule_ref (text "security.tenant_scope") ≡ true
      → contains t (logical.base.table_id ∷ map (λ j. j.right.table_id) logical.joins) ≡ true
      → get service.snapshot.tables t ≡ ok r
      → contains (text "tenant_scoped") r.tags ≡ true
      → HasTenantKey service where_ t

stem_split : (c t : Text) → stem c ≡ t → (c ≡ t) ⊎ ((name : Text) × (c ≡ t ++ (b'.' ∷ name)))
unfolding stem
stem_split c t h = elim (Option-cases (rpartition b'.' c)) [
  | inl plain ↦ let h' : c ≡ t = rw (plain, stem) at h in inl h'
  | inr ((parent, name), e) ↦
      let h' : parent ≡ t = rw (e, stem) at h in
      inr (name, (rpartition_split b'.' c e).0 ∙ ap (λ x. x ++ (b'.' ∷ name)) h')
]

contains-map-stem :
    (t : Text) (cs : List Text)
    → contains t (map stem cs) ≡ true
    → (c : Text) × (contains c cs ≡ true) × (stem c ≡ t)
contains-map-stem t [] h = cc
contains-map-stem t (c ∷ cs) h = elim (Bool-cases (t == stem c)) [
  | inl same ↦ (c, ground arith, sym (eq_of_== t (stem c) same))
  | inr other ↦ let (d, there, e) = contains-map-stem t cs (ground arith) in (d, ground arith, e)
]

read_column :
    (r : Result ColumnRecord)
    → elim r [ err e ↦ false | ok c ↦ c.is_tenant_key ] ≡ true
    → (c : ColumnRecord) × (r ≡ ok c) × (c.is_tenant_key ≡ true)
read_column (err e) h = cc
read_column (ok c) h = (c, refl, h)

module _ (service : CatalogService) where
  is_tenant_key-true :
      (c : Text)
      → is_tenant_key service c ≡ true
      → (r : ColumnRecord) × (get service.snapshot.columns c ≡ ok r) × (r.is_tenant_key ≡ true)
  unfolding is_tenant_key
  is_tenant_key-true c h = read_column (get service.snapshot.columns c) h

  covered-HasTenantKey :
      (columns : List Text) (t : Text)
      → contains t (covered service columns) ≡ true
      → HasTenantKey service columns t
  covered-HasTenantKey columns t h =
      let (c, there, e) = contains-map-stem t (select (is_tenant_key service) columns) h in
      let split = contains-select (is_tenant_key service) c columns in
      let (r, found, marked) = is_tenant_key-true c (ground (arith, split, there)) in
      record {
        key = c;
        is_there = ground (arith, split, there);
        column = r;
        found = found;
        marked = marked;
        of_table = stem_split c t e;
      }

  contains-tenant_tables :
      (t : Text) (r : TableRecord) (ts needs : List Text)
      → get service.snapshot.tables t ≡ ok r
      → contains (text "tenant_scoped") r.tags ≡ true
      → tenant_tables service ts ≡ ok needs
      → contains t ts ≡ true
      → contains t needs ≡ true
  unfolding tenant_tables
  contains-tenant_tables t r [] needs found tagged h m = cc
  contains-tenant_tables t r (u ∷ ts) needs found tagged h m =
      let (v, found', h1) = >>=-eq-ok (get service.snapshot.tables u) _ h in
      let (rest, more, done) = >>=-eq-ok (tenant_tables service ts) _ h1 in
      subst (λ x. contains t x ≡ true) (ok-injective done)
        (elim (Bool-cases (t == u)) [
          | inl same ↦
              let e : v ≡ r =
                ok-injective (
                  sym found'
                  ∙ ap (get service.snapshot.tables) (sym (eq_of_== t u same))
                  ∙ found) in
              let kept : contains (text "tenant_scoped") v.tags ≡ true =
                subst (λ x. contains (text "tenant_scoped") x.tags ≡ true) (sym e) tagged in
              ground arith
          | inr other ↦
              let there : contains t rest ≡ true =
                contains-tenant_tables t r ts rest found tagged more (ground arith) in
              ground arith
        ])

  isolation-IsPassed :
      (logical : LogicalPlan) (where_ : List Text) (o : Obligation) (t : Text) (r : TableRecord)
      → IsPassed (isolation service logical where_ o)
      → contains t (logical.base.table_id ∷ map (λ j. j.right.table_id) logical.joins) ≡ true
      → get service.snapshot.tables t ≡ ok r
      → contains (text "tenant_scoped") r.tags ≡ true
      → HasTenantKey service where_ t
  unfolding isolation
  isolation-IsPassed logical where_ o t r p scanned found tagged =
      let (needs, computed, done) =
        >>=-eq-ok (tenant_tables service (scanned_tables logical)) _ p.completes in
      covered-HasTenantKey where_ t (
        contains-subset t needs (covered service where_)
          (IsClean-passed _ mandatory_rule_unresolved (some o.rule_ref)
            (ap (any_of is_blocking) (ok-injective done) ∙ p.clean))
          (contains-tenant_tables t r (scanned_tables logical) needs found tagged computed scanned))

  pub evidence-IsPassed :
      (logical : LogicalPlan) (where_ having : List Text) (o : Obligation)
      → IsPassed (evidence service logical where_ having o)
      → IsEvident service logical where_ having o
  unfolding evidence
  evidence-IsPassed logical where_ having o p =
      let present : (q : Predicate)
          → o.predicate ≡ some q
          → subset (columns_in q) (target where_ having o.placement) ≡ true =
        λ q e. IsClean-passed _ mandatory_rule_unresolved (some o.rule_ref) (
          ap (any_of is_blocking) (ok-injective (let c = rw (e, evidence) at p.completes in c))
          ∙ p.clean) in
      record {
        on_rows = λ q e place.
            subst (λ x. subset (columns_in q) (target where_ having x) ≡ true) place (present q e);
        on_groups = λ q e place.
            subst (λ x. subset (columns_in q) (target where_ having x) ≡ true) place (present q e);
        isolated = λ t r e starts scanned found tagged.
            isolation-IsPassed logical where_ o t r
              (record {
                findings = p.findings;
                completes = (let c = rw (e, starts, evidence) at p.completes in c);
                clean = p.clean;
              })
              scanned found tagged;
      }

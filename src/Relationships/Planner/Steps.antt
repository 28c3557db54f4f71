-- ===== src/Relationships/Planner/Steps.antt =====
-- One step of an expansion, by its cases.
use text_to_sql_rag.Prelude.{
  ◌≡◌, refl, ◌⊎◌, inl, inr, Bool, true, false, ◌&&◌, List, [], ◌∷◌, Text, arith, contains, list_eq,
  nat_eq, Bool-cases, if◌then◌else◌, All, subst, sym, length, ◌≤◌,
}
use text_to_sql_rag.Contracts.Errors.{Result, ok, >>=-eq-ok, ok-injective, ◌>>=◌}
use text_to_sql_rag.Contracts.Scope.{TrustedScope}
use text_to_sql_rag.Catalog.Service.{CatalogService}
use text_to_sql_rag.Relationships.Planner.{Edge, Item, permitted, expand_edges, is_usable, extend}

module _ (service : CatalogService) (scope : TrustedScope) (base_table : Text)
    (terminals : List Text) (forbid_multiplying : Bool) where
  abbrev pub expanded : Item → List Edge → Result (List Item)
  expanded = expand_edges service scope base_table terminals forbid_multiplying

  -- An item that is added comes from an edge to a table that was not visited, that the principal
  -- may use and that the request allows.
  pub record Adds (item : Item) (e : Edge) (items rest : List Item) : Type 0 where
    pub fresh : contains e.other item.visited ≡ false
    pub may_use : permitted service scope e.rel ≡ ok true
    pub usable : is_usable forbid_multiplying e ≡ true
    pub added : items ≡ extend item e ∷ rest

  abbrev pub Step : Item → Edge → List Edge → List Item → Type 0
  Step item e es items =
      (rest : List Item) × (expanded item es ≡ ok rest) × ((items ≡ rest) ⊎ Adds item e items rest)

  permitted_cases :
      (item : Item) (e : Edge) (es : List Edge) (items : List Item) (allowed : Bool)
      → contains e.other item.visited ≡ false
      → permitted service scope e.rel ≡ ok allowed
      → (if allowed && is_usable forbid_multiplying e
          then (expanded item es >>= λ rest. ok (extend item e ∷ rest))
          else expanded item es)
        ≡ ok items
      → Step item e es items
  permitted_cases item e es items allowed new p h =
      elim (Bool-cases (allowed && is_usable forbid_multiplying e)) [
        | inr useless ↦ (items, ground arith, inl refl)
        | inl useful ↦
            let (rest, expands, last) =
              >>=-eq-ok (expanded item es) (λ rest. ok (extend item e ∷ rest)) (rw useful at h) in
            (
              rest,
              expands,
              inr (record {
                fresh = new;
                may_use = ground arith;
                usable = ground arith;
                added = ground arith;
              }),
            )
      ]

  pub expand_edges_cases :
      (item : Item) (e : Edge) (es : List Edge) (items : List Item)
      → expanded item (e ∷ es) ≡ ok items
      → Step item e es items
  unfolding expand_edges
  expand_edges_cases item e es items h = elim (Bool-cases (contains e.other item.visited)) [
    | inl seen ↦ (items, ground arith, inl refl)
    | inr new ↦
        let (allowed, p, more) = >>=-eq-ok (permitted service scope e.rel) _ (rw new at h) in
        permitted_cases item e es items allowed new p more
  ]

  -- What holds of the item of every edge that is taken holds of all that an expansion adds.
  pub expand_edges_All :
      (R : Edge → Type 0) (P : Item → Type 0) (item : Item)
      → ((e : Edge)
          → R e
          → contains e.other item.visited ≡ false
          → permitted service scope e.rel ≡ ok true
          → is_usable forbid_multiplying e ≡ true
          → P (extend item e))
      → (es : List Edge) (items : List Item) → All R es
      → expanded item es ≡ ok items
      → All P items
  unfolding expand_edges
  expand_edges_All R P item rule [] items r h = subst (All P) (ok-injective h) tt
  expand_edges_All R P item rule (e ∷ es) items r h =
      let (rest, expands, step) = expand_edges_cases item e es items h in
      let later = expand_edges_All R P item rule es rest r.1 expands in
      elim step [
        | inl same ↦ subst (All P) (sym same) later
        | inr adds ↦
            subst (All P) (sym adds.added) (rule e r.0 adds.fresh adds.may_use adds.usable, later)
      ]

  -- No edge adds more than one item.
  pub length-expand_edges-le :
      (item : Item) (es : List Edge) (items : List Item)
      → expanded item es ≡ ok items
      → length items ≤ length es
  unfolding expand_edges
  length-expand_edges-le item [] items h = ground arith
  length-expand_edges-le item (e ∷ es) items h =
      let (rest, expands, step) = expand_edges_cases item e es items h in
      elim step [
        | inl same ↦ ground (arith, length-expand_edges-le item es rest expands)
        | inr adds ↦ ground (arith, adds.added, length-expand_edges-le item es rest expands)
      ]

-- ===== src/Relationships/Planner/Paths.antt =====
-- What a plan of the search is: a chain of approved edges from the base table.
use text_to_sql_rag.Prelude.{
  ℕ, zero, suc, ◌≤◌, ◌≡◌, refl, ap, sym, subst, ◌∙◌, ◌⊎◌, inl, inr, Bool, true, false, List, [],
  ◌∷◌, ◌++◌, Text, ◌==◌, list_eq, nat_eq, contains, subset, arith, length, length-snoc, concat_map,
  sorted_set, contains-sorted_set, leb, ltb, values, All, All-append, All-concat_map_of_All,
  All-Memᴰ, All-contains, if-All, eq_of_==,
}
use text_to_sql_rag.Contracts.Errors.{ok, Ensures, if-Ensures, >>=-Ensures, Ensures-ok}
use text_to_sql_rag.Contracts.Scope.{TrustedScope}
use text_to_sql_rag.Contracts.Records.{RelationshipRecord}
use text_to_sql_rag.Catalog.Service.{CatalogService, CatalogSnapshot, relationships_by_table}
use text_to_sql_rag.Relationships.Planner.{
  PlannedJoin, Edge, Item, JoinPlan, edges_of, edges_from, permitted, expand, visit, search_plans,
  start, enumerate, weight, branching, max_hops, max_candidates, is_usable, extend,
  preserves_multiplicity,
}
use text_to_sql_rag.Relationships.Planner.Steps.{expand_edges_All}
use mathlib.Core.List.{Memᴰ}

-- The edge runs from its table to the other along a record of the catalog.
pub record IsEdge (snapshot : CatalogSnapshot) (e : Edge) : Type 0 where
  pub listed : Memᴰ e.rel (values snapshot.relationships)
  pub ends :
      ((e.reversed ≡ false) × (e.rel.left_table ≡ e.from_table) × (e.rel.right_table ≡ e.other))
      ⊎ ((e.reversed ≡ true) × (e.rel.right_table ≡ e.from_table) × (e.rel.left_table ≡ e.other))

-- The edge leaves a table that was visited.
abbrev Leaves : CatalogSnapshot → List Text → Edge → Type 0
Leaves s visited e = IsEdge s e × (contains e.from_table visited ≡ true)

edges_of-Leaves :
    (s : CatalogSnapshot) (visited : List Text) (t : Text) (r : RelationshipRecord)
    → contains t visited ≡ true
    → Memᴰ r (values s.relationships)
    → All (Leaves s visited) (edges_of t r)
edges_of-Leaves s visited t r v m =
    All-append (Leaves s visited) _ _
      (if-All (Leaves s visited) (r.left_table == t) _ (λ same.
        ((record { listed = m; ends = inl (refl, eq_of_== r.left_table t same, refl) }, v), tt)))
      (if-All (Leaves s visited) (r.right_table == t) _ (λ same.
        ((record { listed = m; ends = inr (refl, eq_of_== r.right_table t same, refl) }, v), tt)))

relationships_by_table-listed :
    (s : CatalogSnapshot) (t : Text)
    → All (λ r. Memᴰ r (values s.relationships)) (relationships_by_table s t)
unfolding relationships_by_table
relationships_by_table-listed s t =
    All-concat_map_of_All _ (λ r. Memᴰ r (values s.relationships))
      (λ r. Memᴰ r (values s.relationships)) (values s.relationships)
      (λ r m.
        All-append (λ q. Memᴰ q (values s.relationships)) _ _
          (if-All (λ q. Memᴰ q (values s.relationships)) (r.left_table == t) _ (λ _. (m, tt)))
          (if-All (λ q. Memᴰ q (values s.relationships)) (r.right_table == t) _ (λ _. (m, tt))))
      (All-Memᴰ (values s.relationships))

-- The edge along which a planned join runs.
abbrev pub edge_of_join : PlannedJoin → Edge
edge_of_join j = record {
  rel = j.relationship;
  from_table = j.from_table;
  other = j.to_table;
  reversed = j.reversed;
}

-- The tables that are joined after these joins.
abbrev pub visited_after : List Text → List PlannedJoin → List Text
visited_after visited [] = visited
visited_after visited (j ∷ js) = visited_after (j.to_table ∷ visited) js

visited_after-snoc :
    (visited : List Text) (js : List PlannedJoin) (j : PlannedJoin)
    → visited_after visited (js ++ j ∷ []) ≡ j.to_table ∷ visited_after visited js
visited_after-snoc visited [] j = refl
visited_after-snoc visited (k ∷ js) j = visited_after-snoc (k.to_table ∷ visited) js j

module _ (service : CatalogService) (scope : TrustedScope) (forbid_multiplying : Bool) where
  -- A join along a catalog record that the principal may use and the request allows.
  pub record IsApproved (j : PlannedJoin) : Type 0 where
    pub edge : IsEdge service.snapshot (edge_of_join j)
    pub may_use : permitted service scope j.relationship ≡ ok true
    pub usable : is_usable forbid_multiplying (edge_of_join j) ≡ true
    pub keeps : j.preserves_left_multiplicity ≡ preserves_multiplicity j.relationship j.reversed

  -- Each join leaves a table that stands in the plan and brings in one that does not.
  abbrev pub Chain : List Text → List PlannedJoin → Type 0
  Chain visited [] = Unit
  Chain visited (j ∷ js) =
      IsApproved j
      × (contains j.from_table visited ≡ true)
      × (contains j.to_table visited ≡ false)
      × Chain (j.to_table ∷ visited) js

  Chain-snoc :
      (visited : List Text) (js : List PlannedJoin) (j : PlannedJoin)
      → Chain visited js
      → IsApproved j
      → contains j.from_table (visited_after visited js) ≡ true
      → contains j.to_table (visited_after visited js) ≡ false
      → Chain visited (js ++ j ∷ [])
  Chain-snoc visited [] j c a f t = (a, f, t, tt)
  Chain-snoc visited (k ∷ js) j c a f t =
      (c.0, c.1, c.2, Chain-snoc (k.to_table ∷ visited) js j c.3 a f t)

  module _ (base_table : Text) (terminals : List Text) where
    -- What every item of the queue is.
    pub record IsPath (item : Item) : Type 0 where
      chain : Chain (base_table ∷ []) item.joins
      visits : item.visited ≡ visited_after (base_table ∷ []) item.joins
      short : length item.joins ≤ max_hops

    -- What every plan that is found is: a chain that covers the terminals, of at most four joins.
    pub record IsConnection (p : JoinPlan) : Type 0 where
      pub starts : p.base_table ≡ base_table
      pub chain : Chain (base_table ∷ []) p.joins
      pub covers : subset terminals (visited_after (base_table ∷ []) p.joins) ≡ true
      pub short : length p.joins ≤ max_hops

    extend-IsPath :
        (item : Item) (e : Edge)
        → IsPath item
        → suc (length item.joins) ≤ max_hops
        → Leaves service.snapshot item.visited e
        → contains e.other item.visited ≡ false
        → permitted service scope e.rel ≡ ok true
        → is_usable forbid_multiplying e ≡ true
        → IsPath (extend item e)
    extend-IsPath item e p few (edge, from_visited) fresh may_use usable =
        let j : PlannedJoin = record {
          relationship = e.rel;
          from_table = e.from_table;
          to_table = e.other;
          reversed = e.reversed;
          preserves_left_multiplicity = preserves_multiplicity e.rel e.reversed;
        } in
        record {
          chain =
              Chain-snoc (base_table ∷ []) item.joins j p.chain
                (record { edge = edge; may_use = may_use; usable = usable; keeps = refl })
                (subst (λ v. contains e.from_table v ≡ true) p.visits from_visited)
                (subst (λ v. contains e.other v ≡ false) p.visits fresh);
          visits =
              ap (λ v. e.other ∷ v) p.visits
              ∙ sym (visited_after-snoc (base_table ∷ []) item.joins j);
          short = rw (length-snoc item.joins j) few;
        }

    expand-IsPath :
        (item : Item) (items : List Item)
        → IsPath item
        → suc (length item.joins) ≤ max_hops
        → expand service scope base_table terminals forbid_multiplying item ≡ ok items
        → All IsPath items
    unfolding expand edges_from
    expand-IsPath item items p few h =
        expand_edges_All service scope base_table terminals forbid_multiplying
          (Leaves service.snapshot item.visited) IsPath item (λ e. extend-IsPath item e p few)
          (concat_map (edges_from service scope) (sorted_set item.visited)) items
          (All-concat_map_of_All (edges_from service scope) (λ t. contains t item.visited ≡ true)
            (Leaves service.snapshot item.visited) (sorted_set item.visited)
            (λ t v.
              All-concat_map_of_All (edges_of t)
                (λ r. Memᴰ r (values service.snapshot.relationships))
                (Leaves service.snapshot item.visited) (relationships_by_table service.snapshot t)
                (λ r m. edges_of-Leaves service.snapshot item.visited t r v m)
                (relationships_by_table-listed service.snapshot t))
            (All-contains (sorted_set item.visited) item.visited
              (λ x m. sym (contains-sorted_set x item.visited) ∙ m)))
          h

    abbrev Outcome : List Item × List JoinPlan → Type 0
    Outcome (items, plans) = All IsPath items × All IsConnection plans

    visit-Outcome :
        (item : Item)
        → IsPath item
        → Ensures Outcome (visit service scope base_table terminals forbid_multiplying item)
    unfolding visit
    visit-Outcome item p =
        if-Ensures Outcome (subset terminals item.visited) _ _
          (λ covered. (
            tt,
            (
              record {
                starts = refl;
                chain = p.chain;
                covers = subst (λ v. subset terminals v ≡ true) p.visits covered;
                short = p.short;
              },
              tt,
            ),
          ))
          λ uncovered.
            if-Ensures Outcome (leb max_hops (length item.joins)) _ _ (λ full. (tt, tt))
              λ goes.
                >>=-Ensures Outcome
                  (expand service scope base_table terminals forbid_multiplying item)
                  (λ items. ok (items, []))
                  λ items expands. (expand-IsPath item items p (ground arith) expands, tt)

    search_plans-IsConnection :
        (fuel : ℕ) (queue : List Item) (found : List JoinPlan)
        → All IsPath queue
        → All IsConnection found
        → Ensures
            (All IsConnection)
            (search_plans service scope base_table terminals forbid_multiplying fuel queue found)
    unfolding search_plans
    search_plans-IsConnection fuel [] found paths plans = plans
    search_plans-IsConnection zero (item ∷ queue) found paths plans = tt
    search_plans-IsConnection (suc fuel) (item ∷ queue) found paths plans =
        if-Ensures (All IsConnection) (ltb (length found) max_candidates) _ _
          (λ room.
            >>=-Ensures (All IsConnection)
              (visit service scope base_table terminals forbid_multiplying item) _
              λ r visited.
                let (more_paths, more_plans) =
                  Ensures-ok Outcome _ (visit-Outcome item paths.0) visited in
                search_plans-IsConnection fuel (queue ++ r.0) (found ++ r.1)
                  (All-append IsPath queue r.0 paths.1 more_paths)
                  (All-append IsConnection found r.1 plans more_plans))
          (λ full. plans)

    -- Every plan that the search finds is a chain of approved joins from the base table that covers
    -- the terminals, with at most four joins.
    pub enumerate-IsConnection :
        Ensures (All IsConnection) (enumerate service scope base_table terminals forbid_multiplying)
    unfolding enumerate
    enumerate-IsConnection =
        search_plans-IsConnection (weight (branching service scope) max_hops)
          (start base_table ∷ []) [] (record { chain = tt; visits = refl; short = omega arith }, tt)
          tt

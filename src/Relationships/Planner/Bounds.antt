-- ===== src/Relationships/Planner/Bounds.antt =====
-- The search of join plans ends: `enumerate` is given enough rounds, and nothing but a missing
-- permission makes it fail.
use text_to_sql_rag.Prelude.{
  ℕ, zero, suc, ◌+◌, ◌-◌, ◌*◌, ◌≤◌, ◌<◌, ◌≡◌, refl, ap, sym, subst, ◌||◌, Bool, ◌&&◌, List, [], ◌∷◌,
  ◌++◌, Text, list_eq, nat_eq, contains, subset, arith, length, length-snoc, concat_map, sorted_set,
  leb, ltb, values, Bool-cases, inl, inr, All, All-append, All-trivial, All-map,
  length-concat_map-le, length-sorted_set-le,
}
use text_to_sql_rag.Contracts.Errors.{
  Result, ok, not_authorized, FailsWith, >>=-FailsWith, >>=-FailsWith_of_ok, if-FailsWith,
  >>=-eq-ok,
}
use text_to_sql_rag.Contracts.Scope.{TrustedScope, discover, use_in_predicate}
use text_to_sql_rag.Contracts.Records.{RelationshipRecord}
use text_to_sql_rag.Authorization.Policy.{check, check_all}
use text_to_sql_rag.Authorization.Policy.Sweeps.{check-FailsWith, check_all-FailsWith}
use text_to_sql_rag.Catalog.Service.{CatalogService, CatalogSnapshot, relationships_by_table}
use text_to_sql_rag.Relationships.Planner.Steps.{expand_edges_All, length-expand_edges-le}
use text_to_sql_rag.Relationships.Planner.{
  Edge, Item, JoinPlan, edges_of, edges_from, permitted, expand_edges, expand, visit, search_plans,
  weight, branching, start, enumerate, max_hops, max_candidates, is_usable,
}

mul_mono : (b n m : ℕ) → n ≤ m → b * n ≤ b * m
mul_mono b n m h = grind arith

mul_mono_right : (w n m : ℕ) → n ≤ m → n * w ≤ m * w
mul_mono_right w n m h = grind arith

length-edges_of-le : (t : Text) (r : RelationshipRecord) → length (edges_of t r) ≤ 2
length-edges_of-le t r = ground arith

length-relationships_by_table-le :
    (s : CatalogSnapshot) (t : Text)
    → length (relationships_by_table s t) ≤ 2 * length (values s.relationships)
unfolding relationships_by_table
length-relationships_by_table-le s t =
    length-concat_map-le _ 2 (values s.relationships) (λ r. ground arith)

module _ (service : CatalogService) (scope : TrustedScope) where
  abbrev records : ℕ
  records = length (values service.snapshot.relationships)

  length-edges_from-le : (t : Text) → length (edges_from service scope t) ≤ 4 * records
  unfolding edges_from
  length-edges_from-le t = omega (
    arith,
    length-concat_map-le (edges_of t) 2 (relationships_by_table service.snapshot t)
        (length-edges_of-le t),
    length-relationships_by_table-le service.snapshot t,
  )

  permitted-FailsWith :
      (r : RelationshipRecord) → FailsWith not_authorized (permitted service scope r)
  unfolding permitted
  permitted-FailsWith r =
      >>=-FailsWith not_authorized (check service.policy scope.principal_id discover r.left_table) _
        (check-FailsWith service.policy scope.principal_id discover r.left_table)
        λ left.
          if-FailsWith not_authorized left.allowed _ _
            (>>=-FailsWith not_authorized
              (check service.policy scope.principal_id discover r.right_table) _
              (check-FailsWith service.policy scope.principal_id discover r.right_table)
              λ right.
                if-FailsWith not_authorized right.allowed _ _
                  (>>=-FailsWith not_authorized
                    (check_all service.policy scope.principal_id use_in_predicate _) _
                    (check_all-FailsWith service.policy scope.principal_id use_in_predicate _)
                    (λ denied. tt))
                  tt)
            tt

  module _ (base_table : Text) (terminals : List Text) (forbid_multiplying : Bool) where
    -- An added item has one more join and one more visited table.
    abbrev IsNext : Item → Item → Type 0
    IsNext item i =
        (length i.joins ≡ suc (length item.joins)) × (length i.visited ≡ suc (length item.visited))

    expand_edges-IsNext :
        (item : Item) (es : List Edge) (items : List Item)
        → expand_edges service scope base_table terminals forbid_multiplying item es ≡ ok items
        → All (IsNext item) items
    expand_edges-IsNext item es items h =
        expand_edges_All service scope base_table terminals forbid_multiplying (λ e. Unit {0})
          (IsNext item) item (λ e r fresh may_use usable. (length-snoc item.joins _, refl)) es items
          (All-trivial es) h

    expand-IsNext :
        (item : Item) (items : List Item)
        → expand service scope base_table terminals forbid_multiplying item ≡ ok items
        → All (IsNext item) items
    unfolding expand
    expand-IsNext item items h =
        expand_edges-IsNext item (concat_map (edges_from service scope) (sorted_set item.visited))
          items h

    expand_edges-FailsWith :
        (item : Item) (es : List Edge)
        → FailsWith not_authorized
            (expand_edges service scope base_table terminals forbid_multiplying item es)
    unfolding expand_edges
    expand_edges-FailsWith item [] = tt
    expand_edges-FailsWith item (e ∷ es) =
        let rest = expand_edges-FailsWith item es in
        if-FailsWith not_authorized (contains e.other item.visited) _ _ rest (
          >>=-FailsWith not_authorized (permitted service scope e.rel) _ (permitted-FailsWith e.rel)
            λ allowed.
              if-FailsWith not_authorized (allowed && is_usable forbid_multiplying e) _ _
                (>>=-FailsWith not_authorized
                  (expand_edges service scope base_table terminals forbid_multiplying item es) _
                  rest (λ items. tt))
                rest)

    visit-FailsWith :
        (item : Item)
        → FailsWith not_authorized
            (visit service scope base_table terminals forbid_multiplying item)
    unfolding visit expand
    visit-FailsWith item = if-FailsWith not_authorized (subset terminals item.visited) _ _ tt (
        if-FailsWith not_authorized (leb max_hops (length item.joins)) _ _ tt (
          >>=-FailsWith {B = List Item × List JoinPlan} not_authorized
            (expand service scope base_table terminals forbid_multiplying item)
            (λ items. ok (items, []))
            (expand_edges-FailsWith item
              (concat_map (edges_from service scope) (sorted_set item.visited)))
            (λ items. tt)))

    abbrev room : ℕ
    room = branching service scope

    abbrev cost : Item → ℕ
    cost item = weight room (max_hops - length item.joins)

    abbrev total : List Item → ℕ
    total [] = 0
    total (i ∷ is) = cost i + total is

    total-append : (xs ys : List Item) → total (xs ++ ys) ≡ total xs + total ys
    total-append [] ys = omega arith
    total-append (x ∷ xs) ys = omega (arith, total-append xs ys)

    -- What every item of the queue keeps: one visited table more than joins, and at most four joins.
    abbrev Fits : Item → Type 0
    Fits item = (length item.visited ≡ suc (length item.joins)) × (length item.joins ≤ max_hops)

    weight_pos : (left : ℕ) → 1 ≤ weight room left
    unfolding weight
    weight_pos zero = omega arith
    weight_pos (suc left) = omega arith

    total-next :
        (item : Item) (items : List Item) (w : ℕ)
        → All (IsNext item) items
        → weight room (max_hops - suc (length item.joins)) ≡ w
        → total items ≡ length items * w
    total-next item [] w h e = omega arith
    total-next item (i ∷ is) w h e = omega (
      arith,
      next.0,
      ap (λ (n : ℕ). weight room (max_hops - n)) next.0,
      total-next item is w h.1 e,
    )
      where
        next : IsNext item i
        next = h.0

    length-expand-le :
        (item : Item) (items : List Item)
        → Fits item
        → length item.joins < max_hops
        → expand service scope base_table terminals forbid_multiplying item ≡ ok items
        → length items ≤ room
    unfolding expand
    length-expand-le item items fits few h = omega (
      arith,
      length-expand_edges-le service scope base_table terminals forbid_multiplying item
          (concat_map (edges_from service scope) (sorted_set item.visited)) items h,
      length-concat_map-le (edges_from service scope) (4 * records) (sorted_set item.visited)
          length-edges_from-le,
      mul_mono (4 * records) (length (sorted_set item.visited)) 4
          (omega (arith, length-sorted_set-le item.visited)),
    )

    pub Fits-next :
        (item i : Item) → Fits item → length item.joins < max_hops → IsNext item i → Fits i
    Fits-next item i fits few next = omega arith

    weight-left :
        (k : ℕ)
        → k < max_hops
        → weight room (max_hops - k) ≡ 1 + room * weight room (max_hops - suc k)
    unfolding weight
    weight-left zero h = refl
    weight-left (suc zero) h = refl
    weight-left (suc (suc zero)) h = refl
    weight-left (suc (suc (suc zero))) h = refl
    weight-left (suc (suc (suc (suc k)))) h = absurd (omega arith)

    -- What one round appends to the queue costs less than the item that it takes.
    visit-cost :
        (item : Item) (items : List Item) (plans : List JoinPlan)
        → Fits item
        → visit service scope base_table terminals forbid_multiplying item ≡ ok (items, plans)
        → (total items < cost item) × All Fits items
    unfolding visit
    visit-cost item items plans fits h =
        elim (Bool-cases (subset terminals item.visited || leb max_hops (length item.joins))) [
          | inl ends ↦
              let e : items ≡ [] = ground arith in
              subst (λ l. (total l < cost item) × All Fits l) (sym e) (weight_pos _, tt)
          | inr goes ↦
              let keep : List Item → Result (List Item × List JoinPlan) = λ l. ok (l, []) in
              let (next, expands, same) =
                >>=-eq-ok (expand service scope base_table terminals forbid_multiplying item) keep
                  {y = (items, plans)} (ground arith) in
              let e : next ≡ items = ground arith in
              let few : length item.joins < max_hops = ground arith in
              let nexts = expand-IsNext item next expands in
              subst (λ l. (total l < cost item) × All Fits l) e
                (
                  omega (
                    arith,
                    total-next item next _ nexts refl,
                    length-expand-le item next fits few expands,
                    mul_mono_right (weight room (max_hops - suc (length item.joins))) (length next)
                        room (length-expand-le item next fits few expands),
                    weight-left (length item.joins) few,
                  ),
                  All-map (IsNext item) Fits next (λ i. Fits-next item i fits few) nexts,
                )
        ]

    search_plans-FailsWith :
        (fuel : ℕ) (queue : List Item) (found : List JoinPlan)
        → total queue ≤ fuel
        → All Fits queue
        → FailsWith not_authorized
            (search_plans service scope base_table terminals forbid_multiplying fuel queue found)
    unfolding search_plans
    search_plans-FailsWith fuel [] found h fits = tt
    search_plans-FailsWith zero (item ∷ queue) found h fits =
        absurd (omega (arith, weight_pos (max_hops - length item.joins)))
    search_plans-FailsWith (suc fuel) (item ∷ queue) found h fits =
        if-FailsWith not_authorized (ltb (length found) max_candidates) _ _
          (>>=-FailsWith_of_ok not_authorized
            (visit service scope base_table terminals forbid_multiplying item) _
            (visit-FailsWith item)
            λ (items, plans) visited.
              let (less, fit) = visit-cost item items plans fits.0 visited in
              search_plans-FailsWith fuel (queue ++ items) (found ++ plans)
                (omega (arith, total-append queue items)) (All-append Fits queue items fits.1 fit))
          tt

    -- The search of join plans ends within the rounds that it is given, and fails only for a
    -- principal that the policy does not know.
    pub enumerate-FailsWith :
        FailsWith not_authorized (enumerate service scope base_table terminals forbid_multiplying)
    unfolding enumerate
    enumerate-FailsWith =
        search_plans-FailsWith (weight room max_hops) (start base_table ∷ []) [] (omega arith)
          ((refl, omega arith), tt)

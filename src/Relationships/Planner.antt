-- ===== src/Relationships/Planner.antt =====
-- app/relationships/planner.py: bounded breadth-first enumeration of join plans, and the choice
-- among them. The queue's first component is never read and is left out.
pub mod Ranking
pub mod Paths
pub mod Steps
pub mod Bounds
pub mod Choice
use text_to_sql_rag.Prelude.{
  ℕ, zero, suc, ◌+◌, ◌*◌, Bool, true, false, not, ◌&&◌, Option, none, some, List, [], ◌∷◌, ◌++◌,
  Text, ◌==◌, list_eq, nat_eq, Eq, contains, subset, same_set, difference, select, all_of, map,
  length, leb, ltb, sorted_set, sort_by, concat_map, text_lt, lex_lt, if◌then◌else◌, ℕ_discrete,
  values,
}
use text_to_sql_rag.Contracts.Errors.{
  Result, ok, err, fail, governed, out_of_fuel, no_approved_path, ambiguous_path, ◌>>=◌, ◌>>◌,
}
use text_to_sql_rag.Contracts.Ids.{show_ref}
use text_to_sql_rag.Contracts.Scope.{discover, use_in_predicate, TrustedScope}
use text_to_sql_rag.Contracts.Records.{
  Cardinality, one_to_one, many_to_one, one_to_many, many_to_many, RelationshipRecord,
}
use text_to_sql_rag.Authorization.Policy.{check, check_all}
use text_to_sql_rag.Catalog.Service.{CatalogService, relationships_by_table}

abbrev pub max_hops : ℕ
max_hops = 4

abbrev pub max_candidates : ℕ
max_candidates = 32

pub record PlannedJoin : Type 0 where
  pub relationship : RelationshipRecord
  pub from_table : Text
  pub to_table : Text
  pub reversed : Bool
  pub preserves_left_multiplicity : Bool

pub record JoinPlan : Type 0 where
  pub base_table : Text
  pub joins : List PlannedJoin

-- The set of tables, as a list without repetition.
unfoldable pub plan_tables : JoinPlan → List Text
plan_tables p = sorted_set (p.base_table ∷ map (λ j. j.to_table) p.joins)

abbrev pub hops : JoinPlan → ℕ
hops p = length p.joins

unfoldable pub is_additive_safe : JoinPlan → Bool
is_additive_safe p = all_of (λ j. j.preserves_left_multiplicity) p.joins

-- `str(relationship.ref)`
abbrev pub relationship_ref : RelationshipRecord → Text
relationship_ref r = show_ref (record { id = r.id; version = r.version })

abbrev pub relationship_refs : JoinPlan → List Text
relationship_refs p = map (λ j. relationship_ref j.relationship) p.joins

-- `card not in _MULTIPLYING`
abbrev is_single : Cardinality → Bool
is_single one_to_one = true
is_single many_to_one = true
is_single one_to_many = false
is_single many_to_many = false

abbrev flip : Cardinality → Cardinality
flip many_to_one = one_to_many
flip one_to_many = many_to_one
flip other = other

unfoldable pub preserves_multiplicity : RelationshipRecord → Bool → Bool
preserves_multiplicity rel reversed =
    is_single (if reversed then flip rel.cardinality else rel.cardinality)

-- An edge that leaves a table: the record, the other table, and whether it is reversed.
pub record Edge : Type 0 where
  pub rel : RelationshipRecord
  pub from_table : Text
  pub other : Text
  pub reversed : Bool

-- The edges of one record.
abbrev pub edges_of : Text → RelationshipRecord → List Edge
edges_of table_id rel =
    (if rel.left_table == table_id
      then record { rel = rel; from_table = table_id; other = rel.right_table; reversed = false }
        ∷ []
      else [])
    ++ (if rel.right_table == table_id
        then record { rel = rel; from_table = table_id; other = rel.left_table; reversed = true }
          ∷ []
        else [])

-- What waits in the queue.
pub record Item : Type 0 where
  pub joins : List PlannedJoin
  pub visited : List Text

pub record RankKey : Type 0 where
  pub safety : ℕ
  pub tables : ℕ
  pub hops : ℕ
  pub refs : List Text

RankKey-discrete : Discrete RankKey
RankKey-discrete = hlevel ℕ_discrete

instance unfoldable pub rank_key_eq : Eq RankKey
unfolding RankKey-discrete
rank_key_eq = record { dec = RankKey-discrete }

unfoldable pub rank_key : JoinPlan → RankKey
unfolding is_additive_safe plan_tables
rank_key p = record {
  safety = if is_additive_safe p then 0 else 1;
  tables = length (plan_tables p);
  hops = hops p;
  refs = relationship_refs p;
}

-- `<` on the tuples.
unfoldable pub key_lt : RankKey → RankKey → Bool
key_lt a b =
    if a.safety == b.safety
    then if a.tables == b.tables
      then if a.hops == b.hops then lex_lt text_lt a.refs b.refs else ltb a.hops b.hops
      else ltb a.tables b.tables
    else ltb a.safety b.safety

abbrev pub plan_lt : JoinPlan → JoinPlan → Bool
plan_lt p q = key_lt (rank_key p) (rank_key q)

abbrev pub rank : List JoinPlan → List JoinPlan
rank = sort_by plan_lt

-- The tests of the inner loop behind the permission.
abbrev pub is_usable : Bool → Edge → Bool
is_usable forbid_multiplying e =
    if forbid_multiplying
    then preserves_multiplicity e.rel e.reversed && (e.rel.prohibited_usages == [])
    else true

abbrev pub extend : Item → Edge → Item
extend item e = record {
  joins =
      item.joins
      ++ record {
        relationship = e.rel;
        from_table = e.from_table;
        to_table = e.other;
        reversed = e.reversed;
        preserves_left_multiplicity = preserves_multiplicity e.rel e.reversed;
      }
        ∷ [];
  visited = e.other ∷ item.visited;
}

-- The queue starts at the base table.
abbrev pub start : Text → Item
start base_table = record { joins = []; visited = base_table ∷ [] }

-- An item of the queue costs one round and the rounds of what it appends.
unfoldable pub weight : ℕ → ℕ → ℕ
weight branching zero = 1
weight branching (suc left) = 1 + branching * weight branching left

-- The candidates that use every required relationship.
abbrev pub using_required : List Text → List JoinPlan → List JoinPlan
using_required refs = select (λ p. subset refs (relationship_refs p))

unfoldable pub require_some : Text → List JoinPlan → Result (List JoinPlan)
require_some base_table [] = fail governed no_approved_path (some base_table)
require_some base_table (p ∷ ps) = ok (p ∷ ps)

-- The test on the two best plans.
unfoldable pub choose : Text → List JoinPlan → Result JoinPlan
choose base_table [] = fail governed no_approved_path (some base_table)
choose base_table (best ∷ []) = ok best
choose base_table (best ∷ second ∷ more) =
    if rank_key second == rank_key best
      && not (same_set (relationship_refs second) (relationship_refs best))
    then fail governed ambiguous_path (some base_table)
    else ok best

module _ (service : CatalogService) (scope : TrustedScope) where
  unfoldable pub edges_from : Text → List Edge
  unfolding relationships_by_table
  edges_from table_id =
      concat_map (edges_of table_id) (relationships_by_table service.snapshot table_id)

  -- The left table, the right table and then every join key.
  unfoldable pub permitted : RelationshipRecord → Result Bool
  permitted rel = do
    left ← check service.policy scope.principal_id discover rel.left_table
    if left.allowed
        then (check service.policy scope.principal_id discover rel.right_table >>= λ right.
            if right.allowed
            then (check_all service.policy scope.principal_id use_in_predicate (
                  map (λ p. p.left_column) rel.predicates
                  ++ map (λ p. p.right_column) rel.predicates)
                >>= λ denied. ok (denied == []))
            else ok false)
        else ok false

  -- An item has at most four visited tables when it is expanded, and a record gives at most two
  -- edges for each of the two times that it stands under a table.
  abbrev pub branching : ℕ
  branching = max_hops * (4 * length (values service.snapshot.relationships))

  module _ (base_table : Text) (terminals : List Text) (forbid_multiplying : Bool) where
    -- The bodies of the two inner loops, over the edges of every visited table in order.
    unfoldable pub expand_edges : Item → List Edge → Result (List Item)
    expand_edges item [] = ok []
    expand_edges item (e ∷ es) =
        let rest = expand_edges item es in
        if contains e.other item.visited
        then rest
        else (permitted e.rel >>= λ allowed.
            if allowed && is_usable forbid_multiplying e
            then (rest >>= λ items. ok (extend item e ∷ items))
            else rest)

    unfoldable pub expand : Item → Result (List Item)
    unfolding expand_edges
    expand item = expand_edges item (concat_map edges_from (sorted_set item.visited))

    -- One round of the `while` loop behind `popleft`: what it appends to the queue and to `found`.
    unfoldable pub visit : Item → Result (List Item × List JoinPlan)
    unfolding expand
    visit item =
        if subset terminals item.visited
        then ok ([], record { base_table = base_table; joins = item.joins } ∷ [])
        else if leb max_hops (length item.joins)
        then ok ([], [])
        else (expand item >>= λ items. ok (items, []))

    -- The `while` loop. `fuel` is the number of rounds that are left.
    unfoldable pub search_plans : ℕ → List Item → List JoinPlan → Result (List JoinPlan)
    unfolding visit
    search_plans fuel [] found = ok found
    search_plans zero (item ∷ queue) found = err out_of_fuel
    search_plans (suc fuel) (item ∷ queue) found =
        if ltb (length found) max_candidates
        then (visit item >>= λ r. search_plans fuel (queue ++ r.0) (found ++ r.1))
        else ok found

    unfoldable pub enumerate : Result (List JoinPlan)
    unfolding search_plans weight
    enumerate = search_plans (weight branching max_hops) (start base_table ∷ []) []

  unfoldable pub plan : Text → List Text → List Text → Bool → Result JoinPlan
  unfolding require_some choose enumerate
  plan base_table required_tables required_refs forbid_multiplying =
      let terminals = difference required_tables (base_table ∷ []) in
      if terminals == []
      then ok (record { base_table = base_table; joins = [] })
      else (enumerate base_table terminals forbid_multiplying >>= λ all_plans.
          require_some base_table all_plans >>= λ candidates.
          (if required_refs == []
            then ok candidates
            else require_some base_table (using_required required_refs candidates))
          >>= λ chosen. choose base_table (rank chosen))

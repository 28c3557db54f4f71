-- ===== src/Semantics/Rules.antt =====
-- app/semantics/rules.py: the closure of the rules to a fixed point. A frozenset is a list that is
-- read up to membership, so that two states are compared as sets, the names of the slots too.
pub mod Growth
pub mod Steps
pub mod Fixpoint
pub mod Authority
pub mod Slots
use text_to_sql_rag.Prelude.{
  ℕ, zero, suc, ◌+◌, Bool, true, false, not, ◌&&◌, Option, none, some, List, [], ◌∷◌, ◌++◌, Text,
  text, ◌==◌, list_eq, nat_eq, option_eq, contains, same_set, union, difference, select, map, keys,
  values, insert, get_default, sort_by, sorted_set, ltb, length, text_lt, concat_map, if◌then◌else◌,
}
use text_to_sql_rag.Contracts.Errors.{
  Result, ok, err, fail, governed, rule_closure_not_converged, rule_conflict, ◌>>=◌, ◌>>◌,
}
use text_to_sql_rag.Contracts.Ids.{show_ref, table_id_of}
use text_to_sql_rag.Contracts.Expressions.{optional_columns}
use text_to_sql_rag.Contracts.Scope.{TrustedScope, use_in_predicate}
use text_to_sql_rag.Contracts.Plan.{Obligation}
use text_to_sql_rag.Contracts.Records.{
  RuleRecord, RuleEffect, TableRecord, RelationshipRecord, class_precedence, Activation, EffectOp,
  require_population_filter, require_tenant_scope, set_slot, require_semijoin_or_allocation,
  prefer_relationship, any_scan_with_tag, population_contains_entity, uses_table, uses_column,
  uses_metric, slot_unset, always,
}
use text_to_sql_rag.Catalog.Service.{
  CatalogService, get, get_table, get_relationship, require_columns_usable,
}

abbrev pub max_closure_rounds : ℕ
max_closure_rounds = 8

-- What the closure starts with, and what a rule is tested on.
pub record ClosureInput : Type 0 where
  pub tables : List Text
  pub columns : List Text
  pub metric_refs : List Text
  pub entities : List Text
  pub relationship_refs : List Text
  pub slots : List (Option Text × Text)

-- The local variables of the loop.
pub record Closing : Type 0 where
  pub state : ClosureInput
  pub obligations : List (Text × Obligation)
  pub applied : List (Text × RuleRecord)
  pub semantic_reqs : List Text

pub record ClosureResult : Type 0 where
  pub tables : List Text
  pub columns : List Text
  pub relationship_refs : List Text
  pub obligations : List Obligation
  pub slots : List (Option Text × Text)
  pub applied_rule_refs : List Text
  pub rounds : ℕ
  pub semantic_requirements : List Text

-- `str(rule.ref)`
abbrev pub rule_ref : RuleRecord → Text
rule_ref r = show_ref (record { id = r.id; version = r.version })

-- `<` on `rule.precedence`.
unfoldable pub precedence_lt : RuleRecord → RuleRecord → Bool
precedence_lt a b =
    if class_precedence a.rule_class == class_precedence b.rule_class
    then ltb a.priority_within_class b.priority_within_class
    else ltb (class_precedence a.rule_class) (class_precedence b.rule_class)

abbrev activation_op : Activation → Text
activation_op (any_scan_with_tag _) = text "any_scan_with_tag"
activation_op (population_contains_entity _) = text "population_contains_entity"
activation_op (uses_table _) = text "uses_table"
activation_op (uses_column _) = text "uses_column"
activation_op (uses_metric _) = text "uses_metric"
activation_op (slot_unset _) = text "slot_unset"
activation_op always = text "always"

-- `setdefault(op, []).append(rule)` for each rule.
unfoldable pub by_activation :
    List RuleRecord → List (Text × List RuleRecord) → List (Text × List RuleRecord)
by_activation [] buckets = buckets
by_activation (r ∷ rs) buckets =
    let op = activation_op r.activation in
    by_activation rs (insert op (get_default op [] buckets ++ r ∷ []) buckets)

-- The order in which the engine goes through the rules of the catalog.
unfoldable pub bucketed : List RuleRecord → List RuleRecord
unfolding by_activation precedence_lt
bucketed rules = concat_map (sort_by precedence_lt) (values (by_activation rules []))

-- `x in xs` where x may be None.
abbrev option_in : Option Text → List Text → Bool
option_in none xs = false
option_in (some x) xs = contains x xs

-- The obligation that a rule leaves.
abbrev pub obligation_of : RuleRecord → Obligation
obligation_of r = record {
  rule_ref = rule_ref r;
  predicate = r.effect.predicate;
  placement = r.effect.placement;
  required_tables = sorted_set r.effect.required_tables;
  required_relationship_ref = r.effect.required_relationship_ref;
}

unfoldable pub tables_of_columns : List Text → Result (List Text)
tables_of_columns [] = ok []
tables_of_columns (c ∷ cs) = do t ← table_id_of c; ts ← tables_of_columns cs; ok (t ∷ ts)

abbrev pub relationship_columns : RelationshipRecord → List Text
relationship_columns rel =
    map (λ p. p.left_column) rel.predicates ++ map (λ p. p.right_column) rel.predicates

-- `slot_value or ""`
abbrev pub or_empty : Option Text → Text
or_empty none = []
or_empty (some v) = v

-- The values that the rules write to one slot.
abbrev pub written : Option Text → List RuleRecord → List Text
written slot rules =
    map (λ r. or_empty r.effect.slot_value) (select (λ r. r.effect.slot == slot) rules)

-- The set of the values has more than one item.
abbrev pub differ : List Text → Bool
differ [] = false
differ (v ∷ vs) = not (same_set (v ∷ []) (v ∷ vs))

unfoldable pub disagree : Option Text → List RuleRecord → Bool
disagree slot rules = differ (written slot rules)

abbrev pub writes_slot : RuleRecord → Bool
writes_slot r = elim r.effect.op [
  | set_slot ↦ elim r.effect.slot [ none ↦ false | some [] ↦ false | some (c ∷ s) ↦ true ]
  | _ ↦ false
]

unfoldable pub conflicts_among : List (Option Text) → List RuleRecord → Result (Unit {0})
conflicts_among [] writers = ok tt
conflicts_among (slot ∷ slots) writers =
    let rest = conflicts_among slots writers in
    if disagree slot writers then fail governed rule_conflict slot else rest

-- `_detect_conflicts`
unfoldable pub detect_conflicts : List RuleRecord → Result (Unit {0})
unfolding conflicts_among disagree
detect_conflicts rules =
    let writers = select writes_slot rules in
    conflicts_among (map (λ r. r.effect.slot) writers) writers

-- What a mandatory effect adds: to the columns, those of its predicate and of its relationship, and to
-- the tables, those that it names, those of its predicate and those of its relationship.
abbrev pub needed_columns : RuleRecord → List Text → List Text
needed_columns r rel_columns = optional_columns r.effect.predicate ++ rel_columns

abbrev pub needed_tables : RuleRecord → List Text → List Text → List Text
needed_tables r pred_tables rel_tables = r.effect.required_tables ++ pred_tables ++ rel_tables

abbrev pub added_columns : Closing → RuleRecord → List Text → List Text
added_columns c r rel_columns = difference (needed_columns r rel_columns) c.state.columns

abbrev pub added_tables : Closing → RuleRecord → List Text → List Text → List Text
added_tables c r pred_tables rel_tables =
    difference (needed_tables r pred_tables rel_tables) c.state.tables

-- The state behind a mandatory effect. `needs` is what the relationship brings in: its reference, its
-- tables and its columns.
abbrev pub mandated : Closing → RuleRecord → List Text → List Text × List Text × List Text → Closing
mandated c r pred_tables needs = record c {
  state = record (c.state) {
    tables = union c.state.tables (needed_tables r pred_tables needs.1);
    columns = union c.state.columns (needed_columns r needs.2);
    relationship_refs = union c.state.relationship_refs needs.0;
  };
  obligations = insert (rule_ref r) (obligation_of r) c.obligations;
  applied = insert (rule_ref r) r c.applied;
}

-- The state behind the setting of a slot.
abbrev pub with_slot : Closing → RuleRecord → Text → Closing
with_slot c r v = record c {
  state = record (c.state) { slots = insert r.effect.slot v c.state.slots };
  applied = insert (rule_ref r) r c.applied;
}

abbrev pub with_applied : Closing → RuleRecord → Closing
with_applied c r = record c { applied = insert (rule_ref r) r c.applied }

-- A slot is set only if it is not set yet.
unfoldable pub apply_set_slot : Option Text → Closing → RuleRecord → Closing
apply_set_slot none c r = c
apply_set_slot (some v) c r =
    if contains r.effect.slot (keys c.state.slots) then c else with_slot c r v

unfoldable pub apply_semijoin : Closing → RuleRecord → Closing
apply_semijoin c r =
    if contains (rule_ref r) c.semantic_reqs
    then c
    else record (with_applied c r) { semantic_reqs = c.semantic_reqs ++ rule_ref r ∷ [] }

-- `before == after`
abbrev pub unchanged : ClosureInput → ClosureInput → Bool
unchanged a b =
    same_set a.tables b.tables
    && same_set a.columns b.columns
    && same_set a.relationship_refs b.relationship_refs
    && same_set (keys a.slots) (keys b.slots)

abbrev pub opening : ClosureInput → Closing
opening seed = record { state = seed; obligations = []; applied = []; semantic_reqs = [] }

abbrev pub sorted_obligations : List (Text × Obligation) → List Obligation
sorted_obligations d = values (sort_by (λ a b. text_lt a.0 b.0) d)

abbrev pub result_of : Closing → ℕ → ClosureResult
result_of c rounds = record {
  tables = c.state.tables;
  columns = c.state.columns;
  relationship_refs = c.state.relationship_refs;
  obligations = sorted_obligations c.obligations;
  slots = c.state.slots;
  applied_rule_refs = sorted_set (keys c.applied);
  rounds = rounds;
  semantic_requirements = c.semantic_reqs;
}

module _ (service : CatalogService) (scope : TrustedScope) where
  unfoldable pub any_tagged : Option Text → List Text → Result Bool
  any_tagged tag [] = ok false
  any_tagged tag (t ∷ ts) =
      let rest = any_tagged tag ts in
      get service.snapshot.tables t >>= λ table. if option_in tag table.tags then ok true else rest

  unfoldable pub activates : RuleRecord → ClosureInput → Result Bool
  unfolding any_tagged
  activates r state = elim r.activation [
    | always ↦ ok true
    | any_scan_with_tag tag ↦ any_tagged tag state.tables
    | population_contains_entity entity ↦ ok (option_in entity state.entities)
    | uses_table object_id ↦ ok (option_in object_id state.tables)
    | uses_column object_id ↦ ok (option_in object_id state.columns)
    | uses_metric metric_ref ↦ ok (option_in metric_ref state.metric_refs)
    | slot_unset slot ↦ ok (not (contains slot (keys state.slots)))
  ]

  -- The loops that fill `seen`.
  unfoldable pub seen_rules :
      ClosureInput → List RuleRecord → List (Text × RuleRecord) → Result (List (Text × RuleRecord))
  unfolding activates
  seen_rules state [] seen = ok seen
  seen_rules state (r ∷ rs) seen = activates r state >>= λ b.
      seen_rules state rs (if b then insert (rule_ref r) r seen else seen)

  unfoldable pub candidates : ClosureInput → Result (List RuleRecord)
  unfolding seen_rules bucketed
  candidates state = do
    seen ← seen_rules state (bucketed (values service.snapshot.rules)) []
    ok (sort_by precedence_lt (values seen))

  -- What a relationship that an effect requires brings in: its ends and the columns of its keys.
  unfoldable pub relationship_needs : Option Text → Result (List Text × List Text × List Text)
  relationship_needs none = ok ([], [], [])
  relationship_needs (some []) = ok ([], [], [])
  relationship_needs (some (c ∷ s)) = do
    rel ← get_relationship service scope (c ∷ s)
    ok ((c ∷ s) ∷ [], rel.left_table ∷ rel.right_table ∷ [], relationship_columns rel)

  unfoldable pub get_tables : List Text → Result (Unit {0})
  get_tables [] = ok tt
  get_tables (t ∷ ts) = get_table service scope t >>= λ table. get_tables ts

  -- No columns, no check.
  unfoldable pub require_added : List Text → Result (Unit {0})
  require_added [] = ok tt
  require_added (c ∷ cs) = require_columns_usable service scope (c ∷ cs) use_in_predicate

  -- The effect of a mandatory rule: every addition is authorized before it stands.
  unfoldable pub apply_mandatory : Closing → RuleRecord → Result Closing
  unfolding relationship_needs get_tables require_added tables_of_columns
  apply_mandatory c r = do
    pred_tables ← tables_of_columns (optional_columns r.effect.predicate)
    needs ← relationship_needs r.effect.required_relationship_ref
    require_added (added_columns c r needs.2)
    get_tables (sorted_set (added_tables c r pred_tables needs.1))
    ok (mandated c r pred_tables needs)

  -- The body of the `for` loop, by the operator of the effect.
  unfoldable pub apply_effect : EffectOp → Closing → RuleRecord → Result Closing
  unfolding apply_set_slot apply_semijoin apply_mandatory
  apply_effect set_slot c r = ok (apply_set_slot r.effect.slot_value c r)
  apply_effect prefer_relationship c r = ok (with_applied c r)
  apply_effect require_semijoin_or_allocation c r = ok (apply_semijoin c r)
  apply_effect require_population_filter c r = apply_mandatory c r
  apply_effect require_tenant_scope c r = apply_mandatory c r

  unfoldable pub apply_rules : Closing → List RuleRecord → Result Closing
  unfolding apply_effect
  apply_rules c [] = ok c
  apply_rules c (r ∷ rs) = apply_effect r.effect.op c r >>= λ d. apply_rules d rs

  -- The candidates of a round are those of the state at its start.
  unfoldable pub round : Closing → Result Closing
  unfolding candidates apply_rules
  round c = do rules ← candidates c.state; apply_rules c rules

  -- The `while` loop with its `else`; `left` is the number of rounds that are left.
  unfoldable pub close_rounds : ℕ → Closing → Result (Closing × ℕ)
  unfolding round
  close_rounds zero c = fail governed rule_closure_not_converged none
  close_rounds (suc left) c = round c >>= λ d.
      if unchanged c.state d.state
      then ok (d, 1)
      else (close_rounds left d >>= λ r. ok (r.0, 1 + r.1))

  unfoldable pub close : ClosureInput → Result ClosureResult
  unfolding close_rounds detect_conflicts
  close seed = do
    (c, rounds) ← close_rounds max_closure_rounds (opening seed)
    detect_conflicts (values c.applied)
    ok (result_of c rounds)

-- ===== src/Semantics/Rules/Steps.antt =====
-- One rule of a round as a step between two states of the closure.
use text_to_sql_rag.Prelude.{
  ℕ, zero, suc, ◌≡◌, refl, sym, ap, subst, Bool, true, false, Option, none, some, List, [], ◌∷◌,
  ◌++◌, Text, list_eq, nat_eq, option_eq, contains, keys, Bool-cases, inl, inr, sorted_set,
  if◌then◌else◌, Extends_refl, is_new_key, Extends_union, Extends_insert,
}
use text_to_sql_rag.Contracts.Errors.{ok, >>=-eq-ok, ok-injective}
use text_to_sql_rag.Contracts.Scope.{TrustedScope}
use text_to_sql_rag.Contracts.Expressions.{optional_columns}
use text_to_sql_rag.Contracts.Records.{
  RuleRecord, EffectOp, require_population_filter, require_tenant_scope, set_slot,
  require_semijoin_or_allocation, prefer_relationship,
}
use text_to_sql_rag.Catalog.Service.{CatalogService}
use text_to_sql_rag.Semantics.Rules.{
  Closing, rule_ref, apply_set_slot, apply_semijoin, apply_mandatory, apply_effect, apply_rules,
  candidates, round, unchanged, close_rounds, tables_of_columns, relationship_needs, require_added,
  get_tables, with_slot, with_applied, mandated, added_columns, added_tables, needed_columns,
  needed_tables,
}
use text_to_sql_rag.Semantics.Rules.Growth.{Grows, Grows-refl}

-- The effects that leave an obligation.
abbrev pub is_obligation : EffectOp → Bool
is_obligation require_population_filter = true
is_obligation require_tenant_scope = true
is_obligation set_slot = false
is_obligation require_semijoin_or_allocation = false
is_obligation prefer_relationship = false

abbrev pub sets_slot : EffectOp → Bool
sets_slot set_slot = true
sets_slot _ = false

module _ (service : CatalogService) (scope : TrustedScope) where
  pub data Step (c : Closing) (r : RuleRecord) : Closing → Type 0 where
    skip : is_obligation r.effect.op ≡ false → Step c r c
    set :
        (v : Text)
        → r.effect.op ≡ set_slot
        → r.effect.slot_value ≡ some v
        → contains r.effect.slot (keys c.state.slots) ≡ false
        → Step c r (with_slot c r v)
    prefer : r.effect.op ≡ prefer_relationship → Step c r (with_applied c r)
    semijoin :
        r.effect.op ≡ require_semijoin_or_allocation
        → Step c r
            (record (with_applied c r) { semantic_reqs = c.semantic_reqs ++ rule_ref r ∷ [] })
    mandate :
        (pred_tables : List Text) (needs : List Text × List Text × List Text)
        → is_obligation r.effect.op ≡ true
        → require_added service scope (added_columns c r needs.2) ≡ ok tt
        → get_tables service scope (sorted_set (added_tables c r pred_tables needs.1)) ≡ ok tt
        → Step c r (mandated c r pred_tables needs)

  apply_set_slot-Step :
      (v : Option Text) (c : Closing) (r : RuleRecord)
      → r.effect.op ≡ set_slot
      → r.effect.slot_value ≡ v
      → Step c r (apply_set_slot v c r)
  unfolding apply_set_slot
  apply_set_slot-Step none c r is_set e = skip (ap is_obligation is_set)
  apply_set_slot-Step (some v) c r is_set e =
      elim (Bool-cases (contains r.effect.slot (keys c.state.slots))) [
        | inl there ↦
            subst (Step c r) (sym (ap (λ b. if b then c else with_slot c r v) there))
              (skip (ap is_obligation is_set))
        | inr unset ↦
            subst (Step c r) (sym (ap (λ b. if b then c else with_slot c r v) unset))
              (set v is_set e unset)
      ]

  apply_semijoin-Step :
      (c : Closing) (r : RuleRecord)
      → r.effect.op ≡ require_semijoin_or_allocation
      → Step c r (apply_semijoin c r)
  unfolding apply_semijoin
  apply_semijoin-Step c r is_semijoin = elim (Bool-cases (contains (rule_ref r) c.semantic_reqs)) [
    | inl there ↦ rw there (skip (ap is_obligation is_semijoin))
    | inr new ↦ rw new (semijoin is_semijoin)
  ]

  apply_mandatory-Step :
      (c : Closing) (r : RuleRecord) (d : Closing)
      → is_obligation r.effect.op ≡ true
      → apply_mandatory service scope c r ≡ ok d
      → Step c r d
  unfolding apply_mandatory
  apply_mandatory-Step c r d mandatory h =
      let (pred_tables, _, h1) =
        >>=-eq-ok (tables_of_columns (optional_columns r.effect.predicate)) _ h in
      let (needs, _, h2) =
        >>=-eq-ok (relationship_needs service scope r.effect.required_relationship_ref) _ h1 in
      let (_, columns_ok, h3) =
        >>=-eq-ok (require_added service scope (added_columns c r needs.2)) _ h2 in
      let (_, tables_ok, h4) =
        >>=-eq-ok (get_tables service scope (sorted_set (added_tables c r pred_tables needs.1))) _
          h3 in
      subst (Step c r) (ok-injective h4) (mandate pred_tables needs mandatory columns_ok tables_ok)

  -- Each rule that is applied makes one step.
  pub apply_effect-Step :
      (op : EffectOp) (c : Closing) (r : RuleRecord) (d : Closing)
      → r.effect.op ≡ op
      → apply_effect service scope op c r ≡ ok d
      → Step c r d
  unfolding apply_effect
  apply_effect-Step require_population_filter c r d e h =
      apply_mandatory-Step c r d (ap is_obligation e) h
  apply_effect-Step require_tenant_scope c r d e h =
      apply_mandatory-Step c r d (ap is_obligation e) h
  apply_effect-Step set_slot c r d e h =
      subst (Step c r) (ok-injective h) (apply_set_slot-Step r.effect.slot_value c r e refl)
  apply_effect-Step require_semijoin_or_allocation c r d e h =
      subst (Step c r) (ok-injective h) (apply_semijoin-Step c r e)
  apply_effect-Step prefer_relationship c r d e h = subst (Step c r) (ok-injective h) (prefer e)

  -- A relation that each step keeps holds between the ends of a round and of the whole loop.
  module _ {κ} (R : Closing → Closing → Type κ) (nothing : (c : Closing) → R c c)
      (chain : (a b c : Closing) → R a b → R b c → R a c)
      (step : (c : Closing) (r : RuleRecord) (d : Closing) → Step c r d → R c d) where
    pub apply_rules_ind :
        (c : Closing) (rules : List RuleRecord) (d : Closing)
        → apply_rules service scope c rules ≡ ok d
        → R c d
    unfolding apply_rules
    apply_rules_ind c [] d h = subst (R c) (ok-injective h) (nothing c)
    apply_rules_ind c (r ∷ rules) d h =
        let (b, first, rest) = >>=-eq-ok (apply_effect service scope r.effect.op c r) _ h in
        chain c b d (step c r b (apply_effect-Step r.effect.op c r b refl first))
          (apply_rules_ind b rules d rest)

    round_ind : (c d : Closing) → round service scope c ≡ ok d → R c d
    unfolding round
    round_ind c d h =
        let (rules, _, h1) = >>=-eq-ok (candidates service scope c.state) _ h in
        apply_rules_ind c rules d h1

    pub close_rounds_ind :
        (left : ℕ) (c : Closing) (r : Closing × ℕ)
        → close_rounds service scope left c ≡ ok r
        → R c r.0
    unfolding close_rounds
    close_rounds_ind zero c r h = cc
    close_rounds_ind (suc left) c r h =
        let (d, first, h1) = >>=-eq-ok (round service scope c) _ h in
        elim (Bool-cases (unchanged c.state d.state)) [
          | inl same ↦
              let h2 = rw same at h1 in subst (λ q. R c q.0) (ok-injective h2) (round_ind c d first)
          | inr moved ↦
              let h2 = rw moved at h1 in
              let (q, more, last) = >>=-eq-ok (close_rounds service scope left d) _ h2 in
              chain c d r.0 (round_ind c d first)
                (subst (λ p. R d p.0) (ok-injective last) (close_rounds_ind left d q more))
        ]

  -- A step only adds.
  pub Step-Grows : (c : Closing) (r : RuleRecord) (d : Closing) → Step c r d → Grows c.state d.state
  Step-Grows c r d (skip _) = Grows-refl c.state
  Step-Grows c r d (set v _ _ unset) =
      let same = Grows-refl c.state in
      record {
        tables = same.tables;
        columns = same.columns;
        relationships = same.relationships;
        slots = Extends_insert r.effect.slot v c.state.slots unset;
        metrics = refl;
        entities = refl;
      }
  Step-Grows c r d (prefer _) = Grows-refl c.state
  Step-Grows c r d (semijoin _) = Grows-refl c.state
  Step-Grows c r d (mandate pred_tables needs _ _ _) = record {
    tables = Extends_union c.state.tables (needed_tables r pred_tables needs.1);
    columns = Extends_union c.state.columns (needed_columns r needs.2);
    relationships = Extends_union c.state.relationship_refs needs.0;
    slots = Extends_refl is_new_key c.state.slots;
    metrics = refl;
    entities = refl;
  }

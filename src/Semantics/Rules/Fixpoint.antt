-- ===== src/Semantics/Rules/Fixpoint.antt =====
-- The closure that is returned is a fixed point: every rule that it activates has been applied.
use text_to_sql_rag.Prelude.{
  ℕ, zero, suc, ◌+◌, ◌≤◌, ◌≡◌, refl, sym, ap, subst, ◌∙◌, true, List, [], ◌∷◌, arith, Text, text_lt,
  list_eq, nat_eq, contains, keys, values, contains-keys-insert, contains-map-sort_by, All-insert,
  Bool-cases, inl, inr, All, All-map, sort_by, map,
}
use text_to_sql_rag.Contracts.Errors.{ok, >>=-eq-ok, ok-injective}
use text_to_sql_rag.Contracts.Scope.{TrustedScope}
use text_to_sql_rag.Contracts.Plan.{Obligation}
use text_to_sql_rag.Contracts.Records.{RuleRecord}
use text_to_sql_rag.Catalog.Service.{CatalogService}
use text_to_sql_rag.Semantics.Rules.{
  ClosureInput, Closing, ClosureResult, rule_ref, apply_effect, apply_rules, candidates, round,
  unchanged, close_rounds, close, opening, max_closure_rounds, detect_conflicts, sorted_obligations,
  obligation_of, result_of,
}
use text_to_sql_rag.Semantics.Rules.Growth.{Grows, Grows-refl, Grows-trans, Grows-unchanged}
use text_to_sql_rag.Semantics.Rules.Steps.{
  Step, is_obligation, apply_effect-Step, apply_rules_ind, close_rounds_ind, Step-Grows,
}

-- The state that a result stands for.
abbrev pub state_of : ClosureInput → ClosureResult → ClosureInput
state_of seed r = record {
  tables = r.tables;
  columns = r.columns;
  metric_refs = seed.metric_refs;
  entities = seed.entities;
  relationship_refs = r.relationship_refs;
  slots = r.slots;
}

module _ (service : CatalogService) (scope : TrustedScope) where
  -- No step takes an obligation away.
  abbrev Keeps : Closing → Closing → Type 0
  Keeps c d =
      (ref : Text)
      → contains ref (keys c.obligations) ≡ true
      → contains ref (keys d.obligations) ≡ true

  Step-Keeps : (c : Closing) (r : RuleRecord) (d : Closing) → Step service scope c r d → Keeps c d
  Step-Keeps c r d (Step.skip _) ref h = h
  Step-Keeps c r d (Step.set _ _ _ _) ref h = h
  Step-Keeps c r d (Step.prefer _) ref h = h
  Step-Keeps c r d (Step.semijoin _) ref h = h
  Step-Keeps c r d (Step.mandate pred_tables needs _ _ _) ref h =
      ground (arith, contains-keys-insert ref (rule_ref r) (obligation_of r) c.obligations)

  -- A rule with an obligation has left it.
  abbrev Placed : Closing → RuleRecord → Type 0
  Placed d r = is_obligation r.effect.op ≡ true → contains (rule_ref r) (keys d.obligations) ≡ true

  Step-Placed : (c : Closing) (r : RuleRecord) (d : Closing) → Step service scope c r d → Placed d r
  Step-Placed c r d (Step.skip no_obligation) o = cc
  Step-Placed c r d (Step.set v e _ _) o = let o' = rw e at o in cc
  Step-Placed c r d (Step.prefer e) o = let o' = rw e at o in cc
  Step-Placed c r d (Step.semijoin e) o = let o' = rw e at o in cc
  Step-Placed c r d (Step.mandate pred_tables needs _ _ _) o =
      ground (arith, contains-keys-insert (rule_ref r) (rule_ref r) (obligation_of r) c.obligations)

  apply_rules-Placed :
      (c : Closing) (rules : List RuleRecord) (d : Closing)
      → apply_rules service scope c rules ≡ ok d
      → All (Placed d) rules
  unfolding apply_rules
  apply_rules-Placed c [] d h = tt
  apply_rules-Placed c (r ∷ rules) d h =
      let (b, first, rest) = >>=-eq-ok (apply_effect service scope r.effect.op c r) _ h in
      let kept =
        apply_rules_ind service scope Keeps (λ a ref k. k) (λ a1 a2 a3 k l ref m. l ref (k ref m))
          Step-Keeps b rules d rest in
      (
        (λ o.
            kept (rule_ref r)
              (Step-Placed c r b (apply_effect-Step service scope r.effect.op c r b refl first) o)),
        apply_rules-Placed b rules d rest,
      )

  -- The last round of a loop that ends changed nothing.
  close_rounds_last :
      (left : ℕ) (c : Closing) (r : Closing × ℕ)
      → close_rounds service scope left c ≡ ok r
      → (b : Closing) × (round service scope b ≡ ok r.0) × (unchanged b.state r.0.state ≡ true)
  unfolding close_rounds
  close_rounds_last zero c r h = cc
  close_rounds_last (suc left) c r h =
      let (d, first, h1) = >>=-eq-ok (round service scope c) _ h in
      elim (Bool-cases (unchanged c.state d.state)) [
        | inl same ↦
            let h2 = rw same at h1 in
            let e : (d, 1) ≡ r = ok-injective h2 in
            (c, first ∙ ap (λ q. ok q.0) e, subst (λ q. unchanged c.state q.0.state ≡ true) e same)
        | inr moved ↦
            let h2 = rw moved at h1 in
            let (q, more, last) = >>=-eq-ok (close_rounds service scope left d) _ h2 in
            let e : (q.0, 1 + q.1) ≡ r = ok-injective last in
            let (b, round_b, same) = close_rounds_last left d q more in
            (
              b,
              round_b ∙ ap (λ p. ok p.0) e,
              subst (λ p. unchanged b.state p.0.state ≡ true) e same,
            )
      ]

  -- The number of rounds is one to eight.
  close_rounds-le :
      (left : ℕ) (c : Closing) (r : Closing × ℕ)
      → close_rounds service scope left c ≡ ok r
      → (1 ≤ r.1) × (r.1 ≤ left)
  unfolding close_rounds
  close_rounds-le zero c r h = cc
  close_rounds-le (suc left) c r h =
      let (d, first, h1) = >>=-eq-ok (round service scope c) _ h in
      elim (Bool-cases (unchanged c.state d.state)) [
        | inl same ↦
            let h2 = rw same at h1 in
            let e : (d, 1) ≡ r = ok-injective h2 in
            subst (λ q. (1 ≤ q.1) × (q.1 ≤ suc left)) e (omega arith, omega arith)
        | inr moved ↦
            let h2 = rw moved at h1 in
            let (q, more, last) = >>=-eq-ok (close_rounds service scope left d) _ h2 in
            let e : (q.0, 1 + q.1) ≡ r = ok-injective last in
            let (low, high) = close_rounds-le left d q more in
            subst (λ p. (1 ≤ p.1) × (p.1 ≤ suc left)) e (omega arith, omega arith)
      ]

  -- The state of the closure, all of whose candidates have left their obligations.
  pub record IsClosed (seed : ClosureInput) (c : Closing) : Type 0 where
    pub grows : Grows seed c.state
    pub rules : List RuleRecord
    pub activated : candidates service scope c.state ≡ ok rules
    pub placed : All (Placed c) rules

  close_rounds-IsClosed :
      (left : ℕ) (seed : ClosureInput) (r : Closing × ℕ)
      → close_rounds service scope left (opening seed) ≡ ok r
      → IsClosed seed r.0
  unfolding round
  close_rounds-IsClosed left seed r h =
      let (b, last, same) = close_rounds_last left (opening seed) r h in
      let (rules, found, applied) = >>=-eq-ok (candidates service scope b.state) _ last in
      let grown =
        apply_rules_ind service scope (λ x y. Grows x.state y.state) (λ x. Grows-refl x.state)
          (λ x y z. Grows-trans x.state y.state z.state) (Step-Grows service scope) b rules r.0
          applied in
      record {
        grows =
            close_rounds_ind service scope (λ x y. Grows x.state y.state) (λ x. Grows-refl x.state)
              (λ x y z. Grows-trans x.state y.state z.state) (Step-Grows service scope) left
              (opening seed) r h;
        rules = rules;
        activated =
            subst (λ s. candidates service scope s ≡ ok rules)
              (Grows-unchanged b.state r.0.state grown same) found;
        placed = apply_rules-Placed b rules r.0 applied;
      }

  -- What a closure that is returned was made of.
  pub close_inv :
      (seed : ClosureInput) (r : ClosureResult)
      → close service scope seed ≡ ok r
      → (q : Closing × ℕ) × (close_rounds service scope max_closure_rounds (opening seed) ≡ ok q)
        × (result_of q.0 q.1 ≡ r)
  unfolding close
  close_inv seed r h =
      let (q, looped, h1) =
        >>=-eq-ok (close_rounds service scope max_closure_rounds (opening seed)) _ h in
      let (_, _, h2) = >>=-eq-ok (detect_conflicts (values q.0.applied)) _ h1 in
      (q, looped, ok-injective h2)

  abbrev Named : Closing → Type 0
  Named c = All (λ p. p.1.rule_ref ≡ p.0) c.obligations

  Step-Named :
      (c : Closing) (r : RuleRecord) (d : Closing) → Step service scope c r d → Named c → Named d
  Step-Named c r d (Step.skip _) h = h
  Step-Named c r d (Step.set _ _ _ _) h = h
  Step-Named c r d (Step.prefer _) h = h
  Step-Named c r d (Step.semijoin _) h = h
  Step-Named c r d (Step.mandate _ _ _ _ _) h =
      All-insert (λ p. p.1.rule_ref ≡ p.0) (rule_ref r) (obligation_of r) c.obligations refl h

  named_keys :
      (d : List (Text × Obligation))
      → All (λ p. p.1.rule_ref ≡ p.0) d
      → map (λ p. p.1.rule_ref) d ≡ keys d
  named_keys [] h = refl
  named_keys (p ∷ d) h = λ i. h.0 i ∷ named_keys d h.1 i

  map-values :
      (d : List (Text × Obligation)) → map (λ o. o.rule_ref) (values d) ≡ map (λ p. p.1.rule_ref) d
  map-values [] = refl
  map-values (p ∷ d) = ap (λ xs. p.1.rule_ref ∷ xs) (map-values d)

  contains-obligations :
      (ref : Text) (c : Closing)
      → Named c
      → contains ref (keys c.obligations) ≡ true
      → contains ref (map (λ o. o.rule_ref) (sorted_obligations c.obligations)) ≡ true
  contains-obligations ref c named h =
      ap (contains ref) (map-values (sort_by (λ a b. text_lt a.0 b.0) c.obligations))
      ∙ contains-map-sort_by (λ a b. text_lt a.0 b.0) (λ p. p.1.rule_ref) ref c.obligations
      ∙ ap (contains ref) (named_keys c.obligations named)
      ∙ h

  -- The rules that the result activates, each of which has left its obligation.
  pub record IsFixpoint (seed : ClosureInput) (r : ClosureResult) : Type 0 where
    pub grows : Grows seed (state_of seed r)
    pub rules : List RuleRecord
    pub activated : candidates service scope (state_of seed r) ≡ ok rules
    pub placed :
        All
          (λ x.
            is_obligation x.effect.op ≡ true
            → contains (rule_ref x) (map (λ o. o.rule_ref) r.obligations) ≡ true)
          rules
    pub bounded : (1 ≤ r.rounds) × (r.rounds ≤ max_closure_rounds)

  -- A closure that is returned took one to eight rounds, holds all that it was seeded with, and is a
  -- fixed point: every rule with an obligation that its own tables, columns, metrics, entities and slots
  -- activate is among its obligations.
  pub close-IsFixpoint :
      (seed : ClosureInput) (r : ClosureResult)
      → close service scope seed ≡ ok r
      → IsFixpoint seed r
  close-IsFixpoint seed r h =
      let (q, looped, e) = close_inv seed r h in
      let closed = close_rounds-IsClosed max_closure_rounds seed q looped in
      let named =
        close_rounds_ind service scope (λ c d. Named c → Named d) (λ c a. a)
          (λ a b c f g x. g (f x)) Step-Named max_closure_rounds (opening seed) q looped tt in
      let same : q.0.state ≡ state_of seed (result_of q.0 q.1) = λ i. record {
        tables = q.0.state.tables;
        columns = q.0.state.columns;
        metric_refs = (sym closed.grows.metrics) i;
        entities = (sym closed.grows.entities) i;
        relationship_refs = q.0.state.relationship_refs;
        slots = q.0.state.slots;
      } in
      subst (IsFixpoint seed) e (record {
        grows = subst (Grows seed) same closed.grows;
        rules = closed.rules;
        activated = subst (λ s. candidates service scope s ≡ ok closed.rules) same closed.activated;
        placed =
            All-map (Placed q.0) _ closed.rules
              (λ x p o. contains-obligations (rule_ref x) q.0 named (p o)) closed.placed;
        bounded = close_rounds-le max_closure_rounds (opening seed) q looped;
      })

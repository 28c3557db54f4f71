-- ===== src/Semantics/Rules/Slots.antt =====
-- The slots of the closure: a stated value is never overwritten, and the rules that set a slot agree.
use text_to_sql_rag.Prelude.{
  ℕ, ◌≡◌, refl, sym, ap, ◌∙◌, Bool, true, false, Option, some, List, [], ◌∷◌, arith, Text, ◌==◌,
  list_eq, nat_eq, option_eq, values, insert, lookup, lookup-insert, Bool-cases, inl, inr, All,
  All-map, select, if◌then◌else◌, map, Extends_insert, lookup-Extends, All-insert, subset, eq_of_==,
  ==_refl,
}
use text_to_sql_rag.Contracts.Errors.{ok}
use text_to_sql_rag.Contracts.Scope.{TrustedScope}
use text_to_sql_rag.Contracts.Records.{
  RuleRecord, set_slot, EffectOp, require_population_filter, require_tenant_scope,
  require_semijoin_or_allocation, prefer_relationship,
}
use text_to_sql_rag.Catalog.Service.{CatalogService}
use text_to_sql_rag.Semantics.Rules.{
  ClosureInput, Closing, rule_ref, close_rounds, opening, detect_conflicts, conflicts_among,
  disagree, differ, written, or_empty, writes_slot, close, ClosureResult,
}
use text_to_sql_rag.Semantics.Rules.Fixpoint.{close-IsFixpoint}
use mathlib.Core.Option.{some-injective}
use text_to_sql_rag.Semantics.Rules.Steps.{Step, is_obligation, sets_slot, close_rounds_ind}

-- The slot has the value that the rule writes.
abbrev pub Agrees : List (Option Text × Text) → RuleRecord → Type 0
Agrees slots r =
    sets_slot r.effect.op ≡ true
    → (v : Text) × (r.effect.slot_value ≡ some v) × (lookup r.effect.slot slots ≡ some v)

abbrev pub Applied : Closing → Type 0
Applied c = All (λ p. Agrees c.state.slots p.1) c.applied

obligation_sets_no_slot : (op : EffectOp) → is_obligation op ≡ true → sets_slot op ≡ false
obligation_sets_no_slot require_population_filter h = refl
obligation_sets_no_slot require_tenant_scope h = refl
obligation_sets_no_slot set_slot h = cc
obligation_sets_no_slot require_semijoin_or_allocation h = refl
obligation_sets_no_slot prefer_relationship h = refl

slot_test :
    (op : EffectOp) (b : Bool) → (elim op [ set_slot ↦ b | _ ↦ false ]) ≡ true → sets_slot op ≡ true
slot_test set_slot b h = refl
slot_test require_population_filter b h = cc
slot_test require_tenant_scope b h = cc
slot_test require_semijoin_or_allocation b h = cc
slot_test prefer_relationship b h = cc

writes_slot-sets : (r : RuleRecord) → writes_slot r ≡ true → sets_slot r.effect.op ≡ true
writes_slot-sets r h = slot_test r.effect.op _ h

module _ (service : CatalogService) (scope : TrustedScope) where
  with_applied-Applied :
      (c : Closing) (r : RuleRecord)
      → sets_slot r.effect.op ≡ false
      → Applied c
      → All (λ p. Agrees c.state.slots p.1) (insert (rule_ref r) r c.applied)
  with_applied-Applied c r no_slot h =
      All-insert (λ p. Agrees c.state.slots p.1) (rule_ref r) r c.applied (λ s. cc) h

  Step-Applied :
      (c : Closing) (r : RuleRecord) (d : Closing)
      → Step service scope c r d
      → Applied c
      → Applied d
  Step-Applied c r d (Step.skip _) h = h
  Step-Applied c r d (Step.set v is_set e unset) h =
      let slots : List (Option Text × Text) = insert r.effect.slot v c.state.slots in
      let grown = Extends_insert r.effect.slot v c.state.slots unset in
      let now : lookup r.effect.slot slots ≡ some v =
        lookup-insert r.effect.slot r.effect.slot v c.state.slots
        ∙ ap (λ b. if b then some v else lookup r.effect.slot c.state.slots)
            (==_refl r.effect.slot) in
      All-insert (λ p. Agrees slots p.1) (rule_ref r) r c.applied (λ s. (v, e, now))
        (All-map (λ p. Agrees c.state.slots p.1) (λ p. Agrees slots p.1) c.applied
          (λ p agrees s.
            let (w, written, had) = agrees s in
            (w, written, lookup-Extends p.1.effect.slot w c.state.slots slots grown had))
          h)
  Step-Applied c r d (Step.prefer e) h = with_applied-Applied c r (ap sets_slot e) h
  Step-Applied c r d (Step.semijoin e) h = with_applied-Applied c r (ap sets_slot e) h
  Step-Applied c r d (Step.mandate pred_tables needs o _ _) h =
      with_applied-Applied c r (obligation_sets_no_slot r.effect.op o) h

  close_rounds-Applied :
      (left : ℕ) (seed : ClosureInput) (q : Closing × ℕ)
      → close_rounds service scope left (opening seed) ≡ ok q
      → Applied q.0
  close_rounds-Applied left seed q h =
      close_rounds_ind service scope (λ c d. Applied c → Applied d) (λ c a. a)
        (λ a b c f g x. g (f x)) Step-Applied left (opening seed) q h tt

All-map-select :
    (t : RuleRecord → Bool) (f : RuleRecord → Text) (P : Text → Type 0) (rules : List RuleRecord)
    → All (λ r. t r ≡ true → P (f r)) rules
    → All P (map f (select t rules))
All-map-select t f P [] h = tt
All-map-select t f P (r ∷ rules) h = elim (Bool-cases (t r)) [
  | inl kept ↦ rw kept (h.0 kept, All-map-select t f P rules h.1)
  | inr dropped ↦ rw dropped (All-map-select t f P rules h.1)
]

-- Values that a lookup gives are all the same.
subset_one :
    (x : Option Text) (v : Text) (vs : List Text)
    → some v ≡ x
    → All (λ w. some w ≡ x) vs
    → subset vs (v ∷ []) ≡ true
subset_one x v [] e h = refl
subset_one x v (w ∷ vs) e h =
    let same : w ≡ v = some-injective w v (h.0 ∙ sym e) in
    let here = ==_refl v in ground (arith, subset_one x v vs e h.1, same, here)

differ-false : (x : Option Text) (vs : List Text) → All (λ w. some w ≡ x) vs → differ vs ≡ false
differ-false x [] h = refl
differ-false x (v ∷ vs) h = ground (arith, subset_one x v (v ∷ vs) h.0 h, ==_refl v)

module _ (slots : List (Option Text × Text)) where
  disagree-false :
      (slot : Option Text) (rules : List RuleRecord)
      → All (λ r. (sets_slot r.effect.op ≡ true) × Agrees slots r) rules
      → disagree slot rules ≡ false
  unfolding disagree
  disagree-false slot rules h = differ-false (lookup slot slots) (written slot rules) (
      All-map-select (λ r. r.effect.slot == slot) (λ r. or_empty r.effect.slot_value)
        (λ w. some w ≡ lookup slot slots) rules
        (All-map _ _ rules
          (λ r a same.
            let (v, value, had) = a.1 a.0 in
            ap (λ o. some (or_empty o)) value
            ∙ sym had
            ∙ ap (λ k. lookup k slots) (eq_of_== r.effect.slot slot same))
          h))

  conflicts_among_none :
      (names : List (Option Text)) (rules : List RuleRecord)
      → All (λ r. (sets_slot r.effect.op ≡ true) × Agrees slots r) rules
      → conflicts_among names rules ≡ ok tt
  unfolding conflicts_among
  conflicts_among_none [] rules h = refl
  conflicts_among_none (slot ∷ names) rules h =
      rw (disagree-false slot rules h) (conflicts_among_none names rules h)

  All-writers :
      (d : List (Text × RuleRecord))
      → All (λ p. Agrees slots p.1) d
      → All (λ r. (sets_slot r.effect.op ≡ true) × Agrees slots r) (select writes_slot (values d))
  All-writers [] h = tt
  All-writers (p ∷ d) h = elim (Bool-cases (writes_slot p.1)) [
    | inl kept ↦ rw kept ((writes_slot-sets p.1 kept, h.0), All-writers d h.1)
    | inr dropped ↦ rw dropped (All-writers d h.1)
  ]

module _ (service : CatalogService) (scope : TrustedScope) where
  -- The rules that a closure has applied never disagree on a slot, since only the first rule for a slot
  -- is applied: the test for a conflict never raises RULE_CONFLICT.
  pub close_rounds-detect_conflicts :
      (left : ℕ) (seed : ClosureInput) (q : Closing × ℕ)
      → close_rounds service scope left (opening seed) ≡ ok q
      → detect_conflicts (values q.0.applied) ≡ ok tt
  unfolding detect_conflicts
  close_rounds-detect_conflicts left seed q h =
      conflicts_among_none q.0.state.slots _ (select writes_slot (values q.0.applied))
        (All-writers q.0.state.slots q.0.applied (close_rounds-Applied service scope left seed q h))

  -- A slot that the request states keeps its value through the closure.
  pub close-keeps_slots :
      (seed : ClosureInput) (r : ClosureResult) (slot : Option Text) (v : Text)
      → close service scope seed ≡ ok r
      → lookup slot seed.slots ≡ some v
      → lookup slot r.slots ≡ some v
  close-keeps_slots seed r slot v h stated =
      lookup-Extends slot v seed.slots r.slots (close-IsFixpoint service scope seed r h).grows.slots
        stated

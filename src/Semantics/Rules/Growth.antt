-- ===== src/Semantics/Rules/Growth.antt =====
-- The state of the closure only grows, and a round that adds nothing leaves it as it is.
use text_to_sql_rag.Prelude.{
  ◌≡◌, refl, ◌∙◌, true, arith, list_eq, nat_eq, option_eq, Extends, Extends_refl, Extends_trans,
  is_new, is_new_less, Extends_subset, is_new_key, is_new_key_less, Extends_keys,
}
use text_to_sql_rag.Semantics.Rules.{ClosureInput, unchanged}

-- The second state is the first with more.
pub record Grows (a b : ClosureInput) : Type 0 where
  pub tables : Extends is_new a.tables b.tables
  pub columns : Extends is_new a.columns b.columns
  pub relationships : Extends is_new a.relationship_refs b.relationship_refs
  pub slots : Extends is_new_key a.slots b.slots
  pub metrics : a.metric_refs ≡ b.metric_refs
  pub entities : a.entities ≡ b.entities

pub Grows-refl : (a : ClosureInput) → Grows a a
Grows-refl a = record {
  tables = Extends_refl is_new a.tables;
  columns = Extends_refl is_new a.columns;
  relationships = Extends_refl is_new a.relationship_refs;
  slots = Extends_refl is_new_key a.slots;
  metrics = refl;
  entities = refl;
}

pub Grows-trans : (a b c : ClosureInput) → Grows a b → Grows b c → Grows a c
Grows-trans a b c g h = record {
  tables = Extends_trans is_new is_new_less a.tables b.tables c.tables g.tables h.tables;
  columns = Extends_trans is_new is_new_less a.columns b.columns c.columns g.columns h.columns;
  relationships =
      Extends_trans is_new is_new_less a.relationship_refs b.relationship_refs c.relationship_refs
        g.relationships h.relationships;
  slots = Extends_trans is_new_key is_new_key_less a.slots b.slots c.slots g.slots h.slots;
  metrics = g.metrics ∙ h.metrics;
  entities = g.entities ∙ h.entities;
}

-- What did not change as a set did not change.
pub Grows-unchanged : (a b : ClosureInput) → Grows a b → unchanged a b ≡ true → a ≡ b
Grows-unchanged a b g h =
    let t = Extends_subset a.tables b.tables g.tables (ground arith) in
    let c = Extends_subset a.columns b.columns g.columns (ground arith) in
    let r = Extends_subset a.relationship_refs b.relationship_refs g.relationships (ground arith) in
    let s = Extends_keys a.slots b.slots g.slots (ground arith) in
    let m = g.metrics in
    let e = g.entities in
    λ i. record {
      tables = t i;
      columns = c i;
      metric_refs = m i;
      entities = e i;
      relationship_refs = r i;
      slots = s i;
    }

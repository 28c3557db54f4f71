-- ===== src/Sql/Compiler/Joining.antt =====
-- app/sql/compiler.py: conditions that are joined from parts mean what the parts mean together.
use mathlib.Core.Option.{some-injective}
use text_to_sql_rag.Prelude.{ℕ, ◌≡◌, refl, ap, ◌∙◌, subst, some, List, [], ◌∷◌, Text}
use text_to_sql_rag.Contracts.Errors.{Result, ok, ok-injective}
use text_to_sql_rag.Contracts.Scope.{TrustedScope}
use text_to_sql_rag.Contracts.Expressions.{BoolOperator, and_, or_, not_}
use text_to_sql_rag.Catalog.Service.{CatalogService}
use text_to_sql_rag.Sql.Dialect.{Condition}
use text_to_sql_rag.Sql.Compiler.Emission.{BoundValue, join_from, combine}
use text_to_sql_rag.Sql.Compiler.Meaning.{
  R, bind_run, give, Database, is_aligned, are_aligned, operand_meaning, operands_meaning,
}
use text_to_sql_rag.Sql.Compiler.Runs.{bind_run-some, bind_run-inversion}
use text_to_sql_rag.Sql.Compiler.Meaning

module _ (db : Database) (service : CatalogService) (scope : TrustedScope)
    (fromisoformat : Text → Result ℕ) (alias_of : List (Text × Text))
    (supplied : List (Text × BoundValue)) where
  open db use {Cell, Truth}

  -- Parts that are joined from the left run one after the other.
  join_from-run :
      (joiner : Condition → Condition → Condition) (op : Truth → Truth → Truth)
      → ((c d : Condition) (vs : List BoundValue)
          → Meaning.run db (joiner c d) vs
            ≡ bind_run
                (Meaning.run db c)
                (λ t. bind_run (Meaning.run db d) (λ u. give (op t u)))
                vs)
      → (c : Condition) (cs : List Condition) (vs vs' rest : List BoundValue) (t : Truth)
        (ts : List Truth)
      → Meaning.run db c vs ≡ some (t, vs')
      → Meaning.run_all db cs vs' ≡ some (ts, rest)
      → Meaning.run db (join_from joiner c cs) vs ≡ some (Meaning.fold db op t ts, rest)
  unfolding join_from
  join_from-run joiner op law c [] vs vs' rest t ts here there =
      here ∙ ap (λ p. some (Meaning.fold db op t (p.0), p.1)) (some-injective _ _ there)
  join_from-run joiner op law c (d ∷ ds) vs vs' rest t ts here there =
      let (u, vs'', next, more) = bind_run-inversion (Meaning.run db d) _ vs' there in
      let (us, r, behind, done) = bind_run-inversion (Meaning.run_all db ds) _ vs'' more in
      let both_run =
        law c d vs
        ∙ bind_run-some (Meaning.run db c) _ vs here
        ∙ bind_run-some (Meaning.run db d) _ vs' next in
      join_from-run joiner op law (joiner c d) ds vs vs'' r (op t u) us both_run behind
      ∙ ap (λ p. some (Meaning.fold db op t (p.0), p.1)) (some-injective _ _ done)

  -- A list of parts runs from its first to its last.
  pub join-run :
      (joiner : Condition → Condition → Condition) (op : Truth → Truth → Truth)
      → ((c d : Condition) (vs : List BoundValue)
          → Meaning.run db (joiner c d) vs
            ≡ bind_run
                (Meaning.run db c)
                (λ t. bind_run (Meaning.run db d) (λ u. give (op t u)))
                vs)
      → (c : Condition) (cs : List Condition) (vs rest : List BoundValue) (t : Truth)
        (ts : List Truth)
      → Meaning.run_all db (c ∷ cs) vs ≡ some (t ∷ ts, rest)
      → Meaning.run db (join_from joiner c cs) vs ≡ some (Meaning.fold db op t ts, rest)
  join-run joiner op law c cs vs rest t ts r =
      let (t', vs', here, more) = bind_run-inversion (Meaning.run db c) _ vs r in
      let (ts', r', there, done) = bind_run-inversion (Meaning.run_all db cs) _ vs' more in
      let same_head : t' ≡ t = cc in
      let same_tail : ts' ≡ ts = cc in
      let same_rest : r' ≡ rest = cc in
      join_from-run joiner op law c cs vs vs' r' t' ts' here there ∙ cc

  pub run_all-nonempty :
      (c : Condition) (cs : List Condition) (vs rest : List BoundValue)
      → ¬ (Meaning.run_all db (c ∷ cs) vs ≡ some ([], rest))
  run_all-nonempty c cs vs rest r =
      let (t', vs', here, more) = bind_run-inversion (Meaning.run db c) _ vs r in
      let (ts', r', there, done) = bind_run-inversion (Meaning.run_all db cs) _ vs' more in cc

  run_single :
      (c : Condition) (vs rest : List BoundValue) (t : Truth) (ts : List Truth)
      → Meaning.run_all db (c ∷ []) vs ≡ some (t ∷ ts, rest)
      → (Meaning.run db c vs ≡ some (t, rest)) × (ts ≡ [])
  run_single c vs rest t ts r =
      let (t', vs', here, done) = bind_run-inversion (Meaning.run db c) _ vs r in
      let same_head : t' ≡ t = cc in let same_rest : vs' ≡ rest = cc in (here ∙ cc, cc)

  -- The node of the operator runs its parts, and combines what they give.
  pub combine-run :
      (op : BoolOperator) (cs : List Condition) (c : Condition) (ts : List Truth)
      → combine op cs ≡ ok c
      → (vs rest : List BoundValue) → Meaning.run_all db cs vs ≡ some (ts, rest)
      → (u : Truth) × (Meaning.combined db op ts ≡ ok u)
        × ((vs' rest' : List BoundValue)
            → Meaning.run_all db cs vs' ≡ some (ts, rest')
            → Meaning.run db c vs' ≡ some (u, rest'))
  unfolding combine
  combine-run and_ [] c ts h vs rest r = cc
  combine-run or_ [] c ts h vs rest r = cc
  combine-run not_ [] c ts h vs rest r = cc
  combine-run and_ (d ∷ ds) c [] h vs rest r = absurd (run_all-nonempty d ds vs rest r)
  combine-run and_ (d ∷ ds) c (t ∷ ts) h vs rest r = (
    Meaning.fold db db.both t ts,
    refl,
    λ vs' rest' k.
        subst (λ x. Meaning.run db x vs' ≡ some (Meaning.fold db db.both t ts, rest'))
          (ok-injective h) (join-run Condition.and_ db.both (λ a b w. refl) d ds vs' rest' t ts k),
  )
  combine-run or_ (d ∷ ds) c [] h vs rest r = absurd (run_all-nonempty d ds vs rest r)
  combine-run or_ (d ∷ ds) c (t ∷ ts) h vs rest r = (
    Meaning.fold db db.either t ts,
    refl,
    λ vs' rest' k.
        subst (λ x. Meaning.run db x vs' ≡ some (Meaning.fold db db.either t ts, rest'))
          (ok-injective h) (join-run Condition.or_ db.either (λ a b w. refl) d ds vs' rest' t ts k),
  )
  combine-run not_ (d ∷ []) c [] h vs rest r = absurd (run_all-nonempty d [] vs rest r)
  combine-run not_ (d ∷ []) c (t ∷ []) h vs rest r = (
    db.negation t,
    refl,
    λ vs' rest' k.
        subst (λ x. Meaning.run db x vs' ≡ some (db.negation t, rest')) (ok-injective h)
          (bind_run-some (Meaning.run db d) _ vs' (run_single d vs' rest' t [] k).0),
  )
  combine-run not_ (d ∷ []) c (t ∷ t' ∷ ts) h vs rest r =
      let shape = (run_single d vs rest t (t' ∷ ts) r).1 in cc
  combine-run not_ (d ∷ e ∷ ds) c ts h vs rest r = cc

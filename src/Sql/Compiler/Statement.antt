-- ===== src/Sql/Compiler/Statement.antt =====
-- The whole statement: its conditions, run on the bound values in the order of the text, mean the plan's clauses.
use mathlib.Core.Option.{some-injective}
use text_to_sql_rag.Prelude.{
  ℕ, ◌≡◌, sym, ap, ◌∙◌, subst, true, some, List, [], ◌∷◌, ◌++◌, append-nil, arith, Text, map,
}
use text_to_sql_rag.Contracts.Errors.{Result, ok, err, ok-injective, index_error}
use text_to_sql_rag.Contracts.Errors
use text_to_sql_rag.Contracts.Scope.{TrustedScope}
use text_to_sql_rag.Contracts.Plan.{LogicalPlan}
use text_to_sql_rag.Catalog.Service.{CatalogService}
use text_to_sql_rag.Sql.Dialect.{Condition, Select}
use text_to_sql_rag.Sql.Compiler.{clause, joined_all, projections, grouping, build}
use text_to_sql_rag.Sql.Compiler.Placeholders.{optional_list, conditions}
use text_to_sql_rag.Sql.Compiler.Emission.{BoundValue, Emitted, lift, nothing_emitted}
use text_to_sql_rag.Sql.Compiler.Meaning
use text_to_sql_rag.Sql.Compiler.Meaning.{
  R, bind_run, give, Database, is_aligned, list_meaning, clause_meaning, joins_meaning,
  plan_meaning, conjunction,
}
use text_to_sql_rag.Sql.Compiler.Runs.{
  Runs, Runs-bind, Runs-map, Runs-start, Runs-as, M-inversion, bind_run-some, bind_run-inversion,
}
use text_to_sql_rag.Sql.Compiler.Correct.{lift-eq-ok}
use text_to_sql_rag.Sql.Compiler.Clauses.{
  bucket-Keeps, groups-Keeps, measures-Keeps, clause-Runs, joined_all-Runs,
}
use text_to_sql_rag.Sql.Compiler.Clauses.{Keeps, Keeps-return, Keeps-bind, plan_aligned}

module _ (db : Database) (service : CatalogService) (scope : TrustedScope)
    (fromisoformat : Text → Result ℕ) (alias_of : List (Text × Text))
    (supplied : List (Text × BoundValue)) where
  open db use {Truth}

  run_all-append :
      (cs ds : List Condition) (vs vs' rest : List BoundValue) (ts us : List Truth)
      → Meaning.run_all db cs vs ≡ some (ts, vs')
      → Meaning.run_all db ds vs' ≡ some (us, rest)
      → Meaning.run_all db (cs ++ ds) vs ≡ some (ts ++ us, rest)
  run_all-append [] ds vs vs' rest ts us h k =
      ap (Meaning.run_all db ds) (ap (λ p. p.1) (some-injective _ _ h))
      ∙ k
      ∙ ap (λ p. some (p.0 ++ us, rest)) (some-injective _ _ h)
  run_all-append (c ∷ cs) ds vs vs' rest ts us h k =
      let (t, w, here, more) = bind_run-inversion (Meaning.run db c) _ vs h in
      let (ts', w', there, done) = bind_run-inversion (Meaning.run_all db cs) _ w more in
      let last =
        run_all-append cs ds w w' rest ts' us there
          (ap (Meaning.run_all db ds) (ap (λ p. p.1) (some-injective _ _ done)) ∙ k) in
      bind_run-some (Meaning.run db c) _ vs here
      ∙ bind_run-some (Meaning.run_all db (cs ++ ds)) _ w last
      ∙ ap (λ p. some (p.0 ++ us, rest)) (some-injective _ _ done)

  append_runs :
      (on w h : List Condition) (vs rest : List BoundValue) (ts : List Truth)
      → bind_run
          (Meaning.run_all db on)
          (λ a.
            bind_run
              (Meaning.run_all db w)
              (λ b. bind_run (Meaning.run_all db h) (λ c. give (a ++ (b ++ c)))))
          vs
        ≡ some (ts, rest)
      → Meaning.run_all db (on ++ (w ++ h)) vs ≡ some (ts, rest)
  append_runs on w h vs rest ts e =
      let (a, vs1, first, more) = bind_run-inversion (Meaning.run_all db on) _ vs e in
      let (b, vs2, second, more') = bind_run-inversion (Meaning.run_all db w) _ vs1 more in
      let (c, vs3, third, done) = bind_run-inversion (Meaning.run_all db h) _ vs2 more' in
      run_all-append on (w ++ h) vs vs1 vs3 a (b ++ c) first
        (run_all-append w h vs1 vs2 vs3 b c second third)
      ∙ done

  lift-Keeps : {A : Type 0} (r : Result A) → Keeps (lift r)
  lift-Keeps r s t a h = ap (λ z. z.values) (sym (lift-eq-ok r s t a h).1)

  pub projections-Keeps :
      (p : LogicalPlan) → Keeps (projections service scope fromisoformat alias_of supplied p)
  unfolding projections
  projections-Keeps p =
      Keeps-bind _ _ (bucket-Keeps db service scope fromisoformat alias_of supplied p.time_bucket)
        (λ bucket.
          Keeps-bind _ _ (groups-Keeps db service scope fromisoformat alias_of supplied p.group_by)
            (λ grouped.
              Keeps-bind _ _
                (measures-Keeps db service scope fromisoformat alias_of supplied p.measures)
                (λ measured. Keeps-bind _ _ (lift-Keeps _) (λ present. Keeps-return _))))

  pub grouping-Keeps :
      (p : LogicalPlan) → Keeps (grouping service scope fromisoformat alias_of supplied p)
  unfolding grouping
  grouping-Keeps p =
      Keeps-bind _ _ (bucket-Keeps db service scope fromisoformat alias_of supplied p.time_bucket)
        (λ bucket.
          Keeps-bind _ _ (groups-Keeps db service scope fromisoformat alias_of supplied p.group_by)
            (λ grouped. Keeps-return _))

  -- The three groups of conditions one after the other, and the steps between them that bind nothing.
  conditions-Runs :
      (on w hav : List Condition) (s1 s2 s3 s4 : Emitted) (m n k : Result (List Truth))
      → Runs nothing_emitted s1 (Meaning.run_all db on) m
      → Runs s1 s2 (Meaning.run_all db w) n
      → Runs s3 s4 (Meaning.run_all db hav) k
      → s3.values ≡ s2.values
      → Runs nothing_emitted s4
          (Meaning.run_all db (on ++ (w ++ hav)))
          (Errors.◌>>=◌ m (λ a. Errors.◌>>=◌ n (λ b. Errors.◌>>=◌ k (λ c. ok (a ++ (b ++ c))))))
  conditions-Runs on w hav s1 s2 s3 s4 m n k first second third between =
      Runs-as (Meaning.run_all db (on ++ (w ++ hav)))
        (Runs-bind _ _ first (
          Runs-bind _ _ second (
            Runs-map (λ c. first.result ++ (second.result ++ c))
              (Runs-start {s' = s2} third between))))
        (λ vs rest ts e. append_runs on w hav vs rest ts e)

  build-Runs :
      (p : LogicalPlan) (select : Select) (emitted : Emitted)
      → plan_aligned p ≡ true
      → build service scope fromisoformat alias_of supplied p nothing_emitted ≡ ok (select, emitted)
      → Runs nothing_emitted emitted
          (Meaning.run_all db (conditions select))
          (plan_meaning db service scope fromisoformat alias_of supplied p)
  unfolding build plan_meaning
  build-Runs p select emitted a h =
      let (ps, s1, h1, m1) =
        M-inversion (projections service scope fromisoformat alias_of supplied p) _ nothing_emitted
          emitted select h in
      let (joins, s2, h2, m2) =
        M-inversion (joined_all service scope fromisoformat alias_of supplied p.joins) _ s1 emitted
          select m1 in
      let (w, s3, h3, m3) =
        M-inversion (clause service scope fromisoformat alias_of supplied p.where_) _ s2 emitted
          select m2 in
      let (group, s4, h4, m4) =
        M-inversion (grouping service scope fromisoformat alias_of supplied p) _ s3 emitted select
          m3 in
      let (hav, s5, h5, done) =
        M-inversion (clause service scope fromisoformat alias_of supplied p.having) _ s4 emitted
          select m4 in
      subst
        (λ q.
          Runs nothing_emitted q.1 (Meaning.run_all db (conditions q.0))
            (plan_meaning db service scope fromisoformat alias_of supplied p))
        (ok-injective done)
        (conditions-Runs (map (λ k. k.on) joins) (optional_list w) (optional_list hav) s2 s3 s4 s5
          (joins_meaning db service scope fromisoformat alias_of supplied p.joins)
          (clause_meaning db service scope fromisoformat alias_of supplied p.where_)
          (clause_meaning db service scope fromisoformat alias_of supplied p.having)
          (Runs-start {s' = nothing_emitted}
            (joined_all-Runs db service scope fromisoformat alias_of supplied p.joins s1 s2 joins
              (ground arith) h2)
            (projections-Keeps p nothing_emitted s1 ps h1))
          (clause-Runs db service scope fromisoformat alias_of supplied p.where_ s2 s3 w
            (ground arith) h3)
          (clause-Runs db service scope fromisoformat alias_of supplied p.having s4 s5 hav
            (ground arith) h5)
          (grouping-Keeps p s3 s4 group h4))

  -- If the left side of every membership is a column, the conditions of a statement that is built, run in the order
  -- of its text on the values that are bound, take each value for the operand that it was bound for: they mean what
  -- the joins and the clauses of the plan mean, and no value is left over.
  pub build-plan_meaning :
      (p : LogicalPlan) (select : Select) (emitted : Emitted)
      → plan_aligned p ≡ true
      → build service scope fromisoformat alias_of supplied p nothing_emitted ≡ ok (select, emitted)
      → (ts : List Truth) × (plan_meaning db service scope fromisoformat alias_of supplied p
          ≡ ok ts)
        × (Meaning.run_all db (conditions select) emitted.values ≡ some (ts, []))
  build-plan_meaning p select emitted a h =
      let r = build-Runs p select emitted a h in
      (
        r.result,
        r.means,
        ap (Meaning.run_all db (conditions select)) (r.values ∙ sym (append-nil r.emitted))
            ∙ r.runs [],
      )

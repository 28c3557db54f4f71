-- ===== src/Sql/Compiler/Clauses.antt =====
-- app/sql/compiler.py: the clauses of a statement mean what those of the plan mean.
use text_to_sql_rag.Prelude.{
  ℕ, ◌≡◌, refl, sym, ap, ◌∙◌, subst, Bool, true, ◌&&◌, Option, none, some, List, [], ◌∷◌, ◌++◌,
  arith, Text, map, all_of,
}
use text_to_sql_rag.Contracts.Errors.{Result, ok, err, ok-injective, index_error}
use text_to_sql_rag.Contracts.Scope.{TrustedScope}
use text_to_sql_rag.Contracts.Expressions.{
  Predicate, MeasureExpr, aggregate, ratio, ZeroDenominator,
}
use text_to_sql_rag.Contracts.Records.{TimeGrain}
use text_to_sql_rag.Contracts.Plan.{LogicalPlan, JoinOp}
use text_to_sql_rag.Catalog.Service.{CatalogService}
use text_to_sql_rag.Sql.Dialect.{Condition, JoinSql}
use text_to_sql_rag.Sql.Compiler.{
  column, predicate, predicate_list, clause, joined, joined_all, measure, bucket_projection,
  group_projections, measure_projections,
}
use text_to_sql_rag.Sql.Compiler.Placeholders.{optional_list}
use text_to_sql_rag.Sql.Compiler.Emission.{BoundValue, Emitted, M, ◌>>=◌, return, lift, and_all}
use text_to_sql_rag.Sql.Compiler.Meaning.{
  R, bind_run, give, Database, is_aligned, list_meaning, clause_meaning, joins_meaning,
  plan_meaning, conjunction,
}
use text_to_sql_rag.Sql.Compiler.Runs.{
  Runs, Runs-give, Runs-bind, Runs-map, Runs-after, Runs-end, Runs-means, Result_assoc, M-inversion,
}
use text_to_sql_rag.Sql.Compiler.Correct.{lift-eq-ok, predicate-Runs, column-eq-ok}
use text_to_sql_rag.Sql.Compiler.Joining.{join-run, run_all-nonempty}
use text_to_sql_rag.Contracts.Errors
use text_to_sql_rag.Sql.Compiler.Meaning

-- A step that binds no value.
abbrev pub Keeps : {A : Type 0} → M A → Type 0
Keeps {A} m = (s t : Emitted) (a : A) → m s ≡ ok (a, t) → t.values ≡ s.values

pub Keeps-return : {A : Type 0} (a : A) → Keeps (return a)
Keeps-return a s t b h = ap (λ p. p.1.values) (sym (ok-injective h))

pub Keeps-bind :
    {A B : Type 0} (m : M A) (f : A → M B) → Keeps m → ((a : A) → Keeps (f a)) → Keeps (m >>= f)
Keeps-bind m f first then_ s t b h =
    let (a, u, here, there) = M-inversion m f s t b h in then_ a u t b there ∙ first s u a here

-- Every predicate of a list has a column on the left of its memberships.
abbrev pub all_aligned : List Predicate → Bool
all_aligned = all_of is_aligned

abbrev pub plan_aligned : LogicalPlan → Bool
plan_aligned p =
    all_of (λ j. all_aligned j.predicates) p.joins && all_aligned p.where_ && all_aligned p.having

module _ (db : Database) (service : CatalogService) (scope : TrustedScope)
    (fromisoformat : Text → Result ℕ) (alias_of : List (Text × Text))
    (supplied : List (Text × BoundValue)) where
  open db use {Truth}

  pub column-Keeps : (c : Text) → Keeps (column service scope fromisoformat alias_of supplied c)
  column-Keeps c s t x h =
      (column-eq-ok db service scope fromisoformat alias_of supplied c s t x h).3

  measure-Keeps :
      (m : MeasureExpr) → Keeps (measure service scope fromisoformat alias_of supplied m)
  unfolding measure
  measure-Keeps (aggregate op none) = Keeps-return _
  measure-Keeps (aggregate op (some c)) = Keeps-bind _ _ (column-Keeps c) (λ x. Keeps-return _)
  measure-Keeps (ratio n d ZeroDenominator.null) =
      Keeps-bind _ _ (measure-Keeps n) (λ x. Keeps-bind _ _ (measure-Keeps d) (λ y. Keeps-return _))
  measure-Keeps (ratio n d ZeroDenominator.zero) =
      Keeps-bind _ _ (measure-Keeps n) (λ x. Keeps-bind _ _ (measure-Keeps d) (λ y. Keeps-return _))
  measure-Keeps (ratio n d ZeroDenominator.error) =
      Keeps-bind _ _ (measure-Keeps n) (λ x. Keeps-bind _ _ (measure-Keeps d) (λ y. Keeps-return _))

  pub bucket-Keeps :
      (b : Option (record { alias : Text; column : Text; grain : TimeGrain; timezone : Text }))
      → Keeps (bucket_projection service scope fromisoformat alias_of supplied b)
  unfolding bucket_projection
  bucket-Keeps none = Keeps-return _
  bucket-Keeps (some b) =
      Keeps-bind _ _ (Keeps-bind _ _ (column-Keeps b.column) (λ x. Keeps-return _))
        (λ n. Keeps-return _)

  pub groups-Keeps :
      (gs : List (Text × Option Text))
      → Keeps (group_projections service scope fromisoformat alias_of supplied gs)
  unfolding group_projections
  groups-Keeps [] = Keeps-return _
  groups-Keeps ((a, none) ∷ gs) = groups-Keeps gs
  groups-Keeps ((a, some c) ∷ gs) =
      Keeps-bind _ _ (column-Keeps c)
        (λ x. Keeps-bind _ _ (groups-Keeps gs) (λ rest. Keeps-return _))

  pub measures-Keeps :
      (ms : List (Text × MeasureExpr))
      → Keeps (measure_projections service scope fromisoformat alias_of supplied ms)
  unfolding measure_projections
  measures-Keeps [] = Keeps-return _
  measures-Keeps ((a, m) ∷ ms) =
      Keeps-bind _ _ (measure-Keeps m)
        (λ x. Keeps-bind _ _ (measures-Keeps ms) (λ rest. Keeps-return _))

  list-Runs :
      (ps : List Predicate) (s t : Emitted) (cs : List Condition)
      → all_aligned ps ≡ true
      → predicate_list service scope fromisoformat alias_of supplied ps s ≡ ok (cs, t)
      → Runs s t
          (Meaning.run_all db cs)
          (list_meaning db service scope fromisoformat alias_of supplied ps)
  unfolding predicate_list list_meaning
  list-Runs [] s t cs a h =
      subst (λ q. Runs s q.1 (Meaning.run_all db q.0) (ok [])) (ok-injective h) (Runs-give s [])
  list-Runs (p ∷ ps) s t cs a h =
      let (x, s', first, more) =
        M-inversion (predicate service scope fromisoformat alias_of supplied p) _ s t cs h in
      let (ys, s'', rest, done) =
        M-inversion (predicate_list service scope fromisoformat alias_of supplied ps) _ s' t cs
          more in
      let head =
        predicate-Runs db service scope fromisoformat alias_of supplied p s s' x (ground arith)
          first in
      subst
        (λ q.
          Runs s q.1 (Meaning.run_all db q.0)
            (list_meaning db service scope fromisoformat alias_of supplied (p ∷ ps)))
        (ok-injective done)
        (Runs-bind _ _ head
          (Runs-map (λ ts. head.result ∷ ts) (list-Runs ps s' s'' ys (ground arith) rest)))

  -- The conjunction of parts that run.
  conjunction-Runs :
      (cs : List Condition) (c : Condition) (s t : Emitted) (m : Result (List Truth))
      → and_all cs ≡ ok c
      → Runs s t (Meaning.run_all db cs) m
      → Runs s t (Meaning.run db c) (Errors.◌>>=◌ m (conjunction db))
  unfolding and_all
  conjunction-Runs [] c s t m h r = cc
  conjunction-Runs (d ∷ ds) c s t m h r = go r.result (r.runs []) refl
    where
      go :
          (ts : List Truth)
          → Meaning.run_all db (d ∷ ds) (r.emitted ++ []) ≡ some (ts, [])
          → r.result ≡ ts
          → Runs s t (Meaning.run db c) (Errors.◌>>=◌ m (conjunction db))
      go [] k e =
          absurd (run_all-nonempty db service scope fromisoformat alias_of supplied d ds _ [] k)
      go (u ∷ us) k e =
          Runs-after (Meaning.run db c) (conjunction db) r (Meaning.fold db db.both u us)
            (ap (conjunction db) e)
            (λ vs rest q.
              subst (λ x. Meaning.run db x vs ≡ some (Meaning.fold db db.both u us, rest))
                (ok-injective h)
                (join-run db service scope fromisoformat alias_of supplied Condition.and_ db.both
                  (λ a b w. refl) d ds vs rest u us (q ∙ ap (λ z. some (z, rest)) e)))

  pub clause-Runs :
      (ps : List Predicate) (s t : Emitted) (c : Option Condition)
      → all_aligned ps ≡ true
      → clause service scope fromisoformat alias_of supplied ps s ≡ ok (c, t)
      → Runs s t
          (Meaning.run_all db (optional_list c))
          (clause_meaning db service scope fromisoformat alias_of supplied ps)
  unfolding clause clause_meaning
  clause-Runs [] s t c a h =
      subst (λ q. Runs s q.1 (Meaning.run_all db (optional_list q.0)) (ok [])) (ok-injective h)
        (Runs-give s [])
  clause-Runs (p ∷ ps) s t c a h =
      let (cs, s', first, more) =
        M-inversion (predicate_list service scope fromisoformat alias_of supplied (p ∷ ps)) _ s t c
          h in
      let (d, s'', second, done) = M-inversion (lift (and_all cs)) _ s' t c more in
      let (together, same) = lift-eq-ok (and_all cs) s' s'' d second in
      let parts = list-Runs (p ∷ ps) s s' cs a first in
      let whole = Runs-map (λ u. u ∷ []) (conjunction-Runs cs d s s' _ together parts) in
      subst
        (λ q.
          Runs s q.1 (Meaning.run_all db (optional_list q.0))
            (clause_meaning db service scope fromisoformat alias_of supplied (p ∷ ps)))
        (ok-injective done)
        (Runs-means (Runs-end whole (ap (λ z. z.values) (sym same))) (
          Result_assoc (list_meaning db service scope fromisoformat alias_of supplied (p ∷ ps))
            (conjunction db) (λ u. ok (u ∷ []))))

  joined-Runs :
      (j : JoinOp) (s t : Emitted) (k : JoinSql)
      → all_aligned j.predicates ≡ true
      → joined service scope fromisoformat alias_of supplied j s ≡ ok (k, t)
      → Runs s t (Meaning.run db k.on) (
          Errors.◌>>=◌
            (list_meaning db service scope fromisoformat alias_of supplied j.predicates)
            (conjunction db))
  unfolding joined
  joined-Runs j s t k a h =
      let (cs, s', first, more) =
        M-inversion (predicate_list service scope fromisoformat alias_of supplied j.predicates) _ s
          t k h in
      let (d, s'', second, done) = M-inversion (lift (and_all cs)) _ s' t k more in
      let (together, same) = lift-eq-ok (and_all cs) s' s'' d second in
      let whole = conjunction-Runs cs d s s' _ together (list-Runs j.predicates s s' cs a first) in
      subst
        (λ q. Runs s q.1 (Meaning.run db q.0.on) (
          Errors.◌>>=◌ (list_meaning db service scope fromisoformat alias_of supplied j.predicates)
            (conjunction db)))
        (ok-injective done) (Runs-end whole (ap (λ z. z.values) (sym same)))

  pub joined_all-Runs :
      (js : List JoinOp) (s t : Emitted) (ks : List JoinSql)
      → all_of (λ j. all_aligned j.predicates) js ≡ true
      → joined_all service scope fromisoformat alias_of supplied js s ≡ ok (ks, t)
      → Runs s t
          (Meaning.run_all db (map (λ k. k.on) ks))
          (joins_meaning db service scope fromisoformat alias_of supplied js)
  unfolding joined_all joins_meaning
  joined_all-Runs [] s t ks a h =
      subst (λ q. Runs s q.1 (Meaning.run_all db (map (λ k. k.on) q.0)) (ok [])) (ok-injective h)
        (Runs-give s [])
  joined_all-Runs (j ∷ js) s t ks a h =
      let (k, s', first, more) =
        M-inversion (joined service scope fromisoformat alias_of supplied j) _ s t ks h in
      let (rest, s'', second, done) =
        M-inversion (joined_all service scope fromisoformat alias_of supplied js) _ s' t ks more in
      let head = joined-Runs j s s' k (ground arith) first in
      let tail = joined_all-Runs js s' s'' rest (ground arith) second in
      subst
        (λ q.
          Runs s q.1 (Meaning.run_all db (map (λ k. k.on) q.0))
            (joins_meaning db service scope fromisoformat alias_of supplied (j ∷ js)))
        (ok-injective done)
        (Runs-means (Runs-bind _ _ head (Runs-map (λ us. head.result ∷ us) tail)) (
          Result_assoc (list_meaning db service scope fromisoformat alias_of supplied j.predicates)
            (conjunction db) _))

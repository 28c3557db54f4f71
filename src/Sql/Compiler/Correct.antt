-- ===== src/Sql/Compiler/Correct.antt =====
-- The compiled conditions, run on the bound values in the order of the text, mean what the plan's predicates mean.
use text_to_sql_rag.Prelude.{
  ℕ, ◌≡◌, refl, sym, ap, subst, Bool, true, false, List, [], ◌∷◌, arith, Text,
}
use text_to_sql_rag.Contracts.Errors.{Result, ok, err, ok-injective, index_error}
use text_to_sql_rag.Contracts.Errors
use text_to_sql_rag.Contracts.Scope.{TrustedScope}
use text_to_sql_rag.Contracts.Expressions.{
  Operand, literal, enum, parameter, Predicate, Predicates, nil, cons, comparison, is_null,
  membership, bool_op,
}
use text_to_sql_rag.Catalog.Service.{CatalogService}
use text_to_sql_rag.Sql.Dialect.{Scalar, Condition}
use text_to_sql_rag.Sql.Compiler.{resolve_column, column, operand, operands, predicate, predicates}
use text_to_sql_rag.Sql.Compiler.Emission.{
  BoundValue, Emitted, ◌>>=◌, lift, bind_value, refer, combine, negated,
}
use text_to_sql_rag.Sql.Compiler.Meaning
use text_to_sql_rag.Sql.Compiler.Meaning.{
  R, bind_run, give, Database, is_aligned, are_aligned, operand_meaning, operands_meaning,
}
use text_to_sql_rag.Sql.Compiler.Runs.{
  Runs, Runs-give, Runs-pure, Runs-bind, Runs-map, Runs-after, Runs-end, Runs-means, M-inversion,
}
use text_to_sql_rag.Sql.Compiler.Joining.{combine-run}

pub lift-eq-ok :
    {A : Type 0} (r : Result A) (s t : Emitted) (a : A)
    → lift r s ≡ ok (a, t)
    → (r ≡ ok a) × (s ≡ t)
lift-eq-ok (ok b) s t a h = (ap (λ p. ok (p.0)) (ok-injective h), ap (λ p. p.1) (ok-injective h))
lift-eq-ok (err e) s t a h = cc

module _ (db : Database) (service : CatalogService) (scope : TrustedScope)
    (fromisoformat : Text → Result ℕ) (alias_of : List (Text × Text))
    (supplied : List (Text × BoundValue)) where
  open db use {Cell, Truth}

  -- A column is a node of its alias and its name, and binds no value.
  pub column-eq-ok :
      (c : Text) (s t : Emitted) (x : Scalar)
      → column service scope fromisoformat alias_of supplied c s ≡ ok (x, t)
      → (p : Text × Text) × (resolve_column service scope fromisoformat alias_of supplied c ≡ ok p)
        × (Scalar.column p.0 p.1 ≡ x)
        × (t.values ≡ s.values)
  unfolding column
  column-eq-ok c s t x h = go (resolve_column service scope fromisoformat alias_of supplied c) h
    where
      go :
          (r : Result (Text × Text))
          → refer c s r ≡ ok (x, t)
          → (p : Text × Text) × (r ≡ ok p) × (Scalar.column p.0 p.1 ≡ x) × (t.values ≡ s.values)
      go (ok (a, n)) h = (
        (a, n),
        refl,
        ap (λ q. q.0) (ok-injective h),
        ap (λ q. q.1.values) (sym (ok-injective h)),
      )
      go (err e) h = cc

  -- The evaluation of a column takes no value, wherever it stands.
  column-Runs_at :
      (c : Text) (s t u : Emitted) (x : Scalar)
      → column service scope fromisoformat alias_of supplied c s ≡ ok (x, t)
      → Runs u u
          (Meaning.run_scalar db x)
          (operand_meaning db service scope fromisoformat alias_of supplied (Operand.column c))
  unfolding operand_meaning
  column-Runs_at c s t u x h =
      let (p, found, node, same) = column-eq-ok c s t x h in
      subst
        (λ y.
          Runs u u (Meaning.run_scalar db y)
            (operand_meaning db service scope fromisoformat alias_of supplied (Operand.column c)))
        node
        (Runs-pure u u (Meaning.run_scalar db (Scalar.column p.0 p.1)) _ (db.cell p.0 p.1) refl
          (λ rest. refl) (rw found refl))

  column-Runs :
      (c : Text) (s t : Emitted) (x : Scalar)
      → column service scope fromisoformat alias_of supplied c s ≡ ok (x, t)
      → Runs s t
          (Meaning.run_scalar db x)
          (operand_meaning db service scope fromisoformat alias_of supplied (Operand.column c))
  column-Runs c s t x h = Runs-end (column-Runs_at c s t s x h) (column-eq-ok c s t x h).3

  -- A node that may be negated.
  negated-Runs :
      {A : Type 0} (negate : Bool) (c : Condition) (s t : Emitted) (m : Result A) (f : A → Truth)
      → Runs s t (Meaning.run db c) (Errors.◌>>=◌ m (λ a. ok (f a)))
      → Runs s t
          (Meaning.run db (negated negate c))
          (Errors.◌>>=◌ m (λ a. ok (Meaning.negate_if db negate (f a))))
  negated-Runs false c s t m f r = r
  negated-Runs true c s t (ok a) f r = Runs-map db.negation r
  negated-Runs true c s t (err e) f r = cc (r.means)

  bound-Runs :
      (r : Result (Text × BoundValue)) (s t : Emitted) (x : Scalar)
      → (lift r >>= λ p. bind_value p.0 p.1) s ≡ ok (x, t)
      → Runs s t (Meaning.run_scalar db x) (Errors.◌>>=◌ r (λ p. ok (db.given p.1)))
  bound-Runs (ok (n, v)) s t x h =
      subst (λ p. Runs s p.1 (Meaning.run_scalar db p.0) (ok (db.given v))) (ok-injective h)
        (record {
          emitted = v ∷ [];
          result = db.given v;
          values = refl;
          runs = λ rest. refl;
          means = refl;
        })
  bound-Runs (err e) s t x h = cc

  operand-Runs :
      (o : Operand) (s t : Emitted) (x : Scalar)
      → operand service scope fromisoformat alias_of supplied o s ≡ ok (x, t)
      → Runs s t
          (Meaning.run_scalar db x)
          (operand_meaning db service scope fromisoformat alias_of supplied o)
  unfolding operand operand_meaning
  operand-Runs (Operand.column c) s t x h = column-Runs c s t x h
  operand-Runs (literal type v) s t x h = bound-Runs _ s t x h
  operand-Runs (enum set member) s t x h = bound-Runs _ s t x h
  operand-Runs (parameter name) s t x h = bound-Runs _ s t x h

  operands-Runs :
      (os : List Operand) (s t : Emitted) (xs : List Scalar)
      → operands service scope fromisoformat alias_of supplied os s ≡ ok (xs, t)
      → Runs s t
          (Meaning.run_scalars db xs)
          (operands_meaning db service scope fromisoformat alias_of supplied os)
  unfolding operands operands_meaning
  operands-Runs [] s t xs h =
      subst (λ p. Runs s p.1 (Meaning.run_scalars db p.0) (ok [])) (ok-injective h) (Runs-give s [])
  operands-Runs (o ∷ os) s t xs h =
      let (x, s', first, more) =
        M-inversion (operand service scope fromisoformat alias_of supplied o) _ s t xs h in
      let (ys, s'', rest, done) =
        M-inversion (operands service scope fromisoformat alias_of supplied os) _ s' t xs more in
      let head = operand-Runs o s s' x first in
      subst
        (λ p.
          Runs s p.1 (Meaning.run_scalars db p.0)
            (operands_meaning db service scope fromisoformat alias_of supplied (o ∷ os)))
        (ok-injective done)
        (Runs-bind _ _ head (Runs-map (λ cs. head.result ∷ cs) (operands-Runs os s' s'' ys rest)))

  negated_among :
      (left : Result Cell) (members : Result (List Cell))
      → Errors.◌>>=◌
          (Errors.◌>>=◌ left (λ a. Errors.◌>>=◌ members (λ as_. ok (db.is_among a as_))))
          (λ u. ok (db.negation u))
        ≡ Errors.◌>>=◌ left
            (λ a. Errors.◌>>=◌ members (λ as_. ok (db.negation (db.is_among a as_))))
  negated_among (ok a) (ok as_) = refl
  negated_among (ok a) (err e) = refl
  negated_among (err e) members = refl

  among-Runs :
      (negate : Bool) (x : Scalar) (xs : List Scalar) (s t : Emitted) (left : Result Cell)
      (members : Result (List Cell))
      → Runs s t
          (Meaning.run db (Condition.in_ x xs))
          (Errors.◌>>=◌ left (λ a. Errors.◌>>=◌ members (λ as_. ok (db.is_among a as_))))
      → Runs s t (Meaning.run db (negated negate (Condition.in_ x xs))) (
          Errors.◌>>=◌ left (λ a.
            Errors.◌>>=◌ members (λ as_. ok (Meaning.negate_if db negate (db.is_among a as_)))))
  among-Runs false x xs s t left members r = r
  among-Runs true x xs s t left members r =
      Runs-means (Runs-map db.negation r) (negated_among left members)

  -- The members are bound first and stand second, which is no matter where the left side binds nothing.
  membership-Runs :
      (negate : Bool) (name : Text) (members : List Operand) (s s' t : Emitted) (xs : List Scalar)
      (x : Scalar)
      → operands service scope fromisoformat alias_of supplied members s ≡ ok (xs, s')
      → operand service scope fromisoformat alias_of supplied (Operand.column name) s' ≡ ok (x, t)
      → Runs s t (Meaning.run db (negated negate (Condition.in_ x xs))) (
          Meaning.meaning db service scope fromisoformat alias_of supplied
            (membership negate (Operand.column name) members))
  unfolding operand Meaning.meaning
  membership-Runs negate name members s s' t xs x first second =
      let l = column-Runs_at name s' t s x second in
      let found = operands-Runs members s s' xs first in
      among-Runs negate x xs s t _ _ (
        Runs-end (Runs-bind _ _ l (Runs-map (λ as_. db.is_among l.result as_) found))
          (column-eq-ok name s' t x second).3)

  mutual
    unfolding operand predicate predicates Meaning.meaning Meaning.meanings is_aligned are_aligned
        combine

    pub predicate-Runs :
        (p : Predicate) (s t : Emitted) (c : Condition)
        → is_aligned p ≡ true
        → predicate service scope fromisoformat alias_of supplied p s ≡ ok (c, t)
        → Runs s t
            (Meaning.run db c)
            (Meaning.meaning db service scope fromisoformat alias_of supplied p)
    predicate-Runs (comparison op left right) s t c a h =
        let (x, s', first, more) =
          M-inversion (operand service scope fromisoformat alias_of supplied left) _ s t c h in
        let (y, s'', second, done) =
          M-inversion (operand service scope fromisoformat alias_of supplied right) _ s' t c more in
        let l = operand-Runs left s s' x first in
        subst
          (λ q. Runs s q.1 (Meaning.run db q.0) (
            Meaning.meaning db service scope fromisoformat alias_of supplied
              (comparison op left right)))
          (ok-injective done)
          (Runs-bind _ _ l
            (Runs-map (λ b. db.compares op l.result b) (operand-Runs right s' s'' y second)))
    predicate-Runs (is_null negate o) s t c a h =
        let (x, s', first, done) =
          M-inversion (operand service scope fromisoformat alias_of supplied o) _ s t c h in
        subst
          (λ q.
            Runs s q.1 (Meaning.run db q.0)
              (Meaning.meaning db service scope fromisoformat alias_of supplied (is_null negate o)))
          (ok-injective done)
          (negated-Runs negate (Condition.is_null x) s s' _ db.is_missing
            (Runs-map db.is_missing (operand-Runs o s s' x first)))
    predicate-Runs (membership negate (Operand.column name) members) s t c a h =
        let (xs, s', first, more) =
          M-inversion (operands service scope fromisoformat alias_of supplied members) _ s t c h in
        let (x, s'', second, done) =
          M-inversion (operand service scope fromisoformat alias_of supplied (Operand.column name))
            _ s' t c more in
        subst
          (λ q. Runs s q.1 (Meaning.run db q.0) (
            Meaning.meaning db service scope fromisoformat alias_of supplied
              (membership negate (Operand.column name) members)))
          (ok-injective done) (membership-Runs negate name members s s' s'' xs x first second)
    predicate-Runs (membership negate (literal type v) members) s t c a h = cc
    predicate-Runs (membership negate (enum set member) members) s t c a h = cc
    predicate-Runs (membership negate (parameter name) members) s t c a h = cc
    predicate-Runs (bool_op op args) s t c a h =
        let (cs, s', first, more) =
          M-inversion (predicates service scope fromisoformat alias_of supplied args) _ s t c h in
        let (combined, same) = lift-eq-ok (combine op cs) s' t c more in
        let parts = predicates-Runs args s s' cs a first in
        let (u, means, runs) =
          combine-run db service scope fromisoformat alias_of supplied op cs c parts.result combined
            _ [] (parts.runs []) in
        Runs-end (Runs-after (Meaning.run db c) (Meaning.combined db op) parts u means runs)
          (ap (λ z. z.values) (sym same))

    predicates-Runs :
        (ps : Predicates) (s t : Emitted) (cs : List Condition)
        → are_aligned ps ≡ true
        → predicates service scope fromisoformat alias_of supplied ps s ≡ ok (cs, t)
        → Runs s t
            (Meaning.run_all db cs)
            (Meaning.meanings db service scope fromisoformat alias_of supplied ps)
    predicates-Runs nil s t cs a h =
        subst (λ q. Runs s q.1 (Meaning.run_all db q.0) (ok [])) (ok-injective h) (Runs-give s [])
    predicates-Runs (cons p ps) s t cs a h =
        let (x, s', first, more) =
          M-inversion (predicate service scope fromisoformat alias_of supplied p) _ s t cs h in
        let (ys, s'', rest, done) =
          M-inversion (predicates service scope fromisoformat alias_of supplied ps) _ s' t cs
            more in
        let head = predicate-Runs p s s' x (ground arith) first in
        subst
          (λ q.
            Runs s q.1 (Meaning.run_all db q.0)
              (Meaning.meanings db service scope fromisoformat alias_of supplied (cons p ps)))
          (ok-injective done)
          (Runs-bind _ _ head
            (Runs-map (λ ts. head.result ∷ ts) (predicates-Runs ps s' s'' ys (ground arith) rest)))

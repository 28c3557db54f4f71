-- ===== src/Sql/Compiler/Runs.antt =====
-- One step of the compiler next to the evaluation of what it emits and the meaning of what it was given.
use text_to_sql_rag.Prelude.{
  ◌≡◌, refl, sym, ap, ◌∙◌, subst, Option, none, some, List, [], ◌++◌, append_assoc, append-nil,
}
use text_to_sql_rag.Contracts.Errors.{Result, ok, err, ok-injective}
use text_to_sql_rag.Contracts.Errors
use text_to_sql_rag.Sql.Compiler.Emission.{BoundValue, Emitted, M, ◌>>=◌}
use text_to_sql_rag.Sql.Compiler.Meaning.{R, bind_run, give}

-- Inversion of a step that succeeds.
pub M-inversion :
    {A B : Type 0} (m : M A) (f : A → M B) (s t : Emitted) (b : B)
    → (m >>= f) s ≡ ok (b, t)
    → (a : A) × (u : Emitted) × (m s ≡ ok (a, u)) × (f a u ≡ ok (b, t))
M-inversion {A = A} {B = B} m f s t b h = go (m s) h
  where
    go :
        (r : Result (A × Emitted))
        → (elim r [ err e ↦ err e | ok (a, t) ↦ f a t ]) ≡ ok (b, t)
        → (a : A) × (u : Emitted) × (r ≡ ok (a, u)) × (f a u ≡ ok (b, t))
    go (ok (a, u)) h = (a, u, refl, h)
    go (err e) h = cc

-- From one state to the next, the values that are emitted are those that the evaluation takes, and its result is
-- the meaning.
pub record Runs {A : Type 0} (s t : Emitted) (run : R A) (meaning : Result A) : Type 0 where
  pub emitted : List BoundValue
  pub result : A
  pub values : t.values ≡ s.values ++ emitted
  pub runs : (rest : List BoundValue) → run (emitted ++ rest) ≡ some (result, rest)
  pub means : meaning ≡ ok result

pub Runs-give : {A : Type 0} (s : Emitted) (a : A) → Runs s s (give a) (ok a)
Runs-give s a = record {
  emitted = [];
  result = a;
  values = sym (append-nil s.values);
  runs = λ rest. refl;
  means = refl;
}

-- A step that emits nothing and whose evaluation takes nothing.
pub Runs-pure :
    {A : Type 0} (s t : Emitted) (run : R A) (meaning : Result A) (a : A)
    → t.values ≡ s.values
    → ((rest : List BoundValue) → run rest ≡ some (a, rest))
    → meaning ≡ ok a
    → Runs s t run meaning
Runs-pure s t run meaning a same r m = record {
  emitted = [];
  result = a;
  values = same ∙ sym (append-nil s.values);
  runs = r;
  means = m;
}

pub bind_run-some :
    {A B : Type 0} (m : R A) (f : A → R B) (vs : List BoundValue) {a : A} {rest : List BoundValue}
    → m vs ≡ some (a, rest)
    → bind_run m f vs ≡ f a rest
bind_run-some m f vs e = ap (λ o. elim o [ none ↦ none | some (b, r) ↦ f b r ]) e

-- A step and what follows it.
pub Runs-bind :
    {A B : Type 0} {s t u : Emitted} {run : R A} {meaning : Result A} (f : A → R B)
    (g : A → Result B) (first : Runs s t run meaning)
    (then_ : Runs t u (f first.result) (g first.result))
    → Runs s u (bind_run run f) (Errors.◌>>=◌ meaning g)
Runs-bind {s = s} {u = u} {run = run} f g first then_ = record {
  emitted = first.emitted ++ then_.emitted;
  result = then_.result;
  values =
      then_.values
      ∙ ap (λ v. v ++ then_.emitted) first.values
      ∙ append_assoc s.values first.emitted then_.emitted;
  runs = λ rest.
      ap (bind_run run f) (append_assoc first.emitted then_.emitted rest)
      ∙ bind_run-some run f _ (first.runs (then_.emitted ++ rest))
      ∙ then_.runs rest;
  means = rw first.means then_.means;
}

-- The result of a step, put into a node.
pub Runs-map :
    {A B : Type 0} {s t : Emitted} {run : R A} {meaning : Result A} (f : A → B)
    (first : Runs s t run meaning)
    → Runs s t (bind_run run (λ a. give (f a))) (Errors.◌>>=◌ meaning (λ a. ok (f a)))
Runs-map f first = Runs-bind (λ a. give (f a)) (λ a. ok (f a)) first (Runs-give _ (f first.result))

pub bind_run-inversion :
    {A B : Type 0} (m : R A) (f : A → R B) (vs : List BoundValue) {b : B} {rest : List BoundValue}
    → bind_run m f vs ≡ some (b, rest)
    → (a : A) × (vs' : List BoundValue) × (m vs ≡ some (a, vs')) × (f a vs' ≡ some (b, rest))
bind_run-inversion {A = A} {B = B} m f vs {b} {rest} h = go (m vs) h
  where
    go :
        (o : Option (A × List BoundValue))
        → (elim o [ none ↦ none | some (a, r) ↦ f a r ]) ≡ some (b, rest)
        → (a : A) × (vs' : List BoundValue) × (o ≡ some (a, vs')) × (f a vs' ≡ some (b, rest))
    go none h = cc
    go (some (a, r)) h = (a, r, refl, h)

-- An evaluation that is another one at every input that the first succeeds on.
pub Runs-after :
    {A B : Type 0} {s t : Emitted} {run : R A} {meaning : Result A} (run' : R B) (g : A → Result B)
    (first : Runs s t run meaning) (b : B)
    → g first.result ≡ ok b
    → ((vs rest : List BoundValue) → run vs ≡ some (first.result, rest) → run' vs ≡ some (b, rest))
    → Runs s t run' (Errors.◌>>=◌ meaning g)
Runs-after run' g first b e k = record {
  emitted = first.emitted;
  result = b;
  values = first.values;
  runs = λ rest. k (first.emitted ++ rest) rest (first.runs rest);
  means = rw first.means e;
}

pub Runs-end :
    {A : Type 0} {s t t' : Emitted} {run : R A} {meaning : Result A}
    → Runs s t run meaning
    → t'.values ≡ t.values
    → Runs s t' run meaning
Runs-end r e = record {
  emitted = r.emitted;
  result = r.result;
  values = e ∙ r.values;
  runs = r.runs;
  means = r.means;
}

pub Runs-means :
    {A : Type 0} {s t : Emitted} {run : R A} {meaning meaning' : Result A}
    → Runs s t run meaning
    → meaning ≡ meaning'
    → Runs s t run meaning'
Runs-means {s = s} {t = t} {run = run} r e = subst (λ m. Runs s t run m) e r

pub Runs-start :
    {A : Type 0} {s s' t : Emitted} {run : R A} {meaning : Result A}
    → Runs s t run meaning
    → s.values ≡ s'.values
    → Runs s' t run meaning
Runs-start r e = record {
  emitted = r.emitted;
  result = r.result;
  values = r.values ∙ ap (λ v. v ++ r.emitted) e;
  runs = r.runs;
  means = r.means;
}

-- Another evaluation that gives the same wherever the first succeeds.
pub Runs-as :
    {A : Type 0} {s t : Emitted} {run : R A} {meaning : Result A} (run' : R A)
    → Runs s t run meaning
    → ((vs rest : List BoundValue) (a : A) → run vs ≡ some (a, rest) → run' vs ≡ some (a, rest))
    → Runs s t run' meaning
Runs-as run' r k = record {
  emitted = r.emitted;
  result = r.result;
  values = r.values;
  runs = λ rest. k (r.emitted ++ rest) rest r.result (r.runs rest);
  means = r.means;
}

pub Result_assoc :
    {A B C : Type 0} (m : Result A) (f : A → Result B) (g : B → Result C)
    → Errors.◌>>=◌ (Errors.◌>>=◌ m f) g ≡ Errors.◌>>=◌ m (λ a. Errors.◌>>=◌ (f a) g)
Result_assoc (ok a) f g = refl
Result_assoc (err e) f g = refl

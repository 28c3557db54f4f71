-- ===== src/Sql/Compiler/Binding.antt =====
-- What a step of app/sql/compiler.py binds, against the size of its result.
use text_to_sql_rag.Prelude.{ℕ, ◌+◌, ◌≡◌, ap, List, arith, Text, length}
use text_to_sql_rag.Contracts.Errors.{Result, ok, ok-injective}
use text_to_sql_rag.Contracts.Scope.{TrustedScope}
use text_to_sql_rag.Catalog.Service.{CatalogService}
use text_to_sql_rag.Sql.Compiler.{column}
use text_to_sql_rag.Sql.Compiler.Placeholders.{scalar_placeholders}
use text_to_sql_rag.Sql.Compiler.Emission.{BoundValue, Emitted, M, ◌>>=◌, return, lift}
use text_to_sql_rag.Sql.Compiler.Meaning.{Database}
use text_to_sql_rag.Sql.Compiler.Runs.{M-inversion}
use text_to_sql_rag.Sql.Compiler.Correct.{lift-eq-ok, column-eq-ok}

-- A step whose result has a size, k of which stood before: what it binds is the rest.
abbrev pub Binds : {A : Type 0} → ℕ → (A → ℕ) → M A → Type 0
Binds {A} k size m =
    (s t : Emitted) (a : A) → m s ≡ ok (a, t) → length t.values + k ≡ length s.values + size a

pub Binds-bind :
    {A B : Type 0} (k : ℕ) (size : A → ℕ) (size' : B → ℕ) (m : M A) (f : A → M B)
    → Binds k size m
    → ((a : A) → Binds (size a) size' (f a))
    → Binds k size' (m >>= f)
Binds-bind k size size' m f first then_ s t b h =
    let (a, u, here, there) = M-inversion m f s t b h in
    omega (arith, first s u a here, then_ a u t b there)

pub Binds-return :
    {A : Type 0} (k : ℕ) (size : A → ℕ) (a : A) → size a ≡ k → Binds k size (return a)
Binds-return k size a e s t b h = omega (
  arith,
  e,
  ap (λ p. length (p.1.values)) (ok-injective h),
  ap (λ p. size (p.0)) (ok-injective h),
)

pub Binds-lift :
    {A : Type 0} (k : ℕ) (size : A → ℕ) (r : Result A)
    → ((a : A) → r ≡ ok a → size a ≡ k)
    → Binds k size (lift r)
Binds-lift k size r e s t a h =
    let (done, same) = lift-eq-ok r s t a h in
    omega (arith, e a done, ap (λ z. length (z.values)) same)

pub Binds-more :
    {A : Type 0} (k : ℕ) (size : A → ℕ) (m : M A) → Binds 0 size m → Binds k (λ a. k + size a) m
Binds-more k size m h s t a e = omega (arith, h s t a e)

-- That columns bind nothing does not depend on the database.
abbrev no_database : Database
no_database = record {
  Cell = Unit {0};
  Truth = Unit {0};
  cell = λ a n. tt;
  given = λ v. tt;
  compares = λ op a b. tt;
  is_missing = λ a. tt;
  is_among = λ a as_. tt;
  negation = λ t. tt;
  both = λ t u. tt;
  either = λ t u. tt;
}

module _ (service : CatalogService) (scope : TrustedScope) (fromisoformat : Text → Result ℕ)
    (alias_of : List (Text × Text)) (supplied : List (Text × BoundValue)) where
  pub column-Binds :
      (c : Text)
      → Binds 0 scalar_placeholders (column service scope fromisoformat alias_of supplied c)
  column-Binds c s t x h =
      let (p, found, node, same) =
        column-eq-ok no_database service scope fromisoformat alias_of supplied c s t x h in
      omega (arith, ap length same, ap scalar_placeholders node)

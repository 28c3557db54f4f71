-- ===== src/Sql/Validators/Clean.antt =====
-- Findings of which none blocks, for the gates of app/sql/validators/suite.py.
use text_to_sql_rag.Prelude.{
  ◌≡◌, refl, ◌∙◌, ap, Bool, true, false, not, Option, List, [], ◌∷◌, ◌++◌, Text, arith, any_of,
  concat_map, All, ==_refl,
}
use text_to_sql_rag.Contracts.Errors.{
  Result, ok, Finding, ReasonCode, finding_of, >>=-eq-ok, ok-injective, block, severity_eq,
}
use text_to_sql_rag.Sql.Validators.Nodes.{is_blocking, blocked}
use text_to_sql_rag.Sql.Validators.Records.{each}

abbrev pub IsClean : List Finding → Type 0
IsClean fs = any_of is_blocking fs ≡ false

pub IsClean-append : (xs ys : List Finding) → IsClean (xs ++ ys) → IsClean xs × IsClean ys
IsClean-append [] ys h = (refl, h)
IsClean-append (x ∷ xs) ys h =
    let more = IsClean-append xs ys (ground arith) in (ground (arith, more), more.1)

pub finding_blocks : (c : ReasonCode) (s : Option Text) → is_blocking (finding_of c s) ≡ true
finding_blocks c s = ==_refl block

-- A test that blocks did not fire.
pub IsClean-blocked :
    (b : Bool) (c : ReasonCode) (s : Option Text) → IsClean (blocked b (finding_of c s)) → b ≡ false
IsClean-blocked true c s h = ground (arith, finding_blocks c s)
IsClean-blocked false c s h = refl

pub IsClean-passed :
    (b : Bool) (c : ReasonCode) (s : Option Text)
    → IsClean (blocked (not b) (finding_of c s))
    → b ≡ true
IsClean-passed true c s h = refl
IsClean-passed false c s h = ground (arith, finding_blocks c s)

pub not-IsClean :
    {P : Type 0} (c : ReasonCode) (s : Option Text) (fs : List Finding)
    → IsClean (finding_of c s ∷ fs)
    → P
not-IsClean c s fs h = ground (arith, finding_blocks c s)

pub IsClean-concat_map {ℓ} :
    {A : Type ℓ} (f : A → List Finding) (xs : List A)
    → IsClean (concat_map f xs)
    → All (λ x. IsClean (f x)) xs
IsClean-concat_map f [] h = tt
IsClean-concat_map f (x ∷ xs) h =
    let parts = IsClean-append (f x) (concat_map f xs) h in
    (parts.0, IsClean-concat_map f xs parts.1)

-- It completed, and nothing blocks.
pub record IsPassed (gate : Result (List Finding)) : Type 0 where
  pub findings : List Finding
  pub completes : gate ≡ ok findings
  pub clean : IsClean findings

pub ok-IsPassed : {fs : List Finding} → IsPassed (ok fs) → IsClean fs
ok-IsPassed p = ap (any_of is_blocking) (ok-injective p.completes) ∙ p.clean

pub each-IsPassed {ℓ} :
    {A : Type ℓ} (f : A → Result (List Finding)) (xs : List A) (fs : List Finding)
    → each f xs ≡ ok fs
    → IsClean fs
    → All (λ x. IsPassed (f x)) xs
unfolding each
each-IsPassed f [] fs h c = tt
each-IsPassed f (x ∷ xs) fs h c =
    let (here, e, h1) = >>=-eq-ok (f x) _ h in
    let (rest, e', done) = >>=-eq-ok (each f xs) _ h1 in
    let parts = IsClean-append here rest (ap (any_of is_blocking) (ok-injective done) ∙ c) in
    (record { findings = here; completes = e; clean = parts.0 }, each-IsPassed f xs rest e' parts.1)

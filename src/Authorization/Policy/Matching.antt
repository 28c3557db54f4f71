-- ===== src/Authorization/Policy/Matching.antt =====
-- What a pattern of the policy covers.
use text_to_sql_rag.Prelude.{
  ◌≡◌, ◌∙◌, sym, ap, ◌⊎◌, inl, inr, Bool, true, List, [], ◌∷◌, ◌++◌, arith, Text, text, contains,
  starts_with, drop_last, any_of, Bool-cases, starts_with-append, drop_last-append,
  starts_with_split, ends_with-append, ends_with_split, append_assoc, subset, contains-subset,
  list_eq, nat_eq, ◌↔◌, eq_of_==, ◌==◌, ◌||◌,
}
use text_to_sql_rag.Authorization.Policy.{covers, matches}

-- `r` is the stem itself or an identifier below it.
abbrev pub Below : Text → Text → Type 0
Below stem r = (r ≡ stem) ⊎ ((leaf : Text) × (r ≡ (stem ++ text ".") ++ leaf))

drop_last-stem : (stem : Text) → drop_last 2 (stem ++ text ".*") ≡ stem
drop_last-stem stem = drop_last-append stem (text ".*")

drop_last-dot : (stem : Text) → drop_last 1 (stem ++ text ".*") ≡ stem ++ text "."
drop_last-dot stem =
    ap (drop_last 1) (sym (append_assoc stem (text ".") (text "*")))
    ∙ drop_last-append (stem ++ text ".") (text "*")

covers_stem :
    (stem r : Text) → covers r (stem ++ text ".*") ≡ (r == stem || starts_with r (stem ++ text "."))
unfolding covers
covers_stem stem r = rw (ends_with-append, drop_last-stem, drop_last-dot)

pub covers-Below : (stem r : Text) → Below stem r → covers r (stem ++ text ".*") ≡ true
covers-Below stem r (inl e) = ground (arith, covers_stem stem r)
covers-Below stem r (inr (leaf, e)) =
    ground (arith, covers_stem stem r, starts_with-append (stem ++ text ".") leaf)

-- A covering pattern is a stem with the wildcard, and the resource is below the stem.
pub covers_inv :
    (r p : Text) → covers r p ≡ true → (stem : Text) × (p ≡ stem ++ text ".*") × Below stem r
unfolding covers
covers_inv r p h =
    let (stem, e) = ends_with_split p (text ".*") (ground arith) in (stem, e, below stem e)
  where
    below : (stem : Text) → p ≡ stem ++ text ".*" → Below stem r
    below stem e = elim (Bool-cases (r == stem)) [
      | inl same ↦ inl (eq_of_== r stem same)
      | inr other ↦
          inr (starts_with_split r (stem ++ text ".") (ground (arith, covers_stem stem r)))
    ]

any_of-contains :
    (f : Text → Bool) (p : Text) (ps : List Text)
    → contains p ps ≡ true
    → f p ≡ true
    → any_of f ps ≡ true
any_of-contains f p [] m h = cc
any_of-contains f p (q ∷ ps) m h = ground (arith, any_of-contains f p ps)

any_of_witness :
    (f : Text → Bool) (ps : List Text)
    → any_of f ps ≡ true
    → (p : Text) × (contains p ps ≡ true) × (f p ≡ true)
any_of_witness f [] h = cc
any_of_witness f (q ∷ ps) h = elim (Bool-cases (f q)) [
  | inl here ↦ (q, ground arith, here)
  | inr later ↦ let (p, m, e) = any_of_witness f ps (ground arith) in (p, ground arith, e)
]

-- What a set of patterns says of a resource: it is listed, or a listed wildcard stands above it.
abbrev pub IsMatched : List Text → Text → Type 0
IsMatched ps r =
    (contains r ps ≡ true)
    ⊎ ((stem : Text) × (contains (stem ++ text ".*") ps ≡ true) × Below stem r)

-- A resource matches a set of patterns exactly when the set lists it, or lists `stem.*` for a stem
-- that is the resource or stands above it at a dot.
pub matches-IsMatched : (ps : List Text) (r : Text) → (matches ps r ≡ true) ↔ IsMatched ps r
unfolding matches
matches-IsMatched ps r = (left, right)
  where
    left : matches ps r ≡ true → IsMatched ps r
    left h = elim (Bool-cases (contains r ps)) [
      | inl listed ↦ inl listed
      | inr unlisted ↦
          let (p, m, c) = any_of_witness (covers r) ps (ground arith) in
          let (stem, e, b) = covers_inv r p c in inr (stem, rw (← e) m, b)
    ]

    right : IsMatched ps r → matches ps r ≡ true
    right (inl listed) = ground arith
    right (inr (stem, m, b)) =
        ground (arith, any_of-contains (covers r) _ ps m (covers-Below stem r b))

-- More patterns match more.
pub matches_mono :
    (ps qs : List Text) (r : Text) → subset ps qs ≡ true → matches ps r ≡ true → matches qs r ≡ true
matches_mono ps qs r sub h = elim ((matches-IsMatched ps r).0 h) [
  | inl listed ↦ (matches-IsMatched qs r).1 (inl (contains-subset r ps qs sub listed))
  | inr (stem, m, b) ↦ (matches-IsMatched qs r).1 (inr (stem, contains-subset _ ps qs sub m, b))
]

pub contains-matches : (ps : List Text) (r : Text) → contains r ps ≡ true → matches ps r ≡ true
contains-matches ps r h = (matches-IsMatched ps r).1 (inl h)

-- ===== src/Retrieval/Fusion.antt =====
-- app/retrieval/fusion.py: the cap on the candidates of one source. The fusion of ranks, which adds floats, is
-- left out.
use text_to_sql_rag.Prelude.{
  ℕ, ◌+◌, ◌≤◌, ◌≡◌, ap, ◌⊎◌, inl, inr, true, List, [], ◌∷◌, arith, Text, ◌==◌, eq_of_==, list_eq,
  nat_eq, contains, lookup, insert, lookup-insert, get_default, leb, Bool-cases, if◌then◌else◌,
}

-- The loop, from what was counted before.
unfoldable pub cap_from : (source_of : Text → Text) → ℕ → List (Text × ℕ) → List Text → List Text
cap_from source_of max_per_source counts [] = []
cap_from source_of max_per_source counts (i ∷ is) =
    let count = get_default (source_of i) 0 counts in
    let without = cap_from source_of max_per_source counts is in
    let with_it = cap_from source_of max_per_source (insert (source_of i) (count + 1) counts) is in
    if leb max_per_source count then without else i ∷ with_it

-- `source_of.get(record_id, record_id)`
abbrev pub source_in : List (Text × Text) → Text → Text
source_in sources record_id = get_default record_id record_id sources

unfoldable pub cap_per_source : List Text → List (Text × Text) → ℕ → List Text
unfolding cap_from
cap_per_source ordered_ids sources max_per_source =
    cap_from (source_in sources) max_per_source [] ordered_ids

-- How many of the ids have the source.
abbrev pub count_source : (source_of : Text → Text) → Text → List Text → ℕ
count_source source_of source [] = 0
count_source source_of source (i ∷ is) =
    let rest = count_source source_of source is in if source == source_of i then 1 + rest else rest

abbrev counted : List (Text × ℕ) → Text → ℕ
counted counts source = get_default source 0 counts

counted-insert :
    (counts : List (Text × ℕ)) (a b : Text) (n : ℕ)
    → counted (insert b n counts) a ≡ (if a == b then n else counted counts a)
counted-insert counts a b n = ground (arith, lookup-insert a b n counts)

module _ (source_of : Text → Text) (max_per_source : ℕ) where
  cap_from_bound :
      (counts : List (Text × ℕ)) (ids : List Text) (s : Text)
      → counted counts s ≤ max_per_source
      → count_source source_of s (cap_from source_of max_per_source counts ids) + counted counts s
        ≤ max_per_source
  unfolding cap_from
  cap_from_bound counts [] s h = omega arith
  cap_from_bound counts (i ∷ is) s h =
      elim (Bool-cases (leb max_per_source (counted counts (source_of i)))) [
        | inl full ↦ rw full (cap_from_bound counts is s h)
        | inr room ↦
            let counts' : List (Text × ℕ) =
              insert (source_of i) (counted counts (source_of i) + 1) counts in
            let e = counted-insert counts s (source_of i) (counted counts (source_of i) + 1) in
            elim (Bool-cases (s == source_of i)) [
              | inl same ↦
                  let here : s ≡ source_of i = eq_of_== s (source_of i) same in
                  let e' = rw same at e in
                  let same_count = ap (counted counts) here in
                  let rest = cap_from_bound counts' is s (ground arith) in
                  rw (room, same) (omega arith)
              | inr other ↦
                  let e' = rw other at e in
                  let rest = cap_from_bound counts' is s (omega arith) in
                  rw (room, other) (omega arith)
            ]
      ]

  moved :
      (counts : List (Text × ℕ)) (is : List Text) (i j : Text)
      → max_per_source
        ≤ count_source source_of (source_of i) (
            cap_from source_of max_per_source
              (insert (source_of j) (counted counts (source_of j) + 1) counts)
              is)
          + counted (insert (source_of j) (counted counts (source_of j) + 1) counts) (source_of i)
      → counted (insert (source_of j) (counted counts (source_of j) + 1) counts) (source_of i) ≡ (
          if source_of i == source_of j
          then counted counts (source_of j) + 1
          else counted counts (source_of i))
      → max_per_source
        ≤ count_source source_of (source_of i) (
            j
            ∷ cap_from source_of max_per_source
                (insert (source_of j) (counted counts (source_of j) + 1) counts)
                is)
          + counted counts (source_of i)
  moved counts is i j full e = elim (Bool-cases (source_of i == source_of j)) [
    | inl same ↦
        let e' = rw same at e in
        let count = ap (counted counts) (eq_of_== (source_of i) (source_of j) same) in
        rw same (omega (arith, full, e', count))
    | inr other ↦ let e' = rw other at e in rw other (omega (arith, full, e'))
  ]

  -- An id that is not kept has a source that is full.
  cap_from_full :
      (counts : List (Text × ℕ)) (ids : List Text) (i : Text)
      → contains i ids ≡ true
      → (contains i (cap_from source_of max_per_source counts ids) ≡ true)
        ⊎ (max_per_source
            ≤ count_source source_of (source_of i) (cap_from source_of max_per_source counts ids)
              + counted counts (source_of i))
  unfolding cap_from
  cap_from_full counts [] i m = cc
  cap_from_full counts (j ∷ is) i m =
      elim (Bool-cases (leb max_per_source (counted counts (source_of j)))) [
        | inl full ↦ rw full (elim (Bool-cases (i == j)) [
          | inl same ↦
              let count = ap (λ x. counted counts (source_of x)) (eq_of_== i j same) in
              inr (ground (arith, count))
          | inr other ↦ cap_from_full counts is i (ground arith)
        ])
        | inr room ↦
            let counts' : List (Text × ℕ) =
              insert (source_of j) (counted counts (source_of j) + 1) counts in
            let e =
              counted-insert counts (source_of i) (source_of j)
                (counted counts (source_of j) + 1) in
            rw room (elim (Bool-cases (i == j)) [
              | inl same ↦ inl (ground arith)
              | inr other ↦ elim (cap_from_full counts' is i (ground arith)) [
                | inl kept ↦ inl (ground (arith, kept))
                | inr full ↦ inr (moved counts is i j full e)
              ]
            ])
      ]

-- The cap keeps of each source at most the given number of ids.
pub cap_per_source-bound :
    (ordered_ids : List Text) (sources : List (Text × Text)) (max_per_source : ℕ) (source : Text)
    → count_source (source_in sources) source (cap_per_source ordered_ids sources max_per_source)
      ≤ max_per_source
unfolding cap_per_source lookup
cap_per_source-bound ordered_ids sources max_per_source source =
    omega
      (arith, cap_from_bound (source_in sources) max_per_source [] ordered_ids source (omega arith))

-- An id of the list is dropped only if the ids that are kept from its source are as many as the cap allows.
pub cap_per_source-full :
    (ordered_ids : List Text) (sources : List (Text × Text)) (max_per_source : ℕ) (record_id : Text)
    → contains record_id ordered_ids ≡ true
    → (contains record_id (cap_per_source ordered_ids sources max_per_source) ≡ true)
      ⊎ (max_per_source
          ≤ count_source
              (source_in sources)
              (source_in sources record_id)
              (cap_per_source ordered_ids sources max_per_source))
unfolding cap_per_source lookup
cap_per_source-full ordered_ids sources max_per_source record_id m =
    elim (cap_from_full (source_in sources) max_per_source [] ordered_ids record_id m) [
      | inl kept ↦ inl kept
      | inr full ↦ inr (omega (arith, full))
    ]

-- ===== src/Prelude/Sorting.antt =====
-- `sorted`: a stable insertion sort by a test, and the sorted list of a set of texts.
use mathlib.Core.Path.{◌≡◌, refl}
use mathlib.Core.Bool.{Bool, false, ◌||◌}
use mathlib.Core.List.{List, [], ◌∷◌, map}
use native.Mathlib.Omega.{arith}
use text_to_sql_rag.Prelude.Tests.{Bool-cases, if◌then◌else◌}
use text_to_sql_rag.Prelude.Equality.{Eq, ◌==◌, contains, list_eq, nat_eq}
use text_to_sql_rag.Prelude.Order.{IsWeakOrder, text_lt}
use text_to_sql_rag.Prelude.Lists.{All, All-map, length}
use Prim.Native.Nat.{suc, ◌≤◌}
use mathlib.Core.Logic.{inl, inr}
use text_to_sql_rag.Prelude.Texts.{Text}

module _ {ℓ} {A : Type ℓ} (lt : A → A → Bool) where
  -- Before the first item that is not below `a`, so that equal items keep their order.
  unfoldable pub insert_sorted : A → List A → List A
  insert_sorted a [] = a ∷ []
  insert_sorted a (x ∷ xs) =
      let rest = insert_sorted a xs in if lt x a then x ∷ rest else a ∷ x ∷ xs

  unfoldable pub sort_by : List A → List A
  unfolding insert_sorted
  sort_by [] = []
  sort_by (x ∷ xs) = insert_sorted x (sort_by xs)

module _ {ℓ} {A : Type ℓ} (lt : A → A → Bool) ⦃e : Eq A⦄ where
  contains-insert_sorted :
      (a b : A) (xs : List A) → contains b (insert_sorted lt a xs) ≡ (b == a || contains b xs)
  unfolding insert_sorted
  contains-insert_sorted a b [] = refl
  contains-insert_sorted a b (x ∷ xs) = ground (arith, contains-insert_sorted a b xs)

  pub contains-sort_by : (b : A) (xs : List A) → contains b (sort_by lt xs) ≡ contains b xs
  unfolding sort_by
  contains-sort_by b [] = refl
  contains-sort_by b (x ∷ xs) =
      ground (arith, contains-insert_sorted x b (sort_by lt xs), contains-sort_by b xs)

module _ {ℓ κ} {A : Type ℓ} {B : Type κ} (lt : A → A → Bool) (f : A → B) ⦃e : Eq B⦄ where
  contains-map-insert_sorted :
      (b : B) (a : A) (xs : List A)
      → contains b (map f (insert_sorted lt a xs)) ≡ (b == f a || contains b (map f xs))
  unfolding insert_sorted
  contains-map-insert_sorted b a [] = refl
  contains-map-insert_sorted b a (x ∷ xs) = ground (arith, contains-map-insert_sorted b a xs)

  pub contains-map-sort_by :
      (b : B) (xs : List A) → contains b (map f (sort_by lt xs)) ≡ contains b (map f xs)
  unfolding sort_by
  contains-map-sort_by b [] = refl
  contains-map-sort_by b (x ∷ xs) =
      ground (arith, contains-map-insert_sorted b x (sort_by lt xs), contains-map-sort_by b xs)

module _ {ℓ} {A : Type ℓ} (lt : A → A → Bool) where
  All-insert_sorted {κ} :
      (P : A → Type κ) (a : A) (xs : List A) → P a → All P xs → All P (insert_sorted lt a xs)
  unfolding insert_sorted
  All-insert_sorted P a [] h hs = (h, tt)
  All-insert_sorted P a (x ∷ xs) h hs = elim (Bool-cases (lt x a)) [
    | inl below ↦ rw below (hs.0, All-insert_sorted P a xs h hs.1)
    | inr above ↦ rw above (h, hs)
  ]

  -- What holds of every item holds of every item of the sorted list.
  pub All-sort_by {κ} : (P : A → Type κ) (xs : List A) → All P xs → All P (sort_by lt xs)
  unfolding sort_by
  All-sort_by P [] hs = tt
  All-sort_by P (x ∷ xs) hs = All-insert_sorted P x (sort_by lt xs) hs.0 (All-sort_by P xs hs.1)

  All-of_insert_sorted {κ} :
      (P : A → Type κ) (a : A) (xs : List A) → All P (insert_sorted lt a xs) → P a × All P xs
  unfolding insert_sorted
  All-of_insert_sorted P a [] hs = hs
  All-of_insert_sorted P a (x ∷ xs) hs = elim (Bool-cases (lt x a)) [
    | inl below ↦
        let hs' : P x × All P (insert_sorted lt a xs) = rw below at hs in
        let (h, rest) = All-of_insert_sorted P a xs hs'.1 in (h, (hs'.0, rest))
    | inr above ↦ let hs' : P a × All P (x ∷ xs) = rw above at hs in hs'
  ]

  pub All-of_sort_by {κ} : (P : A → Type κ) (xs : List A) → All P (sort_by lt xs) → All P xs
  unfolding sort_by
  All-of_sort_by P [] hs = tt
  All-of_sort_by P (x ∷ xs) hs =
      let (h, rest) = All-of_insert_sorted P x (sort_by lt xs) hs in (h, All-of_sort_by P xs rest)

  -- No item stands behind one that is above it.
  abbrev pub IsSorted : List A → Type 0
  IsSorted [] = Unit
  IsSorted (x ∷ xs) = All (λ y. lt y x ≡ false) xs × IsSorted xs

  module _ (o : IsWeakOrder lt) where
    insert_sorted-IsSorted : (a : A) (xs : List A) → IsSorted xs → IsSorted (insert_sorted lt a xs)
    unfolding insert_sorted
    insert_sorted-IsSorted a [] h = (tt, tt)
    insert_sorted-IsSorted a (x ∷ xs) (least, sorted) = elim (Bool-cases (lt x a)) [
      | inl below ↦ rw below (
        All-insert_sorted (λ y. lt y x ≡ false) a xs (o.asym x a below) least,
        insert_sorted-IsSorted a xs sorted,
      )
      | inr above ↦ rw above (
        (
          above,
          All-map (λ y. lt y x ≡ false) (λ y. lt y a ≡ false) xs (λ y h. o.not_trans y x a h above)
              least,
        ),
        (least, sorted),
      )
    ]

    pub sort_by-IsSorted : (xs : List A) → IsSorted (sort_by lt xs)
    unfolding sort_by
    sort_by-IsSorted [] = tt
    sort_by-IsSorted (x ∷ xs) = insert_sorted-IsSorted x (sort_by lt xs) (sort_by-IsSorted xs)

-- `sorted(set(...))` of texts: each once, in order.
unfoldable pub insert_once : Text → List Text → List Text
insert_once a [] = a ∷ []
insert_once a (x ∷ xs) =
    let rest = insert_once a xs in
    if a == x then x ∷ xs else if text_lt x a then x ∷ rest else a ∷ x ∷ xs

unfoldable pub sorted_set : List Text → List Text
unfolding insert_once
sorted_set [] = []
sorted_set (x ∷ xs) = insert_once x (sorted_set xs)

contains-insert_once :
    (a b : Text) (xs : List Text) → contains b (insert_once a xs) ≡ (b == a || contains b xs)
unfolding insert_once
contains-insert_once a b [] = refl
contains-insert_once a b (x ∷ xs) = ground (arith, contains-insert_once a b xs)

pub contains-sorted_set : (b : Text) (xs : List Text) → contains b (sorted_set xs) ≡ contains b xs
unfolding sorted_set
contains-sorted_set b [] = refl
contains-sorted_set b (x ∷ xs) =
    ground (arith, contains-insert_once x b (sorted_set xs), contains-sorted_set b xs)

length-insert_once-le : (a : Text) (xs : List Text) → length (insert_once a xs) ≤ suc (length xs)
unfolding insert_once
length-insert_once-le a [] = omega arith
length-insert_once-le a (x ∷ xs) = ground (arith, length-insert_once-le a xs)

pub length-sorted_set-le : (xs : List Text) → length (sorted_set xs) ≤ length xs
unfolding sorted_set
length-sorted_set-le [] = omega arith
length-sorted_set-le (x ∷ xs) =
    omega (arith, length-insert_once-le x (sorted_set xs), length-sorted_set-le xs)

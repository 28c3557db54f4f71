-- ===== src/Prelude/Lists.antt =====
-- Lists measured by native numbers, comprehensions, and lists read as Python sets.
use Prim.Native.Nat.{ℕ, zero, suc, ◌+◌, ◌*◌, ◌≤◌}
use mathlib.Core.Path.{◌≡◌, refl, sym, ap, ◌∙◌}
use mathlib.Core.Bool.{Bool, true, false, ◌&&◌, ◌||◌}
use mathlib.Core.List.{List, [], ◌∷◌, ◌++◌, Memᴰ, append_assoc}
use native.Mathlib.Omega.{arith}
use text_to_sql_rag.Prelude.Tests.{if◌then◌else◌}
use text_to_sql_rag.Prelude.Equality.{Eq, contains}

module _ {ℓ} {A : Type ℓ} where
  abbrev pub length : List A → ℕ
  length [] = 0
  length (x ∷ xs) = suc (length xs)

  abbrev pub take : ℕ → List A → List A
  take zero xs = []
  take (suc n) [] = []
  take (suc n) (x ∷ xs) = x ∷ take n xs

  -- `[x for x in xs if p(x)]`
  abbrev pub select : (A → Bool) → List A → List A
  select p [] = []
  select p (x ∷ xs) = let rest = select p xs in if p x then x ∷ rest else rest

  -- `all(p(x) for x in xs)` and `any(p(x) for x in xs)`
  abbrev pub all_of : (A → Bool) → List A → Bool
  all_of p [] = true
  all_of p (x ∷ xs) = p x && all_of p xs

  abbrev pub any_of : (A → Bool) → List A → Bool
  any_of p [] = false
  any_of p (x ∷ xs) = p x || any_of p xs

  abbrev pub concat_map {κ} : {B : Type κ} → (B → List A) → List B → List A
  concat_map f [] = []
  concat_map f (x ∷ xs) = f x ++ concat_map f xs

  -- A predicate at every item, which the tactics read as a tuple.
  abbrev pub All {κ} : (A → Type κ) → List A → Type κ
  All P [] = Unit
  All P (x ∷ xs) = P x × All P xs

  pub length-append : (xs ys : List A) → length (xs ++ ys) ≡ length xs + length ys
  length-append [] ys = omega arith
  length-append (x ∷ xs) ys = omega (arith, length-append xs ys)

  pub take-length-append : (xs ys : List A) → take (length xs) (xs ++ ys) ≡ xs
  take-length-append [] ys = refl
  take-length-append (x ∷ xs) ys = ap (λ r. x ∷ r) (take-length-append xs ys)

  pub length-select-le : (p : A → Bool) (xs : List A) → length (select p xs) ≤ length xs
  length-select-le p [] = omega arith
  length-select-le p (x ∷ xs) = ground (arith, length-select-le p xs)

  pub All-append {κ} :
      (P : A → Type κ) (front back : List A) (f : All P front) (b : All P back)
      → All P (front ++ back)
  All-append P [] back f b = b
  All-append P (x ∷ front) back (here, f) b = (here, All-append P front back f b)

  pub All-map {κ μ} :
      (P : A → Type κ) (Q : A → Type μ) (xs : List A) → ((x : A) → P x → Q x) → All P xs → All Q xs
  All-map P Q [] f h = tt
  All-map P Q (x ∷ xs) f h = (f x h.0, All-map P Q xs f h.1)

  pub all_of-true :
      (p q : A → Bool) (xs : List A)
      → ((x : A) → p x ≡ true → q x ≡ true)
      → all_of p xs ≡ true
      → all_of q xs ≡ true
  all_of-true p q [] f h = refl
  all_of-true p q (x ∷ xs) f h = ground (arith, f x, all_of-true p q xs f)

module _ {ℓ} {A : Type ℓ} ⦃e : Eq A⦄ where
  -- `xs <= ys` and `xs == ys` of sets.
  abbrev pub subset : List A → List A → Bool
  subset xs ys = all_of (λ x. contains x ys) xs

  abbrev pub same_set : List A → List A → Bool
  same_set xs ys = subset xs ys && subset ys xs

  -- `xs - ys` of sets.
  abbrev pub difference : List A → List A → List A
  difference xs ys = select (λ x. if contains x ys then false else true) xs

  -- `xs | ys`: what is new stands behind.
  abbrev pub union : List A → List A → List A
  union xs ys = xs ++ difference ys xs

  pub contains-append :
      (a : A) (xs ys : List A) → contains a (xs ++ ys) ≡ (contains a xs || contains a ys)
  contains-append a [] ys = refl
  contains-append a (x ∷ xs) ys = ground (arith, contains-append a xs ys)

  pub contains-select :
      (p : A → Bool) (a : A) (xs : List A) → contains a (select p xs) ≡ (p a && contains a xs)
  contains-select p a [] = ground arith
  contains-select p a (x ∷ xs) = ground (arith, contains-select p a xs)

  pub all_of-contains :
      (p : A → Bool) (a : A) (xs : List A) → all_of p xs ≡ true → contains a xs ≡ true → p a ≡ true
  all_of-contains p a [] h m = cc
  all_of-contains p a (x ∷ xs) h m = ground (arith, all_of-contains p a xs)

  pub all_of_intro :
      (p : A → Bool) (xs : List A)
      → ((a : A) → contains a xs ≡ true → p a ≡ true)
      → all_of p xs ≡ true
  all_of_intro p [] h = refl
  all_of_intro p (x ∷ xs) h = ground (arith, h x, all_of_intro p xs (λ a m. h a (ground arith)))

  pub contains-subset :
      (a : A) (xs ys : List A) → subset xs ys ≡ true → contains a xs ≡ true → contains a ys ≡ true
  contains-subset a xs ys h m = all_of-contains (λ x. contains x ys) a xs h m

  pub subset_intro :
      (xs ys : List A)
      → ((a : A) → contains a xs ≡ true → contains a ys ≡ true)
      → subset xs ys ≡ true
  subset_intro xs ys h = all_of_intro (λ x. contains x ys) xs h

  pub subset_refl : (xs : List A) → subset xs xs ≡ true
  subset_refl xs = subset_intro xs xs (λ a m. m)

  pub subset_trans :
      (xs ys zs : List A) → subset xs ys ≡ true → subset ys zs ≡ true → subset xs zs ≡ true
  subset_trans xs ys zs h k =
      subset_intro xs zs (λ a m. contains-subset a ys zs k (contains-subset a xs ys h m))

  pub subset-append_left : (xs ys : List A) → subset xs (xs ++ ys) ≡ true
  subset-append_left xs ys =
      subset_intro xs (xs ++ ys) (λ a m. ground (arith, contains-append a xs ys))

  pub subset-append_right : (xs ys : List A) → subset ys (xs ++ ys) ≡ true
  subset-append_right xs ys =
      subset_intro ys (xs ++ ys) (λ a m. ground (arith, contains-append a xs ys))

pub length-concat_map-le {ℓ κ} :
    {A : Type ℓ} {B : Type κ} (f : B → List A) (b : ℕ) (xs : List B)
    → ((x : B) → length (f x) ≤ b)
    → length (concat_map f xs) ≤ b * length xs
length-concat_map-le f b [] h = omega arith
length-concat_map-le f b (x ∷ xs) h =
    omega (arith, length-append (f x) (concat_map f xs), h x, length-concat_map-le f b xs h)

pub All-concat_map {ℓ κ μ} :
    {A : Type ℓ} {B : Type κ} (f : B → List A) (P : A → Type μ) (xs : List B)
    → ((x : B) → All P (f x))
    → All P (concat_map f xs)
All-concat_map f P [] h = tt
All-concat_map f P (x ∷ xs) h = All-append P (f x) (concat_map f xs) (h x) (All-concat_map f P xs h)

pub All-trivial {ℓ} : {A : Type ℓ} (xs : List A) → All (λ x. Unit {0}) xs
All-trivial [] = tt
All-trivial (x ∷ xs) = (tt, All-trivial xs)

pub length-snoc {ℓ} : {A : Type ℓ} (xs : List A) (x : A) → length (xs ++ x ∷ []) ≡ suc (length xs)
length-snoc xs x = omega (arith, length-append xs (x ∷ []))

pub if-All {ℓ κ} :
    {A : Type ℓ} (P : A → Type κ) (b : Bool) (xs : List A)
    → (b ≡ true → All P xs)
    → All P (if b then xs else [])
if-All P true xs h = h refl
if-All P false xs h = tt

-- What holds of the items that an item of the list gives holds of all of them together.
pub All-concat_map_of_All {ℓ κ μ ν} :
    {A : Type ℓ} {B : Type κ} (f : B → List A) (R : B → Type μ) (P : A → Type ν) (xs : List B)
    → ((x : B) → R x → All P (f x))
    → All R xs
    → All P (concat_map f xs)
All-concat_map_of_All f R P [] h r = tt
All-concat_map_of_All f R P (x ∷ xs) h r =
    All-append P (f x) (concat_map f xs) (h x r.0) (All-concat_map_of_All f R P xs h r.1)

pub All-Memᴰ {ℓ} : {A : Type ℓ} (xs : List A) → All (λ x. Memᴰ x xs) xs
All-Memᴰ [] = tt
All-Memᴰ (x ∷ xs) = (
  Memᴰ.head refl,
  All-map (λ y. Memᴰ y xs) (λ y. Memᴰ y (x ∷ xs)) xs (λ y m. Memᴰ.tail m) (All-Memᴰ xs),
)

pub All-contains {ℓ} :
    {A : Type ℓ} ⦃e : Eq A⦄ (xs ys : List A)
    → ((x : A) → contains x xs ≡ true → contains x ys ≡ true)
    → All (λ x. contains x ys ≡ true) xs
All-contains [] ys h = tt
All-contains (x ∷ xs) ys h = (h x (ground arith), All-contains xs ys (λ a m. h a (ground arith)))

pub concat_map-append {ℓ κ} :
    {A : Type ℓ} {B : Type κ} (f : B → List A) (xs ys : List B)
    → concat_map f (xs ++ ys) ≡ concat_map f xs ++ concat_map f ys
concat_map-append f [] ys = refl
concat_map-append f (x ∷ xs) ys =
    ap (λ z. f x ++ z) (concat_map-append f xs ys)
    ∙ sym (append_assoc (f x) (concat_map f xs) (concat_map f ys))

pub All-both {ℓ κ μ ν} :
    {A : Type ℓ} (P : A → Type κ) (Q : A → Type μ) (R : A → Type ν) (xs : List A)
    → ((x : A) → P x → Q x → R x)
    → All P xs
    → All Q xs
    → All R xs
All-both P Q R [] f h k = tt
All-both P Q R (x ∷ xs) f h k = (f x h.0 k.0, All-both P Q R xs f h.1 k.1)

-- An item of which the test is true makes the test of any item true.
pub any_of-All {ℓ} :
    {A : Type ℓ} (p : A → Bool) (xs : List A) → All (λ x. p x ≡ true → any_of p xs ≡ true) xs
any_of-All p [] = tt
any_of-All p (x ∷ xs) = (
  λ h. ground arith,
  All-map (λ y. p y ≡ true → any_of p xs ≡ true) (λ y. p y ≡ true → any_of p (x ∷ xs) ≡ true) xs
      (λ y f h. ground (arith, f h)) (any_of-All p xs),
)

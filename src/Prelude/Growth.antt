-- ===== src/Prelude/Growth.antt =====
-- Lists that grow at the end by items that are new.
use mathlib.Core.Path.{◌≡◌, refl, sym, ap, ◌∙◌, subst}
use mathlib.Core.Bool.{Bool, true, false, not, ◌||◌}
use mathlib.Core.Option.{some}
use mathlib.Core.List.{List, [], ◌∷◌, ◌++◌, append-nil, append_assoc}
use native.Mathlib.Omega.{arith}
use mathlib.Core.Logic.{inl, inr}
use text_to_sql_rag.Prelude.Tests.{Bool-cases}
use text_to_sql_rag.Prelude.Equality.{Eq, ◌==◌, contains, eq_of_==}
use text_to_sql_rag.Prelude.Lists.{All, all_of, difference, union, subset, contains-append}
use text_to_sql_rag.Prelude.Dicts.{keys, lookup, insert}

module _ {ℓ} {A : Type ℓ} where
  pub all_of-append :
      (p : A → Bool) (xs ys : List A)
      → all_of p xs ≡ true
      → all_of p ys ≡ true
      → all_of p (xs ++ ys) ≡ true
  all_of-append p [] ys h k = k
  all_of-append p (x ∷ xs) ys h k = ground (arith, all_of-append p xs ys)

  all_of_mono :
      (p q : A → Bool) (xs : List A)
      → ((x : A) → p x ≡ true → q x ≡ true)
      → all_of p xs ≡ true
      → all_of q xs ≡ true
  all_of_mono p q [] f h = refl
  all_of_mono p q (x ∷ xs) f h = ground (arith, f x, all_of_mono p q xs f)

  module _ (fresh : A → List A → Bool) where
    -- The second list is the first and, behind it, items that are fresh for the first.
    pub record Extends (xs ys : List A) : Type ℓ where
      pub extra : List A
      pub grown : ys ≡ xs ++ extra
      pub new : all_of (λ x. fresh x xs) extra ≡ true

    pub Extends_refl : (xs : List A) → Extends xs xs
    Extends_refl xs = record { extra = []; grown = sym (append-nil xs); new = refl }

    module _ (less : (x : A) (xs ys : List A) → fresh x (xs ++ ys) ≡ true → fresh x xs ≡ true) where
      pub Extends_trans : (xs ys zs : List A) → Extends xs ys → Extends ys zs → Extends xs zs
      Extends_trans xs ys zs a b = record {
        extra = a.extra ++ b.extra;
        grown = b.grown ∙ ap (λ r. r ++ b.extra) a.grown ∙ append_assoc xs a.extra b.extra;
        new =
            all_of-append (λ x. fresh x xs) a.extra b.extra a.new
              (all_of_mono (λ x. fresh x ys) (λ x. fresh x xs) b.extra
                (λ x f. less x xs a.extra (subst (λ r. fresh x r ≡ true) a.grown f)) b.new);
      }

    all_of-tail :
        (xs us vs : List A)
        → all_of (λ y. not (fresh y xs)) (us ++ vs) ≡ true
        → all_of (λ y. not (fresh y xs)) vs ≡ true
    all_of-tail xs [] vs h = h
    all_of-tail xs (u ∷ us) vs h = all_of-tail xs us vs (ground arith)

    nothing_new :
        (xs zs : List A)
        → all_of (λ x. fresh x xs) zs ≡ true
        → all_of (λ y. not (fresh y xs)) zs ≡ true
        → zs ≡ []
    nothing_new xs [] h k = refl
    nothing_new xs (z ∷ zs) h k = ground arith

    -- A list that grew by nothing that is fresh did not grow.
    pub Extends_stale :
        (xs ys : List A) → Extends xs ys → all_of (λ y. not (fresh y xs)) ys ≡ true → xs ≡ ys
    Extends_stale xs ys e stale =
        let no_extra : e.extra ≡ [] = nothing_new xs e.extra e.new (
          all_of-tail xs xs e.extra
            (subst (λ r. all_of (λ y. not (fresh y xs)) r ≡ true) e.grown stale)) in
        sym (e.grown ∙ ap (λ r. xs ++ r) no_extra ∙ append-nil xs)

-- A set that a union grows.
module _ {ℓ} {A : Type ℓ} ⦃e : Eq A⦄ where
  abbrev pub is_new : A → List A → Bool
  is_new x xs = not (contains x xs)

  pub is_new_less : (x : A) (xs ys : List A) → is_new x (xs ++ ys) ≡ true → is_new x xs ≡ true
  is_new_less x xs ys h = ground (arith, contains-append x xs ys)

  all_of-difference : (ys xs : List A) → all_of (λ x. is_new x xs) (difference ys xs) ≡ true
  all_of-difference [] xs = refl
  all_of-difference (y ∷ ys) xs = ground (arith, all_of-difference ys xs)

  pub Extends_union : (xs ys : List A) → Extends is_new xs (union xs ys)
  Extends_union xs ys = record {
    extra = difference ys xs;
    grown = refl;
    new = all_of-difference ys xs;
  }

  pub Extends_subset : (xs ys : List A) → Extends is_new xs ys → subset ys xs ≡ true → xs ≡ ys
  Extends_subset xs ys g s =
      Extends_stale is_new xs ys g
        (all_of_mono (λ y. contains y xs) (λ y. not (is_new y xs)) ys (λ y m. ground arith) s)

-- A dict that grows by keys that it does not have.
module _ {ℓ κ} {K : Type ℓ} {V : Type κ} ⦃e : Eq K⦄ where
  abbrev pub is_new_key : K × V → List (K × V) → Bool
  is_new_key p d = not (contains p.0 (keys d))

  contains-keys-append :
      (k : K) (d d' : List (K × V))
      → contains k (keys (d ++ d')) ≡ (contains k (keys d) || contains k (keys d'))
  contains-keys-append k [] d' = refl
  contains-keys-append k (p ∷ d) d' = ground (arith, contains-keys-append k d d')

  pub is_new_key_less :
      (p : K × V) (d d' : List (K × V)) → is_new_key p (d ++ d') ≡ true → is_new_key p d ≡ true
  is_new_key_less p d d' h = ground (arith, contains-keys-append p.0 d d')

  insert_new :
      (k : K) (v : V) (d : List (K × V))
      → contains k (keys d) ≡ false
      → insert k v d ≡ d ++ (k, v) ∷ []
  unfolding insert
  insert_new k v [] h = refl
  insert_new k v ((j, w) ∷ d) h = ground (arith, insert_new k v d)

  pub Extends_insert :
      (k : K) (v : V) (d : List (K × V))
      → contains k (keys d) ≡ false
      → Extends is_new_key d (insert k v d)
  Extends_insert k v d h = record {
    extra = (k, v) ∷ [];
    grown = insert_new k v d h;
    new = rw h refl;
  }

  keys-subset_stale :
      (d d' : List (K × V))
      → subset (keys d) (keys d') ≡ true
      → all_of (λ p. not (is_new_key p d')) d ≡ true
  keys-subset_stale [] d' h = refl
  keys-subset_stale (p ∷ d) d' h = ground (arith, keys-subset_stale d d')

  pub Extends_keys :
      (d d' : List (K × V)) → Extends is_new_key d d' → subset (keys d') (keys d) ≡ true → d ≡ d'
  Extends_keys d d' g s = Extends_stale is_new_key d d' g (keys-subset_stale d' d s)

  lookup-append :
      (k : K) (v : V) (d d' : List (K × V)) → lookup k d ≡ some v → lookup k (d ++ d') ≡ some v
  unfolding lookup
  lookup-append k v [] d' h = cc
  lookup-append k v ((j, w) ∷ d) d' h = ground (arith, lookup-append k v d d')

  -- What a key had it keeps.
  pub lookup-Extends :
      (k : K) (v : V) (d d' : List (K × V))
      → Extends is_new_key d d'
      → lookup k d ≡ some v
      → lookup k d' ≡ some v
  lookup-Extends k v d d' g h =
      subst (λ r. lookup k r ≡ some v) (sym g.grown) (lookup-append k v d g.extra h)

pub All-insert {ℓ κ μ} :
    {K : Type ℓ} {V : Type κ} ⦃e : Eq K⦄ (P : K × V → Type μ) (k : K) (v : V) (d : List (K × V))
    → P (k, v)
    → All P d
    → All P (insert k v d)
unfolding insert
All-insert P k v [] h hs = (h, tt)
All-insert P k v ((j, w) ∷ d) h hs = elim (Bool-cases (k == j)) [
  | inl same ↦ rw same (h, hs.1)
  | inr other ↦ rw other (hs.0, All-insert P k v d h hs.1)
]

pub All-elim {ℓ κ} :
    {A : Type ℓ} ⦃e : Eq A⦄ (P : A → Type κ) (a : A) (xs : List A)
    → All P xs
    → contains a xs ≡ true
    → P a
All-elim P a [] h m = cc
All-elim P a (x ∷ xs) h m = elim (Bool-cases (a == x)) [
  | inl same ↦ subst P (sym (eq_of_== a x same)) h.0
  | inr other ↦ All-elim P a xs h.1 (ground arith)
]

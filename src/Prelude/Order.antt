-- ===== src/Prelude/Order.antt =====
-- Python's `<` on sequences, and the laws of a strict total order.
use mathlib.Core.Path.{◌≡◌, refl}
use mathlib.Core.Logic.{inl, inr}
use mathlib.Core.Bool.{Bool, true, false}
use mathlib.Core.List.{List, [], ◌∷◌}
use native.Mathlib.Omega.{arith}
use text_to_sql_rag.Prelude.Tests.{ltb, if◌then◌else◌, Bool-cases}
use text_to_sql_rag.Prelude.Equality.{Eq, ◌==◌, list_eq, nat_eq}
use text_to_sql_rag.Prelude.Texts.{Text}

-- The items are compared at the first place where they differ, and a prefix is below.
unfoldable pub lex_lt {ℓ} : {A : Type ℓ} ⦃e : Eq A⦄ → (A → A → Bool) → List A → List A → Bool
lex_lt lt s [] = false
lex_lt lt [] (c ∷ t) = true
lex_lt lt (a ∷ s) (c ∷ t) = let rest = lex_lt lt s t in if a == c then rest else lt a c

pub record IsStrictTotal {ℓ} {A : Type ℓ} (lt : A → A → Bool) : Type ℓ where
  pub irrefl : (a : A) → lt a a ≡ false
  pub trans : (a b c : A) → lt a b ≡ true → lt b c ≡ true → lt a c ≡ true
  pub connected : (a b : A) → lt a b ≡ false → lt b a ≡ false → a ≡ b

-- What sorting needs: a test that is false both ways links items of the same rank.
pub record IsWeakOrder {ℓ} {A : Type ℓ} (lt : A → A → Bool) : Type ℓ where
  pub asym : (a b : A) → lt a b ≡ true → lt b a ≡ false
  pub not_trans : (a b c : A) → lt a b ≡ false → lt b c ≡ false → lt a c ≡ false

pub ltb-IsStrictTotal : IsStrictTotal ltb
ltb-IsStrictTotal = record {
  irrefl = λ a. ground arith;
  trans = λ a b c h k. ground arith;
  connected = λ a b h k. ground arith;
}

module _ {ℓ} {A : Type ℓ} ⦃e : Eq A⦄ (lt : A → A → Bool) (o : IsStrictTotal lt) where
  lex_irrefl : (s : List A) → lex_lt lt s s ≡ false
  unfolding lex_lt
  lex_irrefl [] = refl
  lex_irrefl (a ∷ s) = ground (arith, lex_irrefl s)

  lex_trans : (r s t : List A) → lex_lt lt r s ≡ true → lex_lt lt s t ≡ true → lex_lt lt r t ≡ true
  unfolding lex_lt
  lex_trans r s [] h k = cc
  lex_trans r [] (c ∷ t) h k = cc
  lex_trans [] (b ∷ s) (c ∷ t) h k = refl
  lex_trans (a ∷ r) (b ∷ s) (c ∷ t) h k =
      ground (arith, lex_trans r s t, o.trans a b c, o.irrefl a, o.irrefl b, o.trans a b a)

  lex_connected : (s t : List A) → lex_lt lt s t ≡ false → lex_lt lt t s ≡ false → s ≡ t
  unfolding lex_lt
  lex_connected [] [] h k = refl
  lex_connected [] (c ∷ t) h k = cc
  lex_connected (a ∷ s) [] h k = cc
  lex_connected (a ∷ s) (c ∷ t) h k = ground (arith, lex_connected s t, o.connected a c)

  pub lex_lt-IsStrictTotal : IsStrictTotal (lex_lt lt)
  lex_lt-IsStrictTotal = record {
    irrefl = lex_irrefl;
    trans = lex_trans;
    connected = lex_connected;
  }

module _ {ℓ} {A : Type ℓ} (lt : A → A → Bool) (o : IsStrictTotal lt) where
  total_asym : (a b : A) → lt a b ≡ true → lt b a ≡ false
  total_asym a b h = ground (arith, o.trans a b a, o.irrefl a)

  total_not_trans : (a b c : A) → lt a b ≡ false → lt b c ≡ false → lt a c ≡ false
  total_not_trans a b c h k = elim (Bool-cases (lt b a)) [
    | inl below ↦ ground (arith, o.trans b a c)
    | inr same ↦ let e = o.connected a b h same in rw e k
  ]

  pub total-IsWeakOrder : IsWeakOrder lt
  total-IsWeakOrder = record { asym = total_asym; not_trans = total_not_trans }

unfoldable pub text_lt : Text → Text → Bool
unfolding lex_lt
text_lt = lex_lt ltb

pub text_lt-IsStrictTotal : IsStrictTotal text_lt
unfolding text_lt
text_lt-IsStrictTotal = lex_lt-IsStrictTotal ltb ltb-IsStrictTotal

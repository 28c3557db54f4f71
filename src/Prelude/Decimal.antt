-- ===== src/Prelude/Decimal.antt =====
-- `str(n)` of a number, and reading it back with `int`.
use Prim.Native.Nat.{ℕ, zero, suc, ◌+◌, ◌-◌, ◌*◌, ◌/◌, ◌%◌, ◌<◌}
use mathlib.Core.Path.{◌≡◌, refl}
use mathlib.Core.Bool.{true, false, ◌&&◌}
use mathlib.Core.Logic.{inl, inr}
use mathlib.Core.List.{[], ◌∷◌, ◌++◌}
use native.Mathlib.Omega.{arith}
use text_to_sql_rag.Prelude.Tests.{ltb, if◌then◌else◌, Bool-cases}
use text_to_sql_rag.Prelude.Equality.{contains, nat_eq}
use text_to_sql_rag.Prelude.Lists.{all_of}
use text_to_sql_rag.Prelude.Texts.{Text, isdigit, is_digit, int_from}

-- With one more round than the number there are enough rounds.
digits : ℕ → ℕ → Text
digits zero n = []
digits (suc rounds) n =
    let more = digits rounds (n / 10) ++ (48 + n % 10) ∷ [] in
    if ltb n 10 then (48 + n) ∷ [] else more

unfoldable pub decimal : ℕ → Text
unfolding digits
decimal n = digits (suc n) n

int_from-snoc : (m : ℕ) (s : Text) (c : ℕ) → int_from m (s ++ c ∷ []) ≡ int_from m s * 10 + (c - 48)
unfolding int_from
int_from-snoc m [] c = refl
int_from-snoc m (d ∷ s) c = int_from-snoc (m * 10 + (d - 48)) s c

int_from-digits : (rounds n : ℕ) → n < rounds → int_from 0 (digits rounds n) ≡ n
unfolding digits int_from
int_from-digits zero n h = elim h [ ]
int_from-digits (suc rounds) n h = elim (Bool-cases (ltb n 10)) [
  | inl small ↦ rw small (omega arith)
  | inr large ↦
      rw (large, int_from-snoc, int_from-digits rounds (n / 10) (ground arith)) (omega arith)
]

-- Reading a printed number gives it back.
pub int_from-decimal : (n : ℕ) → int_from 0 (decimal n) ≡ n
unfolding decimal
int_from-decimal n = int_from-digits (suc n) n (omega arith)

all_of-append : (s t : Text) → all_of is_digit (s ++ t) ≡ (all_of is_digit s && all_of is_digit t)
all_of-append [] t = refl
all_of-append (c ∷ s) t = ground (arith, all_of-append s t)

all_of-digits : (rounds n : ℕ) → all_of is_digit (digits rounds n) ≡ true
unfolding digits
all_of-digits zero n = refl
all_of-digits (suc rounds) n = ground (
  arith,
  all_of-append (digits rounds (n / 10)) ((48 + n % 10) ∷ []),
  all_of-digits rounds (n / 10),
)

isdigit-snoc :
    (s : Text) (c : ℕ) → all_of is_digit (s ++ c ∷ []) ≡ true → isdigit (s ++ c ∷ []) ≡ true
unfolding isdigit
isdigit-snoc [] c h = h
isdigit-snoc (d ∷ s) c h = h

pub isdigit-decimal : (n : ℕ) → isdigit (decimal n) ≡ true
unfolding decimal digits
isdigit-decimal n = elim (Bool-cases (ltb n 10)) [
  | inl small ↦ rw small (isdigit-snoc [] (48 + n) (ground arith))
  | inr large ↦
      rw large
        (isdigit-snoc (digits n (n / 10)) (48 + n % 10) (rw large at (all_of-digits (suc n) n)))
]

-- A separator that is no digit does not occur in a printed number.
not-contains_digits :
    (c : ℕ) (s : Text) → is_digit c ≡ false → all_of is_digit s ≡ true → contains c s ≡ false
not-contains_digits c [] h a = refl
not-contains_digits c (d ∷ s) h a = ground (arith, not-contains_digits c s h)

pub not-contains-decimal : (c n : ℕ) → is_digit c ≡ false → contains c (decimal n) ≡ false
unfolding decimal
not-contains-decimal c n h = not-contains_digits c _ h (all_of-digits (suc n) n)

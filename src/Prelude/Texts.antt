-- ===== src/Prelude/Texts.antt =====
-- Python's `str`: the list of its code points, with the methods that the source calls.
use Prim.Native.Nat.{ℕ, ◌+◌, ◌-◌, ◌*◌}
use Prim.Native.Char.{code}
use Prim.Native.String.{String}
use mathlib.Core.Path.{◌≡◌, refl, ap, ◌∙◌}
use mathlib.Core.Bool.{Bool, true, false, ◌&&◌, ◌||◌}
use mathlib.Core.Logic.{inl, inr}
use mathlib.Core.Option.{Option, none, some}
use mathlib.Core.List.{List, [], ◌∷◌, ◌++◌, map}
use native.Mathlib.Omega.{arith}
use text_to_sql_rag.Prelude.Tests.{leb, if◌then◌else◌, Bool-cases, Option-cases}
use text_to_sql_rag.Prelude.Equality.{◌==◌, contains, eq_of_==, nat_eq, list_eq}
use text_to_sql_rag.Prelude.Lists.{length, take, length-append, all_of, take-length-append}

abbrev pub Text : Type 0
Text = List ℕ

abbrev pub text : String → Text
text String.[] = []
text (String.◌∷◌ c s) = code c ∷ text s

unfoldable pub starts_with : Text → Text → Bool
starts_with s [] = true
starts_with [] (c ∷ p) = false
starts_with (a ∷ s) (c ∷ p) = a == c && starts_with s p

unfoldable pub ends_with : Text → Text → Bool
ends_with [] p = [] == p
ends_with (c ∷ s) p = (c ∷ s) == p || ends_with s p

-- `s[:-n]`, for a positive n.
abbrev pub drop_last : ℕ → Text → Text
drop_last n s = take (length s - n) s

-- The parts before and after the last separator: `none` where `rpartition` finds no separator.
unfoldable pub rpartition : ℕ → Text → Option (Text × Text)
rpartition c [] = none
rpartition c (x ∷ s) = elim (rpartition c s) [
  | some (before, after) ↦ some (x ∷ before, after)
  | none ↦ if x == c then some ([], s) else none
]

-- The part before the first separator, or all of the text: `s.split(c)[0]`.
unfoldable pub split_first : ℕ → Text → Text
split_first c [] = []
split_first c (x ∷ s) = let rest = split_first c s in if x == c then [] else x ∷ rest

abbrev pub is_digit : ℕ → Bool
is_digit c = leb b'0' c && leb c b'9'

-- `str.isdigit`, on ASCII: false of the empty text.
unfoldable pub isdigit : Text → Bool
isdigit [] = false
isdigit (c ∷ s) = all_of is_digit (c ∷ s)

-- `int(s)`, for a text of decimal digits.
unfoldable pub int_from : ℕ → Text → ℕ
int_from n [] = n
int_from n (c ∷ s) = int_from (n * 10 + (c - 48)) s

-- `str.lower`, on ASCII.
abbrev pub lower : Text → Text
lower s = map (λ c. if leb b'A' c && leb c b'Z' then c + 32 else c) s

-- `str.strip`: the ASCII white space at both ends.
abbrev pub is_space : ℕ → Bool
is_space c = c == 32 || (leb 9 c && leb c 13)

unfoldable pub lstrip : Text → Text
lstrip [] = []
lstrip (c ∷ s) = let rest = lstrip s in if is_space c then rest else c ∷ s

unfoldable pub rstrip : Text → Text
rstrip [] = []
rstrip (c ∷ s) = elim (rstrip s) [ [] ↦ if is_space c then [] else c ∷ [] | d ∷ r ↦ c ∷ d ∷ r ]

unfoldable pub strip : Text → Text
unfolding lstrip rstrip
strip s = rstrip (lstrip s)

pub starts_with-append : (p s : Text) → starts_with (p ++ s) p ≡ true
unfolding starts_with
starts_with-append [] s = refl
starts_with-append (c ∷ p) s = ground (arith, starts_with-append p s)

-- A prefix is what some rest completes.
pub starts_with_split : (s p : Text) → starts_with s p ≡ true → (r : Text) × (s ≡ p ++ r)
unfolding starts_with
starts_with_split s [] h = (s, refl)
starts_with_split [] (c ∷ p) h = cc
starts_with_split (a ∷ s) (c ∷ p) h =
    let same : a ≡ c = ground arith in let (r, e) = starts_with_split s p (ground arith) in (r, cc)

pub ends_with-append : (s p : Text) → ends_with (s ++ p) p ≡ true
unfolding ends_with
ends_with-append [] [] = ground arith
ends_with-append [] (c ∷ p) = ground arith
ends_with-append (c ∷ s) p = ground (arith, ends_with-append s p)

pub ends_with_split : (s p : Text) → ends_with s p ≡ true → (r : Text) × (s ≡ r ++ p)
unfolding ends_with
ends_with_split [] p h = ([], ground arith)
ends_with_split (c ∷ s) p h = elim (Bool-cases ((c ∷ s) == p)) [
  | inl whole ↦ ([], eq_of_== (c ∷ s) p whole)
  | inr other ↦ let (r, e) = ends_with_split s p (ground arith) in (c ∷ r, ap (λ t. c ∷ t) e)
]

pub drop_last-append : (s p : Text) → drop_last (length p) (s ++ p) ≡ s
drop_last-append s p =
    ap (λ (n : ℕ). take n (s ++ p)) (omega (arith, length-append s p)) ∙ take-length-append s p

rpartition_absent : (c : ℕ) (s : Text) → contains c s ≡ false → rpartition c s ≡ none
unfolding rpartition
rpartition_absent c [] h = refl
rpartition_absent c (x ∷ s) h = ground (arith, rpartition_absent c s)

-- With no separator in the last part, `rpartition` splits there.
pub rpartition-append :
    (c : ℕ) (before after : Text)
    → contains c after ≡ false
    → rpartition c (before ++ c ∷ after) ≡ some (before, after)
unfolding rpartition
rpartition-append c [] after h = ground (arith, rpartition_absent c after h)
rpartition-append c (x ∷ before) after h = ground (arith, rpartition-append c before after h)

rpartition-eq-none : (c : ℕ) (s : Text) → rpartition c s ≡ none → contains c s ≡ false
unfolding rpartition
rpartition-eq-none c [] h = refl
rpartition-eq-none c (x ∷ s) h = ground (arith, rpartition-eq-none c s)

-- What `rpartition` returns puts the text together again, and the last part has no separator.
pub rpartition_split :
    (c : ℕ) (s : Text) {before after : Text}
    → rpartition c s ≡ some (before, after)
    → (s ≡ before ++ c ∷ after) × (contains c after ≡ false)
unfolding rpartition
rpartition_split c [] h = cc
rpartition_split c (x ∷ s) {before} {after} h = elim (Option-cases (rpartition c s)) [
  | inr (parts, e) ↦ ground (arith, rpartition_split c s {before = parts.0} {after = parts.1} e)
  | inl absent ↦ ground (arith, rpartition-eq-none c s absent)
]

-- What a test of code over texts has to compute with.
unfoldable pub text_code : Unit {0}
unfolding starts_with ends_with rpartition split_first isdigit int_from lstrip rstrip nat_eq list_eq
text_code = tt

-- `str.upper`, on ASCII.
abbrev pub upper : Text → Text
upper s = map (λ c. if leb b'a' c && leb c b'z' then c - 32 else c) s

-- `p in s`
unfoldable pub has_text : Text → Text → Bool
unfolding starts_with
has_text [] p = starts_with [] p
has_text (c ∷ s) p = starts_with (c ∷ s) p || has_text s p

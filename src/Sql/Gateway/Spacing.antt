-- ===== src/Sql/Gateway/Spacing.antt =====
-- The text that app/sql/gateway.py hashes, by an independent description: one pass that leaves out white space.
use text_to_sql_rag.Prelude.{
  ℕ, ◌≡◌, refl, sym, ap, ◌∙◌, Bool, true, false, ◌&&◌, List, [], ◌∷◌, ◌++◌, append-nil, Text,
  Bool-cases, inl, inr, if◌then◌else◌, list_eq, nat_eq,
}
use text_to_sql_rag.Sql.Gateway.{is_blank, reversed, split_words, join_words}

-- A text with one space in place of each stretch of white space between words and none at its ends: `started` tells
-- whether a word came before, and `gap` whether white space came since.
unfoldable pub squeezed_after : (started gap : Bool) → Text → Text
squeezed_after started gap [] = []
squeezed_after started gap (c ∷ s) =
    let blank = squeezed_after started true s in
    let word = c ∷ squeezed_after true false s in
    if is_blank c then blank else if started && gap then 32 ∷ word else word

abbrev pub squeezed : Text → Text
squeezed s = squeezed_after false false s

-- What stands behind a word.
abbrev joined_after : List Text → Text
joined_after [] = []
joined_after (w ∷ ws) = 32 ∷ join_words (w ∷ ws)

join_words-joined_after : (w : Text) (ws : List Text) → join_words (w ∷ ws) ≡ w ++ joined_after ws
unfolding join_words
join_words-joined_after w [] = sym (append-nil w)
join_words-joined_after w (v ∷ vs) = refl

reversed-append : (u onto t : Text) → reversed u onto ++ t ≡ reversed u (onto ++ t)
unfolding reversed
reversed-append [] onto t = refl
reversed-append (c ∷ u) onto t = reversed-append u (c ∷ onto) t

moved :
    (u : Text) (d : ℕ) (s : Text)
    → reversed (d ∷ u) [] ++ squeezed_after true false s
      ≡ reversed u [] ++ d ∷ squeezed_after true false s
unfolding reversed
moved u d s =
    reversed-append u (d ∷ []) (squeezed_after true false s)
    ∙ sym (reversed-append u [] (d ∷ squeezed_after true false s))

-- The words of a text, with and without a word before them.
record IsSpaced (s : Text) : Type 0 where
  first : (gap : Bool) → join_words (split_words [] s) ≡ squeezed_after false gap s
  later : joined_after (split_words [] s) ≡ squeezed_after true true s
  inside :
      (c : ℕ) (w : Text)
      → join_words (split_words (c ∷ w) s) ≡ reversed (c ∷ w) [] ++ squeezed_after true false s
  inside_later :
      (c : ℕ) (w : Text)
      → joined_after (split_words (c ∷ w) s)
        ≡ 32 ∷ (reversed (c ∷ w) [] ++ squeezed_after true false s)

split_words-IsSpaced : (s : Text) → IsSpaced s
unfolding split_words join_words squeezed_after reversed
split_words-IsSpaced [] = record {
  first = λ gap. refl;
  later = refl;
  inside = λ c w. sym (append-nil (reversed (c ∷ w) []));
  inside_later = λ c w. ap (λ t. 32 ∷ t) (sym (append-nil (reversed (c ∷ w) [])));
}
split_words-IsSpaced (d ∷ s) =
    let rest = split_words-IsSpaced s in
    elim (Bool-cases (is_blank d)) [
      | inl blank ↦ record {
        first = λ gap. rw blank (rest.first true);
        later = rw blank rest.later;
        inside = λ c w. rw blank (
            join_words-joined_after (reversed (c ∷ w) []) (split_words [] s)
            ∙ ap (λ t. reversed (c ∷ w) [] ++ t) rest.later);
        inside_later = λ c w. rw blank (
            ap (λ t. 32 ∷ t)
              (join_words-joined_after (reversed (c ∷ w) []) (split_words [] s)
                ∙ ap (λ t. reversed (c ∷ w) [] ++ t) rest.later));
      }
      | inr other ↦ record {
        first = λ gap. rw other (rest.inside d []);
        later = rw other (rest.inside_later d []);
        inside = λ c w. rw other (rest.inside d (c ∷ w) ∙ moved (c ∷ w) d s);
        inside_later =
            λ c w. rw other (rest.inside_later d (c ∷ w) ∙ ap (λ t. 32 ∷ t) (moved (c ∷ w) d s));
      }
    ]

pub join_words-squeezed : (s : Text) → join_words (split_words [] s) ≡ squeezed s
join_words-squeezed s = (split_words-IsSpaced s).first false

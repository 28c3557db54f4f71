-- ===== src/Contracts/Ids/Laws.antt =====
-- Round trips of references and of the ids of columns.
use text_to_sql_rag.Prelude.{
  ◌≡◌, ◌≢◌, refl, true, false, [], ◌∷◌, ◌++◌, arith, Text, contains, list_eq, nat_eq, rpartition,
  decimal, leb, rpartition-append, rpartition_split, isdigit-decimal, int_from-decimal,
  not-contains-decimal, Option-cases, inl, inr,
}
use text_to_sql_rag.Contracts.Errors.{ok}
use text_to_sql_rag.Contracts.Ids.{Ref, parse, show_ref, is_object_id, table_id_of}

-- Parsing the text of a well-formed reference gives the reference back.
pub parse-show_ref :
    (r : Ref) → is_object_id r.id ≡ true → leb 1 r.version ≡ true → parse (show_ref r) ≡ ok r
unfolding parse show_ref
parse-show_ref r formed positive = ground (
  arith,
  rpartition-append b'@' r.id (decimal r.version) (not-contains-decimal b'@' r.version refl),
  isdigit-decimal r.version,
  int_from-decimal r.version,
)

-- Whatever text parses, the result is a well-formed reference with a version of at least 1.
pub parse-formed :
    (s : Text) (r : Ref) → parse s ≡ ok r → (is_object_id r.id ≡ true) × (leb 1 r.version ≡ true)
unfolding parse
parse-formed s r h = ground arith

-- The parent of an id is what stands before its last dot, and an id without a parent is refused.
pub table_id_of_lem :
    (parent leaf : Text)
    → parent ≢ []
    → contains b'.' leaf ≡ false
    → table_id_of (parent ++ b'.' ∷ leaf) ≡ ok parent
unfolding table_id_of
table_id_of_lem parent leaf present last = ground (arith, rpartition-append b'.' parent leaf last)

pub table_id_of_inv :
    (c parent : Text)
    → table_id_of c ≡ ok parent
    → (leaf : Text) × (c ≡ parent ++ b'.' ∷ leaf) × (contains b'.' leaf ≡ false)
unfolding table_id_of
table_id_of_inv c parent h = elim (Option-cases (rpartition b'.' c)) [
  | inl absent ↦ absurd (ground arith)
  | inr (parts, e) ↦
      let (joined, last) = rpartition_split b'.' c {before = parts.0} {after = parts.1} e in
      (parts.1, ground arith, last)
]

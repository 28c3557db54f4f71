-- ===== src/Contracts/Ids.antt =====
-- app/contracts/ids.py: pinned references and parent tables.
pub mod Laws
use text_to_sql_rag.Prelude.{
  ℕ, ◌≡◌, refl, Bool, true, false, Option, none, some, List, [], ◌∷◌, ◌++◌, ◌&&◌, ◌||◌, arith, Text,
  text, contains, ◌==◌, list_eq, nat_eq, rpartition, isdigit, int_from, leb, length, all_of,
  if◌then◌else◌, decimal,
}
use text_to_sql_rag.Contracts.Errors.{Result, ok, err, value_error, ◌>>=◌, ◌>>◌}

pub data ObjectType : Type 0 where
  domain table column metric dimension rule relationship glossary value_set : ObjectType

pub data PublicationStatus : Type 0 where
  draft approved retired : PublicationStatus

pub record Ref : Type 0 where
  pub id : Text
  pub version : ℕ

-- `^[a-z][a-z0-9_]*(\.[a-z][a-z0-9_]*)+$`. The state says what stands before: the start of a
-- segment, or the inside of one, and whether a dot was read.
is_start : ℕ → Bool
is_start c = leb b'a' c && leb c b'z'

is_inner : ℕ → Bool
is_inner c = is_start c || (leb b'0' c && leb c b'9') || c == b'_'

mutual
  at_start : Bool → Text → Bool
  at_start dotted [] = false
  at_start dotted (c ∷ s) = let rest = inside dotted s in if is_start c then rest else false

  inside : Bool → Text → Bool
  inside dotted [] = dotted
  inside dotted (c ∷ s) =
      let rest = inside dotted s in
      let segment = at_start true s in
      if is_inner c then rest else if c == b'.' then segment else false

-- The constraints of `ObjectId`.
unfoldable pub is_object_id : Text → Bool
unfolding at_start is_start is_inner
is_object_id s = at_start false s && leb 3 (length s) && leb (length s) 200

is_snapshot_char : ℕ → Bool
is_snapshot_char c = (leb b'a' c && leb c b'z') || (leb b'0' c && leb c b'9')

-- `^[a-z0-9][a-z0-9\-]{2,63}$`
unfoldable pub is_snapshot_id : Text → Bool
unfolding is_snapshot_char
is_snapshot_id [] = false
is_snapshot_id (c ∷ s) =
    is_snapshot_char c
    && all_of (λ d. is_snapshot_char d || d == b'-') s
    && leb 2 (length s)
    && leb (length s) 63

-- `Ref(id=..., version=...)`, whose constraints pydantic checks.
unfoldable pub make_ref : Text → ℕ → Result Ref
make_ref id version =
    if is_object_id id && leb 1 version
    then ok (record { id = id; version = version })
    else err value_error

unfoldable pub parse : Text → Result Ref
unfolding make_ref
parse s = elim (rpartition b'@' s) [
  | none ↦ err value_error
  | some (obj_id, version) ↦
      if isdigit version then make_ref obj_id (int_from 0 version) else err value_error
]

-- The parent table of a column.
unfoldable pub table_id_of : Text → Result Text
table_id_of column_id = elim (rpartition b'.' column_id) [
  | none ↦ err value_error
  | some (parent, _) ↦ if parent == [] then err value_error else ok parent
]

-- `[A-Za-z_][A-Za-z0-9_]*`, the names that reach the compiler.
is_name_start : ℕ → Bool
is_name_start c = (leb b'A' c && leb c b'Z') || (leb b'a' c && leb c b'z') || c == b'_'

unfoldable pub is_safe_identifier : Text → Bool
unfolding is_name_start
is_safe_identifier [] = false
is_safe_identifier (c ∷ s) =
    is_name_start c && all_of (λ d. is_name_start d || (leb b'0' d && leb d b'9')) s

pub record QualifiedName : Type 0 where
  pub database : Text
  pub schema_name : Text
  pub name : Text

-- `str(qualified_name)`
unfoldable pub show_name : QualifiedName → Text
show_name q = q.database ++ (b'.' ∷ (q.schema_name ++ (b'.' ∷ q.name)))

-- `str(ref)`
unfoldable pub show_ref : Ref → Text
show_ref r = r.id ++ b'@' ∷ decimal r.version

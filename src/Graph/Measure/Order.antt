-- ===== src/Graph/Measure/Order.antt =====
-- The measure of a state of app/graph/build.py, which every move of the graph lowers.
use text_to_sql_rag.Prelude.{
  ℕ, ◌+◌, ◌-◌, ◌*◌, ◌≤◌, ◌<◌, ◌≡◌, ap, Bool, true, false, not, Option, none, some, List, [], ◌∷◌,
  ◌++◌, arith, Text, list_eq, nat_eq, contains, contains-append, select, length, leb, if◌then◌else◌,
}
use text_to_sql_rag.Contracts.Errors.{
  Result, ok, err, raised, value_error, key_error, index_error, out_of_fuel, reason_code_eq,
  ok-injective, Ensures,
}
use text_to_sql_rag.Contracts.Clarification.{ClarificationRequest}
use text_to_sql_rag.Planning.Clarify.Laws.{slots, IsNewSlot}
use text_to_sql_rag.Graph.State.{GraphState, max_retrieval_rounds}
use text_to_sql_rag.Graph.Nodes.{returned, catch, required}
use text_to_sql_rag.Graph.Build.{
  Node, at_admit, at_understand, at_retrieve, at_expand, at_propose, at_clarify, at_repair,
  at_bind_compile, at_execute, at_definition, at_metadata, at_stop, at_end, next,
}

abbrev pub is_unasked : List Text → Text → Bool
is_unasked asked slot = not (contains slot asked)

-- The slots that the user can still be asked about.
unfoldable pub unasked : List Text → ℕ
unasked asked = length (select (is_unasked asked) slots)

fewer_or_same :
    (asked : List Text) (slot : Text) (xs : List Text)
    → length (select (is_unasked (asked ++ slot ∷ [])) xs) ≤ length (select (is_unasked asked) xs)
fewer_or_same asked slot [] = omega arith
fewer_or_same asked slot (x ∷ xs) =
    ground (arith, fewer_or_same asked slot xs, contains-append x asked (slot ∷ []))

pub fewer :
    (asked : List Text) (slot : Text) (xs : List Text)
    → contains slot xs ≡ true
    → contains slot asked ≡ false
    → length (select (is_unasked (asked ++ slot ∷ [])) xs) < length (select (is_unasked asked) xs)
fewer asked slot [] m n = cc
fewer asked slot (x ∷ xs) m n =
    ground
      (arith, fewer asked slot xs, fewer_or_same asked slot xs, contains-append x asked (slot ∷ []))

-- What is left of the retrieval rounds and of the repairs, and the place of a node between them.
abbrev rounds_left : ℕ → ℕ
rounds_left rounds = 20 * (3 - rounds)

abbrev expansion_left : ℕ → ℕ
expansion_left rounds = if leb rounds max_retrieval_rounds then 20 else 0

abbrev repairs_left : ℕ → ℕ
repairs_left attempts = 4 * (2 - attempts)

abbrev place : Node → (rounds attempts : ℕ) → ℕ
place at_admit rounds attempts = rounds_left rounds + 23
place at_understand rounds attempts = rounds_left rounds + 22
place at_retrieve rounds attempts = rounds_left rounds + 20
place at_expand rounds attempts = rounds_left rounds + 25
place at_propose rounds attempts = rounds_left rounds + (expansion_left rounds + 15)
place at_clarify rounds attempts = 14
place at_bind_compile rounds attempts = repairs_left attempts + 5
place at_repair rounds attempts = repairs_left attempts + 4
place at_execute rounds attempts = 3
place at_definition rounds attempts = 3
place at_metadata rounds attempts = 3
place at_stop rounds attempts = 1
place at_end rounds attempts = 0

abbrev pub measure : Node → GraphState → ℕ
measure node s = 100 * unasked s.clarified_slots + place node s.retrieval_rounds s.repair_attempts

-- The question that waits at `clarify` is about a slot that was not asked before.
abbrev pub Waits : Node → GraphState → Type 0
Waits at_clarify s =
    (q : ClarificationRequest) → s.clarification ≡ some q → IsNewSlot s.clarified_slots q
Waits _ s = Unit

-- Where a node leads to, the measure is below `k`.
abbrev pub Lower : ℕ → Node → GraphState → Type 0
Lower k from s = Ensures (λ node. (measure node s < k) × Waits node s) (next from s)

pub returned_eq : {B : Type 0} (m : Result B) (b : B) → catch m ≡ ok (returned b) → m ≡ ok b
returned_eq (ok a) b h = cc
returned_eq (err (raised class finding)) b h = cc
returned_eq (err value_error) b h = cc
returned_eq (err key_error) b h = cc
returned_eq (err index_error) b h = cc
returned_eq (err out_of_fuel) b h = cc

pub required_eq : {B : Type 0} (o : Option B) (b : B) → required o ≡ ok b → o ≡ some b
required_eq none b h = cc
required_eq (some a) b h = ap some (ok-injective h)

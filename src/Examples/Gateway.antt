-- ===== src/Examples/Gateway.antt =====
-- A query through the gateway. The digest of the examples keeps the text as it is.
use text_to_sql_rag.Prelude.{ℕ, ◌≡◌, refl, false, List, [], ◌∷◌, ◌++◌, arith, Text, text, text_code}
use text_to_sql_rag.Contracts.Errors.{ok}
use text_to_sql_rag.Contracts.Plan.{CompiledQuery}
use text_to_sql_rag.Sql.Gateway.{
  AdmissionTicket, QueryResult, Ledger, Outcome, fetched, canonical_hash, split_words, join_words,
  issue_ticket, verify, admit, find_open, open_job, settle, submit, execute,
}
use text_to_sql_rag.Sql.Gateway.Admission.{verify-issue_ticket}
use text_to_sql_rag.Sql.Gateway.Submissions.{
  IsExclusive, Reachable, Step, Reachable-IsExclusive, IsExecuted, execute-IsExecuted,
}
use text_to_sql_rag.Examples.Data.{scope, orders}

-- Every text behind its length in ones: no two lists of texts give the same.
abbrev marked : Text → Text
marked [] = 0 ∷ []
marked (c ∷ s) = 1 ∷ c ∷ marked s

abbrev marked_all : List Text → Text
marked_all [] = []
marked_all (s ∷ ss) = 2 ∷ marked s ++ marked_all ss

abbrev digest : Text → List Text → Text
digest sql values = marked sql ++ marked_all values

abbrev shown : Text → Text
shown s = s

abbrev query : CompiledQuery Text
query = record {
  plan_id = text "p";
  plan_revision = 1;
  dialect = text "duckdb";
  sql = text "select  1";
  parameter_values = text "t1" ∷ [];
  parameter_order = text "p_tenant" ∷ [];
  referenced_tables = orders ∷ [];
  referenced_columns = [];
}

-- The same query with other white space.
abbrev respaced : CompiledQuery Text
respaced = record query { sql = text " select 1 " }

abbrev ticket : AdmissionTicket
ticket = issue_ticket digest shown query scope 120 1000 (text "tkt")

verify-issue_ticket_example : verify digest shown ticket query scope 1100 ≡ ok tt
verify-issue_ticket_example =
    verify-issue_ticket digest shown query scope 120 1000 1100 (text "tkt") (omega arith)

abbrev run : CompiledQuery Text → ℕ → Outcome Text
run compiled count = fetched (text "a" ∷ []) ((text "1" ∷ []) ∷ [])

abbrev result : QueryResult Text
result = record {
  columns = text "a" ∷ [];
  rows = (text "1" ∷ []) ∷ [];
  row_count = 1;
  truncated = false;
  job_id = text "j";
}

execute-IsExecuted_example : IsExecuted digest shown [] query ticket scope 1100 run result
unfolding text_code execute submit settle admit find_open verify issue_ticket canonical_hash
    split_words join_words
execute-IsExecuted_example =
    execute-IsExecuted digest shown [] query ticket scope 1100 (text "j") run result refl

abbrev submitted_ledger : Ledger
submitted_ledger = open_job [] (text "j") ticket

submitted-Reachable : Reachable digest shown submitted_ledger
unfolding text_code admit find_open verify issue_ticket canonical_hash split_words join_words
submitted-Reachable =
    Reachable.after Reachable.fresh (Step.begins query ticket scope 1100 (text "j") refl)

Reachable-IsExclusive_example : IsExclusive submitted_ledger
Reachable-IsExclusive_example =
    Reachable-IsExclusive digest shown submitted_ledger submitted-Reachable

-- ===== src/Examples/Retrieval.antt =====
-- A search that finds a column twice, a table, and a column that ana may not see.
use text_to_sql_rag.Prelude.{
  ◌≡◌, refl, ◌≤◌, Text, List, [], ◌∷◌, none, some, text, list_eq, nat_eq, text_code, lookup, insert,
}
use text_to_sql_rag.Contracts.Errors.{ok, partial_retrieval, discovery_denied, warn, info, Result}
use text_to_sql_rag.Contracts.Ids.{column, table, is_snapshot_id}
use text_to_sql_rag.Catalog.Service.{lookup_term}
use text_to_sql_rag.Contracts.Retrieval.{Candidate, SearchRequest, SearchResponse, partial}
use text_to_sql_rag.Retrieval.Fusion.{
  cap_per_source, cap_from, count_source, source_in, cap_per_source-bound,
}
use text_to_sql_rag.Retrieval.Service.{RetrievalOutcome, search}
use text_to_sql_rag.Retrieval.Service.Laws.{IsSafe, search-IsSafe}
use text_to_sql_rag.Examples.Data.{orders, customer_id, service, scope, catalog_code}

abbrev a : Text
a = text "a"

abbrev b : Text
b = text "b"

abbrev chunks : List Text
chunks = a ∷ b ∷ a ∷ text "c" ∷ []

abbrev sources : List (Text × Text)
sources = (a, orders) ∷ (b, orders) ∷ []

cap_per_source_test : cap_per_source chunks sources 2 ≡ a ∷ b ∷ text "c" ∷ []
unfolding cap_per_source cap_from text_code lookup insert
cap_per_source_test = refl

cap_per_source-bound_example :
    count_source (source_in sources) orders (cap_per_source chunks sources 2) ≤ 2
cap_per_source-bound_example = cap_per_source-bound chunks sources 2 orders

abbrev found : Candidate
found = record {
  chunk_id = a;
  object_id = customer_id;
  object_type = column;
  table_id = some orders;
  rank = 1;
}

abbrev hidden : Candidate
hidden = record found { chunk_id = b; object_id = text "z.z"; rank = 2 }

abbrev found_table : Candidate
found_table = record found {
  chunk_id = text "c";
  object_id = orders;
  object_type = table;
  table_id = none;
  rank = 3;
}

abbrev provider : SearchRequest → Result SearchResponse
provider request =
    ok (record { candidates = found ∷ hidden ∷ found_table ∷ []; status = partial; findings = [] })

abbrev expected : RetrievalOutcome
expected = record {
  candidates = found ∷ record found_table { rank = 2 } ∷ [];
  exact_matches = [];
  findings =
      record { code = partial_retrieval; severity = warn; subject = none }
      ∷ record { code = discovery_denied; severity = info; subject = none }
      ∷ [];
  status = partial;
}

search_test : search service scope provider (text "customers by month") [] [] 40 ≡ ok expected
unfolding search catalog_code is_snapshot_id lookup_term cap_per_source
search_test = refl

search-IsSafe_example : IsSafe service scope expected
search-IsSafe_example =
    search-IsSafe service scope provider (text "customers by month") [] [] 40 expected search_test

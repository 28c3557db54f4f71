-- ===== src/Contracts/Retrieval.antt =====
-- app/contracts/retrieval.py: a ranked candidate and what a provider answers. Of a candidate the texts are
-- left out, of the diagnostics the counts, and of a request the domains and the deadline, which nothing sets.
use text_to_sql_rag.Prelude.{ℕ, Bool, true, false, ◌&&◌, Option, List, [], ◌∷◌, Text, leb, length}
use text_to_sql_rag.Contracts.Errors.{Finding}
use text_to_sql_rag.Contracts.Ids.{ObjectType, is_object_id, is_snapshot_id}

pub data CompletionStatus : Type 0 where
  complete partial timed_out failed : CompletionStatus

pub record SearchRequest : Type 0 where
  pub search_text : Text
  pub object_types : List ObjectType
  pub table_ids : List Text
  pub candidate_budget : ℕ
  pub snapshot_id : Text

abbrev are_object_ids : List Text → Bool
are_object_ids [] = true
are_object_ids (id ∷ ids) = is_object_id id && are_object_ids ids

-- The constraints on the fields of a request.
abbrev pub request_fields : SearchRequest → Bool
request_fields r =
    leb 1 (length r.search_text)
    && leb (length r.search_text) 4000
    && are_object_ids r.table_ids
    && leb 1 r.candidate_budget
    && leb r.candidate_budget 500
    && is_snapshot_id r.snapshot_id

pub record Candidate : Type 0 where
  pub chunk_id : Text
  pub object_id : Text
  pub object_type : ObjectType
  pub table_id : Option Text
  pub rank : ℕ

pub record SearchResponse : Type 0 where
  pub candidates : List Candidate
  pub status : CompletionStatus
  pub findings : List Finding

-- `is_complete`
abbrev pub is_whole : CompletionStatus → Bool
is_whole complete = true
is_whole _ = false

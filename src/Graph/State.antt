-- ===== src/Graph/State.antt =====
-- app/graph/state.py: the checkpointed state, the artifacts by plan revision and the budgets. A key that
-- is missing reads as the default that its readers give. Of the state the texts that nodes only hand on to
-- people are left out, and so are the rows of the result; of the answer it is kept that there is one.
use text_to_sql_rag.Prelude.{
  ℕ, ◌≡◌, Bool, false, not, Option, none, some, List, [], ◌∷◌, arith, Text, ◌==◌, nat_eq, lookup,
  insert, lookup-insert, select, leb, if◌then◌else◌,
}
use text_to_sql_rag.Contracts.Errors.{Result, ok, err, key_error, ReasonCode}
use text_to_sql_rag.Contracts.Plan.{SemanticRequest}
use text_to_sql_rag.Contracts.Clarification.{ClarificationRequest, ClarificationAnswer}
use text_to_sql_rag.Contracts.Retrieval.{Candidate}

pub data Route : Type 0 where
  sql definition metadata clarify unsupported denied : Route

pub data Decision : Type 0 where
  allowed denied ready empty expand clarify blocked resumed repairable answered : Decision

pub record GraphState : Type 0 where
  pub question : Text
  pub route : Option Route
  pub exact_metric_refs : List Text
  pub exact_dimension_refs : List Text
  pub candidates : List Candidate
  pub proposal : Option SemanticRequest
  pub plan_columns : List Text
  pub decision : Option Decision
  pub reason_codes : List ReasonCode
  pub clarification : Option ClarificationRequest
  pub clarification_answer : Option ClarificationAnswer
  pub clarified_slots : List Text
  pub retrieval_rounds : ℕ
  pub repair_attempts : ℕ
  pub plan_revision : ℕ
  pub has_answer : Bool

abbrev pub max_retrieval_rounds : ℕ
max_retrieval_rounds = 2

-- `clear_downstream`, merged into the state.
abbrev pub clear_downstream : ℕ → GraphState → GraphState
clear_downstream revision s = record s {
  proposal = none;
  plan_columns = [];
  has_answer = false;
  plan_revision = revision;
}

-- `ArtifactStore`
abbrev pub ArtifactStore : Type 0 → Type 0
ArtifactStore A = List (ℕ × A)

module _ {A : Type 0} where
  unfoldable pub put : ArtifactStore A → ℕ → A → ArtifactStore A
  put store revision artifacts = insert revision artifacts store

  -- `get`, of what is looked up.
  abbrev pub found : Option A → Result A
  found none = err key_error
  found (some artifacts) = ok artifacts

  unfoldable pub get : ArtifactStore A → ℕ → Result A
  get store revision = found (lookup revision store)

  unfoldable pub discard_from : ArtifactStore A → ℕ → ArtifactStore A
  discard_from store revision = select (λ p. not (leb revision p.0)) store

  lookup-discard_from :
      (store : ArtifactStore A) (revision k : ℕ)
      → lookup k (discard_from store revision) ≡ (if leb revision k then none else lookup k store)
  unfolding discard_from lookup
  lookup-discard_from [] revision k = ground arith
  lookup-discard_from ((j, a) ∷ store) revision k =
      ground (arith, lookup-discard_from store revision k)

  -- Behind a compilation the store holds the new artifacts under their revision, nothing under a later
  -- one, and what it held under an earlier one.
  pub get-put-discard_from :
      (store : ArtifactStore A) (revision k : ℕ) (a : A)
      → get (put (discard_from store revision) revision a) k
        ≡ (if k == revision then ok a else if leb revision k then err key_error else get store k)
  unfolding get put
  get-put-discard_from store revision k a = ground (
    arith,
    lookup-insert k revision a (discard_from store revision),
    lookup-discard_from store revision k,
  )

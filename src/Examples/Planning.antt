-- ===== src/Examples/Planning.antt =====
-- A repair and an answer on the request of the examples.
use text_to_sql_rag.Prelude.{ℕ, ◌≡◌, ◌↔◌, refl, none, some, Option, [], ◌∷◌, Text, text}
use text_to_sql_rag.Contracts.Errors.{ok, validation_failed, finding_of}
use text_to_sql_rag.Contracts.Plan.{SemanticRequest}
use text_to_sql_rag.Contracts.Records.{month}
use text_to_sql_rag.Contracts.Clarification.{ClarificationRequest}
use text_to_sql_rag.Planning.Repair.{guard, propose_repair, RepairOutcome}
use text_to_sql_rag.Planning.Repair.Laws.{KeepsMeaning, guard_lem, propose_repair_lem, Outcome}
use text_to_sql_rag.Planning.Clarify.{apply_answer, grain_of, time_range_slot, period_options}
use text_to_sql_rag.Planning.Clarify.Laws.{ChangesOneSlot, apply_answer-ChangesOneSlot}
use text_to_sql_rag.Examples.Data.{request, catalog_code}

abbrev unsorted : SemanticRequest
unsorted = record request { order_by = [] }

guard_lem_example : (guard request unsorted ≡ ok tt) ↔ KeepsMeaning request unsorted
guard_lem_example = guard_lem request unsorted

propose_repair_lem_example :
    (outcome : RepairOutcome) × (propose_repair request
        (finding_of validation_failed none ∷ [])
        (text "r" ∷ [])
      ≡ ok outcome)
    × Outcome request (text "r" ∷ []) outcome
propose_repair_lem_example =
    propose_repair_lem request (finding_of validation_failed none ∷ []) (text "r" ∷ [])

-- The request has no period.
abbrev period_request : ClarificationRequest
period_request = record { slot = time_range_slot; options = period_options }

abbrev no_dates : Text → Option ℕ
no_dates s = none

abbrev monthly : SemanticRequest
monthly = record request { time_grain = some month }

apply_answer-ChangesOneSlot_example : ChangesOneSlot request monthly (text "time_grain")
unfolding catalog_code apply_answer grain_of
apply_answer-ChangesOneSlot_example =
    apply_answer-ChangesOneSlot no_dates request (text "time_grain") (text "month") monthly refl

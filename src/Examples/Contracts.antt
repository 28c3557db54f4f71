-- ===== src/Examples/Contracts.antt =====
-- References and answers of the examples.
use text_to_sql_rag.Prelude.{◌≡◌, ◌≢◌, refl, true, [], ◌∷◌, text, contains, list_eq, nat_eq}
use text_to_sql_rag.Contracts.Errors.{ok}
use text_to_sql_rag.Contracts.Ids.{Ref, parse, show_ref}
use text_to_sql_rag.Contracts.Ids.Laws.{parse-show_ref}
use text_to_sql_rag.Contracts.Clarification.{
  ClarificationRequest, ClarificationAnswer, bare, validate_answer, read_payload, match_freeform,
  match_index, match_option, option_at, check_offered,
}
use text_to_sql_rag.Contracts.Clarification.Laws.{offered, validate_answer-offered}
use text_to_sql_rag.Examples.Data.{revenue, orders, catalog_code}

abbrev revenue_ref : Ref
revenue_ref = record { id = revenue; version = 12 }

parse-show_ref_example : parse (show_ref revenue_ref) ≡ ok revenue_ref
unfolding catalog_code
parse-show_ref_example = parse-show_ref revenue_ref refl refl

orders-nonempty : orders ≢ []
orders-nonempty h = cc

abbrev question : ClarificationRequest
question = record {
  slot = text "metric";
  options =
      record { value = text "a"; label = text "A" }
      ∷ record { value = text "b"; label = text "B" }
      ∷ [];
}

abbrev second : ClarificationAnswer
second = record { slot = text "metric"; value = text "b" }

validate_answer-offered_example :
    (second.slot ≡ question.slot) × (contains second.value (offered question) ≡ true)
unfolding catalog_code validate_answer read_payload match_freeform match_index match_option
    option_at check_offered
validate_answer-offered_example = validate_answer-offered question (bare (text "B")) second refl

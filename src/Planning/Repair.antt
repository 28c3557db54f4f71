-- ===== src/Planning/Repair.antt =====
-- app/planning/repair.py: the bounded repair of a request. The description of an outcome is prose.
pub mod Laws
use text_to_sql_rag.Prelude.{
  ℕ, Bool, true, false, not, Option, none, some, List, [], ◌∷◌, Text, text, ◌==◌, list_eq, nat_eq,
  option_eq, contains, select, any_of, length, ltb, if◌then◌else◌,
}
use text_to_sql_rag.Contracts.Errors.{
  Result, ok, err, fail, governed, validation_failed, compiler_defect, ReasonCode, reason_code_eq,
  Finding, ◌>>=◌,
}
use text_to_sql_rag.Contracts.Plan.{SemanticRequest, SortKey, filter_eq, range_eq}

abbrev pub max_repair_attempts : ℕ
max_repair_attempts = 2

abbrev pub repairable_codes : List ReasonCode
repairable_codes = validation_failed ∷ compiler_defect ∷ []

pub record RepairOutcome : Type 0 where
  pub request : Option SemanticRequest
  pub repaired : Bool

-- The test of the row limit: a limit may go, and may be lowered.
unfoldable pub widens : Option ℕ → Option ℕ → Bool
widens original none = false
widens none (some l) = true
widens (some m) (some l) = ltb m l

-- An error of the guard is about one of the fields.
abbrev pub locked : Text → Result (Unit {0})
locked field = fail governed validation_failed (some field)

-- The loop over `LOCKED_FIELDS`, field by field, and the test of the limit.
unfoldable pub guard : SemanticRequest → SemanticRequest → Result (Unit {0})
unfolding widens
guard original repaired =
    if original.metric_ids == repaired.metric_ids
    then if original.time_range == repaired.time_range
      then if original.filters == repaired.filters
        then if original.attribution == repaired.attribution
          then if widens original.limit repaired.limit then locked (text "limit") else ok tt
          else locked (text "attribution")
        else locked (text "filters")
      else locked (text "time_range")
    else locked (text "metric_ids")

abbrev pub names_output : List Text → SortKey → Bool
names_output result_columns key = contains key.field result_columns

abbrev pub is_repairable : List Finding → Bool
is_repairable findings = any_of (λ f. contains f.code repairable_codes) findings

abbrev pub not_repaired : RepairOutcome
not_repaired = record { request = none; repaired = false }

-- The request with the sort keys that name an output column.
abbrev pub without_unknown_keys : SemanticRequest → List Text → SemanticRequest
without_unknown_keys request result_columns = record request {
  order_by = select (names_output result_columns) request.order_by;
}

unfoldable pub propose_repair : SemanticRequest → List Finding → List Text → Result RepairOutcome
unfolding guard
propose_repair request findings result_columns =
    let repaired = without_unknown_keys request result_columns in
    if is_repairable findings
    then if result_columns == []
      then ok not_repaired
      else if length repaired.order_by == length request.order_by
      then ok not_repaired
      else (guard request repaired >>= λ _.
          ok (record { request = some repaired; repaired = true }))
    else ok not_repaired

-- ===== src/Planning/Clarify.antt =====
-- app/planning/clarify.py: which question is asked, and what an answer changes. The questions themselves
-- are prose.
pub mod Laws
use text_to_sql_rag.Prelude.{
  ℕ, Bool, true, false, not, ◌&&◌, Option, none, some, List, [], ◌∷◌, ◌++◌, Text, text, ◌==◌,
  list_eq, nat_eq, contains, select, map, length, ltb, take, lower, if◌then◌else◌,
}
use text_to_sql_rag.Contracts.Errors.{Result, ok, err, value_error, ◌>>=◌}
use text_to_sql_rag.Contracts.Ids.{ObjectType, metric}
use text_to_sql_rag.Contracts.Scope.{TrustedScope, discover, execute_metric}
use text_to_sql_rag.Contracts.Records.{
  MetricRecord, TimeGrain, day, week, month, quarter, year, time_grain_eq,
}
use text_to_sql_rag.Contracts.Retrieval.{Candidate}
use text_to_sql_rag.Contracts.Clarification.{ClarificationOption, ClarificationRequest}
use text_to_sql_rag.Contracts.Plan.{SemanticRequest, TimeRange, validate_range}
use text_to_sql_rag.Authorization.Policy.{check}
use text_to_sql_rag.Catalog.Service.{CatalogService, get, allowed_both}

abbrev pub metric_slot : Text
metric_slot = text "metric"

abbrev pub time_range_slot : Text
time_range_slot = text "time_range"

abbrev pub time_grain_slot : Text
time_grain_slot = text "time_grain"

abbrev is_metric : ObjectType → Bool
is_metric metric = true
is_metric _ = false

-- `grain.value`
abbrev pub grain_value : TimeGrain → Text
grain_value day = text "day"
grain_value week = text "week"
grain_value month = text "month"
grain_value quarter = text "quarter"
grain_value year = text "year"

-- `TimeGrain(value)`
unfoldable pub grain_of : List TimeGrain → Text → Result TimeGrain
grain_of [] value = err value_error
grain_of (g ∷ gs) value =
    let rest = grain_of gs value in if value == grain_value g then ok g else rest

abbrev pub all_grains : List TimeGrain
all_grains = day ∷ week ∷ month ∷ quarter ∷ year ∷ []

-- `dict.fromkeys`: each once, where it stands first.
unfoldable pub without_repeats : List Text → List Text → List Text
without_repeats seen [] = []
without_repeats seen (x ∷ xs) =
    let old = without_repeats seen xs in
    let new = without_repeats (x ∷ seen) xs in if contains x seen then old else x ∷ new

-- `value.partition("/")`
unfoldable pub partition : ℕ → Text → Text × Text
partition c [] = ([], [])
partition c (x ∷ s) = let rest = partition c s in if x == c then ([], s) else (x ∷ rest.0, rest.1)

-- ` (unit)`, for a unit that is not empty.
abbrev unit_suffix : Option Text → Text
unit_suffix none = []
unit_suffix (some []) = []
unit_suffix (some (c ∷ s)) = text " (" ++ (c ∷ s) ++ text ")"

abbrev pub grain_option : TimeGrain → ClarificationOption
grain_option g = record { value = grain_value g; label = text "By " ++ grain_value g }

abbrev pub period_options : List ClarificationOption
period_options =
    record { value = text "2026-04-01/2026-07-01"; label = text "Q2 2026" }
    ∷ record { value = text "2026-01-01/2027-01-01"; label = text "Calendar year 2026" }
    ∷ record { value = text "2026-01-01/2026-04-01"; label = text "Q1 2026" }
    ∷ []

abbrev pub ask : Text → List ClarificationOption → ClarificationRequest
ask slot options = record { slot = slot; options = options }

-- The question for a period, from the period and the metrics of the request.
abbrev pub period_question : Option TimeRange → List Text → Option ClarificationRequest
period_question (some range) metric_ids = none
period_question none [] = none
period_question none (m ∷ ms) = some (ask time_range_slot period_options)

unfoldable pub missing_time_range : SemanticRequest → Option ClarificationRequest
missing_time_range request = period_question request.time_range request.metric_ids

-- The grains that a metric offers for one that it does not have.
abbrev pub other_grains : TimeGrain → MetricRecord → Option ClarificationRequest
other_grains grain m =
    if contains grain m.time.grains
    then none
    else if ltb (length (map grain_option m.time.grains)) 2
    then none
    else some (ask time_grain_slot (map grain_option m.time.grains))

abbrev pub found_metric : TimeGrain → Result MetricRecord → Option ClarificationRequest
found_metric grain (ok m) = other_grains grain m
found_metric grain (err e) = none

-- `if found is not None: return found`
abbrev pub or_next :
    Option ClarificationRequest
    → Result (Option ClarificationRequest)
    → Result (Option ClarificationRequest)
or_next (some q) rest = ok (some q)
or_next none rest = rest

-- The loop over the three checks, each of which is skipped if its slot was asked before.
unfoldable pub first_found :
    List Text
    → List (Text × Result (Option ClarificationRequest))
    → Result (Option ClarificationRequest)
first_found already_asked [] = ok none
first_found already_asked ((slot, found) ∷ checks) =
    let rest = first_found already_asked checks in
    if contains slot already_asked then rest else (found >>= λ question. or_next question rest)

abbrev pub metric_ids_of : List Candidate → List Text
metric_ids_of candidates =
    without_repeats [] (map (λ c. c.object_id) (select (λ c. is_metric c.object_type) candidates))

module _ (service : CatalogService) (scope : TrustedScope) where
  -- The loop of `_executable_metrics`.
  unfoldable pub runnable_metrics : List Text → Result (List Text)
  runnable_metrics [] = ok []
  runnable_metrics (m ∷ ms) = do
    b ← allowed_both service scope discover execute_metric m
    rest ← runnable_metrics ms
    ok (if b then m ∷ rest else rest)

  unfoldable pub metric_options : List Text → Result (List ClarificationOption)
  metric_options [] = ok []
  metric_options (m ∷ ms) = do
    record_ ← get service.snapshot.metrics m
    rest ← metric_options ms
    ok (record { value = m; label = record_.name ++ unit_suffix record_.unit } ∷ rest)

  -- The code behind the early return: at least two metrics, of which at most four are offered.
  unfoldable pub ask_metric : List Text → Result (Option ClarificationRequest)
  unfolding metric_options
  ask_metric runnable =
      if ltb (length runnable) 2
      then ok none
      else (metric_options (take 4 runnable) >>= λ options. ok (some (ask metric_slot options)))

  unfoldable pub ambiguous_measure :
      List Candidate → List Text → Result (Option ClarificationRequest)
  unfolding runnable_metrics ask_metric
  ambiguous_measure candidates [] =
      runnable_metrics (metric_ids_of candidates) >>= λ runnable. ask_metric runnable
  ambiguous_measure candidates (ref ∷ exact_metric_refs) = ok none

  -- The question for a grain, from the grain and the metrics of the request.
  abbrev pub grain_question : Option TimeGrain → List Text → Option ClarificationRequest
  grain_question none metric_ids = none
  grain_question (some grain) [] = none
  grain_question (some grain) (m ∷ ms) = found_metric grain (get service.snapshot.metrics m)

  unfoldable pub unsupported_grain : SemanticRequest → Option ClarificationRequest
  unsupported_grain request = grain_question request.time_grain request.metric_ids

  -- The loop over the proposed metrics: whether each may be executed.
  unfoldable pub all_executable : List Text → Result Bool
  all_executable [] = ok true
  all_executable (m ∷ ms) =
      let rest = all_executable ms in
      check service.policy scope.principal_id execute_metric m >>= λ d.
      if d.allowed then rest else ok false

  unfoldable pub detect :
      SemanticRequest
      → List Candidate
      → (exact_metric_refs already_asked : List Text) → Result (Option ClarificationRequest)
  unfolding all_executable first_found ambiguous_measure missing_time_range unsupported_grain
  detect request candidates exact_metric_refs already_asked =
      all_executable request.metric_ids >>= λ executable.
      if executable
      then first_found already_asked (
          (metric_slot, ambiguous_measure candidates exact_metric_refs)
          ∷ (time_range_slot, ok (missing_time_range request))
          ∷ (time_grain_slot, ok (unsupported_grain request))
          ∷ [])
      else ok none

-- `apply_answer`. `fromisoformat` reads a date, as an instant in UTC; none is a ValueError.
module _ (fromisoformat : Text → Option ℕ) where
  unfoldable pub instant : Text → Result ℕ
  instant s = elim (fromisoformat s) [ none ↦ err value_error | some t ↦ ok t ]

  unfoldable pub range_of : Text → Result TimeRange
  unfolding partition instant validate_range
  range_of value = do
    start ← instant (partition b'/' value).0
    end ← instant (partition b'/' value).1
    validate_range
        (record { start = start; end_exclusive = end; timezone = text "UTC"; grain = none })

  unfoldable pub apply_answer : SemanticRequest → (slot value : Text) → Result SemanticRequest
  unfolding grain_of range_of
  apply_answer request slot value =
      if slot == metric_slot
      then ok (record request { metric_ids = value ∷ [] })
      else if slot == time_grain_slot
      then (grain_of all_grains value >>= λ g. ok (record request { time_grain = some g }))
      else if slot == time_range_slot
      then (range_of value >>= λ r. ok (record request { time_range = some r }))
      else ok request

-- ===== src/Planning/Clarify/Laws.antt =====
-- What is asked, and what an answer changes.
use text_to_sql_rag.Prelude.{
  ℕ, ◌≡◌, refl, sym, subst, ◌∙◌, inl, inr, true, false, Option, none, some, List, [], ◌∷◌, arith,
  Text, ◌==◌, list_eq, nat_eq, contains, map, length, ltb, Bool-cases, All, take, keys, ==_refl,
  if◌then◌else◌,
}
use mathlib.Core.Bool.{true≢false}
use text_to_sql_rag.Contracts.Errors.{
  Result, ok, err, ◌>>=◌, >>=-eq-ok, ok-injective, Ensures, if-Ensures, >>=-Ensures, Ensures-ok,
  Ensures-map,
}
use text_to_sql_rag.Contracts.Clarification.{ClarificationRequest}
use text_to_sql_rag.Contracts.Plan.{SemanticRequest, TimeRange}
use text_to_sql_rag.Contracts.Scope.{TrustedScope}
use text_to_sql_rag.Catalog.Service.{CatalogService, get}
use text_to_sql_rag.Contracts.Retrieval.{Candidate}
use text_to_sql_rag.Planning.Clarify.{
  metric_slot, time_range_slot, time_grain_slot, detect, first_found, ambiguous_measure,
  missing_time_range, unsupported_grain, all_executable, ask_metric, metric_options,
  runnable_metrics, found_metric, other_grains, grain_question, period_question, apply_answer,
  grain_of, all_grains, range_of, or_next, grain_option, metric_ids_of, ask, grain_question,
  period_question, apply_answer, grain_of, all_grains, range_of, or_next, grain_option,
  metric_ids_of, ask, metric_ids_of, ask,
}
use text_to_sql_rag.Contracts.Records.{MetricRecord, TimeGrain, time_grain_eq}

-- If there is a question, it is about this slot.
abbrev pub IsAbout : Text → Option ClarificationRequest → Type 0
IsAbout slot none = Unit
IsAbout slot (some q) = q.slot ≡ slot

period_question-IsAbout :
    (range : Option TimeRange) (metric_ids : List Text)
    → IsAbout time_range_slot (period_question range metric_ids)
period_question-IsAbout (some range) metric_ids = tt
period_question-IsAbout none [] = tt
period_question-IsAbout none (m ∷ ms) = refl

other_grains-IsAbout :
    (grain : TimeGrain) (m : MetricRecord) → IsAbout time_grain_slot (other_grains grain m)
other_grains-IsAbout grain m = elim (Bool-cases (contains grain m.time.grains)) [
  | inl offered ↦ rw offered tt
  | inr new ↦ rw new (elim (Bool-cases (ltb (length (map grain_option m.time.grains)) 2)) [
    | inl few ↦ rw few tt
    | inr several ↦ rw several refl
  ])
]

found_metric-IsAbout :
    (grain : TimeGrain) (m : Result MetricRecord) → IsAbout time_grain_slot (found_metric grain m)
found_metric-IsAbout grain (ok m) = other_grains-IsAbout grain m
found_metric-IsAbout grain (err e) = tt

grain_question-IsAbout :
    (service : CatalogService) (scope : TrustedScope) (grain : Option TimeGrain)
    (metric_ids : List Text)
    → IsAbout time_grain_slot (grain_question service scope grain metric_ids)
grain_question-IsAbout service scope none metric_ids = tt
grain_question-IsAbout service scope (some grain) [] = tt
grain_question-IsAbout service scope (some grain) (m ∷ ms) =
    found_metric-IsAbout grain (get service.snapshot.metrics m)

ask_metric-IsAbout :
    (service : CatalogService) (scope : TrustedScope) (runnable : List Text)
    → Ensures (IsAbout metric_slot) (ask_metric service scope runnable)
unfolding ask_metric
ask_metric-IsAbout service scope runnable =
    if-Ensures (IsAbout metric_slot) (ltb (length runnable) 2) (ok none)
      (metric_options service scope (take 4 runnable) >>= λ options.
        ok (some (ask metric_slot options)))
      (λ few. tt)
      λ several.
        >>=-Ensures (IsAbout metric_slot) (metric_options service scope (take 4 runnable))
          (λ options. ok (some (ask metric_slot options))) λ options e. refl

ambiguous_measure-IsAbout :
    (service : CatalogService) (scope : TrustedScope) (candidates : List Candidate)
    (refs : List Text)
    → Ensures (IsAbout metric_slot) (ambiguous_measure service scope candidates refs)
unfolding ambiguous_measure
ambiguous_measure-IsAbout service scope candidates [] =
    >>=-Ensures (IsAbout metric_slot) (runnable_metrics service scope (metric_ids_of candidates))
      (λ runnable. ask_metric service scope runnable)
      λ runnable e. ask_metric-IsAbout service scope runnable
ambiguous_measure-IsAbout service scope candidates (ref ∷ refs) = tt

-- A question that comes from the checks is about the slot of one of them that was not asked before.
abbrev pub IsOpenQuestion :
    List Text
    → List (Text × Result (Option ClarificationRequest))
    → Option ClarificationRequest
    → Type 0
IsOpenQuestion already_asked checks none = Unit
IsOpenQuestion already_asked checks (some q) =
    (contains q.slot (keys checks) ≡ true) × (contains q.slot already_asked ≡ false)

IsOpenQuestion-weaken :
    (already_asked : List Text) (c : Text × Result (Option ClarificationRequest))
    (checks : List (Text × Result (Option ClarificationRequest))) (q : Option ClarificationRequest)
    → IsOpenQuestion already_asked checks q
    → IsOpenQuestion already_asked (c ∷ checks) q
IsOpenQuestion-weaken already_asked c checks none h = tt
IsOpenQuestion-weaken already_asked c checks (some q) h = (ground (arith, h.0), h.1)

or_next-IsOpenQuestion :
    (already_asked : List Text) (slot : Text) (found : Result (Option ClarificationRequest))
    (checks : List (Text × Result (Option ClarificationRequest)))
    (question : Option ClarificationRequest)
    → contains slot already_asked ≡ false
    → IsAbout slot question
    → Ensures (IsOpenQuestion already_asked checks) (first_found already_asked checks)
    → Ensures
        (IsOpenQuestion already_asked ((slot, found) ∷ checks))
        (or_next question (first_found already_asked checks))
or_next-IsOpenQuestion already_asked slot found checks (some q) new about rest =
    let here = ==_refl slot in (ground (arith, about, here), rw about new)
or_next-IsOpenQuestion already_asked slot found checks none new about rest =
    Ensures-map _ _ (IsOpenQuestion-weaken already_asked (slot, found) checks)
      (first_found already_asked checks) rest

first_found-IsOpenQuestion :
    (already_asked : List Text) (checks : List (Text × Result (Option ClarificationRequest)))
    → All (λ c. Ensures (IsAbout c.0) c.1) checks
    → Ensures (IsOpenQuestion already_asked checks) (first_found already_asked checks)
unfolding first_found
first_found-IsOpenQuestion already_asked [] h = tt
first_found-IsOpenQuestion already_asked ((slot, found) ∷ checks) h =
    let rest = first_found-IsOpenQuestion already_asked checks h.1 in
    if-Ensures (IsOpenQuestion already_asked ((slot, found) ∷ checks)) (contains slot already_asked)
      _ _
      (λ asked.
        Ensures-map _ _ (IsOpenQuestion-weaken already_asked (slot, found) checks)
          (first_found already_asked checks) rest)
      λ new.
        >>=-Ensures (IsOpenQuestion already_asked ((slot, found) ∷ checks)) found _ λ question e.
          or_next-IsOpenQuestion already_asked slot found checks question new
            (Ensures-ok (IsAbout slot) found h.0 e) rest

abbrev pub slots : List Text
slots = metric_slot ∷ time_range_slot ∷ time_grain_slot ∷ []

-- The slot of a question is one of the three and was not asked before.
pub record IsNewSlot (already_asked : List Text) (q : ClarificationRequest) : Type 0 where
  pub known : contains q.slot slots ≡ true
  pub new : contains q.slot already_asked ≡ false

-- A question that is asked is about the metric, the period or the grain, and about a slot that was not
-- asked before.
pub detect-IsNewSlot :
    (service : CatalogService) (scope : TrustedScope) (request : SemanticRequest)
    (candidates : List Candidate) (exact_metric_refs already_asked : List Text)
    (q : ClarificationRequest)
    → detect service scope request candidates exact_metric_refs already_asked ≡ ok (some q)
    → IsNewSlot already_asked q
unfolding detect missing_time_range unsupported_grain
detect-IsNewSlot service scope request candidates exact_metric_refs already_asked q h =
    let (executable, _, h1) = >>=-eq-ok (all_executable service scope request.metric_ids) _ h in
    let checks : List (Text × Result (Option ClarificationRequest)) =
      (metric_slot, ambiguous_measure service scope candidates exact_metric_refs)
      ∷ (time_range_slot, ok (missing_time_range request))
      ∷ (time_grain_slot, ok (unsupported_grain service scope request))
      ∷ [] in
    let asked : Ensures (IsOpenQuestion already_asked checks)
        (if executable then first_found already_asked checks else ok none) =
      if-Ensures (IsOpenQuestion already_asked checks) executable _ _
        (λ _. first_found-IsOpenQuestion already_asked checks (
          ambiguous_measure-IsAbout service scope candidates exact_metric_refs,
          (
            period_question-IsAbout request.time_range request.metric_ids,
            (grain_question-IsAbout service scope request.time_grain request.metric_ids, tt),
          ),
        ))
        (λ _. tt) in
    let (known, new) = Ensures-ok (IsOpenQuestion already_asked checks) _ asked h1 in
    record { known = known; new = new }

-- An answer changes its own slot alone: the filters, the dimensions, the order, the limit, the operation
-- and the attribution of the request stay as they were.
pub record ChangesOneSlot (request updated : SemanticRequest) (slot : Text) : Type 0 where
  pub filters : updated.filters ≡ request.filters
  pub dimensions : updated.dimension_ids ≡ request.dimension_ids
  pub order : updated.order_by ≡ request.order_by
  pub limit : updated.limit ≡ request.limit
  pub operation : updated.operation ≡ request.operation
  pub attribution : updated.attribution ≡ request.attribution
  pub metrics : (slot == metric_slot) ≡ false → updated.metric_ids ≡ request.metric_ids
  pub period : (slot == time_range_slot) ≡ false → updated.time_range ≡ request.time_range
  pub grain : (slot == time_grain_slot) ≡ false → updated.time_grain ≡ request.time_grain

-- Applying an answer changes the clarified slot alone.
pub apply_answer-ChangesOneSlot :
    (fromisoformat : Text → Option ℕ) (request : SemanticRequest) (slot value : Text)
    (updated : SemanticRequest)
    → apply_answer fromisoformat request slot value ≡ ok updated
    → ChangesOneSlot request updated slot
unfolding apply_answer
apply_answer-ChangesOneSlot fromisoformat request slot value updated h =
    elim (Bool-cases (slot == metric_slot)) [
      | inl is_metric ↦
          let h' = rw is_metric at h in
          subst (λ u. ChangesOneSlot request u slot) (ok-injective h')
            (record {
              filters = refl;
              dimensions = refl;
              order = refl;
              limit = refl;
              operation = refl;
              attribution = refl;
              metrics = λ other. absurd (true≢false (sym is_metric ∙ other));
              period = λ other. refl;
              grain = λ other. refl;
            })
      | inr not_metric ↦ elim (Bool-cases (slot == time_grain_slot)) [
        | inl is_grain ↦
            let h' = rw (not_metric, is_grain) at h in
            let (g, _, last) = >>=-eq-ok (grain_of all_grains value) _ h' in
            subst (λ u. ChangesOneSlot request u slot) (ok-injective last)
              (record {
                filters = refl;
                dimensions = refl;
                order = refl;
                limit = refl;
                operation = refl;
                attribution = refl;
                metrics = λ other. refl;
                period = λ other. refl;
                grain = λ other. absurd (true≢false (sym is_grain ∙ other));
              })
        | inr not_grain ↦ elim (Bool-cases (slot == time_range_slot)) [
          | inl is_range ↦
              let h' = rw (not_metric, not_grain, is_range) at h in
              let (r, _, last) = >>=-eq-ok (range_of fromisoformat value) _ h' in
              subst (λ u. ChangesOneSlot request u slot) (ok-injective last)
                (record {
                  filters = refl;
                  dimensions = refl;
                  order = refl;
                  limit = refl;
                  operation = refl;
                  attribution = refl;
                  metrics = λ other. refl;
                  grain = λ other. refl;
                  period = λ other. absurd (true≢false (sym is_range ∙ other));
                })
          | inr not_range ↦
              let h' = rw (not_metric, not_grain, not_range) at h in
              subst (λ u. ChangesOneSlot request u slot) (ok-injective h')
                (record {
                  filters = refl;
                  dimensions = refl;
                  order = refl;
                  limit = refl;
                  operation = refl;
                  attribution = refl;
                  metrics = λ other. refl;
                  grain = λ other. refl;
                  period = λ other. refl;
                })
        ]
      ]
    ]

-- ===== src/Planning/Repair/Laws.antt =====
-- What a repair changes, and what its guard lets pass.
use mathlib.Core.Option.{some-injective}
use text_to_sql_rag.Prelude.{
  ℕ, ◌<◌, ◌≤◌, ◌≡◌, refl, ◌⊎◌, inl, inr, ◌↔◌, Bool, true, false, Option, none, some, List, [], ◌∷◌,
  arith, Text, ◌==◌, list_eq, nat_eq, option_eq, ==_refl, select, length, length-select-le, all_of,
  Bool-cases, if◌then◌else◌,
}
use text_to_sql_rag.Contracts.Errors.{ok, Finding, ◌>>=◌}
use text_to_sql_rag.Contracts.Plan.{SemanticRequest, SortKey, filter_eq, range_eq}
use text_to_sql_rag.Planning.Repair.{
  RepairOutcome, guard, widens, names_output, is_repairable, not_repaired, without_unknown_keys,
  propose_repair,
}

-- The two requests ask for the same population, and a row limit of the second is at most one of the first.
pub record KeepsMeaning (original repaired : SemanticRequest) : Type 0 where
  pub metrics : original.metric_ids ≡ repaired.metric_ids
  pub period : original.time_range ≡ repaired.time_range
  pub population : original.filters ≡ repaired.filters
  pub credit : original.attribution ≡ repaired.attribution
  pub rows : (l : ℕ) → repaired.limit ≡ some l → (k : ℕ) × (original.limit ≡ some k) × (l ≤ k)

widens_lem :
    (original repaired : Option ℕ)
    → (widens original repaired ≡ false)
      ↔ ((l : ℕ) → repaired ≡ some l → (k : ℕ) × (original ≡ some k) × (l ≤ k))
unfolding widens
widens_lem original none = ((λ h l e. cc), (λ h. refl))
widens_lem none (some l) = ((λ h m e. cc), (λ h. let (k, e, le) = h l refl in cc))
widens_lem (some m) (some l) = (
  (λ h n e. (m, refl, ground (arith, h, some-injective _ _ e))),
  (λ h. let (k, e, le) = h l refl in ground (arith, le, some-injective _ _ e)),
)

widens_refl : (l : Option ℕ) → widens l l ≡ false
unfolding widens
widens_refl none = refl
widens_refl (some l) = ground arith

-- The guard lets a repair pass exactly when it keeps the metrics, the period, the filters and the
-- attribution, and a row limit that the repair has is at most one that the original has; it may take
-- the limit away.
pub guard_lem :
    (original repaired : SemanticRequest)
    → (guard original repaired ≡ ok tt) ↔ KeepsMeaning original repaired
unfolding guard
guard_lem original repaired = (
  (λ h. record {
    metrics = ground (arith, h);
    period = ground (arith, h);
    population = ground (arith, h);
    credit = ground (arith, h);
    rows = (widens_lem original.limit repaired.limit).0 (ground (arith, h));
  }),
  (λ k.
      rw
        (
          k.metrics,
          k.period,
          k.population,
          k.credit,
          (widens_lem original.limit repaired.limit).1 k.rows,
          ==_refl repaired.metric_ids,
          ==_refl repaired.time_range,
          ==_refl repaired.filters,
          ==_refl repaired.attribution,
        )
        refl),
)

-- The guard accepts what a repair does to a request.
guard-without_unknown_keys :
    (request : SemanticRequest) (result_columns : List Text)
    → guard request (without_unknown_keys request result_columns) ≡ ok tt
guard-without_unknown_keys request result_columns =
    (guard_lem request (without_unknown_keys request result_columns)).1 (record {
      metrics = refl;
      period = refl;
      population = refl;
      credit = refl;
      rows = (widens_lem request.limit request.limit).0 (widens_refl request.limit);
    })

all_of-select : (p : SortKey → Bool) (xs : List SortKey) → all_of p (select p xs) ≡ true
all_of-select p [] = refl
all_of-select p (x ∷ xs) = ground (arith, all_of-select p xs)

-- What a repair hands on: the same request but for its sort keys, of which at least one is gone and
-- each that is left names an output column.
pub record IsRepair (request : SemanticRequest) (result_columns : List Text) (r : SemanticRequest)
    : Type 0 where
  pub only_keys : r ≡ without_unknown_keys request result_columns
  pub fewer_keys : length r.order_by < length request.order_by
  pub keys_name_output : all_of (names_output result_columns) r.order_by ≡ true
  pub keeps_meaning : KeepsMeaning request r

abbrev pub Outcome : SemanticRequest → List Text → RepairOutcome → Type 0
Outcome request result_columns outcome =
    (outcome ≡ not_repaired)
    ⊎ ((r : SemanticRequest) × (outcome ≡ record { request = some r; repaired = true })
        × IsRepair request result_columns r)

-- The branch in which the output columns are known.
changes :
    (request : SemanticRequest) (result_columns : List Text)
    → (outcome : RepairOutcome) × ((if length (without_unknown_keys request result_columns).order_by
            == length request.order_by
          then ok not_repaired
          else (guard request (without_unknown_keys request result_columns) >>= λ _. ok (record {
            request = some (without_unknown_keys request result_columns);
            repaired = true;
          })))
        ≡ ok outcome)
      × Outcome request result_columns outcome
changes request result_columns =
    let kept = without_unknown_keys request result_columns in
    elim (Bool-cases (length kept.order_by == length request.order_by)) [
      | inl same ↦ rw same (not_repaired, refl, inl refl)
      | inr fewer ↦
          rw (fewer, guard-without_unknown_keys request result_columns)
            (
              record { request = some kept; repaired = true },
              refl,
              inr (
                kept,
                refl,
                record {
                  only_keys = refl;
                  fewer_keys =
                      ground
                        (arith, length-select-le (names_output result_columns) request.order_by);
                  keys_name_output = all_of-select (names_output result_columns) request.order_by;
                  keeps_meaning =
                      (guard_lem request kept).0
                        (guard-without_unknown_keys request result_columns);
                },
              ),
            )
    ]

-- Proposing a repair always returns: no repair, or the same request without the sort keys that name no
-- output column. The guard never refuses what it proposes.
pub propose_repair_lem :
    (request : SemanticRequest) (findings : List Finding) (result_columns : List Text)
    → (outcome : RepairOutcome) × (propose_repair request findings result_columns ≡ ok outcome)
      × Outcome request result_columns outcome
unfolding propose_repair
propose_repair_lem request findings result_columns = elim (Bool-cases (is_repairable findings)) [
  | inr hopeless ↦ rw hopeless (not_repaired, refl, inl refl)
  | inl possible ↦ rw possible (elim (Bool-cases (result_columns == [])) [
    | inl none_known ↦ rw none_known (not_repaired, refl, inl refl)
    | inr known ↦ rw known (changes request result_columns)
  ])
]

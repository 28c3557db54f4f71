-- ===== src/Relationships/Planner/Choice.antt =====
-- What `plan` returns and how it fails.
use text_to_sql_rag.Prelude.{
  ◌≡◌, refl, sym, subst, ◌∙◌, ◌⊎◌, inl, inr, Bool, true, false, some, List, [], ◌∷◌, Text, ◌==◌,
  list_eq, nat_eq, subset, difference, arith, select, Bool-cases, All, All-sort_by, All-map,
  All-trivial, All-of_sort_by, IsSorted, sort_by-IsSorted, if◌then◌else◌, all_of, eq_of_==,
}
use text_to_sql_rag.Contracts.Errors.{
  Result, ok, err, Failure, code_of, no_approved_path, not_authorized, FailsWith, >>=-eq-ok,
  ok-injective, ◌>>=◌, Ensures, Ensures-ok,
}
use text_to_sql_rag.Contracts.Scope.{TrustedScope}
use text_to_sql_rag.Catalog.Service.{CatalogService}
use text_to_sql_rag.Relationships.Planner.{
  PlannedJoin, JoinPlan, enumerate, require_some, using_required, choose, plan, plan_lt, rank,
  relationship_refs, is_additive_safe,
}
use text_to_sql_rag.Relationships.Planner.Ranking.{
  plan_lt-IsWeakOrder, choose_best, RanksFirst, plan_lt-RanksFirst,
}
use text_to_sql_rag.Relationships.Planner.Bounds.{enumerate-FailsWith}
use text_to_sql_rag.Relationships.Planner.Paths.{Chain, IsConnection, enumerate-IsConnection}

module _ {κ} (P : JoinPlan → Type κ) where
  require_some-All :
      (base_table : Text) (ps : List JoinPlan)
      → All P ps
      → Ensures (All P) (require_some base_table ps)
  unfolding require_some
  require_some-All base_table [] h = tt
  require_some-All base_table (p ∷ ps) h = h

  select-All : (t : JoinPlan → Bool) (ps : List JoinPlan) → All P ps → All P (select t ps)
  select-All t [] h = tt
  select-All t (p ∷ ps) h = elim (Bool-cases (t p)) [
    | inl kept ↦ rw kept (h.0, select-All t ps h.1)
    | inr dropped ↦ rw dropped (select-All t ps h.1)
  ]

  choose-All :
      (base_table : Text) (ps : List JoinPlan) → All P ps → Ensures P (choose base_table ps)
  unfolding choose
  choose-All base_table [] h = tt
  choose-All base_table (p ∷ ps) h = subst (Ensures P) (sym (choose_best base_table p ps)) h.0

  All-rank : (ps : List JoinPlan) → All P ps → All P (rank ps)
  All-rank ps h = All-sort_by plan_lt P ps h

-- The ways in which planning fails.
abbrev pub IsPlanFailure : Failure → Type 0
IsPlanFailure e = (code_of e ≡ some not_authorized) ⊎ (code_of e ≡ some no_approved_path)

abbrev pub FailsAsPlan : {A : Type 0} → Result A → Type 0
FailsAsPlan (ok a) = Unit
FailsAsPlan (err e) = IsPlanFailure e

>>=-FailsAsPlan :
    {A B : Type 0} (m : Result A) (f : A → Result B)
    → FailsAsPlan m
    → ((a : A) → FailsAsPlan (f a))
    → FailsAsPlan (m >>= f)
>>=-FailsAsPlan (ok a) f h k = k a
>>=-FailsAsPlan (err e) f h k = h

if-FailsAsPlan :
    {A : Type 0} (b : Bool) (m n : Result A)
    → FailsAsPlan m
    → FailsAsPlan n
    → FailsAsPlan (if b then m else n)
if-FailsAsPlan true m n h k = h
if-FailsAsPlan false m n h k = k

of_not_authorized : {A : Type 0} (m : Result A) → FailsWith not_authorized m → FailsAsPlan m
of_not_authorized (ok a) h = tt
of_not_authorized (err e) h = inl h

require_some-FailsAsPlan :
    (base_table : Text) (ps : List JoinPlan) → FailsAsPlan (require_some base_table ps)
unfolding require_some
require_some-FailsAsPlan base_table [] = inr refl
require_some-FailsAsPlan base_table (p ∷ ps) = tt

choose-FailsAsPlan : (base_table : Text) (ps : List JoinPlan) → FailsAsPlan (choose base_table ps)
unfolding choose
choose-FailsAsPlan base_table [] = inr refl
choose-FailsAsPlan base_table (p ∷ ps) = subst FailsAsPlan (sym (choose_best base_table p ps)) tt

require_some-ok :
    (base_table : Text) (ps : List JoinPlan) {qs : List JoinPlan}
    → require_some base_table ps ≡ ok qs
    → ps ≡ qs
unfolding require_some
require_some-ok base_table [] h = cc
require_some-ok base_table (p ∷ ps) h = ok-injective h

All-of_select :
    (t : JoinPlan → Bool) (P : JoinPlan → Type 0) (ps : List JoinPlan)
    → All P (select t ps)
    → All (λ p. t p ≡ true → P p) ps
All-of_select t P [] h = tt
All-of_select t P (p ∷ ps) h = elim (Bool-cases (t p)) [
  | inl kept ↦
      let h' : All P (p ∷ select t ps) = rw kept at h in (λ _. h'.0, All-of_select t P ps h'.1)
  | inr dropped ↦
      let h' : All P (select t ps) = rw dropped at h in (λ k. cc, All-of_select t P ps h')
]

All-select_test : (t : JoinPlan → Bool) (ps : List JoinPlan) → All (λ p. t p ≡ true) (select t ps)
All-select_test t [] = tt
All-select_test t (p ∷ ps) = elim (Bool-cases (t p)) [
  | inl kept ↦ rw kept (kept, All-select_test t ps)
  | inr dropped ↦ rw dropped (All-select_test t ps)
]

-- The first plan of a sorted list is below no other.
choose-least :
    (base_table : Text) (ps : List JoinPlan) (p : JoinPlan)
    → IsSorted plan_lt ps
    → choose base_table ps ≡ ok p
    → All (λ q. plan_lt q p ≡ false) ps
unfolding choose
choose-least base_table [] p sorted h = cc
choose-least base_table (q ∷ qs) p (least, sorted) h =
    let same : q ≡ p = ok-injective (sym (choose_best base_table q qs) ∙ h) in
    let itself : plan_lt q q ≡ false = elim (Bool-cases (plan_lt q q)) [
      | inl below ↦ plan_lt-IsWeakOrder.asym q q below
      | inr above ↦ above
    ] in
    subst (λ r. All (λ x. plan_lt x r ≡ false) (q ∷ qs)) same (itself, least)

module _ (service : CatalogService) (scope : TrustedScope) (base_table : Text)
    (required_tables required_refs : List Text) (forbid_multiplying : Bool) where
  abbrev pub terminals : List Text
  terminals = difference required_tables (base_table ∷ [])

  abbrev planned : Result JoinPlan
  planned = plan service scope base_table required_tables required_refs forbid_multiplying

  abbrev searched : Result (List JoinPlan)
  searched = enumerate service scope base_table terminals forbid_multiplying

  -- What stays of the plans that are found.
  abbrev eligible : List JoinPlan → List JoinPlan
  eligible found = if required_refs == [] then found else using_required required_refs found

  abbrev selection : List JoinPlan → Result (List JoinPlan)
  selection candidates =
      if required_refs == []
      then ok candidates
      else require_some base_table (using_required required_refs candidates)

  selection-ok :
      (found : List JoinPlan) {chosen : List JoinPlan}
      → selection found ≡ ok chosen
      → eligible found ≡ chosen
  selection-ok found h = elim (Bool-cases (required_refs == [])) [
    | inl none_required ↦ let h' = rw none_required at h in rw none_required (ok-injective h')
    | inr some_required ↦
        let h' = rw some_required at h in rw some_required (require_some-ok base_table _ h')
  ]

  -- A plan with joins is the first of the eligible ones in the order of the keys.
  planned-ok :
      {p : JoinPlan}
      → (terminals == []) ≡ false
      → planned ≡ ok p
      → (found : List JoinPlan) × (searched ≡ ok found)
        × (choose base_table (rank (eligible found)) ≡ ok p)
  unfolding plan
  planned-ok {p} goes h =
      let h' = rw goes at h in
      let (found, e, h1) = >>=-eq-ok searched _ h' in
      let (candidates, e1, h2) = >>=-eq-ok (require_some base_table found) _ h1 in
      let (chosen, e2, h3) =
        >>=-eq-ok (selection candidates) (λ c. choose base_table (rank c)) h2 in
      let same : found ≡ candidates = require_some-ok base_table found e1 in
      let same' : eligible found ≡ chosen =
        selection-ok found (subst (λ c. selection c ≡ ok chosen) (sym same) e2) in
      (found, e, subst (λ c. choose base_table (rank c) ≡ ok p) (sym same') h3)

  eligible-All :
      (P : JoinPlan → Type 0) (found : List JoinPlan) → All P found → All P (eligible found)
  eligible-All P found h = elim (Bool-cases (required_refs == [])) [
    | inl none_required ↦ rw none_required h
    | inr some_required ↦ rw some_required (select-All P _ found h)
  ]

  All-eligible :
      (found : List JoinPlan)
      → All (λ q. subset required_refs (relationship_refs q) ≡ true) (eligible found)
  All-eligible found = elim (Bool-cases (required_refs == [])) [
    | inl none_required ↦
        let none_left : required_refs ≡ [] = eq_of_== required_refs [] none_required in
        rw none_required
          (All-map (λ q. Unit {0}) _ found (λ q u. rw none_left refl) (All-trivial found))
    | inr some_required ↦ rw some_required (All-select_test _ found)
  ]

  All-of_eligible :
      (P : JoinPlan → Type 0) (found : List JoinPlan)
      → All P (eligible found)
      → All (λ q. subset required_refs (relationship_refs q) ≡ true → P q) found
  All-of_eligible P found h = elim (Bool-cases (required_refs == [])) [
    | inl none_required ↦
        let h' : All P found = rw none_required at h in All-map P _ found (λ q k u. k) h'
    | inr some_required ↦
        let h' : All P (using_required required_refs found) = rw some_required at h in
        All-of_select _ P found h'
  ]

  -- A property of all the plans that are found is one of the plan that is returned.
  planned_inv :
      {p : JoinPlan} (P : JoinPlan → Type 0)
      → (terminals == []) ≡ false
      → Ensures (All P) searched
      → planned ≡ ok p
      → P p
  planned_inv P goes all_found h =
      let (found, e, h') = planned-ok goes h in
      let chosen : All P (rank (eligible found)) =
        All-rank P (eligible found)
          (eligible-All P found (Ensures-ok (All P) searched all_found e)) in
      Ensures-ok P (choose base_table (rank (eligible found)))
        (choose-All P base_table (rank (eligible found)) chosen) h'

  -- A plan that is returned is a chain of at most four joins from the base table: each runs along a
  -- catalog relationship that the principal may use and the request allows, leaves a table of
  -- the plan and brings in a table that is not in it, and together they reach every required table.
  pub plan-IsConnection :
      (p : JoinPlan)
      → planned ≡ ok p
      → IsConnection service scope forbid_multiplying base_table terminals p
  unfolding plan
  plan-IsConnection p h = elim (Bool-cases (terminals == [])) [
    | inl all_there ↦
        let h' = rw all_there at h in
        let all_covered : subset terminals (base_table ∷ []) ≡ true =
          rw (eq_of_== terminals [] all_there) refl in
        subst (IsConnection service scope forbid_multiplying base_table terminals) (ok-injective h')
          (record { starts = refl; chain = tt; covers = all_covered; short = omega arith })
    | inr goes ↦
        planned_inv (IsConnection service scope forbid_multiplying base_table terminals) goes
          (enumerate-IsConnection service scope forbid_multiplying base_table terminals) h
  ]

  -- Of the plans that the search finds and that use all the required relationships, a plan with joins that is returned
  -- ranks first: it multiplies no rows if one of them does not; among those that agree with it on this it has the
  -- fewest tables, among those that agree on the tables too the fewest joins, and among those that agree on all three
  -- the least list of references.
  pub plan_least :
      (p : JoinPlan)
      → (terminals == []) ≡ false
      → planned ≡ ok p
      → Ensures
          (All (λ q. subset required_refs (relationship_refs q) ≡ true → RanksFirst p q))
          searched
  plan_least p goes h =
      let (found, e, h') = planned-ok goes h in
      let sorted =
        choose-least base_table (rank (eligible found)) p
          (sort_by-IsSorted plan_lt plan_lt-IsWeakOrder (eligible found)) h' in
      let all_eligible =
        All-map (λ q. plan_lt q p ≡ false) (RanksFirst p) (eligible found) (plan_lt-RanksFirst p)
          (All-of_sort_by plan_lt (λ q. plan_lt q p ≡ false) (eligible found) sorted) in
      subst
        (Ensures (All (λ q. subset required_refs (relationship_refs q) ≡ true → RanksFirst p q)))
        (sym e) (All-of_eligible (RanksFirst p) found all_eligible)

  -- A plan with joins uses all the required relationships.
  pub plan-uses_required :
      (p : JoinPlan)
      → (terminals == []) ≡ false
      → planned ≡ ok p
      → subset required_refs (relationship_refs p) ≡ true
  plan-uses_required p goes h =
      let (found, e, h') = planned-ok goes h in
      Ensures-ok (λ q. subset required_refs (relationship_refs q) ≡ true)
        (choose base_table (rank (eligible found)))
        (choose-All _ base_table (rank (eligible found))
          (All-rank _ (eligible found) (All-eligible found)))
        h'

  -- Planning fails only with NOT_AUTHORIZED or NO_APPROVED_PATH: the search always ends within its fuel
  -- and the pair of best plans is never ambiguous.
  pub plan-FailsAsPlan : FailsAsPlan planned
  unfolding plan
  plan-FailsAsPlan = if-FailsAsPlan (terminals == []) _ _ tt (
      >>=-FailsAsPlan searched _
        (of_not_authorized searched
          (enumerate-FailsWith service scope base_table terminals forbid_multiplying))
        λ found.
          >>=-FailsAsPlan (require_some base_table found) _
            (require_some-FailsAsPlan base_table found)
            λ candidates.
              >>=-FailsAsPlan (selection candidates) _
                (if-FailsAsPlan (required_refs == []) _ _ tt
                  (require_some-FailsAsPlan base_table _))
                λ chosen. choose-FailsAsPlan base_table (rank chosen))

-- The joins of a chain that a request without multiplication allows keep the rows of the left table.
Chain-is_additive_safe :
    (service : CatalogService) (scope : TrustedScope) (visited : List Text) (js : List PlannedJoin)
    → Chain service scope true visited js
    → all_of (λ j. j.preserves_left_multiplicity) js ≡ true
Chain-is_additive_safe service scope visited [] c = refl
Chain-is_additive_safe service scope visited (j ∷ js) c = ground (
  arith,
  c.0.keeps,
  c.0.usable,
  Chain-is_additive_safe service scope (j.to_table ∷ visited) js c.3,
)

-- With `forbid_multiplying` every plan that is returned is safe for additive metrics: no join
-- multiplies the rows of the table that it leaves.
pub plan-is_additive_safe :
    (service : CatalogService) (scope : TrustedScope) (base_table : Text)
    (required_tables required_refs : List Text) (p : JoinPlan)
    → plan service scope base_table required_tables required_refs true ≡ ok p
    → is_additive_safe p ≡ true
unfolding is_additive_safe
plan-is_additive_safe service scope base_table required_tables required_refs p h =
    let c = plan-IsConnection service scope base_table required_tables required_refs true p h in
    Chain-is_additive_safe service scope (base_table ∷ []) p.joins c.chain

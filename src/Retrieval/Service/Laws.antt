-- ===== src/Retrieval/Service/Laws.antt =====
-- What app/retrieval/service.py lets through: candidates that the user may discover, ranked from 1.
use text_to_sql_rag.Prelude.{
  ℕ, ◌+◌, ◌≡◌, refl, sym, subst, Bool, true, false, List, [], ◌∷◌, Text, All, Bool-cases, inl, inr,
  select, if◌then◌else◌,
}
use text_to_sql_rag.Contracts.Errors.{
  Result, ok, err, raised, value_error, key_error, index_error, out_of_fuel, retrieval, governed,
  authorization, catalog, compilation, validation, >>=-eq-ok, ok-injective,
}
use text_to_sql_rag.Contracts.Ids.{ObjectType}
use text_to_sql_rag.Contracts.Scope.{TrustedScope, discover}
use text_to_sql_rag.Contracts.Retrieval.{Candidate, SearchRequest, SearchResponse, request_fields}
use text_to_sql_rag.Authorization.Policy.{check, Decision}
use text_to_sql_rag.Authorization.Policy.Sweeps.{allows}
use text_to_sql_rag.Catalog.Service.{CatalogService}
use text_to_sql_rag.Retrieval.Service.{
  RetrievalOutcome, ranked_from, recheck, answered, on_response, request_for, resolve_exact, search,
}

-- The candidates have the ranks from the number on, in order.
abbrev pub IsRankedFrom : ℕ → List Candidate → Type 0
IsRankedFrom i [] = Unit
IsRankedFrom i (c ∷ cs) = (c.rank ≡ i) × IsRankedFrom (i + 1) cs

ranked_from-IsRankedFrom : (i : ℕ) (cs : List Candidate) → IsRankedFrom i (ranked_from i cs)
ranked_from-IsRankedFrom i [] = tt
ranked_from-IsRankedFrom i (c ∷ cs) = (refl, ranked_from-IsRankedFrom (i + 1) cs)

module _ (service : CatalogService) (scope : TrustedScope) where
  abbrev pub IsDiscoverable : Candidate → Type 0
  IsDiscoverable c = allows service.policy scope.principal_id discover c.object_id ≡ true

  allowed-IsDiscoverable :
      (c : Candidate) (d : Decision)
      → check service.policy scope.principal_id discover c.object_id ≡ ok d
      → d.allowed ≡ true
      → IsDiscoverable c
  allowed-IsDiscoverable c d checked a =
      subst (λ x. elim x [ ok d' ↦ d'.allowed | err e ↦ false ] ≡ true) (sym checked) a

  kept-IsDiscoverable :
      (allowed : Bool) (c : Candidate) (rest : List Candidate)
      → (allowed ≡ true → IsDiscoverable c)
      → All IsDiscoverable rest
      → All IsDiscoverable (if allowed then c ∷ rest else rest)
  kept-IsDiscoverable true c rest h hs = (h refl, hs)
  kept-IsDiscoverable false c rest h hs = hs

  recheck-IsDiscoverable :
      (cs kept : List Candidate) → recheck service scope cs ≡ ok kept → All IsDiscoverable kept
  unfolding recheck
  recheck-IsDiscoverable [] kept h = subst (All IsDiscoverable) (ok-injective h) tt
  recheck-IsDiscoverable (c ∷ cs) kept h =
      let (d, checked, more) =
        >>=-eq-ok (check service.policy scope.principal_id discover c.object_id) _ h in
      let (rest, swept, done) = >>=-eq-ok (recheck service scope cs) _ more in
      subst (All IsDiscoverable) (ok-injective done) (
        kept-IsDiscoverable d.allowed c rest (λ a. allowed-IsDiscoverable c d checked a)
          (recheck-IsDiscoverable cs rest swept))

  select-IsDiscoverable :
      (keep : Candidate → Bool) (i : ℕ) (cs : List Candidate)
      → All IsDiscoverable cs
      → All IsDiscoverable (ranked_from i (select keep cs))
  select-IsDiscoverable keep i [] hs = tt
  select-IsDiscoverable keep i (c ∷ cs) (h, hs) = elim (Bool-cases (keep c)) [
    | inl e ↦ rw e (h, select-IsDiscoverable keep (i + 1) cs hs)
    | inr e ↦ rw e (select-IsDiscoverable keep i cs hs)
  ]

  abbrev pub IsSafe : RetrievalOutcome → Type 0
  IsSafe outcome = All IsDiscoverable outcome.candidates × IsRankedFrom 1 outcome.candidates

  answered-IsSafe :
      (s : Text) (response : SearchResponse) (outcome : RetrievalOutcome)
      → answered service scope s response ≡ ok outcome
      → IsSafe outcome
  unfolding answered
  answered-IsSafe s response outcome h =
      let (authorized, rechecked, more) =
        >>=-eq-ok (recheck service scope response.candidates) _ h in
      let (exact, resolved, done) = >>=-eq-ok (resolve_exact service scope s) _ more in
      subst IsSafe (ok-injective done) (
        select-IsDiscoverable _ 1 authorized
            (recheck-IsDiscoverable response.candidates authorized rechecked),
        ranked_from-IsRankedFrom 1 _,
      )

  on_response-IsSafe :
      (s : Text) (response : Result SearchResponse) (outcome : RetrievalOutcome)
      → on_response service scope s response ≡ ok outcome
      → IsSafe outcome
  on_response-IsSafe s (ok response) outcome h = answered-IsSafe s response outcome h
  on_response-IsSafe s (err (raised retrieval f)) outcome h = subst IsSafe (ok-injective h) (tt, tt)
  on_response-IsSafe s (err (raised governed f)) outcome h = cc
  on_response-IsSafe s (err (raised authorization f)) outcome h = cc
  on_response-IsSafe s (err (raised catalog f)) outcome h = cc
  on_response-IsSafe s (err (raised compilation f)) outcome h = cc
  on_response-IsSafe s (err (raised validation f)) outcome h = cc
  on_response-IsSafe s (err value_error) outcome h = cc
  on_response-IsSafe s (err key_error) outcome h = cc
  on_response-IsSafe s (err index_error) outcome h = cc
  on_response-IsSafe s (err out_of_fuel) outcome h = cc

  -- Whatever the provider answers, and whether or not it raises a retrieval error, the principal may discover
  -- every candidate of the outcome of a search, and the candidates have the ranks from 1 on.
  pub search-IsSafe :
      (provider : SearchRequest → Result SearchResponse) (s : Text) (object_types : List ObjectType)
      (table_ids : List Text) (budget : ℕ) (outcome : RetrievalOutcome)
      → search service scope provider s object_types table_ids budget ≡ ok outcome
      → IsSafe outcome
  unfolding search
  search-IsSafe provider s object_types table_ids budget outcome h =
      let request : SearchRequest = request_for service scope s object_types table_ids budget in
      elim (Bool-cases (request_fields request)) [
        | inl e ↦ let h' = rw e at h in on_response-IsSafe s (provider request) outcome h'
        | inr e ↦ let h' = rw e at h in cc
      ]

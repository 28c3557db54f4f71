-- ===== src/Graph/Measure/Nodes.antt =====
-- Every node of app/graph/nodes/core.py lowers the measure.
use text_to_sql_rag.Prelude.{
  ℕ, ◌+◌, ◌<◌, ◌≡◌, refl, ap, subst, ◌∙◌, Bool, true, false, ◌&&◌, Option, none, some, List, [],
  ◌∷◌, arith, Text, ◌==◌, list_eq, nat_eq, contains, leb, Bool-cases, inl, inr, if◌then◌else◌,
}
use mathlib.Core.Option.{some-injective}
use text_to_sql_rag.Contracts.Errors.{
  Result, ok, err, ReasonCode, reason_code_eq, ◌>>=◌, Ensures, >>=-Ensures, if-Ensures,
}
use text_to_sql_rag.Contracts.Clarification.{
  ClarificationRequest, ClarificationAnswer, Payload, validate_answer,
}
use text_to_sql_rag.Contracts.Clarification.Laws.{validate_answer-offered}
use text_to_sql_rag.Contracts.Plan.{SemanticRequest}
use text_to_sql_rag.Contracts.Scope.{TrustedScope}
use text_to_sql_rag.Planning.Clarify.{apply_answer}
use text_to_sql_rag.Planning.Clarify.Laws.{slots, IsNewSlot, detect-IsNewSlot}
use text_to_sql_rag.Catalog.Service.{queryable_tables, executable_metrics}
use text_to_sql_rag.Planning.Repair.{RepairOutcome, propose_repair, max_repair_attempts}
use text_to_sql_rag.Graph.State.{GraphState, Route, Decision, max_retrieval_rounds}
use text_to_sql_rag.Graph.Nodes.{
  Context, Machine, Caught, returned, refused, catch, required, admitted, understood,
  retrieve_candidates, expand_retrieval, propose_with, proposed, on_resume, question_on,
  ask_or_go_on, clarify_slot, answered_with, repair, repaired_with, repaired_as, may_repair,
  attested, contracts, fresh_scope, bind_failed, compiled_as, run_artifacts, released, reported,
  definition_answer, defined, metadata_answer, is_nil,
}
use text_to_sql_rag.Graph.Build.{
  at_admit, at_understand, at_retrieve, at_expand, at_propose, at_clarify, at_repair,
  at_bind_compile, at_execute, at_definition, at_metadata, next,
}
use text_to_sql_rag.Graph.Measure.Order.{
  unasked, fewer, measure, Waits, Lower, returned_eq, required_eq,
}

module _ {A : Type 0} (ctx : Context A) where
  pub admitted-Lower :
      (s : GraphState) (r : Caught TrustedScope)
      → Lower (measure at_admit s) at_admit (admitted ctx s r)
  unfolding next
  admitted-Lower s (refused code) = (omega arith, tt)
  admitted-Lower s (returned scope) = (omega arith, tt)

  pub understood-Lower :
      (s : GraphState) (r : Caught (Route × List Text × List Text))
      → Lower (measure at_understand s) at_understand (understood ctx s r)
  unfolding next
  understood-Lower s (refused code) = (omega arith, tt)
  understood-Lower s (returned (Route.sql, metrics, dimensions)) = (omega arith, tt)
  understood-Lower s (returned (Route.definition, metrics, dimensions)) = (omega arith, tt)
  understood-Lower s (returned (Route.metadata, metrics, dimensions)) = (omega arith, tt)
  understood-Lower s (returned (Route.clarify, metrics, dimensions)) = (omega arith, tt)
  understood-Lower s (returned (Route.unsupported, metrics, dimensions)) = (omega arith, tt)
  understood-Lower s (returned (Route.denied, metrics, dimensions)) = (omega arith, tt)

  pub retrieve-Lower :
      (s : GraphState)
      → Ensures (Lower (measure at_retrieve s) at_retrieve) (retrieve_candidates ctx s)
  unfolding retrieve_candidates next
  retrieve-Lower s =
      >>=-Ensures (Lower (measure at_retrieve s) at_retrieve) (ctx.search s.question _) _
        λ outcome e. go (is_nil outcome.0 && is_nil outcome.1) outcome.0
    where
      go :
          (b : Bool) (candidates : List _)
          → Lower (measure at_retrieve s) at_retrieve (record s {
            candidates = candidates;
            retrieval_rounds = s.retrieval_rounds + 1;
            decision = some (if b then Decision.empty else Decision.ready);
          })
      go true candidates = (ground arith, tt)
      go false candidates = (ground arith, tt)

  pub expand-Lower :
      (s : GraphState) → Ensures (Lower (measure at_expand s) at_expand) (expand_retrieval ctx s)
  unfolding expand_retrieval next
  expand-Lower s = elim (Bool-cases (leb (max_retrieval_rounds + 1) s.retrieval_rounds)) [
    | inl spent ↦ rw spent (omega arith, tt)
    | inr left ↦ rw left (omega arith, tt)
  ]

  -- The question that `detect` gives waits; without one the plan is bound.
  ask-Lower :
      (s : GraphState) (k : ℕ) (request : SemanticRequest) (question : Option ClarificationRequest)
      → question_on ctx s request ≡ ok question
      → measure at_clarify s < k
      → measure at_bind_compile s < k
      → (proposal : Option SemanticRequest)
      → Lower k at_propose (ask_or_go_on question (record s { proposal = proposal }))
  unfolding next
  ask-Lower s k request none e asks binds proposal = (binds, tt)
  ask-Lower s k request (some q) e asks binds proposal = (
    asks,
    λ p same. subst (IsNewSlot s.clarified_slots) (some-injective q p same) (
        detect-IsNewSlot ctx.catalog ctx.scope request s.candidates s.exact_metric_refs
          s.clarified_slots q e),
  )

  proposed-Lower :
      (s : GraphState) (r : Caught (Option SemanticRequest))
      → Ensures (Lower (measure at_propose s) at_propose) (proposed ctx s r)
  unfolding next
  proposed-Lower s (refused code) = (omega arith, tt)
  proposed-Lower s (returned none) =
      elim (Bool-cases (leb s.retrieval_rounds max_retrieval_rounds)) [
        | inl left ↦ rw left (omega arith, tt)
        | inr spent ↦ rw spent (omega arith, tt)
      ]
  proposed-Lower s (returned (some request)) =
      >>=-Ensures (Lower (measure at_propose s) at_propose) (question_on ctx s request) _
        λ question e.
          ask-Lower s (measure at_propose s) request question e (ground arith) (ground arith)
            (some request)

  on_resume-Lower :
      (s : GraphState) (settled : SemanticRequest)
      → Ensures (Lower (measure at_propose s) at_propose) (on_resume ctx s settled)
  on_resume-Lower s settled =
      >>=-Ensures (Lower (measure at_propose s) at_propose) (question_on ctx s settled) _
        λ question e.
          ask-Lower s (measure at_propose s) settled question e (ground arith) (ground arith)
            s.proposal

  on_proposal-Lower :
      (s : GraphState)
      → Ensures (Lower (measure at_propose s) at_propose) (
          catch (ctx.propose s.question s.candidates s.exact_metric_refs s.exact_dimension_refs)
          >>= λ r. proposed ctx s r)
  on_proposal-Lower s =
      >>=-Ensures (Lower (measure at_propose s) at_propose)
        (catch (ctx.propose s.question s.candidates s.exact_metric_refs s.exact_dimension_refs)) _
        λ r e. proposed-Lower s r

  pub propose-Lower :
      (s : GraphState) (answer : Option ClarificationAnswer) (proposal : Option SemanticRequest)
      → Ensures (Lower (measure at_propose s) at_propose) (propose_with ctx s answer proposal)
  propose-Lower s (some answer) (some settled) = on_resume-Lower s settled
  propose-Lower s (some answer) none = on_proposal-Lower s
  propose-Lower s none proposal = on_proposal-Lower s

  answered_with-Lower :
      (s : GraphState) (q : ClarificationRequest) (r : Caught ClarificationAnswer)
      → IsNewSlot s.clarified_slots q
      → ((a : ClarificationAnswer) → r ≡ returned a → a.slot ≡ q.slot)
      → Ensures (Lower (measure at_clarify s) at_clarify) (answered_with ctx s r)
  unfolding next unasked
  answered_with-Lower s q (refused code) fresh same = (omega arith, tt)
  answered_with-Lower s q (returned a) fresh same =
      let slot : a.slot ≡ q.slot = same a refl in
      let less =
        fewer s.clarified_slots a.slot slots (ap (λ x. contains x slots) slot ∙ fresh.known)
          (ap (λ x. contains x s.clarified_slots) slot ∙ fresh.new) in
      >>=-Ensures (Lower (measure at_clarify s) at_clarify) (required s.proposal) _ λ proposal e.
        >>=-Ensures (Lower (measure at_clarify s) at_clarify)
          (apply_answer ctx.fromisoformat proposal a.slot a.value) _
          λ updated e'. (omega (arith, less), tt)

  pub clarify-Lower :
      (payload : Payload) (s : GraphState)
      → Waits at_clarify s
      → Ensures (Lower (measure at_clarify s) at_clarify) (clarify_slot ctx payload s)
  unfolding clarify_slot
  clarify-Lower payload s waits =
      >>=-Ensures (Lower (measure at_clarify s) at_clarify) (required s.clarification) _ λ q e.
        >>=-Ensures (Lower (measure at_clarify s) at_clarify) (catch (validate_answer q payload)) _
          λ r e'. answered_with-Lower s q r (waits q (required_eq s.clarification q e)) (λ a is_a.
            (validate_answer-offered q payload a
              (returned_eq (validate_answer q payload) a (e' ∙ ap ok is_a))).0)

  repaired_with-Lower :
      (s : GraphState) (r : Caught RepairOutcome)
      → leb max_repair_attempts s.repair_attempts ≡ false
      → Lower (measure at_repair s) at_repair (repaired_with ctx s r)
  unfolding next
  repaired_with-Lower s (refused code) left = (omega arith, tt)
  repaired_with-Lower s (returned outcome) left = go outcome.repaired outcome.request
    where
      go :
          (repaired : Bool) (request : Option SemanticRequest)
          → Lower (measure at_repair s) at_repair (repaired_as ctx s repaired request)
      go true (some request) = (ground arith, tt)
      go true none = (omega arith, tt)
      go false request = (omega arith, tt)

  pub repair-Lower :
      (s : GraphState) → Ensures (Lower (measure at_repair s) at_repair) (repair ctx s)
  unfolding repair next
  repair-Lower s =
      if-Ensures (Lower (measure at_repair s) at_repair) (leb max_repair_attempts s.repair_attempts)
        _ _ (λ spent. (omega arith, tt))
        λ left.
          >>=-Ensures (Lower (measure at_repair s) at_repair) (required s.proposal) _ λ request e.
            >>=-Ensures (Lower (measure at_repair s) at_repair)
              (catch (propose_repair request _ s.plan_columns)) _
              λ r e'. repaired_with-Lower s r left

  bind_failed-Lower :
      (s : GraphState) (codes : List ReasonCode) (columns : List Text)
      → Lower (measure at_bind_compile s) at_bind_compile (bind_failed s codes columns)
  unfolding next
  bind_failed-Lower s codes columns = elim (Bool-cases (may_repair s codes)) [
    | inl again ↦ rw again (omega arith, tt)
    | inr never ↦ rw never (omega arith, tt)
  ]

  pub compiled_as-Lower :
      (m : Machine A) (request : SemanticRequest) (r : Caught A)
      → Lower (measure at_bind_compile m.state) at_bind_compile (compiled_as ctx m request r).state
  unfolding next
  compiled_as-Lower m request (refused code) =
      bind_failed-Lower m.state (code ∷ []) (ctx.expected_output_columns request)
  compiled_as-Lower m request (returned a) = elim (Bool-cases (ctx.blocking a == [])) [
    | inl passed ↦ rw passed (omega arith, tt)
    | inr failed ↦ rw failed (bind_failed-Lower m.state (ctx.blocking a) (ctx.result_columns a))
  ]

  reported-Lower :
      (s : GraphState) (codes : List ReasonCode)
      → Lower (measure at_execute s) at_execute (reported ctx s codes)
  unfolding next
  reported-Lower s [] = (omega arith, tt)
  reported-Lower s (code ∷ codes) = (omega arith, tt)

  released-Lower :
      (s : GraphState) (r : Caught (Result (List ReasonCode)))
      → Ensures (Lower (measure at_execute s) at_execute) (released ctx s r)
  unfolding next
  released-Lower s (refused code) = (omega arith, tt)
  released-Lower s (returned (err e)) = tt
  released-Lower s (returned (ok codes)) = reported-Lower s codes

  pub run_artifacts-Lower :
      (s : GraphState) (a : Result A)
      → Ensures (Lower (measure at_execute s) at_execute) (run_artifacts ctx s a)
  unfolding next
  run_artifacts-Lower s (ok a) =
      >>=-Ensures (Lower (measure at_execute s) at_execute)
        (catch (
          fresh_scope ctx >>= λ fresh.
          ctx.attest a fresh >>= λ failed. attested ctx a fresh failed))
        _ λ r e. released-Lower s r
  run_artifacts-Lower s (err e) = (omega arith, tt)

  defined-Lower :
      (s : GraphState) (r : Caught (Unit {0}))
      → Lower (measure at_definition s) at_definition (defined ctx s r)
  unfolding next
  defined-Lower s (refused code) = (omega arith, tt)
  defined-Lower s (returned _) = (omega arith, tt)

  pub definition-Lower :
      (s : GraphState)
      → Ensures (Lower (measure at_definition s) at_definition) (definition_answer ctx s)
  unfolding definition_answer next
  definition-Lower s =
      if-Ensures (Lower (measure at_definition s) at_definition) (s.exact_metric_refs == []) _ _
        (λ no_match. (omega arith, tt))
        λ matches.
          >>=-Ensures (Lower (measure at_definition s) at_definition)
            (catch (contracts ctx s.exact_metric_refs)) _ λ r e. defined-Lower s r

  pub metadata-Lower :
      (s : GraphState) → Ensures (Lower (measure at_metadata s) at_metadata) (metadata_answer ctx s)
  unfolding metadata_answer next
  metadata-Lower s =
      >>=-Ensures (Lower (measure at_metadata s) at_metadata)
        (queryable_tables ctx.catalog ctx.scope) _
        λ tables e.
          >>=-Ensures (Lower (measure at_metadata s) at_metadata)
            (executable_metrics ctx.catalog ctx.scope) _ λ metrics e'. (omega arith, tt)

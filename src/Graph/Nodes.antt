-- ===== src/Graph/Nodes.antt =====
-- app/graph/nodes/core.py: the nodes. What a node writes is merged into the state. An exception that a
-- node does not catch ends the run as an error.
use text_to_sql_rag.Prelude.{
  ℕ, zero, suc, ◌+◌, ◌*◌, Bool, true, false, ◌&&◌, Option, none, some, List, [], ◌∷◌, ◌++◌, Text,
  ◌==◌, list_eq, nat_eq, contains, any_of, map, leb, ltb, if◌then◌else◌,
}
use text_to_sql_rag.Contracts.Errors.{
  Result, ok, err, raised, value_error, key_error, index_error, out_of_fuel, finding_of, ReasonCode,
  reason_code_eq, budget_exhausted, coverage_incomplete, object_not_found, compiler_defect, ◌>>=◌,
}
use text_to_sql_rag.Contracts.Scope.{TrustedScope}
use text_to_sql_rag.Contracts.Plan.{SemanticRequest}
use text_to_sql_rag.Contracts.Clarification.{
  ClarificationRequest, ClarificationAnswer, Payload, validate_answer,
}
use text_to_sql_rag.Authorization.Scope.{reauthorize}
use text_to_sql_rag.Catalog.Service.{
  CatalogService, get_metric_contract, queryable_tables, executable_metrics,
}
use text_to_sql_rag.Contracts.Retrieval.{Candidate}
use text_to_sql_rag.Planning.Clarify.{detect, apply_answer}
use text_to_sql_rag.Planning.Repair.{
  max_repair_attempts, repairable_codes, propose_repair, RepairOutcome,
}
use text_to_sql_rag.Graph.State.{
  GraphState, Route, unsupported, Decision, allowed, denied, ready, empty, expand, clarify, blocked,
  resumed, repairable, answered, ArtifactStore, put, get, discard_from, clear_downstream,
  max_retrieval_rounds,
}

-- What the nodes call: the trusted scope and the parts of the system. `A` holds the artifacts of one
-- revision: the bound plan, the logical plan, the compiled query and its parameters.
pub record Context (A : Type 0) : Type 0 where
  pub catalog : CatalogService
  pub scope : TrustedScope
  pub token : Text
  pub now : ℕ
  pub fromisoformat : Text → Option ℕ
  -- The route of the question, and the metrics and dimensions that it names exactly.
  pub understand : Text → Result (Route × List Text × List Text)
  -- The candidates and the exact matches, for a question and a budget.
  pub search : Text → ℕ → Result (List Candidate × List Text)
  -- The proposal for a question, its candidates, and its exact metrics and dimensions.
  pub propose : Text → List Candidate → List Text → List Text → Result (Option SemanticRequest)
  -- Binding, lowering and compilation of a request as a revision.
  pub compile : SemanticRequest → ℕ → Result A
  pub expected_output_columns : SemanticRequest → List Text
  pub result_columns : A → List Text
  -- The codes of the blocking findings of the validators.
  pub blocking : A → List ReasonCode
  -- Ticket, preflight and attestations: the code of the first attestation that fails.
  pub attest : A → TrustedScope → Result (Option ReasonCode)
  -- The query and, behind the `try`, the validation and the rendering of its result: the codes of the blocking
  -- findings, or an exception that nothing catches.
  pub query : A → TrustedScope → Result (Result (List ReasonCode))

-- The state of a run: what is checkpointed, and the store of the artifacts.
pub record Machine (A : Type 0) : Type 0 where
  pub state : GraphState
  pub artifacts : ArtifactStore A

-- `try: ... except GovernedError`
pub data Caught (B : Type 0) : Type 0 where
  returned : B → Caught B
  refused : ReasonCode → Caught B

abbrev pub catch : {B : Type 0} → Result B → Result (Caught B)
catch (ok b) = ok (returned b)
catch (err (raised class finding)) = ok (refused finding.code)
catch (err value_error) = err value_error
catch (err key_error) = err key_error
catch (err index_error) = err index_error
catch (err out_of_fuel) = err out_of_fuel

-- The two keys that most nodes write.
abbrev pub decide : Decision → List ReasonCode → GraphState → GraphState
decide d codes s = record s { decision = some d; reason_codes = codes }

abbrev pub go_on : Decision → GraphState → GraphState
go_on d s = record s { decision = some d }

-- `state["clarification"]` and the like: None does not validate.
abbrev pub required : {B : Type 0} → Option B → Result B
required none = err value_error
required (some b) = ok b

-- What a question makes of the state.
abbrev pub ask_or_go_on : Option ClarificationRequest → GraphState → GraphState
ask_or_go_on (some q) s = record s { clarification = some q; decision = some clarify }
ask_or_go_on none s = record s { clarification = none; decision = some ready }

-- One of the codes can be repaired and the budget is not spent.
abbrev pub may_repair : GraphState → List ReasonCode → Bool
may_repair s codes =
    any_of (λ c. contains c repairable_codes) codes && ltb s.repair_attempts max_repair_attempts

abbrev pub bind_failed : GraphState → List ReasonCode → List Text → GraphState
bind_failed s codes columns = record s {
  decision = some (if may_repair s codes then repairable else blocked);
  reason_codes = codes;
  plan_columns = columns;
}

-- `not xs`
abbrev pub is_nil : {B : Type 0} → List B → Bool
is_nil [] = true
is_nil (b ∷ bs) = false

module _ {A : Type 0} (ctx : Context A) where
  abbrev pub fresh_scope : Result TrustedScope
  fresh_scope = reauthorize ctx.token ctx.now ctx.catalog.policy ctx.scope

  abbrev pub admitted : GraphState → Caught TrustedScope → GraphState
  admitted s (refused code) = decide denied (code ∷ []) s
  admitted s (returned scope) = go_on allowed s

  unfoldable pub admit : GraphState → Result GraphState
  admit s = catch fresh_scope >>= λ r. ok (admitted s r)

  abbrev pub understood : GraphState → Caught (Route × List Text × List Text) → GraphState
  understood s (refused code) = record (decide blocked (code ∷ []) s) { route = some unsupported }
  understood s (returned (route, metrics, dimensions)) = record s {
    route = some route;
    exact_metric_refs = metrics;
    exact_dimension_refs = dimensions;
  }

  unfoldable pub understand_and_route : GraphState → Result GraphState
  understand_and_route s = catch (ctx.understand s.question) >>= λ r. ok (understood s r)

  abbrev pub retrieval_budget : ℕ → ℕ
  retrieval_budget zero = 20
  retrieval_budget (suc rounds) = 40 * (suc rounds + 1)

  unfoldable pub retrieve_candidates : GraphState → Result GraphState
  retrieve_candidates s = ctx.search s.question (retrieval_budget s.retrieval_rounds) >>= λ outcome.
      ok (record s {
        candidates = outcome.0;
        retrieval_rounds = s.retrieval_rounds + 1;
        decision = some (if is_nil outcome.0 && is_nil outcome.1 then empty else ready);
      })

  unfoldable pub expand_retrieval : GraphState → Result GraphState
  expand_retrieval s = ok (
      if leb (max_retrieval_rounds + 1) s.retrieval_rounds
      then decide blocked (budget_exhausted ∷ []) s
      else go_on ready s)

  abbrev pub question_on : GraphState → SemanticRequest → Result (Option ClarificationRequest)
  question_on s request =
      detect ctx.catalog ctx.scope request s.candidates s.exact_metric_refs s.clarified_slots

  -- On resume the settled proposal is kept.
  abbrev pub on_resume : GraphState → SemanticRequest → Result GraphState
  on_resume s settled = question_on s settled >>= λ question. ok (ask_or_go_on question s)

  abbrev pub proposed : GraphState → Caught (Option SemanticRequest) → Result GraphState
  proposed s (refused code) = ok (decide blocked (code ∷ []) s)
  proposed s (returned none) = ok (
      if leb s.retrieval_rounds max_retrieval_rounds
      then go_on expand s
      else decide blocked (coverage_incomplete ∷ []) s)
  proposed s (returned (some request)) = question_on s request >>= λ question.
      ok (ask_or_go_on question (record s { proposal = some request }))

  abbrev on_proposal : GraphState → Result GraphState
  on_proposal s =
      catch (ctx.propose s.question s.candidates s.exact_metric_refs s.exact_dimension_refs)
      >>= λ r. proposed s r

  -- The proposal is settled if there is an answer and a proposal.
  abbrev pub propose_with :
      GraphState → Option ClarificationAnswer → Option SemanticRequest → Result GraphState
  propose_with s (some answer) (some settled) = on_resume s settled
  propose_with s (some answer) none = on_proposal s
  propose_with s none proposal = on_proposal s

  unfoldable pub propose_plan : GraphState → Result GraphState
  propose_plan s = propose_with s s.clarification_answer s.proposal

  abbrev pub answered_with : GraphState → Caught ClarificationAnswer → Result GraphState
  answered_with s (refused code) = ok (decide blocked (code ∷ []) s)
  answered_with s (returned answer) = required s.proposal >>= λ proposal.
      apply_answer ctx.fromisoformat proposal answer.slot answer.value >>= λ updated. ok (record s {
        proposal = some updated;
        clarification = none;
        clarification_answer = some answer;
        clarified_slots = s.clarified_slots ++ answer.slot ∷ [];
        decision = some resumed;
      })

  -- `payload` is what the interrupt returns on resume.
  unfoldable pub clarify_slot : Payload → GraphState → Result GraphState
  clarify_slot payload s = required s.clarification >>= λ request.
      catch (validate_answer request payload) >>= λ r. answered_with s r

  -- `outcome.repaired` and `outcome.request`
  abbrev pub repaired_as : GraphState → Bool → Option SemanticRequest → GraphState
  repaired_as s true (some request) =
      record (decide ready [] (clear_downstream (s.plan_revision + 1) s)) {
        proposal = some request;
        repair_attempts = s.repair_attempts + 1;
      }
  repaired_as s true none = go_on blocked s
  repaired_as s false request = go_on blocked s

  abbrev pub repaired_with : GraphState → Caught RepairOutcome → GraphState
  repaired_with s (refused code) = decide blocked (code ∷ []) s
  repaired_with s (returned outcome) = repaired_as s outcome.repaired outcome.request

  -- Every code that the compilation left comes with a note, so that the findings have the codes.
  unfoldable pub repair : GraphState → Result GraphState
  repair s =
      if leb max_repair_attempts s.repair_attempts
      then ok (decide blocked (budget_exhausted ∷ []) s)
      else (required s.proposal >>= λ request.
          catch
            (propose_repair request (map (λ c. finding_of c none) s.reason_codes) s.plan_columns)
          >>= λ r. ok (repaired_with s r))

  abbrev pub compiled_as : Machine A → SemanticRequest → Caught A → Machine A
  compiled_as m request (refused code) = record m {
    state = bind_failed m.state (code ∷ []) (ctx.expected_output_columns request);
  }
  compiled_as m request (returned a) =
      if ctx.blocking a == []
      then record {
        state = record (go_on ready m.state) { plan_columns = ctx.result_columns a };
        artifacts = put (discard_from m.artifacts m.state.plan_revision) m.state.plan_revision a;
      }
      else record m { state = bind_failed m.state (ctx.blocking a) (ctx.result_columns a) }

  unfoldable pub bind_validate_compile : Machine A → Result (Machine A)
  bind_validate_compile m = required m.state.proposal >>= λ request.
      catch (ctx.compile request m.state.plan_revision) >>= λ r. ok (compiled_as m request r)

  -- The query behind the attestations.
  abbrev pub attested : A → TrustedScope → Option ReasonCode → Result (Result (List ReasonCode))
  attested a fresh (some code) = ok (ok (code ∷ []))
  attested a fresh none = ctx.query a fresh

  abbrev pub reported : GraphState → List ReasonCode → GraphState
  reported s [] = record (go_on answered s) { has_answer = true }
  reported s (code ∷ codes) = decide blocked (code ∷ codes) s

  abbrev pub released : GraphState → Caught (Result (List ReasonCode)) → Result GraphState
  released s (refused code) = ok (decide blocked (code ∷ []) s)
  released s (returned report) = report >>= λ codes. ok (reported s codes)

  -- The artifacts that are executed: those under the revision of the state.
  abbrev pub run_artifacts : GraphState → Result A → Result GraphState
  run_artifacts s (ok a) =
      catch (fresh_scope >>= λ fresh. ctx.attest a fresh >>= λ failed. attested a fresh failed)
      >>= λ r. released s r
  run_artifacts s (err e) = ok (decide blocked (compiler_defect ∷ []) s)

  unfoldable pub execute : Machine A → Result GraphState
  execute m = run_artifacts m.state (get m.artifacts m.state.plan_revision)

  -- The loop over the metrics: all their contracts, or the first refusal.
  abbrev pub contracts : List Text → Result (Unit {0})
  contracts [] = ok tt
  contracts (ref ∷ refs) =
      get_metric_contract ctx.catalog ctx.scope ref >>= λ metric. contracts refs

  abbrev pub defined : GraphState → Caught (Unit {0}) → GraphState
  defined s (refused code) = decide blocked (code ∷ []) s
  defined s (returned _) = record (go_on answered s) { has_answer = true }

  unfoldable pub definition_answer : GraphState → Result GraphState
  definition_answer s =
      if s.exact_metric_refs == []
      then ok (decide blocked (object_not_found ∷ []) s)
      else (catch (contracts s.exact_metric_refs) >>= λ r. ok (defined s r))

  unfoldable pub metadata_answer : GraphState → Result GraphState
  metadata_answer s = queryable_tables ctx.catalog ctx.scope >>= λ tables.
      executable_metrics ctx.catalog ctx.scope >>= λ metrics.
      ok (record (go_on answered s) { has_answer = true })

  unfoldable pub stop : GraphState → Result GraphState
  stop s = ok (record s { has_answer = true })

-- ===== src/Graph/Safety.antt =====
-- Where the moves of the graph lead: every decision has an edge, what is executed passed every gate, and a
-- run that ends has an answer.
use text_to_sql_rag.Prelude.{
  ◌+◌, ◌≡◌, ◌≢◌, refl, ap, sym, subst, ◌∙◌, Bool, true, false, ◌&&◌, Option, none, some, List, [],
  ◌∷◌, Text, ◌==◌, list_eq, nat_eq, ==_refl, eq_of_==, leb, Bool-cases, inl, inr, if◌then◌else◌,
}
use text_to_sql_rag.Contracts.Errors.{
  Result, ok, err, Failure, ReasonCode, reason_code_eq, ◌>>=◌, >>=-eq-ok, ok-injective, Ensures,
  Ensures-ok, >>=-Ensures, if-Ensures,
}
use text_to_sql_rag.Contracts.Clarification.{
  ClarificationRequest, ClarificationAnswer, Payload, validate_answer,
}
use text_to_sql_rag.Contracts.Plan.{SemanticRequest}
use text_to_sql_rag.Contracts.Scope.{TrustedScope}
use text_to_sql_rag.Catalog.Service.{queryable_tables, executable_metrics}
use text_to_sql_rag.Planning.Clarify.{apply_answer}
use text_to_sql_rag.Planning.Repair.{RepairOutcome, propose_repair, max_repair_attempts}
use text_to_sql_rag.Graph.State.{
  GraphState, Route, Decision, max_retrieval_rounds, get, put, discard_from, get-put-discard_from,
}
use text_to_sql_rag.Graph.Nodes.{
  Context, Machine, Caught, returned, refused, catch, required, admitted, understood, admit,
  understand_and_route, retrieve_candidates, expand_retrieval, propose_plan, propose_with, proposed,
  question_on, ask_or_go_on, clarify_slot, answered_with, repair, repaired_with, repaired_as,
  may_repair, bind_failed, bind_validate_compile, compiled_as, execute, run_artifacts, released,
  reported, definition_answer, defined, metadata_answer, stop, is_nil, fresh_scope, attested,
  contracts,
}
use text_to_sql_rag.Graph.Build.{
  Node, at_admit, at_understand, at_retrieve, at_expand, at_propose, at_clarify, at_repair,
  at_bind_compile, at_execute, at_definition, at_metadata, at_stop, at_end, next, Config,
  with_state, work, step, Moves,
}
use text_to_sql_rag.Graph.Measure.Order.{returned_eq, required_eq}

module _ {A : Type 0} (ctx : Context A) where
  -- The store has artifacts for the revision of the state, which were compiled as this revision from the
  -- proposal of the state, and no validator blocks them.
  pub record IsReady (m : Machine A) : Type 0 where
    pub artifacts : A
    pub stored : get m.artifacts m.state.plan_revision ≡ ok artifacts
    pub request : SemanticRequest
    pub current : m.state.proposal ≡ some request
    pub compiled : ctx.compile request m.state.plan_revision ≡ ok artifacts
    pub passed : ctx.blocking artifacts ≡ []

  abbrev Safe : Node → Machine A → Type 0
  Safe at_execute m = IsReady m
  Safe at_end m = m.state.has_answer ≡ true
  Safe _ m = Unit

  -- The decision has an edge, and its target is safe.
  abbrev pub Leads : Node → Machine A → Type 0
  Leads from m = (to : Node) × (next from m.state ≡ ok to) × Safe to m

  module _ (m : Machine A) where
    abbrev After : Node → GraphState → Type 0
    After from s = Leads from (record m { state = s })

    admitted-After : (s : GraphState) (r : Caught TrustedScope) → After at_admit (admitted ctx s r)
    unfolding next
    admitted-After s (refused code) = (at_stop, refl, tt)
    admitted-After s (returned scope) = (at_understand, refl, tt)

    understood-After :
        (s : GraphState) (r : Caught (Route × List Text × List Text))
        → After at_understand (understood ctx s r)
    unfolding next
    understood-After s (refused code) = (at_stop, refl, tt)
    understood-After s (returned (Route.sql, metrics, dimensions)) = (at_retrieve, refl, tt)
    understood-After s (returned (Route.definition, metrics, dimensions)) =
        (at_definition, refl, tt)
    understood-After s (returned (Route.metadata, metrics, dimensions)) = (at_metadata, refl, tt)
    understood-After s (returned (Route.clarify, metrics, dimensions)) = (at_retrieve, refl, tt)
    understood-After s (returned (Route.unsupported, metrics, dimensions)) = (at_stop, refl, tt)
    understood-After s (returned (Route.denied, metrics, dimensions)) = (at_stop, refl, tt)

    retrieve-After : (s : GraphState) → Ensures (After at_retrieve) (retrieve_candidates ctx s)
    unfolding retrieve_candidates next
    retrieve-After s =
        >>=-Ensures (After at_retrieve) (ctx.search s.question _) _
          λ outcome e. go (is_nil outcome.0 && is_nil outcome.1) outcome.0
      where
        go :
            (b : Bool) (candidates : List _)
            → After at_retrieve (record s {
              candidates = candidates;
              retrieval_rounds = s.retrieval_rounds + 1;
              decision = some (if b then Decision.empty else Decision.ready);
            })
        go true candidates = (at_propose, refl, tt)
        go false candidates = (at_propose, refl, tt)

    expand-After : (s : GraphState) → Ensures (After at_expand) (expand_retrieval ctx s)
    unfolding expand_retrieval next
    expand-After s = elim (Bool-cases (leb (max_retrieval_rounds + 1) s.retrieval_rounds)) [
      | inl spent ↦ rw spent (at_stop, refl, tt)
      | inr left ↦ rw left (at_retrieve, refl, tt)
    ]

    ask-After :
        (s : GraphState) (question : Option ClarificationRequest)
        → After at_propose (ask_or_go_on question s)
    unfolding next
    ask-After s none = (at_bind_compile, refl, tt)
    ask-After s (some q) = (at_clarify, refl, tt)

    proposed-After :
        (s : GraphState) (r : Caught (Option SemanticRequest))
        → Ensures (After at_propose) (proposed ctx s r)
    unfolding next
    proposed-After s (refused code) = (at_stop, refl, tt)
    proposed-After s (returned none) =
        elim (Bool-cases (leb s.retrieval_rounds max_retrieval_rounds)) [
          | inl left ↦ rw left (at_expand, refl, tt)
          | inr spent ↦ rw spent (at_stop, refl, tt)
        ]
    proposed-After s (returned (some request)) =
        >>=-Ensures (After at_propose) (question_on ctx s request) _
          λ question e. ask-After (record s { proposal = some request }) question

    on_proposal-After :
        (s : GraphState)
        → Ensures (After at_propose) (
            catch (ctx.propose s.question s.candidates s.exact_metric_refs s.exact_dimension_refs)
            >>= λ r. proposed ctx s r)
    on_proposal-After s =
        >>=-Ensures (After at_propose)
          (catch (ctx.propose s.question s.candidates s.exact_metric_refs s.exact_dimension_refs)) _
          λ r e. proposed-After s r

    propose-After :
        (s : GraphState) (answer : Option ClarificationAnswer) (proposal : Option SemanticRequest)
        → Ensures (After at_propose) (propose_with ctx s answer proposal)
    propose-After s (some answer) (some settled) =
        >>=-Ensures (After at_propose) (question_on ctx s settled) _
          λ question e. ask-After s question
    propose-After s (some answer) none = on_proposal-After s
    propose-After s none proposal = on_proposal-After s

    answered_with-After :
        (s : GraphState) (r : Caught ClarificationAnswer)
        → Ensures (After at_clarify) (answered_with ctx s r)
    unfolding next
    answered_with-After s (refused code) = (at_stop, refl, tt)
    answered_with-After s (returned a) =
        >>=-Ensures (After at_clarify) (required s.proposal) _ λ proposal e.
          >>=-Ensures (After at_clarify) (apply_answer ctx.fromisoformat proposal a.slot a.value) _
            λ updated e'. (at_admit, refl, tt)

    clarify-After :
        (payload : Payload) (s : GraphState)
        → Ensures (After at_clarify) (clarify_slot ctx payload s)
    unfolding clarify_slot
    clarify-After payload s = >>=-Ensures (After at_clarify) (required s.clarification) _ λ q e.
        >>=-Ensures (After at_clarify) (catch (validate_answer q payload)) _
          λ r e'. answered_with-After s r

    repaired_with-After :
        (s : GraphState) (r : Caught RepairOutcome) → After at_repair (repaired_with ctx s r)
    unfolding next
    repaired_with-After s (refused code) = (at_stop, refl, tt)
    repaired_with-After s (returned outcome) = go outcome.repaired outcome.request
      where
        go :
            (repaired : Bool) (request : Option SemanticRequest)
            → After at_repair (repaired_as ctx s repaired request)
        go true (some request) = (at_bind_compile, refl, tt)
        go true none = (at_stop, refl, tt)
        go false request = (at_stop, refl, tt)

    repair-After : (s : GraphState) → Ensures (After at_repair) (repair ctx s)
    unfolding repair next
    repair-After s =
        if-Ensures (After at_repair) (leb max_repair_attempts s.repair_attempts) _ _
          (λ spent. (at_stop, refl, tt))
          λ left. >>=-Ensures (After at_repair) (required s.proposal) _ λ request e.
            >>=-Ensures (After at_repair) (catch (propose_repair request _ s.plan_columns)) _
              λ r e'. repaired_with-After s r

    bind_failed-After :
        (s : GraphState) (codes : List ReasonCode) (columns : List Text)
        → After at_bind_compile (bind_failed s codes columns)
    unfolding next
    bind_failed-After s codes columns = elim (Bool-cases (may_repair s codes)) [
      | inl again ↦ rw again (at_repair, refl, tt)
      | inr never ↦ rw never (at_stop, refl, tt)
    ]

    reported-After :
        (s : GraphState) (codes : List ReasonCode) → After at_execute (reported ctx s codes)
    unfolding next
    reported-After s [] = (at_end, refl, refl)
    reported-After s (code ∷ codes) = (at_stop, refl, tt)

    released-After :
        (s : GraphState) (r : Caught (Result (List ReasonCode)))
        → Ensures (After at_execute) (released ctx s r)
    unfolding next
    released-After s (refused code) = (at_stop, refl, tt)
    released-After s (returned (err e)) = tt
    released-After s (returned (ok codes)) = reported-After s codes

    run_artifacts-After :
        (s : GraphState) (a : Result A) → Ensures (After at_execute) (run_artifacts ctx s a)
    unfolding next
    run_artifacts-After s (ok a) =
        >>=-Ensures (After at_execute)
          (catch (
            fresh_scope ctx >>= λ fresh.
            ctx.attest a fresh >>= λ failed. attested ctx a fresh failed))
          _ λ r e. released-After s r
    run_artifacts-After s (err e) = (at_stop, refl, tt)

    defined-After : (s : GraphState) (r : Caught (Unit {0})) → After at_definition (defined ctx s r)
    unfolding next
    defined-After s (refused code) = (at_stop, refl, tt)
    defined-After s (returned _) = (at_end, refl, refl)

    definition-After : (s : GraphState) → Ensures (After at_definition) (definition_answer ctx s)
    unfolding definition_answer next
    definition-After s =
        if-Ensures (After at_definition) (s.exact_metric_refs == []) _ _
          (λ no_match. (at_stop, refl, tt))
          λ matches.
            >>=-Ensures (After at_definition) (catch (contracts ctx s.exact_metric_refs)) _
              λ r e. defined-After s r

    metadata-After : (s : GraphState) → Ensures (After at_metadata) (metadata_answer ctx s)
    unfolding metadata_answer next
    metadata-After s =
        >>=-Ensures (After at_metadata) (queryable_tables ctx.catalog ctx.scope) _ λ tables e.
          >>=-Ensures (After at_metadata) (executable_metrics ctx.catalog ctx.scope) _
            λ metrics e'. (at_end, refl, refl)

    with_state-Leads :
        (from : Node) (r : Result GraphState)
        → Ensures (After from) r
        → Ensures (Leads from) (with_state ctx m r)
    with_state-Leads from (ok s) h = h
    with_state-Leads from (err e) h = tt

    compiled_as-Leads :
        (request : SemanticRequest) (r : Caught A)
        → m.state.proposal ≡ some request
        → ((a : A) → r ≡ returned a → ctx.compile request m.state.plan_revision ≡ ok a)
        → Leads at_bind_compile (compiled_as ctx m request r)
    unfolding next
    compiled_as-Leads request (refused code) current compiled =
        bind_failed-After m.state (code ∷ []) (ctx.expected_output_columns request)
    compiled_as-Leads request (returned a) current compiled =
        elim (Bool-cases (ctx.blocking a == [])) [
          | inl passed ↦
              let stored : get
                    (put (discard_from m.artifacts m.state.plan_revision) m.state.plan_revision a)
                    m.state.plan_revision
                  ≡ ok a =
                get-put-discard_from m.artifacts m.state.plan_revision m.state.plan_revision a
                ∙ ap
                    (λ b.
                      if b
                      then ok a
                      else if leb m.state.plan_revision m.state.plan_revision
                      then err Failure.key_error
                      else get m.artifacts m.state.plan_revision)
                    (==_refl m.state.plan_revision) in
              rw passed (
                at_execute,
                refl,
                record {
                  artifacts = a;
                  stored = stored;
                  request = request;
                  current = current;
                  compiled = compiled a refl;
                  passed = eq_of_== (ctx.blocking a) [] passed;
                },
              )
          | inr failed ↦
              rw failed (bind_failed-After m.state (ctx.blocking a) (ctx.result_columns a))
        ]

    bind-Leads : Ensures (Leads at_bind_compile) (bind_validate_compile ctx m)
    unfolding bind_validate_compile
    bind-Leads = >>=-Ensures (Leads at_bind_compile) (required m.state.proposal) _ λ request e.
        >>=-Ensures (Leads at_bind_compile) (catch (ctx.compile request m.state.plan_revision)) _
          λ r e'.
            compiled_as-Leads request r (required_eq m.state.proposal request e)
              λ a is_a. returned_eq (ctx.compile request m.state.plan_revision) a (e' ∙ ap ok is_a)

    work-Leads :
        (node : Node) (payload : Payload)
        → node ≢ at_end
        → Ensures (Leads node) (work ctx node payload m)
    unfolding work admit understand_and_route propose_plan execute stop next
    work-Leads at_admit payload running = with_state-Leads at_admit (admit ctx m.state) (
        >>=-Ensures (After at_admit) (catch (fresh_scope ctx)) (λ r. ok (admitted ctx m.state r))
          λ r e. admitted-After m.state r)
    work-Leads at_understand payload running =
        with_state-Leads at_understand (understand_and_route ctx m.state) (
          >>=-Ensures (After at_understand) (catch (ctx.understand m.state.question))
            (λ r. ok (understood ctx m.state r)) λ r e. understood-After m.state r)
    work-Leads at_retrieve payload running =
        with_state-Leads at_retrieve (retrieve_candidates ctx m.state) (retrieve-After m.state)
    work-Leads at_expand payload running =
        with_state-Leads at_expand (expand_retrieval ctx m.state) (expand-After m.state)
    work-Leads at_propose payload running =
        with_state-Leads at_propose (propose_plan ctx m.state)
          (propose-After m.state m.state.clarification_answer m.state.proposal)
    work-Leads at_clarify payload running =
        with_state-Leads at_clarify (clarify_slot ctx payload m.state)
          (clarify-After payload m.state)
    work-Leads at_repair payload running =
        with_state-Leads at_repair (repair ctx m.state) (repair-After m.state)
    work-Leads at_bind_compile payload running = bind-Leads
    work-Leads at_execute payload running =
        with_state-Leads at_execute (execute ctx m) (run_artifacts-After m.state _)
    work-Leads at_definition payload running =
        with_state-Leads at_definition (definition_answer ctx m.state) (definition-After m.state)
    work-Leads at_metadata payload running =
        with_state-Leads at_metadata (metadata_answer ctx m.state) (metadata-After m.state)
    work-Leads at_stop payload running = (at_end, refl, refl)
    work-Leads at_end payload running = absurd (running refl)

  Moves-Safe : (c d : Config A) → Moves ctx c d → Safe d.node d.machine
  unfolding step
  Moves-Safe c d moves =
      let (m, worked, rest) = >>=-eq-ok (work ctx c.node moves.payload c.machine) _ moves.does in
      let (node, leads, last) = >>=-eq-ok (next c.node m.state) _ rest in
      let (to, edge, safe) =
        Ensures-ok (Leads c.node) _ (work-Leads c.machine c.node moves.payload moves.running)
          worked in
      subst (λ e. Safe e.node e.machine) (ok-injective last)
        (subst (λ t. Safe t m) (ok-injective (sym edge ∙ leads)) safe)

  -- A move to `execute` finds artifacts under the revision of the state that were compiled as this revision
  -- from the proposal of the state and that no validator blocks: a stale or a refused query is never
  -- executed.
  pub Moves-IsReady : (c d : Config A) → Moves ctx c d → d.node ≡ at_execute → IsReady d.machine
  Moves-IsReady c d moves at = subst (λ n. Safe n d.machine) at (Moves-Safe c d moves)

  -- A run that comes to its end has an answer.
  pub Moves-has_answer :
      (c d : Config A) → Moves ctx c d → d.node ≡ at_end → d.machine.state.has_answer ≡ true
  Moves-has_answer c d moves at = subst (λ n. Safe n d.machine) at (Moves-Safe c d moves)

  -- Every decision that a node takes has an edge: a node that does its work is left for another.
  pub work-routes :
      (c : Config A) (payload : Payload) (m : Machine A)
      → c.node ≢ at_end
      → work ctx c.node payload c.machine ≡ ok m
      → (to : Node) × (next c.node m.state ≡ ok to)
  work-routes c payload m running worked =
      let (to, edge, _) =
        Ensures-ok (Leads c.node) _ (work-Leads c.machine c.node payload running) worked in
      (to, edge)

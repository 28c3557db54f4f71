-- ===== src/Graph/Measure.antt =====
-- Every run of the graph ends: a measure falls with each move.
pub mod Nodes
pub mod Order
use text_to_sql_rag.Prelude.{
  ℕ, ◌+◌, ◌-◌, ◌*◌, ◌≤◌, ◌<◌, ◌≡◌, ◌≢◌, refl, ap, sym, subst, ◌∙◌, Bool, true, false, not, ◌&&◌,
  Option, none, some, List, [], ◌∷◌, ◌++◌, arith, Text, ◌==◌, list_eq, nat_eq, contains,
  contains-append, select, length, length-select-le, leb, Bool-cases, inl, inr, if◌then◌else◌,
}
use mathlib.Core.Option.{some-injective}
use text_to_sql_rag.Contracts.Errors.{
  Result, ok, err, raised, value_error, key_error, index_error, out_of_fuel, ReasonCode,
  reason_code_eq, ◌>>=◌, >>=-eq-ok, ok-injective, Ensures, Ensures-ok, >>=-Ensures, if-Ensures,
}
use text_to_sql_rag.Contracts.Clarification.{
  ClarificationRequest, ClarificationAnswer, Payload, validate_answer,
}
use text_to_sql_rag.Contracts.Clarification.Laws.{validate_answer-offered}
use text_to_sql_rag.Contracts.Plan.{SemanticRequest}
use text_to_sql_rag.Contracts.Scope.{TrustedScope}
use text_to_sql_rag.Planning.Clarify.{apply_answer}
use text_to_sql_rag.Planning.Clarify.Laws.{slots, IsNewSlot, detect-IsNewSlot}
use text_to_sql_rag.Catalog.Service.{queryable_tables, executable_metrics}
use text_to_sql_rag.Planning.Repair.{RepairOutcome, propose_repair, max_repair_attempts}
use text_to_sql_rag.Graph.State.{GraphState, Route, Decision, max_retrieval_rounds}
use text_to_sql_rag.Graph.Nodes.{
  Context, Machine, Caught, returned, refused, catch, required, admitted, understood, admit,
  understand_and_route, retrieve_candidates, expand_retrieval, propose_plan, propose_with, proposed,
  on_resume, question_on, ask_or_go_on, clarify_slot, answered_with, repair, repaired_with,
  repaired_as, may_repair, attested, contracts, fresh_scope, bind_failed, bind_validate_compile,
  compiled_as, execute, run_artifacts, released, definition_answer, defined, metadata_answer, stop,
  is_nil,
}
use text_to_sql_rag.Graph.Build.{
  Node, at_admit, at_understand, at_retrieve, at_expand, at_propose, at_clarify, at_repair,
  at_bind_compile, at_execute, at_definition, at_metadata, at_stop, at_end, next, Config,
  with_state, work, step, Moves, Run, here, move,
}
use text_to_sql_rag.Graph.Measure.Order.{
  is_unasked, unasked, fewer, measure, Waits, Lower, returned_eq, required_eq,
}
use text_to_sql_rag.Graph.Measure.Nodes.{
  admitted-Lower, understood-Lower, retrieve-Lower, expand-Lower, propose-Lower, clarify-Lower,
  repair-Lower, compiled_as-Lower, run_artifacts-Lower, definition-Lower, metadata-Lower,
}

module _ {A : Type 0} (ctx : Context A) where
  with_state-Lower :
      (k : ℕ) (from : Node) (m : Machine A) (r : Result GraphState)
      → Ensures (Lower k from) r
      → Ensures (λ n. Lower k from n.state) (with_state ctx m r)
  with_state-Lower k from m (ok s) h = h
  with_state-Lower k from m (err e) h = tt

  -- The work of a node leads only to where the measure is lower.
  work-Lower :
      (node : Node) (payload : Payload) (m : Machine A)
      → node ≢ at_end
      → Waits node m.state
      → Ensures (λ n. Lower (measure node m.state) node n.state) (work ctx node payload m)
  unfolding work admit understand_and_route propose_plan bind_validate_compile execute stop next
  work-Lower at_admit payload m running w =
      with_state-Lower (measure at_admit m.state) at_admit m (admit ctx m.state) (
        >>=-Ensures (Lower (measure at_admit m.state) at_admit) (catch (fresh_scope ctx))
          (λ r. ok (admitted ctx m.state r)) λ r e. admitted-Lower ctx m.state r)
  work-Lower at_understand payload m running w =
      with_state-Lower (measure at_understand m.state) at_understand m
        (understand_and_route ctx m.state)
        (>>=-Ensures (Lower (measure at_understand m.state) at_understand)
          (catch (ctx.understand m.state.question)) (λ r. ok (understood ctx m.state r))
          λ r e. understood-Lower ctx m.state r)
  work-Lower at_retrieve payload m running w =
      with_state-Lower (measure at_retrieve m.state) at_retrieve m (retrieve_candidates ctx m.state)
        (retrieve-Lower ctx m.state)
  work-Lower at_expand payload m running w =
      with_state-Lower (measure at_expand m.state) at_expand m (expand_retrieval ctx m.state)
        (expand-Lower ctx m.state)
  work-Lower at_propose payload m running w =
      with_state-Lower (measure at_propose m.state) at_propose m (propose_plan ctx m.state)
        (propose-Lower ctx m.state m.state.clarification_answer m.state.proposal)
  work-Lower at_clarify payload m running w =
      with_state-Lower (measure at_clarify m.state) at_clarify m (clarify_slot ctx payload m.state)
        (clarify-Lower ctx payload m.state w)
  work-Lower at_repair payload m running w =
      with_state-Lower (measure at_repair m.state) at_repair m (repair ctx m.state)
        (repair-Lower ctx m.state)
  work-Lower at_bind_compile payload m running w =
      >>=-Ensures (λ n. Lower (measure at_bind_compile m.state) at_bind_compile n.state)
        (required m.state.proposal) _
        λ request e.
          >>=-Ensures (λ n. Lower (measure at_bind_compile m.state) at_bind_compile n.state)
            (catch (ctx.compile request m.state.plan_revision)) _
            λ r e'. compiled_as-Lower ctx m request r
  work-Lower at_execute payload m running w =
      with_state-Lower (measure at_execute m.state) at_execute m (execute ctx m)
        (run_artifacts-Lower ctx m.state _)
  work-Lower at_definition payload m running w =
      with_state-Lower (measure at_definition m.state) at_definition m
        (definition_answer ctx m.state) (definition-Lower ctx m.state)
  work-Lower at_metadata payload m running w =
      with_state-Lower (measure at_metadata m.state) at_metadata m (metadata_answer ctx m.state)
        (metadata-Lower ctx m.state)
  work-Lower at_stop payload m running w = (omega arith, tt)
  work-Lower at_end payload m running w = absurd (running refl)

  abbrev pub config_measure : Config A → ℕ
  config_measure c = measure c.node c.machine.state

  abbrev pub IsWaiting : Config A → Type 0
  IsWaiting c = Waits c.node c.machine.state

  Moves-lower :
      (c d : Config A)
      → Moves ctx c d
      → IsWaiting c
      → (config_measure d < config_measure c) × IsWaiting d
  unfolding step
  Moves-lower c d moves w =
      let (m, worked, rest) = >>=-eq-ok (work ctx c.node moves.payload c.machine) _ moves.does in
      let (node, leads, last) = >>=-eq-ok (next c.node m.state) _ rest in
      let lower =
        Ensures-ok (λ n. Lower (config_measure c) c.node n.state) _
          (work-Lower c.node moves.payload c.machine moves.running w) worked in
      subst (λ e. (config_measure e < config_measure c) × IsWaiting e) (ok-injective last)
        (Ensures-ok (λ n. (measure n m.state < config_measure c) × Waits n m.state) _ lower leads)

  Run-lower :
      (c : Config A) (n : ℕ) (d : Config A)
      → Run ctx c n d
      → IsWaiting c
      → (n + config_measure d ≤ config_measure c) × IsWaiting d
  Run-lower c _ _ here w = (omega arith, w)
  Run-lower c _ e (move {n} {d} run moves) w =
      let (low, waits) = Run-lower c n d run w in
      let (lower, waits') = Moves-lower d e moves waits in (omega (arith, low, lower), waits')

  unasked-le : (asked : List Text) → unasked asked ≤ 3
  unfolding unasked
  unasked-le asked = length-select-le (is_unasked asked) slots

  -- Every run that starts with an admission ends: it makes at most 383 moves, whatever the model proposes,
  -- the retrieval finds, the compiler refuses and the user answers.
  pub Run-bounded :
      (c : Config A) (n : ℕ) (d : Config A) → c.node ≡ at_admit → Run ctx c n d → n ≤ 383
  Run-bounded c n d starts run =
      let w : IsWaiting c = subst (λ node. Waits node c.machine.state) (sym starts) tt in
      let bound : config_measure c ≤ 383 =
        subst (λ node. measure node c.machine.state ≤ 383) (sym starts)
          (omega (arith, unasked-le c.machine.state.clarified_slots)) in
      omega (arith, (Run-lower c n d run w).0, bound)

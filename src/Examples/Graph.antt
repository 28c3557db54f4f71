-- ===== src/Examples/Graph.antt =====
-- Moves of the graph over the catalog of the examples.
use text_to_sql_rag.Prelude.{
  ℕ, ◌≤◌, ◌≡◌, ◌≢◌, refl, true, false, none, some, [], ◌∷◌, Text, text, nat_eq,
}
use text_to_sql_rag.Contracts.Errors.{ok}
use text_to_sql_rag.Contracts.Ids.{is_snapshot_id}
use text_to_sql_rag.Contracts.Scope.{mint, verify_construction}
use text_to_sql_rag.Contracts.Clarification.{Payload}
use text_to_sql_rag.Authorization.Policy.{denied_object_ids}
use text_to_sql_rag.Authorization.Scope.{establish_scope, fields_of, reauthorize}
use text_to_sql_rag.Graph.State.{GraphState, Route, Decision, ArtifactStore, get, put, discard_from}
use text_to_sql_rag.Graph.Nodes.{Context, admit, bind_validate_compile, execute}
use text_to_sql_rag.Graph.Build.{
  Node, at_admit, at_understand, at_bind_compile, at_execute, at_end, next, Config, work, step,
  Moves, Run,
}
use text_to_sql_rag.Graph.Measure.{Run-bounded}
use text_to_sql_rag.Graph.Safety.{IsReady, Moves-IsReady, Moves-has_answer, work-routes}
use text_to_sql_rag.Examples.Data.{request, service, scope, catalog_code}

-- Every query compiles to one text, which the validators pass.
abbrev ctx : Context Text
ctx = record {
  catalog = service;
  scope = scope;
  token = text "k";
  now = 9;
  fromisoformat = λ s. none;
  understand = λ s. ok (Route.sql, [], []);
  search = λ s budget. ok ([], []);
  propose = λ s candidates metrics dimensions. ok (some request);
  compile = λ r revision. ok (text "sql");
  expected_output_columns = λ r. [];
  result_columns = λ a. [];
  blocking = λ a. [];
  attest = λ a fresh. ok none;
  query = λ a fresh. ok (ok []);
}

abbrev initial : GraphState
initial = record {
  question = text "q";
  route = none;
  exact_metric_refs = [];
  exact_dimension_refs = [];
  candidates = [];
  proposal = some request;
  plan_columns = [];
  decision = none;
  reason_codes = [];
  clarification = none;
  clarification_answer = none;
  clarified_slots = [];
  retrieval_rounds = 0;
  repair_attempts = 0;
  plan_revision = 1;
  has_answer = false;
}

abbrev at : Node → GraphState → ArtifactStore Text → Config Text
at node s artifacts = record { node = node; machine = record { state = s; artifacts = artifacts } }

abbrev ready : GraphState
ready = record initial { decision = some Decision.ready }

abbrev answered : GraphState
answered = record initial { decision = some Decision.answered; has_answer = true }

admit-move :
    Moves ctx
      (at at_admit initial [])
      (at at_understand (record initial { decision = some Decision.allowed }) [])
unfolding catalog_code step work next admit reauthorize establish_scope fields_of mint
    verify_construction is_snapshot_id denied_object_ids
admit-move = record { payload = Payload.other; running = λ h. cc; does = refl }

bind-move : Moves ctx (at at_bind_compile initial []) (at at_execute ready ((1, text "sql") ∷ []))
unfolding catalog_code step work next bind_validate_compile put discard_from
bind-move = record { payload = Payload.other; running = λ h. cc; does = refl }

execute-move :
    Moves ctx
      (at at_execute initial ((1, text "sql") ∷ []))
      (at at_end answered ((1, text "sql") ∷ []))
unfolding catalog_code step work next execute get reauthorize establish_scope fields_of mint
    verify_construction is_snapshot_id denied_object_ids
execute-move = record { payload = Payload.other; running = λ h. cc; does = refl }

Run-bounded_example : 1 ≤ 383
Run-bounded_example =
    Run-bounded ctx (at at_admit initial []) 1
      (at at_understand (record initial { decision = some Decision.allowed }) []) refl
      (Run.move Run.here admit-move)

Moves-IsReady_example : IsReady ctx (record { state = ready; artifacts = (1, text "sql") ∷ [] })
Moves-IsReady_example =
    Moves-IsReady ctx (at at_bind_compile initial []) (at at_execute ready ((1, text "sql") ∷ []))
      bind-move refl

Moves-has_answer_example : answered.has_answer ≡ true
Moves-has_answer_example =
    Moves-has_answer ctx (at at_execute initial ((1, text "sql") ∷ []))
      (at at_end answered ((1, text "sql") ∷ [])) execute-move refl

bind-running : at_bind_compile ≢ at_end
bind-running h = cc

work-routes_example : (to : Node) × (next at_bind_compile ready ≡ ok to)
unfolding catalog_code work bind_validate_compile put discard_from
work-routes_example =
    work-routes ctx (at at_bind_compile initial []) Payload.other
      (record { state = ready; artifacts = (1, text "sql") ∷ [] }) bind-running refl

abbrev second : ℕ
second = 2

abbrev third : ℕ
third = 3

-- ===== src/Graph/Build.antt =====
-- app/graph/build.py: the edges of the graph, and a run as a sequence of moves.
use text_to_sql_rag.Prelude.{ℕ, suc, ◌≡◌, ◌≢◌, Option, none, some}
use text_to_sql_rag.Contracts.Errors.{Result, ok, err, key_error, ◌>>=◌}
use text_to_sql_rag.Contracts.Clarification.{Payload}
use text_to_sql_rag.Graph.State.{GraphState, Route, unsupported, Decision, blocked}
use text_to_sql_rag.Graph.Nodes.{
  Context, Machine, admit, understand_and_route, retrieve_candidates, expand_retrieval,
  propose_plan, clarify_slot, repair, bind_validate_compile, execute, definition_answer,
  metadata_answer, stop,
}

pub data Node : Type 0 where
  at_admit at_understand at_retrieve at_expand at_propose at_clarify at_repair at_bind_compile
        at_execute :
      Node
  at_definition at_metadata at_stop at_end : Node

-- `_decision` and `_route`
abbrev pub decision_of : Option Decision → Decision
decision_of none = blocked
decision_of (some d) = d

abbrev pub route_of : Option Route → Route
route_of none = unsupported
route_of (some r) = r

-- The maps of the conditional edges. A decision that a map does not have is a KeyError.
abbrev after_admit : Decision → Result Node
after_admit Decision.allowed = ok at_understand
after_admit Decision.denied = ok at_stop
after_admit _ = err key_error

abbrev after_understand : Route → Result Node
after_understand Route.sql = ok at_retrieve
after_understand Route.definition = ok at_definition
after_understand Route.metadata = ok at_metadata
after_understand Route.clarify = ok at_retrieve
after_understand Route.unsupported = ok at_stop
after_understand Route.denied = ok at_stop

abbrev after_retrieve : Decision → Result Node
after_retrieve Decision.ready = ok at_propose
after_retrieve Decision.empty = ok at_propose
after_retrieve _ = err key_error

abbrev after_propose : Decision → Result Node
after_propose Decision.ready = ok at_bind_compile
after_propose Decision.expand = ok at_expand
after_propose Decision.clarify = ok at_clarify
after_propose Decision.blocked = ok at_stop
after_propose _ = err key_error

abbrev after_clarify : Decision → Result Node
after_clarify Decision.resumed = ok at_admit
after_clarify Decision.blocked = ok at_stop
after_clarify _ = err key_error

abbrev after_repair : Decision → Result Node
after_repair Decision.ready = ok at_bind_compile
after_repair Decision.blocked = ok at_stop
after_repair _ = err key_error

abbrev after_expand : Decision → Result Node
after_expand Decision.ready = ok at_retrieve
after_expand Decision.blocked = ok at_stop
after_expand _ = err key_error

abbrev after_bind_compile : Decision → Result Node
after_bind_compile Decision.ready = ok at_execute
after_bind_compile Decision.repairable = ok at_repair
after_bind_compile Decision.blocked = ok at_stop
after_bind_compile _ = err key_error

-- Of `execute`, `definition` and `metadata`.
abbrev after_answer : Decision → Result Node
after_answer Decision.answered = ok at_end
after_answer Decision.blocked = ok at_stop
after_answer _ = err key_error

unfoldable pub next : Node → GraphState → Result Node
next at_admit s = after_admit (decision_of s.decision)
next at_understand s = after_understand (route_of s.route)
next at_retrieve s = after_retrieve (decision_of s.decision)
next at_expand s = after_expand (decision_of s.decision)
next at_propose s = after_propose (decision_of s.decision)
next at_clarify s = after_clarify (decision_of s.decision)
next at_repair s = after_repair (decision_of s.decision)
next at_bind_compile s = after_bind_compile (decision_of s.decision)
next at_execute s = after_answer (decision_of s.decision)
next at_definition s = after_answer (decision_of s.decision)
next at_metadata s = after_answer (decision_of s.decision)
next at_stop s = ok at_end
next at_end s = ok at_end

pub record Config (A : Type 0) : Type 0 where
  pub node : Node
  pub machine : Machine A

module _ {A : Type 0} (ctx : Context A) where
  -- A node that leaves the artifacts as they are.
  abbrev pub with_state : Machine A → Result GraphState → Result (Machine A)
  with_state m (ok s) = ok (record m { state = s })
  with_state m (err e) = err e

  -- The work of a node. `payload` is read by `clarify` alone.
  unfoldable pub work : Node → Payload → Machine A → Result (Machine A)
  unfolding admit understand_and_route retrieve_candidates expand_retrieval propose_plan
      clarify_slot repair bind_validate_compile execute definition_answer metadata_answer stop
  work at_admit payload m = with_state m (admit ctx m.state)
  work at_understand payload m = with_state m (understand_and_route ctx m.state)
  work at_retrieve payload m = with_state m (retrieve_candidates ctx m.state)
  work at_expand payload m = with_state m (expand_retrieval ctx m.state)
  work at_propose payload m = with_state m (propose_plan ctx m.state)
  work at_clarify payload m = with_state m (clarify_slot ctx payload m.state)
  work at_repair payload m = with_state m (repair ctx m.state)
  work at_bind_compile payload m = bind_validate_compile ctx m
  work at_execute payload m = with_state m (execute ctx m)
  work at_definition payload m = with_state m (definition_answer ctx m.state)
  work at_metadata payload m = with_state m (metadata_answer ctx m.state)
  work at_stop payload m = with_state m (stop ctx m.state)
  work at_end payload m = ok m

  unfoldable pub step : Payload → Config A → Result (Config A)
  unfolding work next
  step payload c = work c.node payload c.machine >>= λ m.
      next c.node m.state >>= λ node. ok (record { node = node; machine = m })

  -- A move leaves a node that is not the end, with whatever the user answers.
  pub record Moves (c d : Config A) : Type 0 where
    pub payload : Payload
    pub running : c.node ≢ at_end
    pub does : step payload c ≡ ok d

  -- A run from `c` to `d` in so many moves.
  pub data Run (c : Config A) : ℕ → Config A → Type 0 where
    here : Run c 0 c
    move : {n : ℕ} {d e : Config A} → Run c n d → Moves d e → Run c (suc n) e

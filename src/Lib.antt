-- ===== src/Lib.antt =====
-- Verification of the governed text-to-SQL pipeline.
--
-- A question in natural language is carried by a state machine (app/graph) from its admission to an answer.
-- A model proposes a semantic request; deterministic code authorizes it (app/authorization) against a pinned
-- catalog snapshot (app/catalog), closes it under the governance rules (app/semantics), joins its tables along
-- approved relationships (app/relationships), asks the user where it is ambiguous, repairs what does not
-- change its meaning, binds the request to a plan and lowers it (app/planning), compiles and validates the
-- statement, and executes it under an admission ticket (app/sql).
--
-- The files, by the code that they model:
--   Prelude and its children: lists, texts, Python's dicts, sorting and sets, and their lemmas. A text is the
--     list of its code points; a set is a list that is read up to membership.
--   Contracts: app/contracts. Errors has the reason codes and `Result`, in which an exception is a value; Ids,
--     Expressions, Scope, Coverage, Records (catalog.py and semantics.py), Plan (semantic_plan.py),
--     Clarification and Retrieval model the modules of these names.
--   Authorization/Policy: app/authorization/policy.py (`PolicyEngine.check` is `decision` behind `check`);
--   Authorization/Scope: app/authorization/scope.py.
--   Catalog/Service: app/catalog/service.py.
--   Relationships/Planner: app/relationships/planner.py (`_enumerate` is `enumerate`, its loop `search_plans`).
--   Semantics/Rules: app/semantics/rules.py (`RuleEngine.close` is `close`, its loop `close_rounds`).
--   Semantics/Metrics: app/semantics/metrics.py (`MetricService.resolve` is `resolve`, its cache is passed along).
--   Planning/Clarify and Planning/Repair: app/planning/clarify.py and app/planning/repair.py.
--   Planning/Binder: app/planning/binder.py (`Binder.bind` is `bind`; its local variables up to the filters are a
--     `Bound`). Planning/Lowering: app/planning/lowering.py (`Lowering.lower` is `lower`). Of each, the child Parts
--     has what needs no look into the catalog.
--   Sql/Dialect: app/sql/dialects/duckdb.py, with types for the nodes that it and the compiler build.
--   Sql/Compiler: app/sql/compiler.py (`SqlCompiler.compile` is `compile`, which builds the statement by `build`; the
--     values that are bound and the columns that are noted on the way are a state, `Emitted` of the child Emission;
--     the child Placeholders counts what the text has). Meaning says what a condition means, when the bound values are
--     taken in the order of the placeholders.
--   Sql/Validators: app/sql/validators/suite.py (`Validator.validate` is `validate`). Nodes has the interface
--     `Sqlglot` of a parsed tree, Tree the gates on the parsed text, Records those on the plan, and Evidence those that
--     look in the text for what the plan demands.
--   Sql/Gateway: app/sql/gateway.py.
--   Retrieval/Fusion and Retrieval/Service: app/retrieval/fusion.py and app/retrieval/service.py.
--   Graph/State, Graph/Nodes and Graph/Build: app/graph/state.py, app/graph/nodes/core.py and app/graph/build.py.
--   Examples: concrete inputs on which the theorems are applied.
--
-- Bounds and fuel. The search of the planner runs on fuel: a round takes one item off the queue and puts back
-- at most one for each edge that leaves its at most four tables, and an item has at most four joins, which
-- bounds the number of rounds by `weight`. The closure of the rules recurs on the eight rounds that the code
-- allows. The split of a condition into conjuncts runs on one more step than the condition has nodes. The graph is a
-- step function without fuel, whose runs are bounded by a measure.
--
-- Not modelled: I/O (policy and catalog files, DuckDB, OpenSearch, the embedding and language models, the
-- user interfaces), sqlglot, which renders and parses statements and is an interface, the attestation of a statement,
-- the search providers with their rank fusion on floats, and the validation and rendering of results. The graph
-- takes what it calls as an interface, `Context`. The clock, fresh ids, the hash of a query, and the two conversions
-- between instants and texts, `isoformat` and `fromisoformat`, are parameters. `Context` is one function for the
-- whole run, where the code asks the language model anew each time, and the recursion limit of the graph library is
-- left out. Priorities of rules are natural numbers. Prose (messages, notes, descriptions) is left out.
pub mod Prelude
pub mod Contracts
pub mod Authorization
pub mod Catalog
pub mod Relationships
pub mod Semantics
pub mod Planning
pub mod Sql
pub mod Retrieval
pub mod Graph
pub mod Examples

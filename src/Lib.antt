-- ===== src/Lib.antt =====
-- PEBS plans, runs and checks the production of course material. A request is routed to skills;
-- the planner (pebs/planner) expands the wanted artifacts into a plan of nodes; the engine and the
-- executor (pebs/engine.py, pebs/runtime) run the nodes group by group; what they make is kept as
-- revisions in the store (pebs/store.py) and accepted through changesets; factual claims are kept
-- with sources and assessments (pebs/evidence.py), and preconditions (pebs/preconditions.py) and
-- gates (pebs/gates.py) decide what may be authored and published.
--
-- Files and code
--   Base: tests on numbers, texts as lists of code points, lists, results of calls, rows of
--     tables.
--   Store: pebs/store.py. Store/Rows has the tables of SCHEMA as records and the state `Store`;
--     Store/Artifacts the pointers, revisions and dependencies; Store/Closure and Store/Staleness
--     `transitive_dependent_revisions` and `mark_dependents_stale`; Store/Files `materialize`;
--     Store/Changesets the changesets; Store/Runs the runs, steps and budgets; Store/Listings the
--     lists. A method is a function of its name from a state to a result and a state; a raise keeps
--     what was written before it.
--   Evidence: pebs/evidence.py. Evidence/Rows has the tables of EVIDENCE_SCHEMA,
--     Evidence/Whitespace `_normalize` and the search for a quote, Evidence/Claims, Sources and
--     Assessments the methods, Evidence/Listings `claims` and `sources`, and Evidence/Support
--     `is_supported`.
--   Gates: pebs/gates.py. Gates has the contracts, Gates/Results which gates apply, the results
--     that are kept and `export_readiness`, Gates/Documents the documents of artifacts, and
--     Gates/Checks the gates `g1_requirements`, `g2_evidence`, `g3_pedagogy` and `g5_udl`.
--   Preconditions: pebs/preconditions.py, on the state of Evidence.
--   Planner: pebs/planner. Planner/Contracts has the data of contracts.py; Planner/Order, Levels,
--     Topology and Expand the functions of graph.py; Planner/Validation some checks of
--     validation.py.
--   Access: pebs/permissions.py, with the lookups of pebs/registry.py that it calls.
--   InputBudget: pebs/input_budget.py.
--   Hooks: pebs/hooks.py, on the states of Access and Store.
--   Policies: the checks of pebs/policies.py on records of skills and on providers.
--   Engine: pebs/engine.py. Engine/Recovery has `_recover_interrupted`, Engine/Dispatch
--     `_run_steps`, `_compute_run_status` and `_finalize_run_status`, Engine/Edits `edit_plan`,
--     Engine/Changesets `accept` and `reject` with the locks of a patch. The handlers of steps
--     are arguments, which may change the store as they like.
--   Runtime: pebs/runtime/executor.py. Runtime/Records has outputs and results of nodes,
--     Runtime/Executor `_Runner.execute_node` and `execute_plan`. The agents are arguments.
--   Pipeline: `PipelineContext` of pebs/pipeline.py, on the state of Store.
--   Agents: pebs/agents, with `RestrictedContext` over the context of Pipeline.
--   Tests: inputs, what the program does on them, and the theorems applied to them.
--
-- Bounds and fuel
--   Numbers are natural numbers, as Python's are unbounded; where a difference can be negative it
--   is an integer of Base/Integers. `visit` of Planner/Order gets one round more than the plan has
--   nodes, and `collect` of Store/Closure as many as its search needs, which is proved to be
--   enough. The loop of `expand_graph` has no bound in the code: its rounds are an argument, with
--   a theorem that says how many are enough on a registry without a cycle of requirements. On one
--   with such a cycle the code does not end.
--
-- What is taken as given
--   SQLite is read as what the statements say: rows in the order of insertion, a primary key
--   that is taken refuses an INSERT, and INSERT OR IGNORE leaves the table. Clock times, the
--   identifiers that `uuid4` draws, digests (`sha1`, `sha256`), the texts that `json.dumps`
--   prints, whether a text fits a schema and what `config` reads from files are arguments.
--   Artifact content is its canonical JSON text. One call of a method is one step; the steps of
--   parallel nodes are taken one after the other. Budgets are not negative.
--
-- What is not modelled
--   Sign-offs, hashing of files and search logs; the calls of models and search providers and
--   the sandbox, whose outcome is that of other programs; routing and the conversation, which
--   match texts; the pipeline's authoring of content, exports and rendering; the gates G4, G6,
--   G7 and G8; the patterns that pebs/policies.py looks for in outputs; the server and the command
--   line, which read and print. Of the engine `resume` and the files that `accept` publishes
--   are left out, and of validation.py the closure of ancestors. The semaphores of the executor
--   bound how many nodes run at once and are left out, since nodes are taken one after the
--   other.

pub mod Base
pub mod Store
pub mod Gates
pub mod Evidence
pub mod Preconditions
pub mod Planner
pub mod InputBudget
pub mod Hooks
pub mod Policies
pub mod Access
pub mod Engine
pub mod Runtime
pub mod Pipeline
pub mod Agents
pub mod Tests

-- ===== src/Lib.antt =====
-- protoneo: a deliberation engine in which agents backed by language models discuss a document in
-- phases, with its knowledge graph, its session control and its events.
--
-- The library follows the Python package `protoneo` and one application on it. Its parts, and the files that model them:
--
--   Agents      protoneo/agents/types.py, and of protoneo/agents/base.py the request that
--               `_build_messages` makes (Agents/Messages).
--   Session     SessionContext of protoneo/deliberation/session.py (Session/Context), and its
--               SessionManager and BatchManager (Session/Manager), whose contexts are objects known by
--               their place in a heap.
--   Deliberation  protoneo/deliberation: the types and the policy interface (Types), the state and
--               the effects of a pattern (Exec), `_run_agent` (Attempts), `_commit` (Commit),
--               SequentialPattern (Sequential), RoundRobinPattern (RoundRobin), ParallelPattern
--               (Parallel), the outputs that the default policy shows (Visible), the configuration
--               and `validate_config` (Config), and `DeliberationEngine.run` (its state in Job;
--               Engine, Engine/Phases).
--   Api         PipelineControl of protoneo/api/pipeline_control.py (Control) with the interleavings
--               of its user and any number of waiting coroutines (Control/Steps), and SessionEventBus of
--               protoneo/api/events.py (Events), and the tasks of sessions of protoneo/api/tasks.py, with
--               what their ends write to the session, the controls and the listeners (Tasks).
--   Models      protoneo/llm: what is known of a model (Models, from types.py), the policies of
--               phases in policies.py (Models/Policies) and CapabilityRegistry of registry.py
--               (Models/Registry: its settings and ids in Entries, what it finds out about a model in
--               Info), with the two endpoint maps of settings.py.
--   Answers     protoneo/llm/structured.py: the JSON value in the text of an answer.
--   Knowledge   KnowledgeGraph of protoneo/knowledge/graph.py: nodes and edges (Graph), the passes over
--               the whole graph (Graph/Clean), documents (Graph/Ingest), sequences of mutations
--               (Graph/Steps), summaries (Graph/Summary). Coref is `resolve_coreferences` of
--               protoneo/knowledge/coref_resolver.py, Chunker `chunk_text` of chunker.py, Processor
--               DocumentProcessor of processor.py, and Verifier `verify_graph` of graph_verifier.py.
--   Tools       the queries about claims of protoneo/tools/graph_query.py (GraphQuery), and
--               ToolRegistry of protoneo/tools/types.py (Registry).
--   Review      PaperReviewPolicy of apps/paper_review/deliberation.py: which answers of reviewers
--               are accepted; and review_readiness of readiness.py: what keeps a review from its start
--               (Review/Readiness).
--   Json        the values of `json.loads`.
--   Prelude     names, tests and list lemmas that the others share.
--
-- How they interact: the engine takes a session through its phases, each run by a pattern, and saves
-- its progress in the session's record. A pattern runs agents against a World, which decides the
-- model's answers and when a turn is cancelled; it reads a Policy, which applications implement; it
-- writes the Context and the PhaseResult, and gives `on_progress` the result after each accepted output.
--
-- State and effects. A method that mutates objects is a function from the state to the new state; one
-- that may raise is an action `Run -> Result x Run` (Deliberation/Exec), where the state comes back
-- beside the exception too. Values are immutable, so copies need no model, but for the contexts that
-- the session manager shares with its users. Of a metadata dictionary
-- the entries that the kernel reads are record fields.
--
-- Loops are recursions on the list, or on the rounds or attempts that are left. Two need fuel: the
-- chunker's, for which one round more than the text has code points is enough when the overlap is at
-- most three tenths of the chunk size, and the search for brackets in an answer, for which that is
-- always enough.
--
-- A document is read into chunks (Chunker) by a parser of a chain (Processor); its graph is built from
-- answers of a model, whose text is read as JSON (Answers), and is then resolved and verified (Coref,
-- Verifier). The registry and the policies (Models) choose the model. Numbers that the code keeps as
-- floats are scaled: a confidence is in thousandths, a model's score in parts of 256,000.
--
-- Parallel tasks: a task of ParallelPattern is one step, and the order of the steps is a parameter.
-- The engine's fingerprint is a parameter too, and an error is a value, without its text.
--
-- Not modelled: the wording of prompts inside a policy, token streaming (a stream ends in the same
-- message), clocks and durations, logging, HTTP, files and the providers. Regular expressions and
-- `sanitize_error_message` enter as functions of the World or of a Host. Of HTTP routes,
-- discovery, document parsers and extraction nothing is modelled.
pub mod Prelude
pub mod Json
pub mod Agents
pub mod Session
pub mod Tools
pub mod Deliberation
pub mod Api
pub mod Knowledge
pub mod Models
pub mod Answers
pub mod Review

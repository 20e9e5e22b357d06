-- ===== src/Lib.antt =====
-- Verification library of Agent-Kuibysheff, an agent runner in Rust: a model is asked for
-- directives, the tool calls of a directive are run behind an access policy, and limits, message
-- history and costs are kept on the way.
--
-- Common holds the shared helpers: Boolean tests, equality as an interface, lists and texts over
-- the native numbers, UTF-8, search in texts, JSON values, results, saturating words, ordered sets
-- and loops on fuel. A `char` is
-- its scalar value and a `String` is the list of them. The components:
--
-- - Limits (src/limits.rs): `LimitsConfig`, `RunMetrics`, the checks and the counters, which
--   saturate at the width that the source gives them. The clock is an argument, in nanoseconds.
-- - History (src/agent/loop/history.rs): pruning by message count and by characters. The loop of
--   `prune_by_char_budget` runs on as much fuel as the messages and characters together, one more
--   than its rounds can use.
-- - Billing (src/billing/mod.rs): Money, Metric, Attempt, the resolver chain (Chain), reported costs
--   (Reported), the pricing catalog and its validation (Catalog), the choice of a rule and its price
--   (Pricing), the cost tracker and its report (Tracker). `Decimal` is the interface `Decimals`.
-- - Access: ToolName and Policy (src/access/mod.rs), Registry (src/tools/registry.rs), Gate
--   (src/tools/mod.rs, src/tool_api.rs), Paths and Grant (src/access/paths.rs and
--   src/project_paths.rs), Config (src/access/config.rs), Validate and Resolve (src/access/mod.rs):
--   the declared policy, its checks and its resolution against a file system, Policies
--   (src/access/paths.rs): what the tools may touch under it, and Lexical (paths
--   without the file system, src/project_paths.rs and src/access/protected.rs). A path is its text on
--   a system with `/` as the separator. The messages of `AccessError` are constructors that carry the
--   values which the messages show.
-- - ProjectPaths (src/project_paths.rs): agent ids and the directories of an agent. The Unicode classes
--   `is_alphanumeric` and `is_control` are arguments.
-- - Directive (src/agent/loop/directive.rs): Scan finds the end of the JSON object, Marker the raw body,
--   and Directive attaches it. Grammar is the object by a grammar, Lines the end of a raw body by a
--   reading line by line. `search_end` has fuel for one round more than the body has characters, and
--   each round goes on behind an occurrence of the marker.
-- - Dispatch (src/event_mcp): Config, Handler (one handler: compilation and answers) and Chain (the call
--   of a handler and the loop over a chain). A dispatcher changes the world and its event counter.
-- - Sse (src/mcp/sse.rs): the parser of server-sent events. The loop of `push` has fuel for the
--   characters of the buffer, and each block takes two at least.
-- - Cancel (src/agent/run_cancel.rs): the handle that cancels a run, and the tasks that watch its
--   deadlines, as events; the runtime chooses when a task runs.
-- - Redaction (src/logging/redact.rs): audit payloads, over JSON values.
-- - Engine (src/agent/loop/engine.rs): Message builds the messages, Host is what the loop calls, State
--   has its local variables, Pipeline the event handlers, Round and Round/Calls one round of
--   `run_inner`, and Run the loop, its output and `run`. A step (Step) goes on, leaves the loop or
--   returns an error, each with the state. Invariant names the updates of the state that a run is
--   made of; Walk, Rounds and Output show once that what every update keeps, a run keeps, and
--   Termination, Events, Goal, Front and Accounting each give such a predicate.
--
-- They interact as in the source: a round checks Limits and the tracker of Billing, prunes by
-- History, names tools by Access and calls them through a `ToolExecutor`, which may be the gate of
-- Access/Gate. Directive gives the records that Engine/Host declares, and is one instance of its
-- `parse_directive`. Resolve gives the `allowed_builtins` that Policy compiles. The loop has fuel
-- for one round more than `max_iterations`; a round that goes on has begun an iteration, so this
-- is enough.
--
-- `serde_json::Value` is the data type of its documentation (Common/Json): the parser and the
-- printer of JSON stay parameters.
--
-- Parameters of the model: the model client, the tool handlers, event handlers, JSON values and
-- their printing, the parser of directives, the clock and cancellation, the files below the home
-- directory, and decimals. Each of their
-- calls returns. The world may change at every await, and between two checks of a round.
--
-- Not modelled: audit and chat logs, whose failures the loop and the dispatcher ignore, tracing, serde glue, loading of
-- files, HTTP and MCP transport, the sandbox, the servers and the command line.
pub mod Common
pub mod Limits
pub mod History
pub mod Billing
pub mod Access
pub mod ProjectPaths
pub mod Directive
pub mod Dispatch
pub mod Engine
pub mod Sse
pub mod Cancel
pub mod Redaction
pub mod Tests

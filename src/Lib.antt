-- ===== src/Lib.antt =====
-- Zero Trust Service: the verification library of the Go SDK whose server decides, task by task,
-- whether a delegate may run what it was sent.
--
-- A client posts a task package to /verify. The server (verify.go) decodes it, makes a tracker for
-- the request, and calls the composed handler (options.go): the response timing outermost, then
-- the middlewares in their order, and in the middle a handler made from a verifier
-- (verifier/handler.go). A verifier is one of the built-in ones, a chain of verifiers, a dispatcher
-- by task type, or any of these wrapped to be timed and recorded. /output (output.go) takes the
-- outputs of tasks through its own middlewares.
--
-- Which file models what:
--   Common        tests, lists over native numbers, Go maps as association lists, the composition of
--                 a list of wrappers by the loop from the last to the first
--   Json, Fault   what encoding/json decodes into an `any`; Go errors with `%w` and `errors.Is`
--   Types         types/task.go, types/verify.go, types/output.go
--   State         the heap of trackers, the calls of the metrics emitter and of the audit writer, the
--                 clock as a sequence of readings, and the state of the verifiers themselves
--   Verifier      verifier/verifier.go, chain.go (`chain`), dispatcher.go, handler.go (`to_handler`)
--   Instrumented  verifier/instrumented (`instrument` is its `Wrap`)
--   Policy        verifier/account, verifier/taskdenylist, verifier/tasktype/image_allowlist.go
--   Pipeline      verifier/pipeline/graph.go and evaluate.go. Of graph.go: Model and Graph are the types,
--                 Raw, Suffixes, Strategies, Deployments, Build and Assemble lead from the decoded
--                 pipeline to the graph (`BuildGraph`), Climb, Instances, Lookup and Resolve are the
--                 queries on it, Listing the views for display. Of evaluate.go: Violations are the
--                 types and policies, Gates and Ancestors the guards and the joins, Skips is guardSkip,
--                 Live is liveAncestorsOf, and Step is EvaluateStep, of which
--                 Evaluate.evaluate_resolved is the verdict. Rank, Behind and Standing say what
--                 the theorems on the graph are about, and the other files prove them
--   Template      resolver: Types is types.go, Node is yaml_helpers.go, Reference and Element are
--                 template.go
--   Server        options.go, verify.go, output.go
--   Middleware    middleware/verify and middleware/output
--   Service       examples/zts: Build is build.go, registry.go and config/validators.go, Store is
--                 ordering/ranstore.go, Conditions is ordering/conditionchecker.go,
--                 Ordering and Messages are ordering/verifier.go, Agents is
--                 examples/verifiers/gitops_agent_allowlist.go
--   AuditReader   audit/file/reader.go: the listing of verify records, with a page that panics as `none`
--   Tests         sample inputs, runs and the witnesses of the theorems
--
-- Conventions. A Go function that returns an error returns an `Option Error` beside the new state, a
-- nil pointer is `none`, a pointer to a shared object is an index into the state's heap. Loops are
-- structural recursion, but for the two walks over the predecessors of a node (`liveAncestorsOf`,
-- `precedesVia`), which run on fuel: one more than the rank of the node where they start, a number
-- that falls from each node to its predecessors. A pointer to a node of a graph is the list of the
-- node and its containers; two of them are the same node where their ways from the root agree. The
-- JSON decoder, the decoder of the resolved YAML, the verbs of package fmt, the UUID generator and the
-- clock are parameters.
--
-- The callbacks of an evaluation, for the state of a run and for guards, are functions that answer a
-- value or an error; a caller's policy is a function of the violation.
--
-- Not modelled: the decoding of YAML nodes, the merge and the expansion of templates, the writer
-- of the audit files, the HTTP listener, logging, Prometheus, the configuration files and the start-up of
-- the examples.
pub mod Common
pub mod Json
pub mod Fault
pub mod Types
pub mod State
pub mod Verifier
pub mod Instrumented
pub mod Policy
pub mod Pipeline
pub mod Template
pub mod Server
pub mod Middleware
pub mod Service
pub mod AuditReader
pub mod Tests

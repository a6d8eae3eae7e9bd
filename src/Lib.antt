-- ===== src/Lib.antt =====
-- ToolFlow: a runtime that compiles a workflow, decides whether it may run, and carries out its
-- steps through bridges that check a signed grant for each step.
--
-- A workflow document is compiled (packages/runtime/src/compiler) into a graph of steps. The
-- classifier (packages/runtime/src/classifier) decides whether the graph may run and the policy
-- (packages/runtime/src/policy) says which actions are allowed. The run service
-- (packages/runtime/src/control-plane/run-service.ts) writes a manifest for the run and carries
-- out the runnable steps: for each it mints a grant, dispatches it to the bridge of the step's
-- cell, and reconciles the receipt. The bridges (packages/runtime/src/bridges/base and
-- packages/elevated/src/bridge) check the grant, run the cell, write a receipt and use the grant
-- up. Recovery (control-plane/recovery-service.ts) settles a run that was interrupted. All state
-- is in the ledger (packages/runtime/src/ledger) and its mirror (control-plane/taskflow-mirror.ts).
-- The controller (control-plane/taskflow-controller.ts) keeps flows that launch runs and follow them
-- by their mirrors. The command line (packages/runtime/src/cli) and the tools of the plugin
-- (packages/plugin) start these operations and print reports of the ledger.
--
-- Prelude     names of the libraries, texts, equality tests, tables and list lemmas
-- Types       packages/shared/src/types, constants.ts and errors.ts; results that may be a failure
-- Env         what is outside the code: SHA-256, HMAC, clock, random bytes, files and processes
-- Hashing     packages/shared/src/hashing.ts: canonical JSON and its hash; Order is on its fields
-- Config      packages/runtime/src/config/schema.ts and defaults.ts; Resolve: resolve.ts
-- World       the state: the files of the ledger, the mirror and the controller, and the uses of the
--             clock and of randomness
-- Compiler    normalize-workflow.ts (Normalize), resolve-variables.ts (Variables), the cycle search
--             (Cycles) and the rest of build-graph.ts with compile.ts (Graph)
-- Ledger      grants.ts, receipts.ts, approvals.ts, manifests.ts and events of the store
-- Mirror      control-plane/taskflow-mirror.ts; Index is on the list of the mirrored runs
-- Crypto      crypto/signer.ts
-- Cells       cells/read, research and session; Elevated: packages/elevated/src/cell/runner.ts;
--             Quiet and Allowed are on what the cells may touch and start
-- Bridge      the bridges, control-plane/dispatcher.ts and grant-service.ts; Verify, Approved,
--             Outcome, Dispatch and Mint are on what they check and record; the elevated
--             bridge uses a grant up as packages/elevated/src/bridge/server.ts does
-- Elevated    the functions of packages/elevated/src/bridge/server.ts over their own interface to a
--             ledger, and the copies under packages/runtime/src/bridges/elevated and cells/elevated
-- Classifier  packages/runtime/src/classifier
-- Policy      packages/runtime/src/policy
-- Run         the control plane: Manifest (scheduler.ts, receipt-service.ts), Loop and Operator
--             (run-service.ts, approval-service.ts), Recovery (recovery-service.ts); Pending,
--             Progress, Deadlock and Rounds are on the loop, Persist, Ended and Resumed on what a
--             resumed run leaves, Approval on approving, Cancelled, Recovered, Restored and
--             Closed on cancelling and recovering; Reports are the functions of run-service.ts and of
--             the ledger that only read, Predicted is on the dry run and Latest on the
--             choice of a run
-- Upsert      the entry lists of both indexes; Laws is on their order and their entries
-- Controller  control-plane/taskflow-controller.ts; Index and Reached are on its index of flows,
--             Frame is on code that leaves the flows alone, Status on the reconciliation
-- Progress    control-plane/progress-reporter.ts; Rules, Spacing and Announced are on its events
-- Native      prototypes/native-taskflow-controller: Contract is controller-contract.ts, Native itself
--             controller-loop.ts; Calls, Wake, Reconciled and Attention are on what a wake asks for
-- Cli         cli/toolflow.ts and compiler/parse-workflow.ts; Document is what is asked and printed,
--             Reading and Usage are on commands that only read, cancel or lack an operand
-- Plugin      packages/plugin/src/entry.ts and client/runtime-client.ts; Agreement compares its tools
--             with the command line
-- Tests       the theorems at concrete workflows, grants and runs
--
-- State is passed explicitly: `M A` takes the world and returns a result and the world after it, so
-- what was written before a throw stays written. A function of the source is the definition of the
-- same name in snake case. The n-th reading of the clock, of random bytes and of the outside is
-- the environment's function at n, so nothing is assumed of their values. Times are milliseconds;
-- they are written as ISO texts only where a document is hashed or signed. Texts are lists of UTF-16
-- code units. A workflow document is a raw record whose names are still texts, which the compiler
-- turns into enumerations.
--
-- Bounds. The cycle search takes one more than the number of steps as fuel: the steps on the path
-- of the search are distinct, so it is never used up. The loop of `resumeWorkflow` takes one more
-- round than there are nodes; a round that goes on leaves fewer nodes pending.
--
-- Not modelled: `JSON.parse` of a workflow file, key files, what becomes of progress events, the
-- registration of the plugin with its host and the methods of its client that no tool calls, the
-- schema guards and the gateway clients, which nothing calls; in the copies of the
-- elevated lane under packages/runtime, which the dispatcher does not use, the cell but for its
-- allowed commands. The run loop is modelled without the progress monitor, which only reads the
-- manifest. Two writers at once are not modelled: each operation runs alone. The keys of a table stay
-- in the order in which they were first written, where a file read back has them sorted. A workflow
-- that the controller launches is given as the parsed content of its file. Of the directories only
-- that of the runs, which LedgerStore's constructor makes, is modelled: those of a run, of the mirror
-- and of the controller are made together with files in them or are empty.
mod Prelude
mod Tests
pub mod Types
pub mod Env
pub mod Hashing
pub mod Config
pub mod World
pub mod Compiler
pub mod Upsert
pub mod Ledger
pub mod Mirror
pub mod Crypto
pub mod Cells
pub mod Bridge
pub mod Classifier
pub mod Policy
pub mod Run
pub mod Controller
pub mod Progress
pub mod Native
pub mod Cli
pub mod Plugin
pub mod Elevated

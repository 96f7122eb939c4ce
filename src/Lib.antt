-- ===== src/Lib.antt =====
-- InferNex-Agent, a verification library for the Go services under
-- component/InferNex-Agent.
--
-- The agent watches and operates inference services on Kubernetes. The parts that are
-- modelled:
--   * Planner: the read-only deployment planner,
--   component/InferNex-Agent/internal/deploymentplan. Generate validates a request
--   (Planner/Validate), reads the cluster page by page (Planner/Listing, Planner/Generate),
--   adds up what the pods hold (Planner/Pods), asks the quotas (Planner/Quota) and places
--   replicas on eligible nodes (Planner/Nodes, Planner/Placing). Planner/Resources has
--   corev1.ResourceList and its operations, Planner/Objects the fields of the Kubernetes
--   objects that the code reads.
--   * Supervisor: the scanner, component/InferNex-Agent/internal/supervisor. New
--   (Supervisor/Setup) sets the defaults; ScanOnce (Supervisor/Scan) collects each service,
--   finds its issues (Supervisor/Issues), has them analyzed within a budget, and evaluates
--   automatic recovery (Supervisor/Recovery), whose state is the map of critical failures
--   (Supervisor/Recovery/Criteria has which observations count, Streak and Persistent what
--   a count of them leads to); summarizeSnapshot is Supervisor/Summary. Supervisor/Objects
--   has the types.
--   * Changes: the journal of changes, component/InferNex-Agent/internal/changesafety.
--   Changes/Record has ChangeRecord and its validation, Changes/Memory the MemoryStore,
--   which is the abstract journal, Changes/Files the FileStore with its files, and
--   Changes/Refinement shows that the second implements the first. The JSON encoding is the
--   parameter Codec.
--   * Remediator: automatic recovery, component/InferNex-Agent/internal/remediator.
--   Remediator has the types and the parameter Api, Remediator/Check verifyPreconditions
--   and verifyRecovery, Remediator/Create the creation within its journal entries,
--   Remediator/Ensure EnsureRecovery, and Remediator/Start Start, all of remediator.go;
--   Remediator/Authorized and Remediator/Ensured have what a created or kept recovery
--   service rests on, Remediator/Closed how Start closes the changes that a crash has left
--   open.
--   * Diagnostics: Compare of component/InferNex-Agent/internal/diagnostics, the health
--   gate of an experiment. Diagnostics has the part of the types that it reads and its
--   counts, Diagnostics/Compared what it reports.
--   * Artifacts: the store of large tool results of a chat session, artifactStore of
--   component/InferNex-Agent/internal/chat/artifact.go: put, and read in Artifacts/Read.
--   Artifacts/Budget has the limit, Artifacts/Pages the scan of the lines, Artifacts/Lines
--   the count of them, and Artifacts/Roundtrip put followed by read.
--   * Experiment: progressive experiments, component/InferNex-Agent/internal/experiment.
--   Experiment has the types and the parameter Api; Experiment/Machine the actions and the
--   triples that their proofs chain, with a log of the services that are read, created and
--   deleted and of the plans that are saved; Experiment/Validate and Experiment/Create a
--   new plan; Experiment/Candidate ensureCandidate and the deletion of a candidate;
--   Experiment/Stages passStage and failStage; Experiment/Gate runSLOGate;
--   Experiment/Monitor monitorStage; Experiment/Plans runStage and runPlan.
--   Experiment/Progress has what holds of every saved plan, and its children show that each
--   action keeps it, from Reads and Saved up to Runs; Experiment/Progress/Completed has
--   what a completed plan stands for; Experiment/Created and Experiment/Validate/Sound have
--   what holds of a new plan and of its request. The comparison of two diagnoses is the one
--   of Diagnostics.
--
-- Definitions have the names of the Go functions in snake case; the body of a loop is a
-- function of its own (visit_node, visit_limit, init_step). A Go function that returns an
-- error returns an Outcome. A Go map is an association list (Prelude/Dict); where the code
-- ranges over a map, the theorems hold for every order of the list.
--
-- Code outside the repository is a parameter: Planner/Quantity has resource.Quantity with
-- the laws that its documentation promises and the integers as an instance; Cluster in
-- Planner/Generate the client and the hashes of canonical JSON; Validation in
-- Planner/Validate the name checks of k8s.io/apimachinery; Recoverer in Supervisor/Recovery
-- the context and the remediator, and Sources in Supervisor/Scan the observer, the
-- diagnoser and the analyzer. Api in Remediator has the client, the clock, the ids, the
-- encoding and the store. Api in Experiment the client, the clock, the context, the stores,
-- the diagnoser and the SLO runner; System in Artifacts has the digest, the file system and
-- strings.ToLower, whose laws IsFaithful in Artifacts/Roundtrip states. Each acts on an
-- abstract world, which a scan or a plan threads through its calls.
--
-- Fuel: the loops of monitorStage and runPlan take fuel, as their ends depend on the clock
-- and the cluster; what is shown of a run holds for every fuel. The recursion of
-- templateFingerprints is on its limit of depth. list_pages takes one more than the limit
-- of the list, and list_all-total shows that it is never used up. All other loops are
-- structural recursions.
--
-- Not modelled: the messages of errors, but for the values that they quote; the hashes;
-- logging; the clock values that snapshots report. Of the experiments, New, Start, List and
-- the files of the store; of the artifacts, the directory of a session, the encoding of a
-- result, and an argument of exactly 2^63, whose conversion to an int Go leaves to the
-- platform; of the journal of changes, Pending, whose order comes from a Go map, the
-- directories and an unstable sort. The other packages of the agent, the bridge and
-- infernex-checker are not modelled.
pub mod Prelude
pub mod Planner
pub mod Artifacts
pub mod Changes
pub mod Diagnostics
pub mod Experiment
pub mod Remediator
pub mod Supervisor

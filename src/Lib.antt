-- ===== src/Lib.antt =====
-- kube-burner: the jobs of the load generator, their configuration, hooks, metrics and alerts.
--
-- A configuration holds jobs; a job of the type `create` holds object templates. An executor reads
-- the templates of its job (setupCreateJob), and creates their replicas iteration by iteration
-- (runCreateJobDefault), or group by group where objects have groups (runCreateJobGrouped). Each
-- replica is rendered and sent to the API server by a goroutine, which counts the successful
-- creations for the stage MidPoint. Behind that, the job's namespaces or objects may be churned
-- (RunCreateJobWithChurn), the number of objects is verified (Verify), and an incremental job
-- repeats the creation with windows that grow (NewIterationCalculator). Jobs of the types `delete`,
-- `patch` and `read` list objects and call the API server for each of them. Run runs the jobs one
-- after the other, with hooks at their stages, collects their garbage, evaluates the alerts and
-- indexes summaries and metrics.
--
-- The parts, and the code that they model:
--   Config/Types: the records of pkg/config/types.go.
--   Config/Validate: the validators of pkg/config/config.go; the children prove what they accept.
--   Incremental/Calculator: the iteration windows of pkg/burner/incremental.go and of the load
--     patterns of pkg/config/types.go. Incremental/Run: RunIncrementalCreateJob.
--   Gc: gc of pkg/burner/job.go.
--   Executor: the state of pkg/burner/executor.go and pkg/burner/object.go, and the effect `M`: a
--     function from a World to an optional result with the next World. A World holds the executor,
--     a count of the questions asked, the requests under way and a trace of what was done; a Cluster
--     gives the answers of client-go, of the context and of the clock by that count, so that it can
--     be any history. No result is a panic or a log.Fatal, which end the process.
--   Waiters: waitForObjects and waitForObject of pkg/burner/waiters.go. Polls (waitForReplicas,
--     waitForPVC, waitForPod, waitForBuild, verifyCondition), Checks (what a round decides on the
--     objects that it lists), Conditions (pkg/burner/conditions.go).
--   Create: pkg/burner/create.go. Namespaces (createNamespace with CreateNamespace of
--     pkg/util/namespaces.go, preCreateNamespaces, generateNamespace), Objects
--     (groupObjectsByNumber, getGroupLifecyclePauses, the resolution of kinds), Setup
--     (setupCreateJob), Requests (replicaHandler, createRequest, notifyMidpoint), Default
--     (runCreateJobDefault, waitForCompletion), Grouped (runCreateJobGrouped, gcGroupObjects), Run
--     (RunCreateJob), Churn (churnNamespaces, churnObjects, reCreateDeletedObjects, verifyDelete,
--     the caches of cluster-scoped objects).
--   Verify: Verify of pkg/burner/utils.go.
--   Hooks: pkg/burner/hooks.go, and CollectAndLogBackgroundHookResults of pkg/burner/utils.go.
--   Jobs: the jobs that delete, patch or read. Setup (setupDeleteJob, setupPatchJob, setupReadJob of
--     pkg/burner/delete.go, patch.go and read.go, newObject of pkg/burner/object.go), Handlers (the
--     item handlers of these files), Sequential and Parallel (Run, runSequential, runParallel of
--     pkg/burner/utils.go), Does (what a program adds to the trace).
--   Kubevirt: addVolume and removeVolume of pkg/burner/kubevirt.go, with GetStringValue and
--     GetBoolValue of pkg/util/utils.go.
--   Sequence: Run of pkg/burner/job.go. Job (the body of its loop), Jobs (the loop and what comes
--     before it), Finish (garbage collection, alerts, summaries, the result). A RunState holds the
--     variables of its goroutine with the world of the job that runs.
--   Prometheus: createMetric and the queries of pkg/prometheus/prometheus.go, and in Scrape
--     ScrapeJobsMetrics.
--   Alerting: Evaluate and parseMatrix of pkg/alerting/alert_manager.go.
--   Config/Merge: ParseSetValues, setNestedValue and deepMerge of pkg/config/config.go.
--   Tests: a configuration, an executor and a cluster, and the theorems applied to them.
--   Prelude: numbers, integers of 64 bits, lists, maps and texts that the parts share.
--
-- Bounds and fuel. Go's int is an integer whose sums, differences and products wrap to 64 bits, but
-- for the counts of listed namespaces, which are taken not to. The loops of the churn and of
-- RunIncrementalCreateJob have no bound in the code: they run on fuel, with an outcome of its own
-- where it does not suffice. One more than the number of cycles is enough for the churning of
-- namespaces, and one more than the total for an incremental run. A polling makes as many rounds as
-- the cluster gives for its timeout, a creation as many attempts as the backoff gives steps, and a
-- KubeVirt volume at most 15 calls. Every other loop goes through a list.
--
-- Goroutines run one after the other: those of the replicas of an object, of the requests that are
-- waited for and of the items of an object in any order, which the cluster gives, and the ends of
-- background hooks in any order as well; those of runParallel object by object and iteration by
-- iteration. A quotient of float64s that is rounded up is that of the integers, which holds below
-- 2^53. Floats are a parameter, with the powers of the exponential pattern. Not modelled: messages
-- of the log, most texts of errors, the rendering of templates, the decoding of YAML, the
-- measurements with their informers, watchers, KubeVirt jobs but for the volumes, the image preload,
-- and the command line.
pub mod Prelude
pub mod Config
pub mod Incremental
pub mod Executor
pub mod Waiters
pub mod Create
pub mod Verify
pub mod Gc
pub mod Jobs
pub mod Kubevirt
pub mod Sequence
pub mod Hooks
pub mod Prometheus
pub mod Alerting
pub mod Tests

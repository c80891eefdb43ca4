-- ===== src/Lib.antt =====
-- Rediver SDK for Go: a model of the agent that polls jobs, executes scanners on them and reports
-- their results, with the theorems on it.
--
-- A worker agent polls the server for jobs (agent_poll.go) and submits each to a worker pool
-- (internal/worker/pool.go), whose workers execute it (agent_execute.go): a job token is minted,
-- the job's detail is fetched, the repository is prepared by git or from an artifact (job_repo.go,
-- utils/git.go), the scanner's handler runs, and what it emits is converted (convert.go) and pushed
-- in batches under a retry policy (agent_import.go, retry.go); then the job is reported. A
-- dispatcher agent (agent_dispatch.go) hands its jobs to a handler instead.
--
-- Agent/Rpc, Agent/Token and Agent/Client model internal/transport/client.go,
-- internal/auth/token.go and the loops of agent_heartbeat.go: a world keeps the RPC calls that were
-- made, whether or not one came to the server, and what a call returns, by the server, the network
-- or a context that has ended, is any function of them; Agent/Connect has the two transports of a
-- request and the clients that NewClient makes (internal/connectclient/client.go). Agent/Prepare
-- models prepareRepository and what it calls, Agent/Execute models executeJob, Agent/Beating the
-- same with the heartbeats of the job, Agent/Panics with a handler that panics, Agent/Poll the
-- rounds of both poll loops and Agent/Poll/Loops the loops. Agent/Session models the start of an
-- agent: NewAgent, initSession, RunOnce and the one-shot guard (agent.go, agent_token.go,
-- agent_run_once.go); Agent/Run the end of Run (agent_run.go) beside the steps of its pool, and
-- Stop. Worker models the pool as a machine whose steps are those of its goroutines between two
-- synchronisations, interleaved in any order; jobs are counted by where they are, and Worker/Jobs
-- has the jobs themselves; Worker/Resize adds SetSize. Scanner models scanner.go and
-- Scanner/Metadata agent_metadata.go, Samples the scanners and programs under examples/, Logger
-- job_logger.go, Exec utils/exec.go with its goroutines under a schedule, Machine utils/machine.go.
-- Retry models retry.go, Import agent_import.go, Convert convert.go with severity.go and
-- target_type.go, Result result.go, Param param.go and resolveParamsFromEnv, Config option.go, Job
-- the job_*.go files and job.go, Repo the ref specs of job_repo.go and utils/git.go, Archive the
-- extraction of artifacts, Errors errors.go. Strconv models what the code uses of the packages
-- strconv and strings, Prelude holds what all share, Examples the concrete runs.
--
-- int is 64 bits wide; a conversion to int32 wraps around. Floats, times, HTTP, gzip, tar, ciphers,
-- files and processes are parameters, with named hypotheses where a theorem needs them. The import
-- loop runs on a fuel of the list's length, which is enough since each round moves on by 500; the
-- retry loop runs on the policy's attempts, as the code counts them. The poll loops run over a list
-- of rounds, the heartbeat loops over a number of ticks, which Agent/Beating takes from any
-- function of the calls that were made, and Exec over a schedule of its goroutines, for which one
-- turn more than each stream has lines is enough. All else is structural.
--
-- Not modelled: the log lines of the agent on the console, what a handler writes to the job's log,
-- the console's log handler, what the generated clients put on the wire beyond a request and its
-- header, and the parts of the sample programs that read an environment file or wait for signals;
-- version.go and ptr.go hold a constant and a one-line helper.
pub mod Prelude
pub mod Strconv
pub mod Param
pub mod Errors
pub mod Retry
pub mod Result
pub mod Convert
pub mod Config
pub mod Job
pub mod Repo
pub mod Archive
pub mod Import
pub mod Machine
pub mod Exec
pub mod Logger
pub mod Scanner
pub mod Samples
pub mod Agent
pub mod Worker
pub mod Examples

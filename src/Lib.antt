-- ===== src/Lib.antt =====
-- Testkube runs tests in a Kubernetes cluster. This library models the parts that decide what is run, what
-- a run came to, and what becomes of runs that were interrupted.
--
-- The parts and how they interact:
--
-- * pkg/api/v1/testkube (Model): the data that all parts exchange. Model.Status and Model.SuiteStatus are
--   the status types, Model.ExecutionResult and Model.Execution an execution of a test with its methods,
--   Model.Suite the steps and batches of a test suite, the start of a suite execution
--   (NewStartedTestSuiteExecution) and its count of failures, Model.StatusLists the parsing of status
--   filters, Model.Repository what a repository returns for an id.
-- * pkg/executor/output/parser.go (Output): reads the log lines of a runner back into a result. Output
--   holds the choice of the deciding log line, Output.Lines the reading of lines, Output.Results
--   ParseRunnerOutput and ParseContainerOutput.
-- * pkg/scheduler/testsuite_scheduler.go (Scheduler): executes a suite batch by batch. Scheduler.Steps is
--   executeTestStep with delayWithAbortionCheck, Scheduler.Runs runSteps, Scheduler.SuiteStarts
--   executeTestSuite.
-- * pkg/scheduler/test_scheduler.go (Scheduler): starts the execution of one test. Scheduler.Starts is
--   executeTest with the calls that it makes, Scheduler.Requests its data, Scheduler.Options
--   getExecuteOptions, Scheduler.Merge the functions that merge a request with a test, Scheduler.Secrets
--   createSecretsReferences.
-- * pkg/workerpool/service.go (WorkerPool): runs the tests of a batch, of a request or of a trigger with a
--   bounded number of workers. WorkerPool is a relation of the steps of all its goroutines; the scheduler
--   and the triggers take the order of its answers as an argument.
-- * pkg/triggers (Triggers): runs tests when a resource of the cluster changes. Triggers.Status is
--   status.go, Triggers.Scraper scraper.go, Triggers.Service the map of statuses in service.go,
--   Triggers.Matcher, Triggers.Probes and Triggers.Match the parts of matcher.go, Triggers.Executor
--   executor.go, Triggers.Lease lease.go and lease_backend.go, Triggers.Watcher the loop of watcher.go,
--   Triggers.Handlers the callbacks of its informers with event.go, Triggers.Pods its check of the pods of
--   an execution with pkg/executor/common.go, Triggers.Diff diff.go and util.go. The lease decides which
--   instance watches; the watcher's events go to the matcher, which executes triggers; the statuses
--   remember their executions, and the scraper clears them.
-- * pkg/event (Event): tells listeners (webhooks, Slack, websockets) what happens to executions.
--   Event.Listeners is CompareListeners, the reconciliation of loader.go and the events that a listener
--   wants (Event.Valid), Event.Emitter the update of listeners and subscriptions of emitter.go,
--   Event.MockBus bus/mock_bus.go. The bus is an interface with the behaviour that the emitter relies on.
-- * pkg/reconciler (Reconciler): closes executions that are stored as running although nothing runs them.
--
-- How Go is modelled: a struct is a record with the fields that the modelled code reads or writes, a
-- pointer is an Option, a map an association list, whose order stands for the order of a range. A nil
-- dereference, a write into a nil map and a slice out of bounds are `none`. Time is a number that is
-- passed in. What a package outside this repository does (the MongoDB driver, regular expressions, label
-- selectors, the JSON decoder, the HTTP client, parsing of durations) is an argument. Where a loop waits
-- for a time-out, its argument is the list of the rounds that begin before the time-out, so that the
-- recursion is on that list; all other loops are recursions on the lists that the code ranges over, and no
-- fuel is used. Goroutines that share channels are steps of a relation, and a channel takes a value while
-- it holds less than its capacity. Each operation on a trigger's status holds its lock throughout and is
-- one function, as is an update of listeners; TryAcquire is cut where other instances can run. Each test
-- has a request of its own: what one test writes into a part of the request that several share by a
-- pointer is not seen by the others.
--
-- Not modelled: logging, metrics, telemetry, tickers, the construction of Kubernetes objects, HTTP
-- handlers, the command line, and the clients of other services, which are input and output; the sending of
-- webhooks and of messages to Slack and websockets. A negative concurrency level, with which make(chan)
-- in workerpool.go panics, is not in the model, where the level is a natural number; nor is the nil
-- dereference of Spec.Replicas in diff.go, a field that the API server fills in. The bus of the model does
-- what it is asked at once and without errors: the NATS client can return errors and drains a
-- subscription in the background; only the bus of mock_bus.go is shown to meet the interface.
pub mod Base
pub mod Model
pub mod Output
pub mod Triggers
pub mod Scheduler
pub mod WorkerPool
pub mod Event
pub mod Reconciler

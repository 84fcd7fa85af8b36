-- ===== src/Lib.antt =====
-- A model of ctsubmit, a proxy that submits certificates and precertificates to Certificate
-- Transparency logs until it holds a quorum of SCTs. Paths are from the repository's root.
--
-- A request goes through the submitter. submitter/request.go settles how many SCTs of how many
-- operators it needs (Submitter.Request); submitter/compatibleLogs.go finds the logs that can take
-- the certificate (Submitter.CompatibleLogs); submitter/strategy.go orders them by what the monitor
-- knows of them (Submitter.Strategy); submitter/orchestrate.go submits to them concurrently
-- (Submitter.Orchestrate) and keeps count in a quorumState of submitter/quorum.go
-- (Submitter.Quorum). One submission is submitter/submitToLog.go (Submitter.SubmitToLog): its
-- goroutine sends events to the coordinator and records incidents with the monitor.
--
-- The monitor keeps five kinds of backoff for each log (monitor/backoffHandler.go, Monitor.Backoff),
-- windows of recent outcomes and response times (monitor/metrics.go, Monitor.Samples), uptimes of
-- the logs' endpoints (monitor/uptimeFetcher.go, Monitor.Uptime) and their latest tree heads
-- (monitor/sthMonitor.go, Monitor.Sth). Monitor.Init fills the maps of backoffs and uptimes for the
-- monitored logs and fetches the uptimes from the reply on. Monitor.State puts them together as the
-- strategy reads them.
--
-- A struct is a record and a method a function from the old state to the new. Names are the
-- source's in antt's spelling: `trim_to_quorum` is trimToQuorum. A Go map is an association list,
-- a set a list of its keys, an error or an early return a constructor of a result type, a text
-- that fmt puts together the data that it prints. Times are nanoseconds in the native numbers, a
-- conversion to int64 wraps where the code relies on it, and what other packages do (HTTP, JSON,
-- signatures, regular expressions, percentages as float64, the log lists) is a parameter. A loop
-- over a slice recurses on the list, and the coordinator's loop is a step for each event.
-- Goroutines show as the order of the events that they send.
--
-- The trimming of a quorum follows the source's five stages: diversity of operators, an RFC 6962
-- SCT, a static SCT, filling up, and rebuilding the lists. Submitter.Quorum.Select, Drop, Stages,
-- Swap and Exact follow the selection through these stages, and Trimmed puts them together.
--
-- submitter/handler.go puts these parts together (Submitter.Handler for what stands before the
-- submission, Submitter.Handler.Finish for what follows): the response is made from the SCTs that
-- the submission returns, and submitter/ctlint.go reads the findings on the final certificate
-- (Submitter.Ctlint). What Handle calls in other packages is the record `Services`, with the thin
-- wrappers pki.MarshalSCTList, GenerateMimicSCTs and MakeDummyCertificate around such calls.
--
-- pki/chain.go caches validations of chains (Pki.Chain), pki/discovery.go extends a chain by a table
-- of optimal parents (Pki.Discovery), which cmd/optimalparents/main.go computes (OptimalParents for
-- its search, OptimalParents.Selection for what it writes), and pki/finalTBSCertificate.go takes the
-- poison out of a precertificate and embeds the SCTs (Pki.FinalTbs). loglists/filter.go builds the
-- log lists (LogLists.Filter, LogLists.Intersect), loglists/logNames.go names logs (LogLists.Filter),
-- and loglists/customTestLogs.go replaces the test logs (LogLists.CustomTestLogs). health/health.go is Health.
--
-- Two loops run on fuel: a chain is extended at most once for each row of the table and once more,
-- and the search for chains takes at most one node more off its queue than there are certificates.
--
-- request/post.go and endpoint/endpoint.go answer a POST request (Post), with the response formats of
-- config/config.go: Handle is a parameter there, its outcomes are those of the model. Whether the
-- deadline has passed is read twice, as POST does.
--
-- Not modelled: the HTTP server, the pages, configuration, logging, metrics for Prometheus,
-- the reading of files, the dummy certificate and the mimic SCTs. The monitor's timer loops and the
-- first filling of its tree heads are left out. Locks are left out: an operation on the monitor is one
-- step.
pub mod Prelude
pub mod Monitor
pub mod Pki
pub mod OptimalParents
pub mod LogLists
pub mod Health
pub mod Submitter
pub mod Post
pub mod Examples

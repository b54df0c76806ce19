-- ===== src/Lib.antt =====
-- Ruptura: the core of the failure prediction server, in workdir/internal of the repository, with parts of
-- its operator in workdir/operator.
--
-- The program. Collectors feed readings of pods (memory, CPU throttling, restarts, replicas, events) to
-- the tracker of failure modes, which keeps an estimator per pod and reports for each workload the
-- failure that comes first. The alerter compares KPI values with rules and sends alerts on a channel.
-- The event bus keeps a log of what happened to the fleet, the history a short series per workload,
-- and the action engine turns rupture events into recommendations, which are limited and ordered. The
-- discovery cache holds the workloads and pods of the cluster, the call graph what calls what, fusion one
-- index from four pipelines, the correlator matches bursts of log lines with falls of a score, and the
-- buses carry events out. A receiver turns lines of text into metrics, the topology derives calls from the
-- spans of traces, and the store keeps series, logs, spans and snapshots under ordered keys. The
-- operator deploys the server.
--
-- The files.
--   Base and below: names of the libraries; Booleans, lists, Go maps, windows, times and float64.
--   FailureModes/Estimate: Estimate and urgency (failuremodes/saturation.go, condition.go).
--   FailureModes/Condition: Condition.Observe (condition.go); Condition/Trace: its histories.
--   FailureModes/Slopes: pairSlopes, slopeBand, failureBand, theilSen, sustained (band.go, saturation.go).
--   FailureModes/Saturation: Saturation.Observe (saturation.go); its window and its estimates below it.
--   FailureModes/Release, Divergence, Recurrence: release.go, divergence.go, recurrence.go
--     (lemmas in Recurrence/Forecast).
--   FailureModes/Tracker: the maps of Tracker and the counting of failures (tracker.go, trackrecord.go);
--     Observe: every Observe, Note, Restore and Prune; Worst: the ranking; Report: TrackRecord and the
--     other reports (also replicas.go, rollout_oom.go, events.go, recent.go). The other files below it
--     hold lemmas: Rank, Bounds, Restarts, Outcomes, Freshness and Run (any sequence of calls).
--   Alerter: the state of alerter/alerter.go; Rules: the rule list; Windows: maintenance windows;
--     Evaluate: Evaluate and FireRupture; Registry: queries and edits of alerts. Lemmas: Delivery,
--     Index, Suppression, Refire, Handled and Rules/Edits.
--   Alerter/Grouping: alerter/grouping.go with its view of the topology, with lemmas in
--     Visibility and Reuse.
--   Events: events/events.go, with lemmas in Log and Bands. History: history/history.go.
--   CallGraph: callgraph/graph.go, with Callers (the search against the calls); Calls, Frontier, Rounds and
--     Reach hold the lemmas on the search. Declares says which edges a cluster declares, and Edges,
--     Declared, Mentions and Declarations hold the lemmas on Build.
--   Discovery: discovery/cache.go and changes.go; Discovery/Watch: metadata.go; Pods, Keys and Changes
--     hold lemmas.
--   EventBus: MemBus of eventbus/eventbus.go and kafka.go, with lemmas in Live; EventBus/Nats: the
--     steps of NatsBus, with sequences of them in Flow and lemmas in Thins, Moves and
--     Interleaving.
--   Fusion: fusion/fusion.go, with lemmas in Fusion/Ready.
--   Correlator: correlator/correlator.go, with the lemmas in Correlator/Bursts, and its service edges in
--     Correlator/Spans; bursts.go in Correlator/Detector, with lemmas in Correlator/Detector/Bounds.
--   Ring: CircularBuffer of pkg/utils/utils.go, with lemmas in Slots and Contents.
--   Receiver: receiver/dogstatsd.go and bus.go, with lemmas in Receiver/Lines.
--   Topology: analyzer/topology.go, with lemmas in Totals and Pruning.
--   Storage: the keys and the single reads and writes of storage/storage.go; Series: metrics, KPIs and
--     signals; Records: the other records; Logs: logs and spans; Purge: purges; Snapshots: the latest
--     snapshots; Retention: storage/retention.go. Keys, Ranges, Writes, Segments, Windows, Removal,
--     Compaction, Fresh and Tokens hold lemmas, and Memory is a database for the examples.
--   Operator: ownership.go and conditions.go of workdir/operator, with lemmas in Claim and Transition;
--     Operator/Validate: validate.go and the checks of inputs.go; Operator/Requirements: what a spec
--     must be, with lemmas in Deployable, Valid, References, Ways and Deployed.
--   Context: context/manual.go and context/deployment.go, with lemmas in Context/Expiry.
--   Actions: actions/engine/engine.go in Engine (lemmas in Engine/Queue), actions/safety/safety.go in
--     Safety (lemmas in Safety/Limits), actions/arbitration/arbitrator.go in
--     Arbitration (lemmas in Arbitration/Order).
--   The modules called Examples: the theorems at concrete inputs.
--
-- The correspondence. A method that changes its receiver is a function from the state to the new state,
-- with the results beside it. A method that holds its lock while it runs is one step, so an interleaving of
-- callers is a sequence of calls; NATSBus has no lock, and each operation on its channel is a step. A Go map is an association list, whose order stands for one order of iteration.
-- A time is a number of nanoseconds, the zero time is 0, and a call that reads time.Now() takes the
-- reading as an argument. A difference of times that can be negative is an integer; where only its
-- comparison with a positive duration matters, it is the truncated difference, which decides alike. Go's
-- int and int64 are unbounded here. A float64 is any type with the operations of Base/Floats, about
-- which nothing is assumed but what a theorem names. Random identifiers are entries of a stream, and
-- texts that fmt formats are arguments. A channel is the list of what is sent and not yet received.
--
-- Bounds and fuel. The limits are the constants of the code (120 readings, 64 restart times, 2048
-- outcomes, 300 events, 120 points, 256 recommendations, 512 changes, 4096 queued events). sort.Search
-- runs on fuel, one round for each element, and each round halves the range; a purge runs on fuel, one
-- round for each key, and each round deletes up to a thousand; Callers runs on fuel, one
-- round for each edge and one for the target, and gives nothing if that were not enough. Sorting is by
-- insertion, which gives one of the orders that Go's unstable sort may give.
--
-- Outside code. The host pattern of the call graph and the lower case of texts (HostText), json.Marshal
-- (`none` is its error), the parsing and formatting of times (Clock), the API of the cluster (Api), and
-- square roots and absolute values (Maths) are parameters. The database Badger is the interface
-- Database with the laws IsLawful, and the encoding of what is stored is Json, which some theorems
-- assume IsFaithful. strconv.ParseFloat is `parse_float`, and
-- time.ParseDuration, url.Parse and the quoting of texts are parameters of the validation. IsApi and
-- IsVersioned state what the API of Kubernetes documents of resource versions.
--
-- A read of the database does not fail, an entry that expires leaves it without the code, and the times
-- of keys are from 1970 to 2262.
--
-- Not modelled: the list view of traces (QueryTraceList), the network, Kubernetes and database
-- clients, the HTTP handlers, the collectors, the composite KPIs of the analyzer, the OTLP receivers,
-- the forecasting pipelines, and the manifests of the operator.
-- Of the action engine, YAML decoding and the delivery of its messages are outside: the decoder is a
-- parameter, and the published messages are a list.
pub mod Base
pub mod FailureModes
pub mod Alerter
pub mod CallGraph
pub mod Discovery
pub mod EventBus
pub mod Events
pub mod Fusion
pub mod Receiver
pub mod Ring
pub mod Storage
pub mod Topology
pub mod History
pub mod Context
pub mod Correlator
pub mod Actions
pub mod Operator
pub mod Examples

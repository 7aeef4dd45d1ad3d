-- ===== src/Lib.antt =====
-- GPU autoscaler: a model of the Go packages that place GPU workloads and scale the nodes they run on.
--
-- The program watches a Kubernetes cluster. pkg/scheduler packs pending GPU pods on nodes,
-- pkg/autoscaler/controller.go adds nodes to the cluster and takes nodes away, and
-- pkg/cost/budget_controller.go watches what a budget has spent, alerts, and throttles the
-- autoscaling policies when it is exceeded. All read the cluster through the Kubernetes API, and the
-- autoscaler acts on it through a cloud provider. Beside the controller pkg/autoscaler predicts the
-- load and moves pods off spot nodes that are about to end. pkg/cost also works out prices and what
-- running pods have cost, which the budgets read. pkg/sharing rewrites pods so that they share a
-- GPU, and pkg/webhook does so when a pod is admitted. pkg/cost stores costs and savings in a
-- database, attributes them to teams and namespaces, reports the return on the investment and sends
-- alerts. pkg/metrics asks Prometheus how GPUs are used, and pkg/controller recommends better use.
-- What comes from outside (lists of nodes and pods, metrics, a prediction, answers of the provider,
-- the time) is an argument; the calls that the code makes are a list that it returns.
--
-- Prelude: tests, lists, Go maps (association lists that may be nil), results with Go's wrapped
--   errors, integers with the wrap-around of `int` at 64 bits, times in nanoseconds, and the numbers of
--   type float64 as a parameter with the facts of IEEE 754 that proofs use as a hypothesis. Prelude.Fixed
--   is an instance that meets them, for tests. An error's text is kept without the values formatted in it.
-- Kube: the fields of pods and nodes that the code reads.
-- Scheduler (pkg/scheduler/binpacking.go). Model: the structs. Select: `selectNode` and the
--   strategies. Pack: `PackWorkloads`, whose `sort.Slice` is a parameter. Discover: `getGPUNodes`,
--   `getPendingGPUWorkloads`. Report: the report on consolidation and the fragmentation of the GPUs. The
--   other modules are proofs.
-- Autoscaler (pkg/autoscaler/controller.go). Model: the structs. Observe: the helpers that read the
--   cluster. Decide: `analyzeClusterState` and what it calls. Execute: `executeScalingAction`, `scaleUp`,
--   `scaleDown`, `drainNode`, `recordScalingEvent` and `Reconcile`. The other modules are proofs.
--   A drain sees the answers at the ticks before its timeout as a list; a reconciliation reads the clock
--   once while it decides; a prediction is always at hand when the configuration enables it.
-- Budget (pkg/cost/budget_controller.go, with the types of pkg/apis/v1alpha1). Model: budgets and the
--   policies they throttle. Spend: `getScopePods`, `calculateScopeSpend` and `isGPUPod` of
--   pkg/cost/tracker.go. Status: `updateBudgetStatus` and `checkAlerts`. Enforce: `enforceBudget` and
--   `throttleResources`. Reconcile: `Reconcile`. Breakdown: `buildCostBreakdown`. The other modules
--   are proofs. The clock is read once in a reconciliation, the tracker's cache at one moment, and
--   recorded events are left out. A time in a status is kept whole, where the API keeps seconds.
-- Sharing (pkg/sharing). Mig: the table of profiles, `GetMIGProfile` and `ConvertPodToMIG`, where
--   `none` stands for an error or a panic. Nodes: the other operations of mig.go. Mps: mps.go.
--   TimeSlicing: timeslicing.go. Savings: the three savings reports. The other modules are proofs.
-- Predictive (pkg/autoscaler/predictive_scaler.go). Patterns: `updatePatterns` and what it calls.
--   Forecast: `PredictFutureLoad`, `AnalyzeBusyPeriods` and `GetPreWarmSchedule`. The loop of
--   `analyzePattern` runs on fuel: eight rounds are enough for its week. The collector's answers and
--   the calendar of the process are arguments. Neglect puts the forecasts together with Autoscaler.
-- Spot (pkg/autoscaler/spot_orchestrator.go). Model: `checkSpotTerminations`, `handleSpotTermination`.
--   Evict: `gracefullyEvictPods` and what it calls. Market: metrics, recommendation, bid, placement.
--   Steps: checks and the ends of evictions as steps in any order. Notices and Checks: what a check does
--   for the node of a name. The other modules are proofs.
-- Cost (pkg/cost/pricing.go, pkg/cost/tracker.go). Tables: the prices and the names of machines.
--   Pricing: `GetGPUPricing` and the fetches. Labels: what is read off pods and nodes. Tracker:
--   `updateCosts`, `calculatePodCost` and the sums. The other modules are proofs. The tracker calls the
--   pricing client for each new pod and hands its state on.
-- Webhook (pkg/webhook/mutating_webhook.go). Handler: `Handle`, which calls the conversions of Sharing,
--   with `none` for a panic. The other modules are proofs.
-- Database (pkg/cost/timescaledb.go). A table is the list of its rows, and what it keeps of a
--   moment, which are microseconds, is an argument. Costs, Savings and History: the statements on the
--   three tables. Series: the two time series. A query with GROUP BY is a fold over the rows that it
--   keeps.
-- Attribution (pkg/cost/attribution_controller.go). Select: the pods that count. Status and Savings: the
--   figures, from the tracker's cache and the database. Reconcile: `Reconcile`.
-- Roi (pkg/cost/roi_reporter.go). Savings: the savings by type. Report: `GenerateReport`. Agreement puts
--   Roi together with Attribution.
-- Alerts (pkg/cost/alerter.go). Send: `SendAlert` and its channels; the requests made are a result.
-- Metrics (pkg/metrics/collector.go). Collector: `GetGPUMetrics`. Waste: `GetWasteMetrics`.
-- Gpu (pkg/controller/gpu_controller.go). Controller: `Reconcile` with the answers of Metrics. Analyses:
--   the runs of the scheduler's report and of the sharing managers.
--
-- The other loops are recursions on the list they run over, without fuel. Numbers of nodes and pods are
-- assumed to be at most 2 ^ 52 where they pass through float64, which holds them exactly.
--
-- Not modelled: logging, the Prometheus gauges and counters, the requests that the cloud providers
-- send, the start of the webhook's server, the schema of the database and the command line: they are
-- I/O or print what other parts work out. Generated copies of the API's types are left out too.
pub mod Prelude
pub mod Kube
pub mod Scheduler
pub mod Autoscaler
pub mod Sharing
pub mod Budget
pub mod Predictive
pub mod Spot
pub mod Cost
pub mod Webhook
pub mod Database
pub mod Attribution
pub mod Roi
pub mod Metrics
pub mod Gpu
pub mod Alerts

-- ===== src/Lib.antt =====
-- Shedpilot, an operator for Kubernetes that sheds load: a verification library.
--
-- The program reads an AdaptivePolicy, scrapes the metrics of the pods that it selects, evaluates
-- the policy's triggers on what it scraped and switches the profile of the policy's filters. A
-- profile goes out over RTDS to the Envoys that are connected, or through the resources of the
-- mesh.
--
-- - Common: what the other modules share. Dict is Go's map with text keys, an association list
--   whose order is the order of a range; Float is float64 and the conversions of strconv and fmt,
--   an interface with the laws of `<` that proofs need; Int has Go's signed integers, whose `++`
--   wraps around at 2^31 for int32 and at 2^63 for int and int64.
-- - Api (api/v1alpha1/adaptivepolicy_types.go): the spec, the status and the predicate methods. A
--   pointer that may be nil is an Option, a named string type is a text.
-- - Trigger (internal/trigger/evaluator.go): Condition has conditionMet, Evaluate has Evaluate with
--   the loop over the triggers, their guards, counters and cooldowns. An evaluation reads the clock
--   once; the counters are int32. The modules below it have the facts of one evaluation (Firing,
--   Counters, Presses) and of sequences of evaluations (Runs, Streak, Cooldown).
-- - Poller (internal/signal/poller.go): Config has withDefaults, Tick has the debounce of a scrape
--   and isBreaching, Channel has sendNonBlocking step by step, with the reconciler's receives in
--   between, Run has NewPoller, Run and the tick over the scraper.
-- - Scraper (internal/signal/scraper.go): ReadSignals over the listed pods and what scraping each
--   of them gives; Visits has what the loop over the pods leaves behind, Shared has two policies
--   that are read in turn, Twice two readings of the same pods. Text has what the parser takes of
--   Go's package strings, on lists of characters in place of bytes: all that it searches for is
--   ASCII. Parser has scrapePod over the answer to its request, parseMetrics, parsePromLine,
--   extractLabel and httpClass; Entries has the lines of samples, as they are printed, Served goes
--   from such texts to the signals.
-- - Rtds (internal/rtds/client.go): Server has the streams, the current values, and what the
--   sidecar at the other end of each stream was sent last; StreamRuntime is split at its unlock
--   into register and the replay. Sync has the runs of whole operations, Races has two
--   interleavings, Outstanding has every interleaving of the locks and the single sends (Settled
--   has what the sidecars hold in them), Stream has StreamRuntime for one connection with nothing
--   in between. Client has the client that prints the values and pushes them.
-- - Renderer (internal/renderer): Json has the values that go into a resource, Result has
--   interface.go and the shared helpers, Istio and Cilium have the two renderers, Detect has
--   detect.go, Layers has the names of the runtime layers. The two error results of the filters'
--   functions are never an error in the source, and are left out.
-- - Controller (internal/controller/adaptivepolicy_controller.go): Manager has what the reconciler
--   and the cluster hold and what a reconcile meets, Reconcile has Reconcile as the composition of
--   its steps, with the early returns. The steps are Pollers (ensurePoller and the deletion path
--   over the goroutines that run), Validate (validatePolicy, evaluateAndSwitch) with Messages,
--   Conditions (setCondition, markDegraded and the decision history), Prune and Deliver (what is
--   applied, deleted and pushed; Pushes has what the pushes leave at the sidecars), FilterEffective
--   (the condition of that name), Report (the status) and Detection (pollerConfig, scrapeInterval).
--   The modules below Reconcile have the ways in which one ends (Cases), what it leaves of the
--   trigger states (Memory), and the reconciles that stop (Stops), act (Acts, Level), switch with a
--   connected client (Delivers) and without (Switch), are refused the switch (Refused), recover
--   (Recovers), end before their last step (Short), and sequences of them (Runs, Sheds, Specs,
--   Verdicts). The receive of a poller's signal is in Poller.Channel; the signal received is what
--   the reconcile meets.
-- - System: the reconciler, the server and the sidecars together, as runs of whole reconciles while
--   sidecars come and go. InSync and Persists have what the sidecars hold in them, Lost has a
--   switch whose policy cannot be read again. Watched has the reconciler with the pollers that it
--   starts, whose signals it takes (Judged); the answers of patches, which the client decodes into
--   the same policy, are left out.
-- - Process (cmd/main.go): main with its flags, and the exits where a call of the libraries fails.
-- - Tests: the theorems at concrete inputs, over an arithmetic of thousandths in the place of
--   float64.
--
-- No definition needs fuel: every loop is a recursion on a list.
--
-- Not modelled: the HTTP request of the scraper and its limit of 4 MiB, the registration of the
-- scheme (cmd/main.go), logging, the gRPC transport and the Kubernetes client. What listing pods
-- and daemon sets returns, the answers to writes, fmt's %q and sort.Strings are arguments. A
-- reconcile reads the clock once, and it is one step: what other goroutines do meanwhile is in what
-- it meets. Render errors, which no renderer returns, and the patch of the status, whose failure is
-- only logged, have no branch. Whether a stream is open is a function that the operations only
-- read.
pub mod Common
pub mod Api
pub mod Trigger
pub mod Poller
pub mod Scraper
pub mod Rtds
pub mod Renderer
pub mod Controller
pub mod System
pub mod Process
mod Tests

-- ===== src/Lib.antt =====
-- A verification library for cigar, a bot that posts the resource usage of GitLab CI pipelines on
-- merge requests and answers commands there.
--
-- How the parts interact. GitLab delivers a webhook; internal/webhook authenticates it, and puts a
-- finished pipeline or a command note on the bounded queue of cmd/bot/serve.go. A worker takes the
-- events off. For a pipeline, internal/reporter lists its jobs through internal/gitlab, finds each
-- job's pod and usage, has internal/report render a note under a signed marker, and upserts it on the
-- merge request. For a note, internal/command parses the command, checks that it answers a note of the
-- bot's with a valid marker, and replies with charts or with the advice of internal/advice.
--
-- Files and code:
--   Queue: `queue` of cmd/bot/serve.go. The channel is a list; `enqueue` is `Enqueue`, `receive` the
--     worker's receive. Queue/Interleaving has its atomic steps as a relation on worlds.
--   Worker: `worker`, `process`, `processNote` and `buildAuthenticator` of cmd/bot/serve.go; `work` runs
--     over the events that the queue hands on.
--   Webhook/Auth: internal/webhook/auth.go; `authenticate_signed`, `authenticate_secret`.
--   Webhook/Event, Webhook/Handler: internal/webhook/handler.go; `handle` with `handle_pipeline` and
--     `handle_note`, the state being the queue and the recorded metrics.
--   Command: internal/command/command.go; `parse`. Command/Grammar has the grammar of commands as a
--     relation, Command/Parser compares the two.
--   Command/Handler: internal/command/handler.go; `handle_command` of Execution gives the acts that it
--     asks for and the error that it returns; Targets and Details are `resolveTarget` and `details`.
--   Gitlab: internal/gitlab; Find, Jobs and Upsert have `find_job`, `pipeline_jobs` and `upsert_note`,
--     Calls the operations of one call, Client the interface, Service its implementation by these
--     operations, Paging the pages of a listing as a relation.
--   Report: internal/report; Report, Bytes, Format and Render follow report.go, Marker marker.go.
--   Reporter: internal/reporter; `process_pipeline`, `build`, `job_usage`, `advise`.
--   Advice: internal/advice; the engine, and one file for each rule; BuildTool is what java_threads.go
--     finds in a trace, Render is render.go, Firing is about when the rules advise.
--   Correlate: internal/correlate; Trace and Prom are the two resolvers, `trace_pod` and `prom_pod`.
--   Chart: internal/chart. Values and Downsample have the figures of a series, Grid and Markdown the text
--     chart of markdown.go, Svg the one of chart.go, Png the image of png.go, Builtin the instance of
--     the renderers' interface.
--   Metrics: the types and interfaces of internal/metrics; Metrics/Prom and Metrics/Prom/Range are the
--     queries of prom.go, Points and Span are about the answers.
--   Config: internal/config/config.go; Resolve lays the layers of the settings over each other, `load` is
--     `Load` from the function of the keys that this gives.
--   Startup: cmd/bot/deps.go and the beginning of `serve` of cmd/bot/serve.go; `start` builds from a
--     configuration what the server runs with. Startup/Serving is what such a server does with deliveries,
--     Startup/Minimal a deployment that leaves most settings at their defaults.
--   Cli: cmd/bot/run.go, cmd/bot/advise.go and the banner of cmd/bot/main.go; Run has the two commands,
--     Banner the banner; Charts and Printing are about `run --job`.
--   Telemetry: internal/telemetry; Counts is about the metrics of the calls, LogCore is the counting of
--     log entries.
--   Text, Time, Float, Crypto: what the code uses of Go's standard library. Prelude: shared helpers.
--   Fixtures and the files named Tests hold concrete values and examples.
--
-- Conventions. A text is the list of its code points. An `int64` is an integer, wrapped around where
-- the code computes with it; a `uint64` is a natural number modulo 2^64; a time is the nanoseconds
-- since the zero time. `float64` is an interface of operations (Float). HMAC-SHA256, `encoding/json`,
-- the GitLab and Prometheus servers, the bitmap font, the encoding of PNG, the environment, viper,
-- `time.ParseDuration` and the layout of a time of day are parameters. `Load` ranges over a map of
-- required settings; the order that it meets them in is a Boolean argument. Errors are values of
-- `Result` or lists of acts with an error; a panic is `none`.
--
-- Fuel. The loops over pages run on fuel; one more than the number of pages left is enough, and the
-- theorems on them say so by the relation `Pages`. The loop of `humanBytes` has fuel for six rounds,
-- which is enough for every `uint64`, and that of `humanBytesF` recurs on the rounds left up to its
-- bound. The loop of `drawLine` has fuel; one more than the steps of the longest line is enough.
--
-- Not modelled: logging and the choice of a logger; the parsing of flags by cobra; the servers that
-- listen, their goroutines and the shutdown in cmd/bot/serve.go; the registration of the metrics,
-- their HTTP handler, and the timing of Prometheus queries in internal/metrics/prom.go; contexts and
-- timeouts.
pub mod Correlate
pub mod Cli
pub mod Crypto
pub mod Fixtures
pub mod Float
pub mod Gitlab
pub mod Metrics
pub mod Prelude
pub mod Advice
pub mod Chart
pub mod Command
pub mod Config
pub mod Queue
pub mod Report
pub mod Reporter
pub mod Startup
pub mod Telemetry
pub mod Text
pub mod Time
pub mod Webhook
pub mod Worker

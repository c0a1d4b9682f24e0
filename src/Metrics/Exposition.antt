-- ===== src/Metrics/Exposition.antt =====
-- `getMetrics` of backend/src/modules/observability/metrics.service.js, with what the process, the queue
-- and the worker registry answer in time, and `getQueueMetrics` of backend/src/queues/submission.queue.js.
use code_arena.Prelude.{
  ℕ, zero, suc, Option, none, some, List, [], ◌∷◌, ◌++◌, map, Result, ok, err, if◌then◌else◌, leb,
}
use code_arena.Prelude.Text.{Text, codes, split, join}
use code_arena.Prelude.Error.{Error}
use code_arena.Metrics.{Counter, Bucket, Histogram, Series, Metrics}

pub record QueueCounts : Type 0 where
  pub waiting : ℕ
  pub active : ℕ
  pub completed : ℕ
  pub failed : ℕ
  pub delayed : ℕ

-- What becomes of a promise: after some milliseconds it has a value or an error; or it is never settled.
pub data Promise {ℓ} (A : Type ℓ) : Type ℓ where
  settles : ℕ → Result Error A → Promise A
  hangs : Promise A

-- a race against a timer that was set before: the value of a promise that is fulfilled first
unfoldable pub with_timeout {ℓ} : {A : Type ℓ} → ℕ → Promise A → Option A
with_timeout ms (settles after (ok a)) = if leb ms after then none else some a
with_timeout ms (settles after (err e)) = none
with_timeout ms hangs = none

-- `getQueueMetrics`, with the promise of the five counts
unfoldable pub get_queue_metrics : Result Error (Promise QueueCounts) → Option QueueCounts
get_queue_metrics (err e) = none
get_queue_metrics (ok counts) = with_timeout 250 counts

-- What the lines take from outside: the figures of the process and the prints of numbers; `seconds` prints
-- a number of milliseconds in seconds, and `fixed` does so with four digits.
pub record Printer : Type 0 where
  pub uptime : Text
  pub rss : Text
  pub decimal : ℕ → Text
  pub seconds : ℕ → Text
  pub fixed : ℕ → Text

-- the n-th element of a destructured array, in a template
abbrev pub part : ℕ → List Text → Text
part n [] = codes "undefined"
part zero (s ∷ ss) = s
part (suc n) (s ∷ ss) = part n ss

abbrev pub label : Text → Text → Text
label name value = name ++ (codes "=\"" ++ (value ++ codes "\""))

unfoldable pub sample : Text → List Text → Text → Text
sample name labels value = name ++ (codes "{" ++ (join (codes ",") labels ++ (codes "} " ++ value)))

abbrev pub plain : Text → Text → Text
plain name value = name ++ (codes " " ++ value)

abbrev pub help : Text → Text → Text → List Text
help name kind text =
    (codes "# HELP " ++ (name ++ (codes " " ++ text)))
    ∷ (codes "# TYPE " ++ (name ++ (codes " " ++ kind)))
    ∷ []

abbrev pub redis_metrics_timeout : ℕ
redis_metrics_timeout = 200

-- the answer of `getQueueMetrics`, if it comes in time
abbrev pub queue_in_time : Option (Option QueueCounts) → Option QueueCounts
queue_in_time none = none
queue_in_time (some counts) = counts

unfoldable pub concat : List (List Text) → List Text
concat [] = []
concat (b ∷ bs) = b ++ concat bs

module _ (printer : Printer) where
  open printer use {decimal, seconds, fixed}

  -- a line of `codearena_http_requests_total`
  unfoldable pub http_line : Counter → Text
  http_line c =
      let parts = split b'|' c.key in
      sample (codes "codearena_http_requests_total")
        (label (codes "method") (part 0 parts)
          ∷ label (codes "route") (part 1 parts)
          ∷ label (codes "status") (part 2 parts)
          ∷ [])
        (decimal c.count)

  unfoldable pub submission_line : Counter → Text
  submission_line c =
      let parts = split b'|' c.key in
      sample (codes "codearena_submissions_total")
        (label (codes "language") (part 0 parts) ∷ label (codes "verdict") (part 1 parts) ∷ [])
        (decimal c.count)

  unfoldable pub counter_line : Text → Text → Counter → Text
  counter_line name key c = sample name (label key c.key ∷ []) (decimal c.count)

  -- the lines of a histogram, with its labels
  unfoldable pub bucket_lines : Text → List Text → List Bucket → List Text
  bucket_lines name labels [] = []
  bucket_lines name labels (b ∷ bs) =
      sample (name ++ codes "_bucket") (labels ++ (label (codes "le") (seconds b.le) ∷ []))
        (decimal b.count)
      ∷ bucket_lines name labels bs

  unfoldable pub histogram_lines : Text → List Text → Histogram → List Text
  histogram_lines name labels h =
      bucket_lines name labels h.buckets
      ++ (sample (name ++ codes "_bucket") (labels ++ (label (codes "le") (codes "+Inf") ∷ []))
            (decimal h.count)
          ∷ sample (name ++ codes "_sum") labels (fixed h.sum)
          ∷ sample (name ++ codes "_count") labels (decimal h.count)
          ∷ [])

  unfoldable pub series_lines : Text → (Text → List Text) → List Series → List Text
  series_lines name labels [] = []
  series_lines name labels (s ∷ series) =
      histogram_lines name (labels s.key) s.histogram ++ series_lines name labels series

  abbrev pub http_labels : Text → List Text
  http_labels key =
      let parts = split b'|' key in
      label (codes "method") (part 0 parts) ∷ label (codes "route") (part 1 parts) ∷ []

  abbrev queue_line : Text → ℕ → Text
  queue_line state n =
      sample (codes "codearena_queue_jobs_count") (label (codes "queue_state") state ∷ [])
        (decimal n)

  unfoldable pub queue_lines : Option QueueCounts → List Text
  queue_lines none = codes "codearena_queue_metrics_available 0" ∷ []
  queue_lines (some q) =
      (codes "codearena_queue_metrics_available 1" ∷ [])
      ++ (help (codes "codearena_queue_jobs_count") (codes "gauge")
            (codes "Current count of jobs in the BullMQ execution queue by state.")
          ++ (queue_line (codes "waiting") q.waiting
              ∷ queue_line (codes "active") q.active
              ∷ queue_line (codes "completed") q.completed
              ∷ queue_line (codes "failed") q.failed
              ∷ queue_line (codes "delayed") q.delayed
              ∷ []))

  unfoldable pub worker_lines : Option ℕ → List Text
  worker_lines none = []
  worker_lines (some n) =
      help (codes "codearena_active_workers_count") (codes "gauge")
        (codes "Number of active distributed worker daemons in Redis registry.")
      ++ (plain (codes "codearena_active_workers_count") (decimal n) ∷ [])

  -- the blocks of lines, in their order
  unfoldable pub process_lines : List Text
  process_lines =
      help (codes "codearena_process_uptime_seconds") (codes "gauge")
        (codes "Process uptime in seconds.")
      ++ (plain (codes "codearena_process_uptime_seconds") printer.uptime
          ∷ (help (codes "codearena_process_resident_memory_bytes") (codes "gauge")
                (codes "Process resident memory size in bytes.")
              ++ (plain (codes "codearena_process_resident_memory_bytes") printer.rss ∷ [])))

  unfoldable pub blocks : Metrics → Option QueueCounts → Option ℕ → List (List Text)
  blocks m queue workers =
      process_lines
      ∷ help (codes "codearena_http_requests_total") (codes "counter")
          (codes "Total number of HTTP requests processed.")
      ∷ map http_line m.http_requests_total
      ∷ help (codes "codearena_http_request_duration_seconds") (codes "histogram")
          (codes "HTTP request duration in seconds histogram.")
      ∷ series_lines (codes "codearena_http_request_duration_seconds") http_labels
          m.http_request_durations
      ∷ help (codes "codearena_submissions_total") (codes "counter")
          (codes "Total submissions evaluated by verdict and language.")
      ∷ map submission_line m.submissions_total
      ∷ help (codes "codearena_worker_jobs_total") (codes "counter")
          (codes "Total BullMQ jobs processed by worker status.")
      ∷ map (counter_line (codes "codearena_worker_jobs_total") (codes "status"))
          m.worker_jobs_total
      ∷ help (codes "codearena_worker_failures_total") (codes "counter")
          (codes "Total worker execution failures by failure type.")
      ∷ map (counter_line (codes "codearena_worker_failures_total") (codes "failure_type"))
          m.worker_failures_total
      ∷ help (codes "codearena_execution_duration_seconds") (codes "histogram")
          (codes "Code execution duration in seconds histogram by language.")
      ∷ series_lines (codes "codearena_execution_duration_seconds")
          (λ language. label (codes "language") language ∷ []) m.execution_durations
      ∷ help (codes "codearena_queue_metrics_available") (codes "gauge")
          (codes "Status of Redis queue metrics availability (1=available, 0=unavailable).")
      ∷ queue_lines queue
      ∷ worker_lines workers
      ∷ []

  unfoldable pub metric_lines : Metrics → Promise (Option QueueCounts) → Promise ℕ → List Text
  metric_lines m queue workers = concat (
      blocks m (queue_in_time (with_timeout redis_metrics_timeout queue))
        (with_timeout redis_metrics_timeout workers))

  unfoldable pub get_metrics : Metrics → Promise (Option QueueCounts) → Promise ℕ → Text
  get_metrics m queue workers = join (codes "\n") (metric_lines m queue workers) ++ codes "\n"

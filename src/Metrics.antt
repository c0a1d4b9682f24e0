-- ===== src/Metrics.antt =====
-- The counters and histograms of backend/src/modules/observability/metrics.service.js, over whole
-- milliseconds: a sum and a bucket's bound are 1000 times the source's seconds, and the rounding of
-- the sum is left out. `toUpperCase` and `toLowerCase` are parameters.
pub mod Histograms
pub mod Exposition
pub mod Counts
pub mod Routes
use code_arena.Prelude.{
  ℕ, ◌+◌, Bool, Option, none, some, List, [], ◌∷◌, ◌++◌, map, if◌then◌else◌, leb, get_or, is_nil,
}
use code_arena.Prelude.Text.{Text, codes, text_eq}
use code_arena.Prelude.Store.{find_one, update_one}
use code_arena.Metrics.Routes.{normalize_route}

pub record Counter : Type 0 where
  pub key : Text
  pub count : ℕ

pub record Bucket : Type 0 where
  pub le : ℕ
  pub count : ℕ

pub record Histogram : Type 0 where
  pub sum : ℕ
  pub count : ℕ
  pub buckets : List Bucket

-- An entry of a map of histograms.
pub record Series : Type 0 where
  pub key : Text
  pub histogram : Histogram

abbrev pub http_duration_buckets : List ℕ
http_duration_buckets = 5 ∷ 10 ∷ 25 ∷ 50 ∷ 100 ∷ 250 ∷ 500 ∷ 1000 ∷ 2500 ∷ 5000 ∷ 10000 ∷ []

abbrev pub exec_duration_buckets : List ℕ
exec_duration_buckets = 50 ∷ 100 ∷ 250 ∷ 500 ∷ 1000 ∷ 2000 ∷ 5000 ∷ 10000 ∷ []

abbrev counts_key : Text → Counter → Bool
counts_key key c = text_eq c.key key

-- `map.set(key, (map.get(key) || 0) + 1)`
unfoldable pub increment : Text → List Counter → List Counter
increment key counters = elim (find_one (counts_key key) counters) [
  | none ↦ counters ++ (record { key = key; count = 1 } ∷ [])
  | some c ↦ update_one (counts_key key) (λ d. record d { count = c.count + 1 }) counters
]

abbrev pub has_key : Text → Series → Bool
has_key key s = text_eq s.key key

unfoldable pub find_histogram : Text → List Series → Option Histogram
find_histogram key series = elim (find_one (has_key key) series) [
  | none ↦ none
  | some s ↦ some s.histogram
]

abbrev pub new_bucket : ℕ → Bucket
new_bucket b = record { le = b; count = 0 }

unfoldable pub empty_histogram : List ℕ → Histogram
empty_histogram bounds = record { sum = 0; count = 0; buckets = map new_bucket bounds }

abbrev pub raise_bucket : ℕ → Bucket → Bucket
raise_bucket value b = if leb value b.le then record b { count = b.count + 1 } else b

-- The bounds of a histogram's buckets are those that the loop runs over.
unfoldable pub add_sample : ℕ → Histogram → Histogram
add_sample value h = record {
  sum = h.sum + value;
  count = h.count + 1;
  buckets = map (raise_bucket value) h.buckets;
}

unfoldable pub set_histogram : Histogram → Series → Series
set_histogram h s = record s { histogram = h }

unfoldable pub record_histogram_sample : List ℕ → Text → ℕ → List Series → List Series
record_histogram_sample bounds key value series = elim (find_histogram key series) [
  | none ↦
      series ++ (record { key = key; histogram = add_sample value (empty_histogram bounds) } ∷ [])
  | some h ↦ update_one (has_key key) (set_histogram (add_sample value h)) series
]

-- The maps of the module.
pub record Metrics : Type 0 where
  pub http_requests_total : List Counter
  pub http_request_durations : List Series
  pub submissions_total : List Counter
  pub worker_jobs_total : List Counter
  pub worker_failures_total : List Counter
  pub execution_durations : List Series

abbrev pub bar : Text → Text → Text
bar s t = s ++ (b'|' ∷ t)

-- `language || 'unknown'`
abbrev or_else : Option Text → Text → Text
or_else none d = d
or_else (some s) d = if is_nil s then d else s

module _ (to_upper to_lower : Text → Text) where
  -- a request's method, its route, its status as a text, and its duration
  unfoldable pub record_http_request : Text → Text → Text → ℕ → Metrics → Metrics
  record_http_request method route status duration_ms m =
      let duration_key = bar (to_upper method) (normalize_route route [] []) in
      record m {
        http_requests_total = increment (bar duration_key status) m.http_requests_total;
        http_request_durations =
            record_histogram_sample http_duration_buckets duration_key duration_ms
              m.http_request_durations;
      }

  unfoldable pub record_submission_verdict : Option Text → Option Text → Metrics → Metrics
  record_submission_verdict language verdict m = record m {
    submissions_total =
        increment
          (bar (to_lower (or_else language (codes "unknown"))) (or_else verdict (codes "UNKNOWN")))
          m.submissions_total;
  }

  unfoldable pub record_execution_duration : Option Text → ℕ → Metrics → Metrics
  record_execution_duration language duration_ms m = record m {
    execution_durations =
        record_histogram_sample exec_duration_buckets
          (to_lower (or_else language (codes "unknown"))) duration_ms m.execution_durations;
  }

unfoldable pub record_worker_job : Text → Metrics → Metrics
record_worker_job status m = record m { worker_jobs_total = increment status m.worker_jobs_total }

unfoldable pub record_worker_failure : Text → Metrics → Metrics
record_worker_failure failure m = record m {
  worker_failures_total = increment failure m.worker_failures_total;
}

abbrev pub reset_metrics : Metrics
reset_metrics = record {
  http_requests_total = [];
  http_request_durations = [];
  submissions_total = [];
  worker_jobs_total = [];
  worker_failures_total = [];
  execution_durations = [];
}

-- ===== src/Tests/Observability.antt =====
-- The theorems on traces and metrics: one chain of two processes, and one history of samples.
use code_arena.Prelude.{
  ◌↔◌, arith, true, ◌≡◌, refl, false, none, some, List, [], ◌∷◌, replicate, any,
}
use code_arena.Prelude.Text.{Text, codes, text_eq, text_eq_self, one_of}
use code_arena.Prelude.Value.{Value, object, field, string, end}
use code_arena.Logger.{redact}
use code_arena.Logger.Laws.{nesting, is_clean, redact_lem}
use code_arena.Tracing.{HeaderInput, headers, text, extract_or_create_context}
use code_arena.Tracing.Matching.{IsId}
use code_arena.Tracing.Laws.{Draw, hand_on, create_child_span-chain}
use code_arena.Metrics.{http_duration_buckets, find_histogram, reset_metrics}
use code_arena.Metrics.Exposition.{Printer, hangs, metric_lines}
use code_arena.Metrics.Counts.{
  Call, HasNo, key_of, calls_of, record_calls, line_of, metric_lines-count,
}
use code_arena.Metrics.Routes.{replace_all, digits_of_segment, replace_ids, normalize_route}
use code_arena.Metrics.Histograms.{
  Sample, record_all, values_of, histogram_if_any, record_histogram_sample-history,
}

abbrev input : HeaderInput
input = headers (some (codes "00-0af7651916cd43dd8448eb211c80319c-b7ad6b7169203331-00")) none

abbrev span : Text
span = replicate 16 b'a'

abbrev draw : Draw
draw = record { new_trace = []; new_span = []; child_span = span }

trace-IsId : IsId 32 (replicate 32 b'b')
unfolding text_eq
trace-IsId = ((refl, refl), refl)

span-IsId : IsId 16 span
unfolding text_eq
span-IsId = ((refl, refl), refl)

create_child_span-chain_example :
    let c = extract_or_create_context (replicate 32 b'b') span input in
    let r = extract_or_create_context [] [] (text (hand_on (draw ∷ draw ∷ []) c.traceparent)) in
    (r.trace_id ≡ c.trace_id) × (r.trace_flags ≡ c.trace_flags) × (r.is_new ≡ false)
create_child_span-chain_example =
    create_child_span-chain input (replicate 32 b'b') span (draw ∷ draw ∷ []) [] [] trace-IsId
      span-IsId (span-IsId, (span-IsId, tt))

abbrev history : List Sample
history =
    record { key = codes "GET|/"; value = 7 }
    ∷ record { key = codes "GET|/p"; value = 20 }
    ∷ record { key = codes "GET|/"; value = 5 }
    ∷ []

record_histogram_sample-history_example :
    find_histogram (codes "GET|/") (record_all http_duration_buckets history)
    ≡ histogram_if_any http_duration_buckets (values_of (codes "GET|/") history)
record_histogram_sample-history_example =
    record_histogram_sample-history http_duration_buckets history (codes "GET|/")

-- ids in a path are replaced
route_example :
    normalize_route (codes "/users/0123456789abcdef01234567/page/12") [] []
    ≡ codes "/users/:id/page/:id"
unfolding normalize_route replace_ids replace_all digits_of_segment
route_example = refl

abbrev meta : Value
meta = object (
    field (codes "requestId") (string (codes "r"))
      (field (codes "user") (object (field (codes "password") (string (codes "x")) end)) end))

redact_lem_example :
    (is_clean (λ s. s) (redact (λ s. s) meta) ≡ true)
    × ((redact (λ s. s) meta ≡ meta) ↔ (is_clean (λ s. s) meta ≡ true))
unfolding nesting
redact_lem_example = redact_lem (λ s. s) meta (omega arith)

abbrev printer : Printer
printer = record {
  uptime = codes "1";
  rss = codes "2";
  decimal = λ n. replicate n b'1';
  seconds = λ n. codes "0";
  fixed = λ n. codes "0";
}

abbrev get_problems : Call
get_problems = record {
  method = codes "GET";
  path = codes "/problems";
  status = codes "200";
  duration_ms = 7;
}

abbrev post_login : Call
post_login = record get_problems { method = codes "POST"; path = codes "/login" }

abbrev calls : List Call
calls = get_problems ∷ post_login ∷ get_problems ∷ []

problems-normalized : normalize_route (codes "/problems") [] [] ≡ codes "/problems"
unfolding normalize_route replace_ids replace_all digits_of_segment
problems-normalized = refl

problems-HasNo : HasNo b'|' (normalize_route (codes "/problems") [] [])
problems-HasNo =
    rw problems-normalized
      (refl, (refl, (refl, (refl, (refl, (refl, (refl, (refl, (refl, tt)))))))))

problems-recorded :
    any (λ c. text_eq (key_of (λ s. s) (λ s. s) c) (key_of (λ s. s) (λ s. s) get_problems)) calls
    ≡ true
problems-recorded = rw (text_eq_self (key_of (λ s. s) (λ s. s) get_problems)) refl

metric_lines-count_example :
    one_of
      (line_of printer
        (λ s. s)
        (λ s. s)
        (codes "GET")
        (normalize_route (codes "/problems") [] [])
        (codes "200")
        (calls_of (λ s. s) (λ s. s) (key_of (λ s. s) (λ s. s) get_problems) calls))
      (metric_lines printer (record_calls (λ s. s) (λ s. s) calls reset_metrics) hangs hangs)
    ≡ true
metric_lines-count_example =
    metric_lines-count printer (λ s. s) (λ s. s) calls get_problems hangs hangs
      (refl, (refl, (refl, tt))) problems-HasNo (refl, (refl, (refl, tt))) problems-recorded

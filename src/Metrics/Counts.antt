-- ===== src/Metrics/Counts.antt =====
-- The requests that the exposition counts.
use mathlib.Core.List.{append_assoc}
use code_arena.Prelude.{
  ◌≡◌, ◌≤◌, subst, refl, ap, ◌∙◌, inl, inr, ℕ, ◌+◌, Bool, true, false, ◌||◌, Option, none, some,
  List, [], ◌∷◌, ◌++◌, map, arith, All, any, filter, length, if◌then◌else◌, ◌==◌, Option-cases,
}
use code_arena.Prelude.Text.{
  one_of, Text, codes, split, cons_head, text_eq, text_eq_self, text_eq_iff,
}
use code_arena.Prelude.Store.{find_one, update_one, find_one_passes}
use code_arena.Metrics.{
  Counter, Metrics, counts_key, increment, record_http_request, reset_metrics, bar,
}
use code_arena.Metrics.Routes.{normalize_route}
use code_arena.Metrics.Exposition.{
  Printer, QueueCounts, Promise, label, sample, http_line, concat, blocks, metric_lines,
}

-- A call of `recordHttpRequest`.
pub record Call : Type 0 where
  pub method : Text
  pub path : Text
  pub status : Text
  pub duration_ms : ℕ

-- a text without a separator
abbrev pub HasNo : ℕ → Text → Type 0
HasNo sep s = All (λ c. (c == sep) ≡ false) s

split-one : (sep : ℕ) (s : Text) → HasNo sep s → split sep s ≡ s ∷ []
unfolding split cons_head
split-one sep [] h = refl
split-one sep (c ∷ s) h = rw (split, h.0, split-one sep s h.1) refl

split-append : (sep : ℕ) (s t : Text) → HasNo sep s → split sep (s ++ (sep ∷ t)) ≡ s ∷ split sep t
unfolding split cons_head
split-append sep [] t h = ground arith
split-append sep (c ∷ s) t h = rw (split, h.0, split-append sep s t h.1) refl

module _ (to_upper to_lower : Text → Text) where
  abbrev pub key_of : Call → Text
  key_of c = bar (bar (to_upper c.method) (normalize_route c.path [] [])) c.status

  -- the calls one after the other, from no metrics
  unfoldable pub record_calls : List Call → Metrics → Metrics
  record_calls [] m = m
  record_calls (c ∷ cs) m =
      record_calls cs
        (record_http_request to_upper to_lower c.method c.path c.status c.duration_ms m)

  -- how many calls have a key
  abbrev pub calls_of : Text → List Call → ℕ
  calls_of key cs = length (filter (λ c. text_eq (key_of c) key) cs)

abbrev pub count_of : Option Counter → ℕ
count_of none = 0
count_of (some c) = c.count

count_in : Text → List Counter → ℕ
count_in key counters = count_of (find_one (counts_key key) counters)

count-append :
    (key k : Text) (counters : List Counter)
    → find_one (counts_key key) counters ≡ none
    → count_in k (counters ++ (record { key = key; count = 1 } ∷ []))
      ≡ (if text_eq key k then 1 else 0) + count_in k counters
unfolding count_in find_one
count-append key k [] e = ground arith
count-append key k (c ∷ counters) e =
    ground
      (arith, count-append key k counters, text_eq_iff c.key k, text_eq_iff key k, text_eq_self key)

count-update :
    (key k : Text) (d : Counter) (counters : List Counter)
    → find_one (counts_key key) counters ≡ some d
    → count_in k (update_one (counts_key key) (λ c. record c { count = d.count + 1 }) counters)
      ≡ (if text_eq key k then 1 else 0) + count_in k counters
unfolding count_in find_one update_one
count-update key k d [] e = ground arith
count-update key k d (c ∷ counters) e = ground (
  arith,
  count-update key k d counters,
  text_eq_iff c.key k,
  text_eq_iff c.key key,
  text_eq_iff key k,
  text_eq_self key,
  text_eq_self k,
)

count_in-nil : (k : Text) → count_in k [] ≡ 0
unfolding count_in find_one
count_in-nil k = refl

count-increment :
    (key k : Text) (counters : List Counter)
    → count_in k (increment key counters) ≡ (if text_eq key k then 1 else 0) + count_in k counters
unfolding count_in increment
count-increment key k counters = elim (Option-cases (find_one (counts_key key) counters)) [
  | inl e ↦ rw (e, increment) (count-append key k counters e)
  | inr (c, e) ↦ rw (e, increment) (count-update key k c counters e)
]

module _ (to_upper to_lower : Text → Text) where
  count-record_calls :
      (k : Text) (cs : List Call) (m : Metrics)
      → count_in k (record_calls to_upper to_lower cs m).http_requests_total
        ≡ calls_of to_upper to_lower k cs + count_in k m.http_requests_total
  unfolding record_calls record_http_request
  count-record_calls k [] m = omega arith
  count-record_calls k (c ∷ cs) m = ground (
    arith,
    count-record_calls k cs
        (record_http_request to_upper to_lower c.method c.path c.status c.duration_ms m),
    count-increment (key_of to_upper to_lower c) k m.http_requests_total,
  )

one_of-map :
    (f : Counter → Text) (counters : List Counter) (p : Counter → Bool) (c : Counter)
    → find_one p counters ≡ some c
    → one_of (f c) (map f counters) ≡ true
unfolding find_one one_of
one_of-map f [] p c e = ground arith
one_of-map f (d ∷ counters) p c e = ground (arith, one_of-map f counters p c, text_eq_self (f c))

one_of-append : (s : Text) (xs ys : List Text) → one_of s (xs ++ ys) ≡ (one_of s xs || one_of s ys)
unfolding one_of
one_of-append s [] ys = refl
one_of-append s (x ∷ xs) ys = ground (arith, one_of-append s xs ys)

one_of-concat :
    (s : Text) (bs cs : List (List Text)) (b : List Text)
    → one_of s b ≡ true
    → one_of s (concat (bs ++ (b ∷ cs))) ≡ true
unfolding concat
one_of-concat s [] cs b h = ground (arith, one_of-append s b (concat cs))
one_of-concat s (a ∷ bs) cs b h =
    ground (arith, one_of-append s a (concat (bs ++ (b ∷ cs))), one_of-concat s bs cs b h)

module _ (printer : Printer) (to_upper to_lower : Text → Text) where
  -- the line of a method, a route, a status and a number
  unfoldable pub line_of : Text → Text → Text → ℕ → Text
  line_of method route status n =
      sample (codes "codearena_http_requests_total")
        (label (codes "method") method
          ∷ label (codes "route") route
          ∷ label (codes "status") status
          ∷ [])
        (printer.decimal n)

  http_line-parts :
      (method route status : Text) (n : ℕ)
      → HasNo b'|' method
      → HasNo b'|' route
      → HasNo b'|' status
      → http_line printer (record { key = bar (bar method route) status; count = n })
        ≡ line_of method route status n
  unfolding http_line line_of
  http_line-parts method route status n hm hr hs =
      rw
        (
          append_assoc method (b'|' ∷ route) (b'|' ∷ status),
          split-append b'|' method (route ++ (b'|' ∷ status)) hm,
          split-append b'|' route status hr,
          split-one b'|' status hs,
        )
        refl

  calls_of-some :
      (k : Text) (cs : List Call)
      → any (λ c. text_eq (key_of to_upper to_lower c) k) cs ≡ true
      → 1 ≤ calls_of to_upper to_lower k cs
  calls_of-some k [] h = absurd (ground arith)
  calls_of-some k (c ∷ cs) h = ground (arith, calls_of-some k cs)

  found_counter :
      (k : Text) (cs : List Call)
      → any (λ c. text_eq (key_of to_upper to_lower c) k) cs ≡ true
      → find_one
          (counts_key k)
          (record_calls to_upper to_lower cs reset_metrics).http_requests_total
        ≡ some (record { key = k; count = calls_of to_upper to_lower k cs })
  unfolding count_in
  found_counter k cs h =
      let counted = count-record_calls to_upper to_lower k cs reset_metrics in
      let counters = (record_calls to_upper to_lower cs reset_metrics).http_requests_total in
      elim (Option-cases (find_one (counts_key k) counters)) [
        | inl e ↦ absurd (ground (arith, calls_of-some k cs h, counted, e, count_in-nil k))
        | inr (c, e) ↦
            e
            ∙ ap some (
                ground (
                  arith,
                  counted,
                  e,
                  count_in-nil k,
                  (text_eq_iff c.key k).0 (find_one_passes (counts_key k) counters c e),
                ))
      ]

  -- Whatever requests were recorded since the start, and whatever the queue and the registry answer: for
  -- each recorded request whose method, normalised route and status hold no |, the metrics have the line of
  -- these three with the number of the requests that were recorded with them.
  pub metric_lines-count :
      (cs : List Call) (c : Call) (queue : Promise (Option QueueCounts)) (workers : Promise ℕ)
      → HasNo b'|' (to_upper c.method)
      → HasNo b'|' (normalize_route c.path [] [])
      → HasNo b'|' c.status
      → any (λ d. text_eq (key_of to_upper to_lower d) (key_of to_upper to_lower c)) cs ≡ true
      → one_of
          (line_of
            (to_upper c.method)
            (normalize_route c.path [] [])
            c.status
            (calls_of to_upper to_lower (key_of to_upper to_lower c) cs))
          (metric_lines printer (record_calls to_upper to_lower cs reset_metrics) queue workers)
        ≡ true
  unfolding metric_lines blocks
  metric_lines-count cs c queue workers hm hr hs h =
      one_of-concat _ (_ ∷ _ ∷ []) _ (map (http_line printer) _) (
        subst
          (λ line.
            one_of line (
              map (http_line printer)
                (record_calls to_upper to_lower cs reset_metrics).http_requests_total)
            ≡ true)
          (http_line-parts (to_upper c.method) (normalize_route c.path [] []) c.status _ hm hr hs)
          (one_of-map (http_line printer) _ (counts_key (key_of to_upper to_lower c)) _
            (found_counter (key_of to_upper to_lower c) cs h)))

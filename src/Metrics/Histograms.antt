-- ===== src/Metrics/Histograms.antt =====
-- Histograms against the list of the samples that were recorded.
use code_arena.Prelude.{
  ℕ, ◌+◌, ◌≡◌, refl, sym, ap, ◌∙◌, inl, inr, false, Option, none, some, List, [], ◌∷◌, map, leb,
  get_or, filter, length, arith, Bool-cases, Option-cases,
}
use code_arena.Prelude.Text.{Text, text_eq, text_eq_iff, text_eq_self, text_eq-other}
use code_arena.Prelude.Store.{
  find_one, find_one-append, find_one-append_ne, find_one-update_one, find_one_passes,
  find_one-update_ne,
}
use code_arena.Metrics.{
  Histogram, Series, has_key, find_histogram, new_bucket, empty_histogram, raise_bucket, add_sample,
  set_histogram, record_histogram_sample,
}

pub record Sample : Type 0 where
  pub key : Text
  pub value : ℕ

-- The map after a history of calls, the latest first.
unfoldable pub record_all : List ℕ → List Sample → List Series
record_all bounds [] = []
record_all bounds (e ∷ older) =
    record_histogram_sample bounds e.key e.value (record_all bounds older)

-- The values recorded under a key.
abbrev pub values_of : Text → List Sample → List ℕ
values_of key history = map (λ e. e.value) (filter (λ e. text_eq e.key key) history)

abbrev pub total : List ℕ → ℕ
total [] = 0
total (v ∷ values) = v + total values

abbrev pub count_upto : ℕ → List ℕ → ℕ
count_upto bound values = length (filter (λ v. leb v bound) values)

-- The histogram of some values: their sum, their number, and for each bound the number of the values
-- that are not above it.
unfoldable pub histogram_of : List ℕ → List ℕ → Histogram
histogram_of bounds values = record {
  sum = total values;
  count = length values;
  buckets = map (λ b. record { le = b; count = count_upto b values }) bounds;
}

unfoldable pub histogram_if_any : List ℕ → List ℕ → Option Histogram
histogram_if_any bounds [] = none
histogram_if_any bounds (v ∷ values) = some (histogram_of bounds (v ∷ values))

empty-buckets :
    (bounds : List ℕ)
    → map new_bucket bounds ≡ map (λ b. record { le = b; count = count_upto b [] }) bounds
empty-buckets [] = refl
empty-buckets (b ∷ bounds) = rw (empty-buckets bounds) refl

raise-buckets :
    (v : ℕ) (values bounds : List ℕ)
    → map (raise_bucket v) (map (λ b. record { le = b; count = count_upto b values }) bounds)
      ≡ map (λ b. record { le = b; count = count_upto b (v ∷ values) }) bounds
raise-buckets v values [] = refl
raise-buckets v values (b ∷ bounds) = ground (arith, raise-buckets v values bounds)

add-histogram_of :
    (v : ℕ) (values bounds : List ℕ)
    → add_sample v (histogram_of bounds values) ≡ histogram_of bounds (v ∷ values)
unfolding add_sample histogram_of
add-histogram_of v values bounds = ground (arith, raise-buckets v values bounds)

empty-histogram_of : (bounds : List ℕ) → empty_histogram bounds ≡ histogram_of bounds []
unfolding empty_histogram histogram_of
empty-histogram_of bounds = rw (empty-buckets bounds) refl

find-none :
    (key : Text) (series : List Series)
    → find_histogram key series ≡ none
    → find_one (has_key key) series ≡ none
unfolding find_histogram
find-none key series e = elim (Option-cases (find_one (has_key key) series)) [
  | inl f ↦ f
  | inr (s, f) ↦ ground (arith, f)
]

find-some :
    (key : Text) (series : List Series) (h : Histogram)
    → find_histogram key series ≡ some h
    → (s : Series) × (find_one (has_key key) series ≡ some s) × (s.histogram ≡ h)
unfolding find_histogram
find-some key series h e = elim (Option-cases (find_one (has_key key) series)) [
  | inl f ↦ ground (arith, f)
  | inr (s, f) ↦ (s, f, ground (arith, f))
]

find-record_new :
    (bounds : List ℕ) (key : Text) (v : ℕ) (series : List Series)
    → find_histogram key series ≡ none
    → find_histogram key (record_histogram_sample bounds key v series)
      ≡ some (add_sample v (empty_histogram bounds))
unfolding record_histogram_sample find_histogram
find-record_new bounds key v series e =
    let s : Series = record { key = key; histogram = add_sample v (empty_histogram bounds) } in
    rw
      (
        record_histogram_sample,
        e,
        find_histogram,
        find_one-append (has_key key) series s (find-none key series e) (text_eq_self key),
      )
      refl

find-record_old :
    (bounds : List ℕ) (key : Text) (v : ℕ) (series : List Series) (h : Histogram)
    → find_histogram key series ≡ some h
    → find_histogram key (record_histogram_sample bounds key v series) ≡ some (add_sample v h)
unfolding record_histogram_sample find_histogram set_histogram
find-record_old bounds key v series h e =
    let (s, f, k) = find-some key series h e in
    rw
      (
        record_histogram_sample,
        e,
        find_histogram,
        find_one-update_one (has_key key) (set_histogram (add_sample v h)) series s f
            (find_one_passes (has_key key) series s f),
      )
      refl

find-record_same :
    (bounds : List ℕ) (key : Text) (v : ℕ) (series : List Series)
    → find_histogram key (record_histogram_sample bounds key v series)
      ≡ some (add_sample v (get_or (find_histogram key series) (empty_histogram bounds)))
find-record_same bounds key v series = elim (Option-cases (find_histogram key series)) [
  | inl e ↦ find-record_new bounds key v series e ∙ sym (rw e refl)
  | inr (h, e) ↦ find-record_old bounds key v series h e ∙ sym (rw e refl)
]

add-histogram_if_any :
    (v : ℕ) (values bounds : List ℕ)
    → add_sample v (get_or (histogram_if_any bounds values) (empty_histogram bounds))
      ≡ histogram_of bounds (v ∷ values)
unfolding histogram_if_any
add-histogram_if_any v [] bounds =
    ap (add_sample v) (empty-histogram_of bounds) ∙ add-histogram_of v [] bounds
add-histogram_if_any v (w ∷ values) bounds = add-histogram_of v (w ∷ values) bounds

find-record_ne :
    (bounds : List ℕ) (key other : Text) (v : ℕ) (series : List Series)
    → text_eq other key ≡ false
    → find_histogram key (record_histogram_sample bounds other v series) ≡ find_histogram key series
unfolding record_histogram_sample find_histogram set_histogram
find-record_ne bounds key other v series h = elim (Option-cases (find_histogram other series)) [
  | inl e ↦
      let s : Series = record { key = other; histogram = add_sample v (empty_histogram bounds) } in
      rw (record_histogram_sample, e, find_histogram, find_one-append_ne (has_key key) series s h)
        refl
  | inr (hist, e) ↦
      rw
        (
          record_histogram_sample,
          e,
          find_histogram,
          find_one-update_ne (has_key key) (has_key other) (set_histogram (add_sample v hist))
              series
              (λ x q. (text_eq-other key other x.key h q, text_eq-other key other x.key h q)),
        )
        refl
]

-- A map of histograms always holds, for each key, exactly what the history says: after any calls of
-- `recordHistogramSample`, with any keys, a key has no histogram if nothing was recorded under it, and
-- otherwise the one with the sum and the number of its samples and, for each bound, the number of its
-- samples that are not above the bound, so the buckets are cumulative.
pub record_histogram_sample-history :
    (bounds : List ℕ) (history : List Sample) (key : Text)
    → find_histogram key (record_all bounds history)
      ≡ histogram_if_any bounds (values_of key history)
unfolding record_all find_histogram find_one histogram_if_any
record_histogram_sample-history bounds [] key = refl
record_histogram_sample-history bounds (e ∷ older) key =
    let rest = record_histogram_sample-history bounds older key in
    elim (Bool-cases (text_eq e.key key)) [
      | inr other ↦
          rw
            (
              record_all,
              other,
              find-record_ne bounds key e.key e.value (record_all bounds older) other,
            )
            rest
      | inl same ↦
          rw
            (
              record_all,
              same,
              (text_eq_iff e.key key).0 same,
              find-record_same bounds key e.value (record_all bounds older),
              rest,
              add-histogram_if_any e.value (values_of key older) bounds,
            )
            refl
    ]

-- ===== src/Tracing/Laws.antt =====
-- Trace contexts that are handed on from one process to the next as texts.
use code_arena.Prelude.{◌≡◌, refl, inl, inr, false, List, [], ◌∷◌, All, Bool-cases, Option-cases}
use code_arena.Prelude.Text.{Text}
use code_arena.Tracing.{
  Context, HeaderInput, text, Match, is_zero_id, match_traceparent, header_value, new_context,
  context_of, extract_or_create_context, create_child_span,
}
use code_arena.Tracing.Matching.{
  IsId, IsMatch, format_match, match-format, header-format, match-IsMatch,
}

-- The ids and flags of a valid context.
abbrev pub IsValid : Match → Type 0
IsValid m = IsMatch m × (is_zero_id 32 m.trace_id ≡ false) × (is_zero_id 16 m.span_id ≡ false)

abbrev pub ids : Context → Match
ids c = record { trace_id = c.trace_id; span_id = c.span_id; trace_flags = c.trace_flags }

extract-format :
    (new_trace new_span : Text) (m : Match)
    → IsValid m
    → extract_or_create_context new_trace new_span (text (format_match m)) ≡ context_of m
unfolding extract_or_create_context
extract-format new_trace new_span m (h, t, s) =
    rw (extract_or_create_context, header-format m h, match-format m h, t, s) refl

extract-IsValid :
    (new_trace new_span : Text) (input : HeaderInput)
    → IsId 32 new_trace
    → IsId 16 new_span
    → let c = extract_or_create_context new_trace new_span input in
      IsValid (ids c) × (c.traceparent ≡ format_match (ids c))
unfolding extract_or_create_context new_context context_of
extract-IsValid nt ns input (t, tz) (s, sz) =
    elim (Option-cases (match_traceparent (header_value input))) [
      | inl f ↦ rw (extract_or_create_context, f) (((t, s, (refl, refl)), tz, sz), refl)
      | inr (m, f) ↦ elim (Bool-cases (is_zero_id 32 m.trace_id)) [
        | inl z ↦ rw (extract_or_create_context, f, z) (((t, s, (refl, refl)), tz, sz), refl)
        | inr tn ↦ elim (Bool-cases (is_zero_id 16 m.span_id)) [
          | inl z ↦ rw (extract_or_create_context, f, tn, z) (((t, s, (refl, refl)), tz, sz), refl)
          | inr sn ↦
              rw (extract_or_create_context, f, tn, sn)
                ((match-IsMatch (header_value input) m f, tn, sn), refl)
        ]
      ]
    ]

-- The random ids that one `createChildSpan` may draw: a trace, a span, and the child's span.
pub record Draw : Type 0 where
  pub new_trace : Text
  pub new_span : Text
  pub child_span : Text

-- The traceparent that arrives at the end of a chain of processes, each of which makes a child span of
-- the traceparent that it was given and hands on the child's.
abbrev pub hand_on : List Draw → Text → Text
hand_on [] traceparent = traceparent
hand_on (d ∷ draws) traceparent =
    hand_on draws (create_child_span d.new_trace d.new_span d.child_span (text traceparent)).1

hand_on-keeps :
    (draws : List Draw) (m : Match)
    → IsValid m
    → All (λ d. IsId 16 d.child_span) draws
    → (n : Match) × (hand_on draws (format_match m) ≡ format_match n)
      × IsValid n
      × (n.trace_id ≡ m.trace_id)
      × (n.trace_flags ≡ m.trace_flags)
unfolding create_child_span context_of
hand_on-keeps [] m h a = (m, refl, h, refl, refl)
hand_on-keeps (d ∷ draws) m h ((c, z), a) =
    let ((t, s, f), tz, sz) = h in
    rw (create_child_span, extract-format d.new_trace d.new_span m h)
      (hand_on-keeps draws
        (record { trace_id = m.trace_id; span_id = d.child_span; trace_flags = m.trace_flags })
        ((t, c, f), tz, z) a)

-- Whatever header a request has, the trace is kept: after any number of processes that each hand on a
-- child span, the traceparent that arrives is read back by `extractOrCreateContext` as a context that
-- is not new and has the trace id and the flags of the request's context. The ids drawn for a new
-- context and for the children's spans are hexadecimal of the right length and not all zeros.
pub create_child_span-chain :
    (input : HeaderInput) (new_trace new_span : Text) (draws : List Draw)
    (last_trace last_span : Text)
    → IsId 32 new_trace
    → IsId 16 new_span
    → All (λ d. IsId 16 d.child_span) draws
    → let c = extract_or_create_context new_trace new_span input in
      let r = extract_or_create_context last_trace last_span (text (hand_on draws c.traceparent)) in
      (r.trace_id ≡ c.trace_id) × (r.trace_flags ≡ c.trace_flags) × (r.is_new ≡ false)
unfolding context_of
create_child_span-chain input nt ns draws lt ls t s a =
    let (v, e) = extract-IsValid nt ns input t s in
    let (n, g, w, ti, tf) = hand_on-keeps draws (ids (extract_or_create_context nt ns input)) v a in
    rw (e, g, extract-format lt ls n w) (ti, tf, refl)

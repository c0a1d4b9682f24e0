-- ===== src/Tracing.antt =====
-- backend/src/modules/observability/tracing.service.js. The random ids are arguments of the calls
-- that may draw them.
pub mod Laws
pub mod Matching
use code_arena.Prelude.{
  ℕ, zero, suc, Bool, true, false, ◌&&◌, ◌||◌, ◌==◌, leb, not, Option, none, some, List, [], ◌∷◌,
  ◌++◌, if◌then◌else◌, get_or, is_nil, replicate,
}
use code_arena.Prelude.Text.{Text, codes, text_eq, trim}

pub record Context : Type 0 where
  pub trace_id : Text
  pub span_id : Text
  pub trace_flags : Text
  pub traceparent : Text
  pub is_new : Bool

-- What the callers hand over: nothing, a text, or the two headers that are read of a request.
pub data HeaderInput : Type 0 where
  absent : HeaderInput
  text : Text → HeaderInput
  headers : Option Text → Option Text → HeaderInput

-- `[0-9a-fA-F]`
abbrev pub is_hex : ℕ → Bool
is_hex c = (leb b'0' c && leb c b'9') || (leb b'a' c && leb c b'f') || (leb b'A' c && leb c b'F')

abbrev pub format_traceparent : Text → Text → Text → Text
format_traceparent trace_id span_id flags =
    b'0' ∷ b'0' ∷ b'-' ∷ (trace_id ++ (b'-' ∷ (span_id ++ (b'-' ∷ flags))))

-- `[0-9a-fA-F]{n}` at the start of a text, and what is left
unfoldable pub read_hex : ℕ → Text → Option (Text × Text)
read_hex zero s = some ([], s)
read_hex (suc n) [] = none
read_hex (suc n) (c ∷ s) = elim (read_hex n s) [
  | none ↦ none
  | some (digits, rest) ↦ if is_hex c then some (c ∷ digits, rest) else none
]

-- a dash at the start of a text, and what is left
unfoldable pub read_dash : Text → Option Text
read_dash [] = none
read_dash (c ∷ s) = if c == b'-' then some s else none

-- the version `00-`
unfoldable pub read_version : Text → Option Text
unfolding read_dash
read_version (a ∷ b ∷ s) = if a == b'0' && b == b'0' then read_dash s else none
read_version _ = none

-- The groups of a match.
pub record Match : Type 0 where
  pub trace_id : Text
  pub span_id : Text
  pub trace_flags : Text

unfoldable pub read_flags : Text → Text → Text → Option Match
unfolding read_hex
read_flags trace_id span_id s = elim (read_hex 2 s) [
  | none ↦ none
  | some (flags, rest) ↦
      if is_nil rest
      then some (record { trace_id = trace_id; span_id = span_id; trace_flags = flags })
      else none
]

unfoldable pub read_dash_flags : Text → Text × Text → Option Match
unfolding read_dash
read_dash_flags trace_id (span_id, s) = elim (read_dash s) [
  | none ↦ none
  | some rest ↦ read_flags trace_id span_id rest
]

unfoldable pub read_dash_span : Text × Text → Option Match
unfolding read_dash
read_dash_span (trace_id, s) = elim (read_dash s) [
  | none ↦ none
  | some rest ↦ elim (read_hex 16 rest) [ none ↦ none | some span ↦ read_dash_flags trace_id span ]
]

-- `TRACEPARENT_REGEX.exec(s)`
unfoldable pub match_traceparent : Text → Option Match
match_traceparent s = elim (read_version s) [
  | none ↦ none
  | some rest ↦ elim (read_hex 32 rest) [ none ↦ none | some trace ↦ read_dash_span trace ]
]

-- a header that is not empty, for `||`
abbrev full : Option Text → Option Text
full none = none
full (some s) = if is_nil s then none else some s

unfoldable pub header_value : HeaderInput → Text
unfolding trim
header_value absent = []
header_value (text s) = trim s
header_value (headers traceparent x_trace_id) = elim (full traceparent) [
  | some s ↦ trim s
  | none ↦ trim (get_or (full x_trace_id) [])
]

abbrev pub is_zero_id : ℕ → Text → Bool
is_zero_id n id = text_eq id (replicate n b'0')

unfoldable pub new_context : Text → Text → Context
new_context trace_id span_id = record {
  trace_id = trace_id;
  span_id = span_id;
  trace_flags = codes "01";
  traceparent = format_traceparent trace_id span_id (codes "01");
  is_new = true;
}

unfoldable pub context_of : Match → Context
context_of m = record {
  trace_id = m.trace_id;
  span_id = m.span_id;
  trace_flags = m.trace_flags;
  traceparent = format_traceparent m.trace_id m.span_id m.trace_flags;
  is_new = false;
}

unfoldable pub extract_or_create_context : Text → Text → HeaderInput → Context
extract_or_create_context new_trace new_span input = elim (match_traceparent (header_value input)) [
  | none ↦ new_context new_trace new_span
  | some m ↦
      if not (is_zero_id 32 m.trace_id) && not (is_zero_id 16 m.span_id)
      then context_of m
      else new_context new_trace new_span
]

-- `createChildSpan`, whose result has no `isNew`
unfoldable pub create_child_span : Text → Text → Text → HeaderInput → Match × Text
create_child_span new_trace new_span child_span parent =
    let p = extract_or_create_context new_trace new_span parent in
    (
      record { trace_id = p.trace_id; span_id = child_span; trace_flags = p.trace_flags },
      format_traceparent p.trace_id child_span p.trace_flags,
    )

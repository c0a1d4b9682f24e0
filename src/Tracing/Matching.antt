-- ===== src/Tracing/Matching.antt =====
-- The texts that the pattern of a traceparent takes, and the parts that it reads.
use code_arena.Prelude.{
  ℕ, zero, suc, ◌≡◌, refl, inl, inr, Bool, true, false, not, some, List, [], ◌∷◌, ◌++◌, length, all,
  arith, Option-cases,
}
use code_arena.Prelude.Text.{Text, is_space, trim, trim_start, trim_end}
use code_arena.Tracing.{
  text, Match, is_hex, is_zero_id, format_traceparent, read_hex, read_dash, read_version,
  read_flags, read_dash_flags, read_dash_span, match_traceparent, header_value,
}

-- `n` hexadecimal digits
abbrev pub IsHex : ℕ → Text → Type 0
IsHex n s = (length s ≡ n) × (all is_hex s ≡ true)

abbrev pub IsId : ℕ → Text → Type 0
IsId n s = IsHex n s × (is_zero_id n s ≡ false)

read_hex-append : (n : ℕ) (s r : Text) → IsHex n s → read_hex n (s ++ r) ≡ some (s, r)
unfolding read_hex
read_hex-append zero [] r h = refl
read_hex-append zero (c ∷ s) r h = ground arith
read_hex-append (suc n) [] r h = ground arith
read_hex-append (suc n) (c ∷ s) r (l, d) = ground (arith, read_hex-append n s r)

read_hex-IsHex : (n : ℕ) (s d r : Text) → read_hex n s ≡ some (d, r) → IsHex n d
unfolding read_hex
read_hex-IsHex zero s d r e = ground arith
read_hex-IsHex (suc n) [] d r e = ground arith
read_hex-IsHex (suc n) (c ∷ s) d r e = elim (Option-cases (read_hex n s)) [
  | inl f ↦ ground arith
  | inr ((digits, rest), f) ↦ ground (arith, read_hex-IsHex n s digits rest f)
]

-- A text without spaces is not trimmed.
trim_end-solid : (s : Text) → all (λ c. not (is_space c)) s ≡ true → trim_end s ≡ s
unfolding trim_end
trim_end-solid [] h = refl
trim_end-solid (c ∷ s) h = ground (arith, trim_end-solid s)

hex-solid : (s : Text) → all is_hex s ≡ true → all (λ c. not (is_space c)) s ≡ true
unfolding is_space
hex-solid [] h = refl
hex-solid (c ∷ s) h = ground (arith, hex-solid s)

read_hex-whole : (n : ℕ) (s : Text) → IsHex n s → read_hex n s ≡ some (s, [])
unfolding read_hex
read_hex-whole zero [] h = refl
read_hex-whole zero (c ∷ s) h = ground arith
read_hex-whole (suc n) [] h = ground arith
read_hex-whole (suc n) (c ∷ s) (l, d) = ground (arith, read_hex-whole n s)

all-append {ℓ} :
    {A : Type ℓ} (p : A → Bool) (xs ys : List A)
    → all p xs ≡ true
    → all p ys ≡ true
    → all p (xs ++ ys) ≡ true
all-append p [] ys h k = k
all-append p (x ∷ xs) ys h k = ground (arith, all-append p xs ys)

-- The parts of a traceparent that the regular expression takes.
abbrev pub IsMatch : Match → Type 0
IsMatch m = IsHex 32 m.trace_id × IsHex 16 m.span_id × IsHex 2 m.trace_flags

abbrev pub format_match : Match → Text
format_match m = format_traceparent m.trace_id m.span_id m.trace_flags

pub match-format : (m : Match) → IsMatch m → match_traceparent (format_match m) ≡ some m
unfolding match_traceparent read_version read_dash read_dash_span read_dash_flags read_flags
match-format m (t, s, f) =
    rw
      (
        match_traceparent,
        read_hex-append 32 m.trace_id (b'-' ∷ (m.span_id ++ (b'-' ∷ m.trace_flags))) t,
        read_dash_span,
        read_hex-append 16 m.span_id (b'-' ∷ m.trace_flags) s,
        read_dash_flags,
        read_flags,
        read_hex-whole 2 m.trace_flags f,
      )
      refl

format-solid : (m : Match) → IsMatch m → all (λ c. not (is_space c)) (format_match m) ≡ true
unfolding is_space
format-solid m ((a, t), (b, s), (c, f)) =
    all-append (λ c. not (is_space c)) m.trace_id (b'-' ∷ (m.span_id ++ (b'-' ∷ m.trace_flags)))
      (hex-solid m.trace_id t)
      (all-append (λ c. not (is_space c)) m.span_id (b'-' ∷ m.trace_flags) (hex-solid m.span_id s)
        (hex-solid m.trace_flags f))

pub header-format : (m : Match) → IsMatch m → header_value (text (format_match m)) ≡ format_match m
unfolding header_value trim trim_start is_space
header-format m h = rw (header_value, trim, trim_end-solid (format_match m) (format-solid m h)) refl

read_flags-IsMatch :
    (t s x : Text) (m : Match) → IsHex 32 t → IsHex 16 s → read_flags t s x ≡ some m → IsMatch m
unfolding read_flags
read_flags-IsMatch t s x m h k e = elim (Option-cases (read_hex 2 x)) [
  | inl f ↦ ground arith
  | inr ((flags, rest), f) ↦ ground (arith, read_hex-IsHex 2 x flags rest f)
]

read_dash_flags-IsMatch :
    (t s x : Text) (m : Match)
    → IsHex 32 t
    → IsHex 16 s
    → read_dash_flags t (s, x) ≡ some m
    → IsMatch m
unfolding read_dash_flags
read_dash_flags-IsMatch t s x m h k e = elim (Option-cases (read_dash x)) [
  | inl f ↦ ground arith
  | inr (rest, f) ↦ ground (arith, read_flags-IsMatch t s rest m h k)
]

read_dash_span-IsMatch :
    (t x : Text) (m : Match) → IsHex 32 t → read_dash_span (t, x) ≡ some m → IsMatch m
unfolding read_dash_span
read_dash_span-IsMatch t x m h e = elim (Option-cases (read_dash x)) [
  | inl f ↦ ground arith
  | inr (rest, f) ↦ elim (Option-cases (read_hex 16 rest)) [
    | inl g ↦ ground arith
    | inr ((s, y), g) ↦
        read_dash_flags-IsMatch t s y m h (read_hex-IsHex 16 rest s y g)
          (rw (f, read_dash_span, g) at e)
  ]
]

pub match-IsMatch : (x : Text) (m : Match) → match_traceparent x ≡ some m → IsMatch m
unfolding match_traceparent
match-IsMatch x m e = elim (Option-cases (read_version x)) [
  | inl f ↦ ground arith
  | inr (rest, f) ↦ elim (Option-cases (read_hex 32 rest)) [
    | inl g ↦ ground arith
    | inr ((t, y), g) ↦
        read_dash_span-IsMatch t y m (read_hex-IsHex 32 rest t y g)
          (rw (f, match_traceparent, g) at e)
  ]
]

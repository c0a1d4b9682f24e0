-- ===== src/Logger/Laws.antt =====
-- Which values a line of the log can show.
use code_arena.Prelude.{
  ◌↔◌, subst, ℕ, zero, suc, ◌≤◌, max, ◌≡◌, refl, sym, ap, inl, inr, Bool, true, false, ◌&&◌,
  if◌then◌else◌, arith, Bool-cases,
}
use code_arena.Prelude.Text.{Text, codes, text_eq, text_eq_iff}
use code_arena.Prelude.Value.{Value, Values, Fields, array, object, string, nil, cons, end, field}
use code_arena.Logger.{is_sensitive, redacted, redact_from, redact_values, redact_fields, redact}

-- How deep objects and arrays are nested in a value.
unfoldable mutual
  pub nesting : Value → ℕ
  nesting (array vs) = suc (nesting_values vs)
  nesting (object fs) = suc (nesting_fields fs)
  nesting v = 0

  pub nesting_values : Values → ℕ
  nesting_values nil = 0
  nesting_values (cons v vs) = max (nesting v) (nesting_values vs)

  pub nesting_fields : Fields → ℕ
  nesting_fields end = 0
  nesting_fields (field key v fs) = max (nesting v) (nesting_fields fs)

abbrev pub is_redacted : Value → Bool
is_redacted (string s) = text_eq s (codes "[REDACTED]")
is_redacted _ = false

-- No sensitive key, at any depth, has another value than the mark.
unfoldable mutual
  pub is_clean : (Text → Text) → Value → Bool
  is_clean low (array vs) = are_clean low vs
  is_clean low (object fs) = are_clean_fields low fs
  is_clean low v = true

  pub are_clean : (Text → Text) → Values → Bool
  are_clean low nil = true
  are_clean low (cons v vs) = is_clean low v && are_clean low vs

  pub are_clean_fields : (Text → Text) → Fields → Bool
  are_clean_fields low end = true
  are_clean_fields low (field key v fs) =
      (if is_sensitive low key then is_redacted v else is_clean low v) && are_clean_fields low fs

mark-is_redacted : is_redacted redacted ≡ true
unfolding text_eq
mark-is_redacted = refl

mutual
  unfolding redact_from nesting is_clean

  redact-clean :
      (low : Text → Text) (n : ℕ) (v : Value)
      → nesting v ≤ n
      → is_clean low (redact_from low n v) ≡ true
  redact-clean low zero (array vs) h = absurd (omega arith)
  redact-clean low zero (object fs) h = absurd (omega arith)
  redact-clean low (suc n) (array vs) h = redact_values-clean low n vs (omega arith)
  redact-clean low (suc n) (object fs) h = redact_fields-clean low n fs (omega arith)
  redact-clean low zero v h = ground arith
  redact-clean low (suc n) v h = ground arith

  redact_values-clean :
      (low : Text → Text) (n : ℕ) (vs : Values)
      → nesting_values vs ≤ n
      → are_clean low (redact_values low n vs) ≡ true
  redact_values-clean low n nil h = refl
  redact_values-clean low n (cons v vs) h =
      rw (redact-clean low n v (omega arith), redact_values-clean low n vs (omega arith)) refl

  redact_fields-clean :
      (low : Text → Text) (n : ℕ) (fs : Fields)
      → nesting_fields fs ≤ n
      → are_clean_fields low (redact_fields low n fs) ≡ true
  redact_fields-clean low n end h = refl
  redact_fields-clean low n (field key v fs) h = elim (Bool-cases (is_sensitive low key)) [
    | inl secret ↦ rw (secret, mark-is_redacted, redact_fields-clean low n fs (omega arith)) refl
    | inr open_key ↦
        rw
          (open_key, redact-clean low n v (omega arith), redact_fields-clean low n fs (omega arith))
          refl
  ]

both : (a b : Bool) → (a && b) ≡ true → (a ≡ true) × (b ≡ true)
both a b h = ground arith

is_redacted-mark : (v : Value) → is_redacted v ≡ true → redacted ≡ v
is_redacted-mark (string s) h = ap string (sym ((text_eq_iff s (codes "[REDACTED]")).0 h))
is_redacted-mark v h = ground arith

mutual
  unfolding redact_from is_clean

  clean-redact :
      (low : Text → Text) (n : ℕ) (v : Value) → is_clean low v ≡ true → redact_from low n v ≡ v
  clean-redact low zero v h = refl
  clean-redact low (suc n) (array vs) h = ap array (clean-redact_values low n vs h)
  clean-redact low (suc n) (object fs) h = ap object (clean-redact_fields low n fs h)
  clean-redact low (suc n) v h = ground arith

  clean-redact_values :
      (low : Text → Text) (n : ℕ) (vs : Values)
      → are_clean low vs ≡ true
      → redact_values low n vs ≡ vs
  clean-redact_values low n nil h = refl
  clean-redact_values low n (cons v vs) h =
      let (first, rest) = both _ _ h in
      rw (clean-redact low n v first, clean-redact_values low n vs rest) refl

  clean-redact_fields :
      (low : Text → Text) (n : ℕ) (fs : Fields)
      → are_clean_fields low fs ≡ true
      → redact_fields low n fs ≡ fs
  clean-redact_fields low n end h = refl
  clean-redact_fields low n (field key v fs) h =
      let (first, rest) =
        both (if is_sensitive low key then is_redacted v else is_clean low v)
          (are_clean_fields low fs) h in
      elim (Bool-cases (is_sensitive low key)) [
        | inl secret ↦
            rw (secret, is_redacted-mark v (rw secret at first), clean-redact_fields low n fs rest)
              refl
        | inr open_key ↦
            rw
              (
                open_key,
                clean-redact low n v (rw open_key at first),
                clean-redact_fields low n fs rest,
              )
              refl
      ]

-- Metadata whose objects and arrays are nested at most six deep is logged without secrets: no sensitive
-- key, in whatever case and at whatever depth, has another value than the mark. It is logged as it is
-- exactly if it had no secrets.
pub redact_lem :
    (to_lower : Text → Text) (meta : Value)
    → nesting meta ≤ 6
    → (is_clean to_lower (redact to_lower meta) ≡ true)
      × ((redact to_lower meta ≡ meta) ↔ (is_clean to_lower meta ≡ true))
unfolding redact
redact_lem to_lower meta h =
    let clean = redact-clean to_lower 6 meta h in
    (
      clean,
      ((λ same. subst (λ v. is_clean to_lower v ≡ true) same clean), clean-redact to_lower 6 meta),
    )

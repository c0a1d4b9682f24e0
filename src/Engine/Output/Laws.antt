-- ===== src/Engine/Output/Laws.antt =====
-- Normal forms of execution-engine/src/evaluator/output.evaluator.js, and the verdict on them.
use code_arena.Prelude.{
  ◌≡◌, refl, sym, ap, ◌⊎◌, inl, inr, ◌↔◌, true, false, ◌&&◌, ◌||◌, not, ℕ, ◌≢◌, [], ◌∷◌, ◌++◌,
  is_nil, ◌==◌, if◌then◌else◌, Bool-cases, arith, All,
}
use code_arena.Prelude.Text.{Text, is_space, is_space-lf, text_eq_iff}
use code_arena.Engine.Config.{accepted, wrong_answer}
use code_arena.Engine.Output.{
  starts_lf, replace_crlf, replace_cr, normalize_output, evaluate_output,
}
use code_arena.Engine.Output.Fold.{settle, tidy, normalize_output-tidy}

-- A text that normalisation leaves as it is.
abbrev IsSettled : Text → Type 0
IsSettled [] = Unit
IsSettled (c ∷ s) = ((c == 13) ≡ false) × (settle c s ≡ c ∷ s) × IsSettled s

settle-IsSettled : (c : ℕ) (r : Text) → (c == 13) ≡ false → IsSettled r → IsSettled (settle c r)
unfolding settle
settle-IsSettled c r n h =
    elim (Bool-cases (is_space c && (is_nil r || (not (c == 10) && starts_lf r)))) [
      | inl e ↦ rw e h
      | inr e ↦ rw e (n, rw e, h)
    ]

tidy-replace_cr-IsSettled : (s : Text) → IsSettled (tidy (replace_cr s))
unfolding tidy replace_cr
tidy-replace_cr-IsSettled [] = tt
tidy-replace_cr-IsSettled (c ∷ s) =
    settle-IsSettled (if c == 13 then 10 else c) (tidy (replace_cr s)) (ground arith)
      (tidy-replace_cr-IsSettled s)

normalize_output-IsSettled : (s : Text) → IsSettled (normalize_output s)
normalize_output-IsSettled s = rw normalize_output-tidy (tidy-replace_cr-IsSettled (replace_crlf s))

replace_crlf-of_IsSettled : (s : Text) → IsSettled s → replace_crlf s ≡ s
unfolding replace_crlf
replace_crlf-of_IsSettled [] h = refl
replace_crlf-of_IsSettled (c ∷ s) h = rw (h.0, replace_crlf-of_IsSettled s h.2)

replace_cr-of_IsSettled : (s : Text) → IsSettled s → replace_cr s ≡ s
unfolding replace_cr
replace_cr-of_IsSettled [] h = refl
replace_cr-of_IsSettled (c ∷ s) h = rw (h.0, replace_cr-of_IsSettled s h.2)

tidy-of_IsSettled : (s : Text) → IsSettled s → tidy s ≡ s
unfolding tidy
tidy-of_IsSettled [] h = refl
tidy-of_IsSettled (c ∷ s) h = rw (tidy-of_IsSettled s h.2) h.1

-- Normalising a normalised output changes nothing.
normalize_output_idempotent :
    (s : Text) → normalize_output (normalize_output s) ≡ normalize_output s
normalize_output_idempotent s =
    let h = normalize_output-IsSettled s in
    rw
      (
        normalize_output-tidy (normalize_output s),
        replace_crlf-of_IsSettled _ h,
        replace_cr-of_IsSettled _ h,
      )
      (tidy-of_IsSettled _ h)

abbrev IsBlank : Text → Type 0
IsBlank w = All (λ c. is_space c ≡ true) w

tidy-blank : (w : Text) → IsBlank w → tidy (replace_cr (replace_crlf w)) ≡ []
unfolding tidy settle replace_cr replace_crlf
tidy-blank [] h = refl
tidy-blank (c ∷ w) h = ground (arith, tidy-blank w h.1, is_space-lf)

tidy-append_blank :
    (s w : Text)
    → IsBlank w
    → tidy (replace_cr (replace_crlf (s ++ w))) ≡ tidy (replace_cr (replace_crlf s))
unfolding tidy replace_cr replace_crlf
tidy-append_blank [] w h = tidy-blank w h
tidy-append_blank (c ∷ []) [] h = refl
tidy-append_blank (c ∷ []) (d ∷ w) h = ground (arith, tidy-blank (d ∷ w) h)
tidy-append_blank (c ∷ d ∷ s) w h = ground (arith, tidy-append_blank (d ∷ s) w h)

-- White space at the end of the output is ignored, whatever comes before it.
normalize_output-append_blank :
    (s w : Text) → IsBlank w → normalize_output (s ++ w) ≡ normalize_output s
normalize_output-append_blank s w h =
    rw (normalize_output-tidy (s ++ w), normalize_output-tidy s) (tidy-append_blank s w h)

-- Windows line ends for a text.
abbrev pub to_crlf : Text → Text
to_crlf [] = []
to_crlf (c ∷ s) = let r = to_crlf s in if c == 10 then 13 ∷ 10 ∷ r else c ∷ r

replace_crlf-no_cr : (s : Text) → All (λ c. (c == 13) ≡ false) s → replace_crlf s ≡ s
unfolding replace_crlf
replace_crlf-no_cr [] h = refl
replace_crlf-no_cr (c ∷ s) h = rw (h.0, replace_crlf-no_cr s h.1)

replace_crlf-to_crlf : (s : Text) → All (λ c. (c == 13) ≡ false) s → replace_crlf (to_crlf s) ≡ s
unfolding replace_crlf
replace_crlf-to_crlf [] h = refl
replace_crlf-to_crlf (c ∷ s) h = elim (Bool-cases (c == 10)) [
  | inl e ↦ rw e (ground (arith, replace_crlf-to_crlf s h.1))
  | inr e ↦ rw (e, h.0, replace_crlf-to_crlf s h.1)
]

-- Windows line ends are judged like Unix ones.
normalize_output-to_crlf :
    (s : Text) → All (λ c. (c == 13) ≡ false) s → normalize_output (to_crlf s) ≡ normalize_output s
normalize_output-to_crlf s h =
    rw (normalize_output-tidy (to_crlf s), normalize_output-tidy s, replace_crlf-to_crlf s h)
      (ap (λ t. tidy (replace_cr t)) (sym (replace_crlf-no_cr s h)))

-- The judge accepts exactly the outputs whose normal form is that of the expected output.
pub evaluate_output_iff :
    (actual expected : Text)
    → (((evaluate_output actual expected).verdict ≡ accepted)
        ↔ (normalize_output actual ≡ normalize_output expected))
      × (((evaluate_output actual expected).verdict ≡ wrong_answer)
          ↔ (normalize_output actual ≢ normalize_output expected))
unfolding evaluate_output
evaluate_output_iff actual expected =
    grind (arith, text_eq_iff (normalize_output actual) (normalize_output expected))

pub evaluate_output_cases :
    (actual expected : Text)
    → ((evaluate_output actual expected).verdict ≡ accepted)
      ⊎ ((evaluate_output actual expected).verdict ≡ wrong_answer)
unfolding evaluate_output
evaluate_output_cases actual expected = ground arith

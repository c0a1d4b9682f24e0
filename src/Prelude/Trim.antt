-- ===== src/Prelude/Trim.antt =====
-- Laws of `trim`.
use Prim.Native.Nat.{ℕ}
use mathlib.Core.Path.{◌≡◌, refl, ap, ◌∙◌}
use mathlib.Core.List.{[], ◌∷◌}
use native.Mathlib.Omega.{arith}
use code_arena.Prelude.Text.{Text, trim, trim_start, trim_end}

pub trim_end_idempotent : (s : Text) → trim_end (trim_end s) ≡ trim_end s
unfolding trim_end
trim_end_idempotent [] = refl
trim_end_idempotent (c ∷ s) = ground (arith, trim_end_idempotent s)

trim_start_idempotent : (s : Text) → trim_start (trim_start s) ≡ trim_start s
unfolding trim_start
trim_start_idempotent [] = refl
trim_start_idempotent (c ∷ s) = ground (arith, trim_start_idempotent s)

trim_end-tail : (c : ℕ) (s : Text) → trim_end (c ∷ s) ≡ c ∷ s → trim_end s ≡ s
unfolding trim_end
trim_end-tail c s h = ground arith

trim_end-trim_start : (s : Text) → trim_end s ≡ s → trim_end (trim_start s) ≡ trim_start s
unfolding trim_start
trim_end-trim_start [] h = h
trim_end-trim_start (c ∷ s) h = ground (arith, trim_end-tail c s h, trim_end-trim_start s)

pub trim_idempotent : (s : Text) → trim (trim s) ≡ trim s
unfolding trim
trim_idempotent s =
    ap trim_start (trim_end-trim_start (trim_end s) (trim_end_idempotent s))
    ∙ trim_start_idempotent (trim_end s)

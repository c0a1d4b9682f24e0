-- ===== src/Engine/Sanitizer.antt =====
-- execution-engine/src/utils/sanitizer.js
use code_arena.Prelude.{ℕ, zero, suc, ◌+◌, ◌-◌, ◌≤◌, [], ◌∷◌, arith}
use code_arena.Prelude.{length, drop, is_nil, ◌==◌, ◌||◌, if◌then◌else◌}
use code_arena.Prelude.Text.{Text, starts_with}

-- `[/\\]?` after a match
abbrev separator_length : Text → ℕ
separator_length [] = 0
separator_length (c ∷ s) = if c == b'/' || c == b'\\' then 1 else 0

-- The length of the match of the pattern at the head of the text, 0 where it does not match.
match_length : Text → Text → ℕ
unfolding starts_with
match_length dir s =
    if starts_with dir s then length dir + separator_length (drop (length dir) s) else 0

-- `output.replace(fileRegex, '')` from left to right; `skip` units of a match are still to drop.
replace_all : Text → ℕ → Text → Text
unfolding match_length
replace_all dir skip [] = []
replace_all dir (suc skip) (c ∷ s) = replace_all dir skip s
replace_all dir zero (c ∷ s) =
    let m = match_length dir (c ∷ s) in
    let rest = replace_all dir (m - 1) s in if m == 0 then c ∷ rest else rest

unfoldable pub sanitize_output : Text → Text → Text
unfolding replace_all
sanitize_output output dir = if is_nil dir then output else replace_all dir 0 output

length-replace_all-le : (dir : Text) (k : ℕ) (s : Text) → length (replace_all dir k s) ≤ length s
unfolding replace_all
length-replace_all-le dir k [] = omega arith
length-replace_all-le dir (suc k) (c ∷ s) = omega (arith, length-replace_all-le dir k s)
length-replace_all-le dir zero (c ∷ s) =
    ground (arith, length-replace_all-le dir (match_length dir (c ∷ s) - 1) s)

-- Sanitising never lengthens an output.
pub length-sanitize_output-le : (s dir : Text) → length (sanitize_output s dir) ≤ length s
unfolding sanitize_output
length-sanitize_output-le s dir = ground (arith, length-replace_all-le dir 0 s)

-- ===== src/Engine/Output.antt =====
-- execution-engine/src/evaluator/output.evaluator.js. Both outputs are strings here.
mod Fold
pub mod Laws
use code_arena.Prelude.{ℕ, Bool, true, false, ◌&&◌, List, [], ◌∷◌, map, ◌==◌, if◌then◌else◌}
use code_arena.Prelude.Text.{Text, text_eq, trim_end, split, join}
use code_arena.Engine.Config.{Verdict, accepted, wrong_answer}

abbrev pub starts_lf : Text → Bool
starts_lf [] = false
starts_lf (c ∷ s) = c == 10

-- `.replace(/\r\n/g, '\n')`: each match loses its carriage return
unfoldable pub replace_crlf : Text → Text
replace_crlf [] = []
replace_crlf (c ∷ s) = let r = replace_crlf s in if c == 13 && starts_lf s then r else c ∷ r

-- `.replace(/\r/g, '\n')`
unfoldable pub replace_cr : Text → Text
replace_cr [] = []
replace_cr (c ∷ s) = (if c == 13 then 10 else c) ∷ replace_cr s

unfoldable pub normalize_output : Text → Text
unfolding replace_crlf replace_cr split trim_end join
normalize_output s =
    trim_end (join (10 ∷ []) (map trim_end (split 10 (replace_cr (replace_crlf s)))))

pub record Evaluation : Type 0 where
  pub is_match : Bool
  pub verdict : Verdict
  pub normalized_actual : Text
  pub normalized_expected : Text

unfoldable pub evaluate_output : Text → Text → Evaluation
evaluate_output actual expected =
    let a = normalize_output actual in
    let e = normalize_output expected in
    let is_match = text_eq a e in
    record {
      is_match = is_match;
      verdict = if is_match then accepted else wrong_answer;
      normalized_actual = a;
      normalized_expected = e;
    }

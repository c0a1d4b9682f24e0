-- ===== src/Engine/Output/Fold.antt =====
-- Normalisation as one fold over the text whose line ends are already single line feeds.
use code_arena.Prelude.{ℕ, ◌≡◌, refl, ap, ◌∙◌, inl, inr, Bool, true, false, ◌&&◌, ◌||◌, not}
use code_arena.Prelude.{
  List, [], ◌∷◌, ◌++◌, map, is_nil, ◌==◌, if◌then◌else◌, Bool-cases, arith, All,
}
use code_arena.Prelude.Text.{Text, is_space, is_space-lf, trim_end, split, join}
use code_arena.Engine.Output.{starts_lf, replace_crlf, replace_cr, normalize_output}

-- What one unit in front of a settled text becomes.
unfoldable pub settle : ℕ → Text → Text
settle c r = if is_space c && (is_nil r || (not (c == 10) && starts_lf r)) then r else c ∷ r

unfoldable pub tidy : Text → Text
unfolding settle
tidy [] = []
tidy (c ∷ s) = settle c (tidy s)

-- The same without the last `trimEnd`: a text that ends, or goes on with a line feed, takes no
-- other white space in front.
abbrev boundary : Text → Bool
boundary r = is_nil r || starts_lf r

clean : Text → Text
clean [] = []
clean (c ∷ s) = let r = clean s in if is_space c && (not (c == 10) && boundary r) then r else c ∷ r

-- The lines joined, with a first line in front.
joined : Text → List Text → Text
joined l [] = l
joined l (m ∷ ls) = l ++ 10 ∷ join (10 ∷ []) (m ∷ ls)

abbrev NoLf : Text → Type 0
NoLf l = All (λ c. (c == 10) ≡ false) l

join-joined : (l : Text) (ls : List Text) → join (10 ∷ []) (l ∷ ls) ≡ joined l ls
unfolding joined join
join-joined l [] = refl
join-joined l (m ∷ ls) = refl

boundary-joined : (l : Text) (ls : List Text) → NoLf l → boundary (joined l ls) ≡ is_nil l
unfolding joined
boundary-joined [] [] h = refl
boundary-joined [] (m ∷ ls) h = refl
boundary-joined (c ∷ l) [] h = h.0
boundary-joined (c ∷ l) (m ∷ ls) h = h.0

trim_end-NoLf : (l : Text) → NoLf l → NoLf (trim_end l)
unfolding trim_end
trim_end-NoLf [] h = tt
trim_end-NoLf (c ∷ l) h = ground (arith, trim_end-NoLf l h.1)

-- The text before its first line feed, and the other lines.
record Lines (s : Text) : Type 0 where
  first : Text
  rest : List Text
  is_split : split 10 s ≡ first ∷ rest
  no_lf : NoLf first
  is_clean : joined (trim_end first) (map trim_end rest) ≡ clean s

joined-cons : (c : ℕ) (l : Text) (ls : List Text) → joined (c ∷ l) ls ≡ c ∷ joined l ls
unfolding joined
joined-cons c l [] = refl
joined-cons c l (m ∷ ls) = refl

joined-trim :
    (c : ℕ) (l : Text) (ls : List Text)
    → NoLf l
    → (c == 10) ≡ false
    → joined (if is_space c && is_nil l then [] else c ∷ l) ls ≡ (
        if is_space c && (not (c == 10) && boundary (joined l ls))
        then joined l ls
        else c ∷ joined l ls)
joined-trim c [] ls h n = ground (arith, boundary-joined [] ls h, joined-cons c [] ls)
joined-trim c (d ∷ l) ls h n =
    ground (arith, boundary-joined (d ∷ l) ls h, joined-cons c (d ∷ l) ls)

joined-lf : (m : Text) (ls : List Text) → joined [] (m ∷ ls) ≡ 10 ∷ joined m ls
unfolding joined
joined-lf m ls = ap (◌∷◌ 10) (join-joined m ls)

clean-lf : (c : ℕ) (s : Text) → (c == 10) ≡ true → 10 ∷ clean s ≡ clean (c ∷ s)
unfolding clean
clean-lf c s lf = ground arith

Lines-cons : (c : ℕ) (s : Text) → Lines s → Lines (c ∷ s)
unfolding split clean trim_end
Lines-cons c s v = elim (Bool-cases (c == 10)) [
  | inl lf ↦ record {
    first = [];
    rest = v.first ∷ v.rest;
    is_split = rw (lf, v.is_split);
    no_lf = tt;
    is_clean = rw (joined-lf, v.is_clean) (clean-lf c s lf);
  }
  | inr other ↦ record {
    first = c ∷ v.first;
    rest = v.rest;
    is_split = rw (other, v.is_split);
    no_lf = (other, v.no_lf);
    is_clean =
        joined-trim c (trim_end v.first) (map trim_end v.rest) (trim_end-NoLf v.first v.no_lf) other
        ∙ (rw v.is_clean refl);
  }
]

lines : (s : Text) → Lines s
unfolding split clean joined trim_end
lines [] = record { first = []; rest = []; is_split = refl; no_lf = tt; is_clean = refl }
lines (c ∷ s) = Lines-cons c s (lines s)

normalize_output-clean :
    (s : Text) → normalize_output s ≡ trim_end (clean (replace_cr (replace_crlf s)))
unfolding normalize_output
normalize_output-clean s = go (lines (replace_cr (replace_crlf s)))
  where
    go :
        {t : Text}
        → Lines t
        → trim_end (join (10 ∷ []) (map trim_end (split 10 t))) ≡ trim_end (clean t)
    go v = rw v.is_split (rw join-joined (rw v.is_clean))

-- The last `trimEnd` folds into the same step.
trim_end-settle :
    (c : ℕ) (r : Text)
    → trim_end (if is_space c && (not (c == 10) && boundary r) then r else c ∷ r)
      ≡ settle c (trim_end r)
unfolding settle trim_end
trim_end-settle c [] = ground arith
trim_end-settle c (d ∷ r) = ground (arith, is_space-lf)

trim_end-clean : (s : Text) → trim_end (clean s) ≡ tidy s
unfolding tidy clean trim_end
trim_end-clean [] = refl
trim_end-clean (c ∷ s) = trim_end-settle c (clean s) ∙ ap (settle c) (trim_end-clean s)

pub normalize_output-tidy : (s : Text) → normalize_output s ≡ tidy (replace_cr (replace_crlf s))
normalize_output-tidy s = normalize_output-clean s ∙ trim_end-clean (replace_cr (replace_crlf s))

-- ===== src/Prelude/Text.antt =====
-- JavaScript strings as lists of UTF-16 code units, with the methods that the program calls.
use Prim.Native.Char.{code}
use Prim.Native.String.{String}
use Prim.Native.Nat.{ℕ, ◌+◌, ◌*◌, ◌≤◌}
use mathlib.Core.Path.{◌≡◌, refl}
use mathlib.Core.Logic.{◌↔◌}
use mathlib.Core.Bool.{Bool, true, false, ◌&&◌, ◌||◌}
use mathlib.Core.List.{List, [], ◌∷◌, ◌++◌}
use native.Mathlib.Omega.{arith}
use code_arena.Prelude.Tests.{ltb, leb, ◌==◌, if◌then◌else◌}
use code_arena.Prelude.Lists.{length, is_nil, any}

abbrev pub Text : Type 0
Text = List ℕ

-- A literal of the source; all of them are ASCII.
abbrev pub codes : String → Text
codes String.[] = []
codes (String.◌∷◌ c s) = code c ∷ codes s

-- `a === b` on strings
unfoldable pub text_eq : Text → Text → Bool
text_eq [] [] = true
text_eq (a ∷ s) (b ∷ t) = a == b && text_eq s t
text_eq _ _ = false

-- `list.includes(s)` on an array of strings
unfoldable pub one_of : Text → List Text → Bool
unfolding text_eq
one_of s ts = any (text_eq s) ts

-- What `trim` and `trimEnd` remove: white space and line terminators of ECMAScript.
unfoldable pub is_space : ℕ → Bool
is_space c =
    (leb 9 c && leb c 13)
    || c == 32
    || c == 160
    || c == 0x1680
    || (leb 0x2000 c && leb c 0x200a)
    || c == 0x2028
    || c == 0x2029
    || c == 0x202f
    || c == 0x205f
    || c == 0x3000
    || c == 0xfeff

unfoldable pub trim_end : Text → Text
trim_end [] = []
trim_end (c ∷ s) = let r = trim_end s in if is_space c && is_nil r then [] else c ∷ r

unfoldable pub trim_start : Text → Text
trim_start [] = []
trim_start (c ∷ s) = let r = trim_start s in if is_space c then r else c ∷ s

pub is_space-lf : is_space 10 ≡ true
unfolding is_space
is_space-lf = refl

pub is_space-cr : is_space 13 ≡ true
unfolding is_space
is_space-cr = refl

unfoldable pub trim : Text → Text
unfolding trim_end trim_start
trim s = trim_start (trim_end s)

unfoldable pub starts_with : Text → Text → Bool
starts_with [] s = true
starts_with (p ∷ ps) [] = false
starts_with (p ∷ ps) (c ∷ s) = p == c && starts_with ps s

-- `s.includes(p)`, the pattern first
unfoldable pub includes : Text → Text → Bool
unfolding starts_with
includes p [] = starts_with p []
includes p (c ∷ s) = starts_with p (c ∷ s) || includes p s

-- `s.split(sep)` at a separator of one unit; never the empty list
unfoldable pub cons_head : ℕ → List Text → List Text
cons_head c [] = (c ∷ []) ∷ []
cons_head c (l ∷ ls) = (c ∷ l) ∷ ls

unfoldable pub split : ℕ → Text → List Text
unfolding cons_head
split sep [] = [] ∷ []
split sep (c ∷ s) = let ls = split sep s in if c == sep then [] ∷ ls else cons_head c ls

-- `ls.join(sep)`
unfoldable pub join : Text → List Text → Text
join sep [] = []
join sep (l ∷ []) = l
join sep (l ∷ m ∷ ls) = l ++ (sep ++ join sep (m ∷ ls))

pub text_eq_iff : (s t : Text) → (text_eq s t ≡ true) ↔ (s ≡ t)
unfolding text_eq
text_eq_iff [] [] = ground arith
text_eq_iff [] (b ∷ t) = ground arith
text_eq_iff (a ∷ s) [] = ground arith
text_eq_iff (a ∷ s) (b ∷ t) = ground (arith, text_eq_iff s t)

pub text_eq_self : (s : Text) → text_eq s s ≡ true
text_eq_self s = (text_eq_iff s s).1 refl

-- A text that equals another one differs from what the other differs from.
pub text_eq-other : (s t k : Text) → text_eq t s ≡ false → text_eq k t ≡ true → text_eq k s ≡ false
text_eq-other s t k h e = rw ((text_eq_iff k t).0 e) h

-- `Buffer.byteLength(s, 'utf8')`: a low surrogate behind an open high one completes four bytes; a
-- lone surrogate is replaced by a character of three.
is_high : ℕ → Bool
is_high c = leb 0xd800 c && leb c 0xdbff

unit_width : Bool → ℕ → ℕ
unit_width after_high c =
    if ltb c 0x80
    then 1
    else if ltb c 0x800
    then 2
    else if after_high && (leb 0xdc00 c && leb c 0xdfff)
    then 1
    else 3

utf8_from : Bool → Text → ℕ
unfolding is_high unit_width
utf8_from after_high [] = 0
utf8_from after_high (c ∷ s) = unit_width after_high c + utf8_from (is_high c) s

unfoldable pub utf8_length : Text → ℕ
unfolding utf8_from
utf8_length s = utf8_from false s

utf8_from-bounds :
    (b : Bool) (s : Text) → (length s ≤ utf8_from b s) × (utf8_from b s ≤ 3 * length s)
unfolding utf8_from
utf8_from-bounds b [] = omega arith
utf8_from-bounds b (c ∷ s) = ground (arith, utf8_from-bounds (is_high c) s)

-- A text has at least one byte a unit, and at most three.
pub utf8_length-bounds : (s : Text) → (length s ≤ utf8_length s) × (utf8_length s ≤ 3 * length s)
unfolding utf8_length
utf8_length-bounds s = utf8_from-bounds false s

-- ===== src/Prelude/Optional.antt =====
-- JavaScript's tests of texts that may be missing.
use code_arena.Prelude.{Bool, false, not, Option, none, some, is_nil, if◌then◌else◌}
use code_arena.Prelude.Text.{Text}

-- a text that is there and not empty
abbrev pub is_given : Option Text → Bool
is_given none = false
is_given (some s) = not (is_nil s)

-- `a || b`
abbrev pub or_else : Option Text → Option Text → Option Text
or_else a b = if is_given a then a else b

-- `a || b` with a text for `b`
abbrev pub or_text : Option Text → Text → Text
or_text none b = b
or_text (some s) b = if is_nil s then b else s

-- ===== src/Metrics/Routes.antt =====
-- `normalizeRoute` of backend/src/modules/observability/metrics.service.js: each `replace` with the
-- flag g looks for its pattern at every place of the text, from the left, and goes on behind a match.
use code_arena.Prelude.{
  ℕ, zero, suc, ◌+◌, Bool, true, false, ◌&&◌, ◌==◌, leb, not, Option, none, some, [], ◌∷◌, ◌++◌,
  if◌then◌else◌, is_nil, all, take, drop, length,
}
use code_arena.Prelude.Text.{Text, codes}
use code_arena.Tracing.{is_hex}

abbrev is_digit : ℕ → Bool
is_digit c = leb b'0' c && leb c b'9'

-- `[0-9a-fA-F]{n}` at the start of a text
abbrev pub starts_hex : ℕ → Text → Bool
starts_hex n s = length (take n s) == n && all is_hex (take n s)

abbrev starts_dash : Text → Bool
starts_dash [] = false
starts_dash (c ∷ s) = c == b'-'

-- the number of units of a match at the start of a text
abbrev pub match_object_id : Text → Option ℕ
match_object_id s = if starts_hex 24 s then some 24 else none

abbrev pub match_uuid : Text → Option ℕ
match_uuid s =
    if starts_hex 8 s
      && starts_dash (drop 8 s)
      && starts_hex 4 (drop 9 s)
      && starts_dash (drop 13 s)
      && starts_hex 4 (drop 14 s)
      && starts_dash (drop 18 s)
      && starts_hex 4 (drop 19 s)
      && starts_dash (drop 23 s)
      && starts_hex 12 (drop 24 s)
    then some 36
    else none

-- the digits at the start of a text, if its end or a slash follows
unfoldable pub digits_of_segment : Text → Option ℕ
digits_of_segment [] = some 0
digits_of_segment (c ∷ s) = elim (digits_of_segment s) [
  | none ↦ if c == b'/' then some 0 else none
  | some n ↦ if c == b'/' then some 0 else if is_digit c then some (suc n) else none
]

abbrev pub match_number : Text → Option ℕ
match_number [] = none
match_number (c ∷ s) = elim (digits_of_segment s) [
  | none ↦ none
  | some zero ↦ none
  | some (suc n) ↦ if c == b'/' then some (n + 2) else none
]

-- `s.replace(pattern, by)`; the number is that of the units left of the last match
unfoldable pub replace_all : (Text → Option ℕ) → Text → ℕ → Text → Text
replace_all pattern by left [] = []
replace_all pattern by (suc left) (c ∷ s) = replace_all pattern by left s
replace_all pattern by zero (c ∷ s) = elim (pattern (c ∷ s)) [
  | none ↦ c ∷ replace_all pattern by zero s
  | some zero ↦ c ∷ replace_all pattern by zero s
  | some (suc n) ↦ by ++ replace_all pattern by n s
]

unfoldable pub replace_ids : Text → Text
replace_ids path =
    let objects = replace_all match_object_id (codes ":id") 0 path in
    let uuids = replace_all match_uuid (codes ":id") 0 objects in
    replace_all match_number (codes "/:id") 0 uuids

abbrev is_root : Text → Bool
is_root [] = true
is_root (c ∷ []) = c == b'/'
is_root (c ∷ d ∷ s) = false

-- the raw path, and the route's path and base, which may be empty
unfoldable pub normalize_route : Text → Text → Text → Text
unfolding replace_ids
normalize_route raw_path route_path base_url =
    if not (is_nil route_path)
    then base_url ++ route_path
    else if is_root raw_path
    then codes "/"
    else replace_ids raw_path

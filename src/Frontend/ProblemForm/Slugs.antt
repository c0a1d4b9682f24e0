-- ===== src/Frontend/ProblemForm/Slugs.antt =====
-- The slugs of the form.
use code_arena.Prelude.{
  ◌≡◌, refl, ℕ, Bool, true, false, ◌&&◌, not, [], ◌∷◌, arith, if◌then◌else◌, ◌==◌, is_nil,
  Bool-cases, inl, inr,
}
use code_arena.Prelude.Text.{Text}
use code_arena.Frontend.ProblemForm.{
  is_slug_unit, dashed, without_last_dash, without_dashes, slug_of,
}

-- `^[a-z0-9]+(-[a-z0-9]+)*$`, from a place behind a dash or behind a unit
unfoldable pub slug_from : Bool → Text → Bool
slug_from after_dash [] = not after_dash
slug_from after_dash (c ∷ s) =
    if is_slug_unit c then slug_from false s else c == b'-' && (not after_dash && slug_from true s)

abbrev pub is_slug : Text → Bool
is_slug s = slug_from true s

-- the same, but a dash may stand at the end
loose : Bool → Text → Bool
loose after_dash [] = true
loose after_dash (c ∷ s) =
    if is_slug_unit c then loose false s else c == b'-' && (not after_dash && loose true s)

loose-dashed : (after_dash : Bool) (s : Text) → loose after_dash (dashed after_dash s) ≡ true
unfolding loose dashed is_slug_unit
loose-dashed after_dash [] = refl
loose-dashed after_dash (c ∷ s) = ground (arith, loose-dashed false s, loose-dashed true s)

slug_from-without_last_dash :
    (after_dash : Bool) (c : ℕ) (s : Text)
    → loose after_dash (c ∷ s) ≡ true
    → slug_from after_dash (without_last_dash (c ∷ s)) ≡ true
unfolding loose slug_from without_last_dash is_slug_unit
slug_from-without_last_dash after_dash c [] h = ground arith
slug_from-without_last_dash after_dash c (d ∷ s) h =
    ground (arith, slug_from-without_last_dash false d s, slug_from-without_last_dash true d s)

is_slug-without_dashes :
    (s : Text)
    → loose false s ≡ true
    → is_nil (without_dashes s) ≡ false
    → is_slug (without_dashes s) ≡ true
unfolding loose without_dashes without_last_dash is_slug_unit
is_slug-without_dashes [] h n = ground arith
is_slug-without_dashes (c ∷ []) h n = ground (arith, slug_from-without_last_dash true c [])
is_slug-without_dashes (c ∷ d ∷ s) h n =
    ground (arith, slug_from-without_last_dash true c (d ∷ s), slug_from-without_last_dash true d s)

-- Whatever the title, and whatever its lower case is, the slug has the form [a-z0-9]+(-[a-z0-9]+)*: it is
-- not empty, has no dash at its ends and no two dashes in a row.
pub slug_of-is_slug :
    (to_lower : Text → Text) (title : Text) → is_slug (slug_of to_lower title) ≡ true
unfolding slug_of
slug_of-is_slug to_lower title =
    elim (Bool-cases (is_nil (without_dashes (dashed false (to_lower title))))) [
      | inl e ↦ rw (e, slug_of) (unfold slug_from is_slug_unit in refl)
      | inr e ↦
          rw (e, slug_of)
            (is_slug-without_dashes (dashed false (to_lower title))
              (loose-dashed false (to_lower title)) e)
    ]

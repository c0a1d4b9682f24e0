-- ===== src/Problems/Listing/Grouping.antt =====
-- The counts of a problem after the loop over the groups of the aggregation.
use code_arena.Prelude.{
  ℕ, ◌≡◌, refl, sym, subst, ◌⊎◌, inl, inr, Bool, true, false, ◌&&◌, not, some, List, [], ◌∷◌,
  if◌then◌else◌, filter, Bool-cases, Option-cases,
}
use code_arena.Prelude.Text.{Text, text_eq, text_eq_iff, text_eq_self, text_eq-other}
use code_arena.Prelude.Store.{
  find_one, find_one-append, find_one-append_ne, find_one-update_one, find_one_passes,
  find_one-update_ne,
}
use code_arena.Submissions.Model.{Visibility, public, hidden}
use code_arena.Problems.{is_public}
use code_arena.Problems.Listing.{
  Group, Counts, no_counts, counts_of, set_visible, set_count, ensure_counts, count_group,
  count_groups, stats_of,
}

set_visible-id :
    (v : Visibility) (n : ℕ) (c : Counts) → (set_visible v n c).problem_id ≡ c.problem_id
set_visible-id public n c = refl
set_visible-id hidden n c = refl

stats_of-id : (id : Text) (counts : List Counts) → text_eq (stats_of id counts).problem_id id ≡ true
unfolding stats_of
stats_of-id id counts = elim (Option-cases (find_one (counts_of id) counts)) [
  | inl f ↦ rw (stats_of, f) (text_eq_self id)
  | inr (c, f) ↦ rw (stats_of, f) (find_one_passes (counts_of id) counts c f)
]

find-ensure :
    (id : Text) (counts : List Counts)
    → find_one (counts_of id) (ensure_counts id counts) ≡ some (stats_of id counts)
unfolding stats_of ensure_counts
find-ensure id counts = elim (Option-cases (find_one (counts_of id) counts)) [
  | inl f ↦
      rw (ensure_counts, stats_of, f)
        (find_one-append (counts_of id) counts (no_counts id) f (text_eq_self id))
  | inr (c, f) ↦ rw (ensure_counts, stats_of, f) f
]

find-ensure_ne :
    (id other : Text) (counts : List Counts)
    → text_eq other id ≡ false
    → find_one (counts_of id) (ensure_counts other counts) ≡ find_one (counts_of id) counts
unfolding ensure_counts
find-ensure_ne id other counts h = elim (Option-cases (find_one (counts_of other) counts)) [
  | inl f ↦ rw (ensure_counts, f) (find_one-append_ne (counts_of id) counts (no_counts other) h)
  | inr (c, f) ↦ rw (ensure_counts, f) refl
]

stats-group :
    (id : Text) (v : Visibility) (n : ℕ) (counts : List Counts)
    → stats_of id (count_group (record { problem_id = id; visibility = v; count = n }) counts)
      ≡ set_visible v n (stats_of id counts)
unfolding count_group stats_of
stats-group id v n counts =
    let c = stats_of id counts in
    let same =
      subst (λ i. text_eq i id ≡ true) (sym (set_visible-id v n c)) (stats_of-id id counts) in
    rw
      (
        stats_of,
        count_group,
        find_one-update_one (counts_of id) (set_visible v n) (ensure_counts id counts) c
            (find-ensure id counts) same,
      )
      refl

stats-group_same :
    (id : Text) (g : Group) (counts : List Counts)
    → text_eq g.problem_id id ≡ true
    → stats_of id (count_group g counts) ≡ set_visible g.visibility g.count (stats_of id counts)
stats-group_same id g counts h =
    subst
      (λ i.
        stats_of id (
          count_group (record { problem_id = i; visibility = g.visibility; count = g.count })
            counts)
        ≡ set_visible g.visibility g.count (stats_of id counts))
      (sym ((text_eq_iff g.problem_id id).0 h)) (stats-group id g.visibility g.count counts)

Visibility-cases : (v : Visibility) → (v ≡ public) ⊎ (v ≡ hidden)
Visibility-cases public = inl refl
Visibility-cases hidden = inr refl

stats-group_ne :
    (id : Text) (g : Group) (counts : List Counts)
    → text_eq g.problem_id id ≡ false
    → stats_of id (count_group g counts) ≡ stats_of id counts
unfolding count_group stats_of
stats-group_ne id g counts h =
    let apart = text_eq-other id g.problem_id in
    rw
      (
        stats_of,
        count_group,
        find_one-update_ne (counts_of id) (counts_of g.problem_id) (set_count g)
            (ensure_counts g.problem_id counts)
            (λ x q. (
              apart x.problem_id h q,
              subst (λ i. text_eq i id ≡ false) (sym (set_visible-id g.visibility g.count x))
                  (apart x.problem_id h q),
            )),
        find-ensure_ne id g.problem_id counts h,
      )
      refl

-- The last count of some groups.
abbrev pub last_count : List Group → ℕ → ℕ
last_count [] n = n
last_count (g ∷ groups) n = last_count groups g.count

abbrev pub is_group : Text → Bool → Group → Bool
is_group id wants_public g =
    text_eq g.problem_id id
    && (if wants_public then is_public g.visibility else not (is_public g.visibility))

pub stats-groups :
    (id : Text) (groups : List Group) (counts : List Counts)
    → ((stats_of id (count_groups groups counts)).public_count
        ≡ last_count (filter (is_group id true) groups) (stats_of id counts).public_count)
      × ((stats_of id (count_groups groups counts)).hidden_count
          ≡ last_count (filter (is_group id false) groups) (stats_of id counts).hidden_count)
unfolding count_groups
stats-groups id [] counts = (refl, refl)
stats-groups id (g ∷ groups) counts =
    let (p, h) = stats-groups id groups (count_group g counts) in
    elim (Bool-cases (text_eq g.problem_id id)) [
      | inr other ↦ rw (count_groups, p, h, stats-group_ne id g counts other, other) (refl, refl)
      | inl same ↦ elim (Visibility-cases g.visibility) [
        | inl v ↦ rw (count_groups, p, h, stats-group_same id g counts same, same, v) (refl, refl)
        | inr v ↦ rw (count_groups, p, h, stats-group_same id g counts same, same, v) (refl, refl)
      ]
    ]

-- ===== src/Tests/Domain.antt =====
-- packages/domain at concrete statuses and snapshots.
use dayjaview.Prelude.{
  ℕ, ◌≤◌, ◌<◌, ◌⊎◌, inr, arith, some, [], ◌∷◌, sort_by, String-discrete, ◌≡◌, ◌≢◌, refl, String,
  is_blank, ne-empty_of_not_blank,
}
use dayjaview.Prelude.Exec.{ok}
use dayjaview.Domain.Membership.{
  core, ThemeMembershipSnapshot, select_membership_snapshot, is_selectable, is_earlier, selectable,
  count_key, select_ignores_later, select_sound,
}

abbrev version : String
version = "event-state-2026.08.1"

named : version ≢ ""
unfolding is_blank
named = ne-empty_of_not_blank version refl

abbrev snapshot : String → ℕ → ℕ → ThemeMembershipSnapshot
snapshot version from known = record {
  theme_id = "theme-1";
  version = version;
  effective_from = from;
  known_at = known;
  members = record { stock_id = "005930"; role = core } ∷ [];
}

abbrev old_one : ThemeMembershipSnapshot
old_one = snapshot "v1" 10 100

abbrev new_one : ThemeMembershipSnapshot
new_one = snapshot "v2" 20 200

abbrev future : ThemeMembershipSnapshot
future = snapshot "v3" 25 900

known_later : (30 < future.effective_from) ⊎ (500 < future.known_at)
known_later = inr (ground arith)

select_ignores_later_example :
    select_membership_snapshot "theme-1" 30 500 (new_one ∷ future ∷ old_one ∷ [])
    ≡ select_membership_snapshot "theme-1" 30 500 (new_one ∷ old_one ∷ [])
select_ignores_later_example =
    select_ignores_later "theme-1" 30 500 (new_one ∷ []) (old_one ∷ []) future known_later

newest : select_membership_snapshot "theme-1" 30 500 (new_one ∷ old_one ∷ []) ≡ ok (some new_one)
unfolding select_membership_snapshot is_selectable is_earlier sort_by String-discrete
newest = refl

select_sound_example :
    (new_one.theme_id ≡ "theme-1")
    × (new_one.effective_from ≤ 30)
    × (new_one.known_at ≤ 500)
    × (count_key new_one (selectable "theme-1" 30 500 (new_one ∷ old_one ∷ [])) ≤ 1)
select_sound_example = select_sound "theme-1" 30 500 (new_one ∷ old_one ∷ []) new_one newest

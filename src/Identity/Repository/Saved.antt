-- ===== src/Identity/Repository/Saved.antt =====
-- The saved items in packages/identity/repository.py.
use Prim.Native.Nat.{compare}
use Prim.Native.String.{compare as compare_text, then as thenby}
use text.Mathlib.Text.{is_le}
use dayjaview.Prelude.{
  Bool, ◌&&◌, Option, none, some, List, [], ◌∷◌, String, sort_by, if◌then◌else◌,
}
use dayjaview.Prelude.Dict.{Dict, get, put, remove}
use dayjaview.Identity.Models.{SavedType, SavedRecord}
use dayjaview.Identity.Repository.State.{
  IdentityRepository, same_text, saved_value, SavedKey, SavedKey-discrete,
}

abbrev pub saved_key : String → SavedType → String → SavedKey
saved_key user_id saved_type target_id = (user_id, saved_value saved_type, target_id)

unfoldable pub upsert_saved : SavedRecord → IdentityRepository → SavedRecord × IdentityRepository
unfolding saved_value
upsert_saved r repo =
    elim (get SavedKey-discrete (saved_key r.user_id r.saved_type r.target_id) repo.saved) [
      | some existing ↦ (existing, repo)
      | none ↦ (
        r,
        record repo {
          saved = put SavedKey-discrete (saved_key r.user_id r.saved_type r.target_id) r repo.saved;
        },
      )
    ]

unfoldable pub delete_saved :
    String → SavedType → String → IdentityRepository → Option SavedRecord × IdentityRepository
unfolding saved_value
delete_saved user_id saved_type target_id repo = (
  get SavedKey-discrete (saved_key user_id saved_type target_id) repo.saved,
  record repo {
    saved = remove SavedKey-discrete (saved_key user_id saved_type target_id) repo.saved;
  },
)

abbrev pub is_wanted : String → Option SavedType → SavedRecord → Bool
is_wanted user_id none r = same_text r.user_id user_id
is_wanted user_id (some t) r =
    same_text r.user_id user_id && same_text (saved_value r.saved_type) (saved_value t)

unfoldable pub wanted_records :
    String → Option SavedType → Dict SavedKey SavedRecord → List SavedRecord
unfolding saved_value
wanted_records user_id t [] = []
wanted_records user_id t ((k, r) ∷ d) =
    let rest = wanted_records user_id t d in if is_wanted user_id t r then r ∷ rest else rest

-- Newest first, then by identifier and type.
unfoldable pub saved_first : SavedRecord → SavedRecord → Bool
unfolding saved_value
saved_first a b = is_le (
    thenby (compare b.saved_at a.saved_at) (
      thenby (compare_text a.target_id b.target_id)
        (compare_text (saved_value a.saved_type) (saved_value b.saved_type))))

unfoldable pub list_saved : String → Option SavedType → IdentityRepository → List SavedRecord
unfolding sort_by saved_first wanted_records
list_saved user_id t repo = sort_by saved_first (wanted_records user_id t repo.saved)

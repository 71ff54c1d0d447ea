-- ===== src/Realtime/Aggregation/Resume.antt =====
-- The checkpoint of the dirty themes in packages/realtime/aggregation.py, and what a restart makes of
-- it.
use dayjaview.Realtime.Aggregation.{
  pending, DirtyTheme, DirtyThemeAggregator, Dict, DirtyKey-discrete, DirtyKey, key_of_dirty,
  dirty_first,
}
use dayjaview.Prelude.{
  refl, ℕ, Bool, true, false, String, String-discrete, ite, if◌then◌else◌, List, [], ◌∷◌, is_blank,
  ltb, not, ◌≡◌, ◌||◌, subst, sort_by-All, sym,
}
use dayjaview.Prelude.Exec.{
  Result, Exec, require, construct, value_error, raised, ok, construct-eq-ok,
}
use dayjaview.Prelude.Entries.{
  load, sorted_entries, load_lem, sorted_entries-Distinct, entry_first, get-sorted_entries,
}
use dayjaview.Prelude.Dict.{Dict, get}
use dayjaview.Realtime.Aggregation.MarkLoop.{IsKeyed}

abbrev pub dirty_theme_checkpoint_version : String
dirty_theme_checkpoint_version = "dirty-theme-2026.08.1"

pub record DirtyThemeCheckpoint : Type 0 where
  pub checkpoint_version : String
  pub created_at : ℕ
  pub entries : List DirtyTheme

-- Whether some entry is later than the time.
unfoldable pub is_ahead : ℕ → List DirtyTheme → Bool
is_ahead time [] = false
is_ahead time (d ∷ ds) = ltb time d.as_of || is_ahead time ds

-- `DirtyThemeCheckpoint.__post_init__`
unfoldable pub check_dirty_checkpoint : DirtyThemeCheckpoint → Result (Unit {0})
unfolding is_ahead is_blank
check_dirty_checkpoint c =
    require (not (is_blank c.checkpoint_version || is_ahead c.created_at c.entries)) value_error

-- `DirtyThemeAggregator.checkpoint`
unfoldable pub checkpoint_themes : ℕ → DirtyThemeAggregator → Result DirtyThemeCheckpoint
unfolding check_dirty_checkpoint pending
checkpoint_themes created_at a = construct check_dirty_checkpoint (record {
  checkpoint_version = dirty_theme_checkpoint_version;
  created_at = created_at;
  entries = pending a;
})

-- What `restore` makes of the entries that were loaded.
abbrev pub with_entries :
    DirtyThemeAggregator
    → Result (Dict DirtyKey DirtyTheme)
    → Result (Unit {0}) × DirtyThemeAggregator
with_entries a (raised e) = (raised e, a)
with_entries a (ok dirty) = (ok tt, record a { dirty = dirty })

-- `DirtyThemeAggregator.restore`
unfoldable pub restore_themes : DirtyThemeCheckpoint → Exec DirtyThemeAggregator (Unit {0})
unfolding load DirtyKey-discrete String-discrete
restore_themes c a =
    if ite (String-discrete c.checkpoint_version dirty_theme_checkpoint_version) true false
    then with_entries a (load DirtyKey-discrete key_of_dirty value_error c.entries [])
    else (raised value_error, a)

load-pending :
    (a : DirtyThemeAggregator)
    → IsKeyed a.dirty
    → load DirtyKey-discrete key_of_dirty value_error (pending a) []
      ≡ ok (sorted_entries dirty_first a.dirty)
unfolding pending
load-pending a h =
    load_lem DirtyKey-discrete key_of_dirty value_error (sorted_entries dirty_first a.dirty)
      (sorted_entries-Distinct dirty_first DirtyKey-discrete a.dirty h.distinct)
      (sort_by-All (entry_first dirty_first) (λ e. key_of_dirty e.1 ≡ e.0) a.dirty h.keyed)

-- A checkpoint of any aggregator whose entries stand under their own keys, restored into another
-- one, gives it just the dirty themes of the first, and leaves its catalog and its references.
pub restore_themes-checkpoint_themes :
    (created_at : ℕ) (a b : DirtyThemeAggregator) (c : DirtyThemeCheckpoint)
    → IsKeyed a.dirty
    → checkpoint_themes created_at a ≡ ok c
    → (after : DirtyThemeAggregator) × (restore_themes c b ≡ (ok tt, after))
      × ((k : DirtyKey) → get DirtyKey-discrete k after.dirty ≡ get DirtyKey-discrete k a.dirty)
      × (after.catalog ≡ b.catalog)
      × (after.references ≡ b.references)
unfolding checkpoint_themes
restore_themes-checkpoint_themes created_at a b c h made =
    let (valid, same) = construct-eq-ok check_dirty_checkpoint _ made in
    let loaded = load-pending a h in
    (
      record b { dirty = sorted_entries dirty_first a.dirty },
      subst
          (λ c.
            restore_themes c b ≡ (ok tt, record b { dirty = sorted_entries dirty_first a.dirty }))
          (sym same) (restored loaded),
      λ k. get-sorted_entries dirty_first DirtyKey-discrete k a.dirty h.distinct,
      refl,
      refl,
    )
  where
    restored :
        load DirtyKey-discrete key_of_dirty value_error (pending a) []
          ≡ ok (sorted_entries dirty_first a.dirty)
        → restore_themes
            (record {
              checkpoint_version = dirty_theme_checkpoint_version;
              created_at = created_at;
              entries = pending a;
            })
            b
          ≡ (ok tt, record b { dirty = sorted_entries dirty_first a.dirty })
    restored q = unfold restore_themes in rw (q)

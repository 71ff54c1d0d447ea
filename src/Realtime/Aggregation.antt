-- ===== src/Realtime/Aggregation.antt =====
-- packages/realtime/aggregation.py: which themes a stock belongs to, and the themes whose metrics
-- have to be calculated again. The lock makes each method one step.
pub mod MarkLoop
pub mod Marks
pub mod Drains
pub mod Batches
pub mod Catalog
pub mod Lossless
pub mod Timely
pub mod Resume
use Prim.Native.Nat.{compare, max}
use Prim.Native.String.{compare as compare_text, then as thenby}
use text.Mathlib.Text.{is_le}
use dayjaview.Domain.Membership.{
  ThemeMembershipSnapshot, select_membership_snapshot, contains, stock_ids,
}
use dayjaview.Prelude.{
  ℕ, Bool, true, false, not, ◌&&◌, ◌||◌, Option, none, some, String, String-discrete, ite, leb, ltb,
  ◌==◌, if◌then◌else◌, List, [], ◌∷◌, ℕ_discrete, all_distinct, is_blank, sort_by, max, ◌++◌,
  unique, map, text_first,
}
use dayjaview.Prelude.Exec.{Result, Exec, value_error, require, ok, raised, and_then}
use dayjaview.Prelude.Dict.{Dict, get, put}
use dayjaview.Domain.References.{StockReference}
use dayjaview.Realtime.HotState.Checkpoint.{}
use dayjaview.Prelude.Entries.{sorted_values}

-- The tuple by which two snapshots of the catalog are told apart.
abbrev SnapshotKey : Type 0
SnapshotKey = String × ℕ × ℕ × String

unfoldable pub SnapshotKey-discrete : Discrete SnapshotKey
unfolding ℕ_discrete String-discrete
SnapshotKey-discrete = hlevel (ℕ_discrete, String-discrete)

abbrev snapshot_key : ThemeMembershipSnapshot → SnapshotKey
snapshot_key s = (s.theme_id, s.effective_from, s.known_at, s.version)

pub record VersionedThemeCatalog : Type 0 where
  pub snapshots : List ThemeMembershipSnapshot
  pub theme_ids : List String

-- `VersionedThemeCatalog.__init__`
unfoldable pub make_catalog : List ThemeMembershipSnapshot → Result VersionedThemeCatalog
unfolding all_distinct SnapshotKey-discrete sort_by text_first unique String-discrete
make_catalog snapshots =
    if all_distinct SnapshotKey-discrete (map snapshot_key snapshots)
    then ok (record {
      snapshots = snapshots;
      theme_ids =
          sort_by text_first
            (unique String-discrete (map (λ s. ThemeMembershipSnapshot.theme_id s) snapshots));
    })
    else raised value_error

-- `VersionedThemeCatalog.select`
abbrev pub select : String → ℕ → ℕ → VersionedThemeCatalog → Result (Option ThemeMembershipSnapshot)
select theme_id market_date decision_at catalog =
    select_membership_snapshot theme_id market_date decision_at catalog.snapshots

abbrev pub has_member : String → Option ThemeMembershipSnapshot → Bool
has_member stock_id none = false
has_member stock_id (some membership) = contains stock_id membership

-- The loop of `affected_themes`.
unfoldable pub affected_among :
    String → ℕ → ℕ → VersionedThemeCatalog → List String → Result (List String)
unfolding contains select_membership_snapshot
affected_among stock_id market_date decision_at catalog [] = ok []
affected_among stock_id market_date decision_at catalog (theme_id ∷ ids) =
    let rest = affected_among stock_id market_date decision_at catalog ids in
    and_then (select theme_id market_date decision_at catalog) (λ membership.
      and_then rest
        (λ affected. ok (if has_member stock_id membership then theme_id ∷ affected else affected)))

-- `VersionedThemeCatalog.affected_themes`
abbrev pub affected_themes : String → ℕ → ℕ → VersionedThemeCatalog → Result (List String)
affected_themes stock_id market_date decision_at catalog =
    affected_among stock_id market_date decision_at catalog catalog.theme_ids

pub record DirtyTheme : Type 0 where
  pub theme_id : String
  pub market_date : ℕ
  pub as_of : ℕ

-- `DirtyTheme.__post_init__`
abbrev pub check_dirty : DirtyTheme → Result (Unit {0})
check_dirty d = require (not (is_blank d.theme_id)) value_error

abbrev pub DirtyKey : Type 0
DirtyKey = String × ℕ

unfoldable pub DirtyKey-discrete : Discrete DirtyKey
unfolding ℕ_discrete String-discrete
DirtyKey-discrete = hlevel (ℕ_discrete, String-discrete)

abbrev pub key_of_dirty : DirtyTheme → DirtyKey
key_of_dirty d = (d.theme_id, d.market_date)

unfoldable pub dirty_first : DirtyKey → DirtyKey → Bool
dirty_first a b = is_le (thenby (compare_text a.0 b.0) (compare a.1 b.1))

pub record DirtyThemeAggregator : Type 0 where
  pub catalog : VersionedThemeCatalog
  pub references : List StockReference
  pub dirty : Dict DirtyKey DirtyTheme

-- `DirtyThemeAggregator.__init__`
abbrev pub make_aggregator : VersionedThemeCatalog → List StockReference → DirtyThemeAggregator
make_aggregator catalog references = record {
  catalog = catalog;
  references = references;
  dirty = [];
}

-- `add_reference`
abbrev pub add_reference : StockReference → DirtyThemeAggregator → DirtyThemeAggregator
add_reference reference a = record a { references = a.references ++ (reference ∷ []) }

-- What becomes of the entry of one theme.
abbrev pub marked : String → ℕ → ℕ → Option DirtyTheme → DirtyTheme
marked theme_id market_date decision_at previous = record {
  theme_id = theme_id;
  market_date = market_date;
  as_of = elim previous [ none ↦ decision_at | some p ↦ max p.as_of decision_at ];
}

-- The loop of `mark_stock`: what is marked before a raise stays marked.
unfoldable pub mark_themes :
    ℕ → ℕ → List String → Dict DirtyKey DirtyTheme → Result (Unit {0}) × Dict DirtyKey DirtyTheme
mark_themes market_date decision_at [] dirty = (ok tt, dirty)
mark_themes market_date decision_at (theme_id ∷ ids) dirty =
    let key : DirtyKey = (theme_id, market_date) in
    let entry = marked theme_id market_date decision_at (get DirtyKey-discrete key dirty) in
    let rest = mark_themes market_date decision_at ids (put DirtyKey-discrete key entry dirty) in
    elim (check_dirty entry) [ raised e ↦ (raised e, dirty) | ok _ ↦ rest ]

-- What `mark_stock` returns, and its entries put back.
abbrev pub with_dirty :
    List String
    → DirtyThemeAggregator
    → Result (Unit {0}) × Dict DirtyKey DirtyTheme
    → Result (List String) × DirtyThemeAggregator
with_dirty affected a (raised e, dirty) = (raised e, record a { dirty = dirty })
with_dirty affected a (ok _, dirty) = (ok affected, record a { dirty = dirty })

-- `mark_stock`, after the affected themes are known.
unfoldable pub mark_affected :
    ℕ
    → ℕ
    → DirtyThemeAggregator
    → Result (List String)
    → Result (List String) × DirtyThemeAggregator
unfolding mark_themes
mark_affected market_date decision_at a (raised e) = (raised e, a)
mark_affected market_date decision_at a (ok affected) =
    with_dirty affected a (mark_themes market_date decision_at affected a.dirty)

unfoldable pub mark_stock : String → ℕ → ℕ → Exec DirtyThemeAggregator (List String)
unfolding mark_affected affected_among
mark_stock stock_id market_date decision_at a =
    mark_affected market_date decision_at a
      (affected_themes stock_id market_date decision_at a.catalog)

-- `pending`
unfoldable pub pending : DirtyThemeAggregator → List DirtyTheme
unfolding sort_by dirty_first
pending a = sorted_values dirty_first a.dirty

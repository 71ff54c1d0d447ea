-- ===== src/Tests/Aggregation.antt =====
-- The dirty themes of packages/realtime/aggregation.py at a concrete catalog.
use dayjaview.Realtime.Aggregation.{
  VersionedThemeCatalog, make_catalog, affected_among, DirtyThemeAggregator, mark_stock,
  affected_themes, make_aggregator, DirtyKey-discrete, DirtyKey,
}
use dayjaview.Prelude.{
  refl, ℕ, String, String-discrete, List, [], ◌∷◌, Any, All, ◌≡◌, length, ◌↔◌, ◌+◌, ap, inr, inl,
  sort_by, is_in, is_blank,
}
use dayjaview.Prelude.Exec.{ok, raised, value_error}
use dayjaview.Domain.Membership.{core, related, ThemeMembershipSnapshot, stock_ids, is_selectable}
use dayjaview.Realtime.Aggregation.Drains.{drain, Calculation, ThemeMetricUpdate}
use dayjaview.Prelude.Dict.{get, put, remove}
use dayjaview.Realtime.Aggregation.Batches.{Drains, drain-Drains}
use dayjaview.Realtime.Aggregation.Resume.{
  DirtyThemeCheckpoint, checkpoint_themes, restore_themes, restore_themes-checkpoint_themes,
}
use dayjaview.Realtime.Aggregation.MarkLoop.{IsKeyed}
use dayjaview.Realtime.Aggregation.Lossless.{Mark, mark_all, IsCalculated, mark_stock-drain}
use dayjaview.Realtime.HotState.{empty_store}
use dayjaview.Realtime.Aggregation.Catalog.{HasStock, affected_themes_exact}

abbrev chips : ThemeMembershipSnapshot
chips = record {
  theme_id = "theme-1";
  version = "v1";
  effective_from = 10;
  known_at = 100;
  members = record { stock_id = "005930"; role = core } ∷ [];
}

abbrev cars : ThemeMembershipSnapshot
cars = record {
  theme_id = "theme-2";
  version = "v1";
  effective_from = 10;
  known_at = 100;
  members =
      record { stock_id = "005380"; role = core }
      ∷ record { stock_id = "005930"; role = related }
      ∷ [];
}

abbrev catalog : VersionedThemeCatalog
catalog = record { snapshots = chips ∷ cars ∷ []; theme_ids = "theme-1" ∷ "theme-2" ∷ [] }

catalog_made : make_catalog (chips ∷ cars ∷ []) ≡ ok catalog
unfolding make_catalog
catalog_made = refl

catalog_refused : make_catalog (chips ∷ chips ∷ []) ≡ raised value_error
unfolding make_catalog
catalog_refused = refl

both : affected_themes "005930" 30 500 catalog ≡ ok ("theme-1" ∷ "theme-2" ∷ [])
unfolding affected_among sort_by is_selectable String-discrete is_in
both = refl

one_only : affected_themes "005380" 30 500 catalog ≡ ok ("theme-2" ∷ [])
unfolding affected_among sort_by is_selectable String-discrete is_in
one_only = refl

affected_themes_exact_example :
    Any (λ (x : String). x ≡ "theme-2") ("theme-2" ∷ [])
    ↔ HasStock "005380" 30 500 catalog "theme-2"
affected_themes_exact_example =
    affected_themes_exact "005380" 30 500 catalog ("theme-2" ∷ []) "theme-2" one_only
      (inr (inl refl))

abbrev start : DirtyThemeAggregator
start = make_aggregator catalog []

start-IsKeyed : IsKeyed start.dirty
start-IsKeyed = record { distinct = tt; keyed = tt }

abbrev once : DirtyThemeAggregator
once = record start {
  dirty =
      (("theme-1", 30), record { theme_id = "theme-1"; market_date = 30; as_of = 500 })
      ∷ (("theme-2", 30), record { theme_id = "theme-2"; market_date = 30; as_of = 500 })
      ∷ [];
}

marked_once : mark_stock "005930" 30 500 start ≡ (ok ("theme-1" ∷ "theme-2" ∷ []), once)
unfolding mark_stock sort_by is_selectable String-discrete is_in is_blank put DirtyKey-discrete get
marked_once = refl

once-IsKeyed : IsKeyed once.dirty
unfolding get DirtyKey-discrete
once-IsKeyed = record { distinct = (refl, (refl, tt)); keyed = (refl, (refl, tt)) }

-- The number of inputs, in place of the metrics.
abbrev count_inputs : Calculation ℕ
count_inputs market_date as_of membership references observations =
    ok (length (stock_ids membership) + length references + length observations)

abbrev updates : List (ThemeMetricUpdate ℕ)
updates =
    record {
      theme_id = "theme-1";
      market_date = 30;
      as_of = 500;
      membership_version = "v1";
      metrics = 1;
    }
    ∷ record {
      theme_id = "theme-2";
      market_date = 30;
      as_of = 600;
      membership_version = "v1";
      metrics = 2;
    }
    ∷ []

abbrev first_mark : Mark
first_mark = record { stock_id = "005930"; market_date = 30; decision_at = 500 }

abbrev second_mark : Mark
second_mark = record { stock_id = "005380"; market_date = 30; decision_at = 600 }

drained :
    (drain count_inputs empty_store (mark_all (first_mark ∷ second_mark ∷ []) start)).0 ≡ ok updates
unfolding drain mark_all sort_by is_selectable String-discrete is_in is_blank put DirtyKey-discrete
    get remove
drained = refl

mark_stock-drain_example :
    All (λ id. Any (IsCalculated id 30 500) updates) ("theme-1" ∷ "theme-2" ∷ [])
mark_stock-drain_example =
    mark_stock-drain count_inputs empty_store start first_mark ("theme-1" ∷ "theme-2" ∷ [])
      (second_mark ∷ []) updates start-IsKeyed (ap (λ r. r.0) marked_once) drained

drain-Drains_example :
    Drains count_inputs empty_store once
      (drain count_inputs empty_store once).0
      (drain count_inputs empty_store once).1
drain-Drains_example = drain-Drains count_inputs empty_store once once-IsKeyed

abbrev saved : DirtyThemeCheckpoint
saved = record {
  checkpoint_version = "dirty-theme-2026.08.1";
  created_at = 700;
  entries =
      record { theme_id = "theme-1"; market_date = 30; as_of = 500 }
      ∷ record { theme_id = "theme-2"; market_date = 30; as_of = 500 }
      ∷ [];
}

saved_once : checkpoint_themes 700 once ≡ ok saved
unfolding checkpoint_themes
saved_once = refl

-- An entry is later than the checkpoint.
too_early : checkpoint_themes 499 once ≡ raised value_error
unfolding checkpoint_themes
too_early = refl

restore_themes-checkpoint_themes_example :
    (after : DirtyThemeAggregator) × (restore_themes saved start ≡ (ok tt, after))
    × ((k : DirtyKey) → get DirtyKey-discrete k after.dirty ≡ get DirtyKey-discrete k once.dirty)
    × (after.catalog ≡ start.catalog)
    × (after.references ≡ start.references)
restore_themes-checkpoint_themes_example =
    restore_themes-checkpoint_themes 700 once start saved once-IsKeyed saved_once

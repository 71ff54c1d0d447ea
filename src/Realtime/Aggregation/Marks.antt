-- ===== src/Realtime/Aggregation/Marks.antt =====
-- What `mark_stock` of packages/realtime/aggregation.py does to the dirty themes.
use dayjaview.Prelude.{refl, ℕ, String, List, ◌≡◌, arith, subst, sym}
use dayjaview.Prelude.Exec.{Result, ok, raised}
use dayjaview.Prelude.Dict.{Dict, get}
use dayjaview.Realtime.Aggregation.{
  mark_themes, DirtyThemeAggregator, DirtyTheme, DirtyKey, mark_stock, DirtyKey-discrete,
  affected_themes, with_dirty, mark_affected,
}
use dayjaview.Realtime.Aggregation.MarkLoop.{
  IsKeyed, IsDirtyFrom, AllDirtyFrom, mark_themes-IsKeyed, mark_themes_later, mark_themes_all,
}

-- What `mark_stock` does: it raises, or the themes that it returns are dirty from the decision on.
-- Either way every entry stands under its own key, and no entry is set back in time.
pub record Marks (stock_id : String) (market_date decision_at : ℕ) (a : DirtyThemeAggregator)
    (r : Result (List String)) (after : DirtyThemeAggregator) : Type 0 where
  pub keeps_keys : IsKeyed after.dirty
  pub keeps_times :
      (key : DirtyKey) (time : ℕ)
      → IsDirtyFrom time (get DirtyKey-discrete key a.dirty)
      → IsDirtyFrom time (get DirtyKey-discrete key after.dirty)
  pub covers :
      (affected : List String)
      → r ≡ ok affected
      → (affected_themes stock_id market_date decision_at a.catalog ≡ ok affected)
        × AllDirtyFrom market_date decision_at affected after.dirty
  pub keeps_rest : (after.catalog ≡ a.catalog) × (after.references ≡ a.references)

with_dirty-Marks :
    (stock_id : String) (market_date decision_at : ℕ) (a : DirtyThemeAggregator)
    (affected : List String)
    → IsKeyed a.dirty
    → affected_themes stock_id market_date decision_at a.catalog ≡ ok affected
    → (run : Result (Unit {0}) × Dict DirtyKey DirtyTheme)
    → run ≡ mark_themes market_date decision_at affected a.dirty
    → Marks stock_id market_date decision_at a
        (with_dirty affected a run).0
        (with_dirty affected a run).1
with_dirty-Marks stock_id market_date decision_at a affected h found (raised e, dirty) q = record {
  keeps_keys =
      subst (λ r. IsKeyed r.1) (sym q)
        (mark_themes-IsKeyed market_date decision_at affected a.dirty h);
  keeps_times = λ key time t.
      subst (λ r. IsDirtyFrom time (get DirtyKey-discrete key r.1)) (sym q)
        (mark_themes_later market_date decision_at time key affected a.dirty t);
  covers = λ l e'. ground arith;
  keeps_rest = (refl, refl);
}
with_dirty-Marks stock_id market_date decision_at a affected h found (ok tt, dirty) q = record {
  keeps_keys =
      subst (λ r. IsKeyed r.1) (sym q)
        (mark_themes-IsKeyed market_date decision_at affected a.dirty h);
  keeps_times = λ key time t.
      subst (λ r. IsDirtyFrom time (get DirtyKey-discrete key r.1)) (sym q)
        (mark_themes_later market_date decision_at time key affected a.dirty t);
  covers = λ l e'.
      let same : affected ≡ l = ground arith in
      subst
        (λ l.
          (affected_themes stock_id market_date decision_at a.catalog ≡ ok l)
          × AllDirtyFrom market_date decision_at l dirty)
        same
        (
          found,
          subst (λ r. AllDirtyFrom market_date decision_at affected r.1) (sym q)
              (mark_themes_all market_date decision_at affected a.dirty (ground arith)),
        );
  keeps_rest = (refl, refl);
}

mark_affected-Marks :
    (stock_id : String) (market_date decision_at : ℕ) (a : DirtyThemeAggregator)
    (found : Result (List String))
    → IsKeyed a.dirty
    → affected_themes stock_id market_date decision_at a.catalog ≡ found
    → Marks stock_id market_date decision_at a
        (mark_affected market_date decision_at a found).0
        (mark_affected market_date decision_at a found).1
unfolding mark_affected
mark_affected-Marks stock_id market_date decision_at a (raised e) h q = record {
  keeps_keys = h;
  keeps_times = λ key time t. t;
  covers = λ l q'. ground arith;
  keeps_rest = (refl, refl);
}
mark_affected-Marks stock_id market_date decision_at a (ok affected) h q =
    with_dirty-Marks stock_id market_date decision_at a affected h q
      (mark_themes market_date decision_at affected a.dirty) refl

-- `mark_stock` keeps every entry under its own key and sets none back in time, also where it raises.
-- Where it returns, the themes that it names are those that have the stock as a member, and each has
-- an entry to be calculated no earlier than at the decision.
pub mark_stock-Marks :
    (stock_id : String) (market_date decision_at : ℕ) (a : DirtyThemeAggregator)
    → IsKeyed a.dirty
    → Marks stock_id market_date decision_at a
        (mark_stock stock_id market_date decision_at a).0
        (mark_stock stock_id market_date decision_at a).1
unfolding mark_stock
mark_stock-Marks stock_id market_date decision_at a h =
    mark_affected-Marks stock_id market_date decision_at a
      (affected_themes stock_id market_date decision_at a.catalog) h refl

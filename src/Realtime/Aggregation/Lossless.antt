-- ===== src/Realtime/Aggregation/Lossless.antt =====
-- From `mark_stock` to `drain` of packages/realtime/aggregation.py.
use dayjaview.Realtime.Aggregation.{
  pending, mark_stock, DirtyThemeAggregator, DirtyKey, DirtyTheme, get, key_of_dirty,
  DirtyKey-discrete,
}
use dayjaview.Prelude.{
  ℕ, String, List, [], ◌∷◌, ◌≡◌, ◌≤◌, All, Any, inl, All-imp, ap, arith, inr, Option-cases, subst,
}
use dayjaview.Prelude.Exec.{Result, ok}
use dayjaview.Realtime.Aggregation.Drains.{Calculation, ThemeMetricUpdate, drain}
use dayjaview.Realtime.HotState.{HotStateStore}
use dayjaview.Realtime.Aggregation.MarkLoop.{IsKeyed, IsDirtyFrom}
use dayjaview.Realtime.Aggregation.Marks.{mark_stock-Marks}
use dayjaview.Prelude.Dict.{get}
use dayjaview.Realtime.Aggregation.Batches.{
  Updates, Drains, fails, drain-Drains, drains, keyed_at, pending-Any,
}

-- A call of `mark_stock`.
pub record Mark : Type 0 where
  pub stock_id : String
  pub market_date : ℕ
  pub decision_at : ℕ

-- Calls one after the other; a caller may catch what one of them raises.
unfoldable pub mark_all : List Mark → DirtyThemeAggregator → DirtyThemeAggregator
unfolding mark_stock
mark_all [] a = a
mark_all (m ∷ ms) a = mark_all ms (mark_stock m.stock_id m.market_date m.decision_at a).1

pub mark_all-IsKeyed :
    (ms : List Mark) (a : DirtyThemeAggregator) → IsKeyed a.dirty → IsKeyed (mark_all ms a).dirty
unfolding mark_all
mark_all-IsKeyed [] a h = h
mark_all-IsKeyed (m ∷ ms) a h =
    let one = mark_stock-Marks m.stock_id m.market_date m.decision_at a h in
    mark_all-IsKeyed ms (mark_stock m.stock_id m.market_date m.decision_at a).1 one.keeps_keys

mark_all_later :
    (ms : List Mark) (a : DirtyThemeAggregator) (key : DirtyKey) (time : ℕ)
    → IsKeyed a.dirty
    → IsDirtyFrom time (get DirtyKey-discrete key a.dirty)
    → IsDirtyFrom time (get DirtyKey-discrete key (mark_all ms a).dirty)
unfolding mark_all
mark_all_later [] a key time h t = t
mark_all_later (m ∷ ms) a key time h t =
    let one = mark_stock-Marks m.stock_id m.market_date m.decision_at a h in
    mark_all_later ms (mark_stock m.stock_id m.market_date m.decision_at a).1 key time
      one.keeps_keys (one.keeps_times key time t)

-- An update of a theme on a day, calculated no earlier than at the time.
abbrev pub IsCalculated : {Metrics : Type 0} → String → ℕ → ℕ → ThemeMetricUpdate Metrics → Type 0
IsCalculated theme_id market_date time u =
    (u.theme_id ≡ theme_id) × (u.market_date ≡ market_date) × (time ≤ u.as_of)

module _ {Metrics : Type 0} (calculate : Calculation Metrics) (hot_state : HotStateStore) where
  updated :
      (a : DirtyThemeAggregator) (id : String) (market_date time : ℕ) (v : DirtyTheme)
      → key_of_dirty v ≡ (id, market_date)
      → time ≤ v.as_of
      → (ds : List DirtyTheme) (us : List (ThemeMetricUpdate Metrics))
      → Updates calculate hot_state a ds us
      → Any (λ d. d ≡ v) ds
      → Any (IsCalculated id market_date time) us
  updated a id market_date time v k t [] us h p = absurd p
  updated a id market_date time v k t (d ∷ ds) [] h p = absurd h
  updated a id market_date time v k t (d ∷ ds) (u ∷ us) h (inl same) =
      let s = h.0.same_theme in
      let at : d.as_of ≡ v.as_of = ap (λ x. DirtyTheme.as_of x) same in
      inl (ground arith, ground arith, omega (arith, at, s.2, t))
  updated a id market_date time v k t (d ∷ ds) (u ∷ us) h (inr later) =
      inr (updated a id market_date time v k t ds us h.1 later)

  from_drain :
      (a : DirtyThemeAggregator) (id : String) (market_date time : ℕ)
      (us : List (ThemeMetricUpdate Metrics))
      → IsKeyed a.dirty
      → IsDirtyFrom time (get DirtyKey-discrete (id, market_date) a.dirty)
      → {r : Result (List (ThemeMetricUpdate Metrics))} {after : DirtyThemeAggregator}
      → Drains calculate hot_state a r after
      → r ≡ ok us
      → Any (IsCalculated id market_date time) us
  from_drain a id market_date time us h t (fails e q _) done = ground arith
  from_drain a id market_date time us h t (drains us' q each _ _) done =
      elim (Option-cases (get DirtyKey-discrete (id, market_date) a.dirty)) [
        | inl absent ↦ absurd (subst (IsDirtyFrom time) absent t)
        | inr (v, found) ↦
            let same : us' ≡ us = ground arith in
            subst (Any (IsCalculated id market_date time)) same (
              updated a id market_date time v (keyed_at (id, market_date) v a.dirty h found)
                (subst (IsDirtyFrom time) found t) (pending a) us' each
                (pending-Any a (id, market_date) v found))
      ]

  -- No change is lost: after a `mark_stock` that returned, and any further calls of it, a `drain`
  -- that returns has an update of every theme that the first call named, for its day and calculated
  -- no earlier than at its decision.
  pub mark_stock-drain :
      (a : DirtyThemeAggregator) (m : Mark) (affected : List String) (ms : List Mark)
      (us : List (ThemeMetricUpdate Metrics))
      → IsKeyed a.dirty
      → (mark_stock m.stock_id m.market_date m.decision_at a).0 ≡ ok affected
      → (drain calculate hot_state (mark_all (m ∷ ms) a)).0 ≡ ok us
      → All (λ id. Any (IsCalculated id m.market_date m.decision_at) us) affected
  unfolding mark_all
  mark_stock-drain a m affected ms us h marked drained =
      let one = mark_stock-Marks m.stock_id m.market_date m.decision_at a h in
      let after = (mark_stock m.stock_id m.market_date m.decision_at a).1 in
      let keyed = mark_all-IsKeyed ms after one.keeps_keys in
      All-imp affected
        (λ id dirty.
          from_drain (mark_all ms after) id m.market_date m.decision_at us keyed
            (mark_all_later ms after (id, m.market_date) m.decision_at one.keeps_keys dirty)
            (drain-Drains calculate hot_state (mark_all ms after) keyed) drained)
        (one.covers affected marked).1

-- ===== src/Realtime/Aggregation/Drains.antt =====
-- `drain` of the aggregator of packages/realtime/aggregation.py, for any calculation of the metrics
-- of a theme.
use Prim.Native.Nat.{compare}
use Prim.Native.String.{compare as compare_text, then as thenby}
use text.Mathlib.Text.{is_le}
use dayjaview.Prelude.{
  text_first, ℕ, Bool, true, false, ◌&&◌, Option, none, some, String, String-discrete, ite, leb,
  ltb, ◌==◌, if◌then◌else◌, List, [], ◌∷◌, sort_by, ◌+◌, unique,
}
use dayjaview.Prelude.Exec.{Result, Exec, value_error, ok, raised, and_then, construct}
use dayjaview.Domain.Membership.{ThemeMembershipSnapshot, select_membership_snapshot, stock_ids}
use dayjaview.Prelude.Dict.{remove, Dict}
use dayjaview.Realtime.HotState.{HotStateStore}
use dayjaview.Domain.References.{StockReference}
use dayjaview.Realtime.Aggregation.{
  pending, DirtyTheme, DirtyThemeAggregator, DirtyKey-discrete, select, DirtyKey, key_of_dirty,
}
use dayjaview.Realtime.HotState.Checkpoint.{states_for}
use dayjaview.Domain.Market.{check_observation, StockMarketObservation}
use dayjaview.Realtime.Models.{state_observation, HotStockState}

-- Of two references, by the tuple of `known_at` and `version`.
unfoldable pub known_first : StockReference → StockReference → Bool
known_first a b = is_le (thenby (compare a.known_at b.known_at) (compare_text a.version b.version))

abbrev is_usable_reference : String → ℕ → ℕ → StockReference → Bool
is_usable_reference stock_id market_date as_of r =
    ite (String-discrete r.stock_id stock_id) true false
    && r.effective_for == market_date
    && leb r.known_at as_of

unfoldable pub references_of : String → ℕ → ℕ → List StockReference → List StockReference
references_of stock_id market_date as_of [] = []
references_of stock_id market_date as_of (r ∷ rs) =
    let rest = references_of stock_id market_date as_of rs in
    if is_usable_reference stock_id market_date as_of r then r ∷ rest else rest

-- `eligible[-1]`
unfoldable pub last_reference : List StockReference → Option StockReference
last_reference [] = none
last_reference (r ∷ []) = some r
last_reference (r ∷ s ∷ rs) = last_reference (s ∷ rs)

-- How many became known at the given time.
unfoldable pub known_then : ℕ → List StockReference → ℕ
known_then time [] = 0
known_then time (r ∷ rs) =
    let rest = known_then time rs in if r.known_at == time then rest + 1 else rest

-- What one round of `_select_references` comes to.
unfoldable pub latest_reference : List StockReference → Result (Option StockReference)
unfolding last_reference known_then sort_by known_first
latest_reference eligible = elim (last_reference (sort_by known_first eligible)) [
  | none ↦ ok none
  | some r ↦ if ltb 1 (known_then r.known_at eligible) then raised value_error else ok (some r)
]

abbrev with_reference : Option StockReference → List StockReference → List StockReference
with_reference none rs = rs
with_reference (some r) rs = r ∷ rs

unfoldable pub references_for :
    ℕ → ℕ → List StockReference → List String → Result (List StockReference)
unfolding latest_reference references_of
references_for market_date as_of known [] = ok []
references_for market_date as_of known (id ∷ ids) =
    let rest = references_for market_date as_of known ids in
    and_then (latest_reference (references_of id market_date as_of known))
      (λ r. and_then rest (λ rs. ok (with_reference r rs)))

-- `_select_references`
unfoldable pub select_references :
    List String → ℕ → ℕ → List StockReference → Result (List StockReference)
unfolding references_for sort_by text_first unique String-discrete
select_references stock_ids market_date as_of known =
    references_for market_date as_of known (sort_by text_first (unique String-discrete stock_ids))

-- `state.to_observation()` of each state
unfoldable pub observe_all : List HotStockState → Result (List StockMarketObservation)
unfolding check_observation state_observation
observe_all [] = ok []
observe_all (s ∷ ss) =
    let rest = observe_all ss in
    and_then (construct check_observation (state_observation s))
      (λ o. and_then rest (λ os. ok (o ∷ os)))

pub record ThemeMetricUpdate (Metrics : Type 0) : Type 0 where
  pub theme_id : String
  pub market_date : ℕ
  pub as_of : ℕ
  pub membership_version : String
  pub metrics : Metrics

-- `calculate_theme_metrics` with the policy of the aggregator: the date and the time, the members,
-- the references and the observations.
abbrev pub Calculation : Type 0 → Type 0
Calculation Metrics =
    ℕ
    → ℕ
    → ThemeMembershipSnapshot
    → List StockReference
    → List StockMarketObservation
    → Result Metrics

module _ {Metrics : Type 0} (calculate : Calculation Metrics) where
  abbrev pub update_of : DirtyTheme → ThemeMembershipSnapshot → Metrics → ThemeMetricUpdate Metrics
  update_of d membership metrics = record {
    theme_id = d.theme_id;
    market_date = d.market_date;
    as_of = d.as_of;
    membership_version = membership.version;
    metrics = metrics;
  }

  -- One round of the loop, for a theme that has the given members.
  unfoldable pub update_with :
      HotStateStore
      → List StockReference
      → DirtyTheme
      → Option ThemeMembershipSnapshot
      → Result (ThemeMetricUpdate Metrics)
  unfolding select_references observe_all states_for
  update_with hot_state known d none = raised value_error
  update_with hot_state known d (some membership) =
      let ids = stock_ids membership in
      and_then (select_references ids d.market_date d.as_of known) (λ references.
        and_then (observe_all (states_for d.market_date ids hot_state)) (λ observations.
          and_then (calculate d.market_date d.as_of membership references observations)
            (λ metrics. ok (update_of d membership metrics))))

  unfoldable pub update_for :
      HotStateStore → DirtyThemeAggregator → DirtyTheme → Result (ThemeMetricUpdate Metrics)
  unfolding update_with select_membership_snapshot
  update_for hot_state a d =
      and_then (select d.theme_id d.market_date d.as_of a.catalog)
        (λ membership. update_with hot_state a.references d membership)

  unfoldable pub updates_for :
      HotStateStore
      → DirtyThemeAggregator
      → List DirtyTheme
      → Result (List (ThemeMetricUpdate Metrics))
  unfolding update_for
  updates_for hot_state a [] = ok []
  updates_for hot_state a (d ∷ ds) =
      let rest = updates_for hot_state a ds in
      and_then (update_for hot_state a d) (λ u. and_then rest (λ us. ok (u ∷ us)))

-- The loop that pops the batch.
unfoldable pub pop_all : List DirtyTheme → Dict DirtyKey DirtyTheme → Dict DirtyKey DirtyTheme
unfolding remove DirtyKey-discrete
pop_all [] dirty = dirty
pop_all (d ∷ ds) dirty = pop_all ds (remove DirtyKey-discrete (key_of_dirty d) dirty)

module _ {Metrics : Type 0} (calculate : Calculation Metrics) where
  -- `drain`: the batch is popped when every update has been calculated
  unfoldable pub drain :
      HotStateStore → Exec DirtyThemeAggregator (List (ThemeMetricUpdate Metrics))
  unfolding updates_for pop_all pending
  drain hot_state a = elim (updates_for calculate hot_state a (pending a)) [
    | raised e ↦ (raised e, a)
    | ok us ↦ (ok us, record a { dirty = pop_all (pending a) a.dirty })
  ]

-- ===== src/Calculations/Attention/Timeline.antt =====
-- The order of the intervals that `build_attention_timeline` of packages/calculations/attention.py
-- returns.
use dayjaview.Prelude.{
  refl, ℕ, List, [], ◌∷◌, ◌≤◌, ◌≡◌, suc, ◌++◌, subst, sym, Option, ℕ_discrete, arith, none,
}
use dayjaview.Prelude.Exec.{ok}
use dayjaview.Calculations.Attention.Order.{
  IsAhead, InOrder, still_open-InOrder, while_closed-IsAhead, while_open-IsAhead,
}
use dayjaview.Calculations.Policies.{AttentionPolicy}
use dayjaview.Prelude.Dict.{Dict, get}
use dayjaview.Calculations.Intervals.{
  AttentionDaySignal, AttentionTimeline, OpenInterval, last_interval,
}
use dayjaview.Calculations.Attention.Signals.{AllAtDate, build_attention_timeline-IsBuilt, built_at}
use dayjaview.Calculations.Attention.{
  run_days, build_attention_timeline, Progress, suc, ok, step_from, still_open, Option,
  OpenInterval, ℕ_discrete, gap_before, get, initial_progress, attention_on, some, while_closed,
  last_interval,
}
use dayjaview.Calculations.Calendar.{AscendingFrom}
use dayjaview.Calculations.Attention.{attention_on}

module _ (close_after : ℕ) (calendar : List ℕ) (signals : Dict ℕ AttentionDaySignal)
    (at : AllAtDate signals) where
  pub step_from-IsAhead :
      (from day : ℕ) (p : Progress)
      → IsAhead from p.completed p.active
      → from ≤ day
      → IsAhead
          (suc day)
          (step_from close_after calendar signals day p.active p).completed
          (step_from close_after calendar signals day p.active p).active
  unfolding step_from while_closed
  step_from-IsAhead from day p h le = by_active p.active refl h
    where
      by_active :
          (active : Option OpenInterval)
          → p.active ≡ active
          → IsAhead from p.completed active
          → IsAhead
              (suc day)
              (step_from close_after calendar signals day active p).completed
              (step_from close_after calendar signals day active p).active
      by_active none q h =
          while_closed-IsAhead (gap_before calendar signals day (last_interval p.completed))
            (get ℕ_discrete day signals) (attention_on calendar signals day) from day p q h le
            (at day)
      by_active (some i) q h =
          while_open-IsAhead close_after i (get ℕ_discrete day signals)
            (attention_on calendar signals day) from day p q h le

  run_days-IsAhead :
      (from : ℕ) (days : List ℕ) (p : Progress)
      → IsAhead from p.completed p.active
      → AscendingFrom from days
      → InOrder 0 (
          (run_days close_after calendar signals days p).completed
          ++ still_open (run_days close_after calendar signals days p).active)
  unfolding run_days
  run_days-IsAhead from [] p h asc = still_open-InOrder from p.completed p.active h
  run_days-IsAhead from (day ∷ days) p h asc =
      run_days-IsAhead (suc day) days (step_from close_after calendar signals day p.active p)
        (step_from-IsAhead from day p h asc.0) asc.1

-- The intervals come one after the other: none ends before it begins, each close is later than the
-- last day of attention, each interval begins after the close of the one before it, and only the
-- last one may be open.
pub build_attention_timeline-InOrder :
    (policy : AttentionPolicy) (signals : List AttentionDaySignal) (trading_days : List ℕ)
    (t : AttentionTimeline)
    → build_attention_timeline policy signals trading_days ≡ ok t
    → InOrder 0 t.intervals
build_attention_timeline-InOrder policy signals trading_days t h =
    let built = build_attention_timeline-IsBuilt policy signals trading_days t h in
    subst (λ t. InOrder 0 (AttentionTimeline.intervals t)) (sym built.same)
      (run_days-IsAhead policy.close_after_absent_trading_days trading_days built.by_date
        (built_at policy signals trading_days built) 0 trading_days initial_progress (omega arith)
        built.ascending)

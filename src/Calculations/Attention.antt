-- ===== src/Calculations/Attention.antt =====
-- `build_attention_timeline` of packages/calculations/attention.py: the intervals in which a theme
-- has attention, from the signals of single trading days.
pub mod Order
pub mod Signals
pub mod Timeline
pub mod Cover
pub mod Absence
pub mod Evidence
pub mod Days
use Prim.Native.String.{compare as compare_text}
use text.Mathlib.Text.{is_le}
use dayjaview.Prelude.{
  ℕ, Bool, true, false, not, ◌&&◌, ◌||◌, Option, none, some, String, String-discrete, ite, leb, ltb,
  ◌==◌, if◌then◌else◌, List, [], ◌∷◌, sort_by, ◌+◌, suc, unique, length, zero, ℕ_discrete, is_in,
  is_none, ◌++◌,
}
use dayjaview.Prelude.Exec.{Result, value_error, ok, and_then, raised}
use dayjaview.Domain.Reasons.{
  UnavailableReason, no_prior_attention_interval, incomplete_attention_history,
  no_current_attention_interval,
}
use dayjaview.Calculations.Policies.{AttentionPolicy, PolicyMaturity}
use dayjaview.Domain.Decimal.{Decimal}
use dayjaview.Prelude.Dict.{Dict, get, put}
use dayjaview.Calculations.Intervals.{
  extend, AttentionTimeline, AttentionDaySignal, OpenInterval, AttentionInterval, new_interval,
  freeze, last_interval,
}

-- The variables of the loop.
pub record Progress : Type 0 where
  pub completed : List AttentionInterval
  pub active : Option OpenInterval
  pub absent_streak : ℕ

abbrev pub initial_progress : Progress
initial_progress = record { completed = []; active = none; absent_streak = 0 }

-- `calendar_positions[day]`
unfoldable pub position : ℕ → List ℕ → ℕ
position day [] = 0
position day (d ∷ ds) = let rest = position day ds in if d == day then 0 else rest + 1

-- `calendar[start:stop]`
unfoldable pub slice : ℕ → ℕ → List ℕ → List ℕ
slice begin stop [] = []
slice begin zero (d ∷ ds) = []
slice zero (suc stop) (d ∷ ds) = d ∷ slice zero stop ds
slice (suc begin) (suc stop) (d ∷ ds) = slice begin stop ds

-- `None if day_signal is None else day_signal.is_attention`
abbrev pub attention_of : Option AttentionDaySignal → Option Bool
attention_of none = none
attention_of (some s) = s.is_attention

module _ (calendar : List ℕ) (signals : Dict ℕ AttentionDaySignal) where
  -- The `state` of a day.
  abbrev pub attention_on : ℕ → Option Bool
  attention_on day = attention_of (get ℕ_discrete day signals)

  abbrev is_absent : Option Bool → Bool
  is_absent (some false) = true
  is_absent (some true) = false
  is_absent none = false

  unfoldable pub history_complete : List ℕ → Bool
  history_complete [] = true
  history_complete (d ∷ ds) = is_absent (attention_on d) && history_complete ds

  -- The gap before an interval that begins on the day, or why there is none.
  unfoldable pub gap_before : ℕ → Option AttentionInterval → Option ℕ × Option UnavailableReason
  unfolding history_complete slice position
  gap_before day none = (none, some no_prior_attention_interval)
  gap_before day (some previous) =
      let between : List ℕ =
        slice (position previous.last_attention_date calendar + 1) (position day calendar)
          calendar in
      if history_complete between
      then (some (length between), none)
      else (none, some incomplete_attention_history)

-- A day while no interval is open, by its signal and what that says of attention.
unfoldable pub while_closed :
    Option ℕ × Option UnavailableReason
    → Option AttentionDaySignal
    → Option Bool
    → Progress
    → Progress
unfolding new_interval
while_closed gap (some s) (some true) p = record {
  completed = p.completed;
  active = some (new_interval s gap);
  absent_streak = 0;
}
while_closed gap (some s) (some false) p = p
while_closed gap (some s) none p = p
while_closed gap none state p = p

-- A day of known absence while an interval is open.
abbrev pub absent : ℕ → ℕ → OpenInterval → Progress → Progress
absent close_after day i p =
    if leb close_after (p.absent_streak + 1)
    then record {
      completed = p.completed ++ (freeze (some day) i ∷ []);
      active = none;
      absent_streak = 0;
    }
    else record p { absent_streak = p.absent_streak + 1 }

-- A day while an interval is open.
unfoldable pub while_open :
    ℕ → ℕ → OpenInterval → Option AttentionDaySignal → Option Bool → Progress → Progress
unfolding extend freeze
while_open close_after day i (some s) (some true) p = record p {
  active = some (extend day s i);
  absent_streak = 0;
}
while_open close_after day i (some s) (some false) p = absent close_after day i p
while_open close_after day i (some s) none p = record p { absent_streak = 0 }
while_open close_after day i none state p = record p { absent_streak = 0 }

module _ (close_after : ℕ) (calendar : List ℕ) (signals : Dict ℕ AttentionDaySignal) where
  -- One round of the loop.
  unfoldable pub step_from : ℕ → Option OpenInterval → Progress → Progress
  unfolding while_closed while_open gap_before last_interval
  step_from day none p =
      while_closed (gap_before calendar signals day (last_interval p.completed))
        (get ℕ_discrete day signals) (attention_on calendar signals day) p
  step_from day (some i) p =
      while_open close_after day i (get ℕ_discrete day signals) (attention_on calendar signals day)
        p

  unfoldable pub run_days : List ℕ → Progress → Progress
  unfolding step_from
  run_days [] p = p
  run_days (day ∷ days) p = run_days days (step_from day p.active p)

-- What is frozen after the loop.
abbrev pub still_open : Option OpenInterval → List AttentionInterval
still_open none = []
still_open (some i) = freeze none i ∷ []

-- The first loop: the signals by their dates.
unfoldable pub index_signals :
    List ℕ
    → String
    → List AttentionDaySignal
    → Dict ℕ AttentionDaySignal
    → Result (Dict ℕ AttentionDaySignal)
unfolding is_in ℕ_discrete String-discrete
index_signals calendar version [] signals = ok signals
index_signals calendar version (s ∷ ss) signals =
    let rest = index_signals calendar version ss (put ℕ_discrete s.market_date s signals) in
    if not (is_in ℕ_discrete s.market_date calendar)
      || not (is_none (get ℕ_discrete s.market_date signals))
      || not (ite (String-discrete s.attention_policy_version version) true false)
    then raised value_error
    else rest

unfoldable pub same_days : List ℕ → List ℕ → Bool
same_days [] [] = true
same_days [] (e ∷ es) = false
same_days (d ∷ ds) [] = false
same_days (d ∷ ds) (e ∷ es) = d == e && same_days ds es

-- `_validate_calendar`
unfoldable pub validate_calendar : List ℕ → Result (List ℕ)
unfolding sort_by unique ℕ_discrete same_days
validate_calendar trading_days =
    if same_days (sort_by leb (unique ℕ_discrete trading_days)) trading_days
    then ok trading_days
    else raised value_error

-- The timeline after both loops.
abbrev pub timeline_of : AttentionPolicy → List ℕ → Dict ℕ AttentionDaySignal → AttentionTimeline
timeline_of policy calendar signals =
    let p =
      run_days policy.close_after_absent_trading_days calendar signals calendar initial_progress in
    record {
      policy_version = policy.version;
      policy_maturity = policy.maturity;
      intervals = p.completed ++ still_open p.active;
    }

unfoldable pub build_attention_timeline :
    AttentionPolicy → List AttentionDaySignal → List ℕ → Result AttentionTimeline
unfolding run_days index_signals validate_calendar
build_attention_timeline policy signals trading_days =
    and_then (validate_calendar trading_days) (λ calendar.
      and_then (index_signals calendar policy.version signals [])
        (λ by_date. ok (timeline_of policy calendar by_date)))

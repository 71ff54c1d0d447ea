-- ===== src/Calculations/Attention/Days.antt =====
-- The timeline of packages/calculations/attention.py, of signals that its own
-- `evaluate_attention_day` made.
use dayjaview.Prelude.{
  refl, ℕ, true, List, [], ◌∷◌, Any, ◌≡◌, Option, map, inl, sym, All, ◌∙◌, All-imp, inr, none,
}
use dayjaview.Prelude.Exec.{ok}
use dayjaview.Calculations.Metrics.{ThemeMetrics}
use dayjaview.Calculations.AttentionDay.{
  evaluate_attention_day, IsAttentive, signal_of, day_reason, evaluate_attention_day-IsAttentive,
}
use dayjaview.Calculations.Policies.{AttentionPolicy}
use dayjaview.Calculations.Turnover.{ThemeTurnoverResult}
use dayjaview.Calculations.Intervals.{AttentionTimeline, AttentionDaySignal}
use dayjaview.Calculations.Attention.Absence.{Says}
use dayjaview.Calculations.Attention.{build_attention_timeline, UnavailableReason, ok, some}
use dayjaview.Domain.Reasons.{UnavailableReason}
use dayjaview.Calculations.Attention.Evidence.{build_attention_timeline-IsAttested}

-- What a trading day is judged by.
pub record DayInput : Type 0 where
  pub market_date : ℕ
  pub metrics : ThemeMetrics
  pub turnover : ThemeTurnoverResult

abbrev pub signal_on : AttentionPolicy → DayInput → AttentionDaySignal
signal_on policy d = evaluate_attention_day d.market_date d.metrics d.turnover policy

-- A judged day with that date on which the theme reached every threshold.
abbrev pub AttentiveOn : AttentionPolicy → List DayInput → ℕ → Type 0
AttentiveOn policy inputs day =
    Any (λ d. (d.market_date ≡ day) × IsAttentive d.metrics d.turnover policy) inputs

evaluate_date :
    (policy : AttentionPolicy) (d : DayInput) → (signal_on policy d).market_date ≡ d.market_date
unfolding evaluate_attention_day
evaluate_date policy d = dated (day_reason d.metrics d.turnover policy)
  where
    dated :
        (o : Option UnavailableReason)
        → AttentionDaySignal.market_date (signal_of d.market_date d.metrics d.turnover policy o)
          ≡ d.market_date
    dated (some reason) = refl
    dated none = refl

attentive_of_Says :
    (policy : AttentionPolicy) (inputs : List DayInput) (day : ℕ)
    → Says (map (signal_on policy) inputs) day true
    → AttentiveOn policy inputs day
attentive_of_Says policy [] day h = h
attentive_of_Says policy (d ∷ ds) day (inl (at, attends)) = inl (
  sym (evaluate_date policy d) ∙ at,
  evaluate_attention_day-IsAttentive d.market_date d.metrics d.turnover policy attends,
)
attentive_of_Says policy (d ∷ ds) day (inr later) = inr (attentive_of_Says policy ds day later)

-- In a timeline of judged days, the first and the last day of every interval are days on which the
-- theme was observed well enough and reached every threshold of the policy.
pub evaluate_attention_day-build_attention_timeline :
    (policy : AttentionPolicy) (inputs : List DayInput) (trading_days : List ℕ)
    (t : AttentionTimeline)
    → build_attention_timeline policy (map (signal_on policy) inputs) trading_days ≡ ok t
    → All
        (λ i.
          AttentiveOn policy inputs i.first_attention_date
          × AttentiveOn policy inputs i.last_attention_date)
        t.intervals
evaluate_attention_day-build_attention_timeline policy inputs trading_days t h =
    All-imp t.intervals
      (λ i q. (
        attentive_of_Says policy inputs i.first_attention_date q.begins,
        attentive_of_Says policy inputs i.last_attention_date q.ends,
      ))
      (build_attention_timeline-IsAttested policy (map (signal_on policy) inputs) trading_days t h)

-- ===== src/Calculations/Attention/Cover.antt =====
-- The days of attention and the intervals of the timeline of packages/calculations/attention.py.
use dayjaview.Prelude.{
  refl, ℕ, Bool, true, false, List, [], ◌∷◌, Option, ◌≤◌, Any, ◌⊎◌, ◌++◌, inl, inr, ◌≡◌, none, ◌<◌,
  is_in, arith, ℕ_discrete, suc, Bool-cases, subst, sym, leb, ap, ◌+◌, ◌∙◌,
}
use dayjaview.Prelude.Exec.{ok}
use dayjaview.Calculations.Attention.Order.{AtDate, IsAhead}
use dayjaview.Prelude.Dict.{Dict, get}
use dayjaview.Calculations.Intervals.{
  freeze, AttentionInterval, AttentionDaySignal, extend, OpenInterval, AttentionTimeline,
  new_interval, last_interval,
}
use dayjaview.Calculations.Attention.{
  while_open, while_closed, OpenInterval, UnavailableReason, extend, AttentionDaySignal, some,
  Progress, AttentionTimeline, step_from, run_days, still_open, build_attention_timeline,
  gap_before, new_interval, is_in, ok, get, suc, ℕ_discrete, attention_on, leb, initial_progress,
  last_interval,
}
use dayjaview.Calculations.Policies.{AttentionPolicy}
use dayjaview.Domain.Reasons.{UnavailableReason}
use dayjaview.Calculations.Attention.Signals.{
  AllAtDate, build_attention_timeline-IsBuilt, index_signals_all, built_at,
}
use dayjaview.Calculations.Calendar.{AscendingFrom}
use dayjaview.Calculations.Attention.Timeline.{step_from-IsAhead}

abbrev pub Spans : ℕ → AttentionInterval → Type 0
Spans day i = (i.first_attention_date ≤ day) × (day ≤ i.last_attention_date)

abbrev SpansOpen : ℕ → Option OpenInterval → Type 0
SpansOpen day none = ⊥
SpansOpen day (some i) = (i.first_attention_date ≤ day) × (day ≤ i.last_attention_date)

abbrev IsCovered : ℕ → List AttentionInterval → Option OpenInterval → Type 0
IsCovered day completed active = Any (Spans day) completed ⊎ SpansOpen day active

Any-append_left :
    (P : AttentionInterval → Type 0) (xs ys : List AttentionInterval) → Any P xs → Any P (xs ++ ys)
Any-append_left P [] ys h = absurd h
Any-append_left P (x ∷ xs) ys (inl at) = inl at
Any-append_left P (x ∷ xs) ys (inr later) = inr (Any-append_left P xs ys later)

Any-append_right :
    (P : AttentionInterval → Type 0) (xs ys : List AttentionInterval) → Any P ys → Any P (xs ++ ys)
Any-append_right P [] ys h = h
Any-append_right P (x ∷ xs) ys h = inr (Any-append_right P xs ys h)

module _ (d : ℕ) where
  while_closed-IsCovered :
      (gap : Option ℕ × Option UnavailableReason) (s : Option AttentionDaySignal)
      (state : Option Bool) (p : Progress)
      → Any (Spans d) p.completed
      → IsCovered d (while_closed gap s state p).completed (while_closed gap s state p).active
  unfolding while_closed
  while_closed-IsCovered gap none state p h = inl h
  while_closed-IsCovered gap (some s) none p h = inl h
  while_closed-IsCovered gap (some s) (some false) p h = inl h
  while_closed-IsCovered gap (some s) (some true) p h = inl h

  while_open-IsCovered :
      (close_after : ℕ) (i : OpenInterval) (s : Option AttentionDaySignal) (state : Option Bool)
      (from day : ℕ) (p : Progress)
      → p.active ≡ some i
      → i.last_attention_date < from
      → from ≤ day
      → IsCovered d p.completed (some i)
      → IsCovered d
          (while_open close_after day i s state p).completed
          (while_open close_after day i s state p).active
  unfolding while_open extend freeze
  while_open-IsCovered close_after i none state from day p is_active lt le h = rw (is_active) h
  while_open-IsCovered close_after i (some s) none from day p is_active lt le h = rw (is_active) h
  while_open-IsCovered close_after i (some s) (some true) from day p is_active lt le (inl h) = inl h
  while_open-IsCovered close_after i (some s) (some true) from day p is_active lt le (inr h) =
      inr (h.0, omega (arith, h.1))
  while_open-IsCovered close_after i (some s) (some false) from day p is_active lt le h =
      elim (Bool-cases (leb close_after (p.absent_streak + 1))) [
        | inl ends ↦ rw (ends) (inl (closing h))
        | inr lasts ↦ rw (lasts) (rw (is_active) h)
      ]
    where
      closing :
          IsCovered d p.completed (some i)
          → Any (Spans d) (p.completed ++ (freeze (some day) i ∷ []))
      closing (inl h) = Any-append_left (Spans d) p.completed (freeze (some day) i ∷ []) h
      closing (inr h) = Any-append_right (Spans d) p.completed (freeze (some day) i ∷ []) (inl h)

module _ (close_after : ℕ) (calendar : List ℕ) (signals : Dict ℕ AttentionDaySignal)
    (at : AllAtDate signals) where
  step_from-kept :
      (d from day : ℕ) (p : Progress) (active : Option OpenInterval)
      → p.active ≡ active
      → IsAhead from p.completed active
      → from ≤ day
      → IsCovered d p.completed active
      → IsCovered d
          (step_from close_after calendar signals day active p).completed
          (step_from close_after calendar signals day active p).active
  unfolding step_from while_closed
  step_from-kept d from day p none q a le (inl h) =
      while_closed-IsCovered d (gap_before calendar signals day (last_interval p.completed))
        (get ℕ_discrete day signals) (attention_on calendar signals day) p h
  step_from-kept d from day p none q a le (inr h) = absurd h
  step_from-kept d from day p (some i) q a le h =
      while_open-IsCovered d close_after i (get ℕ_discrete day signals)
        (attention_on calendar signals day) from day p q a.2 le h

  -- A day of attention is covered after its own round.
  step_from-covers :
      (from day : ℕ) (p : Progress) (active : Option OpenInterval) (s : AttentionDaySignal)
      → IsAhead from p.completed active
      → from ≤ day
      → get ℕ_discrete day signals ≡ some s
      → s.is_attention ≡ some true
      → IsCovered day
          (step_from close_after calendar signals day active p).completed
          (step_from close_after calendar signals day active p).active
  unfolding step_from while_closed while_open extend new_interval
  step_from-covers from day p none s a le found yes_attention =
      rw (found) (rw (yes_attention) (inr (omega (arith, dated), omega (arith, dated))))
    where
      dated : s.market_date ≡ day
      dated = subst (AtDate day) found (at day)
  step_from-covers from day p (some i) s a le found yes_attention =
      rw (found) (rw (yes_attention) (inr (omega (arith, a.1, a.2), omega arith)))

  run_days-kept :
      (d from : ℕ) (days : List ℕ) (p : Progress)
      → IsAhead from p.completed p.active
      → AscendingFrom from days
      → IsCovered d p.completed p.active
      → IsCovered d
          (run_days close_after calendar signals days p).completed
          (run_days close_after calendar signals days p).active
  unfolding run_days
  run_days-kept d from [] p a asc h = h
  run_days-kept d from (day ∷ days) p a asc h =
      run_days-kept d (suc day) days (step_from close_after calendar signals day p.active p)
        (step_from-IsAhead close_after calendar signals at from day p a asc.0) asc.1
        (step_from-kept d from day p p.active refl a asc.0 h)

  run_days-covers :
      (d from : ℕ) (days : List ℕ) (p : Progress) (s : AttentionDaySignal)
      → IsAhead from p.completed p.active
      → AscendingFrom from days
      → is_in ℕ_discrete d days ≡ true
      → get ℕ_discrete d signals ≡ some s
      → s.is_attention ≡ some true
      → IsCovered d
          (run_days close_after calendar signals days p).completed
          (run_days close_after calendar signals days p).active
  unfolding run_days is_in
  run_days-covers d from [] p s a asc there found attends = ground arith
  run_days-covers d from (day ∷ days) p s a asc there found attends = elim (ℕ_discrete d day) [
    | yes same ↦
        run_days-kept d (suc day) days (step_from close_after calendar signals day p.active p)
          (step_from-IsAhead close_after calendar signals at from day p a asc.0) asc.1
          (subst
            (λ x.
              IsCovered x (step_from close_after calendar signals day p.active p).completed
                (step_from close_after calendar signals day p.active p).active)
            (sym same)
            (step_from-covers from day p p.active s a asc.0
              (ap (λ k. get ℕ_discrete k signals) (sym same) ∙ found) attends))
    | no other ↦
        run_days-covers d (suc day) days (step_from close_after calendar signals day p.active p) s
          (step_from-IsAhead close_after calendar signals at from day p a asc.0) asc.1
          (ground arith) found attends
  ]

covered-Any :
    (d : ℕ) (completed : List AttentionInterval) (active : Option OpenInterval)
    → IsCovered d completed active
    → Any (Spans d) (completed ++ still_open active)
unfolding freeze
covered-Any d completed active (inl h) = Any-append_left (Spans d) completed (still_open active) h
covered-Any d completed none (inr h) = absurd h
covered-Any d completed (some i) (inr h) =
    Any-append_right (Spans d) completed (freeze none i ∷ []) (inl h)

-- No attention is lost: the day of every signal of attention lies in an interval of the timeline.
pub build_attention_timeline-Spans :
    (policy : AttentionPolicy) (signals : List AttentionDaySignal) (trading_days : List ℕ)
    (t : AttentionTimeline) (s : AttentionDaySignal)
    → build_attention_timeline policy signals trading_days ≡ ok t
    → Any (λ x. x ≡ s) signals
    → s.is_attention ≡ some true
    → Any (Spans s.market_date) t.intervals
build_attention_timeline-Spans policy signals trading_days t s h given attends =
    let built = build_attention_timeline-IsBuilt policy signals trading_days t h in
    let (found, there) =
      index_signals_all trading_days policy.version signals [] built.by_date s built.indexed
        given in
    subst (λ t. Any (Spans s.market_date) (AttentionTimeline.intervals t)) (sym built.same)
      (covered-Any s.market_date _ _ (
        run_days-covers policy.close_after_absent_trading_days trading_days built.by_date
          (built_at policy signals trading_days built) s.market_date 0 trading_days initial_progress
          s (omega arith) built.ascending there found attends))

-- ===== src/Calculations/Attention/Evidence.antt =====
-- The evidence behind every interval that `build_attention_timeline` of
-- packages/calculations/attention.py returns.

use dayjaview.Prelude.{
  refl, ℕ, List, [], ◌∷◌, String, ◌≡◌, ◌++◌, ap, All, ℕ_discrete, Option, some, ◌⊎◌, Any,
  All-append, inl, subst, none, sym, ◌∙◌, arith, inr,
}
use dayjaview.Prelude.Exec.{ok, ok-injective}
use dayjaview.Calculations.Policies.{AttentionPolicy}
use dayjaview.Calculations.Intervals.{
  AttentionDaySignal, AttentionTimeline, OpenInterval, freeze, last_interval,
}
use dayjaview.Calculations.Attention.{
  index_signals, String, Dict, AttentionTimeline, build_attention_timeline, ok, step_from, run_days,
  get, while_closed, Progress, ℕ_discrete, Option, some, OpenInterval, still_open, gap_before,
  freeze, attention_on, none, put, initial_progress, last_interval,
}
use dayjaview.Prelude.Dict.{Dict, get, get-empty, put, get-put}
use dayjaview.Calculations.Attention.Absence.{
  Stems, IsAttested, OpenEvident, while_closed-Evident, while_open-Evident,
}
use dayjaview.Calculations.Attention.Signals.{
  IsBuilt, index_step, built_at, build_attention_timeline-IsBuilt,
}
use dayjaview.Calculations.Attention.Order.{AtDate}

-- Every entry was there before, or is one of the signals.
index_signals_from :
    (calendar : List ℕ) (version : String) (ss : List AttentionDaySignal)
    (signals r : Dict ℕ AttentionDaySignal) (day : ℕ) (s : AttentionDaySignal)
    → index_signals calendar version ss signals ≡ ok r
    → get ℕ_discrete day r ≡ some s
    → (get ℕ_discrete day signals ≡ some s) ⊎ Any (λ x. x ≡ s) ss
unfolding index_signals
index_signals_from calendar version [] signals r day s h found =
    inl (subst (λ d. get ℕ_discrete day d ≡ some s) (sym (ok-injective h)) found)
index_signals_from calendar version (x ∷ ss) signals r day s h found =
    let (rest, new, _) = index_step calendar version x ss signals r h in
    elim (index_signals_from calendar version ss (put ℕ_discrete x.market_date x signals) r day s
      rest found) [
        | inr later ↦ inr (inr later)
        | inl before ↦ elim (ℕ_discrete x.market_date day) [
          | yes same ↦ inr (inl (ground (arith, get-put ℕ_discrete x.market_date day x signals)))
          | no other ↦ inl (ground (arith, get-put ℕ_discrete x.market_date day x signals))
        ]
      ]

module _ (close_after : ℕ) (calendar : List ℕ) (signals : List AttentionDaySignal)
    (by_date : Dict ℕ AttentionDaySignal) (stems : Stems close_after calendar signals by_date) where
  step_from-Evident :
      (day : ℕ) (seen rest : List ℕ) (p : Progress) (active : Option OpenInterval)
      → p.active ≡ active
      → All (IsAttested close_after calendar signals) p.completed
      → OpenEvident close_after calendar signals seen p.absent_streak active
      → calendar ≡ (seen ++ (day ∷ [])) ++ rest
      → All
          (IsAttested close_after calendar signals)
          (step_from close_after calendar by_date day active p).completed
        × OpenEvident close_after calendar signals
            (seen ++ (day ∷ []))
            (step_from close_after calendar by_date day active p).absent_streak
            (step_from close_after calendar by_date day active p).active
  unfolding step_from while_closed
  step_from-Evident day seen rest p none q h o c =
      while_closed-Evident close_after calendar signals
        (gap_before calendar by_date day (last_interval p.completed)) (get ℕ_discrete day by_date)
        (attention_on calendar by_date day) day (seen ++ (day ∷ [])) p q h (stems day) refl
  step_from-Evident day seen rest p (some i) q h o c =
      while_open-Evident close_after calendar signals i (get ℕ_discrete day by_date)
        (attention_on calendar by_date day) day seen rest p q h o c (stems day) refl

  append_one :
      (seen : List ℕ) (day : ℕ) (days : List ℕ)
      → seen ++ (day ∷ days) ≡ (seen ++ (day ∷ [])) ++ days
  append_one [] day days = refl
  append_one (d ∷ seen) day days = ap (λ l. d ∷ l) (append_one seen day days)

  run_days-Evident :
      (seen days : List ℕ) (p : Progress)
      → All (IsAttested close_after calendar signals) p.completed
      → OpenEvident close_after calendar signals seen p.absent_streak p.active
      → calendar ≡ seen ++ days
      → All (IsAttested close_after calendar signals) (
          (run_days close_after calendar by_date days p).completed
          ++ still_open (run_days close_after calendar by_date days p).active)
  unfolding run_days
  run_days-Evident seen [] p h o c = all_frozen p.active o
    where
      all_frozen :
          (active : Option OpenInterval)
          → OpenEvident close_after calendar signals seen p.absent_streak active
          → All (IsAttested close_after calendar signals) (p.completed ++ still_open active)
      all_frozen none o = All-append (IsAttested close_after calendar signals) p.completed [] h tt
      all_frozen (some i) o =
          All-append (IsAttested close_after calendar signals) p.completed (freeze none i ∷ []) h
            (unfold freeze in (record { begins = o.0; ends = o.1; closes = tt }, tt))
  run_days-Evident seen (day ∷ days) p h o c =
      let c' = c ∙ append_one seen day days in
      let (h', o') = step_from-Evident day seen days p p.active refl h o c' in
      run_days-Evident (seen ++ (day ∷ [])) days
        (step_from close_after calendar by_date day p.active p) h' o' c'

-- Every interval begins and ends on a day of which a signal says that it has attention. An interval
-- that is closed is closed on the last of consecutive trading days, as many as the policy asks for,
-- of each of which a signal says that it has none: a day without a signal, or with one that does not
-- know, never counts as absence.
pub build_attention_timeline-IsAttested :
    (policy : AttentionPolicy) (signals : List AttentionDaySignal) (trading_days : List ℕ)
    (t : AttentionTimeline)
    → build_attention_timeline policy signals trading_days ≡ ok t
    → All (IsAttested policy.close_after_absent_trading_days trading_days signals) t.intervals
build_attention_timeline-IsAttested policy signals trading_days t h =
    let built = build_attention_timeline-IsBuilt policy signals trading_days t h in
    subst
      (λ t.
        All (IsAttested policy.close_after_absent_trading_days trading_days signals)
          (AttentionTimeline.intervals t))
      (sym built.same)
      (run_days-Evident policy.close_after_absent_trading_days trading_days signals built.by_date
        (stems built) [] trading_days initial_progress tt tt refl)
  where
    stems :
        (built : IsBuilt policy signals trading_days t)
        → Stems policy.close_after_absent_trading_days trading_days signals built.by_date
    stems built day s found = (
      subst (AtDate day) found (built_at policy signals trading_days built day),
      from_signals (
          index_signals_from trading_days policy.version signals [] built.by_date day s
            built.indexed found),
    )
      where
        from_signals :
            (get ℕ_discrete day [] ≡ some s) ⊎ Any (λ x. x ≡ s) signals → Any (λ x. x ≡ s) signals
        from_signals (inl q) = absurd (none-ne (sym (get-empty ℕ_discrete day) ∙ q))
          where
            none-ne : {A : Type 0} {a : A} → none ≡ some a → ⊥
            none-ne q = ground arith
        from_signals (inr given) = given

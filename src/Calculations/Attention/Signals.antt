-- ===== src/Calculations/Attention/Signals.antt =====
-- The signals by their dates, in packages/calculations/attention.py.
use dayjaview.Prelude.{
  ℕ, Bool, true, false, List, [], ◌∷◌, String, not, ◌≡◌, ℕ_discrete, is_in, ◌||◌, ite, subst, Any,
  some, is_none, none, sym, Bool-cases, inl, String-discrete, arith, inr, ◌∙◌, ap,
}
use dayjaview.Prelude.Exec.{ok, and_then-eq-ok, ok-injective}
use dayjaview.Calculations.Attention.Order.{AtDate}
use dayjaview.Calculations.Attention.{
  build_attention_timeline, get, put, not, index_signals, AttentionTimeline, ℕ_discrete, is_in, ite,
  ok, some, is_none, none, timeline_of, String-discrete, validate_calendar,
}
use dayjaview.Prelude.Dict.{Dict, put, get, get-put, get-put_self, get-put_ne, get-empty}
use dayjaview.Calculations.Policies.{AttentionPolicy}
use dayjaview.Calculations.Intervals.{AttentionDaySignal, AttentionTimeline}
use dayjaview.Calculations.Calendar.{AscendingFrom, validate_calendar-eq-ok}

abbrev pub AllAtDate : Dict ℕ AttentionDaySignal → Type 0
AllAtDate signals = (day : ℕ) → AtDate day (get ℕ_discrete day signals)

put-AllAtDate :
    (s : AttentionDaySignal) (signals : Dict ℕ AttentionDaySignal)
    → AllAtDate signals
    → AllAtDate (put ℕ_discrete s.market_date s signals)
put-AllAtDate s signals h day =
    subst (AtDate day) (sym (get-put ℕ_discrete s.market_date day s signals))
      (at (ℕ_discrete s.market_date day))
  where
    at :
        (same : Dec (s.market_date ≡ day))
        → AtDate day (ite same (some s) (get ℕ_discrete day signals))
    at (yes same) = same
    at (no other) = h day

module _ (calendar : List ℕ) (version : String) where
  -- A signal that the loop lets pass.
  abbrev is_refused : AttentionDaySignal → Dict ℕ AttentionDaySignal → Bool
  is_refused s signals =
      not (is_in ℕ_discrete s.market_date calendar)
      || not (is_none (get ℕ_discrete s.market_date signals))
      || not (ite (String-discrete s.attention_policy_version version) true false)

  pub index_step :
      (s : AttentionDaySignal) (ss : List AttentionDaySignal)
      (signals r : Dict ℕ AttentionDaySignal)
      → index_signals calendar version (s ∷ ss) signals ≡ ok r
      → (index_signals calendar version ss (put ℕ_discrete s.market_date s signals) ≡ ok r)
        × (get ℕ_discrete s.market_date signals ≡ none)
        × (is_in ℕ_discrete s.market_date calendar ≡ true)
  unfolding index_signals
  index_step s ss signals r h = elim (Bool-cases (is_refused s signals)) [
    | inl refused ↦ ground arith
    | inr passed ↦ (ground arith, ground arith, ground arith)
  ]

  pub index_signals-AllAtDate :
      (ss : List AttentionDaySignal) (signals r : Dict ℕ AttentionDaySignal)
      → index_signals calendar version ss signals ≡ ok r
      → AllAtDate signals
      → AllAtDate r
  unfolding index_signals
  index_signals-AllAtDate [] signals r h at = subst AllAtDate (ok-injective h) at
  index_signals-AllAtDate (s ∷ ss) signals r h at =
      let (rest, _, _) = index_step s ss signals r h in
      index_signals-AllAtDate ss (put ℕ_discrete s.market_date s signals) r rest
        (put-AllAtDate s signals at)

  index_kept :
      (ss : List AttentionDaySignal) (signals r : Dict ℕ AttentionDaySignal) (day : ℕ)
      (x : AttentionDaySignal)
      → index_signals calendar version ss signals ≡ ok r
      → get ℕ_discrete day signals ≡ some x
      → get ℕ_discrete day r ≡ some x
  unfolding index_signals
  index_kept [] signals r day x h found =
      subst (λ d. get ℕ_discrete day d ≡ some x) (ok-injective h) found
  index_kept (s ∷ ss) signals r day x h found =
      let (rest, new, _) = index_step s ss signals r h in
      index_kept ss (put ℕ_discrete s.market_date s signals) r day x rest (
        get-put_ne ℕ_discrete s.market_date day s signals
          (λ same. absurd (none-ne (sym new ∙ ap (λ k. get ℕ_discrete k signals) same ∙ found)))
        ∙ found)
    where
      none-ne : none ≡ some x → ⊥
      none-ne q = ground arith

  -- Every signal is found under its date, which is a day of the calendar.
  pub index_signals_all :
      (ss : List AttentionDaySignal) (signals r : Dict ℕ AttentionDaySignal)
      (s : AttentionDaySignal)
      → index_signals calendar version ss signals ≡ ok r
      → Any (λ x. x ≡ s) ss
      → (get ℕ_discrete s.market_date r ≡ some s) × (is_in ℕ_discrete s.market_date calendar ≡ true)
  index_signals_all [] signals r s h at = absurd at
  index_signals_all (x ∷ ss) signals r s h (inl same) =
      let (rest, _, day) = index_step x ss signals r h in
      subst
        (λ s.
          (get ℕ_discrete s.market_date r ≡ some s)
          × (is_in ℕ_discrete s.market_date calendar ≡ true))
        same
        (
          index_kept ss (put ℕ_discrete x.market_date x signals) r x.market_date x rest
              (get-put_self ℕ_discrete x.market_date x signals),
          day,
        )
  index_signals_all (x ∷ ss) signals r s h (inr later) =
      let (rest, _, _) = index_step x ss signals r h in
      index_signals_all ss (put ℕ_discrete x.market_date x signals) r s rest later

-- The parts of a timeline that was built.
pub record IsBuilt (policy : AttentionPolicy) (signals : List AttentionDaySignal) (days : List ℕ)
    (t : AttentionTimeline) : Type 0 where
  pub by_date : Dict ℕ AttentionDaySignal
  pub ascending : AscendingFrom 0 days
  pub indexed : index_signals days policy.version signals [] ≡ ok by_date
  pub same : t ≡ timeline_of policy days by_date

pub build_attention_timeline-IsBuilt :
    (policy : AttentionPolicy) (signals : List AttentionDaySignal) (days : List ℕ)
    (t : AttentionTimeline)
    → build_attention_timeline policy signals days ≡ ok t
    → IsBuilt policy signals days t
unfolding build_attention_timeline
build_attention_timeline-IsBuilt policy signals days t h =
    let (calendar, valid, h1) = and_then-eq-ok (validate_calendar days) _ h in
    let (by_date, indexed, h2) =
      and_then-eq-ok (index_signals calendar policy.version signals []) _ h1 in
    let (same, ascending) = validate_calendar-eq-ok days calendar valid in
    record {
      by_date = by_date;
      ascending = subst (AscendingFrom 0) same ascending;
      indexed = subst (λ c. index_signals c policy.version signals [] ≡ ok by_date) same indexed;
      same = sym (ok-injective h2) ∙ ap (λ c. timeline_of policy c by_date) same;
    }

none_at : AllAtDate []
none_at day = subst (AtDate day) (sym (get-empty ℕ_discrete day)) tt

pub built_at :
    (policy : AttentionPolicy) (signals : List AttentionDaySignal) (days : List ℕ)
    {t : AttentionTimeline} (built : IsBuilt policy signals days t)
    → AllAtDate built.by_date
built_at policy signals days built =
    index_signals-AllAtDate days policy.version signals [] built.by_date built.indexed none_at

-- ===== src/Calculations/Attention/Absence.antt =====
-- What stands behind the first, the last and the closing day of an interval of the timeline of
-- packages/calculations/attention.py.
use mathlib.Core.List.{append-nil}
use dayjaview.Prelude.{
  refl, ℕ, Bool, true, false, List, [], ◌∷◌, Any, ◌≡◌, Option, sym, ◌≤◌, ◌++◌, ap, length, ◌+◌,
  some, All, ◌∙◌, inl, ℕ_discrete, none, arith, inr, length-append, All-append, Bool-cases, leb,
}
use dayjaview.Calculations.Intervals.{
  AttentionDaySignal, AttentionInterval, new_interval, OpenInterval, extend, freeze,
}
use dayjaview.Prelude.Dict.{Dict, get}
use dayjaview.Calculations.Attention.{
  while_closed, while_open, some, length, OpenInterval, get, new_interval, extend, ℕ_discrete,
  UnavailableReason, freeze, Progress, attention_of, leb,
}
use dayjaview.Domain.Reasons.{UnavailableReason}

-- Some signal says of the day whether it has attention.
abbrev pub Says : List AttentionDaySignal → ℕ → Bool → Type 0
Says signals day attends =
    Any (λ s. (s.market_date ≡ day) × (s.is_attention ≡ some attends)) signals

module _ (close_after : ℕ) (calendar : List ℕ) (signals : List AttentionDaySignal) where
  -- Consecutive trading days that end on the close, each known to be without attention, as many as
  -- the policy asks for.
  pub record AbsentRun (closed : ℕ) : Type 0 where
    pub earlier : List ℕ
    pub run : List ℕ
    pub later : List ℕ
    pub in_calendar : calendar ≡ earlier ++ ((run ++ (closed ∷ [])) ++ later)
    pub long_enough : close_after ≤ length run + 1
    pub all_absent : All (λ d. Says signals d false) (run ++ (closed ∷ []))

  abbrev pub ClosedOn : Option ℕ → Type 0
  ClosedOn none = Unit {0}
  ClosedOn (some closed) = AbsentRun closed

  pub record AttestedDays (first last : ℕ) (closed : Option ℕ) : Type 0 where
    pub begins : Says signals first true
    pub ends : Says signals last true
    pub closes : ClosedOn closed

  abbrev pub IsAttested : AttentionInterval → Type 0
  IsAttested i =
      AttestedDays i.first_attention_date i.last_attention_date i.closed_confirmation_date

  -- The last days that were seen, as many as the streak counts, are known to be without attention.
  pub record Streak (seen : List ℕ) (streak : ℕ) : Type 0 where
    pub earlier : List ℕ
    pub run : List ℕ
    pub split : seen ≡ earlier ++ run
    pub counted : length run ≡ streak
    pub absent_days : All (λ d. Says signals d false) run

  abbrev pub OpenEvident : List ℕ → ℕ → Option OpenInterval → Type 0
  OpenEvident seen streak none = Unit {0}
  OpenEvident seen streak (some i) =
      Says signals i.first_attention_date true
      × Says signals i.last_attention_date true
      × Streak seen streak

  append_right : (xs ys zs : List ℕ) → (xs ++ ys) ++ zs ≡ xs ++ (ys ++ zs)
  append_right [] ys zs = refl
  append_right (x ∷ xs) ys zs = ap (λ l. x ∷ l) (append_right xs ys zs)

  no-Streak : (seen : List ℕ) → Streak seen 0
  no-Streak seen = record {
    earlier = seen;
    run = [];
    split = sym (append-nil seen);
    counted = refl;
    absent_days = tt;
  }

  longer :
      (seen : List ℕ) (streak day : ℕ)
      → Streak seen streak
      → Says signals day false
      → Streak (seen ++ (day ∷ [])) (streak + 1)
  longer seen streak day h absent_day = record {
    earlier = h.earlier;
    run = h.run ++ (day ∷ []);
    split = ap (λ l. l ++ (day ∷ [])) h.split ∙ append_right h.earlier h.run (day ∷ []);
    counted = omega (arith, length-append h.run (day ∷ []), h.counted);
    absent_days =
        All-append (λ d. Says signals d false) h.run (day ∷ []) h.absent_days (absent_day, tt);
  }

  close_run :
      (seen rest : List ℕ) (streak day : ℕ)
      → Streak seen streak
      → Says signals day false
      → close_after ≤ streak + 1
      → calendar ≡ (seen ++ (day ∷ [])) ++ rest
      → AbsentRun day
  close_run seen rest streak day h absent_day enough q = record {
    earlier = h.earlier;
    run = h.run;
    later = rest;
    in_calendar =
        q
        ∙ ap (λ l. (l ++ (day ∷ [])) ++ rest) h.split
        ∙ ap (λ l. l ++ rest) (append_right h.earlier h.run (day ∷ []))
        ∙ append_right h.earlier (h.run ++ (day ∷ [])) rest;
    long_enough = omega (arith, h.counted);
    all_absent =
        All-append (λ d. Says signals d false) h.run (day ∷ []) h.absent_days (absent_day, tt);
  }

  -- What the signals say is what was given.
  abbrev pub Stems : Dict ℕ AttentionDaySignal → Type 0
  Stems by_date =
      (day : ℕ) (s : AttentionDaySignal)
      → get ℕ_discrete day by_date ≡ some s
      → (s.market_date ≡ day) × Any (λ x. x ≡ s) signals

  said :
      (day : ℕ) (s : AttentionDaySignal) (attends : Bool) (ss : List AttentionDaySignal)
      → s.market_date ≡ day
      → s.is_attention ≡ some attends
      → Any (λ x. x ≡ s) ss
      → Says ss day attends
  said day s attends [] at q h = absurd h
  said day s attends (x ∷ ss) at q (inl same) = inl (
    ap (λ x. AttentionDaySignal.market_date x) same ∙ at,
    ap (λ x. AttentionDaySignal.is_attention x) same ∙ q,
  )
  said day s attends (x ∷ ss) at q (inr later) = inr (said day s attends ss at q later)

  -- A day while no interval is open.
  pub while_closed-Evident :
      (gap : Option ℕ × Option UnavailableReason) (s : Option AttentionDaySignal)
      (state : Option Bool) (day : ℕ) (seen : List ℕ) (p : Progress)
      → p.active ≡ none
      → All IsAttested p.completed
      → ((x : AttentionDaySignal) → s ≡ some x → (x.market_date ≡ day) × Any (λ y. y ≡ x) signals)
      → state ≡ attention_of s
      → All IsAttested (while_closed gap s state p).completed
        × OpenEvident seen
            (while_closed gap s state p).absent_streak
            (while_closed gap s state p).active
  unfolding while_closed new_interval
  while_closed-Evident gap none state day seen p idle h stems q = (h, rw (idle) tt)
  while_closed-Evident gap (some s) none day seen p idle h stems q = (h, rw (idle) tt)
  while_closed-Evident gap (some s) (some false) day seen p idle h stems q = (h, rw (idle) tt)
  while_closed-Evident gap (some s) (some true) day seen p idle h stems q =
      let (at, given) = stems s refl in
      let says = said s.market_date s true signals refl (sym q) given in
      (h, (says, says, no-Streak seen))

  pub while_open-Evident :
      (i : OpenInterval) (s : Option AttentionDaySignal) (state : Option Bool) (day : ℕ)
      (seen rest : List ℕ) (p : Progress)
      → p.active ≡ some i
      → All IsAttested p.completed
      → OpenEvident seen p.absent_streak (some i)
      → calendar ≡ (seen ++ (day ∷ [])) ++ rest
      → ((x : AttentionDaySignal) → s ≡ some x → (x.market_date ≡ day) × Any (λ y. y ≡ x) signals)
      → state ≡ attention_of s
      → All IsAttested (while_open close_after day i s state p).completed
        × OpenEvident
            (seen ++ (day ∷ []))
            (while_open close_after day i s state p).absent_streak
            (while_open close_after day i s state p).active
  unfolding while_open extend freeze
  while_open-Evident i none state day seen rest p is_active h o c stems q =
      (h, rw (is_active) (o.0, o.1, no-Streak (seen ++ (day ∷ []))))
  while_open-Evident i (some s) none day seen rest p is_active h o c stems q =
      (h, rw (is_active) (o.0, o.1, no-Streak (seen ++ (day ∷ []))))
  while_open-Evident i (some s) (some true) day seen rest p is_active h o c stems q =
      let (at, given) = stems s refl in
      (h, (o.0, said day s true signals at (sym q) given, no-Streak (seen ++ (day ∷ []))))
  while_open-Evident i (some s) (some false) day seen rest p is_active h o c stems q =
      let (at, given) = stems s refl in
      let says = said day s false signals at (sym q) given in
      elim (Bool-cases (leb close_after (p.absent_streak + 1))) [
        | inl enough ↦ rw (enough) (
          All-append IsAttested p.completed (freeze (some day) i ∷ []) h (
            record {
              begins = o.0;
              ends = o.1;
              closes = close_run seen rest p.absent_streak day o.2 says (ground arith) c;
            },
            tt,
          ),
          tt,
        )
        | inr few ↦
            rw (few) (h, rw (is_active) (o.0, o.1, longer seen p.absent_streak day o.2 says))
      ]

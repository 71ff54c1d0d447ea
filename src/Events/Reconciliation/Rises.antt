-- ===== src/Events/Reconciliation/Rises.antt =====
-- The confirmations of a theme and the Events of a day, as packages/events/reconciliation.py picks
-- them.
use dayjaview.Prelude.{
  refl, ℕ, Bool, true, false, not, ◌&&◌, ◌||◌, ◌==◌, some, List, [], ◌∷◌, ◌++◌, String,
  String-discrete, get_or, Any, All, All-imp, ◌⊎◌, inl, inr, ◌≡◌, ◌≢◌, ap, ◌∙◌, arith, Bool-cases,
  sort_by, insert_by, sort_by-All, sort_by-Any, ite,
}
use dayjaview.Prelude.Dict.{get, put, get-put}
use dayjaview.Events.Models.{CanonicalEvent}
use dayjaview.Events.Reconciliation.{
  Articles, AfterCloseConfirmation, articles_for, group_rises, has_none, is_rise, sort_articles,
  up_by_theme, of_day, eligible_events, event_first, identifier_first,
}

module _ (market_date : ℕ) (theme : String) where
  -- A confirmation of a rise of the theme on the day.
  abbrev pub IsRiseOf : AfterCloseConfirmation → Type 0
  IsRiseOf c = (c.event_date ≡ market_date) × (c.direction ≡ "UP") × (c.canonical_theme_id ≡ theme)

  abbrev found_in : Articles → Bool
  found_in groups = not (has_none (get_or (get String-discrete theme groups) []))

  -- There is such a confirmation among these.
  unfoldable has_rise : List AfterCloseConfirmation → Bool
  unfolding String-discrete
  has_rise [] = false
  has_rise (c ∷ cs) =
      let rest = has_rise cs in
      (is_rise market_date c && ite (String-discrete c.canonical_theme_id theme) true false) || rest

  has_rise-Any : (cs : List AfterCloseConfirmation) → has_rise cs ≡ true → Any IsRiseOf cs
  unfolding has_rise
  has_rise-Any [] h = ground arith
  has_rise-Any (c ∷ cs) h = elim (Bool-cases (has_rise cs)) [
    | inl later ↦ inr (has_rise-Any cs later)
    | inr none_later ↦ inl (ground arith)
  ]

  has_rise-ne : (cs : List AfterCloseConfirmation) → has_rise cs ≡ false → ¬ (Any IsRiseOf cs)
  unfolding has_rise
  has_rise-ne [] h q = q
  has_rise-ne (c ∷ cs) h (inl at) = ground arith
  has_rise-ne (c ∷ cs) h (inr later) = has_rise-ne cs (ground arith) later

  has_none-append :
      (xs : List AfterCloseConfirmation) (x : AfterCloseConfirmation)
      → has_none (xs ++ (x ∷ [])) ≡ false
  has_none-append [] x = refl
  has_none-append (y ∷ xs) x = refl

  found_in-put :
      (c : AfterCloseConfirmation) (groups : Articles)
      → found_in (
          put String-discrete c.canonical_theme_id
            (get_or (get String-discrete c.canonical_theme_id groups) [] ++ (c ∷ []))
            groups)
        ≡ (found_in groups || ite (String-discrete c.canonical_theme_id theme) true false)
  found_in-put c groups =
      let earlier = get_or (get String-discrete c.canonical_theme_id groups) [] in
      ground (
        arith,
        get-put String-discrete c.canonical_theme_id theme (earlier ++ (c ∷ [])) groups,
        has_none-append earlier c,
      )

  found_in-group_rises :
      (cs : List AfterCloseConfirmation) (groups : Articles)
      → found_in (group_rises market_date cs groups) ≡ (found_in groups || has_rise cs)
  unfolding group_rises has_rise
  found_in-group_rises [] groups = ground arith
  found_in-group_rises (c ∷ cs) groups = elim (Bool-cases (is_rise market_date c)) [
    | inl rises ↦ rw (rises) (
        found_in-group_rises cs _
        ∙ ap (λ b. b || has_rise cs) (found_in-put c groups)
        ∙ or_assoc (found_in groups) _ (has_rise cs))
    | inr other ↦ rw (other) (found_in-group_rises cs groups)
  ]
    where
      or_assoc : (a b c : Bool) → ((a || b) || c) ≡ (a || (b || c))
      or_assoc true b c = refl
      or_assoc false b c = refl

  has_none-sort_by :
      (cs : List AfterCloseConfirmation) → has_none (sort_by identifier_first cs) ≡ has_none cs
  unfolding sort_by insert_by
  has_none-sort_by [] = refl
  has_none-sort_by (c ∷ cs) = inserted (sort_by identifier_first cs)
    where
      inserted :
          (ds : List AfterCloseConfirmation) → has_none (insert_by identifier_first c ds) ≡ false
      inserted [] = refl
      inserted (e ∷ ds) = ground arith

  found_in-sort_articles : (groups : Articles) → found_in (sort_articles groups) ≡ found_in groups
  unfolding sort_articles get
  found_in-sort_articles [] = refl
  found_in-sort_articles ((key, articles) ∷ groups) =
      elim (String-discrete key theme)
        as (λ same.
          not (
            has_none (
              get_or
                (ite same (some (sort_by identifier_first articles))
                  (get String-discrete theme (sort_articles groups)))
                []))
          ≡ not (
              has_none (get_or (ite same (some articles) (get String-discrete theme groups)) []))) [
                | yes same ↦ ap not (has_none-sort_by articles)
                | no other ↦ found_in-sort_articles groups
              ]

  -- The articles of a theme are there just when it rose.
  found_in-up_by_theme :
      (cs : List AfterCloseConfirmation) → found_in (up_by_theme market_date cs) ≡ has_rise cs
  unfolding up_by_theme get
  found_in-up_by_theme cs =
      found_in-sort_articles (group_rises market_date cs []) ∙ found_in-group_rises cs []

module _ (market_date : ℕ) (e : CanonicalEvent) (cs : List AfterCloseConfirmation) where
  abbrev pub articles : List AfterCloseConfirmation
  articles = articles_for (up_by_theme market_date cs) e

  pub articles_for-Any :
      has_none articles ≡ false → Any (IsRiseOf market_date e.canonical_theme_id) cs
  articles_for-Any present =
      has_rise-Any market_date e.canonical_theme_id cs
        (ground (arith, found_in-up_by_theme market_date e.canonical_theme_id cs))

  pub articles_for-ne :
      has_none articles ≡ true → ¬ (Any (IsRiseOf market_date e.canonical_theme_id) cs)
  articles_for-ne absent =
      has_rise-ne market_date e.canonical_theme_id cs
        (ground (arith, found_in-up_by_theme market_date e.canonical_theme_id cs))

module _ (market_date : ℕ) (key : String) (events : List CanonicalEvent) where
  -- One of the Events, of the day and with the key.
  abbrev pub IsOfDay : CanonicalEvent → Type 0
  IsOfDay e = Any (λ x. x ≡ e) events × (e.market_date ≡ market_date) × (e.catalyst_key ≡ key)

  -- Just the Events of the day with the key.
  abbrev pub AreEligible : List CanonicalEvent → Type 0
  AreEligible es =
      All IsOfDay es
      × All (λ e. (e.market_date ≢ market_date) ⊎ (e.catalyst_key ≢ key) ⊎ Any (λ x. x ≡ e) es)
          events

module _ (market_date : ℕ) (key : String) where
  of_day-All :
      (es : List CanonicalEvent) → All (IsOfDay market_date key es) (of_day market_date key es)
  unfolding of_day
  of_day-All [] = tt
  of_day-All (e ∷ es) =
      let rest : All (IsOfDay market_date key (e ∷ es)) (of_day market_date key es) =
        All-imp (of_day market_date key es) (λ x q. (inr q.0, q.1, q.2)) (of_day-All es) in
      elim (Bool-cases (is_of_day e)) [
        | inl taken ↦ rw (taken) ((inl refl, ground arith, ground arith), rest)
        | inr other ↦ rw (other) rest
      ]
    where
      is_of_day : CanonicalEvent → Bool
      is_of_day e =
          e.market_date == market_date && ite (String-discrete e.catalyst_key key) true false

  of_day-Any :
      (es : List CanonicalEvent) (e : CanonicalEvent)
      → Any (λ x. x ≡ e) es
      → (e.market_date ≢ market_date)
        ⊎ (e.catalyst_key ≢ key)
        ⊎ Any (λ x. x ≡ e) (of_day market_date key es)
  unfolding of_day
  of_day-Any [] e here = absurd here
  of_day-Any (x ∷ es) e (inl same) = ground arith
  of_day-Any (x ∷ es) e (inr later) = elim (of_day-Any es e later) [
    | inl day ↦ inl day
    | inr (inl other) ↦ inr (inl other)
    | inr (inr there) ↦ ground arith
  ]

  pub eligible_events-AreEligible :
      (events : List CanonicalEvent)
      → AreEligible market_date key events (eligible_events market_date key events)
  unfolding eligible_events
  eligible_events-AreEligible events = (
    sort_by-All event_first (IsOfDay market_date key events) (of_day market_date key events)
        (of_day-All events),
    each events (λ e there. there),
  )
    where
      sorted_Any :
          (e : CanonicalEvent)
          → (e.market_date ≢ market_date)
            ⊎ (e.catalyst_key ≢ key)
            ⊎ Any (λ x. x ≡ e) (of_day market_date key events)
          → (e.market_date ≢ market_date)
            ⊎ (e.catalyst_key ≢ key)
            ⊎ Any (λ x. x ≡ e) (sort_by event_first (of_day market_date key events))
      sorted_Any e (inl day) = inl day
      sorted_Any e (inr (inl other)) = inr (inl other)
      sorted_Any e (inr (inr there)) =
          inr (inr (sort_by-Any event_first (λ x. x ≡ e) (of_day market_date key events) there))

      each :
          (es : List CanonicalEvent)
          → ((e : CanonicalEvent) → Any (λ x. x ≡ e) es → Any (λ x. x ≡ e) events)
          → All
              (λ e.
                (e.market_date ≢ market_date)
                ⊎ (e.catalyst_key ≢ key)
                ⊎ Any (λ x. x ≡ e) (sort_by event_first (of_day market_date key events)))
              es
      each [] within = tt
      each (e ∷ es) within = (
        sorted_Any e (of_day-Any events e (within e (inl refl))),
        each es (λ x there. within x (inr there)),
      )

-- ===== src/Realtime/Aggregation/MarkLoop.antt =====
-- The loop of `mark_stock` in packages/realtime/aggregation.py.
use dayjaview.Prelude.{
  refl, ℕ, true, false, Option, none, some, String, List, [], ◌∷◌, ◌≤◌, ◌≡◌, All, Bool-cases, arith,
  is_blank, subst, inl, inr, sym, ap, ◌∙◌,
}
use dayjaview.Prelude.Exec.{Result, ok, raised, value_error}
use dayjaview.Prelude.Dict.{
  Dict, Distinct, put, get, put-Distinct, put-All, get-put_self, get-put_ne,
}
use dayjaview.Realtime.Aggregation.{
  mark_themes, DirtyTheme, DirtyKey, DirtyKey-discrete, marked, key_of_dirty,
}

-- Every entry stands under its own theme and day, and no key stands twice.
pub record IsKeyed (dirty : Dict DirtyKey DirtyTheme) : Type 0 where
  pub distinct : Distinct DirtyKey-discrete dirty
  pub keyed : All (λ e. key_of_dirty e.1 ≡ e.0) dirty

-- The entry of a theme on a day is there, and is to be calculated no earlier than at the time.
abbrev pub IsDirtyFrom : ℕ → Option DirtyTheme → Type 0
IsDirtyFrom time none = ⊥
IsDirtyFrom time (some d) = time ≤ d.as_of

put-IsKeyed :
    (theme_id : String) (market_date decision_at : ℕ) (previous : Option DirtyTheme)
    (dirty : Dict DirtyKey DirtyTheme)
    → IsKeyed dirty
    → IsKeyed (
        put DirtyKey-discrete
          (theme_id, market_date)
          (marked theme_id market_date decision_at previous)
          dirty)
put-IsKeyed theme_id market_date decision_at previous dirty h = record {
  distinct = put-Distinct DirtyKey-discrete (theme_id, market_date) _ dirty h.distinct;
  keyed =
      put-All DirtyKey-discrete (λ e. key_of_dirty e.1 ≡ e.0) (theme_id, market_date)
        (marked theme_id market_date decision_at previous) dirty refl h.keyed;
}

pub mark_themes-IsKeyed :
    (market_date decision_at : ℕ) (ids : List String) (dirty : Dict DirtyKey DirtyTheme)
    → IsKeyed dirty
    → IsKeyed (mark_themes market_date decision_at ids dirty).1
unfolding mark_themes is_blank
mark_themes-IsKeyed market_date decision_at [] dirty h = h
mark_themes-IsKeyed market_date decision_at (id ∷ ids) dirty h =
    let previous = get DirtyKey-discrete (id, market_date) dirty in
    elim (Bool-cases (is_blank id)) [
      | inl blank ↦ rw (blank) h
      | inr named ↦ rw (named) (
          mark_themes-IsKeyed market_date decision_at ids _
            (put-IsKeyed id market_date decision_at previous dirty h))
    ]

-- One mark never sets the time of an entry back.
marked_later :
    (id : String) (market_date decision_at time : ℕ) (key : DirtyKey)
    (dirty : Dict DirtyKey DirtyTheme)
    → IsDirtyFrom time (get DirtyKey-discrete key dirty)
    → IsDirtyFrom time (
        get DirtyKey-discrete key (
          put DirtyKey-discrete
            (id, market_date)
            (marked id market_date decision_at (get DirtyKey-discrete (id, market_date) dirty))
            dirty))
marked_later id market_date decision_at time key dirty h =
    elim (DirtyKey-discrete (id, market_date) key) [
      | yes same ↦
          subst
            (λ k. IsDirtyFrom time (
              get DirtyKey-discrete k (
                put DirtyKey-discrete (id, market_date)
                  (marked id market_date decision_at
                    (get DirtyKey-discrete (id, market_date) dirty))
                  dirty)))
            same
            (rw
              (get-put_self DirtyKey-discrete (id, market_date)
                (marked id market_date decision_at (get DirtyKey-discrete (id, market_date) dirty))
                dirty)
              (later (get DirtyKey-discrete (id, market_date) dirty)
                (subst (λ k. IsDirtyFrom time (get DirtyKey-discrete k dirty)) (sym same) h)))
      | no other ↦
          rw
            (get-put_ne DirtyKey-discrete (id, market_date) key
              (marked id market_date decision_at (get DirtyKey-discrete (id, market_date) dirty))
              dirty other)
            h
    ]
  where
    later :
        (o : Option DirtyTheme)
        → IsDirtyFrom time o
        → time ≤ DirtyTheme.as_of (marked id market_date decision_at o)
    later none q = absurd q
    later (some d) q = ground arith

pub mark_themes_later :
    (market_date decision_at time : ℕ) (key : DirtyKey) (ids : List String)
    (dirty : Dict DirtyKey DirtyTheme)
    → IsDirtyFrom time (get DirtyKey-discrete key dirty)
    → IsDirtyFrom time (get DirtyKey-discrete key (mark_themes market_date decision_at ids dirty).1)
unfolding mark_themes is_blank
mark_themes_later market_date decision_at time key [] dirty h = h
mark_themes_later market_date decision_at time key (id ∷ ids) dirty h =
    elim (Bool-cases (is_blank id)) [
      | inl blank ↦ rw (blank) h
      | inr named ↦ rw (named) (
          mark_themes_later market_date decision_at time key ids _
            (marked_later id market_date decision_at time key dirty h))
    ]

marked_from :
    (id : String) (market_date decision_at : ℕ) (o : Option DirtyTheme)
    → decision_at ≤ DirtyTheme.as_of (marked id market_date decision_at o)
marked_from id market_date decision_at none = ground arith
marked_from id market_date decision_at (some d) = ground arith

mark_themes_step :
    (market_date decision_at : ℕ) (id : String) (ids : List String)
    (dirty : Dict DirtyKey DirtyTheme)
    → is_blank id ≡ false
    → mark_themes market_date decision_at (id ∷ ids) dirty
      ≡ mark_themes market_date decision_at ids (
          put DirtyKey-discrete
            (id, market_date)
            (marked id market_date decision_at (get DirtyKey-discrete (id, market_date) dirty))
            dirty)
unfolding mark_themes is_blank
mark_themes_step market_date decision_at id ids dirty named = rw (named)

mark_themes_blank :
    (market_date decision_at : ℕ) (id : String) (ids : List String)
    (dirty : Dict DirtyKey DirtyTheme)
    → is_blank id ≡ true
    → mark_themes market_date decision_at (id ∷ ids) dirty ≡ (raised value_error, dirty)
unfolding mark_themes is_blank
mark_themes_blank market_date decision_at id ids dirty blank = rw (blank)

-- Every theme of a run that returns is dirty from the decision on.
abbrev pub AllDirtyFrom : ℕ → ℕ → List String → Dict DirtyKey DirtyTheme → Type 0
AllDirtyFrom market_date decision_at ids dirty =
    All (λ id. IsDirtyFrom decision_at (get DirtyKey-discrete (id, market_date) dirty)) ids

pub mark_themes_all :
    (market_date decision_at : ℕ) (ids : List String) (dirty : Dict DirtyKey DirtyTheme)
    → (mark_themes market_date decision_at ids dirty).0 ≡ ok tt
    → AllDirtyFrom market_date decision_at ids (mark_themes market_date decision_at ids dirty).1
mark_themes_all market_date decision_at [] dirty h = tt
mark_themes_all market_date decision_at (id ∷ ids) dirty h = elim (Bool-cases (is_blank id)) [
  | inl blank ↦ ground (arith, mark_themes_blank market_date decision_at id ids dirty blank)
  | inr named ↦
      let key : DirtyKey = (id, market_date) in
      let entry = marked id market_date decision_at (get DirtyKey-discrete key dirty) in
      let after = put DirtyKey-discrete key entry dirty in
      let same = mark_themes_step market_date decision_at id ids dirty named in
      subst
        (λ (r : Result (Unit {0}) × Dict DirtyKey DirtyTheme).
          AllDirtyFrom market_date decision_at (id ∷ ids) r.1)
        (sym same)
        (
          mark_themes_later market_date decision_at decision_at key ids after (
              rw (get-put_self DirtyKey-discrete key entry dirty)
                (marked_from id market_date decision_at (get DirtyKey-discrete key dirty))),
          mark_themes_all market_date decision_at ids after (ap (λ r. r.0) (sym same) ∙ h),
        )
]

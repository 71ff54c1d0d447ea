-- ===== src/Calculations/Calendar.antt =====
-- The trading days that `_validate_calendar` of packages/calculations/attention.py lets pass.
use dayjaview.Prelude.{
  ℕ, true, false, List, [], ◌∷◌, ℕ_discrete, leb, is_in, unique, without, sort_by, insert_by, ◌≤◌,
  ◌≡◌, ite, arith, suc, Bool-cases, ◌∙◌, refl, inl, inr, subst, sym,
}
use dayjaview.Prelude.Exec.{ok}
use dayjaview.Calculations.Attention.{same_days, validate_calendar}

-- Each day is later than the one before it, and the first is not before the given one.
abbrev pub AscendingFrom : ℕ → List ℕ → Type 0
AscendingFrom from [] = Unit
AscendingFrom from (d ∷ ds) = (from ≤ d) × AscendingFrom (suc d) ds

abbrev AllApart : List ℕ → Type 0
AllApart [] = Unit
AllApart (d ∷ ds) = (is_in ℕ_discrete d ds ≡ false) × AllApart ds

is_in-without_self : (d : ℕ) (ds : List ℕ) → is_in ℕ_discrete d (without ℕ_discrete d ds) ≡ false
unfolding is_in without
is_in-without_self d [] = refl
is_in-without_self d (e ∷ ds) = ground (arith, is_in-without_self d ds)

is_in-without :
    (d e : ℕ) (ds : List ℕ)
    → is_in ℕ_discrete d ds ≡ false
    → is_in ℕ_discrete d (without ℕ_discrete e ds) ≡ false
unfolding is_in without
is_in-without d e [] h = refl
is_in-without d e (f ∷ ds) h = ground (arith, is_in-without d e ds)

without-AllApart : (e : ℕ) (ds : List ℕ) → AllApart ds → AllApart (without ℕ_discrete e ds)
unfolding without
without-AllApart e [] h = tt
without-AllApart e (d ∷ ds) h =
    elim (ℕ_discrete e d)
      as (λ x. AllApart (ite x (without ℕ_discrete e ds) (d ∷ without ℕ_discrete e ds))) [
        | yes same ↦ without-AllApart e ds h.1
        | no other ↦ (is_in-without d e ds h.0, without-AllApart e ds h.1)
      ]

pub unique-AllApart : (ds : List ℕ) → AllApart (unique ℕ_discrete ds)
unfolding unique
unique-AllApart [] = tt
unique-AllApart (d ∷ ds) = (
  is_in-without_self d (unique ℕ_discrete ds),
  without-AllApart d (unique ℕ_discrete ds) (unique-AllApart ds),
)

is_in-insert_by :
    (d e : ℕ) (ds : List ℕ) → is_in ℕ_discrete d (insert_by leb e ds) ≡ is_in ℕ_discrete d (e ∷ ds)
unfolding is_in insert_by
is_in-insert_by d e [] = refl
is_in-insert_by d e (f ∷ ds) = ground (arith, is_in-insert_by d e ds)

is_in-sort_by : (d : ℕ) (ds : List ℕ) → is_in ℕ_discrete d (sort_by leb ds) ≡ is_in ℕ_discrete d ds
unfolding is_in sort_by
is_in-sort_by d [] = refl
is_in-sort_by d (e ∷ ds) = ground (arith, is_in-insert_by d e (sort_by leb ds), is_in-sort_by d ds)

insert_by-Ascending :
    (from d : ℕ) (ds : List ℕ)
    → AscendingFrom from ds
    → from ≤ d
    → is_in ℕ_discrete d ds ≡ false
    → AscendingFrom from (insert_by leb d ds)
unfolding is_in insert_by
insert_by-Ascending from d [] h f n = (f, tt)
insert_by-Ascending from d (e ∷ ds) h f n = elim (Bool-cases (leb d e)) [
  | inl before ↦ rw (before) (f, (ground arith, h.1))
  | inr after ↦ rw (after) (h.0, insert_by-Ascending (suc e) d ds h.1 (ground arith) (ground arith))
]

pub sort_by-Ascending : (ds : List ℕ) → AllApart ds → AscendingFrom 0 (sort_by leb ds)
unfolding sort_by
sort_by-Ascending [] h = tt
sort_by-Ascending (d ∷ ds) h =
    insert_by-Ascending 0 d (sort_by leb ds) (sort_by-Ascending ds h.1) (omega arith)
      (is_in-sort_by d ds ∙ h.0)

pub same_days-eq : (ds es : List ℕ) → same_days ds es ≡ true → ds ≡ es
unfolding same_days
same_days-eq [] [] h = refl
same_days-eq [] (e ∷ es) h = ground arith
same_days-eq (d ∷ ds) [] h = ground arith
same_days-eq (d ∷ ds) (e ∷ es) h = ground (arith, same_days-eq ds es)

-- A calendar that passes is what was given, and ascending.
pub validate_calendar-eq-ok :
    (days calendar : List ℕ)
    → validate_calendar days ≡ ok calendar
    → (calendar ≡ days) × AscendingFrom 0 calendar
unfolding validate_calendar
validate_calendar-eq-ok days calendar h =
    elim (Bool-cases (same_days (sort_by leb (unique ℕ_discrete days)) days)) [
      | inl fits ↦
          let same : calendar ≡ days = ground arith in
          (
            same,
            subst (AscendingFrom 0)
                (same_days-eq (sort_by leb (unique ℕ_discrete days)) days fits ∙ sym same)
                (sort_by-Ascending (unique ℕ_discrete days) (unique-AllApart days)),
          )
      | inr unfit ↦ ground arith
    ]

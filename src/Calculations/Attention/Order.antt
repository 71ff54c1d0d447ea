-- ===== src/Calculations/Attention/Order.antt =====
-- The order of the intervals of packages/calculations/attention.py.
use mathlib.Core.List.{append-nil}
use dayjaview.Prelude.{
  refl, ℕ, Bool, true, false, List, [], ◌∷◌, ◌≤◌, arith, none, ◌≡◌, some, Option, ◌<◌, suc, ◌++◌,
  subst, sym, Bool-cases, leb, ◌+◌, inl, inr,
}
use dayjaview.Calculations.Intervals.{
  AttentionInterval, OpenInterval, AttentionDaySignal, new_interval, extend, freeze,
}
use dayjaview.Calculations.Attention.{
  while_closed, while_open, new_interval, extend, UnavailableReason, freeze, Progress, leb,
  still_open,
}
use dayjaview.Domain.Reasons.{UnavailableReason}

-- What follows an interval: an open one is the last, and after a close on a later day the rest
-- satisfies a predicate from the next day on.
abbrev pub Then : Type 0 → (ℕ → Type 0) → ℕ → Option ℕ → Type 0
Then IsLast P last none = IsLast
Then IsLast P last (some closed) = (last < closed) × P (suc closed)

-- Of each interval the last day is not before the first, and the close is after the last day. The
-- next interval begins after the close. Only the last one may be open.
abbrev pub InOrder : ℕ → List AttentionInterval → Type 0
InOrder from [] = Unit
InOrder from (i ∷ is) =
    (from ≤ i.first_attention_date)
    × (i.first_attention_date ≤ i.last_attention_date)
    × Then (is ≡ []) (λ c. InOrder c is) i.last_attention_date i.closed_confirmation_date

-- What follows the close of an interval, where the rest is to satisfy a predicate from a day on.
abbrev Closes : (ℕ → Type 0) → ℕ → Option ℕ → Type 0
Closes P last none = ⊥
Closes P last (some closed) = (last < closed) × P (suc closed)

-- The same of intervals that are all closed before a day.
abbrev ClosedBy : ℕ → List AttentionInterval → ℕ → Type 0
ClosedBy from [] day = from ≤ day
ClosedBy from (i ∷ is) day =
    (from ≤ i.first_attention_date)
    × (i.first_attention_date ≤ i.last_attention_date)
    × Closes (λ c. ClosedBy c is day) i.last_attention_date i.closed_confirmation_date

Closes-imp :
    (P Q : ℕ → Type 0) (last : ℕ) (closed : Option ℕ)
    → ((c : ℕ) → P c → Q c)
    → Closes P last closed
    → Closes Q last closed
Closes-imp P Q last none f h = h
Closes-imp P Q last (some c) f h = (h.0, f (suc c) h.1)

later-ClosedBy :
    (from : ℕ) (is : List AttentionInterval) (day later : ℕ)
    → ClosedBy from is day
    → day ≤ later
    → ClosedBy from is later
later-ClosedBy from [] day later h le = omega arith
later-ClosedBy from (i ∷ is) day later h le = (
  h.0,
  h.1,
  Closes-imp (λ c. ClosedBy c is day) (λ c. ClosedBy c is later) i.last_attention_date
      i.closed_confirmation_date (λ c r. later-ClosedBy c is day later r le) h.2,
)

-- One more closed interval at the end.
ClosedBy-append :
    (from : ℕ) (is : List AttentionInterval) (i : AttentionInterval) (closed : ℕ)
    → ClosedBy from is i.first_attention_date
    → i.first_attention_date ≤ i.last_attention_date
    → i.last_attention_date < closed
    → i.closed_confirmation_date ≡ some closed
    → ClosedBy from (is ++ (i ∷ [])) (suc closed)
ClosedBy-append from [] i closed h le lt q =
    (h, le, subst (Closes (λ c. c ≤ suc closed) i.last_attention_date) (sym q) (lt, omega arith))
ClosedBy-append from (j ∷ is) i closed h le lt q = (
  h.0,
  h.1,
  Closes-imp (λ c. ClosedBy c is i.first_attention_date)
      (λ c. ClosedBy c (is ++ (i ∷ [])) (suc closed)) j.last_attention_date
      j.closed_confirmation_date (λ c r. ClosedBy-append c is i closed r le lt q) h.2,
)

Closes-elim :
    (is : List AttentionInterval) (last : ℕ) (closed : Option ℕ)
    → Closes (λ c. InOrder c is) last closed
    → Then (is ≡ []) (λ c. InOrder c is) last closed
Closes-elim is last none h = absurd h
Closes-elim is last (some c) h = h

ClosedBy-InOrder :
    (from : ℕ) (is : List AttentionInterval) (day : ℕ) → ClosedBy from is day → InOrder from is
ClosedBy-InOrder from [] day h = tt
ClosedBy-InOrder from (i ∷ is) day h = (
  h.0,
  h.1,
  Closes-elim is i.last_attention_date i.closed_confirmation_date (
      Closes-imp (λ c. ClosedBy c is day) (λ c. InOrder c is) i.last_attention_date
        i.closed_confirmation_date (λ c r. ClosedBy-InOrder c is day r) h.2),
)

-- An open interval at the end.
open-InOrder :
    (from : ℕ) (is : List AttentionInterval) (i : AttentionInterval)
    → ClosedBy from is i.first_attention_date
    → i.first_attention_date ≤ i.last_attention_date
    → i.closed_confirmation_date ≡ none
    → InOrder from (is ++ (i ∷ []))
open-InOrder from [] i h le q = (h, le, rw (q) refl)
open-InOrder from (j ∷ is) i h le q = (
  h.0,
  h.1,
  Closes-elim (is ++ (i ∷ [])) j.last_attention_date j.closed_confirmation_date (
      Closes-imp (λ c. ClosedBy c is i.first_attention_date) (λ c. InOrder c (is ++ (i ∷ [])))
        j.last_attention_date j.closed_confirmation_date (λ c r. open-InOrder c is i r le q) h.2),
)

-- What holds before the round of a day: the completed intervals are closed before the open one, or
-- before the day, and the open one ends before the day.
abbrev pub IsAhead : ℕ → List AttentionInterval → Option OpenInterval → Type 0
IsAhead day completed none = ClosedBy 0 completed day
IsAhead day completed (some i) =
    ClosedBy 0 completed i.first_attention_date
    × (i.first_attention_date ≤ i.last_attention_date)
    × (i.last_attention_date < day)

-- A signal stands under its own date.
abbrev pub AtDate : ℕ → Option AttentionDaySignal → Type 0
AtDate day none = Unit {0}
AtDate day (some s) = s.market_date ≡ day

later-IsAhead :
    (day later : ℕ) (completed : List AttentionInterval) (active : Option OpenInterval)
    → IsAhead day completed active
    → day ≤ later
    → IsAhead later completed active
later-IsAhead day later completed none h le = later-ClosedBy 0 completed day later h le
later-IsAhead day later completed (some i) h le = (h.0, h.1, omega (arith, h.2))

pub while_closed-IsAhead :
    (gap : Option ℕ × Option UnavailableReason) (s : Option AttentionDaySignal)
    (state : Option Bool) (from day : ℕ) (p : Progress)
    → p.active ≡ none
    → ClosedBy 0 p.completed from
    → from ≤ day
    → AtDate day s
    → IsAhead (suc day) (while_closed gap s state p).completed (while_closed gap s state p).active
unfolding while_closed new_interval
while_closed-IsAhead gap none state from day p idle h le at =
    rw (idle) (later-ClosedBy 0 p.completed from (suc day) h (omega arith))
while_closed-IsAhead gap (some s) none from day p idle h le at =
    rw (idle) (later-ClosedBy 0 p.completed from (suc day) h (omega arith))
while_closed-IsAhead gap (some s) (some false) from day p idle h le at =
    rw (idle) (later-ClosedBy 0 p.completed from (suc day) h (omega arith))
while_closed-IsAhead gap (some s) (some true) from day p idle h le at = (
  later-ClosedBy 0 p.completed from s.market_date h (omega (arith, at)),
  omega arith,
  omega (arith, at),
)

pub while_open-IsAhead :
    (close_after : ℕ) (i : OpenInterval) (s : Option AttentionDaySignal) (state : Option Bool)
    (from day : ℕ) (p : Progress)
    → p.active ≡ some i
    → IsAhead from p.completed (some i)
    → from ≤ day
    → IsAhead
        (suc day)
        (while_open close_after day i s state p).completed
        (while_open close_after day i s state p).active
unfolding while_open extend freeze
while_open-IsAhead close_after i none state from day p is_active h le =
    rw (is_active) (h.0, h.1, omega (arith, h.2))
while_open-IsAhead close_after i (some s) none from day p is_active h le =
    rw (is_active) (h.0, h.1, omega (arith, h.2))
while_open-IsAhead close_after i (some s) (some true) from day p is_active h le =
    (h.0, omega (arith, h.1, h.2), omega arith)
while_open-IsAhead close_after i (some s) (some false) from day p is_active h le =
    elim (Bool-cases (leb close_after (p.absent_streak + 1))) [
      | inl ends ↦ rw (ends) (
          ClosedBy-append 0 p.completed (freeze (some day) i) day h.0 h.1 (omega (arith, h.2)) refl)
      | inr lasts ↦ rw (lasts) (rw (is_active) (h.0, h.1, omega (arith, h.2)))
    ]

pub still_open-InOrder :
    (from : ℕ) (completed : List AttentionInterval) (active : Option OpenInterval)
    → IsAhead from completed active
    → InOrder 0 (completed ++ still_open active)
unfolding freeze
still_open-InOrder from completed none h =
    subst (InOrder 0) (sym (append-nil completed)) (ClosedBy-InOrder 0 completed from h)
still_open-InOrder from completed (some i) h = open-InOrder 0 completed (freeze none i) h.0 h.1 refl

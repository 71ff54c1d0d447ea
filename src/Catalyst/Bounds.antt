-- ===== src/Catalyst/Bounds.antt =====
-- How often the gate of packages/catalyst/supplemental.py lets a search through.
use dayjaview.Prelude.{
  ℕ, ◌+◌, ◌≤◌, Bool, none, some, List, [], ◌∷◌, ◌++◌, String, String-discrete, length, ltb, leb,
  if◌then◌else◌, inl, inr, suc, arith, ◌≡◌, Bool-cases, refl,
}
use dayjaview.Prelude.Dict.{get}
use dayjaview.Catalyst.Models.{ThemeContext}
use dayjaview.Catalyst.Gate.{
  GatePolicy, SupplementalDecision, SupplementalSearchGate, request_search, recent, admit_call,
  is_cooling, new_gate,
}

pub record SearchCall : Type 0 where
  pub context : ThemeContext
  pub now : ℕ
  pub has_local_evidence : Bool

-- A search that was let through: its Event and its time.
pub record GrantedSearch : Type 0 where
  pub event : String
  pub at : ℕ

abbrev pub granted_by : SupplementalDecision → List GrantedSearch
granted_by d = elim d.request [
  | none ↦ []
  | some r ↦ record { event = r.event_id; at = r.requested_at } ∷ []
]

-- The calls come in the order of their times, none before `from`.
abbrev pub InOrder : ℕ → List SearchCall → Type 0
InOrder from [] = Unit
InOrder from (c ∷ cs) = (from ≤ c.now) × InOrder c.now cs

-- The time of the last call, or `from`.
abbrev pub last_time : ℕ → List SearchCall → ℕ
last_time from [] = from
last_time from (c ∷ cs) = last_time c.now cs

-- How many of the searches lie in the window that ends at `now`.
unfoldable pub searches_in : ℕ → ℕ → List GrantedSearch → ℕ
searches_in window now [] = 0
searches_in window now (g ∷ gs) =
    let rest = searches_in window now gs in if ltb now (g.at + window) then suc rest else rest

module _ (policy : GatePolicy) where
  unfoldable pub ask : List SearchCall → SupplementalSearchGate → SupplementalSearchGate
  ask [] gate = gate
  ask (c ∷ cs) gate = ask cs (request_search policy c.context c.now c.has_local_evidence gate).1

  -- The searches that a sequence of calls let through, the latest first.
  unfoldable pub searches :
      List SearchCall → SupplementalSearchGate → List GrantedSearch → List GrantedSearch
  searches [] gate before = before
  searches (c ∷ cs) gate before =
      let step = request_search policy c.context c.now c.has_local_evidence gate in
      searches cs step.1 (granted_by step.0 ++ before)

length-recent_le : (w t : ℕ) (xs : List ℕ) → length (recent w t xs) ≤ length xs
unfolding recent
length-recent_le w t [] = omega arith
length-recent_le w t (x ∷ xs) = ground (arith, length-recent_le w t xs)

-- What an earlier call forgot is outside of every later window.
length-recent-recent :
    (w now t : ℕ) (xs : List ℕ)
    → now ≤ t
    → length (recent w t (recent w now xs)) ≡ length (recent w t xs)
unfolding recent
length-recent-recent w now t [] later = refl
length-recent-recent w now t (x ∷ xs) later = ground (arith, length-recent-recent w now t xs later)

length-recent_append :
    (w t now : ℕ) (xs : List ℕ)
    → length (recent w t (xs ++ (now ∷ [])))
      ≡ length (recent w t xs) + (if ltb t (now + w) then 1 else 0)
unfolding recent
length-recent_append w t now [] = ground arith
length-recent_append w t now (x ∷ xs) = ground (arith, length-recent_append w t now xs)

module _ (policy : GatePolicy) where
  -- The gate remembers every search in a window, and no more than the quota.
  abbrev Kept : ℕ → SupplementalSearchGate → List GrantedSearch → Type 0
  Kept from gate before =
      (t : ℕ)
      → from ≤ t
      → (searches_in policy.window t before ≤ length (recent policy.window t gate.calls))
        × (length (recent policy.window t gate.calls) ≤ policy.quota)

  admit_call-Kept :
      (context : ThemeContext) (from now : ℕ) (gate : SupplementalSearchGate)
      (before : List GrantedSearch)
      → from ≤ now
      → Kept from gate before
      → Kept now
          (admit_call policy context now gate).1
          (granted_by (admit_call policy context now gate).0 ++ before)
  unfolding admit_call searches_in
  admit_call-Kept context from now gate before later kept t at =
      let w : ℕ = policy.window in
      let calls : List ℕ = recent w now gate.calls in
      let old = kept t (omega (arith, later, at)) in
      let same = length-recent-recent w now t gate.calls at in
      elim (Bool-cases (leb policy.quota (length calls))) [
        | inl full ↦ rw (full, admit_call) (omega (arith, old, same))
        | inr free ↦
            let joined = length-recent_append w t now calls in
            let short = length-recent_le w t calls in
            rw (free, admit_call) (ground (arith, old, same, joined, short))
      ]

  request_search-Kept :
      (c : SearchCall) (from : ℕ) (gate : SupplementalSearchGate) (before : List GrantedSearch)
      → from ≤ c.now
      → Kept from gate before
      → Kept c.now
          (request_search policy c.context c.now c.has_local_evidence gate).1
          (granted_by (request_search policy c.context c.now c.has_local_evidence gate).0 ++ before)
  unfolding request_search
  request_search-Kept c from gate before later kept = elim (Bool-cases c.has_local_evidence) [
    | inl has ↦ rw (has, request_search) (λ t at. kept t (omega (arith, later, at)))
    | inr lacks ↦
        elim (Bool-cases (
          is_cooling policy.cooldown c.now
            (get String-discrete c.context.event_id gate.last_request))) [
              | inl cooling ↦
                  rw (lacks, cooling, request_search) (λ t at. kept t (omega (arith, later, at)))
              | inr passed ↦
                  rw (lacks, passed, request_search)
                    (admit_call-Kept c.context from c.now gate before later kept)
            ]
  ]

  searches-Kept :
      (cs : List SearchCall) (from : ℕ) (gate : SupplementalSearchGate)
      (before : List GrantedSearch)
      → InOrder from cs
      → Kept from gate before
      → Kept (last_time from cs) (ask policy cs gate) (searches policy cs gate before)
  unfolding ask searches
  searches-Kept [] from gate before order kept = kept
  searches-Kept (c ∷ cs) from gate before order kept =
      searches-Kept cs c.now _ _ order.1 (request_search-Kept c from gate before order.0 kept)

  -- Of calls of a new gate in the order of their times, no more than the quota are let through in any window
  -- that ends at the last call or later; and so in every window, as the calls up to its end are
  -- such a sequence too.
  pub searches_in_le :
      (cs : List SearchCall) (from t : ℕ)
      → InOrder from cs
      → last_time from cs ≤ t
      → searches_in policy.window t (searches policy cs new_gate []) ≤ policy.quota
  unfolding searches_in recent
  searches_in_le cs from t order at =
      let kept = searches-Kept cs from new_gate [] order (λ t h. omega arith) t at in
      omega (arith, kept)

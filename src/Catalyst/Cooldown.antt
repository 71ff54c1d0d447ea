-- ===== src/Catalyst/Cooldown.antt =====
-- How far the searches for one Event lie apart that packages/catalyst/supplemental.py lets through.
use dayjaview.Prelude.{
  ℕ, ◌+◌, ◌≤◌, false, Option, none, some, List, [], ◌∷◌, ◌++◌, String, String-discrete, ite, length,
  leb, All, All-imp, ◌⊎◌, inl, inr, ◌≢◌, ◌≡◌, Bool-cases, arith, sym, subst,
}
use dayjaview.Prelude.Dict.{get, put, get-put, get-put_self}
use dayjaview.Catalyst.Gate.{
  GatePolicy, SupplementalSearchGate, admit_call, request_search, is_cooling, new_gate, recent,
}
use dayjaview.Catalyst.Bounds.{GrantedSearch, searches, SearchCall, granted_by}
use dayjaview.Catalyst.Models.{ThemeContext}

module _ (policy : GatePolicy) where
  -- The search is of another Event, or a cooldown or more before `now`.
  abbrev pub Apart : String → ℕ → GrantedSearch → Type 0
  Apart event now g = (g.event ≢ event) ⊎ (g.at + policy.cooldown ≤ now)

  -- Each search is apart from those before it, the latest standing first.
  abbrev pub AllApart : List GrantedSearch → Type 0
  AllApart [] = Unit
  AllApart (g ∷ gs) = All (Apart g.event g.at) gs × AllApart gs

  -- The gate remembers a time for the Event that is not before the search.
  abbrev Remembered : Option ℕ → ℕ → Type 0
  Remembered none at = ⊥
  Remembered (some last) at = at ≤ last

  abbrev AllRemembered : SupplementalSearchGate → List GrantedSearch → Type 0
  AllRemembered gate = All (λ g. Remembered (get String-discrete g.event gate.last_request) g.at)

  Remembered→Apart :
      (event : String) (now : ℕ) (gate : SupplementalSearchGate) (g : GrantedSearch)
      → is_cooling policy.cooldown now (get String-discrete event gate.last_request) ≡ false
      → Remembered (get String-discrete g.event gate.last_request) g.at
      → Apart event now g
  Remembered→Apart event now gate g passed known = elim (String-discrete g.event event) [
    | no other ↦ inl other
    | yes same ↦ inr (
        spaced (get String-discrete event gate.last_request) passed
          (subst (λ e. Remembered (get String-discrete e gate.last_request) g.at) same known))
  ]
    where
      spaced :
          (o : Option ℕ)
          → is_cooling policy.cooldown now o ≡ false
          → Remembered o g.at
          → g.at + policy.cooldown ≤ now
      spaced none h k = absurd k
      spaced (some last) h k = ground (arith, k)

  put-AllRemembered :
      (event : String) (now : ℕ) (gate : SupplementalSearchGate) (calls : List ℕ)
      (gs : List GrantedSearch)
      → is_cooling policy.cooldown now (get String-discrete event gate.last_request) ≡ false
      → AllRemembered gate gs
      → AllRemembered
          (record { last_request = put String-discrete event now gate.last_request; calls = calls })
          gs
  put-AllRemembered event now gate calls gs passed known =
      All-imp gs
        (λ g k.
          rw (get-put String-discrete event g.event now gate.last_request)
            (elim (String-discrete event g.event)
              as (λ d.
                Remembered (ite d (some now) (get String-discrete g.event gate.last_request))
                  g.at) [
                    | yes same ↦ earlier (Remembered→Apart event now gate g passed k) same
                    | no other ↦ k
                  ]))
        known
    where
      earlier : {g : GrantedSearch} → Apart event now g → event ≡ g.event → g.at ≤ now
      earlier (inl other) same = absurd (other (sym same))
      earlier (inr spaced) same = omega (arith, spaced)

  admit_call-AllApart :
      (context : ThemeContext) (now : ℕ) (gate : SupplementalSearchGate)
      (before : List GrantedSearch)
      → is_cooling policy.cooldown now (get String-discrete context.event_id gate.last_request)
        ≡ false
      → AllRemembered gate before
      → AllApart before
      → AllRemembered
          (admit_call policy context now gate).1
          (granted_by (admit_call policy context now gate).0 ++ before)
        × AllApart (granted_by (admit_call policy context now gate).0 ++ before)
  unfolding admit_call
  admit_call-AllApart context now gate before passed known apart =
      let calls : List ℕ = recent policy.window now gate.calls in
      elim (Bool-cases (leb policy.quota (length calls))) [
        | inl full ↦ rw (full, admit_call) (known, apart)
        | inr free ↦
            let kept =
              put-AllRemembered context.event_id now gate (calls ++ (now ∷ [])) before passed
                known in
            let self = get-put_self String-discrete context.event_id now gate.last_request in
            rw (free, admit_call)
              (
                (subst (λ o. Remembered o now) (sym self) (omega arith), kept),
                (
                  All-imp before (λ g k. Remembered→Apart context.event_id now gate g passed k)
                      known,
                  apart,
                ),
              )
      ]

  request_search-AllApart :
      (c : SearchCall) (gate : SupplementalSearchGate) (before : List GrantedSearch)
      → AllRemembered gate before
      → AllApart before
      → AllRemembered
          (request_search policy c.context c.now c.has_local_evidence gate).1
          (granted_by (request_search policy c.context c.now c.has_local_evidence gate).0 ++ before)
        × AllApart (
            granted_by (request_search policy c.context c.now c.has_local_evidence gate).0
            ++ before)
  unfolding request_search
  request_search-AllApart c gate before known apart = elim (Bool-cases c.has_local_evidence) [
    | inl has ↦ rw (has, request_search) (known, apart)
    | inr lacks ↦
        elim (Bool-cases (
          is_cooling policy.cooldown c.now
            (get String-discrete c.context.event_id gate.last_request))) [
              | inl cooling ↦ rw (lacks, cooling, request_search) (known, apart)
              | inr passed ↦
                  rw (lacks, passed, request_search)
                    (admit_call-AllApart c.context c.now gate before passed known apart)
            ]
  ]

  searches-AllApart_from :
      (cs : List SearchCall) (gate : SupplementalSearchGate) (before : List GrantedSearch)
      → AllRemembered gate before
      → AllApart before
      → AllApart (searches policy cs gate before)
  unfolding searches
  searches-AllApart_from [] gate before known apart = apart
  searches-AllApart_from (c ∷ cs) gate before known apart =
      let step = request_search-AllApart c gate before known apart in
      searches-AllApart_from cs _ _ step.0 step.1

  -- Of any calls of a new gate, whatever their times, those for one Event that are let through are
  -- each at least the cooldown later than every one before.
  pub searches-AllApart : (cs : List SearchCall) → AllApart (searches policy cs new_gate [])
  searches-AllApart cs = searches-AllApart_from cs new_gate [] tt tt

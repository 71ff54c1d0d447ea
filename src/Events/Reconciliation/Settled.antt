-- ===== src/Events/Reconciliation/Settled.antt =====
-- How a run of packages/events/reconciliation.py sorts the Events of the day.
use dayjaview.Prelude.{
  ℕ, true, false, List, [], ◌∷◌, ◌++◌, String, ◌≡◌, ◌≢◌, ◌⊎◌, refl, sym, ap, ◌∙◌, subst, arith,
  Bool-cases, inl, inr, Any, if◌then◌else◌, Bool,
}
use dayjaview.Prelude.Exec.{Result, ok, raised}
use dayjaview.Domain.State.{ReconciliationStatus, matched, unmatched, pending}
use dayjaview.Events.Models.{
  Digests, CanonicalEvent, EventWriteResult, ReconcileEventCommand, reconcile_event,
}
use dayjaview.Events.Store.{EventStore}
use dayjaview.Events.Writer.{write}
use dayjaview.Events.Reconciliation.{
  Calendar, Articles, reconcile_after_close, reconcile_events, Tally, AfterCloseConfirmation,
  is_skipped, noted, noted_skip, up_by_theme, eligible_events, empty_tally, has_none,
  AfterCloseReconciliationRun, finished, send, command_for, Bool,
}
use dayjaview.Events.Reconciliation.Outcomes.{loop, sent, loop_raised, loop_ok, loop_skip}
use dayjaview.Events.Reconciliation.Rises.{
  IsRiseOf, AreEligible, articles, articles_for-Any, articles_for-ne, eligible_events-AreEligible,
}

append_one : {A : Type 0} (xs ys : List A) (x : A) → (xs ++ (x ∷ [])) ++ ys ≡ xs ++ (x ∷ ys)
append_one [] ys x = refl
append_one (z ∷ xs) ys x = ap (λ l. z ∷ l) (append_one xs ys x)

append-nil : {A : Type 0} (xs : List A) → xs ++ [] ≡ xs
append-nil [] = refl
append-nil (x ∷ xs) = ap (λ l. x ∷ l) (append-nil xs)

module _ (d : Digests) (sha256 : String → String) (calendar : Calendar) (market_date now : ℕ)
    (confirmations : List AfterCloseConfirmation) where
  -- The theme of the Event rose, by one of the confirmations.
  abbrev pub HasRise : CanonicalEvent → Type 0
  HasRise e = Any (IsRiseOf market_date e.canonical_theme_id) confirmations

  -- The Event is matched, or it is unmatched and nothing has come that would change that.
  abbrev pub IsClosed : CanonicalEvent → Type 0
  IsClosed e =
      (e.reconciliation_status ≡ matched)
      ⊎ ((e.reconciliation_status ≡ unmatched) × (¬ (HasRise e)))

  -- The result is that of a command, for the state of the Event that was read, with the target.
  pub record IsWritten (e : CanonicalEvent) (target : ReconciliationStatus) (before : EventStore)
      (r : EventWriteResult) (after : EventStore) : Type 0 where
    pub command : ReconcileEventCommand
    pub of_event : command.event_id ≡ e.event_id
    pub to_target : command.target ≡ target
    pub of_version : command.expected_state_version ≡ e.state_version
    pub written : write d (reconcile_event command) before ≡ (ok r, after)

  -- The Events, one after the other, with the ids of those that are passed over, the results of the
  -- matched and those of the unmatched, and the stores before and after.
  pub data Sorts
      : List CanonicalEvent
        → EventStore
        → List String
        → List EventWriteResult
        → List EventWriteResult
        → EventStore
        → Type 0 where
    all_sorted : {s : EventStore} → Sorts [] s [] [] [] s
    passes :
        {e : CanonicalEvent} {es : List CanonicalEvent} {s after : EventStore} {ids : List String}
        {matches misses : List EventWriteResult}
        → IsClosed e
        → Sorts es s ids matches misses after
        → Sorts (e ∷ es) s (e.event_id ∷ ids) matches misses after
    confirms :
        {e : CanonicalEvent} {es : List CanonicalEvent} {s next after : EventStore}
        {ids : List String} {matches misses : List EventWriteResult} {r : EventWriteResult}
        → e.reconciliation_status ≢ matched
        → HasRise e
        → IsWritten e matched s r next
        → Sorts es next ids matches misses after
        → Sorts (e ∷ es) s ids (r ∷ matches) misses after
    leaves :
        {e : CanonicalEvent} {es : List CanonicalEvent} {s next after : EventStore}
        {ids : List String} {matches misses : List EventWriteResult} {r : EventWriteResult}
        → e.reconciliation_status ≡ pending
        → (¬ (HasRise e))
        → IsWritten e unmatched s r next
        → Sorts es next ids matches misses after
        → Sorts (e ∷ es) s ids matches (r ∷ misses) after

  abbrev groups : Articles
  groups = up_by_theme market_date confirmations

  abbrev own : CanonicalEvent → List AfterCloseConfirmation
  own e = articles market_date e confirmations

  skipped-IsClosed : (e : CanonicalEvent) → is_skipped e (own e) ≡ true → IsClosed e
  skipped-IsClosed e h = elim (Bool-cases (has_none (own e))) [
    | inl absent ↦
        let no_rise = articles_for-ne market_date e confirmations absent in
        by_status e.reconciliation_status refl no_rise
    | inr present ↦ inl (ground arith)
  ]
    where
      by_status :
          (status : ReconciliationStatus)
          → e.reconciliation_status ≡ status
          → (¬ (HasRise e))
          → IsClosed e
      by_status matched q no_rise = inl q
      by_status unmatched q no_rise = inr (q, no_rise)
      by_status pending q no_rise = ground arith

  send-written :
      (command : ReconcileEventCommand) (s after : EventStore) (r : EventWriteResult)
      → send d sha256 calendar market_date now command s ≡ (ok r, after)
      → write d (reconcile_event command) s ≡ (ok r, after)
  unfolding send
  send-written command s after r h = ground arith

  command_matched :
      (e : CanonicalEvent) (s after : EventStore) (r : EventWriteResult)
      → has_none (own e) ≡ false
      → sent d sha256 calendar market_date now groups e s ≡ (ok r, after)
      → IsWritten e matched s r after
  command_matched e s after r present h =
      let command = command_for d sha256 calendar market_date now e (own e) in
      record {
        command = command;
        of_event = rw (present) refl;
        to_target = rw (present) refl;
        of_version = rw (present) refl;
        written = send-written command s after r h;
      }

  command_unmatched :
      (e : CanonicalEvent) (s after : EventStore) (r : EventWriteResult)
      → has_none (own e) ≡ true
      → sent d sha256 calendar market_date now groups e s ≡ (ok r, after)
      → IsWritten e unmatched s r after
  command_unmatched e s after r absent h =
      let command = command_for d sha256 calendar market_date now e (own e) in
      record {
        command = command;
        of_event = rw (absent) refl;
        to_target = rw (absent) refl;
        of_version = rw (absent) refl;
        written = send-written command s after r h;
      }

  -- The tally has grown by what the Events were sorted into.
  pub record Tallies (es : List CanonicalEvent) (before t : Tally) (s after : EventStore)
      : Type 0 where
    pub ids : List String
    pub matches : List EventWriteResult
    pub misses : List EventWriteResult
    pub skips_grow : t.skips ≡ before.skips ++ ids
    pub matches_grow : t.matches ≡ before.matches ++ matches
    pub misses_grow : t.misses ≡ before.misses ++ misses
    pub sorts : Sorts es s ids matches misses after

  skip-Tallies :
      (e : CanonicalEvent) (es : List CanonicalEvent) (before t : Tally) (s after : EventStore)
      → is_skipped e (own e) ≡ true
      → Tallies es (noted_skip d sha256 calendar market_date now e before) t s after
      → Tallies (e ∷ es) before t s after
  skip-Tallies e es before t s after closed h = record {
    ids = e.event_id ∷ h.ids;
    matches = h.matches;
    misses = h.misses;
    skips_grow = h.skips_grow ∙ append_one before.skips h.ids e.event_id;
    matches_grow = h.matches_grow;
    misses_grow = h.misses_grow;
    sorts = passes (skipped-IsClosed e closed) h.sorts;
  }

  match-Tallies :
      (e : CanonicalEvent) (es : List CanonicalEvent) (before t : Tally) (s next after : EventStore)
      (r : EventWriteResult)
      → is_skipped e (own e) ≡ false
      → has_none (own e) ≡ false
      → sent d sha256 calendar market_date now groups e s ≡ (ok r, next)
      → Tallies es (record before { matches = before.matches ++ (r ∷ []) }) t next after
      → Tallies (e ∷ es) before t s after
  match-Tallies e es before t s next after r open_ present came h = record {
    ids = h.ids;
    matches = r ∷ h.matches;
    misses = h.misses;
    skips_grow = h.skips_grow;
    matches_grow = h.matches_grow ∙ append_one before.matches h.matches r;
    misses_grow = h.misses_grow;
    sorts =
        confirms (λ q. ground arith) (articles_for-Any market_date e confirmations present)
          (command_matched e s next r present came) h.sorts;
  }

  miss-Tallies :
      (e : CanonicalEvent) (es : List CanonicalEvent) (before t : Tally) (s next after : EventStore)
      (r : EventWriteResult)
      → is_skipped e (own e) ≡ false
      → has_none (own e) ≡ true
      → sent d sha256 calendar market_date now groups e s ≡ (ok r, next)
      → Tallies es (record before { misses = before.misses ++ (r ∷ []) }) t next after
      → Tallies (e ∷ es) before t s after
  miss-Tallies e es before t s next after r open_ absent came h = record {
    ids = h.ids;
    matches = h.matches;
    misses = r ∷ h.misses;
    skips_grow = h.skips_grow;
    matches_grow = h.matches_grow;
    misses_grow = h.misses_grow ∙ append_one before.misses h.misses r;
    sorts =
        leaves (ground arith) (articles_for-ne market_date e confirmations absent)
          (command_unmatched e s next r absent came) h.sorts;
  }

  note-Tallies :
      (e : CanonicalEvent) (es : List CanonicalEvent) (before t : Tally) (s next after : EventStore)
      (r : EventWriteResult)
      → is_skipped e (own e) ≡ false
      → sent d sha256 calendar market_date now groups e s ≡ (ok r, next)
      → Tallies es (noted d sha256 calendar market_date now (own e) r before) t next after
      → Tallies (e ∷ es) before t s after
  note-Tallies e es before t s next after r open_ came h = elim (Bool-cases (has_none (own e))) [
    | inl absent ↦
        miss-Tallies e es before t s next after r open_ absent came
          (subst (λ b. Tallies es (noted_as b) t next after) absent h)
    | inr present ↦
        match-Tallies e es before t s next after r open_ present came
          (subst (λ b. Tallies es (noted_as b) t next after) present h)
  ]
    where
      noted_as : Bool → Tally
      noted_as absent =
          if absent
          then record before { misses = before.misses ++ (r ∷ []) }
          else record before { matches = before.matches ++ (r ∷ []) }

  loop-Tallies :
      (es : List CanonicalEvent) (before t : Tally) (s after : EventStore)
      → loop d sha256 calendar market_date now groups es before s ≡ (ok t, after)
      → Tallies es before t s after
  unfolding reconcile_events
  loop-Tallies [] before t s after returned =
      let same : before ≡ t = ground arith in
      let still : s ≡ after = ground arith in
      subst (λ t. Tallies [] before t s after) same
        (subst (λ a. Tallies [] before before s a) still
          (record {
            ids = [];
            matches = [];
            misses = [];
            skips_grow = sym (append-nil before.skips);
            matches_grow = sym (append-nil before.matches);
            misses_grow = sym (append-nil before.misses);
            sorts = all_sorted;
          }))
  loop-Tallies (e ∷ es) before t s after returned = elim (Bool-cases (is_skipped e (own e))) [
    | inl closed ↦ skip-Tallies e es before t s after closed (
        loop-Tallies es _ t s after (
          sym (loop_skip d sha256 calendar market_date now groups e es before s closed) ∙ returned))
    | inr open_ ↦
        by_result (λ b a q. loop-Tallies es b t a after q)
          (sent d sha256 calendar market_date now groups e s) refl open_
  ]
    where
      by_result :
          ((b : Tally) (a : EventStore)
            → loop d sha256 calendar market_date now groups es b a ≡ (ok t, after)
            → Tallies es b t a after)
          → (w : Result EventWriteResult × EventStore)
          → sent d sha256 calendar market_date now groups e s ≡ w
          → is_skipped e (own e) ≡ false
          → Tallies (e ∷ es) before t s after
      by_result rest (raised x, a) came open_ = absurd (
          ground (
            arith,
            loop_raised d sha256 calendar market_date now groups e es before s a x open_ came,
            returned,
          ))
      by_result rest (ok r, a) came open_ = note-Tallies e es before t s a after r open_ came (
          rest _ a (
            sym (loop_ok d sha256 calendar market_date now groups e es before s a r open_ came)
            ∙ returned))

  -- What a run makes of the Events of the day.
  pub record SortsDay (events : List CanonicalEvent) (key : String) (s after : EventStore)
      (run : AfterCloseReconciliationRun) : Type 0 where
    pub eligible : List CanonicalEvent
    pub of_day : AreEligible market_date key events eligible
    pub sorts : Sorts eligible s run.skipped_event_ids run.matched run.unmatched after

  -- A run that returns has sorted the Events of the day that have the key, each of them and no
  -- others, one after the other. It passes over those that are matched, and those that are unmatched
  -- and of whose theme no confirmation says that it rose on the day, and lists their ids. For another
  -- one of whose theme a confirmation says so, it writes a command that makes the Event matched, and
  -- has the result among the matched; for one of whose theme none says so, which is pending, it
  -- writes a command that makes it unmatched, and has the result among the unmatched. The store is
  -- the one that these commands leave.
  pub reconcile_after_close-settled :
      (events : List CanonicalEvent) (key : String) (s after : EventStore)
      (run : AfterCloseReconciliationRun)
      → reconcile_after_close d sha256 calendar market_date now events confirmations key s
        ≡ (ok run, after)
      → SortsDay events key s after run
  unfolding reconcile_after_close
  reconcile_after_close-settled events key s after run returned = record {
    eligible = eligible_events market_date key events;
    of_day = eligible_events-AreEligible market_date key events;
    sorts =
        by_loop
          (loop d sha256 calendar market_date now groups (eligible_events market_date key events)
            (empty_tally d sha256 calendar market_date now) s)
          refl returned;
  }
    where
      by_loop :
          (w : Result Tally × EventStore)
          → loop d sha256 calendar market_date now groups
              (eligible_events market_date key events)
              (empty_tally d sha256 calendar market_date now)
              s
            ≡ w
          → finished d sha256 calendar market_date now groups
              (eligible_events market_date key events)
              w
            ≡ (ok run, after)
          → Sorts
              (eligible_events market_date key events)
              s
              run.skipped_event_ids
              run.matched
              run.unmatched
              after
      by_loop (raised x, a) came q = absurd (ground arith)
      by_loop (ok t, a) came q =
          let still : a ≡ after = ground arith in
          let h =
            loop-Tallies (eligible_events market_date key events)
              (empty_tally d sha256 calendar market_date now) t s a came in
          let skips : h.ids ≡ run.skipped_event_ids = ground (arith, h.skips_grow) in
          let matches : h.matches ≡ run.matched = ground (arith, h.matches_grow) in
          let misses : h.misses ≡ run.unmatched = ground (arith, h.misses_grow) in
          subst
            (λ x.
              Sorts (eligible_events market_date key events) s x run.matched run.unmatched after)
            skips
            (subst
              (λ x. Sorts (eligible_events market_date key events) s h.ids x run.unmatched after)
              matches
              (subst (λ x. Sorts (eligible_events market_date key events) s h.ids h.matches x after)
                misses
                (subst
                  (λ x. Sorts (eligible_events market_date key events) s h.ids h.matches h.misses x)
                  still h.sorts)))

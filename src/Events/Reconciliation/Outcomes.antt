-- ===== src/Events/Reconciliation/Outcomes.antt =====
-- What a run of packages/events/reconciliation.py leaves in the store, Event by Event.
use dayjaview.Prelude.{
  ℕ, true, false, List, [], ◌∷◌, String, ◌≡◌, refl, sym, subst, arith, Bool-cases, inl, inr,
}
use dayjaview.Prelude.Exec.{Result, ok, raised, Exception}
use dayjaview.Events.Models.{
  Digests, ReconcileEventCommand, reconcile_event, CanonicalEvent, EventCommand, EventWriteResult,
}
use dayjaview.Events.Reconciliation.{
  Calendar, send, EventStore, write_checked, Articles, reconcile_after_close, reconcile_events,
  write, Tally, AfterCloseConfirmation, command_for, is_skipped, articles_for, noted, noted_skip,
  up_by_theme, eligible_events, empty_tally, finished,
}
use dayjaview.Events.Store.{EventStore, empty_store}
use dayjaview.Events.Writer.WellFormed.{IsWellFormed}
use dayjaview.Events.Writer.Reachable.{write-IsWellFormed, write_all-IsWellFormed}
use dayjaview.Events.Writer.{write}
use dayjaview.Events.Writer.Replay.{write_all}

module _ (d : Digests) (sha256 : String → String) (calendar : Calendar) (market_date now : ℕ) where
  -- A command that is sent is written, or not even built.
  write_checked-IsWellFormed :
      (r : Result ReconcileEventCommand) (s : EventStore)
      → IsWellFormed s
      → IsWellFormed (write_checked d sha256 calendar market_date now r s).1
  write_checked-IsWellFormed (raised e) s h = h
  write_checked-IsWellFormed (ok c) s h =
      write-IsWellFormed d (reconcile_event c) s (write d (reconcile_event c) s) refl h

  send-IsWellFormed :
      (c : ReconcileEventCommand) (s : EventStore)
      → IsWellFormed s
      → IsWellFormed (send d sha256 calendar market_date now c s).1
  unfolding send
  send-IsWellFormed c s h = write_checked-IsWellFormed _ s h

  module _ (groups : Articles) where
    abbrev pub loop : List CanonicalEvent → Tally → EventStore → Result Tally × EventStore
    loop = reconcile_events d sha256 calendar market_date now groups

    abbrev pub sent : CanonicalEvent → EventStore → Result EventWriteResult × EventStore
    sent e =
        send d sha256 calendar market_date now
          (command_for d sha256 calendar market_date now e (articles_for groups e))

    pub loop_raised :
        (e : CanonicalEvent) (es : List CanonicalEvent) (tally : Tally) (s after : EventStore)
        (x : Exception)
        → is_skipped e (articles_for groups e) ≡ false
        → sent e s ≡ (raised x, after)
        → loop (e ∷ es) tally s ≡ (raised x, after)
    unfolding reconcile_events
    loop_raised e es tally s after x open_ came = ground arith

    pub loop_ok :
        (e : CanonicalEvent) (es : List CanonicalEvent) (tally : Tally) (s after : EventStore)
        (r : EventWriteResult)
        → is_skipped e (articles_for groups e) ≡ false
        → sent e s ≡ (ok r, after)
        → loop (e ∷ es) tally s
          ≡ loop es (noted d sha256 calendar market_date now (articles_for groups e) r tally) after
    unfolding reconcile_events
    loop_ok e es tally s after r open_ came = ground arith

    pub loop_skip :
        (e : CanonicalEvent) (es : List CanonicalEvent) (tally : Tally) (s : EventStore)
        → is_skipped e (articles_for groups e) ≡ true
        → loop (e ∷ es) tally s ≡ loop es (noted_skip d sha256 calendar market_date now e tally) s
    unfolding reconcile_events
    loop_skip e es tally s closed = ground arith

    loop-IsWellFormed :
        (es : List CanonicalEvent) (tally : Tally) (s : EventStore)
        → IsWellFormed s
        → IsWellFormed (loop es tally s).1
    unfolding reconcile_events
    loop-IsWellFormed [] tally s h = h
    loop-IsWellFormed (e ∷ es) tally s h =
        elim (Bool-cases (is_skipped e (articles_for groups e))) [
          | inl closed ↦
              subst (λ p. IsWellFormed p.1) (sym (loop_skip e es tally s closed))
                (loop-IsWellFormed es _ s h)
          | inr open_ ↦
              by_result (λ t a k. loop-IsWellFormed es t a k) (sent e s) refl open_
                (send-IsWellFormed
                  (command_for d sha256 calendar market_date now e (articles_for groups e)) s h)
        ]
      where
        by_result :
            ((t : Tally) (a : EventStore) → IsWellFormed a → IsWellFormed (loop es t a).1)
            → (w : Result EventWriteResult × EventStore) → sent e s ≡ w
            → is_skipped e (articles_for groups e) ≡ false
            → IsWellFormed w.1
            → IsWellFormed (loop (e ∷ es) tally s).1
        by_result rest (raised x, after) came open_ k =
            subst (λ p. IsWellFormed p.1) (sym (loop_raised e es tally s after x open_ came)) k
        by_result rest (ok r, after) came open_ k =
            subst (λ p. IsWellFormed p.1) (sym (loop_ok e es tally s after r open_ came))
              (rest _ after k)

  finished-IsWellFormed :
      (groups : Articles) (eligible : List CanonicalEvent) (w : Result Tally × EventStore)
      → IsWellFormed w.1
      → IsWellFormed (finished d sha256 calendar market_date now groups eligible w).1
  finished-IsWellFormed groups eligible (raised e, after) h = h
  finished-IsWellFormed groups eligible (ok tally, after) h = h

  -- After any commands on an empty store and a run of the reconciliation over any Events and any
  -- confirmations, whether it returns or raises, the store is well formed, as it is after commands alone.
  pub reconcile_after_close-IsWellFormed :
      (cs : List EventCommand) (events : List CanonicalEvent)
      (confirmations : List AfterCloseConfirmation) (key : String)
      → IsWellFormed
          (reconcile_after_close d sha256 calendar market_date now events confirmations key
            (write_all d cs empty_store)).1
  unfolding reconcile_after_close
  reconcile_after_close-IsWellFormed cs events confirmations key =
      finished-IsWellFormed (up_by_theme market_date confirmations)
        (eligible_events market_date key events) _
        (loop-IsWellFormed (up_by_theme market_date confirmations)
          (eligible_events market_date key events) (empty_tally d sha256 calendar market_date now) _
          (write_all-IsWellFormed d cs))

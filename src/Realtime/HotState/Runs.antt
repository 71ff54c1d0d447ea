-- ===== src/Realtime/HotState/Runs.antt =====
-- Sequences of updates to the store of packages/realtime/hot_state.py.
use dayjaview.Prelude.{
  ℕ, ◌+◌, ◌≤◌, ◌≡◌, subst, Option, none, some, List, [], ◌∷◌, String, arith, ite, All,
}
use dayjaview.Prelude.Dict.{get}
use dayjaview.Prelude.Exec.{Result, ok}
use dayjaview.Realtime.Models.{StockRealtimeUpdate, check_update, HotApplyResult, SourceCursor}
use dayjaview.Realtime.HotState.Store.{
  StateKey, CursorKey, CursorKey-discrete, HotStateStore, empty_store, cursor_key, record_cursor,
  apply,
}
use dayjaview.Realtime.HotState.Invariant.{state_at, cursor_at, IsSound, empty_store-IsSound}
use dayjaview.Realtime.HotState.Steps.{
  Applies, repeats, conflicts, late_sequence, late_receipt, late_observation, stores, apply-Applies,
  Passes,
}
use dayjaview.Realtime.HotState.Soundness.{cursor_at-record_cursor, next_cursor, apply-IsSound}
use dayjaview.Realtime.HotState.Progress.{version_of, counts_for, case-version}

-- The later cursor is at the earlier one or past it.
abbrev pub Follows : Option SourceCursor → Option SourceCursor → Type 0
Follows none later = Unit
Follows (some c) none = ⊥
Follows (some c) (some d) =
    (c.source_sequence ≤ d.source_sequence) × (c.received_at ≤ d.received_at)

Follows-refl : (c : Option SourceCursor) → Follows c c
Follows-refl none = tt
Follows-refl (some c) = omega arith

Follows-trans : (a b c : Option SourceCursor) → Follows a b → Follows b c → Follows a c
Follows-trans none b c p q = tt
Follows-trans (some a) none c p q = absurd p
Follows-trans (some a) (some b) none p q = absurd q
Follows-trans (some a) (some b) (some c) p q = omega arith

Passes-next :
    (u : StockRealtimeUpdate) (c : Option SourceCursor)
    → Passes u c
    → Follows c (some (next_cursor u c))
Passes-next u none p = tt
Passes-next u (some c) p = omega arith

module _ (fingerprint : StockRealtimeUpdate → String) (u : StockRealtimeUpdate)
    (store : HotStateStore) (key : CursorKey) where
  recorded-Follows :
      Follows
        (cursor_at (cursor_key u) store)
        (some (next_cursor u (cursor_at (cursor_key u) store)))
      → Follows (cursor_at key store) (cursor_at key (record_cursor (cursor_key u) u store))
  recorded-Follows rises =
      rw (cursor_at-record_cursor u store key)
        (elim (CursorKey-discrete (cursor_key u) key)
          as (λ d.
            Follows (cursor_at key store) (
              ite d (some (next_cursor u (cursor_at (cursor_key u) store)))
                (cursor_at key store))) [
                  | yes same ↦
                      subst
                        (λ k.
                          Follows (cursor_at k store)
                            (some (next_cursor u (cursor_at (cursor_key u) store))))
                        same rises
                  | no other ↦ Follows-refl (cursor_at key store)
                ])

  -- No cursor goes back, in its sequence or in its time of receipt.
  case-Follows :
      (r : Result HotApplyResult) (after : HotStateStore)
      → Applies fingerprint u store r after
      → Follows (cursor_at key store) (cursor_at key after)
  case-Follows r after (repeats _ _ e) = rw e (Follows-refl (cursor_at key store))
  case-Follows r after (conflicts _ _ _ _ e) = rw e (Follows-refl (cursor_at key store))
  case-Follows r after (late_sequence _ _ _ _ _ e) = rw e (Follows-refl (cursor_at key store))
  case-Follows r after (late_receipt c _ at lt _ _ e) =
      rw e (recorded-Follows (rw at (omega arith)))
  case-Follows r after (late_observation _ _ pass _ _ _ e) =
      rw e (recorded-Follows (Passes-next u _ pass))
  case-Follows r after (stores _ pass _ _ e) = rw e (recorded-Follows (Passes-next u _ pass))

module _ (fingerprint : StockRealtimeUpdate → String) where
  -- A feed of updates, each handed to `apply`; one that is refused is left out.
  unfoldable pub feed : List StockRealtimeUpdate → HotStateStore → HotStateStore
  feed [] store = store
  feed (u ∷ us) store = feed us (apply fingerprint u store).1

  -- How many of them replaced the state of the key.
  unfoldable pub replaced : StateKey → List StockRealtimeUpdate → HotStateStore → ℕ
  replaced key [] store = 0
  replaced key (u ∷ us) store =
      counts_for key u (apply fingerprint u store).0 + replaced key us (apply fingerprint u store).1

  abbrev pub AllChecked : List StockRealtimeUpdate → Type 0
  AllChecked = All (λ u. check_update u ≡ ok tt)

  feed_from-IsSound :
      (us : List StockRealtimeUpdate) (store : HotStateStore)
      → AllChecked us
      → IsSound store
      → IsSound (feed us store)
  unfolding feed
  feed_from-IsSound [] store valid h = h
  feed_from-IsSound (u ∷ us) store valid h =
      feed_from-IsSound us _ valid.1 (apply-IsSound fingerprint u store valid.0 h)

  -- Whatever checked updates a new store is fed: each state stands under its own key, has a version
  -- of 1 or more, was not received before it occurred, and is covered by its source's cursor and by
  -- the messages that were processed; and each cursor stands under its own key.
  pub feed-IsSound : (us : List StockRealtimeUpdate) → AllChecked us → IsSound (feed us empty_store)
  feed-IsSound us valid = feed_from-IsSound us empty_store valid empty_store-IsSound

  feed-version_from :
      (us : List StockRealtimeUpdate) (store : HotStateStore) (key : StateKey)
      → AllChecked us
      → version_of (state_at key (feed us store))
        ≡ version_of (state_at key store) + replaced key us store
  unfolding feed replaced
  feed-version_from [] store key valid = omega arith
  feed-version_from (u ∷ us) store key valid = omega (
    arith,
    case-version fingerprint u store _ _ key (apply-Applies fingerprint u store valid.0),
    feed-version_from us (apply fingerprint u store).1 key valid.1,
  )

  -- After any checked updates to a new store, a stock's version is the number of updates that
  -- replaced its state, and 0 for a stock that has none.
  pub feed-version :
      (us : List StockRealtimeUpdate) (key : StateKey)
      → AllChecked us
      → version_of (state_at key (feed us empty_store)) ≡ replaced key us empty_store
  unfolding get
  feed-version us key valid = omega (arith, feed-version_from us empty_store key valid)

  -- Over any feed of checked updates, no source's cursor goes back, in its sequence or in its time of receipt.
  pub feed-Follows :
      (us : List StockRealtimeUpdate) (store : HotStateStore) (key : CursorKey)
      → AllChecked us
      → Follows (cursor_at key store) (cursor_at key (feed us store))
  unfolding feed
  feed-Follows [] store key valid = Follows-refl (cursor_at key store)
  feed-Follows (u ∷ us) store key valid =
      Follows-trans _ _ _
        (case-Follows fingerprint u store key _ _ (apply-Applies fingerprint u store valid.0))
        (feed-Follows us (apply fingerprint u store).1 key valid.1)

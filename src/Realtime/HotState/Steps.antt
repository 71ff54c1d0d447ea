-- ===== src/Realtime/HotState/Steps.antt =====
-- The five ways in which `apply` of packages/realtime/hot_state.py ends, and the one in which it
-- raises, as a relation between the store before, the answer and the store after.
use dayjaview.Prelude.{
  ℕ, ◌≤◌, ◌<◌, ◌≡◌, ◌≢◌, inl, inr, refl, true, false, Option, none, some, String, String-discrete,
  arith, leb, ltb, Option-cases, suc, Bool-cases, ◌∙◌, ap,
}
use dayjaview.Prelude.Dict.{put}
use dayjaview.Prelude.Exec.{Result, ok, raised, hot_state_idempotency_conflict}
use dayjaview.Realtime.Models.{
  StockRealtimeUpdate, check_update, HotStockState, from_update_lem, state_of_update,
  HotApplyResult, applied, duplicate, stale_source_sequence, stale_received_at, stale_observation,
  SourceCursor,
}
use dayjaview.Realtime.HotState.Store.{
  StateKey-discrete, HotStateStore, update_order, state_order, is_not_newer, state_key, cursor_key,
  record_cursor, process, unchanged, observe, admit, apply,
}
use dayjaview.Realtime.HotState.Invariant.{state_at, cursor_at, seen_at}

abbrev pub next_version : Option HotStockState → ℕ
next_version none = 1
next_version (some s) = suc s.version

-- The update is newer than the state of its stock, in the order of the tuples.
abbrev pub Newer : StockRealtimeUpdate → Option HotStockState → Type 0
Newer u none = Unit
Newer u (some s) = is_not_newer (update_order u) (state_order s) ≡ false

-- The source's cursor lets the update pass.
abbrev pub Passes : StockRealtimeUpdate → Option SourceCursor → Type 0
Passes u none = Unit
Passes u (some c) = (c.source_sequence < u.source_sequence) × (c.received_at ≤ u.received_at)

module _ (fingerprint : StockRealtimeUpdate → String) (u : StockRealtimeUpdate)
    (store : HotStateStore) where
  abbrev pub previous : Option HotStockState
  previous = state_at (state_key u) store

  -- The store after the cursor and the message were recorded.
  abbrev pub recorded : HotStateStore
  recorded = process u (fingerprint u) (record_cursor (cursor_key u) u store)

  pub data Applies (r : Result HotApplyResult) (after : HotStateStore) : Type 0 where
    repeats :
        seen_at u.message_id store ≡ some (fingerprint u)
        → r ≡ unchanged duplicate previous
        → after ≡ store
        → Applies r after
    conflicts :
        (seen : String)
        → seen_at u.message_id store ≡ some seen
        → seen ≢ fingerprint u
        → r ≡ raised hot_state_idempotency_conflict
        → after ≡ store
        → Applies r after
    late_sequence :
        (c : SourceCursor)
        → seen_at u.message_id store ≡ none
        → cursor_at (cursor_key u) store ≡ some c
        → u.source_sequence ≤ c.source_sequence
        → r ≡ unchanged stale_source_sequence previous
        → after ≡ process u (fingerprint u) store
        → Applies r after
    late_receipt :
        (c : SourceCursor)
        → seen_at u.message_id store ≡ none
        → cursor_at (cursor_key u) store ≡ some c
        → c.source_sequence < u.source_sequence
        → u.received_at < c.received_at
        → r ≡ unchanged stale_received_at previous
        → after ≡ recorded
        → Applies r after
    late_observation :
        (s : HotStockState)
        → seen_at u.message_id store ≡ none
        → Passes u (cursor_at (cursor_key u) store)
        → previous ≡ some s
        → is_not_newer (update_order u) (state_order s) ≡ true
        → r ≡ unchanged stale_observation previous
        → after ≡ recorded
        → Applies r after
    stores :
        seen_at u.message_id store ≡ none
        → Passes u (cursor_at (cursor_key u) store)
        → Newer u previous
        → r
          ≡ ok (record {
            disposition = applied;
            previous = previous;
            current = some (state_of_update u (next_version previous));
          })
        → after ≡ record recorded {
          states =
              put StateKey-discrete
                (state_key u)
                (state_of_update u (next_version previous))
                store.states;
        }
        → Applies r after

  module _ (valid : check_update u ≡ ok tt) (new : seen_at u.message_id store ≡ none) where
    observe-Applies :
        (p : Option HotStockState)
        → previous ≡ p
        → Passes u (cursor_at (cursor_key u) store)
        → Applies (observe u p recorded).0 (observe u p recorded).1
    unfolding observe record_cursor
    observe-Applies none same pass =
        stores new pass (ground arith) (ground (arith, from_update_lem u 0 valid))
          (ground (arith, from_update_lem u 0 valid))
    observe-Applies (some s) same pass =
        elim (Bool-cases (is_not_newer (update_order u) (state_order s))) [
          | inl older ↦ late_observation s new pass same older (ground arith) (ground arith)
          | inr newer ↦
              stores new pass (ground arith) (ground (arith, from_update_lem u s.version valid))
                (ground (arith, from_update_lem u s.version valid))
        ]

    admit-Applies :
        (c : Option SourceCursor)
        → cursor_at (cursor_key u) store ≡ c
        → Applies
            (admit u (fingerprint u) previous c store).0
            (admit u (fingerprint u) previous c store).1
    unfolding admit
    admit-Applies none same = observe-Applies previous refl (ground arith)
    admit-Applies (some c) same = elim (Bool-cases (leb u.source_sequence c.source_sequence)) [
      | inl late ↦ late_sequence c new same (ground arith) (ground arith) (ground arith)
      | inr early ↦ elim (Bool-cases (ltb u.received_at c.received_at)) [
        | inl late ↦
            late_receipt c new same (ground arith) (ground arith) (ground arith) (ground arith)
        | inr in_order ↦ rw (early, in_order, admit) (observe-Applies previous refl (ground arith))
      ]
    ]

  -- Of an update that passed its check, `apply` does one of six: a message that was seen with the same
  -- fingerprint is answered with the stored state, and one with another fingerprint raises; a sequence
  -- at or before the source's cursor is stale, and only the message is noted; a receipt before the
  -- cursor's, or an observation that is not newer than the state, is stale, and the cursor and the
  -- message are noted; any other update is stored as the next version.
  pub apply-Applies :
      check_update u ≡ ok tt → Applies (apply fingerprint u store).0 (apply fingerprint u store).1
  unfolding apply
  apply-Applies valid = elim (Option-cases (seen_at u.message_id store)) [
    | inl new ↦ rw (new, apply) (admit-Applies valid new _ refl)
    | inr (seen, old) ↦ elim (String-discrete seen (fingerprint u)) [
      | yes same ↦ repeats (old ∙ ap some same) (ground arith) (ground arith)
      | no other ↦ conflicts seen old other (ground arith) (ground arith)
    ]
  ]

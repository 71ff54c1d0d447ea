-- ===== src/Realtime/HotState/Agreement.antt =====
-- Two stores of packages/realtime/hot_state.py that answer every lookup alike.
use dayjaview.Prelude.{
  ◌≡◌, refl, String, String-discrete, ite, Bool, Option, List, arith, if◌then◌else◌, ℕ, some, ◌∷◌,
  true, [], none, ◌+◌, false, leb, ltb,
}
use dayjaview.Prelude.Dict.{put, get-put}
use dayjaview.Prelude.Exec.{Result, ok, raised, hot_state_idempotency_conflict}
use dayjaview.Realtime.Models.{
  StockRealtimeUpdate, HotStockState, SourceCursor, HotApplyResult, applied, from_update, duplicate,
}
use dayjaview.Realtime.HotState.Store.{
  StateKey, CursorKey, HotStateStore, StateKey-discrete, process, record_cursor, state_key, commit,
  observe, admit, apply, cursor_key, unchanged,
}
use dayjaview.Realtime.HotState.Invariant.{state_at, cursor_at, seen_at}
use dayjaview.Realtime.HotState.Soundness.{cursor_at-record_cursor, seen_at-process}
use dayjaview.Realtime.HotState.Runs.{feed}

-- The abstract view: the lookups, without the order of the entries.
pub record Agrees (a b : HotStateStore) : Type 0 where
  pub states_agree : (key : StateKey) → state_at key a ≡ state_at key b
  pub cursors_agree : (key : CursorKey) → cursor_at key a ≡ cursor_at key b
  pub messages_agree : (m : String) → seen_at m a ≡ seen_at m b

module _ (a b : HotStateStore) (h : Agrees a b) (u : StockRealtimeUpdate) where
  process-Agrees : (fp : String) → Agrees (process u fp a) (process u fp b)
  process-Agrees fp = record {
    states_agree = h.states_agree;
    cursors_agree = h.cursors_agree;
    messages_agree =
        λ m. ground (arith, seen_at-process u fp a m, seen_at-process u fp b m, h.messages_agree m);
  }

  record_cursor-Agrees :
      Agrees (record_cursor (cursor_key u) u a) (record_cursor (cursor_key u) u b)
  unfolding record_cursor
  record_cursor-Agrees = record {
    states_agree = h.states_agree;
    cursors_agree = λ key.
        rw
          (
            cursor_at-record_cursor u a key,
            cursor_at-record_cursor u b key,
            h.cursors_agree key,
            h.cursors_agree (cursor_key u),
          )
          refl;
    messages_agree = h.messages_agree;
  }

  put_state-Agrees :
      (s : HotStockState)
      → Agrees
          (record a { states = put StateKey-discrete (state_key u) s a.states })
          (record b { states = put StateKey-discrete (state_key u) s b.states })
  put_state-Agrees s = record {
    states_agree = λ key. ground (
      arith,
      get-put StateKey-discrete (state_key u) key s a.states,
      get-put StateKey-discrete (state_key u) key s b.states,
      h.states_agree key,
    );
    cursors_agree = h.cursors_agree;
    messages_agree = h.messages_agree;
  }

-- The same answer, and stores that agree again.
abbrev pub SameStep :
    Result HotApplyResult × HotStateStore → Result HotApplyResult × HotStateStore → Type 0
SameStep p q = (p.0 ≡ q.0) × Agrees p.1 q.1

if-SameStep :
    (t : Bool) {p p' q q' : Result HotApplyResult × HotStateStore}
    → SameStep p q
    → SameStep p' q'
    → SameStep (if t then p else p') (if t then q else q')
if-SameStep true h h' = h
if-SameStep false h h' = h'

-- How `commit` goes on from what the constructor came to.
abbrev stored_as :
    Result HotStockState
    → StockRealtimeUpdate
    → Option HotStockState
    → HotStateStore
    → Result HotApplyResult × HotStateStore
stored_as (raised e) u previous store = (raised e, store)
stored_as (ok s) u previous store = (
  ok (record { disposition = applied; previous = previous; current = some s }),
  record store { states = put StateKey-discrete (state_key u) s store.states },
)

module _ (u : StockRealtimeUpdate) where
  stored_as-SameStep :
      (r : Result HotStockState) (o : Option HotStockState) (a b : HotStateStore)
      → Agrees a b
      → SameStep (stored_as r u o a) (stored_as r u o b)
  stored_as-SameStep (raised e) o a b h = (refl, h)
  stored_as-SameStep (ok s) o a b h = (refl, put_state-Agrees a b h u s)

  abbrev version_after : Option HotStockState → ℕ
  version_after o = elim o [ none ↦ 1 | some p ↦ p.version + 1 ]

  commit-stored_as :
      (o : Option HotStockState) (s : HotStateStore)
      → commit u o s ≡ stored_as (from_update u (version_after o)) u o s
  unfolding commit
  commit-stored_as o s = ground arith

  commit-SameStep :
      (o : Option HotStockState) (a b : HotStateStore)
      → Agrees a b
      → SameStep (commit u o a) (commit u o b)
  commit-SameStep o a b h =
      rw (commit-stored_as o a, commit-stored_as o b)
        (stored_as-SameStep (from_update u (version_after o)) o a b h)

  observe-SameStep :
      (o : Option HotStockState) (a b : HotStateStore)
      → Agrees a b
      → SameStep (observe u o a) (observe u o b)
  unfolding observe
  observe-SameStep none a b h = commit-SameStep none a b h
  observe-SameStep (some p) a b h = if-SameStep _ (refl, h) (commit-SameStep (some p) a b h)

  admit-SameStep :
      (fp : String) (o : Option HotStockState) (c : Option SourceCursor) (a b : HotStateStore)
      → Agrees a b
      → SameStep (admit u fp o c a) (admit u fp o c b)
  unfolding admit
  admit-SameStep fp o none a b h =
      observe-SameStep o _ _ (process-Agrees _ _ (record_cursor-Agrees a b h u) u fp)
  admit-SameStep fp o (some c) a b h =
      let noted = process-Agrees _ _ (record_cursor-Agrees a b h u) u fp in
      if-SameStep (leb u.source_sequence c.source_sequence) (refl, process-Agrees a b h u fp)
        (if-SameStep (ltb u.received_at c.received_at) (refl, noted) (observe-SameStep o _ _ noted))

module _ (fingerprint : StockRealtimeUpdate → String) where
  -- What `apply` does, from what it looks up.
  abbrev answer :
      Option String
      → Option HotStockState
      → Option SourceCursor
      → StockRealtimeUpdate
      → HotStateStore
      → Result HotApplyResult × HotStateStore
  answer (some seen) o c u store =
      ite (String-discrete seen (fingerprint u)) (unchanged duplicate o, store)
        (raised hot_state_idempotency_conflict, store)
  answer none o c u store = admit u (fingerprint u) o c store

  answer-SameStep :
      (m : Option String) (o : Option HotStockState) (c : Option SourceCursor)
      (u : StockRealtimeUpdate) (a b : HotStateStore)
      → Agrees a b
      → SameStep (answer m o c u a) (answer m o c u b)
  answer-SameStep (some seen) o c u a b h =
      elim (String-discrete seen (fingerprint u))
        as (λ d.
          SameStep (ite d (unchanged duplicate o, a) (raised hot_state_idempotency_conflict, a))
            (ite d (unchanged duplicate o, b) (raised hot_state_idempotency_conflict, b))) [
              | yes same ↦ (refl, h)
              | no other ↦ (refl, h)
            ]
  answer-SameStep none o c u a b h = admit-SameStep u (fingerprint u) o c a b h

  apply-answer :
      (u : StockRealtimeUpdate) (s : HotStateStore)
      → apply fingerprint u s
        ≡ answer
            (seen_at u.message_id s)
            (state_at (state_key u) s)
            (cursor_at (cursor_key u) s)
            u
            s
  unfolding apply
  apply-answer u s = ground arith

  apply-SameStep :
      (u : StockRealtimeUpdate) (a b : HotStateStore)
      → Agrees a b
      → SameStep (apply fingerprint u a) (apply fingerprint u b)
  apply-SameStep u a b h =
      rw
        (
          apply-answer u a,
          apply-answer u b,
          h.messages_agree u.message_id,
          h.states_agree (state_key u),
          h.cursors_agree (cursor_key u),
        )
        (answer-SameStep _ _ _ u a b h)

  -- The answers to a feed of updates, in order.
  unfoldable pub answers : List StockRealtimeUpdate → HotStateStore → List (Result HotApplyResult)
  answers [] store = []
  answers (u ∷ us) store = let step = apply fingerprint u store in step.0 ∷ answers us step.1

  -- Two stores that answer every lookup of a state, a cursor and a processed message alike, whatever
  -- the order of their entries, give the same answers to any feed of updates and agree again after it.
  pub feed-Agrees :
      (us : List StockRealtimeUpdate) (a b : HotStateStore)
      → Agrees a b
      → (answers us a ≡ answers us b) × Agrees (feed fingerprint us a) (feed fingerprint us b)
  unfolding answers feed
  feed-Agrees [] a b h = (refl, h)
  feed-Agrees (u ∷ us) a b h =
      let step = apply-SameStep u a b h in
      let rest = feed-Agrees us (apply fingerprint u a).1 (apply fingerprint u b).1 step.1 in
      (cc (step.0, rest.0), rest.1)

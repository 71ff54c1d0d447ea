-- ===== src/Realtime/HotState/Progress.antt =====
-- How the store of packages/realtime/hot_state.py moves on: retries, versions and cursors.
use dayjaview.Prelude.{ℕ, ◌+◌, ◌≡◌, Option, none, some, String, arith, ite, if◌then◌else◌}
use dayjaview.Prelude.Dict.{get-put}
use dayjaview.Prelude.Exec.{Result, ok, raised}
use dayjaview.Realtime.Models.{
  StockRealtimeUpdate, check_update, HotStockState, state_of_update, HotApplyResult, duplicate,
  changed,
}
use dayjaview.Realtime.HotState.Store.{
  StateKey, StateKey-discrete, HotStateStore, state_key, record_cursor, apply, unchanged,
}
use dayjaview.Realtime.HotState.Invariant.{state_at, seen_at}
use dayjaview.Realtime.HotState.Steps.{
  Applies, repeats, conflicts, late_sequence, late_receipt, late_observation, stores, apply-Applies,
  next_version,
}
use dayjaview.Realtime.HotState.Soundness.{seen_at-process}

-- Where the update was not refused, its message is remembered with its fingerprint.
case_remembers :
    (fingerprint : StockRealtimeUpdate → String) (u : StockRealtimeUpdate) (store : HotStateStore)
    (r : Result HotApplyResult) (after : HotStateStore) (x : HotApplyResult)
    → Applies fingerprint u store r after
    → r ≡ ok x
    → seen_at u.message_id after ≡ some (fingerprint u)
unfolding record_cursor
case_remembers fingerprint u store r after x (repeats seen _ e) h = rw e seen
case_remembers fingerprint u store r after x (conflicts _ _ _ raises _) h = cc
case_remembers fingerprint u store r after x (late_sequence _ _ _ _ _ e) h =
    rw e (ground (arith, seen_at-process u (fingerprint u) store u.message_id))
case_remembers fingerprint u store r after x (late_receipt _ _ _ _ _ _ e) h =
    rw e (ground (arith, seen_at-process u (fingerprint u) store u.message_id))
case_remembers fingerprint u store r after x (late_observation _ _ _ _ _ _ e) h =
    rw e (ground (arith, seen_at-process u (fingerprint u) store u.message_id))
case_remembers fingerprint u store r after x (stores _ _ _ _ e) h =
    rw e (ground (arith, seen_at-process u (fingerprint u) store u.message_id))

repeat_lem :
    (fingerprint : StockRealtimeUpdate → String) (u : StockRealtimeUpdate) (store : HotStateStore)
    → seen_at u.message_id store ≡ some (fingerprint u)
    → apply fingerprint u store ≡ (unchanged duplicate (state_at (state_key u) store), store)
unfolding apply
repeat_lem fingerprint u store h = ground arith

module _ (fingerprint : StockRealtimeUpdate → String) where
  -- A retry of a checked update that did not raise is a duplicate: it answers with the stored state and
  -- changes nothing.
  pub apply_again :
      (u : StockRealtimeUpdate) (store : HotStateStore) (x : HotApplyResult)
      → check_update u ≡ ok tt
      → (apply fingerprint u store).0 ≡ ok x
      → let after = (apply fingerprint u store).1 in
        apply fingerprint u after ≡ (unchanged duplicate (state_at (state_key u) after), after)
  apply_again u store x valid h =
      repeat_lem fingerprint u _
        (case_remembers fingerprint u store _ _ x (apply-Applies fingerprint u store valid) h)

-- A stored version, 0 where there is none.
abbrev pub version_of : Option HotStockState → ℕ
version_of none = 0
version_of (some s) = s.version

-- 1 where the result says that the state of the key was replaced.
abbrev pub counts_for : StateKey → StockRealtimeUpdate → Result HotApplyResult → ℕ
counts_for key u (raised e) = 0
counts_for key u (ok x) =
    if changed x.disposition then ite (StateKey-discrete (state_key u) key) 1 0 else 0

pub case-version :
    (fingerprint : StockRealtimeUpdate → String) (u : StockRealtimeUpdate) (store : HotStateStore)
    (r : Result HotApplyResult) (after : HotStateStore) (key : StateKey)
    → Applies fingerprint u store r after
    → version_of (state_at key after) ≡ version_of (state_at key store) + counts_for key u r
unfolding record_cursor
case-version fingerprint u store r after key (repeats _ q e) = ground arith
case-version fingerprint u store r after key (conflicts _ _ _ q e) = ground arith
case-version fingerprint u store r after key (late_sequence _ _ _ _ q e) = ground arith
case-version fingerprint u store r after key (late_receipt _ _ _ _ _ q e) = ground arith
case-version fingerprint u store r after key (late_observation _ _ _ _ _ q e) = ground arith
case-version fingerprint u store r after key (stores _ _ _ q e) =
    rw (q, e)
      (ground (
        arith,
        get-put StateKey-discrete (state_key u) key
            (state_of_update u (next_version (state_at (state_key u) store))) store.states,
      ))

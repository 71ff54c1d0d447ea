-- ===== src/Realtime/Aggregation/Batches.antt =====
-- What one `drain` of packages/realtime/aggregation.py comes to, on either branch.
use dayjaview.Realtime.Aggregation.{
  pending, get, DirtyThemeAggregator, DirtyKey, DirtyTheme, DirtyKey-discrete, key_of_dirty,
  ThemeMembershipSnapshot, select, StockReference, dirty_first,
}
use dayjaview.Prelude.{
  refl, Option, none, some, List, [], ◌∷◌, Any, All, inl, ◌≡◌, inr, arith, Any-map, ap, ◌∙◌,
  Option-cases, subst, sort_by-Any,
}
use dayjaview.Prelude.Exec.{Result, Exception, Result-cases, ok, raised, and_then-eq-ok}
use dayjaview.Prelude.Dict.{get, Dict, get-remove}
use dayjaview.Realtime.Aggregation.Drains.{
  Calculation, pop_all, ThemeMetricUpdate, update_with, updates_for, drain, update_for,
  select_references, observe_all,
}
use dayjaview.Realtime.Aggregation.MarkLoop.{IsKeyed}
use dayjaview.Realtime.HotState.{HotStateStore}
use dayjaview.Domain.Membership.{ThemeMembershipSnapshot, stock_ids}
use dayjaview.Prelude.Entries.{sorted_entries, entry_first}
use dayjaview.Domain.References.{StockReference}
use dayjaview.Domain.Market.{StockMarketObservation}
use dayjaview.Realtime.HotState.Checkpoint.{states_for}

pop_none :
    (k : DirtyKey) (ds : List DirtyTheme) (dirty : Dict DirtyKey DirtyTheme)
    → get DirtyKey-discrete k dirty ≡ none
    → get DirtyKey-discrete k (pop_all ds dirty) ≡ none
unfolding pop_all
pop_none k [] dirty h = h
pop_none k (d ∷ ds) dirty h =
    pop_none k ds _ (ground (arith, get-remove DirtyKey-discrete (key_of_dirty d) k dirty))

-- Every key of a batch is gone after it was popped.
pop_all_gone :
    (k : DirtyKey) (ds : List DirtyTheme) (dirty : Dict DirtyKey DirtyTheme)
    → Any (λ d. key_of_dirty d ≡ k) ds
    → get DirtyKey-discrete k (pop_all ds dirty) ≡ none
unfolding pop_all
pop_all_gone k [] dirty h = absurd h
pop_all_gone k (d ∷ ds) dirty (inl here) =
    pop_none k ds _ (ground (arith, get-remove DirtyKey-discrete (key_of_dirty d) k dirty))
pop_all_gone k (d ∷ ds) dirty (inr later) = pop_all_gone k ds _ later

entry_in :
    (k : DirtyKey) (v : DirtyTheme) (dirty : Dict DirtyKey DirtyTheme)
    → get DirtyKey-discrete k dirty ≡ some v
    → Any (λ e. (e.0 ≡ k) × (e.1 ≡ v)) dirty
unfolding get
entry_in k v [] h = ground arith
entry_in k v ((j, w) ∷ dirty) h = elim (DirtyKey-discrete j k) [
  | yes same ↦ inl (same, ground arith)
  | no other ↦ inr (entry_in k v dirty (ground arith))
]

Any-All :
    {A : Type 0} (P Q R : A → Type 0) (xs : List A)
    → ((x : A) → P x → Q x → R x)
    → Any P xs
    → All Q xs
    → Any R xs
Any-All P Q R [] f h hs = h
Any-All P Q R (x ∷ xs) f (inl at) hs = inl (f x at hs.0)
Any-All P Q R (x ∷ xs) f (inr later) hs = inr (Any-All P Q R xs f later hs.1)

-- An entry of the dictionary is in the batch.
pub pending-Any :
    (a : DirtyThemeAggregator) (k : DirtyKey) (v : DirtyTheme)
    → get DirtyKey-discrete k a.dirty ≡ some v
    → Any (λ d. d ≡ v) (pending a)
unfolding pending
pending-Any a k v h =
    Any-map (λ d. d ≡ v) (λ e. e.1) (sorted_entries dirty_first a.dirty)
      (sort_by-Any (entry_first dirty_first) (λ e. e.1 ≡ v) a.dirty
        (Any-All (λ e. (e.0 ≡ k) × (e.1 ≡ v)) (λ e. Unit {0}) (λ e. e.1 ≡ v) a.dirty (λ e p u. p.1)
          (entry_in k v a.dirty h) (all_unit a.dirty)))
  where
    all_unit : (d : Dict DirtyKey DirtyTheme) → All (λ e. Unit {0}) d
    all_unit [] = tt
    all_unit (e ∷ d) = (tt, all_unit d)

pub keyed_at :
    (k : DirtyKey) (v : DirtyTheme) (dirty : Dict DirtyKey DirtyTheme)
    → IsKeyed dirty
    → get DirtyKey-discrete k dirty ≡ some v
    → key_of_dirty v ≡ k
keyed_at k v dirty h found = read dirty (entry_in k v dirty found) h.keyed
  where
    read :
        (d : Dict DirtyKey DirtyTheme)
        → Any (λ e. (e.0 ≡ k) × (e.1 ≡ v)) d
        → All (λ e. key_of_dirty e.1 ≡ e.0) d
        → key_of_dirty v ≡ k
    read [] a q = absurd a
    read (e ∷ d) (inl at) q = cc (at.0, at.1, q.0)
    read (e ∷ d) (inr later) q = read d later q.1

-- The batch is the whole dictionary: nothing is dirty after it was popped.
pop_pending :
    (a : DirtyThemeAggregator)
    → IsKeyed a.dirty
    → (k : DirtyKey) → get DirtyKey-discrete k (pop_all (pending a) a.dirty) ≡ none
pop_pending a h k = elim (Option-cases (get DirtyKey-discrete k a.dirty)) [
  | inl absent ↦ pop_none k (pending a) a.dirty absent
  | inr (v, found) ↦
      pop_all_gone k (pending a) a.dirty
        (any_key v (pending a) (keyed_at k v a.dirty h found) (pending-Any a k v found))
]
  where
    any_key :
        (v : DirtyTheme) (ds : List DirtyTheme)
        → key_of_dirty v ≡ k
        → Any (λ d. d ≡ v) ds
        → Any (λ d. key_of_dirty d ≡ k) ds
    any_key v [] q h = h
    any_key v (d ∷ ds) q (inl same) = inl (ap key_of_dirty same ∙ q)
    any_key v (d ∷ ds) q (inr later) = inr (any_key v ds q later)

module _ {Metrics : Type 0} (calculate : Calculation Metrics) (hot_state : HotStateStore)
    (a : DirtyThemeAggregator) where
  -- An update is what the calculation makes of one dirty theme: of the members that were known at
  -- its time, their references known then, and their states.
  pub record IsUpdate (d : DirtyTheme) (u : ThemeMetricUpdate Metrics) : Type 0 where
    pub same_theme :
        (u.theme_id ≡ d.theme_id) × (u.market_date ≡ d.market_date) × (u.as_of ≡ d.as_of)
    pub membership : ThemeMembershipSnapshot
    pub selected : select d.theme_id d.market_date d.as_of a.catalog ≡ ok (some membership)
    pub versioned : u.membership_version ≡ membership.version
    pub references : List StockReference
    pub known :
        select_references (stock_ids membership) d.market_date d.as_of a.references ≡ ok references
    pub observations : List StockMarketObservation
    pub observed :
        observe_all (states_for d.market_date (stock_ids membership) hot_state) ≡ ok observations
    pub calculated :
        calculate d.market_date d.as_of membership references observations ≡ ok u.metrics

  -- One update for each theme of the batch, in its order.
  abbrev pub Updates : List DirtyTheme → List (ThemeMetricUpdate Metrics) → Type 0
  Updates [] [] = Unit {0}
  Updates [] (u ∷ us) = ⊥
  Updates (d ∷ ds) [] = ⊥
  Updates (d ∷ ds) (u ∷ us) = IsUpdate d u × Updates ds us

  update_with-IsUpdate :
      (d : DirtyTheme) (o : Option ThemeMembershipSnapshot) (u : ThemeMetricUpdate Metrics)
      → select d.theme_id d.market_date d.as_of a.catalog ≡ ok o
      → update_with calculate hot_state a.references d o ≡ ok u
      → IsUpdate d u
  unfolding update_with
  update_with-IsUpdate d none u s h = ground arith
  update_with-IsUpdate d (some m) u s h =
      let (references, known, h1) =
        and_then-eq-ok (select_references (stock_ids m) d.market_date d.as_of a.references) _ h in
      let (observations, observed, h2) =
        and_then-eq-ok (observe_all (states_for d.market_date (stock_ids m) hot_state)) _ h1 in
      let (metrics, calculated, h3) =
        and_then-eq-ok (calculate d.market_date d.as_of m references observations) _ h2 in
      record {
        same_theme = ground arith;
        membership = m;
        selected = s;
        versioned = ground arith;
        references = references;
        known = known;
        observations = observations;
        observed = observed;
        calculated = ground arith;
      }

  updates_for-Updates :
      (ds : List DirtyTheme) (us : List (ThemeMetricUpdate Metrics))
      → updates_for calculate hot_state a ds ≡ ok us
      → Updates ds us
  unfolding updates_for update_for
  updates_for-Updates [] [] h = tt
  updates_for-Updates [] (u ∷ us) h = ground arith
  updates_for-Updates (d ∷ ds) us h =
      let (u, one, h1) = and_then-eq-ok (update_for calculate hot_state a d) _ h in
      let (o, selected, h2) =
        and_then-eq-ok (select d.theme_id d.market_date d.as_of a.catalog) _ one in
      let (rest, others, h3) = and_then-eq-ok (updates_for calculate hot_state a ds) _ h1 in
      let same : u ∷ rest ≡ us = ground arith in
      subst (Updates (d ∷ ds)) same
        (update_with-IsUpdate d o u selected h2, updates_for-Updates ds rest others)

  -- The two outcomes of a `drain`.
  pub data Drains : Result (List (ThemeMetricUpdate Metrics)) → DirtyThemeAggregator → Type 0 where
    fails :
        {r : Result (List (ThemeMetricUpdate Metrics))} {after : DirtyThemeAggregator}
        (e : Exception)
        → r ≡ raised e
        → after ≡ a
        → Drains r after
    drains :
        {r : Result (List (ThemeMetricUpdate Metrics))} {after : DirtyThemeAggregator}
        (us : List (ThemeMetricUpdate Metrics))
        → r ≡ ok us
        → Updates (pending a) us
        → (after.catalog ≡ a.catalog) × (after.references ≡ a.references)
        → ((k : DirtyKey) → get DirtyKey-discrete k after.dirty ≡ none)
        → Drains r after

  -- A drain is all or nothing. Where it raises, the aggregator is as it was, so that a retry sees
  -- the same batch. Where it returns, it has one update for each dirty theme in the order of the
  -- batch, each calculated from the members and the references that were known at the time of its
  -- theme and from the states of the store, and no theme is dirty any longer.
  pub drain-Drains :
      IsKeyed a.dirty → Drains (drain calculate hot_state a).0 (drain calculate hot_state a).1
  unfolding drain
  drain-Drains h = elim (Result-cases (updates_for calculate hot_state a (pending a))) [
    | inl (e, failed) ↦ rw (failed, drain) (fails e refl refl)
    | inr (us, done) ↦
        rw (done, drain)
          (drains us refl (updates_for-Updates (pending a) us done) (refl, refl) (pop_pending a h))
  ]

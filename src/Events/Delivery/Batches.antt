-- ===== src/Events/Delivery/Batches.antt =====
-- A whole call of `OutboxPublisher.publish_pending` in packages/events/outbox.py.
use dayjaview.Prelude.{
  ℕ, zero, suc, ◌+◌, ◌≤◌, ◌≡◌, ◌≢◌, inl, inr, refl, ap, sym, subst, ◌∙◌, Option, none, some, List,
  [], ◌∷◌, map, String, String-discrete, arith, All, All-imp, length,
}
use dayjaview.Prelude.Dict.{Dict, get}
use dayjaview.Prelude.Exec.{Result, ok}
use dayjaview.Events.Outbox.{OutboxMessage, OutboxRecord, published}
use dayjaview.Events.Store.{EventStore}
use dayjaview.Events.Delivery.{
  is_eligible, take_records, sort_records, eligible, deliver_all, publish_pending, relay,
  PublishBatchResult, OutboxPublisher, claim, claim_all, to_claim, claim_pending,
}
use dayjaview.Events.Delivery.Claims.{IsOutbox, IsClaimable, claim_all-Left, to_claim-IsClaimable}
use dayjaview.Events.Delivery.Leases.{All-map, claim_all-get}
use dayjaview.Events.Delivery.Publishing.{
  Keeps, Keeps-trans, record_at, IsBatch, deliver_all-IsBatch,
}

length-map : {A B : Type 0} (f : A → B) (xs : List A) → length (map f xs) ≡ length xs
length-map f [] = refl
length-map f (x ∷ xs) = omega (arith, length-map f xs)

length-take_records : (n : ℕ) (rs : List OutboxRecord) → length (take_records n rs) ≤ n
unfolding take_records
length-take_records zero rs = omega arith
length-take_records (suc n) [] = omega arith
length-take_records (suc n) (r ∷ rs) = omega (arith, length-take_records n rs)

claimable-ne-published :
    (now : ℕ) (outbox : Dict String OutboxRecord) (x : OutboxRecord)
    → IsClaimable now outbox x
    → x.status ≢ published
unfolding is_eligible
claimable-ne-published now outbox x h q = ground arith

module _ (s : EventStore) (now limit lease : ℕ) (h : IsOutbox s.outbox) where
  abbrev pub batch : List OutboxRecord
  batch = to_claim now limit s.outbox

  abbrev pub after : EventStore
  after = record s { outbox = claim_all now lease batch s.outbox }

  claimable : All (IsClaimable now s.outbox) batch
  claimable = to_claim-IsClaimable now s.outbox limit h

  after-Keeps : Keeps s after
  after-Keeps = record {
    present = λ id here. elim (claim_all-Left now s.outbox lease id batch s.outbox claimable) [
      | inl same ↦ λ q. here (sym same ∙ q)
      | inr (x, fits, own, now_is) ↦ ground arith
    ];
    final = λ id r here done. elim (claim_all-Left now s.outbox lease id batch s.outbox claimable) [
      | inl same ↦ same ∙ here
      | inr (x, fits, own, now_is) ↦
          let found : get String-discrete id s.outbox ≡ some x =
            subst (λ i. get String-discrete i s.outbox ≡ some x) own fits.0 in
          let same : x ≡ r = ground arith in
          absurd (claimable-ne-published now s.outbox x fits (ap (λ y. y.status) same ∙ done))
    ];
  }

  batch_few : length batch ≤ limit
  unfolding to_claim
  batch_few = length-take_records limit (sort_records (eligible now s.outbox))

  batch-present :
      All (λ r. record_at r.message.message_id after ≢ none) (map (claim now lease) batch)
  batch-present =
      All-map (λ r. record_at r.message.message_id after ≢ none) (claim now lease) batch
        (All-imp batch (λ r held q. ground arith)
          (claim_all-get now lease s.outbox batch s.outbox claimable))

pub claim_pending-eq :
    (s : EventStore) (now limit lease : ℕ) (h : IsOutbox s.outbox)
    → 1 ≤ limit
    → claim_pending now limit lease s
      ≡ (ok (map (claim now lease) (batch s now limit lease h)), after s now limit lease h)
unfolding claim_pending
claim_pending-eq s now limit lease h positive = ground arith

-- What is promised of a call that came back with `x`.
abbrev pub Balances : EventStore → ℕ → Result PublishBatchResult × EventStore → Type 0
Balances s limit x =
    ((b : PublishBatchResult) × (x.0 ≡ ok b)
      × (b.published + b.failed ≡ b.claimed)
      × (b.claimed ≤ limit))
    × Keeps s x.1

module _ {World : Type 0} (publish : OutboxMessage → World → Option String × World)
    (p : OutboxPublisher) (now limit : ℕ) (s : EventStore) (world : World) where
  relay-Balances :
      (t : EventStore) (rs : List OutboxRecord) (x : Result (ℕ × ℕ) × EventStore)
      → (deliver_all publish p now rs (0, 0) t world).0 ≡ x
      → IsBatch t (0 + 0 + length rs) x
      → length rs ≤ limit
      → Keeps s t
      → Balances s limit (relay publish p now world (ok rs, t)).0
  unfolding relay
  relay-Balances t rs x same ((c, ended, adds), keeps) few kept =
      let end : (deliver_all publish p now rs (0, 0) t world).0.0 ≡ ok c =
        ap (λ y. y.0) same ∙ ended in
      (
        (
          record { claimed = length rs; published = c.0; failed = c.1 },
          rw (end, relay) refl,
          omega (arith, adds),
          few,
        ),
        Keeps-trans s t (deliver_all publish p now rs (0, 0) t world).0.1 kept
            (subst (λ y. Keeps t y) (sym (ap (λ y. y.1) same)) keeps),
      )

  -- With a limit of 1 or more, on an outbox with one entry for each message: whatever the transport
  -- answers, the call returns; what it published and what failed add up to what it claimed, which is
  -- at most the limit; no message leaves the outbox, and the record of a message that was published
  -- before stays as it was.
  pub publish_pending-Balances :
      1 ≤ limit
      → IsOutbox s.outbox
      → Balances s limit (publish_pending publish p now limit s world).0
  unfolding publish_pending
  publish_pending-Balances positive h =
      let rs = map (claim now p.lease) (batch s now limit p.lease h) in
      let t = after s now limit p.lease h in
      let result =
        deliver_all-IsBatch publish p now rs (0, 0) t world (batch-present s now limit p.lease h) in
      let settled =
        relay-Balances t rs (deliver_all publish p now rs (0, 0) t world).0 refl result
          (subst (λ n. n ≤ limit)
            (sym (length-map (claim now p.lease) (batch s now limit p.lease h)))
            (batch_few s now limit p.lease h))
          (after-Keeps s now limit p.lease h) in
      let same : publish_pending publish p now limit s world
          ≡ relay publish p now world (claim_pending now limit p.lease s) =
        ground arith in
      subst (λ y. Balances s limit y.0) (sym same)
        (subst (λ y. Balances s limit (relay publish p now world y).0)
          (sym (claim_pending-eq s now limit p.lease h positive)) settled)

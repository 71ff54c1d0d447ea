-- ===== src/Events/Delivery/Answers.antt =====
-- What `OutboxPublisher.publish_pending` of packages/events/outbox.py makes of each answer of the
-- transport.
use dayjaview.Prelude.{
  refl, ℕ, zero, suc, ◌+◌, ◌≤◌, Bool, true, false, Option, none, some, List, [], ◌∷◌, map, String,
  String-discrete, ◌≡◌, ◌≢◌, sym, ap, ◌∙◌, subst, arith, All, All-imp, Bool-cases, insert_by,
  insert_by-All, inl, sort_by, if◌then◌else◌, inr, sort_by-All,
}
use dayjaview.Prelude.Dict.{Dict, Distinct, get, put, All-get, get-put_self, get-put_ne}
use dayjaview.Prelude.Exec.{Result, ok}
use dayjaview.Events.Outbox.{OutboxMessage, OutboxRecord, claimed, pending, published}
use dayjaview.Events.Store.{EventStore}
use dayjaview.Events.Delivery.{
  OutboxPublisher, PublishBatchResult, as_published, as_released, change_unpublished, claim,
  claim_pending, comes_first, deliver, deliver_all, eligible, is_eligible, publish_pending, relay,
  sort_records, take_records, to_claim, sort_by,
}
use dayjaview.Events.Delivery.Claims.{
  IsClaimable, IsOutbox, eligible-IsClaimable, take_records-All, to_claim-IsClaimable,
}
use dayjaview.Events.Delivery.Leases.{All-map, claim_all-get}
use dayjaview.Events.Delivery.Publishing.{record_at}
use dayjaview.Events.Delivery.Batches.{
  Balances, after, batch, claim_pending-eq, publish_pending-Balances,
}

-- Records of different messages.
abbrev IsOther : OutboxRecord → OutboxRecord → Type 0
IsOther a b = a.message.message_id ≢ b.message.message_id

abbrev pub Apart : List OutboxRecord → Type 0
Apart [] = Unit {0}
Apart (r ∷ rs) = All (IsOther r) rs × Apart rs

eligible-Apart :
    (now : ℕ) (d : Dict String OutboxRecord)
    → Distinct String-discrete d
    → All (λ e. e.0 ≡ e.1.message.message_id) d
    → Apart (eligible now d)
unfolding eligible
eligible-Apart now [] h k = tt
eligible-Apart now ((j, r) ∷ d) h k =
    let rest = eligible-Apart now d h.1 k.1 in
    let others : All (IsOther r) (eligible now d) =
      All-imp (eligible now d) (λ b q same. never b q same)
        (eligible-IsClaimable now d d (All-get String-discrete d h.1) k.1) in
    elim (Bool-cases (is_eligible now r)) [
      | inl fits ↦ rw (fits) (others, rest)
      | inr not_now ↦ rw (not_now) rest
    ]
  where
    never :
        (b : OutboxRecord) → IsClaimable now d b → r.message.message_id ≡ b.message.message_id → ⊥
    never b q same =
        let found : get String-discrete j d ≡ some b =
          subst (λ i. get String-discrete i d ≡ some b) (sym (k.0 ∙ same)) q.0 in
        ground (arith, found, h.0)

insert_by-Apart :
    (a : OutboxRecord) (xs : List OutboxRecord)
    → All (IsOther a) xs
    → Apart xs
    → Apart (insert_by comes_first a xs)
unfolding insert_by
insert_by-Apart a [] h hs = (tt, tt)
insert_by-Apart a (x ∷ xs) h hs =
    elim (comes_first a x)
      as (λ b. Apart (if b then a ∷ x ∷ xs else x ∷ insert_by comes_first a xs)) [
        | true ↦ (h, hs)
        | false ↦ (
          insert_by-All comes_first (IsOther x) a xs (λ q. h.0 (sym q)) hs.0,
          insert_by-Apart a xs h.1 hs.1,
        )
      ]

sort_records-Apart : (rs : List OutboxRecord) → Apart rs → Apart (sort_records rs)
unfolding sort_records sort_by
sort_records-Apart [] h = tt
sort_records-Apart (r ∷ rs) h =
    insert_by-Apart r (sort_records rs) (sort_by-All comes_first (IsOther r) rs h.0)
      (sort_records-Apart rs h.1)

take_records-Apart : (n : ℕ) (rs : List OutboxRecord) → Apart rs → Apart (take_records n rs)
unfolding take_records
take_records-Apart zero rs h = tt
take_records-Apart (suc n) [] h = tt
take_records-Apart (suc n) (r ∷ rs) h =
    (take_records-All (IsOther r) n rs h.0, take_records-Apart n rs h.1)

to_claim-Apart :
    (now limit : ℕ) (outbox : Dict String OutboxRecord)
    → IsOutbox outbox
    → Apart (to_claim now limit outbox)
unfolding to_claim
to_claim-Apart now limit outbox h =
    take_records-Apart limit (sort_records (eligible now outbox))
      (sort_records-Apart (eligible now outbox) (eligible-Apart now outbox h.distinct h.keyed))

claim-Apart : (now lease : ℕ) (rs : List OutboxRecord) → Apart rs → Apart (map (claim now lease) rs)
claim-Apart now lease [] h = tt
claim-Apart now lease (r ∷ rs) h =
    (All-map (IsOther (claim now lease r)) (claim now lease) rs h.0, claim-Apart now lease rs h.1)

module _ {World : Type 0} (publish : OutboxMessage → World → Option String × World)
    (p : OutboxPublisher) (now : ℕ) where
  -- The record of the message, after the answer: published now, or pending with the error until the
  -- delay has passed.
  abbrev pub IsAnswered : EventStore → OutboxRecord → Option String → Type 0
  IsAnswered s r none =
      (x : OutboxRecord) × (record_at r.message.message_id s ≡ some x)
      × (x.message ≡ r.message)
      × (x.status ≡ published)
      × (x.published_at ≡ some now)
  IsAnswered s r (some error) =
      (x : OutboxRecord) × (record_at r.message.message_id s ≡ some x)
      × (x.message ≡ r.message)
      × (x.status ≡ pending)
      × (x.available_at ≡ now + p.retry_delay)
      × (x.claimed_until ≡ none)
      × (x.last_error ≡ some error)

  -- Each record of the batch, by what the transport answers to its message, after those before it.
  abbrev pub Answered : EventStore → List OutboxRecord → World → Type 0
  Answered s [] world = Unit {0}
  Answered s (r ∷ rs) world =
      IsAnswered s r (publish r.message world).0 × Answered s rs (publish r.message world).1

  abbrev changed : OutboxRecord → Option String → OutboxRecord
  changed r none = as_published now r
  changed r (some error) = as_released (now + p.retry_delay) error r

  abbrev is_sent : Option String → Bool
  is_sent none = true
  is_sent (some error) = false

  abbrev step : OutboxRecord → EventStore → World → EventStore
  step r s world = record s {
    outbox =
        put String-discrete r.message.message_id (changed r (publish r.message world).0) s.outbox;
  }

  abbrev IsHeld : EventStore → OutboxRecord → Type 0
  IsHeld s r = (record_at r.message.message_id s ≡ some r) × (r.status ≡ claimed)

  deliver-step :
      (r : OutboxRecord) (s : EventStore) (world : World)
      → IsHeld s r
      → deliver publish p now r s world
        ≡ ((ok (is_sent (publish r.message world).0), step r s world), (publish r.message world).1)
  unfolding deliver change_unpublished
  deliver-step r s world h = ground arith

  abbrev next : ℕ × ℕ → Option String → ℕ × ℕ
  next counts none = (counts.0 + 1, counts.1)
  next counts (some error) = (counts.0, counts.1 + 1)

  deliver_all-step :
      (r : OutboxRecord) (rs : List OutboxRecord) (counts : ℕ × ℕ) (s : EventStore) (world : World)
      → IsHeld s r
      → deliver_all publish p now (r ∷ rs) counts s world
        ≡ deliver_all publish p now rs
            (next counts (publish r.message world).0)
            (step r s world)
            (publish r.message world).1
  unfolding deliver_all
  deliver_all-step r rs counts s world h = by_answer (publish r.message world).0 refl
    where
      by_answer :
          (answer : Option String)
          → (publish r.message world).0 ≡ answer
          → deliver_all publish p now (r ∷ rs) counts s world
            ≡ deliver_all publish p now rs
                (next counts (publish r.message world).0)
                (step r s world)
                (publish r.message world).1
      by_answer none q = ground (arith, deliver-step r s world h)
      by_answer (some error) q = ground (arith, deliver-step r s world h)

  IsHeld-step :
      (r b : OutboxRecord) (s : EventStore) (world : World)
      → IsOther r b
      → IsHeld s b
      → IsHeld (step r s world) b
  IsHeld-step r b s world other h = (
    get-put_ne String-discrete r.message.message_id b.message.message_id _ s.outbox other ∙ h.0,
    h.1,
  )

  All-step :
      (r : OutboxRecord) (rs : List OutboxRecord) (s : EventStore) (world : World)
      → All (IsOther r) rs
      → All (IsHeld s) rs
      → All (IsHeld (step r s world)) rs
  All-step r [] s world others held = tt
  All-step r (b ∷ rs) s world others held =
      (IsHeld-step r b s world others.0 held.0, All-step r rs s world others.1 held.1)

  deliver_all-elsewhere :
      (id : String) (rs : List OutboxRecord) (counts : ℕ × ℕ) (s : EventStore) (world : World)
      → All (λ b. id ≢ b.message.message_id) rs
      → All (IsHeld s) rs
      → Apart rs
      → record_at id (deliver_all publish p now rs counts s world).0.1 ≡ record_at id s
  unfolding deliver_all
  deliver_all-elsewhere id [] counts s world others held apart = refl
  deliver_all-elsewhere id (r ∷ rs) counts s world others held apart =
      ap (λ x. record_at id x.0.1) (deliver_all-step r rs counts s world held.0)
      ∙ deliver_all-elsewhere id rs _ (step r s world) _ others.1
          (All-step r rs s world apart.0 held.1) apart.1
      ∙ get-put_ne String-discrete r.message.message_id id _ s.outbox (λ q. others.0 (sym q))

  changed-IsAnswered :
      (r : OutboxRecord) (s : EventStore) (answer : Option String)
      → record_at r.message.message_id s ≡ some (changed r answer)
      → IsAnswered s r answer
  changed-IsAnswered r s none h = (as_published now r, h, refl, refl, refl)
  changed-IsAnswered r s (some error) h =
      (as_released (now + p.retry_delay) error r, h, refl, refl, refl, refl, refl)

  deliver_all-Answered :
      (rs : List OutboxRecord) (counts : ℕ × ℕ) (s : EventStore) (world : World)
      → All (IsHeld s) rs
      → Apart rs
      → Answered (deliver_all publish p now rs counts s world).0.1 rs world
  unfolding deliver_all
  deliver_all-Answered [] counts s world held apart = tt
  deliver_all-Answered (r ∷ rs) counts s world held apart =
      let answer = (publish r.message world).0 in
      let still = All-step r rs s world apart.0 held.1 in
      let same = deliver_all-step r rs counts s world held.0 in
      let own =
        deliver_all-elsewhere r.message.message_id rs (next counts answer) (step r s world)
          (publish r.message world).1 apart.0 still apart.1
        ∙ get-put_self String-discrete r.message.message_id (changed r answer) s.outbox in
      subst (λ x. Answered x.0.1 (r ∷ rs) world) (sym same)
        (
          changed-IsAnswered r
              (deliver_all publish p now rs (next counts answer) (step r s world)
                (publish r.message world).1).0.1
              answer own,
          deliver_all-Answered rs (next counts answer) (step r s world) (publish r.message world).1
              still apart.1,
        )

module _ {World : Type 0} (publish : OutboxMessage → World → Option String × World)
    (p : OutboxPublisher) (now limit : ℕ) (s : EventStore) (world : World) where
  -- What is promised of a call that came back with `x`: its counts, and of each record that it
  -- claimed what became of it.
  pub record Settles (x : Result PublishBatchResult × EventStore) : Type 0 where
    pub balances : Balances s limit x
    pub records : List OutboxRecord
    pub left : EventStore
    pub claims : claim_pending now limit p.lease s ≡ (ok records, left)
    pub answered : Answered publish p now x.1 records world
    pub untouched :
        (id : String)
        → All (λ r. id ≢ r.message.message_id) records
        → record_at id x.1 ≡ record_at id left

  -- With a limit of 1 or more, on an outbox with one entry for each message: whatever the transport
  -- answers, the call returns. What it published and what failed add up to what it claimed, which is
  -- at most the limit. Each message that it claimed is published if the transport took it, and is
  -- pending again, with the error and until the delay of the publisher has passed, if the transport
  -- raised; the entries of the others stay as claiming left them. No entry leaves the outbox, and the
  -- record of a message that was published before stays as it was.
  pub publish_pending-Settles :
      1 ≤ limit → IsOutbox s.outbox → Settles (publish_pending publish p now limit s world).0
  unfolding publish_pending relay
  publish_pending-Settles positive h =
      let rs = map (claim now p.lease) (batch s now limit p.lease h) in
      let t = after s now limit p.lease h in
      let claims = claim_pending-eq s now limit p.lease h positive in
      let held : All (IsHeld publish p now t) rs =
        All-map (IsHeld publish p now t) (claim now p.lease) (batch s now limit p.lease h) (
          All-imp (batch s now limit p.lease h) (λ r found. (found, refl))
            (claim_all-get now p.lease s.outbox (batch s now limit p.lease h) s.outbox
              (to_claim-IsClaimable now s.outbox limit h))) in
      let apart : Apart rs =
        claim-Apart now p.lease (batch s now limit p.lease h)
          (to_claim-Apart now limit s.outbox h) in
      let last : (publish_pending publish p now limit s world).0.1
          ≡ (deliver_all publish p now rs (0, 0) t world).0.1 =
        ground (arith, claims) in
      record {
        balances = publish_pending-Balances publish p now limit s world positive h;
        records = rs;
        left = t;
        claims = claims;
        answered =
            subst (λ y. Answered publish p now y rs world) (sym last)
              (deliver_all-Answered publish p now rs (0, 0) t world held apart);
        untouched = λ id others.
            subst (λ y. record_at id y ≡ record_at id t) (sym last)
              (deliver_all-elsewhere publish p now id rs (0, 0) t world others held apart);
      }

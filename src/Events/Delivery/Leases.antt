-- ===== src/Events/Delivery/Leases.antt =====
-- The leases of `claim_pending` in packages/events/memory.py: who holds a message, and for how long.
use dayjaview.Prelude.{
  ℕ, ◌+◌, ◌<◌, ◌≡◌, ◌≢◌, inl, inr, refl, ap, sym, subst, ◌∙◌, true, some, List, [], ◌∷◌, map,
  String, String-discrete, arith, All, All-imp,
}
use dayjaview.Prelude.Dict.{Dict, get, put, put-All, put-Distinct, get-put_self}
use dayjaview.Prelude.Exec.{ok}
use dayjaview.Events.Outbox.{OutboxRecord}
use dayjaview.Events.Store.{EventStore}
use dayjaview.Events.Delivery.{is_eligible, claim, claim_all, to_claim, claim_pending}
use dayjaview.Events.Delivery.Claims.{IsOutbox, IsClaimable, claim_all-Left, to_claim-IsClaimable}

pub All-map :
    {A B : Type 0} (P : B → Type 0) (f : A → B) (xs : List A)
    → All (λ x. P (f x)) xs
    → All P (map f xs)
All-map P f [] h = tt
All-map P f (x ∷ xs) h = (h.0, All-map P f xs h.1)

-- Every record that the loop claims is stored as claimed.
pub claim_all-get :
    (now lease : ℕ) (outbox : Dict String OutboxRecord) (rs : List OutboxRecord)
    (d : Dict String OutboxRecord)
    → All (IsClaimable now outbox) rs
    → All
        (λ r.
          get String-discrete r.message.message_id (claim_all now lease rs d)
          ≡ some (claim now lease r))
        rs
unfolding claim_all
claim_all-get now lease outbox [] d h = tt
claim_all-get now lease outbox (r ∷ rs) d h =
    let id = r.message.message_id in
    let d' = put String-discrete id (claim now lease r) d in
    (
      elim (claim_all-Left now outbox lease id rs d' h.1) [
        | inl same ↦ same ∙ get-put_self String-discrete id (claim now lease r) d
        | inr (x, claimable, here, after) ↦
            let found : get String-discrete id outbox ≡ some x =
              subst (λ i. get String-discrete i outbox ≡ some x) here claimable.0 in
            let same : x ≡ r = ground (arith, found, h.0) in
            after ∙ ap (λ y. some (claim now lease y)) same
      ],
      claim_all-get now lease outbox rs d' h.1,
    )

-- A record whose lease still runs is not handed out.
leased-apart :
    (now lease later : ℕ) (outbox : Dict String OutboxRecord) (a b : OutboxRecord)
    → later < now + lease
    → get String-discrete a.message.message_id outbox ≡ some (claim now lease a)
    → IsClaimable later outbox b
    → a.message.message_id ≢ b.message.message_id
unfolding is_eligible
leased-apart now lease later outbox a b early held claimable q =
    let found : get String-discrete a.message.message_id outbox ≡ some b =
      subst (λ i. get String-discrete i outbox ≡ some b) (sym q) claimable.0 in
    let same : b ≡ claim now lease a = ground (arith, found, held) in
    let fits : is_eligible later (claim now lease a) ≡ true =
      subst (λ x. is_eligible later x ≡ true) same claimable.1 in
    ground arith

claim_all-IsOutbox :
    (now lease : ℕ) (rs : List OutboxRecord) (d : Dict String OutboxRecord)
    → IsOutbox d
    → IsOutbox (claim_all now lease rs d)
unfolding claim_all
claim_all-IsOutbox now lease [] d h = h
claim_all-IsOutbox now lease (r ∷ rs) d h =
    let id = r.message.message_id in
    claim_all-IsOutbox now lease rs (put String-discrete id (claim now lease r) d) (record {
      distinct = put-Distinct String-discrete id (claim now lease r) d h.distinct;
      keyed =
          put-All String-discrete (λ e. e.0 ≡ e.1.message.message_id) id (claim now lease r) d refl
            h.keyed;
    })

pub claim_pending-eq-ok :
    (s s' : EventStore) (now limit lease : ℕ) (rs : List OutboxRecord)
    → claim_pending now limit lease s ≡ (ok rs, s')
    → (rs ≡ map (claim now lease) (to_claim now limit s.outbox))
      × (s'.outbox ≡ claim_all now lease (to_claim now limit s.outbox) s.outbox)
unfolding claim_pending
claim_pending-eq-ok s s' now limit lease rs h = ground arith

-- Where each message has one entry in the outbox, a claim that comes before the leases of an earlier
-- claim are over hands out none of the messages of the earlier claim.
pub claim_exclusive :
    (s s' s'' : EventStore) (now limit lease later limit' lease' : ℕ)
    (first second : List OutboxRecord)
    → IsOutbox s.outbox
    → claim_pending now limit lease s ≡ (ok first, s')
    → claim_pending later limit' lease' s' ≡ (ok second, s'')
    → later < now + lease
    → All (λ a. All (λ b. a.message.message_id ≢ b.message.message_id) second) first
claim_exclusive s s' s'' now limit lease later limit' lease' first second h p p' early =
    let (what, after) = claim_pending-eq-ok s s' now limit lease first p in
    let (what', after') = claim_pending-eq-ok s' s'' later limit' lease' second p' in
    let rs = to_claim now limit s.outbox in
    let rs' = to_claim later limit' s'.outbox in
    let still : IsOutbox s'.outbox =
      subst IsOutbox (sym after) (claim_all-IsOutbox now lease rs s.outbox h) in
    let free : All (IsClaimable later s'.outbox) rs' =
      to_claim-IsClaimable later s'.outbox limit' still in
    let held =
      claim_all-get now lease s.outbox rs s.outbox (to_claim-IsClaimable now s.outbox limit h) in
    subst (λ xs. All (λ a. All (λ b. a.message.message_id ≢ b.message.message_id) second) xs)
      (sym what)
      (All-map (λ a. All (λ b. a.message.message_id ≢ b.message.message_id) second)
        (claim now lease) rs
        (All-imp rs
          (λ a kept.
            subst (λ xs. All (λ b. a.message.message_id ≢ b.message.message_id) xs) (sym what')
              (All-map (λ b. a.message.message_id ≢ b.message.message_id) (claim later lease') rs'
                (All-imp rs'
                  (λ b. leased-apart now lease later s'.outbox a b early (
                    subst
                      (λ d. get String-discrete a.message.message_id d ≡ some (claim now lease a))
                      (sym after) kept))
                  free)))
          held))

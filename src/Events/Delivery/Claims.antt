-- ===== src/Events/Delivery/Claims.antt =====
-- What `claim_pending` of packages/events/memory.py hands out.
use dayjaview.Prelude.{
  sort_by-All, ℕ, zero, suc, ◌≡◌, ◌⊎◌, inl, inr, refl, subst, ◌∙◌, true, Option, some, List, [],
  ◌∷◌, String, String-discrete, arith, All, Bool-cases,
}
use dayjaview.Prelude.Dict.{Dict, get, put, Distinct, All-get, get-put_self, get-put_ne}
use dayjaview.Events.Outbox.{OutboxRecord}
use dayjaview.Events.Delivery.{
  is_eligible, eligible, comes_first, sort_records, take_records, claim, claim_all, to_claim,
}

-- Each message id is there once, and leads to the record of that message.
pub record IsOutbox (outbox : Dict String OutboxRecord) : Type 0 where
  pub distinct : Distinct String-discrete outbox
  pub keyed : All (λ e. e.0 ≡ e.1.message.message_id) outbox

-- A record that is in the outbox and that may be claimed.
abbrev pub IsClaimable : ℕ → Dict String OutboxRecord → OutboxRecord → Type 0
IsClaimable now outbox r =
    (get String-discrete r.message.message_id outbox ≡ some r) × (is_eligible now r ≡ true)

pub take_records-All :
    (P : OutboxRecord → Type 0) (n : ℕ) (rs : List OutboxRecord)
    → All P rs
    → All P (take_records n rs)
unfolding take_records
take_records-All P zero rs h = tt
take_records-All P (suc n) [] h = tt
take_records-All P (suc n) (r ∷ rs) h = (h.0, take_records-All P n rs h.1)

module _ (now : ℕ) (outbox : Dict String OutboxRecord) where
  pub eligible-IsClaimable :
      (d : Dict String OutboxRecord)
      → All (λ e. get String-discrete e.0 outbox ≡ some e.1) d
      → All (λ e. e.0 ≡ e.1.message.message_id) d
      → All (IsClaimable now outbox) (eligible now d)
  unfolding eligible
  eligible-IsClaimable [] g k = tt
  eligible-IsClaimable ((j, r) ∷ d) g k =
      let rest = eligible-IsClaimable d g.1 k.1 in
      let found : get String-discrete r.message.message_id outbox ≡ some r =
        subst (λ i. get String-discrete i outbox ≡ some r) k.0 g.0 in
      elim (Bool-cases (is_eligible now r)) [
        | inl fits ↦ rw (fits) ((found, fits), rest)
        | inr not_now ↦ rw (not_now) rest
      ]

  sort_records-All :
      (P : OutboxRecord → Type 0) (rs : List OutboxRecord) → All P rs → All P (sort_records rs)
  unfolding sort_records
  sort_records-All P rs h = sort_by-All comes_first P rs h

  pub to_claim-IsClaimable :
      (limit : ℕ) → IsOutbox outbox → All (IsClaimable now outbox) (to_claim now limit outbox)
  unfolding to_claim
  to_claim-IsClaimable limit h =
      take_records-All (IsClaimable now outbox) limit (sort_records (eligible now outbox)) (
        sort_records-All (IsClaimable now outbox) (eligible now outbox)
          (eligible-IsClaimable outbox (All-get String-discrete outbox h.distinct) h.keyed))

  -- An entry of the outbox that the loop leaves behind.
  abbrev pub Left : ℕ → String → Dict String OutboxRecord → Option OutboxRecord → Type 0
  Left lease id before after =
      (after ≡ get String-discrete id before)
      ⊎ ((r : OutboxRecord) × IsClaimable now outbox r
          × (r.message.message_id ≡ id)
          × (after ≡ some (claim now lease r)))

  pub claim_all-Left :
      (lease : ℕ) (id : String) (rs : List OutboxRecord) (d : Dict String OutboxRecord)
      → All (IsClaimable now outbox) rs
      → Left lease id d (get String-discrete id (claim_all now lease rs d))
  unfolding claim_all
  claim_all-Left lease id [] d h = inl refl
  claim_all-Left lease id (r ∷ rs) d h =
      let d' = put String-discrete r.message.message_id (claim now lease r) d in
      elim (claim_all-Left lease id rs d' h.1) [
        | inr found ↦ inr found
        | inl same ↦ elim (String-discrete r.message.message_id id) [
          | yes here ↦ inr (
            r,
            h.0,
            here,
            ground (
              arith,
              same,
              get-put_self String-discrete r.message.message_id (claim now lease r) d,
            ),
          )
          | no there ↦ inl (
              same ∙ get-put_ne String-discrete r.message.message_id id (claim now lease r) d there)
        ]
      ]

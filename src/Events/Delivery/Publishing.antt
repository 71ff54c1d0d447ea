-- ===== src/Events/Delivery/Publishing.antt =====
-- What `OutboxPublisher.publish_pending` of packages/events/outbox.py makes of a batch.
use dayjaview.Prelude.{
  ℕ, suc, ◌+◌, ◌≡◌, ◌≢◌, inl, inr, refl, sym, subst, ◌∙◌, Bool, true, false, Option, none, some,
  List, [], ◌∷◌, String, String-discrete, arith, All, All-imp, length, Option-cases,
}
use dayjaview.Prelude.Dict.{get, get-put, get-put_ne}
use dayjaview.Prelude.Exec.{Result, ok, Exec, ◌>>=◌, pure}
use dayjaview.Events.Outbox.{OutboxMessage, OutboxRecord, published}
use dayjaview.Events.Store.{EventStore}
use dayjaview.Events.Delivery.{
  change_unpublished, as_published, as_released, deliver, deliver_all, OutboxPublisher, Exec,
}

abbrev pub record_at : String → EventStore → Option OutboxRecord
record_at id s = get String-discrete id s.outbox

-- A message that is in the outbox stays there, and a published one keeps its record.
pub record Keeps (s s' : EventStore) : Type 0 where
  pub present : (id : String) → record_at id s ≢ none → record_at id s' ≢ none
  pub final :
      (id : String) (r : OutboxRecord)
      → record_at id s ≡ some r
      → r.status ≡ published
      → record_at id s' ≡ some r

Keeps-refl : (s : EventStore) → Keeps s s
Keeps-refl s = record { present = λ id h. h; final = λ id r h p. h }

pub Keeps-trans : (a b c : EventStore) → Keeps a b → Keeps b c → Keeps a c
Keeps-trans a b c f g = record {
  present = λ id h. g.present id (f.present id h);
  final = λ id r h p. g.final id r (f.final id r h p) p;
}

module _ (id : String) (change : OutboxRecord → OutboxRecord) (s : EventStore) where
  change_present : record_at id s ≢ none → (change_unpublished id change s).0 ≡ ok tt
  unfolding change_unpublished
  change_present h = ground arith

  change-Keeps : Keeps s (change_unpublished id change s).1
  unfolding change_unpublished
  change-Keeps = record {
    present = λ j h. elim (Option-cases (record_at id s)) [
      | inl missing ↦ ground arith
      | inr (x, found) ↦ ground (arith, get-put String-discrete id j (change x) s.outbox)
    ];
    final = λ j r h p. elim (Option-cases (record_at id s)) [
      | inl missing ↦ ground arith
      | inr (x, found) ↦ elim (String-discrete id j) [
        | yes same ↦
            let own : x ≡ r =
              ground (arith, subst (λ i. get String-discrete i s.outbox ≡ some r) (sym same) h) in
            ground arith
        | no other ↦ ground (arith, get-put_ne String-discrete id j (change x) s.outbox other)
      ]
    ];
  }

-- A turn that changes the record `id` and then answers `b`.
abbrev turn : String → (OutboxRecord → OutboxRecord) → Bool → Exec EventStore Bool
turn id change b = change_unpublished id change >>= λ _. pure b

abbrev IsTurn : EventStore → Result Bool × EventStore → Type 0
IsTurn s x = ((b : Bool) × (x.0 ≡ ok b)) × Keeps s x.1

turn-IsTurn :
    (id : String) (change : OutboxRecord → OutboxRecord) (b : Bool) (s : EventStore)
    → record_at id s ≢ none
    → IsTurn s (turn id change b s)
turn-IsTurn id change b s here =
    let done = change_present id change s here in
    let kept = change-Keeps id change s in
    let same : turn id change b s ≡ (ok b, (change_unpublished id change s).1) = ground arith in
    subst (IsTurn s) (sym same) ((b, refl), kept)

module _ {World : Type 0} (publish : OutboxMessage → World → Option String × World)
    (p : OutboxPublisher) (now : ℕ) where
  deliver-IsTurn :
      (r : OutboxRecord) (s : EventStore) (world : World)
      → record_at r.message.message_id s ≢ none
      → IsTurn s (deliver publish p now r s world).0
  unfolding deliver
  deliver-IsTurn r s world here =
      elim (publish r.message world).0
        as (λ answer.
          IsTurn s
            (elim answer as (λ x. (Result Bool × EventStore) × World) [
              | some error ↦ (
                turn r.message.message_id (as_released (now + p.retry_delay) error) false s,
                (publish r.message world).1,
              )
              | none ↦
                  (turn r.message.message_id (as_published now) true s, (publish r.message world).1)
            ]).0) [
              | none ↦ turn-IsTurn r.message.message_id (as_published now) true s here
              | some error ↦
                  turn-IsTurn r.message.message_id (as_released (now + p.retry_delay) error) false s
                    here
            ]

-- The loop ended with counts that add up to `total`.
abbrev pub IsBatch : EventStore → ℕ → Result (ℕ × ℕ) × EventStore → Type 0
IsBatch s total x = ((n : ℕ × ℕ) × (x.0 ≡ ok n) × (n.0 + n.1 ≡ total)) × Keeps s x.1

pub IsBatch-after :
    (s t : EventStore) (n m : ℕ) (x : Result (ℕ × ℕ) × EventStore)
    → Keeps s t
    → n ≡ m
    → IsBatch t n x
    → IsBatch s m x
IsBatch-after s t n m x kept same ((c, ended, adds), keeps) =
    ((c, ended, adds ∙ same), Keeps-trans s t x.1 kept keeps)

module _ {World : Type 0} (publish : OutboxMessage → World → Option String × World)
    (p : OutboxPublisher) (now : ℕ) where
  pub deliver_all-IsBatch :
      (rs : List OutboxRecord) (counts : ℕ × ℕ) (s : EventStore) (world : World)
      → All (λ r. record_at r.message.message_id s ≢ none) rs
      → IsBatch s (counts.0 + counts.1 + length rs) (deliver_all publish p now rs counts s world).0
  unfolding deliver_all
  deliver_all-IsBatch [] counts s world here = ((counts, refl, omega arith), Keeps-refl s)
  deliver_all-IsBatch (r ∷ rs) counts s world here =
      let x = deliver publish p now r s world in
      let ((b, sent), kept) = deliver-IsTurn publish p now r s world here.0 in
      let still : All (λ y. record_at y.message.message_id x.0.1 ≢ none) rs =
        All-imp rs (λ y h. kept.present y.message.message_id h) here.1 in
      let total = counts.0 + counts.1 + suc (length rs) in
      (elim b
          as (λ b.
            x.0.0 ≡ ok b → IsBatch s total (deliver_all publish p now (r ∷ rs) counts s world).0) [
              | true ↦ λ q.
                  rw (q, deliver_all)
                    (IsBatch-after s x.0.1 ((counts.0 + 1) + counts.1 + length rs) total
                      (deliver_all publish p now rs (counts.0 + 1, counts.1) x.0.1 x.1).0 kept
                      (omega arith)
                      (deliver_all-IsBatch rs (counts.0 + 1, counts.1) x.0.1 x.1 still))
              | false ↦ λ q.
                  rw (q, deliver_all)
                    (IsBatch-after s x.0.1 (counts.0 + (counts.1 + 1) + length rs) total
                      (deliver_all publish p now rs (counts.0, counts.1 + 1) x.0.1 x.1).0 kept
                      (omega arith)
                      (deliver_all-IsBatch rs (counts.0, counts.1 + 1) x.0.1 x.1 still))
            ])
        sent

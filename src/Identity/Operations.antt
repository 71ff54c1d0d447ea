-- ===== src/Identity/Operations.antt =====
-- Sequences of calls of the repository in packages/identity/repository.py, and what stays spent.
use dayjaview.Prelude.{
  ℕ, Bool, true, false, Option, none, some, List, [], ◌∷◌, String, String-discrete, ite, ◌≡◌, ◌≢◌,
  arith, is_none, if◌then◌else◌, Option-cases, inl, inr,
}
use dayjaview.Prelude.Dict.{get, put, get-put, keep, get-keep, Distinct, Dict, filtered}
use dayjaview.Identity.Models.{
  RealtimeTicketRecord, SessionRecord, OAuthStateRecord, GoogleIdentity, Role, SavedRecord,
  SavedType,
}
use dayjaview.Identity.Repository.{
  IdentityRepository, consume_oauth_state, upsert_user, add_role, revoke_session,
  consume_realtime_ticket, upsert_saved, delete_saved, delete_account, purge_expired,
  store_oauth_state, store_session, store_realtime_ticket, get_user, SavedKey-discrete, saved_key,
}

-- The calls that change the repository.
pub data Operation : Type 0 where
  stores_state : OAuthStateRecord → Operation
  consumes_state : String → String → ℕ → Operation
  upserts_user : String → GoogleIdentity → ℕ → Operation
  adds_role : String → Role → Operation
  stores_session : SessionRecord → Operation
  revokes_session : String → ℕ → Operation
  stores_ticket : RealtimeTicketRecord → Operation
  consumes_ticket : String → String → ℕ → Operation
  upserts_saved : SavedRecord → Operation
  deletes_saved : String → SavedType → String → Operation
  deletes_account : String → Operation
  purges : ℕ → Operation

unfoldable pub perform : Operation → IdentityRepository → IdentityRepository
unfolding consume_oauth_state upsert_user add_role revoke_session consume_realtime_ticket
    upsert_saved delete_saved delete_account purge_expired
perform (stores_state r) repo = store_oauth_state r repo
perform (consumes_state state nonce now) repo = (consume_oauth_state state nonce now repo).1
perform (upserts_user proposed identity now) repo = (upsert_user proposed identity now repo).1
perform (adds_role user_id role) repo = (add_role user_id role repo).1
perform (stores_session r) repo = store_session r repo
perform (revokes_session hash now) repo = revoke_session hash now repo
perform (stores_ticket r) repo = store_realtime_ticket r repo
perform (consumes_ticket hash origin now) repo = (consume_realtime_ticket hash origin now repo).1
perform (upserts_saved r) repo = (upsert_saved r repo).1
perform (deletes_saved user_id t target_id) repo = (delete_saved user_id t target_id repo).1
perform (deletes_account user_id) repo = (delete_account user_id repo).1
perform (purges now) repo = (purge_expired now repo).1

unfoldable pub run : List Operation → IdentityRepository → IdentityRepository
run [] repo = repo
run (op ∷ ops) repo = run ops (perform op repo)

-- The operation stores no ticket with the digest.
abbrev pub StoresOtherTicket : String → Operation → Type 0
StoresOtherTicket hash (stores_ticket r) = r.ticket_hash ≢ hash
StoresOtherTicket hash _ = Unit

-- The operation stores no session with the digest.
abbrev pub StoresOtherSession : String → Operation → Type 0
StoresOtherSession hash (stores_session r) = r.token_hash ≢ hash
StoresOtherSession hash _ = Unit

-- There is no such ticket any more, or it is consumed.
abbrev pub SpentTicket : Option RealtimeTicketRecord → Type 0
SpentTicket none = Unit
SpentTicket (some r) = is_none r.consumed_at ≡ false

-- There is no such session any more, or it is revoked.
abbrev pub EndedSession : Option SessionRecord → Type 0
EndedSession none = Unit
EndedSession (some r) = is_none r.revoked_at ≡ false

abbrev pub ticket_at : String → IdentityRepository → Option RealtimeTicketRecord
ticket_at hash repo = get String-discrete hash repo.tickets

-- Where nothing has the property, and what is looked up has it, it still has after entries are
-- dropped.
pub keep-lookup :
    {B : Type 0} (test : B → Bool) (P : Option B → Type 0) (hash : String) (d : Dict String B)
    → P none
    → Distinct String-discrete d
    → P (get String-discrete hash d)
    → P (get String-discrete hash (keep test d))
keep-lookup test P hash d nothing keyed h =
    rw (get-keep String-discrete test hash d keyed) (by_case (get String-discrete hash d) h)
  where
    by_case : (o : Option _) → P o → P (filtered String-discrete test o)
    by_case none p = p
    by_case (some v) p = elim (test v) as (λ b. P (if b then some v else none)) [
      | true ↦ p
      | false ↦ nothing
    ]

-- Storing a value with the property keeps it.
pub put-lookup :
    {B : Type 0} (P : Option B → Type 0) (hash k : String) (v : B) (d : Dict String B)
    → (k ≡ hash → P (some v))
    → P (get String-discrete hash d)
    → P (get String-discrete hash (put String-discrete k v d))
put-lookup P hash k v d own h =
    rw (get-put String-discrete k hash v d)
      (elim (String-discrete k hash) as (λ x. P (ite x (some v) (get String-discrete hash d))) [
        | yes same ↦ own same
        | no other ↦ h
      ])

-- Sessions and tickets have each digest once.
pub record IsKeyed (repo : IdentityRepository) : Type 0 where
  pub sessions_keyed : Distinct String-discrete repo.sessions
  pub tickets_keyed : Distinct String-discrete repo.tickets

-- The sessions and the tickets are untouched.
abbrev pub Untouched : IdentityRepository → IdentityRepository → Type 0
Untouched repo after = (after.sessions ≡ repo.sessions) × (after.tickets ≡ repo.tickets)

module _ (repo : IdentityRepository) where
  pub consume_oauth_state-Untouched :
      (state nonce : String) (now : ℕ) → Untouched repo (consume_oauth_state state nonce now repo).1
  unfolding consume_oauth_state
  consume_oauth_state-Untouched state nonce now =
      elim (Option-cases (get String-discrete state repo.oauth_states)) [
        | inl absent ↦ ground arith
        | inr (r, found) ↦ ground arith
      ]

  pub upsert_user-Untouched :
      (proposed : String) (identity : GoogleIdentity) (now : ℕ)
      → Untouched repo (upsert_user proposed identity now repo).1
  unfolding upsert_user
  upsert_user-Untouched proposed identity now =
      elim (Option-cases (get String-discrete identity.subject repo.user_ids_by_subject)) [
        | inl new ↦ elim (Option-cases (get_user proposed repo)) [
          | inl free ↦ ground arith
          | inr (other, taken) ↦ ground arith
        ]
        | inr (id, known) ↦ elim (Option-cases (get_user id repo)) [
          | inl lost ↦ ground arith
          | inr (user, found) ↦ ground arith
        ]
      ]

  pub add_role-Untouched :
      (user_id : String) (role : Role) → Untouched repo (add_role user_id role repo).1
  unfolding add_role
  add_role-Untouched user_id role = elim (Option-cases (get_user user_id repo)) [
    | inl lost ↦ ground arith
    | inr (user, found) ↦ ground arith
  ]

  pub upsert_saved-Untouched : (r : SavedRecord) → Untouched repo (upsert_saved r repo).1
  unfolding upsert_saved
  upsert_saved-Untouched r =
      elim (Option-cases
        (get SavedKey-discrete (saved_key r.user_id r.saved_type r.target_id) repo.saved)) [
          | inl new ↦ ground arith
          | inr (x, found) ↦ ground arith
        ]

-- ===== src/Identity/Lifetimes.antt =====
-- Tickets that were used and sessions that ended, and the calls of packages/identity/repository.py
-- that follow.
use dayjaview.Prelude.{
  ℕ, false, Option, none, some, List, [], ◌∷◌, String, String-discrete, ◌≡◌, refl, sym, ap, subst,
  All, Option-cases, inl, inr, arith, is_none,
}
use dayjaview.Prelude.Dict.{get, Dict}
use dayjaview.Identity.Operations.{
  run, IsKeyed, perform, Operation, SpentTicket, EndedSession, StoresOtherTicket,
  StoresOtherSession, ticket_at, stores_state, consumes_state, consume_oauth_state-Untouched,
  upserts_user, upsert_user-Untouched, adds_role, add_role-Untouched, stores_session,
  revokes_session, put-lookup, stores_ticket, consumes_ticket, upserts_saved,
  upsert_saved-Untouched, deletes_saved, deletes_account, keep-lookup, purges,
}
use dayjaview.Identity.Repository.{
  consume_realtime_ticket, IdentityRepository, empty_repository, purge_expired, get_session,
  delete_saved, consumed_ticket, other_ticket, other_session, lives_ticket, lives_session,
}
use dayjaview.Identity.Sessions.{authenticate_hash}
use dayjaview.Identity.Spent.{perform-IsKeyed, revoke_cases, consume_cases, delete_cases}

module _ (hash : String) (repo : IdentityRepository) (keyed : IsKeyed repo) where
  -- `P` of a look-up in a dictionary that is equal to another.
  lookup_by :
      {B : Type 0} (P : Option B → Type 0) (d e : Dict String B)
      → e ≡ d
      → P (get String-discrete hash d)
      → P (get String-discrete hash e)
  lookup_by P d e same h = subst (λ x. P (get String-discrete hash x)) (sym same) h

  perform-SpentTicket :
      (op : Operation)
      → StoresOtherTicket hash op
      → SpentTicket (ticket_at hash repo)
      → SpentTicket (ticket_at hash (perform op repo))
  unfolding perform purge_expired delete_saved
  perform-SpentTicket (stores_state r) other h = h
  perform-SpentTicket (consumes_state state nonce now) other h =
      lookup_by SpentTicket _ _ (consume_oauth_state-Untouched repo state nonce now).1 h
  perform-SpentTicket (upserts_user proposed identity now) other h =
      lookup_by SpentTicket _ _ (upsert_user-Untouched repo proposed identity now).1 h
  perform-SpentTicket (adds_role user_id role) other h =
      lookup_by SpentTicket _ _ (add_role-Untouched repo user_id role).1 h
  perform-SpentTicket (stores_session r) other h = h
  perform-SpentTicket (revokes_session token now) other h = elim (revoke_cases repo token now) [
    | inl (same, ended) ↦ lookup_by SpentTicket _ _ (ap (λ x. x.tickets) same) h
    | inr (r, changed) ↦ lookup_by SpentTicket _ _ (ap (λ x. x.tickets) changed) h
  ]
  perform-SpentTicket (stores_ticket r) other h =
      put-lookup SpentTicket hash r.ticket_hash r repo.tickets (λ same. absurd (other same)) h
  perform-SpentTicket (consumes_ticket ticket origin now) other h =
      elim (consume_cases repo ticket origin now) [
        | inl (nothing, same) ↦ lookup_by SpentTicket _ _ (ap (λ x. x.tickets) same) h
        | inr (r, found, fresh, changed) ↦ lookup_by SpentTicket _ _ (ap (λ x. x.tickets) changed) (
            put-lookup SpentTicket hash ticket (consumed_ticket now r) repo.tickets (λ same. refl)
              h)
      ]
  perform-SpentTicket (upserts_saved r) other h =
      lookup_by SpentTicket _ _ (upsert_saved-Untouched repo r).1 h
  perform-SpentTicket (deletes_saved user_id t target_id) other h = h
  perform-SpentTicket (deletes_account user_id) other h = elim (delete_cases repo user_id) [
    | inl same ↦ lookup_by SpentTicket _ _ same.1 h
    | inr (s, t) ↦
        lookup_by SpentTicket _ _ t (
          keep-lookup (other_ticket user_id) SpentTicket hash repo.tickets tt keyed.tickets_keyed h)
  ]
  perform-SpentTicket (purges now) other h =
      keep-lookup (lives_ticket now) SpentTicket hash repo.tickets tt keyed.tickets_keyed h

  perform-EndedSession :
      (op : Operation)
      → StoresOtherSession hash op
      → EndedSession (get_session hash repo)
      → EndedSession (get_session hash (perform op repo))
  unfolding perform purge_expired delete_saved
  perform-EndedSession (stores_state r) other h = h
  perform-EndedSession (consumes_state state nonce now) other h =
      lookup_by EndedSession _ _ (consume_oauth_state-Untouched repo state nonce now).0 h
  perform-EndedSession (upserts_user proposed identity now) other h =
      lookup_by EndedSession _ _ (upsert_user-Untouched repo proposed identity now).0 h
  perform-EndedSession (adds_role user_id role) other h =
      lookup_by EndedSession _ _ (add_role-Untouched repo user_id role).0 h
  perform-EndedSession (stores_session r) other h =
      put-lookup EndedSession hash r.token_hash r repo.sessions (λ same. absurd (other same)) h
  perform-EndedSession (revokes_session token now) other h = elim (revoke_cases repo token now) [
    | inl (same, ended) ↦ lookup_by EndedSession _ _ (ap (λ x. x.sessions) same) h
    | inr (r, changed) ↦ lookup_by EndedSession _ _ (ap (λ x. x.sessions) changed) (
        put-lookup EndedSession hash token (record r { revoked_at = some now }) repo.sessions
          (λ same. refl) h)
  ]
  perform-EndedSession (stores_ticket r) other h = h
  perform-EndedSession (consumes_ticket ticket origin now) other h =
      elim (consume_cases repo ticket origin now) [
        | inl (nothing, same) ↦ lookup_by EndedSession _ _ (ap (λ x. x.sessions) same) h
        | inr (r, found, fresh, changed) ↦
            lookup_by EndedSession _ _ (ap (λ x. x.sessions) changed) h
      ]
  perform-EndedSession (upserts_saved r) other h =
      lookup_by EndedSession _ _ (upsert_saved-Untouched repo r).0 h
  perform-EndedSession (deletes_saved user_id t target_id) other h = h
  perform-EndedSession (deletes_account user_id) other h = elim (delete_cases repo user_id) [
    | inl same ↦ lookup_by EndedSession _ _ same.0 h
    | inr (s, t) ↦ lookup_by EndedSession _ _ s (
        keep-lookup (other_session user_id) EndedSession hash repo.sessions tt keyed.sessions_keyed
          h)
  ]
  perform-EndedSession (purges now) other h =
      keep-lookup (lives_session now) EndedSession hash repo.sessions tt keyed.sessions_keyed h

pub run-IsKeyed :
    (ops : List Operation) (repo : IdentityRepository) → IsKeyed repo → IsKeyed (run ops repo)
unfolding run
run-IsKeyed [] repo keyed = keyed
run-IsKeyed (op ∷ ops) repo keyed = run-IsKeyed ops _ (perform-IsKeyed repo op keyed)

module _ (hash : String) where
  pub run-SpentTicket :
      (ops : List Operation) (repo : IdentityRepository)
      → IsKeyed repo
      → All (StoresOtherTicket hash) ops
      → SpentTicket (ticket_at hash repo)
      → SpentTicket (ticket_at hash (run ops repo))
  unfolding run
  run-SpentTicket [] repo keyed other h = h
  run-SpentTicket (op ∷ ops) repo keyed other h =
      run-SpentTicket ops _ (perform-IsKeyed repo op keyed) other.1
        (perform-SpentTicket hash repo keyed op other.0 h)

  pub run-EndedSession :
      (ops : List Operation) (repo : IdentityRepository)
      → IsKeyed repo
      → All (StoresOtherSession hash) ops
      → EndedSession (get_session hash repo)
      → EndedSession (get_session hash (run ops repo))
  unfolding run
  run-EndedSession [] repo keyed other h = h
  run-EndedSession (op ∷ ops) repo keyed other h =
      run-EndedSession ops _ (perform-IsKeyed repo op keyed) other.1
        (perform-EndedSession hash repo keyed op other.0 h)

pub empty_repository-IsKeyed : IsKeyed empty_repository
empty_repository-IsKeyed = record { sessions_keyed = tt; tickets_keyed = tt }

pub consume-SpentTicket :
    (hash origin : String) (now : ℕ) (repo : IdentityRepository)
    → SpentTicket (ticket_at hash repo)
    → consume_realtime_ticket hash origin now repo ≡ (none, repo)
unfolding consume_realtime_ticket
consume-SpentTicket hash origin now repo spent = elim (Option-cases (ticket_at hash repo)) [
  | inl absent ↦ ground arith
  | inr (r, found) ↦
      let over : is_none r.consumed_at ≡ false = subst SpentTicket found spent in ground arith
]

pub authenticate-EndedSession :
    (hash : String) (now : ℕ) (repo : IdentityRepository)
    → EndedSession (get_session hash repo)
    → authenticate_hash hash now repo ≡ (none, repo)
unfolding authenticate_hash
authenticate-EndedSession hash now repo ended = elim (Option-cases (get_session hash repo)) [
  | inl absent ↦ ground arith
  | inr (r, found) ↦
      let over : is_none r.revoked_at ≡ false = subst EndedSession found ended in ground arith
]

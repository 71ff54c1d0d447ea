-- ===== src/Identity/Spent.antt =====
-- Tickets that were consumed and sessions that were revoked, in packages/identity/repository.py.
use dayjaview.Prelude.{
  ℕ, true, none, some, String, String-discrete, ◌≡◌, refl, sym, ap, subst, Option-cases, Bool-cases,
  inl, inr, arith, is_none, ◌⊎◌,
}
use dayjaview.Prelude.Dict.{put, Distinct, put-Distinct, keep-Distinct, keep, Dict}
use dayjaview.Identity.Repository.{
  IdentityRepository, revoke_session, get_session, consume_realtime_ticket, delete_account,
  purge_expired, other_session, delete_saved, consumed_ticket, other_ticket, may_consume_ticket,
  get_user, lives_session, lives_ticket,
}
use dayjaview.Identity.Operations.{
  Untouched, IsKeyed, EndedSession, perform, ticket_at, Operation, stores_state, consumes_state,
  consume_oauth_state-Untouched, upserts_user, upsert_user-Untouched, adds_role, add_role-Untouched,
  stores_session, revokes_session, stores_ticket, consumes_ticket, upserts_saved,
  upsert_saved-Untouched, deletes_saved, deletes_account, purges,
}
use dayjaview.Identity.Models.{SessionRecord, RealtimeTicketRecord}

module _ (repo : IdentityRepository) where
  Untouched-IsKeyed :
      (after : IdentityRepository) → Untouched repo after → IsKeyed repo → IsKeyed after
  Untouched-IsKeyed after same keyed = record {
    sessions_keyed = subst (λ d. Distinct String-discrete d) (sym same.0) keyed.sessions_keyed;
    tickets_keyed = subst (λ d. Distinct String-discrete d) (sym same.1) keyed.tickets_keyed;
  }

  -- Revoking finds nothing to revoke, or stores the session as revoked.
  pub revoke_cases :
      (hash : String) (now : ℕ)
      → (revoke_session hash now repo ≡ repo) × EndedSession (get_session hash repo)
        ⊎ (r : SessionRecord) × (revoke_session hash now repo ≡ record repo {
          sessions = put String-discrete hash (record r { revoked_at = some now }) repo.sessions;
        })
  unfolding revoke_session
  revoke_cases hash now = elim (Option-cases (get_session hash repo)) [
    | inl absent ↦ inl (ground arith, subst EndedSession (sym absent) tt)
    | inr (r, found) ↦ elim (Bool-cases (is_none r.revoked_at)) [
      | inl live ↦ inr (r, ground arith)
      | inr ended ↦ inl (ground arith, subst EndedSession (sym found) ended)
    ]
  ]

  -- Consuming finds nothing to consume, or stores the ticket as consumed.
  pub consume_cases :
      (hash origin : String) (now : ℕ)
      → ((consume_realtime_ticket hash origin now repo).0 ≡ none)
          × ((consume_realtime_ticket hash origin now repo).1 ≡ repo)
        ⊎ (r : RealtimeTicketRecord) × (ticket_at hash repo ≡ some r)
          × (is_none r.consumed_at ≡ true)
          × ((consume_realtime_ticket hash origin now repo).1 ≡ record repo {
            tickets = put String-discrete hash (consumed_ticket now r) repo.tickets;
          })
  unfolding consume_realtime_ticket
  consume_cases hash origin now = elim (Option-cases (ticket_at hash repo)) [
    | inl absent ↦ inl (ground arith)
    | inr (r, found) ↦ elim (Bool-cases (may_consume_ticket origin now r)) [
      | inl may ↦ inr (r, found, ground arith, ground arith)
      | inr denied ↦ inl (ground arith)
    ]
  ]

  -- Deleting an account keeps the sessions and the tickets of the others.
  pub delete_cases :
      (user_id : String)
      → Untouched repo (delete_account user_id repo).1
        ⊎ ((delete_account user_id repo).1.sessions ≡ keep (other_session user_id) repo.sessions)
          × ((delete_account user_id repo).1.tickets ≡ keep (other_ticket user_id) repo.tickets)
  unfolding delete_account
  delete_cases user_id = elim (Option-cases (get_user user_id repo)) [
    | inl absent ↦ inl (ground arith)
    | inr (user, found) ↦ inr (ground arith)
  ]

  -- Sessions and tickets that have each digest once give a repository that has.
  IsKeyed-by :
      (after : IdentityRepository) (sessions : Dict String SessionRecord)
      (tickets : Dict String RealtimeTicketRecord)
      → after.sessions ≡ sessions
      → after.tickets ≡ tickets
      → Distinct String-discrete sessions
      → Distinct String-discrete tickets
      → IsKeyed after
  IsKeyed-by after sessions tickets s t hs ht = record {
    sessions_keyed = subst (λ d. Distinct String-discrete d) (sym s) hs;
    tickets_keyed = subst (λ d. Distinct String-discrete d) (sym t) ht;
  }

  pub perform-IsKeyed : (op : Operation) → IsKeyed repo → IsKeyed (perform op repo)
  unfolding perform purge_expired delete_saved
  perform-IsKeyed (stores_state r) keyed = Untouched-IsKeyed _ (refl, refl) keyed
  perform-IsKeyed (consumes_state state nonce now) keyed =
      Untouched-IsKeyed _ (consume_oauth_state-Untouched repo state nonce now) keyed
  perform-IsKeyed (upserts_user proposed identity now) keyed =
      Untouched-IsKeyed _ (upsert_user-Untouched repo proposed identity now) keyed
  perform-IsKeyed (adds_role user_id role) keyed =
      Untouched-IsKeyed _ (add_role-Untouched repo user_id role) keyed
  perform-IsKeyed (stores_session r) keyed =
      IsKeyed-by _ _ _ refl refl
        (put-Distinct String-discrete r.token_hash r repo.sessions keyed.sessions_keyed)
        keyed.tickets_keyed
  perform-IsKeyed (revokes_session hash now) keyed = elim (revoke_cases hash now) [
    | inl (same, ended) ↦ subst IsKeyed (sym same) keyed
    | inr (r, changed) ↦
        IsKeyed-by _ _ _ (ap (λ x. x.sessions) changed) (ap (λ x. x.tickets) changed)
          (put-Distinct String-discrete hash _ repo.sessions keyed.sessions_keyed)
          keyed.tickets_keyed
  ]
  perform-IsKeyed (stores_ticket r) keyed =
      IsKeyed-by _ _ _ refl refl keyed.sessions_keyed
        (put-Distinct String-discrete r.ticket_hash r repo.tickets keyed.tickets_keyed)
  perform-IsKeyed (consumes_ticket hash origin now) keyed = elim (consume_cases hash origin now) [
    | inl (nothing, same) ↦ subst IsKeyed (sym same) keyed
    | inr (r, found, fresh, changed) ↦
        IsKeyed-by _ _ _ (ap (λ x. x.sessions) changed) (ap (λ x. x.tickets) changed)
          keyed.sessions_keyed
          (put-Distinct String-discrete hash _ repo.tickets keyed.tickets_keyed)
  ]
  perform-IsKeyed (upserts_saved r) keyed =
      Untouched-IsKeyed _ (upsert_saved-Untouched repo r) keyed
  perform-IsKeyed (deletes_saved user_id t target_id) keyed = Untouched-IsKeyed _ (refl, refl) keyed
  perform-IsKeyed (deletes_account user_id) keyed = elim (delete_cases user_id) [
    | inl same ↦ Untouched-IsKeyed _ same keyed
    | inr (s, t) ↦
        IsKeyed-by _ _ _ s t
          (keep-Distinct String-discrete (other_session user_id) repo.sessions keyed.sessions_keyed)
          (keep-Distinct String-discrete (other_ticket user_id) repo.tickets keyed.tickets_keyed)
  ]
  perform-IsKeyed (purges now) keyed =
      IsKeyed-by _ _ _ refl refl
        (keep-Distinct String-discrete (lives_session now) repo.sessions keyed.sessions_keyed)
        (keep-Distinct String-discrete (lives_ticket now) repo.tickets keyed.tickets_keyed)

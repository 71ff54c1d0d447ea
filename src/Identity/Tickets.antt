-- ===== src/Identity/Tickets.antt =====
-- Logging out, the tickets of the realtime channel and the end of an account, in `IdentityService` of
-- packages/identity/service.py.
use dayjaview.Prelude.{ℕ, ◌+◌, true, Option, none, some, String, ltb, if◌then◌else◌, ◌==◌, not}
use dayjaview.Prelude.Exec.{
  Result, ok, raised, authentication_required, recent_authentication_required,
}
use dayjaview.Identity.Sessions.{
  SessionPolicy, authenticate, authorize_mutation, text_length, validate_request, RequestProof,
  authenticate_hash,
}
use dayjaview.Identity.Models.{RealtimeTicketRecord, SessionPrincipal, RealtimeTicket}
use dayjaview.Identity.Repository.{
  IdentityRepository, consume_realtime_ticket, same_text, delete_account, revoke_session,
  store_realtime_ticket,
}

module _ (token_hash : String → String) (policy : SessionPolicy) where
  -- `if session_token: revoke_session(...)`
  abbrev pub revoke_token : Option String → ℕ → IdentityRepository → IdentityRepository
  revoke_token none now repo = repo
  revoke_token (some token) now repo =
      if text_length token == 0 then repo else revoke_session (token_hash token) now repo

  abbrev pub revoke_validated :
      Result (Unit {0})
      → Option String
      → ℕ
      → IdentityRepository
      → Result (Unit {0}) × IdentityRepository
  revoke_validated (raised e) token now repo = (raised e, repo)
  revoke_validated (ok _) token now repo = (ok tt, revoke_token token now repo)

  -- `logout`, with its three readings of the clock
  unfoldable pub logout :
      Option String
      → RequestProof
      → ℕ
      → ℕ
      → ℕ
      → IdentityRepository
      → Result (Unit {0}) × IdentityRepository
  unfolding authenticate validate_request revoke_session text_length
  logout token proof now later latest repo =
      let (principal, after) = authenticate token_hash policy token now repo in
      revoke_validated (validate_request token_hash policy principal proof true later after) token
        latest after

  abbrev pub ticket_record : SessionPrincipal → String → ℕ → RealtimeTicketRecord
  ticket_record principal raw_ticket now = record {
    ticket_hash = token_hash raw_ticket;
    session_token_hash = principal.session_token_hash;
    user_id = principal.user.user_id;
    origin = policy.allowed_origin;
    created_at = now;
    expires_at = now + policy.realtime_ticket_ttl;
    consumed_at = none;
  }

  abbrev pub issue_to :
      String
      → ℕ
      → Result SessionPrincipal × IdentityRepository
      → Result RealtimeTicket × IdentityRepository
  issue_to raw_ticket now (raised e, repo) = (raised e, repo)
  issue_to raw_ticket now (ok principal, repo) = (
    ok (record { ticket = raw_ticket; expires_at = now + policy.realtime_ticket_ttl }),
    store_realtime_ticket (ticket_record principal raw_ticket now) repo,
  )

  -- `issue_realtime_ticket`, with the text that the source of tokens made
  unfoldable pub issue_realtime_ticket :
      Option String
      → RequestProof
      → String
      → ℕ
      → ℕ
      → ℕ
      → IdentityRepository
      → Result RealtimeTicket × IdentityRepository
  unfolding authorize_mutation
  issue_realtime_ticket token proof raw_ticket now later latest repo =
      issue_to raw_ticket latest (authorize_mutation token_hash policy token proof now later repo)

  -- The principal, if it is the one that the ticket was issued to.
  abbrev pub ticket_principal :
      RealtimeTicketRecord → Option SessionPrincipal → Result SessionPrincipal
  ticket_principal ticket none = raised authentication_required
  ticket_principal ticket (some p) =
      if same_text p.user.user_id ticket.user_id then ok p else raised authentication_required

  abbrev pub admit_ticket :
      Option RealtimeTicketRecord
      → ℕ
      → IdentityRepository
      → Result SessionPrincipal × IdentityRepository
  admit_ticket none later repo = (raised authentication_required, repo)
  admit_ticket (some consumed) later repo =
      let (principal, after) = authenticate_hash consumed.session_token_hash later repo in
      (ticket_principal consumed principal, after)

  -- `consume_realtime_ticket`
  unfoldable pub redeem_ticket :
      String → String → ℕ → ℕ → IdentityRepository → Result SessionPrincipal × IdentityRepository
  unfolding consume_realtime_ticket authenticate_hash
  redeem_ticket ticket origin now later repo =
      if not (same_text origin policy.allowed_origin)
      then (raised authentication_required, repo)
      else (let (consumed, after) = consume_realtime_ticket (token_hash ticket) origin now repo in
          admit_ticket consumed later after)

  abbrev pub end_account :
      ℕ → Result SessionPrincipal × IdentityRepository → Result (Unit {0}) × IdentityRepository
  end_account now (raised e, repo) = (raised e, repo)
  end_account now (ok principal, repo) =
      if ltb (principal.authenticated_at + policy.recent_authentication_window) now
      then (raised recent_authentication_required, repo)
      else (let (deleted, after) = delete_account principal.user.user_id repo in
          (if deleted then ok tt else raised authentication_required, after))

  -- `IdentityService.delete_account`
  unfoldable pub delete_own_account :
      Option String
      → RequestProof
      → ℕ
      → ℕ
      → ℕ
      → IdentityRepository
      → Result (Unit {0}) × IdentityRepository
  unfolding authorize_mutation delete_account
  delete_own_account token proof now later latest repo =
      end_account latest (authorize_mutation token_hash policy token proof now later repo)

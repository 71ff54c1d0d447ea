-- ===== src/Identity/Endings.antt =====
-- How tickets and sessions of packages/identity end for good.
use dayjaview.Prelude.{
  ℕ, true, none, some, List, ◌∷◌, String, String-discrete, ◌≡◌, refl, sym, subst, All, Option-cases,
  inl, inr, arith,
}
use dayjaview.Prelude.Dict.{get-put_self, get-keep}
use dayjaview.Identity.Operations.{
  Operation, IsKeyed, run, EndedSession, perform, SpentTicket, StoresOtherTicket,
  StoresOtherSession, ticket_at, consumes_ticket, revokes_session, deletes_account,
}
use dayjaview.Identity.Repository.{
  IdentityRepository, delete_account, empty_repository, consume_realtime_ticket, get_session,
  revoke_session, get_user, other_session, consumed_ticket,
}
use dayjaview.Identity.Models.{RealtimeTicketRecord, SessionRecord}
use dayjaview.Identity.Lifetimes.{
  run-IsKeyed, empty_repository-IsKeyed, consume-SpentTicket, run-SpentTicket,
  authenticate-EndedSession, run-EndedSession,
}
use dayjaview.Identity.Sessions.{authenticate_hash}
use dayjaview.Identity.Spent.{revoke_cases, consume_cases, perform-IsKeyed}

-- A repository that began empty.
abbrev pub reached : List Operation → IdentityRepository
reached ops = run ops empty_repository

reached-IsKeyed : (ops : List Operation) → IsKeyed (reached ops)
reached-IsKeyed ops = run-IsKeyed ops empty_repository empty_repository-IsKeyed

module _ (hash : String) (before : List Operation) where
  consumed-SpentTicket :
      (origin : String) (now : ℕ) (ticket : RealtimeTicketRecord)
      → (consume_realtime_ticket hash origin now (reached before)).0 ≡ some ticket
      → SpentTicket (ticket_at hash (consume_realtime_ticket hash origin now (reached before)).1)
  consumed-SpentTicket origin now ticket given =
      elim (consume_cases (reached before) hash origin now) [
        | inl (nothing, same) ↦ absurd (ground (arith, nothing, given))
        | inr (r, found, fresh, changed) ↦
            subst (λ x. SpentTicket (ticket_at hash x)) (sym changed)
              (subst SpentTicket
                (sym (
                  get-put_self String-discrete hash (consumed_ticket now r)
                    (reached before).tickets))
                refl)
      ]

  -- On any repository that began empty: once a ticket was consumed, then after any operations of which none stores a
  -- ticket with the same digest, whatever the origin and the time, consuming it again gives nothing
  -- and changes nothing.
  pub consume_once :
      (origin again : String) (now later : ℕ) (ticket : RealtimeTicketRecord) (ops : List Operation)
      → (consume_realtime_ticket hash origin now (reached before)).0 ≡ some ticket
      → All (StoresOtherTicket hash) ops
      → consume_realtime_ticket hash again later
          (run (consumes_ticket hash origin now ∷ ops) (reached before))
        ≡ (none, run (consumes_ticket hash origin now ∷ ops) (reached before))
  unfolding run perform
  consume_once origin again now later ticket ops given other =
      consume-SpentTicket hash again later _ (
        run-SpentTicket hash ops _
          (perform-IsKeyed (reached before) (consumes_ticket hash origin now)
            (reached-IsKeyed before))
          other (consumed-SpentTicket origin now ticket given))

  revoked-EndedSession :
      (now : ℕ) → EndedSession (get_session hash (revoke_session hash now (reached before)))
  revoked-EndedSession now = elim (revoke_cases (reached before) hash now) [
    | inl (same, ended) ↦ subst (λ x. EndedSession (get_session hash x)) (sym same) ended
    | inr (r, changed) ↦
        subst (λ x. EndedSession (get_session hash x)) (sym changed)
          (subst EndedSession
            (sym (
              get-put_self String-discrete hash (record r { revoked_at = some now })
                (reached before).sessions))
            refl)
  ]

  -- On any repository that began empty: once a session was revoked, then after any operations of which none stores a
  -- session with the same digest, its token signs nobody in, and the attempt changes nothing.
  pub revoked_for_good :
      (now later : ℕ) (ops : List Operation)
      → All (StoresOtherSession hash) ops
      → authenticate_hash hash later (run (revokes_session hash now ∷ ops) (reached before))
        ≡ (none, run (revokes_session hash now ∷ ops) (reached before))
  unfolding run perform
  revoked_for_good now later ops other = authenticate-EndedSession hash later _ (
      run-EndedSession hash ops _
        (perform-IsKeyed (reached before) (revokes_session hash now) (reached-IsKeyed before)) other
        (revoked-EndedSession now))

  deleted-EndedSession :
      (session : SessionRecord)
      → get_session hash (reached before) ≡ some session
      → (delete_account session.user_id (reached before)).0 ≡ true
      → EndedSession (get_session hash (delete_account session.user_id (reached before)).1)
  unfolding delete_account
  deleted-EndedSession session found deleted =
      elim (Option-cases (get_user session.user_id (reached before))) [
        | inl absent ↦ absurd (ground arith)
        | inr (user, known) ↦
            let gone : get_session hash (delete_account session.user_id (reached before)).1 ≡ none =
              ground (
                arith,
                get-keep String-discrete (other_session session.user_id) hash
                    (reached before).sessions (reached-IsKeyed before).sessions_keyed,
              ) in
            subst EndedSession (sym gone) tt
      ]

  -- On any repository that began empty: once the account of a session's user was deleted, then after any operations
  -- of which none stores a session with the same digest, the session's token signs nobody in, and
  -- the attempt changes nothing.
  pub deleted_for_good :
      (session : SessionRecord) (later : ℕ) (ops : List Operation)
      → get_session hash (reached before) ≡ some session
      → (delete_account session.user_id (reached before)).0 ≡ true
      → All (StoresOtherSession hash) ops
      → authenticate_hash hash later (run (deletes_account session.user_id ∷ ops) (reached before))
        ≡ (none, run (deletes_account session.user_id ∷ ops) (reached before))
  unfolding run perform
  deleted_for_good session later ops found deleted other = authenticate-EndedSession hash later _ (
      run-EndedSession hash ops _
        (perform-IsKeyed (reached before) (deletes_account session.user_id)
          (reached-IsKeyed before))
        other (deleted-EndedSession session found deleted))

-- ===== src/Tests/Identity.antt =====
-- packages/identity at concrete inputs.
use dayjaview.Prelude.{true, false, none, some, List, [], ◌∷◌, String, String-discrete, ◌≡◌, refl}
use dayjaview.Prelude.Dict.{get, put}
use dayjaview.Identity.Models.{
  GoogleIdentity, RealtimeTicketRecord, SessionRecord, SessionPrincipal, User, user_role,
  operator_role,
}
use dayjaview.Identity.Repository.{
  consume_realtime_ticket, delete_account, has_role, upsert_user, add_role, consumed_ticket,
  get_session,
}
use dayjaview.Identity.Sessions.{
  SessionPolicy, RequestProof, authorize_operator_command, authenticate_hash, require_operator,
  require_authenticated, authenticate, principal_for, validate_request, validate_token,
  validate_session, text_length,
}
use dayjaview.Identity.Operations.{
  run, Operation, upserts_user, perform, consumes_ticket, revokes_session, deletes_account,
  adds_role, purges, stores_session, stores_ticket,
}
use dayjaview.Identity.Guards.{IsProven, authorize_operator_command-IsProven}
use dayjaview.Identity.Endings.{reached, consume_once, revoked_for_good, deleted_for_good}
use dayjaview.Prelude.Exec.{ok}

abbrev token_hash : String → String
token_hash s = s

abbrev policy : SessionPolicy
policy = record {
  allowed_origin = "https://dayjaview.vercel.app";
  realtime_ticket_ttl = 30;
  recent_authentication_window = 600;
}

abbrev identity : GoogleIdentity
identity = record { subject = "sub-1"; display_name = "Kim"; email = none; email_verified = false }

abbrev session : SessionRecord
session = record {
  token_hash = "s-1";
  user_id = "usr_1";
  csrf_token_hash = "c-1";
  created_at = 100;
  expires_at = 9_000;
  authenticated_at = 100;
  revoked_at = none;
}

abbrev ticket : RealtimeTicketRecord
ticket = record {
  ticket_hash = "t-1";
  session_token_hash = "s-1";
  user_id = "usr_1";
  origin = "https://dayjaview.vercel.app";
  created_at = 200;
  expires_at = 230;
  consumed_at = none;
}

abbrev before : List Operation
before =
    upserts_user "usr_1" identity 100
    ∷ adds_role "usr_1" operator_role
    ∷ stores_session session
    ∷ stores_ticket ticket
    ∷ []

ticket_given :
    (consume_realtime_ticket "t-1" "https://dayjaview.vercel.app" 210 (reached before)).0
    ≡ some (consumed_ticket 210 ticket)
unfolding consume_realtime_ticket run perform upsert_user add_role has_role get put String-discrete
ticket_given = refl

consume_once_example :
    consume_realtime_ticket "t-1" "https://dayjaview.vercel.app" 211 (
      run
        (consumes_ticket "t-1" "https://dayjaview.vercel.app" 210 ∷ purges 205 ∷ [])
        (reached before))
    ≡ (
      none,
      run
          (consumes_ticket "t-1" "https://dayjaview.vercel.app" 210 ∷ purges 205 ∷ [])
          (reached before),
    )
consume_once_example =
    consume_once "t-1" before "https://dayjaview.vercel.app" "https://dayjaview.vercel.app" 210 211
      (consumed_ticket 210 ticket) (purges 205 ∷ []) ticket_given (tt, tt)

revoked_for_good_example :
    authenticate_hash "s-1" 310
      (run (revokes_session "s-1" 300 ∷ adds_role "usr_1" user_role ∷ []) (reached before))
    ≡ (none, run (revokes_session "s-1" 300 ∷ adds_role "usr_1" user_role ∷ []) (reached before))
revoked_for_good_example =
    revoked_for_good "s-1" before 300 310 (adds_role "usr_1" user_role ∷ []) (tt, tt)

session_found : get_session "s-1" (reached before) ≡ some session
unfolding run perform upsert_user add_role has_role get put String-discrete
session_found = refl

account_deleted : (delete_account "usr_1" (reached before)).0 ≡ true
unfolding delete_account run perform upsert_user add_role has_role get put String-discrete
account_deleted = refl

deleted_for_good_example :
    authenticate_hash "s-1" 310
      (run (deletes_account "usr_1" ∷ upserts_user "usr_1" identity 305 ∷ []) (reached before))
    ≡ (
      none,
      run (deletes_account "usr_1" ∷ upserts_user "usr_1" identity 305 ∷ []) (reached before),
    )
deleted_for_good_example =
    deleted_for_good "s-1" before session 310 (upserts_user "usr_1" identity 305 ∷ []) session_found
      account_deleted (tt, tt)

abbrev proof_of_request : RequestProof
proof_of_request = record {
  origin = some "https://dayjaview.vercel.app";
  csrf_token = some "c-1";
  csrf_cookie = some "c-1";
}

abbrev operator : User
operator = record {
  user_id = "usr_1";
  google_subject = "sub-1";
  display_name = "Kim";
  email = none;
  email_verified = false;
  created_at = 100;
  last_authenticated_at = 100;
}

abbrev principal : SessionPrincipal
principal = record {
  session_token_hash = "s-1";
  user = operator;
  roles = user_role ∷ operator_role ∷ [];
  authenticated_at = 100;
  expires_at = 9_000;
}

command_authorized :
    (authorize_operator_command token_hash policy
      (some "s-1")
      proof_of_request
      400
      401
      (reached before)).0
    ≡ ok principal
unfolding authorize_operator_command require_operator require_authenticated authenticate
    authenticate_hash principal_for validate_request validate_token validate_session run perform
    upsert_user add_role has_role get put String-discrete text_length
command_authorized = refl

authorize_operator_command-IsProven_example :
    (has_role operator_role principal.roles ≡ true)
    × IsProven token_hash policy principal proof_of_request 401
        (authorize_operator_command token_hash policy
          (some "s-1")
          proof_of_request
          400
          401
          (reached before)).1
authorize_operator_command-IsProven_example =
    authorize_operator_command-IsProven token_hash policy (some "s-1") proof_of_request 400 401
      (reached before) principal command_authorized

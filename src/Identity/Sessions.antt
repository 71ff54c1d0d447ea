-- ===== src/Identity/Sessions.antt =====
-- The sessions of `IdentityService` in packages/identity/service.py: who is signed in, who may send a
-- command, and the tickets of the realtime channel. Each reading of the clock is an argument.
use dayjaview.Prelude.{
  ℕ, Bool, true, false, ◌||◌, not, Option, none, some, String, leb, ltb, is_none, if◌then◌else◌,
  suc, ◌==◌, List,
}
use dayjaview.Prelude.Exec.{
  Result, ok, raised, and_then, authentication_required, feature_not_entitled,
  csrf_validation_failed,
}
use dayjaview.Identity.Repository.{
  revoke_session, same_text, IdentityRepository, has_role, get_user, get_session, get_roles,
}
use dayjaview.Identity.Models.{
  SessionPrincipal, SessionRecord, User, operator_role, user_role, Role,
}

-- `len(s)` of a text
unfoldable pub text_length : String → ℕ
text_length String.[] = 0
text_length (String.◌∷◌ c s) = suc (text_length s)

-- What the policy of the service gives to sessions and tickets.
pub record SessionPolicy : Type 0 where
  pub allowed_origin : String
  pub realtime_ticket_ttl : ℕ
  pub recent_authentication_window : ℕ

-- `not token or len(token) > 512`
abbrev pub is_unusable : String → Bool
is_unusable s = text_length s == 0 || ltb 512 (text_length s)

abbrev pub principal_of : String → SessionRecord → User → List Role → SessionPrincipal
principal_of hash record_ user roles = record {
  session_token_hash = hash;
  user = user;
  roles = roles;
  authenticated_at = record_.authenticated_at;
  expires_at = record_.expires_at;
}

-- The part of `_authenticate_session_hash` after the tests of the session itself.
unfoldable pub principal_for : String → SessionRecord → IdentityRepository → Option SessionPrincipal
unfolding has_role
principal_for hash session repo = elim (get_user session.user_id repo) [
  | none ↦ none
  | some user ↦
      if has_role user_role (get_roles user.user_id repo)
      then some (principal_of hash session user (get_roles user.user_id repo))
      else none
]

-- `_authenticate_session_hash`
unfoldable pub authenticate_hash :
    String → ℕ → IdentityRepository → Option SessionPrincipal × IdentityRepository
unfolding principal_for revoke_session
authenticate_hash hash now repo = elim (get_session hash repo) [
  | none ↦ (none, repo)
  | some session ↦
      if not (is_none session.revoked_at)
      then (none, repo)
      else if leb session.expires_at now
      then (none, revoke_session hash now repo)
      else (principal_for hash session repo, repo)
]

-- What a request brings to prove where it comes from.
pub record RequestProof : Type 0 where
  pub origin : Option String
  pub csrf_token : Option String
  pub csrf_cookie : Option String

-- The digest is SHA-256 in hexadecimal.
module _ (token_hash : String → String) (policy : SessionPolicy) where
  unfoldable pub authenticate :
      Option String → ℕ → IdentityRepository → Option SessionPrincipal × IdentityRepository
  unfolding authenticate_hash text_length
  authenticate none now repo = (none, repo)
  authenticate (some token) now repo =
      if is_unusable token then (none, repo) else authenticate_hash (token_hash token) now repo

  unfoldable pub refresh_principal :
      SessionPrincipal → ℕ → IdentityRepository → Option SessionPrincipal × IdentityRepository
  unfolding authenticate_hash
  refresh_principal principal now repo =
      let (refreshed, after) = authenticate_hash principal.session_token_hash now repo in
      (
        elim refreshed [
          | none ↦ none
          | some p ↦ if same_text p.user.user_id principal.user.user_id then some p else none
        ],
        after,
      )

  abbrev pub present_principal : Option SessionPrincipal → Result SessionPrincipal
  present_principal none = raised authentication_required
  present_principal (some p) = ok p

  unfoldable pub require_authenticated :
      Option String → ℕ → IdentityRepository → Result SessionPrincipal × IdentityRepository
  unfolding authenticate
  require_authenticated token now repo =
      let (principal, after) = authenticate token now repo in (present_principal principal, after)

  abbrev pub entitled_operator : SessionPrincipal → Result SessionPrincipal
  entitled_operator p = if has_role operator_role p.roles then ok p else raised feature_not_entitled

  unfoldable pub require_operator :
      Option String → ℕ → IdentityRepository → Result SessionPrincipal × IdentityRepository
  unfolding require_authenticated has_role
  require_operator token now repo =
      let (r, after) = require_authenticated token now repo in (and_then r entitled_operator, after)

  abbrev pub is_origin_wrong : Option String → Bool
  is_origin_wrong none = true
  is_origin_wrong (some origin) = not (same_text origin policy.allowed_origin)

  abbrev pub is_cookie_wrong : String → Option String → Bool
  is_cookie_wrong csrf_token none = false
  is_cookie_wrong csrf_token (some cookie) = not (same_text csrf_token cookie)

  abbrev pub is_session_wrong : String → ℕ → Option SessionRecord → Bool
  is_session_wrong csrf_token now none = true
  is_session_wrong csrf_token now (some session) =
      not (is_none session.revoked_at)
      || leb session.expires_at now
      || not (same_text session.csrf_token_hash (token_hash csrf_token))

  -- `_validate_origin_and_csrf` after the tests of the token itself
  unfoldable pub validate_session :
      Option SessionPrincipal
      → String
      → Option String
      → Bool
      → ℕ
      → IdentityRepository
      → Result (Unit {0})
  validate_session none csrf_token cookie allow_without_session now repo =
      if allow_without_session then ok tt else raised authentication_required
  validate_session (some principal) csrf_token none allow_without_session now repo =
      raised csrf_validation_failed
  validate_session (some principal) csrf_token (some cookie) allow_without_session now repo =
      if is_session_wrong csrf_token now (get_session principal.session_token_hash repo)
      then raised csrf_validation_failed
      else ok tt

  unfoldable pub validate_token :
      Option SessionPrincipal
      → Option String
      → Option String
      → Bool
      → ℕ
      → IdentityRepository
      → Result (Unit {0})
  unfolding validate_session text_length
  validate_token principal none cookie allow_without_session now repo =
      raised csrf_validation_failed
  validate_token principal (some csrf_token) cookie allow_without_session now repo =
      if is_unusable csrf_token
      then raised csrf_validation_failed
      else if is_cookie_wrong csrf_token cookie
      then raised csrf_validation_failed
      else validate_session principal csrf_token cookie allow_without_session now repo

  -- `_validate_origin_and_csrf`
  unfoldable pub validate_request :
      Option SessionPrincipal → RequestProof → Bool → ℕ → IdentityRepository → Result (Unit {0})
  unfolding validate_token
  validate_request principal proof allow_without_session now repo =
      if is_origin_wrong proof.origin
      then raised csrf_validation_failed
      else validate_token principal proof.csrf_token proof.csrf_cookie allow_without_session now
          repo

  -- The principal, once the request is validated.
  abbrev pub validated :
      RequestProof
      → ℕ
      → Result SessionPrincipal × IdentityRepository
      → Result SessionPrincipal × IdentityRepository
  validated proof now (raised e, repo) = (raised e, repo)
  validated proof now (ok principal, repo) =
      (and_then (validate_request (some principal) proof false now repo) (λ _. ok principal), repo)

  unfoldable pub authorize_operator_command :
      Option String
      → RequestProof
      → ℕ
      → ℕ
      → IdentityRepository
      → Result SessionPrincipal × IdentityRepository
  unfolding require_operator validate_request
  authorize_operator_command token proof now later repo =
      validated proof later (require_operator token now repo)

  -- `_authorize_mutation`, and `authorize_question`, which calls it alone
  unfoldable pub authorize_mutation :
      Option String
      → RequestProof
      → ℕ
      → ℕ
      → IdentityRepository
      → Result SessionPrincipal × IdentityRepository
  unfolding require_authenticated validate_request
  authorize_mutation token proof now later repo =
      validated proof later (require_authenticated token now repo)

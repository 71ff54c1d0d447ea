-- ===== src/Identity/Guards.antt =====
-- What a request must bring before packages/identity/service.py carries out an operator's command.
use dayjaview.Prelude.{
  ℕ, ◌<◌, true, false, Option, none, some, String, ◌≡◌, refl, arith, ap, ◌∙◌, subst,
}
use dayjaview.Prelude.Exec.{and_then-eq-ok, Result, ok, raised}
use dayjaview.Identity.Sessions.{
  SessionPolicy, is_session_wrong, validate_request, require_operator, authorize_operator_command,
  RequestProof, validate_token, validate_session, validated,
}
use dayjaview.Identity.Models.{SessionRecord, SessionPrincipal, operator_role}
use dayjaview.Identity.Repository.{IdentityRepository, get_session, has_role}

-- The session that a principal was signed in with.
abbrev pub Backs : (String → String) → String → ℕ → Option SessionRecord → Type 0
Backs token_hash csrf_token now none = ⊥
Backs token_hash csrf_token now (some session) =
    (session.revoked_at ≡ none)
    × (now < session.expires_at)
    × (session.csrf_token_hash ≡ token_hash csrf_token)

module _ (token_hash : String → String) (policy : SessionPolicy) where
  -- The request comes from the allowed origin, with one token in its header and its cookie, whose
  -- digest the session has.
  abbrev pub IsProven : SessionPrincipal → RequestProof → ℕ → IdentityRepository → Type 0
  IsProven principal proof now repo =
      (csrf_token : String) × (proof.origin ≡ some policy.allowed_origin)
      × (proof.csrf_token ≡ some csrf_token)
      × (proof.csrf_cookie ≡ some csrf_token)
      × Backs token_hash csrf_token now (get_session principal.session_token_hash repo)

  session-Backs :
      (csrf_token : String) (now : ℕ) (o : Option SessionRecord)
      → is_session_wrong token_hash policy csrf_token now o ≡ false
      → Backs token_hash csrf_token now o
  session-Backs csrf_token now none h = absurd (ground arith)
  session-Backs csrf_token now (some session) h = ground arith

  validate_request-IsProven :
      (principal : SessionPrincipal) (origin csrf_token csrf_cookie : Option String) (now : ℕ)
      (repo : IdentityRepository)
      → validate_request token_hash policy
          (some principal)
          (record { origin = origin; csrf_token = csrf_token; csrf_cookie = csrf_cookie })
          false
          now
          repo
        ≡ ok tt
      → IsProven principal
          (record { origin = origin; csrf_token = csrf_token; csrf_cookie = csrf_cookie })
          now
          repo
  unfolding validate_request validate_token validate_session
  validate_request-IsProven principal none token cookie now repo h = absurd (ground arith)
  validate_request-IsProven principal (some origin) none cookie now repo h = absurd (ground arith)
  validate_request-IsProven principal (some origin) (some token) none now repo h =
      absurd (ground arith)
  validate_request-IsProven principal (some origin) (some token) (some cookie) now repo h =
      let right : is_session_wrong token_hash policy token now
            (get_session principal.session_token_hash repo)
          ≡ false =
        ground arith in
      (
        token,
        ground arith,
        refl,
        ground arith,
        session-Backs token now (get_session principal.session_token_hash repo) right,
      )

  require_operator-has_role :
      (token : Option String) (now : ℕ) (repo : IdentityRepository) (principal : SessionPrincipal)
      → (require_operator token_hash policy token now repo).0 ≡ ok principal
      → has_role operator_role principal.roles ≡ true
  unfolding require_operator
  require_operator-has_role token now repo principal h = ground (arith)

  -- A command of the console is let through only for a principal who has the operator's role, from the
  -- allowed origin, with the same token in the header and the cookie, and while the principal's session
  -- is there, is not revoked, has not expired, and has the digest of that token.
  pub authorize_operator_command-IsProven :
      (token : Option String) (proof : RequestProof) (now later : ℕ) (repo : IdentityRepository)
      (principal : SessionPrincipal)
      → (authorize_operator_command token_hash policy token proof now later repo).0 ≡ ok principal
      → (has_role operator_role principal.roles ≡ true)
        × IsProven principal proof later
            (authorize_operator_command token_hash policy token proof now later repo).1
  unfolding authorize_operator_command
  authorize_operator_command-IsProven token proof now later repo principal h =
      by_result (require_operator token_hash policy token now repo) refl h
    where
      by_result :
          (r : Result SessionPrincipal × IdentityRepository)
          → require_operator token_hash policy token now repo ≡ r
          → (validated token_hash policy proof later r).0 ≡ ok principal
          → (has_role operator_role principal.roles ≡ true)
            × IsProven principal proof later (validated token_hash policy proof later r).1
      by_result (raised e, after) same k = absurd (ground arith)
      by_result (ok p, after) same k =
          let passed =
            and_then-eq-ok (validate_request token_hash policy (some p) proof false later after) _
              k in
          let own : p ≡ principal = cc passed.2 in
          let proven =
            validate_request-IsProven p proof.origin proof.csrf_token proof.csrf_cookie later after
              passed.1 in
          (
            require_operator-has_role token now repo principal (ap (λ x. x.0) same ∙ ap ok own),
            subst (λ x. IsProven x proof later after) own proven,
          )

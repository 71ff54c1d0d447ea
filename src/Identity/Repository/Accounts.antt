-- ===== src/Identity/Repository/Accounts.antt =====
-- The users and their roles in packages/identity/repository.py.

use dayjaview.Prelude.{
  ℕ, Bool, true, false, ◌||◌, not, Option, none, some, List, [], ◌∷◌, ◌++◌, String, String-discrete,
  if◌then◌else◌, get_or,
}
use dayjaview.Prelude.Dict.{get, put, remove, keep}
use dayjaview.Prelude.Exec.{Result, ok, raised, key_error, value_error}
use dayjaview.Identity.Models.{
  SessionRecord, GoogleIdentity, Role, RealtimeTicketRecord, User, SavedRecord, user_role,
  historical_pilot, operator_role,
}
use dayjaview.Identity.Repository.State.{IdentityRepository, same_text}

abbrev pub get_user : String → IdentityRepository → Option User
get_user user_id repo = get String-discrete user_id repo.users

unfoldable pub get_user_by_subject : String → IdentityRepository → Option User
get_user_by_subject subject repo = elim (get String-discrete subject repo.user_ids_by_subject) [
  | none ↦ none
  | some user_id ↦ get_user user_id repo
]

abbrev pub updated_user : GoogleIdentity → ℕ → User → User
updated_user identity now existing = record existing {
  display_name = identity.display_name;
  email = identity.email;
  email_verified = identity.email_verified;
  last_authenticated_at = now;
}

abbrev pub first_user : String → GoogleIdentity → ℕ → User
first_user user_id identity now = record {
  user_id = user_id;
  google_subject = identity.subject;
  display_name = identity.display_name;
  email = identity.email;
  email_verified = identity.email_verified;
  created_at = now;
  last_authenticated_at = now;
}

abbrev pub with_user : User → IdentityRepository → IdentityRepository
with_user user repo = record repo {
  users = put String-discrete user.user_id user repo.users;
  user_ids_by_subject =
      put String-discrete user.google_subject user.user_id repo.user_ids_by_subject;
  roles = put String-discrete user.user_id (user_role ∷ []) repo.roles;
}

unfoldable pub upsert_user :
    String → GoogleIdentity → ℕ → IdentityRepository → Result User × IdentityRepository
upsert_user proposed identity now repo =
    elim (get String-discrete identity.subject repo.user_ids_by_subject) [
      | some existing_id ↦ elim (get_user existing_id repo) [
        | none ↦ (raised key_error, repo)
        | some existing ↦ (
          ok (updated_user identity now existing),
          record repo {
            users = put String-discrete existing_id (updated_user identity now existing) repo.users;
          },
        )
      ]
      | none ↦ elim (get_user proposed repo) [
        | some other ↦ (raised value_error, repo)
        | none ↦ (
          ok (first_user proposed identity now),
          with_user (first_user proposed identity now) repo,
        )
      ]
    ]

abbrev pub is_role : Role → Role → Bool
is_role user_role user_role = true
is_role historical_pilot historical_pilot = true
is_role operator_role operator_role = true
is_role _ _ = false

unfoldable pub has_role : Role → List Role → Bool
has_role role [] = false
has_role role (r ∷ rs) = is_role role r || has_role role rs

-- `roles.add(role)`
abbrev pub add_to : Role → List Role → List Role
add_to role rs = if has_role role rs then rs else rs ++ (role ∷ [])

unfoldable pub add_role :
    String → Role → IdentityRepository → Result (Unit {0}) × IdentityRepository
unfolding has_role
add_role user_id role repo = elim (get_user user_id repo) [
  | none ↦ (raised key_error, repo)
  | some user ↦ (
    ok tt,
    record repo {
      roles =
          put String-discrete user_id
            (add_to role (get_or (get String-discrete user_id repo.roles) (user_role ∷ [])))
            repo.roles;
    },
  )
]

abbrev pub get_roles : String → IdentityRepository → List Role
get_roles user_id repo = get_or (get String-discrete user_id repo.roles) []

abbrev pub other_session : String → SessionRecord → Bool
other_session user_id r = not (same_text r.user_id user_id)

abbrev pub other_ticket : String → RealtimeTicketRecord → Bool
other_ticket user_id r = not (same_text r.user_id user_id)

abbrev pub other_saved : String → SavedRecord → Bool
other_saved user_id r = not (same_text r.user_id user_id)

unfoldable pub delete_account : String → IdentityRepository → Bool × IdentityRepository
delete_account user_id repo = elim (get_user user_id repo) [
  | none ↦ (false, repo)
  | some user ↦ (
    true,
    record {
      oauth_states = repo.oauth_states;
      users = remove String-discrete user_id repo.users;
      user_ids_by_subject = remove String-discrete user.google_subject repo.user_ids_by_subject;
      roles = remove String-discrete user_id repo.roles;
      sessions = keep (other_session user_id) repo.sessions;
      tickets = keep (other_ticket user_id) repo.tickets;
      saved = keep (other_saved user_id) repo.saved;
    },
  )
]

-- ===== src/Identity/Repository/State.antt =====
-- The state of `InMemoryIdentityRepository` in packages/identity/repository.py, and what hands out and takes
-- OAuth states, sessions and tickets. The lock makes each method one step.

use dayjaview.Prelude.{
  ℕ, ◌+◌, ◌-◌, Bool, true, false, ◌&&◌, Option, none, some, List, [], String, String-discrete, ite,
  ltb, length, is_none, if◌then◌else◌,
}
use dayjaview.Prelude.Dict.{Dict, get, put, keep}
use dayjaview.Identity.Models.{
  SavedType, SessionRecord, Role, OAuthStateRecord, RealtimeTicketRecord, User, SavedRecord,
  saved_theme, saved_stock, saved_event,
}

-- The text of a type of saved items, by which Python sorts.
unfoldable pub saved_value : SavedType → String
saved_value saved_theme = "THEME"
saved_value saved_stock = "STOCK"
saved_value saved_event = "EVENT"

abbrev pub SavedKey : Type 0
SavedKey = String × String × String

unfoldable pub SavedKey-discrete : Discrete SavedKey
unfolding String-discrete
SavedKey-discrete = hlevel String-discrete

pub record IdentityRepository : Type 0 where
  pub oauth_states : Dict String OAuthStateRecord
  pub users : Dict String User
  pub user_ids_by_subject : Dict String String
  pub roles : Dict String (List Role)
  pub sessions : Dict String SessionRecord
  pub tickets : Dict String RealtimeTicketRecord
  pub saved : Dict SavedKey SavedRecord

abbrev pub empty_repository : IdentityRepository
empty_repository = record {
  oauth_states = [];
  users = [];
  user_ids_by_subject = [];
  roles = [];
  sessions = [];
  tickets = [];
  saved = [];
}

abbrev pub same_text : String → String → Bool
same_text a b = ite (String-discrete a b) true false

abbrev pub store_oauth_state : OAuthStateRecord → IdentityRepository → IdentityRepository
store_oauth_state r repo = record repo {
  oauth_states = put String-discrete r.state_hash r repo.oauth_states;
}

abbrev pub lives_state : ℕ → OAuthStateRecord → Bool
lives_state now r = ltb now r.expires_at

abbrev pub lives_session : ℕ → SessionRecord → Bool
lives_session now r = ltb now r.expires_at

abbrev pub lives_ticket : ℕ → RealtimeTicketRecord → Bool
lives_ticket now r = ltb now r.expires_at

abbrev pub purged : ℕ → IdentityRepository → IdentityRepository
purged now repo = record repo {
  oauth_states = keep (lives_state now) repo.oauth_states;
  sessions = keep (lives_session now) repo.sessions;
  tickets = keep (lives_ticket now) repo.tickets;
}

abbrev pub count_records : IdentityRepository → ℕ
count_records repo = length repo.oauth_states + length repo.sessions + length repo.tickets

unfoldable pub purge_expired : ℕ → IdentityRepository → ℕ × IdentityRepository
purge_expired now repo = (count_records repo - count_records (purged now repo), purged now repo)

-- A record that is not consumed, not expired and bound to what is presented.
abbrev pub may_consume_state : String → ℕ → OAuthStateRecord → Bool
may_consume_state nonce_hash now r =
    is_none r.consumed_at && ltb now r.expires_at && same_text r.browser_nonce_hash nonce_hash

abbrev pub consumed_state : ℕ → OAuthStateRecord → OAuthStateRecord
consumed_state now r = record r { consumed_at = some now }

unfoldable pub consume_oauth_state :
    String → String → ℕ → IdentityRepository → Option OAuthStateRecord × IdentityRepository
consume_oauth_state state_hash nonce_hash now repo =
    elim (get String-discrete state_hash repo.oauth_states) [
      | none ↦ (none, repo)
      | some r ↦
          if may_consume_state nonce_hash now r
          then (
            some (consumed_state now r),
            record repo {
              oauth_states =
                  put String-discrete state_hash (consumed_state now r) repo.oauth_states;
            },
          )
          else (none, repo)
    ]

abbrev pub store_session : SessionRecord → IdentityRepository → IdentityRepository
store_session r repo = record repo { sessions = put String-discrete r.token_hash r repo.sessions }

abbrev pub get_session : String → IdentityRepository → Option SessionRecord
get_session token_hash repo = get String-discrete token_hash repo.sessions

unfoldable pub revoke_session : String → ℕ → IdentityRepository → IdentityRepository
revoke_session token_hash now repo = elim (get_session token_hash repo) [
  | none ↦ repo
  | some r ↦
      if is_none r.revoked_at
      then record repo {
        sessions =
            put String-discrete token_hash (record r { revoked_at = some now }) repo.sessions;
      }
      else repo
]

abbrev pub store_realtime_ticket : RealtimeTicketRecord → IdentityRepository → IdentityRepository
store_realtime_ticket r repo = record repo {
  tickets = put String-discrete r.ticket_hash r repo.tickets;
}

abbrev pub may_consume_ticket : String → ℕ → RealtimeTicketRecord → Bool
may_consume_ticket origin now r =
    is_none r.consumed_at && ltb now r.expires_at && same_text r.origin origin

abbrev pub consumed_ticket : ℕ → RealtimeTicketRecord → RealtimeTicketRecord
consumed_ticket now r = record r { consumed_at = some now }

unfoldable pub consume_realtime_ticket :
    String → String → ℕ → IdentityRepository → Option RealtimeTicketRecord × IdentityRepository
consume_realtime_ticket ticket_hash origin now repo =
    elim (get String-discrete ticket_hash repo.tickets) [
      | none ↦ (none, repo)
      | some r ↦
          if may_consume_ticket origin now r
          then (
            some (consumed_ticket now r),
            record repo {
              tickets = put String-discrete ticket_hash (consumed_ticket now r) repo.tickets;
            },
          )
          else (none, repo)
    ]

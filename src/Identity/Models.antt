-- ===== src/Identity/Models.antt =====
-- packages/identity/models.py: the records of users, sessions, tickets and saved items.
use dayjaview.Prelude.{ℕ, Bool, Option, List, String}

pub data Role : Type 0 where
  user_role : Role
  historical_pilot : Role
  operator_role : Role

pub data SavedType : Type 0 where
  saved_theme : SavedType
  saved_stock : SavedType
  saved_event : SavedType

pub record GoogleIdentity : Type 0 where
  pub subject : String
  pub display_name : String
  pub email : Option String
  pub email_verified : Bool

pub record User : Type 0 where
  pub user_id : String
  pub google_subject : String
  pub display_name : String
  pub email : Option String
  pub email_verified : Bool
  pub created_at : ℕ
  pub last_authenticated_at : ℕ

pub record OAuthStateRecord : Type 0 where
  pub state_hash : String
  pub browser_nonce_hash : String
  pub return_to : String
  pub created_at : ℕ
  pub expires_at : ℕ
  pub consumed_at : Option ℕ

pub record SessionRecord : Type 0 where
  pub token_hash : String
  pub user_id : String
  pub csrf_token_hash : String
  pub created_at : ℕ
  pub expires_at : ℕ
  pub authenticated_at : ℕ
  pub revoked_at : Option ℕ

pub record RealtimeTicketRecord : Type 0 where
  pub ticket_hash : String
  pub session_token_hash : String
  pub user_id : String
  pub origin : String
  pub created_at : ℕ
  pub expires_at : ℕ
  pub consumed_at : Option ℕ

pub record SavedRecord : Type 0 where
  pub user_id : String
  pub saved_type : SavedType
  pub target_id : String
  pub display_name_snapshot : String
  pub saved_at : ℕ

pub record SessionPrincipal : Type 0 where
  pub session_token_hash : String
  pub user : User
  pub roles : List Role
  pub authenticated_at : ℕ
  pub expires_at : ℕ

pub record RealtimeTicket : Type 0 where
  pub ticket : String
  pub expires_at : ℕ

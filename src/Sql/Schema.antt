-- ===== src/Sql/Schema.antt =====
-- db/sqlserver/schema/001_core.sql: the tables, with the columns that some statement reads or some
-- constraint names. An identifier is its text in canonical form, a time is a number of seconds.
-- The id columns of user_roles, audit_events and ip_protection_events, which the server fills with
-- NEWID() and nothing reads, are left out, and so are their primary keys.
use oc.Base.{ℕ, String, Option, none, Bool, false, List}
use oc.Contracts.{RoleCode}
use oc.Database.Statements.{AuditEventRow, ProtectionRow}

-- CK_roles_scope
pub data RoleScope : Type 0 where
  global_scope tenant_scope : RoleScope

pub record Company : Type 0 where
  pub id : String
  pub name : String

-- CK_roles_code makes the column a role code.
pub record Role : Type 0 where
  pub id : ℕ
  pub code : RoleCode
  pub scope : RoleScope

pub record User : Type 0 where
  pub id : String
  pub company_id : Option String
  pub email : String
  pub password_hash : Option String
  pub bootstrap_access_token_hash : Option String
  pub bootstrap_access_used_at : Option ℕ
  pub is_global_admin : Bool
  pub force_credential_rotation : Bool

pub record UserRole : Type 0 where
  pub user_id : String
  pub role_id : ℕ
  pub company_id : Option String

pub record AuditEvent : Type 0 where
  pub event : AuditEventRow
  pub created_at : ℕ

pub record Tables : Type 0 where
  pub companies : List Company
  pub roles : List Role
  pub users : List User
  pub user_roles : List UserRole
  pub audit_events : List AuditEvent
  pub ip_protection_events : List ProtectionRow

-- SESSION_CONTEXT of a connection, for the three keys that the program sets
pub record Session : Type 0 where
  pub company_id : Option String
  pub user_role : Option String
  pub global_principal_login : Bool

-- No key is set.
abbrev pub cleared : Session
cleared = record { company_id = none; user_role = none; global_principal_login = false }

-- A connection's view of the server.
pub record Server : Type 0 where
  pub session : Session
  pub tables : Tables

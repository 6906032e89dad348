-- ===== src/Database/Statements.antt =====
-- The statements that the API sends to SQL Server: a constructor for each SQL text of apps/api/src,
-- with the values that the text binds. Their meaning, in the module Sql, is read off the same texts.
use oc.Base.{ℕ, String, Option, Bool, List}
use oc.Contracts.{RoleCode}

-- The parameters of the INSERT in audit.service.ts; `null` is `none`.
pub record AuditEventRow : Type 0 where
  pub company_id : Option String
  pub actor_user_id : Option String
  pub source_ip : Option String
  pub event_type : String
  pub target_type : Option String
  pub target_id : Option String
  pub reason : String
  pub metadata_json : Option String

-- The parameters of the INSERT in enumeration-protection.service.ts
pub record ProtectionInsert : Type 0 where
  pub source_ip : String
  pub reason : String
  pub denied_attempt_count : ℕ
  pub window_seconds : ℕ
  pub block_seconds : ℕ

-- `GlobalUserCredentialRow` of auth-credential.service.ts
pub record GlobalUserCredentialRow : Type 0 where
  pub user_id : String
  pub password_hash : Option String
  pub role_code : RoleCode

-- A row of dbo.ip_protection_events as listProtectionHistory selects it; a time is a number of
-- seconds.
pub record ProtectionRow : Type 0 where
  pub source_ip : String
  pub reason : String
  pub denied_attempt_count : ℕ
  pub window_seconds : ℕ
  pub blocked_until : ℕ

pub data Statement : Type 0 where
  -- EXEC sys.sp_set_session_context for each of the three keys; NULL is `none`, or `false`
  set_company_id : Option String → Statement
  set_user_role : Option String → Statement
  set_global_principal_login : Bool → Statement
  select_one : Statement
  select_global_user : (username : String) → Statement
  select_bootstrap : (token_hash : String) → Statement
  update_bootstrap : (user_id : String) → Statement
  insert_company : (name : String) → Statement
  insert_admin : (company_id admin_email : String) → Statement
  insert_tenant_admin_role : (admin_user_id company_id : String) → Statement
  insert_audit_event : AuditEventRow → Statement
  count_denied : (source_ip : String) (window_seconds : ℕ) → Statement
  insert_protection : ProtectionInsert → Statement
  select_blocked : (source_ip : String) → Statement
  select_history : (source_ip : String) → Statement

-- The type `T` at which the caller of a statement reads its rows.
abbrev pub Row : Statement → Type 0
Row (select_global_user _) = GlobalUserCredentialRow
Row (select_bootstrap _) = String
Row (insert_company _) = String
Row (insert_admin _ _) = String
Row (count_denied _ _) = ℕ
Row (select_blocked _) = ℕ
Row (select_history _) = ProtectionRow
Row _ = Unit {0}

-- `QueryResult<T>`
pub record QueryResult (T : Type 0) : Type 0 where
  pub rows : List T
  pub rows_affected : Option ℕ

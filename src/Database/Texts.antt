-- ===== src/Database/Texts.antt =====
-- The SQL texts of apps/api/src with the values that each call binds, by statement. A statement that
-- two texts stand for, as setting a key to NULL, has two calls.
use oc.Base.{ℕ, String, Option, some, none, true, false, List, [], ◌∷◌}
use oc.Database.Statements.{
  AuditEventRow, ProtectionInsert, Statement, set_company_id, set_user_role,
  set_global_principal_login, select_one, select_global_user, select_bootstrap, update_bootstrap,
  insert_company, insert_admin, insert_tenant_admin_role, insert_audit_event, count_denied,
  insert_protection, select_blocked, select_history,
}

-- A value that is bound; `null` is `none` where it may be one.
pub data SqlValue : Type 0 where
  null : SqlValue
  text : String → SqlValue
  number : ℕ → SqlValue

-- `executor.query(sqlText, parameters)`: the entries of the object in their order
pub record Call : Type 0 where
  pub sql_text : String
  pub parameters : List (String × Option SqlValue)

abbrev text_or_null : Option String → Option SqlValue
text_or_null none = none
text_or_null (some s) = some (text s)

abbrev plain_text : String → Call
plain_text sql = record { sql_text = sql; parameters = [] }

abbrev pub set_company_call : Option String → Call
set_company_call v = record {
  sql_text = "EXEC sys.sp_set_session_context @key = N'company_id', @value = @companyId";
  parameters = ("companyId", text_or_null v) ∷ [];
}

abbrev pub set_role_call : Option String → Call
set_role_call v = record {
  sql_text = "EXEC sys.sp_set_session_context @key = N'user_role', @value = @roleCode";
  parameters = ("roleCode", text_or_null v) ∷ [];
}

abbrev pub select_global_user_call : String → Call
select_global_user_call username = record {
  sql_text =
      "SELECT u.id AS user_id,\n                  u.password_hash,\n                  r.code AS role_code\n           FROM dbo.users u\n           INNER JOIN dbo.user_roles ur ON ur.user_id = u.id\n           INNER JOIN dbo.roles r ON r.id = ur.role_id\n           WHERE LOWER(u.email) = LOWER(@username)\n             AND u.is_global_admin = 1\n             AND u.password_hash IS NOT NULL\n             AND u.force_credential_rotation = 0\n             AND ur.company_id IS NULL\n             AND r.scope = N'global'";
  parameters = ("username", some (text username)) ∷ [];
}

abbrev pub select_bootstrap_call : String → Call
select_bootstrap_call token_hash = record {
  sql_text =
      "SELECT TOP (1) id AS user_id\n       FROM dbo.users\n       WHERE bootstrap_access_token_hash = @oneTimeTokenHash\n         AND bootstrap_access_used_at IS NULL";
  parameters = ("oneTimeTokenHash", some (text token_hash)) ∷ [];
}

abbrev pub update_bootstrap_call : String → Call
update_bootstrap_call user_id = record {
  sql_text =
      "UPDATE dbo.users\n         SET bootstrap_access_used_at = SYSUTCDATETIME(),\n             force_credential_rotation = 1\n         WHERE id = @userId";
  parameters = ("userId", some (text user_id)) ∷ [];
}

abbrev pub insert_company_call : String → Call
insert_company_call name = record {
  sql_text =
      "INSERT INTO dbo.companies (name)\n         OUTPUT INSERTED.id\n         VALUES (@companyName)";
  parameters = ("companyName", some (text name)) ∷ [];
}

abbrev pub insert_admin_call : String → String → Call
insert_admin_call company_id admin_email = record {
  sql_text =
      "INSERT INTO dbo.users (company_id, email, bootstrap_access_token_hash, force_credential_rotation)\n         OUTPUT INSERTED.id\n         VALUES (@companyId, @adminEmail, CONVERT(NVARCHAR(512), NEWID()), 1)";
  parameters = ("companyId", some (text company_id)) ∷ ("adminEmail", some (text admin_email)) ∷ [];
}

abbrev pub insert_tenant_admin_role_call : String → String → Call
insert_tenant_admin_role_call admin_user_id company_id = record {
  sql_text =
      "INSERT INTO dbo.user_roles (user_id, role_id, company_id)\n         SELECT @adminUserId, id, @companyId\n         FROM dbo.roles\n         WHERE code = N'tenant_admin'";
  parameters =
      ("adminUserId", some (text admin_user_id)) ∷ ("companyId", some (text company_id)) ∷ [];
}

abbrev pub insert_audit_event_call : AuditEventRow → Call
insert_audit_event_call e = record {
  sql_text =
      "INSERT INTO dbo.audit_events\n       (company_id, actor_user_id, source_ip, event_type, target_type, target_id, reason, metadata_json)\n       VALUES (@companyId, @actorUserId, @sourceIp, @eventType, @targetType, @targetId, @reason, @metadataJson)";
  parameters =
      ("companyId", text_or_null e.company_id)
      ∷ ("actorUserId", text_or_null e.actor_user_id)
      ∷ ("sourceIp", text_or_null e.source_ip)
      ∷ ("eventType", some (text e.event_type))
      ∷ ("targetType", text_or_null e.target_type)
      ∷ ("targetId", text_or_null e.target_id)
      ∷ ("reason", some (text e.reason))
      ∷ ("metadataJson", text_or_null e.metadata_json)
      ∷ [];
}

abbrev pub count_denied_call : String → ℕ → Call
count_denied_call source_ip window_seconds = record {
  sql_text =
      "SELECT COUNT(1) AS denied_count\n       FROM dbo.audit_events\n       WHERE source_ip = @sourceIp\n         AND event_type = N'cross_tenant_denied'\n         AND created_at >= DATEADD(SECOND, -@windowSeconds, SYSUTCDATETIME())";
  parameters =
      ("sourceIp", some (text source_ip)) ∷ ("windowSeconds", some (number window_seconds)) ∷ [];
}

abbrev pub insert_protection_call : ProtectionInsert → Call
insert_protection_call p = record {
  sql_text =
      "INSERT INTO dbo.ip_protection_events\n       (source_ip, reason, denied_attempt_count, window_seconds, blocked_until)\n       VALUES (@sourceIp, @reason, @deniedAttemptCount, @windowSeconds, DATEADD(SECOND, @blockSeconds, SYSUTCDATETIME()))";
  parameters =
      ("sourceIp", some (text p.source_ip))
      ∷ ("reason", some (text p.reason))
      ∷ ("deniedAttemptCount", some (number p.denied_attempt_count))
      ∷ ("windowSeconds", some (number p.window_seconds))
      ∷ ("blockSeconds", some (number p.block_seconds))
      ∷ [];
}

abbrev pub select_blocked_call : String → Call
select_blocked_call source_ip = record {
  sql_text =
      "SELECT TOP (1) blocked_until\n       FROM dbo.ip_protection_events\n       WHERE source_ip = @sourceIp\n         AND blocked_until >= SYSUTCDATETIME()\n       ORDER BY blocked_until DESC";
  parameters = ("sourceIp", some (text source_ip)) ∷ [];
}

abbrev pub select_history_call : String → Call
select_history_call source_ip = record {
  sql_text =
      "SELECT TOP (50)\n         source_ip,\n         reason,\n         denied_attempt_count,\n         window_seconds,\n         blocked_until\n       FROM dbo.ip_protection_events\n       WHERE source_ip = @sourceIp\n       ORDER BY blocked_until DESC";
  parameters = ("sourceIp", some (text source_ip)) ∷ [];
}

unfoldable pub sent_as : Statement → List Call
sent_as (set_company_id (some v)) = set_company_call (some v) ∷ []
sent_as (set_company_id none) =
    set_company_call none
    ∷ plain_text "EXEC sys.sp_set_session_context @key = N'company_id', @value = NULL"
    ∷ []
sent_as (set_user_role (some v)) = set_role_call (some v) ∷ []
sent_as (set_user_role none) =
    set_role_call none
    ∷ plain_text "EXEC sys.sp_set_session_context @key = N'user_role', @value = NULL"
    ∷ []
sent_as (set_global_principal_login true) =
    plain_text "EXEC sys.sp_set_session_context @key = N'global_principal_login', @value = 1" ∷ []
sent_as (set_global_principal_login false) =
    plain_text "EXEC sys.sp_set_session_context @key = N'global_principal_login', @value = NULL"
    ∷ []
sent_as select_one = plain_text "SELECT 1 AS ready" ∷ []
sent_as (select_global_user username) = select_global_user_call username ∷ []
sent_as (select_bootstrap token_hash) = select_bootstrap_call token_hash ∷ []
sent_as (update_bootstrap user_id) = update_bootstrap_call user_id ∷ []
sent_as (insert_company name) = insert_company_call name ∷ []
sent_as (insert_admin company_id admin_email) = insert_admin_call company_id admin_email ∷ []
sent_as (insert_tenant_admin_role admin_user_id company_id) =
    insert_tenant_admin_role_call admin_user_id company_id ∷ []
sent_as (insert_audit_event e) = insert_audit_event_call e ∷ []
sent_as (count_denied source_ip window_seconds) = count_denied_call source_ip window_seconds ∷ []
sent_as (insert_protection p) = insert_protection_call p ∷ []
sent_as (select_blocked source_ip) = select_blocked_call source_ip ∷ []
sent_as (select_history source_ip) = select_history_call source_ip ∷ []

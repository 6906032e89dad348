-- ===== src/Tests/Access.antt =====
-- Requests for access, permissions and tokens at concrete inputs.
use mathlib.Core.Bool.{Bool}
use oc.Base.{
  ◌==◌, String, some, none, true, false, [], ◌∷◌, ◌≡◌, refl, ◌↔◌, ◌≢◌, length, arith, if◌then◌else◌,
}
use oc.Base.Text.{utf16_length, utf8_length, split, strip_prefix}
use oc.Base.Exec.{◌>>=◌, try_catch, try_finally, ok, err, forbidden}
use oc.Contracts.{
  role_eq, AuthContext, LoginRequest, super_admin, tenant, reader, includes_super_admin,
}
use oc.Database.{transaction, clear_session_context, service_executor}
use oc.Rbac.{assert_tenant_permission, admin, record_read, some_role_allows, role_allows}
use oc.Rbac.Laws.{MayAct, assert_tenant_permission-MayAct}
use oc.Audit.Enumeration.{default_policy}
use oc.TenantAccess.{get_tenant_admin_access, source_is_blocked, blocked_failure}
use oc.TenantAccess.Decision.{outcome, get_tenant_admin_access-decision}
use oc.TenantAccess.Unrecorded.{get_tenant_admin_access-unrecorded}
use oc.Auth.Jose.{Payload, ProtectedHeader}
use oc.Auth.Token.{assert_protected_header, verify_session_token}
use oc.Auth.Hardened.{IsHardened, assert_protected_header-IsHardened, verify_session_token-accepted}
use oc.Auth.Token.{check_header}
use oc.Base.{List, first, map}
use oc.Database.Statements.{GlobalUserCredentialRow}
use oc.Auth.Credentials.Admits.{verify_complete}
use oc.Auth.Credentials.{
  row_role, unique_roles, timing_safe_equal, find_global_user_rows, verify, verify_password,
  create_sha256_password_hash,
}
use oc.Auth.Credentials.Rows.{In}
use oc.Auth.Credentials.Laws.{login_rows, verify_sound}
use oc.Sql.Schema.{User, cleared}
use oc.Sql.Rows.{credential_roles, credential_user_roles}
use oc.Sql.Run.{select}
use oc.Sql.Policy.{tenant_or_global_principal_filter}
use oc.Sql.Execute.{
  execute, run_select_global_user, credential_rows, visible_users, visible_user_roles,
}
use oc.Sample.Signing.{jose, session_token, root_authority}
use oc.Sample.Backend.{
  backend-IsUp, World, backend, backend-RunsDirectly, backend-RunsSql, plain, world,
}

abbrev ann : AuthContext
ann = record {
  user_id = "ann";
  company_id = some "acme";
  roles = tenant reader ∷ [];
  is_super_admin = false;
  source_ip = some "192.0.2.2";
}

assert_tenant_permission-MayAct_example :
    (assert_tenant_permission ann "acme" record_read ≡ ok tt) ↔ MayAct ann "acme" record_read
assert_tenant_permission-MayAct_example = assert_tenant_permission-MayAct ann "acme" record_read

abbrev acme : String
acme = "acme"

abbrev refusal : String
refusal = "Insufficient tenant role permission."

-- a reader of the company itself
ann_refused : assert_tenant_permission ann "acme" admin ≡ err (forbidden refusal)
unfolding assert_tenant_permission some_role_allows role_allows
ann_refused = refl

get_tenant_admin_access-decision_example :
    (blocked : Bool) × ((source_is_blocked
        (service_executor backend)
        default_policy
        ann.source_ip
        world).0
      ≡ ok blocked)
    × ((get_tenant_admin_access
          (service_executor backend)
          default_policy
          (some ann)
          "globex"
          world).0
        ≡ (if blocked
            then err blocked_failure
            else outcome "globex" (assert_tenant_permission ann "globex" admin)))
get_tenant_admin_access-decision_example =
    get_tenant_admin_access-decision (service_executor backend) default_policy ann "globex" world

abbrev probed : World
probed =
    (get_tenant_admin_access (service_executor backend) default_policy (some ann) "globex" world).1

get_tenant_admin_access-unrecorded_example : probed.durable ≡ world.durable
get_tenant_admin_access-unrecorded_example =
    get_tenant_admin_access-unrecorded backend-RunsDirectly default_policy (omega arith) (some ann)
      "globex" world

three_parts : length (split b'.' session_token) ≡ 3
unfolding split
three_parts = refl

assert_protected_header-IsHardened_example :
    (assert_protected_header jose session_token ≡ ok tt) ↔ (
      (length (split b'.' session_token) ≡ 3)
      × ((header : ProtectedHeader) × (jose.decode_protected_header session_token ≡ ok header)
          × IsHardened header))
assert_protected_header-IsHardened_example = assert_protected_header-IsHardened jose session_token

abbrev root_context : AuthContext
root_context = record {
  user_id = "root";
  company_id = none;
  roles = super_admin ∷ [];
  is_super_admin = true;
  source_ip = none;
}

root_accepted : verify_session_token jose session_token tt ≡ ok root_context
unfolding verify_session_token assert_protected_header split check_header
root_accepted = refl

verify_session_token-accepted_example :
    (payload : Payload) × (jose.jwt_verify session_token tt ≡ ok payload)
    × (payload.sub ≡ some root_context.user_id)
    × (root_context.user_id ≢ "")
    × (root_context.company_id ≡ payload.company_id)
    × (root_context.is_super_admin ≡ includes_super_admin root_context.roles)
    × ((header : ProtectedHeader) × (jose.decode_protected_header session_token ≡ ok header)
        × IsHardened header)
verify_session_token-accepted_example =
    verify_session_token-accepted jose session_token tt root_context root_accepted

-- the sample's hash function is the identity
abbrev sa : LoginRequest
sa = record { username = "sa"; password = "secret" }

sa_admitted :
    verify (λ s. s) backend sa world ≡ (ok root_authority, (verify (λ s. s) backend sa world).1)
unfolding verify find_global_user_rows ◌>>=◌ transaction try_catch execute try_finally
    run_select_global_user clear_session_context credential_rows visible_users select
    tenant_or_global_principal_filter credential_user_roles visible_user_roles credential_roles
    unique_roles verify_password strip_prefix role_eq timing_safe_equal utf16_length utf8_length
sa_admitted = refl

verify_sound_example :
    (u : User) × In u world.durable.users
    × ((plain.lower u.email == plain.lower "sa") ≡ true)
    × (u.is_global_admin ≡ true)
    × (u.force_credential_rotation ≡ false)
    × (u.company_id ≡ none)
    × (u.password_hash ≡ some (create_sha256_password_hash (λ s. s) "secret"))
    × (root_authority.user_id ≡ u.id)
    × (includes_super_admin root_authority.roles ≡ true)
    × (root_authority.is_super_admin ≡ true)
    × ((verify (λ s. s) backend sa world).1.durable ≡ world.durable)
    × ((verify (λ s. s) backend sa world).1.server.session ≡ cleared)
verify_sound_example =
    verify_sound (λ s. s) backend-RunsSql sa world (verify (λ s. s) backend sa world).1
      root_authority sa_admitted

abbrev sa_rows : List GlobalUserCredentialRow
sa_rows = login_rows plain "sa" world.durable

abbrev sa_row : GlobalUserCredentialRow
sa_row = record { user_id = "root"; password_hash = some "sha256:secret"; role_code = super_admin }

sa_found : first sa_rows ≡ some sa_row
unfolding credential_rows visible_users select tenant_or_global_principal_filter
    credential_user_roles visible_user_roles credential_roles
sa_found = refl

sa_stored : sa_row.password_hash ≡ some (create_sha256_password_hash (λ s. s) "secret")
unfolding create_sha256_password_hash
sa_stored = refl

sa_super : includes_super_admin (unique_roles (map (row_role (λ s. s)) sa_rows)) ≡ true
unfolding credential_rows visible_users select tenant_or_global_principal_filter
    credential_user_roles visible_user_roles credential_roles unique_roles role_eq
sa_super = refl

verify_complete_example :
    (verify (λ s. s) backend sa world).0
    ≡ ok (record {
      user_id = sa_row.user_id;
      roles = unique_roles (map (row_role (λ s. s)) sa_rows);
      is_super_admin = true;
    })
verify_complete_example =
    verify_complete (λ s. s) backend-IsUp sa sa_row world sa_found sa_stored sa_super

-- ===== src/Companies/Expected.antt =====
-- What a provisioning is to leave behind, column by column.
use oc.Base.{ℕ, String, none, some, true, false, List, [], ◌∷◌, ◌++◌, map}
use oc.Contracts.{
  AuthContext, CreateCompanyRequest, CreateCompanyResponse, tenant, tenant_admin, role_eq,
}
use oc.Sql.Schema.{Role, Tables}
use oc.Sql.Run.{select}
use oc.Audit.Json.{stringify}

abbrev pub tenant_admin_roles : Tables → List Role
tenant_admin_roles t = select (λ (r : Role). role_eq r.code (tenant tenant_admin)) t.roles

-- the tables with a company and its administrator, as a response names them
abbrev pub provisioned_data :
    AuthContext
    → CreateCompanyRequest
    → CreateCompanyResponse
    → (token : String) → (now : ℕ) → Tables
    → Tables
provisioned_data actor request response token now t = record t {
  companies = record { id = response.company_id; name = request.company_name } ∷ t.companies;
  users =
      record {
        id = response.admin_user_id;
        company_id = some response.company_id;
        email = request.admin_email;
        password_hash = none;
        bootstrap_access_token_hash = some token;
        bootstrap_access_used_at = none;
        is_global_admin = false;
        force_credential_rotation = true;
      }
      ∷ t.users;
  user_roles =
      map
        (λ (r : Role). record {
          user_id = response.admin_user_id;
          role_id = r.id;
          company_id = some response.company_id;
        })
        (tenant_admin_roles t)
      ++ t.user_roles;
  audit_events =
      record {
        event = record {
          company_id = none;
          actor_user_id = some actor.user_id;
          source_ip = none;
          event_type = "company_provisioned";
          target_type = some "company";
          target_id = some response.company_id;
          reason = "super_admin_provisioning";
          metadata_json = some (stringify (("adminUserId", response.admin_user_id) ∷ []));
        };
        created_at = now;
      }
      ∷ t.audit_events;
}

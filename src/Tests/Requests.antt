-- ===== src/Tests/Requests.antt =====
-- The middleware, the readiness check and the protection of sources at concrete inputs.
use oc.Base.{ℕ, ◌↔◌, String, some, none, true, false, ◌≡◌, refl, [], ◌∷◌}
use oc.Base.Text.{strip_prefix, trim, split, utf16_length}
use oc.Base.{if◌then◌else◌, ◌==◌}
use oc.Base.Exec.{Exec, Result, err, other, ok, try_catch, ◌>>=◌}
use oc.Contracts.{
  role_eq, CreateCompanyResponse, AuthContext, CreateCompanyRequest, includes_super_admin,
  super_admin,
}
use oc.Database.Statements.{QueryResult, AuditEventRow, insert_audit_event, select_one}
use oc.Auth.Keys.Sticky.{get_key_sticky}
use oc.Sql.Schema.{Server}
use oc.Sql.Run.{Moment, select, exists}
use oc.Sql.Policy.{tenant_predicate}
use oc.Sql.Rows.{tenant_admin_role_rows, fits}
use oc.Sql.Execute.{
  execute, run_insert_audit_event, run_count_denied, run_insert_protection, visible_audit_events,
  run_insert_company, run_insert_admin, run_insert_tenant_admin_role,
}
use oc.Audit.{record_event}
use oc.Audit.Json.{stringify}
use oc.Audit.Enumeration.{
  EnumerationPolicy, PolicyEnv, JsNumber, integer, no_integer, policy_from_env,
  record_denied_lookup, protect,
}
use oc.Audit.Enumeration.Policy.{IsPositive, policy_from_env-IsPositive}
use oc.Audit.Enumeration.Blocking.{on_server}
use oc.Auth.Keys.{
  get_key, load_verification_key, load_signing_key, assert_ready, assert_compatible_with,
  unescape_newlines,
}
use oc.Auth.Token.{verify_session_token, assert_protected_header, check_header}
use oc.Auth.App.{App, on_world}
use oc.Auth.Bootstrap.{complete_first_use, first_use}
use oc.Auth.Bootstrap.Laws.{complete_first_use-refused}
use oc.Database.{transaction, apply_session_context, clear_session_context}
use oc.Tenant.Context.{run, get_required}
use oc.Tenant.Middleware.{
  Request, in_context, attach_context, attach_token, attach_verified, extract_session_token,
  resolve_source_ip, serve,
}
use oc.Tenant.Middleware.Authority.{Verified, attach_context-Verified}
use oc.Companies.{provisioned, create_company, provision}
use oc.Companies.Authority.{serve-create_company}
use oc.Health.{live, probe, ready}
use oc.Health.Readiness.{Fits, ready_sound}
use oc.Sample.Signing.{jose, key_env}
use oc.Sample.Backend.{World, backend, backend-RunsSql, plain, world, id_of}

abbrev app : App World (Unit {0}) (Unit {0})
app = record { world = world; signing_key = none; verification_key = none }

abbrev request : Request
request = record {
  authorization = some "Bearer h.session.s";
  cookie = none;
  x_forwarded_for = none;
  ip = some "192.0.2.9";
}

abbrev root : AuthContext
root = record {
  user_id = "root";
  company_id = none;
  roles = super_admin ∷ [];
  is_super_admin = true;
  source_ip = some "192.0.2.9";
}

abbrev attached : App World (Unit {0}) (Unit {0})
attached = (attach_context jose key_env none request app).1

-- what a request computes with
requests : Unit {0}
unfolding attach_context attach_token attach_verified extract_session_token resolve_source_ip
    verify_session_token assert_protected_header check_header get_key load_verification_key
    load_signing_key strip_prefix trim split try_catch ◌>>=◌ unescape_newlines
requests = tt

root-attached : attach_context jose key_env none request app ≡ (ok (in_context root), attached)
unfolding requests
root-attached = refl

attach_context-Verified_example :
    ((attach_context jose key_env none request app).0 ≡ ok (in_context root))
    ↔ Verified jose key_env none request app root
attach_context-Verified_example = attach_context-Verified jose key_env none request app root

abbrev globex : CreateCompanyRequest
globex = record { company_name = "Globex"; admin_email = "bob@globex.test" }

abbrev served : Exec (App World (Unit {0}) (Unit {0})) CreateCompanyResponse
served = serve jose key_env none request (λ store. on_world (create_company backend store globex))

root_served : served app ≡ (ok (provisioned (id_of 2) (id_of 3)), (served app).1)
unfolding requests serve run create_company get_required transaction provision apply_session_context
    clear_session_context record_event execute run_insert_company run_insert_admin
    run_insert_tenant_admin_role run_insert_audit_event tenant_predicate select exists role_eq
    tenant_admin_role_rows fits utf16_length stringify
root_served = refl

serve-create_company_example :
    (token : String) × (key : Unit {0}) × (context : AuthContext) × (extract_session_token request
      ≡ ok (some token))
    × ((get_key (load_verification_key jose key_env) app.verification_key).0 ≡ ok key)
    × (verify_session_token jose token key ≡ ok context)
    × (includes_super_admin context.roles ≡ true)
serve-create_company_example =
    serve-create_company jose key_env none backend-RunsSql request globex app (served app).1
      (provisioned (id_of 2) (id_of 3)) root_served

-- a load that failed stays failed when the key has become available
abbrev no_key : Result ℕ
no_key = err (other "no key")

get_key_sticky_example : get_key (ok 7) (get_key no_key none).1 ≡ get_key no_key none
get_key_sticky_example = get_key_sticky no_key (ok 7) none

abbrev checked : App World (Unit {0}) (Unit {0})
checked = (ready jose key_env backend 1000 app).1

app-ready : ready jose key_env backend 1000 app ≡ (ok live, checked)
unfolding ready probe live requests assert_ready assert_compatible_with execute
app-ready = refl

ready_sound_example :
    (answer : QueryResult (Unit {0})) × (public_key : Unit {0}) × ((backend.query select_one
        world).0
      ≡ ok answer)
    × ((get_key (load_verification_key jose key_env) none).0 ≡ ok public_key)
    × Fits jose key_env 1000 none public_key
ready_sound_example = ready_sound jose key_env backend 1000 app checked live app-ready

complete_first_use-refused_example :
    ¬ (complete_first_use backend "once" world ≡ (ok (first_use "ann"), world))
complete_first_use-refused_example =
    complete_first_use-refused backend-RunsSql "once" world world (first_use "ann")

-- a reading of numerals that knows two of them
abbrev to_number : String → JsNumber
to_number s =
    if s == "3" then integer false 3 else if s == "-2" then integer true 2 else no_integer true

abbrev policy_env : PolicyEnv
policy_env = record {
  id_enumeration_threshold = some "3";
  id_enumeration_window_seconds = some "-2";
  id_enumeration_block_seconds = none;
}

policy_from_env-IsPositive_example : IsPositive (policy_from_env to_number policy_env)
policy_from_env-IsPositive_example = policy_from_env-IsPositive to_number policy_env

abbrev moment : Moment
moment = record { now = 1000; fresh_id = "n"; fresh_token = "t" }

-- the connection of a tenant session
abbrev acme_server : Server
acme_server = record {
  session = record { company_id = some "acme"; user_role = none; global_principal_login = false };
  tables = world.durable;
}

-- a policy of threshold 2
abbrev strict_policy : EnumerationPolicy
strict_policy = record { threshold = 2; window_seconds = 600; block_seconds = 900 }

abbrev denial : AuditEventRow
denial = record {
  company_id = some "acme";
  actor_user_id = some "ann";
  source_ip = some "192.0.2.2";
  event_type = "cross_tenant_denied";
  target_type = some "company";
  target_id = some "globex";
  reason = "scope_mismatch";
  metadata_json = none;
}

abbrev after_denial : Server
after_denial = (execute plain moment (insert_audit_event denial) acme_server).1

abbrev recorded : QueryResult (Unit {0})
recorded = record { rows = []; rows_affected = some 1 }

denial-recorded :
    execute plain moment (insert_audit_event denial) acme_server ≡ (ok recorded, after_denial)
unfolding execute run_insert_audit_event tenant_predicate exists fits utf16_length
denial-recorded = refl

abbrev after_check : Server
after_check =
    (record_denied_lookup strict_policy "192.0.2.2" (on_server plain moment) after_denial).1

check_protects :
    record_denied_lookup strict_policy "192.0.2.2" (on_server plain moment) after_denial
    ≡ (ok true, after_check)
unfolding execute run_insert_audit_event tenant_predicate exists record_denied_lookup protect
    run_count_denied run_insert_protection visible_audit_events select fits utf16_length ◌>>=◌
check_protects = refl

abbrev later : Moment
later = record { now = 1900; fresh_id = "n"; fresh_token = "t" }

-- ===== src/Tests/Api.antt =====
-- Sequences of requests over the sample server and the sample signer.
mod Console
mod Protection
use oc.Base.{none, some, [], ◌∷◌, ◌≡◌, refl, ◌==◌, true, List}
use oc.Base.Text.{strip_prefix, utf16_length, utf8_length, trim, split, is_space}
use oc.Base.Exec.{ok, try_catch, try_finally, ◌>>=◌}
use oc.Contracts.{CreateCompanyRequest, LoginRequest, role_eq}
use oc.Database.{transaction, apply_session_context, clear_session_context}
use oc.Sql.Schema.{cleared}
use oc.Sql.Run.{select, exists}
use oc.Sql.Rows.{credential_roles, credential_user_roles, tenant_admin_role_rows, fits}
use oc.Sql.Policy.{tenant_predicate, tenant_or_global_principal_filter}
use oc.Sql.Execute.{
  execute, run_select_global_user, credential_rows, visible_users, visible_user_roles,
  run_insert_company, run_insert_admin, run_insert_tenant_admin_role, run_insert_audit_event,
}
use oc.Sql.Identity.{Identity}
use oc.Sql.Integrity.{IsIntact}
use oc.Sql.Authority.{SameAuthority, global_admins}
use oc.Audit.{record_event}
use oc.Audit.Json.{stringify}
use oc.Audit.Enumeration.{default_policy}
use oc.Auth.App.{App}
use oc.Auth.Credentials.{
  verify, find_global_user_rows, look_up, unique_roles, verify_password, timing_safe_equal,
  create_sha256_password_hash,
}
use oc.Auth.Credentials.Rows.{In}
use oc.Auth.Keys.{get_key, load_signing_key, load_verification_key, unescape_newlines, issue}
use oc.Auth.Token.{verify_session_token, assert_protected_header, check_header}
use oc.Auth.Login.{Body, object, LoginReply, login, parse_login_request, session_cookie_options}
use oc.Companies.{create_company, provision, provisioned}
use oc.Companies.Admissible.{Admissible}
use oc.Companies.Completes.{prepared, inserted}
use oc.Tenant.Context.{run, get_required}
use oc.Tenant.Middleware.{
  Request, serve, attach_context, attach_token, attach_verified, extract_session_token,
  resolve_source_ip,
}
use oc.Api.{
  Call, post_login, post_company, get_admin_access, get_ready, created, logged_in, answer, respond,
  after,
}
use oc.Api.Invariants.{after-IsIntact, after-SameAuthority}
use oc.Api.Logins.{respond-login-global_admins}
use oc.Api.Session.{SessionLives, context_on, respond_complete}
use oc.Sample.Signing.{jose, key_env, pair, session_token, root_authority}
use oc.Sample.Backend.{
  World, backend, backend-RunsSql, backend-RunsBoth, backend-IsUp, backend_transaction, plain,
  world,
}

abbrev pub app : App World (Unit {0}) (Unit {0})
app = record { world = world; signing_key = none; verification_key = none }

abbrev pub sa : Body
sa = object (some "sa") (some "secret")

abbrev pub globex : CreateCompanyRequest
globex = record { company_name = "Globex"; admin_email = "bob@globex.test" }

abbrev pub anonymous : Request
anonymous = record {
  authorization = none;
  cookie = none;
  x_forwarded_for = none;
  ip = some "192.0.2.1";
}

abbrev pub with_cookie : Request
with_cookie = record anonymous { cookie = some "session=h.session.s" }

-- a login, a provisioning with its cookie and one without, a probe of a tenant, and a readiness check
abbrev calls : List (Request × Call)
calls =
    (anonymous, post_login sa 1000)
    ∷ (with_cookie, post_company globex)
    ∷ (anonymous, post_company globex)
    ∷ (with_cookie, get_admin_access "acme")
    ∷ (anonymous, get_ready 1010)
    ∷ []

world-IsIntact : IsIntact plain world.durable
unfolding exists role_eq
world-IsIntact = record {
  companies = (tt, tt);
  roles = ((refl, (refl, (refl, tt))), ((refl, (refl, tt)), ((refl, tt), (tt, tt))));
  users = ((refl, tt), (tt, tt));
  tenant_roles = ((refl, tt), (tt, tt));
  global_roles = ((refl, tt), (tt, tt));
  users_fit = ((refl, refl), ((refl, refl), tt));
  user_roles_fit = ((refl, refl, refl), ((refl, refl, refl), tt));
  audit_events_fit = tt;
  protections_fit = tt;
}

after-IsIntact_example :
    IsIntact plain (after (λ s. s) jose key_env none default_policy backend calls app).world.durable
after-IsIntact_example =
    after-IsIntact (λ s. s) jose key_env none default_policy backend-RunsBoth calls app
      world-IsIntact

after-SameAuthority_example :
    SameAuthority world.durable
      (after (λ s. s) jose key_env none default_policy backend calls app).world.durable
after-SameAuthority_example =
    after-SameAuthority (λ s. s) jose key_env none default_policy backend-RunsBoth calls app

-- what these requests compute with
pub requests : Unit {0}
unfolding login parse_login_request verify find_global_user_rows look_up ◌>>=◌ transaction try_catch
    execute try_finally run_select_global_user clear_session_context credential_rows visible_users
    select tenant_or_global_principal_filter credential_user_roles visible_user_roles
    credential_roles unique_roles verify_password strip_prefix role_eq timing_safe_equal
    utf16_length utf8_length issue get_key load_signing_key unescape_newlines session_cookie_options
    attach_context attach_token attach_verified extract_session_token resolve_source_ip
    verify_session_token assert_protected_header check_header load_verification_key trim split serve
    run create_company get_required provision apply_session_context record_event run_insert_company
    run_insert_admin run_insert_tenant_admin_role run_insert_audit_event tenant_predicate exists
    tenant_admin_role_rows fits stringify answer respond after
requests = tt

abbrev pub reply : LoginReply
reply = record {
  authority = root_authority;
  session = session_token;
  options = session_cookie_options;
}

-- the first two requests
abbrev first_calls : List (Request × Call)
first_calls = (anonymous, post_login sa 1000) ∷ (with_cookie, post_company globex) ∷ []

sa_again :
    (respond
      (λ s. s)
      jose
      key_env
      none
      default_policy
      backend
      anonymous
      (post_login sa 1020)
      (after (λ s. s) jose key_env none default_policy backend first_calls app)).0
    ≡ ok (logged_in reply)
unfolding requests
sa_again = refl

respond-login-global_admins_example :
    (credentials : LoginRequest) × (i : Identity) × (parse_login_request sa ≡ ok credentials)
    × In i (global_admins world.durable)
    × ((plain.lower i.email == plain.lower credentials.username) ≡ true)
    × (reply.authority.user_id ≡ i.id)
    × (i.company_id ≡ none)
    × (i.password_hash ≡ some (create_sha256_password_hash (λ s. s) credentials.password))
respond-login-global_admins_example =
    respond-login-global_admins (λ s. s) jose key_env backend none default_policy {dialect = plain}
      backend-RunsBoth first_calls anonymous sa 1020 app reply sa_again

abbrev after_login : App World (Unit {0}) (Unit {0})
after_login = (login (λ s. s) jose key_env backend sa 1000 app).1

sa_logs_in : login (λ s. s) jose key_env backend sa 1000 app ≡ (ok reply, after_login)
unfolding requests
sa_logs_in = refl

key_loads : (get_key (load_signing_key jose key_env) none).0 ≡ ok tt
unfolding requests
key_loads = refl

verification_key_loads : (get_key (load_verification_key jose key_env) none).0 ≡ ok tt
unfolding requests
verification_key_loads = refl

abbrev restarted : App World (Unit {0}) (Unit {0})
restarted = record { world = after_login.world; signing_key = none; verification_key = none }

session_lives :
    SessionLives
      (λ s. s)
      jose
      key_env
      none
      default_policy
      backend-RunsSql
      sa
      1000
      app
      after_login
      reply
      sa_logs_in
      restarted
      with_cookie
      globex
      tt
      tt
unfolding is_space
session_lives = record {
  signs = key_loads;
  verifies = verification_key_loads;
  pair = pair;
  named = λ e. cc;
  filled = λ e. cc;
  text = refl;
  sent = (refl, refl);
}

abbrev begun_world : World
begun_world = record after_login.world {
  server = record { session = cleared; tables = after_login.world.durable };
}

globex-Admissible :
    Admissible plain
      (context_on none reply with_cookie)
      globex
      (backend-RunsSql.moment (
        prepared backend-IsUp restarted.world begun_world backend_transaction refl
          (context_on none reply with_cookie)
          globex))
      (backend-RunsSql.moment (
        inserted backend-IsUp restarted.world begun_world backend_transaction refl
          (context_on none reply with_cookie)
          globex))
      restarted.world.durable
unfolding requests
globex-Admissible = record {
  company_id = refl;
  admin_id = refl;
  company_id_given = refl;
  admin_id_given = refl;
  actor_id = refl;
  name_fits = refl;
  email_fits = refl;
  company_free = refl;
  admin_free = refl;
  role_known = λ e. cc;
  role_free = refl;
  actor_known = refl;
}

respond_complete_example :
    (respond
      (λ s. s)
      jose
      key_env
      none
      default_policy
      backend
      with_cookie
      (post_company globex)
      restarted).0
    ≡ ok (
        created (
          provisioned
            (backend-RunsSql.moment (
              prepared backend-IsUp restarted.world begun_world backend_transaction refl
                (context_on none reply with_cookie)
                globex)).fresh_id
            (backend-RunsSql.moment (
              inserted backend-IsUp restarted.world begun_world backend_transaction refl
                (context_on none reply with_cookie)
                globex)).fresh_id))
respond_complete_example =
    respond_complete (λ s. s) jose key_env none default_policy backend-RunsSql sa 1000 app
      after_login reply sa_logs_in restarted with_cookie globex tt tt session_lives backend-IsUp
      begun_world backend_transaction refl globex-Admissible

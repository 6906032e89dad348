-- ===== src/Tests/Session.antt =====
-- A login over the sample server and the sample signer.
use oc.Base.{some, none, ◌≡◌, refl}
use oc.Base.Text.{strip_prefix, utf16_length, utf8_length}
use oc.Base.Exec.{ok, try_catch, try_finally, ◌>>=◌}
use oc.Contracts.{role_eq}
use oc.Database.{transaction, clear_session_context}
use oc.Sql.Run.{select}
use oc.Sql.Rows.{credential_roles, credential_user_roles}
use oc.Sql.Policy.{tenant_or_global_principal_filter}
use oc.Sql.Execute.{
  execute, run_select_global_user, credential_rows, visible_users, visible_user_roles,
}
use oc.Auth.Keys.{get_key, load_signing_key, unescape_newlines, issue}
use oc.Auth.App.{App}
use oc.Auth.Credentials.{
  verify, find_global_user_rows, unique_roles, verify_password, timing_safe_equal,
}
use oc.Auth.Login.{Body, object, LoginReply, login, parse_login_request, session_cookie_options}
use oc.Auth.Login.Session.{session_context}
use oc.Auth.Keys.{load_verification_key}
use oc.Base.{true}
use oc.Base.Text.{is_space}
use oc.Tenant.Middleware.{Request, in_context, attach_context, resolve_source_ip}
use oc.Tenant.Middleware.Cookie.{is_cookie_text, attach_context-login}
use oc.Sample.Signing.{jose, key_env, pair, session_token, root_authority}
use oc.Sample.Backend.{World, backend, world}

abbrev app : App World (Unit {0}) (Unit {0})
app = record { world = world; signing_key = none; verification_key = none }

abbrev body : Body
body = object (some "sa") (some "secret")

abbrev reply : LoginReply
reply = record {
  authority = root_authority;
  session = session_token;
  options = session_cookie_options;
}

abbrev logged_in : App World (Unit {0}) (Unit {0})
logged_in = (login (λ s. s) jose key_env backend body 1000 app).1

sa_logs_in : login (λ s. s) jose key_env backend body 1000 app ≡ (ok reply, logged_in)
unfolding login parse_login_request verify find_global_user_rows ◌>>=◌ transaction try_catch execute
    try_finally run_select_global_user clear_session_context credential_rows visible_users select
    tenant_or_global_principal_filter credential_user_roles visible_user_roles credential_roles
    unique_roles verify_password strip_prefix role_eq timing_safe_equal utf16_length utf8_length
    issue get_key load_signing_key unescape_newlines session_cookie_options
sa_logs_in = refl

key_loads : (get_key (load_signing_key jose key_env) none).0 ≡ ok tt
unfolding get_key load_signing_key unescape_newlines
key_loads = refl

abbrev with_cookie : Request
with_cookie = record {
  authorization = none;
  cookie = some "session=h.session.s";
  x_forwarded_for = none;
  ip = some "192.0.2.1";
}

verification_key_loads : (get_key (load_verification_key jose key_env) none).0 ≡ ok tt
unfolding get_key load_verification_key unescape_newlines
verification_key_loads = refl

token_text : is_cookie_text session_token ≡ true
unfolding is_space
token_text = refl

-- the process after a restart, when no key has been loaded
abbrev restarted : App World (Unit {0}) (Unit {0})
restarted = record { world = logged_in.world; signing_key = none; verification_key = none }

attach_context-login_example :
    (attach_context jose key_env none with_cookie restarted).0
    ≡ ok (in_context (record (session_context root_authority) { source_ip = some "192.0.2.1" }))
unfolding resolve_source_ip
attach_context-login_example =
    attach_context-login (λ s. s) jose key_env backend none body 1000 app logged_in restarted reply
      tt tt with_cookie sa_logs_in key_loads verification_key_loads pair (λ e. cc) (λ e. cc)
      token_text (refl, refl)

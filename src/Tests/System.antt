-- ===== src/Tests/System.antt =====
-- A login through the page, over the sample server and the sample signer.
use oc.Base.{none, some, [], ◌∷◌, ◌≡◌, refl}
use oc.Base.Text.{strip_prefix, utf16_length, utf8_length, trim, split}
use oc.Base.Exec.{ok, try_catch, try_finally, ◌>>=◌}
use oc.Contracts.{role_eq}
use oc.Database.{transaction, clear_session_context}
use oc.Sql.Run.{select}
use oc.Sql.Rows.{credential_roles, credential_user_roles}
use oc.Sql.Policy.{tenant_or_global_principal_filter}
use oc.Sql.Execute.{
  execute, run_select_global_user, credential_rows, visible_users, visible_user_roles,
}
use oc.Sql.Identity.{Identity}
use oc.Sql.Authority.{global_admins}
use oc.Audit.Enumeration.{default_policy}
use oc.Auth.App.{App}
use oc.Auth.Credentials.{
  verify, find_global_user_rows, look_up, unique_roles, verify_password, timing_safe_equal,
}
use oc.Auth.Credentials.Rows.{In}
use oc.Auth.Keys.{get_key, load_signing_key, unescape_newlines, issue}
use oc.Auth.Login.{LoginReply, login, parse_login_request, session_cookie_options}
use oc.Tenant.Context.{run}
use oc.Tenant.Middleware.{Request, serve, attach_context, attach_token, extract_session_token}
use oc.Api.{post_login, logged_in, answer, respond}
use oc.Web.Session.{
  signed_out, page_at, admin_shell, apply_login_authority, tenant_admin_guard,
  can_provision_tenants,
}
use oc.Web.Login.{created, submit, on_authority, finalized}
use oc.System.{
  System, Reachable, start, next, types_password, submits, is_admitted, body_of,
  Reachable-admin_shell,
}
use oc.Sample.Signing.{jose, key_env, session_token, root_authority}
use oc.Sample.Backend.{World, backend, backend-RunsBoth, world}

abbrev app : App World (Unit {0}) (Unit {0})
app = record { world = world; signing_key = none; verification_key = none }

abbrev anonymous : Request
anonymous = record {
  authorization = none;
  cookie = none;
  x_forwarded_for = none;
  ip = some "192.0.2.1";
}

abbrev opened : System World (Unit {0}) (Unit {0})
opened = record { form = created signed_out; app = app }

abbrev filled : System World (Unit {0}) (Unit {0})
filled = record opened { form = record opened.form { password = "secret" } }

abbrev sent : System World (Unit {0}) (Unit {0})
sent = record filled { form = submit filled.form }

abbrev reply : LoginReply
reply = record {
  authority = root_authority;
  session = session_token;
  options = session_cookie_options;
}

-- what the API computes with
answers : Unit {0}
unfolding login parse_login_request verify find_global_user_rows look_up ◌>>=◌ transaction try_catch
    execute try_finally run_select_global_user clear_session_context credential_rows visible_users
    select tenant_or_global_principal_filter credential_user_roles visible_user_roles
    credential_roles unique_roles verify_password strip_prefix role_eq timing_safe_equal
    utf16_length utf8_length issue get_key load_signing_key unescape_newlines session_cookie_options
    attach_context attach_token extract_session_token trim split serve run answer respond
answers = tt

sa_answered :
    (respond
      (λ s. s)
      jose
      key_env
      none
      default_policy
      backend
      anonymous
      (post_login (body_of (record { username = "sa"; password = "secret" })) 1000)
      app).0
    ≡ ok (logged_in reply)
unfolding answers
sa_answered = refl

abbrev entered : System World (Unit {0}) (Unit {0})
entered = record {
  form = on_authority reply.authority sent.form;
  app =
      (respond (λ s. s) jose key_env none default_policy backend anonymous
        (post_login (body_of (record { username = "sa"; password = "secret" })) 1000) app).1;
}

in_flight : sent.form.in_flight ≡ record { username = "sa"; password = "secret" } ∷ []
unfolding submit
in_flight = refl

entered-reached : Reachable (λ s. s) jose key_env none default_policy backend app entered
entered-reached =
    next (next (next start (types_password opened "secret")) (submits filled))
      (is_admitted sent _ _ anonymous 1000 reply in_flight sa_answered)

shell_shown : page_at entered.form.auth "" ≡ admin_shell
unfolding page_at tenant_admin_guard can_provision_tenants on_authority finalized
    apply_login_authority
shell_shown = refl

Reachable-admin_shell_example :
    (i : Identity) × In i (global_admins world.durable) × (entered.form.auth.user_id ≡ some i.id)
Reachable-admin_shell_example =
    Reachable-admin_shell (λ s. s) jose key_env none default_policy backend backend-RunsBoth ""
      entered-reached shell_shown

-- ===== src/Tests/Api/Protection.antt =====
-- A source under protection that asks again after a login, over the sample server.
use oc.Base.{ℕ, arith, true, none, some, List, [], ◌∷◌, ◌≡◌, refl, inl}
use oc.Base.Text.{truthy}
use oc.Base.Exec.{ok, err}
use oc.Contracts.{AuthContext}
use oc.Database.Statements.{QueryResult, ProtectionRow, select_blocked}
use oc.Sql.Run.{take, latest_first, insert_latest}
use oc.Sql.Execute.{run_select_blocked}
use oc.Audit.Enumeration.{default_policy}
use oc.Auth.App.{App}
use oc.Tenant.Middleware.{Request, in_context, attach_context}
use oc.TenantAccess.{blocked_failure}
use oc.Api.{Call, post_login, get_admin_access, respond, after}
use oc.Api.Session.{context_on}
use oc.Api.Protection.{after-blocked_failure}
use oc.Sample.Signing.{jose, key_env}
use oc.Sample.Backend.{World, backend, backend-RunsBoth, world}
use oc.Tests.Api.{sa, anonymous, with_cookie, reply, requests}

abbrev row : ProtectionRow
row = record {
  source_ip = "192.0.2.1";
  reason = "identifier_enumeration_threshold";
  denied_attempt_count = 5;
  window_seconds = 600;
  blocked_until = 1900;
}

abbrev protected_app : App World (Unit {0}) (Unit {0})
protected_app = record {
  world = record world { durable = record world.durable { ip_protection_events = row ∷ [] } };
  signing_key = none;
  verification_key = none;
}

abbrev calls : List (Request × Call)
calls = (anonymous, post_login sa 1000) ∷ []

abbrev context : AuthContext
context = context_on none reply with_cookie

attached :
    (attach_context jose key_env none with_cookie
      (after (λ s. s) jose key_env none default_policy backend calls protected_app)).0
    ≡ ok (in_context context)
unfolding requests
attached = refl

source_known : context.source_ip ≡ some row.source_ip
unfolding requests
source_known = refl

filled : truthy row.source_ip ≡ true
filled = refl

abbrev found : QueryResult ℕ
found = record { rows = 1900 ∷ []; rows_affected = some 1 }

look_up_runs :
    (backend.query
      (select_blocked "192.0.2.1")
      (after (λ s. s) jose key_env none default_policy backend calls protected_app).world).0
    ≡ ok found
unfolding requests run_select_blocked take latest_first insert_latest
look_up_runs = refl

after-blocked_failure_example :
    (respond
      (λ s. s)
      jose
      key_env
      none
      default_policy
      backend
      with_cookie
      (get_admin_access "acme")
      (after (λ s. s) jose key_env none default_policy backend calls protected_app)).0
    ≡ err blocked_failure
after-blocked_failure_example =
    after-blocked_failure (λ s. s) jose key_env none default_policy backend-RunsBoth calls
      protected_app row with_cookie context "acme" found (inl refl) filled source_known attached
      (omega arith) look_up_runs

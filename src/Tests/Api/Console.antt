-- ===== src/Tests/Api/Console.antt =====
-- A provisioning through the page, over the sample server and the sample signer.
use oc.Base.{none, [], ◌∷◌, ◌≡◌, refl}
use oc.Base.Text.{is_space}
use oc.Base.Exec.{ok}
use oc.Contracts.{CreateCompanyResponse}
use oc.Sql.Recorded.{IsRecorded}
use oc.Audit.Enumeration.{default_policy}
use oc.Companies.{provisioned}
use oc.Api.{post_company, get_admin_access, created, respond}
use oc.Web.Email.{is_valid_email, is_word, all_word, matches_dot, matches_domain, matches_at}
use oc.Web.Shell
use oc.Web.Shell.{
  Provisioned, success, update_company_name, update_admin_email, provision_tenant, on_response,
}
use oc.System.Provisioning.{
  Console, Reachable, start, next, types_company_name, types_admin_email, submits, is_answered,
  serves, Reachable-IsRecorded,
}
use oc.Sample.Signing.{jose, key_env}
use oc.Sample.Backend.{World, backend, backend-RunsBoth}
use oc.Tests.Api.{app, globex, anonymous, with_cookie, requests}

abbrev opened : Console World (Unit {0}) (Unit {0})
opened = record { form = Shell.created; app = app }

abbrev named : Console World (Unit {0}) (Unit {0})
named = record opened { form = update_company_name " Globex" opened.form }

abbrev filled : Console World (Unit {0}) (Unit {0})
filled = record named { form = update_admin_email "bob@globex.test" named.form }

abbrev sent : Console World (Unit {0}) (Unit {0})
sent = record filled { form = provision_tenant filled.form }

abbrev response : CreateCompanyResponse
response = provisioned "nnid" "nnnid"

in_flight : sent.form.in_flight ≡ globex ∷ []
unfolding provision_tenant update_company_name update_admin_email is_valid_email is_word all_word
    matches_dot matches_domain matches_at is_space requests
in_flight = refl

answered :
    (respond
      (λ s. s)
      jose
      key_env
      none
      default_policy
      backend
      with_cookie
      (post_company globex)
      app).0
    ≡ ok (created response)
unfolding requests
answered = refl

abbrev provisioned_console : Console World (Unit {0}) (Unit {0})
provisioned_console = record {
  form = on_response globex response sent.form;
  app =
      (respond (λ s. s) jose key_env none default_policy backend with_cookie (post_company globex)
        app).1;
}

-- somebody else probes for a company meanwhile
abbrev later : Console World (Unit {0}) (Unit {0})
later = record provisioned_console {
  app =
      (respond (λ s. s) jose key_env none default_policy backend anonymous (get_admin_access "acme")
        provisioned_console.app).1;
}

later-reached : Reachable (λ s. s) jose key_env none default_policy backend app later
later-reached =
    next
      (next
        (next
          (next (next start (types_company_name opened " Globex"))
            (types_admin_email named "bob@globex.test"))
          (submits filled))
        (is_answered sent globex [] with_cookie response in_flight answered))
      (serves provisioned_console anonymous (get_admin_access "acme"))

abbrev shown : Provisioned
shown = record {
  company_id = response.company_id;
  admin_user_id = response.admin_user_id;
  bootstrap_access_mode = response.bootstrap_access_mode;
  force_rotate_on_first_use = response.force_rotate_on_first_use;
  company_name = "Globex";
  admin_email = "bob@globex.test";
}

success_shown : later.form.view_state ≡ success shown
unfolding on_response
success_shown = refl

Reachable-IsRecorded_example :
    IsRecorded "nnid" "Globex" "nnnid" "bob@globex.test" later.app.world.durable
Reachable-IsRecorded_example =
    Reachable-IsRecorded (λ s. s) jose key_env none default_policy backend backend-RunsBoth shown
      later-reached success_shown

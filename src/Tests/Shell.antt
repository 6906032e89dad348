-- ===== src/Tests/Shell.antt =====
-- The web client's routes, its address check and its provisioning form at concrete inputs.
use oc.Base.{true, false, ◌≡◌, refl, ◌↔◌}
use oc.Base.Text.{is_space}
use oc.Web.Email.{is_valid_email, is_word, all_word, matches_dot, matches_domain, matches_at}
use oc.Web.Email.Split.{IsEmail, is_valid_email-IsEmail}
use oc.Web.Session.{admin_shell, signed_out}
use oc.Web.Html.{Labelled}
use oc.Web.Login
use oc.Web.Outlet.{outlet, outlet-Labelled}
use oc.Web.Shell.{
  AdminShell, created, is_submitting, provision_tenant, update_company_name, update_admin_email,
  touch_both, open_security_dialog,
}
use oc.Web.Shell.Steps.{
  Agrees, Reachable, start, next, types_company_name, types_admin_email, submits, Reachable-Agrees,
}

is_valid_email-IsEmail_example :
    (is_valid_email "bob@globex.test" ≡ true) ↔ IsEmail "bob@globex.test"
is_valid_email-IsEmail_example = is_valid_email-IsEmail "bob@globex.test"

-- addresses, good and bad
good : is_valid_email "bob@globex.co.test" ≡ true
unfolding is_valid_email is_word all_word matches_dot matches_domain matches_at is_space
good = refl

twice_at : is_valid_email "bob@a@b.test" ≡ false
unfolding is_valid_email is_word all_word matches_dot matches_domain matches_at is_space
twice_at = refl

abbrev named : AdminShell
named = update_company_name " Globex " created

abbrev filled : AdminShell
filled = update_admin_email "bob@globex.test" named

abbrev submitted : AdminShell
submitted = provision_tenant filled

submitted-Reachable : Reachable submitted
unfolding update_company_name update_admin_email
submitted-Reachable =
    next
      (next (next start (types_company_name created " Globex " refl))
        (types_admin_email named "bob@globex.test" refl))
      (submits filled)

Reachable-Agrees_example : Agrees submitted.view_state submitted.in_flight
Reachable-Agrees_example = Reachable-Agrees submitted-Reachable

filled-free : is_submitting filled ≡ false
unfolding update_company_name update_admin_email
filled-free = refl

-- both fields show an error, and the dialog is open
abbrev faulty : AdminShell
faulty = open_security_dialog "Review policy" (touch_both created)

outlet-Labelled_example : Labelled (outlet admin_shell faulty (Login.created signed_out))
outlet-Labelled_example = outlet-Labelled admin_shell faulty (Login.created signed_out)

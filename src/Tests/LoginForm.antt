-- ===== src/Tests/LoginForm.antt =====
-- The login form of the web client at concrete inputs.
use oc.Base.{true, ◌≡◌, refl}
use oc.Web.Session.{signed_out}
use oc.Web.Login.{LoginForm, created, submit}
use oc.Web.Login.Steps.{Agrees, Reachable, start, next, types_password, submits, login-Agrees}

abbrev typed : LoginForm
typed = record (created signed_out) { password = "secret" }

abbrev sent : LoginForm
sent = submit typed

sent-Reachable : Reachable sent
sent-Reachable = next (next start (types_password (created signed_out) "secret")) (submits typed)

sent_loads : sent.is_loading ≡ true
unfolding submit
sent_loads = refl

login-Agrees_example : Agrees sent.is_loading sent.in_flight
login-Agrees_example = login-Agrees sent-Reachable

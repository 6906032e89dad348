-- ===== src/Web/Shell.antt =====
-- apps/web/src/app/shell/admin-shell.component.ts: the provisioning form as a state machine. Its
-- surroundings are in the state: the requests that are in flight, the announcements made, the focus.
pub mod View
pub mod Page
pub mod Steps
use oc.Base.{String, Option, none, some, Bool, true, false, List, [], ◌∷◌, not, ◌||◌, if◌then◌else◌}
use Prim.Native.String
use oc.Base.Text.{truthy, trim}
use oc.Contracts.{CreateCompanyRequest, CreateCompanyResponse, BootstrapAccessMode}
use oc.Web.Email.{is_valid_email}

-- The fields of the state "success"
pub record Provisioned : Type 0 where
  pub company_id : String
  pub admin_user_id : String
  pub bootstrap_access_mode : BootstrapAccessMode
  pub force_rotate_on_first_use : Bool
  pub company_name : String
  pub admin_email : String

-- `ProvisioningViewState`
pub data ProvisioningViewState : Type 0 where
  idle submitting : ProvisioningViewState
  success : Provisioned → ProvisioningViewState
  error : (message : String) → ProvisioningViewState

pub data Politeness : Type 0 where
  polite assertive : Politeness

-- An element is known by its name.
pub record AdminShell : Type 0 where
  pub company_name : String
  pub admin_email : String
  pub company_name_touched : Bool
  pub admin_email_touched : Bool
  pub view_state : ProvisioningViewState
  pub security_dialog_open : Bool
  pub security_dialog_invoker : Option String
  pub in_flight : List CreateCompanyRequest
  pub announced : List (String × Politeness)
  pub focused : Option String

-- the component as it is created
abbrev pub created : AdminShell
created = record {
  company_name = "";
  admin_email = "";
  company_name_touched = false;
  admin_email_touched = false;
  view_state = idle;
  security_dialog_open = false;
  security_dialog_invoker = none;
  in_flight = [];
  announced = [];
  focused = none;
}

abbrev pub is_submitting_state : ProvisioningViewState → Bool
is_submitting_state submitting = true
is_submitting_state _ = false

abbrev pub is_submitting : AdminShell → Bool
is_submitting s = is_submitting_state s.view_state

unfoldable pub update_company_name : String → AdminShell → AdminShell
update_company_name value s = record s { company_name = value; view_state = idle }

unfoldable pub update_admin_email : String → AdminShell → AdminShell
update_admin_email value s = record s { admin_email = value; view_state = idle }

-- the blur events of the two inputs
unfoldable pub blur_company_name : AdminShell → AdminShell
blur_company_name s = record s { company_name_touched = true }

unfoldable pub blur_admin_email : AdminShell → AdminShell
blur_admin_email s = record s { admin_email_touched = true }

abbrev pub payload : AdminShell → CreateCompanyRequest
payload s = record { company_name = trim s.company_name; admin_email = trim s.admin_email }

abbrev pub fix_message : String
fix_message = "Fix the highlighted fields before creating a company."

-- a state that tells of an error, aloud
abbrev pub tell_error : String → AdminShell → AdminShell
tell_error message s = record s {
  view_state = error message;
  announced = (message, assertive) ∷ s.announced;
}

abbrev pub touch_both : AdminShell → AdminShell
touch_both s = record s { company_name_touched = true; admin_email_touched = true }

abbrev pub post : CreateCompanyRequest → AdminShell → AdminShell
post request s = record s { view_state = submitting; in_flight = request ∷ s.in_flight }

unfoldable pub provision_tenant : AdminShell → AdminShell
provision_tenant s =
    if is_submitting s
    then s
    else if not (truthy (trim s.company_name)) || not (is_valid_email (trim s.admin_email))
    then tell_error fix_message (touch_both s)
    else post (payload s) (touch_both s)

-- the requests that are left when the first of them is answered
abbrev pub rest_in_flight : List CreateCompanyRequest → List CreateCompanyRequest
rest_in_flight [] = []
rest_in_flight (r ∷ rs) = rs

abbrev pub success_message : CreateCompanyResponse → String
success_message response = String.◌++◌ "Company " (
    String.◌++◌ response.company_id (
      String.◌++◌ " provisioned with initial tenant_admin " (
        String.◌++◌ response.admin_user_id
          ". Bootstrap policy metadata only; no secrets displayed.")))

-- the observer's `next`, for the request that it closes over
unfoldable pub on_response : CreateCompanyRequest → CreateCompanyResponse → AdminShell → AdminShell
on_response request response s = record s {
  view_state = success (record {
    company_id = response.company_id;
    admin_user_id = response.admin_user_id;
    bootstrap_access_mode = response.bootstrap_access_mode;
    force_rotate_on_first_use = response.force_rotate_on_first_use;
    company_name = request.company_name;
    admin_email = request.admin_email;
  });
  in_flight = rest_in_flight s.in_flight;
  announced = (success_message response, polite) ∷ s.announced;
}

-- the observer's `error`
unfoldable pub on_failure : AdminShell → AdminShell
on_failure s =
    tell_error "Company provisioning failed. No secrets were returned or displayed."
      (record s { in_flight = rest_in_flight s.in_flight })

unfoldable pub open_security_dialog : String → AdminShell → AdminShell
open_security_dialog target s = record s {
  security_dialog_invoker = some target;
  security_dialog_open = true;
}

abbrev pub focus_on : Option String → Option String → Option String
focus_on none focused = focused
focus_on (some e) focused = some e

unfoldable pub close_security_dialog : AdminShell → AdminShell
close_security_dialog s = record s {
  security_dialog_open = false;
  focused = focus_on s.security_dialog_invoker s.focused;
}

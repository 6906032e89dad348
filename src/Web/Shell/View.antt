-- ===== src/Web/Shell/View.antt =====
-- The template of admin-shell.component.ts: what the page shows of a state.
use oc.Base.{String, Option, none, some, Bool, List, [], ◌∷◌, is_some, if◌then◌else◌}
use oc.Base.Text.{truthy, trim}
use oc.Contracts.{BootstrapAccessMode, one_time_token, temporary_password, invite_link}
use Prim.Native.String
use oc.Web.Email.{is_valid_email}
use oc.Web.Shell.{AdminShell, ProvisioningViewState, success, error, Provisioned, is_submitting}

-- the computed signals
unfoldable pub company_name_error : AdminShell → Option String
company_name_error s =
    if s.company_name_touched
    then (if truthy (trim s.company_name) then none else some "Company name is required.")
    else none

unfoldable pub admin_email_error : AdminShell → Option String
admin_email_error s =
    if s.admin_email_touched
    then (if is_valid_email (trim s.admin_email)
        then none
        else some "Enter a valid initial admin email address.")
    else none

abbrev pub success_state : ProvisioningViewState → Option Provisioned
success_state (success p) = some p
success_state _ = none

abbrev pub error_state : ProvisioningViewState → Option String
error_state (error message) = some message
error_state _ = none

-- An input of the form, with the alert below it
pub record Input : Type 0 where
  pub name : String
  pub value : String
  pub disabled : Bool
  pub aria_invalid : Bool
  pub aria_described_by : Option String
  pub alert : Option String

pub record Button : Type 0 where
  pub text : String
  pub disabled : Bool

pub record Form : Type 0 where
  pub company_name : Input
  pub admin_email : Input
  pub submit : Button

abbrev pub described_by : Option String → String → Option String
described_by none id = none
described_by (some message) id = some id

unfoldable pub form_view : AdminShell → Form
unfolding company_name_error admin_email_error
form_view s = record {
  company_name = record {
    name = "companyName";
    value = s.company_name;
    disabled = is_submitting s;
    aria_invalid = is_some (company_name_error s);
    aria_described_by = described_by (company_name_error s) "company-name-error";
    alert = company_name_error s;
  };
  admin_email = record {
    name = "adminEmail";
    value = s.admin_email;
    disabled = is_submitting s;
    aria_invalid = is_some (admin_email_error s);
    aria_described_by = described_by (admin_email_error s) "admin-email-error";
    alert = admin_email_error s;
  };
  submit = record {
    text = if is_submitting s then "Creating company..." else "Create company";
    disabled = is_submitting s;
  };
}

-- The feedback below the form: the terms of a success are pairs of a label and a text.
pub record Feedback : Type 0 where
  pub pending : Option String
  pub panel : List (String × String)
  pub alert : Option String

abbrev mode_name : BootstrapAccessMode → String
mode_name one_time_token = "one_time_token"
mode_name invite_link = "invite_link"
mode_name temporary_password = "temporary_password"

abbrev pub panel_of : Option Provisioned → List (String × String)
panel_of none = []
panel_of (some p) =
    ("Company", p.company_name)
    ∷ ("Initial admin", p.admin_email)
    ∷ ("Company ID", p.company_id)
    ∷ ("Admin user ID", p.admin_user_id)
    ∷ (
      "Bootstrap policy",
      String.◌++◌ (mode_name p.bootstrap_access_mode) "; rotation required on first use.",
    )
    ∷ []

unfoldable pub feedback_view : AdminShell → Feedback
feedback_view s = record {
  pending = if is_submitting s then some "Creating company and initial tenant_admin..." else none;
  panel = panel_of (success_state s.view_state);
  alert = error_state s.view_state;
}

-- `AuditSignal`
pub data Tone : Type 0 where
  danger info warning : Tone

pub record AuditSignal : Type 0 where
  pub tone : Tone
  pub title : String
  pub detail : String

abbrev pub audit_signals : List AuditSignal
audit_signals =
    record {
      tone = danger;
      title = "403 cross-tenant access denied";
      detail = "actor=tenant_admin target=Tenant B reason=scope_mismatch";
    }
    ∷ record {
      tone = info;
      title = "SESSION_CONTEXT set for transaction";
      detail = "company_id=UUID-A policy=TenantSecurityPolicy";
    }
    ∷ record {
      tone = warning;
      title = "Enumeration threshold approaching";
      detail = "source=203.0.113.42 denied=4 window=10m";
    }
    ∷ []

abbrev tone_class : Tone → String
tone_class danger = "danger"
tone_class info = "info"
tone_class warning = "warning"

-- A row of the audit panel: its classes, its title and its text
unfoldable pub audit_rows : List AuditSignal → List (String × String × String)
audit_rows [] = []
audit_rows (g ∷ gs) =
    (String.◌++◌ "audit-row " (tone_class g.tone), g.title, g.detail) ∷ audit_rows gs

-- The dialog, while it is open: its title, its text and its button
unfoldable pub dialog_view : AdminShell → Option (String × String × String)
dialog_view s =
    if s.security_dialog_open
    then some (
      "Security validation policy",
      "Denied cross-tenant access is audited. Enumeration thresholds trigger temporary protection.",
      "Close",
    )
    else none

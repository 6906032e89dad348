-- ===== src/Web/Shell/Page.antt =====
-- The template of admin-shell.component.ts. Event bindings are the steps of Web.Shell.Steps.
use oc.Base.{String, Option, none, some, Bool, List, [], ◌∷◌, if◌then◌else◌}
use oc.Web.Html.{
  Node, Nodes, text, element, block, end, ◌▹◌, Attribute, attr, flag, class, labelled,
}
use oc.Web.Shell.{
  AdminShell, ProvisioningViewState, idle, submitting, success, error, is_submitting,
}
use oc.Web.Shell.View.{
  company_name_error, admin_email_error, described_by, panel_of, audit_signals, audit_rows,
}

abbrev nav_item : String → String → Node
nav_item classes name = labelled "button" (attr "class" classes ∷ attr "type" "button" ∷ []) name

unfoldable pub sidebar : Node
sidebar =
    element "aside" (attr "class" "sidebar glass-panel" ∷ attr "aria-label" "Admin navigation" ∷ [])
      (element "div" (class "brand") (
          labelled "div" (attr "class" "brand-mark" ∷ attr "aria-hidden" "true" ∷ []) "S"
          ▹ element "div" []
              (labelled "strong" [] "OC01 Control" ▹ labelled "span" [] "Tenant Security" ▹ end)
          ▹ end)
        ▹ element "nav" [] (
            nav_item "nav-item active" "Provisioning"
            ▹ nav_item "nav-item" "Tenants"
            ▹ nav_item "nav-item" "Audit Log"
            ▹ nav_item "nav-item" "RLS Policies"
            ▹ end)
        ▹ element "section" (attr "class" "posture" ∷ attr "aria-label" "Isolation status" ∷ []) (
            labelled "span" [] "Isolation status"
            ▹ labelled "strong" [] "RLS Active"
            ▹ labelled "p" [] "Backend and persistence boundaries enforced."
            ▹ end)
        ▹ end)

unfoldable pub topbar : Node
topbar = element "header" (class "topbar glass-panel") (
    element "div" [] (
      labelled "p" (class "eyebrow") "super_admin provisioning and isolation monitoring"
      ▹ labelled "h1" [] "SaaS Tenant Command"
      ▹ end)
    ▹ labelled "span" (class "authority") "super_admin"
    ▹ end)

abbrev metric : (classes name value detail : String) → Node
metric classes name value detail =
    element "article" (class classes)
      (labelled "span" [] name ▹ labelled "strong" [] value ▹ labelled "p" [] detail ▹ end)

unfoldable pub metrics : Node
metrics = element "section" (attr "class" "metrics" ∷ attr "aria-label" "Security metrics" ∷ []) (
    metric "metric glass-panel" "Tenants" "24" "Company-scoped admins"
    ▹ metric "metric danger glass-panel" "Denied cross-tenant" "7" "Audited with actor and reason"
    ▹ metric "metric success glass-panel" "RLS policy" "ON" "SESSION_CONTEXT verified"
    ▹ end)

-- `error() ? 'true' : null`
abbrev true_if : Option String → Option String
true_if none = none
true_if (some message) = some "true"

-- `@if (error(); as error)`, below an input
abbrev field_error : Option String → String → Nodes
field_error none id = end
field_error (some message) id =
    labelled "p" (attr "id" id ∷ attr "class" "field-error" ∷ attr "role" "alert" ∷ []) message
    ▹ end

-- the form, of the errors that the fields show
unfoldable pub provision_form : (name_error email_error : Option String) → AdminShell → Node
provision_form name_error email_error s =
    element "form" (attr "class" "provision-form" ∷ attr "novalidate" "" ∷ []) (
      element "label" [] (
        text "Company name"
        ▹ element "input"
            (attr "name" "companyName"
              ∷ attr "autocomplete" "organization"
              ∷ ("aria-invalid", true_if name_error)
              ∷ ("aria-describedby", described_by name_error "company-name-error")
              ∷ attr "value" s.company_name
              ∷ flag "disabled" (is_submitting s)
              ∷ [])
            end
        ▹ end)
      ▹ block (field_error name_error "company-name-error")
      ▹ element "label" [] (
          text "Initial admin email"
          ▹ element "input"
              (attr "name" "adminEmail"
                ∷ attr "type" "email"
                ∷ attr "autocomplete" "email"
                ∷ ("aria-invalid", true_if email_error)
                ∷ ("aria-describedby", described_by email_error "admin-email-error")
                ∷ attr "value" s.admin_email
                ∷ flag "disabled" (is_submitting s)
                ∷ [])
              end
          ▹ end)
      ▹ block (field_error email_error "admin-email-error")
      ▹ labelled "button"
          (attr "class" "primary" ∷ attr "type" "submit" ∷ flag "disabled" (is_submitting s) ∷ [])
          (if is_submitting s then "Creating company..." else "Create company")
      ▹ end)

-- the terms of the panel
abbrev terms : List (String × String) → Nodes
terms [] = end
terms ((term, value) ∷ rest) =
    element "div" [] (labelled "dt" [] term ▹ labelled "dd" [] value ▹ end) ▹ terms rest

abbrev status : String → List Attribute
status classes = attr "class" classes ∷ attr "role" "status" ∷ attr "aria-live" "polite" ∷ []

-- the three blocks below the form, of which a state shows at most one
unfoldable pub feedback : ProvisioningViewState → Nodes
feedback idle = end
feedback submitting =
    labelled "p" (status "feedback pending") "Creating company and initial tenant_admin..." ▹ end
feedback (success p) =
    element "section" (status "feedback success-panel") (
      labelled "h3" [] "Company provisioned"
      ▹ element "dl" [] (terms (panel_of (some p)))
      ▹ labelled "p" [] "No passwords, tokens, or bootstrap secrets are displayed."
      ▹ end)
    ▹ end
feedback (error message) =
    labelled "p"
      (attr "class" "feedback error-panel"
        ∷ attr "role" "alert"
        ∷ attr "aria-live" "assertive"
        ∷ [])
      message
    ▹ end

unfoldable pub provision_panel : (name_error email_error : Option String) → AdminShell → Node
unfolding provision_form feedback
provision_panel name_error email_error s =
    element "article"
      (attr "class" "glass-panel provision" ∷ attr "aria-labelledby" "provision-title" ∷ [])
      (labelled "h2" (attr "id" "provision-title" ∷ []) "Provision Company"
        ▹ labelled "p" []
            "Create a company and its first company-scoped tenant_admin in one provisioning action. Confirmation only shows non-secret metadata."
        ▹ provision_form name_error email_error s
        ▹ block (feedback s.view_state)
        ▹ end)

abbrev rows : List (String × String × String) → Nodes
rows [] = end
rows ((classes, title, detail) ∷ rest) =
    element "div" (class classes) (labelled "strong" [] title ▹ labelled "span" [] detail ▹ end)
    ▹ rows rest

unfoldable pub audit_panel : Node
unfolding audit_rows
audit_panel =
    element "article" (attr "class" "glass-panel audit" ∷ attr "aria-labelledby" "audit-title" ∷ [])
      (element "div" (class "audit-header") (
          labelled "h2" (attr "id" "audit-title" ∷ []) "Audit Signals"
          ▹ labelled "button" (attr "type" "button" ∷ []) "Review policy"
          ▹ end)
        ▹ block (rows (audit_rows audit_signals))
        ▹ end)

unfoldable pub dialog : Node
dialog = element "section" (attr "class" "dialog-backdrop" ∷ attr "role" "presentation" ∷ []) (
    element "div"
      (attr "class" "dialog glass-panel"
        ∷ attr "role" "dialog"
        ∷ attr "aria-modal" "true"
        ∷ attr "aria-labelledby" "dialog-title"
        ∷ attr "cdkTrapFocus" ""
        ∷ [])
      (labelled "h2" (attr "id" "dialog-title" ∷ []) "Security validation policy"
        ▹ labelled "p" []
            "Denied cross-tenant access is audited. Enumeration thresholds trigger temporary protection."
        ▹ labelled "button" (attr "type" "button" ∷ []) "Close"
        ▹ end)
    ▹ end)

unfoldable pub shell_of :
    (name_error email_error : Option String) (dialog_open : Bool) → AdminShell → Nodes
unfolding sidebar topbar metrics provision_panel audit_panel dialog
shell_of name_error email_error dialog_open s =
    element "main" (class "workspace") (
      sidebar
      ▹ element "section" (class "content") (
          topbar
          ▹ metrics
          ▹ element "section" (class "panels")
              (provision_panel name_error email_error s ▹ audit_panel ▹ end)
          ▹ end)
      ▹ block (if dialog_open then dialog ▹ end else end)
      ▹ end)
    ▹ end

-- the page of a state
unfoldable pub shell_page : AdminShell → Nodes
unfolding shell_of company_name_error admin_email_error
shell_page s = shell_of (company_name_error s) (admin_email_error s) s.security_dialog_open s

-- ===== src/Web/Outlet.antt =====
-- apps/web/src/app/app.component.ts: the router outlet shows the page of the route.
use oc.Base.{String, Option, none, some, Bool, true, false, List, [], ◌∷◌, ◌≡◌, refl, ◌==◌}
use oc.Base.{◌++◌, ap, sym, ◌∙◌}
use mathlib.Core.Path.{subst}
use oc.Sql.Each.{Each, Distinct}
use oc.Sql.Run.{exists}
use oc.Web.Html.{
  Nodes, values, nodes_values, nodes_bare_labels, nodes_loose_inputs, nodes_have_input, targets,
  Labelled, ids, references,
}
use oc.Web.Session.{Page, admin_shell, login_page}
use oc.Web.Shell.{AdminShell, ProvisioningViewState, idle, submitting, success, error}
use oc.Web.Shell.View.{company_name_error, admin_email_error, audit_rows}
use oc.Web.Shell.Page.{
  shell_page, shell_of, sidebar, topbar, metrics, provision_panel, provision_form, feedback,
  audit_panel, dialog,
}
use oc.Web.Login.{LoginForm, login_view}
use oc.Web.Login.Page.{login_of, login_markup}

unfoldable pub outlet : Page → AdminShell → LoginForm → Nodes
outlet admin_shell shell form = shell_page shell
outlet login_page shell form = login_markup form

-- The feedback neither names an element nor is named.
ids-feedback : (v : ProvisioningViewState) → ids (feedback v) ≡ []
unfolding feedback nodes_values values
ids-feedback idle = refl
ids-feedback submitting = refl
ids-feedback (success p) = refl
ids-feedback (error message) = refl

references-feedback : (v : ProvisioningViewState) → references (feedback v) ≡ []
unfolding feedback nodes_values values
references-feedback idle = refl
references-feedback submitting = refl
references-feedback (success p) = refl
references-feedback (error message) = refl

bare_labels-feedback : (v : ProvisioningViewState) → nodes_bare_labels (feedback v) ≡ []
unfolding feedback nodes_bare_labels values
bare_labels-feedback idle = refl
bare_labels-feedback submitting = refl
bare_labels-feedback (success p) = refl
bare_labels-feedback (error message) = refl

loose_inputs-feedback : (v : ProvisioningViewState) → nodes_loose_inputs (feedback v) ≡ []
unfolding feedback nodes_loose_inputs values
loose_inputs-feedback idle = refl
loose_inputs-feedback submitting = refl
loose_inputs-feedback (success p) = refl
loose_inputs-feedback (error message) = refl

-- The names of the page, of those of the feedback, before it, in the audit panel and in the dialog.
abbrev placed : (before audit dialog in_feedback : List String) → List String
placed before audit dialog in_feedback =
    before ++ (((((in_feedback ++ []) ++ audit) ++ []) ++ dialog) ++ [])

-- A page that names the same elements as it has, where the feedback stands among them.
around :
    (v : ProvisioningViewState) (page : Nodes) (before audit dialog : List String)
    → ids page ≡ placed before audit dialog (ids (feedback v))
    → references page ≡ placed before audit dialog (references (feedback v))
    → Each
        (λ r. exists (λ i. i == r) (placed before audit dialog []) ≡ true)
        (placed before audit dialog [])
    → Distinct ◌==◌ (placed before audit dialog [])
    → nodes_bare_labels page ≡ placed [] [] [] (nodes_bare_labels (feedback v))
    → nodes_loose_inputs page ≡ placed [] [] [] (nodes_loose_inputs (feedback v))
    → Labelled page
around v page before audit dialog names refers resolved unique bare loose =
    let named : ids page ≡ placed before audit dialog [] =
      names ∙ ap (placed before audit dialog) (ids-feedback v) in
    let referred : references page ≡ placed before audit dialog [] =
      refers ∙ ap (placed before audit dialog) (references-feedback v) in
    record {
      resolved =
          subst (λ rs. Each (λ r. exists (λ i. i == r) (ids page) ≡ true) rs) (sym referred)
            (subst
              (λ is. Each (λ r. exists (λ i. i == r) is ≡ true) (placed before audit dialog []))
              (sym named) resolved);
      unique = subst (Distinct ◌==◌) (sym named) unique;
      labels = bare ∙ ap (placed [] [] []) (bare_labels-feedback v);
      inputs =
          subst (Each (λ i. exists (λ f. f == i) (targets page) ≡ true))
            (sym (loose ∙ ap (placed [] [] []) (loose_inputs-feedback v))) tt;
    }

shell_of-Labelled :
    (name_error email_error : Option String) (dialog_open : Bool) (s : AdminShell)
    → Labelled (shell_of name_error email_error dialog_open s)
unfolding nodes_values nodes_bare_labels nodes_loose_inputs nodes_have_input values exists shell_of
    sidebar topbar metrics provision_panel provision_form audit_panel audit_rows dialog
shell_of-Labelled none none false s =
    around s.view_state _ ("provision-title" ∷ []) ("audit-title" ∷ []) [] refl refl
      (refl, (refl, tt)) ((refl, tt), (tt, tt)) refl refl
shell_of-Labelled none none true s =
    around s.view_state _ ("provision-title" ∷ []) ("audit-title" ∷ []) ("dialog-title" ∷ []) refl
      refl (refl, (refl, (refl, tt))) ((refl, (refl, tt)), ((refl, tt), (tt, tt))) refl refl
shell_of-Labelled none (some e) false s =
    around s.view_state _ ("provision-title" ∷ "admin-email-error" ∷ []) ("audit-title" ∷ []) []
      refl refl (refl, (refl, (refl, tt))) ((refl, (refl, tt)), ((refl, tt), (tt, tt))) refl refl
shell_of-Labelled none (some e) true s =
    around s.view_state _ ("provision-title" ∷ "admin-email-error" ∷ []) ("audit-title" ∷ [])
      ("dialog-title" ∷ []) refl refl (refl, (refl, (refl, (refl, tt))))
      ((refl, (refl, (refl, tt))), ((refl, (refl, tt)), ((refl, tt), (tt, tt)))) refl refl
shell_of-Labelled (some n) none false s =
    around s.view_state _ ("provision-title" ∷ "company-name-error" ∷ []) ("audit-title" ∷ []) []
      refl refl (refl, (refl, (refl, tt))) ((refl, (refl, tt)), ((refl, tt), (tt, tt))) refl refl
shell_of-Labelled (some n) none true s =
    around s.view_state _ ("provision-title" ∷ "company-name-error" ∷ []) ("audit-title" ∷ [])
      ("dialog-title" ∷ []) refl refl (refl, (refl, (refl, (refl, tt))))
      ((refl, (refl, (refl, tt))), ((refl, (refl, tt)), ((refl, tt), (tt, tt)))) refl refl
shell_of-Labelled (some n) (some e) false s =
    around s.view_state _ ("provision-title" ∷ "company-name-error" ∷ "admin-email-error" ∷ [])
      ("audit-title" ∷ []) [] refl refl (refl, (refl, (refl, (refl, tt))))
      ((refl, (refl, (refl, tt))), ((refl, (refl, tt)), ((refl, tt), (tt, tt)))) refl refl
shell_of-Labelled (some n) (some e) true s =
    around s.view_state _ ("provision-title" ∷ "company-name-error" ∷ "admin-email-error" ∷ [])
      ("audit-title" ∷ []) ("dialog-title" ∷ []) refl refl
      (refl, (refl, (refl, (refl, (refl, tt)))))
      (
        (refl, (refl, (refl, (refl, tt)))),
        ((refl, (refl, (refl, tt))), ((refl, (refl, tt)), ((refl, tt), (tt, tt)))),
      )
      refl refl

login_of-Labelled : (message : Option String) (s : LoginForm) → Labelled (login_of message s)
unfolding nodes_values nodes_bare_labels nodes_loose_inputs nodes_have_input values exists login_of
login_of-Labelled none s = record {
  resolved = (refl, (refl, (refl, tt)));
  unique = ((refl, (refl, tt)), ((refl, tt), (tt, tt)));
  labels = refl;
  inputs = (refl, (refl, tt));
}
login_of-Labelled (some message) s = record {
  resolved = (refl, (refl, (refl, tt)));
  unique = ((refl, (refl, tt)), ((refl, tt), (tt, tt)));
  labels = refl;
  inputs = (refl, (refl, tt));
}

-- On the page that the router outlet shows, whatever state its form is in, every reference of a label
-- or an ARIA attribute leads to an element of the page, every label has such a reference or holds an
-- input, every input stands in a label or is named by one, and no two elements have the same id.
pub outlet-Labelled :
    (page : Page) (shell : AdminShell) (form : LoginForm) → Labelled (outlet page shell form)
unfolding outlet shell_page login_markup
outlet-Labelled admin_shell shell form =
    shell_of-Labelled (company_name_error shell) (admin_email_error shell)
      shell.security_dialog_open shell
outlet-Labelled login_page shell form = login_of-Labelled (login_view form).alert form

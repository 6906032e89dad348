-- ===== src/Web/Shell/Steps.antt =====
-- admin-shell.component.ts: the steps that the user and the answers of the API take, and what holds
-- in every state that they reach.
use oc.Base.{
  String, none, true, false, List, [], ◌∷◌, ◌≡◌, refl, sym, ap, ◌∙◌, ◌≢◌, ◌↔◌, ◌⊎◌, inl, inr,
  Bool-cases,
}
use mathlib.Core.Path.{subst}
use oc.Base.Text.{truthy, trim}
use oc.Contracts.{CreateCompanyRequest, CreateCompanyResponse}
use oc.Web.Email.{is_valid_email}
use oc.Web.Email.Split.{IsEmail, is_valid_email-IsEmail}
use oc.Web.Shell.{
  AdminShell, created, ProvisioningViewState, idle, submitting, success, error, is_submitting,
  is_submitting_state, update_company_name, update_admin_email, blur_company_name, blur_admin_email,
  provision_tenant, on_response, on_failure, open_security_dialog, close_security_dialog, payload,
  post, tell_error, touch_both, fix_message, rest_in_flight,
}
use oc.Web.Shell.View.{company_name_error, admin_email_error, form_view}

-- A request that the form may send
abbrev pub IsRequest : CreateCompanyRequest → Type 0
IsRequest r = (truthy r.company_name ≡ true) × IsEmail r.admin_email

-- An input that is disabled sends no event; an answer comes for a request that is in flight.
pub data Step : AdminShell → AdminShell → Type 0 where
  types_company_name :
      (s : AdminShell) (value : String)
      → is_submitting s ≡ false
      → Step s (update_company_name value s)
  types_admin_email :
      (s : AdminShell) (value : String)
      → is_submitting s ≡ false
      → Step s (update_admin_email value s)
  leaves_company_name : (s : AdminShell) → Step s (blur_company_name s)
  leaves_admin_email : (s : AdminShell) → Step s (blur_admin_email s)
  submits : (s : AdminShell) → Step s (provision_tenant s)
  is_answered :
      (s : AdminShell) (r : CreateCompanyRequest) (rs : List CreateCompanyRequest)
      (response : CreateCompanyResponse)
      → s.in_flight ≡ r ∷ rs
      → Step s (on_response r response s)
  is_refused :
      (s : AdminShell) (r : CreateCompanyRequest) (rs : List CreateCompanyRequest)
      → s.in_flight ≡ r ∷ rs
      → Step s (on_failure s)
  opens_dialog : (s : AdminShell) (target : String) → Step s (open_security_dialog target s)
  closes_dialog : (s : AdminShell) → Step s (close_security_dialog s)

pub data Reachable : AdminShell → Type 0 where
  start : Reachable created
  next : {s s' : AdminShell} → Reachable s → Step s s' → Reachable s'

-- What the view state says of the requests in flight.
abbrev pub Agrees : ProvisioningViewState → List CreateCompanyRequest → Type 0
Agrees idle rs = rs ≡ []
Agrees submitting rs = (r : CreateCompanyRequest) × (rs ≡ r ∷ []) × IsRequest r
Agrees (success p) rs =
    (rs ≡ []) × IsRequest (record { company_name = p.company_name; admin_email = p.admin_email })
Agrees (error message) rs = rs ≡ []

settled :
    (v : ProvisioningViewState) (rs : List CreateCompanyRequest)
    → is_submitting_state v ≡ false
    → Agrees v rs
    → rs ≡ []
settled idle rs h a = a
settled submitting rs h a = absurd (cc)
settled (success p) rs h a = a.0
settled (error m) rs h a = a

unsettled :
    (v : ProvisioningViewState) (r : CreateCompanyRequest) (rs : List CreateCompanyRequest)
    → Agrees v (r ∷ rs)
    → (rs ≡ []) × IsRequest r
unsettled idle r rs a = absurd (cc)
unsettled submitting r rs (r', e, q) = (cc, subst IsRequest (sym (cc e)) q)
unsettled (success p) r rs a = absurd (cc a.0)
unsettled (error m) r rs a = absurd (cc)

-- The two outcomes of a submission that is not held back
pub submission :
    (s : AdminShell)
    → is_submitting s ≡ false
    → ((provision_tenant s ≡ tell_error fix_message (touch_both s))
        ⊎ ((provision_tenant s ≡ post (payload s) (touch_both s)) × IsRequest (payload s)))
unfolding provision_tenant
submission s free = elim (Bool-cases (truthy (trim s.company_name))) [
  | inr empty ↦ inl (rw (free, empty) refl)
  | inl filled ↦ elim (Bool-cases (is_valid_email (trim s.admin_email))) [
    | inr wrong ↦ inl (rw (free, filled, wrong) refl)
    | inl valid ↦ inr (
      rw (free, filled, valid) refl,
      (filled, (is_valid_email-IsEmail (trim s.admin_email)).0 valid),
    )
  ]
]

pub held_back : (s : AdminShell) → is_submitting s ≡ true → provision_tenant s ≡ s
unfolding provision_tenant
held_back s busy = rw busy refl

submits_Agrees :
    (s : AdminShell)
    → Agrees s.view_state s.in_flight
    → Agrees (provision_tenant s).view_state (provision_tenant s).in_flight
submits_Agrees s a = elim (Bool-cases (is_submitting s)) [
  | inl busy ↦ subst (λ x. Agrees x.view_state x.in_flight) (sym (held_back s busy)) a
  | inr free ↦ elim (submission s free) [
    | inl told ↦
        subst (λ x. Agrees x.view_state x.in_flight) (sym told)
          (settled s.view_state s.in_flight free a)
    | inr (posted, valid) ↦
        subst (λ x. Agrees x.view_state x.in_flight) (sym posted)
          (payload s, ap (λ rs. payload s ∷ rs) (settled s.view_state s.in_flight free a), valid)
  ]
]

Step-keeps :
    {s s' : AdminShell}
    → Step s s'
    → Agrees s.view_state s.in_flight
    → Agrees s'.view_state s'.in_flight
unfolding update_company_name update_admin_email blur_company_name blur_admin_email on_response
    on_failure open_security_dialog close_security_dialog
Step-keeps (types_company_name s value free) a = settled s.view_state s.in_flight free a
Step-keeps (types_admin_email s value free) a = settled s.view_state s.in_flight free a
Step-keeps (leaves_company_name s) a = a
Step-keeps (leaves_admin_email s) a = a
Step-keeps (submits s) a = submits_Agrees s a
Step-keeps (is_answered s r rs response e) a =
    let (empty, valid) = unsettled s.view_state r rs (subst (Agrees s.view_state) e a) in
    (ap rest_in_flight e ∙ empty, valid)
Step-keeps (is_refused s r rs e) a =
    let (empty, valid) = unsettled s.view_state r rs (subst (Agrees s.view_state) e a) in
    ap rest_in_flight e ∙ empty
Step-keeps (opens_dialog s target) a = a
Step-keeps (closes_dialog s) a = a

-- In every state that the form can reach, one request is in flight while it says submitting, and
-- none otherwise; the request that is in flight, and that of which success is shown, names a company
-- and a well-formed address.
pub Reachable-Agrees : {s : AdminShell} → Reachable s → Agrees s.view_state s.in_flight
Reachable-Agrees start = refl
Reachable-Agrees (next reached step) = Step-keeps step (Reachable-Agrees reached)

submitting_pending :
    (v : ProvisioningViewState) (rs : List CreateCompanyRequest)
    → Agrees v rs
    → (is_submitting_state v ≡ true) ↔ (rs ≢ [])
submitting_pending idle rs a = ((λ h. absurd (cc)), λ h. absurd (h a))
submitting_pending submitting rs (r, e, q) = ((λ h k. absurd (cc)), λ h. refl)
submitting_pending (success p) rs a = ((λ h. absurd (cc)), λ h. absurd (h a.0))
submitting_pending (error m) rs a = ((λ h. absurd (cc)), λ h. absurd (h a))

-- The submit button of a state that can be reached is disabled exactly while a request is in flight.
pub form_view-in_flight :
    {s : AdminShell} → Reachable s → ((form_view s).submit.disabled ≡ true) ↔ (s.in_flight ≢ [])
unfolding form_view
form_view-in_flight {s} reached =
    submitting_pending s.view_state s.in_flight (Reachable-Agrees reached)

-- Where the form is not submitting, a submission sends the trimmed input exactly if neither field
-- shows an error afterwards.
pub provision_tenant-errors :
    (s : AdminShell)
    → is_submitting s ≡ false
    → ((provision_tenant s).view_state ≡ submitting) ↔ (
        (company_name_error (provision_tenant s) ≡ none)
        × (admin_email_error (provision_tenant s) ≡ none))
unfolding provision_tenant company_name_error admin_email_error
provision_tenant-errors s free = elim (Bool-cases (truthy (trim s.company_name))) [
  | inr empty ↦ rw (free, empty) ((λ h. absurd (cc)), (λ k. absurd (cc k.0)))
  | inl filled ↦ elim (Bool-cases (is_valid_email (trim s.admin_email))) [
    | inr wrong ↦ rw (free, filled, wrong) ((λ h. absurd (cc)), (λ k. absurd (cc k.1)))
    | inl valid ↦ rw (free, filled, valid) ((λ h. (rw filled refl, rw valid refl)), (λ k. refl))
  ]
]

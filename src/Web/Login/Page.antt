-- ===== src/Web/Login/Page.antt =====
-- The template of login.component.ts. Event bindings are the steps of Web.Login.Steps; the values of
-- the two inputs are bound by the form group, not by the markup.
use oc.Base.{String, Option, none, some, Bool, [], ◌∷◌, if◌then◌else◌}
use oc.Web.Html.{Node, Nodes, element, block, end, ◌▹◌, attr, flag, class, labelled}
use oc.Web.Login.{LoginForm, login_view}

abbrev truth : Bool → String
truth b = if b then "true" else "false"

abbrev input : (id type autocomplete placeholder : String) → (aria_invalid : Bool) → Node
input id type autocomplete placeholder aria_invalid =
    element "input"
      (attr "id" id
        ∷ attr "type" type
        ∷ attr "formControlName" id
        ∷ attr "autocomplete" autocomplete
        ∷ attr "placeholder" placeholder
        ∷ attr "aria-invalid" (truth aria_invalid)
        ∷ [])
      end

abbrev alert : Option String → Nodes
alert none = end
alert (some message) =
    labelled "p" (attr "class" "error" ∷ attr "role" "alert" ∷ attr "aria-live" "assertive" ∷ [])
      message
    ▹ end

-- the page of a state, with the alert that it shows
unfoldable pub login_of : Option String → LoginForm → Nodes
unfolding login_view
login_of message s =
    element "main" (class "login-shell") (
      element "section" (attr "class" "login-card" ∷ attr "aria-labelledby" "login-title" ∷ []) (
        labelled "div" (attr "class" "security-glyph" ∷ attr "aria-hidden" "true" ∷ []) "✓"
        ▹ labelled "p" (class "eyebrow") "SUPER USER ACCESS"
        ▹ labelled "h1" (attr "id" "login-title" ∷ []) "Sign in as sa"
        ▹ labelled "p" (class "lede")
            "Enter the global administrator credentials to open the tenant command shell."
        ▹ element "form" (class "login-form") (
            labelled "label" (attr "for" "username" ∷ []) "Username"
            ▹ input "username" "text" "username" "Username: sa" (login_view s).username_aria_invalid
            ▹ labelled "label" (attr "for" "password" ∷ []) "Password"
            ▹ input "password" "password" "current-password" "Password"
                (login_view s).password_aria_invalid
            ▹ block (alert message)
            ▹ labelled "button"
                (attr "type" "submit" ∷ flag "disabled" (login_view s).submit_disabled ∷ [])
                (login_view s).submit_text
            ▹ end)
        ▹ labelled "p" (class "security-note")
            "Your session is issued through a hardened secure cookie after the API accepts the credentials."
        ▹ end)
      ▹ end)
    ▹ end

unfoldable pub login_markup : LoginForm → Nodes
unfolding login_of login_view
login_markup s = login_of (login_view s).alert s

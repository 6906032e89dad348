-- ===== src/Web/Login.antt =====
-- apps/web/src/app/auth/login.component.ts: the login form as a state machine. The store, the URL and
-- the requests in flight are in the state.
pub mod Steps
pub mod Page
use oc.Base.{
  String, Option, none, some, Bool, true, false, List, [], ◌∷◌, not, ◌&&◌, ◌||◌, if◌then◌else◌,
}
use Prim.Native.String
use oc.Base.Text.{truthy}
use oc.Contracts.{LoginRequest, LoginResponse}
use oc.Web.Session.{AuthState, apply_login_authority}

pub record LoginForm : Type 0 where
  pub username : String
  pub password : String
  pub username_touched : Bool
  pub password_touched : Bool
  pub is_loading : Bool
  pub error_message : Option String
  pub in_flight : List LoginRequest
  pub auth : AuthState
  pub url : String

-- the form as it is created, on the route of the login
abbrev pub created : AuthState → LoginForm
created auth = record {
  username = "sa";
  password = "";
  username_touched = false;
  password_touched = false;
  is_loading = false;
  error_message = none;
  in_flight = [];
  auth = auth;
  url = "/login";
}

-- `Validators.required` on both controls
abbrev pub is_invalid : LoginForm → Bool
is_invalid s = not (truthy s.username) || not (truthy s.password)

-- `this.form.getRawValue()`
abbrev pub entered : LoginForm → LoginRequest
entered s = record { username = s.username; password = s.password }

unfoldable pub submit : LoginForm → LoginForm
submit s =
    if is_invalid s || s.is_loading
    then record s { username_touched = true; password_touched = true }
    else record s { error_message = none; is_loading = true; in_flight = entered s ∷ s.in_flight }

abbrev pub rest_in_flight : List LoginRequest → List LoginRequest
rest_in_flight [] = []
rest_in_flight (r ∷ rs) = rs

-- `finalize`, after the observer has been told
unfoldable pub finalized : LoginForm → LoginForm
finalized s = record s { is_loading = false; in_flight = rest_in_flight s.in_flight }

-- the observer's `next`
unfoldable pub on_authority : LoginResponse → LoginForm → LoginForm
unfolding finalized apply_login_authority
on_authority authority s =
    finalized (record s { auth = apply_login_authority authority s.auth; url = "/" })

-- the observer's `error`
unfoldable pub on_error : LoginForm → LoginForm
unfolding finalized
on_error s = finalized (record s {
  error_message = some "Invalid credentials. Check the username and password, then try again.";
})

-- What the template shows
pub record LoginView : Type 0 where
  pub username_aria_invalid : Bool
  pub password_aria_invalid : Bool
  pub alert : Option String
  pub submit_disabled : Bool
  pub submit_text : String

-- `@if (errorMessage())`: an empty message is not shown
abbrev shown : Option String → Option String
shown none = none
shown (some message) = if truthy message then some message else none

unfoldable pub login_view : LoginForm → LoginView
login_view s = record {
  username_aria_invalid = not (truthy s.username) && s.username_touched;
  password_aria_invalid = not (truthy s.password) && s.password_touched;
  alert = shown s.error_message;
  submit_disabled = is_invalid s || s.is_loading;
  submit_text = if s.is_loading then "Authenticating..." else "Enter Command Shell";
}

-- ===== src/Web/Login/Steps.antt =====
-- login.component.ts: the steps of the user and of the API's answers, and what holds in every state
-- that they reach.
use oc.Base.{String, Bool, true, false, List, [], ◌∷◌, ◌≡◌, refl, ap, ◌∙◌, inl, inr, Bool-cases}
use mathlib.Core.Path.{subst}
use oc.Base.Text.{truthy}
use oc.Contracts.{LoginRequest, LoginResponse}
use oc.Web.Session.{signed_out}
use oc.Web.Login.{
  LoginForm, created, entered, is_invalid, submit, on_authority, on_error, rest_in_flight,
}

-- The inputs stay enabled. The answer comes for a request that is in flight.
pub data Step : LoginForm → LoginForm → Type 0 where
  types_username : (s : LoginForm) (value : String) → Step s (record s { username = value })
  types_password : (s : LoginForm) (value : String) → Step s (record s { password = value })
  leaves_username : (s : LoginForm) → Step s (record s { username_touched = true })
  leaves_password : (s : LoginForm) → Step s (record s { password_touched = true })
  submits : (s : LoginForm) → Step s (submit s)
  is_admitted :
      (s : LoginForm) (r : LoginRequest) (rs : List LoginRequest) (authority : LoginResponse)
      → s.in_flight ≡ r ∷ rs
      → Step s (on_authority authority s)
  is_rejected :
      (s : LoginForm) (r : LoginRequest) (rs : List LoginRequest)
      → s.in_flight ≡ r ∷ rs
      → Step s (on_error s)

pub data Reachable : LoginForm → Type 0 where
  start : Reachable (created signed_out)
  next : {s s' : LoginForm} → Reachable s → Step s s' → Reachable s'

abbrev pub IsComplete : LoginRequest → Type 0
IsComplete r = (truthy r.username ≡ true) × (truthy r.password ≡ true)

-- What the loading flag says of the requests in flight.
abbrev pub Agrees : Bool → List LoginRequest → Type 0
Agrees true rs = (r : LoginRequest) × (rs ≡ r ∷ []) × IsComplete r
Agrees false rs = rs ≡ []

alone : (b : Bool) (r : LoginRequest) (rs : List LoginRequest) → Agrees b (r ∷ rs) → rs ≡ []
alone true r rs (r', e, q) = cc
alone false r rs a = absurd (cc)

submit_Agrees :
    (s : LoginForm) (loading : Bool)
    → s.is_loading ≡ loading
    → Agrees loading s.in_flight
    → Agrees (submit s).is_loading (submit s).in_flight
unfolding submit
submit_Agrees s true e a = elim (Bool-cases (is_invalid s)) [
  | inl wrong ↦ rw (wrong, e) a
  | inr right ↦ rw (right, e) a
]
submit_Agrees s false e a = elim (Bool-cases (truthy s.username)) [
  | inr missing ↦ rw (missing, e) a
  | inl named ↦ elim (Bool-cases (truthy s.password)) [
    | inr missing ↦ rw (named, missing, e) a
    | inl given ↦
        rw (named, given, e)
          (
            record { username = s.username; password = s.password },
            ap (λ rs. entered s ∷ rs) a,
            (named, given),
          )
  ]
]

Step-keeps :
    {s s' : LoginForm}
    → Step s s'
    → Agrees s.is_loading s.in_flight
    → Agrees s'.is_loading s'.in_flight
unfolding on_authority on_error
Step-keeps (types_username s value) a = a
Step-keeps (types_password s value) a = a
Step-keeps (leaves_username s) a = a
Step-keeps (leaves_password s) a = a
Step-keeps (submits s) a = submit_Agrees s s.is_loading refl a
Step-keeps (is_admitted s r rs authority e) a =
    ap rest_in_flight e ∙ alone s.is_loading r rs (subst (Agrees s.is_loading) e a)
Step-keeps (is_rejected s r rs e) a =
    ap rest_in_flight e ∙ alone s.is_loading r rs (subst (Agrees s.is_loading) e a)

-- In every state that the login form can reach, one request is in flight while it is loading, with a
-- user name and a password that are not empty, and none otherwise.
pub login-Agrees : {s : LoginForm} → Reachable s → Agrees s.is_loading s.in_flight
login-Agrees start = refl
login-Agrees (next reached step) = Step-keeps step (login-Agrees reached)

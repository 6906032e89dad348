-- ===== src/System.antt =====
-- The login page of apps/web against the API of apps/api, while others send requests too.
pub mod Provisioning
use oc.Base.{
  ℕ, String, Option, none, some, true, List, [], ◌∷◌, ◌≡◌, refl, ◌⊎◌, inl, inr, Bool-cases, ◌||◌,
  sym, ap,
}
use mathlib.Core.Path.{subst}
use oc.Base.Exec.{Failure, ok, err}
use oc.Contracts.{LoginRequest}
use oc.Database.{SqlDriver}
use oc.Sql.Schema.{Tables}
use oc.Sql.Policy.{Dialect}
use oc.Sql.Driver.{RunsBoth}
use oc.Sql.Identity.{Identity}
use oc.Sql.Authority.{SameAuthority, SameAuthority-refl, SameAuthority-Kept, global_admins}
use oc.Audit.Enumeration.{EnumerationPolicy}
use oc.Auth.Credentials.Rows.{In}
use oc.Auth.Jose.{Jose}
use oc.Auth.Keys.{KeyEnv}
use oc.Auth.App.{App}
use oc.Auth.Login.{Body, object, LoginReply}
use oc.Tenant.Middleware.{Request}
use oc.Api.{Call, post_login, logged_in, respond, after}
use oc.Api.Keeps.{after-Keeping}
use oc.Api.Logins.{respond-login-global_admins}
use oc.Web.Session.{AuthState, signed_out, page_at, admin_shell, apply_login_authority}
use oc.Web.Session.Routing.{page_at-admin_shell}
use oc.Web.Login.{LoginForm, created, is_invalid, submit, on_authority, on_error, finalized}

-- the body that the form's request has
abbrev pub body_of : LoginRequest → Body
body_of r = object (some r.username) (some r.password)

pub record System (W PrivateKey PublicKey : Type 0) : Type 0 where
  pub form : LoginForm
  pub app : App W PrivateKey PublicKey

submit_auth : (s : LoginForm) → (submit s).auth ≡ s.auth
unfolding submit
submit_auth s = elim (Bool-cases (is_invalid s || s.is_loading)) [
  | inl held ↦ rw held refl
  | inr sent ↦ rw sent refl
]

module _ {W PrivateKey PublicKey : Type 0} (sha256 : String → String)
    (jose : Jose PrivateKey PublicKey) (env : KeyEnv) (trust_proxy : Option String)
    (policy : EnumerationPolicy) (driver : SqlDriver W) where
  -- The user fills in and submits the form; the API answers a request of the form that is in flight;
  -- or it serves a request of somebody else.
  pub data Step : System W PrivateKey PublicKey → System W PrivateKey PublicKey → Type 0 where
    types_username :
        (s : System W PrivateKey PublicKey) (value : String)
        → Step s (record s { form = record s.form { username = value } })
    types_password :
        (s : System W PrivateKey PublicKey) (value : String)
        → Step s (record s { form = record s.form { password = value } })
    leaves_username :
        (s : System W PrivateKey PublicKey)
        → Step s (record s { form = record s.form { username_touched = true } })
    leaves_password :
        (s : System W PrivateKey PublicKey)
        → Step s (record s { form = record s.form { password_touched = true } })
    submits : (s : System W PrivateKey PublicKey) → Step s (record s { form = submit s.form })
    is_admitted :
        (s : System W PrivateKey PublicKey) (r : LoginRequest) (rs : List LoginRequest)
        (request : Request) (now : ℕ) (reply : LoginReply)
        → s.form.in_flight ≡ r ∷ rs
        → (respond sha256 jose env trust_proxy policy driver request
            (post_login (body_of r) now)
            s.app).0
          ≡ ok (logged_in reply)
        → Step s (record {
          form = on_authority reply.authority s.form;
          app =
              (respond sha256 jose env trust_proxy policy driver request
                (post_login (body_of r) now)
                s.app).1;
        })
    is_rejected :
        (s : System W PrivateKey PublicKey) (r : LoginRequest) (rs : List LoginRequest)
        (request : Request) (now : ℕ) (e : Failure)
        → s.form.in_flight ≡ r ∷ rs
        → (respond sha256 jose env trust_proxy policy driver request
            (post_login (body_of r) now)
            s.app).0
          ≡ err e
        → Step s (record {
          form = on_error s.form;
          app =
              (respond sha256 jose env trust_proxy policy driver request
                (post_login (body_of r) now)
                s.app).1;
        })
    serves :
        (s : System W PrivateKey PublicKey) (request : Request) (call : Call)
        → Step s (record s {
          app = (respond sha256 jose env trust_proxy policy driver request call s.app).1;
        })

  -- from the signed-out client and a state of the API
  pub data Reachable (app : App W PrivateKey PublicKey)
      : System W PrivateKey PublicKey → Type 0 where
    start : Reachable app (record { form = created signed_out; app = app })
    next : {s s' : System W PrivateKey PublicKey} → Reachable app s → Step s s' → Reachable app s'

  -- nobody is signed in, or a global administrator of these tables is
  abbrev pub Admits : Tables → AuthState → Type 0
  Admits t auth =
      (auth.user_id ≡ none) ⊎ ((i : Identity) × In i (global_admins t) × (auth.user_id ≡ some i.id))

  module _ {dialect : Dialect} (law : RunsBoth dialect driver) where
    abbrev Sound : Tables → System W PrivateKey PublicKey → Type 0
    Sound t s = SameAuthority t (law.in_transactions.durable s.app.world) × Admits t s.form.auth

    served :
        (t : Tables) (app : App W PrivateKey PublicKey) (request : Request) (call : Call)
        → SameAuthority t (law.in_transactions.durable app.world)
        → SameAuthority t (
            law.in_transactions.durable
              (respond sha256 jose env trust_proxy policy driver request call app).1.world)
    unfolding after
    served t app request call h =
        after-Keeping sha256 jose env trust_proxy policy (SameAuthority t)
          (SameAuthority-Kept dialect t) law ((request, call) ∷ []) app h

    admitted :
        (t : Tables) (app : App W PrivateKey PublicKey) (request : Request) (body : Body) (now : ℕ)
        (reply : LoginReply)
        → SameAuthority t (law.in_transactions.durable app.world)
        → (respond sha256 jose env trust_proxy policy driver request (post_login body now) app).0
          ≡ ok (logged_in reply)
        → (i : Identity) × In i (global_admins t) × (some reply.authority.user_id ≡ some i.id)
    unfolding after
    admitted t app request body now reply h answered =
        let (_, i, _, member, _, id, _, _) =
          respond-login-global_admins sha256 jose env driver trust_proxy policy {dialect = dialect}
            law [] request body now app reply answered in
        (i, subst (In i) h.admins member, ap some id)

    Step-Sound :
        (t : Tables) {s s' : System W PrivateKey PublicKey} → Step s s' → Sound t s → Sound t s'
    unfolding submit on_authority on_error finalized apply_login_authority
    Step-Sound t (types_username s value) h = h
    Step-Sound t (types_password s value) h = h
    Step-Sound t (leaves_username s) h = h
    Step-Sound t (leaves_password s) h = h
    Step-Sound t (submits s) (same, admits) =
        (same, subst (Admits t) (sym (submit_auth s.form)) admits)
    Step-Sound t (is_admitted s r rs request now reply e answered) (same, admits) = (
      served t s.app request _ same,
      inr (admitted t s.app request (body_of r) now reply same answered),
    )
    Step-Sound t (is_rejected s r rs request now x e answered) (same, admits) =
        (served t s.app request _ same, admits)
    Step-Sound t (serves s request call) (same, admits) = (served t s.app request call same, admits)

    Reachable-Sound :
        {app : App W PrivateKey PublicKey} {s : System W PrivateKey PublicKey}
        → Reachable app s
        → Sound (law.in_transactions.durable app.world) s
    Reachable-Sound start = (SameAuthority-refl _, inl refl)
    Reachable-Sound (next reached step) = Step-Sound _ step (Reachable-Sound reached)

    -- Over a driver with the laws of RunsBoth, whatever a user of the login page does, and whatever
    -- others send to the API meanwhile, the client shows the provisioning page of no path unless the
    -- store holds a user who was a global administrator of the data at the start.
    pub Reachable-admin_shell :
        {app : App W PrivateKey PublicKey} {s : System W PrivateKey PublicKey} (path : String)
        → Reachable app s
        → page_at s.form.auth path ≡ admin_shell
        → (i : Identity) × In i (global_admins (law.in_transactions.durable app.world))
          × (s.form.auth.user_id ≡ some i.id)
    Reachable-admin_shell {s = s} path reached shown =
        let (_, known, _) = (page_at-admin_shell s.form.auth path).0 shown in
        elim (Reachable-Sound reached).1 [ inl nobody ↦ absurd (known nobody) | inr admin ↦ admin ]

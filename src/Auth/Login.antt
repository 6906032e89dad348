-- ===== src/Auth/Login.antt =====
-- apps/api/src/auth/auth.controller.ts and session-cookie.ts
pub mod Session
use oc.Base.{ℕ, String, Option, some, Bool, true}
use oc.Base.Exec.{Exec, Result, ok, err, bad_request, pure, lift, ◌>>=◌}
use oc.Contracts.{LoginRequest, LoginResponse}
use oc.Database.{SqlDriver}
use oc.Auth.Jose.{Jose}
use oc.Auth.Keys.{KeyEnv, issue}
use oc.Auth.App.{App, on_world, on_signing_key}
use oc.Auth.Credentials.{verify}

pub data SameSite : Type 0 where
  strict lax none_of_them : SameSite

pub record SessionCookieOptions : Type 0 where
  pub http_only : Bool
  pub secure : Bool
  pub same_site : SameSite
  pub path : String

unfoldable pub session_cookie_options : SessionCookieOptions
session_cookie_options = record { http_only = true; secure = true; same_site = strict; path = "/" }

-- A request body: no object, or an object with the two fields where they are texts.
pub data Body : Type 0 where
  no_object : Body
  object : (username password : Option String) → Body

abbrev pub missing_credentials : Result LoginRequest
missing_credentials = err (bad_request "Username and password are required.")

unfoldable pub parse_login_request : Body → Result LoginRequest
parse_login_request (object (some username) (some password)) =
    ok (record { username = username; password = password })
parse_login_request _ = missing_credentials

-- The response body, with the value and the options of the cookie "session"
pub record LoginReply : Type 0 where
  pub authority : LoginResponse
  pub session : String
  pub options : SessionCookieOptions

module _ {W PrivateKey PublicKey : Type 0} (sha256 : String → String)
    (jose : Jose PrivateKey PublicKey) (env : KeyEnv) (driver : SqlDriver W) where
  unfoldable pub login : Body → ℕ → Exec (App W PrivateKey PublicKey) LoginReply
  login body now = do
    request ← lift (parse_login_request body)
    authority ← on_world (verify sha256 driver request)
    token ← on_signing_key (issue jose env authority now)
    pure (record { authority = authority; session = token; options = session_cookie_options })

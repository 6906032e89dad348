-- ===== src/Api/Invariants.antt =====
-- What no sequence of requests breaks.
use oc.Base.{String, Option, List}
use oc.Database.{SqlDriver}
use oc.Sql.Policy.{Dialect}
use oc.Sql.Driver.{RunsBoth}
use oc.Sql.Integrity.{IsIntact}
use oc.Sql.Integrity.Statements.{IsIntact-Kept}
use oc.Sql.Authority.{SameAuthority, SameAuthority-refl, SameAuthority-Kept}
use oc.Audit.Enumeration.{EnumerationPolicy}
use oc.Auth.Jose.{Jose}
use oc.Auth.Keys.{KeyEnv}
use oc.Auth.App.{App}
use oc.Tenant.Middleware.{Request}
use oc.Api.{Call, after}
use oc.Api.Keeps.{after-Keeping}

module _ {W PrivateKey PublicKey : Type 0} (sha256 : String → String)
    (jose : Jose PrivateKey PublicKey) (env : KeyEnv) (trust_proxy : Option String)
    (policy : EnumerationPolicy) {dialect : Dialect} {driver : SqlDriver W}
    (law : RunsBoth dialect driver) where
  -- Over a driver with the laws of RunsBoth, the committed data meets these constraints of the
  -- schema after any sequence of requests, whatever becomes of each, if it met them before: the ids
  -- of companies, roles and users are unique, and so are company names, role codes, addresses and
  -- role assignments; references lead to rows that are there; a user without a company is a global
  -- administrator; and counts and windows of protections are positive.
  pub after-IsIntact :
      (calls : List (Request × Call)) (app : App W PrivateKey PublicKey)
      → IsIntact dialect (law.in_transactions.durable app.world)
      → IsIntact dialect (
          law.in_transactions.durable
            (after sha256 jose env trust_proxy policy driver calls app).world)
  after-IsIntact calls app h =
      after-Keeping sha256 jose env trust_proxy policy (IsIntact dialect) (IsIntact-Kept dialect)
        law calls app h

  -- Over a driver with the laws of RunsBoth no sequence of requests changes who has global authority:
  -- the users with the global administrator flag, their addresses and password hashes, and the role
  -- assignments of no company are those that were there before.
  pub after-SameAuthority :
      (calls : List (Request × Call)) (app : App W PrivateKey PublicKey)
      → SameAuthority (law.in_transactions.durable app.world) (
          law.in_transactions.durable
            (after sha256 jose env trust_proxy policy driver calls app).world)
  after-SameAuthority calls app =
      let t = law.in_transactions.durable app.world in
      after-Keeping sha256 jose env trust_proxy policy (SameAuthority t)
        (SameAuthority-Kept dialect t) law calls app (SameAuthority-refl t)

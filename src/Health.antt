-- ===== src/Health.antt =====
-- apps/api/src/health/health.controller.ts
pub mod Readiness
use oc.Base.{ℕ, String}
use oc.Base.Exec.{Exec, service_unavailable, pure, throw, try_catch, ◌>>=◌, ◌>>◌}
use oc.Database.{SqlDriver}
use oc.Database.Statements.{select_one}
use oc.Auth.Jose.{Jose}
use oc.Auth.Keys.{KeyEnv, get_key, load_verification_key, assert_ready, assert_compatible_with}
use oc.Auth.App.{App, on_world, on_signing_key, on_verification_key}

-- The field `status` is always "ok".
pub record HealthResponse : Type 0 where
  pub status : String

unfoldable pub live : HealthResponse
live = record { status = "ok" }

module _ {W PrivateKey PublicKey : Type 0} (jose : Jose PrivateKey PublicKey) (env : KeyEnv)
    (driver : SqlDriver W) where
  -- the try block of `ready`
  unfoldable pub probe : ℕ → Exec (App W PrivateKey PublicKey) HealthResponse
  probe now = do
    on_world (driver.query select_one)
    on_signing_key (assert_ready jose env)
    verification_key ← on_verification_key (get_key (load_verification_key jose env))
    on_signing_key (assert_compatible_with jose env verification_key now)
    pure live

  unfoldable pub ready : ℕ → Exec (App W PrivateKey PublicKey) HealthResponse
  ready now = try_catch (probe now) (λ _. throw (service_unavailable "Readiness check failed."))

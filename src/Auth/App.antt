-- ===== src/Auth/App.antt =====
-- The state of the API process: the two key caches, beside the world that the driver acts on.
use oc.Base.Exec.{Exec}
use oc.Auth.Keys.{KeyCache}

pub record App (W PrivateKey PublicKey : Type 0) : Type 0 where
  pub world : W
  pub signing_key : KeyCache PrivateKey
  pub verification_key : KeyCache PublicKey

module _ {W PrivateKey PublicKey A : Type 0} where
  abbrev pub on_world : Exec W A → Exec (App W PrivateKey PublicKey) A
  on_world m app = let (r, w) = m app.world in (r, record app { world = w })

  abbrev pub on_signing_key : Exec (KeyCache PrivateKey) A → Exec (App W PrivateKey PublicKey) A
  on_signing_key m app = let (r, c) = m app.signing_key in (r, record app { signing_key = c })

  abbrev pub on_verification_key : Exec (KeyCache PublicKey) A → Exec (App W PrivateKey PublicKey) A
  on_verification_key m app =
      let (r, c) = m app.verification_key in (r, record app { verification_key = c })

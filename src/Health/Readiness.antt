-- ===== src/Health/Readiness.antt =====
-- health.controller.ts: what the readiness check has seen when it says ok, and all that it may say.
use oc.Base.{String, ◌≡◌, refl, ap, sym, ◌∙◌, ℕ}
use oc.Base.Exec.{
  service_unavailable, Exec, Result, Failure, ok, err, pure, throw, lift, try_catch, recover,
  continue, ◌>>=◌,
}
use oc.Base.Exec.Laws.{bind_returned, bind-ok, paired}
use oc.Database.{SqlDriver}
use oc.Database.Statements.{QueryResult, select_one}
use oc.Auth.Jose.{Jose, Payload, IsKeyPair}
use oc.Auth.Token.{probe_payload}
use oc.Auth.Keys.{
  KeyEnv, KeyCache, get_key, load_signing_key, load_verification_key, assert_ready,
  assert_compatible_with,
}
use oc.Auth.App.{on_world, on_signing_key, on_verification_key, App}
use oc.Auth.Keys.Sticky.{get_key_sticky}
use oc.Health.{live, HealthResponse, probe, ready}

caught :
    {W A : Type 0} (m : Exec W A) (e : Failure) {w w' : W} {a : A}
    → try_catch m (λ _. throw e) w ≡ (ok a, w')
    → m w ≡ (ok a, w')
unfolding try_catch throw
caught {W} {A} m e {w} {w'} {a} h = go (m w) h
  where
    go : (o : Result A × W) → recover o.0 (λ _ v. (err e, v)) o.1 ≡ (ok a, w') → o ≡ (ok a, w')
    go (ok x, v) k = k
    go (err x, v) k = absurd (cc)

abbrev unready : Failure
unready = service_unavailable "Readiness check failed."

module _ {PrivateKey PublicKey : Type 0} (jose : Jose PrivateKey PublicKey) (env : KeyEnv) where
  assert_ready_cache :
      (c : KeyCache PrivateKey)
      → (assert_ready jose env c).1 ≡ (get_key (load_signing_key jose env) c).1
  unfolding assert_ready ◌>>=◌
  assert_ready_cache c =
      go (get_key (load_signing_key jose env) c).0 (get_key (load_signing_key jose env) c).1
    where
      go :
          (r : Result PrivateKey) (v : KeyCache PrivateKey)
          → (continue r (λ _. pure {A = Unit {0}} tt) v).1 ≡ v
      go (ok k) v = refl
      go (err e) v = refl

  -- The keys fit: a probe signed with the one is verified by the other.
  abbrev pub Fits : ℕ → KeyCache PrivateKey → PublicKey → Type 0
  Fits now c public_key =
      (private_key : PrivateKey) × (token : String) × (payload : Payload) × ((get_key
          (load_signing_key jose env) c).0
        ≡ ok private_key)
      × (jose.sign probe_payload now private_key ≡ ok token)
      × (jose.jwt_verify token public_key ≡ ok payload)

  assert_compatible_with-Fits :
      (key : PublicKey) (now : ℕ) (c : KeyCache PrivateKey)
      → (assert_compatible_with jose env key now c).0 ≡ ok tt
      → Fits now c key
  unfolding assert_compatible_with lift
  assert_compatible_with-Fits key now c h =
      bind_returned _ _ (paired _ h) λ private_key v loaded k₁.
        bind_returned _ _ k₁ λ token u signed k₂. bind_returned _ _ k₂ λ payload x verified k₃. (
          private_key,
          token,
          payload,
          ap (λ o. o.0) loaded,
          ap (λ o. o.0) signed,
          ap (λ o. o.0) verified,
        )

  assert_ready-ok :
      (c : KeyCache PrivateKey) (k : PrivateKey)
      → (get_key (load_signing_key jose env) c).0 ≡ ok k
      → assert_ready jose env c ≡ (ok tt, (get_key (load_signing_key jose env) c).1)
  unfolding assert_ready pure
  assert_ready-ok c k h = bind-ok _ _ (paired (get_key (load_signing_key jose env) c) h)

  assert_compatible_with-ok :
      (c : KeyCache PrivateKey) (k : PrivateKey) (key : PublicKey) (now : ℕ) (token : String)
      → (get_key (load_signing_key jose env) c).0 ≡ ok k
      → jose.sign probe_payload now k ≡ ok token
      → jose.jwt_verify token key ≡ ok probe_payload
      → assert_compatible_with jose env key now c
        ≡ (ok tt, (get_key (load_signing_key jose env) c).1)
  unfolding assert_compatible_with lift pure
  assert_compatible_with-ok c k key now token h signed verified =
      let after = (get_key (load_signing_key jose env) c).1 in
      bind-ok _ _ (paired (get_key (load_signing_key jose env) c) h)
      ∙ bind-ok _ _ (ap (λ r. (r, after)) signed)
      ∙ bind-ok _ _ (ap (λ r. (r, after)) verified)

  module _ {W : Type 0} (driver : SqlDriver W) where
    -- A readiness check that says ok has had an answer from the database, and has signed a probe with
    -- the signing key that the verification key accepts, each key as its cache holds it or loads it.
    pub ready_sound :
        (now : ℕ) (app app' : App W PrivateKey PublicKey) (response : HealthResponse)
        → ready jose env driver now app ≡ (ok response, app')
        → (answer : QueryResult (Unit {0})) × (public_key : PublicKey) × ((driver.query select_one
              app.world).0
            ≡ ok answer)
          × ((get_key (load_verification_key jose env) app.verification_key).0 ≡ ok public_key)
          × Fits now app.signing_key public_key
    unfolding ready probe
    ready_sound now app app' response h = bind_returned _ _ (caught _ _ h) λ answer a₁ one k₁.
        bind_returned _ _ k₁ λ _ a₂ two k₂. bind_returned _ _ k₂ λ key a₃ three k₃.
          bind_returned _ _ k₃ λ _ a₄ four k₄.
            let s₁ : app.signing_key ≡ a₁.signing_key = ap (λ o. o.1.signing_key) one in
            let v₁ : app.verification_key ≡ a₁.verification_key =
              ap (λ o. o.1.verification_key) one in
            let s₂ : (assert_ready jose env a₁.signing_key).1 ≡ a₂.signing_key =
              ap (λ o. o.1.signing_key) two in
            let v₂ : a₁.verification_key ≡ a₂.verification_key =
              ap (λ o. o.1.verification_key) two in
            let s₃ : a₂.signing_key ≡ a₃.signing_key = ap (λ o. o.1.signing_key) three in
            let found = ap (λ o. o.0) three in
            let (private_key, token, payload, loaded, signed, verified) =
              assert_compatible_with-Fits key now a₃.signing_key (ap (λ o. o.0) four) in
            let cache : a₃.signing_key ≡ (get_key (load_signing_key jose env) app.signing_key).1 =
              sym s₃
              ∙ sym s₂
              ∙ assert_ready_cache a₁.signing_key
              ∙ ap (λ c. (get_key (load_signing_key jose env) c).1) (sym s₁) in
            let same =
              ap (λ c. (get_key (load_signing_key jose env) c).0) cache
              ∙ ap (λ o. o.0)
                  (get_key_sticky (load_signing_key jose env) (load_signing_key jose env)
                    app.signing_key) in
            (
              answer,
              key,
              ap (λ o. o.0) one,
              ap (λ c. (get_key (load_verification_key jose env) c).0) (v₁ ∙ v₂) ∙ found,
              (private_key, token, payload, sym same ∙ loaded, signed, verified),
            )

    -- A readiness check says ok if the database answers, both keys are in their caches or load, and
    -- they are a pair with which the probe can be signed.
    pub ready_complete :
        (now : ℕ) (app : App W PrivateKey PublicKey) (answer : QueryResult (Unit {0}))
        (private_key : PrivateKey) (public_key : PublicKey) (token : String)
        → (driver.query select_one app.world).0 ≡ ok answer
        → (get_key (load_signing_key jose env) app.signing_key).0 ≡ ok private_key
        → (get_key (load_verification_key jose env) app.verification_key).0 ≡ ok public_key
        → IsKeyPair jose private_key public_key
        → jose.sign probe_payload now private_key ≡ ok token
        → (ready jose env driver now app).0 ≡ ok live
    unfolding ready probe try_catch pure
    ready_complete now app answer private_key public_key token up signing verifying pair signed =
        let load = load_signing_key jose env in
        let a₁ = (on_world (driver.query select_one) app).1 in
        let c = (get_key load app.signing_key).1 in
        let a₂ = record a₁ { signing_key = c } in
        let v = (get_key (load_verification_key jose env) app.verification_key).1 in
        let a₃ = record a₂ { verification_key = v } in
        let a₄ = record a₃ { signing_key = (get_key load c).1 } in
        let still : (get_key load c).0 ≡ ok private_key =
          ap (λ o. o.0) (get_key_sticky load load app.signing_key) ∙ signing in
        let fits = pair.verifies probe_payload now token signed in
        let one : on_world (driver.query select_one) app ≡ (ok answer, a₁) =
          paired (on_world (driver.query select_one) app) up in
        let two : on_signing_key (assert_ready jose env) a₁ ≡ (ok tt, a₂) =
          ap (λ o. (o.0, record a₁ { signing_key = o.1 }))
            (assert_ready-ok app.signing_key private_key signing) in
        let three : on_verification_key (get_key (load_verification_key jose env)) a₂
            ≡ (ok public_key, a₃) =
          ap (λ o. (o.0, record a₂ { verification_key = o.1 }))
            (paired (get_key (load_verification_key jose env) app.verification_key) verifying) in
        let four : on_signing_key (assert_compatible_with jose env public_key now) a₃
            ≡ (ok tt, a₄) =
          ap (λ o. (o.0, record a₃ { signing_key = o.1 }))
            (assert_compatible_with-ok c private_key public_key now token still signed fits) in
        ap (λ o. (recover o.0 (λ _. throw unready) o.1).0)
          (bind-ok _ _ one ∙ bind-ok _ _ two ∙ bind-ok _ _ three ∙ bind-ok _ _ four)

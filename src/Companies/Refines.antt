-- ===== src/Companies/Refines.antt =====
-- companies.service.ts against an abstract step on the data: a provisioning refuses and leaves the
-- data, or does all that it is to do.
use oc.Base.{ℕ, String, Option, none, some, true, ◌≡◌, ◌≢◌, refl, sym, [], ap}
use mathlib.Core.Path.{subst}
use oc.Base.Exec.{Result, Failure, ok, err, ◌>>=◌}
use oc.Contracts.{AuthContext, CreateCompanyRequest, CreateCompanyResponse}
use oc.Database.{SqlDriver}
use oc.Sql.Schema.{Tables}
use oc.Sql.Policy.{Dialect}
use oc.Sql.Driver.{RunsSql}
use oc.Tenant.Context.{get_required}
use oc.Companies.Expected.{provisioned_data, tenant_admin_roles}
use oc.Companies.{create_company}
use oc.Companies.Provisioning.{create_company-provisions, create_company_atomic}

-- What becomes of the data, and the answer
pub data Provisions (store : Option AuthContext) (request : CreateCompanyRequest) (t : Tables)
    : Result CreateCompanyResponse → Tables → Type 0 where
  refuses : (e : Failure) → Provisions store request t (err e) t
  provisions :
      (actor : AuthContext) (response : CreateCompanyResponse) (token : String) (now : ℕ)
      → store ≡ some actor
      → actor.is_super_admin ≡ true
      → tenant_admin_roles t ≢ []
      → Provisions store request t
          (ok response)
          (provisioned_data actor request response token now t)

module _ {W : Type 0} {dialect : Dialect} {driver : SqlDriver W}
    (law : RunsSql dialect driver) where
  nobody_provisions :
      (request : CreateCompanyRequest) (w w' : W) (response : CreateCompanyResponse)
      → ¬ (create_company driver none request w ≡ (ok response, w'))
  unfolding create_company get_required ◌>>=◌
  nobody_provisions request w w' response h = absurd (cc)

  succeeded :
      (store : Option AuthContext) (request : CreateCompanyRequest) (w w' : W)
      (response : CreateCompanyResponse)
      → create_company driver store request w ≡ (ok response, w')
      → Provisions store request (law.durable w) (ok response) (law.durable w')
  succeeded none request w w' response h = absurd (nobody_provisions request w w' response h)
  succeeded (some actor) request w w' response h =
      let (token, now, super, _, _, data_after, roles, _) =
        create_company-provisions law actor request w w' response h in
      subst (Provisions (some actor) request (law.durable w) (ok response)) (sym data_after)
        (provisions actor response token now refl super roles)

  -- On a driver with the laws of RunsSql, every provisioning is a step of this kind on the committed
  -- data: it throws and leaves the data as it was, or it was asked for with global authority and adds
  -- the company, its administrator, the administrator's tenant_admin roles, of which there is one at
  -- least, and the audit event, and nothing else.
  pub create_company-Provisions :
      (store : Option AuthContext) (request : CreateCompanyRequest) (w : W)
      → Provisions store request
          (law.durable w)
          (create_company driver store request w).0
          (law.durable (create_company driver store request w).1)
  create_company-Provisions store request w = go (create_company driver store request w) refl
    where
      go :
          (o : Result CreateCompanyResponse × W)
          → create_company driver store request w ≡ o
          → Provisions store request (law.durable w) o.0 (law.durable o.1)
      go (ok response, w') h = succeeded store request w w' response h
      go (err e, w') h =
          subst (Provisions store request (law.durable w) (err e))
            (sym (
              subst (λ o. law.durable o.1 ≡ law.durable w) h
                (create_company_atomic law store request w e (ap (λ o. o.0) h))))
            (refuses e)

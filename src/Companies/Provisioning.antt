-- ===== src/Companies/Provisioning.antt =====
-- companies.service.ts: what a provisioning that returned has committed, and what one that threw has.
use oc.Base.{
  ℕ, map, sym, String, Bool, true, false, Option, none, some, ◌≡◌, refl, ◌∙◌, ap, [], ◌≢◌, arith,
}
use oc.Base.{first, if◌then◌else◌}
use oc.Base.Text.{truthy}
use oc.Base.Exec.{forbidden, Failure, ok, err, pure, throw, ◌>>=◌}
use oc.Base.Exec.Laws.{bind_keeps, if_keeps}
use oc.Contracts.{one_time_token, AuthContext, CreateCompanyRequest, CreateCompanyResponse}
use oc.Database.{SqlDriver, apply_session_context, transaction}
use oc.Database.Transaction.{Confined, transaction_returned, transaction_atomic}
use oc.Sql.Schema.{Role, Tables, Server, cleared}
use oc.Sql.Policy.{Dialect}
use oc.Sql.Run.{Moment}
use oc.Sql.Rows.{tenant_admin_role_rows}
use oc.Sql.Driver.{RunsSql, clear_session_context-cleared}
use oc.Audit.{audit_row, record_event}
use oc.Tenant.Context.{get_required}
use oc.Companies.Steps.{provisioned_tables, provision_effect}
use oc.Companies.Expected.{provisioned_data, tenant_admin_roles}
use oc.Companies.{provision, provisioned, create_company, require_id}

-- The statements go through the executor alone.
pub provision-Confined :
    {W X : Type 0} (view : W → X) (actor : AuthContext) (request : CreateCompanyRequest)
    → Confined view (provision {W = W} actor request)
unfolding provision apply_session_context record_event pure throw
provision-Confined {W} view actor request tx q =
    bind_keeps view _ _ (bind_keeps view _ _ (q _) λ _. bind_keeps view _ _ (q _) λ _ w. refl) λ _.
      bind_keeps view _ _ (q _) λ company.
        bind_keeps view _ _ (require_id_keeps (first company.rows) _) λ company_id.
          bind_keeps view _ _ (q _) λ admin.
            bind_keeps view _ _ (require_id_keeps (first admin.rows) _) λ admin_id.
              bind_keeps view _ _ (q _) λ assigned.
                bind_keeps view _ _ (if_keeps view _ _ _ (λ w. refl) (λ w. refl))
                  λ _. bind_keeps view _ _ (bind_keeps view _ _ (q _) λ _ w. refl) λ _ w. refl
  where
    require_id_keeps : (o : Option String) (m : String) (w : W) → view (require_id o m w).1 ≡ view w
    require_id_keeps none m w = refl
    require_id_keeps (some id) m w = if_keeps view (truthy id) _ _ (λ _. refl) (λ _. refl) w

provisioned_tables_lem :
    (actor : AuthContext) (request : CreateCompanyRequest) (m₁ m₂ m₃ : Moment) (t : Tables)
    → provisioned_tables actor request m₁ m₂ m₃ t
      ≡ provisioned_data actor request (provisioned m₁.fresh_id m₂.fresh_id) m₂.fresh_token m₃.now t
unfolding tenant_admin_role_rows audit_row
provisioned_tables_lem actor request m₁ m₂ m₃ t = refl

some_role :
    (admin_id company_id : String) (t : Tables)
    → tenant_admin_role_rows admin_id company_id t.roles ≢ []
    → tenant_admin_roles t ≢ []
unfolding tenant_admin_role_rows
some_role admin_id company_id t h e = h (
    ap
      (map
        (λ (r : Role). record { user_id = admin_id; role_id = r.id; company_id = some company_id }))
      e)

module _ {W : Type 0} {dialect : Dialect} {driver : SqlDriver W}
    (law : RunsSql dialect driver) where
  pub create_company-eq-ok :
      (actor : AuthContext) (request : CreateCompanyRequest) (w w' : W)
      (response : CreateCompanyResponse)
      → create_company driver (some actor) request w ≡ (ok response, w')
      → (actor.is_super_admin ≡ true)
        × (transaction driver (provision actor request) w ≡ (ok response, w'))
  unfolding create_company get_required ◌>>=◌
  create_company-eq-ok actor request w w' response h = ground arith

  -- the tables and the answer, by the names that the code builds them with
  pub create_company_effect :
      (actor : AuthContext) (request : CreateCompanyRequest) (w w' : W)
      (response : CreateCompanyResponse)
      → create_company driver (some actor) request w ≡ (ok response, w')
      → (m₁ m₂ m₃ : Moment) × (actor.is_super_admin ≡ true)
        × (response ≡ provisioned m₁.fresh_id m₂.fresh_id)
        × (law.durable w' ≡ provisioned_tables actor request m₁ m₂ m₃ (law.durable w))
        × (tenant_admin_role_rows m₂.fresh_id m₁.fresh_id (law.durable w).roles ≢ [])
        × ((law.view w').session ≡ cleared)
  create_company_effect actor request w w' response h =
      let (super, returned) = create_company-eq-ok actor request w w' response h in
      let c = transaction_returned driver (provision actor request) w returned in
      let (m₁, m₂, m₃, answer, tables, assigned) =
        provision_effect law c.begun actor request c.begun_at c.worked_at response c.worked in
      let reads = ap (λ (s : Server). s.tables) (law.begin_reads w c.begun_at c.t c.begun) in
      let clears = clear_session_context-cleared law c.begun c.worked_at c.cleared_at c.clears in
      let (published, kept) =
        law.commit_publishes w c.begun_at c.t c.begun c.cleared_at w' c.committed in
      let same = ap (provisioned_tables actor request m₁ m₂ m₃) reads in
      (
        m₁,
        m₂,
        m₃,
        super,
        answer,
        published ∙ ap (λ (s : Server). s.tables) clears ∙ tables ∙ same,
        λ empty. assigned (
            ap (λ (t : Tables). tenant_admin_role_rows m₂.fresh_id m₁.fresh_id t.roles) reads
            ∙ empty),
        ap (λ (s : Server). s.session) (kept ∙ clears),
      )

  -- On a driver with the laws of RunsSql, a provisioning that returns was asked for with global
  -- authority, and has committed, in front of what was there, one company under the name, one
  -- administrator under the address, of that company alone, without a password and with forced
  -- rotation, a role assignment for each role tenant_admin, of which there is at least one,
  -- and one audit event; the response names the ids of the two rows, a one-time token and the rotation, and no
  -- session key stays set.
  pub create_company-provisions :
      (actor : AuthContext) (request : CreateCompanyRequest) (w w' : W)
      (response : CreateCompanyResponse)
      → create_company driver (some actor) request w ≡ (ok response, w')
      → (token : String) × (now : ℕ) × (actor.is_super_admin ≡ true)
        × (response.bootstrap_access_mode ≡ one_time_token)
        × (response.force_rotate_on_first_use ≡ true)
        × (law.durable w' ≡ provisioned_data actor request response token now (law.durable w))
        × (tenant_admin_roles (law.durable w) ≢ [])
        × ((law.view w').session ≡ cleared)
  create_company-provisions actor request w w' response h =
      let (m₁, m₂, m₃, super, answer, tables, assigned, session) =
        create_company_effect actor request w w' response h in
      (
        m₂.fresh_token,
        m₃.now,
        super,
        ap (λ (r : CreateCompanyResponse). r.bootstrap_access_mode) answer,
        ap (λ (r : CreateCompanyResponse). r.force_rotate_on_first_use) answer,
        tables
            ∙ provisioned_tables_lem actor request m₁ m₂ m₃ (law.durable w)
            ∙ ap
                (λ (r : CreateCompanyResponse).
                  provisioned_data actor request r m₂.fresh_token m₃.now (law.durable w))
                (sym answer),
        some_role m₂.fresh_id m₁.fresh_id (law.durable w) assigned,
        session,
      )

  -- On a driver with the laws of RunsSql, a provisioning that throws, for whatever reason, has
  -- changed nothing of the committed data.
  pub create_company_atomic :
      (store : Option AuthContext) (request : CreateCompanyRequest) (w : W) (e : Failure)
      → (create_company driver store request w).0 ≡ err e
      → law.durable (create_company driver store request w).1 ≡ law.durable w
  unfolding create_company get_required ◌>>=◌
  create_company_atomic none request w e h = refl
  create_company_atomic (some actor) request w e h = go actor.is_super_admin h
    where
      go :
          (b : Bool)
          → ((if b
                then transaction driver (provision actor request)
                else throw (forbidden "Only super_admin can provision companies."))
              w).0
            ≡ err e
          → law.durable
              ((if b
                  then transaction driver (provision actor request)
                  else throw (forbidden "Only super_admin can provision companies."))
                w).1
            ≡ law.durable w
      go true k =
          transaction_atomic law.isolates (provision actor request)
            (provision-Confined law.durable actor request) w e k
      go false k = refl

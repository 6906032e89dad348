-- ===== src/Companies/Steps.antt =====
-- companies.service.ts: the steps of a provisioning, and what they leave in the tables.
use oc.Base.{ℕ, ◌<◌, String, Option, some, ◌≡◌, refl, sym, ◌∙◌, ap, [], ◌∷◌, List, ◌≢◌, arith}
use oc.Base.{first, length}
use oc.Base.Exec.{ok, pure, throw}
use oc.Base.Exec.Laws.{bind-eq-ok, bind_returned}
use oc.Contracts.{AuthContext, CreateCompanyRequest, CreateCompanyResponse}
use oc.Database.{SqlTransactionDriver, SqlDriver, transaction_executor, apply_session_context}
use oc.Database.Statements.{
  QueryResult, set_company_id, set_user_role, insert_company, insert_admin,
  insert_tenant_admin_role, insert_audit_event,
}
use oc.Sql.Schema.{Tables, Server}
use oc.Sql.Policy.{Dialect}
use oc.Sql.Run.{Moment}
use oc.Sql.Rows.{tenant_admin_role_rows}
use oc.Sql.Execute.{execute}
use oc.Sql.Driver.{RunsSql}
use oc.Sql.Effects.{
  with_company, with_admin, with_tenant_admin, with_audit_event, insert_company_effect,
  insert_admin_effect, insert_tenant_admin_role_effect, insert_audit_event_effect,
}
use oc.Audit.{record_event, audit_row}
use oc.Companies.{provision, provisioned, provisioning_event, require_assigned, require_id}

module _ {W : Type 0} where
  require_id-eq-ok :
      (o : Option String) (m : String) (w w' : W) (id : String)
      → require_id o m w ≡ (ok id, w')
      → (o ≡ some id) × (w ≡ w')
  unfolding pure throw
  require_id-eq-ok o m w w' id h = ground arith

  require_assigned-eq-ok :
      (n : ℕ) (w w' : W) → require_assigned (some n) w ≡ (ok tt, w') → (0 < n) × (w ≡ w')
  unfolding pure throw
  require_assigned-eq-ok n w w' h = ground arith

-- The tables after a provisioning: the company, its administrator, the administrator's role and the
-- audit event, each in front of what was there.
abbrev pub provisioned_tables :
    AuthContext → CreateCompanyRequest → Moment → Moment → Moment → Tables → Tables
provisioned_tables actor request m₁ m₂ m₃ t =
    with_audit_event m₃ (audit_row (provisioning_event actor m₁.fresh_id m₂.fresh_id)) (
      with_tenant_admin m₂.fresh_id m₁.fresh_id
        (with_admin m₂ m₁.fresh_id request.admin_email (with_company m₁ request.company_name t)))

ne_nil_of_length : {A : Type 0} (xs : List A) → 0 < length xs → xs ≢ []
ne_nil_of_length [] h = absurd (omega arith)
ne_nil_of_length (x ∷ xs) h = λ e. cc

-- The four statements one after the other, at the ids that the first two gave out.
chained :
    (actor : AuthContext) (request : CreateCompanyRequest) (m₁ m₂ m₃ : Moment)
    (company_id admin_id : String) (t : Tables) (s₁ s₂ s₃ s₄ s₅ s₆ s₇ s₈ : Server)
    → s₁.tables ≡ t
    → company_id ≡ m₁.fresh_id
    → admin_id ≡ m₂.fresh_id
    → s₂ ≡ record s₁ { tables = with_company m₁ request.company_name s₁.tables }
    → s₂ ≡ s₃
    → s₄ ≡ record s₃ { tables = with_admin m₂ company_id request.admin_email s₃.tables }
    → s₄ ≡ s₅
    → s₆ ≡ record s₅ { tables = with_tenant_admin admin_id company_id s₅.tables }
    → s₆ ≡ s₇
    → s₈ ≡ record s₇ {
      tables =
          with_audit_event m₃ (audit_row (provisioning_event actor company_id admin_id)) s₇.tables;
    }
    → s₈.tables ≡ provisioned_tables actor request m₁ m₂ m₃ t
chained actor request m₁ m₂ m₃ company_id admin_id t s₁ s₂ s₃ s₄ s₅ s₆ s₇ s₈ a b c d e f g h i j =
    cc

module _ {W : Type 0} {dialect : Dialect} {driver : SqlDriver W} (law : RunsSql dialect driver)
    {v u : W} {t : SqlTransactionDriver W} (begun : driver.begin_transaction v ≡ (ok t, u)) where
  apply_effect :
      (actor : AuthContext) (w w' : W)
      → apply_session_context actor (transaction_executor t) w ≡ (ok tt, w')
      → (law.view w').tables ≡ (law.view w).tables
  unfolding apply_session_context execute pure
  apply_effect actor w w' h =
      let (_, w₁, one, rest) = bind-eq-ok _ _ h in
      let (_, w₂, two, rest₁) = bind-eq-ok _ _ rest in
      let a = ap (λ o. o.1.tables) (law.query_runs v u t begun (set_company_id _) w w₁ _ one) in
      let b = ap (λ o. o.1.tables) (law.query_runs v u t begun (set_user_role _) w₁ w₂ _ two) in
      let d = ap (λ o. (law.view o.1).tables) rest₁ in cc

  -- The steps of a provisioning that returned, each with the state that it left
  record Steps (actor : AuthContext) (request : CreateCompanyRequest) (w w' : W)
      (response : CreateCompanyResponse) : Type 0 where
    w₁ : W
    w₂ : W
    w₄ : W
    w₆ : W
    company : QueryResult String
    admin : QueryResult String
    assignment : QueryResult (Unit {0})
    logged : QueryResult (Unit {0})
    company_id : String
    admin_id : String
    applied : apply_session_context actor (transaction_executor t) w ≡ (ok tt, w₁)
    inserted : t.query (insert_company request.company_name) w₁ ≡ (ok company, w₂)
    company_given : first company.rows ≡ some company_id
    invited : t.query (insert_admin company_id request.admin_email) w₂ ≡ (ok admin, w₄)
    admin_given : first admin.rows ≡ some admin_id
    assigned : t.query (insert_tenant_admin_role admin_id company_id) w₄ ≡ (ok assignment, w₆)
    counted : require_assigned assignment.rows_affected w₆ ≡ (ok tt, w₆)
    recorded :
        t.query (insert_audit_event (audit_row (provisioning_event actor company_id admin_id))) w₆
        ≡ (ok logged, w')
    answered : response ≡ provisioned company_id admin_id

  unchanged : (o : Option ℕ) (w w' : W) → require_assigned o w ≡ (ok tt, w') → w ≡ w'
  unfolding pure throw
  unchanged o w w' h = ground arith

  provision-Steps :
      (actor : AuthContext) (request : CreateCompanyRequest) (w w' : W)
      (response : CreateCompanyResponse)
      → provision actor request (transaction_executor t) w ≡ (ok response, w')
      → Steps actor request w w' response
  unfolding provision record_event pure
  provision-Steps actor request w w' response h = bind_returned _ _ h λ _ w₁ applied k₁.
      bind_returned _ _ k₁ λ company w₂ inserted k₂.
        bind_returned _ _ k₂ λ company_id w₃ required k₃.
          bind_returned _ _ k₃ λ admin w₄ invited k₄.
            bind_returned _ _ k₄ λ admin_id w₅ required₁ k₅.
              bind_returned _ _ k₅ λ assignment w₆ assigned k₆.
                bind_returned _ _ k₆ λ _ w₇ counted k₇. bind_returned _ _ k₇ λ _ w₈ recorded k₈.
                  bind_returned _ _ recorded λ logged w₉ stored k₉.
                    let (given, s₂) = require_id-eq-ok _ _ w₂ w₃ company_id required in
                    let (given₁, s₄) = require_id-eq-ok _ _ w₄ w₅ admin_id required₁ in
                    let s₆ = unchanged assignment.rows_affected w₆ w₇ counted in
                    let last : w₉ ≡ w' = ap (λ o. o.1) k₉ ∙ ap (λ o. o.1) k₈ in
                    record {
                      w₁ = w₁;
                      w₂ = w₂;
                      w₄ = w₄;
                      w₆ = w₆;
                      company = company;
                      admin = admin;
                      assignment = assignment;
                      logged = logged;
                      company_id = company_id;
                      admin_id = admin_id;
                      applied = applied;
                      inserted = inserted;
                      company_given = given;
                      invited =
                          ap (t.query (insert_admin company_id request.admin_email)) s₂ ∙ invited;
                      admin_given = given₁;
                      assigned =
                          ap (t.query (insert_tenant_admin_role admin_id company_id)) s₄ ∙ assigned;
                      counted = counted ∙ ap (λ x. (ok tt, x)) (sym s₆);
                      recorded =
                          ap
                            (t.query (
                              insert_audit_event
                                (audit_row (provisioning_event actor company_id admin_id))))
                            s₆
                          ∙ stored
                          ∙ ap (λ x. (ok logged, x)) last;
                      answered = cc;
                    }

  Steps-effect :
      (actor : AuthContext) (request : CreateCompanyRequest) (w w' : W)
      (response : CreateCompanyResponse)
      → Steps actor request w w' response
      → (m₁ m₂ m₃ : Moment) × (response ≡ provisioned m₁.fresh_id m₂.fresh_id)
        × ((law.view w').tables ≡ provisioned_tables actor request m₁ m₂ m₃ (law.view w).tables)
        × (tenant_admin_role_rows m₂.fresh_id m₁.fresh_id (law.view w).tables.roles ≢ [])
  unfolding execute
  Steps-effect actor request w w' response s =
      let runs = law.query_runs v u t begun in
      let e₀ = apply_effect actor w s.w₁ s.applied in
      let (rows₁, e₁) =
        insert_company_effect dialect (law.view s.w₁) (law.view s.w₂) (law.moment s.w₁)
          request.company_name s.company
          (runs (insert_company request.company_name) s.w₁ s.w₂ s.company s.inserted) in
      let (rows₂, e₂) =
        insert_admin_effect dialect (law.view s.w₂) (law.view s.w₄) (law.moment s.w₂) s.company_id
          request.admin_email s.admin
          (runs (insert_admin s.company_id request.admin_email) s.w₂ s.w₄ s.admin s.invited) in
      let (affected, e₃) =
        insert_tenant_admin_role_effect dialect (law.view s.w₄) (law.view s.w₆) s.admin_id
          s.company_id s.assignment
          (runs (insert_tenant_admin_role s.admin_id s.company_id) s.w₄ s.w₆ s.assignment
            s.assigned) in
      let row = audit_row (provisioning_event actor s.company_id s.admin_id) in
      let e₄ =
        insert_audit_event_effect dialect (law.view s.w₆) (law.view w') (law.moment s.w₆) row
          s.logged (runs (insert_audit_event row) s.w₆ w' s.logged s.recorded) in
      let (positive, _) = require_assigned-eq-ok _ s.w₆ s.w₆ (rw affected at s.counted) in
      let company_is : s.company_id ≡ (law.moment s.w₁).fresh_id = cc s.company_given in
      let admin_is : s.admin_id ≡ (law.moment s.w₂).fresh_id = cc s.admin_given in
      let roles_same : (law.view s.w₄).tables.roles ≡ (law.view w).tables.roles = cc in
      (
        law.moment s.w₁,
        law.moment s.w₂,
        law.moment s.w₆,
        s.answered ∙ cc,
        chained actor request (law.moment s.w₁) (law.moment s.w₂) (law.moment s.w₆) s.company_id
            s.admin_id (law.view w).tables (law.view s.w₁) (law.view s.w₂) (law.view s.w₂)
            (law.view s.w₄) (law.view s.w₄) (law.view s.w₆) (law.view s.w₆) (law.view w') e₀
            company_is admin_is e₁ refl e₂ refl e₃ refl e₄,
        λ empty. ne_nil_of_length _ positive (cc),
      )

  pub provision_effect :
      (actor : AuthContext) (request : CreateCompanyRequest) (w w' : W)
      (response : CreateCompanyResponse)
      → provision actor request (transaction_executor t) w ≡ (ok response, w')
      → (m₁ m₂ m₃ : Moment) × (response ≡ provisioned m₁.fresh_id m₂.fresh_id)
        × ((law.view w').tables ≡ provisioned_tables actor request m₁ m₂ m₃ (law.view w).tables)
        × (tenant_admin_role_rows m₂.fresh_id m₁.fresh_id (law.view w).tables.roles ≢ [])
  provision_effect actor request w w' response h =
      Steps-effect actor request w w' response (provision-Steps actor request w w' response h)

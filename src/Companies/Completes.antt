-- ===== src/Companies/Completes.antt =====
-- companies.service.ts: a provisioning succeeds on a server that is up.
use oc.Base.{some, true, List, [], ◌∷◌}
use oc.Base.{◌≡◌, refl, ap, sym, ◌∙◌, length, ◌==◌}
use oc.Base.Exec.{◌>>=◌, ok, pure, lift}
use oc.Base.Exec.Laws.{bind-ok, paired}
use oc.Contracts.{AuthContext, CreateCompanyRequest}
use oc.Database.{
  SqlTransactionDriver, SqlDriver, transaction_executor, apply_session_context, session_role,
}
use oc.Database.Statements.{
  Statement, Row, QueryResult, AuditEventRow, set_company_id, set_user_role, insert_company,
  insert_admin, insert_tenant_admin_role, insert_audit_event,
}
use oc.Database.Transaction.{transaction-ok}
use oc.Sql.Schema.{Company, User, UserRole, Tables, Server, cleared}
use oc.Sql.Policy.{Dialect}
use oc.Sql.Each.{head_exists, tail_exists}
use oc.Sql.Run.{Moment, done}
use oc.Sql.Rows.{tenant_admin_role_rows}
use oc.Sql.Execute.{execute}
use oc.Sql.Effects.{with_company, with_admin, with_tenant_admin, with_audit_event}
use oc.Sql.Driver.{RunsSql, IsUp, answered, cleared_up}
use oc.Audit.{record_event, audit_row}
use oc.Tenant.Context.{get_required}
use oc.Companies.{provision, provisioned, provisioning_event, create_company}
use oc.Companies.Admissible.{
  Admissible, root_session, company_inserted, admin_inserted, role_assigned, event_inserted,
}
use oc.Companies.Returns.{require_id-ok, require_assigned-ok, create_as_super}

module _ {W : Type 0} {dialect : Dialect} {driver : SqlDriver W} {law : RunsSql dialect driver}
    (up : IsUp law) (v u : W) (t : SqlTransactionDriver W)
    (begun : driver.begin_transaction v ≡ (ok t, u)) where
  abbrev next : Statement → W → W
  next q w = (t.query q w).1

  -- a statement that gives a result on the connection returns it and leaves the connection so
  stepped :
      (q : Statement) (w : W) (s s' : Server) (r : QueryResult (Row q))
      → law.view w ≡ s
      → execute dialect (law.moment w) q s ≡ (ok r, s')
      → (t.query q w ≡ (ok r, next q w)) × (law.view (next q w) ≡ s')
  stepped q w s s' r seen runs =
      let runs' = ap (execute dialect (law.moment w) q) seen ∙ runs in
      let one = answered up begun q w {r = r} (ap (λ o. o.0) runs') in
      (one, ap (λ o. o.1) (sym (law.query_runs v u t begun q w (next q w) r one) ∙ runs'))

  module _ (actor : AuthContext) (request : CreateCompanyRequest) where
    -- the states in which the company and its administrator are inserted
    abbrev pub prepared : W
    prepared = next (set_user_role (session_role actor)) (next (set_company_id actor.company_id) u)

    abbrev pub inserted : W
    inserted = next (insert_company request.company_name) prepared

    role_of_root : actor.is_super_admin ≡ true → session_role actor ≡ some "super_admin"
    role_of_root h = rw h refl

    prepared_view :
        actor.is_super_admin ≡ true
        → (apply_session_context actor (transaction_executor t) u ≡ (ok tt, prepared))
          × (law.view prepared
              ≡ record { session = root_session actor.company_id; tables = law.durable v })
    unfolding apply_session_context execute pure
    prepared_view super =
        let w₁ = next (set_company_id actor.company_id) u in
        let s₁ : Server = record {
          session = record cleared { company_id = actor.company_id };
          tables = law.durable v;
        } in
        let one =
          stepped (set_company_id actor.company_id) u _ s₁ _ (law.begin_reads v u t begun) refl in
        let two =
          stepped (set_user_role (session_role actor)) w₁ s₁
            (record {
              session = record s₁.session { user_role = session_role actor };
              tables = law.durable v;
            })
            _ one.1 refl in
        (
          bind-ok _ _ one.0 ∙ bind-ok _ _ two.0,
          two.1
              ∙ ap
                  (λ r. record {
                    session = record s₁.session { user_role = r };
                    tables = law.durable v;
                  })
                  (role_of_root super),
        )

    module _ (super : actor.is_super_admin ≡ true)
        (ready : Admissible dialect actor request
          (law.moment prepared)
          (law.moment inserted)
          (law.durable v)) where
      abbrev m₁ : Moment
      m₁ = law.moment prepared

      abbrev m₂ : Moment
      m₂ = law.moment inserted

      abbrev t₀ : Tables
      t₀ = law.durable v

      abbrev t₁ : Tables
      t₁ = with_company m₁ request.company_name t₀

      abbrev t₂ : Tables
      t₂ = with_admin m₂ m₁.fresh_id request.admin_email t₁

      abbrev t₃ : Tables
      t₃ = with_tenant_admin m₂.fresh_id m₁.fresh_id t₂

      abbrev on : Tables → Server
      on tables = record { session = root_session actor.company_id; tables = tables }

      abbrev invited : W
      invited = next (insert_admin m₁.fresh_id request.admin_email) inserted

      abbrev assigned : W
      assigned = next (insert_tenant_admin_role m₂.fresh_id m₁.fresh_id) invited

      company_step :
          (t.query (insert_company request.company_name) prepared
            ≡ (ok (done (m₁.fresh_id ∷ []) 1), inserted))
          × (law.view inserted ≡ on t₁)
      unfolding execute
      company_step = stepped _ prepared (on t₀) (on t₁) _ (prepared_view super).1 (
          company_inserted dialect actor.company_id m₁ request.company_name t₀ ready.name_fits
            ready.company_free)

      admin_step :
          (t.query (insert_admin m₁.fresh_id request.admin_email) inserted
            ≡ (ok (done (m₂.fresh_id ∷ []) 1), invited))
          × (law.view invited ≡ on t₂)
      unfolding execute
      admin_step = stepped _ inserted (on t₁) (on t₂) _ company_step.1 (
          admin_inserted dialect actor.company_id m₂ m₁.fresh_id request.admin_email t₁
            ready.company_id (head_exists (λ (c : Company). c.id) _ t₀.companies) ready.email_fits
            ready.admin_free)

      abbrev rows : List UserRole
      rows = tenant_admin_role_rows m₂.fresh_id m₁.fresh_id t₀.roles

      role_step :
          (t.query (insert_tenant_admin_role m₂.fresh_id m₁.fresh_id) invited
            ≡ (ok (done [] (length rows)), assigned))
          × (law.view assigned ≡ on t₃)
      unfolding execute
      role_step = stepped _ invited (on t₂) (on t₃) _ admin_step.1 (
          role_assigned dialect actor.company_id m₂.fresh_id m₁.fresh_id t₂ ready.role_known
            ready.admin_id ready.company_id (head_exists (λ (u : User). u.id) _ t₀.users)
            (head_exists (λ (c : Company). c.id) _ t₀.companies) ready.role_free)

      abbrev event : AuditEventRow
      event = audit_row (provisioning_event actor m₁.fresh_id m₂.fresh_id)

      abbrev recorded : W
      recorded = next (insert_audit_event event) assigned

      event_step :
          (t.query (insert_audit_event event) assigned ≡ (ok (done [] 1), recorded))
          × (law.view recorded ≡ on (with_audit_event (law.moment assigned) event t₃))
      unfolding execute
      event_step =
          stepped _ assigned (on t₃) (on (with_audit_event (law.moment assigned) event t₃)) _
            role_step.1
            (event_inserted dialect actor.company_id (law.moment assigned) actor m₁.fresh_id
              m₂.fresh_id t₃ ready.actor_id ready.company_id
              (tail_exists (λ (u : User). u.id == actor.user_id) _ t₀.users ready.actor_known))

      provision_ok :
          provision actor request (transaction_executor t) u
          ≡ (ok (provisioned m₁.fresh_id m₂.fresh_id), recorded)
      unfolding provision record_event pure
      provision_ok =
          bind-ok _ _ (prepared_view super).0
          ∙ bind-ok _ _ company_step.0
          ∙ bind-ok _ _ (require_id-ok m₁.fresh_id _ inserted ready.company_id_given)
          ∙ bind-ok _ _ admin_step.0
          ∙ bind-ok _ _ (require_id-ok m₂.fresh_id _ invited ready.admin_id_given)
          ∙ bind-ok _ _ role_step.0
          ∙ bind-ok _ _ (require_assigned-ok rows assigned ready.role_known)
          ∙ bind-ok _ _ (bind-ok _ _ event_step.0)

      -- On a server that is up a super_admin's provisioning succeeds, with the ids that the server
      -- gave to the company and to its administrator, if the tables let both in.
      pub create_company_complete :
          (create_company driver (some actor) request v).0
          ≡ ok (provisioned m₁.fresh_id m₂.fresh_id)
      unfolding create_company get_required lift ◌>>=◌
      create_company_complete =
          let (x, clears) = cleared_up up begun recorded in
          ap (λ m. (m v).0) (create_as_super driver request actor super)
          ∙ ap (λ o. o.0)
              (transaction-ok driver _ begun provision_ok clears
                (paired (t.commit x) (up.commits v u t begun x)))

-- ===== src/Sql/Integrity/Keeps.antt =====
-- New companies, administrators, audit events and protections keep the constraints.
use oc.Base.{
  ◌<◌, String, Option, none, some, Bool, true, false, ◌≡◌, refl, ap, ◌∙◌, eqb, ◌==◌, ◌||◌,
}
use oc.Database.Statements.{AuditEventRow, ProtectionInsert}
use oc.Sql.Schema.{Company, Role, User, UserRole, AuditEvent, Tables}
use oc.Sql.Policy.{Dialect}
use oc.Sql.Run.{Moment, exists}
use oc.Sql.Rows.{company_exists, user_exists, null_or}
use oc.Sql.Effects.{with_company, with_admin, with_audit_event, with_protection}
use oc.Sql.Each.{Each-imp, none_such, tail_exists}
use oc.Sql.Integrity.{IsIntact, UserFits, UserRoleFits, AuditEventFits}

null_or_imp :
    (p q : String → Bool)
    → ((s : String) → p s ≡ true → q s ≡ true)
    → (o : Option String) → null_or p o ≡ true
    → null_or q o ≡ true
null_or_imp p q k none h = refl
null_or_imp p q k (some s) h = k s h

-- What a table refers to is still there.
pub record Grows (t t' : Tables) : Type 0 where
  pub companies : (c : String) → company_exists t c ≡ true → company_exists t' c ≡ true
  pub users : (u : String) → user_exists t u ≡ true → user_exists t' u ≡ true
  pub roles : t'.roles ≡ t.roles

module _ {t t' : Tables} (g : Grows t t') where
  pub UserFits-grows : (u : User) → UserFits t u → UserFits t' u
  UserFits-grows u (company, scope) = (null_or_imp _ _ g.companies u.company_id company, scope)

  pub UserRoleFits-grows : (r : UserRole) → UserRoleFits t r → UserRoleFits t' r
  UserRoleFits-grows r (user, role, company) = (
    g.users r.user_id user,
    ap (λ roles. exists (λ (x : Role). eqb x.id r.role_id) roles) g.roles ∙ role,
    null_or_imp _ _ g.companies r.company_id company,
  )

  pub AuditEventFits-grows : (e : AuditEvent) → AuditEventFits t e → AuditEventFits t' e
  AuditEventFits-grows e (company, actor) = (
    null_or_imp _ _ g.companies e.event.company_id company,
    null_or_imp _ _ g.users e.event.actor_user_id actor,
  )

module _ (dialect : Dialect) (t : Tables) (h : IsIntact dialect t) where
  pub with_company-IsIntact :
      (m : Moment) (name : String)
      → exists (λ (c : Company). dialect.same_text c.name name || c.id == m.fresh_id) t.companies
        ≡ false
      → IsIntact dialect (with_company m name t)
  with_company-IsIntact m name free =
      let g : Grows t (with_company m name t) = record {
        companies = λ c. tail_exists _ _ t.companies;
        users = λ u k. k;
        roles = refl;
      } in
      record {
        companies = (none_such _ _ free, h.companies);
        roles = h.roles;
        users = h.users;
        tenant_roles = h.tenant_roles;
        global_roles = h.global_roles;
        users_fit = Each-imp _ _ (UserFits-grows g) t.users h.users_fit;
        user_roles_fit = Each-imp _ _ (UserRoleFits-grows g) t.user_roles h.user_roles_fit;
        audit_events_fit = Each-imp _ _ (AuditEventFits-grows g) t.audit_events h.audit_events_fit;
        protections_fit = h.protections_fit;
      }

  pub with_admin-IsIntact :
      (m : Moment) (company_id email : String)
      → company_exists t company_id ≡ true
      → exists (λ (u : User). dialect.same_text u.email email || u.id == m.fresh_id) t.users ≡ false
      → IsIntact dialect (with_admin m company_id email t)
  with_admin-IsIntact m company_id email known free =
      let g : Grows t (with_admin m company_id email t) = record {
        companies = λ c k. k;
        users = λ u. tail_exists _ _ t.users;
        roles = refl;
      } in
      record {
        companies = h.companies;
        roles = h.roles;
        users = (none_such _ _ free, h.users);
        tenant_roles = h.tenant_roles;
        global_roles = h.global_roles;
        users_fit = ((known, refl), Each-imp _ _ (UserFits-grows g) t.users h.users_fit);
        user_roles_fit = Each-imp _ _ (UserRoleFits-grows g) t.user_roles h.user_roles_fit;
        audit_events_fit = Each-imp _ _ (AuditEventFits-grows g) t.audit_events h.audit_events_fit;
        protections_fit = h.protections_fit;
      }

  pub with_audit_event-IsIntact :
      (m : Moment) (e : AuditEventRow)
      → (null_or (company_exists t) e.company_id ≡ true)
        × (null_or (user_exists t) e.actor_user_id ≡ true)
      → IsIntact dialect (with_audit_event m e t)
  with_audit_event-IsIntact m e fits = record {
    companies = h.companies;
    roles = h.roles;
    users = h.users;
    tenant_roles = h.tenant_roles;
    global_roles = h.global_roles;
    users_fit = h.users_fit;
    user_roles_fit = h.user_roles_fit;
    audit_events_fit = (fits, h.audit_events_fit);
    protections_fit = h.protections_fit;
  }

  pub with_protection-IsIntact :
      (m : Moment) (p : ProtectionInsert)
      → (0 < p.denied_attempt_count) × (0 < p.window_seconds)
      → IsIntact dialect (with_protection m p t)
  with_protection-IsIntact m p fits = record {
    companies = h.companies;
    roles = h.roles;
    users = h.users;
    tenant_roles = h.tenant_roles;
    global_roles = h.global_roles;
    users_fit = h.users_fit;
    user_roles_fit = h.user_roles_fit;
    audit_events_fit = h.audit_events_fit;
    protections_fit = (fits, h.protections_fit);
  }

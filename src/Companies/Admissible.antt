-- ===== src/Companies/Admissible.antt =====
-- When each statement of a provisioning succeeds on a connection with global authority.
use oc.Base.{String, Option, some, none, true, false, ◌||◌, List, [], ◌∷◌, ◌++◌}
use oc.Base.{◌≡◌, refl, ◌≢◌, length, ◌==◌}
use oc.Base.Text.{truthy, utf16_length}
use oc.Base.Exec.{ok}
use oc.Contracts.{AuthContext, CreateCompanyRequest}
use oc.Sql.Schema.{Company, User, UserRole, Tables, Session, Server}
use oc.Sql.Policy.{Dialect, tenant_predicate, sql_eq, try_cast}
use oc.Sql.Each.{or_true}
use oc.Sql.Run.{Moment, exists, done}
use oc.Sql.Rows.{fits, tenant_admin_role_rows, has_conflict, company_exists, user_exists}
use oc.Sql.Execute.{
  assign_rows, run_insert_company, run_insert_admin, run_insert_tenant_admin_role,
  run_insert_audit_event,
}
use oc.Sql.Effects.{with_company, with_admin, with_tenant_admin, with_audit_event}
use oc.Audit.{audit_row}
use oc.Companies.{provisioning_event}

-- the session context of a caller with global authority
abbrev pub root_session : Option String → Session
root_session company_id = record {
  company_id = company_id;
  user_role = some "super_admin";
  global_principal_login = false;
}

-- The tables let the company and its administrator in, with the ids that the server gives out at two
-- moments: the ids are identifiers and not empty; name and address are not longer than their columns;
-- ids, name and address are free, a role is there to assign, and
-- the caller is a user.
pub record Admissible (dialect : Dialect) (actor : AuthContext) (request : CreateCompanyRequest)
    (m₁ m₂ : Moment) (t : Tables) : Type 0 where
  pub company_id : dialect.is_uniqueidentifier m₁.fresh_id ≡ true
  pub admin_id : dialect.is_uniqueidentifier m₂.fresh_id ≡ true
  pub company_id_given : truthy m₁.fresh_id ≡ true
  pub admin_id_given : truthy m₂.fresh_id ≡ true
  pub actor_id : dialect.is_uniqueidentifier actor.user_id ≡ true
  pub name_fits : fits 255 request.company_name ≡ true
  pub email_fits : fits 320 request.admin_email ≡ true
  pub company_free :
      exists
        (λ (c : Company). dialect.same_text c.name request.company_name || c.id == m₁.fresh_id)
        t.companies
      ≡ false
  pub admin_free :
      exists
        (λ (u : User). dialect.same_text u.email request.admin_email || u.id == m₂.fresh_id)
        t.users
      ≡ false
  pub role_known : tenant_admin_role_rows m₂.fresh_id m₁.fresh_id t.roles ≢ []
  pub role_free :
      has_conflict t.user_roles (tenant_admin_role_rows m₂.fresh_id m₁.fresh_id t.roles) ≡ false
  pub actor_known : user_exists t actor.user_id ≡ true

module _ (dialect : Dialect) (home : Option String) where
  allowed : (c : Option String) → tenant_predicate dialect (root_session home) c ≡ true
  unfolding tenant_predicate
  allowed c = or_true (sql_eq c (try_cast dialect home)) true refl

  abbrev at_server : Tables → Server
  at_server t = record { session = root_session home; tables = t }

  pub company_inserted :
      (m : Moment) (name : String) (t : Tables)
      → fits 255 name ≡ true
      → exists (λ (c : Company). dialect.same_text c.name name || c.id == m.fresh_id) t.companies
        ≡ false
      → run_insert_company dialect m name (at_server t)
        ≡ (ok (done (m.fresh_id ∷ []) 1), at_server (with_company m name t))
  unfolding run_insert_company
  company_inserted m name t short free = rw (allowed (some m.fresh_id), short, free) refl

  pub admin_inserted :
      (m : Moment) (company_id email : String) (t : Tables)
      → dialect.is_uniqueidentifier company_id ≡ true
      → company_exists t company_id ≡ true
      → fits 320 email ≡ true
      → exists (λ (u : User). dialect.same_text u.email email || u.id == m.fresh_id) t.users ≡ false
      → run_insert_admin dialect m company_id email (at_server t)
        ≡ (ok (done (m.fresh_id ∷ []) 1), at_server (with_admin m company_id email t))
  unfolding run_insert_admin
  admin_inserted m company_id email t id known short free =
      rw (id, allowed (some company_id), known, short, free) refl

  pub role_assigned :
      (user_id company_id : String) (t : Tables)
      → tenant_admin_role_rows user_id company_id t.roles ≢ []
      → dialect.is_uniqueidentifier user_id ≡ true
      → dialect.is_uniqueidentifier company_id ≡ true
      → user_exists t user_id ≡ true
      → company_exists t company_id ≡ true
      → has_conflict t.user_roles (tenant_admin_role_rows user_id company_id t.roles) ≡ false
      → run_insert_tenant_admin_role dialect user_id company_id (at_server t) ≡ (
        ok (done [] (length (tenant_admin_role_rows user_id company_id t.roles))),
        at_server (with_tenant_admin user_id company_id t),
      )
  unfolding run_insert_tenant_admin_role
  role_assigned user_id company_id t some_role a b c d free =
      go (tenant_admin_role_rows user_id company_id t.roles) some_role free
    where
      go :
          (rows : List UserRole)
          → rows ≢ []
          → has_conflict t.user_roles rows ≡ false
          → assign_rows dialect user_id company_id rows (at_server t) ≡ (
            ok (done [] (length rows)),
            at_server (record t { user_roles = rows ++ t.user_roles }),
          )
      go [] h k = absurd (h refl)
      go (r ∷ rs) h k = rw (a, b, allowed (some company_id), c, d, k) refl

  pub event_inserted :
      (m : Moment) (actor : AuthContext) (company_id admin_id : String) (t : Tables)
      → dialect.is_uniqueidentifier actor.user_id ≡ true
      → dialect.is_uniqueidentifier company_id ≡ true
      → user_exists t actor.user_id ≡ true
      → run_insert_audit_event dialect m
          (audit_row (provisioning_event actor company_id admin_id))
          (at_server t)
        ≡ (
          ok (done [] 1),
          at_server
              (with_audit_event m (audit_row (provisioning_event actor company_id admin_id)) t),
        )
  unfolding run_insert_audit_event audit_row fits utf16_length
  event_inserted m actor company_id admin_id t a b c = rw (a, b, allowed none, c) refl

-- ===== src/Sql/Isolation.antt =====
-- 002_rls.sql under the session context that database.service.ts sets: what a tenant's transaction
-- sees, and what it may write.
use oc.Base.{String, Option, none, some, Bool, true, false, List, [], ◌∷◌}
use oc.Base.{◌≡◌, refl, ap, ◌∙◌, sym, eq_iff, arith, ◌==◌, first, Bool-cases, inl, inr}
use oc.Base.{◌&&◌, if◌then◌else◌}
use oc.Base.Exec.{Result, ok, pure, throw}
use oc.Base.Exec.Laws.{bind_returned}
use oc.Contracts.{
  AuthContext, RoleCode, super_admin, tenant, tenant_admin, editor, reader, role_name,
  includes_super_admin,
}
use oc.Database.{
  SqlTransactionDriver, SqlDriver, transaction_executor, apply_session_context, session_role,
}
use oc.Database.Statements.{QueryResult, AuditEventRow, set_company_id, set_user_role}
use oc.Sql.Schema.{Session, Server, User, UserRole, AuditEvent, cleared}
use oc.Sql.Policy.{Dialect, sql_eq, try_cast, tenant_predicate, tenant_or_global_principal_filter}
use oc.Sql.Rows.{fits, refuse, null_or, company_exists, user_exists}
use oc.Sql.Each.{Each, Each-select}
use oc.Sql.Run.{Moment}
use oc.Sql.Execute.{
  execute, visible_users, visible_user_roles, visible_audit_events, run_insert_audit_event,
}
use oc.Sql.Driver.{RunsSql}

-- A connection on which nothing but the rows of one company shows, or of none if that is missing, and
-- an audit event of another company is refused
pub record TenantOnly (dialect : Dialect) (company_id : Option String) (s : Server) : Type 0 where
  pub users :
      Each (λ (u : User). u.company_id ≡ company_id) (visible_users dialect s.session s.tables)
  pub user_roles :
      Each
        (λ (r : UserRole). r.company_id ≡ company_id)
        (visible_user_roles dialect s.session s.tables)
  pub audit_events :
      Each
        (λ (e : AuditEvent). e.event.company_id ≡ company_id)
        (visible_audit_events dialect s.session s.tables)
  pub writes :
      (m : Moment) (e : AuditEventRow) (r : QueryResult (Unit {0})) (s' : Server)
      → run_insert_audit_event dialect m e s ≡ (ok r, s')
      → e.company_id ≡ company_id

-- the session context of a tenant
abbrev pub tenant_session : Option String → Option String → Session
tenant_session company_id role = record {
  company_id = company_id;
  user_role = role;
  global_principal_login = false;
}

same_text : (a b : String) → (a == b) ≡ true → some a ≡ some b
same_text a b h = ap some ((eq_iff a b).0 h)

-- A row that compares equal with a company that was cast to an identifier is that company's.
same_company :
    (dialect : Dialect) (row company_id : Option String)
    → sql_eq row (try_cast dialect company_id) ≡ true
    → row ≡ company_id
same_company dialect none company_id h = absurd (cc)
same_company dialect (some a) none h = absurd (cc)
same_company dialect (some a) (some b) h = elim (Bool-cases (dialect.is_uniqueidentifier b)) [
  | inl k ↦ same_text a b (rw k at h)
  | inr k ↦ absurd (cc (rw k at h))
]

module _ (dialect : Dialect) (company_id role : Option String)
    (plain : sql_eq role (some "super_admin") ≡ false) (row : Option String) where
  predicate_company :
      tenant_predicate dialect (tenant_session company_id role) row ≡ true → row ≡ company_id
  unfolding tenant_predicate
  predicate_company h = same_company dialect row company_id (ground arith)

  filter_company :
      tenant_or_global_principal_filter dialect (tenant_session company_id role) row ≡ true
      → row ≡ company_id
  unfolding tenant_or_global_principal_filter
  filter_company h = same_company dialect row company_id (ground arith)

let_through :
    (b : Bool) (x : Result (QueryResult (Unit {0})) × Server) (s s' : Server)
    (r : QueryResult (Unit {0}))
    → (if b then x else refuse s) ≡ (ok r, s')
    → b ≡ true
unfolding throw
let_through true x s s' r h = refl
let_through false x s s' r h = absurd (cc)

fourth :
    (a b c p d e f g i j : Bool)
    → (a && b && c && p && d && e && f && g && i && j) ≡ true
    → p ≡ true
fourth a b c p d e f g i j h = ground arith

written :
    (dialect : Dialect) (m : Moment) (e : AuditEventRow) (s s' : Server)
    (r : QueryResult (Unit {0}))
    → run_insert_audit_event dialect m e s ≡ (ok r, s')
    → tenant_predicate dialect s.session e.company_id ≡ true
unfolding run_insert_audit_event
written dialect m e s s' r h =
    fourth (null_or dialect.is_uniqueidentifier e.company_id)
      (null_or dialect.is_uniqueidentifier e.actor_user_id)
      (null_or dialect.is_uniqueidentifier e.target_id)
      (tenant_predicate dialect s.session e.company_id)
      (null_or (company_exists s.tables) e.company_id)
      (null_or (user_exists s.tables) e.actor_user_id) (null_or (fits 45) e.source_ip)
      (fits 80 e.event_type) (null_or (fits 80) e.target_type) (fits 255 e.reason)
      (let_through _ _ s s' r h)

tenant_session-TenantOnly :
    (dialect : Dialect) (company_id role : Option String)
    → sql_eq role (some "super_admin") ≡ false
    → (s : Server) → s.session ≡ tenant_session company_id role
    → TenantOnly dialect company_id s
unfolding visible_users visible_user_roles visible_audit_events
tenant_session-TenantOnly dialect company_id role plain s h = record {
  users =
      Each-select _
        (λ u k.
          filter_company dialect company_id role plain u.company_id
            (ap (λ x. tenant_or_global_principal_filter dialect x u.company_id) (sym h) ∙ k))
        s.tables.users;
  user_roles =
      Each-select _
        (λ r k.
          filter_company dialect company_id role plain r.company_id
            (ap (λ x. tenant_or_global_principal_filter dialect x r.company_id) (sym h) ∙ k))
        s.tables.user_roles;
  audit_events =
      Each-select _
        (λ e k.
          predicate_company dialect company_id role plain e.event.company_id
            (ap (λ x. tenant_predicate dialect x e.event.company_id) (sym h) ∙ k))
        s.tables.audit_events;
  writes = λ m e r s' k.
      predicate_company dialect company_id role plain e.company_id
        (ap (λ x. tenant_predicate dialect x e.company_id) (sym h) ∙ written dialect m e s s' r k);
}

-- the two statements, from an empty session context
applied :
    (s s₁ s₂ s₃ : Server) (company_id role : Option String)
    → s.session ≡ cleared
    → record s.session { company_id = company_id } ≡ s₁.session
    → record s₁.session { user_role = role } ≡ s₂.session
    → s₂ ≡ s₃
    → s₃.session ≡ tenant_session company_id role
applied s s₁ s₂ s₃ company_id role a b c d = cc

plain_role :
    (roles : List RoleCode)
    → includes_super_admin roles ≡ false
    → sql_eq (elim (first roles) [ none ↦ none | some r ↦ some (role_name r) ]) (some "super_admin")
      ≡ false
plain_role [] h = refl
plain_role (super_admin ∷ rs) h = absurd (cc)
plain_role (tenant tenant_admin ∷ rs) h = refl
plain_role (tenant editor ∷ rs) h = refl
plain_role (tenant reader ∷ rs) h = refl

session_role-plain :
    (context : AuthContext)
    → context.is_super_admin ≡ includes_super_admin context.roles
    → context.is_super_admin ≡ false
    → sql_eq (session_role context) (some "super_admin") ≡ false
session_role-plain context same plain = rw plain (plain_role context.roles (sym same ∙ plain))

module _ {W : Type 0} {dialect : Dialect} {driver : SqlDriver W}
    (law : RunsSql dialect driver) where
  -- In a transaction that begins and has the session context of a caller without global authority set,
  -- the users, role assignments and audit events that show are those of the caller's company, and an
  -- audit event is only written for it, where the context is as the token validator makes it.
  pub apply_session_context-TenantOnly :
      (context : AuthContext) (v u w : W) (t : SqlTransactionDriver W)
      → driver.begin_transaction v ≡ (ok t, u)
      → apply_session_context context (transaction_executor t) u ≡ (ok tt, w)
      → context.is_super_admin ≡ includes_super_admin context.roles
      → context.is_super_admin ≡ false
      → TenantOnly dialect context.company_id (law.view w)
  unfolding apply_session_context execute pure
  apply_session_context-TenantOnly context v u w t begun h same plain =
      bind_returned _ _ h λ r₁ w₁ one rest. bind_returned _ _ rest λ r₂ w₂ two last.
        tenant_session-TenantOnly dialect context.company_id (session_role context)
          (session_role-plain context same plain) (law.view w)
          (applied (law.view u) (law.view w₁) (law.view w₂) (law.view w) context.company_id
            (session_role context) (ap (λ s. s.session) (law.begin_reads v u t begun))
            (ap (λ o. o.1.session)
              (law.query_runs v u t begun (set_company_id context.company_id) u w₁ r₁ one))
            (ap (λ o. o.1.session)
              (law.query_runs v u t begun (set_user_role (session_role context)) w₁ w₂ r₂ two))
            (ap (λ o. law.view o.1) last))

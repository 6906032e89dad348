-- ===== src/TenantAccess/Unrecorded.antt =====
-- tenant-access.service.ts over the pool's connections: the row-level security policy refuses the
-- audit event of a denial and hides those that are there, since nothing sets the session context.
use oc.Base.{
  ℕ, ◌+◌, ◌≤◌, String, Option, none, some, false, List, [], ◌∷◌, ◌≡◌, refl, sym, ◌∙◌, ap, arith,
}
use oc.Base.{lt→ltb, coalesce, first}
use oc.Base.Text.{truthy}
use oc.Base.Exec.{Result, Failure, ok, err, pure, throw, lift, forbidden}
use oc.Base.Exec.Laws.{bind_keeps_at, bind_keeps, catch_keeps, best_effort_keeps, if_keeps}
use oc.Contracts.{AuthContext}
use oc.Database.{QueryExecutor, SqlDriver, service_executor}
use oc.Database.Statements.{
  Statement, Row, QueryResult, AuditEventRow, insert_audit_event, count_denied, select_blocked,
}
use oc.Sql.Schema.{Tables, Server, AuditEvent, cleared}
use oc.Sql.Policy.{Dialect, tenant_predicate, sql_eq}
use oc.Sql.Run.{Moment, select}
use oc.Sql.Execute.{
  execute, visible_audit_events, run_insert_audit_event, run_count_denied, run_select_blocked,
}
use oc.Sql.Driver.{RunsDirectly}
use oc.Audit.{record_event, audit_row}
use oc.Audit.Enumeration.{EnumerationPolicy, record_denied_lookup, protect, is_blocked}
use oc.TenantAccess.{
  record_cross_tenant_denial, count_denial, denial_event, get_tenant_admin_access,
  source_is_blocked, is_source_blocked, check_permission, on_denial,
}

sql_eq-none : (a : Option String) → sql_eq a none ≡ false
sql_eq-none none = refl
sql_eq-none (some a) = refl

module _ (dialect : Dialect) where
  -- Under an empty session context no row passes the policy.
  pub tenant_predicate-cleared : (c : Option String) → tenant_predicate dialect cleared c ≡ false
  unfolding tenant_predicate
  tenant_predicate-cleared c = rw (sql_eq-none c)

  select_none :
      (es : List AuditEvent)
      → select (λ (e : AuditEvent). tenant_predicate dialect cleared e.event.company_id) es ≡ []
  unfolding select
  select_none [] = refl
  select_none (e ∷ es) = rw (tenant_predicate-cleared e.event.company_id) (select_none es)

  -- so an audit event is refused
  insert_audit_event-cleared :
      (m : Moment) (e : AuditEventRow) (t : Tables) (r : QueryResult (Unit {0})) (s : Server)
      → ¬ (
          run_insert_audit_event dialect m e (record { session = cleared; tables = t }) ≡ (ok r, s))
  unfolding run_insert_audit_event throw
  insert_audit_event-cleared m e t r s h = ground (arith, tenant_predicate-cleared e.company_id)

  -- and those that are there are not counted.
  visible_audit_events-cleared : (t : Tables) → visible_audit_events dialect cleared t ≡ []
  unfolding visible_audit_events
  visible_audit_events-cleared t = select_none t.audit_events

  count_denied-cleared :
      (m : Moment) (ip : String) (window : ℕ) (t : Tables) (r : QueryResult ℕ) (s : Server)
      → run_count_denied dialect m ip window (record { session = cleared; tables = t }) ≡ (ok r, s)
      → (coalesce (first r.rows) 0 ≡ 0) × (s.tables ≡ t)
  unfolding run_count_denied select
  count_denied-cleared m ip window t r s h =
      let k = rw (visible_audit_events-cleared t) at h in
      let rows : r.rows ≡ 0 ∷ [] = cc in (rw rows, ap (λ o. o.1.tables) (sym k))

-- With a threshold of at least 2 one denial is not enough.
protect_none :
    {W : Type 0} (policy : EnumerationPolicy) (ip : String) (executor : QueryExecutor W)
    → 2 ≤ policy.threshold
    → protect policy ip 0 executor ≡ pure false
unfolding protect
protect_none policy ip executor h = rw (lt→ltb (0 + 1) policy.threshold (omega arith))

module _ {W : Type 0} {dialect : Dialect} {driver : SqlDriver W}
    (law : RunsDirectly dialect driver) where
  -- A statement keeps the committed data if it does whenever it runs.
  query_keeps :
      (q : Statement)
      → ((m : Moment) (t : Tables) (r : QueryResult (Row q)) (s : Server)
          → execute dialect m q (record { session = cleared; tables = t }) ≡ (ok r, s)
          → s.tables ≡ t)
      → (w : W) → law.durable (driver.query q w).1 ≡ law.durable w
  query_keeps q harmless w = go (driver.query q w) refl
    where
      go :
          (o : Result (QueryResult (Row q)) × W)
          → driver.query q w ≡ o
          → law.durable o.1 ≡ law.durable w
      go (ok r, v) e =
          let (s, ran, committed) = law.query_runs q w v r e in committed ∙ harmless _ _ r s ran
      go (err x, v) e = ap (λ o. law.durable o.1) (sym e) ∙ law.query_fails q w x (ap (λ o. o.0) e)

  record_event_keeps :
      (actor : AuthContext) (target : String) (w : W)
      → law.durable (record_event (denial_event actor target) (service_executor driver) w).1
        ≡ law.durable w
  unfolding record_event pure execute
  record_event_keeps actor target =
      bind_keeps law.durable _ _
        (query_keeps (insert_audit_event (audit_row (denial_event actor target)))
          (λ m t r s h. absurd (insert_audit_event-cleared dialect m _ t r s h)))
        (λ _ w. refl)

  record_denied_lookup_keeps :
      (policy : EnumerationPolicy) (ip : String)
      → 2 ≤ policy.threshold
      → (w : W)
      → law.durable (record_denied_lookup policy ip (service_executor driver) w).1 ≡ law.durable w
  unfolding record_denied_lookup execute pure
  record_denied_lookup_keeps policy ip enough w =
      bind_keeps_at law.durable _ _ w
        (query_keeps (count_denied ip policy.window_seconds)
          (λ m t r s h. (count_denied-cleared dialect m ip _ t r s h).1) w)
        λ r v counted.
          let (s, ran, _) = law.query_runs (count_denied ip policy.window_seconds) w v r counted in
          protect_keeps (coalesce (first r.rows) 0)
            (count_denied-cleared dialect _ ip _ _ r s ran).0 v
    where
      protect_keeps :
          (n : ℕ)
          → n ≡ 0
          → (v : W)
          → law.durable (protect policy ip n (service_executor driver) v).1 ≡ law.durable v
      protect_keeps n none_seen v =
          rw none_seen (rw (protect_none policy ip (service_executor driver) enough) refl)

  module _ (policy : EnumerationPolicy) (enough : 2 ≤ policy.threshold) where
    count_denial_keeps :
        (o : Option String) (w : W)
        → law.durable (count_denial (service_executor driver) policy o w).1 ≡ law.durable w
    unfolding count_denial pure
    count_denial_keeps none w = refl
    count_denial_keeps (some ip) w =
        if_keeps law.durable (truthy ip) _ _
          (best_effort_keeps law.durable _ (
            bind_keeps law.durable _ _ (record_denied_lookup_keeps policy ip enough) (λ _ v. refl)))
          (λ v. refl) w

    record_cross_tenant_denial_keeps :
        (actor : AuthContext) (target : String) (w : W)
        → law.durable (record_cross_tenant_denial (service_executor driver) policy actor target w).1
          ≡ law.durable w
    unfolding record_cross_tenant_denial
    record_cross_tenant_denial_keeps actor target =
        bind_keeps law.durable _ _
          (best_effort_keeps law.durable _ (record_event_keeps actor target))
          (λ _. count_denial_keeps actor.source_ip)

    is_source_blocked_keeps :
        (ip : String) (w : W)
        → law.durable (is_source_blocked (service_executor driver) policy ip w).1 ≡ law.durable w
    unfolding is_source_blocked is_blocked pure execute run_select_blocked
    is_source_blocked_keeps ip =
        catch_keeps law.durable _ _
          (bind_keeps law.durable _ _
            (query_keeps (select_blocked ip) (λ m t r s h. ap (λ o. o.1.tables) (sym h)))
            (λ _ v. refl))
          (λ _ v. refl)

    on_denial_keeps :
        (actor : AuthContext) (target : String) (e : Failure) (w : W)
        → law.durable (on_denial (service_executor driver) policy actor target e w).1
          ≡ law.durable w
    unfolding on_denial throw
    on_denial_keeps actor target (forbidden m) w =
        bind_keeps law.durable _ _ (record_cross_tenant_denial_keeps actor target) (λ _ v. refl) w
    on_denial_keeps actor target _ w = refl

    source_is_blocked_keeps :
        (o : Option String) (w : W)
        → law.durable (source_is_blocked (service_executor driver) policy o w).1 ≡ law.durable w
    unfolding source_is_blocked pure
    source_is_blocked_keeps none w = refl
    source_is_blocked_keeps (some ip) w =
        if_keeps law.durable (truthy ip) _ _ (is_source_blocked_keeps ip) (λ v. refl) w

    -- Over pooled connections with the laws of RunsDirectly, and with a threshold of at least 2,
    -- no request for access changes the committed data, denied or not: neither an audit event nor
    -- a protection of the source is recorded.
    pub get_tenant_admin_access-unrecorded :
        (store : Option AuthContext) (company_id : String) (w : W)
        → law.durable
            (get_tenant_admin_access (service_executor driver) policy store company_id w).1
          ≡ law.durable w
    unfolding get_tenant_admin_access check_permission throw lift pure
    get_tenant_admin_access-unrecorded store company_id =
        bind_keeps law.durable _ _ (λ w. refl)
          λ actor. bind_keeps law.durable _ _ (source_is_blocked_keeps actor.source_ip) λ blocked.
            if_keeps law.durable blocked _ _ (λ w. refl)
              (bind_keeps law.durable _ _
                (catch_keeps law.durable _ _ (λ w. refl) (on_denial_keeps actor company_id))
                (λ _ w. refl))

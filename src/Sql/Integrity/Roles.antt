-- ===== src/Sql/Integrity/Roles.antt =====
-- New role assignments, and used bootstrap accesses, keep the constraints.
use oc.Base.{
  String, some, Bool, true, false, List, [], ◌∷◌, ◌++◌, map, ◌≡◌, refl, ap, ◌∙◌, eqb, arith, ◌||◌,
}
use oc.Contracts.{tenant, tenant_admin, role_eq}
use oc.Sql.Schema.{Role, User, UserRole, Tables, Session}
use oc.Sql.Policy.{Dialect}
use oc.Sql.Run.{Moment, select, exists}
use oc.Sql.Rows.{company_exists, user_exists, has_conflict, tenant_admin_role_rows, same_user_role}
use oc.Sql.Execute.{update_target}
use oc.Sql.Effects.{with_tenant_admin, with_update}
use oc.Sql.Each.{
  Each, Distinct, Each-imp, Each-all, Each-append, Each-selected, Each-map, Distinct-select,
  Distinct-append, Distinct-map, or_true,
}
use oc.Sql.Identity.{identity-update_target, user_known-update_target}
use oc.Sql.Integrity.{
  IsIntact, UserFits, UserRoleFits, user_clash, role_clash, same_global_role, role_exists,
}
use oc.Sql.Integrity.Keeps.{Grows, UserFits-grows, UserRoleFits-grows, AuditEventFits-grows}

known_roles :
    (rs : List Role) → Each (λ (r : Role). exists (λ (x : Role). eqb x.id r.id) rs ≡ true) rs
unfolding exists
known_roles [] = tt
known_roles (r ∷ rs) = (
  here (eqb r.id r.id) (exists (λ (x : Role). eqb x.id r.id) rs) (ground arith),
  Each-imp _ _ (λ x. or_true (eqb r.id x.id) _) rs (known_roles rs),
)
  where
    here : (a b : Bool) → a ≡ true → (a || b) ≡ true
    here true b h = refl
    here false b h = absurd (cc)

module _ (user_id company_id : String) where
  abbrev assigned : Role → UserRole
  assigned r = record { user_id = user_id; role_id = r.id; company_id = some company_id }

  assigned_apart :
      (a b : Role) → role_clash a b ≡ false → same_user_role (assigned a) (assigned b) ≡ false
  assigned_apart a b h = ground arith

  global_roles_kept :
      (rs : List Role) (old : List UserRole)
      → Distinct same_global_role old
      → Distinct same_global_role (map assigned rs ++ old)
  global_roles_kept [] old h = h
  global_roles_kept (r ∷ rs) old h =
      (Each-all _ (λ x. refl) (map assigned rs ++ old), global_roles_kept rs old h)

  pub with_tenant_admin-IsIntact :
      (dialect : Dialect) (t : Tables)
      → IsIntact dialect t
      → user_exists t user_id ≡ true
      → company_exists t company_id ≡ true
      → has_conflict t.user_roles (tenant_admin_role_rows user_id company_id t.roles) ≡ false
      → IsIntact dialect (with_tenant_admin user_id company_id t)
  unfolding tenant_admin_role_rows
  with_tenant_admin-IsIntact dialect t h user company free =
      let picked = select (λ (r : Role). role_eq r.code (tenant tenant_admin)) t.roles in
      let fits : (r : Role) → role_exists t r.id ≡ true → UserRoleFits t (assigned r) =
        λ r known. (user, known, company) in
      record {
        companies = h.companies;
        roles = h.roles;
        users = h.users;
        tenant_roles =
            Distinct-append same_user_role (map assigned picked) t.user_roles
              (Distinct-map assigned role_clash same_user_role assigned_apart picked
                (Distinct-select role_clash _ t.roles h.roles))
              h.tenant_roles free;
        global_roles = global_roles_kept picked t.user_roles h.global_roles;
        users_fit = h.users_fit;
        user_roles_fit =
            Each-append _ (map assigned picked) t.user_roles
              (Each-map assigned _ _ fits picked (Each-selected _ _ t.roles (known_roles t.roles)))
              h.user_roles_fit;
        audit_events_fit = h.audit_events_fit;
        protections_fit = h.protections_fit;
      }

module _ (dialect : Dialect) (m : Moment) (s : Session) (user_id : String) where
  updated_apart :
      (a b : User)
      → user_clash dialect a b ≡ false
      → user_clash dialect
          (update_target dialect m.now s user_id a)
          (update_target dialect m.now s user_id b)
        ≡ false
  updated_apart a b h =
      let ka = identity-update_target dialect m.now s user_id a in
      let kb = identity-update_target dialect m.now s user_id b in
      rw (ap (λ i. i.id) ka, ap (λ i. i.id) kb, ap (λ i. i.email) ka, ap (λ i. i.email) kb) h

  updated_fits :
      (t : Tables) (u : User) → UserFits t u → UserFits t (update_target dialect m.now s user_id u)
  updated_fits t u fits =
      let k = identity-update_target dialect m.now s user_id u in
      rw (ap (λ i. i.company_id) k, ap (λ i. i.is_global_admin) k) fits

  pub with_update-IsIntact :
      (t : Tables) → IsIntact dialect t → IsIntact dialect (with_update dialect m s user_id t)
  with_update-IsIntact t h =
      let g : Grows t (with_update dialect m s user_id t) = record {
        companies = λ c k. k;
        users = λ u k. user_known-update_target dialect m.now s user_id u t.users ∙ k;
        roles = refl;
      } in
      record {
        companies = h.companies;
        roles = h.roles;
        users =
            Distinct-map _ (user_clash dialect) (user_clash dialect) updated_apart t.users h.users;
        tenant_roles = h.tenant_roles;
        global_roles = h.global_roles;
        users_fit =
            Each-map _ _ _
              (λ u fits.
                UserFits-grows g (update_target dialect m.now s user_id u) (updated_fits t u fits))
              t.users h.users_fit;
        user_roles_fit = Each-imp _ _ (UserRoleFits-grows g) t.user_roles h.user_roles_fit;
        audit_events_fit = Each-imp _ _ (AuditEventFits-grows g) t.audit_events h.audit_events_fit;
        protections_fit = h.protections_fit;
      }
